-- ===== src/Snapshot/Document/Restored.antt =====
-- gno_snapshot_codec.go: `RestoreSnapshot` on what `CaptureSnapshot` wrote.
use mitum_smart_contract.Base.{
  inr, eq_iff, inl, Bool-cases, >>-eq-ok, map_err-eq-ok, >>=-eq-ok, eq_refl, ℕ, String, Bool, false,
  ◌||◌, none, some, List, [], ◌∷◌, ◌≡◌, ◌∙◌, refl, sym, ◌==◌, Result, ok, map_err, ◌>>=◌, err,
  lookup, All, arith, len,
}
use mitum_smart_contract.Schema.TypeRef.{TypeRegistry, ContractSchema, PersistentBindingSchema}
use mitum_smart_contract.Snapshot.{
  SnapshotValue, SnapshotDoc, SnapshotBinding, validate_snapshot_limits,
  validate_snapshot_size_limit,
}
use mitum_smart_contract.Snapshot.Counts.{snapshot_limits_iff}
use mitum_smart_contract.Snapshot.Document.Json.{Json, Laws, IsReadable}
use mitum_smart_contract.Snapshot.Values.{MachineValue}
use mitum_smart_contract.Snapshot.Codec.{extract}
use mitum_smart_contract.Snapshot.Build.{build_expr, Expr}
use mitum_smart_contract.Snapshot.Build.Restorable.{restorable_lem}
use mitum_smart_contract.Snapshot.Document.{
  assignment_panicked, gno_snapshot_version, in_binding, DocumentError, find_persistent_binding,
  capture_bindings, capture, restore_bindings, restore,
}

abbrev is_name : String → List PersistentBindingSchema → Bool
is_name name [] = false
is_name name (b ∷ bs) = b.name == name || is_name name bs

-- No two variables share a name.
abbrev pub AreDistinct : List PersistentBindingSchema → Type 0
AreDistinct [] = Unit
AreDistinct (b ∷ bs) = (is_name b.name bs ≡ false) × AreDistinct bs

abbrev IsFound : List PersistentBindingSchema → PersistentBindingSchema → Type 0
IsFound all b = find_persistent_binding b.name all ≡ some b

found_apart :
    (b c : PersistentBindingSchema) (bs : List PersistentBindingSchema)
    → is_name b.name (c ∷ bs) ≡ false
    → (b.name == c.name) ≡ false
found_apart b c bs h = elim (Bool-cases (b.name == c.name)) [
  | inl e ↦ cc (rw (sym ((eq_iff b.name c.name).0 e), eq_refl b.name) at h)
  | inr e ↦ e
]

found_rest :
    (b c : PersistentBindingSchema) (bs : List PersistentBindingSchema)
    → is_name b.name (c ∷ bs) ≡ false
    → is_name b.name bs ≡ false
found_rest b c bs h = ground arith

IsFound-later :
    (b : PersistentBindingSchema) (all bs : List PersistentBindingSchema)
    → is_name b.name bs ≡ false
    → All (IsFound all) bs
    → All (IsFound (b ∷ all)) bs
unfolding find_persistent_binding
IsFound-later b all [] h hs = tt
IsFound-later b all (c ∷ bs) h (f, fs) =
    (rw (found_apart b c bs h) f, IsFound-later b all bs (found_rest b c bs h) fs)

IsFound-each : (bs : List PersistentBindingSchema) → AreDistinct bs → All (IsFound bs) bs
unfolding find_persistent_binding
IsFound-each [] d = tt
IsFound-each (b ∷ bs) (h, d) =
    (rw (eq_refl b.name) refl, IsFound-later b bs bs h (IsFound-each bs d))

-- The assignments, one after the other, until one panics.
abbrev pub assign_all :
    {Machine : Type 0}
    → (Machine → String → Expr → Result String Machine)
    → Machine
    → List (String × Expr)
    → Result DocumentError Machine
assign_all assign m [] = ok m
assign_all assign m (x ∷ xs) =
    map_err assignment_panicked (assign m x.0 x.1) >>= λ m'. assign_all assign m' xs

-- One assignment for each variable, in their order: to its name, of the expression that is built from the
-- value extracted from it.
pub data AreRebuilt (reg : TypeRegistry) (globals : String → MachineValue)
    : List PersistentBindingSchema → List (String × Expr) → Type 0 where
  nothing_rebuilt : AreRebuilt reg globals [] []
  rebuilt :
      {b : PersistentBindingSchema} {bs : List PersistentBindingSchema} {v : SnapshotValue}
      {e : Expr} {xs : List (String × Expr)}
      → extract reg b.typ (globals b.name) ≡ ok v
      → build_expr reg b.typ v ≡ ok e
      → AreRebuilt reg globals bs xs
      → AreRebuilt reg globals (b ∷ bs) ((b.name, e) ∷ xs)

module _ {Machine : Type 0} (assign : Machine → String → Expr → Result String Machine)
    (schema : ContractSchema) (globals : String → MachineValue)
    (empty : lookup "" schema.types ≡ none) where
  after_assignment :
      (r : Result String Machine) (f g : Machine → Result DocumentError Machine)
      → ((m : Machine) → f m ≡ g m)
      → (map_err assignment_panicked r >>= f) ≡ (map_err assignment_panicked r >>= g)
  after_assignment (ok m) f g same = same m
  after_assignment (err e) f g same = refl

  -- the assignments that captured bindings lead to
  bindings_assign :
      (bs : List PersistentBindingSchema) (captured : List SnapshotBinding)
      → All (IsFound schema.persistent_globals) bs
      → capture_bindings schema.types globals bs ≡ ok captured
      → (xs : List (String × Expr)) × AreRebuilt schema.types globals bs xs
        × ((m : Machine) → restore_bindings assign schema m captured ≡ assign_all assign m xs)
  unfolding capture_bindings restore_bindings
  bindings_assign [] captured fs h =
      let e : captured ≡ [] = cc h in ([], nothing_rebuilt, λ m. rw e refl)
  bindings_assign (b ∷ bs) captured (f, fs) h =
      let (v, h1, h2) =
        >>=-eq-ok (map_err (in_binding b.name) (extract schema.types b.typ (globals b.name))) _ h in
      let (rest, h3, h4) = >>=-eq-ok (capture_bindings schema.types globals bs) _ h2 in
      let e : captured ≡ (record { name = b.name; value = v } ∷ rest) = cc h4 in
      let extracted = map_err-eq-ok _ _ v h1 in
      let (x, h5) = restorable_lem schema.types empty b.typ (globals b.name) v extracted in
      let (xs, same, all) = bindings_assign bs rest fs h3 in
      (
        (b.name, x) ∷ xs,
        rebuilt extracted h5 same,
        λ m. rw (e, f, h5) (after_assignment (assign m b.name x) _ _ all),
      )

within_limits :
    (doc : SnapshotDoc) (bytes : ℕ)
    → validate_snapshot_limits doc bytes ≡ ok tt
    → validate_snapshot_size_limit bytes ≡ ok tt
unfolding validate_snapshot_size_limit
within_limits doc bytes h =
    let (size, entries, items, nodes) = (snapshot_limits_iff doc bytes).0 (rw h refl) in
    ground arith

-- A document within the limits is restored from its text as its bindings are.
restore-eq :
    {Machine : Type 0} (assign : Machine → String → Expr → Result String Machine)
    (unmarshal : String → Result DocumentError SnapshotDoc) (schema : ContractSchema) (m : Machine)
    (bytes : String) (doc : SnapshotDoc)
    → (bytes == "") ≡ false
    → unmarshal bytes ≡ ok doc
    → validate_snapshot_limits doc (len bytes) ≡ ok tt
    → restore assign unmarshal schema m bytes ≡ restore_bindings assign schema m doc.bindings
unfolding restore
restore-eq assign unmarshal schema m bytes doc some_bytes read limits =
    rw (some_bytes, within_limits doc (len bytes) limits, read, limits) refl

-- A captured snapshot, all of whose texts are valid UTF-8 and which nests at most 3000 values deep, passes
-- every check of its restoration: the restoration is, for any machine, one assignment for each persistent variable, in their order, of the
-- expression built from the value that was captured of it, and it fails only where an assignment panics.
-- The schema has no type with an empty name and no two variables of one name.
pub captured-restores :
    {Machine : Type 0} (assign : Machine → String → Expr → Result String Machine) (json : Json)
    → Laws json
    → (globals : String → MachineValue) (schema : ContractSchema) → lookup "" schema.types ≡ none
    → AreDistinct schema.persistent_globals
    → (bytes : String) → capture json.marshal globals schema ≡ ok bytes
    → IsReadable json bytes
    → (xs : List (String × Expr)) × AreRebuilt schema.types globals schema.persistent_globals xs
      × ((m : Machine) → restore assign json.unmarshal schema m bytes ≡ assign_all assign m xs)
unfolding capture
captured-restores assign json laws globals schema empty distinct bytes h readable =
    let (bindings, h1, h2) =
      >>=-eq-ok (capture_bindings schema.types globals schema.persistent_globals) _ h in
    let doc : SnapshotDoc = record { version = gno_snapshot_version; bindings = bindings } in
    let (written, h3, h4) = >>=-eq-ok (json.marshal doc) _ h2 in
    let (limits, h5) = >>-eq-ok _ (ok written) h4 in
    let e : written ≡ bytes = cc h5 in
    let marshalled = rw e at h3 in
    let (xs, same, all) =
      bindings_assign assign schema globals empty schema.persistent_globals bindings
        (IsFound-each schema.persistent_globals distinct) h1 in
    (
      xs,
      same,
      λ m.
          restore-eq assign json.unmarshal schema m bytes doc (laws.not_empty doc bytes marshalled)
            (laws.read_back doc bytes (readable doc marshalled) marshalled)
            (rw e at (map_err-eq-ok _ (validate_snapshot_limits doc (len written)) tt limits))
          ∙ all m,
    )
