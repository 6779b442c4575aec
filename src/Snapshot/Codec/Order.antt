-- ===== src/Snapshot/Codec/Order.antt =====
-- gno_snapshot_codec.go: extraction of values that differ in the order of a map's entries.
use mitum_smart_contract.Base.{
  suc, String, ◌∷◌, ◌≡◌, ◌≢◌, refl, sym, ap, ◌∙◌, Map, ok, ◌>>◌, >>=-eq-ok, >>-eq-ok,
}
use mitum_smart_contract.Schema.TypeRef.{
  TypeKind, TypeRef, StructFields, end, field, TypeRegistry, kind_of, fields_of, resolve_type,
}
use mitum_smart_contract.Snapshot.{SnapshotValue, SnapshotFields, SnapshotItems}
use mitum_smart_contract.Snapshot.Values.{
  Readings, MachineValue, typed_value, MachineObject, struct_object, map_object, slice_object,
  MachineValues, no_values, with_value, MachineEntries, empty_map, with_key, values_length,
}
use mitum_smart_contract.Snapshot.Sorting.{insert_by_key, sort_by_key}
use mitum_smart_contract.Snapshot.Sorting.Order.{insert_swap}
use mitum_smart_contract.Snapshot.Codec.{
  snapshot_slice_elem, snapshot_map_elem, extract, extract_struct, extract_fields, extract_map,
  extract_entries, extract_slice, extract_items,
}

-- Two values that differ in the order of insertion of the entries of their maps, at any depth.
mutual
  pub data SameValue : MachineValue → MachineValue → Type 0 where
    same_value :
        {r : Readings} {o p : MachineObject}
        → SameObject o p
        → SameValue (typed_value r o) (typed_value r p)

  pub data SameObject : MachineObject → MachineObject → Type 0 where
    same_object : {o : MachineObject} → SameObject o o
    same_struct :
        {vs ws : MachineValues}
        → SameValues vs ws
        → SameObject (struct_object vs) (struct_object ws)
    same_slice :
        {vs ws : MachineValues} → SameValues vs ws → SameObject (slice_object vs) (slice_object ws)
    same_map :
        {es fs : MachineEntries} → SameEntries es fs → SameObject (map_object es) (map_object fs)

  pub data SameValues : MachineValues → MachineValues → Type 0 where
    same_nothing : SameValues no_values no_values
    same_next :
        {v w : MachineValue} {vs ws : MachineValues}
        → SameValue v w
        → SameValues vs ws
        → SameValues (with_value v vs) (with_value w ws)

  pub data SameEntries : MachineEntries → MachineEntries → Type 0 where
    same_empty : SameEntries empty_map empty_map
    same_key :
        {k : String} {v w : MachineValue} {es fs : MachineEntries}
        → SameValue v w
        → SameEntries es fs
        → SameEntries (with_key k v es) (with_key k w fs)
    swapped :
        {j k : String} {v w : MachineValue} {es : MachineEntries}
        → j ≢ k
        → SameEntries (with_key j v (with_key k w es)) (with_key k w (with_key j v es))
    in_turn :
        {es fs gs : MachineEntries} → SameEntries es fs → SameEntries fs gs → SameEntries es gs

same_length : {vs ws : MachineValues} → SameValues vs ws → values_length vs ≡ values_length ws
same_length same_nothing = refl
same_length (same_next s ss) = ap suc (same_length ss)

module _ (reg : TypeRegistry) where
  abbrev SortsTo : TypeRef → MachineEntries → Map SnapshotValue → Type 0
  SortsTo elem es m =
      (m' : Map SnapshotValue) × (extract_entries reg elem es ≡ ok m')
      × (sort_by_key m' ≡ sort_by_key m)

  entries_ok :
      (elem : TypeRef) (k : String) (v : MachineValue) (es : MachineEntries) (a : SnapshotValue)
      (m : Map SnapshotValue)
      → extract reg elem v ≡ ok a
      → extract_entries reg elem es ≡ ok m
      → extract_entries reg elem (with_key k v es) ≡ ok ((k, a) ∷ m)
  unfolding extract
  entries_ok elem k v es a m h h' = rw (h, h') refl

  swap_sorts :
      (elem : TypeRef) (j k : String) (v w : MachineValue) (es : MachineEntries)
      (m : Map SnapshotValue)
      → j ≢ k
      → extract_entries reg elem (with_key j v (with_key k w es)) ≡ ok m
      → SortsTo elem (with_key k w (with_key j v es)) m
  unfolding extract sort_by_key
  swap_sorts elem j k v w es m ne h =
      let (a, h1, h2) = >>=-eq-ok (extract reg elem v) _ h in
      let (rest, h3, h4) = >>=-eq-ok (extract_entries reg elem (with_key k w es)) _ h2 in
      let (b, h5, h6) = >>=-eq-ok (extract reg elem w) _ h3 in
      let (tail, h7, h8) = >>=-eq-ok (extract_entries reg elem es) _ h6 in
      let e : m ≡ ((j, a) ∷ (k, b) ∷ tail) = cc (h4, h8) in
      (
        (k, b) ∷ (j, a) ∷ tail,
        entries_ok elem k w (with_key j v es) b ((j, a) ∷ tail) h5
            (entries_ok elem j v es a tail h1 h7),
        rw e (sym (insert_swap j k a b (sort_by_key tail) ne)),
      )

  -- the `switch` of `ExtractSnapshotValue`, given what its cases do
  module _ (t : TypeRef) (r : Readings) (o p : MachineObject)
      (in_struct : (fs : StructFields) (s : SnapshotValue)
        → extract_struct reg t fs o ≡ ok s
        → extract_struct reg t fs p ≡ ok s)
      (in_map : (elem : TypeRef) (s : SnapshotValue)
        → extract_map reg t elem o ≡ ok s
        → extract_map reg t elem p ≡ ok s)
      (in_slice : (elem : TypeRef) (s : SnapshotValue)
        → extract_slice reg t elem o ≡ ok s
        → extract_slice reg t elem p ≡ ok s) where
    switch_same :
        (s : SnapshotValue) (k : TypeKind)
        → kind_of (resolve_type reg t) ≡ k
        → extract reg t (typed_value r o) ≡ ok s
        → extract reg t (typed_value r p) ≡ ok s
    unfolding extract
    switch_same s TypeKind.scalar e h = rw e (rw e at h)
    switch_same s TypeKind.struct e h =
        let (named, h1) =
          >>-eq-ok _ (extract_struct reg t (fields_of (resolve_type reg t)) o) (rw e at h) in
        rw (e, named) (in_struct (fields_of (resolve_type reg t)) s h1)
    switch_same s TypeKind.map e h =
        let (elem, typed, h1) =
          >>=-eq-ok (snapshot_map_elem reg t (resolve_type reg t)) _ (rw e at h) in
        rw (e, typed) (in_map elem s h1)
    switch_same s TypeKind.slice e h =
        let (elem, typed, h1) =
          >>=-eq-ok (snapshot_slice_elem reg t (resolve_type reg t)) _ (rw e at h) in
        rw (e, typed) (in_slice elem s h1)
    switch_same s _ e h = cc (rw e at h)

  mutual
    unfolding extract sort_by_key

    extract_same :
        {v w : MachineValue}
        → SameValue v w
        → (t : TypeRef) (s : SnapshotValue) → extract reg t v ≡ ok s
        → extract reg t w ≡ ok s
    extract_same (same_value {r} {o} {p} same) t s =
        switch_same t r o p (struct_same same t) (map_same same t) (slice_same same t) s
          (kind_of (resolve_type reg t)) refl

    struct_same :
        {o p : MachineObject}
        → SameObject o p
        → (t : TypeRef) (fs : StructFields) (s : SnapshotValue) → extract_struct reg t fs o ≡ ok s
        → extract_struct reg t fs p ≡ ok s
    struct_same same_object t fs s h = h
    struct_same (same_struct {vs} {ws} same) t fs s h =
        let (fields, h1, h2) = >>=-eq-ok (_ >> extract_fields reg fs vs) _ h in
        let (counted, h3) = >>-eq-ok _ (extract_fields reg fs vs) h1 in
        rw (sym (same_length same), counted, fields_same same fs fields h3) h2
    struct_same (same_slice same) t fs s h = cc h
    struct_same (same_map same) t fs s h = cc h

    fields_same :
        {vs ws : MachineValues}
        → SameValues vs ws
        → (fs : StructFields) (captured : SnapshotFields) → extract_fields reg fs vs ≡ ok captured
        → extract_fields reg fs ws ≡ ok captured
    fields_same same_nothing fs captured h = h
    fields_same (same_next {v} {w} {vs} {ws} s ss) end captured h = h
    fields_same (same_next {v} {w} {vs} {ws} s ss) (field n t fs) captured h =
        let (first, h1, h2) = >>=-eq-ok (_ >> extract reg t v) _ h in
        let (valid, h3) = >>-eq-ok _ (extract reg t v) h1 in
        let (rest, h4, h5) = >>=-eq-ok (extract_fields reg fs vs) _ h2 in
        rw (valid, extract_same s t first h3, fields_same ss fs rest h4) h5

    slice_same :
        {o p : MachineObject}
        → SameObject o p
        → (t elem : TypeRef) (s : SnapshotValue) → extract_slice reg t elem o ≡ ok s
        → extract_slice reg t elem p ≡ ok s
    slice_same same_object t elem s h = h
    slice_same (same_slice {vs} {ws} same) t elem s h =
        let (items, h1, h2) = >>=-eq-ok (extract_items reg elem vs) _ h in
        rw (items_same same elem items h1) h2
    slice_same (same_struct same) t elem s h = cc h
    slice_same (same_map same) t elem s h = cc h

    items_same :
        {vs ws : MachineValues}
        → SameValues vs ws
        → (elem : TypeRef) (items : SnapshotItems) → extract_items reg elem vs ≡ ok items
        → extract_items reg elem ws ≡ ok items
    items_same same_nothing elem items h = h
    items_same (same_next {v} {w} {vs} {ws} s ss) elem items h =
        let (first, h1, h2) = >>=-eq-ok (extract reg elem v) _ h in
        let (rest, h3, h4) = >>=-eq-ok (extract_items reg elem vs) _ h2 in
        rw (extract_same s elem first h1, items_same ss elem rest h3) h4

    map_same :
        {o p : MachineObject}
        → SameObject o p
        → (t elem : TypeRef) (s : SnapshotValue) → extract_map reg t elem o ≡ ok s
        → extract_map reg t elem p ≡ ok s
    map_same same_object t elem s h = h
    map_same (same_map {es} {fs} same) t elem s h =
        let (m, h1, h2) = >>=-eq-ok (extract_entries reg elem es) _ h in
        let (m', h3, e) = entries_same same elem m h1 in rw (h3, e) h2
    map_same (same_struct same) t elem s h = cc h
    map_same (same_slice same) t elem s h = cc h

    entries_same :
        {es fs : MachineEntries}
        → SameEntries es fs
        → (elem : TypeRef) (m : Map SnapshotValue) → extract_entries reg elem es ≡ ok m
        → SortsTo elem fs m
    entries_same same_empty elem m h = (m, h, refl)
    entries_same (same_key {k} {v} {w} {es} {fs} s ss) elem m h =
        let (first, h1, h2) = >>=-eq-ok (extract reg elem v) _ h in
        let (rest, h3, h4) = >>=-eq-ok (extract_entries reg elem es) _ h2 in
        let e : m ≡ ((k, first) ∷ rest) = cc h4 in
        let (rest', h5, e') = entries_same ss elem rest h3 in
        (
          (k, first) ∷ rest',
          rw (extract_same s elem first h1, h5) refl,
          rw e (ap (insert_by_key k first) e'),
        )
    entries_same (swapped {j} {k} {v} {w} {es} ne) elem m h = swap_sorts elem j k v w es m ne h
    entries_same (in_turn {es} {fs} {gs} s s') elem m h =
        let (m', h1, e1) = entries_same s elem m h in
        let (m'', h2, e2) = entries_same s' elem m' h1 in (m'', h2, e2 ∙ e1)

-- A value that is captured has the same snapshot whatever the order in which its maps, at any depth, got
-- their entries.
pub extract-SameValue :
    (reg : TypeRegistry) (t : TypeRef) (v w : MachineValue) (s : SnapshotValue)
    → SameValue v w
    → extract reg t v ≡ ok s
    → extract reg t w ≡ ok s
extract-SameValue reg t v w s same = extract_same reg same t s
