-- ===== src/Persist/Analyzed/Registry.antt =====
-- schema_analyzer.go: the registry of an analysis and the shape of its types.
use mitum_smart_contract.Base.{
  Option, String, true, false, none, some, [], ◌∷◌, ◌≡◌, refl, sym, ◌==◌, Map, lookup, insert, All,
  ok, >>=-eq-ok, Bool-cases, inl, inr,
}
use mitum_smart_contract.Schema.TypeRef.{TypeKind, TypeRef, type_ref, TypeRegistry, kind_of}
use mitum_smart_contract.Schema.Source.{TypeExpr}
use mitum_smart_contract.Schema.Analyzer.{
  register_as, declared_or, TypeDecls, resolve_type_expr, with_name, resolve_named_type, populate,
}
use mitum_smart_contract.Schema.Complexity.Walks.{IsKeyed, IsNamedStruct}
use mitum_smart_contract.Persist.RoundTrip.{is_well_shaped}
use mitum_smart_contract.Persist.Schemas.{registry_is_well_shaped}
use mitum_smart_contract.Persist.Analyzed.{IsResolved, resolve-IsResolved}

-- The names that are declared are not empty.
abbrev pub AreNamed : TypeDecls → Type 0
AreNamed = All λ entry. (entry.0 == "") ≡ false

abbrev IsEntry : String × TypeRef → Type 0
IsEntry entry = IsNamedStruct entry × (is_well_shaped entry.1 ≡ true)

insert-All {ℓ} :
    {V : Type ℓ} (P : String × V → Type 0) (k : String) (v : V) (m : Map V)
    → P (k, v)
    → All P m
    → All P (insert k v m)
insert-All P k v [] h hs = (h, tt)
insert-All P k v ((j, w) ∷ m) h (hw, hs) = elim (Bool-cases (j == k)) [
  | inl e ↦ rw e (h, hs)
  | inr e ↦ rw e (hw, insert-All P k v m h hs)
]

with_name-shaped :
    (n : String) (t : TypeRef) → is_well_shaped t ≡ true → is_well_shaped (with_name n t) ≡ true
unfolding is_well_shaped
with_name-shaped n (type_ref k raw sc name key elem fs) h = h

with_name-IsNamedStruct :
    (n : String) (t : TypeRef)
    → (n == "") ≡ false
    → IsResolved t
    → kind_of (with_name n t) ≡ TypeKind.struct
    → IsNamedStruct (n, with_name n t)
with_name-IsNamedStruct n (type_ref k raw sc name key elem fs) h (shaped, unnamed) s =
    (s, rw (unnamed s) refl, h)

declared_or-eq-ok :
    (name : String) (o : Option TypeExpr) (e : TypeExpr) → declared_or name o ≡ ok e → o ≡ some e
declared_or-eq-ok name none e h = cc h
declared_or-eq-ok name (some f) e h = cc h

named-IsEntry :
    (decls : TypeDecls) (name : String) (t : TypeRef)
    → (name == "") ≡ false
    → resolve_named_type decls name ≡ ok t
    → kind_of t ≡ TypeKind.struct
    → IsEntry (name, t)
unfolding resolve_named_type
named-IsEntry decls name t named h s =
    let (e, h1, h2) = >>=-eq-ok (declared_or name (lookup name decls)) _ h in
    let (t', h3, h4) = >>=-eq-ok (resolve_type_expr decls e) _ h2 in
    let q : with_name name t' ≡ t = cc h4 in
    let resolved = resolve-IsResolved decls e t' h3 in
    rw (sym q) (
      with_name-IsNamedStruct name t' named resolved (rw (sym q) at s),
      with_name-shaped name t' resolved.0,
    )

register-All :
    (k : TypeKind) (name : String) (t : TypeRef) (reg : TypeRegistry)
    → (k ≡ TypeKind.struct → IsEntry (name, t))
    → All IsEntry reg
    → All IsEntry (register_as k name t reg)
register-All TypeKind.struct name t reg h hs = insert-All IsEntry name t reg (h refl) hs
register-All _ name t reg h hs = hs

populate-All :
    (decls rest : TypeDecls) (reg types : TypeRegistry)
    → AreNamed rest
    → All IsEntry reg
    → populate decls rest reg ≡ ok types
    → All IsEntry types
unfolding populate
populate-All decls [] reg types named hs h = let q : reg ≡ types = cc h in rw (sym q) hs
populate-All decls ((name, e) ∷ rest) reg types (first, named) hs h =
    let (t, h1, h2) = >>=-eq-ok (resolve_named_type decls name) _ h in
    populate-All decls rest (register_as (kind_of t) name t reg) types named
      (register-All (kind_of t) name t reg (named-IsEntry decls name t first h1) hs) h2

entries_split :
    (reg : TypeRegistry) → All IsEntry reg → IsKeyed reg × (registry_is_well_shaped reg ≡ true)
unfolding registry_is_well_shaped
entries_split [] hs = (tt, refl)
entries_split ((k, t) ∷ reg) ((s, shaped), hs) =
    let (keyed, all_shaped) = entries_split reg hs in ((s, keyed), rw (shaped, all_shaped) refl)

-- What is collected is keyed and well shaped.
pub populate_lem :
    (decls : TypeDecls) (types : TypeRegistry)
    → AreNamed decls
    → populate decls decls [] ≡ ok types
    → IsKeyed types × (registry_is_well_shaped types ≡ true)
populate_lem decls types named h =
    entries_split types (populate-All decls decls [] types named tt h)
