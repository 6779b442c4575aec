-- ===== src/Snapshot/Build/Elements.antt =====
-- Parts of the proof that captured values can be restored: scalars, element types, sorted entries and
-- the names of structs.
use mitum_smart_contract.Base.{
  >>=-Returns, is_ok-Returns, Returns, String, Bool, true, false, not, ◌&&◌, none, [], ◌∷◌, ◌≡◌,
  refl, sym, inl, inr, arith, ◌==◌, eq_iff, if◌then◌else◌, All, Map, lookup, Result, ok, err, is_ok,
  Bool-cases, Result-cases,
}
use mitum_smart_contract.Schema.TypeRef.{
  TypeKind, TypeRef, type_ref, TypePtr, TypeRegistry, kind_of, resolve_type, is_scalar,
}
use mitum_smart_contract.Schema.Validate.{validate_named_struct}
use mitum_smart_contract.Schema.Validate.Sound.{registered, validation_sound}
use mitum_smart_contract.Snapshot.{SnapshotValue}
use mitum_smart_contract.Snapshot.Values.{Readings}
use mitum_smart_contract.Snapshot.Sorting.{sort_by_key}
use mitum_smart_contract.Snapshot.Sorting.Order.{sort_by_key-All}
use mitum_smart_contract.Snapshot.Codec.{
  CodecError, bad_bool, is_named, is_supported_snapshot_elem_type, snapshot_map_elem,
  snapshot_slice_elem, scalar_text_of, entries_of,
}
use mitum_smart_contract.Snapshot.Build.{
  Expr, parsed_expr, no_elements, scalar_expr_of, build_type_expr, map_type_expr, struct_name,
  collect_entries, build_expr, build_entries,
}

bool_text :
    (b : Bool) (text : String)
    → Path (Result CodecError String) (ok (if b then "true" else "false")) (ok text)
    → is_ok (
        if not (text == "true") && not (text == "false")
        then err (bad_bool text)
        else ok (parsed_expr text))
      ≡ true
bool_text true text h = let e : "true" ≡ text = cc h in rw (sym e) refl
bool_text false text h = let e : "false" ≡ text = cc h in rw (sym e) refl

-- what a scalar is read as, its expression takes
pub scalar-Returns :
    (typ : String) (r : Readings) (text : String)
    → scalar_text_of typ r ≡ ok text
    → Returns (scalar_expr_of typ text)
unfolding scalar_text_of scalar_expr_of
scalar-Returns typ r text h = elim (Bool-cases (typ == "string")) [
  | inl e ↦ is_ok-Returns (scalar_expr_of typ text) (rw e refl)
  | inr e ↦ elim (Bool-cases (typ == "bool")) [
    | inl e' ↦
        is_ok-Returns (scalar_expr_of typ text)
          (rw (e, e') (bool_text r.get_bool text (rw (e, e') at h)))
    | inr e' ↦ is_ok-Returns (scalar_expr_of typ text) (ground arith)
  ]
]

named_struct_elem :
    (reg : TypeRegistry) (t : TypeRef)
    → is_ok (validate_named_struct reg t) ≡ true
    → kind_of t ≡ TypeKind.named
named_struct_elem reg t h = elim (Result-cases (validate_named_struct reg t)) [
  | inl (r, e) ↦ elim ((validation_sound reg t).0 r e) [ registered r k l s fs ↦ k ]
  | inr (x, e) ↦ cc (rw e at h)
]

-- A supported element is a scalar or a name, so its type has an expression.
pub elem-Returns :
    (reg : TypeRegistry) (t : TypeRef)
    → is_supported_snapshot_elem_type reg t ≡ true
    → Returns (build_type_expr t)
unfolding build_type_expr is_supported_snapshot_elem_type resolve_type
elem-Returns reg (type_ref TypeKind.map raw sc name key elem fs) h =
    cc (named_struct_elem reg (type_ref TypeKind.map raw sc name key elem fs) h)
elem-Returns reg (type_ref TypeKind.slice raw sc name key elem fs) h =
    cc (named_struct_elem reg (type_ref TypeKind.slice raw sc name key elem fs) h)
elem-Returns reg (type_ref _ raw sc name key elem fs) h = (_, refl)

pub key-Returns :
    (reg : TypeRegistry) (t : TypeRef)
    → is_scalar (resolve_type reg t) ≡ true
    → Returns (build_type_expr t)
unfolding build_type_expr resolve_type
key-Returns reg (type_ref TypeKind.map raw sc name key elem fs) h = cc h
key-Returns reg (type_ref TypeKind.slice raw sc name key elem fs) h = cc h
key-Returns reg (type_ref _ raw sc name key elem fs) h = (_, refl)

-- Every result of the list is a success.
abbrev AllReturn : Map (Result CodecError Expr) → Type 0
AllReturn = All λ entry. Returns entry.1

collect-Returns : (m : Map (Result CodecError Expr)) → AllReturn m → Returns (collect_entries m)
unfolding collect_entries
collect-Returns [] hs = (no_elements, refl)
collect-Returns ((k, r) ∷ m) (h, hs) =
    >>=-Returns r _ h
      λ e _. >>=-Returns (collect_entries m) _ (collect-Returns m hs) λ kvs _. (_, refl)

module _ (reg : TypeRegistry) (elem : TypeRef) where
  abbrev pub AllBuild : Map SnapshotValue → Type 0
  AllBuild = All λ entry. Returns (build_expr reg elem entry.1)

  entries_return :
      (m : Map SnapshotValue) → AllBuild m → AllReturn (build_entries reg elem (entries_of m))
  unfolding build_entries
  entries_return [] hs = tt
  entries_return ((k, v) ∷ m) (h, hs) = (h, entries_return m hs)

  pub sorted_entries_return :
      (m : Map SnapshotValue)
      → AllBuild m
      → Returns
          (collect_entries (sort_by_key (build_entries reg elem (entries_of (sort_by_key m)))))
  sorted_entries_return m hs =
      collect-Returns _
        (sort_by_key-All _ _ (entries_return (sort_by_key m) (sort_by_key-All _ m hs)))

-- A name that resolves to a struct is not empty.
pub named_struct_name :
    (reg : TypeRegistry) (t : TypeRef)
    → lookup "" reg ≡ none
    → is_named (kind_of t) ≡ true
    → kind_of (resolve_type reg t) ≡ TypeKind.struct
    → Returns (struct_name t (resolve_type reg t))
unfolding resolve_type struct_name
named_struct_name reg (type_ref TypeKind.named raw sc name key elem fs) empty n s =
    elim (Bool-cases (name == "")) [
      | inl e ↦ cc (rw ((eq_iff name "").0 e, empty) at s)
      | inr e ↦ is_ok-Returns _ (rw e refl)
    ]
named_struct_name reg (type_ref _ raw sc name key elem fs) empty n s = cc n

-- The checks of a map's type leave a type that has an expression.
pub map_type-Returns :
    (reg : TypeRegistry) (t resolved elem : TypeRef)
    → snapshot_map_elem reg t resolved ≡ ok elem
    → Returns (map_type_expr resolved)
unfolding snapshot_map_elem map_type_expr
map_type-Returns reg t (type_ref k raw sc name (TypePtr.ptr key) (TypePtr.ptr el) fs) elem h =
    let is_key = is_scalar (resolve_type reg key) in
    let supported = is_supported_snapshot_elem_type reg el in
    let first : is_key ≡ true = ground arith in
    let second : supported ≡ true = ground arith in
    >>=-Returns (build_type_expr key) _ (key-Returns reg key first)
      λ a _. >>=-Returns (build_type_expr el) _ (elem-Returns reg el second) λ b _. (_, refl)
map_type-Returns reg t (type_ref k raw sc name (TypePtr.ptr key) TypePtr.null fs) elem h = cc h
map_type-Returns reg t (type_ref k raw sc name TypePtr.null el fs) elem h = cc h

pub slice_type-Returns :
    (reg : TypeRegistry) (t resolved elem : TypeRef)
    → snapshot_slice_elem reg t resolved ≡ ok elem
    → Returns (build_type_expr elem)
unfolding snapshot_slice_elem
slice_type-Returns reg t (type_ref k raw sc name key (TypePtr.ptr el) fs) elem h =
    let supported : is_supported_snapshot_elem_type reg el ≡ true = ground arith in
    let e : el ≡ elem = ground arith in rw (sym e) (elem-Returns reg el supported)
slice_type-Returns reg t (type_ref k raw sc name key TypePtr.null fs) elem h = cc h
