-- ===== src/Schema/Validate/Sound.antt =====
-- schema.go: derivations from the rules of the contract type policy, and what the validation accepts.
use mitum_smart_contract.Base.{
  ℕ, zero, suc, String, true, false, Option, none, some, List, [], ◌∷◌, ◌≡◌, refl, inl, inr, arith,
  eq_iff, contains, lookup, Result, ok, done, ◌>>=◌, >>=-eq-ok, Bool-cases,
}
use mitum_smart_contract.Schema.TypeRef.{
  TypeKind, TypeRef, type_ref, TypePtr, StructFields, end, field, TypeRegistry, kind_of, name_of,
  key_of, elem_of, fields_of, resolve_type, is_scalar, normalized_string,
}
use mitum_smart_contract.Schema.Shape.{is_supported_scalar}
use mitum_smart_contract.Schema.Validate.Ends.{struct_only-eq-some}
use mitum_smart_contract.Schema.Validate.{
  TypeError, named_struct, supported_scalar, elem_case, validate_elem, validate_slice, validate_map,
  field_case, validate_field, validate_fields, open_struct, validate_named_struct_rec, enough_fuel,
  validate_named_struct, validate_map_type, validate_slice_type,
}

-- The rules of the policy, with no set of open names and no fuel: a derivation is a finite tree.
mutual
  -- a name that the registry gives a struct with admissible fields
  pub data IsStruct (reg : TypeRegistry) : TypeRef → Type 0 where
    registered :
        {t : TypeRef} (r : TypeRef)
        → kind_of t ≡ TypeKind.named
        → lookup (name_of t) reg ≡ some r
        → kind_of r ≡ TypeKind.struct
        → AreFields reg (fields_of r)
        → IsStruct reg t

  pub data AreFields (reg : TypeRegistry) : StructFields → Type 0 where
    no_fields : AreFields reg end
    and_field :
        {n : String} {t : TypeRef} {fs : StructFields}
        → IsField reg t
        → AreFields reg fs
        → AreFields reg (field n t fs)

  pub data IsField (reg : TypeRegistry) : TypeRef → Type 0 where
    simple : {t : TypeRef} → IsElem reg t → IsField reg t
    mapping : {t : TypeRef} → IsMap reg t → IsField reg t
    sequence : {t : TypeRef} → IsSlice reg t → IsField reg t

  -- an element of a map or of a slice: a supported scalar or a named struct
  pub data IsElem (reg : TypeRegistry) : TypeRef → Type 0 where
    supported : {t : TypeRef} → is_supported_scalar (resolve_type reg t) ≡ true → IsElem reg t
    structure : {t : TypeRef} → IsStruct reg t → IsElem reg t

  pub data IsMap (reg : TypeRegistry) : TypeRef → Type 0 where
    map_of :
        {t : TypeRef} (k e : TypeRef)
        → kind_of t ≡ TypeKind.map
        → key_of t ≡ TypePtr.ptr k
        → elem_of t ≡ TypePtr.ptr e
        → is_scalar (resolve_type reg k) ≡ true
        → normalized_string (resolve_type reg k) ≡ "string"
        → IsElem reg e
        → IsMap reg t

  pub data IsSlice (reg : TypeRegistry) : TypeRef → Type 0 where
    slice_of :
        {t : TypeRef} (e : TypeRef)
        → kind_of t ≡ TypeKind.slice
        → elem_of t ≡ TypePtr.ptr e
        → IsElem reg e
        → IsSlice reg t

module _ (reg : TypeRegistry) (v : TypeRef → List String → Result TypeError TypeRef)
    (resolving : List String)
    (sound : (t r : TypeRef) → v t resolving ≡ ok r → IsStruct reg t) where
  struct_sound : (t : TypeRef) → (v t resolving >>= λ _. done) ≡ ok tt → IsStruct reg t
  struct_sound t h = let (r, e, _) = >>=-eq-ok (v t resolving) (λ _. done) h in sound t r e

  supported_sound :
      (t : TypeRef) → supported_scalar reg v t (resolve_type reg t) ≡ ok tt → IsElem reg t
  unfolding supported_scalar
  supported_sound t h = supported (ground arith)

  elem_case_sound :
      (k k' : TypeKind) (t : TypeRef) → elem_case reg v k k' t resolving ≡ ok tt → IsElem reg t
  unfolding elem_case
  elem_case_sound TypeKind.named k' t h = structure (struct_sound t h)
  elem_case_sound TypeKind.struct k' t h = cc
  elem_case_sound TypeKind.map TypeKind.map t h = cc
  elem_case_sound _ TypeKind.map t h = cc
  elem_case_sound _ TypeKind.slice t h = cc
  elem_case_sound _ _ t h = cc

  IsElem-sound : (t : TypeRef) → validate_elem reg v t resolving ≡ ok tt → IsElem reg t
  unfolding validate_elem
  IsElem-sound t h = elim (Bool-cases (is_scalar (resolve_type reg t))) [
    | inl s ↦ supported_sound t (rw s at h)
    | inr s ↦ elem_case_sound (kind_of t) (kind_of (resolve_type reg t)) t (rw s at h)
  ]

  IsSlice-sound : (t : TypeRef) → validate_slice reg v t resolving ≡ ok tt → IsSlice reg t
  unfolding validate_slice
  IsSlice-sound (type_ref TypeKind.slice raw sc name key (TypePtr.ptr e) fs) h =
      slice_of e refl refl (IsElem-sound e h)
  IsSlice-sound (type_ref TypeKind.slice raw sc name key TypePtr.null fs) h = cc
  IsSlice-sound (type_ref _ raw sc name key elem fs) h = cc

  IsMap-sound : (t : TypeRef) → validate_map reg v t resolving ≡ ok tt → IsMap reg t
  unfolding validate_map
  IsMap-sound (type_ref TypeKind.map raw sc name (TypePtr.ptr k) (TypePtr.ptr e) fs) h =
      map_of k e refl refl refl (ground arith)
        (ground (arith, eq_iff (normalized_string (resolve_type reg k)) "string"))
        (IsElem-sound e (ground arith))
  IsMap-sound (type_ref TypeKind.map raw sc name (TypePtr.ptr k) TypePtr.null fs) h = cc
  IsMap-sound (type_ref TypeKind.map raw sc name TypePtr.null elem fs) h = cc
  IsMap-sound (type_ref _ raw sc name key elem fs) h = cc

  field_case_sound :
      (k k' : TypeKind) (t : TypeRef) → field_case reg v k k' t resolving ≡ ok tt → IsField reg t
  unfolding field_case
  field_case_sound TypeKind.named k' t h = simple (structure (struct_sound t h))
  field_case_sound TypeKind.struct k' t h = cc
  field_case_sound TypeKind.map TypeKind.map t h = mapping (IsMap-sound t h)
  field_case_sound _ TypeKind.map t h = mapping (IsMap-sound t h)
  field_case_sound _ TypeKind.slice t h = sequence (IsSlice-sound t h)
  field_case_sound _ _ t h = cc

  IsField-sound : (t : TypeRef) → validate_field reg v t resolving ≡ ok tt → IsField reg t
  unfolding validate_field
  IsField-sound t h = elim (Bool-cases (is_scalar (resolve_type reg t))) [
    | inl s ↦ simple (supported_sound t (rw s at h))
    | inr s ↦ field_case_sound (kind_of t) (kind_of (resolve_type reg t)) t (rw s at h)
  ]

  fields_sound : (fs : StructFields) → validate_fields reg v fs resolving ≡ ok tt → AreFields reg fs
  unfolding validate_fields
  fields_sound end h = no_fields
  fields_sound (field n t fs) h =
      let (u, e, rest) =
        >>=-eq-ok (validate_field reg v t resolving) (λ _. validate_fields reg v fs resolving) h in
      and_field (IsField-sound t e) (fields_sound fs rest)

-- What `named_struct` finds is a struct that the registry has for a named type.
named_struct-eq-some :
    (reg : TypeRegistry) (t r : TypeRef)
    → named_struct reg t ≡ some r
    → (kind_of t ≡ TypeKind.named)
      × (lookup (name_of t) reg ≡ some r)
      × (kind_of r ≡ TypeKind.struct)
unfolding named_struct
named_struct-eq-some reg (type_ref TypeKind.named raw sc name key elem fs) r h =
    (let (entry, is_struct) = struct_only-eq-some (lookup name reg) r h in (refl, entry, is_struct))
named_struct-eq-some reg (type_ref _ raw sc name key elem fs) r h = cc

-- Inversion of the step that opens a struct.
open_struct-eq-ok :
    (reg : TypeRegistry) (v : TypeRef → List String → Result TypeError TypeRef) (t : TypeRef)
    (resolving : List String) (o : Option TypeRef) {r : TypeRef}
    → open_struct reg v t resolving o ≡ ok r
    → (o ≡ some r)
      × (contains (name_of t) resolving ≡ false)
      × (validate_fields reg v (fields_of r) (name_of t ∷ resolving) ≡ ok tt)
unfolding open_struct
open_struct-eq-ok reg v t resolving none h = cc
open_struct-eq-ok reg v t resolving (some r') {r = r} h =
    elim (Bool-cases (contains (name_of t) resolving)) [
      | inl open_already ↦ cc (rw open_already at h)
      | inr new ↦
          let (u, valid, same) =
            >>=-eq-ok (validate_fields reg v (fields_of r') (name_of t ∷ resolving)) (λ _. ok r')
              (rw new at h) in
          let e : r' ≡ r = cc in (cc, new, rw e at valid)
    ]

struct_rec_sound :
    (n : ℕ) (reg : TypeRegistry) (resolving : List String) (t r : TypeRef)
    → validate_named_struct_rec n reg t resolving ≡ ok r
    → IsStruct reg t
unfolding validate_named_struct_rec
struct_rec_sound zero reg resolving t r h = cc
struct_rec_sound (suc n) reg resolving t r h =
    let (found, new, valid) =
      open_struct-eq-ok reg (validate_named_struct_rec n reg) t resolving (named_struct reg t) h in
    let (named, entry, is_struct) = named_struct-eq-some reg t r found in
    registered r named entry is_struct (
      fields_sound reg (validate_named_struct_rec n reg) (name_of t ∷ resolving)
        (struct_rec_sound n reg (name_of t ∷ resolving)) (fields_of r) valid)

-- A named struct, a map or a slice that the validation accepts has a finite derivation from the rules
-- of the policy: no struct contains itself, every leaf is a supported scalar, every map has string
-- keys, and elements are scalars or named structs.
pub validation_sound :
    (reg : TypeRegistry) (t : TypeRef)
    → ((r : TypeRef) → validate_named_struct reg t ≡ ok r → IsStruct reg t)
      × (validate_map_type reg t ≡ ok tt → IsMap reg t)
      × (validate_slice_type reg t ≡ ok tt → IsSlice reg t)
unfolding validate_named_struct validate_map_type validate_slice_type
validation_sound reg t =
    let sound = struct_rec_sound (enough_fuel reg) reg [] in
    (
      sound t,
      IsMap-sound reg (validate_named_struct_rec (enough_fuel reg) reg) [] sound t,
      IsSlice-sound reg (validate_named_struct_rec (enough_fuel reg) reg) [] sound t,
    )
