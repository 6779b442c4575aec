-- ===== src/Schema/Validate/Monotone.antt =====
-- Validation with another treatment of the named structs accepts at least as much, where that
-- treatment accepts at least the same structs.
use mitum_smart_contract.Base.{
  String, true, List, ◌≡◌, refl, inl, inr, ◌==◌, ◌&&◌, Result, ok, err, done, is_ok, ◌>>=◌,
  Bool-cases,
}
use mitum_smart_contract.Schema.TypeRef.{
  TypeKind, TypeRef, type_ref, TypePtr, StructFields, end, field, TypeRegistry, kind_of,
  resolve_type, is_scalar, normalized_string,
}
use mitum_smart_contract.Schema.Validate.{
  TypeError, supported_scalar, elem_case, validate_elem, validate_slice, validate_map, field_case,
  validate_field, validate_fields,
}

pub is_ok-bind {ℓ κ μ} :
    {E : Type μ} {A : Type ℓ} {B : Type κ} (m : Result E A) (f : A → Result E B)
    → is_ok (m >>= f) ≡ true
    → (a : A) × (m ≡ ok a) × (is_ok (f a) ≡ true)
is_ok-bind (ok a) f h = (a, refl, h)
is_ok-bind (err e) f h = cc

pub is_ok-eq-true {ℓ μ} :
    {E : Type μ} {A : Type ℓ} (m : Result E A) → is_ok m ≡ true → (a : A) × (m ≡ ok a)
is_ok-eq-true (ok a) h = (a, refl)
is_ok-eq-true (err e) h = cc

pub is_ok_unit {ℓ} : {E : Type ℓ} (m : Result E (Unit {0})) → is_ok m ≡ true → m ≡ ok tt
is_ok_unit (ok u) h = refl
is_ok_unit (err e) h = cc

module _ (reg : TypeRegistry) (v w : TypeRef → List String → Result TypeError TypeRef)
    (s s' : List String) (le : (t : TypeRef) → is_ok (v t s) ≡ true → is_ok (w t s') ≡ true) where
  struct_mono :
      (t : TypeRef) → is_ok (v t s >>= λ _. done) ≡ true → is_ok (w t s' >>= λ _. done) ≡ true
  struct_mono t h =
      let (r, e, _) = is_ok-bind (v t s) (λ _. done) h in
      let (r', e') = is_ok-eq-true (w t s') (le t (rw e)) in rw e'

  elem_case_mono :
      (k k' : TypeKind) (t : TypeRef)
      → is_ok (elem_case reg v k k' t s) ≡ true
      → is_ok (elem_case reg w k k' t s') ≡ true
  unfolding elem_case
  elem_case_mono TypeKind.named k' t h = struct_mono t h
  elem_case_mono TypeKind.struct k' t h = h
  elem_case_mono TypeKind.map TypeKind.map t h = h
  elem_case_mono _ TypeKind.map t h = h
  elem_case_mono _ TypeKind.slice t h = h
  elem_case_mono _ _ t h = h

  pub elem_mono :
      (t : TypeRef)
      → is_ok (validate_elem reg v t s) ≡ true
      → is_ok (validate_elem reg w t s') ≡ true
  unfolding validate_elem supported_scalar
  elem_mono t h = elim (Bool-cases (is_scalar (resolve_type reg t))) [
    | inl sc ↦ rw sc (rw sc at h)
    | inr sc ↦ rw sc (elem_case_mono (kind_of t) (kind_of (resolve_type reg t)) t (rw sc at h))
  ]

  pub slice_mono :
      (t : TypeRef)
      → is_ok (validate_slice reg v t s) ≡ true
      → is_ok (validate_slice reg w t s') ≡ true
  unfolding validate_slice
  slice_mono (type_ref TypeKind.slice raw sc name key (TypePtr.ptr e) fs) h = elem_mono e h
  slice_mono (type_ref TypeKind.slice raw sc name key TypePtr.null fs) h = h
  slice_mono (type_ref _ raw sc name key elem fs) h = h

  pub map_mono :
      (t : TypeRef) → is_ok (validate_map reg v t s) ≡ true → is_ok (validate_map reg w t s') ≡ true
  unfolding validate_map
  map_mono (type_ref TypeKind.map raw sc name (TypePtr.ptr k) (TypePtr.ptr e) fs) h =
      elim (Bool-cases
        (is_scalar (resolve_type reg k) && normalized_string (resolve_type reg k) == "string")) [
          | inl good ↦ rw good (elem_mono e (rw good at h))
          | inr bad ↦ rw bad (rw bad at h)
        ]
  map_mono (type_ref TypeKind.map raw sc name (TypePtr.ptr k) TypePtr.null fs) h = h
  map_mono (type_ref TypeKind.map raw sc name TypePtr.null elem fs) h = h
  map_mono (type_ref _ raw sc name key elem fs) h = h

  field_case_mono :
      (k k' : TypeKind) (t : TypeRef)
      → is_ok (field_case reg v k k' t s) ≡ true
      → is_ok (field_case reg w k k' t s') ≡ true
  unfolding field_case
  field_case_mono TypeKind.named k' t h = struct_mono t h
  field_case_mono TypeKind.struct k' t h = h
  field_case_mono TypeKind.map TypeKind.map t h = map_mono t h
  field_case_mono _ TypeKind.map t h = map_mono t h
  field_case_mono _ TypeKind.slice t h = slice_mono t h
  field_case_mono _ _ t h = h

  pub field_mono :
      (t : TypeRef)
      → is_ok (validate_field reg v t s) ≡ true
      → is_ok (validate_field reg w t s') ≡ true
  unfolding validate_field supported_scalar
  field_mono t h = elim (Bool-cases (is_scalar (resolve_type reg t))) [
    | inl sc ↦ rw sc (rw sc at h)
    | inr sc ↦ rw sc (field_case_mono (kind_of t) (kind_of (resolve_type reg t)) t (rw sc at h))
  ]

  pub fields_mono :
      (fs : StructFields)
      → is_ok (validate_fields reg v fs s) ≡ true
      → is_ok (validate_fields reg w fs s') ≡ true
  unfolding validate_fields
  fields_mono end h = h
  fields_mono (field n t fs) h =
      let (u, e, rest) =
        is_ok-bind (validate_field reg v t s) (λ _. validate_fields reg v fs s) h in
      let (u', e') = is_ok-eq-true (validate_field reg w t s') (field_mono t (rw e)) in
      rw e' (fields_mono fs rest)
