-- ===== src/Schema/Validate/Ends.antt =====
-- schema.go: the validation and its fuel, which opens a struct of the registry at each step.
use mitum_smart_contract.Base.{
  ℕ, zero, suc, ◌≤◌, ◌<◌, String, Bool, true, false, Option, none, some, List, [], ◌∷◌, ◌≡◌, ◌≢◌,
  refl, ap, inl, inr, arith, eq_iff, if◌then◌else◌, length, contains, lookup, Result, ok, err, done,
  ◌>>=◌, Bool-cases, Option-cases,
}
use mitum_smart_contract.Schema.TypeRef.{
  TypeKind, TypeRef, type_ref, TypePtr, StructFields, end, field, TypeRegistry, kind_of, name_of,
  fields_of, resolve_type, is_scalar,
}
use mitum_smart_contract.Schema.Validate.{
  TypeError, out_of_fuel, struct_only, named_struct, supported_scalar, elem_case, validate_elem,
  validate_slice, validate_map, field_case, validate_field, validate_fields,
  validate_named_struct_rec, enough_fuel, validate_named_struct, validate_map_type,
  validate_slice_type,
}

-- How many entries of the registry have a name that is not open.
pub fresh : TypeRegistry → List String → ℕ
fresh [] resolving = 0
fresh ((k, t) ∷ reg) resolving =
    let rest = fresh reg resolving in if contains k resolving then rest else suc rest

pub fresh-cons-le :
    (reg : TypeRegistry) (x : String) (resolving : List String)
    → fresh reg (x ∷ resolving) ≤ fresh reg resolving
unfolding fresh
fresh-cons-le [] x resolving = omega arith
fresh-cons-le ((k, t) ∷ reg) x resolving = ground (arith, fresh-cons-le reg x resolving)

pub fresh-cons-lt :
    (reg : TypeRegistry) (x : String) (r : TypeRef) (resolving : List String)
    → lookup x reg ≡ some r
    → contains x resolving ≡ false
    → fresh reg (x ∷ resolving) < fresh reg resolving
unfolding fresh
fresh-cons-lt [] x r resolving found new = cc
fresh-cons-lt ((k, t) ∷ reg) x r resolving found new =
    ground (
      arith,
      eq_iff k x,
      eq_iff x k,
      fresh-cons-le reg x resolving,
      fresh-cons-lt reg x r resolving,
    )

pub fresh-nil : (reg : TypeRegistry) → fresh reg [] ≤ length reg
unfolding fresh
fresh-nil [] = omega arith
fresh-nil ((k, t) ∷ reg) = omega (arith, fresh-nil reg)

abbrev ran_out {ℓ} : {A : Type ℓ} → Result TypeError A → Bool
ran_out (err out_of_fuel) = true
ran_out _ = false

ran_out-bind {ℓ κ} :
    {A : Type ℓ} {B : Type κ} (m : Result TypeError A) (f : A → Result TypeError B)
    → ran_out m ≡ false
    → ((a : A) → ran_out (f a) ≡ false)
    → ran_out (m >>= f) ≡ false
ran_out-bind (ok a) f h k = k a
ran_out-bind (err TypeError.out_of_fuel) f h k = cc
ran_out-bind (err (TypeError.not_supported s)) f h k = refl
ran_out-bind (err _) f h k = refl

ran_out-ne {ℓ} : {A : Type ℓ} {m : Result TypeError A} → m ≡ err out_of_fuel → ran_out m ≡ false → ⊥
ran_out-ne e h = cc (ap ran_out e)

-- A registry entry that is a struct.
pub struct_only-eq-some :
    (o : Option TypeRef) (r : TypeRef)
    → struct_only o ≡ some r
    → (o ≡ some r) × (kind_of r ≡ TypeKind.struct)
struct_only-eq-some none r h = cc
struct_only-eq-some (some (type_ref TypeKind.struct raw sc name key elem fs)) r h = (h, cc)
struct_only-eq-some (some (type_ref _ raw sc name key elem fs)) r h = cc

module _ (reg : TypeRegistry) (v : TypeRef → List String → Result TypeError TypeRef)
    (resolving : List String) (ends : (t : TypeRef) → ran_out (v t resolving) ≡ false) where
  struct_ends : (t : TypeRef) → ran_out (v t resolving >>= λ _. done) ≡ false
  struct_ends t = ran_out-bind (v t resolving) (λ _. done) (ends t) (λ _. refl)

  supported_scalar_ends : (t r : TypeRef) → ran_out (supported_scalar reg v t r) ≡ false
  unfolding supported_scalar
  supported_scalar_ends t r = ground arith

  elem_case_ends :
      (k k' : TypeKind) (t : TypeRef) → ran_out (elem_case reg v k k' t resolving) ≡ false
  unfolding elem_case
  elem_case_ends TypeKind.named k' t = struct_ends t
  elem_case_ends TypeKind.struct k' t = refl
  elem_case_ends TypeKind.map TypeKind.map t = refl
  elem_case_ends _ TypeKind.map t = refl
  elem_case_ends _ TypeKind.slice t = refl
  elem_case_ends _ _ t = refl

  elem_ends : (t : TypeRef) → ran_out (validate_elem reg v t resolving) ≡ false
  unfolding validate_elem
  elem_ends t = elim (Bool-cases (is_scalar (resolve_type reg t))) [
    | inl s ↦ rw s (supported_scalar_ends t (resolve_type reg t))
    | inr s ↦ rw s (elem_case_ends (kind_of t) (kind_of (resolve_type reg t)) t)
  ]

  slice_ends : (t : TypeRef) → ran_out (validate_slice reg v t resolving) ≡ false
  unfolding validate_slice
  slice_ends (type_ref TypeKind.slice raw sc name key (TypePtr.ptr e) fs) = elem_ends e
  slice_ends (type_ref TypeKind.slice raw sc name key TypePtr.null fs) = refl
  slice_ends (type_ref _ raw sc name key elem fs) = refl

  map_ends : (t : TypeRef) → ran_out (validate_map reg v t resolving) ≡ false
  unfolding validate_map
  map_ends (type_ref TypeKind.map raw sc name (TypePtr.ptr k) (TypePtr.ptr e) fs) =
      ground (arith, elem_ends e)
  map_ends (type_ref TypeKind.map raw sc name (TypePtr.ptr k) TypePtr.null fs) = refl
  map_ends (type_ref TypeKind.map raw sc name TypePtr.null elem fs) = refl
  map_ends (type_ref _ raw sc name key elem fs) = refl

  field_case_ends :
      (k k' : TypeKind) (t : TypeRef) → ran_out (field_case reg v k k' t resolving) ≡ false
  unfolding field_case
  field_case_ends TypeKind.named k' t = struct_ends t
  field_case_ends TypeKind.struct k' t = refl
  field_case_ends TypeKind.map TypeKind.map t = map_ends t
  field_case_ends _ TypeKind.map t = map_ends t
  field_case_ends _ TypeKind.slice t = slice_ends t
  field_case_ends _ _ t = refl

  field_ends : (t : TypeRef) → ran_out (validate_field reg v t resolving) ≡ false
  unfolding validate_field
  field_ends t = elim (Bool-cases (is_scalar (resolve_type reg t))) [
    | inl s ↦ rw s (supported_scalar_ends t (resolve_type reg t))
    | inr s ↦ rw s (field_case_ends (kind_of t) (kind_of (resolve_type reg t)) t)
  ]

  fields_end : (fs : StructFields) → ran_out (validate_fields reg v fs resolving) ≡ false
  unfolding validate_fields
  fields_end end = refl
  fields_end (field n t fs) =
      ran_out-bind (validate_field reg v t resolving) (λ _. validate_fields reg v fs resolving)
        (field_ends t) (λ _. fields_end fs)

-- The named struct that validation opens is the registry's entry for the type's name.
named_struct-lookup :
    (reg : TypeRegistry) (t r : TypeRef)
    → named_struct reg t ≡ some r
    → lookup (name_of t) reg ≡ some r
unfolding named_struct
named_struct-lookup reg (type_ref TypeKind.named raw sc name key elem fs) r h =
    (struct_only-eq-some (lookup name reg) r h).0
named_struct-lookup reg (type_ref _ raw sc name key elem fs) r h = cc

-- With more fuel than there are names still to open, a struct's validation returns.
struct_rec_ends :
    (n : ℕ) (reg : TypeRegistry) (t : TypeRef) (resolving : List String)
    → fresh reg resolving < n
    → ran_out (validate_named_struct_rec n reg t resolving) ≡ false
unfolding validate_named_struct_rec
struct_rec_ends zero reg t resolving h = elim h [ ]
struct_rec_ends (suc n) reg t resolving h = elim (Option-cases (named_struct reg t)) [
  | inl missing ↦ rw missing refl
  | inr (r, found) ↦ rw found (elim (Bool-cases (contains (name_of t) resolving)) [
    | inl open_already ↦ rw open_already refl
    | inr new ↦ rw new (
        ran_out-bind
          (validate_fields reg (validate_named_struct_rec n reg) (fields_of r)
            (name_of t ∷ resolving))
          (λ _. ok r)
          (fields_end reg (validate_named_struct_rec n reg) (name_of t ∷ resolving)
            (λ u. struct_rec_ends n reg u (name_of t ∷ resolving) (
              omega (
                arith,
                fresh-cons-lt reg (name_of t) r resolving (named_struct-lookup reg t r found) new,
              )))
            (fields_of r))
          (λ _. refl))
  ])
]

struct_rec_ends_enough :
    (reg : TypeRegistry) (t : TypeRef)
    → ran_out (validate_named_struct_rec (enough_fuel reg) reg t []) ≡ false
struct_rec_ends_enough reg t =
    struct_rec_ends (enough_fuel reg) reg t [] (omega (arith, fresh-nil reg))

-- Whatever the registry and the type, the validation of a named struct, of a map and of a slice each
-- return a verdict before the fuel of one step per registered struct and one more runs out.
pub validation_ends :
    (reg : TypeRegistry) (t : TypeRef)
    → (validate_named_struct reg t ≢ err out_of_fuel)
      × (validate_map_type reg t ≢ err out_of_fuel)
      × (validate_slice_type reg t ≢ err out_of_fuel)
unfolding validate_named_struct validate_map_type validate_slice_type
validation_ends reg t = (
  λ e. ran_out-ne e (struct_rec_ends_enough reg t),
  λ e. ran_out-ne e (
      map_ends reg (validate_named_struct_rec (enough_fuel reg) reg) [] (struct_rec_ends_enough reg)
        t),
  λ e. ran_out-ne e (
      slice_ends reg (validate_named_struct_rec (enough_fuel reg) reg) []
        (struct_rec_ends_enough reg) t),
)
