-- ===== src/Schema/Validate/Complete.antt =====
-- schema.go: the validation on types that have a derivation from the rules. A struct that is open
-- is deeper than all that it contains.
use mitum_smart_contract.Base.{
  ℕ, suc, max, String, true, false, some, List, [], ◌≡◌, ◌↔◌, refl, arith, lookup, Result, is_ok,
}
use mitum_smart_contract.Schema.TypeRef.{
  TypeKind, TypeRef, type_ref, TypePtr, StructFields, end, field, TypeRegistry, kind_of, name_of,
  key_of, elem_of, fields_of, resolve_type, is_scalar, normalized_string,
}
use mitum_smart_contract.Schema.Shape.{is_supported_scalar}
use mitum_smart_contract.Schema.Validate.{
  TypeError, struct_only, supported_scalar, elem_case, validate_elem, validate_slice, validate_map,
  field_case, validate_field, validate_fields, validate_named_struct_rec, enough_fuel,
  validate_named_struct, validate_map_type, validate_slice_type,
}
use mitum_smart_contract.Schema.Validate.Ends.{fresh-nil}
use mitum_smart_contract.Schema.Validate.Sound.{
  IsStruct, registered, AreFields, no_fields, and_field, IsField, simple, mapping, sequence, IsElem,
  supported, structure, IsMap, map_of, IsSlice, slice_of, validation_sound,
}
use mitum_smart_contract.Schema.Validate.Monotone.{
  is_ok-eq-true, is_ok_unit, field_mono, map_mono, slice_mono, fields_mono,
}
use mitum_smart_contract.Schema.Validate.Depth.{by_name, admits, within, accepts, within_le}

is_scalar_of_struct : (r : TypeRef) → kind_of r ≡ TypeKind.struct → is_scalar r ≡ false
is_scalar_of_struct (type_ref TypeKind.scalar raw sc name key elem fs) h = cc
is_scalar_of_struct (type_ref _ raw sc name key elem fs) h = refl

struct_only_of_struct : (r : TypeRef) → kind_of r ≡ TypeKind.struct → struct_only (some r) ≡ some r
struct_only_of_struct (type_ref TypeKind.struct raw sc name key elem fs) h = refl
struct_only_of_struct (type_ref _ raw sc name key elem fs) h = cc

supported-is_scalar : (r : TypeRef) → is_supported_scalar r ≡ true → is_scalar r ≡ true
unfolding is_supported_scalar
supported-is_scalar r h = ground arith

-- A named struct that a treatment takes passes as an element and as a field.
struct_passes :
    (reg : TypeRegistry) (v : TypeRef → List String → Result TypeError TypeRef) (t r : TypeRef)
    → kind_of t ≡ TypeKind.named
    → lookup (name_of t) reg ≡ some r
    → kind_of r ≡ TypeKind.struct
    → is_ok (v t []) ≡ true
    → (is_ok (validate_elem reg v t []) ≡ true) × (is_ok (validate_field reg v t []) ≡ true)
unfolding resolve_type validate_elem elem_case validate_field field_case
struct_passes reg v (type_ref TypeKind.named raw sc name key elem fs) r e found s h =
    let t = type_ref TypeKind.named raw sc name key elem fs in
    let (r', accepted) = is_ok-eq-true (v t []) h in
    (rw (found, is_scalar_of_struct r s, accepted), rw (found, is_scalar_of_struct r s, accepted))
struct_passes reg v (type_ref _ raw sc name key elem fs) r e found s h = cc

supported_passes :
    (reg : TypeRegistry) (v : TypeRef → List String → Result TypeError TypeRef) (t : TypeRef)
    → is_supported_scalar (resolve_type reg t) ≡ true
    → (is_ok (validate_elem reg v t []) ≡ true) × (is_ok (validate_field reg v t []) ≡ true)
unfolding validate_elem validate_field supported_scalar
supported_passes reg v t h =
    let sc = supported-is_scalar (resolve_type reg t) h in (rw (sc, h), rw (sc, h))

map_passes :
    (reg : TypeRegistry) (v : TypeRef → List String → Result TypeError TypeRef) (t k e : TypeRef)
    → kind_of t ≡ TypeKind.map
    → key_of t ≡ TypePtr.ptr k
    → elem_of t ≡ TypePtr.ptr e
    → is_scalar (resolve_type reg k) ≡ true
    → normalized_string (resolve_type reg k) ≡ "string"
    → is_ok (validate_elem reg v e []) ≡ true
    → (is_ok (validate_map reg v t []) ≡ true) × (is_ok (validate_field reg v t []) ≡ true)
unfolding validate_map validate_field field_case resolve_type
map_passes reg v (type_ref TypeKind.map raw sc name (TypePtr.ptr k') (TypePtr.ptr e') fs) k e eq ek
      ee s n h =
    let ek' : k' ≡ k = cc in
    let ee' : e' ≡ e = cc in (rw (ek', ee', s, n, h), rw (ek', ee', s, n, h))
map_passes reg v (type_ref TypeKind.map raw sc name (TypePtr.ptr k') TypePtr.null fs) k e eq ek ee s
      n h =
    cc
map_passes reg v (type_ref TypeKind.map raw sc name TypePtr.null elem fs) k e eq ek ee s n h = cc
map_passes reg v (type_ref _ raw sc name key elem fs) k e eq ek ee s n h = cc

slice_passes :
    (reg : TypeRegistry) (v : TypeRef → List String → Result TypeError TypeRef) (t e : TypeRef)
    → kind_of t ≡ TypeKind.slice
    → elem_of t ≡ TypePtr.ptr e
    → is_ok (validate_elem reg v e []) ≡ true
    → (is_ok (validate_slice reg v t []) ≡ true) × (is_ok (validate_field reg v t []) ≡ true)
unfolding validate_slice validate_field field_case resolve_type
slice_passes reg v (type_ref TypeKind.slice raw sc name key (TypePtr.ptr e') fs) e eq ee h =
    let ee' : e' ≡ e = cc in (rw (ee', h), rw (ee', h))
slice_passes reg v (type_ref TypeKind.slice raw sc name key TypePtr.null fs) e eq ee h = cc
slice_passes reg v (type_ref _ raw sc name key elem fs) e eq ee h = cc

nothing_to_pass : (reg : TypeRegistry) → is_ok (validate_fields reg (within 0 reg) end []) ≡ true
unfolding validate_fields
nothing_to_pass reg = refl

fields_pass :
    (reg : TypeRegistry) (v : TypeRef → List String → Result TypeError TypeRef) (n : String)
    (t : TypeRef) (fs : StructFields)
    → is_ok (validate_field reg v t []) ≡ true
    → is_ok (validate_fields reg v fs []) ≡ true
    → is_ok (validate_fields reg v (field n t fs) []) ≡ true
unfolding validate_fields
fields_pass reg v n t fs h rest =
    let (u, e) = is_ok-eq-true (validate_field reg v t []) h in rw e rest

struct_admitted :
    (k : ℕ) (reg : TypeRegistry) (t r : TypeRef)
    → kind_of t ≡ TypeKind.named
    → lookup (name_of t) reg ≡ some r
    → kind_of r ≡ TypeKind.struct
    → is_ok (validate_fields reg (within k reg) (fields_of r) []) ≡ true
    → is_ok (within (suc k) reg t []) ≡ true
unfolding by_name admits
struct_admitted k reg (type_ref TypeKind.named raw sc name key elem fs) r e found s h =
    rw (found, struct_only_of_struct r s, h)
struct_admitted k reg (type_ref _ raw sc name key elem fs) r e found s h = cc

-- Each derivation is finite, so its structs nest within some depth.
mutual
  struct_within :
      (reg : TypeRegistry) (t : TypeRef)
      → IsStruct reg t
      → (k : ℕ) × (is_ok (within k reg t []) ≡ true)
  struct_within reg t (registered r e found s fields) =
      let (k, h) = fields_within reg (fields_of r) fields in
      (suc k, struct_admitted k reg t r e found s h)

  fields_within :
      (reg : TypeRegistry) (fs : StructFields)
      → AreFields reg fs
      → (k : ℕ) × (is_ok (validate_fields reg (within k reg) fs []) ≡ true)
  fields_within reg fs no_fields = (0, nothing_to_pass reg)
  fields_within reg fs (and_field {n = n} {t = t} {fs = fs'} f rest) =
      let (j, hj) = field_within reg t f in
      let (k, hk) = fields_within reg fs' rest in
      (
        max j k,
        fields_pass reg (within (max j k) reg) n t fs'
            (field_mono reg (within j reg) (within (max j k) reg) [] []
              (within_le j (max j k) reg (omega arith)) t hj)
            (fields_mono reg (within k reg) (within (max j k) reg) [] []
              (within_le k (max j k) reg (omega arith)) fs' hk),
      )

  field_within :
      (reg : TypeRegistry) (t : TypeRef)
      → IsField reg t
      → (k : ℕ) × (is_ok (validate_field reg (within k reg) t []) ≡ true)
  field_within reg t (simple e) = let (k, h) = elem_within reg t e in (k, h.1)
  field_within reg t (mapping m) = let (k, h) = map_within reg t m in (k, h.1)
  field_within reg t (sequence m) = let (k, h) = slice_within reg t m in (k, h.1)

  elem_within :
      (reg : TypeRegistry) (t : TypeRef)
      → IsElem reg t
      → (k : ℕ) × ((is_ok (validate_elem reg (within k reg) t []) ≡ true)
          × (is_ok (validate_field reg (within k reg) t []) ≡ true))
  elem_within reg t (supported h) = (0, supported_passes reg (within 0 reg) t h)
  elem_within reg t (structure (registered r e found s fields)) =
      let (k, h) = fields_within reg (fields_of r) fields in
      (
        suc k,
        struct_passes reg (within (suc k) reg) t r e found s
            (struct_admitted k reg t r e found s h),
      )

  map_within :
      (reg : TypeRegistry) (t : TypeRef)
      → IsMap reg t
      → (k : ℕ) × ((is_ok (validate_map reg (within k reg) t []) ≡ true)
          × (is_ok (validate_field reg (within k reg) t []) ≡ true))
  map_within reg t (map_of k e eq ek ee sc n d) =
      let (j, h) = elem_within reg e d in (j, map_passes reg (within j reg) t k e eq ek ee sc n h.0)

  slice_within :
      (reg : TypeRegistry) (t : TypeRef)
      → IsSlice reg t
      → (k : ℕ) × ((is_ok (validate_slice reg (within k reg) t []) ≡ true)
          × (is_ok (validate_field reg (within k reg) t []) ≡ true))
  slice_within reg t (slice_of e eq ee d) =
      let (j, h) = elem_within reg e d in (j, slice_passes reg (within j reg) t e eq ee h.0)

accepts_enough :
    (k : ℕ) (reg : TypeRegistry) (t : TypeRef)
    → is_ok (within k reg t []) ≡ true
    → is_ok (validate_named_struct_rec (enough_fuel reg) reg t []) ≡ true
accepts_enough k reg t h = accepts k (enough_fuel reg) reg [] t (omega (arith, fresh-nil reg)) tt h

-- The validation decides the policy: it accepts a named struct, a map type and a slice type exactly
-- when the type has a finite derivation from the rules.
pub validation_decides :
    (reg : TypeRegistry) (t : TypeRef)
    → ((is_ok (validate_named_struct reg t) ≡ true) ↔ IsStruct reg t)
      × ((is_ok (validate_map_type reg t) ≡ true) ↔ IsMap reg t)
      × ((is_ok (validate_slice_type reg t) ≡ true) ↔ IsSlice reg t)
unfolding validate_named_struct validate_map_type validate_slice_type
validation_decides reg t =
    let v = validate_named_struct_rec (enough_fuel reg) reg in
    (
      (
        λ h.
            let (r, e) = is_ok-eq-true (validate_named_struct reg t) h in
            (validation_sound reg t).0 r e,
        λ d. let (k, h) = struct_within reg t d in accepts_enough k reg t h,
      ),
      (
        λ h. (validation_sound reg t).1 (is_ok_unit (validate_map_type reg t) h),
        λ d.
            let (k, h) = map_within reg t d in
            map_mono reg (within k reg) v [] [] (accepts_enough k reg) t h.0,
      ),
      (
        λ h. (validation_sound reg t).2 (is_ok_unit (validate_slice_type reg t) h),
        λ d.
            let (k, h) = slice_within reg t d in
            slice_mono reg (within k reg) v [] [] (accepts_enough k reg) t h.0,
      ),
    )
