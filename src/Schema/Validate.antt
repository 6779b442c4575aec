-- ===== src/Schema/Validate.antt =====
-- operation/contract/runtime/schema.go: the recursive validation of named structs, maps and slices.
-- Go keeps the set `resolving` of the struct names that are open and deletes a name on return; here
-- the longer set is passed down. The recursion takes fuel. Errors keep the kind of refusal and the
-- type's text, and leave out the subject that Go writes in front.
pub mod Ends
pub mod Sound
mod Monotone
mod Depth
pub mod Complete
use mitum_smart_contract.Base.{
  ℕ, zero, suc, String, Bool, true, false, not, ◌&&◌, ◌||◌, Option, none, some, List, [], ◌∷◌, ◌==◌,
  if◌then◌else◌, length, contains, lookup, Result, ok, err, done, ◌>>=◌, ◌>>◌, map_err,
}
use mitum_smart_contract.Schema.TypeRef.{
  TypeKind, TypeRef, type_ref, TypePtr, StructFields, end, field, TypeRegistry, kind_of, name_of,
  fields_of, resolve_type, is_scalar, type_string, normalized_string, PersistentBindingSchema,
}
use mitum_smart_contract.Schema.Shape.{is_supported_scalar}

pub data TypeError : Type 0 where
  not_supported recursive_struct anonymous_struct map_key_not_string : String → TypeError
  element_is_map element_is_slice : String → TypeError
  out_of_fuel : TypeError

abbrev pub struct_only : Option TypeRef → Option TypeRef
struct_only (some (type_ref TypeKind.struct raw sc name key elem fs)) =
    some (type_ref TypeKind.struct raw sc name key elem fs)
struct_only _ = none

-- the named struct that a type reference stands for, if it does
pub named_struct : TypeRegistry → TypeRef → Option TypeRef
named_struct reg (type_ref TypeKind.named raw sc name key elem fs) = struct_only (lookup name reg)
named_struct reg t = none

module _ (reg : TypeRegistry)
    (validate_struct : TypeRef → List String → Result TypeError TypeRef) where
  pub supported_scalar : TypeRef → TypeRef → Result TypeError (Unit {0})
  supported_scalar t resolved =
      if is_supported_scalar resolved then done else err (not_supported (type_string t))

  -- the `switch` on an element, the same in `validateSliceTypeRecursive` and
  -- `validateMapTypeRecursive`: by the kind of the element type, then by that of the resolved one
  pub elem_case : TypeKind → TypeKind → TypeRef → List String → Result TypeError (Unit {0})
  elem_case TypeKind.named k t resolving = do resolved ← validate_struct t resolving; done
  elem_case TypeKind.struct k t resolving = err (anonymous_struct (type_string t))
  elem_case _ TypeKind.map t resolving = err (element_is_map (type_string t))
  elem_case _ TypeKind.slice t resolving = err (element_is_slice (type_string t))
  elem_case _ _ t resolving = err (not_supported (type_string t))

  pub validate_elem : TypeRef → List String → Result TypeError (Unit {0})
  unfolding supported_scalar elem_case
  validate_elem t resolving =
      if is_scalar (resolve_type reg t)
      then supported_scalar t (resolve_type reg t)
      else elem_case (kind_of t) (kind_of (resolve_type reg t)) t resolving

  -- `validateSliceTypeRecursive`
  pub validate_slice : TypeRef → List String → Result TypeError (Unit {0})
  unfolding validate_elem
  validate_slice (type_ref TypeKind.slice raw sc name key (TypePtr.ptr e) fs) resolving =
      validate_elem e resolving
  validate_slice t resolving = err (not_supported (type_string t))

  -- `validateMapTypeRecursive`
  pub validate_map : TypeRef → List String → Result TypeError (Unit {0})
  unfolding validate_elem
  validate_map (type_ref TypeKind.map raw sc name (TypePtr.ptr k) (TypePtr.ptr e) fs) resolving =
      if is_scalar (resolve_type reg k) && normalized_string (resolve_type reg k) == "string"
      then validate_elem e resolving
      else err (map_key_not_string (type_string k))
  validate_map t resolving = err (not_supported (type_string t))

  -- the `switch` on a struct's field, by the kind of its type and by that of the resolved one
  pub field_case : TypeKind → TypeKind → TypeRef → List String → Result TypeError (Unit {0})
  field_case TypeKind.named k t resolving = do resolved ← validate_struct t resolving; done
  field_case TypeKind.struct k t resolving = err (anonymous_struct (type_string t))
  field_case _ TypeKind.map t resolving = validate_map t resolving
  field_case _ TypeKind.slice t resolving = validate_slice t resolving
  field_case _ _ t resolving = err (not_supported (type_string t))

  pub validate_field : TypeRef → List String → Result TypeError (Unit {0})
  unfolding supported_scalar field_case validate_map validate_slice
  validate_field t resolving =
      if is_scalar (resolve_type reg t)
      then supported_scalar t (resolve_type reg t)
      else field_case (kind_of t) (kind_of (resolve_type reg t)) t resolving

  pub validate_fields : StructFields → List String → Result TypeError (Unit {0})
  validate_fields end resolving = done
  validate_fields (field n t fs) resolving =
      let rest = validate_fields fs resolving in validate_field t resolving >> rest

-- the body of `validateNamedStructTypeRecursive` behind its first two checks
module _ (reg : TypeRegistry) (validate_struct : TypeRef → List String → Result TypeError TypeRef)
    (t : TypeRef) (resolving : List String) where
  pub open_struct : Option TypeRef → Result TypeError TypeRef
  unfolding validate_fields
  open_struct none = err (not_supported (type_string t))
  open_struct (some resolved) =
      if contains (name_of t) resolving
      then err (recursive_struct (type_string t))
      else validate_fields reg validate_struct (fields_of resolved) (name_of t ∷ resolving)
        >> ok resolved

-- `validateNamedStructTypeRecursive`
pub validate_named_struct_rec : ℕ → TypeRegistry → TypeRef → List String → Result TypeError TypeRef
unfolding named_struct open_struct
validate_named_struct_rec zero reg t resolving = err out_of_fuel
validate_named_struct_rec (suc n) reg t resolving =
    open_struct reg (validate_named_struct_rec n reg) t resolving (named_struct reg t)

-- Each step opens one more struct of the registry, so this much fuel is enough.
abbrev pub enough_fuel : TypeRegistry → ℕ
enough_fuel reg = suc (length reg)

-- `validateNamedStructType`
unfoldable pub validate_named_struct : TypeRegistry → TypeRef → Result TypeError TypeRef
unfolding validate_named_struct_rec open_struct validate_field
validate_named_struct reg t = validate_named_struct_rec (enough_fuel reg) reg t []

-- `validateMapTypeRecursive` and `validateSliceTypeRecursive` with an empty `resolving`
unfoldable pub validate_map_type : TypeRegistry → TypeRef → Result TypeError (Unit {0})
unfolding validate_map validate_named_struct_rec open_struct validate_field
validate_map_type reg t = validate_map reg (validate_named_struct_rec (enough_fuel reg) reg) t []

unfoldable pub validate_slice_type : TypeRegistry → TypeRef → Result TypeError (Unit {0})
unfolding validate_slice validate_named_struct_rec open_struct validate_field
validate_slice_type reg t =
    validate_slice reg (validate_named_struct_rec (enough_fuel reg) reg) t []

-- `ValidatePersistentGlobalType`
unfoldable pub validate_persistent_global_type :
    TypeRegistry → PersistentBindingSchema → Result TypeError (Unit {0})
validate_persistent_global_type reg binding =
    if is_scalar (resolve_type reg binding.typ) then done else elim (kind_of binding.typ) [
      | TypeKind.map ↦ validate_map_type reg binding.typ
      | TypeKind.slice ↦ validate_slice_type reg binding.typ
      | _ ↦ validate_named_struct reg binding.typ >>= λ _. done
    ]

-- `validateScalarABIType`, which is `ValidateWriteArgType` and `ValidateQueryArgType`
unfoldable pub validate_scalar_abi_type : TypeRegistry → TypeRef → Result TypeError (Unit {0})
validate_scalar_abi_type reg t =
    if is_supported_scalar (resolve_type reg t) then done else err (not_supported (type_string t))

-- `validateCompositeABIType`, which is `ValidateQueryResultType`
unfoldable pub validate_composite_abi_type : TypeRegistry → TypeRef → Result TypeError (Unit {0})
validate_composite_abi_type reg t =
    if is_scalar (resolve_type reg t)
    then (if is_supported_scalar (resolve_type reg t)
        then done
        else err (not_supported (type_string t)))
    else elim (kind_of t) [
      | TypeKind.named ↦ validate_named_struct reg t >>= λ _. done
      | TypeKind.map ↦ validate_map_type reg t
      | TypeKind.slice ↦ validate_slice_type reg t
      | _ ↦ err (not_supported (type_string t))
    ]
