-- ===== src/Snapshot/Codec.antt =====
-- operation/contract/runtime/gno_snapshot_codec.go: values of the machine as snapshot values, and
-- snapshot values as expressions of Gno. Errors keep the kind of refusal and a type's text. The
-- recursion follows the value, so there is no fuel.
pub mod Order
use mitum_smart_contract.Base.{
  ℕ, zero, suc, String, Bool, true, false, not, ◌&&◌, ◌||◌, Option, none, some, List, [], ◌∷◌, ◌==◌,
  if◌then◌else◌, nat_eq, Map, Result, ok, err, done, fail_if, ◌>>=◌, ◌>>◌, is_ok, map_err,
}
use mitum_smart_contract.Schema.TypeRef.{
  TypeKind, TypeRef, type_ref, TypePtr, StructFields, end, field, TypeRegistry, kind_of, name_of,
  key_of, elem_of, fields_of, resolve_type, is_scalar, type_string, normalized_string,
}
use mitum_smart_contract.Schema.Shape.{is_supported_scalar}
use mitum_smart_contract.Schema.Validate.{
  TypeError, validate_named_struct, validate_map_type, validate_slice_type,
}
use mitum_smart_contract.Snapshot.{
  SnapshotValue, value, SnapshotFields, no_fields, with_field, SnapshotEntries, no_entries,
  with_entry, SnapshotItems, no_items, with_item, items_length,
}
use mitum_smart_contract.Snapshot.Values.{
  Readings, MachineValue, typed_value, MachineObject, nil_object, struct_object, map_object,
  slice_object, slice_without_base, other_object, MachineValues, no_values, with_value,
  MachineEntries, empty_map, with_key, values_length, format_int, format_uint,
}
use mitum_smart_contract.Snapshot.Sorting.{sort_by_key}

pub data CodecError : Type 0 where
  unsupported : String → CodecError
  expected_struct expected_map expected_slice expected_scalar : String → CodecError
  no_slice_base : String → CodecError
  field_count : ℕ → ℕ → CodecError
  field_name : String → String → CodecError
  unnamed_struct : CodecError
  bad_bool : String → CodecError
  in_type : TypeError → CodecError
  nil_pointer : CodecError

abbrev pub fields_length : StructFields → ℕ
fields_length end = zero
fields_length (field n t fs) = suc (fields_length fs)

abbrev pub is_named : TypeKind → Bool
is_named TypeKind.named = true
is_named _ = false

-- `isSupportedSnapshotMapElemType` and `isSupportedSnapshotSliceElemType`, which differ in the words
-- of an error that both drop
unfoldable pub is_supported_snapshot_elem_type : TypeRegistry → TypeRef → Bool
is_supported_snapshot_elem_type reg t =
    is_scalar (resolve_type reg t) && is_supported_scalar (resolve_type reg t)
    || is_ok (validate_named_struct reg t)

-- the `switch` of `validateStructFieldSnapshotType` behind its first case
unfoldable pub snapshot_field_case :
    TypeKind → TypeKind → TypeRegistry → TypeRef → Result CodecError (Unit {0})
snapshot_field_case TypeKind.named k reg t =
    map_err in_type (validate_named_struct reg t) >>= λ _. done
snapshot_field_case _ TypeKind.map reg t = map_err in_type (validate_map_type reg t)
snapshot_field_case _ TypeKind.slice reg t = map_err in_type (validate_slice_type reg t)
snapshot_field_case _ _ reg t = err (unsupported (type_string t))

-- `validateStructFieldSnapshotType`
unfoldable pub validate_struct_field_snapshot_type :
    TypeRegistry → TypeRef → Result CodecError (Unit {0})
unfolding snapshot_field_case
validate_struct_field_snapshot_type reg t =
    if is_scalar (resolve_type reg t)
    then fail_if (not (is_supported_scalar (resolve_type reg t))) (unsupported (type_string t))
    else snapshot_field_case (kind_of t) (kind_of (resolve_type reg t)) reg t

-- the checks of a map's type, the same in `extractMapSnapshotValue` and `buildMapExpr`: the element
unfoldable pub snapshot_map_elem : TypeRegistry → TypeRef → TypeRef → Result CodecError TypeRef
unfolding is_supported_snapshot_elem_type
snapshot_map_elem reg t (type_ref k raw sc name (TypePtr.ptr key) (TypePtr.ptr elem) fs) = do
  fail_if
      (not (is_scalar (resolve_type reg key))
        || not (normalized_string (resolve_type reg key) == "string"))
      (unsupported (type_string t))
  fail_if (not (is_supported_snapshot_elem_type reg elem)) (unsupported (type_string t))
  ok elem
snapshot_map_elem reg t resolved = err (unsupported (type_string t))

-- the checks of a slice's type
unfoldable pub snapshot_slice_elem : TypeRegistry → TypeRef → TypeRef → Result CodecError TypeRef
unfolding is_supported_snapshot_elem_type
snapshot_slice_elem reg t (type_ref k raw sc name key (TypePtr.ptr elem) fs) = do
  fail_if (not (is_supported_snapshot_elem_type reg elem)) (unsupported (type_string t))
  ok elem
snapshot_slice_elem reg t resolved = err (unsupported (type_string t))

-- `scalarTypedValueToString`
unfoldable pub scalar_text_of : String → Readings → Result CodecError String
scalar_text_of typ r =
    if typ == "string"
    then ok r.get_string
    else if typ == "bool"
    then ok (if r.get_bool then "true" else "false")
    else if typ == "int"
    then ok (format_int r.get_int)
    else if typ == "int64"
    then ok (format_int r.get_int64)
    else if typ == "uint64"
    then ok (format_uint r.get_uint64)
    else err (unsupported typ)

unfoldable pub scalar_typed_value_to_string : TypeRef → Readings → Result CodecError String
unfolding scalar_text_of
scalar_typed_value_to_string t r = scalar_text_of (normalized_string t) r

-- the four shapes of a snapshot value that are written
abbrev pub scalar_snapshot : String → SnapshotValue
scalar_snapshot text = value "scalar" text no_fields no_entries no_items false

abbrev pub struct_snapshot : SnapshotFields → SnapshotValue
struct_snapshot fields = value "struct" "" fields no_entries no_items false

abbrev pub map_snapshot : SnapshotEntries → Bool → SnapshotValue
map_snapshot entries is_nil = value "map" "" no_fields entries no_items is_nil

abbrev pub slice_snapshot : SnapshotItems → Bool → SnapshotValue
slice_snapshot items is_nil = value "slice" "" no_fields no_entries items is_nil

abbrev pub entries_of : Map SnapshotValue → SnapshotEntries
entries_of [] = no_entries
entries_of ((k, v) ∷ m) = with_entry k v (entries_of m)

-- the `switch` on the kind of the resolved type, which `ExtractSnapshotValue`, `BuildExpr` and
-- `BuildLiteral` share
abbrev pub by_type_kind {ℓ} : {A : Type ℓ} → TypeKind → A → A → A → A → A → A
by_type_kind TypeKind.scalar a b c d e = a
by_type_kind TypeKind.struct a b c d e = b
by_type_kind TypeKind.map a b c d e = c
by_type_kind TypeKind.slice a b c d e = d
by_type_kind _ a b c d e = e

module _ (reg : TypeRegistry) where
  -- `ExtractSnapshotValue`
  unfoldable mutual
    unfolding sort_by_key validate_struct_field_snapshot_type snapshot_map_elem snapshot_slice_elem
        scalar_typed_value_to_string

    pub extract : TypeRef → MachineValue → Result CodecError SnapshotValue
    extract t (typed_value r o) =
        by_type_kind (kind_of (resolve_type reg t))
          (scalar_typed_value_to_string (resolve_type reg t) r >>= λ text.
            ok (scalar_snapshot text))
          (fail_if (not (is_named (kind_of t))) (unsupported (type_string t))
            >> extract_struct t (fields_of (resolve_type reg t)) o)
          (snapshot_map_elem reg t (resolve_type reg t) >>= λ elem. extract_map t elem o)
          (snapshot_slice_elem reg t (resolve_type reg t) >>= λ elem. extract_slice t elem o)
          (err (unsupported (type_string t)))

    -- `extractStructSnapshotValue`
    pub extract_struct : TypeRef → StructFields → MachineObject → Result CodecError SnapshotValue
    extract_struct t fs (struct_object vs) =
        fail_if (not (nat_eq (values_length vs) (fields_length fs)))
          (field_count (fields_length fs) (values_length vs))
        >> extract_fields fs vs
        >>= λ fields. ok (struct_snapshot fields)
    extract_struct t fs o = err (expected_struct (type_string t))

    -- its loop over the fields; it runs over equal numbers of types and of values
    pub extract_fields : StructFields → MachineValues → Result CodecError SnapshotFields
    extract_fields end vs = ok no_fields
    extract_fields (field n ft fs) no_values = ok no_fields
    extract_fields (field n ft fs) (with_value v vs) =
        validate_struct_field_snapshot_type reg ft >> extract ft v >>= λ first.
        extract_fields fs vs >>= λ rest. ok (with_field n first rest)

    -- `extractMapSnapshotValue` behind the checks of the type
    pub extract_map : TypeRef → TypeRef → MachineObject → Result CodecError SnapshotValue
    extract_map t elem nil_object = ok (map_snapshot no_entries true)
    extract_map t elem (map_object es) = extract_entries elem es >>= λ entries.
        ok (map_snapshot (entries_of (sort_by_key entries)) false)
    extract_map t elem o = err (expected_map (type_string t))

    pub extract_entries : TypeRef → MachineEntries → Result CodecError (Map SnapshotValue)
    extract_entries elem empty_map = ok []
    extract_entries elem (with_key k v es) =
        extract elem v >>= λ first. extract_entries elem es >>= λ rest. ok ((k, first) ∷ rest)

    -- `extractSliceSnapshotValue` behind the checks of the type
    pub extract_slice : TypeRef → TypeRef → MachineObject → Result CodecError SnapshotValue
    extract_slice t elem nil_object = ok (slice_snapshot no_items true)
    extract_slice t elem (slice_object vs) =
        extract_items elem vs >>= λ items. ok (slice_snapshot items false)
    extract_slice t elem slice_without_base = err (no_slice_base (type_string t))
    extract_slice t elem o = err (expected_slice (type_string t))

    pub extract_items : TypeRef → MachineValues → Result CodecError SnapshotItems
    extract_items elem no_values = ok no_items
    extract_items elem (with_value v vs) =
        extract elem v >>= λ first. extract_items elem vs >>= λ rest. ok (with_item first rest)
