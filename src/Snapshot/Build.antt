-- ===== src/Snapshot/Build.antt =====
-- operation/contract/runtime/gno_snapshot_codec.go: snapshot values as the expressions and as the
-- source texts of Gno that stand for them. What `gno.Str`, `gno.X`, `gno.Num`, `gno.Nx`, `gno.MapT`,
-- `gno.SliceT` and `gno.Kv` build is data here. The loop over a map's entries is written as a pass
-- over all entries, a sort, and a pass that stops at the first error.
mod Elements
pub mod Restorable
use mitum_smart_contract.Base.{
  ℕ, zero, suc, String, Bool, true, false, not, ◌&&◌, ◌||◌, List, [], ◌∷◌, ◌==◌, if◌then◌else◌,
  nat_eq, Map, Result, ok, err, fail_if, ◌>>=◌, ◌>>◌,
}
use Prim.Native.String.{◌++◌}
use mitum_smart_contract.Schema.TypeRef.{
  TypeKind, TypeRef, type_ref, TypePtr, StructFields, end, field, TypeRegistry, kind_of, name_of,
  fields_of, resolve_type, type_string, normalized_string,
}
use mitum_smart_contract.Snapshot.{
  SnapshotValue, value, SnapshotFields, no_fields, with_field, SnapshotEntries, no_entries,
  with_entry, SnapshotItems, no_items, with_item,
}
use mitum_smart_contract.Snapshot.Sorting.{sort_by_key}
use mitum_smart_contract.Snapshot.Codec.{
  CodecError, unsupported, expected_struct, expected_map, expected_slice, expected_scalar,
  field_count, field_name, unnamed_struct, bad_bool, nil_pointer, fields_length, is_named,
  by_type_kind, validate_struct_field_snapshot_type, snapshot_map_elem, snapshot_slice_elem,
}

mutual
  pub data Expr : Type 0 where
    string_expr number_expr parsed_expr named_expr : String → Expr
    composite : Expr → KeyValues → Expr
    map_type : Expr → Expr → Expr
    slice_type : Expr → Expr

  pub data KeyValues : Type 0 where
    no_elements : KeyValues
    keyed : Expr → Expr → KeyValues → KeyValues
    unkeyed : Expr → KeyValues → KeyValues

-- `scalarExpr`, by the normalized spelling of the type
unfoldable pub scalar_expr_of : String → String → Result CodecError Expr
scalar_expr_of typ text =
    if typ == "string"
    then ok (string_expr text)
    else if typ == "bool"
    then (if not (text == "true") && not (text == "false")
        then err (bad_bool text)
        else ok (parsed_expr text))
    else if typ == "int" || typ == "int64" || typ == "uint64"
    then ok (number_expr text)
    else err (unsupported typ)

unfoldable pub scalar_expr : TypeRef → String → String → Result CodecError Expr
unfolding scalar_expr_of
scalar_expr t kind text = do
  fail_if (not (kind == "scalar")) (expected_scalar (type_string t))
  scalar_expr_of (normalized_string t) text

-- `buildTypeExpr`; a nil key or element is a nil dereference, and panics
unfoldable pub build_type_expr : TypeRef → Result CodecError Expr
build_type_expr (type_ref TypeKind.map raw sc name (TypePtr.ptr key) (TypePtr.ptr elem) fs) =
    build_type_expr key >>= λ k. build_type_expr elem >>= λ e. ok (map_type k e)
build_type_expr (type_ref TypeKind.map raw sc name key elem fs) = err nil_pointer
build_type_expr (type_ref TypeKind.slice raw sc name key (TypePtr.ptr elem) fs) =
    build_type_expr elem >>= λ e. ok (slice_type e)
build_type_expr (type_ref TypeKind.slice raw sc name key TypePtr.null fs) = err nil_pointer
build_type_expr t = ok (named_expr (type_string t))

-- the type of a map literal, from `resolved.Key` and `resolved.Elem`
unfoldable pub map_type_expr : TypeRef → Result CodecError Expr
unfolding build_type_expr
map_type_expr (type_ref k raw sc name (TypePtr.ptr key) (TypePtr.ptr elem) fs) =
    build_type_expr key >>= λ ke. build_type_expr elem >>= λ ee. ok (map_type ke ee)
map_type_expr t = err nil_pointer

-- the name of a struct literal, that of the type or else of what it resolves to
unfoldable pub struct_name : TypeRef → TypeRef → Result CodecError String
struct_name t resolved =
    if not (name_of t == "")
    then ok (name_of t)
    else if not (name_of resolved == "")
    then ok (name_of resolved)
    else err unnamed_struct

abbrev pub snapshot_fields_length : SnapshotFields → ℕ
snapshot_fields_length no_fields = zero
snapshot_fields_length (with_field n v fs) = suc (snapshot_fields_length fs)

-- The entries in order, or the first error in that order.
unfoldable pub collect_entries : Map (Result CodecError Expr) → Result CodecError KeyValues
collect_entries [] = ok no_elements
collect_entries ((k, r) ∷ m) =
    r >>= λ e. collect_entries m >>= λ rest. ok (keyed (string_expr k) e rest)

module _ (reg : TypeRegistry) where
  -- `BuildExpr`
  unfoldable mutual
    unfolding sort_by_key validate_struct_field_snapshot_type snapshot_map_elem snapshot_slice_elem
        scalar_expr collect_entries map_type_expr build_type_expr struct_name

    pub build_expr : TypeRef → SnapshotValue → Result CodecError Expr
    build_expr t (value kind text fields entries items is_nil) =
        by_type_kind (kind_of (resolve_type reg t)) (scalar_expr (resolve_type reg t) kind text)
          (fail_if (not (is_named (kind_of t))) (unsupported (type_string t))
            >> fail_if (not (kind == "struct")) (expected_struct (type_string t))
            >> fail_if
                (not (
                  nat_eq (snapshot_fields_length fields)
                    (fields_length (fields_of (resolve_type reg t)))))
                (field_count (fields_length (fields_of (resolve_type reg t)))
                  (snapshot_fields_length fields))
            >> struct_name t (resolve_type reg t)
            >>= λ name. build_fields (fields_of (resolve_type reg t)) fields >>= λ kvs.
                ok (composite (named_expr name) kvs))
          (fail_if (not (kind == "map")) (expected_map (type_string t))
            >> snapshot_map_elem reg t (resolve_type reg t)
            >>= λ elem.
                if is_nil
                then ok (named_expr "nil")
                else collect_entries (sort_by_key (build_entries elem entries)) >>= λ kvs.
                    map_type_expr (resolve_type reg t) >>= λ typ. ok (composite typ kvs))
          (fail_if (not (kind == "slice")) (expected_slice (type_string t))
            >> snapshot_slice_elem reg t (resolve_type reg t)
            >>= λ elem.
                if is_nil
                then ok (named_expr "nil")
                else build_items elem items >>= λ kvs.
                    build_type_expr elem >>= λ typ. ok (composite (slice_type typ) kvs))
          (err (unsupported (type_string t)))

    -- the loop of `buildStructExpr`
    pub build_fields : StructFields → SnapshotFields → Result CodecError KeyValues
    build_fields end fs = ok no_elements
    build_fields (field n ft fs) no_fields = ok no_elements
    build_fields (field n ft fs) (with_field m v vs) =
        fail_if (not (m == n)) (field_name n m)
        >> validate_struct_field_snapshot_type reg ft
        >> build_expr ft v
        >>= λ first. build_fields fs vs >>= λ rest. ok (keyed (named_expr n) first rest)

    -- the loop of `buildMapExpr`, before the order is looked at
    pub build_entries : TypeRef → SnapshotEntries → Map (Result CodecError Expr)
    build_entries elem no_entries = []
    build_entries elem (with_entry k v es) = (k, build_expr elem v) ∷ build_entries elem es

    -- the loop of `buildSliceExpr`
    pub build_items : TypeRef → SnapshotItems → Result CodecError KeyValues
    build_items elem no_items = ok no_elements
    build_items elem (with_item v vs) =
        build_expr elem v >>= λ first. build_items elem vs >>= λ rest. ok (unkeyed first rest)
