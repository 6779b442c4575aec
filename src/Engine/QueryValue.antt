-- ===== src/Engine/QueryValue.antt =====
-- operation/contract/runtime/gno_query_value.go: results of a query as values of their own and as what
-- `json.Marshal` takes. Of Go's standard library, `strconv.ParseInt`, `Atoi` and `ParseUint` in base 10
-- with 64 bits, with their values.
pub mod Numbers
pub mod Converts
pub mod Total
use mitum_smart_contract.Base.{
  ℕ, zero, suc, ◌+◌, ◌-◌, ◌*◌, ◌^◌, String, Bool, true, false, not, Option, none, some, List, [],
  ◌∷◌, ltb, leb, ◌==◌, if◌then◌else◌, nat_eq, Result, ok, err, fail_if, ◌>>=◌, ◌>>◌,
}
use Prim.Native.Char.{code}
use mitum_smart_contract.Schema.TypeRef.{
  TypeKind, TypeRef, type_ref, TypePtr, StructFields, end, field, TypeRegistry, kind_of, fields_of,
  elem_of, resolve_type, type_string, normalized_string,
}
use mitum_smart_contract.Snapshot.{
  SnapshotValue, value, SnapshotFields, no_fields, with_field, SnapshotEntries, no_entries,
  with_entry, SnapshotItems, no_items, with_item,
}
use mitum_smart_contract.Snapshot.Values.{ℤ, MachineValue}
use mitum_smart_contract.Snapshot.Codec.{CodecError, extract, fields_length, is_named, by_type_kind}
use mitum_smart_contract.Engine.Arguments.{decimal}

-- `QueryValue`: `Kind`, `Scalar`, `Fields`, `Entries`, `Items` and `IsNil`
mutual
  pub data QueryValue : Type 0 where
    answer : String → String → QueryFields → QueryEntries → QueryItems → Bool → QueryValue

  pub data QueryFields : Type 0 where
    no_answer_fields : QueryFields
    answer_field : String → QueryValue → QueryFields → QueryFields

  pub data QueryEntries : Type 0 where
    no_answer_entries : QueryEntries
    answer_entry : String → QueryValue → QueryEntries → QueryEntries

  pub data QueryItems : Type 0 where
    no_answer_items : QueryItems
    answer_item : QueryValue → QueryItems → QueryItems

-- The `interface{}` of a result: nil, a bool, a string, an int, int64 or uint64, a map, a slice.
mutual
  pub data Json : Type 0 where
    json_null : Json
    json_bool : Bool → Json
    json_string : String → Json
    json_int : ℤ → Json
    json_uint : ℕ → Json
    json_object : JsonMembers → Json
    json_array : JsonItems → Json

  pub data JsonMembers : Type 0 where
    no_members : JsonMembers
    member : String → Json → JsonMembers → JsonMembers

  pub data JsonItems : Type 0 where
    no_elements : JsonItems
    element : Json → JsonItems → JsonItems

pub data QueryValueError : Type 0 where
  unsupported_result : String → QueryValueError
  expected_answer : String → String → QueryValueError
  answer_count : ℕ → ℕ → QueryValueError
  answer_name : String → String → QueryValueError
  bad_answer : String → QueryValueError

-- `snapshotValueToQueryValue`
unfoldable mutual
  pub to_query_value : SnapshotValue → QueryValue
  to_query_value (value kind scalar fields entries items is_nil) =
      answer kind scalar (to_query_fields fields) (to_query_entries entries) (to_query_items items)
        is_nil

  pub to_query_fields : SnapshotFields → QueryFields
  to_query_fields no_fields = no_answer_fields
  to_query_fields (with_field n v fs) = answer_field n (to_query_value v) (to_query_fields fs)

  pub to_query_entries : SnapshotEntries → QueryEntries
  to_query_entries no_entries = no_answer_entries
  to_query_entries (with_entry k v es) = answer_entry k (to_query_value v) (to_query_entries es)

  pub to_query_items : SnapshotItems → QueryItems
  to_query_items no_items = no_answer_items
  to_query_items (with_item v vs) = answer_item (to_query_value v) (to_query_items vs)

-- `ExtractQueryValue`
unfoldable pub extract_query_value :
    TypeRegistry → TypeRef → MachineValue → Result CodecError QueryValue
unfolding extract to_query_value
extract_query_value reg t v = extract reg t v >>= λ s. ok (to_query_value s)

abbrev pub at_most : ℕ → Option ℕ → Option ℕ
at_most bound none = none
at_most bound (some n) = if leb n bound then some n else none

abbrev pub positive : Option ℕ → Option ℤ
positive none = none
positive (some n) = some (ℤ.pos n)

abbrev pub negative : Option ℕ → Option ℤ
negative none = none
negative (some zero) = some (ℤ.pos 0)
negative (some (suc n)) = some (ℤ.negsuc n)

-- `strconv.ParseUint(s, 10, 64)`
unfoldable pub parse_uint64 : String → Option ℕ
unfolding decimal
parse_uint64 s = at_most (2 ^ 64 - 1) (decimal s)

-- `strconv.ParseInt(s, 10, 64)`, which is `strconv.Atoi` where an int has 64 bits
unfoldable pub parse_int64 : String → Option ℤ
unfolding decimal
parse_int64 String.[] = none
parse_int64 (String.◌∷◌ d s) =
    if nat_eq (code d) 45
    then negative (at_most (2 ^ 63) (decimal s))
    else if nat_eq (code d) 43
    then positive (at_most (2 ^ 63 - 1) (decimal s))
    else positive (at_most (2 ^ 63 - 1) (decimal (String.◌∷◌ d s)))

abbrev pub int_answer : String → Option ℤ → Result QueryValueError Json
int_answer text none = err (bad_answer text)
int_answer text (some z) = ok (json_int z)

abbrev pub uint_answer : String → Option ℕ → Result QueryValueError Json
uint_answer text none = err (bad_answer text)
uint_answer text (some n) = ok (json_uint n)

-- the `switch` of `queryScalarToJSONCompatible`, by the normalized spelling of the type
unfoldable pub query_scalar_of : String → String → Result QueryValueError Json
unfolding parse_int64 parse_uint64
query_scalar_of typ text =
    if typ == "string"
    then ok (json_string text)
    else if typ == "bool"
    then (if text == "true"
        then ok (json_bool true)
        else if text == "false"
        then ok (json_bool false)
        else err (bad_answer text))
    else if typ == "int"
    then int_answer text (parse_int64 text)
    else if typ == "int64"
    then int_answer text (parse_int64 text)
    else if typ == "uint64"
    then uint_answer text (parse_uint64 text)
    else err (unsupported_result typ)

-- `queryScalarToJSONCompatible`
unfoldable pub query_scalar_to_json : TypeRef → String → String → Result QueryValueError Json
unfolding query_scalar_of
query_scalar_to_json t kind text = do
  fail_if (not (kind == "scalar")) (expected_answer "scalar" (type_string t))
  query_scalar_of (normalized_string t) text

-- `out[name] = v`
abbrev pub set_member : String → Json → JsonMembers → JsonMembers
set_member k v no_members = member k v no_members
set_member k v (member j w ms) =
    let rest = set_member k v ms in if j == k then member k v ms else member j w rest

abbrev pub query_fields_length : QueryFields → ℕ
query_fields_length no_answer_fields = zero
query_fields_length (answer_field n v fs) = suc (query_fields_length fs)

abbrev pub elem_beside_key : TypeRef → TypePtr
elem_beside_key (type_ref k raw sc name (TypePtr.ptr key) elem fs) = elem
elem_beside_key t = TypePtr.null

abbrev pub known_elem : TypeRef → TypePtr → Result QueryValueError TypeRef
known_elem t (TypePtr.ptr elem) = ok elem
known_elem t TypePtr.null = err (unsupported_result (type_string t))

module _ (reg : TypeRegistry) where
  -- `QueryValueToJSONCompatible`
  unfoldable mutual
    unfolding query_scalar_to_json

    pub query_json : TypeRef → QueryValue → Result QueryValueError Json
    query_json t (answer kind text fields entries items is_nil) =
        by_type_kind (kind_of (resolve_type reg t))
          (query_scalar_to_json (resolve_type reg t) kind text)
          (fail_if (not (is_named (kind_of t))) (unsupported_result (type_string t))
            >> fail_if (not (kind == "struct")) (expected_answer "struct" (type_string t))
            >> fail_if
                (not (
                  nat_eq (query_fields_length fields)
                    (fields_length (fields_of (resolve_type reg t)))))
                (answer_count (fields_length (fields_of (resolve_type reg t)))
                  (query_fields_length fields))
            >> query_fields (fields_of (resolve_type reg t)) fields no_members
            >>= λ out. ok (json_object out))
          (fail_if (not (kind == "map")) (expected_answer "map" (type_string t))
            >> known_elem t (elem_beside_key (resolve_type reg t))
            >>= λ elem.
                if is_nil
                then ok json_null
                else query_entries elem entries no_members >>= λ out. ok (json_object out))
          (fail_if (not (kind == "slice")) (expected_answer "slice" (type_string t))
            >> known_elem t (elem_of (resolve_type reg t))
            >>= λ elem.
                if is_nil
                then ok json_null
                else query_items elem items >>= λ out. ok (json_array out))
          (err (unsupported_result (type_string t)))

    pub query_fields : StructFields → QueryFields → JsonMembers → Result QueryValueError JsonMembers
    query_fields end fs out = ok out
    query_fields (field n t fs) no_answer_fields out = ok out
    query_fields (field n t fs) (answer_field m v vs) out =
        fail_if (not (m == n)) (answer_name n m) >> query_json t v >>= λ x.
        query_fields fs vs (set_member n x out)

    pub query_entries : TypeRef → QueryEntries → JsonMembers → Result QueryValueError JsonMembers
    query_entries elem no_answer_entries out = ok out
    query_entries elem (answer_entry k v es) out =
        query_json elem v >>= λ x. query_entries elem es (set_member k x out)

    pub query_items : TypeRef → QueryItems → Result QueryValueError JsonItems
    query_items elem no_answer_items = ok no_elements
    query_items elem (answer_item v vs) =
        query_json elem v >>= λ x. query_items elem vs >>= λ rest. ok (element x rest)
