-- ===== src/Schema/TypeRef.antt =====
-- operation/contract/runtime/schema.go: `TypeRef`, the registry of struct types, the contract schema
-- and the operations on type references.
use mitum_smart_contract.Base.{
  String, Bool, true, false, Option, none, some, List, [], ◌∷◌, ◌==◌, if◌then◌else◌, Map, lookup,
}
use Prim.Native.String.{◌++◌}
use mitum_smart_contract.Base.Text.{remove_char}

-- Go's `TypeKind` is a string: the six constants, or any other text (that of a zero `TypeRef` is "").
pub data TypeKind : Type 0 where
  scalar struct map slice named opaque : TypeKind
  other : String → TypeKind

-- `Key` and `Elem` are pointers, nil or not.
mutual
  pub data TypeRef : Type 0 where
    type_ref : TypeKind → String → String → String → TypePtr → TypePtr → StructFields → TypeRef

  pub data TypePtr : Type 0 where
    null : TypePtr
    ptr : TypeRef → TypePtr

  pub data StructFields : Type 0 where
    end : StructFields
    field : String → TypeRef → StructFields → StructFields

abbrev pub kind_of : TypeRef → TypeKind
kind_of (type_ref k raw sc name key elem fs) = k

abbrev pub name_of : TypeRef → String
name_of (type_ref k raw sc name key elem fs) = name

abbrev pub key_of : TypeRef → TypePtr
key_of (type_ref k raw sc name key elem fs) = key

abbrev pub elem_of : TypeRef → TypePtr
elem_of (type_ref k raw sc name key elem fs) = elem

abbrev pub fields_of : TypeRef → StructFields
fields_of (type_ref k raw sc name key elem fs) = fs

-- `TypeRegistry.Structs`
abbrev pub TypeRegistry : Type 0
TypeRegistry = Map TypeRef

pub record PersistentBindingSchema : Type 0 where
  pub name : String
  pub typ : TypeRef
  pub has_explicit_type : Bool

pub record ParamSchema : Type 0 where
  pub name : String
  pub typ : TypeRef

pub record ResultSchema : Type 0 where
  pub typ : TypeRef

pub record FunctionSchema : Type 0 where
  pub name : String
  pub exported : Bool
  pub params : List ParamSchema
  pub results : List ResultSchema

pub record ContractSchema : Type 0 where
  pub package_name : String
  pub mode : String
  pub types : TypeRegistry
  pub persistent_globals : List PersistentBindingSchema
  pub functions : List FunctionSchema

-- `SchemaModeTypedArgs`
abbrev pub schema_mode_typed_args : String
schema_mode_typed_args = "typed-snapshot-v1"

-- `TypeRegistry.Resolve`: the type, and whether it was found
unfoldable pub resolve : TypeRegistry → TypeRef → Option TypeRef
resolve reg (type_ref TypeKind.named raw sc name key elem fs) = lookup name reg
resolve reg t = some t

-- `ContractSchema.ResolveType`
abbrev pub or_self : TypeRef → Option TypeRef → TypeRef
or_self t none = t
or_self t (some r) = r

unfoldable pub resolve_type : TypeRegistry → TypeRef → TypeRef
unfolding resolve
resolve_type reg t = or_self t (resolve reg t)

-- `TypeRef.IsScalar`
abbrev pub is_scalar : TypeRef → Bool
is_scalar (type_ref TypeKind.scalar raw sc name key elem fs) = true
is_scalar (type_ref _ raw sc name key elem fs) = false

abbrev raw_or : String → String → String
raw_or raw computed = if raw == "" then computed else raw

abbrev named_or : String → String → String
named_or name computed = if name == "" then computed else name

-- `TypeRef.String`
unfoldable mutual
  pub type_string : TypeRef → String
  type_string (type_ref TypeKind.scalar raw sc name key elem fs) = raw_or raw sc
  type_string (type_ref TypeKind.named raw sc name key elem fs) = raw_or raw name
  type_string (type_ref TypeKind.map raw sc name TypePtr.null elem fs) = raw_or raw "map[?]?"
  type_string (type_ref TypeKind.map raw sc name (TypePtr.ptr k) TypePtr.null fs) =
      raw_or raw "map[?]?"
  type_string (type_ref TypeKind.map raw sc name (TypePtr.ptr k) (TypePtr.ptr e) fs) =
      raw_or raw ("map[" ++ type_string k ++ "]" ++ type_string e)
  type_string (type_ref TypeKind.slice raw sc name key TypePtr.null fs) = raw_or raw "[]?"
  type_string (type_ref TypeKind.slice raw sc name key (TypePtr.ptr e) fs) =
      raw_or raw ("[]" ++ type_string e)
  type_string (type_ref TypeKind.struct raw sc name key elem fs) =
      raw_or raw (named_or name ("struct{" ++ fields_string fs ++ "}"))
  type_string (type_ref _ raw sc name key elem fs) = raw_or raw ""

  pub fields_string : StructFields → String
  fields_string end = ""
  fields_string (field n t fs) = n ++ " " ++ type_string t ++ more_fields_string fs

  -- every field but the first follows a ";"
  pub more_fields_string : StructFields → String
  more_fields_string end = ""
  more_fields_string (field n t fs) = ";" ++ n ++ " " ++ type_string t ++ more_fields_string fs

-- `normalizeTypeString` takes the blanks, the line ends and the tabs out.
unfoldable pub normalize_type_string : String → String
unfolding remove_char
normalize_type_string s = remove_char 9 (remove_char 10 (remove_char 32 s))

-- `TypeRef.NormalizedString`
unfoldable pub normalized_string : TypeRef → String
unfolding normalize_type_string type_string
normalized_string t = normalize_type_string (type_string t)

-- `ContractSchema.FindFunction`: the first function of that name
unfoldable pub find_function : String → List FunctionSchema → Option FunctionSchema
find_function name [] = none
find_function name (fn ∷ fns) = if fn.name == name then some fn else find_function name fns
