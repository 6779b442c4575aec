-- ===== src/Persist/Load.antt =====
-- operation/contract/runtime/schema_metadata.go: from the persisted schema to the runtime's, with the
-- checks that guard a schema read back from state. Errors leave out the place that Go writes in front.
use mitum_smart_contract.Base.{
  String, Bool, true, false, not, ◌||◌, Option, none, some, List, [], ◌∷◌, Map, ◌==◌, if◌then◌else◌,
  Result, ok, err, fail_if, ◌>>=◌, ◌>>◌,
}
use mitum_smart_contract.Schema.TypeRef.{
  TypeKind, TypeRef, type_ref, TypePtr, null, ptr, StructFields, end, field, TypeRegistry,
  PersistentBindingSchema, ParamSchema, ResultSchema, FunctionSchema, ContractSchema,
  schema_mode_typed_args,
}
use mitum_smart_contract.Schema.Ruleset.{current_schema_ruleset}
use mitum_smart_contract.Schema.Finalize.{SchemaError, finalize_contract_schema}
use mitum_smart_contract.Persist.Dto.{
  PersistedTypeRef, persisted, PersistedPtr, nil, to, PersistedFields, member, PersistedBinding,
  PersistedParam, PersistedResult, PersistedFunction, PersistedSchema, PersistedContractSchema,
  current_schema_format_version, persisted_is_valid,
}

pub data LoadError : Type 0 where
  unsupported_mode unsupported_kind : String → LoadError
  bad_shape : TypeKind → LoadError

-- `TypeKind(dto.Kind)`
unfoldable pub type_kind : String → TypeKind
type_kind s =
    if s == "scalar"
    then TypeKind.scalar
    else if s == "struct"
    then TypeKind.struct
    else if s == "map"
    then TypeKind.map
    else if s == "slice"
    then TypeKind.slice
    else if s == "named"
    then TypeKind.named
    else if s == "opaque"
    then TypeKind.opaque
    else TypeKind.other s

-- `isKnownTypeKind`
abbrev pub is_known_type_kind : TypeKind → Bool
is_known_type_kind (TypeKind.other s) = false
is_known_type_kind _ = true

abbrev is_nil : PersistedPtr → Bool
is_nil nil = true
is_nil (to t) = false

abbrev has_fields : PersistedFields → Bool
has_fields PersistedFields.done = false
has_fields (member n t fs) = true

-- `validatePersistedTypeRefShape`, by the kind: the key, the element and the fields
shape_fails : TypeKind → PersistedPtr → PersistedPtr → PersistedFields → Bool
shape_fails TypeKind.map key elem fs = is_nil key || is_nil elem || has_fields fs
shape_fails TypeKind.slice key elem fs = is_nil elem || not (is_nil key) || has_fields fs
shape_fails TypeKind.struct key elem fs = not (is_nil key) || not (is_nil elem)
shape_fails (TypeKind.other s) key elem fs = false
shape_fails _ key elem fs = not (is_nil key) || not (is_nil elem) || has_fields fs

unfoldable pub check_shape :
    String → PersistedPtr → PersistedPtr → PersistedFields → Result LoadError TypeKind
unfolding shape_fails
check_shape s key elem fs = do
  fail_if (not (is_known_type_kind (type_kind s))) (unsupported_kind s)
  fail_if (shape_fails (type_kind s) key elem fs) (bad_shape (type_kind s))
  ok (type_kind s)

unfoldable mutual
  -- `runtimeTypeRefFromPersisted`
  pub load_type_ref : PersistedTypeRef → Result LoadError TypeRef
  load_type_ref (persisted s raw sc name key elem fs) = check_shape s key elem fs >>= λ k.
      load_ptr key >>= λ key'. load_ptr elem >>= λ elem'.
      load_fields fs >>= λ fs'. ok (type_ref k raw sc name key' elem' fs')

  pub load_ptr : PersistedPtr → Result LoadError TypePtr
  load_ptr nil = ok null
  load_ptr (to t) = load_type_ref t >>= λ t'. ok (ptr t')

  -- `runtimeStructFieldsFromPersisted`
  pub load_fields : PersistedFields → Result LoadError StructFields
  load_fields PersistedFields.done = ok end
  load_fields (member n t fs) =
      load_type_ref t >>= λ t'. load_fields fs >>= λ fs'. ok (field n t' fs')

-- `runtimeTypeRegistryFromPersisted`
unfoldable pub load_registry : Map PersistedTypeRef → Result LoadError TypeRegistry
load_registry [] = ok []
load_registry ((name, t) ∷ reg) =
    load_type_ref t >>= λ t'. load_registry reg >>= λ reg'. ok ((name, t') ∷ reg')

-- `runtimePersistentBindingSchemasFromPersisted`
unfoldable pub load_bindings :
    List PersistedBinding → Result LoadError (List PersistentBindingSchema)
load_bindings [] = ok []
load_bindings (b ∷ bs) = load_type_ref b.typ >>= λ t. load_bindings bs >>= λ bs'.
    ok (record { name = b.name; typ = t; has_explicit_type = b.has_explicit_type } ∷ bs')

-- `runtimeParamSchemasFromPersisted`
unfoldable pub load_params : List PersistedParam → Result LoadError (List ParamSchema)
load_params [] = ok []
load_params (p ∷ ps) = load_type_ref p.typ >>= λ t.
    load_params ps >>= λ ps'. ok (record { name = p.name; typ = t } ∷ ps')

-- `runtimeResultSchemasFromPersisted`
unfoldable pub load_results : List PersistedResult → Result LoadError (List ResultSchema)
load_results [] = ok []
load_results (r ∷ rs) =
    load_type_ref r.typ >>= λ t. load_results rs >>= λ rs'. ok (record { typ = t } ∷ rs')

-- `runtimeFunctionSchemasFromPersisted`
unfoldable pub load_functions : List PersistedFunction → Result LoadError (List FunctionSchema)
load_functions [] = ok []
load_functions (fn ∷ fns) = load_params fn.params >>= λ params.
    load_results fn.results >>= λ results. load_functions fns >>= λ fns'.
    ok
      (record { name = fn.name; exported = fn.exported; params = params; results = results } ∷ fns')

-- `runtimeContractSchemaFromPersisted`
unfoldable pub load_schema : PersistedSchema → Result LoadError ContractSchema
load_schema dto = do
  fail_if (not (dto.mode == schema_mode_typed_args)) (unsupported_mode dto.mode)
  reg ← load_registry dto.types
  globals ← load_bindings dto.persistent_globals
  functions ← load_functions dto.functions
  ok (record {
    package_name = dto.package_name;
    mode = dto.mode;
    types = reg;
    persistent_globals = globals;
    functions = functions;
  })

abbrev pub finalized : Result SchemaError ContractSchema → Option ContractSchema
finalized (err e) = none
finalized (ok schema) = if not (schema.mode == schema_mode_typed_args) then none else some schema

abbrev pub loaded : Result LoadError ContractSchema → Option ContractSchema
loaded (err e) = none
loaded (ok schema) = finalized (finalize_contract_schema schema)

-- `RuntimeSchemaFromPersisted`, without its write to the cache
pub load_present : (String → String) → String → PersistedContractSchema → Option ContractSchema
load_present source_hash source p =
    if not (persisted_is_valid p)
    then none
    else if not (p.schema_format_version == current_schema_format_version)
    then none
    else if not (p.schema_ruleset_version == current_schema_ruleset.version)
    then none
    else if not (p.source_hash == source_hash source)
    then none
    else if not (p.schema.mode == schema_mode_typed_args)
    then none
    else loaded (load_schema p.schema)

unfoldable pub runtime_schema_from_persisted :
    (String → String) → String → Option PersistedContractSchema → Option ContractSchema
unfolding load_present
runtime_schema_from_persisted source_hash source none = none
runtime_schema_from_persisted source_hash source (some p) = load_present source_hash source p
