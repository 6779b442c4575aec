-- ===== src/Persist/Save.antt =====
-- operation/contract/runtime/schema_metadata.go: from the runtime's schema to the persisted one.
use mitum_smart_contract.Base.{String, List, [], ◌∷◌, Map}
use mitum_smart_contract.Schema.TypeRef.{
  TypeKind, TypeRef, type_ref, TypePtr, null, ptr, StructFields, end, field, TypeRegistry,
  PersistentBindingSchema, ParamSchema, ResultSchema, FunctionSchema, ContractSchema,
}
use mitum_smart_contract.Schema.Ruleset.{current_schema_ruleset}
use mitum_smart_contract.Persist.Dto.{
  PersistedTypeRef, persisted, PersistedPtr, nil, to, PersistedFields, done, member,
  PersistedBinding, PersistedParam, PersistedResult, PersistedFunction, PersistedSchema,
  PersistedContractSchema, current_schema_format_version,
}

-- `string(kind)`
abbrev pub kind_text : TypeKind → String
kind_text TypeKind.scalar = "scalar"
kind_text TypeKind.struct = "struct"
kind_text TypeKind.map = "map"
kind_text TypeKind.slice = "slice"
kind_text TypeKind.named = "named"
kind_text TypeKind.opaque = "opaque"
kind_text (TypeKind.other s) = s

unfoldable mutual
  -- `persistedTypeRefFromRuntime`
  pub save_type_ref : TypeRef → PersistedTypeRef
  save_type_ref (type_ref k raw sc name key elem fs) =
      persisted (kind_text k) raw sc name (save_ptr key) (save_ptr elem) (save_fields fs)

  pub save_ptr : TypePtr → PersistedPtr
  save_ptr null = nil
  save_ptr (ptr t) = to (save_type_ref t)

  -- `persistedStructFieldsFromRuntime`
  pub save_fields : StructFields → PersistedFields
  save_fields end = done
  save_fields (field n t fs) = member n (save_type_ref t) (save_fields fs)

-- `persistedTypeRegistryFromRuntime`
unfoldable pub save_registry : TypeRegistry → Map PersistedTypeRef
save_registry [] = []
save_registry ((name, t) ∷ reg) = (name, save_type_ref t) ∷ save_registry reg

-- `persistedPersistentBindingSchemasFromRuntime`
unfoldable pub save_bindings : List PersistentBindingSchema → List PersistedBinding
save_bindings [] = []
save_bindings (b ∷ bs) =
    record { name = b.name; typ = save_type_ref b.typ; has_explicit_type = b.has_explicit_type }
    ∷ save_bindings bs

-- `persistedParamSchemasFromRuntime`
unfoldable pub save_params : List ParamSchema → List PersistedParam
save_params [] = []
save_params (p ∷ ps) = record { name = p.name; typ = save_type_ref p.typ } ∷ save_params ps

-- `persistedResultSchemasFromRuntime`
unfoldable pub save_results : List ResultSchema → List PersistedResult
save_results [] = []
save_results (r ∷ rs) = record { typ = save_type_ref r.typ } ∷ save_results rs

-- `persistedFunctionSchemasFromRuntime`
unfoldable pub save_functions : List FunctionSchema → List PersistedFunction
save_functions [] = []
save_functions (fn ∷ fns) =
    record {
      name = fn.name;
      exported = fn.exported;
      params = save_params fn.params;
      results = save_results fn.results;
    }
    ∷ save_functions fns

-- `persistedContractSchemaFromRuntime`
unfoldable pub save_schema : ContractSchema → PersistedSchema
save_schema schema = record {
  package_name = schema.package_name;
  mode = schema.mode;
  types = save_registry schema.types;
  persistent_globals = save_bindings schema.persistent_globals;
  functions = save_functions schema.functions;
}

-- `NewPersistedContractSchema`; the source's hash (SHA-256 in hexadecimal) is a parameter
unfoldable pub new_persisted_contract_schema :
    (String → String) → String → ContractSchema → PersistedContractSchema
new_persisted_contract_schema source_hash source schema = record {
  schema_format_version = current_schema_format_version;
  schema_ruleset_version = current_schema_ruleset.version;
  source_hash = source_hash source;
  schema = save_schema schema;
}
