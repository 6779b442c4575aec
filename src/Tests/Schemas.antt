-- ===== src/Tests/Schemas.antt =====
-- The theorems on schemas and their stored form, applied to the sample contract.
use mitum_smart_contract.Base.{true, some, ◌≡◌, ◌≢◌, ◌↔◌, refl, All, ok, err, is_ok}
use mitum_smart_contract.Schema.TypeRef.{
  FunctionSchema, find_function, normalized_string, resolve_type,
}
use mitum_smart_contract.Schema.Shape.{
  is_supported_scalar, is_typed_initialize_shape, is_write_context_callable, is_write_context_type,
  is_single_error_result, uses_legacy_contract_context, is_legacy_contract_context_type,
  is_context_callable, is_typed_write_shape,
}
use mitum_smart_contract.Schema.Validate.{
  validate_scalar_abi_type, validate_persistent_global_type, validate_named_struct,
  validate_map_type, validate_slice_type, out_of_fuel,
}
use mitum_smart_contract.Schema.Validate.Ends.{validation_ends}
use mitum_smart_contract.Schema.Validate.Sound.{IsStruct, IsMap, IsSlice}
use mitum_smart_contract.Schema.Validate.Complete.{validation_decides}
use mitum_smart_contract.Schema.Finalize.{finalize_contract_schema, after_context}
use mitum_smart_contract.Schema.Finalize.Accepted.{
  HasScalarType, IsGlobal, IsCallable, finalize_accepts,
}
use mitum_smart_contract.Persist.Dto.{PersistedContractSchema, current_schema_format_version}
use mitum_smart_contract.Persist.Save.{save_schema, new_persisted_contract_schema}
use mitum_smart_contract.Persist.Load.{load_schema, runtime_schema_from_persisted}
use mitum_smart_contract.Persist.Schemas.{schema_is_well_shaped, load-save_schema, save-load_schema}
use mitum_smart_contract.Persist.RoundTrip.{is_well_shaped}
use mitum_smart_contract.Persist.Reload.{reload, reload_only}
use mitum_smart_contract.Tests.Sample.{sample_schema, sample_registry, sample_hash, note_type}

validation_ends_example :
    (validate_named_struct sample_registry note_type ≢ err out_of_fuel)
    × (validate_map_type sample_registry note_type ≢ err out_of_fuel)
    × (validate_slice_type sample_registry note_type ≢ err out_of_fuel)
validation_ends_example = validation_ends sample_registry note_type

validation_decides_example :
    ((is_ok (validate_named_struct sample_registry note_type) ≡ true)
      ↔ IsStruct sample_registry note_type)
    × ((is_ok (validate_map_type sample_registry note_type) ≡ true)
        ↔ IsMap sample_registry note_type)
    × ((is_ok (validate_slice_type sample_registry note_type) ≡ true)
        ↔ IsSlice sample_registry note_type)
validation_decides_example = validation_decides sample_registry note_type

sample_finalized : finalize_contract_schema sample_schema ≡ ok sample_schema
unfolding finalize_contract_schema find_function is_typed_initialize_shape is_write_context_callable
    is_write_context_type normalized_string is_single_error_result validate_scalar_abi_type
    is_supported_scalar resolve_type validate_persistent_global_type validate_map_type
    uses_legacy_contract_context is_legacy_contract_context_type is_context_callable
    is_typed_write_shape
sample_finalized = refl

finalize_accepts_example :
    (sample_schema ≡ record sample_schema { mode = "typed-snapshot-v1" })
    × (sample_schema.package_name ≡ "contract")
    × ((init : FunctionSchema) × (find_function "Initialize" sample_schema.functions ≡ some init)
        × (is_typed_initialize_shape init ≡ true)
        × All (HasScalarType sample_schema.types) (after_context init.params))
    × All (IsGlobal sample_schema.types) sample_schema.persistent_globals
    × All (IsCallable sample_schema.types) sample_schema.functions
finalize_accepts_example = finalize_accepts sample_schema sample_schema sample_finalized

sample_well_shaped : schema_is_well_shaped sample_schema ≡ true
unfolding schema_is_well_shaped is_well_shaped
sample_well_shaped = refl

load-save_schema_example : load_schema (save_schema sample_schema) ≡ ok sample_schema
load-save_schema_example = load-save_schema sample_schema sample_well_shaped refl

save-load_schema_example : save_schema sample_schema ≡ save_schema sample_schema
save-load_schema_example =
    save-load_schema (save_schema sample_schema) sample_schema
      (load-save_schema sample_schema sample_well_shaped refl)

hash_is_not_empty : sample_hash "package contract" ≢ ""
hash_is_not_empty h = cc h

reload_example :
    runtime_schema_from_persisted sample_hash "package contract"
      (some (new_persisted_contract_schema sample_hash "package contract" sample_schema))
    ≡ some sample_schema
reload_example =
    reload sample_hash "package contract" sample_schema sample_schema sample_finalized
      sample_well_shaped hash_is_not_empty

abbrev stored_sample : PersistedContractSchema
stored_sample = new_persisted_contract_schema sample_hash "package contract" sample_schema

reload_only_example :
    (stored_sample.schema_format_version ≡ current_schema_format_version)
    × (stored_sample.schema_ruleset_version
        ≡ mitum_smart_contract.Schema.Ruleset.current_schema_ruleset.version)
    × (stored_sample.source_hash ≡ sample_hash "package contract")
    × (finalize_contract_schema sample_schema ≡ ok sample_schema)
    × (save_schema sample_schema ≡ stored_sample.schema)
reload_only_example =
    reload_only sample_hash "package contract" stored_sample sample_schema reload_example
