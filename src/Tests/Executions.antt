-- ===== src/Tests/Executions.antt =====
-- The theorems on the engine, applied to the sample contract.
use mitum_smart_contract.Base.{
  String, Bool, true, none, some, List, [], ◌∷◌, length, ◌≡◌, ◌↔◌, refl, ap, All, ok, Bool-cases,
  inl, inr, ◌==◌,
}
use mitum_smart_contract.State.{
  get_runtime_from_state, get_snapshot_from_state, StateValue, RuntimeStateValue, runtime_state_key,
  runtime_engine_gno_snapshot,
}
use mitum_smart_contract.Schema.TypeRef.{resolve_type, find_function, normalized_string}
use mitum_smart_contract.Schema.Shape.{is_supported_scalar}
use mitum_smart_contract.Call.Limits.{
  call_data_total_bytes, validate_call_data_limits, validate_call_items_limits,
}
use mitum_smart_contract.Call.Normalize.{
  InvocationMode, ExecuteRequest, normalize_execute_request, normalize_execute_call_items,
}
use mitum_smart_contract.Engine.Machine.{str_expr}
use mitum_smart_contract.Schema.Finalize.{after_context}
use mitum_smart_contract.Engine.Arguments.{build_initialize_args}
use mitum_smart_contract.Engine.Arguments.Given.{IsKnown, IsGiven, initialize_args_exact}
use mitum_smart_contract.Engine.SchemaCache.{Cache, resolve_schema, analyze_typed}
use mitum_smart_contract.Engine.SchemaCache.Transparent.{
  IsSound, resolve_schema_transparent, resolve_schema-IsSound,
}
use mitum_smart_contract.Engine.Execute.{
  ExecuteResult, execute_contract, derive_runtime_state, run_items,
}
use mitum_smart_contract.Engine.Execute.Writes.{
  snapshot_merge, runtime_merge, call_writes_snapshot, register_writes,
}
use mitum_smart_contract.Engine.Execute.Runs.{Runs, run_items_iff}
use mitum_smart_contract.Engine.Execute.Cached.{execute_contract_cached}
use mitum_smart_contract.Tests.Sample.{sample_host, sample_schema, empty_ledger, sample_registry}
use mitum_smart_contract.Schema.TypeRef.{ParamSchema}
use mitum_smart_contract.Tests.Sample.{context_type, string_type}
use mitum_smart_contract.Tests.Operations.{call_ledger, sample_items, sample_request}

abbrev call_result : ExecuteResult Bool
call_result = record {
  engine = runtime_engine_gno_snapshot;
  state_merges = snapshot_merge "C" "InitializeSetSet" ∷ [];
}

executed_call : (execute_contract sample_host [] call_ledger sample_request).0 ≡ ok call_result
unfolding execute_contract normalize_execute_request normalize_execute_call_items
    validate_call_items_limits validate_call_data_limits call_data_total_bytes find_function
    resolve_type is_supported_scalar normalized_string get_runtime_from_state
    get_snapshot_from_state resolve_schema
executed_call = refl

call_writes_snapshot_example :
    ((runtime : RuntimeStateValue) × (call_ledger (runtime_state_key "C")
        ≡ ok (some (StateValue.runtime_value runtime)))
      × (runtime.engine ≡ runtime_engine_gno_snapshot))
    × ((bytes : String) × (call_result ≡ record {
      engine = runtime_engine_gno_snapshot;
      state_merges = snapshot_merge "C" bytes ∷ [];
    }))
call_writes_snapshot_example =
    call_writes_snapshot sample_host [] call_ledger sample_request call_result refl executed_call

abbrev sample_register_request : ExecuteRequest
sample_register_request = record {
  mode = InvocationMode.register;
  contract = "C";
  sender = "S";
  height = 1;
  block_time = 1000;
  contract_code = "package contract";
  schema = some sample_schema;
  function = "Initialize";
  call_data = some (("owner", "S") ∷ []);
  call_items = [];
  init_data = some (("owner", "S") ∷ []);
}

abbrev register_result : ExecuteResult Bool
register_result = record {
  engine = runtime_engine_gno_snapshot;
  state_merges =
      snapshot_merge "C" "Initialize"
      ∷ runtime_merge "C" (derive_runtime_state sample_host.path_hash "C" "package contract")
      ∷ [];
}

executed_register :
    (execute_contract sample_host [] empty_ledger sample_register_request).0 ≡ ok register_result
unfolding execute_contract normalize_execute_request validate_call_data_limits resolve_schema
    find_function resolve_type is_supported_scalar normalized_string derive_runtime_state
executed_register = refl

register_writes_example :
    (true ≡ true)
    × ((bytes : String) × (register_result ≡ record {
      engine = runtime_engine_gno_snapshot;
      state_merges =
          snapshot_merge "C" bytes
          ∷ runtime_merge "C" (derive_runtime_state sample_host.path_hash "C" "package contract")
          ∷ [];
    }))
register_writes_example =
    register_writes sample_host [] empty_ledger sample_register_request register_result refl
      executed_register

run_items_iff_example :
    (run_items sample_host sample_request sample_schema 1 sample_items "" ≡ ok "SetSet")
    ↔ Runs sample_host sample_request sample_schema sample_items "" "SetSet"
run_items_iff_example =
    run_items_iff sample_host sample_request sample_schema 1 sample_items "" "SetSet"

empty_IsSound : IsSound sample_host.cache_key sample_host.analyze []
empty_IsSound source schema h = cc h

abbrev one_entry : Cache
one_entry = ("package contract", sample_schema) ∷ []

one_entry-IsSound : IsSound sample_host.cache_key sample_host.analyze one_entry
unfolding analyze_typed
one_entry-IsSound source schema h = elim (Bool-cases ("package contract" == source)) [
  | inl e ↦ (let h' = rw e at h in let same : sample_schema ≡ schema = cc h' in ap ok same)
  | inr e ↦ (let h' = rw e at h in cc h')
]

resolve_schema_transparent_example :
    (resolve_schema sample_host.cache_key sample_host.analyze one_entry none "package contract").0
    ≡ (resolve_schema sample_host.cache_key sample_host.analyze [] none "package contract").0
resolve_schema_transparent_example =
    resolve_schema_transparent sample_host.cache_key sample_host.analyze one_entry none
      "package contract" one_entry-IsSound

resolve_schema-IsSound_example :
    IsSound sample_host.cache_key sample_host.analyze
      (resolve_schema sample_host.cache_key sample_host.analyze one_entry none "package other").1
resolve_schema-IsSound_example =
    resolve_schema-IsSound sample_host.cache_key sample_host.analyze one_entry none "package other"
      (λ s t e. e) one_entry-IsSound

execute_contract_cached_example :
    (execute_contract sample_host one_entry call_ledger sample_request).0
    ≡ (execute_contract sample_host [] call_ledger sample_request).0
execute_contract_cached_example =
    execute_contract_cached sample_host one_entry call_ledger sample_request one_entry-IsSound

abbrev initialize_params : List ParamSchema
initialize_params =
    record { name = "ctx"; typ = context_type } ∷ record { name = "owner"; typ = string_type } ∷ []

initialize_args_ok :
    build_initialize_args sample_registry initialize_params (("owner", "S") ∷ [])
    ≡ ok (str_expr "S" ∷ [])
unfolding build_initialize_args resolve_type is_supported_scalar normalized_string
initialize_args_ok = refl

initialize_args_exact_example :
    All (IsKnown (after_context initialize_params)) (("owner", "S") ∷ [])
    × ((length (str_expr "S" ∷ []) ≡ length (after_context initialize_params))
        × All (IsGiven sample_registry (("owner", "S") ∷ [])) (after_context initialize_params))
initialize_args_exact_example =
    initialize_args_exact sample_registry initialize_params (("owner", "S") ∷ [])
      (str_expr "S" ∷ []) initialize_args_ok
