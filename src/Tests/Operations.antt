-- ===== src/Tests/Operations.antt =====
-- The theorems on the processors and on requests, applied to the sample contract.
use mitum_smart_contract.Base.{
  String, Bool, true, false, none, some, List, [], ◌∷◌, ◌≡◌, refl, Result, ok, done, is_ok,
}
use mitum_smart_contract.State.{
  DesignStateValue, design_state_key, snapshot_state_key, get_runtime_from_state,
  get_snapshot_from_state, StateMerge, StateValue, GetState, RuntimeStateValue, runtime_state_key,
  runtime_engine_gno_snapshot,
}
use mitum_smart_contract.Schema.TypeRef.{
  ContractSchema, resolve_type, find_function, normalized_string,
}
use mitum_smart_contract.Persist.Save.{new_persisted_contract_schema}
use mitum_smart_contract.Schema.Shape.{is_supported_scalar}
use mitum_smart_contract.Call.Limits.{
  call_data_total_bytes, ExecuteCallItem, validate_call_data_limits, validate_call_items_limits,
}
use mitum_smart_contract.Call.Items.{
  items_are_valid, item_is_valid, call_fact_is_valid, runtime_call_items,
}
use mitum_smart_contract.Call.Normalize.{
  InvocationMode, ExecuteRequest, call_request, normalize_execute_request,
  normalize_execute_call_items,
}
use mitum_smart_contract.Call.Normalize.Bounds.{IsBounded, normalize_bounds}
use mitum_smart_contract.Engine.SchemaCache.{resolve_schema}
use mitum_smart_contract.Engine.Execute.{derive_runtime_state}
use mitum_smart_contract.Engine.Execute.Writes.{snapshot_merge, runtime_merge}
use mitum_smart_contract.Processor.Currency.{IsApplied}
use mitum_smart_contract.Processor.Call.{
  ProcessError, process_call, pre_process_state_gate, call_request_for,
}
use mitum_smart_contract.Processor.Call.Effects.{process_call_writes, valid_call_normalizes}
use mitum_smart_contract.Processor.Register.{process_register, pre_process_register}
use mitum_smart_contract.Processor.Register.Effects.{
  process_register_writes, register_opens_gate, register_once,
}
use mitum_smart_contract.Tests.Sample.{
  sample_host, sample_currency, sample_laws, sample_hash, sample_registration, sample_call,
  sample_schema, empty_ledger, read, apply,
}

abbrev registered : Result ProcessError (List (StateMerge Bool))
registered =
    process_register sample_host sample_currency sample_hash [] sample_registration 1 (some 1000)
      empty_ledger

abbrev sample_runtime : RuntimeStateValue
sample_runtime = record {
  engine = runtime_engine_gno_snapshot;
  abi_version = "typed-snapshot-v1";
  package_name = "contract";
  package_path = "mitum.local/r/c0";
  snapshot_version = 1;
}

abbrev sample_merges : List (StateMerge Bool)
sample_merges =
    snapshot_merge "C" "Initialize"
    ∷ runtime_merge "C" sample_runtime
    ∷ record {
      key = design_state_key "C";
      value = StateValue.design_value (record {
        contract_code = "package contract";
        schema = some (new_persisted_contract_schema sample_hash "package contract" sample_schema);
      });
    }
    ∷ record { key = "account:C"; value = StateValue.account_value true }
    ∷ []

registered_ok : registered ≡ ok sample_merges
unfolding process_register normalize_execute_request validate_call_data_limits find_function
    resolve_type is_supported_scalar normalized_string
registered_ok = refl

abbrev registered_ledger : GetState Bool
registered_ledger = apply sample_merges empty_ledger

registered-IsApplied : IsApplied sample_merges registered_ledger
registered-IsApplied = (refl, (refl, (refl, (refl, tt))))

register_opens_gate_example : pre_process_state_gate sample_call registered_ledger ≡ done
register_opens_gate_example =
    register_opens_gate sample_host sample_currency sample_hash [] sample_registration 1 (some 1000)
      empty_ledger registered_ledger sample_merges sample_call refl registered_ok
      registered-IsApplied refl

register_once_example :
    is_ok (pre_process_register sample_currency sample_registration registered_ledger) ≡ false
register_once_example =
    register_once sample_host sample_currency sample_hash [] sample_registration 1 (some 1000)
      empty_ledger registered_ledger sample_merges sample_registration sample_laws refl
      registered_ok registered-IsApplied refl

process_register_writes_example :
    (schema : ContractSchema) × (bytes : String) × ((resolve_schema sample_host.cache_key
        sample_host.analyze [] none "package contract").0
      ≡ ok schema)
    × (sample_merges ≡ (
        snapshot_merge "C" bytes
        ∷ runtime_merge "C" (derive_runtime_state sample_host.path_hash "C" "package contract")
        ∷ record {
          key = design_state_key "C";
          value = StateValue.design_value (record {
            contract_code = "package contract";
            schema = some (new_persisted_contract_schema sample_hash "package contract" schema);
          });
        }
        ∷ record { key = "account:C"; value = StateValue.account_value true }
        ∷ []))
process_register_writes_example =
    process_register_writes sample_host sample_currency sample_hash [] sample_registration 1
      (some 1000) empty_ledger sample_merges refl registered_ok

abbrev design : DesignStateValue
design = record { contract_code = "package contract"; schema = none }

abbrev pub call_ledger : GetState Bool
call_ledger = read (
    (design_state_key "C", StateValue.design_value design)
    ∷ (runtime_state_key "C", StateValue.runtime_value sample_runtime)
    ∷ (
      snapshot_state_key "C",
      StateValue.snapshot_value
          (record { version = 1; codec = "gno-snapshot-json-v1"; snapshot = "Initialize" }),
    )
    ∷ [])

abbrev called : Result ProcessError (List (StateMerge Bool))
called =
    process_call sample_host sample_currency sample_hash [] sample_call 2 (some 1005) call_ledger

called_ok : called ≡ ok (snapshot_merge "C" "InitializeSetSet" ∷ [])
unfolding process_call normalize_execute_request normalize_execute_call_items
    validate_call_items_limits validate_call_data_limits call_data_total_bytes resolve_schema
    get_runtime_from_state get_snapshot_from_state find_function resolve_type is_supported_scalar
    normalized_string
called_ok = refl

process_call_writes_example :
    ((runtime : RuntimeStateValue) × (call_ledger (runtime_state_key "C")
        ≡ ok (some (StateValue.runtime_value runtime)))
      × (runtime.engine ≡ runtime_engine_gno_snapshot))
    × ((bytes : String) × (◌≡◌ {A = List (StateMerge Bool)}
          (snapshot_merge "C" "InitializeSetSet" ∷ [])
          (snapshot_merge "C" bytes ∷ [])))
process_call_writes_example =
    process_call_writes sample_host sample_currency sample_hash [] sample_call 2 (some 1005)
      call_ledger (snapshot_merge "C" "InitializeSetSet" ∷ []) called_ok

abbrev pub sample_items : List ExecuteCallItem
sample_items =
    record { function = "Set"; call_data = ("text", "hello") ∷ [] }
    ∷ record { function = "Set"; call_data = ("text", "hello") ∷ [] }
    ∷ []

abbrev pub sample_request : ExecuteRequest
sample_request = record {
  mode = InvocationMode.call;
  contract = "C";
  sender = "S";
  height = 2;
  block_time = 1005;
  contract_code = "package contract";
  schema = none;
  function = "";
  call_data = none;
  call_items = sample_items;
  init_data = none;
}

sample_call_valid : call_fact_is_valid sample_call ≡ ok tt
unfolding call_fact_is_valid items_are_valid item_is_valid validate_call_data_limits
    validate_call_items_limits runtime_call_items call_data_total_bytes
sample_call_valid = refl

valid_call_normalizes_example :
    normalize_execute_request (call_request_for sample_hash sample_call 2 1005 design)
    ≡ ok (call_request (runtime_call_items sample_call.items))
valid_call_normalizes_example =
    valid_call_normalizes sample_hash sample_call 2 1005 design tt sample_call_valid

normalize_bounds_example : IsBounded (call_request (runtime_call_items sample_call.items))
normalize_bounds_example =
    normalize_bounds (call_request_for sample_hash sample_call 2 1005 design)
      (call_request (runtime_call_items sample_call.items))
      (valid_call_normalizes sample_hash sample_call 2 1005 design tt sample_call_valid)
