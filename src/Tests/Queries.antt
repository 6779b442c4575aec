-- ===== src/Tests/Queries.antt =====
-- The theorems on queries and snapshots, applied to a contract with one query and to a small snapshot.
use mitum_smart_contract.Base.{
  String, Bool, true, false, none, some, [], ◌∷◌, ◌≡◌, ◌↔◌, refl, ok, is_ok,
}
use mitum_smart_contract.Schema.TypeRef.{
  TypeKind, type_ref, TypePtr, end, ContractSchema, find_function, normalized_string,
}
use mitum_smart_contract.Schema.Shape.{
  is_typed_query_shape, is_query_context_callable, is_query_context_type, is_single_error_result,
}
use mitum_smart_contract.State.{
  GetState, StateValue, runtime_state_key, snapshot_state_key, get_runtime_from_state,
  get_snapshot_from_state,
}
use mitum_smart_contract.Call.Limits.{validate_call_data_limits}
use mitum_smart_contract.Engine.SchemaCache.{resolve_schema}
use mitum_smart_contract.Engine.Execute.{check_snapshot}
use mitum_smart_contract.Engine.Query.{QueryRequest, QueryVm, QueryResult, query_contract}
use mitum_smart_contract.Engine.Query.Pure.{IsAnswer, query_is_pure}
use mitum_smart_contract.Snapshot.{
  SnapshotDoc, value, no_fields, no_entries, with_entry, no_items, validate_snapshot_limits,
}
use mitum_smart_contract.Snapshot.Counts.{IsWithin, counts_of_bindings, snapshot_limits_iff}
use mitum_smart_contract.Tests.Sample.{sample_host, sample_schema, string_type, read}

abbrev query_schema : ContractSchema
query_schema = record sample_schema {
  functions =
      record {
        name = "Get";
        exported = true;
        params =
            record {
              name = "ctx";
              typ =
                  type_ref TypeKind.opaque "chain.QueryContext" "" "" TypePtr.null TypePtr.null end;
            }
            ∷ [];
        results = record { typ = string_type } ∷ [];
      }
      ∷ [];
}

abbrev query_vm : QueryVm String
query_vm = record {
  eval_query = λ m function ctx args.
      ok (m, record { is_nil_interface = false; is_defined = true; error_message = "" } ∷ []);
  to_json = λ schema typ v m. ok m;
  get_bool = λ v. v.is_defined;
}

abbrev query_request : QueryRequest
query_request = record {
  contract = "C";
  sender = "S";
  height = 5;
  current_height = 3;
  contract_code = "package contract";
  schema = some query_schema;
  function = "Get";
  call_data = [];
}

abbrev query_ledger : GetState Bool
query_ledger = read (
    (
      runtime_state_key "C",
      StateValue.runtime_value (record {
        engine = "gno-snapshot-v1";
        abi_version = "typed-snapshot-v1";
        package_name = "contract";
        package_path = "mitum.local/r/c0";
        snapshot_version = 1;
      }),
    )
    ∷ (
      snapshot_state_key "C",
      StateValue.snapshot_value
          (record { version = 1; codec = "gno-snapshot-json-v1"; snapshot = "notes" }),
    )
    ∷ [])

abbrev query_answer : QueryResult
query_answer = record { engine = "gno-snapshot-v1"; result = "notes"; presence = none }

queried : (query_contract sample_host query_vm [] query_ledger query_request).0 ≡ ok query_answer
unfolding query_contract validate_call_data_limits resolve_schema find_function is_typed_query_shape
    is_query_context_callable is_query_context_type normalized_string is_single_error_result
    get_runtime_from_state get_snapshot_from_state check_snapshot
queried = refl

query_is_pure_example : IsAnswer sample_host query_vm query_request query_answer
query_is_pure_example =
    query_is_pure sample_host query_vm [] query_ledger query_request query_answer queried

abbrev small_doc : SnapshotDoc
small_doc = record {
  version = 1;
  bindings =
      record {
        name = "notes";
        value =
            value "map" "" no_fields
              (with_entry "a" (value "scalar" "x" no_fields no_entries no_items false) no_entries)
              no_items false;
      }
      ∷ [];
}

snapshot_limits_iff_example :
    (is_ok (validate_snapshot_limits small_doc 100) ≡ true)
    ↔ IsWithin 100 (counts_of_bindings small_doc.bindings)
snapshot_limits_iff_example = snapshot_limits_iff small_doc 100
