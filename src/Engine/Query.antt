-- ===== src/Engine/Query.antt =====
-- operation/contract/runtime/gno_query.go: `QueryContract`. The machine's evaluation of a query and the
-- conversion of a result to JSON (gno_query_value.go) are parameters. The gas meter is left out.
pub mod Pure
use mitum_smart_contract.Base.{
  ℕ, String, Bool, true, false, not, Option, none, some, List, [], ◌∷◌, ltb, ◌==◌, if◌then◌else◌,
  Result, ok, err, fail_if, map_err, ◌>>=◌, ◌>>◌,
}
use mitum_smart_contract.Schema.TypeRef.{
  TypeRef, ContractSchema, FunctionSchema, ResultSchema, find_function,
}
use mitum_smart_contract.Schema.Shape.{is_typed_query_shape}
use mitum_smart_contract.Schema.Finalize.{after_context}
use mitum_smart_contract.State.{
  GetState, StateValue, StateError, RuntimeStateValue, SnapshotStateValue,
  runtime_engine_gno_snapshot, runtime_state_key, snapshot_state_key, get_runtime_from_state,
  get_snapshot_from_state,
}
use mitum_smart_contract.Call.Limits.{CallData, LimitError, validate_call_data_limits}
use mitum_smart_contract.Engine.Machine.{
  Vm, Failure, failed, panicked, ArgExpr, TypedValue, ExecutionContext,
}
use mitum_smart_contract.Engine.Arguments.{ArgError, build_args}
use mitum_smart_contract.Engine.SchemaCache.{Cache, ResolveError, resolve_schema}
use mitum_smart_contract.Engine.Execute.{
  Host, EngineError, bad_schema, runtime_unreadable, runtime_undecodable, runtime_missing,
  snapshot_unreadable, snapshot_undecodable, snapshot_missing, engine_mismatch, Stage,
  machine_stage, restore_stage, capture_stage, at_stage, check_snapshot, new_execution_context,
}

pub record QueryRequest : Type 0 where
  pub contract : String
  pub sender : String
  pub height : ℕ
  pub current_height : ℕ
  pub contract_code : String
  pub schema : Option ContractSchema
  pub function : String
  pub call_data : CallData

-- the fields of `chain.QueryContext`
pub record QueryContext : Type 0 where
  pub contract : String
  pub height : ℕ
  pub current_height : ℕ
  pub read_only : Bool

-- `eval_query` runs the function, `to_json` extracts a result at its type, `get_bool` reads a Boolean.
pub record QueryVm (Machine : Type 0) : Type 0 where
  pub eval_query :
      Machine → String → QueryContext → List ArgExpr → Result Failure (Machine × List TypedValue)
  pub to_json : ContractSchema → TypeRef → TypedValue → Machine → Result Failure String
  pub get_bool : TypedValue → Bool

pub record QueryResult : Type 0 where
  pub engine : String
  pub result : String
  pub presence : Option Bool

pub data QueryError : Type 0 where
  bad_call_data : LimitError → QueryError
  query_function_not_found query_shape_unsupported : String → QueryError
  query_arguments : ArgError → QueryError
  wrong_result_count : ℕ → QueryError
  unsupported_result_count : QueryError
  query_failed query_panicked : String → QueryError
  mutated_state : String → QueryError
  in_engine : EngineError → QueryError

-- `queryCurrentHeight`
unfoldable pub query_current_height : QueryRequest → ℕ
query_current_height req =
    if ltb req.height req.current_height then req.current_height else req.height

-- `queryContextExpr`
unfoldable pub query_context : QueryRequest → QueryContext
unfolding query_current_height
query_context req = record {
  contract = req.contract;
  height = req.height;
  current_height = query_current_height req;
  read_only = true;
}

abbrev pub query_failure : Failure → QueryError
query_failure (failed m) = query_failed m
query_failure (panicked p) = query_panicked p

query_function : String → Option FunctionSchema → Result QueryError FunctionSchema
query_function name none = err (query_function_not_found name)
query_function name (some fn) = ok fn

-- the shape test of `QueryContract`
check_query_function : FunctionSchema → Result QueryError (Unit {0})
check_query_function fn = fail_if (not (is_typed_query_shape fn)) (query_shape_unsupported fn.name)

module _ {Machine : Type 0} (qvm : QueryVm Machine) where
  -- the switch on the number of declared results
  unfoldable pub query_results_of :
      ContractSchema → List ResultSchema → List TypedValue → Machine → Result QueryError QueryResult
  query_results_of schema (r ∷ []) (v ∷ []) m =
      map_err query_failure (qvm.to_json schema r.typ v m) >>= λ json.
      ok (record { engine = ""; result = json; presence = none })
  query_results_of schema (r ∷ []) vs m = err (wrong_result_count 1)
  query_results_of schema (r ∷ r2 ∷ []) (v ∷ w ∷ []) m =
      map_err query_failure (qvm.to_json schema r.typ v m) >>= λ json.
      ok (record { engine = ""; result = json; presence = some (qvm.get_bool w) })
  query_results_of schema (r ∷ r2 ∷ []) vs m = err (wrong_result_count 2)
  query_results_of schema rs vs m = err unsupported_result_count

  -- `invokeTypedQuery`: the answer, and the machine after it
  unfoldable pub invoke_typed_query :
      Machine → QueryRequest → ContractSchema → Result QueryError (QueryResult × Machine)
  unfolding query_function build_args query_context query_results_of
  invoke_typed_query m req schema =
      query_function req.function (find_function req.function schema.functions) >>= λ fn.
      map_err query_arguments (build_args schema.types (after_context fn.params) req.call_data)
      >>= λ args.
          map_err query_failure (qvm.eval_query m req.function (query_context req) args) >>= λ r.
          query_results_of schema fn.results r.1 r.0 >>= λ answer. ok (answer, r.0)

module _ {Account : Type 0} where
  -- what is read under the runtime key
  unfoldable pub query_runtime :
      Result String (Option (StateValue Account)) → Result EngineError RuntimeStateValue
  query_runtime (err e) = err (runtime_unreadable e)
  query_runtime (ok none) = err runtime_missing
  query_runtime (ok (some v)) = map_err runtime_undecodable (get_runtime_from_state v) >>= λ r.
      fail_if (not (r.engine == runtime_engine_gno_snapshot)) (engine_mismatch r.engine) >>= λ u.
      ok r

  -- what is read under the snapshot key
  unfoldable pub query_snapshot :
      Result String (Option (StateValue Account)) → Result EngineError SnapshotStateValue
  query_snapshot (err e) = err (snapshot_unreadable e)
  query_snapshot (ok none) = err snapshot_missing
  query_snapshot (ok (some v)) = map_err snapshot_undecodable (get_snapshot_from_state v) >>= λ s.
      check_snapshot s >>= λ u. ok s

module _ {Machine : Type 0} (host : Host Machine) (qvm : QueryVm Machine) where
  -- the machine, with the snapshot restored; the sender of the context is the contract
  unfoldable pub query_machine :
      QueryRequest
      → ContractSchema
      → RuntimeStateValue
      → SnapshotStateValue
      → Result EngineError Machine
  unfolding new_execution_context query_current_height
  query_machine req schema runtime snapshot =
      new_execution_context req.contract req.contract req.height (query_current_height req) true
      >>= λ ctx.
          map_err (at_stage machine_stage)
            (host.vm.new_machine ctx runtime.package_path req.contract_code)
          >>= λ m.
              map_err (at_stage restore_stage) (host.vm.restore_snapshot m snapshot.snapshot schema)

  -- the query between two captures, which must be equal
  unfoldable pub query_between_captures :
      Machine → QueryRequest → ContractSchema → Result QueryError QueryResult
  unfolding invoke_typed_query
  query_between_captures m req schema =
      map_err (λ e. in_engine (at_stage capture_stage e)) (host.vm.capture_snapshot m schema)
      >>= λ before. invoke_typed_query qvm m req schema >>= λ answer.
          map_err (λ e. in_engine (at_stage capture_stage e))
            (host.vm.capture_snapshot answer.1 schema)
          >>= λ after. fail_if (not (before == after)) (mutated_state req.function) >>= λ u.
              ok (record answer.0 { engine = runtime_engine_gno_snapshot })

module _ {Machine Account : Type 0} (host : Host Machine) (qvm : QueryVm Machine) where
  -- everything after the schema is resolved
  unfoldable pub query_typed :
      GetState Account → QueryRequest → ContractSchema → Result QueryError QueryResult
  unfolding query_function check_query_function query_runtime query_snapshot query_machine
      query_between_captures
  query_typed get_state req schema =
      query_function req.function (find_function req.function schema.functions) >>= λ fn.
      check_query_function fn >>= λ u.
      map_err in_engine (query_runtime (get_state (runtime_state_key req.contract))) >>= λ runtime.
      map_err in_engine (query_snapshot (get_state (snapshot_state_key req.contract)))
      >>= λ snapshot.
          map_err in_engine (query_machine host qvm req schema runtime snapshot) >>= λ m.
          query_between_captures host qvm m req schema

  query_resolved :
      GetState Account
      → QueryRequest
      → Result ResolveError ContractSchema × Cache
      → Result QueryError QueryResult × Cache
  unfolding query_typed
  query_resolved get_state req (r, cache) = (
    map_err (λ e. in_engine (bad_schema e)) r >>= λ schema. query_typed get_state req schema,
    cache,
  )

  query_limited :
      Cache
      → GetState Account
      → QueryRequest
      → Result LimitError (Unit {0})
      → Result QueryError QueryResult × Cache
  unfolding query_resolved
  query_limited cache get_state req (err e) = (err (bad_call_data e), cache)
  query_limited cache get_state req (ok u) =
      query_resolved get_state req
        (resolve_schema host.cache_key host.analyze cache req.schema req.contract_code)

  -- `gnoEngine.QueryContract`
  unfoldable pub query_contract :
      Cache → GetState Account → QueryRequest → Result QueryError QueryResult × Cache
  unfolding query_limited
  query_contract cache get_state req =
      query_limited cache get_state req (validate_call_data_limits req.call_data)
