-- ===== src/Engine/Execute.antt =====
-- operation/contract/runtime/gno_engine.go: `ExecuteContract`, with the execution context of
-- gno_execution_context.go. A panic of the virtual machine ends the execution with the error that the
-- deferred `recover` makes of it. The readers of the context are always present, and are left out.
pub mod Writes
pub mod Cached
pub mod Runs
use mitum_smart_contract.Base.{
  ℕ, suc, String, Bool, true, false, not, ◌&&◌, Option, none, some, List, [], ◌∷◌, ◌++◌, ltb,
  nat_eq, ◌==◌, if◌then◌else◌, Result, ok, err, done, fail_if, map_err, ◌>>=◌, ◌>>◌,
}
use mitum_smart_contract.Schema.TypeRef.{ContractSchema, schema_mode_typed_args}
use mitum_smart_contract.State.{
  GetState, StateValue, StateMerge, StateError, RuntimeStateValue, SnapshotStateValue,
  runtime_engine_gno_snapshot, runtime_state_key, snapshot_state_key, get_runtime_from_state,
  get_snapshot_from_state,
}
use mitum_smart_contract.Call.Limits.{CallData, ExecuteCallItem}
use mitum_smart_contract.Call.Normalize.{
  InvocationMode, ExecuteRequest, NormalizedRequest, register_request, call_request, RequestError,
  normalize_execute_request,
}
use mitum_smart_contract.Engine.Machine.{Vm, Failure, failed, panicked, ExecutionContext}
use mitum_smart_contract.Engine.SchemaCache.{Cache, ResolveError, resolve_schema}
use mitum_smart_contract.Engine.Invoke.{
  is_register, InvokeError, vm_failure, Invocation, invoke_typed_write,
}
use Prim.Native.String.{len}

abbrev pub gno_snapshot_version : ℕ
gno_snapshot_version = 1

abbrev pub gno_snapshot_codec_name : String
gno_snapshot_codec_name = "gno-snapshot-json-v1"

-- What the engine calls outside these files: the virtual machine, the key of the schema cache (SHA-256 of
-- the source), the hexadecimal hash in package paths, and the analysis of a source.
pub record Host (Machine : Type 0) : Type 0 where
  pub vm : Vm Machine
  pub cache_key : String → String
  pub path_hash : String → String
  pub analyze : String → Result String ContractSchema

pub data Stage : Type 0 where
  machine_stage restore_stage capture_stage : Stage

pub data EngineError : Type 0 where
  bad_request : RequestError → EngineError
  bad_schema : ResolveError → EngineError
  runtime_unreadable snapshot_unreadable : String → EngineError
  runtime_undecodable snapshot_undecodable : StateError → EngineError
  runtime_missing snapshot_missing : EngineError
  engine_mismatch : String → EngineError
  bad_snapshot_version : ℕ → EngineError
  bad_snapshot_codec : String → EngineError
  bad_context : EngineError
  stage_failed : Stage → String → EngineError
  call_failed : InvokeError → EngineError
  call_item_failed : ℕ → String → InvokeError → EngineError
  initialize_by_call : ℕ → EngineError
  execution_panicked : String → EngineError

pub record ExecuteResult (Account : Type 0) : Type 0 where
  pub engine : String
  pub state_merges : List (StateMerge Account)

abbrev pub at_stage : Stage → Failure → EngineError
at_stage s (failed m) = stage_failed s m
at_stage s (panicked p) = execution_panicked p

-- an error of `invokeTypedWrite` is wrapped, a panic in it is not
abbrev pub invoke_failed : (InvokeError → EngineError) → InvokeError → EngineError
invoke_failed wrap (vm_failure (panicked p)) = execution_panicked p
invoke_failed wrap e = wrap e

-- `deriveRuntimeState`
unfoldable pub derive_runtime_state : (String → String) → String → String → RuntimeStateValue
derive_runtime_state path_hash contract source = record {
  engine = runtime_engine_gno_snapshot;
  abi_version = schema_mode_typed_args;
  package_name = "contract";
  package_path =
      Prim.Native.String.◌++◌ "mitum.local/r/c"
        (path_hash (Prim.Native.String.◌++◌ contract (Prim.Native.String.◌++◌ ":" source)));
  snapshot_version = gno_snapshot_version;
}

-- `NewExecutionContextWithCurrentHeight` and `ExecutionContext.Validate`
unfoldable pub new_execution_context :
    String → String → ℕ → ℕ → Bool → Result EngineError ExecutionContext
new_execution_context contract sender height current_height read_only =
    if ltb current_height height
    then err bad_context
    else ok (record {
      sender = sender;
      contract = contract;
      height = height;
      current_height = current_height;
      read_only = read_only;
    })

-- `snapshotValue.Version` and `snapshotValue.Codec`
unfoldable pub check_snapshot : SnapshotStateValue → Result EngineError (Unit {0})
check_snapshot s = do
  fail_if (not (nat_eq s.version gno_snapshot_version)) (bad_snapshot_version s.version)
  fail_if (not (s.codec == gno_snapshot_codec_name)) (bad_snapshot_codec s.codec)

-- the copy `invokeReq` of the request
abbrev pub invocation : InvocationMode → ExecuteRequest → String → CallData → Invocation
invocation mode req function call_data = record {
  mode = mode;
  contract = req.contract;
  sender = req.sender;
  height = req.height;
  block_time = req.block_time;
  function = function;
  call_data = call_data;
}

module _ {Machine : Type 0} (host : Host Machine) where
  -- the loop over the call items, from the item with this number
  unfoldable pub run_items :
      ExecuteRequest
      → ContractSchema
      → ℕ
      → List ExecuteCallItem
      → Machine
      → Result EngineError Machine
  unfolding invoke_typed_write
  run_items req schema i [] m = ok m
  run_items req schema i (item ∷ items) m =
      fail_if (item.function == "Initialize") (initialize_by_call i) >>= λ u.
      map_err (invoke_failed (call_item_failed i item.function)) (
        invoke_typed_write host.vm m
          (invocation InvocationMode.call req item.function item.call_data) schema)
      >>= λ m'. run_items req schema (suc i) items m'

  -- the `switch` on the normalized mode
  unfoldable pub run_normalized :
      ExecuteRequest → ContractSchema → NormalizedRequest → Machine → Result EngineError Machine
  unfolding run_items invoke_typed_write
  run_normalized req schema (register_request function init_data) m =
      map_err (invoke_failed call_failed) (
        invoke_typed_write host.vm m (invocation InvocationMode.register req function init_data)
          schema)
  run_normalized req schema (call_request items) m = run_items req schema 1 items m

  -- the run of the machine: load the package, restore the snapshot, invoke, capture the snapshot
  unfoldable pub run_machine :
      ExecuteRequest
      → NormalizedRequest
      → ContractSchema
      → RuntimeStateValue
      → SnapshotStateValue
      → Result EngineError String
  unfolding run_normalized new_execution_context
  run_machine req n schema runtime snapshot =
      new_execution_context req.contract req.sender req.height req.height false >>= λ ctx.
      map_err (at_stage machine_stage)
        (host.vm.new_machine ctx runtime.package_path req.contract_code)
      >>= λ m.
          map_err (at_stage restore_stage) (host.vm.restore_snapshot m snapshot.snapshot schema)
          >>= λ m1. run_normalized req schema n m1 >>= λ m2.
              map_err (at_stage capture_stage) (host.vm.capture_snapshot m2 schema)

module _ {Account : Type 0} where
  -- the merges: the snapshot, and a new runtime
  unfoldable pub merges_for : String → String → RuntimeStateValue → Bool → List (StateMerge Account)
  merges_for contract snapshot runtime is_new =
      record {
        key = snapshot_state_key contract;
        value = StateValue.snapshot_value (record {
          version = gno_snapshot_version;
          codec = gno_snapshot_codec_name;
          snapshot = snapshot;
        });
      }
      ∷ (if is_new
          then record { key = runtime_state_key contract; value = StateValue.runtime_value runtime }
            ∷ []
          else [])

module _ {Machine Account : Type 0} (host : Host Machine) where
  -- what is read under the runtime key: the runtime and whether it is new
  unfoldable pub runtime_for :
      ExecuteRequest
      → Result String (Option (StateValue Account))
      → Result EngineError (RuntimeStateValue × Bool)
  unfolding derive_runtime_state
  runtime_for req (err e) = err (runtime_unreadable e)
  runtime_for req (ok (some v)) = do
    r ← map_err runtime_undecodable (get_runtime_from_state v)
    fail_if (not (r.engine == runtime_engine_gno_snapshot)) (engine_mismatch r.engine)
    ok (r, false)
  runtime_for req (ok none) =
      if is_register req.mode
      then ok (derive_runtime_state host.path_hash req.contract req.contract_code, true)
      else err runtime_missing

  -- what is read under the snapshot key
  unfoldable pub snapshot_for :
      ExecuteRequest
      → Result String (Option (StateValue Account))
      → Result EngineError SnapshotStateValue
  snapshot_for req (err e) = err (snapshot_unreadable e)
  snapshot_for req (ok (some v)) = map_err snapshot_undecodable (get_snapshot_from_state v)
  snapshot_for req (ok none) =
      if is_register req.mode
      then ok (record {
        version = gno_snapshot_version;
        codec = gno_snapshot_codec_name;
        snapshot = "";
      })
      else err snapshot_missing

  -- everything after the schema is resolved
  unfoldable pub execute_typed :
      GetState Account
      → ExecuteRequest
      → NormalizedRequest
      → ContractSchema
      → Result EngineError (ExecuteResult Account)
  unfolding runtime_for snapshot_for check_snapshot run_machine merges_for
  execute_typed get_state req n schema =
      runtime_for req (get_state (runtime_state_key req.contract)) >>= λ runtime.
      snapshot_for req (get_state (snapshot_state_key req.contract)) >>= λ snapshot.
      check_snapshot snapshot >>= λ u. run_machine host req n schema runtime.0 snapshot >>= λ bytes.
      ok (record {
        engine = runtime_engine_gno_snapshot;
        state_merges = merges_for req.contract bytes runtime.0 runtime.1;
      })

  execute_resolved :
      GetState Account
      → ExecuteRequest
      → NormalizedRequest
      → Result ResolveError ContractSchema × Cache
      → Result EngineError (ExecuteResult Account) × Cache
  unfolding execute_typed
  execute_resolved get_state req n (r, cache) =
      (map_err bad_schema r >>= λ schema. execute_typed get_state req n schema, cache)

  execute_normalized :
      Cache
      → GetState Account
      → ExecuteRequest
      → Result RequestError NormalizedRequest
      → Result EngineError (ExecuteResult Account) × Cache
  unfolding execute_resolved
  execute_normalized cache get_state req (err e) = (err (bad_request e), cache)
  execute_normalized cache get_state req (ok n) =
      execute_resolved get_state req n
        (resolve_schema host.cache_key host.analyze cache req.schema req.contract_code)

  -- `gnoEngine.ExecuteContract`, with the schema cache before and after
  unfoldable pub execute_contract :
      Cache → GetState Account → ExecuteRequest → Result EngineError (ExecuteResult Account) × Cache
  unfolding execute_normalized
  execute_contract cache get_state req =
      execute_normalized cache get_state req (normalize_execute_request req)
