-- ===== src/Processor/Call.antt =====
-- operation/contract/call_contract_process.go and proposal_time.go.
pub mod Effects
use mitum_smart_contract.Base.{
  ℕ, String, Bool, not, Option, none, some, List, [], ltb, ◌==◌, length, Result, ok, err, done,
  fail_if, map_err, ◌>>=◌, ◌>>◌,
}
use mitum_smart_contract.State.{
  GetState, StateValue, StateMerge, StateError, DesignStateValue, RuntimeStateValue,
  runtime_engine_gno_snapshot, design_state_key, runtime_state_key, get_design_from_state,
  get_runtime_from_state,
}
use mitum_smart_contract.Persist.Load.{runtime_schema_from_persisted}
use mitum_smart_contract.Call.Items.{
  CallContractFact, FactError, call_fact_is_valid, runtime_call_items,
}
use mitum_smart_contract.Call.Normalize.{InvocationMode, ExecuteRequest}
use mitum_smart_contract.Engine.SchemaCache.{Cache}
use mitum_smart_contract.Engine.Execute.{Host, EngineError, ExecuteResult, execute_contract}
use mitum_smart_contract.Processor.Currency.{Currency}

pub data ProcessError : Type 0 where
  bad_fact : FactError → ProcessError
  state_unreadable state_missing : String → ProcessError
  state_undecodable : StateError → ProcessError
  unsupported_engine : String → ProcessError
  no_proposal missing_items : ProcessError
  engine_error : EngineError → ProcessError
  validation_failed : ProcessError
  account_error : String → ProcessError
  account_is_nil already_active already_registered : ProcessError

-- `proposalBlockTime`: the proposed time in Unix seconds, when there is a proposal with a fact
unfoldable pub proposal_block_time : Option ℕ → Result ProcessError ℕ
proposal_block_time none = err no_proposal
proposal_block_time (some seconds) = ok seconds

module _ {Account : Type 0} where
  -- what is read under a key, which must be there
  abbrev pub read_present :
      String
      → Result String (Option (StateValue Account))
      → Result ProcessError (StateValue Account)
  read_present key (err e) = err (state_unreadable e)
  read_present key (ok none) = err (state_missing key)
  read_present key (ok (some v)) = ok v

  -- `preProcessStateGate`
  unfoldable pub pre_process_state_gate :
      CallContractFact → GetState Account → Result ProcessError (Unit {0})
  unfolding get_design_from_state get_runtime_from_state
  pre_process_state_gate fact get_state =
      read_present (design_state_key fact.contract) (get_state (design_state_key fact.contract))
      >>= λ design. map_err state_undecodable (get_design_from_state design) >>= λ d.
          read_present (runtime_state_key fact.contract)
            (get_state (runtime_state_key fact.contract))
          >>= λ runtime. map_err state_undecodable (get_runtime_from_state runtime) >>= λ r.
              fail_if (not (r.engine == runtime_engine_gno_snapshot)) (unsupported_engine r.engine)

  -- `CallContractProcessor.PreProcess`
  unfoldable pub pre_process_call :
      CallContractFact → GetState Account → Result ProcessError (Unit {0})
  unfolding pre_process_state_gate
  pre_process_call fact get_state =
      map_err bad_fact (call_fact_is_valid fact) >> pre_process_state_gate fact get_state

-- the request of a call
unfoldable pub call_request_for :
    (String → String) → CallContractFact → ℕ → ℕ → DesignStateValue → ExecuteRequest
unfolding runtime_schema_from_persisted runtime_call_items
call_request_for source_hash fact height block_time design = record {
  mode = InvocationMode.call;
  contract = fact.contract;
  sender = fact.sender;
  height = height;
  block_time = block_time;
  contract_code = design.contract_code;
  schema = runtime_schema_from_persisted source_hash design.contract_code design.schema;
  function = "";
  call_data = none;
  call_items = runtime_call_items fact.items;
  init_data = none;
}

-- the engine's error, and the engine named in its result
unfoldable pub accept_result :
    {Account : Type 0}
    → Result EngineError (ExecuteResult Account)
    → Result ProcessError (List (StateMerge Account))
accept_result (err e) = err (engine_error e)
accept_result (ok r) =
    fail_if (not (r.engine == runtime_engine_gno_snapshot)) (unsupported_engine r.engine)
    >> ok r.state_merges

module _ {Machine Account : Type 0} (host : Host Machine) (currency : Currency Account)
    (source_hash : String → String) where
  -- `CallContractProcessor.Process`, with the schema cache before it; the merges it hands over
  unfoldable pub process_call :
      Cache
      → CallContractFact
      → ℕ
      → Option ℕ
      → GetState Account
      → Result ProcessError (List (StateMerge Account))
  unfolding proposal_block_time get_design_from_state call_request_for execute_contract
      accept_result
  process_call cache fact height proposal get_state = proposal_block_time proposal >>= λ block_time.
      fail_if (ltb (length fact.items) 1) missing_items >>= λ u.
      map_err state_unreadable (currency.exists_state get_state (design_state_key fact.contract))
      >>= λ v. map_err state_undecodable (get_design_from_state v) >>= λ design.
          accept_result
            (execute_contract host cache get_state
              (call_request_for source_hash fact height block_time design)).0
