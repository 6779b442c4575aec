-- ===== src/Processor/Register.antt =====
-- operation/contract/register_contract.go and register_contract_process.go.
pub mod Effects
use mitum_smart_contract.Base.{
  ℕ, String, len, Bool, true, false, not, Option, none, some, List, [], ◌∷◌, ◌++◌, ltb, ◌==◌, Map,
  Result, ok, err, done, fail_if, map_err, ◌>>=◌, ◌>>◌, ◌*◌,
}
use mitum_smart_contract.State.{
  GetState, StateValue, StateMerge, DesignStateValue, design_state_key,
}
use mitum_smart_contract.Schema.TypeRef.{ContractSchema}
use mitum_smart_contract.Persist.Save.{new_persisted_contract_schema}
use mitum_smart_contract.Call.Limits.{CallData, validate_call_data_limits}
use mitum_smart_contract.Call.Items.{
  FactError, bad_hint, self_target, bad_parts, bad_operation_fact, no_call_data, source_too_large,
  over_limits,
}
use mitum_smart_contract.Call.Normalize.{InvocationMode, ExecuteRequest}
use mitum_smart_contract.Engine.SchemaCache.{Cache, resolve_schema}
use mitum_smart_contract.Engine.Execute.{Host, EngineError, execute_contract, bad_schema}
use mitum_smart_contract.Processor.Currency.{Currency}
use mitum_smart_contract.Processor.Call.{
  ProcessError, bad_fact, engine_error, account_error, account_is_nil, already_active,
  already_registered, proposal_block_time, accept_result,
}

abbrev pub max_contract_source_bytes : ℕ
max_contract_source_bytes = 256 * 1024

-- A nil map is `none`. Of the hints, the addresses, the currency and the operation's fact, what their own
-- checks answer.
pub record RegisterContractFact : Type 0 where
  pub hint_is_valid : Bool
  pub sender : String
  pub contract : String
  pub code : String
  pub call_data : Option CallData
  pub parts_are_valid : Bool
  pub operation_fact_is_valid : Bool

check_init_data : Option CallData → Result FactError (Unit {0})
check_init_data none = err no_call_data
check_init_data (some m) = map_err over_limits (validate_call_data_limits m)

-- `RegisterContractFact.IsValid`
unfoldable pub register_fact_is_valid : RegisterContractFact → Result FactError (Unit {0})
unfolding check_init_data
register_fact_is_valid fact = do
  fail_if (not fact.hint_is_valid) bad_hint
  fail_if (ltb max_contract_source_bytes (len fact.code)) source_too_large
  fail_if (fact.sender == fact.contract) self_target
  check_init_data fact.call_data
  fail_if (not fact.parts_are_valid) bad_parts
  fail_if (not fact.operation_fact_is_valid) bad_operation_fact

-- the request of a registration
unfoldable pub register_request_for : RegisterContractFact → ℕ → ℕ → ContractSchema → ExecuteRequest
register_request_for fact height block_time schema = record {
  mode = InvocationMode.register;
  contract = fact.contract;
  sender = fact.sender;
  height = height;
  block_time = block_time;
  contract_code = fact.code;
  schema = some schema;
  function = "Initialize";
  call_data = fact.call_data;
  call_items = [];
  init_data = fact.call_data;
}

module _ {Account : Type 0} (currency : Currency Account) where
  -- the account that the owner's check found
  unfoldable pub check_account : Option Account → Result ProcessError (Unit {0})
  check_account none = err account_is_nil
  check_account (some a) = fail_if (currency.is_active a) already_active

  -- `RegisterContractProcessor.PreProcess`
  unfoldable pub pre_process_register :
      RegisterContractFact → GetState Account → Result ProcessError (Unit {0})
  unfolding check_account
  pre_process_register fact get_state = map_err bad_fact (register_fact_is_valid fact) >>= λ u.
      map_err account_error (currency.exists_contract_account get_state fact.contract) >>= λ v.
      map_err account_error (currency.check_auth v fact.sender) >>= λ ca. check_account ca >>= λ w.
      fail_if (currency.is_state_found get_state (design_state_key fact.contract))
        already_registered

  -- the merges for the design with its schema, and for the account, now active
  unfoldable pub registration_merges :
      (String → String)
      → RegisterContractFact
      → ContractSchema
      → GetState Account
      → List (StateMerge Account)
  unfolding new_persisted_contract_schema
  registration_merges source_hash fact schema get_state =
      record {
        key = design_state_key fact.contract;
        value = StateValue.design_value (record {
          contract_code = fact.code;
          schema = some (new_persisted_contract_schema source_hash fact.code schema);
        });
      }
      ∷ record {
        key = currency.account_key fact.contract;
        value = StateValue.account_value (
            currency.set_is_active true (
              currency.account_of_state
                (currency.exists_state get_state (currency.account_key fact.contract))));
      }
      ∷ []

module _ {Machine Account : Type 0} (host : Host Machine) (currency : Currency Account)
    (source_hash : String → String) where
  -- the execution, with the cache that the validation left
  unfoldable pub execute_register :
      Cache
      → RegisterContractFact
      → ℕ
      → ℕ
      → GetState Account
      → ContractSchema
      → Result ProcessError (List (StateMerge Account))
  unfolding register_request_for execute_contract accept_result registration_merges
  execute_register cache fact height block_time get_state schema =
      accept_result
        (execute_contract host cache get_state
          (register_request_for fact height block_time schema)).0
      >>= λ merges. ok (merges ++ registration_merges currency source_hash fact schema get_state)

  -- `RegisterContractProcessor.Process`; the design's check is on its hint, which is the right one
  unfoldable pub process_register :
      Cache
      → RegisterContractFact
      → ℕ
      → Option ℕ
      → GetState Account
      → Result ProcessError (List (StateMerge Account))
  unfolding proposal_block_time resolve_schema execute_register
  process_register cache fact height proposal get_state =
      let (schema, cache') = resolve_schema host.cache_key host.analyze cache none fact.code in
      proposal_block_time proposal >>= λ block_time.
      map_err (λ e. engine_error (bad_schema e)) schema >>= λ s.
      execute_register cache' fact height block_time get_state s
