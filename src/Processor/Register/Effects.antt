-- ===== src/Processor/Register/Effects.antt =====
-- What a registration asks the ledger to write, and what the ledger allows after it.
use mathlib.Core.Path.{subst}
use mitum_smart_contract.Base.{
  [], map_err-eq-ok, ℕ, String, true, false, Option, none, some, List, ◌∷◌, ◌++◌, ◌≡◌, sym, ap, ◌∙◌,
  ok, done, map_err, is_ok, >>=-eq-ok, Result-cases, inl, inr,
}
use mitum_smart_contract.State.{
  snapshot_state_key, GetState, StateValue, StateMerge, runtime_state_key, get_design_from_state,
  get_runtime_from_state,
}
use mitum_smart_contract.Schema.TypeRef.{ContractSchema}
use mitum_smart_contract.Call.Items.{CallContractFact}
use mitum_smart_contract.Engine.SchemaCache.{Cache, resolve_schema}
use mitum_smart_contract.Engine.Execute.{
  gno_snapshot_codec_name, gno_snapshot_version, Host, ExecuteResult, execute_contract, bad_schema,
  derive_runtime_state,
}
use mitum_smart_contract.Engine.Execute.Writes.{snapshot_merge, runtime_merge, register_writes}
use mitum_smart_contract.Processor.Currency.{Currency, Laws, IsApplied}
use mitum_smart_contract.Processor.Call.{
  bad_fact, engine_error, account_error, accept_result, proposal_block_time, pre_process_state_gate,
}
use mitum_smart_contract.Processor.Call.Effects.{accept_result-eq-ok}
use mitum_smart_contract.Processor.Register.{
  new_persisted_contract_schema, design_state_key, RegisterContractFact, register_fact_is_valid,
  register_request_for, check_account, pre_process_register, registration_merges, execute_register,
  process_register,
}

module _ {Machine Account : Type 0} (host : Host Machine) (currency : Currency Account)
    (source_hash : String → String) where
  execute_register_lem :
      (cache : Cache) (fact : RegisterContractFact) (height time : ℕ) (get_state : GetState Account)
      (schema : ContractSchema) (merges : List (StateMerge Account))
      → get_state (runtime_state_key fact.contract) ≡ ok none
      → execute_register host currency source_hash cache fact height time get_state schema
        ≡ ok merges
      → (bytes : String) × (merges ≡ (
          snapshot_merge fact.contract bytes
          ∷ runtime_merge fact.contract
              (derive_runtime_state host.path_hash fact.contract fact.code)
          ∷ registration_merges currency source_hash fact schema get_state))
  unfolding execute_register register_request_for
  execute_register_lem cache fact height time get_state schema merges fresh h =
      let req = register_request_for fact height time schema in
      let (executed, e, h1) =
        >>=-eq-ok (accept_result (execute_contract host cache get_state req).0) _ h in
      let (r, e1, same) =
        accept_result-eq-ok (execute_contract host cache get_state req).0 executed e in
      let (registers, (bytes, wrote)) = register_writes host cache get_state req r fresh e1 in
      let all : executed ++ registration_merges currency source_hash fact schema get_state
          ≡ merges =
        cc h1 in
      (
        bytes,
        sym all
            ∙ ap
                (λ (x : List (StateMerge Account)).
                  x ++ registration_merges currency source_hash fact schema get_state)
                (sym same ∙ ap (λ (x : ExecuteResult Account). x.state_merges) wrote),
      )

  process_register_lem :
      (cache : Cache) (fact : RegisterContractFact) (height : ℕ) (proposal : Option ℕ)
      (get_state : GetState Account) (merges : List (StateMerge Account))
      → get_state (runtime_state_key fact.contract) ≡ ok none
      → process_register host currency source_hash cache fact height proposal get_state ≡ ok merges
      → (schema : ContractSchema) × (bytes : String) × ((resolve_schema host.cache_key host.analyze
            cache none fact.code).0
          ≡ ok schema)
        × (merges ≡ (
            snapshot_merge fact.contract bytes
            ∷ runtime_merge fact.contract
                (derive_runtime_state host.path_hash fact.contract fact.code)
            ∷ registration_merges currency source_hash fact schema get_state))
  unfolding process_register
  process_register_lem cache fact height proposal get_state merges fresh h =
      let p = resolve_schema host.cache_key host.analyze cache none fact.code in
      let (time, e, h1) = >>=-eq-ok (proposal_block_time proposal) _ h in
      let (schema, e1, h2) = >>=-eq-ok (map_err (λ x. engine_error (bad_schema x)) p.0) _ h1 in
      let (bytes, same) =
        execute_register_lem p.1 fact height time get_state schema merges fresh h2 in
      (schema, bytes, map_err-eq-ok _ p.0 schema e1, same)

  -- A registration of a contract without a runtime, when it is processed, asks for exactly four writes, in
  -- this order: under the contract's snapshot key the first snapshot, under its runtime key the runtime
  -- derived from the address and the source, under its design key the source with the schema of it,
  -- saved, and under the key of the contract account that account, set active. The schema is what the
  -- cache or the analysis gives for the source.
  pub process_register_writes :
      (cache : Cache) (fact : RegisterContractFact) (height : ℕ) (proposal : Option ℕ)
      (get_state : GetState Account) (merges : List (StateMerge Account))
      → get_state (runtime_state_key fact.contract) ≡ ok none
      → process_register host currency source_hash cache fact height proposal get_state ≡ ok merges
      → (schema : ContractSchema) × (bytes : String) × ((resolve_schema host.cache_key host.analyze
            cache none fact.code).0
          ≡ ok schema)
        × (merges ≡ (
            record {
              key = snapshot_state_key fact.contract;
              value = StateValue.snapshot_value (record {
                version = gno_snapshot_version;
                codec = gno_snapshot_codec_name;
                snapshot = bytes;
              });
            }
            ∷ record {
              key = runtime_state_key fact.contract;
              value =
                  StateValue.runtime_value
                    (derive_runtime_state host.path_hash fact.contract fact.code);
            }
            ∷ record {
              key = design_state_key fact.contract;
              value = StateValue.design_value (record {
                contract_code = fact.code;
                schema = some (new_persisted_contract_schema source_hash fact.code schema);
              });
            }
            ∷ record {
              key = currency.account_key fact.contract;
              value = StateValue.account_value (
                  currency.set_is_active true (
                    currency.account_of_state
                      (currency.exists_state get_state (currency.account_key fact.contract))));
            }
            ∷ []))
  unfolding registration_merges
  process_register_writes cache fact height proposal get_state merges fresh h =
      process_register_lem cache fact height proposal get_state merges fresh h

  -- When a contract without a runtime in the ledger is registered, and the writes of the registration
  -- stand in the ledger, every call of that contract passes the gate that calls must pass before they
  -- are processed.
  pub register_opens_gate :
      (cache : Cache) (fact : RegisterContractFact) (height : ℕ) (proposal : Option ℕ)
      (get_state after : GetState Account) (merges : List (StateMerge Account))
      (call : CallContractFact)
      → get_state (runtime_state_key fact.contract) ≡ ok none
      → process_register host currency source_hash cache fact height proposal get_state ≡ ok merges
      → IsApplied merges after
      → call.contract ≡ fact.contract
      → pre_process_state_gate call after ≡ done
  unfolding pre_process_state_gate get_design_from_state get_runtime_from_state registration_merges
      derive_runtime_state
  register_opens_gate cache fact height proposal get_state after merges call fresh h applied same =
      let (schema, bytes, e, wrote) =
        process_register_lem cache fact height proposal get_state merges fresh h in
      let held = subst (λ x. IsApplied x after) wrote applied in
      let runtime = held.1.0 in let design = held.1.1.0 in rw (same, design, runtime)

  active_refused :
      Laws currency
      → (v : StateValue Account) (a : Account) (sender : String) (ca : Option Account)
        (u : Unit {0})
      → v ≡ StateValue.account_value (currency.set_is_active true a)
      → currency.check_auth v sender ≡ ok ca
      → check_account currency ca ≡ ok u
      → true ≡ false
  unfolding check_account
  active_refused laws v a sender none u stored auth passes = cc passes
  active_refused laws v a sender (some b) u stored auth passes =
      let given : b ≡ currency.set_is_active true a =
        laws.auth-given _ b sender (rw stored at auth) in
      let active : currency.is_active b ≡ true =
        ap currency.is_active given ∙ laws.active-set true a in
      let passes' = rw active at passes in cc passes'

  refused_lem :
      Laws currency
      → (fact : RegisterContractFact) (get_state : GetState Account) (a : Account)
      → get_state (currency.account_key fact.contract)
        ≡ ok (some (StateValue.account_value (currency.set_is_active true a)))
      → is_ok (pre_process_register currency fact get_state) ≡ false
  unfolding pre_process_register
  refused_lem laws fact get_state a stored =
      elim (Result-cases (pre_process_register currency fact get_state)) [
        | inr (e, h) ↦ ap is_ok h
        | inl (w, h) ↦
            (let (u, e, h1) = >>=-eq-ok (map_err bad_fact (register_fact_is_valid fact)) _ h in
              let (v, e1, h2) =
                >>=-eq-ok
                  (map_err account_error (currency.exists_contract_account get_state fact.contract))
                  _ h1 in
              let (ca, e2, h3) =
                >>=-eq-ok (map_err account_error (currency.check_auth v fact.sender)) _ h2 in
              let (u', e3, h4) = >>=-eq-ok (check_account currency ca) _ h3 in
              let found =
                laws.account-found get_state fact.contract _ v stored (map_err-eq-ok _ _ v e1) in
              ap is_ok h
              ∙ active_refused laws v a fact.sender ca u' found (map_err-eq-ok _ _ ca e2) e3)
      ]

  -- When a contract without a runtime in the ledger is registered, and the writes of the registration
  -- stand in the ledger, no registration of that contract, by whomever and of whatever source, passes
  -- its checks again, as long as contract accounts behave as the laws say.
  pub register_once :
      (cache : Cache) (fact : RegisterContractFact) (height : ℕ) (proposal : Option ℕ)
      (get_state after : GetState Account) (merges : List (StateMerge Account))
      (again : RegisterContractFact)
      → Laws currency
      → get_state (runtime_state_key fact.contract) ≡ ok none
      → process_register host currency source_hash cache fact height proposal get_state ≡ ok merges
      → IsApplied merges after
      → again.contract ≡ fact.contract
      → is_ok (pre_process_register currency again after) ≡ false
  unfolding registration_merges
  register_once cache fact height proposal get_state after merges again laws fresh h applied same =
      let (schema, bytes, e, wrote) =
        process_register_lem cache fact height proposal get_state merges fresh h in
      let held = subst (λ x. IsApplied x after) wrote applied in
      let account = held.1.1.1.0 in refused_lem laws again after _ (rw (sym same) at account)
