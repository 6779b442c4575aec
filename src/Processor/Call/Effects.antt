-- ===== src/Processor/Call/Effects.antt =====
-- What a processed call asks the ledger to write, and that a valid call reaches the machine.
use mitum_smart_contract.Base.{
  ℕ, String, true, not, Option, some, List, [], ◌∷◌, ◌≡◌, refl, sym, ap, ◌∙◌, arith, ltb, ◌==◌,
  length, Result, ok, err, fail_if, map_err, >>=-eq-ok,
}
use mitum_smart_contract.State.{
  GetState, StateValue, StateMerge, DesignStateValue, RuntimeStateValue,
  runtime_engine_gno_snapshot, design_state_key, runtime_state_key, get_design_from_state,
}
use mitum_smart_contract.Call.Items.{CallContractFact, call_fact_is_valid, runtime_call_items}
use mitum_smart_contract.Call.Items.Valid.{length-runtime_call_items, valid_items}
use mitum_smart_contract.Call.Normalize.{call_request, normalize_execute_request}
use mitum_smart_contract.Call.Normalize.Accepts.{normalize-items}
use mitum_smart_contract.Engine.SchemaCache.{Cache}
use mitum_smart_contract.Engine.Execute.{Host, EngineError, ExecuteResult, execute_contract}
use mitum_smart_contract.Engine.Execute.Writes.{snapshot_merge, call_writes_snapshot}
use mitum_smart_contract.Processor.Currency.{Currency}
use mitum_smart_contract.Processor.Call.{
  state_undecodable, state_unreadable, missing_items, unsupported_engine, proposal_block_time,
  call_request_for, accept_result, process_call,
}

-- the engine's result whose merges are handed over
pub accept_result-eq-ok :
    {Account : Type 0} (m : Result EngineError (ExecuteResult Account))
    (merges : List (StateMerge Account))
    → accept_result m ≡ ok merges
    → (r : ExecuteResult Account) × (m ≡ ok r) × (r.state_merges ≡ merges)
unfolding accept_result
accept_result-eq-ok (err e) merges h = cc h
accept_result-eq-ok (ok r) merges h =
    let (u, e, h1) =
      >>=-eq-ok
        (fail_if (not (r.engine == runtime_engine_gno_snapshot)) (unsupported_engine r.engine)) _
        h in
    (r, refl, cc h1)

module _ {Machine Account : Type 0} (host : Host Machine) (currency : Currency Account)
    (source_hash : String → String) where
  -- A processed call asks for one write, the new snapshot of the contract it names, and only for a
  -- contract whose runtime, of this engine, stands in the ledger.
  pub process_call_writes :
      (cache : Cache) (fact : CallContractFact) (height : ℕ) (proposal : Option ℕ)
      (get_state : GetState Account) (merges : List (StateMerge Account))
      → process_call host currency source_hash cache fact height proposal get_state ≡ ok merges
      → ((runtime : RuntimeStateValue) × (get_state (runtime_state_key fact.contract)
            ≡ ok (some (StateValue.runtime_value runtime)))
          × (runtime.engine ≡ runtime_engine_gno_snapshot))
        × ((bytes : String) × (merges ≡ snapshot_merge fact.contract bytes ∷ []))
  unfolding process_call call_request_for
  process_call_writes cache fact height proposal get_state merges h =
      let (time, e, h1) = >>=-eq-ok (proposal_block_time proposal) _ h in
      let (u, e1, h2) = >>=-eq-ok (fail_if (ltb (length fact.items) 1) missing_items) _ h1 in
      let (v, e2, h3) =
        >>=-eq-ok
          (map_err state_unreadable
            (currency.exists_state get_state (design_state_key fact.contract)))
          _ h2 in
      let (design, e3, h4) = >>=-eq-ok (map_err state_undecodable (get_design_from_state v)) _ h3 in
      let req = call_request_for source_hash fact height time design in
      let (r, e4, same) =
        accept_result-eq-ok (execute_contract host cache get_state req).0 merges h4 in
      let (found, (bytes, wrote)) = call_writes_snapshot host cache get_state req r refl e4 in
      (found, (bytes, sym same ∙ ap (λ (x : ExecuteResult Account). x.state_merges) wrote))

-- A call whose fact is valid is never refused by the engine's normalization: the machine is given
-- the items of the fact, in their order.
pub valid_call_normalizes :
    (source_hash : String → String) (fact : CallContractFact) (height block_time : ℕ)
    (design : DesignStateValue) (u : Unit {0})
    → call_fact_is_valid fact ≡ ok u
    → normalize_execute_request (call_request_for source_hash fact height block_time design)
      ≡ ok (call_request (runtime_call_items fact.items))
unfolding call_request_for
valid_call_normalizes source_hash fact height block_time design u valid =
    let (some_items, fits) = valid_items fact u valid in
    let same = length-runtime_call_items fact.items in
    let long : ltb 0 (length (runtime_call_items fact.items)) ≡ true = rw same (ground arith) in
    normalize-items (call_request_for source_hash fact height block_time design)
      (runtime_call_items fact.items) refl refl refl refl long fits
