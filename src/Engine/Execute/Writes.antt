-- ===== src/Engine/Execute/Writes.antt =====
-- What a successful execution writes to the ledger.
use mitum_smart_contract.Base.{
  map_err-eq-ok, fail_if-not-eq-ok, String, Bool, true, false, not, Option, none, some, [], ◌∷◌,
  ◌≡◌, refl, sym, ap, ◌∙◌, inl, inr, eq_iff, ◌==◌, Result, ok, err, fail_if, map_err, >>=-eq-ok,
  Bool-cases,
}
use mitum_smart_contract.State.{
  GetState, StateValue, StateMerge, RuntimeStateValue, runtime_engine_gno_snapshot,
  runtime_state_key, snapshot_state_key, get_runtime_from_state,
}
use mitum_smart_contract.Schema.TypeRef.{ContractSchema}
use mitum_smart_contract.Call.Normalize.{
  ExecuteRequest, NormalizedRequest, RequestError, normalize_execute_request,
}
use mitum_smart_contract.Engine.SchemaCache.{Cache, ResolveError, resolve_schema}
use mitum_smart_contract.Engine.Invoke.{is_register}
use mitum_smart_contract.Engine.Execute.{
  Host, ExecuteResult, derive_runtime_state, check_snapshot, runtime_for, snapshot_for, merges_for,
  run_machine, execute_typed, execute_resolved, execute_normalized, execute_contract,
  engine_mismatch, runtime_undecodable, gno_snapshot_version, gno_snapshot_codec_name,
}

-- The pending write of a snapshot with these bytes.
abbrev pub snapshot_merge : {Account : Type 0} → String → String → StateMerge Account
snapshot_merge contract bytes = record {
  key = snapshot_state_key contract;
  value = StateValue.snapshot_value (record {
    version = gno_snapshot_version;
    codec = gno_snapshot_codec_name;
    snapshot = bytes;
  });
}

abbrev pub runtime_merge : {Account : Type 0} → String → RuntimeStateValue → StateMerge Account
runtime_merge contract runtime = record {
  key = runtime_state_key contract;
  value = StateValue.runtime_value runtime;
}

module _ {Machine Account : Type 0} (host : Host Machine) where
  resolved_lem :
      (get_state : GetState Account) (req : ExecuteRequest) (n : NormalizedRequest)
      (p : Result ResolveError ContractSchema × Cache) (r : ExecuteResult Account)
      → (execute_resolved host get_state req n p).0 ≡ ok r
      → (schema : ContractSchema) × (p.0 ≡ ok schema)
        × (execute_typed host get_state req n schema ≡ ok r)
  unfolding execute_resolved
  resolved_lem get_state req n (ok schema, cache) r h = (schema, refl, h)
  resolved_lem get_state req n (err e, cache) r h = cc h

  normalized_lem :
      (cache : Cache) (get_state : GetState Account) (req : ExecuteRequest)
      (m : Result RequestError NormalizedRequest) (r : ExecuteResult Account)
      → (execute_normalized host cache get_state req m).0 ≡ ok r
      → (n : NormalizedRequest) × (m ≡ ok n)
        × ((schema : ContractSchema) × (execute_typed host get_state req n schema ≡ ok r))
  unfolding execute_normalized
  normalized_lem cache get_state req (err e) r h = cc h
  normalized_lem cache get_state req (ok n) r h =
      let (schema, e, typed) =
        resolved_lem get_state req n
          (resolve_schema host.cache_key host.analyze cache req.schema req.contract_code) r h in
      (n, refl, (schema, typed))

  -- the parts of an execution that succeeds
  pub executed_lem :
      (cache : Cache) (get_state : GetState Account) (req : ExecuteRequest)
      (r : ExecuteResult Account)
      → (execute_contract host cache get_state req).0 ≡ ok r
      → (n : NormalizedRequest) × (normalize_execute_request req ≡ ok n)
        × ((schema : ContractSchema) × (execute_typed host get_state req n schema ≡ ok r))
  unfolding execute_contract
  executed_lem cache get_state req r h =
      normalized_lem cache get_state req (normalize_execute_request req) r h

  typed_lem :
      (get_state : GetState Account) (req : ExecuteRequest) (n : NormalizedRequest)
      (schema : ContractSchema) (r : ExecuteResult Account)
      → execute_typed host get_state req n schema ≡ ok r
      → (runtime : RuntimeStateValue × Bool) × (bytes : String) × (runtime_for host req
            (get_state (runtime_state_key req.contract))
          ≡ ok runtime)
        × (r ≡ record {
          engine = runtime_engine_gno_snapshot;
          state_merges = merges_for req.contract bytes runtime.0 runtime.1;
        })
  unfolding execute_typed
  typed_lem get_state req n schema r h =
      let (runtime, e, h1) =
        >>=-eq-ok (runtime_for host req (get_state (runtime_state_key req.contract))) _ h in
      let (snapshot, e1, h2) =
        >>=-eq-ok (snapshot_for host req (get_state (snapshot_state_key req.contract))) _ h1 in
      let (u, e2, h3) = >>=-eq-ok (check_snapshot snapshot) _ h2 in
      let (bytes, e3, h4) = >>=-eq-ok (run_machine host req n schema runtime.0 snapshot) _ h3 in
      (runtime, bytes, e, cc h4)

  runtime_read :
      (v : StateValue Account) (r : RuntimeStateValue)
      → get_runtime_from_state v ≡ ok r
      → v ≡ StateValue.runtime_value r
  unfolding get_runtime_from_state
  runtime_read StateValue.nil_value r h = cc h
  runtime_read (StateValue.runtime_value q) r h =
      (let e : q ≡ r = cc h in ap StateValue.runtime_value e)
  runtime_read (StateValue.design_value d) r h = cc h
  runtime_read (StateValue.snapshot_value d) r h = cc h
  runtime_read (StateValue.account_value d) r h = cc h
  runtime_read (StateValue.other_value d) r h = cc h

  -- outside register mode, the runtime is one that was stored, for this engine
  stored_runtime :
      (req : ExecuteRequest) (read : Result String (Option (StateValue Account)))
      (runtime : RuntimeStateValue × Bool)
      → is_register req.mode ≡ false
      → runtime_for host req read ≡ ok runtime
      → (runtime.1 ≡ false)
        × (read ≡ ok (some (StateValue.runtime_value runtime.0)))
        × (runtime.0.engine ≡ runtime_engine_gno_snapshot)
  unfolding runtime_for get_runtime_from_state
  stored_runtime req (err e) runtime calls h = cc h
  stored_runtime req (ok none) runtime calls h = let h' = rw calls at h in cc h'
  stored_runtime req (ok (some v)) runtime calls h =
      let (q, e, h1) = >>=-eq-ok (map_err runtime_undecodable (get_runtime_from_state v)) _ h in
      let (u, e1, h2) =
        >>=-eq-ok
          (fail_if (not (q.engine == runtime_engine_gno_snapshot)) (engine_mismatch q.engine)) _
          h1 in
      let same : (q, false) ≡ runtime = cc h2 in
      let named : q.engine == runtime_engine_gno_snapshot ≡ true = fail_if-not-eq-ok _ _ _ e1 in
      let engine : q.engine ≡ runtime_engine_gno_snapshot =
        (eq_iff q.engine runtime_engine_gno_snapshot).0 named in
      let read =
        runtime_read v q (map_err-eq-ok runtime_undecodable (get_runtime_from_state v) q e) in
      let fields = ap (λ (x : RuntimeStateValue × Bool). x.0) same in
      (
        sym (ap (λ (x : RuntimeStateValue × Bool). x.1) same),
        ap (λ x. ok (some x)) (read ∙ ap StateValue.runtime_value fields),
        sym (ap (λ (x : RuntimeStateValue). x.engine) fields) ∙ engine,
      )

  new_runtime :
      (req : ExecuteRequest) (read : Result String (Option (StateValue Account)))
      (runtime : RuntimeStateValue × Bool)
      → read ≡ ok none
      → runtime_for host req read ≡ ok runtime
      → (is_register req.mode ≡ true)
        × (runtime ≡ (derive_runtime_state host.path_hash req.contract req.contract_code, true))
  unfolding runtime_for
  new_runtime req read runtime fresh h0 =
      let h = rw fresh at h0 in
      elim (Bool-cases (is_register req.mode)) [
        | inl e ↦ (e, (let h' = rw e at h in cc h'))
        | inr e ↦ (let h' = rw e at h in cc h')
      ]

  -- A request outside register mode that succeeds met a runtime of this engine in the ledger, and asks for
  -- exactly one write: the new snapshot of that contract, in the current version and codec.
  pub call_writes_snapshot :
      (cache : Cache) (get_state : GetState Account) (req : ExecuteRequest)
      (r : ExecuteResult Account)
      → is_register req.mode ≡ false
      → (execute_contract host cache get_state req).0 ≡ ok r
      → ((runtime : RuntimeStateValue) × (get_state (runtime_state_key req.contract)
            ≡ ok (some (StateValue.runtime_value runtime)))
          × (runtime.engine ≡ runtime_engine_gno_snapshot))
        × ((bytes : String) × (r ≡ record {
          engine = runtime_engine_gno_snapshot;
          state_merges = snapshot_merge req.contract bytes ∷ [];
        }))
  unfolding merges_for
  call_writes_snapshot cache get_state req r calls h =
      let (n, e, (schema, typed)) = executed_lem cache get_state req r h in
      let (runtime, bytes, e1, same) = typed_lem get_state req n schema r typed in
      let (old, found, engine) =
        stored_runtime req (get_state (runtime_state_key req.contract)) runtime calls e1 in
      ((runtime.0, found, engine), (bytes, rw old at same))

  -- A registration of a contract that has no runtime in the ledger, when it succeeds, asks for two
  -- writes: the first snapshot, and the runtime that is derived from the contract's address and source.
  pub register_writes :
      (cache : Cache) (get_state : GetState Account) (req : ExecuteRequest)
      (r : ExecuteResult Account)
      → get_state (runtime_state_key req.contract) ≡ ok none
      → (execute_contract host cache get_state req).0 ≡ ok r
      → (is_register req.mode ≡ true)
        × ((bytes : String) × (r ≡ record {
          engine = runtime_engine_gno_snapshot;
          state_merges =
              snapshot_merge req.contract bytes
              ∷ runtime_merge req.contract
                  (derive_runtime_state host.path_hash req.contract req.contract_code)
              ∷ [];
        }))
  unfolding merges_for
  register_writes cache get_state req r fresh h =
      let (n, e, (schema, typed)) = executed_lem cache get_state req r h in
      let (runtime, bytes, e1, same) = typed_lem get_state req n schema r typed in
      let (registers, new) =
        new_runtime req (get_state (runtime_state_key req.contract)) runtime fresh e1 in
      (registers, (bytes, rw new at same))
