-- ===== src/Engine/Execute/Cached.antt =====
-- gno_engine.go: `ExecuteContract` with a cache and without one.
use mitum_smart_contract.Base.{[], ◌≡◌, refl, ap, Result, ok, err, map_err, ◌>>=◌}
use mitum_smart_contract.State.{GetState}
use mitum_smart_contract.Schema.TypeRef.{ContractSchema}
use mitum_smart_contract.Call.Normalize.{
  ExecuteRequest, NormalizedRequest, RequestError, normalize_execute_request,
}
use mitum_smart_contract.Engine.SchemaCache.{Cache, ResolveError, resolve_schema}
use mitum_smart_contract.Engine.SchemaCache.Transparent.{IsSound, resolve_schema_transparent}
use mitum_smart_contract.Engine.Execute.{
  Host, execute_resolved, execute_normalized, execute_contract, execute_typed, bad_schema,
}

module _ {Machine Account : Type 0} (host : Host Machine) where
  answer_lem :
      (get_state : GetState Account) (req : ExecuteRequest) (n : NormalizedRequest)
      (p q : Result ResolveError ContractSchema × Cache)
      → p.0 ≡ q.0
      → (execute_resolved host get_state req n p).0 ≡ (execute_resolved host get_state req n q).0
  unfolding execute_resolved
  answer_lem get_state req n (r, c) (s, d) same =
      ap
        (λ (x : Result ResolveError ContractSchema).
          map_err bad_schema x >>= λ schema. execute_typed host get_state req n schema)
        same

  normalized_answer :
      (cache : Cache) (get_state : GetState Account) (req : ExecuteRequest)
      (m : Result RequestError NormalizedRequest)
      → IsSound host.cache_key host.analyze cache
      → (execute_normalized host cache get_state req m).0
        ≡ (execute_normalized host [] get_state req m).0
  unfolding execute_normalized
  normalized_answer cache get_state req (err e) sound = refl
  normalized_answer cache get_state req (ok n) sound =
      answer_lem get_state req n
        (resolve_schema host.cache_key host.analyze cache req.schema req.contract_code)
        (resolve_schema host.cache_key host.analyze [] req.schema req.contract_code)
        (resolve_schema_transparent host.cache_key host.analyze cache req.schema req.contract_code
          sound)

  -- What an execution answers does not depend on what earlier ones left in the schema cache, as long as
  -- the cache holds for each source the schema that its analysis gives.
  pub execute_contract_cached :
      (cache : Cache) (get_state : GetState Account) (req : ExecuteRequest)
      → IsSound host.cache_key host.analyze cache
      → (execute_contract host cache get_state req).0 ≡ (execute_contract host [] get_state req).0
  unfolding execute_contract
  execute_contract_cached cache get_state req sound =
      normalized_answer cache get_state req (normalize_execute_request req) sound
