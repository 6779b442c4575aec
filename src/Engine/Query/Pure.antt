-- ===== src/Engine/Query/Pure.antt =====
-- gno_query.go: what an answered query went through.
use mitum_smart_contract.Base.{
  map_err-eq-ok, fail_if-not-eq-ok, ◌≤◌, String, true, not, Option, none, some, ◌≡◌, sym, ap, ◌∙◌,
  arith, eq_iff, ◌==◌, Result, ok, err, is_ok, fail_if, map_err, >>=-eq-ok,
}
use mitum_smart_contract.Schema.TypeRef.{ContractSchema, FunctionSchema, find_function}
use mitum_smart_contract.Schema.Shape.{is_typed_query_shape}
use mitum_smart_contract.State.{
  GetState, runtime_engine_gno_snapshot, runtime_state_key, snapshot_state_key,
}
use mitum_smart_contract.Call.Limits.{LimitError, validate_call_data_limits}
use mitum_smart_contract.Engine.SchemaCache.{Cache, ResolveError, resolve_schema}
use mitum_smart_contract.Engine.Execute.{Host, at_stage, capture_stage, new_execution_context}
use mitum_smart_contract.Engine.Query.{
  QueryRequest, QueryVm, QueryResult, in_engine, mutated_state, query_current_height,
  query_function, check_query_function, invoke_typed_query, query_runtime, query_snapshot,
  query_machine, query_between_captures, query_typed, query_resolved, query_limited, query_contract,
}

-- A current height that the caller gives too low is raised to the height of the view, so the context's
-- own check of the two heights never fails.
query_heights :
    (req : QueryRequest)
    → (req.height ≤ query_current_height req)
      × (req.current_height ≤ query_current_height req)
      × (is_ok (
            new_execution_context req.contract req.contract req.height
              (query_current_height req)
              true)
          ≡ true)
unfolding query_current_height new_execution_context
query_heights req = (ground arith, ground arith, ground arith)

query_function-ok :
    (name : String) (o : Option FunctionSchema) (fn : FunctionSchema)
    → query_function name o ≡ ok fn
    → o ≡ some fn
unfolding query_function
query_function-ok name none fn h = cc h
query_function-ok name (some f) fn h = (let e : f ≡ fn = cc h in ap some e)

module _ {Machine : Type 0} (host : Host Machine) (qvm : QueryVm Machine) where
  -- The query ran on a machine, and captures before and after it gave the same bytes.
  pub record IsPure (schema : ContractSchema) (req : QueryRequest) (r : QueryResult) : Type 0 where
    pub before : Machine
    pub after : Machine
    pub answer : QueryResult
    pub bytes : String
    pub ran : invoke_typed_query qvm before req schema ≡ ok (answer, after)
    pub captured_before : host.vm.capture_snapshot before schema ≡ ok bytes
    pub captured_after : host.vm.capture_snapshot after schema ≡ ok bytes
    pub answered : r ≡ record answer { engine = runtime_engine_gno_snapshot }

  between_lem :
      (m : Machine) (req : QueryRequest) (schema : ContractSchema) (r : QueryResult)
      → query_between_captures host qvm m req schema ≡ ok r
      → IsPure schema req r
  unfolding query_between_captures
  between_lem m req schema r h =
      let (bytes, e, h1) =
        >>=-eq-ok
          (map_err (λ x. in_engine (at_stage capture_stage x)) (host.vm.capture_snapshot m schema))
          _ h in
      let (answer, e1, h2) = >>=-eq-ok (invoke_typed_query qvm m req schema) _ h1 in
      let (bytes', e2, h3) =
        >>=-eq-ok
          (map_err (λ x. in_engine (at_stage capture_stage x))
            (host.vm.capture_snapshot answer.1 schema))
          _ h2 in
      let (u, e3, h4) =
        >>=-eq-ok (fail_if (not (bytes == bytes')) (mutated_state req.function)) _ h3 in
      let same : bytes ≡ bytes' = (eq_iff bytes bytes').0 (fail_if-not-eq-ok _ _ u e3) in
      let result : record answer.0 { engine = runtime_engine_gno_snapshot } ≡ r = cc h4 in
      record {
        before = m;
        after = answer.1;
        answer = answer.0;
        bytes = bytes;
        ran = e1;
        captured_before = map_err-eq-ok _ _ bytes e;
        captured_after = map_err-eq-ok _ _ bytes' e2 ∙ ap ok (sym same);
        answered = sym result;
      }

  -- The schema has the function, with the shape of a query, and the query was pure.
  abbrev pub IsAnswer : QueryRequest → QueryResult → Type 0
  IsAnswer req r =
      (schema : ContractSchema) × (fn : FunctionSchema) × (find_function req.function
          schema.functions
        ≡ some fn)
      × (is_typed_query_shape fn ≡ true)
      × IsPure schema req r

module _ {Machine Account : Type 0} (host : Host Machine) (qvm : QueryVm Machine) where
  typed_lem :
      (get_state : GetState Account) (req : QueryRequest) (schema : ContractSchema)
      (r : QueryResult)
      → query_typed host qvm get_state req schema ≡ ok r
      → IsAnswer host qvm req r
  unfolding query_typed check_query_function
  typed_lem get_state req schema r h =
      let (fn, e, h1) =
        >>=-eq-ok (query_function req.function (find_function req.function schema.functions)) _ h in
      let (u, e1, h2) = >>=-eq-ok (check_query_function fn) _ h1 in
      let (runtime, e2, h3) =
        >>=-eq-ok (map_err in_engine (query_runtime (get_state (runtime_state_key req.contract)))) _
          h2 in
      let (snapshot, e3, h4) =
        >>=-eq-ok (map_err in_engine (query_snapshot (get_state (snapshot_state_key req.contract))))
          _ h3 in
      let (m, e4, h5) =
        >>=-eq-ok (map_err in_engine (query_machine host qvm req schema runtime snapshot)) _ h4 in
      (
        schema,
        fn,
        query_function-ok req.function _ fn e,
        fail_if-not-eq-ok _ _ u e1,
        between_lem host qvm m req schema r h5,
      )

  resolved_lem :
      (get_state : GetState Account) (req : QueryRequest)
      (p : Result ResolveError ContractSchema × Cache) (r : QueryResult)
      → (query_resolved host qvm get_state req p).0 ≡ ok r
      → IsAnswer host qvm req r
  unfolding query_resolved
  resolved_lem get_state req (ok schema, cache) r h = typed_lem get_state req schema r h
  resolved_lem get_state req (err e, cache) r h = cc h

  limited_lem :
      (cache : Cache) (get_state : GetState Account) (req : QueryRequest)
      (l : Result LimitError (Unit {0})) (r : QueryResult)
      → (query_limited host qvm cache get_state req l).0 ≡ ok r
      → IsAnswer host qvm req r
  unfolding query_limited
  limited_lem cache get_state req (err e) r h = cc h
  limited_lem cache get_state req (ok u) r h =
      resolved_lem get_state req
        (resolve_schema host.cache_key host.analyze cache req.schema req.contract_code) r h

  -- When a query answers, the function it names is in the schema and has the shape of a query, it ran on
  -- a machine, and the snapshots of that machine before and after the run are the same.
  pub query_is_pure :
      (cache : Cache) (get_state : GetState Account) (req : QueryRequest) (r : QueryResult)
      → (query_contract host qvm cache get_state req).0 ≡ ok r
      → IsAnswer host qvm req r
  unfolding query_contract
  query_is_pure cache get_state req r h =
      limited_lem cache get_state req (validate_call_data_limits req.call_data) r h
