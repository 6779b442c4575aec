-- ===== src/Persist/Analyzed/Parts.antt =====
-- schema_analyzer.go: the shape of the types of variables and functions.
use mitum_smart_contract.Base.{
  String, Bool, true, none, some, List, [], ◌∷◌, ◌++◌, ◌≡◌, refl, sym, arith, All, Option, ok,
  >>=-eq-ok, >>-eq-ok, map_err, map_err-eq-ok, Bool-cases, inl, inr,
}
use mitum_smart_contract.Schema.TypeRef.{
  TypeRef, PersistentBindingSchema, ParamSchema, ResultSchema, FunctionSchema,
}
use mitum_smart_contract.Schema.Source.{
  TypeExpr, FieldList, no_more, ast_field, ValueSpec, FuncDecl, Decl, type_decl, var_decl,
  func_decl, other_decl,
}
use mitum_smart_contract.Schema.Analyzer.{
  TypeDecls, resolve_type_expr, is_empty, is_declared, bindings_named, spec_type,
  parse_persistent_bindings, params_named, parse_field_list, results_named, parse_result_list,
  parse_function_schema,
}
use mitum_smart_contract.Schema.Analyzer.Contract.{AnalyzeError, Parts, collect_parts}
use mitum_smart_contract.Persist.RoundTrip.{is_well_shaped}
use mitum_smart_contract.Persist.Schemas.{
  params_are_well_shaped, results_are_well_shaped, functions_are_well_shaped,
}
use mitum_smart_contract.Persist.Analyzed.{resolve-IsResolved}

-- A variable that declares its type has a well-shaped one.
abbrev pub IsShapedBinding : PersistentBindingSchema → Type 0
IsShapedBinding b = b.has_explicit_type ≡ true → is_well_shaped b.typ ≡ true

module _ (decls : TypeDecls) where
  shaped : (e : TypeExpr) (t : TypeRef) → resolve_type_expr decls e ≡ ok t → is_well_shaped t ≡ true
  shaped e t h = (resolve-IsResolved decls e t h).0

  spec-shaped :
      (o : Option TypeExpr) (t : TypeRef)
      → spec_type decls o ≡ ok t
      → is_declared o ≡ true
      → is_well_shaped t ≡ true
  unfolding spec_type
  spec-shaped none t h d = cc d
  spec-shaped (some e) t h d = shaped e t h

  bindings_named-All :
      (ns : List String) (t : TypeRef) (e : Bool) (bs : List PersistentBindingSchema)
      → (e ≡ true → is_well_shaped t ≡ true)
      → All IsShapedBinding bs
      → All IsShapedBinding (bindings_named ns t e bs)
  bindings_named-All [] t e bs h hs = hs
  bindings_named-All (n ∷ ns) t e bs h hs = (h, bindings_named-All ns t e bs h hs)

  bindings-shaped :
      (specs : List ValueSpec) (bs : List PersistentBindingSchema)
      → parse_persistent_bindings decls specs ≡ ok bs
      → All IsShapedBinding bs
  unfolding parse_persistent_bindings
  bindings-shaped [] bs h = let q : [] ≡ bs = cc h in rw (sym q) tt
  bindings-shaped (spec ∷ specs) bs h =
      let (t, h1, h2) = >>=-eq-ok (spec_type decls spec.typ) _ h in
      let (rest, h3, h4) = >>=-eq-ok (parse_persistent_bindings decls specs) _ h2 in
      let q : bindings_named spec.names t (is_declared spec.typ) rest ≡ bs = cc h4 in
      rw (sym q) (
        bindings_named-All spec.names t (is_declared spec.typ) rest (spec-shaped spec.typ t h1)
          (bindings-shaped specs rest h3))

  params_named-shaped :
      (ns : List String) (t : TypeRef) (ps : List ParamSchema)
      → is_well_shaped t ≡ true
      → params_are_well_shaped ps ≡ true
      → params_are_well_shaped (params_named ns t ps) ≡ true
  unfolding params_are_well_shaped
  params_named-shaped [] t ps h k = k
  params_named-shaped (n ∷ ns) t ps h k = rw (h, params_named-shaped ns t ps h k) refl

  params-shaped :
      (fs : FieldList) (ps : List ParamSchema)
      → parse_field_list decls fs ≡ ok ps
      → params_are_well_shaped ps ≡ true
  unfolding parse_field_list params_are_well_shaped
  params-shaped no_more ps h = let q : [] ≡ ps = cc h in rw (sym q) refl
  params-shaped (ast_field names e fs) ps h =
      let (t, h1, h2) = >>=-eq-ok (resolve_type_expr decls e) _ h in
      let (rest, h3, h4) = >>=-eq-ok (parse_field_list decls fs) _ h2 in
      let ih = params-shaped fs rest h3 in
      elim (Bool-cases (is_empty names)) [
        | inl b ↦
            let q : params_named ("" ∷ []) t rest ≡ ps = cc (rw b at h4) in
            rw (sym q) (params_named-shaped ("" ∷ []) t rest (shaped e t h1) ih)
        | inr b ↦
            let q : params_named names t rest ≡ ps = cc (rw b at h4) in
            rw (sym q) (params_named-shaped names t rest (shaped e t h1) ih)
      ]

  results_named-shaped :
      (ns : List String) (t : TypeRef) (rs : List ResultSchema)
      → is_well_shaped t ≡ true
      → results_are_well_shaped rs ≡ true
      → results_are_well_shaped (results_named ns t rs) ≡ true
  unfolding results_are_well_shaped
  results_named-shaped [] t rs h k = k
  results_named-shaped (n ∷ ns) t rs h k = rw (h, results_named-shaped ns t rs h k) refl

  results-shaped :
      (fs : FieldList) (rs : List ResultSchema)
      → parse_result_list decls fs ≡ ok rs
      → results_are_well_shaped rs ≡ true
  unfolding parse_result_list results_are_well_shaped
  results-shaped no_more rs h = let q : [] ≡ rs = cc h in rw (sym q) refl
  results-shaped (ast_field names e fs) rs h =
      let (t, h1, h2) = >>=-eq-ok (resolve_type_expr decls e) _ h in
      let (rest, h3, h4) = >>=-eq-ok (parse_result_list decls fs) _ h2 in
      let ih = results-shaped fs rest h3 in
      elim (Bool-cases (is_empty names)) [
        | inl b ↦
            let q : results_named ("" ∷ []) t rest ≡ rs = cc (rw b at h4) in
            rw (sym q) (results_named-shaped ("" ∷ []) t rest (shaped e t h1) ih)
        | inr b ↦
            let q : results_named names t rest ≡ rs = cc (rw b at h4) in
            rw (sym q) (results_named-shaped names t rest (shaped e t h1) ih)
      ]

  function-shaped :
      (is_exported : String → Bool) (fn : FuncDecl) (f : FunctionSchema)
      → parse_function_schema is_exported decls fn ≡ ok f
      → (params_are_well_shaped f.params ≡ true) × (results_are_well_shaped f.results ≡ true)
  unfolding parse_function_schema
  function-shaped is_exported fn f h =
      let (params, h1, h2) = >>=-eq-ok (parse_field_list decls fn.params) _ h in
      let (results, h3, h4) = >>=-eq-ok (parse_result_list decls fn.results) _ h2 in
      let q : params ≡ f.params = cc h4 in
      let q' : results ≡ f.results = cc h4 in
      (
        rw (sym q) (params-shaped fn.params params h1),
        rw (sym q') (results-shaped fn.results results h3),
      )

All-append {ℓ} :
    {A : Type ℓ} (P : A → Type 0) (xs ys : List A) → All P xs → All P ys → All P (xs ++ ys)
All-append P [] ys h k = k
All-append P (x ∷ xs) ys (h, hs) k = (h, All-append P xs ys hs k)

functions-append :
    (fns : List FunctionSchema) (f : FunctionSchema)
    → functions_are_well_shaped fns ≡ true
    → params_are_well_shaped f.params ≡ true
    → results_are_well_shaped f.results ≡ true
    → functions_are_well_shaped (fns ++ (f ∷ [])) ≡ true
unfolding functions_are_well_shaped
functions-append [] f h p r = rw (p, r) refl
functions-append (g ∷ fns) f h p r = ground (arith, functions-append fns f)

abbrev pub AreShaped : Parts → Type 0
AreShaped parts =
    All IsShapedBinding parts.globals × (functions_are_well_shaped parts.functions ≡ true)

-- What the loop over the declarations collects is well shaped.
pub parts-AreShaped :
    (is_exported : String → Bool) (decls : TypeDecls) (names : List String) (ds : List Decl)
    (parts after : Parts)
    → AreShaped parts
    → collect_parts is_exported decls names ds parts ≡ ok after
    → AreShaped after
unfolding collect_parts
parts-AreShaped is_exported decls names [] parts after s h =
    let q : parts ≡ after = cc h in rw (sym q) s
parts-AreShaped is_exported decls names (type_decl specs ∷ ds) parts after s h =
    parts-AreShaped is_exported decls names ds parts after s h
parts-AreShaped is_exported decls names (other_decl ∷ ds) parts after s h =
    parts-AreShaped is_exported decls names ds parts after s h
parts-AreShaped is_exported decls names (var_decl specs ∷ ds) parts after (gs, fs) h =
    let (globals, h1, h2) =
      >>=-eq-ok (map_err AnalyzeError.bad_type (parse_persistent_bindings decls specs)) _ h in
    parts-AreShaped is_exported decls names ds (record parts { globals = parts.globals ++ globals })
      after
      (
        All-append IsShapedBinding parts.globals globals gs
            (bindings-shaped decls specs globals (map_err-eq-ok _ _ globals h1)),
        fs,
      )
      h2
parts-AreShaped is_exported decls names (func_decl fn ∷ ds) parts after (gs, fs) h =
    elim (Bool-cases fn.has_receiver) [
      | inl m ↦ parts-AreShaped is_exported decls names ds parts after (gs, fs) (rw m at h)
      | inr m ↦
          let (f, h1, h2) =
            >>=-eq-ok (map_err AnalyzeError.bad_type (parse_function_schema is_exported decls fn)) _
              (rw m at h) in
          let (used, h3) =
            >>-eq-ok _
              (collect_parts is_exported decls names ds
                (record parts { functions = parts.functions ++ (f ∷ []) }))
              h2 in
          let (p, r) = function-shaped decls is_exported fn f (map_err-eq-ok _ _ f h1) in
          parts-AreShaped is_exported decls names ds
            (record parts { functions = parts.functions ++ (f ∷ []) }) after
            (gs, functions-append parts.functions f fs p r) h3
    ]
