-- ===== src/Schema/Finalize/Accepted.antt =====
-- What `finalizeContractSchema` promises of a schema that it accepts.
use mitum_smart_contract.Base.{
  String, Bool, true, false, not, ◌&&◌, Option, none, some, List, [], ◌∷◌, ◌≡◌, ◌∙◌, refl, inl, inr,
  arith, eq_iff, ◌==◌, if◌then◌else◌, All, Result, ok, err, done, map_err, ◌>>=◌, Bool-cases,
  >>=-eq-ok,
}
use mitum_smart_contract.Schema.TypeRef.{
  type_string, TypeKind, TypeRef, type_ref, TypeRegistry, ContractSchema, PersistentBindingSchema,
  FunctionSchema, ParamSchema, ResultSchema, kind_of, resolve_type, is_scalar,
  schema_mode_typed_args, find_function,
}
use mitum_smart_contract.Schema.Shape.{
  is_supported_scalar, is_typed_initialize_shape, is_typed_write_shape, is_typed_query_shape,
  is_context_callable, is_query_context_callable, uses_legacy_contract_context,
}
use mitum_smart_contract.Schema.Validate.{
  not_supported, TypeError, validate_persistent_global_type, validate_scalar_abi_type,
  validate_composite_abi_type, validate_named_struct, validate_map_type, validate_slice_type,
}
use mitum_smart_contract.Schema.Validate.Sound.{IsStruct, IsMap, IsSlice, validation_sound}
use mitum_smart_contract.Schema.Finalize.{
  SchemaError, after_context, check_params, check_global, check_globals, check_first_result,
  check_query, check_function, check_functions, check_initialize, found_or, second_not_bool,
  finalize_contract_schema,
}

-- A type that may be kept in state or returned by a query.
pub data IsStored (reg : TypeRegistry) (t : TypeRef) : Type 0 where
  scalar_type : is_scalar (resolve_type reg t) ≡ true → IsStored reg t
  map_type : IsMap reg t → IsStored reg t
  slice_type : IsSlice reg t → IsStored reg t
  struct_type : IsStruct reg t → IsStored reg t

abbrev pub HasScalarType : TypeRegistry → ParamSchema → Type 0
HasScalarType reg p = is_supported_scalar (resolve_type reg p.typ) ≡ true

abbrev pub IsGlobal : TypeRegistry → PersistentBindingSchema → Type 0
IsGlobal reg g = (g.has_explicit_type ≡ true) × IsStored reg g.typ

abbrev pub FirstIsStored : TypeRegistry → List ResultSchema → Type 0
FirstIsStored reg [] = Unit
FirstIsStored reg (r ∷ rs) = IsStored reg r.typ

-- What a function of an accepted contract is.
pub data IsCallable (reg : TypeRegistry) (fn : FunctionSchema) : Type 0 where
  initialize : fn.name ≡ "Initialize" → IsCallable reg fn
  internal : fn.exported ≡ false → IsCallable reg fn
  outside : is_context_callable fn ≡ false → IsCallable reg fn
  write :
      is_typed_write_shape fn ≡ true
      → All (HasScalarType reg) (after_context fn.params)
      → IsCallable reg fn
  query :
      is_typed_query_shape fn ≡ true
      → All (HasScalarType reg) (after_context fn.params)
      → FirstIsStored reg fn.results
      → IsCallable reg fn

map_err-eq-ok {ℓ κ μ} :
    {E : Type ℓ} {F : Type κ} {A : Type μ} (f : E → F) (m : Result E A) {a : A}
    → map_err f m ≡ ok a
    → m ≡ ok a
map_err-eq-ok f (ok a) h = cc
map_err-eq-ok f (err e) h = cc

params_accepted :
    (reg : TypeRegistry) (ps : List ParamSchema)
    → check_params reg ps ≡ ok tt
    → All (HasScalarType reg) ps
unfolding check_params validate_scalar_abi_type
params_accepted reg [] h = tt
params_accepted reg (p ∷ ps) h = elim (Bool-cases (is_supported_scalar (resolve_type reg p.typ))) [
  | inl s ↦ (s, params_accepted reg ps (rw s at h))
  | inr s ↦ cc (rw s at h)
]

struct-IsStored :
    (reg : TypeRegistry) (t : TypeRef)
    → (validate_named_struct reg t >>= λ _. done) ≡ ok tt
    → IsStored reg t
struct-IsStored reg t h =
    let (r, e, _) = >>=-eq-ok (validate_named_struct reg t) (λ _. done) h in
    struct_type ((validation_sound reg t).0 r e)

global-IsStored :
    (reg : TypeRegistry) (g : PersistentBindingSchema)
    → validate_persistent_global_type reg g ≡ ok tt
    → IsStored reg g.typ
unfolding validate_persistent_global_type
global-IsStored reg g h = elim (Bool-cases (is_scalar (resolve_type reg g.typ))) [
  | inl s ↦ scalar_type s
  | inr s ↦ by_kind reg g.typ (rw s at h)
]
  where
    by_kind :
        (reg : TypeRegistry) (t : TypeRef)
        → (elim (kind_of t) as (λ _. Result TypeError (Unit {0})) [
          | TypeKind.map ↦ validate_map_type reg t
          | TypeKind.slice ↦ validate_slice_type reg t
          | _ ↦ validate_named_struct reg t >>= λ _. done
        ])
          ≡ ok tt
        → IsStored reg t
    by_kind reg (type_ref TypeKind.map raw sc name key elem fs) h =
        map_type ((validation_sound reg (type_ref TypeKind.map raw sc name key elem fs)).1 h)
    by_kind reg (type_ref TypeKind.slice raw sc name key elem fs) h =
        slice_type ((validation_sound reg (type_ref TypeKind.slice raw sc name key elem fs)).2 h)
    by_kind reg (type_ref k raw sc name key elem fs) h =
        struct-IsStored reg (type_ref k raw sc name key elem fs) h

result-IsStored :
    (reg : TypeRegistry) (t : TypeRef) → validate_composite_abi_type reg t ≡ ok tt → IsStored reg t
unfolding validate_composite_abi_type
result-IsStored reg (type_ref k raw sc name key elem fs) h =
    elim (Bool-cases (is_scalar (resolve_type reg (type_ref k raw sc name key elem fs)))) [
      | inl s ↦ scalar_type s
      | inr s ↦ by_kind k (rw s at h)
    ]
  where
    by_kind :
        (k : TypeKind)
        → (elim k as (λ _. Result TypeError (Unit {0})) [
          | TypeKind.named ↦
              validate_named_struct reg (type_ref k raw sc name key elem fs) >>= λ _. done
          | TypeKind.map ↦ validate_map_type reg (type_ref k raw sc name key elem fs)
          | TypeKind.slice ↦ validate_slice_type reg (type_ref k raw sc name key elem fs)
          | _ ↦ err (not_supported (type_string (type_ref k raw sc name key elem fs)))
        ])
          ≡ ok tt
        → IsStored reg (type_ref k raw sc name key elem fs)
    by_kind TypeKind.named h =
        struct-IsStored reg (type_ref TypeKind.named raw sc name key elem fs) h
    by_kind TypeKind.map h =
        map_type ((validation_sound reg (type_ref TypeKind.map raw sc name key elem fs)).1 h)
    by_kind TypeKind.slice h =
        slice_type ((validation_sound reg (type_ref TypeKind.slice raw sc name key elem fs)).2 h)
    by_kind _ h = cc

first_result_stored :
    (reg : TypeRegistry) (rs : List ResultSchema)
    → check_first_result reg rs ≡ ok tt
    → FirstIsStored reg rs
unfolding check_first_result
first_result_stored reg [] h = tt
first_result_stored reg (r ∷ rs) h = result-IsStored reg r.typ h

query_accepted :
    (reg : TypeRegistry) (fn : FunctionSchema)
    → is_typed_query_shape fn ≡ true
    → check_query reg fn ≡ ok tt
    → IsCallable reg fn
unfolding check_query
query_accepted reg fn shape h =
    let (u, params, h1) =
      >>=-eq-ok (map_err SchemaError.bad_query_param (check_params reg (after_context fn.params))) _
        h in
    let (u', result, _) =
      >>=-eq-ok (map_err SchemaError.bad_query_result (check_first_result reg fn.results)) _ h1 in
    query shape
      (params_accepted reg (after_context fn.params)
        (map_err-eq-ok SchemaError.bad_query_param _ params))
      (first_result_stored reg fn.results (map_err-eq-ok SchemaError.bad_query_result _ result))

if-eq-ok {ℓ κ} :
    {E : Type ℓ} {A : Type κ} (b : Bool) (e : E) (m : Result E A) {a : A}
    → (if b then err e else m) ≡ ok a
    → (b ≡ false) × (m ≡ ok a)
if-eq-ok true e m h = cc
if-eq-ok false e m h = (refl, h)

function_accepted :
    (reg : TypeRegistry) (fn : FunctionSchema) → check_function reg fn ≡ ok tt → IsCallable reg fn
unfolding check_function
function_accepted reg fn h = elim (Bool-cases (fn.name == "Initialize")) [
  | inl init ↦ initialize ((eq_iff fn.name "Initialize").0 init)
  | inr not_init ↦ elim (Bool-cases fn.exported) [
    | inr hidden ↦ internal hidden
    | inl shown ↦
        let h1 = if-eq-ok (uses_legacy_contract_context fn) _ _ (simp (not_init, shown) at h) in
        elim (Bool-cases (is_context_callable fn)) [
          | inr apart ↦ outside apart
          | inl callable ↦ elim (Bool-cases (is_typed_write_shape fn)) [
            | inl shape ↦ write shape (
                params_accepted reg (after_context fn.params)
                  (map_err-eq-ok SchemaError.bad_write_param _ (rw (callable, shape) at (h1.1))))
            | inr no_write ↦
                let h2 =
                  if-eq-ok (is_query_context_callable fn && second_not_bool fn.results) _ _
                    (rw (callable, no_write) at (h1.1)) in
                elim (Bool-cases (is_typed_query_shape fn)) [
                  | inl shape ↦ query_accepted reg fn shape (rw shape at (h2.1))
                  | inr neither ↦ cc (rw neither at (h2.1))
                ]
          ]
        ]
  ]
]

functions_accepted :
    (reg : TypeRegistry) (fns : List FunctionSchema)
    → check_functions reg fns ≡ ok tt
    → All (IsCallable reg) fns
unfolding check_functions
functions_accepted reg [] h = tt
functions_accepted reg (fn ∷ fns) h =
    let (u, e, rest) = >>=-eq-ok (check_function reg fn) (λ _. check_functions reg fns) h in
    (function_accepted reg fn e, functions_accepted reg fns rest)

IsGlobal-accepted :
    (reg : TypeRegistry) (g : PersistentBindingSchema) → check_global reg g ≡ ok tt → IsGlobal reg g
unfolding check_global
IsGlobal-accepted reg g h =
    let h1 = if-eq-ok (not g.has_explicit_type) _ _ h in
    (ground arith, global-IsStored reg g (map_err-eq-ok SchemaError.bad_global _ (h1.1)))

globals_accepted :
    (reg : TypeRegistry) (gs : List PersistentBindingSchema)
    → check_globals reg gs ≡ ok tt
    → All (IsGlobal reg) gs
unfolding check_globals
globals_accepted reg [] h = tt
globals_accepted reg (g ∷ gs) h =
    let (u, e, rest) = >>=-eq-ok (check_global reg g) (λ _. check_globals reg gs) h in
    (IsGlobal-accepted reg g e, globals_accepted reg gs rest)

initialize_accepted :
    (reg : TypeRegistry) (init : FunctionSchema) (package_name : String)
    → check_initialize reg init package_name ≡ ok tt
    → (package_name ≡ "contract")
      × (is_typed_initialize_shape init ≡ true)
      × All (HasScalarType reg) (after_context init.params)
unfolding check_initialize
initialize_accepted reg init package_name h = elim (Bool-cases (package_name == "contract")) [
  | inr other ↦ cc (rw other at h)
  | inl named ↦ elim (Bool-cases (is_typed_initialize_shape init)) [
    | inr bad ↦ cc (rw (named, bad) at h)
    | inl shape ↦ (
      (eq_iff package_name "contract").0 named,
      shape,
      params_accepted reg (after_context init.params)
          (map_err-eq-ok SchemaError.bad_initialize_param _ (rw (named, shape) at h)),
    )
  ]
]

found_or-eq-ok :
    (o : Option FunctionSchema) {fn : FunctionSchema} → found_or o ≡ ok fn → o ≡ some fn
unfolding found_or
found_or-eq-ok none h = cc
found_or-eq-ok (some fn) h = cc

-- A schema that is accepted only has its mode set. Its package is `contract`; it has an `Initialize`
-- of the typed shape with scalar arguments; every persistent global declares its type, a scalar or a
-- type derivable from the rules; and every function is `Initialize`, not exported, without a context,
-- a write with scalar arguments, or a query with scalar arguments and a result type that can be stored.
pub finalize_accepts :
    (s s' : ContractSchema)
    → finalize_contract_schema s ≡ ok s'
    → (s' ≡ record s { mode = schema_mode_typed_args })
      × (s.package_name ≡ "contract")
      × ((init : FunctionSchema) × (find_function "Initialize" s.functions ≡ some init)
          × (is_typed_initialize_shape init ≡ true)
          × All (HasScalarType s.types) (after_context init.params))
      × All (IsGlobal s.types) s.persistent_globals
      × All (IsCallable s.types) s.functions
unfolding finalize_contract_schema
finalize_accepts s s' h =
    let (init, found, h1) = >>=-eq-ok (found_or (find_function "Initialize" s.functions)) _ h in
    let (u1, initialized, h2) = >>=-eq-ok (check_initialize s.types init s.package_name) _ h1 in
    let (u2, globals, h3) = >>=-eq-ok (check_globals s.types s.persistent_globals) _ h2 in
    let (u3, functions, h4) = >>=-eq-ok (check_functions s.types s.functions) _ h3 in
    let init_facts = initialize_accepted s.types init s.package_name initialized in
    (
      cc h4,
      init_facts.0,
      (
        init,
        found_or-eq-ok (find_function "Initialize" s.functions) found,
        init_facts.1,
        init_facts.2,
      ),
      globals_accepted s.types s.persistent_globals globals,
      functions_accepted s.types s.functions functions,
    )

-- A schema that was accepted is accepted again, unchanged.
pub finalize_idem :
    (s s' : ContractSchema)
    → finalize_contract_schema s ≡ ok s'
    → finalize_contract_schema s' ≡ ok s'
finalize_idem s s' h =
    let same : finalize_contract_schema s' ≡ finalize_contract_schema s =
      rw (finalize_accepts s s' h).0 (unfold finalize_contract_schema in refl) in
    same ∙ h
