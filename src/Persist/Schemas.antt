-- ===== src/Persist/Schemas.antt =====
-- Whole schemas: saving and loading the registry, the globals and the functions.
use mitum_smart_contract.Base.{
  Bool, true, ◌&&◌, List, [], ◌∷◌, Map, ◌≡◌, refl, arith, eq_iff, ◌==◌, Result, ok, err, ◌>>=◌,
  Bool-cases, inl, inr,
}
use mitum_smart_contract.Schema.TypeRef.{
  TypeRegistry, PersistentBindingSchema, ParamSchema, ResultSchema, FunctionSchema, ContractSchema,
  schema_mode_typed_args,
}
use mitum_smart_contract.Persist.Dto.{
  PersistedTypeRef, PersistedBinding, PersistedParam, PersistedResult, PersistedFunction,
  PersistedSchema,
}
use mitum_smart_contract.Persist.Save.{
  save_type_ref, save_registry, save_bindings, save_params, save_results, save_functions,
  save_schema,
}
use mitum_smart_contract.Persist.Load.{
  LoadError, load_type_ref, load_registry, load_bindings, load_params, load_results, load_functions,
  load_schema,
}
use mitum_smart_contract.Persist.RoundTrip.{is_well_shaped, Restores, load-Restores, load-save_lem}

unfoldable pub registry_is_well_shaped : TypeRegistry → Bool
registry_is_well_shaped [] = true
registry_is_well_shaped ((n, t) ∷ reg) = is_well_shaped t && registry_is_well_shaped reg

unfoldable pub bindings_are_well_shaped : List PersistentBindingSchema → Bool
bindings_are_well_shaped [] = true
bindings_are_well_shaped (b ∷ bs) = is_well_shaped b.typ && bindings_are_well_shaped bs

unfoldable pub params_are_well_shaped : List ParamSchema → Bool
params_are_well_shaped [] = true
params_are_well_shaped (p ∷ ps) = is_well_shaped p.typ && params_are_well_shaped ps

unfoldable pub results_are_well_shaped : List ResultSchema → Bool
results_are_well_shaped [] = true
results_are_well_shaped (r ∷ rs) = is_well_shaped r.typ && results_are_well_shaped rs

unfoldable pub functions_are_well_shaped : List FunctionSchema → Bool
unfolding params_are_well_shaped results_are_well_shaped
functions_are_well_shaped [] = true
functions_are_well_shaped (fn ∷ fns) =
    params_are_well_shaped fn.params
    && results_are_well_shaped fn.results
    && functions_are_well_shaped fns

-- Every type that the schema names is well shaped.
unfoldable pub schema_is_well_shaped : ContractSchema → Bool
unfolding registry_is_well_shaped bindings_are_well_shaped functions_are_well_shaped
schema_is_well_shaped s =
    registry_is_well_shaped s.types
    && bindings_are_well_shaped s.persistent_globals
    && functions_are_well_shaped s.functions

load-save_registry :
    (reg : TypeRegistry)
    → registry_is_well_shaped reg ≡ true
    → load_registry (save_registry reg) ≡ ok reg
unfolding registry_is_well_shaped save_registry load_registry
load-save_registry [] h = refl
load-save_registry ((n, t) ∷ reg) h =
    rw (load-save_lem t (ground arith), load-save_registry reg (ground arith))

load-save_bindings :
    (bs : List PersistentBindingSchema)
    → bindings_are_well_shaped bs ≡ true
    → load_bindings (save_bindings bs) ≡ ok bs
unfolding bindings_are_well_shaped save_bindings load_bindings
load-save_bindings [] h = refl
load-save_bindings (b ∷ bs) h =
    rw (load-save_lem b.typ (ground arith), load-save_bindings bs (ground arith))

load-save_params :
    (ps : List ParamSchema)
    → params_are_well_shaped ps ≡ true
    → load_params (save_params ps) ≡ ok ps
unfolding params_are_well_shaped save_params load_params
load-save_params [] h = refl
load-save_params (p ∷ ps) h =
    rw (load-save_lem p.typ (ground arith), load-save_params ps (ground arith))

load-save_results :
    (rs : List ResultSchema)
    → results_are_well_shaped rs ≡ true
    → load_results (save_results rs) ≡ ok rs
unfolding results_are_well_shaped save_results load_results
load-save_results [] h = refl
load-save_results (r ∷ rs) h =
    rw (load-save_lem r.typ (ground arith), load-save_results rs (ground arith))

load-save_functions :
    (fns : List FunctionSchema)
    → functions_are_well_shaped fns ≡ true
    → load_functions (save_functions fns) ≡ ok fns
unfolding functions_are_well_shaped save_functions load_functions
load-save_functions [] h = refl
load-save_functions (fn ∷ fns) h = rw (
  load-save_params fn.params (ground arith),
  load-save_results fn.results (ground arith),
  load-save_functions fns (ground arith),
)

-- Loading a saved schema gives the schema back, if its types are well shaped and its mode is the
-- typed one.
pub load-save_schema :
    (s : ContractSchema)
    → schema_is_well_shaped s ≡ true
    → s.mode ≡ schema_mode_typed_args
    → load_schema (save_schema s) ≡ ok s
unfolding schema_is_well_shaped save_schema load_schema
load-save_schema s h m = rw (
  (eq_iff s.mode schema_mode_typed_args).1 m,
  load-save_registry s.types (ground arith),
  load-save_bindings s.persistent_globals (ground arith),
  load-save_functions s.functions (ground arith),
)

-- One more entry in front of a list that was loaded.
module _ {ℓ κ} {A B : Type ℓ} {D : Type κ} where
  Restores-cons :
      {E : Type κ} (save : A → D) (saves : List B → List E) (make : A → B) (stored : D → E)
      (t : Result LoadError A) (rest : Result LoadError (List B)) (d : D) (ds : List E)
      → ((a : A) (bs : List B) → saves (make a ∷ bs) ≡ stored (save a) ∷ saves bs)
      → Restores save t d
      → Restores saves rest ds
      → Restores saves (t >>= λ a. rest >>= λ bs. ok (make a ∷ bs)) (stored d ∷ ds)
  Restores-cons save saves make stored (ok a) (ok bs) d ds step h hs = rw step (rw (h, hs))
  Restores-cons save saves make stored (err e) rest d ds step h hs = tt
  Restores-cons save saves make stored (ok a) (err e) d ds step h hs = tt

registry-Restores : (d : Map PersistedTypeRef) → Restores save_registry (load_registry d) d
unfolding save_registry load_registry
registry-Restores [] = refl
registry-Restores ((n, t) ∷ reg) =
    Restores-cons save_type_ref save_registry (λ t'. (n, t')) (λ d. (n, d)) (load_type_ref t)
      (load_registry reg) t reg (λ a bs. refl) (load-Restores t) (registry-Restores reg)

bindings-Restores : (d : List PersistedBinding) → Restores save_bindings (load_bindings d) d
unfolding save_bindings load_bindings
bindings-Restores [] = refl
bindings-Restores (b ∷ bs) =
    Restores-cons save_type_ref save_bindings
      (λ t. record { name = b.name; typ = t; has_explicit_type = b.has_explicit_type })
      (λ d. record { name = b.name; typ = d; has_explicit_type = b.has_explicit_type })
      (load_type_ref b.typ) (load_bindings bs) b.typ bs (λ a cs. refl) (load-Restores b.typ)
      (bindings-Restores bs)

params-Restores : (d : List PersistedParam) → Restores save_params (load_params d) d
unfolding save_params load_params
params-Restores [] = refl
params-Restores (p ∷ ps) =
    Restores-cons save_type_ref save_params (λ t. record { name = p.name; typ = t })
      (λ d. record { name = p.name; typ = d }) (load_type_ref p.typ) (load_params ps) p.typ ps
      (λ a cs. refl) (load-Restores p.typ) (params-Restores ps)

results-Restores : (d : List PersistedResult) → Restores save_results (load_results d) d
unfolding save_results load_results
results-Restores [] = refl
results-Restores (r ∷ rs) =
    Restores-cons save_type_ref save_results (λ t. record { typ = t }) (λ d. record { typ = d })
      (load_type_ref r.typ) (load_results rs) r.typ rs (λ a cs. refl) (load-Restores r.typ)
      (results-Restores rs)

Restores-function :
    (fn : PersistedFunction) (fns : List PersistedFunction)
    (ps : Result LoadError (List ParamSchema)) (rs : Result LoadError (List ResultSchema))
    (rest : Result LoadError (List FunctionSchema))
    → Restores save_params ps fn.params
    → Restores save_results rs fn.results
    → Restores save_functions rest fns
    → Restores save_functions
        (ps >>= λ params. rs >>= λ results. rest >>= λ fns'. ok (
          record { name = fn.name; exported = fn.exported; params = params; results = results }
          ∷ fns'))
        (fn ∷ fns)
unfolding save_functions
Restores-function fn fns (ok ps) (ok rs) (ok rest) hp hr hs = rw (hp, hr, hs)
Restores-function fn fns (err e) rs rest hp hr hs = tt
Restores-function fn fns (ok ps) (err e) rest hp hr hs = tt
Restores-function fn fns (ok ps) (ok rs) (err e) hp hr hs = tt

functions-Restores : (d : List PersistedFunction) → Restores save_functions (load_functions d) d
unfolding load_functions
functions-Restores [] = unfold save_functions in refl
functions-Restores (fn ∷ fns) =
    Restores-function fn fns (load_params fn.params) (load_results fn.results) (load_functions fns)
      (params-Restores fn.params) (results-Restores fn.results) (functions-Restores fns)

Restores-schema :
    (d : PersistedSchema) (reg : Result LoadError TypeRegistry)
    (globals : Result LoadError (List PersistentBindingSchema))
    (functions : Result LoadError (List FunctionSchema))
    → Restores save_registry reg d.types
    → Restores save_bindings globals d.persistent_globals
    → Restores save_functions functions d.functions
    → Restores save_schema
        (reg >>= λ r. globals >>= λ g. functions >>= λ f. ok (record {
          package_name = d.package_name;
          mode = d.mode;
          types = r;
          persistent_globals = g;
          functions = f;
        }))
        d
unfolding save_schema
Restores-schema d (ok r) (ok g) (ok f) hr hg hf = rw (hr, hg, hf)
Restores-schema d (err e) globals functions hr hg hf = tt
Restores-schema d (ok r) (err e) functions hr hg hf = tt
Restores-schema d (ok r) (ok g) (err e) hr hg hf = tt

schema-Restores : (d : PersistedSchema) → Restores save_schema (load_schema d) d
unfolding load_schema
schema-Restores d = elim (Bool-cases (d.mode == schema_mode_typed_args)) [
  | inl typed ↦ rw typed (
      Restores-schema d (load_registry d.types) (load_bindings d.persistent_globals)
        (load_functions d.functions) (registry-Restores d.types)
        (bindings-Restores d.persistent_globals) (functions-Restores d.functions))
  | inr other ↦ rw other tt
]

-- A schema that loads is the one that was stored: saving it again gives the same text, kind by kind
-- and field by field.
pub save-load_schema :
    (d : PersistedSchema) (s : ContractSchema) → load_schema d ≡ ok s → save_schema s ≡ d
save-load_schema d s h = rw h at (schema-Restores d)
