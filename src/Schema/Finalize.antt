-- ===== src/Schema/Finalize.antt =====
-- operation/contract/runtime/schema_analyzer.go, `finalizeContractSchema`: the last check of a schema,
-- for a freshly analysed contract and for one read back from state.
pub mod Accepted
use mitum_smart_contract.Base.{
  String, Bool, true, false, not, ◌&&◌, Option, none, some, List, [], ◌∷◌, ◌==◌, if◌then◌else◌,
  Result, ok, err, done, fail_if, map_err, ◌>>=◌, ◌>>◌,
}
use mitum_smart_contract.Schema.TypeRef.{
  TypeRef, TypeRegistry, ContractSchema, PersistentBindingSchema, FunctionSchema, ParamSchema,
  ResultSchema, schema_mode_typed_args, normalized_string, find_function,
}
use mitum_smart_contract.Schema.Ruleset.{current_schema_ruleset}
use mitum_smart_contract.Schema.Shape.{
  is_typed_initialize_shape, is_typed_write_shape, is_typed_query_shape, is_context_callable,
  is_query_context_callable, uses_legacy_contract_context,
}
use mitum_smart_contract.Schema.Validate.{
  TypeError, validate_persistent_global_type, validate_scalar_abi_type, validate_composite_abi_type,
}

pub data SchemaError : Type 0 where
  initialize_not_found wrong_package bad_initialize_shape : SchemaError
  bad_initialize_param : TypeError → SchemaError
  untyped_global : String → SchemaError
  bad_global : TypeError → SchemaError
  legacy_context second_result_not_bool bad_function_shape : String → SchemaError
  bad_write_param bad_query_param bad_query_result : TypeError → SchemaError

-- `for i := 1; i < len(params); i++`
abbrev pub after_context : List ParamSchema → List ParamSchema
after_context [] = []
after_context (p ∷ ps) = ps

check_params : TypeRegistry → List ParamSchema → Result TypeError (Unit {0})
check_params reg [] = done
check_params reg (p ∷ ps) =
    let rest = check_params reg ps in validate_scalar_abi_type reg p.typ >> rest

check_global : TypeRegistry → PersistentBindingSchema → Result SchemaError (Unit {0})
check_global reg g =
    if current_schema_ruleset.explicit_persistent_global_type_required && not g.has_explicit_type
    then err (untyped_global g.name)
    else map_err bad_global (validate_persistent_global_type reg g)

check_globals : TypeRegistry → List PersistentBindingSchema → Result SchemaError (Unit {0})
check_globals reg [] = done
check_globals reg (g ∷ gs) = let rest = check_globals reg gs in check_global reg g >> rest

-- `len(fn.Results) == 2 && fn.Results[1].Type.NormalizedString() != "bool"`
second_not_bool : List ResultSchema → Bool
second_not_bool (r ∷ r2 ∷ []) = not (normalized_string r2.typ == "bool")
second_not_bool _ = false

check_first_result : TypeRegistry → List ResultSchema → Result TypeError (Unit {0})
check_first_result reg [] = done
check_first_result reg (r ∷ rs) = validate_composite_abi_type reg r.typ

check_query : TypeRegistry → FunctionSchema → Result SchemaError (Unit {0})
unfolding check_params check_first_result second_not_bool
check_query reg fn = do
  map_err bad_query_param (check_params reg (after_context fn.params))
  map_err bad_query_result (check_first_result reg fn.results)
  fail_if (second_not_bool fn.results) (second_result_not_bool fn.name)

-- the body of the loop over `schema.Functions`
check_function : TypeRegistry → FunctionSchema → Result SchemaError (Unit {0})
unfolding check_params check_query second_not_bool
check_function reg fn =
    if fn.name == "Initialize"
    then done
    else if not fn.exported
    then done
    else if uses_legacy_contract_context fn
    then err (legacy_context fn.name)
    else if not (is_context_callable fn)
    then done
    else if is_typed_write_shape fn
    then map_err bad_write_param (check_params reg (after_context fn.params))
    else if is_query_context_callable fn && second_not_bool fn.results
    then err (second_result_not_bool fn.name)
    else if is_typed_query_shape fn
    then check_query reg fn
    else err (bad_function_shape fn.name)

check_functions : TypeRegistry → List FunctionSchema → Result SchemaError (Unit {0})
unfolding check_function
check_functions reg [] = done
check_functions reg (fn ∷ fns) = let rest = check_functions reg fns in check_function reg fn >> rest

check_initialize : TypeRegistry → FunctionSchema → String → Result SchemaError (Unit {0})
unfolding check_params
check_initialize reg init package_name = do
  fail_if (not (package_name == current_schema_ruleset.required_package_name)) wrong_package
  fail_if (not (is_typed_initialize_shape init)) bad_initialize_shape
  map_err bad_initialize_param (check_params reg (after_context init.params))

found_or : Option FunctionSchema → Result SchemaError FunctionSchema
found_or none = err initialize_not_found
found_or (some fn) = ok fn

-- `finalizeContractSchema`: the checks, then the mode is set
unfoldable pub finalize_contract_schema : ContractSchema → Result SchemaError ContractSchema
unfolding found_or check_initialize check_globals check_global check_functions
finalize_contract_schema schema = do
  init ← found_or (find_function "Initialize" schema.functions)
  check_initialize schema.types init schema.package_name
  check_globals schema.types schema.persistent_globals
  check_functions schema.types schema.functions
  ok (record schema { mode = schema_mode_typed_args })
