-- ===== src/Schema/Shape.antt =====
-- operation/contract/runtime/schema.go: supported scalars, and which functions have the shape of
-- `Initialize`, of a write and of a query.
use mitum_smart_contract.Base.{
  String, Bool, false, not, ◌&&◌, ◌||◌, List, [], ◌∷◌, ◌==◌, if◌then◌else◌, contains,
}
use Prim.Native.String.{◌++◌}
use mitum_smart_contract.Base.Text.{has_suffix}
use mitum_smart_contract.Schema.Ruleset.{current_schema_ruleset}
use mitum_smart_contract.Schema.TypeRef.{
  TypeRef, FunctionSchema, ParamSchema, ResultSchema, is_scalar, normalized_string,
}

-- `IsSupportedScalarType`
unfoldable pub is_supported_scalar : TypeRef → Bool
is_supported_scalar t =
    is_scalar t && contains (normalized_string t) current_schema_ruleset.allowed_kinds

-- `isContextTypeNamed`
is_context_type_named : TypeRef → String → Bool
unfolding has_suffix
is_context_type_named typ name =
    if name == ""
    then false
    else normalized_string typ == name || has_suffix (normalized_string typ) ("." ++ name)

unfoldable pub is_write_context_type : TypeRef → Bool
unfolding is_context_type_named
is_write_context_type typ =
    is_context_type_named typ current_schema_ruleset.context_rules.write_context_type

unfoldable pub is_query_context_type : TypeRef → Bool
unfolding is_context_type_named
is_query_context_type typ =
    is_context_type_named typ current_schema_ruleset.context_rules.query_context_type

unfoldable pub is_legacy_contract_context_type : TypeRef → Bool
unfolding is_context_type_named
is_legacy_contract_context_type typ =
    is_context_type_named typ current_schema_ruleset.context_rules.legacy_contract_context_type

-- a test of the first parameter, false where there is none
first_param : (TypeRef → Bool) → List ParamSchema → Bool
first_param test [] = false
first_param test (p ∷ ps) = test p.typ

-- `IsWriteContextCallable`
unfoldable pub is_write_context_callable : FunctionSchema → Bool
unfolding first_param
is_write_context_callable fn = first_param is_write_context_type fn.params

-- `IsQueryContextCallable`
unfoldable pub is_query_context_callable : FunctionSchema → Bool
unfolding first_param
is_query_context_callable fn = first_param is_query_context_type fn.params

-- `IsContextCallable`
unfoldable pub is_context_callable : FunctionSchema → Bool
is_context_callable fn = is_write_context_callable fn || is_query_context_callable fn

-- `UsesLegacyContractContext`
unfoldable pub uses_legacy_contract_context : FunctionSchema → Bool
unfolding first_param
uses_legacy_contract_context fn =
    not current_schema_ruleset.context_rules.legacy_contract_context_allowed
    && first_param is_legacy_contract_context_type fn.params

-- `IsSingleErrorResult`
single_error : List ResultSchema → Bool
single_error (r ∷ []) = normalized_string r.typ == "error"
single_error _ = false

unfoldable pub is_single_error_result : FunctionSchema → Bool
unfolding single_error
is_single_error_result fn = single_error fn.results

-- `IsTypedInitializeShape`
unfoldable pub is_typed_initialize_shape : FunctionSchema → Bool
is_typed_initialize_shape fn =
    fn.name == "Initialize" && is_write_context_callable fn && is_single_error_result fn

-- `IsTypedWriteShape`
unfoldable pub is_typed_write_shape : FunctionSchema → Bool
is_typed_write_shape fn =
    fn.exported
    && not (fn.name == "Initialize")
    && is_write_context_callable fn
    && is_single_error_result fn

-- the switch on `len(fn.Results)` in `IsTypedQueryShape`
query_results : Bool → List ResultSchema → Bool
query_results is_error (r ∷ []) = not is_error && current_schema_ruleset.single_result_allowed
query_results is_error (r ∷ r2 ∷ []) =
    current_schema_ruleset.bool_presence_result_allowed
    && normalized_string r2.typ == current_schema_ruleset.bool_presence_second_result_scalar_kind
query_results is_error _ = false

-- `IsTypedQueryShape`
unfoldable pub is_typed_query_shape : FunctionSchema → Bool
unfolding query_results
is_typed_query_shape fn =
    fn.exported
    && not (fn.name == "Initialize")
    && is_query_context_callable fn
    && query_results (is_single_error_result fn) fn.results
