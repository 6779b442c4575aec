-- ===== src/Schema/Analyzer/Imports.antt =====
-- operation/contract/runtime/schema_analyzer.go: the checks on a source's imports and on the use of the
-- context inside a function's body.
pub mod Usage
use mitum_smart_contract.Base.{
  String, Bool, true, false, not, ◌&&◌, Option, none, some, List, [], ◌∷◌, ◌==◌, if◌then◌else◌,
  contains, Result, ok, err, done, fail_if, ◌>>=◌, ◌>>◌,
}
use mitum_smart_contract.Schema.Ruleset.{
  current_schema_ruleset, mitum_chain_package_path, is_allowed_typed_contract_import,
}
use mitum_smart_contract.Schema.TypeRef.{FunctionSchema, ParamSchema}
use mitum_smart_contract.Schema.Shape.{is_write_context_callable, is_query_context_callable}
use mitum_smart_contract.Schema.Source.{ImportSpec, Selector, FuncDecl}

pub data UsageError : Type 0 where
  bad_import_path : UsageError
  import_not_allowed : String → UsageError
  native_current_height write_current_height query_current_height : UsageError
  write_block_time query_block_time : UsageError

unfoldable pub validate_import : Option String → Result UsageError (Unit {0})
unfolding is_allowed_typed_contract_import
validate_import none = err bad_import_path
validate_import (some path) =
    fail_if (not (is_allowed_typed_contract_import path)) (import_not_allowed path)

-- `validateContractImports`
unfoldable pub validate_contract_imports : List ImportSpec → Result UsageError (Unit {0})
unfolding validate_import
validate_contract_imports [] = done
validate_contract_imports (imp ∷ imps) =
    let rest = validate_contract_imports imps in validate_import imp.path >> rest

abbrev pub mitum_chain_package_name : String
mitum_chain_package_name = "chain"

abbrev pub chain_path : Option String → Bool
chain_path none = false
chain_path (some path) = path == mitum_chain_package_path

-- the name under which an import of the chain package is used, if any
abbrev pub local_name : Option String → List String → List String
local_name none names = mitum_chain_package_name ∷ names
local_name (some n) names = if n == "." then names else if n == "_" then names else n ∷ names

-- `mitumChainImportNames`
unfoldable pub mitum_chain_import_names : List ImportSpec → List String
mitum_chain_import_names [] = []
mitum_chain_import_names (imp ∷ imps) =
    let rest = mitum_chain_import_names imps in
    if chain_path imp.path then local_name imp.name rest else rest

-- `len(fn.Params) != 0 && receiver.Name == fn.Params[0].Name`
abbrev pub is_context_name : String → List ParamSchema → Bool
is_context_name receiver [] = false
is_context_name receiver (p ∷ ps) = receiver == p.name

-- the inner `switch` on the name that is selected
unfoldable pub check_context_selector : FunctionSchema → String → Result UsageError (Unit {0})
check_context_selector fn selected =
    let rules = current_schema_ruleset.context_rules in
    if selected == "GetCurrentHeight"
    then (if is_write_context_callable fn && not rules.write_context_current_height_allowed
        then err write_current_height
        else fail_if
            (is_query_context_callable fn && not rules.query_context_current_height_allowed)
            query_current_height)
    else if selected == "GetBlockTime"
    then (if is_write_context_callable fn && not rules.write_context_block_time_allowed
        then err write_block_time
        else fail_if (is_query_context_callable fn && not rules.query_context_block_time_allowed)
            query_block_time)
    else done

-- the visitor of `validateContextABIUsage` on one selector
unfoldable pub check_selector :
    FunctionSchema → List String → Selector → Result UsageError (Unit {0})
unfolding check_context_selector
check_selector fn names sel =
    if sel.selected == "CurrentHeight" && contains sel.receiver names
    then fail_if (not current_schema_ruleset.context_rules.chain_current_height_native_allowed)
        native_current_height
    else if is_context_name sel.receiver fn.params
    then check_context_selector fn sel.selected
    else done

unfoldable pub check_selectors :
    FunctionSchema → List String → List Selector → Result UsageError (Unit {0})
unfolding check_selector
check_selectors fn names [] = done
check_selectors fn names (sel ∷ sels) =
    let rest = check_selectors fn names sels in check_selector fn names sel >> rest

-- `validateContextABIUsage`
unfoldable pub validate_body :
    FunctionSchema → List String → Option (List Selector) → Result UsageError (Unit {0})
unfolding check_selectors
validate_body fn names none = done
validate_body fn names (some sels) = check_selectors fn names sels

unfoldable pub validate_context_abi_usage :
    FuncDecl → FunctionSchema → List String → Result UsageError (Unit {0})
unfolding validate_body
validate_context_abi_usage decl fn names = validate_body fn names decl.body
