-- ===== src/Engine/Invoke.antt =====
-- operation/contract/runtime/gno_engine.go: `invokeTypedWrite`. `SetActivePackage` and the import of the
-- `chain` package, which `RunDeclaration` runs, belong to the virtual machine's `eval_call`.
use mitum_smart_contract.Base.{
  ℕ, String, Bool, true, false, not, ◌&&◌, Option, none, some, List, [], ◌∷◌, ◌==◌, if◌then◌else◌,
  Map, Result, ok, err, map_err, ◌>>=◌,
}
use mitum_smart_contract.Schema.TypeRef.{ContractSchema, FunctionSchema, find_function}
use mitum_smart_contract.Call.Normalize.{InvocationMode}
use mitum_smart_contract.Engine.Machine.{Vm, Failure, ArgExpr, WriteContext, TypedValue}
use mitum_smart_contract.Schema.Finalize.{after_context}
use mitum_smart_contract.Engine.Arguments.{ArgError, build_args, build_initialize_args}

pub data InvokeError : Type 0 where
  function_not_found : String → InvokeError
  bad_arguments : ArgError → InvokeError
  not_one_result : InvokeError
  returned_error : String → InvokeError
  returned_non_nil : InvokeError
  vm_failure : Failure → InvokeError

-- the fields of the request that `invokeTypedWrite` reads
pub record Invocation : Type 0 where
  pub mode : InvocationMode
  pub contract : String
  pub sender : String
  pub height : ℕ
  pub block_time : ℕ
  pub function : String
  pub call_data : Map String

abbrev pub is_register : InvocationMode → Bool
is_register InvocationMode.register = true
is_register _ = false

found_function : String → Option FunctionSchema → Result InvokeError FunctionSchema
found_function name none = err (function_not_found name)
found_function name (some fn) = ok fn

-- `writeContextExpr`
unfoldable pub write_context : Invocation → WriteContext
write_context req = record {
  sender = req.sender;
  contract = req.contract;
  height = req.height;
  block_time = req.block_time;
  read_only = false;
}

-- the arguments after the context
unfoldable pub invoke_args :
    ContractSchema → FunctionSchema → Invocation → Result ArgError (List ArgExpr)
unfolding build_args build_initialize_args
invoke_args schema fn req =
    if is_register req.mode && fn.name == "Initialize"
    then build_initialize_args schema.types fn.params req.call_data
    else build_args schema.types (after_context fn.params) req.call_data

-- exactly one result, and no error in it
unfoldable pub check_results : List TypedValue → Result InvokeError (Unit {0})
check_results (r ∷ []) =
    if not r.is_nil_interface && r.is_defined
    then (if not (r.error_message == "")
        then err (returned_error r.error_message)
        else err returned_non_nil)
    else ok tt
check_results _ = err not_one_result

module _ {Machine : Type 0} (vm : Vm Machine) where
  -- `invokeTypedWrite`
  unfoldable pub invoke_typed_write :
      Machine → Invocation → ContractSchema → Result InvokeError Machine
  unfolding found_function invoke_args check_results write_context
  invoke_typed_write m req schema =
      found_function req.function (find_function req.function schema.functions) >>= λ fn.
      map_err bad_arguments (invoke_args schema fn req) >>= λ args.
      map_err vm_failure (vm.eval_call m req.function (write_context req) args) >>= λ r.
      check_results r.1 >>= λ u. ok r.0
