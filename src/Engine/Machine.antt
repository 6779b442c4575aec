-- ===== src/Engine/Machine.antt =====
-- The Gno virtual machine and the snapshot codec, as parameters of the engine: github.com/gnolang/gno and
-- operation/contract/runtime/gno_snapshot_codec.go. Every call of them returns, fails, or panics.
use mitum_smart_contract.Base.{ℕ, String, Bool, List, Result}
use mitum_smart_contract.Schema.TypeRef.{ContractSchema}

pub data Failure : Type 0 where
  failed panicked : String → Failure

-- the expressions `gno.Str`, `gno.X` and `gno.Num` build for an argument
pub data ArgExpr : Type 0 where
  str_expr name_expr num_expr : String → ArgExpr

-- `ExecutionContext`, without its readers
pub record ExecutionContext : Type 0 where
  pub sender : String
  pub contract : String
  pub height : ℕ
  pub current_height : ℕ
  pub read_only : Bool

-- the fields of `chain.WriteContext`
pub record WriteContext : Type 0 where
  pub sender : String
  pub contract : String
  pub height : ℕ
  pub block_time : ℕ
  pub read_only : Bool

-- A value that `Machine.Eval` returns, with what `extractTypedWriteErrorMessage` finds in it.
pub record TypedValue : Type 0 where
  pub is_nil_interface : Bool
  pub is_defined : Bool
  pub error_message : String

pub record Vm (Machine : Type 0) : Type 0 where
  pub new_machine : ExecutionContext → String → String → Result Failure Machine
  pub restore_snapshot : Machine → String → ContractSchema → Result Failure Machine
  pub eval_call :
      Machine → String → WriteContext → List ArgExpr → Result Failure (Machine × List TypedValue)
  pub capture_snapshot : Machine → ContractSchema → Result Failure String
