-- ===== src/Engine/Codec.antt =====
-- The snapshot codec in the place that the engine leaves for it: a virtual machine whose variables are read
-- and assigned makes the machine that operation/contract/runtime/gno_engine.go calls.
pub mod Restored
use mitum_smart_contract.Base.{String, List, Result, map_err}
use mitum_smart_contract.Schema.TypeRef.{ContractSchema}
use mitum_smart_contract.Snapshot.{SnapshotDoc}
use mitum_smart_contract.Snapshot.Values.{MachineValue}
use mitum_smart_contract.Snapshot.Build.{Expr}
use mitum_smart_contract.Snapshot.Document.Json.{Json}
use mitum_smart_contract.Snapshot.Document.{assignment_panicked, DocumentError, capture, restore}
use mitum_smart_contract.Engine.Machine.{
  Vm, Failure, failed, panicked, ArgExpr, ExecutionContext, WriteContext, TypedValue,
}

-- What is left to the machine: it is made, evaluates a call, and its variables are read and assigned.
pub record Variables (Machine : Type 0) : Type 0 where
  pub new_machine : ExecutionContext → String → String → Result Failure Machine
  pub eval_call :
      Machine → String → WriteContext → List ArgExpr → Result Failure (Machine × List TypedValue)
  pub read_global : Machine → String → MachineValue
  pub assign : Machine → String → Expr → Result String Machine

-- A panic goes through; an error of the codec has the text of its own.
abbrev pub codec_failure : DocumentError → Failure
codec_failure (assignment_panicked p) = panicked p
codec_failure _ = failed "snapshot"

-- the machine that the engine calls
abbrev pub with_codec : {Machine : Type 0} → Variables Machine → Json → Vm Machine
with_codec machine json = record {
  new_machine = machine.new_machine;
  restore_snapshot = λ m snapshot schema.
      map_err codec_failure (restore machine.assign json.unmarshal schema m snapshot);
  eval_call = machine.eval_call;
  capture_snapshot =
      λ m schema. map_err codec_failure (capture json.marshal (machine.read_global m) schema);
}
