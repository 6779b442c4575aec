-- ===== src/Tests/Restored.antt =====
-- A machine of one variable behind the snapshot codec, which registers a contract.
use mitum_smart_contract.Base.{
  ◌==◌, if◌then◌else◌, err, false, String, true, none, some, [], ◌∷◌, Bool, ok,
}
use Prim.Native.String.{◌++◌}
use mitum_smart_contract.State.{GetState}
use mitum_smart_contract.Snapshot.Values.{ℤ, typed_value, nil_object}
use mitum_smart_contract.Snapshot.Build.{Expr}
use mitum_smart_contract.Call.Normalize.{InvocationMode, ExecuteRequest}
use mitum_smart_contract.Engine.Execute.{Host, ExecuteResult, merges_for, derive_runtime_state}
use mitum_smart_contract.Tests.Snapshots.{reading, owner_schema, owner_json}
use mitum_smart_contract.Engine.Codec.{Variables, with_codec}

abbrev text_of : Expr → String → String
text_of (Expr.string_expr text) old = text
text_of _ old = old

abbrev one_variable : Variables String
one_variable = record {
  new_machine = λ ctx path code. ok "";
  eval_call = λ m function ctx args. ok (
    m ++ function,
    record { is_nil_interface = true; is_defined = false; error_message = "" } ∷ [],
  );
  read_global = λ m name. typed_value (reading m (ℤ.pos 0)) nil_object;
  assign = λ m name e. if name == "owner" then ok (text_of e m) else err "undefined";
}

abbrev owner_host : Host String
owner_host = record {
  vm = with_codec one_variable owner_json;
  cache_key = λ s. s;
  path_hash = λ s. "0";
  analyze = λ s. ok owner_schema;
}

abbrev nothing : GetState Bool
nothing key = ok none

abbrev registers : ExecuteRequest
registers = record {
  mode = InvocationMode.register;
  contract = "C";
  sender = "S";
  height = 1;
  block_time = 1000;
  contract_code = "package contract";
  schema = some owner_schema;
  function = "Initialize";
  call_data = none;
  call_items = [];
  init_data = some (("owner", "S") ∷ []);
}

abbrev result_with : String → ExecuteResult Bool
result_with bytes = record {
  engine = "gno-snapshot-v1";
  state_merges =
      merges_for "C" bytes (derive_runtime_state owner_host.path_hash "C" "package contract") true;
}
