-- ===== src/Tests/Sample.antt =====
-- The contract: a register of notes, with `Initialize(ctx, owner string) error`,
-- `Set(ctx, text string) error`, a struct `Note` and a global map from strings to notes. The machine keeps
-- one text, to which every call adds its function's name.
use mitum_smart_contract.Base.{
  String, Bool, true, false, Option, none, some, List, [], ◌∷◌, Map, Result, ok, err, ◌==◌,
  if◌then◌else◌, refl, sym,
}
use Prim.Native.String.{◌++◌}
use mitum_smart_contract.Schema.TypeRef.{
  TypeKind, TypeRef, type_ref, TypePtr, end, field, TypeRegistry, FunctionSchema, ContractSchema,
}
use mitum_smart_contract.State.{GetState, StateValue, StateMerge}
use mitum_smart_contract.Call.Items.{call_contract_item_hint, CallContractItem, CallContractFact}
use mitum_smart_contract.Engine.Machine.{Vm}
use mitum_smart_contract.Engine.Execute.{Host}
use mitum_smart_contract.Processor.Currency.{Currency, Laws}
use mitum_smart_contract.Processor.Register.{RegisterContractFact}

abbrev pub string_type : TypeRef
string_type = type_ref TypeKind.scalar "string" "string" "" TypePtr.null TypePtr.null end

abbrev pub error_type : TypeRef
error_type = type_ref TypeKind.opaque "error" "" "" TypePtr.null TypePtr.null end

abbrev pub context_type : TypeRef
context_type = type_ref TypeKind.opaque "chain.WriteContext" "" "" TypePtr.null TypePtr.null end

abbrev pub note_type : TypeRef
note_type = type_ref TypeKind.named "Note" "" "Note" TypePtr.null TypePtr.null end

abbrev pub notes_type : TypeRef
notes_type =
    type_ref TypeKind.map "map[string]Note" "" "" (TypePtr.ptr string_type) (TypePtr.ptr note_type)
      end

abbrev pub sample_registry : TypeRegistry
sample_registry =
    (
      "Note",
      type_ref TypeKind.struct "" "" "Note" TypePtr.null TypePtr.null
          (field "Text" string_type end),
    )
    ∷ []

abbrev write_function : String → String → FunctionSchema
write_function name param = record {
  name = name;
  exported = true;
  params =
      record { name = "ctx"; typ = context_type } ∷ record { name = param; typ = string_type } ∷ [];
  results = record { typ = error_type } ∷ [];
}

abbrev pub sample_schema : ContractSchema
sample_schema = record {
  package_name = "contract";
  mode = "typed-snapshot-v1";
  types = sample_registry;
  persistent_globals = record { name = "notes"; typ = notes_type; has_explicit_type = true } ∷ [];
  functions = write_function "Initialize" "owner" ∷ write_function "Set" "text" ∷ [];
}

abbrev pub sample_vm : Vm String
sample_vm = record {
  new_machine = λ ctx path code. ok "";
  restore_snapshot = λ m bytes schema. ok bytes;
  eval_call = λ m function ctx args. ok (
    m ++ function,
    record { is_nil_interface = true; is_defined = false; error_message = "" } ∷ [],
  );
  capture_snapshot = λ m schema. ok m;
}

abbrev pub sample_hash : String → String
sample_hash s = "#" ++ s

abbrev pub sample_host : Host String
sample_host = record {
  vm = sample_vm;
  cache_key = λ s. s;
  path_hash = λ s. "0";
  analyze = λ s. ok sample_schema;
}

-- accounts are the Boolean of being active
abbrev found_value : Result String (Option (StateValue Bool)) → Result String (StateValue Bool)
found_value (ok (some v)) = ok v
found_value (ok none) = err "not found"
found_value (err e) = err e

abbrev found : Result String (Option (StateValue Bool)) → Bool
found (ok (some v)) = true
found _ = false

abbrev owned : StateValue Bool → Result String (Option Bool)
owned (StateValue.account_value a) = ok (some a)
owned _ = err "not an account"

abbrev account_or_false : Result String (StateValue Bool) → Bool
account_or_false (ok (StateValue.account_value a)) = a
account_or_false _ = false

abbrev pub sample_currency : Currency Bool
sample_currency = record {
  exists_state = λ get_state key. found_value (get_state key);
  is_state_found = λ get_state key. found (get_state key);
  exists_contract_account = λ get_state addr. found_value (get_state ("account:" ++ addr));
  check_auth = λ v sender. owned v;
  account_key = λ addr. "account:" ++ addr;
  account_of_state = account_or_false;
  set_is_active = λ b a. b;
  is_active = λ a. a;
}

pub sample_laws : Laws sample_currency
sample_laws = record {
  active-set = λ b a. refl;
  account-found = λ get_state addr v w stored same. (let h = rw stored at same in sym (cc h));
  auth-given = λ a b sender h. cc h;
  state-found = λ get_state key v stored. rw stored;
}

abbrev pub read : Map (StateValue Bool) → GetState Bool
read [] key = ok none
read ((k, v) ∷ m) key = if k == key then ok (some v) else read m key

-- the writes of a block, over the ledger before it
abbrev pub apply : List (StateMerge Bool) → GetState Bool → GetState Bool
apply [] get_state key = get_state key
apply (m ∷ ms) get_state key = if m.key == key then ok (some m.value) else apply ms get_state key

abbrev pub empty_ledger : GetState Bool
empty_ledger = read (("account:C", StateValue.account_value false) ∷ [])

abbrev pub sample_registration : RegisterContractFact
sample_registration = record {
  hint_is_valid = true;
  sender = "S";
  contract = "C";
  code = "package contract";
  call_data = some (("owner", "S") ∷ []);
  parts_are_valid = true;
  operation_fact_is_valid = true;
}

abbrev pub sample_item : CallContractItem
sample_item = record {
  hint = call_contract_item_hint;
  hint_is_valid = true;
  function = "Set";
  call_data = ("text", "hello") ∷ [];
}

abbrev pub sample_call : CallContractFact
sample_call = record {
  hint = "mitum-contract-call-operation-fact-v0.0.1";
  hint_is_valid = true;
  sender = "S";
  contract = "C";
  items = sample_item ∷ sample_item ∷ [];
  currency = "MCC";
  parts_are_valid = true;
  operation_fact_is_valid = true;
}
