-- ===== src/State.antt =====
-- state/state.go: the values a contract keeps in the ledger, and the keys they stand under. Addresses
-- are their texts; hints are left out.
use mitum_smart_contract.Base.{ℕ, String, Option, Result, ok, err}
use Prim.Native.String.{◌++◌}
use mitum_smart_contract.Persist.Dto.{PersistedContractSchema}

abbrev pub runtime_engine_gno_snapshot : String
runtime_engine_gno_snapshot = "gno-snapshot-v1"

-- `types.Design` is its contract code.
pub record DesignStateValue : Type 0 where
  pub contract_code : String
  pub schema : Option PersistedContractSchema

pub record RuntimeStateValue : Type 0 where
  pub engine : String
  pub abi_version : String
  pub package_name : String
  pub package_path : String
  pub snapshot_version : ℕ

-- A snapshot is the text of its bytes.
pub record SnapshotStateValue : Type 0 where
  pub version : ℕ
  pub codec : String
  pub snapshot : String

-- What the value of a state can be: nil, one of the three above, the contract account of
-- mitum-currency (a parameter), or anything else.
pub data StateValue (Account : Type 0) : Type 0 where
  nil_value : StateValue Account
  design_value : DesignStateValue → StateValue Account
  runtime_value : RuntimeStateValue → StateValue Account
  snapshot_value : SnapshotStateValue → StateValue Account
  account_value : Account → StateValue Account
  other_value : String → StateValue Account

pub data StateError : Type 0 where
  state_value_is_nil : StateError
  state_value_mismatch : StateError

-- `GetStateFunc`: an error, no state, or a state with its value
abbrev pub GetState : Type 0 → Type 0
GetState Account = String → Result String (Option (StateValue Account))

abbrev pub contract_state_key : String → String
contract_state_key addr = "contract:" ++ addr

-- `DesignStateKey`, `RuntimeStateKey` and `SnapshotStateKey`
abbrev pub design_state_key : String → String
design_state_key addr = contract_state_key addr ++ ":design"

abbrev pub runtime_state_key : String → String
runtime_state_key addr = contract_state_key addr ++ ":runtime"

abbrev pub snapshot_state_key : String → String
snapshot_state_key addr = contract_state_key addr ++ ":snapshot"

module _ {Account : Type 0} where
  -- `GetDesignStateValueFromState`
  unfoldable pub get_design_from_state : StateValue Account → Result StateError DesignStateValue
  get_design_from_state StateValue.nil_value = err state_value_is_nil
  get_design_from_state (StateValue.design_value d) = ok d
  get_design_from_state _ = err state_value_mismatch

  -- `GetRuntimeFromState`
  unfoldable pub get_runtime_from_state : StateValue Account → Result StateError RuntimeStateValue
  get_runtime_from_state StateValue.nil_value = err state_value_is_nil
  get_runtime_from_state (StateValue.runtime_value r) = ok r
  get_runtime_from_state _ = err state_value_mismatch

  -- `GetSnapshotFromState`
  unfoldable pub get_snapshot_from_state : StateValue Account → Result StateError SnapshotStateValue
  get_snapshot_from_state StateValue.nil_value = err state_value_is_nil
  get_snapshot_from_state (StateValue.snapshot_value s) = ok s
  get_snapshot_from_state _ = err state_value_mismatch

-- A pending write: the key and its new value.
pub record StateMerge (Account : Type 0) : Type 0 where
  pub key : String
  pub value : StateValue Account
