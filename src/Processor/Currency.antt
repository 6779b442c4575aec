-- ===== src/Processor/Currency.antt =====
-- The contract accounts and state checks of github.com/ProtoconNet/mitum-currency (`cstate` and `cestate`),
-- and the block's update of the state, as parameters with the behaviour the processors rely on.
use mitum_smart_contract.Base.{String, Bool, Option, some, List, All, ◌≡◌, Result, ok}
use mitum_smart_contract.State.{GetState, StateValue, StateMerge}

pub record Currency (Account : Type 0) : Type 0 where
  -- `cstate.ExistsState`, `cstate.CheckNotExistsState` (whether it was found), `cstate.ExistsCAccount`
  pub exists_state : GetState Account → String → Result String (StateValue Account)
  pub is_state_found : GetState Account → String → Bool
  pub exists_contract_account : GetState Account → String → Result String (StateValue Account)
  -- `cestate.CheckCAAuthFromState`, `StateKeyContractAccount`, `StateContractAccountValue`
  pub check_auth : StateValue Account → String → Result String (Option Account)
  pub account_key : String → String
  pub account_of_state : Result String (StateValue Account) → Account
  -- `SetIsActive` and `IsActive`
  pub set_is_active : Bool → Account → Account
  pub is_active : Account → Bool

module _ {Account : Type 0} (currency : Currency Account) where
  -- An account that is set active is active, the account under a key is the one that is looked up, and
  -- the owner's check hands out the account it was given.
  pub record Laws : Type 0 where
    pub active-set : (b : Bool) (a : Account) → currency.is_active (currency.set_is_active b a) ≡ b
    pub account-found :
        (get_state : GetState Account) (addr : String) (v w : StateValue Account)
        → get_state (currency.account_key addr) ≡ ok (some v)
        → currency.exists_contract_account get_state addr ≡ ok w
        → w ≡ v
    pub auth-given :
        (a b : Account) (sender : String)
        → currency.check_auth (StateValue.account_value a) sender ≡ ok (some b)
        → b ≡ a
    pub state-found :
        (get_state : GetState Account) (key : String) (v : StateValue Account)
        → get_state key ≡ ok (some v)
        → currency.exists_state get_state key ≡ ok v

-- The state after a block that applies the merges: under each merged key stands its value.
abbrev pub HoldsMerge : {Account : Type 0} → GetState Account → StateMerge Account → Type 0
HoldsMerge get_state m = get_state m.key ≡ ok (some m.value)

abbrev pub IsApplied : {Account : Type 0} → List (StateMerge Account) → GetState Account → Type 0
IsApplied merges get_state = All (HoldsMerge get_state) merges
