-- ===== src/Engine/Readers.antt =====
-- operation/contract/runtime/state_readers.go and gno_execution_context.go: what a contract reads of the
-- ledger. The keys and the values of mitum-currency and the decoding of addresses are parameters.
pub mod Accounts
use mitum_smart_contract.Base.{
  String, Bool, true, false, not, Option, none, some, ◌==◌, if◌then◌else◌, Result, ok, err, map_err,
  ◌>>=◌, ◌>>◌, fail_if,
}

pub record Amount : Type 0 where
  pub currency : String
  pub big : String

-- `base.DecodeAddress`, `CurrencyID.IsValid`, the keys of states, and whether a value is of its kind:
-- `LoadAccountStateValue`, `StateContractAccountValue`, `GetDesignFromState`, `StateBalanceValue`
pub record Ledger (State : Type 0) : Type 0 where
  pub decode_address : String → Option String
  pub is_currency_id : String → Bool
  pub account_key : String → String
  pub contract_account_key : String → String
  pub design_key : String → String
  pub balance_key : String → String → String
  pub is_account : State → Bool
  pub is_contract_account : State → Bool
  pub is_design : State → Bool
  pub balance_value : State → Option Amount

pub data ReadError : Type 0 where
  bad_address : String → ReadError
  lookup_failed : String → String → ReadError
  account_not_found : String → ReadError
  undecodable : String → ReadError
  currency_mismatch : ReadError

module _ {State : Type 0} (ledger : Ledger State)
    (get_state : String → Result String (Option State)) where
  -- `getStateFunc(key)`, its error wrapped
  unfoldable pub read_state : String → Result ReadError (Option State)
  read_state key = map_err (lookup_failed key) (get_state key)

  abbrev pub decoded : String → Option String → Result ReadError String
  decoded addr none = err (bad_address addr)
  decoded addr (some a) = ok a

  -- the `switch` of `GetAccountStateFunc`
  abbrev pub account_found : String → Option State → Result ReadError Bool
  account_found addr none = err (account_not_found addr)
  account_found addr (some st) = fail_if (not (ledger.is_account st)) (undecodable addr) >> ok true

  -- `GetAccountStateFunc`, which is `AccountExists`
  unfoldable pub account_exists : String → Result ReadError Bool
  unfolding read_state
  account_exists addr = decoded addr (ledger.decode_address addr) >>= λ a.
      read_state (ledger.account_key a) >>= λ st. account_found addr st

  abbrev pub contract_account_found : String → Option State → Result ReadError Bool
  contract_account_found addr none = ok false
  contract_account_found addr (some st) =
      fail_if (not (ledger.is_contract_account st)) (undecodable addr) >> ok true

  -- `IsContractAccount`
  unfoldable pub is_contract_account_at : String → Result ReadError Bool
  unfolding read_state
  is_contract_account_at addr = decoded addr (ledger.decode_address addr) >>= λ a.
      read_state (ledger.contract_account_key a) >>= λ st. contract_account_found addr st

  -- `"", false`
  abbrev pub no_balance : Result ReadError (String × Bool)
  no_balance = ok ("", false)

  abbrev pub amount_of : String → Option Amount → Result ReadError (String × Bool)
  amount_of cid none = err (undecodable cid)
  amount_of cid (some amount) =
      fail_if (not (amount.currency == cid)) currency_mismatch >> ok (amount.big, true)

  -- a lookup that answers `"", false` where there is no state
  abbrev pub if_found :
      Option State → (State → Result ReadError (String × Bool)) → Result ReadError (String × Bool)
  if_found none next = no_balance
  if_found (some st) next = next st

  -- the three lookups of `BalanceOf`
  unfoldable pub balance_at : String → String → Result ReadError (String × Bool)
  unfolding read_state
  balance_at a cid = read_state (ledger.account_key a) >>= λ account. if_found account λ x.
      fail_if (not (ledger.is_account x)) (undecodable a)
      >> (read_state (ledger.design_key cid) >>= λ design. if_found design λ y.
          fail_if (not (ledger.is_design y)) (undecodable cid)
          >> (read_state (ledger.balance_key a cid) >>= λ balance.
              if_found balance λ z. amount_of cid (ledger.balance_value z)))

  abbrev pub if_decoded :
      Option String → (String → Result ReadError (String × Bool)) → Result ReadError (String × Bool)
  if_decoded none next = no_balance
  if_decoded (some a) next = next a

  -- `BalanceOf`
  unfoldable pub balance_of : String → String → Result ReadError (String × Bool)
  unfolding balance_at
  balance_of addr cid =
      if_decoded (ledger.decode_address addr)
        λ a. if not (ledger.is_currency_id cid) then no_balance else balance_at a cid
