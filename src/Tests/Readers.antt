-- ===== src/Tests/Readers.antt =====
-- The theorems on what a contract reads, at a ledger that knows one account with a balance.
use mitum_smart_contract.Base.{
  false, String, true, Option, some, [], ◌∷◌, Map, lookup, ◌≡◌, ◌↔◌, ◌⊎◌, false, refl, Result, ok,
  ◌==◌,
}
use Prim.Native.String.{◌++◌}
use mitum_smart_contract.Engine.Readers.{
  read_state, balance_at, Amount, Ledger, account_exists, is_contract_account_at, balance_of,
}
use mitum_smart_contract.Engine.Readers.Accounts.{
  Holds, IsAt, IsAbsent, account_readers_iff, balance_of-eq-ok,
}

abbrev amount : String → String → Amount
amount currency big = record { currency = currency; big = big }

abbrev keys : Ledger Amount
keys = record {
  decode_address = λ s. some s;
  is_currency_id = λ s. s == "MCC";
  account_key = λ a. "account:" ++ a;
  contract_account_key = λ a. "contract:" ++ a;
  design_key = λ c. "design:" ++ c;
  balance_key = λ a c. "balance:" ++ (a ++ c);
  is_account = λ v. v.currency == "account";
  is_contract_account = λ v. v.currency == "contract";
  is_design = λ v. v.currency == "design";
  balance_value = λ v. some v;
}

abbrev states : Map Amount
states =
    ("account:alice", amount "account" "")
    ∷ ("design:MCC", amount "design" "")
    ∷ ("balance:aliceMCC", amount "MCC" "42")
    ∷ []

abbrev get : String → Result String (Option Amount)
get key = ok (lookup key states)

account_readers_iff_example :
    ((account_exists keys get "bob" ≡ ok false)
      ↔ ((false ≡ true) × IsAt keys get "bob" keys.is_account keys.account_key))
    × ((is_contract_account_at keys get "bob" ≡ ok false) ↔ (
        ((false ≡ true) × IsAt keys get "bob" keys.is_contract_account keys.contract_account_key)
        ⊎ ((false ≡ false) × IsAbsent keys get "bob" keys.contract_account_key)))
account_readers_iff_example = account_readers_iff keys get "bob" false

alice_balance : balance_of keys get "alice" "MCC" ≡ ok ("42", true)
unfolding balance_of balance_at read_state
alice_balance = refl

balance_of-eq-ok_example :
    (a : String) × (some "alice" ≡ some a)
    × (keys.is_currency_id "MCC" ≡ true)
    × Holds keys get keys.is_account (keys.account_key a)
    × Holds keys get keys.is_design (keys.design_key "MCC")
    × ((st : Amount) × (get (keys.balance_key a "MCC") ≡ ok (some st))
        × (keys.balance_value st ≡ some (amount "MCC" "42")))
balance_of-eq-ok_example = balance_of-eq-ok keys get "alice" "MCC" "42" alice_balance
