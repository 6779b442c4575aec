-- ===== src/Processor/Duplication.antt =====
-- operation/processor/operation_processor.go: `CheckDuplication`, on the operations of one proposal. The
-- check of new addresses belongs to mitum-currency and is a parameter, with the state it keeps.
pub mod Senders
use mitum_smart_contract.Base.{
  String, Bool, true, false, Option, none, some, List, [], ◌∷◌, contains, if◌then◌else◌, Result, ok,
  err,
}
use Prim.Native.String.{◌++◌}

-- The operations that the switch names, each with what the check reads of its fact. `Targets` answers
-- `none` when it fails.
pub data Operation : Type 0 where
  create_account : String → Option (List String) → Operation
  update_key transfer withdraw : String → Operation
  register_currency update_currency : String → Operation
  create_contract_account : String → Option (List String) → Operation
  mint : Operation
  other_operation : String → Operation

pub data DuplicationError : Type 0 where
  no_targets : DuplicationError
  duplicated_sender duplicated_currency duplicated_contract : String → DuplicationError
  duplicated_address : String → DuplicationError

-- `DuplicationKey`
abbrev pub duplication_key : String → String → String
duplication_key key dupl_type = key ++ ":" ++ dupl_type

-- what the switch sets; an identifier that stays "" is `none`
pub record Identifiers : Type 0 where
  pub sender_id : Option String
  pub currency_id : Option String
  pub contract_id : Option String
  pub new_addresses : List String

abbrev pub sender_only : String → Identifiers
sender_only s = record {
  sender_id = some (duplication_key s "sender");
  currency_id = none;
  contract_id = none;
  new_addresses = [];
}

abbrev pub currency_only : String → Identifiers
currency_only c = record {
  sender_id = none;
  currency_id = some (duplication_key c "currency");
  contract_id = none;
  new_addresses = [];
}

-- the switch, for an operation that is not left to itself
unfoldable pub identifiers : Operation → Result DuplicationError (Option Identifiers)
identifiers (Operation.create_account s none) = err no_targets
identifiers (Operation.create_account s (some targets)) =
    ok (some (record (sender_only s) { new_addresses = targets }))
identifiers (Operation.update_key s) = ok (some (sender_only s))
identifiers (Operation.transfer s) = ok (some (sender_only s))
identifiers (Operation.withdraw s) = ok (some (sender_only s))
identifiers (Operation.register_currency c) = ok (some (currency_only c))
identifiers (Operation.update_currency c) = ok (some (currency_only c))
identifiers (Operation.create_contract_account s none) = err no_targets
identifiers (Operation.create_contract_account s (some targets)) = ok (
    some (record (sender_only s) {
      contract_id = some (duplication_key s "contract");
      new_addresses = targets;
    }))
identifiers Operation.mint =
    ok (
      some
        (record { sender_id = none; currency_id = none; contract_id = none; new_addresses = [] }))
identifiers (Operation.other_operation s) = ok none

-- refuse an identifier that was met, and remember it
unfoldable pub claim :
    (String → DuplicationError)
    → Option String
    → List String
    → Result DuplicationError (Unit {0}) × List String
claim error none duplicated = (ok tt, duplicated)
claim error (some id) duplicated =
    if contains id duplicated then (err (error id), duplicated) else (ok tt, id ∷ duplicated)

module _ {Addresses : Type 0}
    (check_new : Addresses → List String → Result DuplicationError (Unit {0}) × Addresses) where
  abbrev pub check_addresses :
      List String
      → List String
      → Addresses
      → Result DuplicationError (Unit {0}) × (List String × Addresses)
  check_addresses [] duplicated known = (ok tt, (duplicated, known))
  check_addresses (a ∷ rest) duplicated known =
      let r = check_new known (a ∷ rest) in (r.0, (duplicated, r.1))

  after_contract :
      Identifiers
      → Addresses
      → Result DuplicationError (Unit {0}) × List String
      → Result DuplicationError (Unit {0}) × (List String × Addresses)
  after_contract ids known (err e, duplicated) = (err e, (duplicated, known))
  after_contract ids known (ok u, duplicated) = check_addresses ids.new_addresses duplicated known

  after_currency :
      Identifiers
      → Addresses
      → Result DuplicationError (Unit {0}) × List String
      → Result DuplicationError (Unit {0}) × (List String × Addresses)
  unfolding after_contract claim
  after_currency ids known (err e, duplicated) = (err e, (duplicated, known))
  after_currency ids known (ok u, duplicated) =
      after_contract ids known (claim duplicated_contract ids.contract_id duplicated)

  after_sender :
      Identifiers
      → Addresses
      → Result DuplicationError (Unit {0}) × List String
      → Result DuplicationError (Unit {0}) × (List String × Addresses)
  unfolding after_currency claim
  after_sender ids known (err e, duplicated) = (err e, (duplicated, known))
  after_sender ids known (ok u, duplicated) =
      after_currency ids known (claim duplicated_currency ids.currency_id duplicated)

  check_identifiers :
      Result DuplicationError (Option Identifiers)
      → List String × Addresses
      → Result DuplicationError (Unit {0}) × (List String × Addresses)
  unfolding after_sender claim
  check_identifiers (err e) (duplicated, known) = (err e, (duplicated, known))
  check_identifiers (ok none) (duplicated, known) = (ok tt, (duplicated, known))
  check_identifiers (ok (some ids)) (duplicated, known) =
      after_sender ids known (claim duplicated_sender ids.sender_id duplicated)

  -- `CheckDuplication`: the answer, and the identifiers and addresses met so far
  unfoldable pub check_duplication :
      Operation
      → List String × Addresses
      → Result DuplicationError (Unit {0}) × (List String × Addresses)
  unfolding check_identifiers identifiers
  check_duplication op met = check_identifiers (identifiers op) met
