-- ===== src/Tests/Proposals.antt =====
-- The theorem on duplicate senders, applied to a proposal of three operations.
use mitum_smart_contract.Base.{String, false, List, [], ◌∷◌, ◌≡◌, refl, Result, ok, is_ok}
use mitum_smart_contract.Processor.Duplication.{
  Operation, DuplicationError, identifiers, check_duplication,
}
use mitum_smart_contract.Processor.Duplication.Senders.{after_all, second_of_sender_refused}

abbrev all_new : List String → List String → Result DuplicationError (Unit {0}) × List String
all_new known addresses = (ok tt, known)

abbrev no_identifiers : List String × List String
no_identifiers = ([], [])

second_of_sender_refused_example :
    is_ok
      (check_duplication all_new (Operation.withdraw "A") (
        after_all all_new
          (Operation.transfer "B" ∷ [])
          (check_duplication all_new (Operation.transfer "A") no_identifiers).1)).0
    ≡ false
unfolding identifiers
second_of_sender_refused_example =
    second_of_sender_refused all_new (Operation.transfer "A") (Operation.withdraw "A")
      (Operation.transfer "B" ∷ []) no_identifiers "A:sender" refl refl
