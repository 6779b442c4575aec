-- ===== src/Processor/Duplication/Senders.antt =====
-- operation_processor.go: the senders of one proposal.
use mitum_smart_contract.Base.{
  String, Bool, true, false, ◌||◌, Option, none, some, List, [], ◌∷◌, ◌≡◌, refl, inl, inr, eq_refl,
  ◌==◌, contains, Result, ok, err, is_ok, Bool-cases,
}
use mitum_smart_contract.Processor.Duplication.{
  Operation, DuplicationError, duplicated_sender, duplicated_currency, duplicated_contract,
  Identifiers, identifiers, claim, check_addresses, after_contract, after_currency, after_sender,
  check_identifiers, check_duplication,
}

or_true : (b : Bool) → b || true ≡ true
or_true true = refl
or_true false = refl

claim_grows :
    (f : String → DuplicationError) (id : Option String) (met : List String) (k : String)
    → contains k met ≡ true
    → contains k (claim f id met).1 ≡ true
unfolding claim
claim_grows f none met k h = h
claim_grows f (some id) met k h = elim (Bool-cases (contains id met)) [
  | inl e ↦ rw (e, h)
  | inr e ↦ rw (e, h) (or_true (id == k))
]

claim_holds :
    (f : String → DuplicationError) (id : String) (met : List String)
    → contains id (claim f (some id) met).1 ≡ true
unfolding claim
claim_holds f id met = elim (Bool-cases (contains id met)) [
  | inl e ↦ rw (e, e)
  | inr e ↦ rw (e, eq_refl id)
]

-- The sender's identifier that the check claims for the operation, if it claims one.
abbrev pub sender_id_of : Result DuplicationError (Option Identifiers) → Option String
sender_id_of (err e) = none
sender_id_of (ok none) = none
sender_id_of (ok (some ids)) = ids.sender_id

module _ {Addresses : Type 0}
    (check_new : Addresses → List String → Result DuplicationError (Unit {0}) × Addresses) where
  addresses_keep :
      (rest met : List String) (known : Addresses) (k : String)
      → contains k met ≡ true
      → contains k (check_addresses check_new rest met known).1.0 ≡ true
  addresses_keep [] met known k h = h
  addresses_keep (a ∷ rest) met known k h = h

  contract_keeps :
      (ids : Identifiers) (known : Addresses) (p : Result DuplicationError (Unit {0}) × List String)
      (k : String)
      → contains k p.1 ≡ true
      → contains k (after_contract check_new ids known p).1.0 ≡ true
  unfolding after_contract
  contract_keeps ids known (err e, met) k h = h
  contract_keeps ids known (ok u, met) k h = addresses_keep ids.new_addresses met known k h

  currency_keeps :
      (ids : Identifiers) (known : Addresses) (p : Result DuplicationError (Unit {0}) × List String)
      (k : String)
      → contains k p.1 ≡ true
      → contains k (after_currency check_new ids known p).1.0 ≡ true
  unfolding after_currency
  currency_keeps ids known (err e, met) k h = h
  currency_keeps ids known (ok u, met) k h =
      contract_keeps ids known (claim duplicated_contract ids.contract_id met) k
        (claim_grows duplicated_contract ids.contract_id met k h)

  sender_keeps :
      (ids : Identifiers) (known : Addresses) (p : Result DuplicationError (Unit {0}) × List String)
      (k : String)
      → contains k p.1 ≡ true
      → contains k (after_sender check_new ids known p).1.0 ≡ true
  unfolding after_sender
  sender_keeps ids known (err e, met) k h = h
  sender_keeps ids known (ok u, met) k h =
      currency_keeps ids known (claim duplicated_currency ids.currency_id met) k
        (claim_grows duplicated_currency ids.currency_id met k h)

  identifiers_keep :
      (r : Result DuplicationError (Option Identifiers)) (met : List String × Addresses)
      (k : String)
      → contains k met.0 ≡ true
      → contains k (check_identifiers check_new r met).1.0 ≡ true
  unfolding check_identifiers
  identifiers_keep (err e) (met, known) k h = h
  identifiers_keep (ok none) (met, known) k h = h
  identifiers_keep (ok (some ids)) (met, known) k h =
      sender_keeps ids known (claim duplicated_sender ids.sender_id met) k
        (claim_grows duplicated_sender ids.sender_id met k h)

  sender_remembered :
      (r : Result DuplicationError (Option Identifiers)) (met : List String × Addresses)
      (k : String)
      → sender_id_of r ≡ some k
      → contains k (check_identifiers check_new r met).1.0 ≡ true
  unfolding check_identifiers
  sender_remembered (err e) (met, known) k h = cc h
  sender_remembered (ok none) (met, known) k h = cc h
  sender_remembered (ok (some ids)) (met, known) k h =
      sender_keeps ids known (claim duplicated_sender ids.sender_id met) k
        (rw h (claim_holds duplicated_sender k met))

  sender_refused :
      (r : Result DuplicationError (Option Identifiers)) (met : List String × Addresses)
      (k : String)
      → sender_id_of r ≡ some k
      → contains k met.0 ≡ true
      → is_ok (check_identifiers check_new r met).0 ≡ false
  unfolding check_identifiers after_sender claim
  sender_refused (err e) (met, known) k h c = refl
  sender_refused (ok none) (met, known) k h c = cc h
  sender_refused (ok (some ids)) (met, known) k h c = rw (h, c)

  -- The operations of a proposal one after the other, whatever the check answers to each.
  abbrev pub after_all : List Operation → List String × Addresses → List String × Addresses
  after_all [] met = met
  after_all (op ∷ ops) met = after_all ops (check_duplication check_new op met).1

  all_keep :
      (ops : List Operation) (met : List String × Addresses) (k : String)
      → contains k met.0 ≡ true
      → contains k (after_all ops met).0 ≡ true
  unfolding check_duplication
  all_keep [] met k h = h
  all_keep (op ∷ ops) met k h =
      all_keep ops (check_duplication check_new op met).1 k
        (identifiers_keep (identifiers op) met k h)

  -- When an operation that claims a sender was checked, accepted or not, every later operation of the
  -- proposal that claims the same sender is refused, whatever stands between the two.
  pub second_of_sender_refused :
      (first second : Operation) (between : List Operation) (met : List String × Addresses)
      (k : String)
      → sender_id_of (identifiers first) ≡ some k
      → sender_id_of (identifiers second) ≡ some k
      → is_ok
          (check_duplication check_new second
            (after_all between (check_duplication check_new first met).1)).0
        ≡ false
  unfolding check_duplication
  second_of_sender_refused first second between met k one two =
      let met1 = (check_duplication check_new first met).1 in
      sender_refused (identifiers second) (after_all between met1) k two
        (all_keep between met1 k (sender_remembered (identifiers first) met k one))
