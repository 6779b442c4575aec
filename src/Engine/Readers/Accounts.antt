-- ===== src/Engine/Readers/Accounts.antt =====
-- state_readers.go and gno_execution_context.go: the answers of the readers.
use mitum_smart_contract.Base.{
  String, Bool, true, false, not, Option, none, some, ◌≡◌, ◌↔◌, ◌⊎◌, refl, sym, ◌==◌, eq_iff,
  Result, ok, map_err, map_err-eq-ok, ◌>>=◌, ◌>>◌, >>=-eq-ok, >>-eq-ok, fail_if, fail_if-not-eq-ok,
  Bool-cases, Option-cases, inl, inr,
}
use mitum_smart_contract.Engine.Readers.{
  contract_account_found, lookup_failed, undecodable, Amount, Ledger, ReadError, read_state,
  decoded, account_found, account_exists, is_contract_account_at, amount_of, if_found, balance_at,
  balance_of,
}

module _ {State : Type 0} (ledger : Ledger State)
    (get_state : String → Result String (Option State)) where
  -- The key holds a value of the kind.
  abbrev pub Holds : (State → Bool) → String → Type 0
  Holds is_kind key = (st : State) × (get_state key ≡ ok (some st)) × (is_kind st ≡ true)

  -- Under the key that the address leads to stands a value of the kind.
  abbrev pub IsAt : String → (State → Bool) → (String → String) → Type 0
  IsAt addr is_kind key =
      (a : String) × (ledger.decode_address addr ≡ some a) × Holds is_kind (key a)

  -- The ledger answers that nothing stands there.
  abbrev pub IsAbsent : String → (String → String) → Type 0
  IsAbsent addr key =
      (a : String) × (ledger.decode_address addr ≡ some a) × (get_state (key a) ≡ ok none)

  -- a found state and the check of its kind
  checked_kind :
      (is_kind : Bool) (e : ReadError) (b : Bool)
      → fail_if (not is_kind) e >> ok true ≡ ok b
      → (is_kind ≡ true) × (b ≡ true)
  checked_kind true e b h = (refl, cc h)
  checked_kind false e b h = cc h

  -- an address that a reader answers for is one that decodes, with an answer of the ledger
  decoded_read :
      {A : Type 0} (addr : String) (key : String → String)
      (next : Option State → Result ReadError A) (x : A)
      → (decoded ledger get_state addr (ledger.decode_address addr) >>= λ a.
          read_state ledger get_state (key a) >>= next)
        ≡ ok x
      → (a : String) × (o : Option State) × (ledger.decode_address addr ≡ some a)
        × (get_state (key a) ≡ ok o)
        × (next o ≡ ok x)
  unfolding read_state
  decoded_read addr key next x h = elim (Option-cases (ledger.decode_address addr)) [
    | inl e ↦ cc (rw e at h)
    | inr (a, e) ↦
        let (o, h1, h2) =
          >>=-eq-ok (map_err (lookup_failed (key a)) (get_state (key a))) next (rw e at h) in
        (a, o, e, map_err-eq-ok _ _ o h1, h2)
  ]

  account_found_lem :
      (addr : String) (o : Option State) (b : Bool)
      → account_found ledger get_state addr o ≡ ok b
      → (b ≡ true) × (st : State) × (o ≡ some st) × (ledger.is_account st ≡ true)
  account_found_lem addr none b h = cc h
  account_found_lem addr (some st) b h =
      let (kind, same) = checked_kind (ledger.is_account st) _ b h in (same, st, refl, kind)

  contract_account_found_lem :
      (addr : String) (o : Option State) (b : Bool)
      → contract_account_found ledger get_state addr o ≡ ok b
      → ((b ≡ true) × (st : State) × (o ≡ some st) × (ledger.is_contract_account st ≡ true))
        ⊎ ((b ≡ false) × (o ≡ none))
  contract_account_found_lem addr none b h = inr (cc h, refl)
  contract_account_found_lem addr (some st) b h =
      let (kind, same) = checked_kind (ledger.is_contract_account st) _ b h in
      inl (same, st, refl, kind)

  account_exists_iff :
      (addr : String) (b : Bool)
      → (account_exists ledger get_state addr ≡ ok b)
        ↔ ((b ≡ true) × IsAt addr ledger.is_account ledger.account_key)
  unfolding account_exists read_state
  account_exists_iff addr b = (
    λ h.
        let (a, o, d, got, next) =
          decoded_read addr ledger.account_key (account_found ledger get_state addr) b h in
        let (same, st, found, kind) = account_found_lem addr o b next in
        (same, (a, d, (st, rw found at got, kind))),
    λ w. rw (w.0, w.1.1, w.1.2.1, w.1.2.2) refl,
  )

  is_contract_account_iff :
      (addr : String) (b : Bool)
      → (is_contract_account_at ledger get_state addr ≡ ok b) ↔ (
          ((b ≡ true) × IsAt addr ledger.is_contract_account ledger.contract_account_key)
          ⊎ ((b ≡ false) × IsAbsent addr ledger.contract_account_key))
  unfolding is_contract_account_at read_state
  is_contract_account_iff addr b = (
    λ h.
        let (a, o, d, got, next) =
          decoded_read addr ledger.contract_account_key
            (contract_account_found ledger get_state addr) b h in
        elim (contract_account_found_lem addr o b next) [
          | inl (same, st, found, kind) ↦ inl (same, (a, d, (st, rw found at got, kind)))
          | inr (same, missing) ↦ inr (same, (a, d, rw missing at got))
        ],
    λ w. elim w [
      | inl (same, (a, d, (st, got, kind))) ↦ rw (same, d, got, kind) refl
      | inr (same, (a, d, got)) ↦ rw (same, d, got) refl
    ],
  )

  -- `AccountExists` has one answer, true, and gives it exactly for an address that decodes and has an
  -- account in the ledger: where there is none it does not answer false, it fails. `IsContractAccount`
  -- answers true exactly for an address that decodes and has a contract account in the ledger, and false
  -- exactly for one that decodes and has nothing there.
  pub account_readers_iff :
      (addr : String) (b : Bool)
      → ((account_exists ledger get_state addr ≡ ok b)
          ↔ ((b ≡ true) × IsAt addr ledger.is_account ledger.account_key))
        × ((is_contract_account_at ledger get_state addr ≡ ok b) ↔ (
            ((b ≡ true) × IsAt addr ledger.is_contract_account ledger.contract_account_key)
            ⊎ ((b ≡ false) × IsAbsent addr ledger.contract_account_key)))
  account_readers_iff addr b = (account_exists_iff addr b, is_contract_account_iff addr b)

  -- the state and what follows it, where a lookup and its check lead to a balance
  found_next :
      (key addr text : String) (is_kind : State → Bool) (next : Result ReadError (String × Bool))
      → (read_state ledger get_state key >>= λ o.
          if_found ledger get_state o λ x. fail_if (not (is_kind x)) (undecodable addr) >> next)
        ≡ ok (text, true)
      → Holds is_kind key × (next ≡ ok (text, true))
  unfolding read_state
  found_next key addr text is_kind next h =
      let (o, h1, h2) = >>=-eq-ok (map_err (lookup_failed key) (get_state key)) _ h in
      elim (Option-cases o) [
        | inl e ↦ cc (rw e at h2)
        | inr (st, e) ↦
            let (checked, h3) = >>-eq-ok (fail_if (not (is_kind st)) _) next (rw e at h2) in
            (
              (st, rw e at (map_err-eq-ok _ _ o h1), fail_if-not-eq-ok (is_kind st) _ tt checked),
              h3,
            )
      ]

  amount_lem :
      (cid text : String) (o : Option Amount)
      → amount_of ledger get_state cid o ≡ ok (text, true)
      → o ≡ some (record { currency = cid; big = text })
  amount_lem cid text none h = cc h
  amount_lem cid text (some amount) h =
      let (same, e) =
        >>-eq-ok (fail_if (not (amount.currency == cid)) _) (ok (amount.big, true)) h in
      let c : amount.currency ≡ cid =
        (eq_iff amount.currency cid).0 (fail_if-not-eq-ok (amount.currency == cid) _ tt same) in
      let t : amount.big ≡ text = cc e in rw (sym c, sym t) refl

  last_lookup :
      (key cid text : String)
      → (read_state ledger get_state key >>= λ o.
          if_found ledger get_state o λ z. amount_of ledger get_state cid (ledger.balance_value z))
        ≡ ok (text, true)
      → (st : State) × (get_state key ≡ ok (some st))
        × (ledger.balance_value st ≡ some (record { currency = cid; big = text }))
  unfolding read_state
  last_lookup key cid text h =
      let (o, h1, h2) = >>=-eq-ok (map_err (lookup_failed key) (get_state key)) _ h in
      elim (Option-cases o) [
        | inl e ↦ cc (rw e at h2)
        | inr (st, e) ↦ (
          st,
          rw e at (map_err-eq-ok _ _ o h1),
          amount_lem cid text (ledger.balance_value st) (rw e at h2),
        )
      ]

  -- A balance is given only for an address that decodes, with an account, for a valid currency that has a
  -- design, and it is the amount of that currency which the ledger holds for the two.
  pub balance_of-eq-ok :
      (addr cid text : String)
      → balance_of ledger get_state addr cid ≡ ok (text, true)
      → (a : String) × (ledger.decode_address addr ≡ some a)
        × (ledger.is_currency_id cid ≡ true)
        × Holds ledger.is_account (ledger.account_key a)
        × Holds ledger.is_design (ledger.design_key cid)
        × ((st : State) × (get_state (ledger.balance_key a cid) ≡ ok (some st))
            × (ledger.balance_value st ≡ some (record { currency = cid; big = text })))
  unfolding balance_of balance_at
  balance_of-eq-ok addr cid text h = elim (Option-cases (ledger.decode_address addr)) [
    | inl e ↦ cc (rw e at h)
    | inr (a, e) ↦ elim (Bool-cases (ledger.is_currency_id cid)) [
      | inr c ↦ cc (rw (e, c) at h)
      | inl c ↦
          let (account, h1) =
            found_next (ledger.account_key a) a text ledger.is_account _ (rw (e, c) at h) in
          let (design, h2) = found_next (ledger.design_key cid) cid text ledger.is_design _ h1 in
          (a, e, c, account, design, last_lookup (ledger.balance_key a cid) cid text h2)
    ]
  ]
