-- ===== src/Call/Limits/Decides.antt =====
-- call_data_limits.go: the loops of the limit checks, and the limits as statements.
use mathlib.Core.Logic.{∥∥₁_elim}
use mathlib.Core.Bool.{Bool-set}
use mathlib.Core.List.{Perm, Permᴰ}
use mitum_smart_contract.Base.{
  ℕ, suc, ◌+◌, ◌≤◌, String, len, Bool, true, false, Option, none, some, List, [], ◌∷◌, ◌≡◌, ◌↔◌,
  refl, sym, ap, ◌∙◌, arith, ◌==◌, length, All, lookup, is_ok,
}
use mitum_smart_contract.Call.Limits.{
  CallData, ExecuteCallItem, max_contract_call_data_entries, max_contract_call_data_key_bytes,
  max_contract_call_data_value_bytes, max_contract_call_data_total_bytes, max_contract_call_items,
  max_contract_call_items_total_bytes, check_entries, validate_call_data_limits, total_from,
  call_data_total_bytes, is_some, check_items, validate_call_items_limits,
}

-- The bytes of all keys and values.
abbrev pub bytes_of : CallData → ℕ
bytes_of [] = 0
bytes_of (e ∷ rest) = len e.0 + len e.1 + bytes_of rest

abbrev pub EntryFits : String × String → Type 0
EntryFits e =
    (len e.0 ≤ max_contract_call_data_key_bytes) × (len e.1 ≤ max_contract_call_data_value_bytes)

-- The limits as one statement, with no order of tests.
pub record IsWithinLimits (m : CallData) : Type 0 where
  pub few : length m ≤ max_contract_call_data_entries
  pub entries : All EntryFits m
  pub small : bytes_of m ≤ max_contract_call_data_total_bytes

total_from-eq : (total : ℕ) (m : CallData) → total_from total m ≡ total + bytes_of m
unfolding total_from
total_from-eq total [] = omega arith
total_from-eq total ((key, value) ∷ rest) =
    omega (arith, total_from-eq (total + (len key + len value)) rest)

pub call_data_total_bytes-eq : (m : CallData) → call_data_total_bytes m ≡ bytes_of m
unfolding call_data_total_bytes
call_data_total_bytes-eq m = omega (arith, total_from-eq 0 m)

check_entries_sound :
    (total : ℕ) (m : CallData)
    → is_ok (check_entries total m) ≡ true
    → total ≤ max_contract_call_data_total_bytes
    → All EntryFits m × (total + bytes_of m ≤ max_contract_call_data_total_bytes)
unfolding check_entries
check_entries_sound total [] h room = (tt, omega arith)
check_entries_sound total ((key, value) ∷ rest) h room =
    ground (arith, check_entries_sound (total + (len key + len value)) rest)

check_entries_complete :
    (total : ℕ) (m : CallData)
    → All EntryFits m
    → total + bytes_of m ≤ max_contract_call_data_total_bytes
    → is_ok (check_entries total m) ≡ true
unfolding check_entries
check_entries_complete total [] fits room = refl
check_entries_complete total ((key, value) ∷ rest) fits room =
    ground (arith, check_entries_complete (total + (len key + len value)) rest)

-- Call data is accepted exactly when it has at most 64 entries, keys of at most 128 bytes, values of at
-- most 16 KiB and 64 KiB in total, although the loop adds up the total as it goes.
pub call_data_limits_iff :
    (m : CallData) → (is_ok (validate_call_data_limits m) ≡ true) ↔ IsWithinLimits m
unfolding validate_call_data_limits
call_data_limits_iff m = (
  λ h.
      let few : length m ≤ 64 = ground arith in
      let parts = check_entries_sound 0 m (ground arith) (omega arith) in
      record { few = few; entries = parts.0; small = omega (arith, parts.1) },
  λ w. ground (arith, check_entries_complete 0 m w.entries (omega arith)),
)

length_perm : {m m' : CallData} → Permᴰ m m' → length m ≡ length m'
length_perm Permᴰ.nil = refl
length_perm (Permᴰ.cons e p) = ap suc (length_perm p)
length_perm (Permᴰ.swap e e') = refl
length_perm (Permᴰ.trans p q) = length_perm p ∙ length_perm q

bytes_perm : {m m' : CallData} → Permᴰ m m' → bytes_of m ≡ bytes_of m'
bytes_perm Permᴰ.nil = refl
bytes_perm (Permᴰ.cons e p) = rw (e, bytes_perm p)
bytes_perm (Permᴰ.swap e e') = rw (e, e') (omega arith)
bytes_perm (Permᴰ.trans p q) = bytes_perm p ∙ bytes_perm q

entries_perm : {m m' : CallData} → Permᴰ m m' → All EntryFits m → All EntryFits m'
entries_perm Permᴰ.nil h = tt
entries_perm (Permᴰ.cons e p) h = (rw e at (h.0), entries_perm p h.1)
entries_perm (Permᴰ.swap e e') h = (rw e' at (h.1.0), (rw e at (h.0), h.1.1))
entries_perm (Permᴰ.trans p q) h = entries_perm q (entries_perm p h)

within_perm : {m m' : CallData} → Permᴰ m m' → IsWithinLimits m → IsWithinLimits m'
within_perm p w = record {
  few = omega (arith, length_perm p, w.few);
  entries = entries_perm p w.entries;
  small = omega (arith, bytes_perm p, w.small);
}

perm_sym : {m m' : CallData} → Permᴰ m m' → Permᴰ m' m
perm_sym Permᴰ.nil = Permᴰ.nil
perm_sym (Permᴰ.cons e p) = Permᴰ.cons (sym e) (perm_sym p)
perm_sym (Permᴰ.swap e e') = Permᴰ.swap (sym e') (sym e)
perm_sym (Permᴰ.trans p q) = Permᴰ.trans (perm_sym q) (perm_sym p)

Bool-eq : (a b : Bool) → (a ≡ true → b ≡ true) → (b ≡ true → a ≡ true) → a ≡ b
Bool-eq true b f g = sym (f refl)
Bool-eq false true f g = g refl
Bool-eq false false f g = refl

accepted_perm :
    {m m' : CallData}
    → Permᴰ m m'
    → is_ok (validate_call_data_limits m) ≡ is_ok (validate_call_data_limits m')
accepted_perm {m} {m'} p =
    Bool-eq (is_ok (validate_call_data_limits m)) (is_ok (validate_call_data_limits m'))
      (λ h. (call_data_limits_iff m').1 (within_perm p ((call_data_limits_iff m).0 h)))
      (λ h. (call_data_limits_iff m).1 (within_perm (perm_sym p) ((call_data_limits_iff m').0 h)))

-- Whether call data is accepted does not depend on the order in which the map's entries are met.
call_data_limits_perm :
    (m m' : CallData)
    → Perm m m'
    → is_ok (validate_call_data_limits m) ≡ is_ok (validate_call_data_limits m')
call_data_limits_perm m m' p = ∥∥₁_elim p (Bool-set _ _) accepted_perm

-- What one item must be.
pub record ItemFits (item : ExecuteCallItem) : Type 0 where
  pub named : (item.function == "") ≡ false
  pub no_selector : lookup "function" item.call_data ≡ none
  pub within : IsWithinLimits item.call_data

-- The bytes of all function names and call data.
abbrev pub item_bytes_of : List ExecuteCallItem → ℕ
item_bytes_of [] = 0
item_bytes_of (item ∷ rest) = len item.function + bytes_of item.call_data + item_bytes_of rest

is_some-false : (o : Option String) → is_some o ≡ false → o ≡ none
is_some-false none h = refl
is_some-false (some s) h = cc

check_items_sound :
    (total : ℕ) (items : List ExecuteCallItem)
    → is_ok (check_items total items) ≡ true
    → total ≤ max_contract_call_items_total_bytes
    → All ItemFits items × (total + item_bytes_of items ≤ max_contract_call_items_total_bytes)
unfolding check_items
check_items_sound total [] h room = (tt, omega arith)
check_items_sound total (item ∷ rest) h room =
    let total' = total + (len item.function + call_data_total_bytes item.call_data) in
    let within = (call_data_limits_iff item.call_data).0 (ground arith) in
    let rest_fits = check_items_sound total' rest (ground arith) (ground arith) in
    (
      (
        record {
          named = ground arith;
          no_selector = is_some-false (lookup "function" item.call_data) (ground arith);
          within = within;
        },
        rest_fits.0,
      ),
      omega (arith, rest_fits.1, call_data_total_bytes-eq item.call_data),
    )

check_items_complete :
    (total : ℕ) (items : List ExecuteCallItem)
    → All ItemFits items
    → total + item_bytes_of items ≤ max_contract_call_items_total_bytes
    → is_ok (check_items total items) ≡ true
unfolding check_items
check_items_complete total [] fits room = refl
check_items_complete total (item ∷ rest) fits room =
    let bytes = call_data_total_bytes-eq item.call_data in
    ground (
      arith,
      fits.0.named,
      fits.0.no_selector,
      (call_data_limits_iff item.call_data).1 fits.0.within,
      bytes,
      check_items_complete (total + (len item.function + call_data_total_bytes item.call_data))
          rest,
    )

-- Call items are accepted exactly when there are 1 to 16 of them, each names a function, carries no
-- `function` key and keeps the limits on call data, and all names and data take at most 64 KiB.
pub call_items_limits_iff :
    (items : List ExecuteCallItem)
    → (is_ok (validate_call_items_limits items) ≡ true) ↔ (
        (1 ≤ length items)
        × (length items ≤ max_contract_call_items)
        × All ItemFits items
        × (item_bytes_of items ≤ max_contract_call_items_total_bytes))
unfolding validate_call_items_limits
call_items_limits_iff items = (
  λ h.
      let parts = check_items_sound 0 items (ground arith) (omega arith) in
      (ground arith, ground arith, parts.0, omega (arith, parts.1)),
  λ w. ground (arith, check_items_complete 0 items w.2),
)
