-- ===== src/Call/Items/Valid.antt =====
-- What the check of a call's fact establishes for the items it hands to the engine.
use mitum_smart_contract.Base.{
  inr, inl, Option-cases, fail_if-not-eq-ok, none, >>-eq-ok, lookup, All, true, map_err-eq-ok,
  fail_if-eq-ok, suc, false, not, List, [], ◌∷◌, ◌≡◌, refl, ap, ltb, ◌==◌, length, ok, fail_if,
  map_err, >>=-eq-ok,
}
use mitum_smart_contract.Call.Limits.{validate_call_items_limits, max_contract_call_items}
use mitum_smart_contract.Call.Items.{
  item_with_selector, has_key, item_without_function, rebuild_legacy_call_data, item_is_valid,
  validate_call_data_limits, CallContractItem, CallContractFact, over_limits, call_fact_is_valid,
  runtime_call_items, check_single, items_are_valid, bad_hint, self_target, empty_items,
  too_many_items,
}

pub length-runtime_call_items :
    (items : List CallContractItem) → length (runtime_call_items items) ≡ length items
unfolding runtime_call_items
length-runtime_call_items [] = refl
length-runtime_call_items (x ∷ xs) = ap suc (length-runtime_call_items xs)

-- the checks of a fact on its items
fact_checks :
    (fact : CallContractFact) (u : Unit {0})
    → call_fact_is_valid fact ≡ ok u
    → (ltb (length fact.items) 1 ≡ false)
      × (check_single fact.items ≡ ok tt)
      × (items_are_valid fact.items ≡ ok tt)
      × (validate_call_items_limits (runtime_call_items fact.items) ≡ ok tt)
unfolding call_fact_is_valid
fact_checks fact u h =
    let (a, e, h1) = >>=-eq-ok (fail_if (not fact.hint_is_valid) bad_hint) _ h in
    let (b, e1, h2) = >>=-eq-ok (fail_if (fact.sender == fact.contract) self_target) _ h1 in
    let (c, e2, h3) = >>=-eq-ok (fail_if (ltb (length fact.items) 1) empty_items) _ h2 in
    let (d, e3, h4) =
      >>=-eq-ok (fail_if (ltb max_contract_call_items (length fact.items)) too_many_items) _ h3 in
    let (f, e4, h5) = >>=-eq-ok (check_single fact.items) _ h4 in
    let (g, e5, h6) = >>=-eq-ok (items_are_valid fact.items) _ h5 in
    let (k, e6, h7) =
      >>=-eq-ok (map_err over_limits (validate_call_items_limits (runtime_call_items fact.items))) _
        h6 in
    (
      fail_if-eq-ok _ _ c e2,
      e4,
      e5,
      map_err-eq-ok over_limits (validate_call_items_limits (runtime_call_items fact.items)) k e6,
    )

-- the items are some, and within the engine's limits
pub valid_items :
    (fact : CallContractFact) (u : Unit {0})
    → call_fact_is_valid fact ≡ ok u
    → (ltb (length fact.items) 1 ≡ false)
      × (validate_call_items_limits (runtime_call_items fact.items) ≡ ok tt)
valid_items fact u h =
    let (some_items, single, valid, fits) = fact_checks fact u h in (some_items, fits)

-- the hint is valid and the call data has no entry for the function
abbrev pub IsSound : CallContractItem → Type 0
IsSound item = (item.hint_is_valid ≡ true) × (lookup "function" item.call_data ≡ none)

-- Where there is one item, its legacy form is within the limits.
abbrev pub LegacyFits : List CallContractItem → Type 0
LegacyFits (item ∷ []) = validate_call_data_limits (rebuild_legacy_call_data item) ≡ ok tt
LegacyFits _ = Unit {0}

item-IsSound : (item : CallContractItem) (u : Unit {0}) → item_is_valid item ≡ ok u → IsSound item
unfolding item_is_valid
item-IsSound item u h =
    let (a, e, h1) = >>=-eq-ok (fail_if (not item.hint_is_valid) bad_hint) _ h in
    let (b, e1, h2) = >>=-eq-ok (fail_if (item.function == "") item_without_function) _ h1 in
    let (c, e2, h3) =
      >>=-eq-ok (fail_if (has_key (lookup "function" item.call_data)) item_with_selector) _ h2 in
    (
      fail_if-not-eq-ok item.hint_is_valid _ a e,
      elim (Option-cases (lookup "function" item.call_data)) [
        | inl absent ↦ absent
        | inr (v, found) ↦ cc (rw found at e2)
      ],
    )

items-IsSound :
    (items : List CallContractItem) (u : Unit {0})
    → items_are_valid items ≡ ok u
    → All IsSound items
unfolding items_are_valid
items-IsSound [] u h = tt
items-IsSound (item ∷ items) u h =
    let (e, h1) = >>-eq-ok (item_is_valid item) (items_are_valid items) h in
    (item-IsSound item tt e, items-IsSound items u h1)

single-LegacyFits :
    (items : List CallContractItem) (u : Unit {0}) → check_single items ≡ ok u → LegacyFits items
unfolding check_single
single-LegacyFits [] u h = tt
single-LegacyFits (item ∷ item2 ∷ items) u h = tt
single-LegacyFits (item ∷ []) u h =
    let (a, e, h1) =
      >>=-eq-ok (map_err over_limits (validate_call_data_limits item.call_data)) _ h in
    map_err-eq-ok over_limits _ u h1

-- the items can be told from their forms in a document
pub valid_forms :
    (fact : CallContractFact) (u : Unit {0})
    → call_fact_is_valid fact ≡ ok u
    → All IsSound fact.items × LegacyFits fact.items
valid_forms fact u h =
    let (some_items, single, valid, fits) = fact_checks fact u h in
    (items-IsSound fact.items tt valid, single-LegacyFits fact.items tt single)

pub valid_hint :
    (fact : CallContractFact) (u : Unit {0})
    → call_fact_is_valid fact ≡ ok u
    → fact.hint_is_valid ≡ true
unfolding call_fact_is_valid
valid_hint fact u h =
    let (a, e, h1) = >>=-eq-ok (fail_if (not fact.hint_is_valid) bad_hint) _ h in
    fail_if-not-eq-ok fact.hint_is_valid _ a e
