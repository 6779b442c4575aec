-- ===== src/Call/Items.antt =====
-- operation/contract/call_contract.go: call items, the fact of a call operation, and the bridge to the
-- legacy form in which the function's name is an entry of the call data. Addresses are their texts.
-- A hint is its text. What `BaseHinter.IsValid` answers of it, and `CheckIsValiders` on the addresses and the
-- currency and `IsValidOperationFact` of a fact, is given beside it.
pub mod Valid
pub mod Legacy
use mitum_smart_contract.Base.{
  ℕ, String, Bool, true, false, not, ◌||◌, Option, none, some, List, [], ◌∷◌, ltb, ◌==◌,
  if◌then◌else◌, length, Map, lookup, insert, Result, ok, err, done, fail_if, map_err, ◌>>=◌, ◌>>◌,
}
use mitum_smart_contract.Call.Limits.{
  CallData, ExecuteCallItem, LimitError, max_contract_call_items, validate_call_data_limits,
  validate_call_items_limits,
}

pub record CallContractItem : Type 0 where
  pub hint : String
  pub hint_is_valid : Bool
  pub function : String
  pub call_data : CallData

pub record CallContractFact : Type 0 where
  pub hint : String
  pub hint_is_valid : Bool
  pub sender : String
  pub contract : String
  pub items : List CallContractItem
  pub currency : String
  pub parts_are_valid : Bool
  pub operation_fact_is_valid : Bool

pub data FactError : Type 0 where
  bad_hint self_target empty_items too_many_items item_without_function item_with_selector :
      FactError
  bad_parts bad_operation_fact no_call_data source_too_large : FactError
  over_limits : LimitError → FactError

-- `callData["function"]`, which is "" for a missing key
abbrev pub text_or_empty : Option String → String
text_or_empty none = ""
text_or_empty (some s) = s

-- a copy of the map without the key
unfoldable pub without {ℓ} : {V : Type ℓ} → String → Map V → Map V
without k [] = []
without k ((j, v) ∷ m) = let rest = without k m in if j == k then rest else (j, v) ∷ rest

-- `CallContractItemHint`
abbrev pub call_contract_item_hint : String
call_contract_item_hint = "mitum-contract-call-item-v0.0.1"

-- `NewCallContractItem`
abbrev pub new_call_contract_item : String → CallData → CallContractItem
new_call_contract_item function call_data = record {
  hint = call_contract_item_hint;
  hint_is_valid = true;
  function = function;
  call_data = call_data;
}

-- `normalizeLegacyCallData`, which gives one item
unfoldable pub normalize_legacy_call_data : CallData → CallContractItem
normalize_legacy_call_data raw =
    new_call_contract_item (text_or_empty (lookup "function" raw)) (without "function" raw)

-- `rebuildLegacyCallData`
unfoldable pub rebuild_legacy_call_data : CallContractItem → CallData
rebuild_legacy_call_data item = insert "function" item.function item.call_data

-- `CallContractFact.CallData`
unfoldable pub fact_call_data : List CallContractItem → Option CallData
fact_call_data (item ∷ []) = some (rebuild_legacy_call_data item)
fact_call_data _ = none

abbrev has_key : Option String → Bool
has_key none = false
has_key (some v) = true

-- `CallContractItem.IsValid`
unfoldable pub item_is_valid : CallContractItem → Result FactError (Unit {0})
item_is_valid item = do
  fail_if (not item.hint_is_valid) bad_hint
  fail_if (item.function == "") item_without_function
  fail_if (has_key (lookup "function" item.call_data)) item_with_selector
  map_err over_limits (validate_call_data_limits item.call_data)

unfoldable pub items_are_valid : List CallContractItem → Result FactError (Unit {0})
items_are_valid [] = done
items_are_valid (item ∷ items) = let rest = items_are_valid items in item_is_valid item >> rest

-- `runtimeCallItems`
unfoldable pub runtime_call_items : List CallContractItem → List ExecuteCallItem
runtime_call_items [] = []
runtime_call_items (item ∷ items) =
    record { function = item.function; call_data = item.call_data } ∷ runtime_call_items items

-- the checks on the only item, in both of its forms
check_single : List CallContractItem → Result FactError (Unit {0})
check_single (item ∷ []) = do
  map_err over_limits (validate_call_data_limits item.call_data)
  map_err over_limits (validate_call_data_limits (rebuild_legacy_call_data item))
check_single _ = done

-- `CallContractFact.IsValid`
unfoldable pub call_fact_is_valid : CallContractFact → Result FactError (Unit {0})
unfolding check_single
call_fact_is_valid fact = do
  fail_if (not fact.hint_is_valid) bad_hint
  fail_if (fact.sender == fact.contract) self_target
  fail_if (ltb (length fact.items) 1) empty_items
  fail_if (ltb max_contract_call_items (length fact.items)) too_many_items
  check_single fact.items
  items_are_valid fact.items
  map_err over_limits (validate_call_items_limits (runtime_call_items fact.items))
  fail_if (not fact.parts_are_valid) bad_parts
  fail_if (not fact.operation_fact_is_valid) bad_operation_fact
