-- ===== src/Call/Limits.antt =====
-- operation/contract/runtime/call_data_limits.go. A Go map is the list of its entries in the order in
-- which `range` meets them, which Go does not fix. Sizes are in bytes, and stay far below 2 ^ 63, since
-- each sum is tested before the next entry is added.
pub mod Decides
use mitum_smart_contract.Base.{
  ℕ, suc, ◌+◌, ◌*◌, ◌<◌, String, len, Bool, true, false, Option, none, some, List, [], ◌∷◌, ltb,
  ◌==◌, if◌then◌else◌, length, Map, lookup, Result, ok, err, done, fail_if, map_err, ◌>>=◌, ◌>>◌,
}

abbrev pub max_contract_call_data_entries : ℕ
max_contract_call_data_entries = 64

abbrev pub max_contract_call_data_key_bytes : ℕ
max_contract_call_data_key_bytes = 128

abbrev pub max_contract_call_data_value_bytes : ℕ
max_contract_call_data_value_bytes = 16 * 1024

abbrev pub max_contract_call_data_total_bytes : ℕ
max_contract_call_data_total_bytes = 64 * 1024

abbrev pub max_contract_call_items : ℕ
max_contract_call_items = 16

abbrev pub max_contract_call_items_total_bytes : ℕ
max_contract_call_items_total_bytes = 64 * 1024

abbrev pub CallData : Type 0
CallData = Map String

pub record ExecuteCallItem : Type 0 where
  pub function : String
  pub call_data : CallData

pub data LimitError : Type 0 where
  too_many_entries key_too_long total_too_long : ℕ → LimitError
  value_too_long : String → ℕ → LimitError
  no_items : LimitError
  too_many_items items_too_long : ℕ → LimitError
  empty_function selector_key : LimitError

-- the loop of `ValidateContractCallDataLimits`, with the total so far
check_entries : ℕ → CallData → Result LimitError (Unit {0})
check_entries total [] = done
check_entries total ((key, value) ∷ rest) =
    let after = check_entries (total + (len key + len value)) rest in
    if ltb max_contract_call_data_key_bytes (len key)
    then err (key_too_long (len key))
    else if ltb max_contract_call_data_value_bytes (len value)
    then err (value_too_long key (len value))
    else if ltb max_contract_call_data_total_bytes (total + (len key + len value))
    then err (total_too_long (total + (len key + len value)))
    else after

-- `ValidateContractCallDataLimits`
unfoldable pub validate_call_data_limits : CallData → Result LimitError (Unit {0})
unfolding check_entries
validate_call_data_limits call_data =
    if ltb max_contract_call_data_entries (length call_data)
    then err (too_many_entries (length call_data))
    else check_entries 0 call_data

-- `ContractCallDataTotalBytes`
total_from : ℕ → CallData → ℕ
total_from total [] = total
total_from total ((key, value) ∷ rest) = total_from (total + (len key + len value)) rest

unfoldable pub call_data_total_bytes : CallData → ℕ
unfolding total_from
call_data_total_bytes call_data = total_from 0 call_data

abbrev is_some {ℓ} : {A : Type ℓ} → Option A → Bool
is_some none = false
is_some (some a) = true

-- the loop of `ValidateContractCallItemsLimits`, with the total so far
check_items : ℕ → List ExecuteCallItem → Result LimitError (Unit {0})
check_items total [] = done
check_items total (item ∷ rest) =
    let total' = total + (len item.function + call_data_total_bytes item.call_data) in
    let after = check_items total' rest in
    if item.function == ""
    then err empty_function
    else if is_some (lookup "function" item.call_data)
    then err selector_key
    else validate_call_data_limits item.call_data
      >> (if ltb max_contract_call_items_total_bytes total'
          then err (items_too_long total')
          else after)

-- `ValidateContractCallItemsLimits`
unfoldable pub validate_call_items_limits : List ExecuteCallItem → Result LimitError (Unit {0})
unfolding check_items
validate_call_items_limits items =
    if ltb (length items) 1
    then err no_items
    else if ltb max_contract_call_items (length items)
    then err (too_many_items (length items))
    else check_items 0 items
