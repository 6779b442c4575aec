-- ===== src/Call/Normalize.antt =====
-- operation/contract/runtime/engine.go and gno_engine.go: execution requests and their normal form.
-- Heights and times are natural numbers here.
pub mod Accepts
pub mod Bounds
use mitum_smart_contract.Base.{
  ℕ, String, Bool, true, false, not, ◌&&◌, ◌||◌, Option, none, some, List, [], ◌∷◌, ltb, ◌==◌,
  if◌then◌else◌, length, Result, ok, err, done, fail_if, map_err, ◌>>=◌, ◌>>◌,
}
use mitum_smart_contract.Schema.TypeRef.{ContractSchema}
use mitum_smart_contract.Call.Limits.{
  CallData, ExecuteCallItem, LimitError, validate_call_data_limits, validate_call_items_limits,
}

-- Go's `InvocationMode` is a string: "register", "call", "" or any other text.
pub data InvocationMode : Type 0 where
  register call blank : InvocationMode
  other : String → InvocationMode

-- A nil map is `none`.
pub record ExecuteRequest : Type 0 where
  pub mode : InvocationMode
  pub contract : String
  pub sender : String
  pub height : ℕ
  pub block_time : ℕ
  pub contract_code : String
  pub schema : Option ContractSchema
  pub function : String
  pub call_data : Option CallData
  pub call_items : List ExecuteCallItem
  pub init_data : Option CallData

pub data NormalizedRequest : Type 0 where
  register_request : String → CallData → NormalizedRequest
  call_request : List ExecuteCallItem → NormalizedRequest

pub data RequestError : Type 0 where
  over_limits : LimitError → RequestError
  not_initialize : String → RequestError
  both_forms : RequestError
  unsupported_mode : String → RequestError

-- ranging over a nil map, or copying one, meets no entry
abbrev pub or_empty : Option CallData → CallData
or_empty none = []
or_empty (some m) = m

abbrev pub is_present : Option CallData → Bool
is_present none = false
is_present (some m) = true

abbrev pub or_else : Option CallData → Option CallData → Option CallData
or_else none b = b
or_else (some m) b = some m

abbrev pub has_legacy : ExecuteRequest → Bool
has_legacy req = not (req.function == "") || is_present req.call_data

legacy_items : ExecuteRequest → Result RequestError (List ExecuteCallItem)
legacy_items req =
    map_err over_limits (validate_call_data_limits (or_empty req.call_data))
    >> ok (record { function = req.function; call_data = or_empty req.call_data } ∷ [])

-- the `switch` of `normalizeExecuteCallItems`
choose_items : ExecuteRequest → Result RequestError (List ExecuteCallItem)
unfolding legacy_items
choose_items req =
    if ltb 0 (length req.call_items)
    then ok req.call_items
    else if has_legacy req
    then legacy_items req
    else ok []

-- `normalizeExecuteCallItems`
unfoldable pub normalize_execute_call_items :
    ExecuteRequest → Result RequestError (List ExecuteCallItem)
unfolding choose_items
normalize_execute_call_items req = do
  fail_if (ltb 0 (length req.call_items) && has_legacy req) both_forms
  items ← choose_items req
  map_err over_limits (validate_call_items_limits items)
  ok items

abbrev pub initialize_by_default : String → String
initialize_by_default function = if function == "" then "Initialize" else function

normalize_register : ExecuteRequest → Result RequestError NormalizedRequest
normalize_register req =
    let init_data = or_empty (or_else req.init_data req.call_data) in
    let function = initialize_by_default req.function in
    map_err over_limits (validate_call_data_limits init_data)
    >> fail_if (not (function == "Initialize")) (not_initialize function)
    >> ok (register_request function init_data)

normalize_call : ExecuteRequest → Result RequestError NormalizedRequest
normalize_call req = do items ← normalize_execute_call_items req; ok (call_request items)

normalize_by_mode : InvocationMode → ExecuteRequest → Result RequestError NormalizedRequest
unfolding normalize_register normalize_call
normalize_by_mode register req = normalize_register req
normalize_by_mode call req = normalize_call req
normalize_by_mode blank req = normalize_call req
normalize_by_mode (other m) req = err (unsupported_mode m)

-- `normalizeExecuteRequest`
unfoldable pub normalize_execute_request : ExecuteRequest → Result RequestError NormalizedRequest
unfolding normalize_by_mode
normalize_execute_request req = normalize_by_mode req.mode req
