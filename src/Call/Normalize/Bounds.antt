-- ===== src/Call/Normalize/Bounds.antt =====
-- gno_engine.go: the sizes of what the engine runs after normalization.
use mathlib.Core.Path.{subst}
use mitum_smart_contract.Base.{
  map_err-eq-ok, fail_if-not-eq-ok, ap, is_ok, ◌≤◌, not, ◌&&◌, List, ◌≡◌, eq_iff, ltb, ◌==◌, length,
  All, ok, is_ok, fail_if, map_err, ◌>>◌, >>=-eq-ok,
}
use mitum_smart_contract.Call.Limits.{
  ExecuteCallItem, max_contract_call_items, max_contract_call_items_total_bytes,
  validate_call_data_limits, validate_call_items_limits,
}
use mitum_smart_contract.Call.Limits.Decides.{
  IsWithinLimits, ItemFits, item_bytes_of, call_data_limits_iff, call_items_limits_iff,
}
use mitum_smart_contract.Call.Normalize.{
  InvocationMode, ExecuteRequest, NormalizedRequest, register_request, call_request, RequestError,
  over_limits, not_initialize, has_legacy, or_empty, or_else, initialize_by_default, choose_items,
  normalize_execute_call_items, normalize_register, normalize_call, normalize_by_mode,
  normalize_execute_request,
}

-- Between 1 and 16 items, each with a function name, no selector entry and bounded data, of at most
-- 64 KiB together.
abbrev pub IsBoundedBatch : List ExecuteCallItem → Type 0
IsBoundedBatch items =
    (1 ≤ length items)
    × (length items ≤ max_contract_call_items)
    × All ItemFits items
    × (item_bytes_of items ≤ max_contract_call_items_total_bytes)

abbrev pub IsBounded : NormalizedRequest → Type 0
IsBounded (register_request function init_data) =
    (function ≡ "Initialize") × IsWithinLimits init_data
IsBounded (call_request items) = IsBoundedBatch items

items_bounded :
    (req : ExecuteRequest) (items : List ExecuteCallItem)
    → normalize_execute_call_items req ≡ ok items
    → IsBoundedBatch items
unfolding normalize_execute_call_items
items_bounded req items h =
    let (u, one_form, h1) =
      >>=-eq-ok (fail_if (ltb 0 (length req.call_items) && has_legacy req) RequestError.both_forms)
        _ h in
    let (chosen, e, h2) = >>=-eq-ok (choose_items req) _ h1 in
    let (u', valid, h3) =
      >>=-eq-ok (map_err over_limits (validate_call_items_limits chosen)) _ h2 in
    let same : chosen ≡ items = cc h3 in
    (call_items_limits_iff items).0 (
      rw same at
        (ap is_ok (map_err-eq-ok over_limits (validate_call_items_limits chosen) u' valid)))

call-IsBounded :
    (req : ExecuteRequest) (n : NormalizedRequest) → normalize_call req ≡ ok n → IsBounded n
unfolding normalize_call
call-IsBounded req n h =
    let (items, e, h1) =
      >>=-eq-ok (normalize_execute_call_items req) (λ x. ok (call_request x)) h in
    let same : call_request items ≡ n = cc h1 in subst IsBounded same (items_bounded req items e)

register-IsBounded :
    (req : ExecuteRequest) (n : NormalizedRequest) → normalize_register req ≡ ok n → IsBounded n
unfolding normalize_register
register-IsBounded req n h =
    let init_data = or_empty (or_else req.init_data req.call_data) in
    let function = initialize_by_default req.function in
    let (u, e, h1) =
      >>=-eq-ok
        (map_err over_limits (validate_call_data_limits init_data)
          >> fail_if (not (function == "Initialize")) (not_initialize function))
        _ h in
    let (v, valid, h2) =
      >>=-eq-ok (map_err over_limits (validate_call_data_limits init_data)) _ e in
    let named = fail_if-not-eq-ok (function == "Initialize") _ _ h2 in
    let fits =
      (call_data_limits_iff init_data).0
        (ap is_ok (map_err-eq-ok over_limits (validate_call_data_limits init_data) v valid)) in
    let same : register_request function init_data ≡ n = cc h1 in
    subst IsBounded same ((eq_iff function "Initialize").0 named, fits)

by_mode-IsBounded :
    (m : InvocationMode) (req : ExecuteRequest) (n : NormalizedRequest)
    → normalize_by_mode m req ≡ ok n
    → IsBounded n
unfolding normalize_by_mode
by_mode-IsBounded InvocationMode.register req n h = register-IsBounded req n h
by_mode-IsBounded InvocationMode.call req n h = call-IsBounded req n h
by_mode-IsBounded InvocationMode.blank req n h = call-IsBounded req n h
by_mode-IsBounded (InvocationMode.other m) req n h = cc

-- Whatever request is normalized, what comes out is either an `Initialize` with data within the limits,
-- or a batch of 1 to 16 items that name functions, carry no selector and keep the limits.
pub normalize_bounds :
    (req : ExecuteRequest) (n : NormalizedRequest)
    → normalize_execute_request req ≡ ok n
    → IsBounded n
unfolding normalize_execute_request
normalize_bounds req n h = by_mode-IsBounded req.mode req n h
