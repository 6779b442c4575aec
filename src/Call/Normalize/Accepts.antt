-- ===== src/Call/Normalize/Accepts.antt =====
-- Which requests the normalization takes.
use mitum_smart_contract.Base.{true, none, List, ◌≡◌, refl, ltb, length, ok}
use mitum_smart_contract.Call.Limits.{ExecuteCallItem, validate_call_items_limits}
use mitum_smart_contract.Call.Normalize.{
  InvocationMode, ExecuteRequest, call_request, normalize_execute_request, normalize_by_mode,
  normalize_call, normalize_execute_call_items, choose_items,
}

-- a call in items alone, within the limits, is taken as it is
pub normalize-items :
    (req : ExecuteRequest) (items : List ExecuteCallItem)
    → req.mode ≡ InvocationMode.call
    → req.call_items ≡ items
    → req.function ≡ ""
    → req.call_data ≡ none
    → ltb 0 (length items) ≡ true
    → validate_call_items_limits items ≡ ok tt
    → normalize_execute_request req ≡ ok (call_request items)
unfolding normalize_execute_request normalize_by_mode normalize_call normalize_execute_call_items
    choose_items
normalize-items req items mode same no_function no_data long fits =
    simp (mode, same, no_function, no_data, long, fits) refl
