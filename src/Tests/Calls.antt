-- ===== src/Tests/Calls.antt =====
-- The theorems on call data and call items, applied to small data.
use mitum_smart_contract.Base.{
  Bool, Option, not, String, ok, none, ◌≤◌, true, some, List, [], ◌∷◌, ◌≡◌, ◌↔◌, refl, All, lookup,
  length, is_ok, ◌==◌, if◌then◌else◌,
}
use mitum_smart_contract.Call.Limits.{
  call_data_total_bytes, CallData, ExecuteCallItem, validate_call_data_limits,
  validate_call_items_limits, max_contract_call_items, max_contract_call_items_total_bytes,
}
use mitum_smart_contract.Call.Limits.Decides.{
  IsWithinLimits, ItemFits, item_bytes_of, call_data_limits_iff, call_items_limits_iff,
}
use mitum_smart_contract.Call.Items.{
  rebuild_legacy_call_data, normalize_legacy_call_data, text_or_empty,
}
use mitum_smart_contract.Call.Document.Accepted.{decoded_legacy}
use mitum_smart_contract.Call.Document.{CallFactDocument, CallFactParts, unpack, unpack_legacy}
use mitum_smart_contract.Call.Items.{
  CallContractItem, without, new_call_contract_item, call_contract_item_hint,
}
use mitum_smart_contract.Call.Items.{
  CallContractFact, call_fact_is_valid, items_are_valid, item_is_valid, runtime_call_items,
}
use mitum_smart_contract.Call.Document.{
  Texts, call_fact_document, decode_call_fact, call_fact_bson, decode_call_fact_bson,
}
use mitum_smart_contract.Call.Document.Decoded.{parts_of, decode-call_fact_document}
use mitum_smart_contract.Tests.Sample.{sample_item, sample_call}

abbrev two_entries : CallData
two_entries = ("a", "1") ∷ ("b", "2") ∷ []

call_data_limits_iff_example :
    (is_ok (validate_call_data_limits two_entries) ≡ true) ↔ IsWithinLimits two_entries
call_data_limits_iff_example = call_data_limits_iff two_entries

abbrev one_item : List ExecuteCallItem
one_item = record { function = "Set"; call_data = two_entries } ∷ []

call_items_limits_iff_example : (is_ok (validate_call_items_limits one_item) ≡ true) ↔ (
    (1 ≤ length one_item)
    × (length one_item ≤ max_contract_call_items)
    × All ItemFits one_item
    × (item_bytes_of one_item ≤ max_contract_call_items_total_bytes))
call_items_limits_iff_example = call_items_limits_iff one_item

-- a call of one item, with the hint of a later version
abbrev single_call : CallContractFact
single_call = record sample_call {
  items = record sample_item { hint = "mitum-contract-call-item-v0.0.2" } ∷ [];
}

abbrev hint_of : String → Option (String × Bool)
hint_of s = if s == "" then none else some (s, true)

abbrev texts : Texts
texts = record {
  parse_hint = hint_of;
  parse_fact_hint = hint_of;
  decode_address = λ s. if s == "" then none else some s;
}

single_call_is_valid : call_fact_is_valid single_call ≡ ok tt
unfolding call_fact_is_valid items_are_valid item_is_valid runtime_call_items
    validate_call_data_limits validate_call_items_limits rebuild_legacy_call_data
    call_data_total_bytes
single_call_is_valid = refl

decode-call_fact_document_example :
    (decode_call_fact texts (call_fact_document texts single_call) ≡ ok (parts_of single_call))
    × (decode_call_fact_bson texts (call_fact_bson texts single_call)
        ≡ ok ((single_call.hint, true), parts_of single_call))
decode-call_fact_document_example =
    decode-call_fact_document texts single_call tt refl (refl, tt) refl refl refl
      single_call_is_valid

abbrev legacy_data : CallData
legacy_data = ("a", "1") ∷ ("function", "Set") ∷ []

abbrev legacy_document : CallFactDocument
legacy_document = record {
  sender = "S";
  contract = "C";
  call_data = some (ok legacy_data);
  items = none;
  currency = "MCC";
}

abbrev legacy_parts : CallFactParts
legacy_parts = record {
  sender = "S";
  contract = "C";
  items = new_call_contract_item "Set" (("a", "1") ∷ []) ∷ [];
  currency = "MCC";
}

legacy_decodes : decode_call_fact texts legacy_document ≡ ok legacy_parts
unfolding decode_call_fact unpack_legacy unpack validate_call_data_limits normalize_legacy_call_data
    without
legacy_decodes = refl

decoded_legacy_example :
    (item : CallContractItem) × (legacy_parts.items ≡ item ∷ [])
    × (item.hint ≡ call_contract_item_hint)
    × (is_ok (item_is_valid item) ≡ not (text_or_empty (lookup "function" legacy_data) == ""))
    × ((key : String)
        → lookup key (rebuild_legacy_call_data item) ≡ (
            if "function" == key
            then some (text_or_empty (lookup "function" legacy_data))
            else lookup key legacy_data))
decoded_legacy_example =
    decoded_legacy texts legacy_document legacy_data legacy_parts refl refl legacy_decodes
