-- ===== src/Call/Items/Legacy.antt =====
-- call_contract.go: `rebuildLegacyCallData` and `normalizeLegacyCallData`, and maps under them.
use mitum_smart_contract.Base.{
  String, none, some, [], ◌∷◌, ◌≡◌, refl, arith, eq_iff, ◌==◌, if◌then◌else◌, Map, lookup, insert,
}
use mitum_smart_contract.Call.Limits.{CallData}
use mitum_smart_contract.Call.Items.{
  new_call_contract_item, CallContractItem, text_or_empty, without, normalize_legacy_call_data,
  rebuild_legacy_call_data,
}

module _ {ℓ} {V : Type ℓ} where
  lookup-insert :
      (k j : String) (v : V) (m : Map V)
      → lookup j (insert k v m) ≡ (if k == j then some v else lookup j m)
  lookup-insert k j v [] = refl
  lookup-insert k j v ((i, w) ∷ m) =
      ground (arith, eq_iff k j, eq_iff i k, eq_iff i j, lookup-insert k j v m)

  pub lookup-without :
      (k j : String) (m : Map V) → lookup j (without k m) ≡ (if k == j then none else lookup j m)
  unfolding without
  lookup-without k j [] = ground arith
  lookup-without k j ((i, w) ∷ m) =
      ground (arith, lookup-without k j m, eq_iff i k, eq_iff i j, eq_iff k j)

  without_absent : (k : String) (m : Map V) → lookup k m ≡ none → without k m ≡ m
  unfolding without
  without_absent k [] h = refl
  without_absent k ((i, w) ∷ m) h = ground (arith, without_absent k m)

  without-insert :
      (k : String) (v : V) (m : Map V) → lookup k m ≡ none → without k (insert k v m) ≡ m
  unfolding without
  without-insert k v [] h = ground (arith, eq_iff k k)
  without-insert k v ((i, w) ∷ m) h = ground (arith, without-insert k v m)

-- Turning legacy call data into an item and back keeps every entry, and gives an empty function name
-- where the legacy data had none.
pub rebuild-normalize :
    (raw : CallData) (key : String)
    → lookup key (rebuild_legacy_call_data (normalize_legacy_call_data raw))
      ≡ (if "function" == key then some (text_or_empty (lookup "function" raw)) else lookup key raw)
unfolding rebuild_legacy_call_data normalize_legacy_call_data
rebuild-normalize raw key = simp (lookup-insert, lookup-without) (ground arith)

-- Turning an item into legacy call data and back gives a new item of the same function and call data, if
-- the call data has no entry for the function.
pub normalize-rebuild :
    (item : CallContractItem)
    → lookup "function" item.call_data ≡ none
    → normalize_legacy_call_data (rebuild_legacy_call_data item)
      ≡ new_call_contract_item item.function item.call_data
unfolding rebuild_legacy_call_data normalize_legacy_call_data
normalize-rebuild item absent = simp (lookup-insert, without-insert, absent) refl
