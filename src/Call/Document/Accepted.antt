-- ===== src/Call/Document/Accepted.antt =====
-- call_contract_encode.go: decoding a call's fact from call data in the legacy form.
use mitum_smart_contract.Base.{
  map_err-eq-ok, ap, is_ok-Returns, String, not, none, some, [], ◌∷◌, ◌≡◌, ◌≤◌, refl, sym, arith,
  ◌==◌, if◌then◌else◌, All, ok, map_err, Bool-cases, inl, inr, length, is_ok, lookup, >>-eq-ok,
  >>=-eq-ok,
}
use mitum_smart_contract.Call.Limits.{CallData, validate_call_data_limits}
use mitum_smart_contract.Call.Limits.Decides.{
  bytes_of, EntryFits, IsWithinLimits, call_data_limits_iff,
}
use mitum_smart_contract.Call.Items.{
  call_contract_item_hint, CallContractItem, without, text_or_empty, rebuild_legacy_call_data,
  normalize_legacy_call_data, item_is_valid,
}
use mitum_smart_contract.Call.Items.Legacy.{rebuild-normalize, lookup-without}
use mitum_smart_contract.Call.Document.{
  over_limits, Texts, CallFactDocument, CallFactParts, unpack, unpack_legacy, decode_call_fact,
  decoded_address,
}

length-without : (k : String) (m : CallData) → length (without k m) ≤ length m
unfolding without
length-without k [] = omega arith
length-without k ((j, v) ∷ m) = ground (arith, length-without k m)

bytes_of-without : (k : String) (m : CallData) → bytes_of (without k m) ≤ bytes_of m
unfolding without
bytes_of-without k [] = omega arith
bytes_of-without k ((j, v) ∷ m) = ground (arith, bytes_of-without k m)

entries-without : (k : String) (m : CallData) → All EntryFits m → All EntryFits (without k m)
unfolding without
entries-without k [] fits = tt
entries-without k ((j, v) ∷ m) (first, fits) = elim (Bool-cases (j == k)) [
  | inl e ↦ rw e (entries-without k m fits)
  | inr e ↦ rw e (first, entries-without k m fits)
]

limits-without :
    (k : String) (m : CallData)
    → validate_call_data_limits m ≡ ok tt
    → validate_call_data_limits (without k m) ≡ ok tt
limits-without k m h =
    let w = (call_data_limits_iff m).0 (rw h refl) in
    let fewer : IsWithinLimits (without k m) = record {
      few = omega (arith, length-without k m, w.few);
      entries = entries-without k m w.entries;
      small = omega (arith, bytes_of-without k m, w.small);
    } in
    let (u, e) =
      is_ok-Returns (validate_call_data_limits (without k m))
        ((call_data_limits_iff (without k m)).1 fewer) in
    e

-- the item that call data in the legacy form stands for: its checks look at its function alone
legacy_item :
    (raw : CallData)
    → validate_call_data_limits raw ≡ ok tt
    → is_ok (item_is_valid (normalize_legacy_call_data raw))
      ≡ not (text_or_empty (lookup "function" raw) == "")
unfolding item_is_valid normalize_legacy_call_data
legacy_item raw fits = elim (Bool-cases (text_or_empty (lookup "function" raw) == "")) [
  | inl e ↦ rw e refl
  | inr e ↦
      rw (e, lookup-without "function" "function" raw, limits-without "function" raw fits) refl
]

-- A call that is decoded from call data in the legacy form has one item, the hint of which is that of a
-- new item. The item passes its own checks exactly when the call data names a function that is not
-- empty; and the item's legacy form has the entries of that call data and no others, with an empty
-- function name where it had none.
pub decoded_legacy :
    (texts : Texts) (doc : CallFactDocument) (raw : CallData) (parts : CallFactParts)
    → doc.call_data ≡ some (ok raw)
    → doc.items ≡ none
    → decode_call_fact texts doc ≡ ok parts
    → (item : CallContractItem) × (parts.items ≡ item ∷ [])
      × (item.hint ≡ call_contract_item_hint)
      × (is_ok (item_is_valid item) ≡ not (text_or_empty (lookup "function" raw) == ""))
      × ((key : String)
          → lookup key (rebuild_legacy_call_data item) ≡ (
              if "function" == key
              then some (text_or_empty (lookup "function" raw))
              else lookup key raw))
unfolding decode_call_fact unpack_legacy unpack normalize_legacy_call_data
decoded_legacy texts doc raw parts written alone h =
    let (fits, h1) =
      >>-eq-ok (map_err over_limits (validate_call_data_limits raw)) _ (rw (written, alone) at h) in
    let (sender, _, h2) =
      >>=-eq-ok (decoded_address texts doc.sender (texts.decode_address doc.sender)) _ h1 in
    let (contract, _, h3) =
      >>=-eq-ok (decoded_address texts doc.contract (texts.decode_address doc.contract)) _ h2 in
    let decoded : record {
      sender = sender;
      contract = contract;
      items = normalize_legacy_call_data raw ∷ [];
      currency = doc.currency;
    }
        ≡ parts =
      cc h3 in
    let same : parts.items ≡ normalize_legacy_call_data raw ∷ [] =
      ap (λ (p : CallFactParts). p.items) (sym decoded) in
    (
      normalize_legacy_call_data raw,
      same,
      refl,
      legacy_item raw (map_err-eq-ok over_limits (validate_call_data_limits raw) tt fits),
      rebuild-normalize raw,
    )
