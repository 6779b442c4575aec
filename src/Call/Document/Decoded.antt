-- ===== src/Call/Document/Decoded.antt =====
-- call_contract_json.go and call_contract_bson.go: encoding a call's fact and decoding it again.
use mitum_smart_contract.Base.{
  eq_iff, eq_iff, String, none, Bool, true, false, some, List, [], ◌∷◌, ◌≡◌, refl, ◌==◌, All, ok,
  Bool-cases, inl, inr, length, ltb,
}
use mitum_smart_contract.Call.Items.{
  new_call_contract_item, new_call_contract_item, CallContractItem, CallContractFact,
  call_fact_is_valid,
}
use mitum_smart_contract.Call.Items.Valid.{
  valid_hint, IsSound, LegacyFits, valid_items, valid_forms,
}
use mitum_smart_contract.Call.Items.Legacy.{normalize-rebuild}
use mitum_smart_contract.Call.Document.{
  CallFactBson, items_field, CallFactParts, decode_call_fact_bson, call_fact_bson, bson_items_field,
  Texts, call_fact_document, item_documents, decode_call_contract_item_hint, decode_items, unpack,
  unpack_legacy, decode_call_fact,
}

-- The parser reads the item's hint as it is, and of its validity says what the item's check says.
abbrev pub IsHinted : Texts → CallContractItem → Type 0
IsHinted texts item = texts.parse_hint item.hint ≡ some (item.hint, item.hint_is_valid)

-- What a list of items comes back as: a single item is written in the legacy form, which has no hint.
abbrev pub read_back : List CallContractItem → List CallContractItem
read_back (item ∷ []) = new_call_contract_item item.function item.call_data ∷ []
read_back items = items

module _ (texts : Texts) (no_hint : texts.parse_hint "" ≡ none) where
  item_decodes :
      (item : CallContractItem)
      → IsHinted texts item
      → decode_call_contract_item_hint texts
          (record { hint = item.hint; function = item.function; call_data = item.call_data })
        ≡ ok item
  unfolding decode_call_contract_item_hint
  item_decodes item hinted = elim (Bool-cases (item.hint == "")) [
    | inl e ↦ cc (no_hint, rw ((eq_iff item.hint "").0 e) at hinted)
    | inr e ↦ rw (e, hinted) refl
  ]

  decode_items-item_documents :
      (items : List CallContractItem)
      → All (IsHinted texts) items
      → decode_items texts (item_documents texts items) ≡ ok items
  unfolding decode_items item_documents
  decode_items-item_documents [] hinted = refl
  decode_items-item_documents (item ∷ items) (first, hinted) =
      rw (item_decodes item first, decode_items-item_documents items hinted) refl

  forms_decode :
      (fact : CallContractFact) (items : List CallContractItem)
      → texts.decode_address fact.sender ≡ some fact.sender
      → texts.decode_address fact.contract ≡ some fact.contract
      → fact.items ≡ items
      → ltb (length items) 1 ≡ false
      → All (IsHinted texts) items
      → All IsSound items
      → LegacyFits items
      → decode_call_fact texts (call_fact_document texts fact)
        ≡ ok (record {
          sender = fact.sender;
          contract = fact.contract;
          items = read_back items;
          currency = fact.currency;
        })
  unfolding decode_call_fact call_fact_document unpack unpack_legacy
  forms_decode fact [] da db same some_items hinted sound fits = cc some_items
  forms_decode fact (item ∷ []) da db same some_items hinted ((valid, absent), x) fits =
      rw (same, fits, da, db, normalize-rebuild item absent) refl
  forms_decode fact (item ∷ item2 ∷ items) da db same some_items hinted sound fits =
      rw (same, decode_items-item_documents (item ∷ item2 ∷ items) hinted, da, db) refl

module _ (texts : Texts) where
  bson_items_field_lem :
      (items : List CallContractItem)
      → ltb (length items) 1 ≡ false
      → bson_items_field texts items ≡ items_field texts items
  bson_items_field_lem [] some_items = cc some_items
  bson_items_field_lem (item ∷ []) some_items = refl
  bson_items_field_lem (item ∷ item2 ∷ items) some_items = refl

  -- the BSON document holds the JSON document
  call_fact_bson_lem :
      (fact : CallContractFact)
      → ltb (length fact.items) 1 ≡ false
      → call_fact_bson texts fact
        ≡ record { hint = fact.hint; document = call_fact_document texts fact }
  unfolding call_fact_bson call_fact_document
  call_fact_bson_lem fact some_items = rw (bson_items_field_lem fact.items some_items) refl

  bson_decodes :
      (bson : CallFactBson) (h : String × Bool) (parts : CallFactParts)
      → texts.parse_fact_hint bson.hint ≡ some h
      → decode_call_fact texts bson.document ≡ ok parts
      → decode_call_fact_bson texts bson ≡ ok (h, parts)
  unfolding decode_call_fact decode_call_fact_bson
  bson_decodes bson h parts hint read = rw (hint, read) refl

-- What a decoded call is expected to hold.
abbrev pub parts_of : CallContractFact → CallFactParts
parts_of fact = record {
  sender = fact.sender;
  contract = fact.contract;
  items = read_back fact.items;
  currency = fact.currency;
}

-- The JSON document and the BSON document of a call's fact that is valid decode, without a refusal by the
-- limits on legacy call data, to the fact's sender, contract, currency and items, and the BSON document to
-- its hint. Of a single item the function and the call data come back, and its hint is the hint of a new
-- item whatever it was; several items come back with their hints. The fact's addresses decode to
-- themselves, its hint and those of its items parse as themselves with the validity that its checks
-- found, and the empty text is no hint.
pub decode-call_fact_document :
    (texts : Texts) (fact : CallContractFact) (u : Unit {0})
    → texts.parse_hint "" ≡ none
    → All (IsHinted texts) fact.items
    → texts.parse_fact_hint fact.hint ≡ some (fact.hint, fact.hint_is_valid)
    → texts.decode_address fact.sender ≡ some fact.sender
    → texts.decode_address fact.contract ≡ some fact.contract
    → call_fact_is_valid fact ≡ ok u
    → (decode_call_fact texts (call_fact_document texts fact) ≡ ok (parts_of fact))
      × (decode_call_fact_bson texts (call_fact_bson texts fact)
          ≡ ok ((fact.hint, true), parts_of fact))
decode-call_fact_document texts fact u no_hint hinted fact_hint da db valid =
    let (sound, fits) = valid_forms fact u valid in
    let some_items = (valid_items fact u valid).0 in
    let json = forms_decode texts no_hint fact fact.items da db refl some_items hinted sound fits in
    (
      json,
      rw (call_fact_bson_lem texts fact some_items) (
          bson_decodes texts _ (fact.hint, true) (parts_of fact)
            (rw (valid_hint fact u valid) at fact_hint) json),
    )
