-- ===== src/Call/Document.antt =====
-- operation/contract/call_contract_json.go, call_contract_bson.go and call_contract_encode.go: the JSON and
-- the BSON document of a call's fact.
-- A fact with one item is written in the legacy form. What the document holds of `BaseFact`, and the step
-- between the document and its bytes, are left out.
pub mod Decoded
pub mod Accepted
use mitum_smart_contract.Base.{
  String, Bool, true, Option, none, some, List, [], ◌∷◌, ◌==◌, if◌then◌else◌, Result, ok, err,
  map_err, ◌>>=◌, ◌>>◌,
}
use mitum_smart_contract.Call.Limits.{CallData, LimitError, validate_call_data_limits}
use mitum_smart_contract.Call.Items.{
  new_call_contract_item, CallContractItem, CallContractFact, normalize_legacy_call_data,
  rebuild_legacy_call_data,
}

pub record ItemDocument : Type 0 where
  pub hint : String
  pub function : String
  pub call_data : CallData

-- A field of the raw form that is there is what `Unmarshal` reads from it.
pub record CallFactDocument : Type 0 where
  pub sender : String
  pub contract : String
  pub call_data : Option (Result String CallData)
  pub items : Option (Result String (List ItemDocument))
  pub currency : String

-- the BSON document, which has the text of the fact's hint
pub record CallFactBson : Type 0 where
  pub hint : String
  pub document : CallFactDocument

-- the fields that decoding sets
pub record CallFactParts : Type 0 where
  pub sender : String
  pub contract : String
  pub items : List CallContractItem
  pub currency : String

pub data DecodeError : Type 0 where
  unreadable bad_address bad_item_hint bad_fact_hint : String → DecodeError
  both_forms : DecodeError
  over_limits : LimitError → DecodeError

-- `hint.ParseHint`: the text of the hint that it reads, and whether that is a valid hint of an item, or of a
-- fact; and `base.DecodeAddress`
pub record Texts : Type 0 where
  pub parse_hint : String → Option (String × Bool)
  pub parse_fact_hint : String → Option (String × Bool)
  pub decode_address : String → Option String

module _ (texts : Texts) where
  -- `CallContractItem.MarshalJSON`, for each item
  unfoldable pub item_documents : List CallContractItem → List ItemDocument
  item_documents [] = []
  item_documents (item ∷ items) =
      record { hint = item.hint; function = item.function; call_data = item.call_data }
      ∷ item_documents items

  -- `callData`, which is left out where it is nil
  abbrev pub call_data_field : List CallContractItem → Option (Result String CallData)
  call_data_field (item ∷ []) = some (ok (rebuild_legacy_call_data item))
  call_data_field _ = none

  -- `items`, which are left out where they are nil or empty
  abbrev pub items_field : List CallContractItem → Option (Result String (List ItemDocument))
  items_field [] = none
  items_field (item ∷ []) = none
  items_field items = some (ok (item_documents items))

  -- `CallContractFact.MarshalJSON`
  unfoldable pub call_fact_document : CallContractFact → CallFactDocument
  unfolding item_documents
  call_fact_document fact = record {
    sender = fact.sender;
    contract = fact.contract;
    call_data = call_data_field fact.items;
    items = items_field fact.items;
    currency = fact.currency;
  }

  abbrev pub hinted_item :
      ItemDocument → Option (String × Bool) → Result DecodeError CallContractItem
  hinted_item doc none = err (bad_item_hint doc.hint)
  hinted_item doc (some h) = ok (record {
    hint = h.0;
    hint_is_valid = h.1;
    function = doc.function;
    call_data = doc.call_data;
  })

  -- `decodeCallContractItemHint`
  unfoldable pub decode_call_contract_item_hint : ItemDocument → Result DecodeError CallContractItem
  decode_call_contract_item_hint doc =
      if doc.hint == ""
      then ok (new_call_contract_item doc.function doc.call_data)
      else hinted_item doc (texts.parse_hint doc.hint)

  -- `UnmarshalJSON` of the items
  unfoldable pub decode_items : List ItemDocument → Result DecodeError (List CallContractItem)
  unfolding decode_call_contract_item_hint
  decode_items [] = ok []
  decode_items (doc ∷ docs) =
      let rest = decode_items docs in
      decode_call_contract_item_hint doc >>= λ item. rest >>= λ items. ok (item ∷ items)

  abbrev pub decoded_address : String → Option String → Result DecodeError String
  decoded_address s none = err (bad_address s)
  decoded_address s (some a) = ok a

  -- `unpack`; the copy of the items is the items
  unfoldable pub unpack :
      CallFactDocument → List CallContractItem → Result DecodeError CallFactParts
  unpack doc items = decoded_address doc.sender (texts.decode_address doc.sender) >>= λ sender.
      decoded_address doc.contract (texts.decode_address doc.contract) >>= λ contract.
      ok (record { sender = sender; contract = contract; items = items; currency = doc.currency })

  -- `unpackLegacy`
  unfoldable pub unpack_legacy : CallFactDocument → CallData → Result DecodeError CallFactParts
  unfolding unpack
  unpack_legacy doc call_data =
      map_err over_limits (validate_call_data_limits call_data)
      >> unpack doc (normalize_legacy_call_data call_data ∷ [])

  -- the `switch` on the two forms
  abbrev pub decode_forms :
      CallFactDocument
      → Option (Result String CallData)
      → Option (Result String (List ItemDocument))
      → Result DecodeError CallFactParts
  decode_forms doc (some c) (some i) = err both_forms
  decode_forms doc none (some i) =
      map_err unreadable i >>= λ docs. decode_items docs >>= λ items. unpack doc items
  decode_forms doc (some c) none = map_err unreadable c >>= λ call_data. unpack_legacy doc call_data
  decode_forms doc none none = unpack_legacy doc []

  -- `CallContractFact.DecodeJSON`
  unfoldable pub decode_call_fact : CallFactDocument → Result DecodeError CallFactParts
  unfolding decode_items unpack unpack_legacy
  decode_call_fact doc = decode_forms doc doc.call_data doc.items

  -- the `items` of the BSON document, where an empty list is written
  abbrev pub bson_items_field : List CallContractItem → Option (Result String (List ItemDocument))
  bson_items_field (item ∷ []) = none
  bson_items_field items = some (ok (item_documents items))

  -- `CallContractFact.MarshalBSON`
  unfoldable pub call_fact_bson : CallContractFact → CallFactBson
  unfolding item_documents
  call_fact_bson fact = record {
    hint = fact.hint;
    document = record {
      sender = fact.sender;
      contract = fact.contract;
      call_data = call_data_field fact.items;
      items = bson_items_field fact.items;
      currency = fact.currency;
    };
  }

  abbrev pub hinted_fact :
      CallFactBson → Option (String × Bool) → Result DecodeError ((String × Bool) × CallFactParts)
  hinted_fact bson none = err (bad_fact_hint bson.hint)
  hinted_fact bson (some h) =
      decode_forms bson.document bson.document.call_data bson.document.items >>= λ parts.
      ok (h, parts)

  -- `CallContractFact.DecodeBSON`: the fact's hint with whether it is valid, and the fields
  unfoldable pub decode_call_fact_bson :
      CallFactBson → Result DecodeError ((String × Bool) × CallFactParts)
  unfolding decode_items unpack unpack_legacy
  decode_call_fact_bson bson = hinted_fact bson (texts.parse_fact_hint bson.hint)
