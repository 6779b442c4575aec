-- ===== src/Snapshot/Document/Json.antt =====
-- Go's encoding/json on snapshot documents, as parameters with the behaviour that is documented of it: a
-- document whose texts are all valid UTF-8, and which does not nest too deep, is read back from its bytes. A
-- text that is not valid UTF-8 comes back with the replacement character in the place of its invalid bytes,
-- so nothing is said of it.
use mitum_smart_contract.Base.{
  ltb, ℕ, suc, String, Bool, true, false, List, [], ◌∷◌, ◌&&◌, ◌≡◌, ◌==◌, Result, ok,
}
use mitum_smart_contract.Snapshot.{
  SnapshotValue, value, SnapshotFields, no_fields, with_field, SnapshotEntries, no_entries,
  with_entry, SnapshotItems, no_items, with_item, SnapshotBinding, SnapshotDoc,
}
use mitum_smart_contract.Snapshot.Document.{DocumentError}

-- `json.Marshal`, `json.Unmarshal` and `utf8.ValidString`
pub record Json : Type 0 where
  pub marshal : SnapshotDoc → Result DocumentError String
  pub unmarshal : String → Result DocumentError SnapshotDoc
  pub is_utf8 : String → Bool

-- The decoder refuses a document that nests more than 10000 levels deep, and a value in a value takes up
-- three levels at most.
abbrev max_value_depth : ℕ
max_value_depth = 3000

-- All texts are valid UTF-8, and the values in it, the first at this depth, do not nest too deep.
module _ (is_utf8 : String → Bool) where
  unfoldable mutual
    pub value_is_readable : SnapshotValue → ℕ → Bool
    value_is_readable (value kind scalar fields entries items is_nil) depth =
        ltb depth max_value_depth
        && is_utf8 kind
        && is_utf8 scalar
        && fields_are_readable fields (suc depth)
        && entries_are_readable entries (suc depth)
        && items_are_readable items (suc depth)

    pub fields_are_readable : SnapshotFields → ℕ → Bool
    fields_are_readable no_fields depth = true
    fields_are_readable (with_field name v fields) depth =
        is_utf8 name && value_is_readable v depth && fields_are_readable fields depth

    pub entries_are_readable : SnapshotEntries → ℕ → Bool
    entries_are_readable no_entries depth = true
    entries_are_readable (with_entry key v entries) depth =
        is_utf8 key && value_is_readable v depth && entries_are_readable entries depth

    pub items_are_readable : SnapshotItems → ℕ → Bool
    items_are_readable no_items depth = true
    items_are_readable (with_item v items) depth =
        value_is_readable v depth && items_are_readable items depth

  unfoldable pub bindings_are_readable : List SnapshotBinding → Bool
  bindings_are_readable [] = true
  bindings_are_readable (b ∷ bs) =
      is_utf8 b.name && value_is_readable b.value 0 && bindings_are_readable bs

-- The bytes were written of no document but ones that are read back.
abbrev pub IsReadable : Json → String → Type 0
IsReadable json bytes =
    (doc : SnapshotDoc)
    → json.marshal doc ≡ ok bytes
    → bindings_are_readable json.is_utf8 doc.bindings ≡ true

pub record Laws (json : Json) : Type 0 where
  pub read_back :
      (doc : SnapshotDoc) (bytes : String)
      → bindings_are_readable json.is_utf8 doc.bindings ≡ true
      → json.marshal doc ≡ ok bytes
      → json.unmarshal bytes ≡ ok doc
  pub not_empty :
      (doc : SnapshotDoc) (bytes : String) → json.marshal doc ≡ ok bytes → (bytes == "") ≡ false
