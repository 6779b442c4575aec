-- ===== src/Tests/Snapshots.antt =====
-- The theorems on snapshots and on answers of queries, at values of a small contract.
use mitum_smart_contract.Base.{
  ◌≢◌, ℕ, String, true, false, List, [], ◌∷◌, ◌≡◌, refl, sym, arith, ◌==◌, eq_iff, nat_eq, ◌&&◌,
  if◌then◌else◌, Result, ok, err, Returns, Bool-cases, inl, inr,
}
use mitum_smart_contract.Schema.TypeRef.{normalized_string, resolve_type, ContractSchema}
use mitum_smart_contract.Snapshot.{
  SnapshotValue, value, no_fields, with_field, no_entries, with_entry, no_items, SnapshotDoc,
  SnapshotBinding,
}
use mitum_smart_contract.Snapshot.Values.{
  ℤ, Readings, MachineValue, typed_value, nil_object, struct_object, map_object, no_values,
  with_value, empty_map, with_key,
}
use mitum_smart_contract.Snapshot.Codec.{scalar_text_of, extract, scalar_snapshot}
use mitum_smart_contract.Snapshot.Codec.Order.{same_value, same_map, swapped, extract-SameValue}
use mitum_smart_contract.Snapshot.Build.{Expr}
use mitum_smart_contract.Snapshot.Document.{DocumentError, bad_json, capture, restore}
use mitum_smart_contract.Snapshot.Document.Restored.{AreRebuilt, assign_all, captured-restores}
use mitum_smart_contract.Snapshot.Document.Json.{
  Json, Laws, IsReadable, bindings_are_readable, value_is_readable, fields_are_readable,
  entries_are_readable, items_are_readable,
}
use mitum_smart_contract.Engine.QueryValue.{
  query_json, extract_query_value, to_query_value, query_scalar_of,
}
use mitum_smart_contract.Engine.QueryValue.Converts.{reading_json, query_scalar-scalar_text}
use mitum_smart_contract.Engine.QueryValue.Total.{Fits, extracted-converts}
use mitum_smart_contract.Schema.Validate.{validate_named_struct}
use mitum_smart_contract.Snapshot.Values.{format_int}
use mitum_smart_contract.Schema.TypeRef.{resolve_type, normalized_string}
use mitum_smart_contract.Schema.Shape.{is_supported_scalar}
use mitum_smart_contract.Snapshot.Sorting.{before}
use mitum_smart_contract.Tests.Sample.{string_type, notes_type, sample_registry, sample_schema}

abbrev pub reading : String → ℤ → Readings
reading text z = record {
  get_string = text;
  get_bool = true;
  get_int = z;
  get_int64 = z;
  get_uint64 = 7;
}

abbrev note : String → MachineValue
note text =
    typed_value (reading "" (ℤ.pos 0))
      (struct_object (with_value (typed_value (reading text (ℤ.pos 0)) nil_object) no_values))

abbrev some_notes : MachineValue
some_notes =
    typed_value (reading "" (ℤ.pos 0))
      (map_object (with_key "b" (note "late") (with_key "a" (note "early") empty_map)))

abbrev same_notes : MachineValue
same_notes =
    typed_value (reading "" (ℤ.pos 0))
      (map_object (with_key "a" (note "early") (with_key "b" (note "late") empty_map)))

abbrev note_snapshot : String → SnapshotValue
note_snapshot text =
    value "struct" "" (with_field "Text" (scalar_snapshot text) no_fields) no_entries no_items false

abbrev notes_snapshot : SnapshotValue
notes_snapshot =
    value "map" "" no_fields
      (with_entry "a" (note_snapshot "early") (with_entry "b" (note_snapshot "late") no_entries))
      no_items false

notes_captured : extract sample_registry notes_type some_notes ≡ ok notes_snapshot
unfolding extract resolve_type normalized_string validate_named_struct is_supported_scalar before
notes_captured = refl

b_is_not_a : ◌≢◌ {A = String} "b" "a"
b_is_not_a e = let h : false ≡ true = (eq_iff "b" "a").1 e in cc h

extract-SameValue_example : extract sample_registry notes_type same_notes ≡ ok notes_snapshot
extract-SameValue_example =
    extract-SameValue sample_registry notes_type some_notes same_notes notes_snapshot
      (same_value (same_map (swapped b_is_not_a))) notes_captured

notes_extracted :
    extract_query_value sample_registry notes_type some_notes ≡ ok (to_query_value notes_snapshot)
unfolding extract extract_query_value resolve_type normalized_string validate_named_struct
    is_supported_scalar before
notes_extracted = refl

minus_42 : scalar_text_of "int64" (reading "" (ℤ.negsuc 41)) ≡ ok "-42"
unfolding scalar_text_of format_int
minus_42 = refl

extracted-converts_example :
    Returns (query_json sample_registry notes_type (to_query_value notes_snapshot))
unfolding Fits
extracted-converts_example =
    extracted-converts sample_registry notes_type some_notes (to_query_value notes_snapshot)
      (omega arith) notes_extracted

query_scalar-scalar_text_example :
    query_scalar_of "int64" "-42" ≡ ok (reading_json "int64" (reading "" (ℤ.negsuc 41)))
query_scalar-scalar_text_example =
    query_scalar-scalar_text "int64" (reading "" (ℤ.negsuc 41)) "-42" (omega arith) minus_42

-- A package with one text, `owner`, and a format for snapshots of it: "=" and the text.
abbrev pub owner_schema : ContractSchema
owner_schema = record sample_schema {
  persistent_globals = record { name = "owner"; typ = string_type; has_explicit_type = true } ∷ [];
}

abbrev owner_doc : String → SnapshotDoc
owner_doc text = record {
  version = 1;
  bindings = record { name = "owner"; value = scalar_snapshot text } ∷ [];
}

abbrev unmarshal : String → Result DocumentError SnapshotDoc
unmarshal String.[] = err bad_json
unmarshal (String.◌∷◌ c text) = ok (owner_doc text)

unfoldable pub marshal_value : ℕ → String → SnapshotValue → Result DocumentError String
marshal_value v name (value kind text no_fields no_entries no_items false) =
    if nat_eq v 1 && name == "owner" && kind == "scalar"
    then ok (String.◌∷◌ "=" text)
    else err bad_json
marshal_value v name s = err bad_json

abbrev marshal_bindings : ℕ → List SnapshotBinding → Result DocumentError String
marshal_bindings v (b ∷ []) = marshal_value v b.name b.value
marshal_bindings v _ = err bad_json

abbrev marshal : SnapshotDoc → Result DocumentError String
marshal doc = marshal_bindings doc.version doc.bindings

value_inverse :
    (v : ℕ) (name : String) (s : SnapshotValue) (bytes : String)
    → marshal_value v name s ≡ ok bytes
    → unmarshal bytes
      ≡ ok (record { version = v; bindings = record { name = name; value = s } ∷ [] })
unfolding marshal_value
value_inverse v name (value kind text no_fields no_entries no_items false) bytes h =
    elim (Bool-cases (nat_eq v 1 && name == "owner" && kind == "scalar")) [
      | inr e ↦ cc (rw e at h)
      | inl e ↦
          let first : v ≡ 1 = ground arith in
          let second : name ≡ "owner" = ground (arith, eq_iff name "owner") in
          let third : kind ≡ "scalar" = ground (arith, eq_iff kind "scalar") in
          let written : String.◌∷◌ "=" text ≡ bytes = cc (rw e at h) in
          rw (sym written, first, second, third) refl
    ]
value_inverse v name (value kind text _ _ _ _) bytes h = cc h

bindings_inverse :
    (v : ℕ) (bs : List SnapshotBinding) (bytes : String)
    → marshal_bindings v bs ≡ ok bytes
    → unmarshal bytes ≡ ok (record { version = v; bindings = bs })
bindings_inverse v [] bytes h = cc h
bindings_inverse v (b ∷ []) bytes h = value_inverse v b.name b.value bytes h
bindings_inverse v (b ∷ c ∷ bs) bytes h = cc h

inverse : (doc : SnapshotDoc) (bytes : String) → marshal doc ≡ ok bytes → unmarshal bytes ≡ ok doc
inverse doc bytes h = bindings_inverse doc.version doc.bindings bytes h

owner_captured :
    capture marshal (λ name. typed_value (reading "alice" (ℤ.pos 0)) nil_object) owner_schema
    ≡ ok "=alice"
unfolding capture resolve_type normalized_string marshal_value
owner_captured = refl

abbrev pub owner_json : Json
owner_json = record { marshal = marshal; unmarshal = unmarshal; is_utf8 = λ s. true }

written_is_not_empty :
    (doc : SnapshotDoc) (bytes : String) → marshal doc ≡ ok bytes → (bytes == "") ≡ false
written_is_not_empty doc bytes h = elim (Bool-cases (bytes == "")) [
  | inl e ↦ cc (rw ((eq_iff bytes "").0 e) at (inverse doc bytes h))
  | inr e ↦ e
]

pub owner_laws : Laws owner_json
owner_laws = record {
  read_back = λ doc bytes readable h. inverse doc bytes h;
  not_empty = written_is_not_empty;
}

-- what is written as a text of the owner is a document of that text
pub owner_text-IsReadable : (text : String) → IsReadable owner_json (String.◌∷◌ "=" text)
unfolding bindings_are_readable value_is_readable fields_are_readable entries_are_readable
    items_are_readable
owner_text-IsReadable text doc h =
    let same : owner_doc text ≡ doc = cc (inverse doc (String.◌∷◌ "=" text) h) in rw (sym same) refl

abbrev alice : String → MachineValue
alice name = typed_value (reading "alice" (ℤ.pos 0)) nil_object

-- a machine that keeps its assignments, and panics at any other name
abbrev assign_owner : List (String × Expr) → String → Expr → Result String (List (String × Expr))
assign_owner m name e = if name == "owner" then ok ((name, e) ∷ m) else err "undefined"

captured-restores_example :
    (xs : List (String × Expr)) × AreRebuilt owner_schema.types alice
      owner_schema.persistent_globals xs
    × ((m : List (String × Expr))
        → restore assign_owner unmarshal owner_schema m "=alice" ≡ assign_all assign_owner m xs)
captured-restores_example =
    captured-restores assign_owner owner_json owner_laws alice owner_schema refl (refl, tt) "=alice"
      owner_captured (owner_text-IsReadable "alice")
