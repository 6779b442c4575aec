-- ===== src/Snapshot.antt =====
-- operation/contract/runtime/gno_snapshot_limits.go and the document types of gno_snapshot_codec.go: what
-- a snapshot may hold. Scalars keep their text.
pub mod Counts
pub mod Values
pub mod Sorting
pub mod Codec
pub mod Build
pub mod Document
use mitum_smart_contract.Base.{
  ℕ, suc, ◌+◌, ◌*◌, String, Bool, true, false, List, [], ◌∷◌, length, ltb, ◌==◌, if◌then◌else◌,
  Result, ok, err, done, fail_if, ◌>>=◌, ◌>>◌,
}

-- A value of a snapshot: `Kind`, `Scalar`, `Fields`, `Entries`, `Items` and `IsNil`.
mutual
  pub data SnapshotValue : Type 0 where
    value :
        String → String → SnapshotFields → SnapshotEntries → SnapshotItems → Bool → SnapshotValue

  pub data SnapshotFields : Type 0 where
    no_fields : SnapshotFields
    with_field : String → SnapshotValue → SnapshotFields → SnapshotFields

  pub data SnapshotEntries : Type 0 where
    no_entries : SnapshotEntries
    with_entry : String → SnapshotValue → SnapshotEntries → SnapshotEntries

  pub data SnapshotItems : Type 0 where
    no_items : SnapshotItems
    with_item : SnapshotValue → SnapshotItems → SnapshotItems

pub record SnapshotStats : Type 0 where
  pub bytes : ℕ
  pub bindings : ℕ
  pub map_entries : ℕ
  pub slice_items : ℕ
  pub struct_nodes : ℕ
  pub nodes : ℕ

pub record SnapshotBinding : Type 0 where
  pub name : String
  pub value : SnapshotValue

pub record SnapshotDoc : Type 0 where
  pub version : ℕ
  pub bindings : List SnapshotBinding

pub data SnapshotError : Type 0 where
  too_many_bytes too_many_map_entries too_many_slice_items too_many_nodes : ℕ → SnapshotError

abbrev pub max_contract_snapshot_bytes : ℕ
max_contract_snapshot_bytes = 256 * 1024

abbrev pub max_contract_snapshot_map_entries : ℕ
max_contract_snapshot_map_entries = 256

abbrev pub max_contract_snapshot_slice_items : ℕ
max_contract_snapshot_slice_items = 256

abbrev pub max_contract_snapshot_nodes : ℕ
max_contract_snapshot_nodes = 8 * 1024

abbrev pub entries_length : SnapshotEntries → ℕ
entries_length no_entries = 0
entries_length (with_entry k v es) = suc (entries_length es)

abbrev pub items_length : SnapshotItems → ℕ
items_length no_items = 0
items_length (with_item v vs) = suc (items_length vs)

-- the updates of the counters that `accumulateSnapshotValueStats` makes
abbrev pub add_node : SnapshotStats → SnapshotStats
add_node stats = record stats { nodes = stats.nodes + 1 }

abbrev pub add_struct : SnapshotStats → SnapshotStats
add_struct stats = record stats { struct_nodes = stats.struct_nodes + 1 }

abbrev pub add_entries : ℕ → SnapshotStats → SnapshotStats
add_entries n stats = record stats { map_entries = stats.map_entries + n }

abbrev pub add_items : ℕ → SnapshotStats → SnapshotStats
add_items n stats = record stats { slice_items = stats.slice_items + n }

-- `accumulateSnapshotValueStats`: the counters before and after
unfoldable mutual
  pub accumulate : SnapshotValue → SnapshotStats → SnapshotStats
  accumulate (value kind scalar fields entries items is_nil) stats =
      let in_fields = accumulate_fields fields (add_struct (add_node stats)) in
      let in_entries =
        accumulate_entries entries (add_entries (entries_length entries) (add_node stats)) in
      let in_items = accumulate_items items (add_items (items_length items) (add_node stats)) in
      if kind == "struct"
      then in_fields
      else if kind == "map"
      then in_entries
      else if kind == "slice"
      then in_items
      else add_node stats

  pub accumulate_fields : SnapshotFields → SnapshotStats → SnapshotStats
  accumulate_fields no_fields stats = stats
  accumulate_fields (with_field n v fs) stats = accumulate_fields fs (accumulate v stats)

  pub accumulate_entries : SnapshotEntries → SnapshotStats → SnapshotStats
  accumulate_entries no_entries stats = stats
  accumulate_entries (with_entry k v es) stats = accumulate_entries es (accumulate v stats)

  pub accumulate_items : SnapshotItems → SnapshotStats → SnapshotStats
  accumulate_items no_items stats = stats
  accumulate_items (with_item v vs) stats = accumulate_items vs (accumulate v stats)

unfoldable pub accumulate_bindings : List SnapshotBinding → SnapshotStats → SnapshotStats
unfolding accumulate
accumulate_bindings [] stats = stats
accumulate_bindings (b ∷ bs) stats = accumulate_bindings bs (accumulate b.value stats)

-- `SnapshotStatsForDoc`, given the number of bytes of the snapshot
unfoldable pub snapshot_stats_for_doc : SnapshotDoc → ℕ → SnapshotStats
unfolding accumulate_bindings
snapshot_stats_for_doc doc bytes = accumulate_bindings doc.bindings (record {
  bytes = bytes;
  bindings = length doc.bindings;
  map_entries = 0;
  slice_items = 0;
  struct_nodes = 0;
  nodes = 0;
})

-- `validateSnapshotStats`
unfoldable pub validate_snapshot_stats : SnapshotStats → Result SnapshotError (Unit {0})
validate_snapshot_stats stats = do
  fail_if (ltb max_contract_snapshot_bytes stats.bytes) (too_many_bytes stats.bytes)
  fail_if (ltb max_contract_snapshot_map_entries stats.map_entries)
      (too_many_map_entries stats.map_entries)
  fail_if (ltb max_contract_snapshot_slice_items stats.slice_items)
      (too_many_slice_items stats.slice_items)
  fail_if (ltb max_contract_snapshot_nodes stats.nodes) (too_many_nodes stats.nodes)

-- `ValidateSnapshotLimits`
unfoldable pub validate_snapshot_limits : SnapshotDoc → ℕ → Result SnapshotError (Unit {0})
unfolding snapshot_stats_for_doc validate_snapshot_stats
validate_snapshot_limits doc bytes = validate_snapshot_stats (snapshot_stats_for_doc doc bytes)

-- `validateSnapshotSizeLimit`
unfoldable pub validate_snapshot_size_limit : ℕ → Result SnapshotError (Unit {0})
validate_snapshot_size_limit bytes =
    fail_if (ltb max_contract_snapshot_bytes bytes) (too_many_bytes bytes)
