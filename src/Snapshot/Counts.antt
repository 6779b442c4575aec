-- ===== src/Snapshot/Counts.antt =====
-- The counters of a snapshot, and what its limits bound.
use mitum_smart_contract.Base.{
  ℕ, ◌+◌, ◌≤◌, true, List, [], ◌∷◌, ◌≡◌, ◌↔◌, refl, ◌∙◌, arith, inl, inr, length, ◌==◌,
  if◌then◌else◌, is_ok, Bool-cases,
}
use mitum_smart_contract.Snapshot.{
  SnapshotValue, value, SnapshotFields, no_fields, with_field, SnapshotEntries, no_entries,
  with_entry, SnapshotItems, no_items, with_item, SnapshotStats, SnapshotBinding, SnapshotDoc,
  entries_length, items_length, accumulate, accumulate_fields, add_node, add_struct, add_entries,
  add_items, accumulate_entries, accumulate_items, accumulate_bindings, snapshot_stats_for_doc,
  validate_snapshot_stats, validate_snapshot_limits, max_contract_snapshot_bytes,
  max_contract_snapshot_map_entries, max_contract_snapshot_slice_items, max_contract_snapshot_nodes,
}

-- How many values, map entries and slice items a value holds, itself included, each counted for itself.
pub record Counts : Type 0 where
  pub nodes : ℕ
  pub map_entries : ℕ
  pub slice_items : ℕ
  pub struct_nodes : ℕ

abbrev pub nothing : Counts
nothing = record { nodes = 0; map_entries = 0; slice_items = 0; struct_nodes = 0 }

abbrev pub together : Counts → Counts → Counts
together a b = record {
  nodes = a.nodes + b.nodes;
  map_entries = a.map_entries + b.map_entries;
  slice_items = a.slice_items + b.slice_items;
  struct_nodes = a.struct_nodes + b.struct_nodes;
}

mutual
  pub counts_of : SnapshotValue → Counts
  counts_of (value kind scalar fields entries items is_nil) =
      let f = counts_of_fields fields in
      let e = counts_of_entries entries in
      let i = counts_of_items items in
      together (record { nodes = 1; map_entries = 0; slice_items = 0; struct_nodes = 0 })
        (if kind == "struct"
          then together f (record { nodes = 0; map_entries = 0; slice_items = 0; struct_nodes = 1 })
          else if kind == "map"
          then e
          else if kind == "slice"
          then i
          else nothing)

  pub counts_of_fields : SnapshotFields → Counts
  counts_of_fields no_fields = nothing
  counts_of_fields (with_field n v fs) = together (counts_of v) (counts_of_fields fs)

  -- every entry counts, and so does what it holds
  pub counts_of_entries : SnapshotEntries → Counts
  counts_of_entries no_entries = nothing
  counts_of_entries (with_entry k v es) =
      together (record { nodes = 0; map_entries = 1; slice_items = 0; struct_nodes = 0 })
        (together (counts_of v) (counts_of_entries es))

  pub counts_of_items : SnapshotItems → Counts
  counts_of_items no_items = nothing
  counts_of_items (with_item v vs) =
      together (record { nodes = 0; map_entries = 0; slice_items = 1; struct_nodes = 0 })
        (together (counts_of v) (counts_of_items vs))

pub counts_of_bindings : List SnapshotBinding → Counts
unfolding counts_of
counts_of_bindings [] = nothing
counts_of_bindings (b ∷ bs) = together (counts_of b.value) (counts_of_bindings bs)

-- The counters after are the counters before and the counts.
abbrev Adds : SnapshotStats → Counts → SnapshotStats → Type 0
Adds before c after =
    (after.bytes ≡ before.bytes)
    × (after.nodes ≡ before.nodes + c.nodes)
    × (after.map_entries ≡ before.map_entries + c.map_entries)
    × (after.slice_items ≡ before.slice_items + c.slice_items)
    × (after.struct_nodes ≡ before.struct_nodes + c.struct_nodes)

-- the loop over the entries leaves their own number to the caller, as does the loop over the items
abbrev AddsEntries : SnapshotStats → SnapshotEntries → Counts → SnapshotStats → Type 0
AddsEntries before es c after =
    (after.bytes ≡ before.bytes)
    × (after.nodes ≡ before.nodes + c.nodes)
    × (after.map_entries + entries_length es ≡ before.map_entries + c.map_entries)
    × (after.slice_items ≡ before.slice_items + c.slice_items)
    × (after.struct_nodes ≡ before.struct_nodes + c.struct_nodes)

abbrev AddsItems : SnapshotStats → SnapshotItems → Counts → SnapshotStats → Type 0
AddsItems before vs c after =
    (after.bytes ≡ before.bytes)
    × (after.nodes ≡ before.nodes + c.nodes)
    × (after.map_entries ≡ before.map_entries + c.map_entries)
    × (after.slice_items + items_length vs ≡ before.slice_items + c.slice_items)
    × (after.struct_nodes ≡ before.struct_nodes + c.struct_nodes)

mutual
  unfolding accumulate counts_of

  accumulate-Adds : (v : SnapshotValue) (s : SnapshotStats) → Adds s (counts_of v) (accumulate v s)
  accumulate-Adds (value kind scalar fields entries items is_nil) s =
      let (b1, n1, m1, i1, t1) = fields_add fields (add_struct (add_node s)) in
      let (b2, n2, m2, i2, t2) =
        entries_add entries (add_entries (entries_length entries) (add_node s)) in
      let (b3, n3, m3, i3, t3) = items_add items (add_items (items_length items) (add_node s)) in
      elim (Bool-cases (kind == "struct")) [
        | inl e ↦ rw e (b1, omega arith, omega arith, omega arith, omega arith)
        | inr e ↦ elim (Bool-cases (kind == "map")) [
          | inl e' ↦ rw (e, e') (b2, omega arith, omega arith, omega arith, omega arith)
          | inr e' ↦ elim (Bool-cases (kind == "slice")) [
            | inl e'' ↦ rw (e, e', e'') (b3, omega arith, omega arith, omega arith, omega arith)
            | inr e'' ↦ rw (e, e', e'') (refl, omega arith, omega arith, omega arith, omega arith)
          ]
        ]
      ]

  fields_add :
      (fs : SnapshotFields) (s : SnapshotStats)
      → Adds s (counts_of_fields fs) (accumulate_fields fs s)
  fields_add no_fields s = (refl, omega arith, omega arith, omega arith, omega arith)
  fields_add (with_field n v fs) s =
      let (b1, n1, m1, i1, t1) = accumulate-Adds v s in
      let (b2, n2, m2, i2, t2) = fields_add fs (accumulate v s) in
      (b2 ∙ b1, omega arith, omega arith, omega arith, omega arith)

  entries_add :
      (es : SnapshotEntries) (s : SnapshotStats)
      → AddsEntries s es (counts_of_entries es) (accumulate_entries es s)
  entries_add no_entries s = (refl, omega arith, omega arith, omega arith, omega arith)
  entries_add (with_entry k v es) s =
      let (b1, n1, m1, i1, t1) = accumulate-Adds v s in
      let (b2, n2, m2, i2, t2) = entries_add es (accumulate v s) in
      (b2 ∙ b1, omega arith, omega arith, omega arith, omega arith)

  items_add :
      (vs : SnapshotItems) (s : SnapshotStats)
      → AddsItems s vs (counts_of_items vs) (accumulate_items vs s)
  items_add no_items s = (refl, omega arith, omega arith, omega arith, omega arith)
  items_add (with_item v vs) s =
      let (b1, n1, m1, i1, t1) = accumulate-Adds v s in
      let (b2, n2, m2, i2, t2) = items_add vs (accumulate v s) in
      (b2 ∙ b1, omega arith, omega arith, omega arith, omega arith)

bindings_add :
    (bs : List SnapshotBinding) (s : SnapshotStats)
    → Adds s (counts_of_bindings bs) (accumulate_bindings bs s)
unfolding accumulate_bindings counts_of_bindings
bindings_add [] s = (refl, omega arith, omega arith, omega arith, omega arith)
bindings_add (b ∷ bs) s =
    let (b1, n1, m1, i1, t1) = accumulate-Adds b.value s in
    let (b2, n2, m2, i2, t2) = bindings_add bs (accumulate b.value s) in
    (b2 ∙ b1, omega arith, omega arith, omega arith, omega arith)

-- The four limits, on the sizes themselves.
abbrev pub IsWithin : ℕ → Counts → Type 0
IsWithin bytes c =
    (bytes ≤ max_contract_snapshot_bytes)
    × (c.map_entries ≤ max_contract_snapshot_map_entries)
    × (c.slice_items ≤ max_contract_snapshot_slice_items)
    × (c.nodes ≤ max_contract_snapshot_nodes)

stats_iff :
    (s : SnapshotStats)
    → (is_ok (validate_snapshot_stats s) ≡ true)
      ↔ IsWithin s.bytes (record {
        nodes = s.nodes;
        map_entries = s.map_entries;
        slice_items = s.slice_items;
        struct_nodes = 0;
      })
unfolding validate_snapshot_stats
stats_iff s = (λ h. (ground arith, ground arith, ground arith, ground arith), λ w. ground arith)

-- A snapshot is accepted exactly when its bytes are at most 256 KiB, all its maps together hold at most
-- 256 entries, all its slices together at most 256 items, and it holds at most 8192 values, nested ones
-- included, however deep they are nested.
pub snapshot_limits_iff :
    (doc : SnapshotDoc) (bytes : ℕ)
    → (is_ok (validate_snapshot_limits doc bytes) ≡ true)
      ↔ IsWithin bytes (counts_of_bindings doc.bindings)
unfolding validate_snapshot_limits snapshot_stats_for_doc
snapshot_limits_iff doc bytes =
    let (b1, n1, m1, i1, t1) = bindings_add doc.bindings (record {
      bytes = bytes;
      bindings = length doc.bindings;
      map_entries = 0;
      slice_items = 0;
      struct_nodes = 0;
      nodes = 0;
    }) in
    let both = stats_iff (snapshot_stats_for_doc doc bytes) in
    (
      λ h. let (b, m, i, n) = both.0 h in (omega arith, omega arith, omega arith, omega arith),
      λ w. let (b, m, i, n) = w in both.1 (omega arith, omega arith, omega arith, omega arith),
    )
