-- ===== src/Snapshot/Build/Restorable.antt =====
-- gno_snapshot_codec.go: `BuildExpr` on what `ExtractSnapshotValue` returned.
use mitum_smart_contract.Base.{
  eq_refl, if◌then◌else◌, ◌>>◌, fail_if-not-eq-ok, nat_eq, ℕ, suc, String, Bool, true, false, none,
  List, [], ◌∷◌, ◌≡◌, refl, ap, arith, lookup, Result, ok, >>=-eq-ok, Returns, >>=-Returns,
  >>-eq-ok,
}
use mitum_smart_contract.Schema.TypeRef.{
  normalized_string, TypeKind, TypeRef, StructFields, end, field, TypeRegistry, kind_of, fields_of,
  resolve_type,
}
use mitum_smart_contract.Snapshot.{
  with_item, no_items, no_entries, with_field, no_fields, SnapshotValue, SnapshotFields,
  SnapshotEntries, SnapshotItems,
}
use mitum_smart_contract.Snapshot.Values.{
  Readings, MachineValue, typed_value, MachineObject, nil_object, struct_object, map_object,
  slice_object, slice_without_base, other_object, MachineValues, no_values, with_value,
  MachineEntries, empty_map, with_key, values_length,
}
use mitum_smart_contract.Snapshot.Sorting.{sort_by_key}
use mitum_smart_contract.Snapshot.Codec.{
  entries_of, is_named, scalar_snapshot, scalar_typed_value_to_string, CodecError, fields_length,
  extract, extract_struct, extract_fields, extract_map, extract_entries, extract_slice,
  extract_items, struct_snapshot, map_snapshot, slice_snapshot,
}
use mitum_smart_contract.Snapshot.Build.{
  build_type_expr, snapshot_slice_elem, map_type_expr, snapshot_map_elem, no_elements, struct_name,
  scalar_expr, Expr, validate_struct_field_snapshot_type, snapshot_fields_length, collect_entries,
  build_expr, build_fields, build_entries, build_items,
}
use mitum_smart_contract.Snapshot.Build.Elements.{
  slice_type-Returns, map_type-Returns, sorted_entries_return, named_struct_name, scalar-Returns,
  AllBuild,
}

-- both outcomes of the test for a nil value are results
nil_or :
    (is_nil : Bool) (a : Result CodecError Expr) (e : Expr)
    → Returns a
    → Returns (if is_nil then ok e else a)
nil_or true a e h = (e, refl)
nil_or false a e h = h

nat_eq_refl : (n : ℕ) → nat_eq n n ≡ true
nat_eq_refl n = ground arith

module _ (reg : TypeRegistry) where
  abbrev StructRestores : StructFields → SnapshotValue → Type 0
  StructRestores fs s =
      (fields : SnapshotFields) × (s ≡ struct_snapshot fields)
      × (snapshot_fields_length fields ≡ fields_length fs)
      × Returns (build_fields reg fs fields)

  abbrev MapRestores : TypeRef → SnapshotValue → Type 0
  MapRestores elem s =
      (entries : SnapshotEntries) × (is_nil : Bool) × (s ≡ map_snapshot entries is_nil)
      × Returns (collect_entries (sort_by_key (build_entries reg elem entries)))

  abbrev SliceRestores : TypeRef → SnapshotValue → Type 0
  SliceRestores elem s =
      (items : SnapshotItems) × (is_nil : Bool) × (s ≡ slice_snapshot items is_nil)
      × Returns (build_items reg elem items)

  module _ (empty : lookup "" reg ≡ none) where
    -- the `switch` of both functions, given what its cases do
    module _ (t : TypeRef) (r : Readings) (o : MachineObject)
        (in_struct : (s : SnapshotValue)
          → extract_struct reg t (fields_of (resolve_type reg t)) o ≡ ok s
          → StructRestores (fields_of (resolve_type reg t)) s)
        (in_map : (elem : TypeRef) (s : SnapshotValue)
          → extract_map reg t elem o ≡ ok s
          → MapRestores elem s)
        (in_slice : (elem : TypeRef) (s : SnapshotValue)
          → extract_slice reg t elem o ≡ ok s
          → SliceRestores elem s) where
      by_kind :
          (s : SnapshotValue) (k : TypeKind)
          → kind_of (resolve_type reg t) ≡ k
          → extract reg t (typed_value r o) ≡ ok s
          → Returns (build_expr reg t s)
      unfolding extract build_expr scalar_typed_value_to_string scalar_expr
      by_kind s TypeKind.scalar e h =
          let (text, read, h1) =
            >>=-eq-ok (scalar_typed_value_to_string (resolve_type reg t) r) _ (rw e at h) in
          let es : s ≡ scalar_snapshot text = cc h1 in
          rw (es, e) (scalar-Returns (normalized_string (resolve_type reg t)) r text read)
      by_kind s TypeKind.struct e h =
          let (named, h1) = >>-eq-ok _ _ (rw e at h) in
          let n = fail_if-not-eq-ok (is_named (kind_of t)) _ tt named in
          let (fields, es, l, b) = in_struct s h1 in
          rw (es, e, n, l, nat_eq_refl (fields_length (fields_of (resolve_type reg t))))
            (>>=-Returns (struct_name t (resolve_type reg t)) _ (named_struct_name reg t empty n e)
              λ name _. >>=-Returns _ _ b λ kvs _. (_, refl))
      by_kind s TypeKind.map e h =
          let (elem, typed, h1) =
            >>=-eq-ok (snapshot_map_elem reg t (resolve_type reg t)) _ (rw e at h) in
          let (entries, is_nil, es, b) = in_map elem s h1 in
          rw (es, e, typed)
            (nil_or is_nil _ _ (
              >>=-Returns _ _ b λ kvs _.
                >>=-Returns (map_type_expr (resolve_type reg t)) _
                  (map_type-Returns reg t (resolve_type reg t) elem typed) λ typ _. (_, refl)))
      by_kind s TypeKind.slice e h =
          let (elem, typed, h1) =
            >>=-eq-ok (snapshot_slice_elem reg t (resolve_type reg t)) _ (rw e at h) in
          let (items, is_nil, es, b) = in_slice elem s h1 in
          rw (es, e, typed)
            (nil_or is_nil _ _ (
              >>=-Returns _ _ b λ kvs _.
                >>=-Returns (build_type_expr elem) _
                  (slice_type-Returns reg t (resolve_type reg t) elem typed) λ typ _. (_, refl)))
      by_kind s _ e h = cc (rw e at h)

    mutual
      unfolding extract build_expr

      pub restorable_lem :
          (t : TypeRef) (v : MachineValue) (s : SnapshotValue)
          → extract reg t v ≡ ok s
          → Returns (build_expr reg t s)
      restorable_lem t (typed_value r o) s h =
          by_kind t r o (struct_restores t (fields_of (resolve_type reg t)) o)
            (λ elem. map_restores t elem o) (λ elem. slice_restores t elem o) s
            (kind_of (resolve_type reg t)) refl h

      struct_restores :
          (t : TypeRef) (fs : StructFields) (o : MachineObject) (s : SnapshotValue)
          → extract_struct reg t fs o ≡ ok s
          → StructRestores fs s
      struct_restores t fs (struct_object vs) s h =
          let (fields, e, h1) = >>=-eq-ok (_ >> extract_fields reg fs vs) _ h in
          let (counted, e1) = >>-eq-ok _ _ e in
          let (n, b) =
            fields_return fs vs fields
              (ground (
                arith,
                fail_if-not-eq-ok (nat_eq (values_length vs) (fields_length fs)) _ tt counted,
              ))
              e1 in
          (fields, cc h1, n, b)
      struct_restores t fs nil_object s h = cc h
      struct_restores t fs (map_object es) s h = cc h
      struct_restores t fs (slice_object es) s h = cc h
      struct_restores t fs slice_without_base s h = cc h
      struct_restores t fs other_object s h = cc h

      fields_return :
          (fs : StructFields) (vs : MachineValues) (captured : SnapshotFields)
          → values_length vs ≡ fields_length fs
          → extract_fields reg fs vs ≡ ok captured
          → (snapshot_fields_length captured ≡ fields_length fs)
            × Returns (build_fields reg fs captured)
      fields_return end vs captured l h =
          let e : captured ≡ no_fields = cc h in rw e (refl, (no_elements, refl))
      fields_return (field n t fs) no_values captured l h = absurd (omega arith)
      fields_return (field n t fs) (with_value v vs) captured l h =
          let (first, h1, h2) = >>=-eq-ok (_ >> extract reg t v) _ h in
          let (valid, h3) = >>-eq-ok (validate_struct_field_snapshot_type reg t) _ h1 in
          let (rest, h4, h5) = >>=-eq-ok (extract_fields reg fs vs) _ h2 in
          let e : captured ≡ with_field n first rest = cc h5 in
          let (k, b) = fields_return fs vs rest (omega arith) h4 in
          rw e (
            ap suc k,
            rw (eq_refl n, valid)
                (>>=-Returns (build_expr reg t first) _ (restorable_lem t v first h3)
                  λ x _. >>=-Returns (build_fields reg fs rest) _ b λ y _. (_, refl)),
          )

      map_restores :
          (t elem : TypeRef) (o : MachineObject) (s : SnapshotValue)
          → extract_map reg t elem o ≡ ok s
          → MapRestores elem s
      map_restores t elem nil_object s h = (no_entries, true, cc h, (no_elements, refl))
      map_restores t elem (map_object es) s h =
          let (m, h1, h2) = >>=-eq-ok (extract_entries reg elem es) _ h in
          (
            entries_of (sort_by_key m),
            false,
            cc h2,
            sorted_entries_return reg elem m (entries_build elem es m h1),
          )
      map_restores t elem (struct_object vs) s h = cc h
      map_restores t elem (slice_object vs) s h = cc h
      map_restores t elem slice_without_base s h = cc h
      map_restores t elem other_object s h = cc h

      entries_build :
          (elem : TypeRef) (es : MachineEntries) (m : List (String × SnapshotValue))
          → extract_entries reg elem es ≡ ok m
          → AllBuild reg elem m
      entries_build elem empty_map m h = let e : m ≡ [] = cc h in rw e tt
      entries_build elem (with_key k v es) m h =
          let (first, h1, h2) = >>=-eq-ok (extract reg elem v) _ h in
          let (rest, h3, h4) = >>=-eq-ok (extract_entries reg elem es) _ h2 in
          let e : m ≡ (k, first) ∷ rest = cc h4 in
          rw e (restorable_lem elem v first h1, entries_build elem es rest h3)

      slice_restores :
          (t elem : TypeRef) (o : MachineObject) (s : SnapshotValue)
          → extract_slice reg t elem o ≡ ok s
          → SliceRestores elem s
      slice_restores t elem nil_object s h = (no_items, true, cc h, (no_elements, refl))
      slice_restores t elem (slice_object vs) s h =
          let (items, h1, h2) = >>=-eq-ok (extract_items reg elem vs) _ h in
          (items, false, cc h2, items_return elem vs items h1)
      slice_restores t elem (struct_object vs) s h = cc h
      slice_restores t elem (map_object vs) s h = cc h
      slice_restores t elem slice_without_base s h = cc h
      slice_restores t elem other_object s h = cc h

      items_return :
          (elem : TypeRef) (vs : MachineValues) (items : SnapshotItems)
          → extract_items reg elem vs ≡ ok items
          → Returns (build_items reg elem items)
      items_return elem no_values items h =
          let e : items ≡ no_items = cc h in rw e (no_elements, refl)
      items_return elem (with_value v vs) items h =
          let (first, h1, h2) = >>=-eq-ok (extract reg elem v) _ h in
          let (rest, h3, h4) = >>=-eq-ok (extract_items reg elem vs) _ h2 in
          let e : items ≡ with_item first rest = cc h4 in
          rw e (
            >>=-Returns (build_expr reg elem first) _ (restorable_lem elem v first h1) λ x _.
              >>=-Returns (build_items reg elem rest) _ (items_return elem vs rest h3)
                λ y _. (_, refl))
