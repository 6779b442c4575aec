-- ===== src/Engine/QueryValue/Total.antt =====
-- gno_query_value.go: `ExtractQueryValue` and the conversion of what it returns.
use mitum_smart_contract.Base.{
  ℕ, suc, Bool, true, false, if◌then◌else◌, ◌≡◌, refl, ap, arith, Result, ok, ◌>>◌, [], ◌∷◌, Map,
  All, >>=-eq-ok, >>-eq-ok, Returns, >>=-Returns, nat_eq, fail_if-not-eq-ok, eq_refl,
}
use mitum_smart_contract.Schema.TypeRef.{
  TypeKind, TypeRef, type_ref, TypePtr, StructFields, end, field, TypeRegistry, kind_of, fields_of,
  elem_of, resolve_type, normalized_string,
}
use mitum_smart_contract.Snapshot.{
  SnapshotValue, SnapshotFields, SnapshotEntries, SnapshotItems, no_fields, with_field, no_entries,
  no_items, with_item,
}
use mitum_smart_contract.Snapshot.Values.{
  Readings, MachineValue, typed_value, MachineObject, nil_object, struct_object, map_object,
  slice_object, slice_without_base, other_object, MachineValues, no_values, with_value,
  MachineEntries, empty_map, with_key, values_length,
}
use mitum_smart_contract.Snapshot.Sorting.{sort_by_key}
use mitum_smart_contract.Snapshot.Sorting.Order.{sort_by_key-All}
use mitum_smart_contract.Snapshot.Codec.{
  is_named, fields_length, extract, extract_struct, extract_fields, extract_map, extract_entries,
  extract_slice, extract_items, struct_snapshot, map_snapshot, slice_snapshot, scalar_snapshot,
  scalar_typed_value_to_string, entries_of, snapshot_map_elem, snapshot_slice_elem,
  validate_struct_field_snapshot_type,
}
use mitum_smart_contract.Engine.QueryValue.{
  QueryValue, Json, QueryValueError, no_members, no_elements, query_scalar_to_json, query_json,
  to_query_value, to_query_fields, to_query_entries, to_query_items, query_entries, query_items,
  query_fields_length, elem_beside_key, query_fields, JsonMembers, extract_query_value,
}
use mitum_smart_contract.Engine.QueryValue.Converts.{
  FitReadings, query_scalar-scalar_text, reading_json,
}

-- Every number in the value fits in 64 bits.
unfoldable mutual
  pub Fits : MachineValue → Type 0
  Fits (typed_value r o) = FitReadings r × FitsObject o

  FitsObject : MachineObject → Type 0
  FitsObject (struct_object vs) = FitValues vs
  FitsObject (slice_object vs) = FitValues vs
  FitsObject (map_object es) = FitEntries es
  FitsObject o = Unit

  FitValues : MachineValues → Type 0
  FitValues no_values = Unit
  FitValues (with_value v vs) = Fits v × FitValues vs

  FitEntries : MachineEntries → Type 0
  FitEntries empty_map = Unit
  FitEntries (with_key k v es) = Fits v × FitEntries es

nil_or :
    (is_nil : Bool) (a : Result QueryValueError Json) (j : Json)
    → Returns a
    → Returns (if is_nil then ok j else a)
nil_or true a j h = (j, refl)
nil_or false a j h = h

nat_eq_refl : (n : ℕ) → nat_eq n n ≡ true
nat_eq_refl n = ground arith

map_elem_known :
    (reg : TypeRegistry) (t resolved elem : TypeRef)
    → snapshot_map_elem reg t resolved ≡ ok elem
    → elem_beside_key resolved ≡ TypePtr.ptr elem
unfolding snapshot_map_elem
map_elem_known reg t (type_ref k raw sc name (TypePtr.ptr key) (TypePtr.ptr el) fs) elem h =
    ground arith
map_elem_known reg t (type_ref k raw sc name (TypePtr.ptr key) TypePtr.null fs) elem h = cc h
map_elem_known reg t (type_ref k raw sc name TypePtr.null el fs) elem h = cc h

slice_elem_known :
    (reg : TypeRegistry) (t resolved elem : TypeRef)
    → snapshot_slice_elem reg t resolved ≡ ok elem
    → elem_of resolved ≡ TypePtr.ptr elem
unfolding snapshot_slice_elem
slice_elem_known reg t (type_ref k raw sc name key (TypePtr.ptr el) fs) elem h = ground arith
slice_elem_known reg t (type_ref k raw sc name key TypePtr.null fs) elem h = cc h

module _ (reg : TypeRegistry) where
  abbrev AllConvert : TypeRef → Map SnapshotValue → Type 0
  AllConvert elem = All λ entry. Returns (query_json reg elem (to_query_value entry.1))

  entries_return :
      (elem : TypeRef) (m : Map SnapshotValue) (out : JsonMembers)
      → AllConvert elem m
      → Returns (query_entries reg elem (to_query_entries (entries_of m)) out)
  unfolding query_json to_query_value
  entries_return elem [] out hs = (out, refl)
  entries_return elem ((k, v) ∷ m) out (h, hs) =
      >>=-Returns (query_json reg elem (to_query_value v)) _ h λ x _. entries_return elem m _ hs

  abbrev StructConverts : StructFields → SnapshotValue → Type 0
  StructConverts fs s =
      (fields : SnapshotFields) × (s ≡ struct_snapshot fields)
      × (query_fields_length (to_query_fields fields) ≡ fields_length fs)
      × Returns (query_fields reg fs (to_query_fields fields) no_members)

  abbrev MapConverts : TypeRef → SnapshotValue → Type 0
  MapConverts elem s =
      (entries : SnapshotEntries) × (is_nil : Bool) × (s ≡ map_snapshot entries is_nil)
      × Returns (query_entries reg elem (to_query_entries entries) no_members)

  abbrev SliceConverts : TypeRef → SnapshotValue → Type 0
  SliceConverts elem s =
      (items : SnapshotItems) × (is_nil : Bool) × (s ≡ slice_snapshot items is_nil)
      × Returns (query_items reg elem (to_query_items items))

  -- the `switch` of both functions, given what its cases do
  module _ (t : TypeRef) (r : Readings) (o : MachineObject)
      (in_struct : (s : SnapshotValue)
        → extract_struct reg t (fields_of (resolve_type reg t)) o ≡ ok s
        → StructConverts (fields_of (resolve_type reg t)) s)
      (in_map : (elem : TypeRef) (s : SnapshotValue)
        → extract_map reg t elem o ≡ ok s
        → MapConverts elem s)
      (in_slice : (elem : TypeRef) (s : SnapshotValue)
        → extract_slice reg t elem o ≡ ok s
        → SliceConverts elem s) where
    switch_converts :
        (s : SnapshotValue) (k : TypeKind)
        → FitReadings r
        → kind_of (resolve_type reg t) ≡ k
        → extract reg t (typed_value r o) ≡ ok s
        → Returns (query_json reg t (to_query_value s))
    unfolding extract query_json to_query_value scalar_typed_value_to_string query_scalar_to_json
    switch_converts s TypeKind.scalar fit e h =
        let (text, read, h1) =
          >>=-eq-ok (scalar_typed_value_to_string (resolve_type reg t) r) _ (rw e at h) in
        let es : s ≡ scalar_snapshot text = cc h1 in
        rw (es, e)
          (
            reading_json (normalized_string (resolve_type reg t)) r,
            query_scalar-scalar_text (normalized_string (resolve_type reg t)) r text fit read,
          )
    switch_converts s TypeKind.struct fit e h =
        let (named, h1) =
          >>-eq-ok _ (extract_struct reg t (fields_of (resolve_type reg t)) o) (rw e at h) in
        let n = fail_if-not-eq-ok (is_named (kind_of t)) _ tt named in
        let (fields, es, l, b) = in_struct s h1 in
        rw (es, e, n, l, nat_eq_refl (fields_length (fields_of (resolve_type reg t))))
          (>>=-Returns _ _ b λ out _. (_, refl))
    switch_converts s TypeKind.map fit e h =
        let (elem, typed, h1) =
          >>=-eq-ok (snapshot_map_elem reg t (resolve_type reg t)) _ (rw e at h) in
        let (entries, is_nil, es, b) = in_map elem s h1 in
        rw (es, e, map_elem_known reg t (resolve_type reg t) elem typed)
          (nil_or is_nil _ _ (>>=-Returns _ _ b λ out _. (_, refl)))
    switch_converts s TypeKind.slice fit e h =
        let (elem, typed, h1) =
          >>=-eq-ok (snapshot_slice_elem reg t (resolve_type reg t)) _ (rw e at h) in
        let (items, is_nil, es, b) = in_slice elem s h1 in
        rw (es, e, slice_elem_known reg t (resolve_type reg t) elem typed)
          (nil_or is_nil _ _ (>>=-Returns _ _ b λ out _. (_, refl)))
    switch_converts s _ fit e h = cc (rw e at h)

  mutual
    unfolding extract query_json to_query_value Fits

    converts :
        (t : TypeRef) (v : MachineValue) (s : SnapshotValue)
        → Fits v
        → extract reg t v ≡ ok s
        → Returns (query_json reg t (to_query_value s))
    converts t (typed_value r o) s (fit, fits) h =
        switch_converts t r o (λ s'. struct_converts t (fields_of (resolve_type reg t)) o s' fits)
          (λ elem s'. map_converts t elem o s' fits) (λ elem s'. slice_converts t elem o s' fits) s
          (kind_of (resolve_type reg t)) fit refl h

    struct_converts :
        (t : TypeRef) (fs : StructFields) (o : MachineObject) (s : SnapshotValue)
        → FitsObject o
        → extract_struct reg t fs o ≡ ok s
        → StructConverts fs s
    struct_converts t fs (struct_object vs) s fits h =
        let (fields, e, h1) = >>=-eq-ok (_ >> extract_fields reg fs vs) _ h in
        let (counted, e1) = >>-eq-ok _ (extract_fields reg fs vs) e in
        let same = fail_if-not-eq-ok (nat_eq (values_length vs) (fields_length fs)) _ tt counted in
        let (n, b) = fields_convert fs vs fields (ground (arith, same)) fits e1 in
        (fields, cc h1, n, b no_members)
    struct_converts t fs nil_object s fits h = cc h
    struct_converts t fs (map_object es) s fits h = cc h
    struct_converts t fs (slice_object vs) s fits h = cc h
    struct_converts t fs slice_without_base s fits h = cc h
    struct_converts t fs other_object s fits h = cc h

    fields_convert :
        (fs : StructFields) (vs : MachineValues) (captured : SnapshotFields)
        → values_length vs ≡ fields_length fs
        → FitValues vs
        → extract_fields reg fs vs ≡ ok captured
        → (query_fields_length (to_query_fields captured) ≡ fields_length fs)
          × ((out : JsonMembers) → Returns (query_fields reg fs (to_query_fields captured) out))
    fields_convert end vs captured l fits h =
        let e : captured ≡ no_fields = cc h in rw e (refl, λ out. (out, refl))
    fields_convert (field n t fs) no_values captured l fits h = absurd (omega arith)
    fields_convert (field n t fs) (with_value v vs) captured l (fit, fits) h =
        let (first, h1, h2) = >>=-eq-ok (_ >> extract reg t v) _ h in
        let (valid, h3) = >>-eq-ok (validate_struct_field_snapshot_type reg t) _ h1 in
        let (rest, h4, h5) = >>=-eq-ok (extract_fields reg fs vs) _ h2 in
        let e : captured ≡ with_field n first rest = cc h5 in
        let (k, b) = fields_convert fs vs rest (omega arith) fits h4 in
        rw e (
          ap suc k,
          λ out. rw (eq_refl n) (
              >>=-Returns (query_json reg t (to_query_value first)) _ (converts t v first fit h3)
                λ x _. b _),
        )

    map_converts :
        (t elem : TypeRef) (o : MachineObject) (s : SnapshotValue)
        → FitsObject o
        → extract_map reg t elem o ≡ ok s
        → MapConverts elem s
    map_converts t elem nil_object s fits h = (no_entries, true, cc h, (no_members, refl))
    map_converts t elem (map_object es) s fits h =
        let (m, h1, h2) = >>=-eq-ok (extract_entries reg elem es) _ h in
        (
          entries_of (sort_by_key m),
          false,
          cc h2,
          entries_return elem (sort_by_key m) no_members
              (sort_by_key-All _ m (entries_convert elem es m fits h1)),
        )
    map_converts t elem (struct_object vs) s fits h = cc h
    map_converts t elem (slice_object vs) s fits h = cc h
    map_converts t elem slice_without_base s fits h = cc h
    map_converts t elem other_object s fits h = cc h

    entries_convert :
        (elem : TypeRef) (es : MachineEntries) (m : Map SnapshotValue)
        → FitEntries es
        → extract_entries reg elem es ≡ ok m
        → AllConvert elem m
    entries_convert elem empty_map m fits h = let e : m ≡ [] = cc h in rw e tt
    entries_convert elem (with_key k v es) m (fit, fits) h =
        let (first, h1, h2) = >>=-eq-ok (extract reg elem v) _ h in
        let (rest, h3, h4) = >>=-eq-ok (extract_entries reg elem es) _ h2 in
        let e : m ≡ ((k, first) ∷ rest) = cc h4 in
        rw e (converts elem v first fit h1, entries_convert elem es rest fits h3)

    slice_converts :
        (t elem : TypeRef) (o : MachineObject) (s : SnapshotValue)
        → FitsObject o
        → extract_slice reg t elem o ≡ ok s
        → SliceConverts elem s
    slice_converts t elem nil_object s fits h = (no_items, true, cc h, (no_elements, refl))
    slice_converts t elem (slice_object vs) s fits h =
        let (items, h1, h2) = >>=-eq-ok (extract_items reg elem vs) _ h in
        (items, false, cc h2, items_convert elem vs items fits h1)
    slice_converts t elem (struct_object vs) s fits h = cc h
    slice_converts t elem (map_object vs) s fits h = cc h
    slice_converts t elem slice_without_base s fits h = cc h
    slice_converts t elem other_object s fits h = cc h

    items_convert :
        (elem : TypeRef) (vs : MachineValues) (items : SnapshotItems)
        → FitValues vs
        → extract_items reg elem vs ≡ ok items
        → Returns (query_items reg elem (to_query_items items))
    items_convert elem no_values items fits h =
        let e : items ≡ no_items = cc h in rw e (no_elements, refl)
    items_convert elem (with_value v vs) items (fit, fits) h =
        let (first, h1, h2) = >>=-eq-ok (extract reg elem v) _ h in
        let (rest, h3, h4) = >>=-eq-ok (extract_items reg elem vs) _ h2 in
        let e : items ≡ with_item first rest = cc h4 in
        rw e (
          >>=-Returns (query_json reg elem (to_query_value first)) _ (converts elem v first fit h1)
            λ x _.
              >>=-Returns (query_items reg elem (to_query_items rest)) _
                (items_convert elem vs rest fits h3) λ y _. (_, refl))

-- A result whose numbers fit in 64 bits and that `ExtractQueryValue` takes is converted to JSON without
-- an error, for every type, at any depth.
pub extracted-converts :
    (reg : TypeRegistry) (t : TypeRef) (v : MachineValue) (q : QueryValue)
    → Fits v
    → extract_query_value reg t v ≡ ok q
    → Returns (query_json reg t q)
unfolding extract_query_value
extracted-converts reg t v q fits h =
    let (s, h1, h2) = >>=-eq-ok (extract reg t v) _ h in
    let e : q ≡ to_query_value s = cc h2 in rw e (converts reg t v s fits h1)
