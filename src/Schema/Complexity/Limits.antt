-- ===== src/Schema/Complexity/Limits.antt =====
-- What `validateContractSchemaComplexity` accepts.
use mitum_smart_contract.Base.{
  ℕ, ◌≤◌, false, List, [], ◌∷◌, ◌≡◌, ◌↔◌, refl, arith, ltb, length, All, Result, ok, fail_if, ◌>>=◌,
  ◌>>◌, >>=-eq-ok, >>-eq-ok, fail_if-eq-ok, Returns, >>=-Returns,
}
use mitum_smart_contract.Schema.TypeRef.{TypeRef, TypeRegistry, fields_of, ContractSchema}
use mitum_smart_contract.Schema.Complexity.{
  field_types, struct_types, function_types, global_types, ComplexityError, field_count,
  validate_field_counts, contract_schema_type_depth, contract_schema_type_node_count,
  greatest_depth, sum_of_nodes, max_contract_schema_type_depth, contract_schema_node_count,
  validate_contract_schema_complexity,
}
use mitum_smart_contract.Schema.Complexity.Walks.{IsKeyed, measures_end}

abbrev pub AreNarrow : TypeRegistry → Type 0
AreNarrow = All λ entry. field_count (fields_of entry.1) ≤ 64

-- The limits, on the numbers themselves.
abbrev pub IsSimple : ContractSchema → ℕ → Type 0
IsSimple schema import_count =
    (import_count ≤ 16)
    × (length schema.functions ≤ 128)
    × (length schema.persistent_globals ≤ 128)
    × (length schema.types ≤ 64)
    × AreNarrow schema.types
    × ((d : ℕ) × (max_contract_schema_type_depth schema ≡ ok d) × (d ≤ 16))
    × ((n : ℕ) × (contract_schema_node_count schema import_count ≡ ok n) × (n ≤ 4096))

narrow_iff : (reg : TypeRegistry) → (validate_field_counts reg ≡ ok tt) ↔ AreNarrow reg
unfolding validate_field_counts
narrow_iff [] = (λ h. tt, λ h. refl)
narrow_iff ((k, t) ∷ reg) = (
  λ h.
      let (a, b) = >>-eq-ok _ (validate_field_counts reg) h in
      let few = fail_if-eq-ok (ltb 64 (field_count (fields_of t))) _ tt a in
      (ground (arith, few), (narrow_iff reg).0 b),
  λ h.
      let few : ltb 64 (field_count (fields_of t)) ≡ false = ground arith in
      rw few ((narrow_iff reg).1 h.1),
)

-- A schema passes exactly when it has at most 16 imports, 128 functions, 128 variables and 64 structs,
-- no struct has more than 64 fields, and its greatest depth and its number of nodes are found and are at
-- most 16 and 4096.
pub complexity_iff :
    (schema : ContractSchema) (import_count : ℕ)
    → (validate_contract_schema_complexity schema import_count ≡ ok tt)
      ↔ IsSimple schema import_count
unfolding validate_contract_schema_complexity
complexity_iff schema import_count = (
  λ h.
      let (d, h1, h2) = >>=-eq-ok (_ >> max_contract_schema_type_depth schema) _ h in
      let (g5, depth) = >>-eq-ok _ (max_contract_schema_type_depth schema) h1 in
      let (g4, narrow) = >>-eq-ok _ (validate_field_counts schema.types) g5 in
      let (g3, structs) = >>-eq-ok _ (fail_if (ltb 64 (length schema.types)) _) g4 in
      let (g2, globals) = >>-eq-ok _ (fail_if (ltb 128 (length schema.persistent_globals)) _) g3 in
      let (imports, functions) =
        >>-eq-ok (fail_if (ltb 16 import_count) _) (fail_if (ltb 128 (length schema.functions)) _)
          g2 in
      let (n, h3, nodes) = >>=-eq-ok (_ >> contract_schema_node_count schema import_count) _ h2 in
      let (deep, count) =
        >>-eq-ok (fail_if (ltb 16 d) _) (contract_schema_node_count schema import_count) h3 in
      let i = fail_if-eq-ok (ltb 16 import_count) _ tt imports in
      let f = fail_if-eq-ok (ltb 128 (length schema.functions)) _ tt functions in
      let g = fail_if-eq-ok (ltb 128 (length schema.persistent_globals)) _ tt globals in
      let s = fail_if-eq-ok (ltb 64 (length schema.types)) _ tt structs in
      let e = fail_if-eq-ok (ltb 16 d) _ tt deep in
      let c = fail_if-eq-ok (ltb 4096 n) _ tt nodes in
      (
        ground (arith, i),
        ground (arith, f),
        ground (arith, g),
        ground (arith, s),
        (narrow_iff schema.types).0 narrow,
        (d, depth, ground (arith, e)),
        (n, count, ground (arith, c)),
      ),
  λ (i, f, g, s, narrow, (d, depth, e), (n, count, c)).
      let i' : ltb 16 import_count ≡ false = ground arith in
      let f' : ltb 128 (length schema.functions) ≡ false = ground arith in
      let g' : ltb 128 (length schema.persistent_globals) ≡ false = ground arith in
      let s' : ltb 64 (length schema.types) ≡ false = ground arith in
      let e' : ltb 16 d ≡ false = ground arith in
      let c' : ltb 4096 n ≡ false = ground arith in
      rw (i', f', g', s', (narrow_iff schema.types).1 narrow, depth, e', count, c') refl,
)

depths_return :
    (reg : TypeRegistry) (ts : List TypeRef) → IsKeyed reg → Returns (greatest_depth reg ts)
unfolding greatest_depth
depths_return reg [] keyed = (0, refl)
depths_return reg (t ∷ ts) keyed =
    >>=-Returns (contract_schema_type_depth reg t) _ (measures_end reg t keyed).0
      λ d _. >>=-Returns (greatest_depth reg ts) _ (depths_return reg ts keyed) λ rest _. (_, refl)

nodes_return :
    (reg : TypeRegistry) (ts : List TypeRef) → IsKeyed reg → Returns (sum_of_nodes reg ts)
unfolding sum_of_nodes
nodes_return reg [] keyed = (0, refl)
nodes_return reg (t ∷ ts) keyed =
    >>=-Returns (contract_schema_type_node_count reg t) _ (measures_end reg t keyed).1
      λ d _. >>=-Returns (sum_of_nodes reg ts) _ (nodes_return reg ts keyed) λ rest _. (_, refl)

counted-Returns :
    (m : Result ComplexityError ℕ) (f : ℕ → ℕ) → Returns m → Returns (m >>= λ n. ok (f n))
counted-Returns m f h = >>=-Returns m _ h λ n _. (f n, refl)

-- For a schema whose registry has only structs, each under its own name, which is not empty, the walks
-- over all the types of the schema end: its depth and its number of nodes are computed, whatever names
-- its types, its globals and its functions use. An analysed schema has such a registry.
pub schema_measures_end :
    (schema : ContractSchema) (import_count : ℕ)
    → IsKeyed schema.types
    → Returns (max_contract_schema_type_depth schema)
      × Returns (contract_schema_node_count schema import_count)
unfolding max_contract_schema_type_depth contract_schema_node_count
schema_measures_end schema import_count keyed =
    let outside = global_types schema.persistent_globals (function_types schema.functions) in
    (
      depths_return schema.types (struct_types schema.types outside) keyed,
      counted-Returns _ _ (nodes_return schema.types (field_types schema.types outside) keyed),
    )
