-- ===== src/Engine/SchemaCache/Transparent.antt =====
-- schema_cache.go: resolving a schema with a cache and without one.
use mitum_smart_contract.Base.{
  String, false, Option, none, some, [], ◌∷◌, Map, lookup, insert, ◌==◌, ◌≡◌, refl, sym, ◌∙◌, inl,
  inr, eq_iff, eq_refl, Result, ok, err, Option-cases, Bool-cases, Result-cases,
}
use mitum_smart_contract.Schema.TypeRef.{ContractSchema, schema_mode_typed_args}
use mitum_smart_contract.Engine.SchemaCache.{
  Cache, ResolveError, require_typed, load_from_cache, store_in_cache, stored, analyze_typed,
  cached_or_analyzed, resolve_schema,
}

lookup-insert_same {ℓ} :
    {V : Type ℓ} (k : String) (v : V) (m : Map V) → lookup k (insert k v m) ≡ some v
lookup-insert_same k v [] = rw (eq_refl k)
lookup-insert_same k v ((j, w) ∷ m) =
    let ih = lookup-insert_same k v m in
    elim (Bool-cases (j == k)) [ inl e ↦ rw (e, eq_refl k) | inr e ↦ rw (e, ih, e) ]

lookup-insert_other {ℓ} :
    {V : Type ℓ} (k j : String) (v : V) (m : Map V)
    → j == k ≡ false
    → lookup k (insert j v m) ≡ lookup k m
lookup-insert_other k j v [] h = rw (h)
lookup-insert_other k j v ((i, w) ∷ m) h =
    let ih = lookup-insert_other k j v m h in
    elim (Bool-cases (i == j)) [
      | inl e ↦ (let same : i ≡ j = (eq_iff i j).0 e in rw (e, same, h))
      | inr e ↦ rw (e, ih)
    ]

module _ (source_hash : String → String) (analyze : String → Result String ContractSchema) where
  -- Every schema in the cache is the typed schema of each source with that key.
  abbrev pub IsSound : Cache → Type 0
  IsSound cache =
      (source : String) (schema : ContractSchema)
      → lookup (source_hash source) cache ≡ some schema
      → analyze_typed source_hash analyze source ≡ ok schema

  typed_again : (s t : ContractSchema) → require_typed s ≡ ok t → require_typed t ≡ ok t
  unfolding require_typed
  typed_again s t h = elim (Bool-cases (s.mode == schema_mode_typed_args)) [
    | inl e ↦ (let h' = rw e at h in let q : s ≡ t = cc h' in rw (sym q, e))
    | inr e ↦ (let h' = rw e at h in cc h')
  ]

  analyzed_is_typed :
      (source : String) (t : ContractSchema)
      → analyze_typed source_hash analyze source ≡ ok t
      → require_typed t ≡ ok t
  unfolding analyze_typed
  analyzed_is_typed source t h = elim (Result-cases (analyze source)) [
    | inl (s, e) ↦ typed_again s t (rw (analyze_typed, e) at h)
    | inr (x, e) ↦ (let h' = rw (analyze_typed, e) at h in cc h')
  ]

  stored_answer :
      (cache : Cache) (source : String) (r : Result ResolveError ContractSchema)
      → (stored source_hash analyze cache source r).0 ≡ r
  unfolding stored
  stored_answer cache source (ok s) = refl
  stored_answer cache source (err e) = refl

  stored_sound :
      (cache : Cache) (source : String) (s : ContractSchema) (other : String)
      (schema : ContractSchema)
      → ((a b : String) → source_hash a ≡ source_hash b → a ≡ b)
      → IsSound cache
      → analyze_typed source_hash analyze source ≡ ok s
      → lookup (source_hash other) (insert (source_hash source) s cache) ≡ some schema
      → analyze_typed source_hash analyze other ≡ ok schema
  stored_sound cache source s other schema inj sound analyzed found =
      elim (Bool-cases (source_hash source == source_hash other)) [
        | inl e ↦
            (let keys : source_hash source ≡ source_hash other =
                (eq_iff (source_hash source) (source_hash other)).0 e in
              let same : source ≡ other = inj source other keys in
              let found' : some s ≡ some schema =
                sym (lookup-insert_same (source_hash source) s cache) ∙ rw (sym keys) at found in
              let q : s ≡ schema = cc found' in rw (sym same, analyzed, q))
        | inr e ↦
            sound other schema
              (sym (lookup-insert_other (source_hash other) (source_hash source) s cache e) ∙ found)
      ]

  -- With a sound cache, resolving gives exactly what it gives with an empty one, for every source and
  -- every pre-analyzed schema.
  pub resolve_schema_transparent :
      (cache : Cache) (pre : Option ContractSchema) (source : String)
      → IsSound cache
      → (resolve_schema source_hash analyze cache pre source).0
        ≡ (resolve_schema source_hash analyze [] pre source).0
  unfolding resolve_schema cached_or_analyzed load_from_cache
  resolve_schema_transparent cache (some schema) source sound = refl
  resolve_schema_transparent cache none source sound =
      elim (Option-cases (lookup (source_hash source) cache)) [
        | inl e ↦
            (let a = stored_answer cache source (analyze_typed source_hash analyze source) in
              let b = stored_answer [] source (analyze_typed source_hash analyze source) in
              rw (e, a, b))
        | inr (s, e) ↦
            (let analyzed = sound source s e in
              let b = stored_answer [] source (analyze_typed source_hash analyze source) in
              rw (e, b, analyzed, analyzed_is_typed source s analyzed))
      ]

  -- Resolving keeps the cache sound, when sources with one key are one source.
  pub resolve_schema-IsSound :
      (cache : Cache) (pre : Option ContractSchema) (source : String)
      → ((s t : String) → source_hash s ≡ source_hash t → s ≡ t)
      → IsSound cache
      → IsSound (resolve_schema source_hash analyze cache pre source).1
  unfolding resolve_schema cached_or_analyzed load_from_cache stored store_in_cache
  resolve_schema-IsSound cache (some schema) source inj sound other s found = sound other s found
  resolve_schema-IsSound cache none source inj sound other schema found =
      elim (Option-cases (lookup (source_hash source) cache)) [
        | inr (s, e) ↦ sound other schema (rw e at found)
        | inl e ↦
            (let found' = rw e at found in
              elim (Result-cases (analyze_typed source_hash analyze source)) [
                | inr (x, e') ↦ sound other schema (rw e' at found')
                | inl (s, e') ↦
                    stored_sound cache source s other schema inj sound e' (rw e' at found')
              ])
      ]
