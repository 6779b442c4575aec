-- ===== src/Engine/SchemaCache.antt =====
-- operation/contract/runtime/schema_cache.go and `resolveContractSchemaForExecution` of gno_engine.go:
-- the cache of analyzed schemas, keyed by the hash of the source. The hash (SHA-256) and the analysis
-- of the source are parameters.
pub mod Transparent
use mitum_smart_contract.Base.{
  String, Bool, not, Option, none, some, Map, lookup, insert, ◌==◌, Result, ok, err, if◌then◌else◌,
  ◌>>=◌,
}
use mitum_smart_contract.Schema.TypeRef.{ContractSchema, schema_mode_typed_args}

pub data ResolveError : Type 0 where
  requires_typed : ResolveError
  analysis_failed : String → ResolveError

abbrev pub Cache : Type 0
Cache = Map ContractSchema

-- a schema must be of the mode `typed_args_v1`
unfoldable pub require_typed : ContractSchema → Result ResolveError ContractSchema
require_typed schema =
    if not (schema.mode == schema_mode_typed_args) then err requires_typed else ok schema

module _ (source_hash : String → String) (analyze : String → Result String ContractSchema) where
  -- `loadContractSchemaFromCache`
  unfoldable pub load_from_cache : Cache → String → Option ContractSchema
  load_from_cache cache source = lookup (source_hash source) cache

  -- `storeContractSchemaInCache`
  unfoldable pub store_in_cache : Cache → String → ContractSchema → Cache
  store_in_cache cache source schema = insert (source_hash source) schema cache

  -- what a fresh analysis leaves: the schema, and the cache it is stored in
  stored :
      Cache
      → String
      → Result ResolveError ContractSchema
      → Result ResolveError ContractSchema × Cache
  unfolding store_in_cache
  stored cache source (err e) = (err e, cache)
  stored cache source (ok schema) = (ok schema, store_in_cache cache source schema)

  unfoldable pub analyze_typed : String → Result ResolveError ContractSchema
  unfolding require_typed
  analyze_typed source = elim (analyze source) [
    | err e ↦ err (analysis_failed e)
    | ok s ↦ require_typed s
  ]

  -- the two steps after the pre-analyzed schema: the cache, then the analysis
  cached_or_analyzed :
      Cache → String → Option ContractSchema → Result ResolveError ContractSchema × Cache
  unfolding stored require_typed analyze_typed
  cached_or_analyzed cache source (some schema) = (require_typed schema, cache)
  cached_or_analyzed cache source none = stored cache source (analyze_typed source)

  -- `resolveContractSchemaForExecution`
  unfoldable pub resolve_schema :
      Cache → Option ContractSchema → String → Result ResolveError ContractSchema × Cache
  unfolding cached_or_analyzed load_from_cache require_typed
  resolve_schema cache (some schema) source = (require_typed schema, cache)
  resolve_schema cache none source = cached_or_analyzed cache source (load_from_cache cache source)
