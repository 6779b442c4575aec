-- ===== src/Persist/Analyzed/Whole.antt =====
-- schema_analyzer.go and schema_metadata.go: an analysis as a whole, and its schema's way through the state.
use mitum_smart_contract.Base.{
  String, Bool, true, some, none, List, [], ◌∷◌, ◌≡◌, ◌≢◌, refl, length, All, Option, ok, ◌>>◌,
  >>=-eq-ok, >>-eq-ok, map_err, map_err-eq-ok, fail_if-not-eq-ok,
}
use mitum_smart_contract.Schema.TypeRef.{
  TypeRegistry, ContractSchema, PersistentBindingSchema, schema_mode_typed_args,
}
use mitum_smart_contract.Schema.Ruleset.{is_allowed_typed_contract_import}
use mitum_smart_contract.Schema.Source.{ImportSpec, SourceFile}
use mitum_smart_contract.Schema.Finalize.{finalize_contract_schema}
use mitum_smart_contract.Schema.Finalize.Accepted.{finalize_accepts, IsGlobal}
use mitum_smart_contract.Schema.Complexity.{
  contract_schema_node_count, max_contract_schema_type_depth, validate_contract_schema_complexity,
}
use mitum_smart_contract.Schema.Complexity.Walks.{IsKeyed}
use mitum_smart_contract.Schema.Complexity.Limits.{IsSimple, complexity_iff}
use mitum_smart_contract.Schema.Analyzer.{populate, new_type_resolver}
use mitum_smart_contract.Schema.Analyzer.Imports.{
  validate_import, validate_contract_imports, mitum_chain_import_names,
}
use mitum_smart_contract.Schema.Analyzer.Contract.{
  bad_type, bad_schema, Parts, collect_parts, analyze_file,
}
use mitum_smart_contract.Persist.Save.{new_persisted_contract_schema}
use mitum_smart_contract.Persist.Load.{runtime_schema_from_persisted}
use mitum_smart_contract.Persist.Schemas.{
  bindings_are_well_shaped, functions_are_well_shaped, schema_is_well_shaped,
}
use mitum_smart_contract.Persist.Reload.{reload}
use mitum_smart_contract.Persist.Analyzed.Registry.{AreNamed, populate_lem}
use mitum_smart_contract.Persist.Analyzed.Parts.{IsShapedBinding, parts-AreShaped}

-- The import has a path that the policy allows.
abbrev pub IsAllowed : ImportSpec → Type 0
IsAllowed imp =
    (path : String) × (imp.path ≡ some path) × (is_allowed_typed_contract_import path ≡ true)

import-IsAllowed :
    (o : Option String)
    → validate_import o ≡ ok tt
    → (path : String) × (o ≡ some path) × (is_allowed_typed_contract_import path ≡ true)
unfolding validate_import
import-IsAllowed none h = cc h
import-IsAllowed (some path) h =
    (path, refl, fail_if-not-eq-ok (is_allowed_typed_contract_import path) _ tt h)

imports-AreAllowed :
    (imps : List ImportSpec) → validate_contract_imports imps ≡ ok tt → All IsAllowed imps
unfolding validate_contract_imports
imports-AreAllowed [] h = tt
imports-AreAllowed (imp ∷ imps) h =
    let (a, b) = >>-eq-ok (validate_import imp.path) (validate_contract_imports imps) h in
    (import-IsAllowed imp.path a, imports-AreAllowed imps b)

globals-shaped :
    (reg : TypeRegistry) (gs : List PersistentBindingSchema)
    → All IsShapedBinding gs
    → All (IsGlobal reg) gs
    → bindings_are_well_shaped gs ≡ true
unfolding bindings_are_well_shaped
globals-shaped reg [] s g = refl
globals-shaped reg (b ∷ bs) (s, ss) (g, gs) = rw (s g.0, globals-shaped reg bs ss gs) refl

-- the schema before the last check, which only sets its mode
abbrev unfinished : SourceFile → TypeRegistry → Parts → ContractSchema
unfinished node types parts = record {
  package_name = node.package_name;
  mode = "";
  types = types;
  persistent_globals = parts.globals;
  functions = parts.functions;
}

-- the steps of an analysis that succeeds
abbrev IsAnalyzed : (String → Bool) → SourceFile → ContractSchema → Type 0
IsAnalyzed is_exported node s =
    (types : TypeRegistry) × (parts : Parts) × (validate_contract_imports node.imports ≡ ok tt)
    × (populate (new_type_resolver node.decls []) (new_type_resolver node.decls []) [] ≡ ok types)
    × (collect_parts is_exported (new_type_resolver node.decls [])
          (mitum_chain_import_names node.imports) node.decls
          (record { globals = []; functions = [] })
        ≡ ok parts)
    × (validate_contract_schema_complexity (unfinished node types parts) (length node.imports)
        ≡ ok tt)
    × (finalize_contract_schema (unfinished node types parts) ≡ ok s)

analysis-IsAnalyzed :
    (is_exported : String → Bool) (node : SourceFile) (s : ContractSchema)
    → analyze_file is_exported node ≡ ok s
    → IsAnalyzed is_exported node s
unfolding analyze_file
analysis-IsAnalyzed is_exported node s h =
    let decls = new_type_resolver node.decls [] in
    let (types, h1, h2) = >>=-eq-ok (_ >> map_err bad_type (populate decls decls [])) _ h in
    let (imports, registered) = >>-eq-ok _ (map_err bad_type (populate decls decls [])) h1 in
    let (parts, h3, h4) =
      >>=-eq-ok
        (collect_parts is_exported decls (mitum_chain_import_names node.imports) node.decls
          (record { globals = []; functions = [] }))
        _ h2 in
    let (simple, final) =
      >>-eq-ok _ (map_err bad_schema (finalize_contract_schema (unfinished node types parts))) h4 in
    (
      types,
      parts,
      map_err-eq-ok _ _ tt imports,
      map_err-eq-ok _ _ types registered,
      h3,
      map_err-eq-ok _ _ tt simple,
      map_err-eq-ok _ _ s final,
    )

-- A source is analysed only when each of its imports is one of the allowed paths and its schema, which is
-- in typed mode and of the package `contract`, is within every limit on its size and its nesting.
pub analysis_promises :
    (is_exported : String → Bool) (node : SourceFile) (s : ContractSchema)
    → analyze_file is_exported node ≡ ok s
    → All IsAllowed node.imports
      × (s.mode ≡ schema_mode_typed_args)
      × (s.package_name ≡ "contract")
      × IsSimple s (length node.imports)
unfolding max_contract_schema_type_depth contract_schema_node_count
analysis_promises is_exported node s h =
    let (types, parts, imports, registered, collected, simple, final) =
      analysis-IsAnalyzed is_exported node s h in
    let (same, named, init, globals, functions) =
      finalize_accepts (unfinished node types parts) s final in
    let within = (complexity_iff (unfinished node types parts) (length node.imports)).0 simple in
    (imports-AreAllowed node.imports imports, rw same refl, rw same named, rw same within)

-- The types of an analysed contract: the registry lists structs under their own names, and every type
-- that the schema names is well shaped. The declared type names are not empty.
pub analysis-shaped :
    (is_exported : String → Bool) (node : SourceFile) (s : ContractSchema)
    → AreNamed (new_type_resolver node.decls [])
    → analyze_file is_exported node ≡ ok s
    → IsKeyed s.types × (schema_is_well_shaped s ≡ true)
unfolding schema_is_well_shaped functions_are_well_shaped
analysis-shaped is_exported node s named h =
    let (types, parts, imports, registered, collected, simple, final) =
      analysis-IsAnalyzed is_exported node s h in
    let (same, kept, init, globals, functions) =
      finalize_accepts (unfinished node types parts) s final in
    let (keyed, types_shaped) =
      populate_lem (new_type_resolver node.decls []) types named registered in
    let (bindings, fns) =
      parts-AreShaped is_exported (new_type_resolver node.decls [])
        (mitum_chain_import_names node.imports) node.decls (record { globals = []; functions = [] })
        parts (tt, refl) collected in
    rw same
      (keyed, rw (types_shaped, globals-shaped types parts.globals bindings globals, fns) refl)

-- A contract that is analysed and registered is read back from state with the schema of the analysis, for
-- its own source, given that the hash of the source and the declared type names are not empty.
pub analyze-reload :
    (source_hash : String → String) (source : String) (is_exported : String → Bool)
    (node : SourceFile) (s : ContractSchema)
    → AreNamed (new_type_resolver node.decls [])
    → source_hash source ≢ ""
    → analyze_file is_exported node ≡ ok s
    → runtime_schema_from_persisted source_hash source
        (some (new_persisted_contract_schema source_hash source s))
      ≡ some s
analyze-reload source_hash source is_exported node s named hashed h =
    let (types, parts, imports, registered, collected, simple, final) =
      analysis-IsAnalyzed is_exported node s h in
    reload source_hash source (unfinished node types parts) s final
      (analysis-shaped is_exported node s named h).1 hashed
