-- ===== src/Schema/Analyzer/Contract.antt =====
-- operation/contract/runtime/schema_analyzer.go: `AnalyzeContractSchema`. `parser.ParseFile` and
-- `ast.IsExported` are parameters.
use mitum_smart_contract.Base.{
  String, Bool, List, [], ◌∷◌, ◌++◌, if◌then◌else◌, length, Result, ok, map_err, ◌>>=◌, ◌>>◌,
}
use mitum_smart_contract.Schema.TypeRef.{ContractSchema, PersistentBindingSchema, FunctionSchema}
use mitum_smart_contract.Schema.Finalize.{SchemaError, finalize_contract_schema}
use mitum_smart_contract.Schema.Complexity.{ComplexityError, validate_contract_schema_complexity}
use mitum_smart_contract.Schema.Source.{
  Decl, type_decl, var_decl, func_decl, other_decl, SourceFile,
}
use mitum_smart_contract.Schema.Analyzer.{
  ResolveError, TypeDecls, populate, new_type_resolver, parse_persistent_bindings,
  parse_function_schema,
}
use mitum_smart_contract.Schema.Analyzer.Imports.{
  UsageError, validate_contract_imports, mitum_chain_import_names, validate_context_abi_usage,
}

pub data AnalyzeError : Type 0 where
  parse_failed : AnalyzeError
  bad_usage : UsageError → AnalyzeError
  bad_type : ResolveError → AnalyzeError
  too_complex : ComplexityError → AnalyzeError
  bad_schema : SchemaError → AnalyzeError

-- What the loop over the declarations collects.
pub record Parts : Type 0 where
  pub globals : List PersistentBindingSchema
  pub functions : List FunctionSchema

module _ (is_exported : String → Bool) where
  -- the loop over `node.Decls`, with what it has collected
  unfoldable pub collect_parts :
      TypeDecls → List String → List Decl → Parts → Result AnalyzeError Parts
  unfolding parse_persistent_bindings parse_function_schema validate_context_abi_usage
  collect_parts decls names [] parts = ok parts
  collect_parts decls names (type_decl specs ∷ ds) parts = collect_parts decls names ds parts
  collect_parts decls names (other_decl ∷ ds) parts = collect_parts decls names ds parts
  collect_parts decls names (var_decl specs ∷ ds) parts =
      map_err bad_type (parse_persistent_bindings decls specs) >>= λ globals.
      collect_parts decls names ds (record parts { globals = parts.globals ++ globals })
  collect_parts decls names (func_decl fn ∷ ds) parts =
      let skipped = collect_parts decls names ds parts in
      if fn.has_receiver
      then skipped
      else map_err bad_type (parse_function_schema is_exported decls fn) >>= λ f.
          map_err bad_usage (validate_context_abi_usage fn f names)
          >> collect_parts decls names ds (record parts { functions = parts.functions ++ (f ∷ []) })

  -- `AnalyzeContractSchema` behind the parser
  unfoldable pub analyze_file : SourceFile → Result AnalyzeError ContractSchema
  unfolding collect_parts validate_contract_imports mitum_chain_import_names populate
      new_type_resolver validate_contract_schema_complexity finalize_contract_schema
  analyze_file node =
      let decls = new_type_resolver node.decls [] in
      map_err bad_usage (validate_contract_imports node.imports)
      >> map_err bad_type (populate decls decls [])
      >>= λ types.
          collect_parts decls (mitum_chain_import_names node.imports) node.decls
            (record { globals = []; functions = [] })
          >>= λ parts.
              let schema : ContractSchema = record {
                package_name = node.package_name;
                mode = "";
                types = types;
                persistent_globals = parts.globals;
                functions = parts.functions;
              } in
              map_err too_complex (validate_contract_schema_complexity schema (length node.imports))
              >> map_err bad_schema (finalize_contract_schema schema)

  -- `AnalyzeContractSchema`
  unfoldable pub analyze_contract_schema :
      (String → Result AnalyzeError SourceFile) → String → Result AnalyzeError ContractSchema
  unfolding analyze_file
  analyze_contract_schema parse source_code = parse source_code >>= λ node. analyze_file node
