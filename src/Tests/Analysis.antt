-- ===== src/Tests/Analysis.antt =====
-- The theorems on the analysis of a source and on the limits of a schema, at the source of a small contract.
use mitum_smart_contract.Base.{
  ◌↔◌, String, true, false, none, some, [], ◌∷◌, ◌≡◌, ◌≢◌, refl, eq_iff, All, ok, Returns,
}
use mitum_smart_contract.Schema.TypeRef.{
  TypeKind, TypeRef, type_ref, TypePtr, end, field, FunctionSchema, ContractSchema,
  schema_mode_typed_args,
}
use mitum_smart_contract.Schema.TypeRef.{find_function, normalized_string, resolve_type}
use mitum_smart_contract.Schema.Shape.{
  is_typed_initialize_shape, is_write_context_callable, is_write_context_type,
  is_single_error_result, is_supported_scalar,
}
use mitum_smart_contract.Schema.Validate.{
  validate_scalar_abi_type, validate_persistent_global_type, validate_map_type,
}
use mitum_smart_contract.Schema.Source.{
  TypeExpr, ident, selector, map_expr, struct_expr, FieldList, no_more, ast_field, FuncDecl,
  type_decl, var_decl, func_decl, other_decl, SourceFile,
}
use mitum_smart_contract.Schema.Complexity.{
  max_contract_schema_type_depth, contract_schema_node_count, validate_contract_schema_complexity,
}
use mitum_smart_contract.Schema.Complexity.Walks.{IsKeyed}
use mitum_smart_contract.Schema.Complexity.Limits.{IsSimple, complexity_iff, schema_measures_end}
use mitum_smart_contract.Schema.Analyzer.{new_type_resolver}
use mitum_smart_contract.Schema.Analyzer.Imports.{validate_context_abi_usage}
use mitum_smart_contract.Schema.Analyzer.Imports.Usage.{refuses, selectors_of, context_usage_iff}
use mitum_smart_contract.Schema.Analyzer.Contract.{analyze_file}
use mitum_smart_contract.Persist.Save.{new_persisted_contract_schema}
use mitum_smart_contract.Persist.Load.{runtime_schema_from_persisted}
use mitum_smart_contract.Persist.Schemas.{schema_is_well_shaped}
use mitum_smart_contract.Persist.Analyzed.Whole.{
  IsAllowed, analysis_promises, analysis-shaped, analyze-reload,
}

abbrev text_expr : TypeExpr
text_expr = ident "string" "string"

abbrev error_results : FieldList
error_results = ast_field [] (ident "error" "error") no_more

abbrev write_params : String → FieldList
write_params name =
    ast_field ("ctx" ∷ []) (selector "chain.WriteContext") (ast_field (name ∷ []) text_expr no_more)

abbrev initialize_decl : FuncDecl
initialize_decl = record {
  name = "Initialize";
  has_receiver = false;
  params = write_params "owner";
  results = error_results;
  body = some (record { receiver = "ctx"; selected = "GetHeight" } ∷ []);
}

-- package contract, with a struct, a map of them and `Initialize`
abbrev sample_file : SourceFile
sample_file = record {
  package_name = "contract";
  imports =
      record { path = some "mitum/chain"; name = none }
      ∷ record { path = some "strings"; name = none }
      ∷ [];
  decls =
      other_decl
      ∷ type_decl (
          record {
            name = "Note";
            typ = struct_expr "struct { Text string }" (ast_field ("Text" ∷ []) text_expr no_more);
          }
          ∷ [])
      ∷ var_decl (
          record {
            names = "notes" ∷ [];
            typ = some (map_expr "map[string]Note" text_expr (ident "Note" "Note"));
          }
          ∷ [])
      ∷ func_decl initialize_decl
      ∷ [];
}

abbrev plain_text : TypeRef
plain_text = type_ref TypeKind.scalar "string" "string" "" TypePtr.null TypePtr.null end

abbrev note_struct : TypeRef
note_struct =
    type_ref TypeKind.struct "struct{Textstring}" "" "Note" TypePtr.null TypePtr.null
      (field "Text" plain_text end)

abbrev analysed_schema : ContractSchema
analysed_schema = record {
  package_name = "contract";
  mode = "typed-snapshot-v1";
  types = ("Note", note_struct) ∷ [];
  persistent_globals =
      record {
        name = "notes";
        typ =
            type_ref TypeKind.map "map[string]Note" "" "" (TypePtr.ptr plain_text)
              (TypePtr.ptr (type_ref TypeKind.named "Note" "" "Note" TypePtr.null TypePtr.null end))
              end;
        has_explicit_type = true;
      }
      ∷ [];
  functions =
      record {
        name = "Initialize";
        exported = true;
        params =
            record {
              name = "ctx";
              typ =
                  type_ref TypeKind.opaque "chain.WriteContext" "" "chain.WriteContext" TypePtr.null
                    TypePtr.null end;
            }
            ∷ record { name = "owner"; typ = plain_text }
            ∷ [];
        results =
            record {
              typ = type_ref TypeKind.opaque "error" "" "error" TypePtr.null TypePtr.null end;
            }
            ∷ [];
      }
      ∷ [];
}

analysed : analyze_file (λ name. true) sample_file ≡ ok analysed_schema
unfolding analyze_file find_function is_typed_initialize_shape is_write_context_callable
    is_write_context_type normalized_string is_single_error_result validate_scalar_abi_type
    is_supported_scalar resolve_type validate_persistent_global_type validate_map_type
analysed = refl

analysis_promises_example :
    All IsAllowed sample_file.imports
    × (analysed_schema.mode ≡ schema_mode_typed_args)
    × (analysed_schema.package_name ≡ "contract")
    × IsSimple analysed_schema 2
analysis_promises_example = analysis_promises (λ name. true) sample_file analysed_schema analysed

analysis-shaped_example :
    IsKeyed analysed_schema.types × (schema_is_well_shaped analysed_schema ≡ true)
unfolding new_type_resolver
analysis-shaped_example =
    analysis-shaped (λ name. true) sample_file analysed_schema (refl, tt) analysed

hash_is_not_empty : ◌≢◌ {A = String} "hash" ""
hash_is_not_empty e = let h : false ≡ true = (eq_iff "hash" "").1 e in cc h

analyze-reload_example :
    runtime_schema_from_persisted
      (λ source. "hash")
      "source"
      (some (new_persisted_contract_schema (λ source. "hash") "source" analysed_schema))
    ≡ some analysed_schema
unfolding new_type_resolver
analyze-reload_example =
    analyze-reload (λ source. "hash") "source" (λ name. true) sample_file analysed_schema (refl, tt)
      hash_is_not_empty analysed

complexity_iff_example :
    (validate_contract_schema_complexity analysed_schema 2 ≡ ok tt) ↔ IsSimple analysed_schema 2
complexity_iff_example = complexity_iff analysed_schema 2

schema_measures_end_example :
    Returns (max_contract_schema_type_depth analysed_schema)
    × Returns (contract_schema_node_count analysed_schema 2)
schema_measures_end_example = schema_measures_end analysed_schema 2 ((refl, refl, refl), tt)

-- a query that looks at the block time
abbrev query_decl : FuncDecl
query_decl = record initialize_decl {
  name = "Now";
  params = ast_field ("ctx" ∷ []) (selector "chain.QueryContext") no_more;
  body = some (record { receiver = "ctx"; selected = "GetBlockTime" } ∷ []);
}

abbrev query_schema : FunctionSchema
query_schema = record {
  name = "Now";
  exported = true;
  params =
      record {
        name = "ctx";
        typ = type_ref TypeKind.opaque "chain.QueryContext" "" "" TypePtr.null TypePtr.null end;
      }
      ∷ [];
  results = [];
}

context_usage_iff_example :
    (validate_context_abi_usage query_decl query_schema ("chain" ∷ []) ≡ ok tt)
    ↔ All (λ sel. refuses query_schema ("chain" ∷ []) sel ≡ false) (selectors_of query_decl.body)
context_usage_iff_example = context_usage_iff query_decl query_schema ("chain" ∷ [])
