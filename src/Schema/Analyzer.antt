-- ===== src/Schema/Analyzer.antt =====
-- operation/contract/runtime/schema_analyzer.go: types, variables and functions of a source as those of a
-- schema. `resolved` only remembers results, and `resolving` is never met twice, since a name inside a
-- declaration is not followed; both are left out.
pub mod Imports
pub mod Contract
use mitum_smart_contract.Base.{
  ℕ, String, Bool, true, false, not, Option, none, some, List, [], ◌∷◌, ◌++◌, ◌==◌, if◌then◌else◌,
  contains, Map, lookup, insert, Result, ok, err, fail_if, ◌>>=◌, ◌>>◌,
}
use mitum_smart_contract.Schema.TypeRef.{
  TypeKind, TypeRef, type_ref, TypePtr, StructFields, end, field, TypeRegistry, kind_of,
  PersistentBindingSchema, ParamSchema, ResultSchema, FunctionSchema, normalize_type_string,
}
use mitum_smart_contract.Schema.Source.{
  TypeExpr, ident, selector, interface, other_expr, map_expr, array_expr, slice_expr, struct_expr,
  FieldList, no_more, ast_field, ValueSpec, FuncDecl, TypeSpec, Decl, type_decl, var_decl,
  func_decl, other_decl,
}

pub data ResolveError : Type 0 where
  embedded_field : ResolveError
  undeclared : String → ResolveError

-- `typeResolver.typeDecls`
abbrev pub TypeDecls : Type 0
TypeDecls = Map TypeExpr

-- the cases of the `switch` that build a type, `raw` being the text of `exprString`
abbrev pub opaque_type : String → String → TypeRef
opaque_type raw name = type_ref TypeKind.opaque raw "" name TypePtr.null TypePtr.null end

abbrev pub scalar_type : String → String → TypeRef
scalar_type raw kind = type_ref TypeKind.scalar raw kind "" TypePtr.null TypePtr.null end

abbrev pub named_type : String → String → TypeRef
named_type raw name = type_ref TypeKind.named raw "" name TypePtr.null TypePtr.null end

abbrev pub is_declared : Option TypeExpr → Bool
is_declared none = false
is_declared (some e) = true

abbrev pub scalar_kinds : List String
scalar_kinds = "string" ∷ "bool" ∷ "int" ∷ "int64" ∷ "uint64" ∷ []

unfoldable pub resolve_ident : TypeDecls → String → String → TypeRef
unfolding normalize_type_string
resolve_ident decls raw name =
    if contains (normalize_type_string name) scalar_kinds
    then scalar_type raw (normalize_type_string name)
    else if is_declared (lookup name decls)
    then named_type raw name
    else opaque_type raw name

-- one struct field for each name
abbrev pub fields_named : List String → TypeRef → StructFields → StructFields
fields_named [] t fs = fs
fields_named (n ∷ ns) t fs = field n t (fields_named ns t fs)

abbrev pub is_empty {ℓ} : {A : Type ℓ} → List A → Bool
is_empty [] = true
is_empty (x ∷ xs) = false

module _ (decls : TypeDecls) where
  -- `resolveTypeExpr` and `resolveStructFields`
  unfoldable mutual
    unfolding resolve_ident

    pub resolve_type_expr : TypeExpr → Result ResolveError TypeRef
    resolve_type_expr (ident text name) = ok (resolve_ident decls (normalize_type_string text) name)
    resolve_type_expr (selector text) =
        ok (opaque_type (normalize_type_string text) (normalize_type_string text))
    resolve_type_expr (interface text) =
        ok (opaque_type (normalize_type_string text) (normalize_type_string text))
    resolve_type_expr (other_expr text) =
        ok (opaque_type (normalize_type_string text) (normalize_type_string text))
    resolve_type_expr (map_expr text k v) = do
      key ← resolve_type_expr k
      elem ← resolve_type_expr v
      ok (
          type_ref TypeKind.map (normalize_type_string text) "" "" (TypePtr.ptr key)
            (TypePtr.ptr elem) end)
    resolve_type_expr (array_expr text e) =
        ok (opaque_type (normalize_type_string text) (normalize_type_string text))
    resolve_type_expr (slice_expr text e) = do
      elem ← resolve_type_expr e
      ok (
          type_ref TypeKind.slice (normalize_type_string text) "" "" TypePtr.null (TypePtr.ptr elem)
            end)
    resolve_type_expr (struct_expr text fs) = do
      fields ← resolve_struct_fields fs
      ok (
          type_ref TypeKind.struct (normalize_type_string text) "" "" TypePtr.null TypePtr.null
            fields)

    pub resolve_struct_fields : FieldList → Result ResolveError StructFields
    resolve_struct_fields no_more = ok end
    resolve_struct_fields (ast_field names e fs) = do
      t ← resolve_type_expr e
      fail_if (is_empty names) embedded_field
      rest ← resolve_struct_fields fs
      ok (fields_named names t rest)

-- the assignments of `resolveNamedType` to an empty `Name` and an empty `Raw`
abbrev pub with_name : String → TypeRef → TypeRef
with_name n (type_ref k raw sc name key elem fs) =
    type_ref k (if raw == "" then n else raw) sc (if name == "" then n else name) key elem fs

abbrev pub declared_or : String → Option TypeExpr → Result ResolveError TypeExpr
declared_or name none = err (undeclared name)
declared_or name (some e) = ok e

-- `resolveNamedType`
unfoldable pub resolve_named_type : TypeDecls → String → Result ResolveError TypeRef
unfolding resolve_type_expr
resolve_named_type decls name = do
  e ← declared_or name (lookup name decls)
  t ← resolve_type_expr decls e
  ok (with_name name t)

-- `if tref.Kind == TypeStruct { r.Structs[name] = tref }`
abbrev pub register_as : TypeKind → String → TypeRef → TypeRegistry → TypeRegistry
register_as TypeKind.struct name t reg = insert name t reg
register_as _ name t reg = reg

-- `populateFromResolver`: the loop over the names of `typeDecls`
unfoldable pub populate : TypeDecls → TypeDecls → TypeRegistry → Result ResolveError TypeRegistry
unfolding resolve_named_type
populate decls [] reg = ok reg
populate decls ((name, e) ∷ rest) reg =
    resolve_named_type decls name >>= λ t. populate decls rest (register_as (kind_of t) name t reg)

-- `newTypeResolver`: a later declaration of a name takes the place of an earlier one
unfoldable pub add_specs : List TypeSpec → TypeDecls → TypeDecls
add_specs [] m = m
add_specs (spec ∷ specs) m = add_specs specs (insert spec.name spec.typ m)

unfoldable pub new_type_resolver : List Decl → TypeDecls → TypeDecls
unfolding add_specs
new_type_resolver [] m = m
new_type_resolver (type_decl specs ∷ ds) m = new_type_resolver ds (add_specs specs m)
new_type_resolver (var_decl specs ∷ ds) m = new_type_resolver ds m
new_type_resolver (func_decl fn ∷ ds) m = new_type_resolver ds m
new_type_resolver (other_decl ∷ ds) m = new_type_resolver ds m

-- the type of a variable that declares none: a zero `TypeRef`
abbrev pub no_type : TypeRef
no_type = type_ref (TypeKind.other "") "" "" "" TypePtr.null TypePtr.null end

abbrev pub bindings_named :
    List String → TypeRef → Bool → List PersistentBindingSchema → List PersistentBindingSchema
bindings_named [] t e bs = bs
bindings_named (n ∷ ns) t e bs =
    record { name = n; typ = t; has_explicit_type = e } ∷ bindings_named ns t e bs

unfoldable pub spec_type : TypeDecls → Option TypeExpr → Result ResolveError TypeRef
unfolding resolve_type_expr
spec_type decls none = ok no_type
spec_type decls (some e) = resolve_type_expr decls e

-- `parsePersistentBindings`
unfoldable pub parse_persistent_bindings :
    TypeDecls → List ValueSpec → Result ResolveError (List PersistentBindingSchema)
unfolding spec_type
parse_persistent_bindings decls [] = ok []
parse_persistent_bindings decls (spec ∷ specs) = spec_type decls spec.typ >>= λ t.
    parse_persistent_bindings decls specs >>= λ rest.
    ok (bindings_named spec.names t (is_declared spec.typ) rest)

abbrev pub params_named : List String → TypeRef → List ParamSchema → List ParamSchema
params_named [] t ps = ps
params_named (n ∷ ns) t ps = record { name = n; typ = t } ∷ params_named ns t ps

-- `parseFieldList`: a parameter without a name has the empty one
unfoldable pub parse_field_list : TypeDecls → FieldList → Result ResolveError (List ParamSchema)
unfolding resolve_type_expr
parse_field_list decls no_more = ok []
parse_field_list decls (ast_field names e fs) = resolve_type_expr decls e >>= λ t.
    parse_field_list decls fs >>= λ rest.
    ok (if is_empty names then params_named ("" ∷ []) t rest else params_named names t rest)

abbrev pub results_named : List String → TypeRef → List ResultSchema → List ResultSchema
results_named [] t rs = rs
results_named (n ∷ ns) t rs = record { typ = t } ∷ results_named ns t rs

-- `parseResultList`: one result for each name, and one where there is none
unfoldable pub parse_result_list : TypeDecls → FieldList → Result ResolveError (List ResultSchema)
unfolding resolve_type_expr
parse_result_list decls no_more = ok []
parse_result_list decls (ast_field names e fs) = resolve_type_expr decls e >>= λ t.
    parse_result_list decls fs >>= λ rest.
    ok (if is_empty names then results_named ("" ∷ []) t rest else results_named names t rest)

-- `parseFunctionSchema`, given `ast.IsExported`
unfoldable pub parse_function_schema :
    (String → Bool) → TypeDecls → FuncDecl → Result ResolveError FunctionSchema
unfolding parse_field_list parse_result_list
parse_function_schema is_exported decls fn = parse_field_list decls fn.params >>= λ params.
    parse_result_list decls fn.results >>= λ results.
    ok (record {
      name = fn.name;
      exported = is_exported fn.name;
      params = params;
      results = results;
    })
