-- ===== src/Persist/Analyzed.antt =====
-- schema_metadata.go, on analysed schemas: the shape of the types of an analysis.
mod Registry
mod Parts
pub mod Whole
use mitum_smart_contract.Base.{
  String, Bool, true, false, not, ◌&&◌, Option, none, some, List, [], ◌∷◌, ◌++◌, ◌≡◌, refl, sym,
  arith, ◌==◌, eq_iff, if◌then◌else◌, contains, Map, lookup, insert, All, Result, ok, err, fail_if,
  ◌>>=◌, ◌>>◌, >>=-eq-ok, >>-eq-ok, map_err-eq-ok, Bool-cases, Option-cases, inl, inr,
}
use mitum_smart_contract.Schema.TypeRef.{
  TypeKind, TypeRef, type_ref, TypePtr, StructFields, end, field, TypeRegistry, kind_of, name_of,
  PersistentBindingSchema, ParamSchema, ResultSchema, FunctionSchema, ContractSchema,
  normalize_type_string,
}
use mitum_smart_contract.Schema.Source.{
  TypeExpr, ident, selector, interface, other_expr, map_expr, array_expr, slice_expr, struct_expr,
  FieldList, no_more, ast_field,
}
use mitum_smart_contract.Schema.Analyzer.{
  opaque_type, scalar_kinds, ResolveError, TypeDecls, resolve_ident, fields_named, is_empty,
  resolve_type_expr, resolve_struct_fields, with_name, resolve_named_type, populate, is_declared,
}
use mitum_smart_contract.Schema.Complexity.Walks.{IsKeyed, IsNamedStruct}
use mitum_smart_contract.Persist.RoundTrip.{is_well_shaped, fields_are_well_shaped}
use mitum_smart_contract.Persist.Schemas.{registry_is_well_shaped}

-- what a type expression is resolved to: well shaped, and without a name where it is a struct
abbrev pub IsResolved : TypeRef → Type 0
IsResolved t = (is_well_shaped t ≡ true) × (kind_of t ≡ TypeKind.struct → name_of t ≡ "")

ident-IsResolved :
    (decls : TypeDecls) (raw name : String) → IsResolved (resolve_ident decls raw name)
unfolding resolve_ident is_well_shaped
ident-IsResolved decls raw name =
    elim (Bool-cases (contains (normalize_type_string name) scalar_kinds)) [
      | inl e ↦ rw e (refl, λ s. cc s)
      | inr e ↦ elim (Bool-cases (is_declared (lookup name decls))) [
        | inl d ↦ rw (e, d) (refl, λ s. cc s)
        | inr d ↦ rw (e, d) (refl, λ s. cc s)
      ]
    ]

fields_named-shaped :
    (ns : List String) (t : TypeRef) (fs : StructFields)
    → is_well_shaped t ≡ true
    → fields_are_well_shaped fs ≡ true
    → fields_are_well_shaped (fields_named ns t fs) ≡ true
unfolding is_well_shaped
fields_named-shaped [] t fs h k = k
fields_named-shaped (n ∷ ns) t fs h k = rw (h, fields_named-shaped ns t fs h k) refl

module _ (decls : TypeDecls) where
  mutual
    unfolding resolve_type_expr is_well_shaped

    pub resolve-IsResolved :
        (e : TypeExpr) (t : TypeRef) → resolve_type_expr decls e ≡ ok t → IsResolved t
    resolve-IsResolved (ident text name) t h =
        let q : resolve_ident decls (normalize_type_string text) name ≡ t = cc h in
        rw (sym q) (ident-IsResolved decls (normalize_type_string text) name)
    resolve-IsResolved (map_expr text k v) t h =
        let (key, h1, h2) = >>=-eq-ok (resolve_type_expr decls k) _ h in
        let (elem, h3, h4) = >>=-eq-ok (resolve_type_expr decls v) _ h2 in
        let q : type_ref TypeKind.map (normalize_type_string text) "" "" (TypePtr.ptr key)
              (TypePtr.ptr elem) end
            ≡ t =
          cc h4 in
        rw (sym q, (resolve-IsResolved k key h1).0, (resolve-IsResolved v elem h3).0)
          (refl, λ s. cc s)
    resolve-IsResolved (slice_expr text e) t h =
        let (elem, h1, h2) = >>=-eq-ok (resolve_type_expr decls e) _ h in
        let q : type_ref TypeKind.slice (normalize_type_string text) "" "" TypePtr.null
              (TypePtr.ptr elem) end
            ≡ t =
          cc h2 in
        rw (sym q, (resolve-IsResolved e elem h1).0) (refl, λ s. cc s)
    resolve-IsResolved (struct_expr text fs) t h =
        let (fields, h1, h2) = >>=-eq-ok (resolve_struct_fields decls fs) _ h in
        let q : type_ref TypeKind.struct (normalize_type_string text) "" "" TypePtr.null
              TypePtr.null fields
            ≡ t =
          cc h2 in
        rw (sym q, fields-shaped fs fields h1) (refl, λ s. refl)
    resolve-IsResolved (selector text) t h =
        let q : opaque_type (normalize_type_string text) (normalize_type_string text) ≡ t = cc h in
        rw (sym q) (refl, λ s. cc s)
    resolve-IsResolved (interface text) t h =
        let q : opaque_type (normalize_type_string text) (normalize_type_string text) ≡ t = cc h in
        rw (sym q) (refl, λ s. cc s)
    resolve-IsResolved (other_expr text) t h =
        let q : opaque_type (normalize_type_string text) (normalize_type_string text) ≡ t = cc h in
        rw (sym q) (refl, λ s. cc s)
    resolve-IsResolved (array_expr text e) t h =
        let q : opaque_type (normalize_type_string text) (normalize_type_string text) ≡ t = cc h in
        rw (sym q) (refl, λ s. cc s)

    fields-shaped :
        (fs : FieldList) (fields : StructFields)
        → resolve_struct_fields decls fs ≡ ok fields
        → fields_are_well_shaped fields ≡ true
    fields-shaped no_more fields h = let q : end ≡ fields = cc h in rw (sym q) refl
    fields-shaped (ast_field names e fs) fields h =
        let (t, h1, h2) = >>=-eq-ok (resolve_type_expr decls e) _ h in
        let (u, h3, h4) = >>=-eq-ok (fail_if (is_empty names) _) _ h2 in
        let (rest, h5, h6) = >>=-eq-ok (resolve_struct_fields decls fs) _ h4 in
        let q : fields_named names t rest ≡ fields = cc h6 in
        rw (sym q) (
          fields_named-shaped names t rest (resolve-IsResolved e t h1).0 (fields-shaped fs rest h5))
