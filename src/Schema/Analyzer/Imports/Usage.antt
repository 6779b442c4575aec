-- ===== src/Schema/Analyzer/Imports/Usage.antt =====
-- Which uses of the chain package and of the context the analysis lets pass.
use mitum_smart_contract.Base.{
  String, Bool, true, false, ◌&&◌, Option, none, some, List, [], ◌∷◌, ◌≡◌, ◌↔◌, refl, arith, ◌==◌,
  if◌then◌else◌, contains, All, ok, >>-eq-ok, Bool-cases, inl, inr,
}
use mitum_smart_contract.Schema.TypeRef.{FunctionSchema}
use mitum_smart_contract.Schema.Shape.{is_write_context_callable, is_query_context_callable}
use mitum_smart_contract.Schema.Source.{Selector, FuncDecl}
use mitum_smart_contract.Schema.Analyzer.Imports.{
  is_context_name, check_context_selector, check_selector, check_selectors, validate_body,
  validate_context_abi_usage,
}

-- the uses that are refused: `CurrentHeight` of the chain package, and of the context the height
-- of the chain in a write and the block time in a query
abbrev pub refuses : FunctionSchema → List String → Selector → Bool
refuses fn names sel =
    if sel.selected == "CurrentHeight" && contains sel.receiver names
    then true
    else is_context_name sel.receiver fn.params
      && (if sel.selected == "GetCurrentHeight"
          then is_write_context_callable fn
          else sel.selected == "GetBlockTime" && is_query_context_callable fn)

abbrev pub selectors_of : Option (List Selector) → List Selector
selectors_of none = []
selectors_of (some sels) = sels

selector_iff :
    (fn : FunctionSchema) (names : List String) (sel : Selector)
    → (check_selector fn names sel ≡ ok tt) ↔ (refuses fn names sel ≡ false)
unfolding check_selector check_context_selector
selector_iff fn names sel =
    elim (Bool-cases (sel.selected == "CurrentHeight" && contains sel.receiver names)) [
      | inl e ↦ (λ h. cc (rw e at h), λ h. cc (rw e at h))
      | inr e ↦ elim (Bool-cases (is_context_name sel.receiver fn.params)) [
        | inr c ↦ (λ h. rw (e, c) refl, λ h. rw (e, c) refl)
        | inl c ↦ elim (Bool-cases (sel.selected == "GetCurrentHeight")) [
          | inl g ↦ (λ h. ground arith, λ h. ground arith)
          | inr g ↦ (λ h. ground arith, λ h. ground arith)
        ]
      ]
    ]

selectors_iff :
    (fn : FunctionSchema) (names : List String) (sels : List Selector)
    → (check_selectors fn names sels ≡ ok tt) ↔ All (λ sel. refuses fn names sel ≡ false) sels
unfolding check_selectors
selectors_iff fn names [] = (λ h. tt, λ h. refl)
selectors_iff fn names (sel ∷ sels) = (
  λ h.
      let (a, b) = >>-eq-ok (check_selector fn names sel) (check_selectors fn names sels) h in
      ((selector_iff fn names sel).0 a, (selectors_iff fn names sels).0 b),
  λ h. rw ((selector_iff fn names sel).1 h.0) ((selectors_iff fn names sels).1 h.1),
)

body_iff :
    (fn : FunctionSchema) (names : List String) (body : Option (List Selector))
    → (validate_body fn names body ≡ ok tt)
      ↔ All (λ sel. refuses fn names sel ≡ false) (selectors_of body)
unfolding validate_body
body_iff fn names none = (λ h. tt, λ h. refl)
body_iff fn names (some sels) = selectors_iff fn names sels

-- A function's body passes exactly when no selector of it is refused: none takes `CurrentHeight` from the
-- chain package, a write takes no `GetCurrentHeight` from its context, and a query no `GetBlockTime`.
pub context_usage_iff :
    (decl : FuncDecl) (fn : FunctionSchema) (names : List String)
    → (validate_context_abi_usage decl fn names ≡ ok tt)
      ↔ All (λ sel. refuses fn names sel ≡ false) (selectors_of decl.body)
unfolding validate_context_abi_usage validate_body
context_usage_iff decl fn names = body_iff fn names decl.body
