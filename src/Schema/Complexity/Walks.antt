-- ===== src/Schema/Complexity/Walks.antt =====
-- schema_complexity.go: the walks over one type.
use mitum_smart_contract.Base.{
  ℕ, zero, suc, ◌+◌, max, ◌≤◌, String, false, some, List, [], ◌∷◌, ◌≡◌, refl, sym, arith, inl, inr,
  eq_iff, ◌==◌, length, contains, lookup, All, Result, ok, Bool-cases, Option-cases, Returns,
  >>=-Returns, >>=-eq-ok,
}
use mitum_smart_contract.Schema.TypeRef.{
  TypeKind, TypeRef, type_ref, TypePtr, StructFields, end, field, TypeRegistry, kind_of, name_of,
}
use mitum_smart_contract.Schema.Validate.Ends.{fresh-cons-le, fresh, fresh-cons-lt, fresh-nil}
use mitum_smart_contract.Schema.Complexity.{
  ComplexityError, Measure, depth_measure, nodes_measure, field_count, open_name, is_open,
  walk_name, walk, walk_ptr, walk_fields, walk_rec, enough_steps, contract_schema_type_depth,
  contract_schema_type_node_count,
}

-- Every entry of the registry is a struct that has its key as its name.
abbrev pub IsNamedStruct : String × TypeRef → Type 0
IsNamedStruct entry =
    (kind_of entry.1 ≡ TypeKind.struct) × (name_of entry.1 ≡ entry.0) × ((entry.0 == "") ≡ false)

abbrev pub IsKeyed : TypeRegistry → Type 0
IsKeyed = All IsNamedStruct

lookup-IsNamedStruct :
    (reg : TypeRegistry) (x : String) (r : TypeRef)
    → IsKeyed reg
    → lookup x reg ≡ some r
    → IsNamedStruct (x, r)
lookup-IsNamedStruct [] x r keyed h = cc h
lookup-IsNamedStruct ((k, t) ∷ reg) x r (first, keyed) h = elim (Bool-cases (k == x)) [
  | inl e ↦
      let t' : t ≡ r = cc (rw e at h) in
      let k' : k ≡ x = (eq_iff k x).0 e in rw (sym t', sym k') first
  | inr e ↦ lookup-IsNamedStruct reg x r keyed (rw e at h)
]

open_name-fresh-le :
    (reg : TypeRegistry) (name : String) (resolving : List String)
    → fresh reg (open_name name resolving) ≤ fresh reg resolving
open_name-fresh-le reg name resolving = elim (Bool-cases (name == "")) [
  | inl e ↦ rw e (omega arith)
  | inr e ↦ rw e (fresh-cons-le reg name resolving)
]

module _ (reg : TypeRegistry) (m : Measure) where
  module _ (again : TypeRef → List String → Result ComplexityError ℕ) where
    -- what can be opened beside the names that are open
    abbrev Opens : List String → Type 0
    Opens resolving =
        (x : String) (r : TypeRef) (inner : List String)
        → lookup x reg ≡ some r
        → contains x inner ≡ false
        → fresh reg inner ≤ fresh reg resolving
        → Returns (again r inner)

    -- The walk of a type returns when that of every struct that it can open does.
    mutual
      unfolding walk walk_name

      walk-Returns :
          (t : TypeRef) (resolving : List String)
          → Opens resolving
          → Returns (walk reg m again t resolving)
      walk-Returns (type_ref TypeKind.named raw sc name key elem fs) resolving h =
          elim (Bool-cases (contains name resolving)) [
            | inl e ↦ rw e (m.leaf, refl)
            | inr e ↦ elim (Option-cases (lookup name reg)) [
              | inl l ↦ rw (e, l) (m.leaf, refl)
              | inr (r, l) ↦
                  rw (e, l)
                    (>>=-Returns (again r resolving) _ (h name r resolving l e (omega arith))
                      λ n _. (_, refl))
            ]
          ]
      walk-Returns (type_ref TypeKind.struct raw sc name key elem fs) resolving h =
          elim (Bool-cases (is_open name resolving)) [
            | inl e ↦ rw e (m.leaf, refl)
            | inr e ↦ rw e (
                >>=-Returns (walk_fields reg m again fs (open_name name resolving)) _
                  (fields_return fs (open_name name resolving) (λ x r inner l c le.
                    h x r inner l c (omega (arith, open_name-fresh-le reg name resolving))))
                  λ n _. (_, refl))
          ]
      walk-Returns (type_ref TypeKind.map raw sc name key elem fs) resolving h =
          >>=-Returns (walk_ptr reg m again key resolving) _ (ptr-Returns key resolving h) λ k _.
            >>=-Returns (walk_ptr reg m again elem resolving) _ (ptr-Returns elem resolving h)
              λ e _. (_, refl)
      walk-Returns (type_ref TypeKind.slice raw sc name key elem fs) resolving h =
          >>=-Returns (walk_ptr reg m again elem resolving) _ (ptr-Returns elem resolving h)
            λ e _. (_, refl)
      walk-Returns (type_ref _ raw sc name key elem fs) resolving h = (m.leaf, refl)

      ptr-Returns :
          (p : TypePtr) (resolving : List String)
          → Opens resolving
          → Returns (walk_ptr reg m again p resolving)
      ptr-Returns TypePtr.null resolving h = (0, refl)
      ptr-Returns (TypePtr.ptr t) resolving h = walk-Returns t resolving h

      fields_return :
          (fs : StructFields) (resolving : List String)
          → Opens resolving
          → Returns (walk_fields reg m again fs resolving)
      fields_return end resolving h = (0, refl)
      fields_return (field n t fs) resolving h =
          >>=-Returns (walk reg m again t resolving) _ (walk-Returns t resolving h) λ a _.
            >>=-Returns (walk_fields reg m again fs resolving) _ (fields_return fs resolving h)
              λ b _. (_, refl)

  -- A struct of the registry is opened under its own name.
  struct-Returns :
      (again : TypeRef → List String → Result ComplexityError ℕ) (x : String) (r : TypeRef)
      (resolving : List String)
      → IsNamedStruct (x, r)
      → contains x resolving ≡ false
      → Opens again (x ∷ resolving)
      → Returns (walk reg m again r resolving)
  unfolding walk
  struct-Returns again x (type_ref TypeKind.struct raw sc name key elem fs) resolving (k, n, e) new
        h =
      let new' : contains name resolving ≡ false = rw n new in
      let e' : (name == "") ≡ false = rw n e in
      rw (e', new')
        (>>=-Returns (walk_fields reg m again fs (name ∷ resolving)) _
          (fields_return again fs (name ∷ resolving) (rw n h)) λ a _. (_, refl))
  struct-Returns again x (type_ref _ raw sc name key elem fs) resolving (k, n, e) new h = cc k

  rec-Opens :
      (n : ℕ) (resolving : List String)
      → IsKeyed reg
      → fresh reg resolving ≤ n
      → Opens (walk_rec reg m n) resolving
  unfolding walk_rec
  rec-Opens zero resolving keyed le =
      λ x r inner found new le'. absurd (omega (arith, fresh-cons-lt reg x r inner found new))
  rec-Opens (suc n) resolving keyed le = λ x r inner found new le'.
      struct-Returns (walk_rec reg m n) x r inner (lookup-IsNamedStruct reg x r keyed found) new
        (rec-Opens n (x ∷ inner) keyed (omega (arith, fresh-cons-lt reg x r inner found new)))

  pub walk_rec-Returns :
      (t : TypeRef) → IsKeyed reg → Returns (walk_rec reg m (enough_steps reg) t [])
  unfolding walk_rec
  walk_rec-Returns t keyed =
      walk-Returns (walk_rec reg m (length reg)) t []
        (rec-Opens (length reg) [] keyed (fresh-nil reg))

-- The depth and the number of nodes of a type are found: the fuel for both walks is enough, for every
-- registry of structs that are listed under their own names, recursive ones included.
pub measures_end :
    (reg : TypeRegistry) (t : TypeRef)
    → IsKeyed reg
    → Returns (contract_schema_type_depth reg t) × Returns (contract_schema_type_node_count reg t)
unfolding contract_schema_type_depth contract_schema_type_node_count
measures_end reg t keyed =
    (walk_rec-Returns reg depth_measure t keyed, walk_rec-Returns reg nodes_measure t keyed)

module _ (reg : TypeRegistry) where
  -- Where both walks return, the first number is at most the second.
  abbrev IsAtMost : Result ComplexityError ℕ → Result ComplexityError ℕ → Type 0
  IsAtMost a b = (d k : ℕ) → a ≡ ok d → b ≡ ok k → d ≤ k

  module _ (deep count : TypeRef → List String → Result ComplexityError ℕ)
      (le : (r : TypeRef) (resolving : List String)
        → IsAtMost (deep r resolving) (count r resolving)) where
    mutual
      unfolding walk walk_name

      walk_le :
          (t : TypeRef) (resolving : List String)
          → IsAtMost
              (walk reg depth_measure deep t resolving)
              (walk reg nodes_measure count t resolving)
      walk_le (type_ref TypeKind.named raw sc name key elem fs) resolving d k h h' =
          elim (Bool-cases (contains name resolving)) [
            | inl e ↦ let z : 0 ≡ d = cc (rw e at h) in omega arith
            | inr e ↦ elim (Option-cases (lookup name reg)) [
              | inl l ↦ let z : 0 ≡ d = cc (rw (e, l) at h) in omega arith
              | inr (r, l) ↦
                  let (d', a, b) = >>=-eq-ok (deep r resolving) _ (rw (e, l) at h) in
                  let (k', a', b') = >>=-eq-ok (count r resolving) _ (rw (e, l) at h') in
                  let q : d' ≡ d = cc b in
                  let q' : 1 + k' ≡ k = cc b' in omega (arith, le r resolving d' k' a a')
            ]
          ]
      walk_le (type_ref TypeKind.struct raw sc name key elem fs) resolving d k h h' =
          elim (Bool-cases (is_open name resolving)) [
            | inl e ↦ let z : 0 ≡ d = cc (rw e at h) in omega arith
            | inr e ↦
                let (d', a, b) =
                  >>=-eq-ok (walk_fields reg depth_measure deep fs (open_name name resolving)) _
                    (rw e at h) in
                let (k', a', b') =
                  >>=-eq-ok (walk_fields reg nodes_measure count fs (open_name name resolving)) _
                    (rw e at h') in
                let q : 1 + d' ≡ d = cc b in
                let q' : 1 + field_count fs + k' ≡ k = cc b' in
                omega (arith, fields_le fs (open_name name resolving) d' k' a a')
          ]
      walk_le (type_ref TypeKind.map raw sc name key elem fs) resolving d k h h' =
          let (d1, a1, b1) = >>=-eq-ok (walk_ptr reg depth_measure deep key resolving) _ h in
          let (d2, a2, b2) = >>=-eq-ok (walk_ptr reg depth_measure deep elem resolving) _ b1 in
          let (k1, c1, e1) = >>=-eq-ok (walk_ptr reg nodes_measure count key resolving) _ h' in
          let (k2, c2, e2) = >>=-eq-ok (walk_ptr reg nodes_measure count elem resolving) _ e1 in
          let q : 1 + max d1 d2 ≡ d = cc b2 in
          let q' : 1 + (k1 + k2) ≡ k = cc e2 in
          omega (arith, ptr_le key resolving d1 k1 a1 c1, ptr_le elem resolving d2 k2 a2 c2)
      walk_le (type_ref TypeKind.slice raw sc name key elem fs) resolving d k h h' =
          let (d', a, b) = >>=-eq-ok (walk_ptr reg depth_measure deep elem resolving) _ h in
          let (k', a', b') = >>=-eq-ok (walk_ptr reg nodes_measure count elem resolving) _ h' in
          let q : 1 + d' ≡ d = cc b in
          let q' : 1 + k' ≡ k = cc b' in omega (arith, ptr_le elem resolving d' k' a a')
      walk_le (type_ref _ raw sc name key elem fs) resolving d k h h' =
          let z : 0 ≡ d = cc h in omega arith

      ptr_le :
          (p : TypePtr) (resolving : List String)
          → IsAtMost
              (walk_ptr reg depth_measure deep p resolving)
              (walk_ptr reg nodes_measure count p resolving)
      ptr_le TypePtr.null resolving d k h h' = let z : 0 ≡ d = cc h in omega arith
      ptr_le (TypePtr.ptr t) resolving d k h h' = walk_le t resolving d k h h'

      fields_le :
          (fs : StructFields) (resolving : List String)
          → IsAtMost
              (walk_fields reg depth_measure deep fs resolving)
              (walk_fields reg nodes_measure count fs resolving)
      fields_le end resolving d k h h' = let z : 0 ≡ d = cc h in omega arith
      fields_le (field n t fs) resolving d k h h' =
          let (d1, a1, b1) = >>=-eq-ok (walk reg depth_measure deep t resolving) _ h in
          let (d2, a2, b2) = >>=-eq-ok (walk_fields reg depth_measure deep fs resolving) _ b1 in
          let (k1, c1, e1) = >>=-eq-ok (walk reg nodes_measure count t resolving) _ h' in
          let (k2, c2, e2) = >>=-eq-ok (walk_fields reg nodes_measure count fs resolving) _ e1 in
          let q : max d1 d2 ≡ d = cc b2 in
          let q' : k1 + k2 ≡ k = cc e2 in
          omega (arith, walk_le t resolving d1 k1 a1 c1, fields_le fs resolving d2 k2 a2 c2)

  rec_le :
      (n : ℕ) (t : TypeRef) (resolving : List String)
      → IsAtMost
          (walk_rec reg depth_measure n t resolving)
          (walk_rec reg nodes_measure n t resolving)
  unfolding walk_rec
  rec_le zero t resolving d k h h' = cc h
  rec_le (suc n) t resolving d k h h' =
      walk_le (walk_rec reg depth_measure n) (walk_rec reg nodes_measure n) (rec_le n) t resolving d
        k h h'

  -- A type nests no deeper than it has nodes.
  pub depth-le-nodes :
      (t : TypeRef) (d k : ℕ)
      → contract_schema_type_depth reg t ≡ ok d
      → contract_schema_type_node_count reg t ≡ ok k
      → d ≤ k
  unfolding contract_schema_type_depth contract_schema_type_node_count
  depth-le-nodes t = rec_le (enough_steps reg) t []
