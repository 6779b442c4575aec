-- ===== src/Schema/Validate/Depth.antt =====
-- Named structs by how deep they nest, which needs no set of open names: what is found at some depth is
-- what the validation accepts with fuel for that depth and names that are not open.
use mitum_smart_contract.Base.{
  ℕ, zero, suc, ◌≤◌, ◌<◌, String, Bool, true, false, Option, none, some, List, [], ◌∷◌, ◌≡◌, refl,
  ap, inl, inr, arith, eq_iff, if◌then◌else◌, All, contains, lookup, Result, ok, err, is_ok,
  Bool-cases, Option-cases,
}
use mitum_smart_contract.Schema.TypeRef.{
  TypeKind, TypeRef, type_ref, TypeRegistry, kind_of, name_of, fields_of,
}
use mitum_smart_contract.Schema.Validate.{
  TypeError, out_of_fuel, struct_only, validate_fields, open_struct, validate_named_struct_rec,
}
use mitum_smart_contract.Schema.Validate.Ends.{fresh, fresh-cons-lt, struct_only-eq-some}
use mitum_smart_contract.Schema.Validate.Monotone.{is_ok-eq-true, fields_mono}

-- Named structs taken by a test of their names, whatever is open.
unfoldable pub by_name : (String → Bool) → TypeRef → List String → Result TypeError TypeRef
by_name p (type_ref TypeKind.named raw sc name key elem fs) open_names =
    if p name then ok (type_ref TypeKind.named raw sc name key elem fs) else err out_of_fuel
by_name p t open_names = err out_of_fuel

unfoldable pub admits_struct : TypeRegistry → (String → Bool) → Option TypeRef → Bool
unfolding by_name
admits_struct reg p none = false
admits_struct reg p (some r) = is_ok (validate_fields reg (by_name p) (fields_of r) [])

-- The struct of that name nests structs at most `k` deep: no test for open names.
unfoldable pub admits : ℕ → TypeRegistry → String → Bool
unfolding admits_struct
admits zero reg x = false
admits (suc k) reg x = admits_struct reg (admits k reg) (struct_only (lookup x reg))

by_name_mono :
    (p q : String → Bool)
    → ((x : String) → p x ≡ true → q x ≡ true)
    → (t : TypeRef) → is_ok (by_name p t []) ≡ true
    → is_ok (by_name q t []) ≡ true
unfolding by_name
by_name_mono p q le (type_ref TypeKind.named raw sc name key elem fs) h = ground (arith, le name)
by_name_mono p q le (type_ref _ raw sc name key elem fs) h = cc

admits_struct_mono :
    (reg : TypeRegistry) (p q : String → Bool)
    → ((x : String) → p x ≡ true → q x ≡ true)
    → (o : Option TypeRef) → admits_struct reg p o ≡ true
    → admits_struct reg q o ≡ true
unfolding admits_struct
admits_struct_mono reg p q le none h = h
admits_struct_mono reg p q le (some r) h =
    fields_mono reg (by_name p) (by_name q) [] [] (by_name_mono p q le) (fields_of r) h

admits-suc :
    (k : ℕ) (reg : TypeRegistry) (x : String) → admits k reg x ≡ true → admits (suc k) reg x ≡ true
unfolding admits
admits-suc zero reg x h = cc
admits-suc (suc k) reg x h =
    admits_struct_mono reg (admits k reg) (admits (suc k) reg) (admits-suc k reg)
      (struct_only (lookup x reg)) h

not_contained :
    (k : ℕ) (reg : TypeRegistry) (x : String) (open_names : List String)
    → admits k reg x ≡ true
    → All (λ y. admits k reg y ≡ false) open_names
    → contains x open_names ≡ false
not_contained k reg x [] h none_open = refl
not_contained k reg x (y ∷ ys) h none_open =
    ground (arith, eq_iff y x, not_contained k reg x ys h none_open.1)

All-pred :
    (k : ℕ) (reg : TypeRegistry) (open_names : List String)
    → All (λ y. admits (suc k) reg y ≡ false) open_names
    → All (λ y. admits k reg y ≡ false) open_names
All-pred k reg [] h = tt
All-pred k reg (y ∷ ys) h = (ground (arith, admits-suc k reg y), All-pred k reg ys h.1)

-- One step of the acceptance: the struct is opened, and its fields nest less deep.
opens :
    (k n : ℕ) (reg : TypeRegistry) (open_names : List String) (t : TypeRef)
    → kind_of t ≡ TypeKind.named
    → fresh reg open_names < suc n
    → All (λ y. admits (suc k) reg y ≡ false) open_names
    → admits (suc k) reg (name_of t) ≡ true
    → admits k reg (name_of t) ≡ false
    → ((u : TypeRef)
        → fresh reg (name_of t ∷ open_names) < n
        → All (λ y. admits k reg y ≡ false) (name_of t ∷ open_names)
        → is_ok (by_name (admits k reg) u []) ≡ true
        → is_ok (validate_named_struct_rec n reg u (name_of t ∷ open_names)) ≡ true)
    → is_ok (validate_named_struct_rec (suc n) reg t open_names) ≡ true
unfolding validate_named_struct_rec
opens k n reg open_names (type_ref TypeKind.named raw sc name key elem fs) e room none_open adm deep
      rec =
    elim (Option-cases (struct_only (lookup name reg))) [
      | inl missing ↦ unfold admits in cc (ap (admits_struct reg (admits k reg)) missing)
      | inr (r, found) ↦
          let new : contains name open_names ≡ false =
            not_contained (suc k) reg name open_names adm none_open in
          let room' : fresh reg (name ∷ open_names) < n = omega (
            arith,
            fresh-cons-lt reg name r open_names (struct_only-eq-some (lookup name reg) r found).0
                new,
          ) in
          let valid =
            is_ok-eq-true
              (validate_fields reg (validate_named_struct_rec n reg) (fields_of r)
                (name ∷ open_names))
              (fields_mono reg (by_name (admits k reg)) (validate_named_struct_rec n reg) []
                (name ∷ open_names)
                (λ u h. rec u room' (deep, All-pred k reg open_names none_open) h) (fields_of r)
                (unfold admits in cc (ap (admits_struct reg (admits k reg)) found, adm))) in
          rw (found, new, valid.1, open_struct)
    ]
opens k n reg open_names (type_ref _ raw sc name key elem fs) e room none_open adm deep rec = cc

-- A struct that nests finitely deep is accepted, if no open name does so within that depth.
pub accepts :
    (k n : ℕ) (reg : TypeRegistry) (open_names : List String) (t : TypeRef)
    → fresh reg open_names < n
    → All (λ y. admits k reg y ≡ false) open_names
    → is_ok (by_name (admits k reg) t []) ≡ true
    → is_ok (validate_named_struct_rec n reg t open_names) ≡ true
unfolding by_name
accepts zero n reg open_names (type_ref TypeKind.named raw sc name key elem fs) room none_open h =
    unfold admits in cc
accepts (suc k) zero reg open_names (type_ref TypeKind.named raw sc name key elem fs) room none_open
      h =
    elim room [ ]
accepts (suc k) (suc n) reg open_names (type_ref TypeKind.named raw sc name key elem fs) room
      none_open h =
    elim (Bool-cases (admits k reg name)) [
      | inl shallow ↦
          accepts k (suc n) reg open_names (type_ref TypeKind.named raw sc name key elem fs) room
            (All-pred k reg open_names none_open) (rw shallow)
      | inr deep ↦
          opens k n reg open_names (type_ref TypeKind.named raw sc name key elem fs) refl room
            none_open (ground arith) deep
            (λ t room' none'. accepts k n reg (name ∷ open_names) t room' none')
    ]
accepts k n reg open_names (type_ref _ raw sc name key elem fs) room none_open h = cc

admits_le :
    (k m : ℕ) (reg : TypeRegistry) (x : String)
    → k ≤ m
    → admits k reg x ≡ true
    → admits m reg x ≡ true
unfolding admits
admits_le zero m reg x le h = cc
admits_le (suc k) zero reg x le h = elim le [ ]
admits_le (suc k) (suc m) reg x le h =
    admits_struct_mono reg (admits k reg) (admits m reg) (λ y. admits_le k m reg y (omega arith))
      (struct_only (lookup x reg)) h

-- Structs that nest at most `k` deep, as a treatment of named structs.
abbrev pub within : ℕ → TypeRegistry → TypeRef → List String → Result TypeError TypeRef
within k reg = by_name (admits k reg)

pub within_le :
    (k m : ℕ) (reg : TypeRegistry)
    → k ≤ m
    → (t : TypeRef) → is_ok (within k reg t []) ≡ true
    → is_ok (within m reg t []) ≡ true
within_le k m reg le = by_name_mono (admits k reg) (admits m reg) (λ x. admits_le k m reg x le)
