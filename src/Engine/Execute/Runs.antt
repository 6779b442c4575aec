-- ===== src/Engine/Execute/Runs.antt =====
-- The loop over the call items, as steps of the machine.
use mathlib.Core.Path.{subst}
use mitum_smart_contract.Base.{
  map_err-eq-ok, fail_if-eq-ok, ℕ, suc, ◌+◌, String, true, false, List, [], ◌∷◌, ◌++◌, ◌≡◌, ◌≢◌,
  ◌↔◌, refl, inl, inr, arith, eq_iff, ◌==◌, length, ok, fail_if, map_err, ◌>>=◌, >>=-eq-ok,
  Bool-cases, Result-cases,
}
use mitum_smart_contract.Schema.TypeRef.{ContractSchema}
use mitum_smart_contract.Call.Limits.{ExecuteCallItem}
use mitum_smart_contract.Call.Normalize.{InvocationMode, ExecuteRequest}
use mitum_smart_contract.Engine.Invoke.{invoke_typed_write}
use mitum_smart_contract.Engine.Execute.{
  Host, invocation, run_items, invoke_failed, call_item_failed, initialize_by_call,
}

module _ {Machine : Type 0} (host : Host Machine) (req : ExecuteRequest)
    (schema : ContractSchema) where
  -- One call: not of `Initialize`, and the typed write takes the machine from one state to the next.
  pub data Step (item : ExecuteCallItem) (m m' : Machine) : Type 0 where
    step :
        item.function ≢ "Initialize"
        → invoke_typed_write host.vm m
            (invocation InvocationMode.call req item.function item.call_data)
            schema
          ≡ ok m'
        → Step item m m'

  -- The items one after the other.
  pub data Runs : List ExecuteCallItem → Machine → Machine → Type 0 where
    stop : (m : Machine) → Runs [] m m
    next :
        (item : ExecuteCallItem) (items : List ExecuteCallItem) (m m1 m' : Machine)
        → Step item m m1
        → Runs items m1 m'
        → Runs (item ∷ items) m m'

  eq-==-false : (s t : String) → s ≢ t → s == t ≡ false
  eq-==-false s t h = elim (Bool-cases (s == t)) [
    | inl e ↦ absurd (h ((eq_iff s t).0 e))
    | inr e ↦ e
  ]

  false-==-ne : (s t : String) → s == t ≡ false → s ≢ t
  false-==-ne s t h e = let d : s == t ≡ true = (eq_iff s t).1 e in cc

  Runs-of_ok :
      (i : ℕ) (items : List ExecuteCallItem) (m m' : Machine)
      → run_items host req schema i items m ≡ ok m'
      → Runs items m m'
  unfolding run_items
  Runs-of_ok i [] m m' h = let e : m ≡ m' = cc h in subst (λ x. Runs [] m x) e (stop m)
  Runs-of_ok i (item ∷ items) m m' h =
      let (u, e, h1) =
        >>=-eq-ok (fail_if (item.function == "Initialize") (initialize_by_call i)) _ h in
      let (m1, e1, h2) =
        >>=-eq-ok
          (map_err (invoke_failed (call_item_failed i item.function)) (
            invoke_typed_write host.vm m
              (invocation InvocationMode.call req item.function item.call_data) schema))
          _ h1 in
      next item items m m1 m'
        (step (false-==-ne item.function "Initialize" (fail_if-eq-ok _ _ u e))
          (map_err-eq-ok _ _ m1 e1))
        (Runs-of_ok (suc i) items m1 m' h2)

  ok_of_Runs :
      (i : ℕ) (items : List ExecuteCallItem) (m m' : Machine)
      → Runs items m m'
      → run_items host req schema i items m ≡ ok m'
  unfolding run_items
  ok_of_Runs i _ _ _ (stop m) = refl
  ok_of_Runs i _ _ _ (next item items m m1 m' (step named invoked) rest) =
      let other = eq-==-false item.function "Initialize" named in
      let ih = ok_of_Runs (suc i) items m1 m' rest in rw (other, invoked, ih)

  -- The loop succeeds exactly when every item, in order, is a call of something other than `Initialize`
  -- whose write succeeds on the machine that the items before it left; it ends in the last machine.
  pub run_items_iff :
      (i : ℕ) (items : List ExecuteCallItem) (m m' : Machine)
      → (run_items host req schema i items m ≡ ok m') ↔ Runs items m m'
  run_items_iff i items m m' = (Runs-of_ok i items m m', ok_of_Runs i items m m')

  -- A batch is its first part followed by its second, which starts from the machine, and from the item
  -- number, that the first part ends with; an error of the first part ends the batch.
  pub run_items_append :
      (i : ℕ) (xs ys : List ExecuteCallItem) (m : Machine)
      → run_items host req schema i (xs ++ ys) m ≡ (
          run_items host req schema i xs m >>= λ m1.
          run_items host req schema (i + length xs) ys m1)
  unfolding run_items
  run_items_append i [] ys m = let e : i + 0 ≡ i = omega arith in rw e
  run_items_append i (x ∷ xs) ys m =
      let shift : i + suc (length xs) ≡ suc i + length xs = omega arith in
      elim (Bool-cases (x.function == "Initialize")) [
        | inl e ↦ rw e
        | inr e ↦
            elim (Result-cases (
              invoke_typed_write host.vm m
                (invocation InvocationMode.call req x.function x.call_data) schema)) [
                  | inl (m1, e1) ↦
                      (let ih = run_items_append (suc i) xs ys m1 in rw (e, e1, ih, shift))
                  | inr (b, e1) ↦ rw (e, e1)
                ]
      ]
