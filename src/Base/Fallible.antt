-- ===== src/Base/Fallible.antt =====
-- Go's `(T, error)` results: a value or an error, with `do` for a chain of early returns.
use mathlib.Core.Path.{◌≡◌, refl}
use mathlib.Core.Logic.{◌⊎◌, inl, inr}
use mathlib.Core.Bool.{Bool, true, false, not}

pub data Result {ℓ κ} (E : Type ℓ) (A : Type κ) : Type (ℓ ⊔ κ) where
  ok : A → Result E A
  err : E → Result E A

infixl 5 ◌>>=◌ ◌>>◌
abbrev pub ◌>>=◌ {ℓ κ μ} :
    {E : Type ℓ} {A : Type κ} {B : Type μ} → Result E A → (A → Result E B) → Result E B
err e >>= next = err e
ok a >>= next = next a

abbrev pub ◌>>◌ {ℓ μ} : {E : Type ℓ} {B : Type μ} → Result E (Unit {0}) → Result E B → Result E B
m >> k = m >>= λ _. k

abbrev pub done {ℓ} : {E : Type ℓ} → Result E (Unit {0})
done = ok tt

-- `if bad { return e }`
abbrev pub fail_if {ℓ} : {E : Type ℓ} → Bool → E → Result E (Unit {0})
fail_if true e = err e
fail_if false e = ok tt

-- `if err := m; err != nil { return wrap(err) }`
abbrev pub map_err {ℓ κ μ} :
    {E : Type ℓ} {F : Type κ} {A : Type μ} → (E → F) → Result E A → Result F A
map_err f (ok a) = ok a
map_err f (err e) = err (f e)

abbrev pub is_ok {ℓ κ} : {E : Type ℓ} {A : Type κ} → Result E A → Bool
is_ok (ok a) = true
is_ok (err e) = false

pub Result-cases {ℓ κ} :
    {E : Type ℓ} {A : Type κ} (r : Result E A) → ((a : A) × (r ≡ ok a)) ⊎ ((e : E) × (r ≡ err e))
Result-cases (ok a) = inl (a, refl)
Result-cases (err e) = inr (e, refl)

-- Inversion of a chain that succeeds.
pub >>=-eq-ok {ℓ κ μ} :
    {E : Type ℓ} {A : Type κ} {B : Type μ} (first : Result E A) (next : A → Result E B) {last : B}
    → (first >>= next) ≡ ok last
    → (given : A) × (first ≡ ok given) × (next given ≡ ok last)
>>=-eq-ok (err e) next h = cc
>>=-eq-ok (ok given) next h = (given, refl, h)

-- A wrapped error was no success before it was wrapped.
pub map_err-eq-ok {ℓ κ μ} :
    {E : Type ℓ} {F : Type κ} {A : Type μ} (f : E → F) (m : Result E A) (a : A)
    → map_err f m ≡ ok a
    → m ≡ ok a
map_err-eq-ok f (ok b) a h = cc h
map_err-eq-ok f (err e) a h = cc h

pub fail_if-eq-ok {ℓ} :
    {E : Type ℓ} (b : Bool) (e : E) (u : Unit {0}) → fail_if b e ≡ ok u → b ≡ false
fail_if-eq-ok true e u h = cc h
fail_if-eq-ok false e u h = refl

-- a guard `if !b` that lets pass
pub fail_if-not-eq-ok {ℓ} :
    {E : Type ℓ} (b : Bool) (e : E) (u : Unit {0}) → fail_if (not b) e ≡ ok u → b ≡ true
fail_if-not-eq-ok true e u h = refl
fail_if-not-eq-ok false e u h = cc h

-- It returns a result.
abbrev pub Returns {ℓ κ} : {E : Type ℓ} {A : Type κ} → Result E A → Type (ℓ ⊔ κ)
Returns {A = A} r = (a : A) × (r ≡ ok a)

pub is_ok-Returns {ℓ κ} : {E : Type ℓ} {A : Type κ} (r : Result E A) → is_ok r ≡ true → Returns r
is_ok-Returns (ok a) h = (a, refl)
is_ok-Returns (err e) h = cc h

pub >>=-Returns {ℓ κ μ} :
    {E : Type ℓ} {A : Type κ} {B : Type μ} (first : Result E A) (next : A → Result E B)
    → Returns first
    → ((given : A) → first ≡ ok given → Returns (next given))
    → Returns (first >>= next)
>>=-Returns (ok a) next (b, h) f = f a refl
>>=-Returns (err e) next (b, h) f = cc h

-- A guard that passes leaves what is behind it.
pub >>-eq-ok {ℓ μ} :
    {E : Type ℓ} {B : Type μ} (guard : Result E (Unit {0})) (next : Result E B) {last : B}
    → (guard >> next) ≡ ok last
    → (guard ≡ ok tt) × (next ≡ ok last)
>>-eq-ok (ok u) next h = (refl, h)
>>-eq-ok (err e) next h = cc h
