-- ===== src/Engine/QueryValue/Numbers.antt =====
-- Numbers printed in decimal and read back: `FormatUint` then `ParseUint`, `FormatInt` then `ParseInt`.
use mitum_smart_contract.Base.{
  eq_iff, ℕ, zero, suc, ◌+◌, ◌-◌, ◌/◌, ◌%◌, ◌^◌, ◌≤◌, ◌<◌, String, false, some, ◌≡◌, refl, arith,
  ltb, ◌==◌, Bool-cases, inl, inr,
}
use Prim.Native.Char.{code}
use mitum_smart_contract.Snapshot.Values.{ℤ, digit, digits_before, format_uint, format_int}
use mitum_smart_contract.Engine.Arguments.{digits_value, decimal}
use mitum_smart_contract.Engine.QueryValue.{parse_uint64, parse_int64}

-- the character of each digit
code_digit : (d : ℕ) → d < 10 → code (digit d) ≡ 48 + d
code_digit zero h = refl
code_digit (suc zero) h = refl
code_digit (suc (suc zero)) h = refl
code_digit (suc (suc (suc zero))) h = refl
code_digit (suc (suc (suc (suc zero)))) h = refl
code_digit (suc (suc (suc (suc (suc zero))))) h = refl
code_digit (suc (suc (suc (suc (suc (suc zero)))))) h = refl
code_digit (suc (suc (suc (suc (suc (suc (suc zero))))))) h = refl
code_digit (suc (suc (suc (suc (suc (suc (suc (suc zero)))))))) h = refl
code_digit (suc (suc (suc (suc (suc (suc (suc (suc (suc zero))))))))) h = refl
code_digit (suc (suc (suc (suc (suc (suc (suc (suc (suc (suc d)))))))))) h = absurd (omega arith)

-- The printed digits stand for the number, and what follows them is read on from it.
digits_value-digits_before :
    (fuel n : ℕ) (s : String)
    → n < fuel
    → digits_value 0 (digits_before fuel n s) ≡ digits_value n s
unfolding digits_before digits_value
digits_value-digits_before zero n s h = absurd (omega arith)
digits_value-digits_before (suc fuel) n s h = elim (Bool-cases (ltb n 10)) [
  | inl e ↦ let c = code_digit n (ground arith) in ground (arith, c)
  | inr e ↦ rw e (
      let c = code_digit (n % 10) (omega arith) in
      let ih =
        digits_value-digits_before fuel (n / 10) (String.◌∷◌ (digit (n % 10)) s) (ground arith) in
      ground (arith, c, ih))
]

-- The text begins with a digit.
abbrev HasDigit : String → Type 0
HasDigit String.[] = ⊥
HasDigit (String.◌∷◌ d s) = 48 ≤ code d

before-HasDigit : (fuel n : ℕ) (s : String) → HasDigit s → HasDigit (digits_before fuel n s)
unfolding digits_before
before-HasDigit zero n s h = h
before-HasDigit (suc fuel) n s h = elim (Bool-cases (ltb n 10)) [
  | inl e ↦ rw e (let c = code_digit n (ground arith) in omega arith)
  | inr e ↦ rw e (
      before-HasDigit fuel (n / 10) (String.◌∷◌ (digit (n % 10)) s)
        (let c = code_digit (n % 10) (omega arith) in omega arith))
]

format-HasDigit : (n : ℕ) → HasDigit (format_uint n)
unfolding format_uint digits_before
format-HasDigit n = elim (Bool-cases (ltb n 10)) [
  | inl e ↦ rw e (let c = code_digit n (ground arith) in omega arith)
  | inr e ↦ rw e (
      before-HasDigit n (n / 10) (String.◌∷◌ (digit (n % 10)) String.[])
        (let c = code_digit (n % 10) (omega arith) in omega arith))
]

not_empty : (s : String) → HasDigit s → (s == "") ≡ false
not_empty String.[] h = absurd h
not_empty (String.◌∷◌ d s) h = elim (Bool-cases (String.◌∷◌ d s == "")) [
  | inl e ↦ cc ((eq_iff (String.◌∷◌ d s) "").0 e)
  | inr e ↦ e
]

decimal-format_uint : (n : ℕ) → decimal (format_uint n) ≡ some n
unfolding decimal format_uint digits_value
decimal-format_uint n =
    rw (not_empty (format_uint n) (format-HasDigit n))
      (digits_value-digits_before (suc n) n "" (omega arith))

pub parse_uint64-format : (n : ℕ) → n ≤ 2 ^ 64 - 1 → parse_uint64 (format_uint n) ≡ some n
unfolding parse_uint64
parse_uint64-format n h = rw (decimal-format_uint n) (ground arith)

-- The integers of 64 bits with a sign.
abbrev pub IsInt64 : ℤ → Type 0
IsInt64 (ℤ.pos n) = n ≤ 2 ^ 63 - 1
IsInt64 (ℤ.negsuc n) = n ≤ 2 ^ 63 - 1

unsigned_text :
    (s : String) (n : ℕ)
    → HasDigit s
    → decimal s ≡ some n
    → n ≤ 2 ^ 63 - 1
    → parse_int64 s ≡ some (ℤ.pos n)
unfolding parse_int64
unsigned_text String.[] n d e h = absurd d
unsigned_text (String.◌∷◌ c s) n d e h = rw e (ground arith)

pub parse_int64-format : (z : ℤ) → IsInt64 z → parse_int64 (format_int z) ≡ some z
unfolding parse_int64 format_int
parse_int64-format (ℤ.pos n) h =
    unsigned_text (format_uint n) n (format-HasDigit n) (decimal-format_uint n) h
parse_int64-format (ℤ.negsuc n) h = rw (decimal-format_uint (suc n)) (ground arith)
