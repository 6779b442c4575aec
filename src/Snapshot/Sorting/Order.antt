-- ===== src/Snapshot/Sorting/Order.antt =====
-- The order on keys, and what sorting by it does: a sorted list stays, and the order in which entries
-- with different keys arrive does not matter.
use mitum_smart_contract.Base.{
  String, true, false, [], ◌∷◌, ◌≡◌, ◌≢◌, refl, inl, inr, arith, Map, Bool-cases, All,
}
use Prim.Native.Char.{Char}
use text.Mathlib.TextEquality.{Char-path}
use mitum_smart_contract.Snapshot.Sorting.{before, insert_by_key, sort_by_key}

abbrev cons_path : {c d : Char} {s t : String} → c ≡ d → s ≡ t → String.◌∷◌ c s ≡ String.◌∷◌ d t
cons_path e e' = λ i. String.◌∷◌ (e i) (e' i)

pub before_trans : (s t u : String) → before s t ≡ true → before t u ≡ true → before s u ≡ true
unfolding before
before_trans String.[] String.[] u h k = cc
before_trans String.[] (String.◌∷◌ d t) String.[] h k = cc
before_trans String.[] (String.◌∷◌ d t) (String.◌∷◌ b u) h k = refl
before_trans (String.◌∷◌ c s) String.[] u h k = cc
before_trans (String.◌∷◌ c s) (String.◌∷◌ d t) String.[] h k = cc
before_trans (String.◌∷◌ c s) (String.◌∷◌ d t) (String.◌∷◌ b u) h k =
    ground (arith, before_trans s t u)

pub before_irrefl : (s : String) → before s s ≡ false
unfolding before
before_irrefl String.[] = refl
before_irrefl (String.◌∷◌ c s) = ground (arith, before_irrefl s)

-- Keys of which neither is before the other are equal.
pub before_connex : (s t : String) → before s t ≡ false → before t s ≡ false → s ≡ t
unfolding before
before_connex String.[] String.[] h k = refl
before_connex String.[] (String.◌∷◌ d t) h k = cc h
before_connex (String.◌∷◌ c s) String.[] h k = cc k
before_connex (String.◌∷◌ c s) (String.◌∷◌ d t) h k =
    cons_path (Char-path c d (ground arith)) (before_connex s t (ground arith) (ground arith))

pub before_asym : (s t : String) → before s t ≡ true → before t s ≡ false
before_asym s t h = ground (arith, before_trans s t s h, before_irrefl s)

module _ {ℓ} {A : Type ℓ} where
  -- The keys stand in order.
  abbrev pub Precedes : String → Map A → Type 0
  Precedes k [] = Unit
  Precedes k ((j, v) ∷ m) = before j k ≡ false

  abbrev pub IsSorted : Map A → Type 0
  IsSorted [] = Unit
  IsSorted ((k, v) ∷ m) = Precedes k m × IsSorted m

  Precedes-insert :
      (j k : String) (v : A) (m : Map A)
      → before k j ≡ false
      → Precedes j m
      → Precedes j (insert_by_key k v m)
  unfolding insert_by_key
  Precedes-insert j k v [] h p = h
  Precedes-insert j k v ((i, w) ∷ m) h p = elim (Bool-cases (before i k)) [
    | inl e ↦ rw e p
    | inr e ↦ rw e h
  ]

  insert_by_key-IsSorted :
      (k : String) (v : A) (m : Map A) → IsSorted m → IsSorted (insert_by_key k v m)
  unfolding insert_by_key
  insert_by_key-IsSorted k v [] s = (tt, tt)
  insert_by_key-IsSorted k v ((j, w) ∷ m) (p, s) = elim (Bool-cases (before j k)) [
    | inl e ↦ rw e (Precedes-insert j k v m (before_asym j k e) p, insert_by_key-IsSorted k v m s)
    | inr e ↦ rw e (e, (p, s))
  ]

  pub sort_by_key-IsSorted : (m : Map A) → IsSorted (sort_by_key m)
  unfolding sort_by_key
  sort_by_key-IsSorted [] = tt
  sort_by_key-IsSorted ((k, v) ∷ m) =
      insert_by_key-IsSorted k v (sort_by_key m) (sort_by_key-IsSorted m)

  insert_front :
      (k : String) (v : A) (m : Map A) → Precedes k m → insert_by_key k v m ≡ ((k, v) ∷ m)
  unfolding insert_by_key
  insert_front k v [] p = refl
  insert_front k v ((j, w) ∷ m) p = rw p refl

  -- What is sorted stays.
  pub sort_sorted : (m : Map A) → IsSorted m → sort_by_key m ≡ m
  unfolding sort_by_key
  sort_sorted [] s = refl
  sort_sorted ((k, v) ∷ m) (p, s) = rw (sort_sorted m s) (insert_front k v m p)

  -- Two insertions under different keys commute.
  pub insert_swap :
      (j k : String) (v w : A) (m : Map A)
      → j ≢ k
      → insert_by_key j v (insert_by_key k w m) ≡ insert_by_key k w (insert_by_key j v m)
  unfolding insert_by_key
  insert_swap j k v w [] ne = ground (arith, before_asym j k, before_connex j k)
  insert_swap j k v w ((i, x) ∷ m) ne = ground (
    arith,
    before_asym j k,
    before_connex j k,
    before_trans i j k,
    before_trans i k j,
    insert_swap j k v w m ne,
  )

module _ {ℓ} {A : Type ℓ} (P : String × A → Type 0) where
  insert_by_key-All :
      (k : String) (v : A) (m : Map A) → P (k, v) → All P m → All P (insert_by_key k v m)
  unfolding insert_by_key
  insert_by_key-All k v [] h hs = (h, tt)
  insert_by_key-All k v ((j, w) ∷ m) h (hw, hs) = elim (Bool-cases (before j k)) [
    | inl e ↦ rw e (hw, insert_by_key-All k v m h hs)
    | inr e ↦ rw e (h, (hw, hs))
  ]

  -- What holds of every entry holds after the sort.
  pub sort_by_key-All : (m : Map A) → All P m → All P (sort_by_key m)
  unfolding sort_by_key
  sort_by_key-All [] hs = tt
  sort_by_key-All ((k, v) ∷ m) (h, hs) =
      insert_by_key-All k v (sort_by_key m) h (sort_by_key-All m hs)
