-- ===== src/Snapshot/Sorting.antt =====
-- `sort.Slice` by key, of operation/contract/runtime/gno_snapshot_codec.go: for keys that differ, the
-- order of the result is determined, and insertion sort computes it.
pub mod Order
use mitum_smart_contract.Base.{String, Bool, true, false, ltb, List, [], ◌∷◌, if◌then◌else◌, Map}
use Prim.Native.Char.{code}

-- `a < b` on strings: the order of the bytes
unfoldable pub before : String → String → Bool
before String.[] String.[] = false
before String.[] (String.◌∷◌ d t) = true
before (String.◌∷◌ c s) String.[] = false
before (String.◌∷◌ c s) (String.◌∷◌ d t) =
    let rest = before s t in
    if ltb (code c) (code d) then true else if ltb (code d) (code c) then false else rest

module _ {ℓ} {A : Type ℓ} where
  unfoldable pub insert_by_key : String → A → Map A → Map A
  insert_by_key k v [] = (k, v) ∷ []
  insert_by_key k v ((j, w) ∷ m) =
      let rest = insert_by_key k v m in if before j k then (j, w) ∷ rest else (k, v) ∷ (j, w) ∷ m

  unfoldable pub sort_by_key : Map A → Map A
  unfolding insert_by_key
  sort_by_key [] = []
  sort_by_key ((k, v) ∷ m) = insert_by_key k v (sort_by_key m)
