-- ===== src/Base/Text.antt =====
-- The parts of Go's `strings` that the sources call.
use Prim.Native.Nat.{ℕ}
use Prim.Native.Char.{code}
use Prim.Native.String.{String}
use mathlib.Core.Bool.{Bool, ◌||◌}
use text.Mathlib.Text.{◌==◌}
use mitum_smart_contract.Base.Tests.{nat_eq, if◌then◌else◌}

-- `strings.ReplaceAll(s, c, "")` for a text of one character, by its code point
unfoldable pub remove_char : ℕ → String → String
remove_char c String.[] = String.[]
remove_char c (String.◌∷◌ d s) =
    if nat_eq (code d) c then remove_char c s else String.◌∷◌ d (remove_char c s)

-- `strings.HasSuffix(s, t)`
unfoldable pub has_suffix : String → String → Bool
has_suffix String.[] t = "" == t
has_suffix (String.◌∷◌ d s) t = String.◌∷◌ d s == t || has_suffix s t
