-- ===== src/Prelude/Chars.antt =====
-- Tests on characters, and operations of Go's `strings` on them.
use Prim.Native.Nat.{ℕ, ◌+◌, ◌-◌}
use mathlib.Core.Bool.{Bool, true, false, ◌&&◌, ◌||◌}
use mathlib.Core.List.{[], ◌∷◌}
use chunk_gate.Prelude.Tests.{leb, nat_eq, if◌then◌else◌, Text}

unfoldable pub in_range : ℕ → ℕ → ℕ → Bool
in_range low high c = leb low c && leb c high

-- A test of all characters.
unfoldable pub every : (ℕ → Bool) → Text → Bool
every test [] = true
every test (c ∷ s) = test c && every test s

unfoldable pub is_digit : ℕ → Bool
unfolding in_range
is_digit c = in_range b'0' b'9' c

unfoldable pub is_lower_hex : ℕ → Bool
unfolding in_range is_digit
is_lower_hex c = in_range b'a' b'f' c || is_digit c

-- What Go's `switch` keeps of a path part: ASCII letters, digits, `-` and `_`.
unfoldable pub is_safe : ℕ → Bool
unfolding in_range is_digit
is_safe c =
    in_range b'a' b'z' c || in_range b'A' b'Z' c || is_digit c || nat_eq c b'-' || nat_eq c b'_'

unfoldable pub has_prefix : Text → Text → Bool
has_prefix [] s = true
has_prefix (p ∷ ps) [] = false
has_prefix (p ∷ ps) (c ∷ s) = nat_eq p c && has_prefix ps s

-- `strings.TrimPrefix`
unfoldable pub trim_prefix : Text → Text → Text
trim_prefix [] s = s
trim_prefix (p ∷ ps) [] = []
trim_prefix (p ∷ ps) (c ∷ s) = trim_prefix ps s

-- `strings.ToLower` and `strings.ToUpper` on an ASCII character.
unfoldable pub to_lower : ℕ → ℕ
unfolding in_range
to_lower c = if in_range b'A' b'Z' c then c + 32 else c

unfoldable pub to_upper : ℕ → ℕ
unfolding in_range
to_upper c = if in_range b'a' b'z' c then c - 32 else c

-- The ASCII white space that `strings.TrimSpace` trims.
unfoldable pub is_space : ℕ → Bool
unfolding in_range
is_space c = in_range 9 13 c || nat_eq c 32

unfoldable pub trim_left : (ℕ → Bool) → Text → Text
trim_left test [] = []
trim_left test (c ∷ s) = let rest = trim_left test s in if test c then rest else c ∷ s

-- What is left without the last characters that pass the test.
unfoldable pub trim_right : (ℕ → Bool) → Text → Text
trim_right test [] = []
trim_right test (c ∷ s) = keep (trim_right test s)
  where
    keep : Text → Text
    keep [] = if test c then [] else c ∷ []
    keep (d ∷ rest) = c ∷ d ∷ rest

-- `strings.TrimSpace`, on ASCII
unfoldable pub trim_space : Text → Text
trim_space s = trim_right is_space (trim_left is_space s)
