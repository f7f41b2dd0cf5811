-- ===== src/Prelude/Runes.antt =====
-- UTF-8: the runes that Go's `range` over a string gives, and the names made of safe ones.
use Prim.Native.Nat.{ℕ, zero, suc, ◌+◌, ◌-◌, ◌*◌}
use mathlib.Core.List.{List, [], ◌∷◌}
use mathlib.Core.Option.{Option, none, some}
use chunk_gate.Prelude.Tests.{ltb, nat_eq, if◌then◌else◌, Text}
use chunk_gate.Prelude.Chars.{in_range, is_safe}

-- The bytes that may follow a first byte of UTF-8; none where it is no first byte.
abbrev pub Range : Type 0
Range = ℕ × ℕ

abbrev tail_range : Range
tail_range = (128, 191)

unfoldable pub expected_after : ℕ → Option (List Range)
expected_after c =
    if ltb c 128
    then some []
    else if in_range 194 223 c
    then some (tail_range ∷ [])
    else if nat_eq c 224
    then some ((160, 191) ∷ tail_range ∷ [])
    else if nat_eq c 237
    then some ((128, 159) ∷ tail_range ∷ [])
    else if in_range 225 239 c
    then some (tail_range ∷ tail_range ∷ [])
    else if nat_eq c 240
    then some ((144, 191) ∷ tail_range ∷ tail_range ∷ [])
    else if in_range 241 243 c
    then some (tail_range ∷ tail_range ∷ tail_range ∷ [])
    else if nat_eq c 244
    then some ((128, 143) ∷ tail_range ∷ tail_range ∷ [])
    else none

-- What a first byte holds of its rune, by the number of the bytes that follow.
lead_value : List Range → ℕ → ℕ
lead_value [] c = c
lead_value (a ∷ []) c = c - 192
lead_value (a ∷ b ∷ []) c = c - 224
lead_value (a ∷ b ∷ d ∷ rs) c = c - 240

-- The rune with these bytes behind its first one; none where one of them is missing.
with_tail : List Range → ℕ → Text → Option ℕ
with_tail [] value s = some value
with_tail (r ∷ rs) value [] = none
with_tail (r ∷ rs) value (c ∷ s) =
    let rest = with_tail rs (value * 64 + (c - 128)) s in if in_range r.0 r.1 c then rest else none

tail_count : List Range → ℕ
tail_count [] = 0
tail_count (r ∷ rs) = suc (tail_count rs)

-- A rune and the number of bytes behind its first; U+FFFD for one invalid byte.
decode_rune : ℕ → Text → Option (List Range) → ℕ × ℕ
unfolding lead_value with_tail tail_count
decode_rune c s none = (65533, 0)
decode_rune c s (some rs) = elim (with_tail rs (lead_value rs c) s) [
  | none ↦ (65533, 0)
  | some value ↦ (value, tail_count rs)
]

-- The runes of what follows the bytes to skip.
unfoldable pub runes_from : ℕ → Text → Text
unfolding decode_rune
runes_from k [] = []
runes_from (suc k) (c ∷ s) = runes_from k s
runes_from zero (c ∷ s) =
    let (value, width) = decode_rune c s (expected_after c) in value ∷ runes_from width s

unfoldable pub safe_runes : Text → Text
safe_runes [] = []
safe_runes (r ∷ rs) = (if is_safe r then r else b'_') ∷ safe_runes rs

-- A name as a part of a path: a rune that is not safe, or an invalid byte, becomes one `_`.
unfoldable pub safe_part : Text → Text
unfolding runes_from
safe_part s = safe_runes (runes_from 0 s)
