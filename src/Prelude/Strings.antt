-- ===== src/Prelude/Strings.antt =====
-- Go's `strconv` and `strings` on texts.
use Prim.Native.Nat.{ℕ, zero, suc, ◌+◌, ◌-◌, ◌*◌, ◌/◌, ◌%◌}
use mathlib.Core.Bool.{Bool, false, ◌||◌}
use mathlib.Core.List.{[], ◌∷◌, ◌++◌}
use mathlib.Core.Option.{Option, none, some}
use mathlib.Core.Option
use chunk_gate.Prelude.Tests.{leb, ltb, nat_eq, if◌then◌else◌, Text}
use chunk_gate.Prelude.Chars.{is_digit}
use chunk_gate.Prelude.Int.{ℤ, pos, negsuc}

-- The value of digits after `acc`.
unfoldable pub digits_value : ℕ → Text → Option ℕ
digits_value acc [] = some acc
digits_value acc (c ∷ s) =
    let rest = digits_value (acc * 10 + (c - 48)) s in if is_digit c then rest else none

unfoldable pub parse_uint : Text → Option ℕ
unfolding digits_value
parse_uint [] = none
parse_uint (c ∷ s) = digits_value 0 (c ∷ s)

-- A magnitude with its sign, as an `int64`.
unfoldable pub positive : Option ℕ → Option ℤ
positive none = none
positive (some n) = if leb n 9223372036854775807 then some (pos n) else none

unfoldable pub negative : Option ℕ → Option ℤ
negative none = none
negative (some zero) = some (pos 0)
negative (some (suc n)) = if leb n 9223372036854775807 then some (negsuc n) else none

-- `strconv.ParseInt(s, 10, 64)` and, on 64 bits, `strconv.Atoi(s)`: none for an error.
unfoldable pub parse_int : Text → Option ℤ
unfolding parse_uint positive negative
parse_int [] = none
parse_int (c ∷ s) =
    if nat_eq c b'+'
    then positive (parse_uint s)
    else if nat_eq c b'-'
    then negative (parse_uint s)
    else positive (parse_uint (c ∷ s))

-- The decimal digits of a number, by rounds of fuel.
unfoldable pub digits : ℕ → ℕ → Text
digits zero n = []
digits (suc fuel) n =
    let rest = digits fuel (n / 10) in
    if ltb n 10 then (48 + n) ∷ [] else rest ++ ((48 + n % 10) ∷ [])

-- `strconv.FormatInt(n, 10)`; an `int64` has at most 19 digits.
abbrev pub format_int : ℕ → Text
format_int n = digits 20 n

-- `strings.Cut` at a character: what stands before and after the first one.
unfoldable pub cut : ℕ → Text → Option (Text × Text)
cut at [] = none
cut at (c ∷ s) =
    let rest = cut at s in
    if nat_eq c at then some ([], s) else Option.map (λ parts. (c ∷ parts.0, parts.1)) rest

unfoldable pub contains : ℕ → Text → Bool
contains at [] = false
contains at (c ∷ s) = nat_eq c at || contains at s
