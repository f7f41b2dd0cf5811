-- ===== src/Prelude/Decimal.antt =====
-- Laws of `strconv` and `strings` on decimal numbers.
use Prim.Native.Nat.{ℕ, zero, suc, ◌+◌, ◌-◌, ◌*◌, ◌/◌, ◌%◌, ◌≤◌, ◌<◌}
use mathlib.Core.Path.{◌≡◌, refl, sym, ap, ◌∙◌}
use mathlib.Core.Logic.{inl, inr}
use mathlib.Core.Bool.{true, false}
use mathlib.Core.List.{List, [], ◌∷◌, ◌++◌}
use mathlib.Core.Option.{some}
use native.Mathlib.Omega.{arith}
use chunk_gate.Prelude.Tests.{leb, ltb, nat_eq, nat_eq_iff, Text, Bool-cases}
use chunk_gate.Prelude.Chars.{in_range, is_digit, is_space, trim_left, trim_right, trim_space}
use chunk_gate.Prelude.Lists.{All, All-append, length, length-append}
use chunk_gate.Prelude.Int.{pos}
use chunk_gate.Prelude.Strings.{
  digits_value, parse_uint, positive, parse_int, digits, format_int, cut, contains,
}

power : ℕ → ℕ
power zero = 1
power (suc n) = 10 * power n

some_inj : {A : Type 0} {x y : A} → some x ≡ some y → x ≡ y
some_inj e = cc

value-append :
    (acc v : ℕ) (s t : Text)
    → digits_value acc s ≡ some v
    → digits_value acc (s ++ t) ≡ digits_value v t
unfolding digits_value
value-append acc v [] t e = ap (λ n. digits_value n t) (some_inj e)
value-append acc v (c ∷ s) t e = elim (Bool-cases (is_digit c)) [
  | inl d ↦
      let rest : digits_value (acc * 10 + (c - 48)) s ≡ some v = sym (rw d refl) ∙ e in
      rw d (value-append (acc * 10 + (c - 48)) v s t rest)
  | inr d ↦ absurd (ground arith)
]

-- A digit's character.
is_digit_lem : (d : ℕ) → d < 10 → is_digit (48 + d) ≡ true
unfolding is_digit in_range
is_digit_lem d h = ground arith

more_fuel : (fuel n : ℕ) → n < power (suc fuel) → ltb n 10 ≡ false → 0 < fuel
unfolding power
more_fuel zero n h e = absurd (ground arith)
more_fuel (suc fuel) n h e = omega arith

value-digits : (fuel n : ℕ) → n < power fuel → 0 < fuel → digits_value 0 (digits fuel n) ≡ some n
unfolding digits digits_value power
value-digits zero n h p = absurd (omega arith)
value-digits (suc fuel) n h p = elim (Bool-cases (ltb n 10)) [
  | inl small ↦ rw (small, is_digit_lem n (ground arith)) (ap some (omega arith))
  | inr large ↦ rw large (
      value-append 0 (n / 10) (digits fuel (n / 10)) ((48 + n % 10) ∷ [])
        (value-digits fuel (n / 10) (omega arith) (more_fuel fuel n h large))
      ∙ rw (is_digit_lem (n % 10) (omega arith)) (ap some (omega arith)))
]

abbrev pub AllDigits : Text → Type 0
AllDigits s = All (λ c. is_digit c ≡ true) s

digits-AllDigits : (fuel n : ℕ) → AllDigits (digits fuel n)
unfolding digits
digits-AllDigits zero n = tt
digits-AllDigits (suc fuel) n = elim (Bool-cases (ltb n 10)) [
  | inl small ↦ rw small (is_digit_lem n (ground arith), tt)
  | inr large ↦ rw large (
      All-append (λ c. is_digit c ≡ true) (digits fuel (n / 10)) ((48 + n % 10) ∷ [])
        (digits-AllDigits fuel (n / 10)) (is_digit_lem (n % 10) (omega arith), tt))
]

-- The digits of an `int64`.
pub format_int-AllDigits : (n : ℕ) → AllDigits (format_int n)
format_int-AllDigits n = digits-AllDigits 20 n

length-digits : (fuel n : ℕ) → 0 < fuel → 0 < length (digits fuel n)
unfolding digits
length-digits zero n h = h
length-digits (suc fuel) n h = elim (Bool-cases (ltb n 10)) [
  | inl small ↦ rw small (omega arith)
  | inr large ↦ rw large (omega (arith, length-append (digits fuel (n / 10)) ((48 + n % 10) ∷ [])))
]

pub length-format_int : (n : ℕ) → 0 < length (format_int n)
length-format_int n = length-digits 20 n (omega arith)

parse_digits :
    (s : Text) (n : ℕ)
    → AllDigits s
    → digits_value 0 s ≡ some n
    → n ≤ 9223372036854775807
    → 0 < length s
    → parse_int s ≡ some (pos n)
unfolding parse_int parse_uint positive is_digit in_range
parse_digits [] n d v h long = absurd (omega arith)
parse_digits (c ∷ s) n d v h long =
    let not_plus : nat_eq c b'+' ≡ false = ground (arith, d.0) in
    let not_minus : nat_eq c b'-' ≡ false = ground (arith, d.0) in
    let small : leb n 9223372036854775807 ≡ true = ground arith in
    rw (not_plus, not_minus, ap positive v, small) refl

pub parse_int-format_int :
    (n : ℕ) → n ≤ 9223372036854775807 → parse_int (format_int n) ≡ some (pos n)
unfolding power
parse_int-format_int n h =
    parse_digits (format_int n) n (format_int-AllDigits n)
      (value-digits 20 n (omega arith) (omega arith)) h (length-format_int n)

-- Texts of which every character is far from what an operation looks for.
trim_right_lem : (s : Text) → All (λ c. is_space c ≡ false) s → trim_right is_space s ≡ s
unfolding trim_right
trim_right_lem [] h = refl
trim_right_lem (c ∷ []) h = rw (h.0) refl
trim_right_lem (c ∷ d ∷ s) h = rw (trim_right_lem (d ∷ s) h.1) refl

trim_left_lem : (s : Text) → All (λ c. is_space c ≡ false) s → trim_left is_space s ≡ s
unfolding trim_left
trim_left_lem [] h = refl
trim_left_lem (c ∷ s) h = rw (h.0) refl

pub trim_space_lem : (s : Text) → All (λ c. is_space c ≡ false) s → trim_space s ≡ s
unfolding trim_space
trim_space_lem s h = rw (trim_left_lem s h) (trim_right_lem s h)

pub contains_lem : (at : ℕ) (s : Text) → All (λ c. nat_eq c at ≡ false) s → contains at s ≡ false
unfolding contains
contains_lem at [] h = refl
contains_lem at (c ∷ s) h = rw (h.0) (contains_lem at s h.1)

pub cut_lem :
    (at : ℕ) (s t : Text) → All (λ c. nat_eq c at ≡ false) s → cut at (s ++ (at ∷ t)) ≡ some (s, t)
unfolding cut
cut_lem at [] t h = rw ((nat_eq_iff at at).1 refl) refl
cut_lem at (c ∷ s) t h = rw (cut_lem at s t h.1, h.0) refl

pub All-each {ℓ κ μ} :
    {A : Type ℓ} (P : A → Type κ) (Q : A → Type μ) (xs : List A)
    → ((x : A) → P x → Q x)
    → All P xs
    → All Q xs
All-each P Q [] h a = tt
All-each P Q (x ∷ xs) h a = (h x a.0, All-each P Q xs h a.1)
