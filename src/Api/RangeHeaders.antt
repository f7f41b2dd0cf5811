-- ===== src/Api/RangeHeaders.antt =====
-- `parseSingleRange` of internal/api/ranges.go on the headers that ask for a range.
use chunk_gate.Prelude.{
  ℕ, ◌-◌, ◌≤◌, ◌<◌, ◌≡◌, refl, ◌∙◌, true, false, some, [], ◌∷◌, ◌++◌, All, All-append, length, min,
  ltb, leb, nat_eq, if◌then◌else◌, Text, Text_eq, codes, arith,
}
use chunk_gate.Prelude.Tests.{text_eq}
use chunk_gate.Prelude.Int.{pos}
use chunk_gate.Prelude.Chars.{has_prefix, trim_prefix, trim_space, is_digit, is_space, in_range}
use chunk_gate.Prelude.Strings.{parse_int, format_int, contains}
use chunk_gate.Prelude.Decimal.{
  AllDigits, format_int-AllDigits, length-format_int, parse_int-format_int, trim_space_lem,
  contains_lem, cut_lem, All-each,
}
use chunk_gate.Errors.{ok}
use chunk_gate.Object.Service.{ByteRange}
use chunk_gate.Api.Ranges.{
  suffix_range, to_end, from_start, range_of, range_at, range_spec, parse_single_range,
}

-- What a header asks for: the bytes from one to another, from one on, or the last ones.
pub data Wanted : Type 0 where
  between : ℕ → ℕ → Wanted
  onwards last : ℕ → Wanted

abbrev pub header_of : Wanted → Text
header_of (between a b) = codes "bytes=" ++ (format_int a ++ (b'-' ∷ format_int b))
header_of (onwards a) = codes "bytes=" ++ (format_int a ++ (b'-' ∷ []))
header_of (last n) = codes "bytes=" ++ (b'-' ∷ format_int n)

-- The numbers are `int64`, and there is such a byte.
abbrev pub IsSatisfiable : ℕ → Wanted → Type 0
IsSatisfiable size (between a b) = (a ≤ b) × (a < size) × (b ≤ 9223372036854775807)
IsSatisfiable size (onwards a) = (a < size) × (a ≤ 9223372036854775807)
IsSatisfiable size (last n) = (0 < n) × (0 < size) × (n ≤ 9223372036854775807)

-- The bytes of an object that are meant.
abbrev pub meant : ℕ → Wanted → ByteRange
meant size (between a b) = record { start = a; end = min b (size - 1) }
meant size (onwards a) = record { start = a; end = size - 1 }
meant size (last n) = record { start = size - n; end = size - 1 }

digit_apart :
    (at : ℕ) → is_digit at ≡ false → (s : Text) → AllDigits s → All (λ c. nat_eq c at ≡ false) s
unfolding is_digit in_range
digit_apart at h s d = All-each (λ c. is_digit c ≡ true) _ s (λ c e. ground arith) d

pub digits_solid : (s : Text) → AllDigits s → All (λ c. is_space c ≡ false) s
unfolding is_digit in_range is_space
digits_solid s d = All-each (λ c. is_digit c ≡ true) _ s (λ c e. ground arith) d

is_dash : is_digit b'-' ≡ false
unfolding is_digit in_range
is_dash = refl

is_comma : is_digit b',' ≡ false
unfolding is_digit in_range
is_comma = refl

pub not_space : is_space b'-' ≡ false
unfolding is_space in_range
not_space = refl

some_text : (s t : Text) (c : ℕ) → text_eq (s ++ (c ∷ t)) [] ≡ false
unfolding text_eq
some_text [] t c = refl
some_text (d ∷ s) t c = refl

-- A header of digits around a dash is cut there.
header_parts :
    (size : ℕ) (s t : Text)
    → AllDigits s
    → AllDigits t
    → parse_single_range size (codes "bytes=" ++ (s ++ (b'-' ∷ t))) ≡ range_of size s t
unfolding parse_single_range range_at has_prefix trim_prefix range_spec
header_parts size s t ds dt =
    let trimmed : trim_space (s ++ (b'-' ∷ t)) ≡ s ++ (b'-' ∷ t) =
      trim_space_lem (s ++ (b'-' ∷ t)) (
        All-append (λ c. is_space c ≡ false) s (b'-' ∷ t) (digits_solid s ds)
          (not_space, digits_solid t dt)) in
    let single : contains b',' (s ++ (b'-' ∷ t)) ≡ false = contains_lem b',' (s ++ (b'-' ∷ t)) (
      All-append (λ c. nat_eq c b',' ≡ false) s (b'-' ∷ t) (digit_apart b',' is_comma s ds)
        (refl, digit_apart b',' is_comma t dt)) in
    rw
      (
        trimmed,
        some_text s t b'-',
        single,
        cut_lem b'-' s t (digit_apart b'-' is_dash s ds),
        trim_space_lem s (digits_solid s ds),
        trim_space_lem t (digits_solid t dt),
      )
      refl

nonempty : (s : Text) → 0 < length s → text_eq s [] ≡ false
unfolding text_eq
nonempty [] h = absurd (omega arith)
nonempty (c ∷ s) h = refl

not_empty : (n : ℕ) → text_eq (format_int n) [] ≡ false
not_empty n = nonempty (format_int n) (length-format_int n)

module _ (size : ℕ) (s t : Text) where
  between_lem :
      (a b : ℕ)
      → text_eq s [] ≡ false
      → text_eq t [] ≡ false
      → parse_int s ≡ some (pos a)
      → parse_int t ≡ some (pos b)
      → a ≤ b
      → a < size
      → range_of size s t ≡ ok (record { start = a; end = min b (size - 1) })
  unfolding range_of from_start to_end
  between_lem a b es et ps pt h k =
      let large : nat_eq size 0 ≡ false = ground arith in
      let below : leb size a ≡ false = ground arith in
      let ordered : ltb b a ≡ false = ground arith in
      let clipped : (if leb size b then size - 1 else b) ≡ min b (size - 1) = ground arith in
      rw (es, large, ps, below, et, pt, ordered, clipped) refl

  onwards_lem :
      (a : ℕ)
      → text_eq s [] ≡ false
      → parse_int s ≡ some (pos a)
      → a < size
      → range_of size s [] ≡ ok (record { start = a; end = size - 1 })
  unfolding range_of from_start text_eq
  onwards_lem a es ps k =
      let large : nat_eq size 0 ≡ false = ground arith in
      let below : leb size a ≡ false = ground arith in rw (es, large, ps, below) refl

  last_lem :
      (n : ℕ)
      → text_eq t [] ≡ false
      → parse_int t ≡ some (pos n)
      → 0 < n
      → 0 < size
      → range_of size [] t ≡ ok (record { start = size - n; end = size - 1 })
  unfolding range_of suffix_range text_eq
  last_lem n et pt h k =
      let large : nat_eq size 0 ≡ false = ground arith in
      let some_bytes : nat_eq n 0 ≡ false = ground arith in
      let clipped : (if ltb size n then 0 else size - n) ≡ size - n = ground arith in
      rw (et, large, pt, some_bytes, clipped) refl

-- A header that asks for bytes that there are gives them, cut off at the end of the object. Its
-- numbers are `int64`.
pub parse_single_range-header_of :
    (size : ℕ) (wanted : Wanted)
    → IsSatisfiable size wanted
    → parse_single_range size (header_of wanted) ≡ ok (meant size wanted)
parse_single_range-header_of size (between a b) h =
    header_parts size (format_int a) (format_int b) (format_int-AllDigits a)
      (format_int-AllDigits b)
    ∙ between_lem size (format_int a) (format_int b) a b (not_empty a) (not_empty b)
        (parse_int-format_int a (omega (arith, h.0, h.2))) (parse_int-format_int b h.2) h.0 h.1
parse_single_range-header_of size (onwards a) h =
    header_parts size (format_int a) [] (format_int-AllDigits a) tt
    ∙ onwards_lem size (format_int a) [] a (not_empty a) (parse_int-format_int a h.1) h.0
parse_single_range-header_of size (last n) h =
    header_parts size [] (format_int n) tt (format_int-AllDigits n)
    ∙ last_lem size [] (format_int n) n (not_empty n) (parse_int-format_int n h.2) h.0 h.1
