-- ===== src/Api/RangeLaws.antt =====
-- What `parseSingleRange` of internal/api/ranges.go gives.
use chunk_gate.Prelude.{
  ℕ, ◌-◌, ◌≤◌, ◌<◌, ◌≡◌, ap, inl, inr, ◌&&◌, Option, none, some, [], ltb, leb, nat_eq, Text,
  Text_eq, codes, arith, Bool-cases,
}
use chunk_gate.Prelude.Tests.{text_eq}
use chunk_gate.Prelude.Int.{ℤ, pos, negsuc}
use chunk_gate.Prelude.Chars.{has_prefix, trim_prefix, trim_space}
use chunk_gate.Prelude.Strings.{parse_int, cut, contains}
use chunk_gate.Errors.{Result, ok, unwrap}
use chunk_gate.Object.Service.{ByteRange}
use chunk_gate.Api.Ranges.{
  suffix_range, to_end, from_start, range_of, range_at, range_spec, parse_single_range,
}

abbrev IsWithin : ℕ → Result ByteRange → Type 0
IsWithin size r =
    (range : ByteRange) → r ≡ ok range → (range.start ≤ range.end) × (range.end < size)

module _ (size : ℕ) where
  given-IsWithin :
      (start end : ℕ)
      → start ≤ end
      → end < size
      → IsWithin size (ok (record { start = start; end = end }))
  given-IsWithin start end h k range e =
      let same : record { start = start; end = end } ≡ range = unwrap e in
      (
        omega (arith, ap (λ r. r.start) same, ap (λ r. r.end) same, h),
        omega (arith, ap (λ r. r.end) same, k),
      )

  suffix-IsWithin : (n : Option ℤ) → 0 < size → IsWithin size (suffix_range size n)
  unfolding suffix_range
  suffix-IsWithin none h = λ range e. absurd (cc)
  suffix-IsWithin (some (negsuc n)) h = λ range e. absurd (cc)
  suffix-IsWithin (some (pos n)) h = elim (Bool-cases (nat_eq n 0)) [
    | inl e ↦ rw e (λ range e. absurd (cc))
    | inr e ↦ rw e (given-IsWithin _ _ (ground arith) (omega arith))
  ]

  to_end-IsWithin : (start : ℕ) (n : Option ℤ) → start < size → IsWithin size (to_end size start n)
  unfolding to_end
  to_end-IsWithin start none h = λ range e. absurd (cc)
  to_end-IsWithin start (some (negsuc n)) h = λ range e. absurd (cc)
  to_end-IsWithin start (some (pos end)) h = elim (Bool-cases (ltb end start)) [
    | inl e ↦ rw e (λ range e. absurd (cc))
    | inr e ↦ rw e (given-IsWithin _ _ (ground arith) (ground arith))
  ]

  from_start-IsWithin :
      (end_raw : Text) (n : Option ℤ) → 0 < size → IsWithin size (from_start size end_raw n)
  unfolding from_start
  from_start-IsWithin end_raw none h = λ range e. absurd (cc)
  from_start-IsWithin end_raw (some (negsuc n)) h = λ range e. absurd (cc)
  from_start-IsWithin end_raw (some (pos start)) h = elim (Bool-cases (leb size start)) [
    | inl e ↦ rw e (λ range e. absurd (cc))
    | inr e ↦ rw e (elim (Bool-cases (text_eq end_raw [])) [
      | inl f ↦ rw f (given-IsWithin start (size - 1) (ground arith) (ground arith))
      | inr f ↦ rw f (to_end-IsWithin start (parse_int end_raw) (ground arith))
    ])
  ]

  range_of-IsWithin : (a b : Text) → IsWithin size (range_of size a b)
  unfolding range_of
  range_of-IsWithin a b = elim (Bool-cases (text_eq a [] && text_eq b [])) [
    | inl e ↦ rw e (λ range e. absurd (cc))
    | inr e ↦ rw e (elim (Bool-cases (nat_eq size 0)) [
      | inl f ↦ rw f (λ range e. absurd (cc))
      | inr f ↦ rw f (elim (Bool-cases (text_eq a [])) [
        | inl g ↦ rw g (suffix-IsWithin (parse_int b) (ground arith))
        | inr g ↦ rw g (from_start-IsWithin b (parse_int a) (ground arith))
      ])
    ])
  ]

  range_at-IsWithin : (parts : Option (Text × Text)) → IsWithin size (range_at size parts)
  unfolding range_at
  range_at-IsWithin none = λ range e. absurd (cc)
  range_at-IsWithin (some (a, b)) = range_of-IsWithin (trim_space a) (trim_space b)

  range_spec-IsWithin : (spec : Text) → IsWithin size (range_spec size spec)
  unfolding range_spec
  range_spec-IsWithin spec = elim (Bool-cases (text_eq spec [])) [
    | inl e ↦ rw e (λ range e. absurd (cc))
    | inr e ↦ rw e (elim (Bool-cases (contains b',' spec)) [
      | inl f ↦ rw f (λ range e. absurd (cc))
      | inr f ↦ rw f (range_at-IsWithin (cut b'-' spec))
    ])
  ]

  -- A range that is accepted lies within the object: its start is at most its end, and its end is
  -- below the size.
  pub parse_single_range-IsWithin :
      (header : Text) (range : ByteRange)
      → parse_single_range size header ≡ ok range
      → (range.start ≤ range.end) × (range.end < size)
  unfolding parse_single_range
  parse_single_range-IsWithin header = elim (Bool-cases (has_prefix (codes "bytes=") header)) [
    | inl e ↦ rw e (range_spec-IsWithin (trim_space (trim_prefix (codes "bytes=") header)))
    | inr e ↦ rw e (λ range e. absurd (cc))
  ]
