-- ===== src/Api/Ranges.antt =====
-- `parseSingleRange` of internal/api/ranges.go. Sizes are not negative.
use Prim.Native.String.{String}
use chunk_gate.Prelude.{
  ℕ, ◌-◌, Bool, ◌&&◌, not, Option, none, some, [], ltb, leb, nat_eq, if◌then◌else◌, Text, Text_eq,
  ◌==◌, codes,
}
use chunk_gate.Prelude.Int.{ℤ, pos, negsuc}
use chunk_gate.Prelude.Chars.{has_prefix, trim_prefix, trim_space}
use chunk_gate.Prelude.Strings.{parse_int, cut, contains}
use chunk_gate.Errors.{Result, ok, err, errorf}
use chunk_gate.Object.Service.{ByteRange}

abbrev pub refused : String → Result ByteRange
refused why = err (errorf (codes why))

abbrev is_empty : Text → Bool
is_empty s = s == []

module _ (size : ℕ) where
  -- `-n`: the last n bytes, or all.
  unfoldable pub suffix_range : Option ℤ → Result ByteRange
  suffix_range none = refused "suffix length is invalid"
  suffix_range (some (negsuc n)) = refused "suffix length is invalid"
  suffix_range (some (pos n)) =
      if nat_eq n 0
      then refused "suffix length is invalid"
      else ok (record { start = if ltb size n then 0 else size - n; end = size - 1 })

  unfoldable pub to_end : ℕ → Option ℤ → Result ByteRange
  to_end start none = refused "range end is invalid"
  to_end start (some (negsuc n)) = refused "range end is invalid"
  to_end start (some (pos end)) =
      if ltb end start
      then refused "range end is before range start"
      else ok (record { start = start; end = if leb size end then size - 1 else end })

  unfoldable pub from_start : Text → Option ℤ → Result ByteRange
  unfolding to_end
  from_start end_raw none = refused "range start is invalid"
  from_start end_raw (some (negsuc n)) = refused "range start is invalid"
  from_start end_raw (some (pos start)) =
      if leb size start
      then refused "range is not satisfiable"
      else if is_empty end_raw
      then ok (record { start = start; end = size - 1 })
      else to_end start (parse_int end_raw)

  unfoldable pub range_of : Text → Text → Result ByteRange
  unfolding suffix_range from_start
  range_of start_raw end_raw =
      if is_empty start_raw && is_empty end_raw
      then refused "range is empty"
      else if nat_eq size 0
      then refused "range is not satisfiable"
      else if is_empty start_raw
      then suffix_range (parse_int end_raw)
      else from_start end_raw (parse_int start_raw)

  unfoldable pub range_at : Option (Text × Text) → Result ByteRange
  unfolding range_of
  range_at none = refused "range must include a dash"
  range_at (some (start_raw, end_raw)) = range_of (trim_space start_raw) (trim_space end_raw)

  unfoldable pub range_spec : Text → Result ByteRange
  unfolding range_at
  range_spec spec =
      if is_empty spec
      then refused "range is empty"
      else if contains b',' spec
      then refused "multiple ranges are not supported"
      else range_at (cut b'-' spec)

  unfoldable pub parse_single_range : Text → Result ByteRange
  unfolding range_spec
  parse_single_range header =
      if not (has_prefix (codes "bytes=") header)
      then refused "only bytes ranges are supported"
      else range_spec (trim_space (trim_prefix (codes "bytes=") header))
