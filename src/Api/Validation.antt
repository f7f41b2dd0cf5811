-- ===== src/Api/Validation.antt =====
-- internal/api/validation.go: names, ids and numbers of requests. `net.ParseIP` is an argument.
use chunk_gate.Prelude.{
  ℕ, Bool, true, false, not, ◌&&◌, ◌||◌, Option, none, some, List, [], ◌∷◌, length, ltb, nat_eq,
  if◌then◌else◌, Text,
}
use chunk_gate.Prelude.Int.{ℤ, pos, negsuc}
use chunk_gate.Prelude.Chars.{in_range, every, is_digit, is_lower_hex}
use chunk_gate.Prelude.Runes.{Range, expected_after}
use chunk_gate.Prelude.Strings.{parse_int}

unfoldable pub is_alnum : ℕ → Bool
unfolding in_range is_digit
is_alnum c = in_range b'a' b'z' c || is_digit c

abbrev pub is_bucket_char : ℕ → Bool
is_bucket_char c = is_alnum c || nat_eq c b'.' || nat_eq c b'-'

-- The loop over the characters, with whether the first is to come and whether a dot was before.
unfoldable pub scan_bucket : Bool → Bool → Text → Bool
scan_bucket first previous_dot [] = true
scan_bucket first previous_dot (c ∷ s) =
    let rest = scan_bucket false (nat_eq c b'.') s in
    if not (is_bucket_char c)
    then false
    else if first && not (is_alnum c)
    then false
    else if nat_eq c b'.' && previous_dot
    then false
    else rest

-- The last character, after `c`.
unfoldable pub last_of : ℕ → Text → ℕ
last_of c [] = c
last_of c (d ∷ s) = last_of d s

-- `strings.Contains` of two characters in a text that begins with `c`.
unfoldable pub has_pair : ℕ → ℕ → ℕ → Text → Bool
has_pair a b c [] = false
has_pair a b c (d ∷ s) = (nat_eq c a && nat_eq d b) || has_pair a b d s

unfoldable pub validate_bucket_name : (Text → Bool) → Text → Bool
validate_bucket_name parse_ip [] = false
validate_bucket_name parse_ip (c ∷ s) =
    if ltb (length (c ∷ s)) 3 || ltb 63 (length (c ∷ s))
    then false
    else if parse_ip (c ∷ s)
    then false
    else if not (scan_bucket true false (c ∷ s))
    then false
    else if not (is_alnum (last_of c s))
    then false
    else not (has_pair b'.' b'-' c s) && not (has_pair b'-' b'.' c s)

abbrev pub max_s3_part_number : ℕ
max_s3_part_number = 10000

unfoldable pub part_in_range : Option ℤ → Option ℕ
part_in_range none = none
part_in_range (some (negsuc n)) = none
part_in_range (some (pos n)) = if nat_eq n 0 || ltb max_s3_part_number n then none else some n

-- `parsePartNumber`; none where it gives false.
unfoldable pub parse_part_number : Text → Option ℕ
unfolding part_in_range
parse_part_number [] = none
parse_part_number (c ∷ raw) =
    if every is_digit (c ∷ raw) then part_in_range (parse_int (c ∷ raw)) else none

-- `validateUploadID` and `validateChunkHash`
unfoldable pub validate_upload_id : Text → Bool
validate_upload_id id = nat_eq (length id) 32 && every is_lower_hex id

unfoldable pub validate_chunk_hash : Text → Bool
validate_chunk_hash hash = nat_eq (length hash) 64 && every is_lower_hex hash

unfoldable pub utf8_from : List Range → Text → Bool
unfolding expected_after
utf8_from [] [] = true
utf8_from (r ∷ rs) [] = false
utf8_from (r ∷ rs) (c ∷ s) = in_range r.0 r.1 c && utf8_from rs s
utf8_from [] (c ∷ s) = elim (expected_after c) [ none ↦ false | some rs ↦ utf8_from rs s ]

-- A rune below 32 is its byte.
unfoldable pub validate_object_key : Text → Bool
unfolding utf8_from
validate_object_key [] = false
validate_object_key (c ∷ s) =
    not (ltb 1024 (length (c ∷ s)))
    && utf8_from [] (c ∷ s)
    && every (λ r. not (nat_eq r 0 || ltb r 32 && not (nat_eq r 9))) (c ∷ s)
