-- ===== src/Api/Reads.antt =====
-- What the handlers of internal/api/object_handlers.go send for an object whose chunks are stored.
use chunk_gate.Prelude.{
  ℕ, ◌+◌, ◌-◌, ◌≤◌, ◌<◌, ◌≡◌, refl, sym, ap, ◌∙◌, false, Option, none, some, List, [], ◌∷◌, All,
  All-append, length, concat, drop, length-take, length-drop, Text, Text_eq, ◌==◌, arith,
}
use chunk_gate.Prelude.Tests.{text_eq}
use chunk_gate.Prelude.Chars.{is_space, in_range}
use chunk_gate.Prelude.Strings.{format_int}
use chunk_gate.Prelude.Decimal.{format_int-AllDigits, trim_space_lem}
use chunk_gate.Errors.{ok, ◌>>=◌, bind_ok, unwrap}
use chunk_gate.Metadata.Types.{ObjectManifest}
use chunk_gate.Metadata.Memory.{get_object}
use chunk_gate.Object.Blocks.{BlockStore}
use chunk_gate.Object.Service.{Server, ByteRange, stat}
use chunk_gate.Object.Open.{Source, open_object, open_chunks, read_all}
use chunk_gate.Object.Slices.{slice}
use chunk_gate.Object.Ranges.{Laid, fetch, fetch-slice}
use chunk_gate.Api.RangeHeaders.{
  Wanted, between, onwards, last, header_of, IsSatisfiable, meant, digits_solid,
  parse_single_range-header_of,
}
use chunk_gate.Api.Objects.{
  content_range_of, get_object_response, get_object_range, stat_response, range_response,
  part_response, apply_range_headers,
}

-- A header that asks for a range has no white space, and is there.
header_solid : (wanted : Wanted) → All (λ c. is_space c ≡ false) (header_of wanted)
unfolding is_space in_range
header_solid (between a b) = (
  refl,
  (
    refl,
    (
      refl,
      (
        refl,
        (
          refl,
          (
            refl,
            All-append (λ c. is_space c ≡ false) (format_int a) (b'-' ∷ format_int b)
                (digits_solid (format_int a) (format_int-AllDigits a))
                (refl, digits_solid (format_int b) (format_int-AllDigits b)),
          ),
        ),
      ),
    ),
  ),
)
header_solid (onwards a) = (
  refl,
  (
    refl,
    (
      refl,
      (
        refl,
        (
          refl,
          (
            refl,
            All-append (λ c. is_space c ≡ false) (format_int a) (b'-' ∷ [])
                (digits_solid (format_int a) (format_int-AllDigits a)) (refl, tt),
          ),
        ),
      ),
    ),
  ),
)
header_solid (last n) = (
  refl,
  (
    refl,
    (refl, (refl, (refl, (refl, (refl, digits_solid (format_int n) (format_int-AllDigits n)))))),
  ),
)

header_there : (wanted : Wanted) → (header_of wanted == []) ≡ false
unfolding text_eq
header_there (between a b) = refl
header_there (onwards a) = refl
header_there (last n) = refl

length-slice :
    (r : ByteRange) (xs : List ℕ)
    → r.start ≤ r.end
    → r.end < length xs
    → length (slice r.start (r.end + 1) xs) ≡ r.end - r.start + 1
length-slice r xs h k =
    omega (arith, length-take (r.end + 1 - r.start) (drop r.start xs), length-drop r.start xs, h, k)

meant_within :
    (size : ℕ) (wanted : Wanted)
    → IsSatisfiable size wanted
    → ((meant size wanted).start ≤ (meant size wanted).end) × ((meant size wanted).end < size)
meant_within size (between a b) h = (omega (arith, h.0, h.1), omega (arith, h.1))
meant_within size (onwards a) h = (omega (arith, h.0), omega (arith, h.0))
meant_within size (last n) h = (omega (arith, h.0, h.1), omega (arith, h.1))

module _ {B : Type 0} (blocks : BlockStore B) (tenant bucket key : Text) (s : Server B)
    (m : ObjectManifest) where
  -- What opening gives where the read of it succeeds.
  opened_lem :
      (range : Option ByteRange) (bytes : List ℕ)
      → (get_object none tenant bucket key s.store).0 ≡ ok m
      → fetch blocks none tenant bucket key range s ≡ ok bytes
      → (readers : List Source) × (open_object blocks none tenant bucket key range s
          ≡ ok (m, readers))
        × (read_all readers ≡ ok bytes)
  unfolding open_object
  opened_lem range bytes found e =
      let (opened, (opens, reads)) =
        bind_ok (open_object blocks none tenant bucket key range s) (λ o. read_all o.1) bytes e in
      let (m', (found', opens')) =
        bind_ok (get_object none tenant bucket key s.store).0
          (λ x. do readers ← open_chunks blocks tenant s.backend range x.chunks; ok (x, readers))
          opened opens in
      let (readers, (chunks, whole)) =
        bind_ok (open_chunks blocks tenant s.backend range m'.chunks) (λ r. ok (m', r)) opened
          opens' in
      let same : m' ≡ m = unwrap (sym found' ∙ found) in
      let both : (m', readers) ≡ opened = unwrap whole in
      (
        readers,
        opens ∙ ap ok (sym both ∙ ap (λ x. (x, readers)) same),
        ap (λ o. read_all o.1) both ∙ reads,
      )

  module _ (xss : List (List ℕ)) (found : (get_object none tenant bucket key s.store).0 ≡ ok m)
      (laid : Laid blocks tenant s.backend 0 m.chunks xss)
      (sized : m.size ≡ length (concat xss)) where
    -- GET for a range that there is, of an object whose chunks are stored, lie one behind the other and
    -- are as long together as its size: the status is 206, the body has the bytes that the header asks
    -- for and no others, and the headers tell how many and which they are. The context is not cancelled.
    pub get_object_response-range :
        (wanted : Wanted)
        → IsSatisfiable m.size wanted
        → let bytes =
            slice (meant m.size wanted).start ((meant m.size wanted).end + 1) (concat xss) in
          get_object_response blocks false tenant bucket key (λ n. none) s (header_of wanted)
          ≡ record {
            status = 206;
            code = [];
            headers = m.headers;
            etag = m.etag;
            content_length = some (length bytes);
            content_range = content_range_of (meant m.size wanted) m.size;
            body = ok bytes;
          }
    unfolding get_object_response get_object_range stat_response range_response part_response
        apply_range_headers stat
    get_object_response-range wanted h =
        let range : ByteRange = meant m.size wanted in
        let within : (range.start ≤ range.end) × (range.end < m.size) =
          meant_within m.size wanted h in
        let (readers, opens, reads) =
          opened_lem (some range) (slice range.start (range.end + 1) (concat xss)) found
            (fetch-slice blocks tenant bucket key (some range) s m xss within.0 found laid) in
        rw
          (
            trim_space_lem (header_of wanted) (header_solid wanted),
            header_there wanted,
            found,
            parse_single_range-header_of m.size wanted h,
            opens,
            reads,
            length-slice range (concat xss) within.0 (omega (arith, within.1, sized)),
          )
          refl
