-- ===== src/Api/Parts.antt =====
-- `validateCompletedParts` of internal/api/multipart_handlers.go: the list of parts of a completion.
use Prim.Native.String.{String}
use chunk_gate.Prelude.{
  ℕ, ◌≤◌, ◌<◌, ◌≡◌, ◌≢◌, ◌↔◌, ◌⊎◌, refl, sym, ap, ◌∙◌, inl, inr, Bool, true, false, not, ◌||◌,
  Option, none, some, List, [], ◌∷◌, map, nat_eq, ℕ_eq, if◌then◌else◌, Text, Text_eq, ◌==◌, codes,
  arith, Bool-cases,
}
use chunk_gate.Prelude.Int.{ℤ, pos, pos_part, leb_ℤ, ltb_ℤ, ◌≤ℤ◌, ◌<ℤ◌}
use chunk_gate.Prelude.Map.{Map, lookup, insert, lookup-insert}
use chunk_gate.Prelude.Chars.{trim_left, trim_right, trim_space, to_lower}
use chunk_gate.Object.Blocks.{is_some}
use chunk_gate.Multipart.Manager.{PartInfo}
use chunk_gate.Api.Responses.{Outcome, rejected, accepted}

pub record CompletePart : Type 0 where
  pub part_number : ℤ
  pub etag : Text

-- On ASCII; the character that is trimmed is the quotation mark.
unfoldable pub normalize_etag : Text → Text
normalize_etag etag =
    map to_lower (trim_right (λ c. nat_eq c 34) (trim_left (λ c. nat_eq c 34) (trim_space etag)))

abbrev bad : {A : Type 0} → String → Outcome A
bad code = rejected (record { status = 400; code = codes code })

abbrev pub number_of : CompletePart → ℕ
number_of p = pos_part p.part_number

unfoldable pub same_etag : Text → Text → Bool
same_etag given stored =
    not (normalize_etag given == [] || not (normalize_etag given == normalize_etag stored))

module _ (uploaded : Map ℕ PartInfo) where
  abbrev etag_checked : CompletePart → Option PartInfo → Outcome ℕ
  etag_checked p none = bad "InvalidPart"
  etag_checked p (some info) =
      if same_etag p.etag info.etag then accepted (number_of p) else bad "InvalidPart"

  unfoldable pub check_completed : ℕ → Map ℕ Bool → CompletePart → Outcome ℕ
  check_completed last seen p =
      if leb_ℤ p.part_number (pos 0) || ltb_ℤ (pos 10000) p.part_number
      then bad "InvalidPart"
      else if leb_ℤ p.part_number (pos last)
      then bad "InvalidPartOrder"
      else if is_some (lookup (number_of p) seen)
      then bad "InvalidPart"
      else etag_checked p (lookup (number_of p) uploaded)

  abbrev and_later : Outcome ℕ → Outcome (List ℕ) → Outcome (List ℕ)
  and_later (rejected e) rest = rejected e
  and_later (accepted n) (rejected e) = rejected e
  and_later (accepted n) (accepted ns) = accepted (n ∷ ns)

  unfoldable pub validate_from : ℕ → Map ℕ Bool → List CompletePart → Outcome (List ℕ)
  unfolding check_completed
  validate_from last seen [] = accepted []
  validate_from last seen (p ∷ ps) =
      and_later (check_completed last seen p)
        (validate_from (number_of p) (insert (number_of p) true seen) ps)

  unfoldable pub validate_completed_parts : List CompletePart → Outcome (List ℕ)
  unfolding validate_from
  validate_completed_parts [] = bad "MalformedXML"
  validate_completed_parts (p ∷ ps) = validate_from 0 [] (p ∷ ps)

  -- Part numbers go up from above `last` to at most 10000, and each part was uploaded with its ETag.
  abbrev pub IsUploaded : CompletePart → Type 0
  IsUploaded p =
      (info : PartInfo) × (lookup (number_of p) uploaded ≡ some info)
      × (same_etag p.etag info.etag ≡ true)

  abbrev pub InOrder : ℕ → List CompletePart → Type 0
  InOrder last [] = Unit {0}
  InOrder last (p ∷ ps) =
      (pos last <ℤ p.part_number)
      × (p.part_number ≤ℤ pos 10000)
      × IsUploaded p
      × InOrder (number_of p) ps

  abbrev Behind : ℕ → Map ℕ Bool → Type 0
  Behind last seen = (n : ℕ) → is_some (lookup n seen) ≡ true → n ≤ last

  insert-Behind :
      (last n : ℕ) (seen : Map ℕ Bool) → Behind last seen → last < n → Behind n (insert n true seen)
  insert-Behind last n seen b h k e = elim (Bool-cases (nat_eq n k)) [
    | inl f ↦ ground arith
    | inr f ↦
        let old : lookup k (insert n true seen) ≡ lookup k seen =
          lookup-insert n k true seen ∙ rw f refl in
        omega (arith, b k (ap is_some (sym old) ∙ e), h)
  ]

  -- A part that may come next.
  check_completed-accepts :
      (last : ℕ) (seen : Map ℕ Bool) (p : CompletePart)
      → Behind last seen
      → pos last <ℤ p.part_number
      → p.part_number ≤ℤ pos 10000
      → IsUploaded p
      → check_completed last seen p ≡ accepted (number_of p)
  unfolding check_completed
  check_completed-accepts last seen p b h k (info, found, same) =
      let low : (leb_ℤ p.part_number (pos 0) || ltb_ℤ (pos 10000) p.part_number) ≡ false =
        ground arith in
      let ascends : leb_ℤ p.part_number (pos last) ≡ false = ground arith in
      rw (low, ascends, unseen (Bool-cases (is_some (lookup (number_of p) seen))), found, same) refl
    where
      unseen :
          (is_some (lookup (number_of p) seen) ≡ true)
            ⊎ (is_some (lookup (number_of p) seen) ≡ false)
          → is_some (lookup (number_of p) seen) ≡ false
      unseen (inl e) = absurd (omega (arith, b (number_of p) e, h))
      unseen (inr e) = e

  etag_checked-inv :
      (p : CompletePart) (found : Option PartInfo) (n : ℕ)
      → etag_checked p found ≡ accepted n
      → (info : PartInfo) × (found ≡ some info)
        × (same_etag p.etag info.etag ≡ true)
        × (n ≡ number_of p)
  etag_checked-inv p none n e = absurd (cc)
  etag_checked-inv p (some info) n e = elim (Bool-cases (same_etag p.etag info.etag)) [
    | inl f ↦
        let given : etag_checked p (some info) ≡ accepted (number_of p) = rw f refl in
        (info, refl, f, cc)
    | inr f ↦
        let refused : etag_checked p (some info) ≡ bad "InvalidPart" = rw f refl in absurd (cc)
  ]

  -- What a part that is accepted is like.
  check_completed-inv :
      (last : ℕ) (seen : Map ℕ Bool) (p : CompletePart) (n : ℕ)
      → check_completed last seen p ≡ accepted n
      → (pos last <ℤ p.part_number)
        × (p.part_number ≤ℤ pos 10000)
        × IsUploaded p
        × (n ≡ number_of p)
  unfolding check_completed
  check_completed-inv last seen p n e =
      elim (Bool-cases (leb_ℤ p.part_number (pos 0) || ltb_ℤ (pos 10000) p.part_number)) [
        | inl f ↦
            let refused : check_completed last seen p ≡ bad "InvalidPart" = rw f refl in absurd (cc)
        | inr f ↦ elim (Bool-cases (leb_ℤ p.part_number (pos last))) [
          | inl g ↦
              let refused : check_completed last seen p ≡ bad "InvalidPartOrder" = rw (f, g) refl in
              absurd (cc)
          | inr g ↦ elim (Bool-cases (is_some (lookup (number_of p) seen))) [
            | inl k ↦
                let refused : check_completed last seen p ≡ bad "InvalidPart" = rw (f, g, k) refl in
                absurd (cc)
            | inr k ↦
                let reached : check_completed last seen p
                    ≡ etag_checked p (lookup (number_of p) uploaded) =
                  rw (f, g, k) refl in
                let (info, found, same, number) =
                  etag_checked-inv p (lookup (number_of p) uploaded) n (sym reached ∙ e) in
                (ground arith, ground arith, (info, found, same), number)
          ]
        ]
      ]

  validate_from-accepts :
      (last : ℕ) (seen : Map ℕ Bool) (ps : List CompletePart)
      → Behind last seen
      → InOrder last ps
      → validate_from last seen ps ≡ accepted (map number_of ps)
  unfolding validate_from
  validate_from-accepts last seen [] b h = refl
  validate_from-accepts last seen (p ∷ ps) b (above, below, there, later) =
      rw
        (
          check_completed-accepts last seen p b above below there,
          validate_from-accepts (number_of p) (insert (number_of p) true seen) ps
              (insert-Behind last (number_of p) seen b (omega (arith, above))) later,
        )
        refl

  and_later-inv :
      (r : Outcome ℕ) (rest : Outcome (List ℕ)) (order : List ℕ)
      → and_later r rest ≡ accepted order
      → (n : ℕ) × (ns : List ℕ) × (r ≡ accepted n) × (rest ≡ accepted ns) × (order ≡ n ∷ ns)
  and_later-inv (rejected x) rest order e = absurd (cc)
  and_later-inv (accepted n) (rejected x) order e = absurd (cc)
  and_later-inv (accepted n) (accepted ns) order e = (n, ns, refl, refl, cc)

  validate_from-inv :
      (last : ℕ) (seen : Map ℕ Bool) (ps : List CompletePart) (order : List ℕ)
      → validate_from last seen ps ≡ accepted order
      → InOrder last ps × (order ≡ map number_of ps)
  unfolding validate_from
  validate_from-inv last seen [] order e = (tt, cc)
  validate_from-inv last seen (p ∷ ps) order e =
      let (n, ns, first, rest, whole) = and_later-inv (check_completed last seen p) _ order e in
      let (above, below, there, number) = check_completed-inv last seen p n first in
      let (later, numbers) =
        validate_from-inv (number_of p) (insert (number_of p) true seen) ps ns rest in
      ((above, below, there, later), cc)

  -- A completion is accepted exactly if it lists a part, the numbers go up from 1 to 10000 at most, and
  -- each part was uploaded with its ETag; the parts are then joined in that order.
  pub validate_completed_parts_exact :
      (ps : List CompletePart) (order : List ℕ)
      → (validate_completed_parts ps ≡ accepted order)
        ↔ ((ps ≢ []) × InOrder 0 ps × (order ≡ map number_of ps))
  unfolding validate_completed_parts lookup
  validate_completed_parts_exact [] order = ((λ e. absurd (cc)), (λ h. absurd (h.0 refl)))
  validate_completed_parts_exact (p ∷ ps) order = (
    (λ e.
        let (ascending, numbers) = validate_from-inv 0 [] (p ∷ ps) order e in
        ((λ f. absurd (cc)), ascending, numbers)),
    (λ h. validate_from-accepts 0 [] (p ∷ ps) (λ n e. absurd (cc)) h.1 ∙ ap accepted (sym h.2)),
  )
