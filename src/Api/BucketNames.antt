-- ===== src/Api/BucketNames.antt =====
-- The bucket names that internal/api/validation.go accepts.
use chunk_gate.Prelude.{
  ℕ, ◌≡◌, refl, sym, ap, ◌∙◌, inl, inr, Bool, true, false, not, ◌&&◌, ◌||◌, List, [], ◌∷◌, length,
  ltb, leb, nat_eq, if◌then◌else◌, Text, arith, Bool-cases,
}
use chunk_gate.Prelude.Chars.{in_range, is_digit}
use chunk_gate.Api.Validation.{is_alnum, scan_bucket, last_of, has_pair, validate_bucket_name}

-- What stands between the dots: the first part, and the others.
unfoldable pub labels_of : Text → Text × List Text
labels_of [] = ([], [])
labels_of (c ∷ s) =
    let parts = labels_of s in
    if nat_eq c b'.' then ([], parts.0 ∷ parts.1) else (c ∷ parts.0, parts.1)

-- A label has letters, digits and hyphens, and a letter or a digit at both ends.
unfoldable pub inner : ℕ → Text → Bool
inner p [] = is_alnum p
inner p (c ∷ l) = (is_alnum c || nat_eq c b'-') && inner c l

unfoldable pub is_label : Text → Bool
unfolding inner
is_label [] = false
is_label (c ∷ l) = is_alnum c && inner c l

unfoldable pub all_labels : List Text → Bool
all_labels [] = true
all_labels (l ∷ ls) = is_label l && all_labels ls

-- Characters of which each may follow the one before.
follows : ℕ → ℕ → Bool
follows p c =
    (is_alnum c || nat_eq c b'.' || nat_eq c b'-')
    && (not (nat_eq p b'.') || is_alnum c)
    && (not (nat_eq p b'-') || not (nat_eq c b'.'))

good : ℕ → Text → Bool
good p [] = is_alnum p
good p (c ∷ s) = follows p c && good c s

-- The tests of the code, on what follows a character.
tests : ℕ → Text → Bool
tests p s =
    scan_bucket false (nat_eq p b'.') s
    && is_alnum (last_of p s)
    && not (has_pair b'.' b'-' p s)
    && not (has_pair b'-' b'.' p s)

-- The tests on a character and the one before, among the tests on what follows.
pair_tests :
    (a d h pd ph s l x y : Bool)
    → (a && d) ≡ false
    → (a && h) ≡ false
    → ((if not (a || d || h) then false else if d && pd then false else s)
        && l
        && not ((pd && h) || x)
        && not ((ph && d) || y))
      ≡ (((a || d || h) && (not pd || a) && (not ph || not d)) && (s && l && not x && not y))
pair_tests true true h pd ph s l x y e f = absurd (cc)
pair_tests true false true pd ph s l x y e f = absurd (cc)
pair_tests true false false pd ph s l x y e f = ground arith
pair_tests false true h pd ph s l x y e f = ground arith
pair_tests false false true pd ph s l x y e f = ground arith
pair_tests false false false pd ph s l x y e f = refl

apart : (c : ℕ) → ((is_alnum c && nat_eq c b'.') ≡ false) × ((is_alnum c && nat_eq c b'-') ≡ false)
unfolding is_alnum in_range is_digit
apart c = (ground arith, ground arith)

tests-good : (p : ℕ) (s : Text) → tests p s ≡ good p s
unfolding tests good scan_bucket last_of has_pair follows
tests-good p [] = ground arith
tests-good p (c ∷ s) =
    pair_tests (is_alnum c) (nat_eq c b'.') (nat_eq c b'-') (nat_eq p b'.') (nat_eq p b'-')
      (scan_bucket false (nat_eq c b'.') s) (is_alnum (last_of c s)) (has_pair b'.' b'-' c s)
      (has_pair b'-' b'.' c s) (apart c).0 (apart c).1
    ∙ ap (λ b. follows p c && b) (tests-good c s)

-- What may follow a character of a label, and a dot.
follows_label :
    (p c : ℕ)
    → nat_eq p b'.' ≡ false
    → nat_eq c b'.' ≡ false
    → follows p c ≡ (is_alnum c || nat_eq c b'-')
unfolding follows is_alnum in_range is_digit
follows_label p c e f = ground arith

follows_dot : (p c : ℕ) → nat_eq p b'.' ≡ true → nat_eq c b'.' ≡ false → follows p c ≡ is_alnum c
unfolding follows is_alnum in_range is_digit
follows_dot p c e f = ground arith

dot_follows :
    (p c : ℕ)
    → nat_eq p b'.' ≡ false
    → (is_alnum p || nat_eq p b'-') ≡ true
    → nat_eq c b'.' ≡ true
    → follows p c ≡ is_alnum p
unfolding follows is_alnum in_range is_digit
dot_follows p c e v f = ground arith

dot_dot : (p c : ℕ) → nat_eq p b'.' ≡ true → nat_eq c b'.' ≡ true → follows p c ≡ false
unfolding follows is_alnum in_range is_digit
dot_dot p c e f = ground arith

when_true : (w x a b : Bool) → (w ≡ true → x ≡ (a && b)) → (w && x) ≡ ((w && a) && b)
when_true true x a b h = h refl
when_true false x a b h = refl

alnum_or : (c : ℕ) → is_alnum c ≡ true → (is_alnum c || nat_eq c b'-') ≡ true
alnum_or c e = rw e refl

-- The rest of a label and the labels behind it; and the labels behind a dot.
Rest : ℕ → Text → Type 0
Rest p s = good p s ≡ (inner p (labels_of s).0 && all_labels (labels_of s).1)

AfterDot : ℕ → Text → Type 0
AfterDot p s = good p s ≡ (is_label (labels_of s).0 && all_labels (labels_of s).1)

labels_lem :
    (s : Text)
    → ((p : ℕ) → nat_eq p b'.' ≡ false → (is_alnum p || nat_eq p b'-') ≡ true → Rest p s)
      × ((p : ℕ) → nat_eq p b'.' ≡ true → AfterDot p s)
unfolding Rest AfterDot good labels_of is_label all_labels inner
labels_lem [] = ((λ p e v. ground arith), (λ p e. ground (arith, apart p)))
labels_lem (c ∷ s) = (
  (λ p e v. elim (Bool-cases (nat_eq c b'.')) [
    | inl f ↦ rw f (rw (dot_follows p c e v f, (labels_lem s).1 c f) refl)
    | inr f ↦ rw f (
        rw (follows_label p c e f)
          (when_true (is_alnum c || nat_eq c b'-') (good c s) _ _ (λ g. (labels_lem s).0 c f g)))
  ]),
  (λ p e. elim (Bool-cases (nat_eq c b'.')) [
    | inl f ↦ rw f (rw (dot_dot p c e f) refl)
    | inr f ↦ rw f (
        rw (follows_dot p c e f)
          (when_true (is_alnum c) (good c s) _ _ (λ g. (labels_lem s).0 c f (alnum_or c g))))
  ]),
)

-- The names of 3 to 63 characters that are no IP addresses and whose parts between dots are labels.
abbrev pub is_name : (Text → Bool) → Text → Bool
is_name parse_ip b =
    leb 3 (length b)
    && leb (length b) 63
    && not (parse_ip b)
    && (is_label (labels_of b).0 && all_labels (labels_of b).1)

-- The tests that the code makes one after another, as one.
all_tests :
    (low high ip scanned l x y : Bool)
    → (if low || high
        then false
        else if ip
        then false
        else if not scanned
        then false
        else if not l
        then false
        else not x && not y)
      ≡ (not low && not high && not ip && (scanned && l && not x && not y))
all_tests true high ip scanned l x y = refl
all_tests false true ip scanned l x y = refl
all_tests false false true scanned l x y = refl
all_tests false false false false l x y = refl
all_tests false false false true false x y = refl
all_tests false false false true true x y = refl

first_scan :
    (c : ℕ) (s : Text)
    → scan_bucket true false (c ∷ s) ≡ (is_alnum c && scan_bucket false (nat_eq c b'.') s)
unfolding scan_bucket
first_scan c s = elim (Bool-cases (is_alnum c)) [
  | inl e ↦ rw e (dotless (nat_eq c b'.') (scan_bucket false (nat_eq c b'.') s))
  | inr e ↦ rw e (refused (nat_eq c b'.' || nat_eq c b'-'))
]
  where
    dotless : (d r : Bool) → (if d && false then false else r) ≡ r
    dotless true r = refl
    dotless false r = refl

    refused : (v : Bool) → (if not v then false else false) ≡ false
    refused true = refl
    refused false = refl

first_label :
    (c : ℕ) (s : Text)
    → (is_label (labels_of (c ∷ s)).0 && all_labels (labels_of (c ∷ s)).1)
      ≡ (is_alnum c && good c s)
unfolding labels_of is_label Rest
first_label c s = elim (Bool-cases (nat_eq c b'.')) [
  | inl f ↦ rw f (ground (arith, apart c))
  | inr f ↦
      rw f (sym (when_true (is_alnum c) (good c s) _ _ (λ g. (labels_lem s).0 c f (alnum_or c g))))
]

and_assoc :
    (a s l x y : Bool) → ((a && s) && l && not x && not y) ≡ (a && (s && l && not x && not y))
and_assoc true s l x y = refl
and_assoc false s l x y = refl

-- `validateBucketName` accepts exactly the names of 3 to 63 characters that are no IP addresses, and that
-- are labels with dots between: of lower-case letters, digits and hyphens, with a letter or a digit at
-- both ends of each.
pub validate_bucket_name-is_name :
    (parse_ip : Text → Bool) (b : Text) → validate_bucket_name parse_ip b ≡ is_name parse_ip b
unfolding validate_bucket_name tests scan_bucket
validate_bucket_name-is_name parse_ip [] = refl
validate_bucket_name-is_name parse_ip (c ∷ s) =
    let few : not (ltb (length (c ∷ s)) 3) ≡ leb 3 (length (c ∷ s)) = ground arith in
    let many : not (ltb 63 (length (c ∷ s))) ≡ leb (length (c ∷ s)) 63 = ground arith in
    let named : (scan_bucket true false (c ∷ s)
          && is_alnum (last_of c s)
          && not (has_pair b'.' b'-' c s)
          && not (has_pair b'-' b'.' c s))
        ≡ (is_label (labels_of (c ∷ s)).0 && all_labels (labels_of (c ∷ s)).1) =
      rw (first_scan c s) (and_assoc (is_alnum c) _ _ _ _)
      ∙ ap (λ b. is_alnum c && b) (tests-good c s)
      ∙ sym (first_label c s) in
    all_tests (ltb (length (c ∷ s)) 3) (ltb 63 (length (c ∷ s))) (parse_ip (c ∷ s))
      (scan_bucket true false (c ∷ s)) (is_alnum (last_of c s)) (has_pair b'.' b'-' c s)
      (has_pair b'-' b'.' c s)
    ∙ rw (few, many)
        (ap (λ b. leb 3 (length (c ∷ s)) && leb (length (c ∷ s)) 63 && not (parse_ip (c ∷ s)) && b)
          named)
