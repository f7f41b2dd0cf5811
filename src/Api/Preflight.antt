-- ===== src/Api/Preflight.antt =====
-- What internal/api/cors.go grants to a browser.
use chunk_gate.Prelude.{
  ◌≡◌, refl, sym, subst, ◌∙◌, ◌⊎◌, inl, inr, Bool, true, false, not, ◌||◌, Option, none, List, [],
  ◌∷◌, map, All, Bool-cases, if◌then◌else◌, Text, Text_eq, text_eq_iff, ◌==◌, codes, arith,
}
use chunk_gate.Prelude.Tests.{text_eq}
use chunk_gate.Prelude.Chars.{to_lower, trim_space}
use chunk_gate.Api.Responses.{S3Error}
use chunk_gate.Api.Cors.{
  CorsConfig, equal_fold, any_of, contains_wildcard, split_header_values, origin_allowed,
  response_origin, method_allowed, headers_allowed, each_allowed, enabled, Preflight, Handled,
  passes, refused, granted, answer, handle_cors,
}

-- Some text of the list passes the test.
abbrev pub Some : (Text → Type 0) → List Text → Type 0
Some P [] = ⊥
Some P (x ∷ xs) = P x ⊎ Some P xs

any_of-Some :
    (test : Text → Bool) (P : Text → Type 0)
    → ((x : Text) → test x ≡ true → P x)
    → (xs : List Text) → any_of test xs ≡ true
    → Some P xs
unfolding any_of
any_of-Some test P h [] e = absurd (cc)
any_of-Some test P h (x ∷ xs) e = elim (Bool-cases (test x)) [
  | inl f ↦ inl (h x f)
  | inr f ↦ inr (any_of-Some test P h xs (ground arith))
]

-- Texts that are the same but for the case of their letters.
abbrev pub SameFold : Text → Text → Type 0
SameFold s t = map to_lower s ≡ map to_lower t

fold-SameFold : (s t : Text) → equal_fold s t ≡ true → SameFold s t
unfolding equal_fold
fold-SameFold s t e = (text_eq_iff (map to_lower s) (map to_lower t)).0 e

module _ (c : CorsConfig) where
  -- What a preflight request asks for is in the configuration.
  abbrev pub OriginListed : Text → Type 0
  OriginListed origin =
      Some (λ allowed. (allowed ≡ codes "*") ⊎ SameFold allowed origin) c.allowed_origins

  abbrev pub MethodListed : Text → Type 0
  MethodListed method = Some (λ allowed. SameFold allowed method) c.allowed_methods

  abbrev pub HeadersListed : Text → Type 0
  HeadersListed request_headers =
      (trim_space request_headers ≡ [])
      ⊎ (contains_wildcard c.allowed_headers ≡ true)
      ⊎ All (λ requested. Some (λ allowed. SameFold allowed requested) c.allowed_headers)
          (split_header_values request_headers)

  origin_allowed-OriginListed :
      (origin : Text) → origin_allowed c origin ≡ true → OriginListed origin
  unfolding origin_allowed
  origin_allowed-OriginListed origin e =
      any_of-Some (λ allowed. allowed == codes "*" || equal_fold allowed origin) _ wild_or_same
        c.allowed_origins e
    where
      wild_or_same :
          (allowed : Text)
          → (allowed == codes "*" || equal_fold allowed origin) ≡ true
          → (allowed ≡ codes "*") ⊎ SameFold allowed origin
      wild_or_same allowed f = elim (Bool-cases (text_eq allowed (codes "*"))) [
        | inl g ↦ inl ((text_eq_iff allowed (codes "*")).0 g)
        | inr g ↦ inr (fold-SameFold allowed origin (ground arith))
      ]

  each_allowed-listed :
      (requested : List Text)
      → each_allowed c requested ≡ true
      → All (λ r. Some (λ allowed. SameFold allowed r) c.allowed_headers) requested
  unfolding each_allowed
  each_allowed-listed [] e = tt
  each_allowed-listed (r ∷ rs) e = (
    any_of-Some (λ allowed. equal_fold allowed r) _ (λ allowed. fold-SameFold allowed r)
        c.allowed_headers (ground arith),
    each_allowed-listed rs (ground arith),
  )

  headers_allowed-HeadersListed : (h : Text) → headers_allowed c h ≡ true → HeadersListed h
  unfolding headers_allowed
  headers_allowed-HeadersListed h e = elim (Bool-cases (text_eq (trim_space h) [])) [
    | inl f ↦ inl ((text_eq_iff (trim_space h) []).0 f)
    | inr f ↦ elim (Bool-cases (contains_wildcard c.allowed_headers)) [
      | inl g ↦ inr (inl g)
      | inr g ↦
          let reached : headers_allowed c h ≡ each_allowed c (split_header_values h) =
            rw (f, g) refl in
          inr (inr (each_allowed-listed (split_header_values h) (sym reached ∙ e)))
    ]
  ]

  module _ (options : Bool) (origin request_method request_headers : Text) where
    Sound : Handled → Type 0
    Sound h =
        (p : Preflight)
        → h ≡ granted p
        → (options ≡ true)
          × OriginListed origin
          × MethodListed request_method
          × HeadersListed request_headers
          × ((p.allow_credentials ≡ false) ⊎ (p.allow_origin ≡ origin))

    passes-Sound : (o : Option (Text × Bool)) → Sound (passes o)
    unfolding Sound
    passes-Sound o p e = absurd (cc)

    refused-Sound : (e : S3Error) → Sound (refused e)
    unfolding Sound
    refused-Sound x p e = absurd (cc)

    guard :
        (b : Bool) (x y : Handled) → Sound x → (b ≡ true → Sound y) → Sound (if not b then x else y)
    guard true x y h k = k refl
    guard false x y h k = h

    guard_not :
        (b : Bool) (x y : Handled) → Sound x → (b ≡ false → Sound y) → Sound (if b then x else y)
    guard_not true x y h k = h
    guard_not false x y h k = k refl

    either : (b : Bool) (x y : Handled) → Sound x → Sound y → Sound (if b then x else y)
    either true x y h k = h
    either false x y h k = k

    answer-credentials :
        ((answer c options origin request_method request_headers).allow_credentials ≡ false)
        ⊎ ((answer c options origin request_method request_headers).allow_origin ≡ origin)
    unfolding response_origin
    answer-credentials = elim (Bool-cases c.allow_credentials) [
      | inl e ↦ inr (rw e refl)
      | inr e ↦ inl e
    ]

    answer-Sound :
        options ≡ true
        → origin_allowed c origin ≡ true
        → method_allowed c request_method ≡ true
        → headers_allowed c request_headers ≡ true
        → Sound (granted (answer c options origin request_method request_headers))
    unfolding Sound method_allowed
    answer-Sound eo ea em eh p e =
        let same : answer c options origin request_method request_headers ≡ p = granted_inj e in
        (
          eo,
          origin_allowed-OriginListed origin ea,
          any_of-Some (λ allowed. equal_fold allowed request_method) _
              (λ allowed. fold-SameFold allowed request_method) c.allowed_methods em,
          headers_allowed-HeadersListed request_headers eh,
          subst (λ x. (x.allow_credentials ≡ false) ⊎ (x.allow_origin ≡ origin)) same
              answer-credentials,
        )
      where
        granted_inj : {x y : Preflight} → granted x ≡ granted y → x ≡ y
        granted_inj e = cc

    -- A preflight request is granted only if the configuration has its origin or a wildcard, its method, and
    -- its headers or a wildcard, whatever the case of their letters; and credentials are allowed only
    -- together with the origin that asks.
    pub handle_cors-granted :
        (p : Preflight)
        → handle_cors c options origin request_method request_headers ≡ granted p
        → (options ≡ true)
          × OriginListed origin
          × MethodListed request_method
          × HeadersListed request_headers
          × ((p.allow_credentials ≡ false) ⊎ (p.allow_origin ≡ origin))
    unfolding handle_cors Sound
    handle_cors-granted = guard (enabled c) _ _ (passes-Sound none) λ _.
        guard_not (text_eq origin []) _ _ (passes-Sound none) λ _.
          guard (origin_allowed c origin) _ _
            (either options _ _ (refused-Sound _) (passes-Sound none))
            λ ea. guard options _ _ (passes-Sound _) λ eo.
              guard_not (text_eq request_method []) _ _ (refused-Sound _) λ _.
                guard (method_allowed c request_method) _ _ (refused-Sound _) λ em.
                  guard (headers_allowed c request_headers) _ _ (refused-Sound _)
                    λ eh. answer-Sound eo ea em eh
