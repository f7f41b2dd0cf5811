-- ===== src/Metadata/Shards.antt =====
-- `ShardResolver` and `SafeTenantID` of internal/metadata/shards.go: the file of a tenant's shard.
use chunk_gate.Prelude.{
  ℕ, ◌≡◌, ◌≢◌, refl, sym, ap, ◌∙◌, inl, inr, true, false, not, ◌||◌, List, [], ◌∷◌, ◌++◌, take,
  if◌then◌else◌, nat_eq, nat_eq_iff, Text, Text_eq, ◌==◌, codes, arith, Bool-cases, differ, length,
  length-append, prefix, suffix,
}
use chunk_gate.Prelude.Tests.{text_eq}
use chunk_gate.Prelude.Chars.{every, is_safe, is_digit, in_range, has_prefix}
use chunk_gate.Prelude.Strings.{contains}
use chunk_gate.Errors.{Result, ok, err, ◌>>=◌, errorf, unwrap}

module _ (sha256_hex : List ℕ → Text) where
  -- A name that is not safe is replaced by the first 8 bytes of its hash.
  unfoldable pub safe_tenant_id : Text → Result Text
  safe_tenant_id tenant =
      if tenant == []
      then ok (codes "default")
      else if not (every is_safe tenant)
      then ok (codes "sha256_" ++ take 16 (sha256_hex tenant))
      else if tenant == codes "."
          || tenant == codes ".."
          || contains b'/' tenant
          || contains 92 tenant
      then err (errorf tenant)
      else ok tenant

  -- `ShardResolver.Path`, with a root that is clean.
  unfoldable pub shard_path : Text → Text → Result Text
  shard_path root tenant = do
    safe ← safe_tenant_id tenant
    ok (root ++ (codes "/tenant_" ++ (safe ++ codes ".db")))

contains_safe :
    (at : ℕ) (s : Text) → is_safe at ≡ false → every is_safe s ≡ true → contains at s ≡ false
unfolding contains every is_safe in_range is_digit
contains_safe at [] h e = refl
contains_safe at (c ∷ s) h e =
    let later : contains at s ≡ false = contains_safe at s h (ground arith) in
    let here : nat_eq c at ≡ false = elim (Bool-cases (nat_eq c at)) [
      | inr f ↦ f
      | inl f ↦
          let safe : is_safe c ≡ true = ground arith in
          let same : is_safe c ≡ is_safe at = ap is_safe ((nat_eq_iff c at).0 f) in absurd (cc)
    ] in
    rw (here, later) refl

dot_apart :
    (s : Text) → every is_safe s ≡ true → ((s == codes ".") ≡ false) × ((s == codes "..") ≡ false)
unfolding text_eq every is_safe in_range is_digit
dot_apart [] e = (refl, refl)
dot_apart (c ∷ s) e = (ground arith, ground arith)

abbrev pub IsPlain : Text → Type 0
IsPlain t = (t ≢ []) × (has_prefix (codes "sha256_") t ≡ false)

module _ (sha256_hex : List ℕ → Text) where
  -- A name that is not empty, safe or not.
  kept : (t : Text) → t ≢ [] → every is_safe t ≡ true → safe_tenant_id sha256_hex t ≡ ok t
  unfolding safe_tenant_id is_safe in_range is_digit
  kept t some_name e =
      let named : (t == []) ≡ false = differ t [] some_name in
      rw
        (
          named,
          e,
          (dot_apart t e).0,
          (dot_apart t e).1,
          contains_safe b'/' t refl e,
          contains_safe 92 t refl e,
        )
        refl

  hashed :
      (t : Text)
      → t ≢ []
      → every is_safe t ≡ false
      → safe_tenant_id sha256_hex t ≡ ok (codes "sha256_" ++ take 16 (sha256_hex t))
  unfolding safe_tenant_id
  hashed t some_name e = let named : (t == []) ≡ false = differ t [] some_name in rw (named, e) refl

  -- No name is refused.
  pub safe_tenant_id-total : (t : Text) → (s : Text) × (safe_tenant_id sha256_hex t ≡ ok s)
  unfolding safe_tenant_id text_eq
  safe_tenant_id-total [] = (codes "default", refl)
  safe_tenant_id-total (c ∷ t) = elim (Bool-cases (every is_safe (c ∷ t))) [
    | inl e ↦ (c ∷ t, kept (c ∷ t) (λ f. absurd (cc)) e)
    | inr e ↦ (codes "sha256_" ++ take 16 (sha256_hex (c ∷ t)), hashed (c ∷ t) (λ f. absurd (cc)) e)
  ]

  unlike_hash : (t s : Text) → has_prefix (codes "sha256_") t ≡ false → t ≡ codes "sha256_" ++ s → ⊥
  unfolding has_prefix
  unlike_hash t s h e =
      let same : has_prefix (codes "sha256_") t ≡ true = ap (has_prefix (codes "sha256_")) e in
      absurd (cc)

  safe_tenant_id-injective :
      (t u : Text)
      → IsPlain t
      → IsPlain u
      → (take 16 (sha256_hex t) ≡ take 16 (sha256_hex u) → t ≡ u)
      → safe_tenant_id sha256_hex t ≡ safe_tenant_id sha256_hex u
      → t ≡ u
  safe_tenant_id-injective t u (some_t, plain_t) (some_u, plain_u) apart e =
      elim (Bool-cases (every is_safe t)) [
        | inl st ↦ elim (Bool-cases (every is_safe u)) [
          | inl su ↦ unwrap (sym (kept t some_t st) ∙ e ∙ kept u some_u su)
          | inr su ↦
              absurd
                (unlike_hash t _ plain_t (unwrap (sym (kept t some_t st) ∙ e ∙ hashed u some_u su)))
        ]
        | inr st ↦ elim (Bool-cases (every is_safe u)) [
          | inl su ↦ absurd (
              unlike_hash u _ plain_u
                (sym (unwrap (sym (hashed t some_t st) ∙ e ∙ kept u some_u su))))
          | inr su ↦ apart (
              suffix (codes "sha256_") (codes "sha256_") _ _ refl
                (unwrap (sym (hashed t some_t st) ∙ e ∙ hashed u some_u su)))
        ]
      ]

  same_end : (xs ys zs : Text) → xs ++ zs ≡ ys ++ zs → xs ≡ ys
  same_end xs ys zs e =
      prefix xs ys zs zs (omega (arith, ap length e, length-append xs zs, length-append ys zs)) e

  shard_path-injective :
      (root t u : Text)
      → IsPlain t
      → IsPlain u
      → (take 16 (sha256_hex t) ≡ take 16 (sha256_hex u) → t ≡ u)
      → shard_path sha256_hex root t ≡ shard_path sha256_hex root u
      → t ≡ u
  unfolding shard_path
  shard_path-injective root t u pt pu apart e =
      let (s, es) = safe_tenant_id-total t in
      let (v, ev) = safe_tenant_id-total u in
      let paths : root ++ (codes "/tenant_" ++ (s ++ codes ".db"))
          ≡ root ++ (codes "/tenant_" ++ (v ++ codes ".db")) =
        unwrap (sym (rw es refl) ∙ e ∙ rw ev refl) in
      let named : s ≡ v =
        same_end s v (codes ".db") (
          suffix (codes "/tenant_") (codes "/tenant_") _ _ refl
            (suffix root root _ _ refl paths)) in
      safe_tenant_id-injective t u pt pu apart (es ∙ ap ok named ∙ sym ev)

  -- Different tenants have different shards, if their names are not empty and do not begin with
  -- `sha256_`, and names of one hash, in its first 8 bytes, are the same.
  pub distinct_shards :
      (root t u : Text)
      → IsPlain t
      → IsPlain u
      → (take 16 (sha256_hex t) ≡ take 16 (sha256_hex u) → t ≡ u)
      → t ≢ u
      → shard_path sha256_hex root t ≢ shard_path sha256_hex root u
  distinct_shards root t u pt pu apart other e = other (shard_path-injective root t u pt pu apart e)
