-- ===== src/Prelude/Map/Total.antt =====
-- Maps with one entry for each key, and sums over their values.
use chunk_gate.Prelude.{
  ℕ, ◌+◌, ◌≡◌, refl, inl, inr, Option, none, some, [], ◌∷◌, arith, HasEq, ◌==◌, Bool-cases,
}
use chunk_gate.Prelude.Map.{Map, lookup, insert, delete, lookup-insert, lookup-delete, eq_self}

abbrev pub weight {ℓ} : {V : Type ℓ} → (V → ℕ) → Option V → ℕ
weight f none = 0
weight f (some v) = f v

module _ {ℓ} {K V : Type ℓ} ⦃keys : HasEq K⦄ where
  abbrev pub Unique : Map K V → Type ℓ
  Unique [] = Unit
  Unique ((at, value) ∷ others) = (lookup at others ≡ none) × Unique others

  unfoldable pub total : (V → ℕ) → Map K V → ℕ
  total f [] = 0
  total f ((at, value) ∷ others) = f value + total f others

  pub Unique-insert : (key : K) (new : V) (m : Map K V) → Unique m → Unique (insert key new m)
  unfolding insert lookup
  Unique-insert key new [] u = (refl, tt)
  Unique-insert key new ((at, value) ∷ others) u = elim (Bool-cases (at == key)) [
    | inl hit ↦ rw hit u
    | inr miss ↦ rw miss (
      ground (arith, lookup-insert key at new others, keys.same_iff key at, keys.same_iff at key),
      Unique-insert key new others u.1,
    )
  ]

  delete-none : (key : K) (m : Map K V) → lookup key m ≡ none → delete key m ≡ m
  unfolding delete lookup
  delete-none key [] e = refl
  delete-none key ((at, value) ∷ others) e = ground (arith, delete-none key others)

  pub Unique-delete : (key : K) (m : Map K V) → Unique m → Unique (delete key m)
  unfolding delete lookup
  Unique-delete key [] u = tt
  Unique-delete key ((at, value) ∷ others) u = elim (Bool-cases (at == key)) [
    | inl hit ↦ rw hit (Unique-delete key others u.1)
    | inr miss ↦ rw miss (
      ground (arith, lookup-delete key at others, keys.same_iff key at, keys.same_iff at key),
      Unique-delete key others u.1,
    )
  ]

  pub total-insert :
      (f : V → ℕ) (key : K) (new : V) (m : Map K V)
      → Unique m
      → total f (insert key new m) ≡ f new + total f (delete key m)
  unfolding total insert delete
  total-insert f key new [] u = refl
  total-insert f key new ((at, value) ∷ others) u =
      ground
        (arith, total-insert f key new others u.1, keys.same_iff at key, delete-none key others)

  pub total-delete :
      (f : V → ℕ) (key : K) (m : Map K V)
      → Unique m
      → total f m ≡ weight f (lookup key m) + total f (delete key m)
  unfolding total lookup delete
  total-delete f key [] u = refl
  total-delete f key ((at, value) ∷ others) u =
      ground (arith, total-delete f key others u.1, keys.same_iff at key, delete-none key others)

  pub lookup-head :
      (at : K) (value : V) (others : Map K V) → lookup at ((at, value) ∷ others) ≡ some value
  unfolding lookup
  lookup-head at value others = rw (eq_self at) refl

  pub lookup-tail :
      (key at : K) (value v : V) (others : Map K V)
      → lookup at others ≡ none
      → lookup key others ≡ some v
      → lookup key ((at, value) ∷ others) ≡ some v
  unfolding lookup
  lookup-tail key at value v others e h = ground (arith, keys.same_iff at key)

  pub total-ext :
      (f g : V → ℕ) (m : Map K V)
      → Unique m
      → ((key : K) (v : V) → lookup key m ≡ some v → f v ≡ g v)
      → total f m ≡ total g m
  unfolding total
  total-ext f g [] u h = refl
  total-ext f g ((at, value) ∷ others) u h = omega (
    arith,
    h at value (lookup-head at value others),
    total-ext f g others u.1 (λ key v e. h key v (lookup-tail key at value v others u.0 e)),
  )
