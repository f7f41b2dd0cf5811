-- ===== src/Prelude/Map.antt =====
-- Go maps as association lists with one entry for each key: `insert` overwrites in place, so
-- the list order stands for one of the iteration orders that the language allows.
pub mod Total
use chunk_gate.Prelude.{
  ◌≡◌, refl, true, Option, none, some, List, [], ◌∷◌, arith, HasEq, ◌==◌, if◌then◌else◌,
}

abbrev pub Map {ℓ κ} : Type ℓ → Type κ → Type (ℓ ⊔ κ)
Map K V = List (K × V)

module _ {ℓ κ} {K : Type ℓ} {V : Type κ} ⦃keys : HasEq K⦄ where
  unfoldable pub lookup : K → Map K V → Option V
  lookup key [] = none
  lookup key ((at, value) ∷ others) = if at == key then some value else lookup key others

  unfoldable pub delete : K → Map K V → Map K V
  delete key [] = []
  delete key ((at, value) ∷ others) =
      let kept = delete key others in if at == key then kept else (at, value) ∷ kept

  pub lookup-delete :
      (key other : K) (entries : Map K V)
      → lookup other (delete key entries) ≡ (if key == other then none else lookup other entries)
  unfolding lookup delete
  lookup-delete key other [] = ground arith
  lookup-delete key other ((at, value) ∷ others) = ground (
    arith,
    lookup-delete key other others,
    keys.same_iff key other,
    keys.same_iff at key,
    keys.same_iff at other,
  )

  unfoldable pub insert : K → V → Map K V → Map K V
  insert key new [] = (key, new) ∷ []
  insert key new ((at, value) ∷ others) =
      if at == key then (at, new) ∷ others else (at, value) ∷ insert key new others

  pub lookup-insert :
      (key other : K) (new : V) (entries : Map K V)
      → lookup other (insert key new entries)
        ≡ (if key == other then some new else lookup other entries)
  unfolding lookup insert
  lookup-insert key other new [] = refl
  lookup-insert key other new ((at, value) ∷ others) = ground (
    arith,
    lookup-insert key other new others,
    keys.same_iff key other,
    keys.same_iff at key,
    keys.same_iff at other,
  )

pub eq_self {ℓ} : {K : Type ℓ} ⦃keys : HasEq K⦄ (key : K) → (key == key) ≡ true
eq_self ⦃keys⦄ key = (keys.same_iff key key).1 refl
