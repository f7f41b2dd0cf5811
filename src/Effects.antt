-- ===== src/Effects.antt =====
-- Go functions that poll a context and change state on the way: the state comes back beside the
-- error too, since what was done before an error stays done.
use chunk_gate.Prelude.{ℕ, ◌+◌, Option, none, some}
use chunk_gate.Errors.{Error, Result, ok, err, Context}

-- `polls` counts the calls of `ctx.Err()`; `user` is the state that the functions work on.
pub record World {ℓ} (S : Type ℓ) : Type ℓ where
  pub polls : ℕ
  pub user : S

abbrev pub Exec {ℓ κ} : Type ℓ → Type κ → Type (ℓ ⊔ κ)
Exec S A = World S → Result A × World S

module _ {ℓ κ} {S : Type ℓ} {A : Type κ} where
  abbrev pub pure : A → Exec S A
  pure a w = (ok a, w)

  abbrev pub raise : Error → Exec S A
  raise e w = (err e, w)

  abbrev pub lift : Result A → Exec S A
  lift r w = (r, w)

  -- A step on the user's state.
  abbrev pub on_user : (S → Result A × S) → Exec S A
  on_user f w = let (r, s) = f w.user in (r, record w { user = s })

module _ {ℓ κ μ} {S : Type ℓ} {A : Type κ} {B : Type μ} where
  abbrev pub continue : Result A → (A → Exec S B) → Exec S B
  continue (ok a) f w = f a w
  continue (err e) f w = (err e, w)

  infixl 10 ◌>>=◌ ◌>>◌
  abbrev pub ◌>>=◌ : Exec S A → (A → Exec S B) → Exec S B
  ◌>>=◌ m f w = let (r, w') = m w in continue r f w'

  abbrev pub ◌>>◌ : Exec S A → Exec S B → Exec S B
  m >> n = m >>= λ _. n

abbrev pub answer {ℓ} : {S : Type ℓ} → Option Error → Exec S (Unit {0})
answer none = pure tt
answer (some e) = raise e

-- `if err := ctx.Err(); err != nil { return err }`
abbrev pub poll {ℓ} : {S : Type ℓ} → Context → Exec S (Unit {0})
poll ctx w = answer (ctx w.polls) (record w { polls = w.polls + 1 })
