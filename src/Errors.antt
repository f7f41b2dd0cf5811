-- ===== src/Errors.antt =====
-- The errors that the packages return, results that may fail, and contexts.
use chunk_gate.Prelude.{ℕ, ◌≡◌, refl, ◌⊎◌, inl, inr, Option, none, some, Text}

-- The sentinel errors of the packages, `http.MaxBytesError`, `fmt.Errorf` with and without `%w`, the error of a
-- cancelled context, and errors of code outside the program.
pub data Error : Type 0 where
  canceled : Error
  outside : ℕ → Error
  capacity_exceeded insufficient_disk : Error
  metadata_not_found : Error
  block_not_found : Error
  chunk_not_in_manifest : Error
  upload_not_found part_too_large upload_too_large : Error
  draining : Error
  backend_unavailable : Error
  body_too_large : Error
  errorf : Text → Error
  wrapped : Text → Error → Error

pub data Result {ℓ} (A : Type ℓ) : Type ℓ where
  err : Error → Result A
  ok : A → Result A

module _ {ℓ κ} {V : Type ℓ} {W : Type κ} where
  infixl 5 ◌>>=◌ ◌>>◌
  -- An error returns at once.
  abbrev pub ◌>>=◌ : Result V → (V → Result W) → Result W
  err problem >>= next = err problem
  ok value >>= next = next value

  abbrev pub ◌>>◌ : Result V → Result W → Result W
  err problem >> next = err problem
  ok value >> next = next

-- `if err := e; err != nil { return err }`
abbrev pub check : Option Error → Result (Unit {0})
check none = ok tt
check (some e) = err e

pub Result-cases {ℓ} :
    {A : Type ℓ} (r : Result A) → ((a : A) × (r ≡ ok a)) ⊎ ((e : Error) × (r ≡ err e))
Result-cases (ok a) = inl (a, refl)
Result-cases (err e) = inr (e, refl)

-- What a chain that succeeds went through.
pub bind_ok {ℓ κ} :
    {V : Type ℓ} {W : Type κ} (r : Result V) (next : V → Result W) (b : W)
    → (r >>= next) ≡ ok b
    → (a : V) × ((r ≡ ok a) × (next a ≡ ok b))
bind_ok (ok a) next b h = (a, (refl, h))
bind_ok (err e) next b h = cc

pub unwrap {ℓ} : {A : Type ℓ} {x y : A} → ok x ≡ ok y → x ≡ y
unwrap e = cc

-- A context answers each call of `ctx.Err()` in turn: the n-th answer of the run.
abbrev pub Context : Type 0
Context = ℕ → Option Error

abbrev pub background : Context
background n = none
