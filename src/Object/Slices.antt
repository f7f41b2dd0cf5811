-- ===== src/Object/Slices.antt =====
-- Slices of byte lists, and the window that a range of internal/object/service.go cuts from a part of the bytes.
use chunk_gate.Prelude.{
  ℕ, zero, suc, ◌+◌, ◌-◌, ◌≤◌, ◌≡◌, refl, sym, ap, ◌∙◌, ◌⊎◌, inl, inr, List, [], ◌∷◌, ◌++◌, length,
  take, drop, arith, length-drop,
}
use chunk_gate.Object.Service.{ByteRange}

module _ {A : Type 0} where
  pub drop-append :
      (n : ℕ) (xs ys : List A) → drop n (xs ++ ys) ≡ drop n xs ++ drop (n - length xs) ys
  drop-append zero [] ys = refl
  drop-append zero (x ∷ xs) ys = rw (unroll (length xs)) refl
    where
      unroll : (k : ℕ) → 0 - suc k ≡ 0
      unroll k = omega arith
  drop-append (suc n) [] ys = rw (minus_zero (suc n)) refl
    where
      minus_zero : (k : ℕ) → k - 0 ≡ k
      minus_zero k = omega arith
  drop-append (suc n) (x ∷ xs) ys =
      drop-append n xs ys ∙ ap (λ k. drop n xs ++ drop k ys) (omega arith)

  pub take-append :
      (n : ℕ) (xs ys : List A) → take n (xs ++ ys) ≡ take n xs ++ take (n - length xs) ys
  take-append zero [] ys = refl
  take-append zero (x ∷ xs) ys = rw (unroll (length xs)) refl
    where
      unroll : (k : ℕ) → 0 - suc k ≡ 0
      unroll k = omega arith
  take-append (suc n) [] ys = rw (minus_zero (suc n)) refl
    where
      minus_zero : (k : ℕ) → k - 0 ≡ k
      minus_zero k = omega arith
  take-append (suc n) (x ∷ xs) ys =
      ap (λ l. x ∷ l) (take-append n xs ys ∙ ap (λ k. take n xs ++ take k ys) (omega arith))

  -- The bytes from `from` up to `upto`, not included.
  abbrev pub slice : ℕ → ℕ → List A → List A
  slice from upto xs = take (upto - from) (drop from xs)

  take_all : (n : ℕ) (xs : List A) → length xs ≤ n → take n xs ≡ xs
  take_all zero [] h = refl
  take_all zero (x ∷ xs) h = absurd (omega arith)
  take_all (suc n) [] h = refl
  take_all (suc n) (x ∷ xs) h = ap (λ l. x ∷ l) (take_all n xs (omega arith))

  drop_all : (n : ℕ) (xs : List A) → length xs ≤ n → drop n xs ≡ []
  drop_all zero [] h = refl
  drop_all zero (x ∷ xs) h = absurd (omega arith)
  drop_all (suc n) [] h = refl
  drop_all (suc n) (x ∷ xs) h = drop_all n xs (omega arith)

  take_nil : (n : ℕ) → take {A = A} n [] ≡ []
  take_nil zero = refl
  take_nil (suc n) = refl

-- The bytes that a stream which starts at offset n gives to a range.
abbrev pub window : ByteRange → ℕ → List ℕ → List ℕ
window r n xs = slice (r.start - n) (r.end + 1 - n) xs

-- A window of two streams, one behind the other, is the two windows.
pub window-append :
    (r : ByteRange) (n : ℕ) (xs ys : List ℕ)
    → r.start ≤ r.end
    → window r n (xs ++ ys) ≡ window r n xs ++ window r (n + length xs) ys
window-append r n xs ys h =
    let from : ℕ = r.start - n in
    let count : ℕ = (r.end + 1 - n) - from in
    ap (take count) (drop-append from xs ys)
    ∙ take-append count (drop from xs) (drop (from - length xs) ys)
    ∙ ap (λ k. take count (drop from xs) ++ take k (drop (from - length xs) ys)) counts
    ∙ ap
        (λ k.
          take count (drop from xs)
          ++ take ((r.end + 1 - (n + length xs)) - (r.start - (n + length xs))) (drop k ys))
        starts
  where
    starts : (r.start - n) - length xs ≡ r.start - (n + length xs)
    starts = omega arith

    counts :
        ((r.end + 1 - n) - (r.start - n)) - length (drop (r.start - n) xs)
        ≡ (r.end + 1 - (n + length xs)) - (r.start - (n + length xs))
    counts = omega (arith, length-drop (r.start - n) xs)

pub slice-none :
    (from upto : ℕ) (xs : List ℕ) → (length xs ≤ from) ⊎ (upto ≤ from) → slice from upto xs ≡ []
slice-none from upto xs (inl h) = rw (drop_all from xs h) (take_nil (upto - from))
slice-none from upto xs (inr h) = rw (nothing) refl
  where
    nothing : upto - from ≡ 0
    nothing = omega arith

-- Slices that begin alike and end alike, or both behind the last byte.
pub slice-same :
    (from n n' : ℕ) (xs : List ℕ)
    → (n ≡ n') ⊎ (length xs ≤ n × length xs ≤ n')
    → slice from n xs ≡ slice from n' xs
slice-same from n n' xs (inl h) = ap (λ k. slice from k xs) h
slice-same from n n' xs (inr h) =
    take_all (n - from) (drop from xs) (omega (arith, length-drop from xs, h.0))
    ∙ sym (take_all (n' - from) (drop from xs) (omega (arith, length-drop from xs, h.1)))

pub slice_all : (from n : ℕ) (xs : List ℕ) → from ≡ 0 → length xs ≤ n → slice from n xs ≡ xs
slice_all from n xs h k = rw h (take_all (n - 0) xs (omega (arith, k)))
