-- ===== src/Chunker/Options.antt =====
-- `Options`, `New`, `nextPowerOfTwo` and `buildGearTable` of internal/chunker/chunker.go.
use Prim.Native.Nat.{bit_xor}
use native.Mathlib.Nat.{two-pow-succ}
use native.Mathlib.Decide.{dec_lt}
use chunk_gate.Prelude.{
  ℕ, zero, suc, ◌+◌, ◌-◌, ◌*◌, ◌/◌, ◌%◌, ◌^◌, ◌≤◌, ◌<◌, ◌≡◌, refl, inl, inr, Option, none, some,
  List, [], ◌∷◌, arith, ltb, leb, if◌then◌else◌, Bool-cases, ap, ◌∙◌,
}
use chunk_gate.Prelude.Int.{ℤ, pos, negsuc, pos_part, ◌+ℤ◌, ◌-ℤ◌, ltb_ℤ, wrap64}

pub data Engine : Type 0 where
  fastcdc builtin : Engine

-- `Engine` is a text in the source: empty, one of the two names, or anything else.
pub data EngineName : Type 0 where
  unset : EngineName
  named : Engine → EngineName
  unknown : EngineName

pub record Options : Type 0 where
  pub min_size : ℤ
  pub avg_size : ℤ
  pub max_size : ℤ
  pub small_file_threshold : ℤ
  pub engine : EngineName

abbrev pub default_min_size : ℕ
default_min_size = 524288

abbrev pub default_avg_size : ℕ
default_avg_size = 1048576

abbrev pub default_max_size : ℕ
default_max_size = 4194304

abbrev pub default_small_file_threshold : ℕ
default_small_file_threshold = 5242880

-- After `New` the sizes are never negative, so they are natural numbers here.
pub record Splitter : Type 0 where
  pub min_size : ℕ
  pub avg_size : ℕ
  pub max_size : ℕ
  pub small_file_threshold : ℕ
  pub engine : Engine
  pub mask : ℕ

-- `if size <= 0 { size = default }`
positive_or : ℤ → ℕ → ℕ
positive_or (pos zero) d = d
positive_or (pos (suc n)) d = suc n
positive_or (negsuc n) d = d

nonneg_or : ℤ → ℕ → ℕ
nonneg_or (pos n) d = n
nonneg_or (negsuc n) d = d

known_engine : EngineName → Engine
known_engine unset = fastcdc
known_engine (named e) = e
known_engine unknown = fastcdc

-- `for p < n { p <<= 1 }` on an `int`; none means that the fuel ran out.
unfoldable pub double_up : ℕ → ℕ → ℤ → Option ℤ
double_up zero n p = none
double_up (suc fuel) n p =
    let rest = double_up fuel n (wrap64 (p +ℤ p)) in if ltb_ℤ p (pos n) then rest else some p

-- 64 rounds are enough up to 2 ^ 62 (`next_power_of_two_lem`); above, the loop of the source does
-- not end, since p turns negative and then stays 0.
unfoldable pub next_power_of_two : ℕ → Option ℤ
next_power_of_two n = if leb n 1 then some (pos 1) else double_up 64 n (pos 1)

-- `AvgSize` as `New` leaves it.
unfoldable pub used_avg_size : Options → ℕ
unfolding positive_or
used_avg_size o =
    let min_size = positive_or o.min_size default_min_size in
    let avg = positive_or o.avg_size default_avg_size in if ltb avg min_size then min_size else avg

splitter_of : Options → ℤ → Splitter
unfolding positive_or nonneg_or known_engine used_avg_size
splitter_of o p =
    let max = positive_or o.max_size default_max_size in
    let avg_size = used_avg_size o in
    record {
      min_size = positive_or o.min_size default_min_size;
      avg_size = avg_size;
      max_size = if ltb max avg_size then avg_size else max;
      small_file_threshold = nonneg_or o.small_file_threshold default_small_file_threshold;
      engine = known_engine o.engine;
      mask = pos_part (p -ℤ pos 1);
    }

-- none when the loop of `nextPowerOfTwo` does not end.
splitter_if : Options → Option ℤ → Option Splitter
splitter_if o none = none
splitter_if o (some p) = some (splitter_of o p)

unfoldable pub new_splitter : Options → Option Splitter
unfolding splitter_if splitter_of
new_splitter o = splitter_if o (next_power_of_two (used_avg_size o))

-- A splitter can cut: 1 ≤ min ≤ avg ≤ max.
pub record IsValid (s : Splitter) : Type 0 where
  pub min_positive : 1 ≤ s.min_size
  pub min_le_avg : s.min_size ≤ s.avg_size
  pub avg_le_max : s.avg_size ≤ s.max_size

-- One doubling below 2 ^ 62 does not overflow.
double_below : (n p : ℕ) → p < n → n ≤ 4611686018427387904 → wrap64 (pos p +ℤ pos p) ≡ pos (p + p)
double_below n p h b = ground arith

pow_step : (p k : ℕ) → p ≡ 2 ^ k → p + p ≡ 2 ^ suc k
pow_step p k e = rw (two-pow-succ k, e)

double_up-step :
    (fuel n p : ℕ)
    → p < n
    → n ≤ 4611686018427387904
    → double_up (suc fuel) n (pos p) ≡ double_up fuel n (pos (p + p))
unfolding double_up
double_up-step fuel n p h b = ground (arith, ap (double_up fuel n) (double_below n p h b))

double_up_lem :
    (fuel n p k : ℕ)
    → p ≡ 2 ^ k
    → p < n + n
    → n ≤ 4611686018427387904
    → n ≤ p * 2 ^ fuel
    → (j : ℕ) × (double_up (suc fuel) n (pos p) ≡ some (pos (2 ^ j)))
      × (n ≤ 2 ^ j)
      × (2 ^ j < n + n)
unfolding double_up
double_up_lem zero n p k e h b f = (k, ground arith, omega arith, omega arith)
double_up_lem (suc fuel) n p k e h b f = elim (dec_lt p n) [
  | yes less ↦
      let (j, r, lo, hi) =
        double_up_lem fuel n (p + p) (suc k) (pow_step p k e) (omega arith) b
          (omega (arith, ap (λ t. p * t) (two-pow-succ fuel))) in
      (j, double_up-step (suc fuel) n p less b ∙ r, lo, hi)
  | no enough ↦ (k, ground arith, omega arith, omega arith)
]

-- For sizes up to 2 ^ 62 the loop ends within its fuel, at the least power of two that is not below
-- the size.
pub next_power_of_two_lem :
    (n : ℕ)
    → 0 < n
    → n ≤ 4611686018427387904
    → (j : ℕ) × (next_power_of_two n ≡ some (pos (2 ^ j))) × (n ≤ 2 ^ j) × (2 ^ j < n + n)
unfolding next_power_of_two
next_power_of_two_lem n h b = elim (Bool-cases (leb n 1)) [
  | inl one ↦ (0, rw one refl, ground arith, ground arith)
  | inr more ↦
      let (j, r, lo, hi) = double_up_lem 63 n 1 0 refl (ground arith) b (omega arith) in
      (j, rw more r, lo, hi)
]

used_avg_size-positive : (o : Options) → 0 < used_avg_size o
unfolding used_avg_size positive_or
used_avg_size-positive o = ground arith

new_splitter-at :
    (o : Options) (p : ℤ)
    → next_power_of_two (used_avg_size o) ≡ some p
    → new_splitter o ≡ some (splitter_of o p)
unfolding new_splitter splitter_if
new_splitter-at o p e = ap (splitter_if o) e

splitter_of-IsValid : (o : Options) (p : ℤ) → IsValid (splitter_of o p)
unfolding splitter_of used_avg_size positive_or
splitter_of-IsValid o p = ground arith

mask-of_power : (o : Options) (p : ℕ) → 0 < p → (splitter_of o (pos p)).mask ≡ p - 1
unfolding splitter_of
mask-of_power o p h = ground arith

-- If the average size it uses (the default for one that is not positive, the minimum for a smaller one)
-- is at most 2 ^ 62, `New` returns a splitter with 1 ≤ min ≤ avg ≤ max, whose mask has the low j bits for
-- the least j with avg ≤ 2 ^ j, so 2 ^ j < 2 · avg.
pub new_splitter-IsValid :
    (o : Options)
    → used_avg_size o ≤ 4611686018427387904
    → (s : Splitter) × (new_splitter o ≡ some s)
      × IsValid s
      × ((j : ℕ) × (s.mask ≡ 2 ^ j - 1) × (s.avg_size ≤ 2 ^ j) × (2 ^ j < s.avg_size + s.avg_size))
unfolding splitter_of
new_splitter-IsValid o h =
    let (j, r, lo, hi) = next_power_of_two_lem (used_avg_size o) (used_avg_size-positive o) h in
    (
      splitter_of o (pos (2 ^ j)),
      new_splitter-at o _ r,
      splitter_of-IsValid o (pos (2 ^ j)),
      (j, mask-of_power o (2 ^ j) (omega (arith, lo, used_avg_size-positive o)), lo, hi),
    )

-- One round of the generator (splitmix64) on `uint64`.
abbrev pub u64 : ℕ
u64 = 18446744073709551616

mix : ℕ → ℕ
mix seed =
    let a = (bit_xor seed (seed / 2 ^ 30) * 0xbf58476d1ce4e5b9) % u64 in
    let b = (bit_xor a (a / 2 ^ 27) * 0x94d049bb133111eb) % u64 in bit_xor b (b / 2 ^ 31)

gear_from : ℕ → ℕ → List ℕ
gear_from zero seed = []
gear_from (suc n) seed =
    let seed' = (seed + 0x9e3779b97f4a7c15) % u64 in mix seed' ∷ gear_from n seed'

unfoldable pub build_gear_table : List ℕ
unfolding gear_from mix
build_gear_table = gear_from 256 0x9e3779b97f4a7c15

entry : List ℕ → ℕ → ℕ
entry [] i = 0
entry (x ∷ xs) zero = x
entry (x ∷ xs) (suc i) = entry xs i

-- `gearTable[b]` for a byte b.
unfoldable pub gear : ℕ → ℕ
unfolding entry
gear b = entry build_gear_table b
