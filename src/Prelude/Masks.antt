-- ===== src/Prelude/Masks.antt =====
-- Masks on numbers of every width, by the law of the lowest digit.
use Prim.Native.Nat.{ℕ, zero, suc, ◌+◌, ◌*◌, ◌/◌, ◌%◌, ◌^◌, ◌≤◌, ◌<◌, min, bit_and, bit_and-bitwise}
use mathlib.Core.Path.{◌≡◌, ap}
use native.Mathlib.Nat.{pow-suc}
use native.Mathlib.Omega.{arith}
use mathlib.Core.Logic.{inl, inr}
use git_nfs.Prelude.Tests.{ltb, Bool-cases}
use git_nfs.Prelude.Digits.{digits_step}

-- The mask of nothing.
and-nothing : (b : ℕ) → bit_and 0 b ≡ 0
and-nothing = bit_and-bitwise 0

and_step : (a b : ℕ) → bit_and a b ≡ bit_and (a / 2) (b / 2) * 2 + min (a % 2) (b % 2)
and_step zero b = omega (arith, and-nothing b, and-nothing (b / 2))
and_step (suc a) b = omega (
  arith,
  bit_and-bitwise (suc a) b,
  digits_step (λ _. 0) min a b,
  bit_and-bitwise (suc a / 2) (b / 2),
)

and_nothing : (most a : ℕ) → a ≤ most → bit_and a 0 ≡ 0
and_nothing zero a h = let e : a ≡ 0 = omega arith in ap (λ (t : ℕ). bit_and t 0) e
and_nothing (suc most) a h = elim (Bool-cases (ltb 0 a)) [
  | inl positive ↦ ground (arith, and_step a 0, and_nothing most (a / 2) (ground arith))
  | inr empty ↦ let e : a ≡ 0 = ground arith in ap (λ (t : ℕ). bit_and t 0) e
]

pub and_15 : (a : ℕ) → bit_and a 15 ≡ a % 16
and_15 a = omega (
  arith,
  and_step a 15,
  and_step (a / 2) 7,
  and_step (a / 2 / 2) 3,
  and_step (a / 2 / 2 / 2) 1,
  and_nothing (a / 2 / 2 / 2 / 2) (a / 2 / 2 / 2 / 2) (omega arith),
)

pub and_127 : (a : ℕ) → bit_and a 127 ≡ a % 128
and_127 a = omega (
  arith,
  and_step a 127,
  and_step (a / 2) 63,
  and_step (a / 2 / 2) 31,
  and_step (a / 2 / 2 / 2) 15,
  and_15 (a / 2 / 2 / 2),
)

-- A number below the bit does not have it.
pub and_high : (s a : ℕ) → a < 2 ^ s → bit_and a (2 ^ s) ≡ 0
and_high zero a h = ap (λ (t : ℕ). bit_and t 1) (let e : a ≡ 0 = omega arith in e)
and_high (suc s) a h = omega (
  arith,
  and_step a (2 ^ suc s),
  pow-suc 2 s,
  ap (λ (t : ℕ). bit_and (a / 2) t)
      (let e : 2 ^ suc s / 2 ≡ 2 ^ s = omega (arith, pow-suc 2 s) in e),
  and_high s (a / 2) (omega (arith, pow-suc 2 s)),
)
