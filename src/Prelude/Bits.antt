-- ===== src/Prelude/Bits.antt =====
-- Masks and shifts on machine words as arithmetic. On a byte the law is a table, checked by
-- evaluation; for every width it is by induction on the digits.
use Prim.Native.Nat.{
  ℕ, zero, suc, ◌+◌, ◌*◌, ◌/◌, ◌%◌, ◌^◌, ◌<◌, max, bit_and, bit_or, bit_or-bitwise,
}
use mathlib.Core.Path.{◌≡◌, refl, ap, ◌∙◌}
use native.Mathlib.Nat.{pow-suc}
use mathlib.Core.Bool.{Bool, true, ◌&&◌}
use native.Mathlib.Omega.{arith}
use git_nfs.Prelude.Tests.{◌==◌}
use git_nfs.Prelude.Digits.{digits_step}

module _ (f g : ℕ → ℕ) where
  unfoldable pub same_below : ℕ → Bool
  same_below zero = true
  same_below (suc n) = f n == g n && same_below n

  -- Two functions that agree on a table agree below its end.
  pub eq_of_same_below : (n : ℕ) → same_below n ≡ true → (x : ℕ) → x < n → f x ≡ g x
  unfolding same_below
  eq_of_same_below zero e x h = absurd (omega arith)
  eq_of_same_below (suc n) e x h = ground (arith, eq_of_same_below n (ground arith) x)

pub and_7f : (b : ℕ) → b < 256 → bit_and b 0x7f ≡ b % 128
unfolding same_below
and_7f = eq_of_same_below _ _ 256 refl

pub and_80 : (b : ℕ) → b < 256 → bit_and b 0x80 ≡ b / 128 * 128
unfolding same_below
and_80 = eq_of_same_below _ _ 256 refl

pub or_80 : (b : ℕ) → b < 128 → bit_or b 0x80 ≡ b + 128
unfolding same_below
or_80 = eq_of_same_below _ _ 128 refl

zero-bit_or : (b : ℕ) → bit_or 0 b ≡ b
zero-bit_or = bit_or-bitwise 0

or_step : (a b : ℕ) → bit_or a b ≡ bit_or (a / 2) (b / 2) * 2 + max (a % 2) (b % 2)
or_step zero b = omega (arith, zero-bit_or b, zero-bit_or (b / 2))
or_step (suc a) b = omega (
  arith,
  bit_or-bitwise (suc a) b,
  digits_step (λ b. b) max a b,
  bit_or-bitwise (suc a / 2) (b / 2),
)

pow_suc : (s : ℕ) → 2 ^ suc s ≡ 2 * 2 ^ s
pow_suc s = pow-suc 2 s ∙ omega arith

-- `low | (high << s)` adds, when `low` fits in `s` bits.
pub or_shifted : (s low high : ℕ) → low < 2 ^ s → bit_or low (high * 2 ^ s) ≡ low + high * 2 ^ s
or_shifted zero low high h = omega (
  arith,
  ap (λ (t : ℕ). bit_or t (high * 1)) (let e : low ≡ 0 = omega arith in e),
  zero-bit_or (high * 1),
)
or_shifted (suc s) low high h = omega (
  arith,
  or_step low (high * 2 ^ suc s),
  ap (λ (t : ℕ). high * t) (pow_suc s),
  ap (λ (t : ℕ). bit_or (low / 2) t)
      (let e : high * 2 ^ suc s / 2 ≡ high * 2 ^ s =
          omega (arith, ap (λ (t : ℕ). high * t) (pow_suc s)) in
        e),
  or_shifted s (low / 2) high (omega (arith, pow_suc s)),
)
