-- ===== src/Prelude/Digits.antt =====
-- The operations on binary digits, by the law of the lowest digit, whatever the operation on two digits is.
use Prim.Native.Nat.{ℕ, zero, suc, ◌+◌, ◌*◌, ◌/◌, ◌%◌, ◌≤◌, digits}
use mathlib.Core.Path.{◌≡◌, refl, ap, ◌∙◌}
use native.Mathlib.Omega.{arith}
use mathlib.Core.Logic.{inl, inr}
use git_nfs.Prelude.Tests.{ltb, Bool-cases}

module _ (rest : ℕ → ℕ) (digit : ℕ → ℕ → ℕ) where
  -- Another step changes nothing once there is one for each unit of the first number.
  digits-suc : (n a b : ℕ) → a ≤ n → digits rest digit (suc n) a b ≡ digits rest digit n a b
  digits-suc zero zero b h = refl
  digits-suc zero (suc a) b h = absurd (omega arith)
  digits-suc (suc n) zero b h = refl
  digits-suc (suc n) (suc a) b h =
      ap (λ (t : ℕ). t * 2 + digit (suc a % 2) (b % 2))
        (digits-suc n (suc a / 2) (b / 2) (omega arith))

  digits_more : (n m a b : ℕ) → a ≤ n → n ≤ m → digits rest digit m a b ≡ digits rest digit n a b
  digits_more n zero a b h le =
      let e : 0 ≡ n = omega arith in ap (λ (t : ℕ). digits rest digit t a b) e
  digits_more n (suc m) a b h le = elim (Bool-cases (ltb n (suc m))) [
    | inl below ↦ digits-suc m a b (ground arith) ∙ digits_more n m a b h (ground arith)
    | inr same ↦ let e : suc m ≡ n = ground arith in ap (λ (t : ℕ). digits rest digit t a b) e
  ]

  -- The lowest digit, and the digits above it.
  pub digits_step :
      (a b : ℕ)
      → digits rest digit (suc a) (suc a) b
        ≡ digits rest digit (suc a / 2) (suc a / 2) (b / 2) * 2 + digit (suc a % 2) (b % 2)
  digits_step a b =
      ap (λ (t : ℕ). t * 2 + digit (suc a % 2) (b % 2))
        (digits_more (suc a / 2) a (suc a / 2) (b / 2) (omega arith) (omega arith))
