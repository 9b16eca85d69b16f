-- ===== src/Text/Radix/Digits.antt =====
-- The digits of a number read back as the number.
use git_nfs.Prelude.{
  ℕ, zero, suc, ◌+◌, ◌*◌, ◌/◌, ◌%◌, ◌^◌, ◌≤◌, ◌<◌, ◌≡◌, ◌≢◌, refl, ap, sym, ◌∙◌, false, Bool-cases,
  inl, inr, Option, Option-cases, none, some, List, [], ◌∷◌, ◌++◌, length, length-append, replicate,
  ltb, tests, subst, ltb→lt, lt→ltb, arith, All, All-append, if◌then◌else◌, ◌==◌,
}
use git_nfs.Text.Radix.{to_digit, from_digits, from_digits1, from_str_radix, digit_char, digits_of}
use native.Mathlib.Nat.{div-add-mod', mod-lt, div-lt_iff_lt-mul, div-le_self, pow-suc, pow-zero}

-- A character of a number in base 16 or less.
pub record IsDigit (c : ℕ) : Type 0 where
  pub ascii : c < 128
  pub printed : c ≢ b'+'

pub to_digit-digit_char :
    (base d : ℕ) → base ≤ 36 → d < base → to_digit base (digit_char d) ≡ some d
unfolding to_digit digit_char
to_digit-digit_char base d h k = ground arith

pub digit_char-IsDigit : (d : ℕ) → d < 36 → IsDigit (digit_char d)
unfolding digit_char
digit_char-IsDigit d h = record { ascii = ground arith; printed = ground arith }

-- One more digit.
abbrev step : ℕ → ℕ → ℕ → Option ℕ → Option ℕ
step base bound d none = none
step base bound d (some v) = if ltb (v * base + d) bound then some (v * base + d) else none

from_digits-append :
    (base bound acc d : ℕ) (s : List ℕ)
    → base ≤ 36
    → d < base
    → from_digits base bound acc (s ++ (digit_char d ∷ []))
      ≡ step base bound d (from_digits base bound acc s)
unfolding from_digits
from_digits-append base bound acc d [] h k =
    rw (from_digits, to_digit-digit_char base d h k)
      (elim (Bool-cases (ltb (acc * base + d) bound)) [ inl e ↦ rw e refl | inr e ↦ rw e refl ])
from_digits-append base bound acc d (c ∷ s) h k = elim (Option-cases (to_digit base c)) [
  | inl e ↦ rw (from_digits, e) refl
  | inr (v, e) ↦ elim (Bool-cases (ltb (acc * base + v) bound)) [
    | inl f ↦ rw (from_digits, e, f) (from_digits-append base bound (acc * base + v) d s h k)
    | inr f ↦ rw (from_digits, e, f) refl
  ]
]

pow-one : (n : ℕ) → n ^ 1 ≡ n
pow-one n = rw (pow-suc n 0, pow-zero n) (omega arith)

div-small : (base k n : ℕ) → 0 < base → n < base ^ suc (suc k) → n / base < base ^ suc k
div-small base k n pos l = (div-lt_iff_lt-mul pos).1 (rw (sym (pow-suc base (suc k))) l)

from_digits-digit :
    (base bound n : ℕ)
    → base ≤ 36
    → n < bound
    → n < base
    → from_digits base bound 0 (digit_char n ∷ []) ≡ some n
unfolding from_digits
from_digits-digit base bound n h b l =
    let e : 0 * base + n ≡ n = omega arith in
    rw (from_digits, to_digit-digit_char base n h l, e, lt→ltb n bound b) (ap some e)

-- Digits printed read back.
pub from_digits-digits_of :
    (k base bound n : ℕ)
    → 1 < base
    → base ≤ 36
    → n < bound
    → n < base ^ suc k
    → from_digits base bound 0 (digits_of k base n) ≡ some n
unfolding digits_of
from_digits-digits_of zero base bound n p h b l =
    from_digits-digit base bound n h b (subst (λ m. n < m) (pow-one base) l)
from_digits-digits_of (suc k) base bound n p h b l = elim (Bool-cases (ltb n base)) [
  | inl e ↦ rw (digits_of, e) (from_digits-digit base bound n h b (ltb→lt n base e))
  | inr e ↦
      let pos : 0 < base = omega arith in
      let m : n / base * base + n % base ≡ n = div-add-mod' n base in
      let r : n % base < base = mod-lt n pos in
      let le : n / base ≤ n = div-le_self n base in
      rw (digits_of, e)
        (from_digits-append base bound 0 (n % base) (digits_of k base (n / base)) h r
          ∙ ap (step base bound (n % base)) (
              from_digits-digits_of k base bound (n / base) p h (omega (arith, le))
                (div-small base k n pos l))
          ∙ rw (m, lt→ltb n bound b) refl)
]

-- How many digits there are, and what they are.
pub length-digits_of :
    (k base n j : ℕ) → 1 < base → n < base ^ suc j → length (digits_of k base n) ≤ suc j
unfolding digits_of
length-digits_of zero base n j p l = omega arith
length-digits_of (suc k) base n j p l = elim (Bool-cases (ltb n base)) [
  | inl e ↦ rw (digits_of, e) (omega arith)
  | inr e ↦
      rw (digits_of, e)
        (rw (length-append (digits_of k base (n / base)) (digit_char (n % base) ∷ []))
          (more (λ i. length-digits_of k base (n / base) i p) j l e))
]
  where
    more :
        ((i : ℕ) → n / base < base ^ suc i → length (digits_of k base (n / base)) ≤ suc i)
        → (j : ℕ) → n < base ^ suc j
        → ltb n base ≡ false
        → length (digits_of k base (n / base)) + 1 ≤ suc j
    more rec zero l e = absurd (cc (e, lt→ltb n base (subst (λ m. n < m) (pow-one base) l)))
    more rec (suc j) l e = omega (arith, rec j (div-small base j n (omega arith) l))

pub digits_of-IsDigit :
    (k base n : ℕ) → 1 < base → base ≤ 36 → n < base ^ suc k → All IsDigit (digits_of k base n)
unfolding digits_of
digits_of-IsDigit zero base n p h l =
    let e : n < base = subst (λ m. n < m) (pow-one base) l in
    (digit_char-IsDigit n (omega arith), tt)
digits_of-IsDigit (suc k) base n p h l = elim (Bool-cases (ltb n base)) [
  | inl e ↦ rw (digits_of, e) (digit_char-IsDigit n (omega (tests, e, h)), tt)
  | inr e ↦
      let pos : 0 < base = omega arith in
      let r : n % base < base = mod-lt n pos in
      rw (digits_of, e)
        (All-append IsDigit (digits_of k base (n / base)) _
          (digits_of-IsDigit k base (n / base) p h (div-small base k n pos l))
          (digit_char-IsDigit (n % base) (omega arith), tt))
]

-- Behind leading zeros too.
from_digits-zeros :
    (m base bound : ℕ) (s : List ℕ)
    → 0 < base
    → 0 < bound
    → from_digits base bound 0 (replicate m b'0' ++ s) ≡ from_digits base bound 0 s
unfolding from_digits to_digit
from_digits-zeros zero base bound s p b = refl
from_digits-zeros (suc m) base bound s p b =
    let e : 0 * base + 0 ≡ 0 = omega arith in
    rw (from_digits, to_digit, lt→ltb 0 base p, lt→ltb (0 * base + 0) bound (omega arith))
      (ap (λ a. from_digits base bound a (replicate m b'0' ++ s)) e
        ∙ from_digits-zeros m base bound s p b)

replicate-IsDigit : (m : ℕ) → All IsDigit (replicate m b'0')
replicate-IsDigit zero = tt
replicate-IsDigit (suc m) =
    (record { ascii = omega arith; printed = ground arith }, replicate-IsDigit m)

pub padded-IsDigit :
    (m k base n : ℕ)
    → 1 < base
    → base ≤ 36
    → n < base ^ suc k
    → All IsDigit (replicate m b'0' ++ digits_of k base n)
padded-IsDigit m k base n p h l =
    All-append IsDigit (replicate m b'0') _ (replicate-IsDigit m) (digits_of-IsDigit k base n p h l)

pub length-digits_of_pos : (k base n : ℕ) → 0 < length (digits_of k base n)
unfolding digits_of
length-digits_of_pos zero base n = omega arith
length-digits_of_pos (suc k) base n = elim (Bool-cases (ltb n base)) [
  | inl e ↦ rw (digits_of, e) (omega arith)
  | inr e ↦
      rw (digits_of, e)
        (omega (arith, length-append (digits_of k base (n / base)) (digit_char (n % base) ∷ [])))
]

from_str_radix-digits :
    (base bound : ℕ) (s : List ℕ)
    → 0 < length s
    → All IsDigit s
    → from_str_radix base bound s ≡ from_digits base bound 0 s
unfolding from_str_radix from_digits1 from_digits to_digit
from_str_radix-digits base bound [] l h = absurd (omega arith)
from_str_radix-digits base bound (c ∷ s) l h =
    let e : (c == b'+') ≡ false = ground (arith, h.0.printed) in rw e refl

-- A number that was printed with leading zeros is read back.
pub from_str_radix-padded :
    (m k base bound n : ℕ)
    → 1 < base
    → base ≤ 36
    → n < bound
    → n < base ^ suc k
    → from_str_radix base bound (replicate m b'0' ++ digits_of k base n) ≡ some n
from_str_radix-padded m k base bound n p h b l =
    from_str_radix-digits base bound _
      (omega (
        arith,
        length-append (replicate m b'0') (digits_of k base n),
        length-digits_of_pos k base n,
      ))
      (padded-IsDigit m k base n p h l)
    ∙ from_digits-zeros m base bound (digits_of k base n) (omega arith) (omega arith)
    ∙ from_digits-digits_of k base bound n p h b l
