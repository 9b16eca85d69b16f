-- ===== src/Text/Trim.antt =====
-- Trimming a line of plain characters takes its line break and nothing else.
use git_nfs.Prelude.{
  ℕ, ◌<◌, ◌≡◌, ◌≢◌, subst, refl, ap, ◌∙◌, sym, List, [], ◌∷◌, ◌++◌, All, All-append, arith,
}
use mathlib.Core.List.{reverse, reverse-append, reverse-reverse}
use git_nfs.Text.{trim, trim_start, trim_back}

-- An ASCII character that is no space.
abbrev pub IsPlain : ℕ → Type 0
IsPlain b = (32 < b) × (b < 127)

trim_start-head : (a : ℕ) (s : List ℕ) → IsPlain a → trim_start (a ∷ s) ≡ a ∷ s
unfolding trim_start
trim_start-head a [] h = ground arith
trim_start-head a (b ∷ []) h = ground arith
trim_start-head a (b ∷ c ∷ s) h = ground arith

trim_back-head : (a : ℕ) (s : List ℕ) → IsPlain a → trim_back (a ∷ s) ≡ a ∷ s
unfolding trim_back
trim_back-head a [] h = ground arith
trim_back-head a (b ∷ []) h = ground arith
trim_back-head a (b ∷ c ∷ s) h = ground arith

trim_back-break : (s : List ℕ) → trim_back (b'\n' ∷ s) ≡ trim_back s
unfolding trim_back
trim_back-break [] = refl
trim_back-break (a ∷ []) = refl
trim_back-break (a ∷ b ∷ s) = refl

pub All-reverse : (P : ℕ → Type 0) (s : List ℕ) → All P s → All P (reverse s)
All-reverse P [] h = tt
All-reverse P (x ∷ s) (h, hs) =
    subst (All P) (sym (reverse-append (x ∷ []) s))
      (All-append P (reverse s) (x ∷ []) (All-reverse P s hs) (h, tt))

trim_back-plain : (s rest : List ℕ) → All IsPlain s → s ≢ [] → trim_back (s ++ rest) ≡ s ++ rest
trim_back-plain [] rest h n = absurd (n refl)
trim_back-plain (a ∷ s) rest (h, hs) n = trim_back-head a (s ++ rest) h

reverse_nonempty : (s : List ℕ) → s ≢ [] → reverse s ≢ []
reverse_nonempty s n e = n (sym (reverse-reverse s) ∙ ap reverse e)

module _ (p q t : List ℕ) (x : ℕ) (front : p ++ q ≡ x ∷ t) (h : IsPlain x) (hs : All IsPlain q)
    (n : q ≢ []) where
  trim_back-reverse : trim_back (reverse (p ++ q)) ≡ reverse (p ++ q)
  trim_back-reverse =
      ap trim_back (reverse-append p q)
      ∙ trim_back-plain (reverse q) (reverse p) (All-reverse IsPlain q hs) (reverse_nonempty q n)
      ∙ sym (reverse-append p q)

  -- A text that starts with a plain character and ends with plain ones has nothing to trim.
  pub trim-plain : trim (p ++ q) ≡ p ++ q
  unfolding trim
  trim-plain =
      ap (λ s. reverse (trim_back (reverse s)))
        (ap trim_start front ∙ trim_start-head x t h ∙ sym front)
      ∙ ap reverse trim_back-reverse
      ∙ reverse-reverse (p ++ q)

  -- A line break behind it is taken away.
  pub trim-line : trim ((p ++ q) ++ b'\n' ∷ []) ≡ p ++ q
  unfolding trim
  trim-line =
      let start = ap (λ s. s ++ b'\n' ∷ []) front in
      ap (λ s. reverse (trim_back (reverse s)))
        (ap trim_start start ∙ trim_start-head x (t ++ b'\n' ∷ []) h ∙ sym start)
      ∙ ap (λ s. reverse (trim_back s)) (reverse-append (p ++ q) (b'\n' ∷ []))
      ∙ ap reverse (trim_back-break (reverse (p ++ q)) ∙ trim_back-reverse)
      ∙ reverse-reverse (p ++ q)
