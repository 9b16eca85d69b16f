-- ===== src/Text/Split.antt =====
-- `split` and `join` on one separator byte, and the way back.
use git_nfs.Prelude.{ℕ, ◌≡◌, refl, ap, ◌∙◌, ◌≢◌, List, [], ◌∷◌, ◌++◌}
use git_nfs.Prelude.{◌==◌, if◌then◌else◌, arith, All}

-- The first piece in front of a list of pieces.
abbrev pub grow : ℕ → List (List ℕ) → List (List ℕ)
grow x [] = (x ∷ []) ∷ []
grow x (p ∷ ps) = (x ∷ p) ∷ ps

-- `s.split(c)`: always one piece at least.
unfoldable pub split : ℕ → List ℕ → List (List ℕ)
split c [] = [] ∷ []
split c (x ∷ s) = let rest = split c s in if x == c then [] ∷ rest else grow x rest

-- `pieces.join(c)`
unfoldable pub join : ℕ → List (List ℕ) → List ℕ
join c [] = []
join c (p ∷ []) = p
join c (p ∷ q ∷ ps) = p ++ (c ∷ join c (q ∷ ps))

abbrev pub Lacks : ℕ → List ℕ → Type 0
Lacks c p = All (λ x. x ≢ c) p

split-append : (c : ℕ) (p rest : List ℕ) → Lacks c p → split c (p ++ (c ∷ rest)) ≡ p ∷ split c rest
unfolding split
split-append c [] rest h = ground arith
split-append c (x ∷ p) rest h = ground (arith, split-append c p rest h.1)

split-Lacks : (c : ℕ) (p : List ℕ) → Lacks c p → split c p ≡ p ∷ []
unfolding split
split-Lacks c [] h = refl
split-Lacks c (x ∷ p) h = ground (arith, split-Lacks c p h.1)

-- Pieces without the separator come back from the joined text.
pub split-join :
    (c : ℕ) (p : List ℕ) (ps : List (List ℕ))
    → All (Lacks c) (p ∷ ps)
    → split c (join c (p ∷ ps)) ≡ p ∷ ps
unfolding join
split-join c p [] h = split-Lacks c p h.0
split-join c p (q ∷ ps) h =
    split-append c p (join c (q ∷ ps)) h.0 ∙ ap (◌∷◌ p) (split-join c q ps h.1)
