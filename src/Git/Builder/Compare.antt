-- ===== src/Git/Builder/Compare.antt =====
-- The order of byte strings, as `sort` and `cmp` of the standard library use it.
use git_nfs.Prelude.{ℕ, ◌≡◌, refl, List, [], ◌∷◌, arith}
use git_nfs.Git.Builder.{less, equal, greater, compare}

pub compare-total : (s t : List ℕ) → compare s t ≡ greater → compare t s ≡ less
unfolding compare
compare-total [] [] h = cc h
compare-total [] (b ∷ t) h = cc h
compare-total (a ∷ s) [] h = refl
compare-total (a ∷ s) (b ∷ t) h = ground (arith, compare-total s t)

pub compare_flip : (s t : List ℕ) → compare s t ≡ less → compare t s ≡ greater
unfolding compare
compare_flip [] [] h = cc h
compare_flip [] (b ∷ t) h = refl
compare_flip (a ∷ s) [] h = cc h
compare_flip (a ∷ s) (b ∷ t) h = ground (arith, compare_flip s t)

pub compare_trans : (s t u : List ℕ) → compare s t ≡ less → compare t u ≡ less → compare s u ≡ less
unfolding compare
compare_trans [] [] u h k = k
compare_trans [] (b ∷ t) [] h k = cc k
compare_trans [] (b ∷ t) (c ∷ u) h k = refl
compare_trans (a ∷ s) [] u h k = cc h
compare_trans (a ∷ s) (b ∷ t) [] h k = cc k
compare_trans (a ∷ s) (b ∷ t) (c ∷ u) h k = ground (arith, compare_trans s t u)

pub compare_self : (s : List ℕ) → compare s s ≡ equal
unfolding compare
compare_self [] = refl
compare_self (a ∷ s) = ground (arith, compare_self s)

pub compare-equal : (s t : List ℕ) → compare s t ≡ equal → s ≡ t
unfolding compare
compare-equal [] [] h = refl
compare-equal [] (b ∷ t) h = cc h
compare-equal (a ∷ s) [] h = cc h
compare-equal (a ∷ s) (b ∷ t) h = ground (arith, compare-equal s t)
