-- ===== src/Git/CommitMessage/Dirs.antt =====
-- src/git/commit_message.rs: sorting the directories of a message gives one list, whatever the order in which they come.
use mathlib.Core.List.{Permᴰ}
use git_nfs.Prelude.{
  ℕ, ◌<◌, ◌⊎◌, ◌≡◌, ◌≢◌, refl, ap, sym, ◌∙◌, subst, true, false, Bool-cases, inl, inr, List, [],
  ◌∷◌, ltb, arith,
}
use git_nfs.Git.Builder.{Ordering, less, equal, greater, compare}
use git_nfs.Git.Builder.Compare.{compare-total, compare_flip, compare_trans, compare-equal}
use git_nfs.Git.CommitMessage.{goes_first, insert_dir, sort_dirs}

not_greater_trans :
    (s t u : List ℕ) → compare s t ≢ greater → compare t u ≢ greater → compare s u ≢ greater
not_greater_trans s t u h k bad = go (compare s t) refl
  where
    back : compare u s ≡ less
    back = compare-total s u bad

    go : (o : Ordering) → compare s t ≡ o → ⊥
    go less e = k (compare_flip u t (compare_trans u s t back e))
    go equal e = k (subst (λ x. compare x u ≡ greater) (compare-equal s t e) bad)
    go greater e = h e

not_greater_both : (s t : List ℕ) → compare s t ≢ greater → compare t s ≢ greater → s ≡ t
not_greater_both s t h k = go (compare s t) refl
  where
    go : (o : Ordering) → compare s t ≡ o → s ≡ t
    go less e = absurd (k (compare_flip s t e))
    go equal e = compare-equal s t e
    go greater e = absurd (h e)

-- `x` has more files, or as many and no larger name.
abbrev First : List ℕ × ℕ → List ℕ × ℕ → Type 0
First x y = (y.1 < x.1) ⊎ ((x.1 ≡ y.1) × (compare x.0 y.0 ≢ greater))

goes_first-First : (x y : List ℕ × ℕ) → goes_first x y ≡ true → First x y
unfolding goes_first
goes_first-First (a, n) (b, m) h = elim (Bool-cases (ltb m n)) [
  | inl e ↦ inl (ground arith)
  | inr e ↦ elim (Bool-cases (ltb n m)) [
    | inl f ↦ absurd (cc (rw (goes_first, e, f) at h))
    | inr f ↦ inr (ground arith, λ g. cc (rw (goes_first, e, f, g) at h))
  ]
]

First-goes_first : (x y : List ℕ × ℕ) → First x y → goes_first x y ≡ true
unfolding goes_first
First-goes_first (a, n) (b, m) (inl more) =
    let e : ltb m n ≡ true = ground arith in rw (goes_first, e) refl
First-goes_first (a, n) (b, m) (inr (same, h)) = go (compare a b) refl
  where
    e : ltb m n ≡ false
    e = ground arith

    f : ltb n m ≡ false
    f = ground arith

    go : (o : Ordering) → compare a b ≡ o → goes_first (a, n) (b, m) ≡ true
    go less g = rw (goes_first, e, f, g) refl
    go equal g = rw (goes_first, e, f, g) refl
    go greater g = absurd (h g)

First-trans : (x y z : List ℕ × ℕ) → First x y → First y z → First x z
First-trans x y z (inl h) (inl k) = inl (omega arith)
First-trans x y z (inl h) (inr (e, k)) = inl (omega arith)
First-trans x y z (inr (e, h)) (inl k) = inl (omega arith)
First-trans x y z (inr (e, h)) (inr (f, k)) = inr (omega arith, not_greater_trans x.0 y.0 z.0 h k)

First-both : (x y : List ℕ × ℕ) → First x y → First y x → x ≡ y
First-both x y (inl h) (inl k) = absurd (omega arith)
First-both x y (inl h) (inr (e, k)) = absurd (omega arith)
First-both x y (inr (e, h)) (inl k) = absurd (omega arith)
First-both (a, n) (b, m) (inr (e, h)) (inr (f, k)) =
    let same : a ≡ b = not_greater_both a b h k in cc

-- One of the two goes first.
First-total : (x y : List ℕ × ℕ) → goes_first x y ≡ false → First y x
unfolding goes_first
First-total (a, n) (b, m) h = elim (Bool-cases (ltb m n)) [
  | inl e ↦ absurd (cc (rw (goes_first, e) at h))
  | inr e ↦ elim (Bool-cases (ltb n m)) [
    | inl f ↦ inl (ground arith)
    | inr f ↦ inr (ground arith, λ g. cc (rw (goes_first, e, f, compare-total b a g) at h))
  ]
]

insert_dir-here :
    (x y : List ℕ × ℕ) (dirs : List (List ℕ × ℕ))
    → goes_first x y ≡ true
    → insert_dir x (y ∷ dirs) ≡ x ∷ y ∷ dirs
unfolding insert_dir
insert_dir-here x y dirs e = rw (insert_dir, e) refl

insert_dir-behind :
    (x y : List ℕ × ℕ) (dirs : List (List ℕ × ℕ))
    → goes_first x y ≡ false
    → insert_dir x (y ∷ dirs) ≡ y ∷ insert_dir x dirs
unfolding insert_dir
insert_dir-behind x y dirs e = rw (insert_dir, e) refl

-- Two insertions commute, where one element goes first.
insert_dir-insert_dir :
    (x y : List ℕ × ℕ) (dirs : List (List ℕ × ℕ))
    → goes_first y x ≡ false
    → insert_dir x (insert_dir y dirs) ≡ insert_dir y (insert_dir x dirs)
unfolding insert_dir
insert_dir-insert_dir x y [] late =
    insert_dir-here x y [] (First-goes_first x y (First-total y x late))
    ∙ sym (insert_dir-behind y x [] late)
insert_dir-insert_dir x y (z ∷ dirs) late = elim (Bool-cases (goes_first x z)) [
  | inl e ↦
      first_two e (Bool-cases (goes_first y z))
      ∙ sym (insert_dir-behind y x (z ∷ dirs) late)
      ∙ ap (insert_dir y) (sym (insert_dir-here x z dirs e))
  | inr e ↦
      let f : goes_first y z ≡ false = behind_both e (Bool-cases (goes_first y z)) in
      ap (insert_dir x) (insert_dir-behind y z dirs f)
      ∙ insert_dir-behind x z (insert_dir y dirs) e
      ∙ ap (◌∷◌ z) (insert_dir-insert_dir x y dirs late)
      ∙ sym (insert_dir-behind y z (insert_dir x dirs) f)
      ∙ ap (insert_dir y) (sym (insert_dir-behind x z dirs e))
]
  where
    sooner : First x y
    sooner = First-total y x late

    first_two :
        goes_first x z ≡ true
        → (goes_first y z ≡ true) ⊎ (goes_first y z ≡ false)
        → insert_dir x (insert_dir y (z ∷ dirs)) ≡ x ∷ insert_dir y (z ∷ dirs)
    first_two e (inl f) =
        ap (insert_dir x) (insert_dir-here y z dirs f)
        ∙ insert_dir-here x y (z ∷ dirs) (First-goes_first x y sooner)
        ∙ ap (◌∷◌ x) (sym (insert_dir-here y z dirs f))
    first_two e (inr f) =
        ap (insert_dir x) (insert_dir-behind y z dirs f)
        ∙ insert_dir-here x z (insert_dir y dirs) e
        ∙ ap (◌∷◌ x) (sym (insert_dir-behind y z dirs f))

    behind_both :
        goes_first x z ≡ false
        → (goes_first y z ≡ true) ⊎ (goes_first y z ≡ false)
        → goes_first y z ≡ false
    behind_both e (inr f) = f
    behind_both e (inl f) =
        let t : goes_first x z ≡ true =
          First-goes_first x z (First-trans x y z sooner (goes_first-First y z f)) in
        absurd (cc (e, t))

insert_dir_commutes :
    (x y : List ℕ × ℕ) (dirs : List (List ℕ × ℕ))
    → insert_dir x (insert_dir y dirs) ≡ insert_dir y (insert_dir x dirs)
insert_dir_commutes x y dirs = elim (Bool-cases (goes_first y x)) [
  | inr late ↦ insert_dir-insert_dir x y dirs late
  | inl e ↦ elim (Bool-cases (goes_first x y)) [
    | inr late ↦ sym (insert_dir-insert_dir y x dirs late)
    | inl f ↦
        let same : x ≡ y = First-both x y (goes_first-First x y f) (goes_first-First y x e) in
        subst (λ u. insert_dir x (insert_dir u dirs) ≡ insert_dir u (insert_dir x dirs)) same refl
  ]
]

-- Sorting forgets the order.
pub sort_dirs-perm : (xs ys : List (List ℕ × ℕ)) → Permᴰ xs ys → sort_dirs xs ≡ sort_dirs ys
unfolding sort_dirs
sort_dirs-perm _ _ Permᴰ.nil = refl
sort_dirs-perm (x ∷ xs) (y ∷ ys) (Permᴰ.cons same p) =
    ap (λ u. insert_dir u (sort_dirs xs)) same ∙ ap (insert_dir y) (sort_dirs-perm xs ys p)
sort_dirs-perm (a ∷ b ∷ l) (c ∷ d ∷ _) (Permᴰ.swap same same') =
    ap (λ u. insert_dir u (insert_dir b (sort_dirs l))) same
    ∙ ap (λ u. insert_dir d (insert_dir u (sort_dirs l))) same'
    ∙ insert_dir_commutes d c (sort_dirs l)
sort_dirs-perm xs zs (Permᴰ.trans {l₂ = ys} p q) = sort_dirs-perm xs ys p ∙ sort_dirs-perm ys zs q
