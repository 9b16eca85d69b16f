-- ===== src/Git/CommitMessage/Paths.antt =====
-- The paths that a message names.
use git_nfs.Prelude.{
  ℕ, ◌≡◌, ◌≢◌, refl, ap, false, Bool-cases, inl, inr, ◌⊎◌, subst, sym, ◌∙◌, ◌↔◌, map, List, [], ◌∷◌,
}
use git_nfs.Text.{split}
use git_nfs.Git.Builder.{Ordering, less, equal, greater, compare}
use git_nfs.Git.Builder.Compare.{compare-total, compare-equal}
use git_nfs.Git.CommitMessage.{insert_path, any_metadata, clean, add_clean, valid_paths}

-- Every path stands before the next one in the order of bytes; in particular no path stands twice.
abbrev pub Ascending : List (List ℕ) → Type 0
Ascending [] = Unit
Ascending (p ∷ []) = Unit
Ascending (p ∷ q ∷ paths) = (compare p q ≡ less) × Ascending (q ∷ paths)

-- A path that a message may name.
pub record IsNamed (p : List ℕ) : Type 0 where
  pub nonempty : p ≢ []
  pub no_metadata : any_metadata (split b'/' p) ≡ false

behind-Ascending :
    (p q : List ℕ) (paths : List (List ℕ))
    → compare q p ≡ less
    → Ascending (q ∷ paths)
    → Ascending (insert_path p paths)
    → Ascending (q ∷ insert_path p paths)
unfolding insert_path
behind-Ascending p q [] l a b = (l, tt)
behind-Ascending p q (r ∷ paths) l a b = go (compare p r) b
  where
    go :
        (o : Ordering)
        → Ascending (elim o [
          | less ↦ p ∷ r ∷ paths
          | equal ↦ r ∷ paths
          | greater ↦ r ∷ insert_path p paths
        ])
        → Ascending (
            q ∷ elim o [
              | less ↦ p ∷ r ∷ paths
              | equal ↦ r ∷ paths
              | greater ↦ r ∷ insert_path p paths
            ])
    go less b = (l, b)
    go equal b = a
    go greater b = (a.0, b)

pub tail-Ascending : (q : List ℕ) (paths : List (List ℕ)) → Ascending (q ∷ paths) → Ascending paths
tail-Ascending q [] a = tt
tail-Ascending q (r ∷ paths) a = a.1

insert_path-Ascending :
    (p : List ℕ) (paths : List (List ℕ)) → Ascending paths → Ascending (insert_path p paths)
unfolding insert_path
insert_path-Ascending p [] a = tt
insert_path-Ascending p (q ∷ paths) a = go (compare p q) refl (λ h.
    behind-Ascending p q paths (compare-total p q h) a
      (insert_path-Ascending p paths (tail-Ascending q paths a)))
  where
    go :
        (o : Ordering)
        → compare p q ≡ o
        → (compare p q ≡ greater → Ascending (q ∷ insert_path p paths))
        → Ascending (elim o [
          | less ↦ p ∷ q ∷ paths
          | equal ↦ q ∷ paths
          | greater ↦ q ∷ insert_path p paths
        ])
    go less e later = (e, a)
    go equal e later = a
    go greater e later = later e

abbrev pub In : List ℕ → List (List ℕ) → Type 0
In p [] = ⊥
In p (q ∷ paths) = (p ≡ q) ⊎ In p paths

In-insert_path :
    (p q : List ℕ) (paths : List (List ℕ)) → In p (insert_path q paths) ↔ ((p ≡ q) ⊎ In p paths)
unfolding insert_path
In-insert_path p q [] = (λ i. i, λ i. i)
In-insert_path p q (r ∷ paths) = go (compare q r) refl (In-insert_path p q paths)
  where
    go :
        (o : Ordering)
        → compare q r ≡ o
        → (In p (insert_path q paths) ↔ ((p ≡ q) ⊎ In p paths))
        → In p (elim o [
          | less ↦ q ∷ r ∷ paths
          | equal ↦ r ∷ paths
          | greater ↦ r ∷ insert_path q paths
        ])
          ↔ ((p ≡ q) ⊎ ((p ≡ r) ⊎ In p paths))
    go less e ih = (λ i. i, λ i. i)
    go equal e ih = (λ i. inr i, λ i. elim i [ inl h ↦ inl (h ∙ compare-equal q r e) | inr j ↦ j ])
    go greater e ih = (
      λ i. elim i [
        | inl h ↦ inr (inl h)
        | inr j ↦ elim (ih.0 j) [ inl h ↦ inl h | inr k ↦ inr (inr k) ]
      ],
      λ i. elim i [
        | inl h ↦ inr (ih.1 (inl h))
        | inr (inl h) ↦ inl h
        | inr (inr k) ↦ inr (ih.1 (inr k))
      ],
    )

In-add_clean :
    (p q : List ℕ) (paths : List (List ℕ))
    → In p (add_clean q paths) ↔ (((p ≡ q) × IsNamed p) ⊎ In p paths)
unfolding add_clean
In-add_clean p [] paths =
    (λ i. inr i, λ i. elim i [ inl (h, n) ↦ absurd (n.nonempty h) | inr j ↦ j ])
In-add_clean p (c ∷ path) paths = elim (Bool-cases (any_metadata (split b'/' (c ∷ path)))) [
  | inl e ↦
      rw (add_clean, e)
        (
          λ i. inr i,
          λ i. elim i [
            | inl (h, n) ↦ absurd (cc (e, n.no_metadata, ap (λ x. any_metadata (split b'/' x)) h))
            | inr j ↦ j
          ],
        )
  | inr e ↦
      let named : IsNamed (c ∷ path) = record { nonempty = λ h. cc h; no_metadata = e } in
      let both = In-insert_path p (c ∷ path) paths in
      rw (add_clean, e)
        (
          λ i. elim (both.0 i) [ inl h ↦ inl (h, subst IsNamed (sym h) named) | inr j ↦ inr j ],
          λ i. elim i [ inl (h, n) ↦ both.1 (inl h) | inr j ↦ both.1 (inr j) ],
        )
]

In-valid_paths :
    (p : List ℕ) (raw paths : List (List ℕ))
    → In p (valid_paths raw paths) ↔ ((In p (map clean raw) × IsNamed p) ⊎ In p paths)
unfolding valid_paths
In-valid_paths p [] paths = (λ i. inr i, λ i. elim i [ inl (h, n) ↦ absurd h | inr j ↦ j ])
In-valid_paths p (r ∷ raw) paths =
    let rest = In-valid_paths p raw (add_clean (clean r) paths) in
    let one = In-add_clean p (clean r) paths in
    (
      λ i. elim (rest.0 i) [
        | inl (h, n) ↦ inl (inr h, n)
        | inr j ↦ elim (one.0 j) [ inl (h, n) ↦ inl (inl h, n) | inr k ↦ inr k ]
      ],
      λ i. elim i [
        | inl (inl h, n) ↦ rest.1 (inr (one.1 (inl (h, n))))
        | inl (inr h, n) ↦ rest.1 (inl (h, n))
        | inr k ↦ rest.1 (inr (one.1 (inr k)))
      ],
    )

add_clean-Ascending :
    (q : List ℕ) (paths : List (List ℕ)) → Ascending paths → Ascending (add_clean q paths)
unfolding add_clean
add_clean-Ascending [] paths a = a
add_clean-Ascending (c ∷ path) paths a = elim (Bool-cases (any_metadata (split b'/' (c ∷ path)))) [
  | inl e ↦ rw (add_clean, e) a
  | inr e ↦ rw (add_clean, e) (insert_path-Ascending (c ∷ path) paths a)
]

valid_paths-Ascending :
    (raw paths : List (List ℕ)) → Ascending paths → Ascending (valid_paths raw paths)
unfolding valid_paths
valid_paths-Ascending [] paths a = a
valid_paths-Ascending (r ∷ raw) paths a =
    valid_paths-Ascending raw (add_clean (clean r) paths) (add_clean-Ascending (clean r) paths a)

-- The paths that a message is made of are in the order of their bytes, none twice, and they are exactly
-- the changed paths, cleaned, that are not empty and have no component that is metadata.
pub valid_paths_lem :
    (raw : List (List ℕ))
    → Ascending (valid_paths raw [])
      × ((p : List ℕ) → In p (valid_paths raw []) ↔ (In p (map clean raw) × IsNamed p))
valid_paths_lem raw = (
  valid_paths-Ascending raw [] tt,
  λ p.
      let both = In-valid_paths p raw [] in
      (λ i. elim (both.0 i) [ inl h ↦ h | inr j ↦ absurd j ], λ h. both.1 (inl h)),
)
