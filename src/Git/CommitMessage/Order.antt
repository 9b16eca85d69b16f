-- ===== src/Git/CommitMessage/Order.antt =====
-- src/git/commit_message.rs: the orders and the repetitions that a message does not depend on.
use mathlib.Core.List.{Permᴰ}
use mathlib.Core.List.Permᴰ
use git_nfs.Prelude.{◌++◌, length, leb, if◌then◌else◌}
use git_nfs.Text.{ascii}
use git_nfs.Prelude.{ℕ, ◌≡◌, refl, ap, sym, ◌∙◌, subst, inl, inr, ◌↔◌, map, List, [], ◌∷◌}
use git_nfs.Git.Builder.{less, compare}
use git_nfs.Git.Builder.Compare.{compare_trans, compare_self}
use git_nfs.Git.CommitMessage.Dirs.{sort_dirs-perm}
use git_nfs.Git.CommitMessage.{
  HashOrder, dir_counts, sort_dirs, subject, body, join_comma, clean, valid_paths, message_of,
  generate_commit_message,
}
use git_nfs.Git.CommitMessage.Paths.{Ascending, tail-Ascending, In, valid_paths_lem}

-- What comes behind the first path is larger.
later :
    (p q : List ℕ) (paths : List (List ℕ)) → Ascending (q ∷ paths) → In p paths → compare q p ≡ less
later p q [] a i = absurd i
later p q (r ∷ paths) a (inl e) = subst (λ x. compare q x ≡ less) (sym e) a.0
later p q (r ∷ paths) a (inr i) = compare_trans q r p a.0 (later p r paths a.1 i)

not_before_itself : (p : List ℕ) → compare p p ≡ less → ⊥
not_before_itself p h = cc (h, compare_self p)

-- The first paths of two such lists with the same members are the same.
same_head :
    (p q : List ℕ) (ps qs : List (List ℕ))
    → Ascending (p ∷ ps)
    → Ascending (q ∷ qs)
    → In p (q ∷ qs)
    → In q (p ∷ ps)
    → p ≡ q
same_head p q ps qs a b (inl e) j = e
same_head p q ps qs a b (inr i) (inl e) = sym e
same_head p q ps qs a b (inr i) (inr j) =
    absurd (not_before_itself p (compare_trans p q p (later q p ps a j) (later p q qs b i)))

same_tail :
    (p : List ℕ) (ps qs : List (List ℕ))
    → Ascending (p ∷ ps)
    → ((r : List ℕ) → In r (p ∷ ps) → In r (p ∷ qs))
    → (r : List ℕ) → In r ps
    → In r qs
same_tail p ps qs a same r i = elim (same r (inr i)) [
  | inl e ↦ absurd (not_before_itself p (subst (λ x. compare p x ≡ less) e (later r p ps a i)))
  | inr j ↦ j
]

unique :
    (ps qs : List (List ℕ))
    → Ascending ps
    → Ascending qs
    → ((r : List ℕ) → In r ps ↔ In r qs)
    → ps ≡ qs
unique [] [] a b same = refl
unique [] (q ∷ qs) a b same = absurd ((same q).1 (inl refl))
unique (p ∷ ps) [] a b same = absurd ((same p).0 (inl refl))
unique (p ∷ ps) (q ∷ qs) a b same =
    let e : p ≡ q = same_head p q ps qs a b ((same p).0 (inl refl)) ((same q).1 (inl refl)) in
    let b' : Ascending (p ∷ qs) = subst (λ x. Ascending (x ∷ qs)) (sym e) b in
    let there : (r : List ℕ) → In r (p ∷ ps) → In r (p ∷ qs) =
      λ r i. subst (λ x. In r (x ∷ qs)) (sym e) ((same r).0 i) in
    let back : (r : List ℕ) → In r (p ∷ qs) → In r (p ∷ ps) =
      λ r i. (same r).1 (subst (λ x. In r (x ∷ qs)) e i) in
    ap (◌∷◌ p) (
      unique ps qs (tail-Ascending p ps a) (tail-Ascending p qs b')
        (λ r. (same_tail p ps qs a there r, same_tail p qs ps b' back r)))
    ∙ ap (λ x. x ∷ qs) e

-- The message of given paths does not depend on the iteration over the counts.
message_of_iter :
    (iter other : HashOrder) (paths : List (List ℕ))
    → ((ds : List (List ℕ × ℕ)) → Permᴰ (iter ds) ds)
    → ((ds : List (List ℕ × ℕ)) → Permᴰ (other ds) ds)
    → message_of iter paths ≡ message_of other paths
unfolding message_of
message_of_iter iter other [] p q = refl
message_of_iter iter other (f ∷ files) p q =
    let ds = dir_counts (f ∷ files) [] in
    let same : sort_dirs (iter ds) ≡ sort_dirs (other ds) =
      sort_dirs-perm (iter ds) (other ds) (Permᴰ.trans (p ds) (Permᴰ.symm (q ds))) in
    ap {A = List (List ℕ × ℕ)} {B = List ℕ}
      (λ sorted.
        if leb (length (f ∷ files)) 3
        then ascii "Update " ++ join_comma (f ∷ files)
        else subject (length (f ∷ files)) sorted ++ body sorted)
      same

-- Two lists of changed paths with the same paths in them, cleaned, whatever their order and however often
-- a path stands there, give the same message, in whatever order the hash map of the counts gives its
-- elements in the one run and in the other.
pub generate_commit_message-same :
    (iter other : HashOrder) (xs ys : List (List ℕ))
    → ((ds : List (List ℕ × ℕ)) → Permᴰ (iter ds) ds)
    → ((ds : List (List ℕ × ℕ)) → Permᴰ (other ds) ds)
    → ((p : List ℕ) → In p (map clean xs) ↔ In p (map clean ys))
    → generate_commit_message iter xs ≡ generate_commit_message other ys
unfolding generate_commit_message
generate_commit_message-same iter other xs ys h k same =
    let (a, f) = valid_paths_lem xs in
    let (b, g) = valid_paths_lem ys in
    ap (message_of iter) (
      unique (valid_paths xs []) (valid_paths ys []) a b (λ r. (
        λ i. let (j, n) = (f r).0 i in (g r).1 ((same r).0 j, n),
        λ i. let (j, n) = (g r).0 i in (f r).1 ((same r).1 j, n),
      )))
    ∙ message_of_iter iter other (valid_paths ys []) h k
