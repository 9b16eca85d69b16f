-- ===== src/Git/Builder/Order.antt =====
-- The order of the entries of a tree.
use mathlib.Core.List.{Perm}
use mathlib.Core.List.Perm
use git_nfs.Prelude.{
  ℕ, ◌<◌, ◌≡◌, ◌≢◌, refl, inl, inr, subst, sym, ◌⊎◌, Bool, true, false, Bool-cases, if◌then◌else◌,
  List, [], ◌∷◌, ◌++◌, append-nil, ltb, arith,
}
use git_nfs.Vfs.State.{VfsNode}
use git_nfs.Git.Builder.Compare.{compare-total}
use git_nfs.Git.Builder.{
  compare, Ordering, less, equal, greater, sort_key, compare_tree_entries, insert_child,
  sort_children,
}

-- The order of byte strings: the first difference decides, and a beginning comes before the whole.
pub data Upto : List ℕ → List ℕ → Type 0 where
  ends : {t : List ℕ} → Upto [] t
  differs : {a b : ℕ} {s t : List ℕ} → a < b → Upto (a ∷ s) (b ∷ t)
  agrees : {a : ℕ} {s t : List ℕ} → Upto s t → Upto (a ∷ s) (a ∷ t)

-- Git compares the names of entries with a slash behind the name of a directory.
abbrev pub InGitOrder : VfsNode → VfsNode → Type 0
InGitOrder a b =
    Upto (a.name ++ (if a.is_dir then b'/' ∷ [] else []))
      (b.name ++ (if b.is_dir then b'/' ∷ [] else []))

-- Every entry stands in the relation to the next one.
abbrev pub Ordered : (VfsNode → VfsNode → Type 0) → List VfsNode → Type 0
Ordered R [] = Unit
Ordered R (a ∷ []) = Unit
Ordered R (a ∷ b ∷ nodes) = R a b × Ordered R (b ∷ nodes)

-- `a` is not behind `b` for the code.
abbrev NotBehind : VfsNode → VfsNode → Type 0
NotBehind a b = compare_tree_entries a.name a.is_dir b.name b.is_dir ≢ greater

compare-Upto : (s t : List ℕ) → compare s t ≢ greater → Upto s t
unfolding compare
compare-Upto [] t h = ends
compare-Upto (a ∷ s) [] h = absurd (h refl)
compare-Upto (a ∷ s) (b ∷ t) h = elim (Bool-cases (ltb a b)) [
  | inl e ↦ differs (ground arith)
  | inr e ↦ elim (Bool-cases (ltb b a)) [
    | inl f ↦ absurd (h (rw (compare, e, f) refl))
    | inr f ↦
        let same : a ≡ b = ground arith in
        subst (λ x. Upto (a ∷ s) (x ∷ t)) same
          (agrees (compare-Upto s t (λ g. h (rw (compare, e, f) g))))
  ]
]

sort_key-slash :
    (name : List ℕ) (dir : Bool) → sort_key name dir ≡ name ++ (if dir then b'/' ∷ [] else [])
sort_key-slash name true = refl
sort_key-slash name false = sym (append-nil name)

NotBehind-InGitOrder : (a b : VfsNode) → NotBehind a b → InGitOrder a b
unfolding compare_tree_entries
NotBehind-InGitOrder a b h =
    subst (λ s. Upto s (b.name ++ (if b.is_dir then b'/' ∷ [] else [])))
      (sort_key-slash a.name a.is_dir)
      (subst (Upto (sort_key a.name a.is_dir)) (sort_key-slash b.name b.is_dir)
        (compare-Upto (sort_key a.name a.is_dir) (sort_key b.name b.is_dir) h))

Ordered-map :
    (R S : VfsNode → VfsNode → Type 0)
    → ((a b : VfsNode) → R a b → S a b)
    → (nodes : List VfsNode) → Ordered R nodes
    → Ordered S nodes
Ordered-map R S f [] o = tt
Ordered-map R S f (a ∷ []) o = tt
Ordered-map R S f (a ∷ b ∷ nodes) o = (f a b o.0, Ordered-map R S f (b ∷ nodes) o.1)

NotBehind-greater :
    (a b : VfsNode) → compare_tree_entries a.name a.is_dir b.name b.is_dir ≡ greater → NotBehind b a
unfolding compare_tree_entries
NotBehind-greater a b h e =
    absurd (cc (e, compare-total (sort_key a.name a.is_dir) (sort_key b.name b.is_dir) h))

Ordering-cases : (o : Ordering) → (o ≡ greater) ⊎ (o ≢ greater)
Ordering-cases less = inr (λ e. cc e)
Ordering-cases equal = inr (λ e. cc e)
Ordering-cases greater = inl refl

insert_child-behind :
    (a b : VfsNode) (nodes : List VfsNode)
    → compare_tree_entries a.name a.is_dir b.name b.is_dir ≡ greater
    → insert_child a (b ∷ nodes) ≡ b ∷ insert_child a nodes
unfolding insert_child
insert_child-behind a b nodes e = rw (insert_child, e) refl

insert_child-here :
    (a b : VfsNode) (nodes : List VfsNode)
    → NotBehind a b
    → insert_child a (b ∷ nodes) ≡ a ∷ b ∷ nodes
unfolding insert_child
insert_child-here a b nodes h = go (compare_tree_entries a.name a.is_dir b.name b.is_dir) refl
  where
    go :
        (o : Ordering)
        → compare_tree_entries a.name a.is_dir b.name b.is_dir ≡ o
        → insert_child a (b ∷ nodes) ≡ a ∷ b ∷ nodes
    go less e = rw (insert_child, e) refl
    go equal e = rw (insert_child, e) refl
    go greater e = absurd (h e)

-- The inserted node or the old first one is first.
Ordered-behind :
    (a b : VfsNode) (nodes : List VfsNode)
    → NotBehind b a
    → Ordered NotBehind (b ∷ nodes)
    → Ordered NotBehind (insert_child a nodes)
    → Ordered NotBehind (b ∷ insert_child a nodes)
unfolding insert_child
Ordered-behind a b [] h ob o = (h, tt)
Ordered-behind a b (c ∷ nodes) h ob o =
    elim (Ordering-cases (compare_tree_entries a.name a.is_dir c.name c.is_dir)) [
      | inl e ↦
          subst (λ l. Ordered NotBehind (b ∷ l)) (sym (insert_child-behind a c nodes e))
            (ob.0, subst (Ordered NotBehind) (insert_child-behind a c nodes e) o)
      | inr e ↦
          subst (λ l. Ordered NotBehind (b ∷ l)) (sym (insert_child-here a c nodes e))
            (h, (e, ob.1))
    ]

tail-Ordered :
    (b : VfsNode) (nodes : List VfsNode) → Ordered NotBehind (b ∷ nodes) → Ordered NotBehind nodes
tail-Ordered b [] o = tt
tail-Ordered b (c ∷ nodes) o = o.1

insert_child-Ordered :
    (a : VfsNode) (nodes : List VfsNode)
    → Ordered NotBehind nodes
    → Ordered NotBehind (insert_child a nodes)
unfolding insert_child
insert_child-Ordered a [] o = tt
insert_child-Ordered a (b ∷ nodes) o =
    elim (Ordering-cases (compare_tree_entries a.name a.is_dir b.name b.is_dir)) [
      | inl e ↦ subst (Ordered NotBehind) (sym (insert_child-behind a b nodes e)) (
          Ordered-behind a b nodes (NotBehind-greater a b e) o
            (insert_child-Ordered a nodes (tail-Ordered b nodes o)))
      | inr e ↦ subst (Ordered NotBehind) (sym (insert_child-here a b nodes e)) (e, o)
    ]

insert_child-perm : (a : VfsNode) (nodes : List VfsNode) → Perm (insert_child a nodes) (a ∷ nodes)
unfolding insert_child
insert_child-perm a [] = Perm.refl (a ∷ [])
insert_child-perm a (b ∷ nodes) =
    elim (Ordering-cases (compare_tree_entries a.name a.is_dir b.name b.is_dir)) [
      | inl e ↦
          subst (λ l. Perm l (a ∷ b ∷ nodes)) (sym (insert_child-behind a b nodes e))
            (Perm.trans (Perm.cons b (insert_child-perm a nodes)) (Perm.swap a b nodes))
      | inr e ↦
          subst (λ l. Perm l (a ∷ b ∷ nodes)) (sym (insert_child-here a b nodes e))
            (Perm.refl (a ∷ b ∷ nodes))
    ]

sort_children-NotBehind :
    (children : List VfsNode)
    → Ordered NotBehind (sort_children children) × Perm (sort_children children) children
unfolding sort_children
sort_children-NotBehind [] = (tt, Perm.refl [])
sort_children-NotBehind (a ∷ children) =
    let (ordered, same) = sort_children-NotBehind children in
    (
      insert_child-Ordered a (sort_children children) ordered,
      Perm.trans (insert_child-perm a (sort_children children)) (Perm.cons a same),
    )

-- The children of a directory are sorted in the order of Git, which compares byte strings with a slash
-- behind the name of a directory, and none is lost or made up.
pub sort_children-Ordered :
    (children : List VfsNode)
    → Ordered InGitOrder (sort_children children) × Perm (sort_children children) children
sort_children-Ordered children =
    let (ordered, same) = sort_children-NotBehind children in
    (Ordered-map NotBehind InGitOrder NotBehind-InGitOrder (sort_children children) ordered, same)
