-- ===== src/Git/Idx/Room.antt =====
-- The room up to the next object: the distance between neighbours in the sorted offsets.
use git_nfs.Prelude.{
  subst, ℕ, zero, suc, ◌+◌, ◌*◌, ◌≤◌, ◌<◌, ◌≡◌, ◌≢◌, ap, sym, List, [], ◌∷◌, length, get_elem?,
  get_or, All, some, Option, arith, ltb, ltb→lt, Bool-cases, inl, inr, ◌⊎◌, false,
}
use git_nfs.Git.Builder.{less, equal, greater}
use git_nfs.Git.Idx.{
  PackIndex, compare_num, insert_offset, sort_offsets, get_object_len_at_offset, object_len,
}
use git_nfs.Git.Idx.Search.{PointsTo, binary_search-PointsTo, get_elem?_within}

abbrev pub Ascending : List ℕ → Type 0
Ascending [] = Unit
Ascending (a ∷ l) = All (λ b. a < b) l × Ascending l

-- No number stands twice.
abbrev pub Different : List ℕ → Type 0
Different [] = Unit
Different (a ∷ l) = All (λ b. a ≢ b) l × Different l

abbrev pub Has : ℕ → List ℕ → Type 0
Has x [] = ⊥
Has x (a ∷ l) = (a ≡ x) ⊎ Has x l

All-insert_offset :
    (P : ℕ → Type 0) (a : ℕ) (l : List ℕ) → P a → All P l → All P (insert_offset a l)
unfolding insert_offset
All-insert_offset P a [] p h = (p, tt)
All-insert_offset P a (b ∷ l) p (h, hs) = elim (Bool-cases (ltb b a)) [
  | inl e ↦ rw (insert_offset, e) (h, All-insert_offset P a l p hs)
  | inr e ↦ rw (insert_offset, e) (p, (h, hs))
]

pub All-sort_offsets : (P : ℕ → Type 0) (l : List ℕ) → All P l → All P (sort_offsets l)
unfolding sort_offsets
All-sort_offsets P [] h = tt
All-sort_offsets P (a ∷ l) (h, hs) =
    All-insert_offset P a (sort_offsets l) h (All-sort_offsets P l hs)

Has-insert_offset : (x a : ℕ) (l : List ℕ) → Has x (a ∷ l) → Has x (insert_offset a l)
unfolding insert_offset
Has-insert_offset x a [] h = h
Has-insert_offset x a (b ∷ l) h = elim (Bool-cases (ltb b a)) [
  | inr e ↦ rw (insert_offset, e) h
  | inl e ↦ rw (insert_offset, e) (behind (Has-insert_offset x a l) h)
]
  where
    behind :
        (Has x (a ∷ l) → Has x (insert_offset a l))
        → Has x (a ∷ b ∷ l)
        → Has x (b ∷ insert_offset a l)
    behind ih (inl e) = inr (ih (inl e))
    behind ih (inr (inl e)) = inl e
    behind ih (inr (inr h)) = inr (ih (inr h))

Has-sort_offsets : (x : ℕ) (l : List ℕ) → Has x l → Has x (sort_offsets l)
unfolding sort_offsets
Has-sort_offsets x [] h = h
Has-sort_offsets x (a ∷ l) (inl e) = Has-insert_offset x a (sort_offsets l) (inl e)
Has-sort_offsets x (a ∷ l) (inr h) =
    Has-insert_offset x a (sort_offsets l) (inr (Has-sort_offsets x l h))

Has-get_elem? : (x : ℕ) (l : List ℕ) → Has x l → (i : ℕ) × (get_elem? l i ≡ some x)
Has-get_elem? x [] h = absurd h
Has-get_elem? x (a ∷ l) (inl e) = (0, ap {A = ℕ} {B = Option ℕ} (λ y. some y) e)
Has-get_elem? x (a ∷ l) (inr h) = let (i, e) = Has-get_elem? x l h in (suc i, e)

All-at : (P : ℕ → Type 0) (l : List ℕ) (i x : ℕ) → All P l → get_elem? l i ≡ some x → P x
All-at P [] i x h e = absurd (cc e)
All-at P (a ∷ l) zero x (h, hs) e = let same : a ≡ x = cc e in subst P same h
All-at P (a ∷ l) (suc i) x (h, hs) e = All-at P l i x hs e

All-later : (a b : ℕ) (l : List ℕ) → a < b → All (λ c. b < c) l → All (λ c. a < c) l
All-later a b [] h hs = tt
All-later a b (c ∷ l) h (k, ks) = (omega arith, All-later a b l h ks)

insert_offset-Ascending :
    (a : ℕ) (l : List ℕ) → All (λ b. a ≢ b) l → Ascending l → Ascending (insert_offset a l)
unfolding insert_offset
insert_offset-Ascending a [] new sorted = (tt, tt)
insert_offset-Ascending a (b ∷ l) (n, new) (h, sorted) = elim (Bool-cases (ltb b a)) [
  | inl e ↦
      rw (insert_offset, e)
        (
          All-insert_offset (λ c. b < c) a l (ltb→lt b a e) h,
          insert_offset-Ascending a l new sorted,
        )
  | inr e ↦
      let lt : a < b = ground (arith, n) in
      rw (insert_offset, e) ((lt, All-later a b l lt h), (h, sorted))
]

pub sort_offsets-Ascending : (l : List ℕ) → Different l → Ascending (sort_offsets l)
unfolding sort_offsets
sort_offsets-Ascending [] d = tt
sort_offsets-Ascending (a ∷ l) (n, d) =
    insert_offset-Ascending a (sort_offsets l) (All-sort_offsets (λ b. a ≢ b) l n)
      (sort_offsets-Ascending l d)

Ascending-lt :
    (l : List ℕ) (i j x y : ℕ)
    → Ascending l
    → get_elem? l i ≡ some x
    → get_elem? l j ≡ some y
    → i < j
    → x < y
Ascending-lt [] i j x y a p q h = absurd (cc p)
Ascending-lt (b ∷ l) i zero x y a p q h = absurd (omega arith)
Ascending-lt (b ∷ l) zero (suc j) x y (a, rest) p q h =
    let same : b ≡ x = cc p in let lt = All-at (λ c. b < c) l j y a q in omega arith
Ascending-lt (b ∷ l) (suc i) (suc j) x y (a, rest) p q h =
    Ascending-lt l i j x y rest p q (omega arith)

compare_num-less : (a b : ℕ) → a < b → compare_num a b ≡ less
compare_num-less a b h = ground arith

compare_num-greater : (a b : ℕ) → b < a → compare_num a b ≡ greater
compare_num-greater a b h = ground arith

compare_num_self : (a b : ℕ) → a ≡ b → compare_num a b ≡ equal
compare_num_self a b h = ground arith

get_elem?_inside : (l : List ℕ) (i x : ℕ) → get_elem? l i ≡ some x → i < length l
get_elem?_inside [] i x e = absurd (cc e)
get_elem?_inside (a ∷ l) zero x e = omega arith
get_elem?_inside (a ∷ l) (suc i) x e = omega (arith, get_elem?_inside l i x e)

Ascending-PointsTo :
    (l : List ℕ) (k x : ℕ)
    → Ascending l
    → get_elem? l k ≡ some x
    → PointsTo (λ o. compare_num o x) l k
Ascending-PointsTo l k x a e = record {
  at = λ y p. compare_num_self y x (cc (p, e));
  before = λ i y lt p. compare_num-less y x (Ascending-lt l i k y x a p e lt);
  behind = λ i y lt p. compare_num-greater y x (Ascending-lt l k i x y a e p lt);
  within = get_elem?_inside l k x e;
}

get_or-get_elem? : (l : List ℕ) (i x : ℕ) → get_elem? l i ≡ some x → get_or l i 0 ≡ x
get_or-get_elem? [] i x e = absurd (cc e)
get_or-get_elem? (a ∷ l) zero x e = cc e
get_or-get_elem? (a ∷ l) (suc i) x e = get_or-get_elem? l i x e

-- Where every later object starts `room` behind `offset` at least, the answer for `offset` is `room` at least, if there is a later object or 64 KB are enough.
pub object_len-room :
    (idx : PackIndex) (offsets : List ℕ) (offset room : ℕ)
    → idx.sorted_offsets ≡ sort_offsets offsets
    → Different offsets
    → Has offset offsets
    → All (λ x. offset < x → offset + room ≤ x) offsets
    → (room ≤ 64 * 1024) ⊎ ((x : ℕ) × Has x offsets × (offset < x))
    → room ≤ object_len idx offset
unfolding object_len get_object_len_at_offset
object_len-room idx offsets offset room sorted different has gap enough =
    let l = idx.sorted_offsets in
    let a : Ascending l = subst Ascending (sym sorted) (sort_offsets-Ascending offsets different) in
    let g : All (λ x. offset < x → offset + room ≤ x) l =
      subst (All (λ x. offset < x → offset + room ≤ x)) (sym sorted)
        (All-sort_offsets (λ x. offset < x → offset + room ≤ x) offsets gap) in
    let (k, at) =
      Has-get_elem? offset l
        (subst (Has offset) (sym sorted) (Has-sort_offsets offset offsets has)) in
    let found =
      binary_search-PointsTo (λ o. compare_num o offset) l k (Ascending-PointsTo l k offset a at) in
    elim (Bool-cases (ltb (k + 1) (length l))) [
      | inl e ↦
          let (x, next) =
            get_elem?_within {A = ℕ} (λ o. compare_num o offset) l (k + 1)
              (ltb→lt (k + 1) (length l) e) in
          let lt = Ascending-lt l k (k + 1) offset x a at next (omega arith) in
          let far = All-at (λ x. offset < x → offset + room ≤ x) l (k + 1) x g next lt in
          rw (object_len, get_object_len_at_offset, found, e)
            (omega (arith, get_or-get_elem? l (k + 1) x next))
      | inr e ↦ rw (object_len, get_object_len_at_offset, found, e) (last k a at e enough)
    ]
  where
    last :
        (k : ℕ)
        → Ascending idx.sorted_offsets
        → get_elem? idx.sorted_offsets k ≡ some offset
        → ltb (k + 1) (length idx.sorted_offsets) ≡ false
        → (room ≤ 64 * 1024) ⊎ ((x : ℕ) × Has x offsets × (offset < x))
        → room ≤ 64 * 1024
    last k a at e (inl small) = small
    last k a at e (inr (x, there, lt)) =
        let (m, stands) =
          Has-get_elem? x idx.sorted_offsets
            (subst (Has x) (sym sorted) (Has-sort_offsets x offsets there)) in
        let inside = get_elem?_inside idx.sorted_offsets m x stands in
        let le : m ≤ k = ground arith in
        absurd (elim (Bool-cases (ltb m k)) [
          | inl f ↦
              let w = Ascending-lt idx.sorted_offsets m k x offset a stands at (ltb→lt m k f) in
              omega arith
          | inr f ↦
              let same : m ≡ k = ground arith in
              let w : x ≡ offset = cc (stands, at, same) in omega arith
        ])
