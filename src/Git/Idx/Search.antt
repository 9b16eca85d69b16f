-- ===== src/Git/Idx/Search.antt =====
-- Binary search finds the one place that there is, and nothing else.
use git_nfs.Prelude.{
  ℕ, zero, suc, ◌+◌, ◌-◌, ◌/◌, ◌≤◌, ◌<◌, ◌≡◌, refl, ap, sym, ◌∙◌, List, [], ◌∷◌, length, get_elem?,
  Option, some, none, arith, ltb, Bool-cases, inl, inr, ltb→lt,
}
use git_nfs.Git.Builder.{Ordering, less, equal, greater}
use git_nfs.Git.Idx.{halve, search_loop, binary_search}

module _ {ℓ} {A : Type ℓ} (f : A → Ordering) where
  -- `f` calls the element at `j` equal, those before it less and those behind it greater.
  pub record PointsTo (l : List A) (j : ℕ) : Type ℓ where
    pub at : (x : A) → get_elem? l j ≡ some x → f x ≡ equal
    pub before : (i : ℕ) (x : A) → i < j → get_elem? l i ≡ some x → f x ≡ less
    pub behind : (i : ℕ) (x : A) → j < i → get_elem? l i ≡ some x → f x ≡ greater
    pub within : j < length l

  pub get_elem?_within : (l : List A) (i : ℕ) → i < length l → (x : A) × (get_elem? l i ≡ some x)
  get_elem?_within [] i h = absurd (omega arith)
  get_elem?_within (x ∷ l) zero h = (x, refl)
  get_elem?_within (x ∷ l) (suc i) h = get_elem?_within l i (omega arith)

  halve-behind :
      (l : List A) (j base mid : ℕ)
      → PointsTo l j
      → j < mid
      → mid < length l
      → halve f l base mid ≡ base
  unfolding halve
  halve-behind l j base mid p h k =
      let (x, e) = get_elem?_within l mid k in rw (halve, e, p.behind mid x h e) refl

  halve-before : (l : List A) (j base mid : ℕ) → PointsTo l j → mid ≤ j → halve f l base mid ≡ mid
  unfolding halve
  halve-before l j base mid p h =
      let (x, e) = get_elem?_within l mid (let w = p.within in omega arith) in
      elim (Bool-cases (ltb mid j)) [
        | inl t ↦ rw (halve, e, p.before mid x (ltb→lt mid j t) e) refl
        | inr t ↦
            let same : mid ≡ j = ground arith in
            rw (halve, e, p.at x (ap (get_elem? l) (sym same) ∙ e)) refl
      ]

  search_loop-PointsTo :
      (fuel : ℕ) (l : List A) (j base size : ℕ)
      → PointsTo l j
      → size ≤ fuel
      → base ≤ j
      → j < base + size
      → base + size ≤ length l
      → search_loop fuel f l base size ≡ j
  unfolding search_loop
  search_loop-PointsTo zero l j base size p enough low high fits = absurd (omega arith)
  search_loop-PointsTo (suc fuel) l j base size p enough low high fits =
      elim (Bool-cases (ltb 1 size)) [
        | inr e ↦ rw (search_loop, e) (ground arith)
        | inl e ↦ elim (Bool-cases (ltb j (base + size / 2))) [
          | inl left ↦
              rw
                (
                  search_loop,
                  e,
                  halve-behind l j base (base + size / 2) p (ltb→lt _ _ left) (ground arith),
                )
                (search_loop-PointsTo fuel l j base (size - size / 2) p (ground arith) low
                  (ground arith) (omega arith))
          | inr right ↦
              rw (search_loop, e, halve-before l j base (base + size / 2) p (ground arith))
                (search_loop-PointsTo fuel l j (base + size / 2) (size - size / 2) p (ground arith)
                  (ground arith) (omega arith) (omega arith))
        ]
      ]

  pub binary_search-PointsTo : (l : List A) (j : ℕ) → PointsTo l j → binary_search f l ≡ some j
  unfolding binary_search
  binary_search-PointsTo l j p =
      let w = p.within in
      let (x, e) = get_elem?_within l j w in
      let found : search_loop (length l) f l 0 (length l) ≡ j =
        search_loop-PointsTo (length l) l j 0 (length l) p (omega arith) (omega arith) (omega arith)
          (omega arith) in
      let there : get_elem? l (search_loop (length l) f l 0 (length l)) ≡ some x =
        ap (get_elem? l) found ∙ e in
      rw (binary_search, there, p.at x e) (ap {A = ℕ} {B = Option ℕ} (λ b. some b) found)

  -- What is found is called equal, whatever the order of the list.
  pub binary_search-equal :
      (l : List A) (i : ℕ)
      → binary_search f l ≡ some i
      → (x : A) × (get_elem? l i ≡ some x) × (f x ≡ equal)
  unfolding binary_search
  binary_search-equal l i h = go (get_elem? l base) refl
    where
      base : ℕ
      base = search_loop (length l) f l 0 (length l)

      found :
          (x : A) (o : Ordering)
          → get_elem? l base ≡ some x
          → f x ≡ o
          → (x : A) × (get_elem? l i ≡ some x) × (f x ≡ equal)
      found x equal e g =
          let same : base ≡ i = cc (rw (binary_search, e, g) at h) in
          (x, ap (get_elem? l) (sym same) ∙ e, g)
      found x less e g = absurd (cc (rw (binary_search, e, g) at h))
      found x greater e g = absurd (cc (rw (binary_search, e, g) at h))

      go :
          (o : Option A) → get_elem? l base ≡ o → (x : A) × (get_elem? l i ≡ some x) × (f x ≡ equal)
      go none e = absurd (cc (rw (binary_search, e) at h))
      go (some x) e = found x (f x) e refl
