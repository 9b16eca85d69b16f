-- ===== src/Cache/Block/Pieces.antt =====
-- Slices of a list that add up.
use git_nfs.Prelude.{
  ℕ, zero, suc, ◌+◌, ◌-◌, ◌≤◌, ◌<◌, ◌≡◌, ap, sym, ◌∙◌, List, [], ◌∷◌, ◌++◌, min, max, length, take,
  drop, ltb, arith, take-add, drop-drop, take-min, take_nil, length-drop, length-take, Bool-cases,
  inl, inr, drop_of_length-le,
}
use git_nfs.Cache.Block.{overlap}

module _ {ℓ} {A : Type ℓ} where
  drop-take : (n m : ℕ) (xs : List A) → drop n (take m xs) ≡ take (m - n) (drop n xs)
  drop-take zero m xs = let e : m ≡ m - 0 = omega arith in ap (λ k. take k xs) e
  drop-take (suc n) zero xs =
      let e : 0 ≡ 0 - suc n = omega arith in ap (λ k. take k (drop (suc n) xs)) e
  drop-take (suc n) (suc m) [] = sym (take_nil (suc m - suc n))
  drop-take (suc n) (suc m) (x ∷ xs) =
      drop-take n m xs
      ∙ (let e : m - n ≡ suc m - suc n = omega arith in ap (λ k. take k (drop n xs)) e)

  -- A take counts only up to the length.
  take-same :
      (n m : ℕ) (xs : List A) → min n (length xs) ≡ min m (length xs) → take n xs ≡ take m xs
  take-same n m xs e = sym (take-min n xs) ∙ ap (λ k. take k xs) e ∙ take-min m xs

  take-take : (n m : ℕ) (xs : List A) → take n (take m xs) ≡ take (min n m) xs
  take-take zero m xs = let e : 0 ≡ min 0 m = omega arith in ap (λ k. take k xs) e
  take-take (suc n) zero xs = let e : 0 ≡ min (suc n) 0 = omega arith in ap (λ k. take k xs) e
  take-take (suc n) (suc m) [] = sym (take_nil (min (suc n) (suc m)))
  take-take (suc n) (suc m) (x ∷ xs) =
      ap (◌∷◌ x) (take-take n m xs)
      ∙ (let e : suc (min n m) ≡ min (suc n) (suc m) = omega arith in ap (λ k. take k (x ∷ xs)) e)

abbrev pub slice : List ℕ → ℕ → ℕ → List ℕ
slice xs offset len = take len (drop offset xs)

pub length-slice : (xs : List ℕ) (o n : ℕ) → length (slice xs o n) ≡ min n (length xs - o)
length-slice xs o n = length-take n (drop o xs) ∙ ap (min n) (length-drop o xs)

-- A slice of a slice.
pub slice-slice :
    (xs : List ℕ) (a s o n : ℕ) → slice (slice xs a s) o n ≡ slice xs (a + o) (min n (s - o))
slice-slice xs a s o n =
    ap (take n) (drop-take o s (drop a xs))
    ∙ take-take n (s - o) (drop o (drop a xs))
    ∙ ap (take (min n (s - o))) (drop-drop a o xs)

-- Slices of the same bytes.
pub slice-same :
    (xs : List ℕ) (o n m : ℕ)
    → min n (length xs - o) ≡ min m (length xs - o)
    → slice xs o n ≡ slice xs o m
slice-same xs o n m h = take-same n m (drop o xs) (rw (length-drop o xs) h)

-- Two slices, the second where the first ends.
pub slice-add : (xs : List ℕ) (o n m : ℕ) → slice xs o n ++ slice xs (o + n) m ≡ slice xs o (n + m)
slice-add xs o n m =
    sym (take-add n m (drop o xs) ∙ ap (λ t. take n (drop o xs) ++ take m t) (drop-drop o n xs))

-- How many bytes of the range to `a + q` a block of `s` bytes at `a` gives behind `a + p`, when `l`
-- bytes are left at `a`.
count-inner :
    (q s p l : ℕ) → min (min (min q (min s l) - p) (s - p)) (l - p) ≡ min (min q s - p) (l - p)
count-inner q s p l = omega arith

count-end : (e a b : ℕ) → a < e → min (min e (a + b) - a) b ≡ min (e - a) b
count-end e a b h = omega arith

range-count :
    (e a s m len b : ℕ)
    → a ≤ m
    → a < e
    → b ≡ min s (len - a)
    → min (min (min (min e (a + b) - a) b - (m - a)) (s - (m - a))) (len - m)
      ≡ min (min e (a + s) - m) (len - m)
range-count e a s m len b le h f =
    let u : len - m ≡ (len - a) - (m - a) = omega arith in
    let v : min e (a + s) - m ≡ min (e - a) s - (m - a) = omega arith in
    rw (count-end e a b h, f, u, v) (count-inner (e - a) s (m - a) (len - a))

-- A block that starts before the end of a range gives the bytes of the range that lie in it.
pub overlap-block :
    (xs : List ℕ) (offset len a s : ℕ)
    → a < offset + len
    → offset < a + s
    → 0 < s
    → overlap offset len a (slice xs a s)
      ≡ slice xs (max offset a) (min (offset + len) (a + s) - max offset a)
unfolding overlap
overlap-block xs offset len a s h k p =
    let b = slice xs a s in
    let n : length b ≡ min s (length xs - a) = length-slice xs a s in
    let lo = max offset a - a in
    let m : a + lo ≡ max offset a = omega arith in
    elim (Bool-cases (ltb lo (length b))) [
      | inl e ↦ rw e (
          slice-slice xs a s lo (min (min (offset + len) (a + length b) - a) (length b) - lo)
          ∙ ap
              (λ o.
                slice xs o
                  (min (min (min (offset + len) (a + length b) - a) (length b) - lo) (s - lo)))
              m
          ∙ slice-same xs (max offset a) _ _ (
              range-count (offset + len) a s (max offset a) (length xs) (length b) (omega arith) h
                n))
      | inr e ↦ rw e (
          sym (
            ap (take (min (offset + len) (a + s) - max offset a))
              (drop_of_length-le (max offset a) xs (ground (arith, n)))
            ∙ take_nil _))
    ]
