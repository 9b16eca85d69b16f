-- ===== src/Git/Idx/Fanout.antt =====
-- The fanout table: how many names start with a byte up to a given one.
use git_nfs.Prelude.{
  ℕ, zero, suc, ◌+◌, ◌≤◌, ◌<◌, ◌≡◌, refl, ap, ◌∙◌, sym, List, [], ◌∷◌, length, get_or, replicate,
  All, Result, ok, arith, ◌==◌, ltb, if◌then◌else◌,
}
use git_nfs.Bytes.{as_u32}
use git_nfs.Git.Idx.{first_byte}
use git_nfs.Git.PackWriter.{ObjectEntry, WriteError, bump, count_bytes, cumulate}

-- `f k, f (k + 1), …`, `n` of them.
unfoldable pub tabulate : ℕ → ℕ → (ℕ → ℕ) → List ℕ
tabulate k zero f = []
tabulate k (suc n) f = f k ∷ tabulate (suc k) n f

tabulate-ext :
    (k n : ℕ) (f g : ℕ → ℕ) → ((i : ℕ) → k ≤ i → f i ≡ g i) → tabulate k n f ≡ tabulate k n g
unfolding tabulate
tabulate-ext k zero f g h = refl
tabulate-ext k (suc n) f g h =
    let head = h k (omega arith) in
    let tail = tabulate-ext (suc k) n f g (λ i le. h i (omega arith)) in cc

pub length-tabulate : (k n : ℕ) (f : ℕ → ℕ) → length (tabulate k n f) ≡ n
unfolding tabulate
length-tabulate k zero f = refl
length-tabulate k (suc n) f = ap suc (length-tabulate (suc k) n f)

pub get_or-tabulate : (k n i : ℕ) (f : ℕ → ℕ) → i < n → get_or (tabulate k n f) i 0 ≡ f (k + i)
unfolding tabulate
get_or-tabulate k zero i f h = absurd (omega arith)
get_or-tabulate k (suc n) zero f h = ap f (let e : k ≡ k + 0 = omega arith in e)
get_or-tabulate k (suc n) (suc i) f h =
    get_or-tabulate (suc k) n i f (omega arith)
    ∙ ap f (let e : suc k + i ≡ k + suc i = omega arith in e)

pub All-tabulate :
    (P : ℕ → Type 0) (k n : ℕ) (f : ℕ → ℕ) → ((i : ℕ) → P (f i)) → All P (tabulate k n f)
unfolding tabulate
All-tabulate P k zero f h = tt
All-tabulate P k (suc n) f h = (h k, All-tabulate P (suc k) n f h)

bump-tabulate :
    (byte k n : ℕ) (f : ℕ → ℕ)
    → bump byte (tabulate k n f)
      ≡ tabulate k n (λ i. if i == k + byte then as_u32 (f i + 1) else f i)
unfolding bump tabulate
bump-tabulate zero k zero f = refl
bump-tabulate (suc byte) k zero f = refl
bump-tabulate zero k (suc n) f =
    let head : as_u32 (f k + 1) ≡ (if k == k + 0 then as_u32 (f k + 1) else f k) = ground arith in
    let tail =
      tabulate-ext (suc k) n f (λ i. if i == k + 0 then as_u32 (f i + 1) else f i)
        (λ i le. ground arith) in
    cc
bump-tabulate (suc byte) k (suc n) f =
    let head : f k ≡ (if k == k + suc byte then as_u32 (f k + 1) else f k) = ground arith in
    let tail =
      bump-tabulate byte (suc k) n f
      ∙ tabulate-ext (suc k) n (λ i. if i == suc k + byte then as_u32 (f i + 1) else f i)
          (λ i. if i == k + suc byte then as_u32 (f i + 1) else f i) (λ i le. ground arith) in
    cc

-- How many names start with the byte `i`, and how many with a smaller one.
unfoldable pub count_first : ℕ → List ObjectEntry → ℕ
count_first i [] = 0
count_first i (e ∷ entries) = (if first_byte e.oid_bytes == i then 1 else 0) + count_first i entries

unfoldable pub count_below : ℕ → List ObjectEntry → ℕ
count_below i [] = 0
count_below i (e ∷ entries) =
    (if ltb (first_byte e.oid_bytes) i then 1 else 0) + count_below i entries

count_below-suc :
    (i : ℕ) (entries : List ObjectEntry)
    → count_below (suc i) entries ≡ count_below i entries + count_first i entries
unfolding count_below count_first
count_below-suc i [] = refl
count_below-suc i (e ∷ entries) = ground (arith, count_below-suc i entries)

abbrev pub HasName : ObjectEntry → Type 0
HasName e = length e.oid_bytes ≡ 20

count_bytes-cons :
    (e : ObjectEntry) (entries : List ObjectEntry) (fanout : List ℕ)
    → HasName e
    → count_bytes (e ∷ entries) fanout ≡ count_bytes entries (bump (first_byte e.oid_bytes) fanout)
unfolding count_bytes
count_bytes-cons e entries fanout named = go e.oid_bytes refl
  where
    go :
        (name : List ℕ)
        → e.oid_bytes ≡ name
        → count_bytes (e ∷ entries) fanout
          ≡ count_bytes entries (bump (first_byte e.oid_bytes) fanout)
    go [] h = absurd (omega (arith, ap length h))
    go (byte ∷ name) h = rw (count_bytes, h) refl

count_bytes-tabulate :
    (entries : List ObjectEntry) (f : ℕ → ℕ)
    → All HasName entries
    → count_bytes entries (tabulate 0 256 (λ i. as_u32 (f i)))
      ≡ ok (tabulate 0 256 (λ i. as_u32 (f i + count_first i entries)))
unfolding count_bytes count_first
count_bytes-tabulate [] f named =
    ap {A = List ℕ} {B = Result WriteError (List ℕ)} (λ t. ok t)
      (tabulate-ext 0 256 _ _ (λ i le. ap as_u32 (let e : f i ≡ f i + 0 = omega arith in e)))
count_bytes-tabulate (e ∷ entries) f (h, named) =
    let first = first_byte e.oid_bytes in
    let one : ℕ → ℕ = λ i. if first == i then 1 else 0 in
    count_bytes-cons e entries _ h
    ∙ ap (count_bytes entries) (
        bump-tabulate first 0 256 (λ i. as_u32 (f i))
        ∙ tabulate-ext 0 256 _ (λ i. as_u32 (f i + one i)) (λ i le. ground arith))
    ∙ count_bytes-tabulate entries (λ i. f i + one i) named
    ∙ ap {A = List ℕ} {B = Result WriteError (List ℕ)} (λ t. ok t)
        (tabulate-ext 0 256 _ _ (λ i le. ap as_u32 (
          let e : f i + one i + count_first i entries ≡ f i + (one i + count_first i entries) =
            omega arith in
          e)))

cumulate-tabulate :
    (k n : ℕ) (entries : List ObjectEntry)
    → cumulate (as_u32 (count_below k entries)) (tabulate k n (λ i. as_u32 (count_first i entries)))
      ≡ tabulate k n (λ i. as_u32 (count_below (suc i) entries))
unfolding cumulate tabulate
cumulate-tabulate k zero entries = refl
cumulate-tabulate k (suc n) entries =
    let head : as_u32 (as_u32 (count_below k entries) + as_u32 (count_first k entries))
        ≡ as_u32 (count_below (suc k) entries) =
      omega (arith, count_below-suc k entries) in
    rw head (ap (◌∷◌ (as_u32 (count_below (suc k) entries))) (cumulate-tabulate (suc k) n entries))

pub count_below_zero : (entries : List ObjectEntry) → count_below 0 entries ≡ 0
unfolding count_below
count_below_zero [] = refl
count_below_zero (e ∷ entries) = ground (arith, count_below_zero entries)

-- The table of the index, for the entries of any order.
pub cumulate-count_bytes :
    (entries : List ObjectEntry)
    → All HasName entries
    → (counts : List ℕ) × (count_bytes entries (replicate 256 0) ≡ ok counts)
      × (cumulate 0 counts ≡ tabulate 0 256 (λ i. as_u32 (count_below (suc i) entries)))
unfolding tabulate
cumulate-count_bytes entries named = (
  tabulate 0 256 (λ i. as_u32 (0 + count_first i entries)),
  count_bytes-tabulate entries (λ i. 0) named,
  ap (cumulate 0) (
        tabulate-ext 0 256 _ _ (λ i le.
          ap as_u32 (let e : 0 + count_first i entries ≡ count_first i entries = omega arith in e)))
      ∙ ap (λ (c : ℕ). cumulate (as_u32 c) (tabulate 0 256 (λ i. as_u32 (count_first i entries))))
          (sym (count_below_zero entries))
      ∙ cumulate-tabulate 0 256 entries,
)
