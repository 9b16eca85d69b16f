-- ===== src/Git/Idx/Places.antt =====
-- The place of a name among sorted entries, and in the part that its first byte selects.
use git_nfs.Prelude.{
  subst, ℕ, zero, suc, ◌+◌, ◌-◌, ◌≤◌, ◌<◌, ◌≡◌, refl, ap, sym, ◌∙◌, List, [], ◌∷◌, length,
  get_elem?, map, take, drop, All, some, arith, get_elem?-take, get_elem?-drop, length-take,
  length-drop,
}
use git_nfs.Git.Builder.{Ordering, less, greater, compare}
use git_nfs.Git.Builder.Compare.{compare_flip, compare_self}
use git_nfs.Git.Idx.{first_byte}
use git_nfs.Git.PackWriter.{ObjectEntry}
use git_nfs.Git.Idx.Search.{PointsTo}
use git_nfs.Git.Idx.Fanout.{count_below, HasName}
use git_nfs.Git.Idx.Sorted.{Less, Increasing, All-get_elem?}

abbrev pub names : List ObjectEntry → List (List ℕ)
names = map (λ (e : ObjectEntry). e.oid_bytes)

pub get_elem?-names :
    (entries : List ObjectEntry) (i : ℕ) (e : ObjectEntry)
    → get_elem? entries i ≡ some e
    → get_elem? (names entries) i ≡ some e.oid_bytes
get_elem?-names [] i e h = absurd (cc h)
get_elem?-names (a ∷ entries) zero e h =
    let same : a ≡ e = cc h in ap (λ (x : ObjectEntry). some x.oid_bytes) same
get_elem?-names (a ∷ entries) (suc i) e h = get_elem?-names entries i e h

pub names-get_elem? :
    (entries : List ObjectEntry) (i : ℕ) (name : List ℕ)
    → get_elem? (names entries) i ≡ some name
    → (e : ObjectEntry) × (get_elem? entries i ≡ some e) × (e.oid_bytes ≡ name)
names-get_elem? [] i name h = absurd (cc h)
names-get_elem? (a ∷ entries) zero name h = (a, refl, cc h)
names-get_elem? (a ∷ entries) (suc i) name h = names-get_elem? entries i name h

Less-later :
    (a : ObjectEntry) (entries : List ObjectEntry) (i : ℕ) (x : List ℕ)
    → All (λ (b : ObjectEntry). Less a.oid_bytes b.oid_bytes) entries
    → get_elem? (names entries) i ≡ some x
    → Less a.oid_bytes x
Less-later a entries i x h k =
    let (e, there, same) = names-get_elem? entries i x k in
    subst (Less a.oid_bytes) same
      (All-get_elem? (λ b. Less a.oid_bytes b.oid_bytes) entries i e h there)

-- In the order of names the names before an entry are less and those behind it greater.
pub names-PointsTo :
    (entries : List ObjectEntry) (j : ℕ) (e : ObjectEntry)
    → Increasing entries
    → get_elem? entries j ≡ some e
    → PointsTo (λ s. compare s e.oid_bytes) (names entries) j
names-PointsTo [] j e sorted h = absurd (cc h)
names-PointsTo (a ∷ entries) zero e (lesser, sorted) h =
    let same : a.oid_bytes ≡ e.oid_bytes =
      ap {A = ObjectEntry} {B = List ℕ} (λ x. x.oid_bytes) (let s : a ≡ e = cc h in s) in
    record {
      at = λ x k. let y : x ≡ e.oid_bytes = cc (k, same) in rw y (compare_self e.oid_bytes);
      before = λ i x lt k. absurd (omega arith);
      behind = λ i x lt k. later same i x lt k;
      within = omega arith;
    }
  where
    later :
        a.oid_bytes ≡ e.oid_bytes
        → (i : ℕ) (x : List ℕ) → 0 < i
        → get_elem? (names (a ∷ entries)) i ≡ some x
        → compare x e.oid_bytes ≡ greater
    later same zero x lt k = absurd (omega arith)
    later same (suc i) x lt k =
        subst (λ s. compare x s ≡ greater) same
          (compare_flip a.oid_bytes x (Less-later a entries i x lesser k))
names-PointsTo (a ∷ entries) (suc j) e (lesser, sorted) h = go (names-PointsTo entries j e sorted h)
  where
    sooner :
        PointsTo (λ s. compare s e.oid_bytes) (names entries) j
        → (i : ℕ) (x : List ℕ) → i < suc j
        → get_elem? (names (a ∷ entries)) i ≡ some x
        → compare x e.oid_bytes ≡ less
    sooner p zero x lt k =
        let same : a.oid_bytes ≡ x = cc k in
        subst (λ s. Less s e.oid_bytes) same
          (Less-later a entries j e.oid_bytes lesser (get_elem?-names entries j e h))
    sooner p (suc i) x lt k = p.before i x (omega arith) k

    later :
        PointsTo (λ s. compare s e.oid_bytes) (names entries) j
        → (i : ℕ) (x : List ℕ) → suc j < i
        → get_elem? (names (a ∷ entries)) i ≡ some x
        → compare x e.oid_bytes ≡ greater
    later p zero x lt k = absurd (omega arith)
    later p (suc i) x lt k = p.behind i x (omega arith) k

    go :
        PointsTo (λ s. compare s e.oid_bytes) (names entries) j
        → PointsTo (λ s. compare s e.oid_bytes) (names (a ∷ entries)) (suc j)
    go p = record {
      at = p.at;
      before = sooner p;
      behind = later p;
      within = let w = p.within in omega arith;
    }

module _ {A : Type 0} (f : A → Ordering) (l : List A) (j low high : ℕ) where
  pub get_elem?-slice :
      (i : ℕ) (x : A)
      → get_elem? (take (high - low) (drop low l)) i ≡ some x
      → get_elem? l (low + i) ≡ some x
  get_elem?-slice i x h =
      ground (arith, get_elem?-take (high - low) (drop low l) i, get_elem?-drop low l i)

  -- A part of the list that holds the place still points to it.
  pub slice-PointsTo :
      low ≤ j
      → j < high
      → high ≤ length l
      → PointsTo f l j
      → PointsTo f (take (high - low) (drop low l)) (j - low)
  slice-PointsTo from to fits p = record {
    at = λ x k.
        let e : low + (j - low) ≡ j = omega arith in
        p.at x (ap (get_elem? l) (sym e) ∙ get_elem?-slice (j - low) x k);
    before = λ i x lt k. p.before (low + i) x (omega arith) (get_elem?-slice i x k);
    behind = λ i x lt k. p.behind (low + i) x (omega arith) (get_elem?-slice i x k);
    within = omega (arith, length-take (high - low) (drop low l), length-drop low l);
  }

-- A smaller name has no larger first byte.
first_byte-Less : (s t : List ℕ) → Less s t → length s ≡ 20 → first_byte s ≤ first_byte t
unfolding compare
first_byte-Less [] t h e = absurd (omega arith)
first_byte-Less (a ∷ s) [] h e = absurd (cc h)
first_byte-Less (a ∷ s) (b ∷ t) h e = ground arith

abbrev FirstAtLeast : ℕ → ObjectEntry → Type 0
FirstAtLeast i e = i ≤ first_byte e.oid_bytes

-- Of entries that all start with `i` or more, none is below.
count_below-none :
    (i : ℕ) (entries : List ObjectEntry) → All (FirstAtLeast i) entries → count_below i entries ≡ 0
unfolding count_below
count_below-none i [] h = refl
count_below-none i (e ∷ entries) (h, hs) = ground (arith, count_below-none i entries hs)

FirstAtLeast-later :
    (i : ℕ) (a : ObjectEntry) (entries : List ObjectEntry)
    → HasName a
    → i ≤ first_byte a.oid_bytes
    → All (λ (b : ObjectEntry). Less a.oid_bytes b.oid_bytes) entries
    → All (FirstAtLeast i) entries
FirstAtLeast-later i a [] named h hs = tt
FirstAtLeast-later i a (b ∷ entries) named h (k, ks) = (
  let m = first_byte-Less a.oid_bytes b.oid_bytes k named in omega arith,
  FirstAtLeast-later i a entries named h ks,
)

-- An entry stands behind all those with a smaller first byte.
pub count_below-le :
    (i : ℕ) (entries : List ObjectEntry) (j : ℕ) (e : ObjectEntry)
    → Increasing entries
    → All HasName entries
    → get_elem? entries j ≡ some e
    → i ≤ first_byte e.oid_bytes
    → count_below i entries ≤ j
unfolding count_below
count_below-le i [] j e sorted named h le = absurd (cc h)
count_below-le i (a ∷ entries) zero e (lesser, sorted) (n, named) h le =
    let same : a ≡ e = cc h in
    let le' : i ≤ first_byte a.oid_bytes = subst (FirstAtLeast i) (sym same) le in
    ground (arith, count_below-none i entries (FirstAtLeast-later i a entries n le' lesser))
count_below-le i (a ∷ entries) (suc j) e (lesser, sorted) (n, named) h le =
    ground (arith, count_below-le i entries j e sorted named h le)

-- An entry stands in front of all those with a larger first byte.
pub lt-count_below :
    (i : ℕ) (entries : List ObjectEntry) (j : ℕ) (e : ObjectEntry)
    → Increasing entries
    → All HasName entries
    → get_elem? entries j ≡ some e
    → first_byte e.oid_bytes < i
    → j < count_below i entries
unfolding count_below
lt-count_below i [] j e sorted named h lt = absurd (cc h)
lt-count_below i (a ∷ entries) zero e (lesser, sorted) (n, named) h lt =
    let same : a ≡ e = cc h in
    let lt' : first_byte a.oid_bytes < i =
      subst (λ (x : ObjectEntry). first_byte x.oid_bytes < i) (sym same) lt in
    ground arith
lt-count_below i (a ∷ entries) (suc j) e (lesser, sorted) (n, named) h lt =
    let less_than : Less a.oid_bytes e.oid_bytes =
      Less-later a entries j e.oid_bytes lesser (get_elem?-names entries j e h) in
    let first = first_byte-Less a.oid_bytes e.oid_bytes less_than n in
    ground (arith, lt-count_below i entries j e sorted named h lt)

pub count_below_le_length :
    (i : ℕ) (entries : List ObjectEntry) → count_below i entries ≤ length entries
unfolding count_below
count_below_le_length i [] = omega arith
count_below_le_length i (e ∷ entries) = ground (arith, count_below_le_length i entries)

pub count_below_every :
    (entries : List ObjectEntry)
    → All (λ (e : ObjectEntry). first_byte e.oid_bytes < 256) entries
    → count_below 256 entries ≡ length entries
unfolding count_below
count_below_every [] h = refl
count_below_every (e ∷ entries) (h, hs) = ground (arith, count_below_every entries hs)
