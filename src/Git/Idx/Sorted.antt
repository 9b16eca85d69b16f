-- ===== src/Git/Idx/Sorted.antt =====
-- The entries of an index in the order of their names, and where those of one first byte stand.
use git_nfs.Prelude.{
  subst, ℕ, zero, suc, ◌≡◌, ◌≢◌, refl, ap, ◌∙◌, List, [], ◌∷◌, length, get_elem?, All, some,
}
use git_nfs.Git.Builder.{Ordering, less, equal, greater, compare}
use git_nfs.Git.Builder.Compare.{compare-total, compare_trans, compare-equal}
use git_nfs.Git.PackWriter.{ObjectEntry, insert_entry, sort_entries}

abbrev pub Less : List ℕ → List ℕ → Type 0
Less s t = compare s t ≡ less

abbrev pub Increasing : List ObjectEntry → Type 0
Increasing [] = Unit
Increasing (a ∷ entries) = All (λ b. Less a.oid_bytes b.oid_bytes) entries × Increasing entries

-- No two entries have the same name.
abbrev pub Distinct : List ObjectEntry → Type 0
Distinct [] = Unit
Distinct (a ∷ entries) = All (λ b. a.oid_bytes ≢ b.oid_bytes) entries × Distinct entries

pub All-insert_entry :
    (P : ObjectEntry → Type 0) (a : ObjectEntry) (entries : List ObjectEntry)
    → P a
    → All P entries
    → All P (insert_entry a entries)
unfolding insert_entry
All-insert_entry P a [] p h = (p, tt)
All-insert_entry P a (b ∷ entries) p (h, hs) =
    go (compare a.oid_bytes b.oid_bytes) refl (All-insert_entry P a entries p hs)
  where
    go :
        (o : Ordering)
        → compare a.oid_bytes b.oid_bytes ≡ o
        → All P (insert_entry a entries)
        → All P (insert_entry a (b ∷ entries))
    go less e ih = rw (insert_entry, e) (p, (h, hs))
    go equal e ih = rw (insert_entry, e) (p, (h, hs))
    go greater e ih = rw (insert_entry, e) (h, ih)

pub All-sort_entries :
    (P : ObjectEntry → Type 0) (entries : List ObjectEntry)
    → All P entries
    → All P (sort_entries entries)
unfolding sort_entries
All-sort_entries P [] h = tt
All-sort_entries P (a ∷ entries) (h, hs) =
    All-insert_entry P a (sort_entries entries) h (All-sort_entries P entries hs)

Less-trans_below :
    (a b : ObjectEntry) (entries : List ObjectEntry)
    → Less a.oid_bytes b.oid_bytes
    → All (λ (c : ObjectEntry). Less b.oid_bytes c.oid_bytes) entries
    → All (λ (c : ObjectEntry). Less a.oid_bytes c.oid_bytes) entries
Less-trans_below a b [] h hs = tt
Less-trans_below a b (c ∷ entries) h (k, ks) =
    (compare_trans a.oid_bytes b.oid_bytes c.oid_bytes h k, Less-trans_below a b entries h ks)

insert_entry-Increasing :
    (a : ObjectEntry) (entries : List ObjectEntry)
    → All (λ (b : ObjectEntry). a.oid_bytes ≢ b.oid_bytes) entries
    → Increasing entries
    → Increasing (insert_entry a entries)
unfolding insert_entry
insert_entry-Increasing a [] new sorted = (tt, tt)
insert_entry-Increasing a (b ∷ entries) (n, new) (h, sorted) =
    go (compare a.oid_bytes b.oid_bytes) refl (insert_entry-Increasing a entries new sorted)
  where
    go :
        (o : Ordering)
        → compare a.oid_bytes b.oid_bytes ≡ o
        → Increasing (insert_entry a entries)
        → Increasing (insert_entry a (b ∷ entries))
    go less e ih = rw (insert_entry, e) ((e, Less-trans_below a b entries e h), (h, sorted))
    go equal e ih = absurd (n (compare-equal a.oid_bytes b.oid_bytes e))
    go greater e ih =
        rw (insert_entry, e)
          (
            All-insert_entry (λ c. Less b.oid_bytes c.oid_bytes) a entries
                (compare-total a.oid_bytes b.oid_bytes e) h,
            ih,
          )

pub sort_entries-Increasing :
    (entries : List ObjectEntry) → Distinct entries → Increasing (sort_entries entries)
unfolding sort_entries
sort_entries-Increasing [] d = tt
sort_entries-Increasing (a ∷ entries) (n, d) =
    insert_entry-Increasing a (sort_entries entries)
      (All-sort_entries (λ b. a.oid_bytes ≢ b.oid_bytes) entries n)
      (sort_entries-Increasing entries d)

pub length-insert_entry :
    (a : ObjectEntry) (entries : List ObjectEntry)
    → length (insert_entry a entries) ≡ suc (length entries)
unfolding insert_entry
length-insert_entry a [] = refl
length-insert_entry a (b ∷ entries) =
    go (compare a.oid_bytes b.oid_bytes) refl (length-insert_entry a entries)
  where
    go :
        (o : Ordering)
        → compare a.oid_bytes b.oid_bytes ≡ o
        → length (insert_entry a entries) ≡ suc (length entries)
        → length (insert_entry a (b ∷ entries)) ≡ suc (suc (length entries))
    go less e ih = rw (insert_entry, e) refl
    go equal e ih = rw (insert_entry, e) refl
    go greater e ih = rw (insert_entry, e) (ap suc ih)

pub length-sort_entries :
    (entries : List ObjectEntry) → length (sort_entries entries) ≡ length entries
unfolding sort_entries
length-sort_entries [] = refl
length-sort_entries (a ∷ entries) =
    length-insert_entry a (sort_entries entries) ∙ ap suc (length-sort_entries entries)

-- Where an entry stands after sorting.
insert_entry_moves :
    (a e : ObjectEntry) (entries : List ObjectEntry) (i : ℕ)
    → get_elem? (a ∷ entries) i ≡ some e
    → (j : ℕ) × (get_elem? (insert_entry a entries) j ≡ some e)
unfolding insert_entry
insert_entry_moves a e [] i h = (i, h)
insert_entry_moves a e (b ∷ entries) i h =
    go (compare a.oid_bytes b.oid_bytes) refl (insert_entry_moves a e entries) i h
  where
    behind :
        compare a.oid_bytes b.oid_bytes ≡ greater
        → (j : ℕ) × (get_elem? (insert_entry a entries) j ≡ some e)
        → (j : ℕ) × (get_elem? (insert_entry a (b ∷ entries)) j ≡ some e)
    behind o (j, k) = (suc j, rw (insert_entry, o) k)

    go :
        (o : Ordering)
        → compare a.oid_bytes b.oid_bytes ≡ o
        → ((i : ℕ)
            → get_elem? (a ∷ entries) i ≡ some e
            → (j : ℕ) × (get_elem? (insert_entry a entries) j ≡ some e))
        → (i : ℕ) → get_elem? (a ∷ b ∷ entries) i ≡ some e
        → (j : ℕ) × (get_elem? (insert_entry a (b ∷ entries)) j ≡ some e)
    go less o ih i h = (i, rw (insert_entry, o) h)
    go equal o ih i h = (i, rw (insert_entry, o) h)
    go greater o ih zero h = behind o (ih zero h)
    go greater o ih (suc zero) h = (0, rw (insert_entry, o) h)
    go greater o ih (suc (suc i)) h = behind o (ih (suc i) h)

pub sort_entries_moves :
    (e : ObjectEntry) (entries : List ObjectEntry) (i : ℕ)
    → get_elem? entries i ≡ some e
    → (j : ℕ) × (get_elem? (sort_entries entries) j ≡ some e)
unfolding sort_entries
sort_entries_moves e [] i h = (i, h)
sort_entries_moves e (a ∷ entries) zero h = insert_entry_moves a e (sort_entries entries) zero h
sort_entries_moves e (a ∷ entries) (suc i) h =
    let (j, k) = sort_entries_moves e entries i h in
    insert_entry_moves a e (sort_entries entries) (suc j) k

-- An element of a list has what all elements have.
pub All-get_elem? :
    (P : ObjectEntry → Type 0) (entries : List ObjectEntry) (i : ℕ) (e : ObjectEntry)
    → All P entries
    → get_elem? entries i ≡ some e
    → P e
All-get_elem? P [] i e h k = absurd (cc k)
All-get_elem? P (a ∷ entries) zero e (h, hs) k = let same : a ≡ e = cc k in subst P same h
All-get_elem? P (a ∷ entries) (suc i) e (h, hs) k = All-get_elem? P entries i e hs k

abbrev StandsIn : List ObjectEntry → ObjectEntry → Type 0
StandsIn entries e = (i : ℕ) × (get_elem? entries i ≡ some e)

StandsIn-cons :
    (a : ObjectEntry) (entries es : List ObjectEntry)
    → All (StandsIn entries) es
    → All (StandsIn (a ∷ entries)) es
StandsIn-cons a entries [] h = tt
StandsIn-cons a entries (e ∷ es) ((i, h), hs) = ((suc i, h), StandsIn-cons a entries es hs)

All-StandsIn : (entries : List ObjectEntry) → All (StandsIn entries) entries
All-StandsIn [] = tt
All-StandsIn (a ∷ entries) = ((0, refl), StandsIn-cons a entries entries (All-StandsIn entries))

-- Sorting makes up no entry.
pub sort_entries_old :
    (e : ObjectEntry) (entries : List ObjectEntry) (j : ℕ)
    → get_elem? (sort_entries entries) j ≡ some e
    → (i : ℕ) × (get_elem? entries i ≡ some e)
sort_entries_old e entries j h =
    All-get_elem? (StandsIn entries) (sort_entries entries) j e
      (All-sort_entries (StandsIn entries) entries (All-StandsIn entries)) h
