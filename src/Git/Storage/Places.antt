-- ===== src/Git/Storage/Places.antt =====
-- Where the objects of a written pack stand.
use git_nfs.Prelude.{
  subst, ℕ, zero, suc, ◌+◌, ◌≤◌, ◌<◌, ◌≡◌, ◌≢◌, refl, ap, sym, ◌∙◌, List, [], ◌∷◌, ◌++◌, length,
  get_elem?, All, some, arith, inl, inr, ok, Option-cases, append_assoc, append-nil, length-append,
}
use git_nfs.Git.Tree.{Hex}
use git_nfs.Git.Builder.{GitObjectToPack, Ordering, less, equal, greater, compare}
use git_nfs.Git.Pack.{Zlib}
use git_nfs.Git.PackWriter.{
  ObjectEntry, packed_object, entry_header, write_objects, insert_entry, sort_entries,
}
use git_nfs.Git.PackWriter.RoundTrip.{packed_all}
use git_nfs.Git.Idx.Tables.{pack_offsets}
use git_nfs.Git.Idx.Sorted.{All-insert_entry, All-sort_entries, sort_entries_moves}
use git_nfs.Git.Idx.Room.{Different, Has}

-- The offsets are different in whatever order the entries stand.
All-pack_offsets :
    (P : ℕ → Type 0) (entries : List ObjectEntry)
    → All (λ e. P e.pack_offset) entries
    → All P (pack_offsets entries)
All-pack_offsets P [] h = tt
All-pack_offsets P (e ∷ entries) (h, hs) = (h, All-pack_offsets P entries hs)

pack_offsets-All :
    (P : ℕ → Type 0) (entries : List ObjectEntry)
    → All P (pack_offsets entries)
    → All (λ e. P e.pack_offset) entries
pack_offsets-All P [] h = tt
pack_offsets-All P (e ∷ entries) (h, hs) = (h, pack_offsets-All P entries hs)

pub sort_entries-All_offsets :
    (P : ℕ → Type 0) (entries : List ObjectEntry)
    → All P (pack_offsets entries)
    → All P (pack_offsets (sort_entries entries))
sort_entries-All_offsets P entries h =
    All-pack_offsets P (sort_entries entries)
      (All-sort_entries (λ e. P e.pack_offset) entries (pack_offsets-All P entries h))

insert_entry-Different :
    (a : ObjectEntry) (entries : List ObjectEntry)
    → All (λ x. a.pack_offset ≢ x) (pack_offsets entries)
    → Different (pack_offsets entries)
    → Different (pack_offsets (insert_entry a entries))
unfolding insert_entry
insert_entry-Different a [] new d = (tt, tt)
insert_entry-Different a (b ∷ entries) (n, new) (h, d) =
    go (compare a.oid_bytes b.oid_bytes) refl (insert_entry-Different a entries new d)
  where
    go :
        (o : Ordering)
        → compare a.oid_bytes b.oid_bytes ≡ o
        → Different (pack_offsets (insert_entry a entries))
        → Different (pack_offsets (insert_entry a (b ∷ entries)))
    go less e ih = rw (insert_entry, e) ((n, new), (h, d))
    go equal e ih = rw (insert_entry, e) ((n, new), (h, d))
    go greater e ih =
        rw (insert_entry, e)
          (
            All-pack_offsets (λ x. b.pack_offset ≢ x) (insert_entry a entries)
                (All-insert_entry (λ c. b.pack_offset ≢ c.pack_offset) a entries (λ s. n (sym s))
                  (pack_offsets-All (λ x. b.pack_offset ≢ x) entries h)),
            ih,
          )

pub sort_entries-Different :
    (entries : List ObjectEntry)
    → Different (pack_offsets entries)
    → Different (pack_offsets (sort_entries entries))
unfolding sort_entries
sort_entries-Different [] d = tt
sort_entries-Different (a ∷ entries) (n, d) =
    insert_entry-Different a (sort_entries entries)
      (sort_entries-All_offsets (λ x. a.pack_offset ≢ x) entries n)
      (sort_entries-Different entries d)

pub Has-get_elem?_offset :
    (entries : List ObjectEntry) (i : ℕ) (e : ObjectEntry)
    → get_elem? entries i ≡ some e
    → Has e.pack_offset (pack_offsets entries)
Has-get_elem?_offset [] i e h = absurd (cc h)
Has-get_elem?_offset (a ∷ entries) zero e h =
    let same : a ≡ e = cc h in inl (ap {A = ObjectEntry} {B = ℕ} (λ x. x.pack_offset) same)
Has-get_elem?_offset (a ∷ entries) (suc i) e h = inr (Has-get_elem?_offset entries i e h)

Has-index :
    (x : ℕ) (entries : List ObjectEntry)
    → Has x (pack_offsets entries)
    → (i : ℕ) × (e : ObjectEntry) × (get_elem? entries i ≡ some e) × (e.pack_offset ≡ x)
Has-index x [] h = absurd h
Has-index x (a ∷ entries) (inl same) = (0, a, refl, same)
Has-index x (a ∷ entries) (inr h) =
    let (i, e, there, same) = Has-index x entries h in (suc i, e, there, same)

pub sort_entries-Has :
    (x : ℕ) (entries : List ObjectEntry)
    → Has x (pack_offsets entries)
    → Has x (pack_offsets (sort_entries entries))
sort_entries-Has x entries h =
    let (i, e, there, same) = Has-index x entries h in
    let (j, moved) = sort_entries_moves e entries i there in
    subst (λ y. Has y (pack_offsets (sort_entries entries))) same
      (Has-get_elem?_offset (sort_entries entries) j e moved)

module _ (zlib : Zlib) (hex : Hex) (sha1 : List ℕ → List ℕ) (crc : List ℕ → ℕ) where
  -- The entries of objects that stand one behind the other from the offset `n` on.
  abbrev pub Places : ℕ → List GitObjectToPack → List ObjectEntry → Type 0
  Places n [] [] = Unit
  Places n (o ∷ objects) (e ∷ entries) =
      (hex.decode o.oid ≡ some e.oid_bytes)
      × (e.pack_offset ≡ n)
      × Places (n + length (packed_object zlib hex sha1 crc o)) objects entries
  Places n [] (e ∷ entries) = ⊥
  Places n (o ∷ objects) [] = ⊥

  pub write_objects-Places :
      (objects : List GitObjectToPack) (pack pack' : List ℕ) (entries entries' : List ObjectEntry)
      → write_objects zlib hex sha1 crc objects pack entries ≡ ok (pack', entries')
      → (es : List ObjectEntry) × (entries' ≡ entries ++ es) × Places (length pack) objects es
  unfolding write_objects
  write_objects-Places [] pack pack' entries entries' h = ([], cc (h, append-nil entries), tt)
  write_objects-Places (o ∷ objects) pack pack' entries entries' h =
      elim (Option-cases (hex.decode o.oid)) [
        | inl e ↦ absurd (cc (rw (write_objects, e) at h))
        | inr (sha, e) ↦
            let entry : ObjectEntry = record {
              oid_bytes = sha;
              pack_offset = length pack;
              crc32 = crc (packed_object zlib hex sha1 crc o);
            } in
            let (es, same, places) =
              write_objects-Places objects (pack ++ packed_object zlib hex sha1 crc o) pack'
                (entries ++ entry ∷ []) entries' (rw (write_objects, e) at h) in
            (
              entry ∷ es,
              same ∙ append_assoc entries (entry ∷ []) es,
              (
                e,
                refl,
                subst (λ n. Places n objects es)
                    (length-append pack (packed_object zlib hex sha1 crc o)) places,
              ),
            )
      ]

  packed_object_pos : (o : GitObjectToPack) → 0 < length (packed_object zlib hex sha1 crc o)
  unfolding packed_object entry_header
  packed_object_pos o = omega arith

  -- What comes later stands further behind.
  Places-le :
      (n m : ℕ) (objects : List GitObjectToPack) (entries : List ObjectEntry)
      → m ≤ n
      → Places n objects entries
      → All (λ x. m ≤ x) (pack_offsets entries)
  Places-le n m [] [] h p = tt
  Places-le n m [] (e ∷ entries) h p = absurd p
  Places-le n m (o ∷ objects) [] h p = absurd p
  Places-le n m (o ∷ objects) (e ∷ entries) h (d, at, p) = (
    omega arith,
    Places-le (n + length (packed_object zlib hex sha1 crc o)) m objects entries (omega arith) p,
  )

  All-weaken : (P Q : ℕ → Type 0) (l : List ℕ) → ((x : ℕ) → P x → Q x) → All P l → All Q l
  All-weaken P Q [] f h = tt
  All-weaken P Q (x ∷ l) f (h, hs) = (f x h, All-weaken P Q l f hs)

  pub Places-Different :
      (n : ℕ) (objects : List GitObjectToPack) (entries : List ObjectEntry)
      → Places n objects entries
      → Different (pack_offsets entries)
  Places-Different n [] [] p = tt
  Places-Different n [] (e ∷ entries) p = absurd p
  Places-Different n (o ∷ objects) [] p = absurd p
  Places-Different n (o ∷ objects) (e ∷ entries) (d, at, p) =
      let m = n + length (packed_object zlib hex sha1 crc o) in
      let pos = packed_object_pos o in
      (
        All-weaken (λ x. m ≤ x) (λ x. e.pack_offset ≢ x) (pack_offsets entries)
            (λ x le same. absurd (omega arith)) (Places-le m m objects entries (omega arith) p),
        Places-Different m objects entries p,
      )

  -- Where an object stands, and what is known of the other ones.
  pub record Stands (n i : ℕ) (o : GitObjectToPack) (objects : List GitObjectToPack)
      (entries : List ObjectEntry) : Type 0 where
    pub entry : ObjectEntry
    pub before : List ℕ
    pub behind : List ℕ
    pub there : get_elem? entries i ≡ some entry
    pub decoded : hex.decode o.oid ≡ some entry.oid_bytes
    pub parts :
        packed_all zlib hex sha1 crc objects
        ≡ before ++ (packed_object zlib hex sha1 crc o ++ behind)
    pub offset : entry.pack_offset ≡ n + length before
    pub gap :
        All
          (λ x.
            entry.pack_offset < x
            → entry.pack_offset + length (packed_object zlib hex sha1 crc o) ≤ x)
          (pack_offsets entries)
    pub next :
        suc i < length objects → (x : ℕ) × Has x (pack_offsets entries) × (entry.pack_offset < x)

  pub Places-Stands :
      (n i : ℕ) (o : GitObjectToPack) (objects : List GitObjectToPack) (entries : List ObjectEntry)
      → Places n objects entries
      → get_elem? objects i ≡ some o
      → Stands n i o objects entries
  unfolding packed_all
  Places-Stands n i o [] entries p h = absurd (cc h)
  Places-Stands n i o (a ∷ objects) [] p h = absurd p
  Places-Stands n zero o (a ∷ objects) (e ∷ entries) (d, at, p) h =
      let same : a ≡ o = cc h in
      let m = n + length (packed_object zlib hex sha1 crc a) in
      subst (λ b. Stands n zero b (a ∷ objects) (e ∷ entries)) same
        (record {
          entry = e;
          before = [];
          behind = packed_all zlib hex sha1 crc objects;
          there = refl;
          decoded = d;
          parts = refl;
          offset = omega arith;
          gap = (
            λ lt. absurd (omega arith),
            All-weaken (λ x. m ≤ x)
                (λ x.
                  e.pack_offset < x
                  → e.pack_offset + length (packed_object zlib hex sha1 crc a) ≤ x)
                (pack_offsets entries) (λ x le lt. omega arith)
                (Places-le m m objects entries (omega arith) p),
          );
          next = λ more. following objects entries p more;
        })
    where
      following :
          (objects : List GitObjectToPack) (entries : List ObjectEntry)
          → Places (n + length (packed_object zlib hex sha1 crc a)) objects entries
          → 1 < suc (length objects)
          → (x : ℕ) × Has x (e.pack_offset ∷ pack_offsets entries) × (e.pack_offset < x)
      following [] entries p more = absurd (omega arith)
      following (b ∷ objects) [] p more = absurd p
      following (b ∷ objects) (f ∷ entries) (d', at', p') more =
          (f.pack_offset, inr (inl refl), let pos = packed_object_pos a in omega arith)
  Places-Stands n (suc i) o (a ∷ objects) (e ∷ entries) (d, at, p) h =
      let m = n + length (packed_object zlib hex sha1 crc a) in
      go (Places-Stands m i o objects entries p h)
    where
      go :
          Stands (n + length (packed_object zlib hex sha1 crc a)) i o objects entries
          → Stands n (suc i) o (a ∷ objects) (e ∷ entries)
      go s =
          let place = s.offset in
          record {
            entry = s.entry;
            before = packed_object zlib hex sha1 crc a ++ s.before;
            behind = s.behind;
            there = s.there;
            decoded = s.decoded;
            parts =
                ap (λ b. packed_object zlib hex sha1 crc a ++ b) s.parts
                ∙ sym (append_assoc (packed_object zlib hex sha1 crc a) s.before _);
            offset = omega (arith, length-append (packed_object zlib hex sha1 crc a) s.before);
            gap = (λ lt. absurd (omega arith), s.gap);
            next = λ more. let (x, has, lt) = s.next (omega arith) in (x, inr has, lt);
          }
