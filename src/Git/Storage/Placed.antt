-- ===== src/Git/Storage/Placed.antt =====
-- src/git/pack_writer.rs and src/git/idx.rs: an object has its place in the pack, and the index written with it names the place.
use git_nfs.Prelude.{
  subst, ℕ, suc, ◌+◌, ◌*◌, ◌≤◌, ◌<◌, ◌≡◌, ◌≢◌, refl, ap, sym, ◌∙◌, List, [], ◌∷◌, ◌++◌, length,
  get_elem?, All, some, none, Option, arith, inl, inr, ◌⊎◌, Result, ok, Result-cases, Option-cases,
  append_assoc, length-append,
}
use git_nfs.Bytes.{u32_mod}
use git_nfs.Git.Tree.{Hex}
use git_nfs.Git.Builder.{GitObjectToPack}
use git_nfs.Git.Pack.{Zlib}
use git_nfs.Git.PackWriter.{
  ObjectEntry, WriteError, packed_object, pack_header, write_objects, sort_entries,
  create_pack_data, create_idx_v2_data, create_pack_and_index_bytes,
}
use git_nfs.Git.PackWriter.RoundTrip.{packed_all, write_objects-packed}
use git_nfs.Git.Idx.{PackIndex, IndexError, first_byte, object_len, find_offset, parse}
use git_nfs.Git.Idx.Tables.{IsSha, pack_offsets}
use git_nfs.Git.Idx.Sorted.{Distinct, sort_entries_moves, All-get_elem?}
use git_nfs.Git.Idx.Find.{IsEntry, index_of, parse-create_idx_v2_data, find_offset-parse}
use git_nfs.Git.Idx.Room.{Has, object_len-room}
use git_nfs.Git.Storage.{read_len, find_pack}
use git_nfs.Git.Storage.Places.{
  Places, Stands, write_objects-Places, Places-Different, Places-Stands, sort_entries-All_offsets,
  sort_entries-Different, sort_entries-Has, Has-get_elem?_offset,
}

-- An index that has the object is found behind those that do not have it.
pub find_pack-append :
    (older newer : List PackIndex) (idx : PackIndex) (sha : List ℕ) (offset len : ℕ)
    → find_pack older sha ≡ none
    → find_offset idx sha ≡ some (offset, len)
    → find_pack (older ++ idx ∷ newer) sha ≡ some (idx.pack_name, offset, len)
unfolding find_pack
find_pack-append [] newer idx sha offset len h found = rw (find_pack, found) refl
find_pack-append (a ∷ older) newer idx sha offset len h found =
    elim (Option-cases (find_offset a sha)) [
      | inl e ↦
          rw (find_pack, e)
            (find_pack-append older newer idx sha offset len (rw (find_pack, e) at h) found)
      | inr ((o, l), e) ↦ absurd (cc (rw (find_pack, e) at h))
    ]

module _ (zlib : Zlib) (hex : Hex) (sha1 : List ℕ → List ℕ) (crc : List ℕ → ℕ) where
  -- The parts that the pack and its index are made of.
  pub record WrittenParts (objects : List GitObjectToPack) (pack idx_bytes : List ℕ) : Type 0 where
    pub entries : List ObjectEntry
    pub pack_sha : List ℕ
    pub indexed : create_idx_v2_data zlib hex sha1 crc entries pack_sha ≡ ok idx_bytes
    pub places : Places zlib hex sha1 crc 12 objects entries
    pub bytes :
        pack ≡ pack_header (length objects) ++ (packed_all zlib hex sha1 crc objects ++ pack_sha)
    pub hashed : (b : List ℕ) × (pack_sha ≡ sha1 b)

  create_pack-WrittenParts :
      (objects : List GitObjectToPack) (pack idx_bytes name_hex : List ℕ)
      → create_pack_and_index_bytes zlib hex sha1 crc objects ≡ ok (pack, idx_bytes, name_hex)
      → WrittenParts objects pack idx_bytes
  unfolding create_pack_and_index_bytes create_pack_data
  create_pack-WrittenParts objects pack idx_bytes name_hex h =
      elim (Result-cases
        (write_objects zlib hex sha1 crc objects (pack_header (length objects)) [])) [
          | inr (e, failed) ↦
              absurd (cc (rw (create_pack_and_index_bytes, create_pack_data, failed) at h))
          | inl ((body, es), written) ↦
              elim (Result-cases (create_idx_v2_data zlib hex sha1 crc es (sha1 body))) [
                | inr (e, failed) ↦
                    absurd (
                      cc (rw (create_pack_and_index_bytes, create_pack_data, written, failed) at h))
                | inl (bytes, indexed) ↦
                    let answer =
                      rw (create_pack_and_index_bytes, create_pack_data, written, indexed) at h in
                    let same : bytes ≡ idx_bytes = cc answer in
                    let made : pack ≡ body ++ sha1 body = cc answer in
                    let (entries, all, places) =
                      write_objects-Places zlib hex sha1 crc objects (pack_header (length objects))
                        body [] es written in
                    record {
                      entries = es;
                      pack_sha = sha1 body;
                      indexed =
                          indexed
                          ∙ ap {A = List ℕ} {B = Result WriteError (List ℕ)} (λ b. ok b) same;
                      places = subst (Places zlib hex sha1 crc 12 objects) (sym all) places;
                      bytes =
                          made
                          ∙ ap (λ b. b ++ sha1 body)
                              (write_objects-packed zlib hex sha1 crc objects
                                (pack_header (length objects)) body [] es written)
                          ∙ append_assoc (pack_header (length objects))
                              (packed_all zlib hex sha1 crc objects) (sha1 body);
                      hashed = (body, refl);
                    }
              ]
        ]

  -- A name of 20 bytes.
  abbrev pub HasSha : GitObjectToPack → Type 0
  HasSha o = (sha : List ℕ) → hex.decode o.oid ≡ some sha → IsSha sha × (first_byte sha < 256)

  -- No two objects have the same name.
  abbrev pub DistinctNames : List GitObjectToPack → Type 0
  DistinctNames [] = Unit
  DistinctNames (o ∷ objects) =
      All (λ p. hex.decode o.oid ≢ hex.decode p.oid) objects × DistinctNames objects

  Places-IsEntry :
      (n : ℕ) (objects : List GitObjectToPack) (entries : List ObjectEntry)
      → Places zlib hex sha1 crc n objects entries
      → All HasSha objects
      → All IsEntry entries
  Places-IsEntry n [] [] p h = tt
  Places-IsEntry n [] (e ∷ entries) p h = absurd p
  Places-IsEntry n (o ∷ objects) [] p h = absurd p
  Places-IsEntry n (o ∷ objects) (e ∷ entries) (d, at, p) (h, hs) = (
    h e.oid_bytes d,
    Places-IsEntry (n + length (packed_object zlib hex sha1 crc o)) objects entries p hs,
  )

  Places-other :
      (n : ℕ) (name : List ℕ) (objects : List GitObjectToPack) (entries : List ObjectEntry)
      → Places zlib hex sha1 crc n objects entries
      → All (λ p. some name ≢ hex.decode p.oid) objects
      → All (λ (e : ObjectEntry). name ≢ e.oid_bytes) entries
  Places-other n name [] [] p h = tt
  Places-other n name [] (e ∷ entries) p h = absurd p
  Places-other n name (o ∷ objects) [] p h = absurd p
  Places-other n name (o ∷ objects) (e ∷ entries) (d, at, p) (h, hs) = (
    λ same. h (cc (same, d)),
    Places-other (n + length (packed_object zlib hex sha1 crc o)) name objects entries p hs,
  )

  Places-Distinct :
      (n : ℕ) (objects : List GitObjectToPack) (entries : List ObjectEntry)
      → Places zlib hex sha1 crc n objects entries
      → DistinctNames objects
      → Distinct entries
  Places-Distinct n [] [] p h = tt
  Places-Distinct n [] (e ∷ entries) p h = absurd p
  Places-Distinct n (o ∷ objects) [] p h = absurd p
  Places-Distinct n (o ∷ objects) (e ∷ entries) (d, at, p) (h, hs) = (
    Places-other (n + length (packed_object zlib hex sha1 crc o)) e.oid_bytes objects entries p
        (subst (λ s. All (λ q. s ≢ hex.decode q.oid) objects) d h),
    Places-Distinct (n + length (packed_object zlib hex sha1 crc o)) objects entries p hs,
  )

  Places-length :
      (n : ℕ) (objects : List GitObjectToPack) (entries : List ObjectEntry)
      → Places zlib hex sha1 crc n objects entries
      → length entries ≡ length objects
  Places-length n [] [] p = refl
  Places-length n [] (e ∷ entries) p = absurd p
  Places-length n (o ∷ objects) [] p = absurd p
  Places-length n (o ∷ objects) (e ∷ entries) (d, at, p) =
      ap suc (Places-length (n + length (packed_object zlib hex sha1 crc o)) objects entries p)

  -- An object's place in the pack and the answer of the index for it.
  pub record Placed (o : GitObjectToPack) (pack name : List ℕ) (index : PackIndex) : Type 0 where
    pub named : index.pack_name ≡ name
    pub sha : List ℕ
    pub before : List ℕ
    pub behind : List ℕ
    pub len : ℕ
    pub decoded : hex.decode o.oid ≡ some sha
    pub is_sha : IsSha sha
    pub parts : pack ≡ before ++ (packed_object zlib hex sha1 crc o ++ behind)
    pub found : find_offset index sha ≡ some (length before, len)
    pub fits : length (packed_object zlib hex sha1 crc o) ≤ read_len len

  pub written-Placed :
      (objects : List GitObjectToPack) (pack idx_bytes name_hex name : List ℕ) (i : ℕ)
      (o : GitObjectToPack)
      → create_pack_and_index_bytes zlib hex sha1 crc objects ≡ ok (pack, idx_bytes, name_hex)
      → get_elem? objects i ≡ some o
      → All HasSha objects
      → DistinctNames objects
      → length objects < u32_mod
      → ((content : List ℕ) → IsSha (sha1 content))
      → (length (packed_object zlib hex sha1 crc o) ≤ 64 * 1024) ⊎ (suc i < length objects)
      → (index : PackIndex) × (parse name idx_bytes ≡ ok index) × Placed o pack name index
  written-Placed objects pack idx_bytes name_hex name i o h at named distinct few digest room =
      go (create_pack-WrittenParts objects pack idx_bytes name_hex h)
    where
      more_room :
          (w : WrittenParts objects pack idx_bytes)
          (s : Stands zlib hex sha1 crc 12 i o objects w.entries)
          → (length (packed_object zlib hex sha1 crc o) ≤ 64 * 1024) ⊎ (suc i < length objects)
          → (length (packed_object zlib hex sha1 crc o) ≤ 64 * 1024)
            ⊎ ((x : ℕ) × Has x (pack_offsets (sort_entries w.entries)) × (s.entry.pack_offset < x))
      more_room w s (inl small) = inl small
      more_room w s (inr more) =
          let (x, has, lt) = s.next more in inr (x, sort_entries-Has x w.entries has, lt)

      go :
          WrittenParts objects pack idx_bytes
          → (index : PackIndex) × (parse name idx_bytes ≡ ok index) × Placed o pack name index
      go w =
          let s = Places-Stands zlib hex sha1 crc 12 i o objects w.entries w.places at in
          let e = s.entry in
          let part = length (packed_object zlib hex sha1 crc o) in
          let are = Places-IsEntry 12 objects w.entries w.places named in
          let size = Places-length 12 objects w.entries w.places in
          let is_sha = subst IsSha (sym w.hashed.1) (digest w.hashed.0) in
          let sorted = sort_entries w.entries in
          let (j, moved) = sort_entries_moves e w.entries i s.there in
          let index = index_of name sorted w.pack_sha in
          let fits : part ≤ object_len index e.pack_offset =
            object_len-room index (pack_offsets sorted) e.pack_offset part refl
              (sort_entries-Different w.entries
                (Places-Different zlib hex sha1 crc 12 objects w.entries w.places))
              (Has-get_elem?_offset sorted j e moved)
              (sort_entries-All_offsets (λ x. e.pack_offset < x → e.pack_offset + part ≤ x)
                w.entries s.gap)
              (more_room w s room) in
          let (idx, read, found) =
            find_offset-parse zlib hex sha1 crc name w.pack_sha idx_bytes w.entries i e w.indexed
              s.there (Places-Distinct 12 objects w.entries w.places distinct) are (omega arith)
              is_sha digest in
          let same : idx ≡ index = cc (
            read,
            parse-create_idx_v2_data zlib hex sha1 crc name w.pack_sha idx_bytes w.entries w.indexed
                are (omega arith) is_sha digest,
          ) in
          let whole = pack_header (length objects) in
          let start : e.pack_offset ≡ length (whole ++ s.before) =
            s.offset ∙ omega (arith, length-append whole s.before) in
          (
            index,
            read ∙ ap {A = PackIndex} {B = Result IndexError PackIndex} (λ x. ok x) same,
            record {
              named = refl;
              sha = e.oid_bytes;
              before = whole ++ s.before;
              behind = s.behind ++ w.pack_sha;
              len = object_len index e.pack_offset;
              decoded = s.decoded;
              is_sha = (All-get_elem? IsEntry w.entries i e are s.there).0;
              parts = w.bytes ∙ ap (λ b. whole ++ (b ++ w.pack_sha)) s.parts ∙ simp append_assoc;
              found =
                  ap (λ x. find_offset x e.oid_bytes) (sym same)
                  ∙ found
                  ∙ ap (λ x. some (e.pack_offset, object_len x e.pack_offset)) same
                  ∙ ap {A = ℕ} {B = Option (ℕ × ℕ)} (λ x. some (x, object_len index e.pack_offset))
                      start;
              fits = omega arith;
            },
          )
