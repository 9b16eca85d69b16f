-- ===== src/Git/PackWriter/RoundTrip.antt =====
-- A written pack, unpacked.
use git_nfs.Prelude.{ltb}
use git_nfs.Prelude.{
  ℕ, suc, ◌-◌, ◌^◌, ◌≤◌, ◌<◌, ◌≡◌, ◌≢◌, refl, ap, sym, ◌∙◌, List, [], ◌∷◌, ◌++◌, length, true, leb,
  str_eq, ◌/◌, ◌%◌, All, Result, ok, arith, Result-cases, Option-cases, inl, inr,
  drop-length_append, append_assoc, append-nil,
}
use git_nfs.Bytes.{as_u32, be32, capacity_limit, u32_mod, from_be32, from_be32-be32}
use git_nfs.Text.{ascii}
use git_nfs.Git.Tree.{Hex}
use git_nfs.Git.Objects.{
  ObjectType, commit, tree, blob, tag, ofs_delta, ref_delta, compute_git_sha1,
}
use git_nfs.Git.Builder.{GitObjectToPack}
use git_nfs.Git.Pack.{
  Zlib, PendingDelta, PackError, ObjectMap, Unpacked, insert_sha, inflate, add_base, parse_header,
  read_object, read_objects, nothing_unpacked, resolve_deltas, unpack_body, unpack_packfile,
}
use git_nfs.Git.PackWriter.{
  ObjectEntry, entry_header, pack_header, packed_object, write_objects, create_pack_data,
}
use git_nfs.Git.PackWriter.Header.{parse_header-entry_header}

-- No delta, and of a size that a machine can hold.
abbrev pub IsWhole : GitObjectToPack → Type 0
IsWhole o =
    (o.obj_type ≢ ofs_delta) × (o.obj_type ≢ ref_delta) × (length o.content < capacity_limit)

module _ (zlib : Zlib) (hex : Hex) (sha1 : List ℕ → List ℕ) (crc : List ℕ → ℕ) where
  -- What the objects are by name: each under the hash of its type and content, a later one in place of an
  -- earlier one of the same name.
  unfoldable pub by_name : List GitObjectToPack → ObjectMap → ObjectMap
  by_name [] m = m
  by_name (o ∷ objects) m = by_name objects (
      insert_sha (compute_git_sha1 hex sha1 o.obj_type o.content)
        (record { obj_type = o.obj_type; content = o.content }) m)

  unfoldable pub packed_all : List GitObjectToPack → List ℕ
  packed_all [] = []
  packed_all (o ∷ objects) = packed_object zlib hex sha1 crc o ++ packed_all objects

  -- The loop appends the objects one behind the other.
  pub write_objects-packed :
      (objects : List GitObjectToPack) (pack pack' : List ℕ) (entries entries' : List ObjectEntry)
      → write_objects zlib hex sha1 crc objects pack entries ≡ ok (pack', entries')
      → pack' ≡ pack ++ packed_all objects
  unfolding write_objects packed_all
  write_objects-packed [] pack pack' entries entries' h = sym (append-nil pack ∙ cc)
  write_objects-packed (o ∷ objects) pack pack' entries entries' h =
      elim (Option-cases (hex.decode o.oid)) [
        | inl e ↦ absurd (cc (rw (write_objects, e) at h))
        | inr (bytes, e) ↦
            write_objects-packed objects (pack ++ packed_object zlib hex sha1 crc o) pack' _
              entries' (rw (write_objects, e) at h)
            ∙ append_assoc pack (packed_object zlib hex sha1 crc o) (packed_all objects)
      ]

  inflate-compress :
      (content rest : List ℕ)
      → inflate zlib hex sha1 (zlib.compress content ++ rest) ≡ ok (content, rest)
  unfolding inflate
  inflate-compress content rest =
      rw (inflate, zlib.decompress-compress content rest)
        (ap {A = List ℕ} {B = Result PackError (List ℕ × List ℕ)} (λ r. ok (content, r))
          (drop-length_append (zlib.compress content) rest))

  read_object-whole :
      (offset : ℕ) (t : ObjectType) (size : ℕ) (content rest : List ℕ) (u : Unpacked)
      (pending : List PendingDelta)
      → t ≢ ofs_delta
      → t ≢ ref_delta
      → ltb size capacity_limit ≡ true
      → read_object zlib hex sha1 offset t size (zlib.compress content ++ rest) (u, pending)
        ≡ ok ((add_base zlib hex sha1 offset t content u, pending), rest)
  unfolding read_object
  read_object-whole offset commit size content rest u pending h k fits =
      rw (fits, inflate-compress content rest) refl
  read_object-whole offset tree size content rest u pending h k fits =
      rw (fits, inflate-compress content rest) refl
  read_object-whole offset blob size content rest u pending h k fits =
      rw (fits, inflate-compress content rest) refl
  read_object-whole offset tag size content rest u pending h k fits =
      rw (fits, inflate-compress content rest) refl
  read_object-whole offset ofs_delta size content rest u pending h k fits = absurd (h refl)
  read_object-whole offset ref_delta size content rest u pending h k fits = absurd (k refl)

  pub parse_header-packed_object :
      (o : GitObjectToPack) (rest : List ℕ)
      → length o.content < capacity_limit
      → parse_header (packed_object zlib hex sha1 crc o ++ rest)
        ≡ ok (o.obj_type, length o.content, zlib.compress o.content ++ rest)
  unfolding packed_object
  parse_header-packed_object o rest small =
      ap parse_header
        (append_assoc (entry_header o.obj_type (length o.content)) (zlib.compress o.content) rest)
      ∙ parse_header-entry_header o.obj_type (length o.content) (zlib.compress o.content ++ rest)
          (omega arith)

  -- One object of the loop.
  read_objects-whole :
      (total : ℕ) (o : GitObjectToPack) (n : ℕ) (rest : List ℕ) (u : Unpacked)
      (pending : List PendingDelta)
      → IsWhole o
      → read_objects zlib hex sha1 total
          (suc n)
          (packed_object zlib hex sha1 crc o ++ rest)
          (u, pending)
        ≡ read_objects zlib hex sha1 total n rest (
          add_base zlib hex sha1
              (total - length (packed_object zlib hex sha1 crc o ++ rest))
              o.obj_type
              o.content
              u,
          pending,
        )
  unfolding read_objects
  read_objects-whole total o n rest u pending (not_ofs, not_ref, small) =
      let offset = total - length (packed_object zlib hex sha1 crc o ++ rest) in
      rw
        (
          read_objects,
          parse_header-packed_object o rest small,
          read_object-whole offset o.obj_type (length o.content) o.content rest u pending not_ofs
              not_ref (ground arith),
        )
        refl

  -- All objects of the loop are stored, none is put off.
  read_objects-packed :
      (total : ℕ) (objects : List GitObjectToPack) (rest : List ℕ) (u : Unpacked)
      → All IsWhole objects
      → (u' : Unpacked) × (read_objects zlib hex sha1 total
            (length objects)
            (packed_all objects ++ rest)
            (u, [])
          ≡ ok (u', []))
        × (u'.objects_by_sha ≡ by_name objects u.objects_by_sha)
  unfolding read_objects packed_all by_name add_base
  read_objects-packed total [] rest u whole = (u, refl, refl)
  read_objects-packed total (o ∷ objects) rest u (w, whole) =
      let here = append_assoc (packed_object zlib hex sha1 crc o) (packed_all objects) rest in
      let u1 =
        add_base zlib hex sha1
          (total - length (packed_object zlib hex sha1 crc o ++ (packed_all objects ++ rest)))
          o.obj_type o.content u in
      let (u', read, named) = read_objects-packed total objects rest u1 whole in
      (
        u',
        ap (λ b. read_objects zlib hex sha1 total (suc (length objects)) b (u, [])) here
            ∙ read_objects-whole total o (length objects) (packed_all objects ++ rest) u [] w
            ∙ read,
        named,
      )

  -- Behind the magic number: the version, the number of objects and the objects.
  unpack_body-packed :
      (total : ℕ) (objects : List GitObjectToPack) (trailer : List ℕ)
      → length objects < u32_mod
      → All IsWhole objects
      → unpack_body zlib hex sha1 total
          (be32 2 ++ (be32 (as_u32 (length objects)) ++ (packed_all objects ++ trailer)))
        ≡ ok (by_name objects [])
  unfolding unpack_body resolve_deltas
  unpack_body-packed total objects trailer few whole =
      let (u', read, named) = read_objects-packed total objects trailer nothing_unpacked whole in
      let n = as_u32 (length objects) in
      let few' : n ≡ length objects = omega arith in
      let count : from_be32 (n / 2 ^ 24 % 256) (n / 2 ^ 16 % 256) (n / 2 ^ 8 % 256) (n % 256)
          ≡ length objects =
        from_be32-be32 n (omega arith) ∙ few' in
      rw (unpack_body, count, read)
        (ap {A = ObjectMap} {B = Result PackError ObjectMap} (λ m. ok m) named)

  unpack_packfile-magic :
      (tail : List ℕ)
      → 8 ≤ length tail
      → unpack_packfile zlib hex sha1 (ascii "PACK" ++ tail)
        ≡ unpack_body zlib hex sha1 (length (ascii "PACK" ++ tail)) tail
  unfolding unpack_packfile str_eq
  unpack_packfile-magic tail long =
      let e : leb 12 (length (ascii "PACK" ++ tail)) ≡ true = ground arith in
      rw (unpack_packfile, e) refl

  -- A pack that was written is unpacked to exactly its objects, each under the hash of its type and
  -- content, when none of them is a delta, their number fits in 32 bits and their lengths in 64.
  pub unpack_packfile-create_pack_data :
      (objects : List GitObjectToPack) (pack sha : List ℕ) (entries : List ObjectEntry)
      → create_pack_data zlib hex sha1 crc objects ≡ ok (pack, entries, sha)
      → length objects < u32_mod
      → All IsWhole objects
      → unpack_packfile zlib hex sha1 pack ≡ ok (by_name objects [])
  unfolding create_pack_data
  unpack_packfile-create_pack_data objects pack sha entries h few whole =
      elim (Result-cases
        (write_objects zlib hex sha1 crc objects (pack_header (length objects)) [])) [
          | inr (e, failed) ↦ absurd (cc (rw (create_pack_data, failed) at h))
          | inl ((body, es), written) ↦
              let content : pack ≡ body ++ sha1 body = cc (rw (create_pack_data, written) at h) in
              let n = as_u32 (length objects) in
              let tail = be32 2 ++ (be32 n ++ (packed_all objects ++ sha1 body)) in
              let joined : body ++ sha1 body ≡ ascii "PACK" ++ tail =
                ap (λ b. b ++ sha1 body)
                  (write_objects-packed objects (pack_header (length objects)) body [] es written)
                ∙ append_assoc (pack_header (length objects)) (packed_all objects) (sha1 body) in
              ap (unpack_packfile zlib hex sha1) (content ∙ joined)
              ∙ unpack_packfile-magic tail (omega arith)
              ∙ unpack_body-packed (length (ascii "PACK" ++ tail)) objects (sha1 body) few whole
        ]
