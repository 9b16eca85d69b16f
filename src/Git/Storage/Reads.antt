-- ===== src/Git/Storage/Reads.antt =====
-- An object that stands whole in a pack is read from there.
use git_nfs.Prelude.{
  ℕ, zero, suc, ◌-◌, ◌*◌, ◌≤◌, ◌<◌, ◌≡◌, ◌≢◌, refl, ap, sym, ◌∙◌, List, [], ◌∷◌, ◌++◌, length, take,
  false, Bool, some, none, Option, Result, ok, err, arith, drop-length_append, ◌==◌,
}
use git_nfs.Git.Tree.{Hex}
use git_nfs.Git.Objects.{ObjectType, commit, tree, blob, tag, ofs_delta, ref_delta}
use git_nfs.Git.Builder.{GitObjectToPack}
use git_nfs.Bytes.{capacity_limit}
use git_nfs.Prelude.{leb}
use git_nfs.Git.Pack.{Zlib, GitRawObject}
use git_nfs.Git.PackWriter.{packed_object, entry_header}
use git_nfs.Git.PackWriter.RoundTrip.{IsWhole, parse_header-packed_object}
use git_nfs.Git.Storage.{
  Storage, StorageError, inflate_slice, read_typed, read_pack_slice, read_len, read_pack_object,
}
use git_nfs.Cache.Block.{Lru, BlockError, BlockCache, extract_filename, read_range}
use git_nfs.Cache.Block.Pieces.{slice}
use git_nfs.Cache.Block.Consistent.{LruLaws, Consistent, Answers}
use git_nfs.Cache.Block.Range.{read_range-Answers}

-- A slice that reaches behind a part holds the part.
take-append_ge :
    (n : ℕ) (xs ys : List ℕ) → length xs ≤ n → take n (xs ++ ys) ≡ xs ++ take (n - length xs) ys
take-append_ge n [] ys h = ap (λ k. take k ys) (let e : n ≡ n - 0 = omega arith in e)
take-append_ge zero (x ∷ xs) ys h = absurd (omega arith)
take-append_ge (suc n) (x ∷ xs) ys h =
    let e : suc n - suc (length xs) ≡ n - length xs = omega arith in
    ap (◌∷◌ x) (take-append_ge n xs ys (omega arith) ∙ ap (λ k. xs ++ take k ys) (sym e))

pub slice-part :
    (before part behind : List ℕ) (n : ℕ)
    → length part ≤ n
    → slice (before ++ (part ++ behind)) (length before) n ≡ part ++ take (n - length part) behind
slice-part before part behind n fits =
    ap (take n) (drop-length_append before (part ++ behind)) ∙ take-append_ge n part behind fits

abbrev pub raw_of : GitObjectToPack → GitRawObject
raw_of o = record { obj_type = o.obj_type; content = o.content }

module _ (lru : Lru) (laws : LruLaws lru) (zlib : Zlib) (hex : Hex) (sha1 : List ℕ → List ℕ)
    (crc : List ℕ → ℕ) (prefix : List ℕ) (remote : List ℕ → Option (List ℕ)) (writes : Bool)
    (fetch : List ℕ → ℕ → ℕ → Option (List ℕ)) (packs : List ℕ → List ℕ) (size : ℕ) where
  -- What a fetch returns is what it was asked for.
  abbrev pub Honest : Type 0
  Honest =
      (name : List ℕ) (o n : ℕ) (x : List ℕ)
      → fetch name o n ≡ some x
      → x ≡ slice (packs (extract_filename name)) o n

  -- The call gives `expected`, or a fetch of a block of the pack has failed. The cache is right afterwards.
  abbrev pub Gives : {A : Type 0} → List ℕ → A → Result StorageError A × Storage lru → Type 0
  Gives name expected (ok r, t) = (r ≡ expected) × Consistent lru laws packs size t.block_cache
  Gives name expected (err e, t) =
      ((i : ℕ) × (fetch name (i * size) size ≡ none)) × Consistent lru laws packs size t.block_cache

  read_pack_slice-Gives :
      (name : List ℕ) (offset n : ℕ) (s : Storage lru)
      → Honest
      → Consistent lru laws packs size s.block_cache
      → 0 < size
      → Gives name
          (slice (packs (extract_filename name)) offset n)
          (read_pack_slice lru zlib hex prefix remote writes fetch name offset n s)
  unfolding read_pack_slice
  read_pack_slice-Gives name offset n s honest v pos =
      go (read_range lru writes (fetch name) name offset n s.block_cache) refl (
        read_range-Answers lru laws packs size writes (fetch name) name offset n s.block_cache
          (honest name) v pos)
    where
      go :
          (r : Result BlockError (List ℕ) × BlockCache lru)
          → read_range lru writes (fetch name) name offset n s.block_cache ≡ r
          → Answers lru laws packs size
              (fetch name)
              (slice (packs (extract_filename name)) offset n)
              r
          → Gives name
              (slice (packs (extract_filename name)) offset n)
              (read_pack_slice lru zlib hex prefix remote writes fetch name offset n s)
      go (ok b, c) e a = rw (read_pack_slice, e) a
      go (err x, c) e a = rw (read_pack_slice, e) a

  inflate_slice-compress :
      (content rest : List ℕ)
      → inflate_slice lru zlib hex prefix remote writes fetch (zlib.compress content ++ rest)
        ≡ ok content
  unfolding inflate_slice
  inflate_slice-compress content rest =
      rw (inflate_slice, zlib.decompress-compress content rest) refl

  read_typed-whole :
      (read : List ℕ → ℕ → ℕ → Storage lru → Result StorageError GitRawObject × Storage lru)
      (name : List ℕ) (offset : ℕ) (t : ObjectType) (n : ℕ) (content rest : List ℕ)
      (s : Storage lru)
      → t ≢ ofs_delta
      → t ≢ ref_delta
      → leb capacity_limit n ≡ false
      → read_typed lru zlib hex prefix remote writes fetch read name offset t n
          (zlib.compress content ++ rest)
          s
        ≡ (ok (record { obj_type = t; content = content }), s)
  unfolding read_typed
  read_typed-whole read name offset commit n content rest s h k fits =
      rw (fits, inflate_slice-compress content rest) refl
  read_typed-whole read name offset tree n content rest s h k fits =
      rw (fits, inflate_slice-compress content rest) refl
  read_typed-whole read name offset blob n content rest s h k fits =
      rw (fits, inflate_slice-compress content rest) refl
  read_typed-whole read name offset tag n content rest s h k fits =
      rw (fits, inflate_slice-compress content rest) refl
  read_typed-whole read name offset ofs_delta n content rest s h k fits = absurd (h refl)
  read_typed-whole read name offset ref_delta n content rest s h k fits = absurd (k refl)

  packed_object_nonempty :
      (o : GitObjectToPack) (rest : List ℕ)
      → (length (packed_object zlib hex sha1 crc o ++ rest) == 0) ≡ false
  unfolding packed_object entry_header
  packed_object_nonempty o rest = ground arith

  -- An object that is no delta is read from its place in a pack, if the room that is read for it holds it,
  -- or a fetch of a block of the pack has failed.
  pub read_pack_object-Gives :
      (fuel : ℕ) (name : List ℕ) (o : GitObjectToPack) (before behind : List ℕ) (len : ℕ)
      (s : Storage lru)
      → packs (extract_filename name) ≡ before ++ (packed_object zlib hex sha1 crc o ++ behind)
      → length (packed_object zlib hex sha1 crc o) ≤ read_len len
      → IsWhole o
      → Honest
      → Consistent lru laws packs size s.block_cache
      → 0 < size
      → Gives name (raw_of o) (
          read_pack_object lru zlib hex prefix remote writes fetch
            (suc fuel)
            name
            (length before)
            len
            s)
  unfolding read_pack_object
  read_pack_object-Gives fuel name o before behind len s there fits (not_ofs, not_ref, small) honest
        v pos =
      go (read_pack_slice lru zlib hex prefix remote writes fetch name (length before) n s) refl
        (read_pack_slice-Gives name (length before) n s honest v pos)
    where
      n : ℕ
      n = read_len len

      part : List ℕ
      part = packed_object zlib hex sha1 crc o

      bytes :
          slice (packs (extract_filename name)) (length before) n
          ≡ part ++ take (n - length part) behind
      bytes = ap (λ p. slice p (length before) n) there ∙ slice-part before part behind n fits

      go :
          (r : Result StorageError (List ℕ) × Storage lru)
          → read_pack_slice lru zlib hex prefix remote writes fetch name (length before) n s ≡ r
          → Gives name (slice (packs (extract_filename name)) (length before) n) r
          → Gives name (raw_of o) (
              read_pack_object lru zlib hex prefix remote writes fetch
                (suc fuel)
                name
                (length before)
                len
                s)
      go (err x, t) e g = rw (read_pack_object, e) g
      go (ok b, t) e (same, v') =
          let rest = take (n - length part) behind in
          let whole : b ≡ part ++ rest = same ∙ bytes in
          rw
            (
              read_pack_object,
              e,
              whole,
              packed_object_nonempty o rest,
              parse_header-packed_object zlib hex sha1 crc o rest small,
              read_typed-whole (read_pack_object lru zlib hex prefix remote writes fetch fuel) name
                  (length before) o.obj_type (length o.content) o.content rest t not_ofs not_ref
                  (ground arith),
            )
            (refl, v')
