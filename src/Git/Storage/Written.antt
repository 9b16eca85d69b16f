-- ===== src/Git/Storage/Written.antt =====
-- src/git/gcs_storage.rs: what a commit writes is what is read: the pack, its index, and an object read through them.
use git_nfs.Prelude.{
  ℕ, suc, ◌*◌, ◌≤◌, ◌<◌, ◌≡◌, refl, ap, ◌∙◌, List, ◌∷◌, ◌++◌, length, get_elem?, All, some, none,
  Option, ◌⊎◌, Result, ok, err, ◌==◌, true, Bool,
}
use git_nfs.Bytes.{u32_mod}
use git_nfs.Git.Tree.{Hex}
use git_nfs.Git.Builder.{GitObjectToPack}
use git_nfs.Git.Pack.{Zlib, GitRawObject, lookup_sha}
use git_nfs.Git.PackWriter.{packed_object, create_pack_and_index_bytes}
use git_nfs.Git.PackWriter.RoundTrip.{IsWhole}
use git_nfs.Git.Idx.{PackIndex, parse}
use git_nfs.Git.Idx.Tables.{IsSha}
use git_nfs.Git.Storage.{
  Storage, StorageError, find_pack, read_object_with, read_pack_object, read_object_raw,
}
use git_nfs.Git.Storage.Reads.{raw_of, Honest, Gives, read_pack_object-Gives}
use git_nfs.Cache.Block.{Lru, extract_filename}
use git_nfs.Cache.Block.Consistent.{LruLaws, Consistent}
use git_nfs.Git.Storage.Placed.{find_pack-append, HasSha, DistinctNames, Placed, written-Placed}

module _ (lru : Lru) (laws : LruLaws lru) (zlib : Zlib) (hex : Hex) (sha1 : List ℕ → List ℕ)
    (crc : List ℕ → ℕ) (prefix : List ℕ) (remote : List ℕ → Option (List ℕ)) (writes : Bool)
    (fetch : List ℕ → ℕ → ℕ → Option (List ℕ)) (packs : List ℕ → List ℕ) (size : ℕ) where
  -- What is read through an index is what stands in the pack; that it is kept in memory changes no block.
  read_object_with-Gives :
      (read : List ℕ → ℕ → ℕ → Storage lru → Result StorageError GitRawObject × Storage lru)
      (oid sha name : List ℕ) (offset len : ℕ) (expected : GitRawObject) (s : Storage lru)
      → lookup_sha oid s.object_cache ≡ none
      → hex.decode oid ≡ some sha
      → IsSha sha
      → find_pack s.pack_indexes sha ≡ some (name, offset, len)
      → Gives lru laws zlib hex sha1 crc prefix remote writes fetch packs size name expected
          (read name offset len s)
      → Gives lru laws zlib hex sha1 crc prefix remote writes fetch packs size name expected
          (read_object_with lru zlib hex prefix remote writes fetch read oid s)
  unfolding read_object_with find_pack
  read_object_with-Gives read oid sha name offset len expected s new decoded is_sha found g =
      go (read name offset len s) refl g
    where
      go :
          (r : Result StorageError GitRawObject × Storage lru)
          → read name offset len s ≡ r
          → Gives lru laws zlib hex sha1 crc prefix remote writes fetch packs size name expected r
          → Gives lru laws zlib hex sha1 crc prefix remote writes fetch packs size name expected
              (read_object_with lru zlib hex prefix remote writes fetch read oid s)
      go (ok x, t) e g =
          let right : (length sha == 20) ≡ true = rw is_sha refl in
          rw (read_object_with, new, decoded, right, found, e) g
      go (err x, t) e g =
          let right : (length sha == 20) ≡ true = rw is_sha refl in
          rw (read_object_with, new, decoded, right, found, e) g

  -- An object that a commit has written is read back with its type and content, or a fetch of a block has
  -- failed: through the index that was written with the pack and parsed, behind indexes that do not have the
  -- object, when it is not in memory yet. It needs objects that are no deltas, with distinct names of 20
  -- bytes, fewer than 2 ^ 32; a block cache that is consistent with the written pack; and the object to have 64 KB at most in the pack
  -- or not to be the last one.
  pub read_object_raw-created :
      (objects : List GitObjectToPack) (pack idx_bytes name_hex name : List ℕ) (i fuel : ℕ)
      (o : GitObjectToPack) (s : Storage lru) (older newer : List PackIndex)
      → create_pack_and_index_bytes zlib hex sha1 crc objects ≡ ok (pack, idx_bytes, name_hex)
      → get_elem? objects i ≡ some o
      → All (HasSha zlib hex sha1 crc) objects
      → DistinctNames zlib hex sha1 crc objects
      → length objects < u32_mod
      → ((content : List ℕ) → IsSha (sha1 content))
      → (length (packed_object zlib hex sha1 crc o) ≤ 64 * 1024) ⊎ (suc i < length objects)
      → IsWhole o
      → packs (extract_filename name) ≡ pack
      → Honest lru laws zlib hex sha1 crc prefix remote writes fetch packs size
      → Consistent lru laws packs size s.block_cache
      → 0 < size
      → lookup_sha o.oid s.object_cache ≡ none
      → ((index : PackIndex)
          → parse name idx_bytes ≡ ok index
          → s.pack_indexes ≡ older ++ index ∷ newer)
      → ((sha : List ℕ) → hex.decode o.oid ≡ some sha → find_pack older sha ≡ none)
      → Gives lru laws zlib hex sha1 crc prefix remote writes fetch packs size name
          (raw_of o)
          (read_object_raw lru zlib hex prefix remote writes fetch (suc fuel) o.oid s)
  unfolding read_object_raw
  read_object_raw-created objects pack idx_bytes name_hex name i fuel o s older newer h at named
        distinct few digest room whole stored honest v pos new indexed missing =
      let (index, read, p) =
        written-Placed zlib hex sha1 crc objects pack idx_bytes name_hex name i o h at named
          distinct few digest room in
      go index read p
    where
      go :
          (index : PackIndex)
          → parse name idx_bytes ≡ ok index
          → Placed zlib hex sha1 crc o pack name index
          → Gives lru laws zlib hex sha1 crc prefix remote writes fetch packs size name
              (raw_of o)
              (read_object_raw lru zlib hex prefix remote writes fetch (suc fuel) o.oid s)
      go index read p =
          let found : find_pack s.pack_indexes p.sha
              ≡ some (index.pack_name, length p.before, p.len) =
            ap (λ l. find_pack l p.sha) (indexed index read)
            ∙ find_pack-append older newer index p.sha (length p.before) p.len
                (missing p.sha p.decoded) p.found in
          read_object_with-Gives
            (read_pack_object lru zlib hex prefix remote writes fetch (suc fuel)) o.oid p.sha name
            (length p.before) p.len (raw_of o) s new p.decoded p.is_sha
            (found
              ∙ ap {A = List ℕ} {B = Option (List ℕ × ℕ × ℕ)}
                  (λ n. some (n, length p.before, p.len)) p.named)
            (read_pack_object-Gives lru laws zlib hex sha1 crc prefix remote writes fetch packs size
              fuel name o p.before p.behind p.len s (stored ∙ p.parts) p.fits whole honest v pos)
