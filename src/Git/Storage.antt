-- ===== src/Git/Storage.antt =====
-- src/git/gcs_storage.rs: objects of a repository in a bucket, read through the indexes of its packs and
-- the block cache. The bucket is the parameter `remote`, and a read of a range of a pack `fetch`; a read or a decompression may fail.
pub mod Reads
pub mod Places
pub mod Placed
pub mod Written
mod Tests
use git_nfs.Prelude.{ℕ, zero, suc, ◌+◌, ◌-◌, max, Bool, true, false, Option, none, some}
use git_nfs.Prelude.{List, [], ◌∷◌, ◌++◌, ◌==◌, leb, str_eq, if◌then◌else◌, length, take, drop}
use git_nfs.Prelude.{Result, ok, err, ok_or}
use git_nfs.Prelude.Exec.{Exec, pure, raise, lift, refuse, modify, ◌>>=◌, ◌>>◌}
use git_nfs.Text.{ascii, starts_with}
use git_nfs.Git.Tree.{Hex, split_once}
use git_nfs.Git.Objects.{ObjectType, commit, tree, blob, tag, ofs_delta, ref_delta}
use git_nfs.Git.Delta.{apply_git_delta}
use git_nfs.Bytes.{capacity_limit}
use git_nfs.Git.Pack.{capacity_overflow}
use git_nfs.Git.Pack.{
  Zlib, GitRawObject, PackError, bad_delta, decompressing, map_err, ObjectMap, insert_sha,
  lookup_sha, parse_header, parse_distance,
}
use git_nfs.Git.Idx.{PackIndex, get_object_len_at_offset, find_offset}
use git_nfs.Cache.Block.{Lru, BlockError, BlockCache, read_range}

-- `stuck` is no error of the source: the recursion over the bases of deltas ran out of fuel.
pub data StorageError : Type 0 where
  invalid_hex invalid_length not_found empty_read negative_base truncated_sha : StorageError
  missing_null unknown_type stuck : StorageError
  bad_block : BlockError → StorageError
  bad_object : PackError → StorageError

pub record Storage (lru : Lru) : Type 0 where
  pub block_cache : BlockCache lru
  pub pack_indexes : List PackIndex
  pub object_cache : ObjectMap

unfoldable pub get_pack_object_len : List PackIndex → List ℕ → ℕ → Option ℕ
get_pack_object_len [] pack_name offset = none
get_pack_object_len (idx ∷ indexes) pack_name offset =
    let rest = get_pack_object_len indexes pack_name offset in
    if str_eq idx.pack_name pack_name then get_object_len_at_offset idx offset else rest

-- The first index that has the object: its pack, the offset and the room.
unfoldable pub find_pack : List PackIndex → List ℕ → Option (List ℕ × ℕ × ℕ)
find_pack [] sha = none
find_pack (idx ∷ indexes) sha =
    let rest = find_pack indexes sha in
    elim (find_offset idx sha) [
      | some (offset, len) ↦ some (idx.pack_name, offset, len)
      | none ↦ rest
    ]

unfoldable pub loose_type : List ℕ → Result StorageError ObjectType
loose_type header =
    if starts_with header (ascii "commit ")
    then ok commit
    else if starts_with header (ascii "tree ")
    then ok tree
    else if starts_with header (ascii "blob ")
    then ok blob
    else if starts_with header (ascii "tag ")
    then ok tag
    else err unknown_type

abbrev pub pack_result {ℓ} : {A : Type ℓ} → Result PackError A → Result StorageError A
pack_result (ok a) = ok a
pack_result (err e) = err (bad_object e)

abbrev pub read_len : ℕ → ℕ
read_len estimated_len = max (estimated_len + 64) 4096

module _ (lru : Lru) (zlib : Zlib) (hex : Hex) (prefix : List ℕ) (remote : List ℕ → Option (List ℕ))
    (writes : Bool) (fetch : List ℕ → ℕ → ℕ → Option (List ℕ)) where
  abbrev pub Reading {ℓ} : Type ℓ → Type ℓ
  Reading A = Exec (Storage lru) StorageError A

  unfoldable pub read_pack_slice : List ℕ → ℕ → ℕ → Reading (List ℕ)
  read_pack_slice pack_name offset read_len s =
      let r = read_range lru writes (fetch pack_name) pack_name offset read_len s.block_cache in
      (elim r.0 [ ok bytes ↦ ok bytes | err e ↦ err (bad_block e) ], record s { block_cache = r.1 })

  -- `ZlibDecoder::read_to_end` on the rest of the slice.
  unfoldable pub inflate_slice : List ℕ → Result StorageError (List ℕ)
  inflate_slice bytes = elim (zlib.decompress bytes) [
    | none ↦ err (bad_object decompressing)
    | some (content, consumed) ↦ ok content
  ]

  abbrev pub patch : GitRawObject → List ℕ → Result StorageError GitRawObject
  patch base delta = elim (apply_git_delta base.content delta) [
    | ok resolved ↦ ok (record { obj_type = base.obj_type; content = resolved })
    | err e ↦ err (bad_object (bad_delta e))
  ]

  unfoldable pub read_loose_object : List ℕ → Result StorageError GitRawObject
  read_loose_object oid =
      elim (remote (prefix ++ ascii "objects/" ++ take 2 oid ++ ascii "/" ++ drop 2 oid)) [
        | none ↦ err not_found
        | some compressed ↦ elim (inflate_slice compressed) [
          | err e ↦ err e
          | ok decompressed ↦ elim (split_once 0 decompressed) [
            | none ↦ err missing_null
            | some (header, content) ↦ elim (loose_type header) [
              | err e ↦ err e
              | ok obj_type ↦ ok (record { obj_type = obj_type; content = content })
            ]
          ]
        ]
      ]

  -- `read_object_raw`, where `read` is `read_pack_object`.
  unfoldable pub read_object_with :
      (List ℕ → ℕ → ℕ → Reading GitRawObject) → List ℕ → Reading GitRawObject
  read_object_with read oid s = elim (lookup_sha oid s.object_cache) [
    | some obj ↦ (ok obj, s)
    | none ↦ elim (hex.decode oid) [
      | none ↦ (err invalid_hex, s)
      | some sha ↦
          (refuse (if length sha == 20 then false else true) invalid_length
              >> (λ t. elim (find_pack t.pack_indexes sha) [
                | some (pack_name, offset, len) ↦ read pack_name offset len t
                | none ↦ (read_loose_object oid, t)
              ])
              >>= λ raw_obj.
                  (modify (λ t. record t { object_cache = insert_sha oid raw_obj t.object_cache })
                    >> pure raw_obj))
            s
    ]
  ]

  -- A delta by the distance to its base in the pack.
  unfoldable pub read_ofs_base :
      (List ℕ → ℕ → ℕ → Reading GitRawObject) → List ℕ → ℕ → ℕ → List ℕ → Reading GitRawObject
  read_ofs_base read pack_name offset size bytes = do
    (base_offset_delta, bytes') ← lift (pack_result (parse_distance bytes))
    refuse (if leb base_offset_delta offset then false else true) negative_base
    delta_data ← lift (inflate_slice bytes')
    let base_offset = offset - base_offset_delta
    base_obj ← λ s.
        read pack_name base_offset
          (elim (get_pack_object_len s.pack_indexes pack_name base_offset) [
            | some len ↦ len
            | none ↦ size
          ])
          s
    lift (patch base_obj delta_data)

  -- A delta by the name of its base.
  unfoldable pub read_ref_base :
      (List ℕ → ℕ → ℕ → Reading GitRawObject) → List ℕ → Reading GitRawObject
  read_ref_base read bytes = do
    refuse (if leb 20 (length bytes) then false else true) truncated_sha
    delta_data ← lift (inflate_slice (drop 20 bytes))
    base_obj ← read_object_with read (hex.encode (take 20 bytes))
    lift (patch base_obj delta_data)

  -- The object behind its header.
  unfoldable pub read_typed :
      (List ℕ → ℕ → ℕ → Reading GitRawObject)
      → List ℕ
      → ℕ
      → ObjectType
      → ℕ
      → List ℕ
      → Reading GitRawObject
  read_typed read pack_name offset ofs_delta size bytes =
      read_ofs_base read pack_name offset size bytes
  read_typed read pack_name offset ref_delta size bytes = read_ref_base read bytes
  read_typed read pack_name offset base_type size bytes = do
    refuse (leb capacity_limit size) (bad_object capacity_overflow)
    content ← lift (inflate_slice bytes)
    pure (record { obj_type = base_type; content = content })

  unfoldable pub read_pack_object : ℕ → List ℕ → ℕ → ℕ → Reading GitRawObject
  read_pack_object zero pack_name offset estimated_len = raise stuck
  read_pack_object (suc fuel) pack_name offset estimated_len = do
    pack_slice ← read_pack_slice pack_name offset (read_len estimated_len)
    refuse (length pack_slice == 0) empty_read
    (obj_type, size, bytes) ← lift (pack_result (parse_header pack_slice))
    read_typed (read_pack_object fuel) pack_name offset obj_type size bytes

  unfoldable pub read_object_raw : ℕ → List ℕ → Reading GitRawObject
  read_object_raw fuel oid = read_object_with (read_pack_object fuel) oid
