-- ===== src/Git/PackWriter.antt =====
-- src/git/pack_writer.rs: a pack and its index from a list of objects. `Crc` is a parameter, as the hash, `hex` and `Zlib`.
pub mod Header
pub mod RoundTrip
use git_nfs.Prelude.{ℕ, zero, suc, ◌+◌, ◌*◌, ◌/◌, ◌%◌, ◌^◌, none, some}
use git_nfs.Prelude.{List, [], ◌∷◌, ◌++◌, ◌==◌, ltb, if◌then◌else◌, length, concat, map, replicate}
use git_nfs.Prelude.{Result, ok, err, ◌>>=◌, ok_or, guard, ◌>>◌, leb}
use Prim.Native.Nat.{bit_and, bit_or}
use git_nfs.Bytes.{as_u32, be32}
use git_nfs.Text.{ascii}
use git_nfs.Git.Tree.{Hex}
use git_nfs.Git.Objects.{ObjectType, commit, tree, blob, tag, ofs_delta, ref_delta}
use git_nfs.Git.Builder.{GitObjectToPack, greater, less, equal, compare}
use git_nfs.Git.Pack.{Zlib}

pub record ObjectEntry : Type 0 where
  pub oid_bytes : List ℕ
  pub pack_offset : ℕ
  pub crc32 : ℕ

pub data WriteError : Type 0 where
  invalid_hex large_offset no_first_byte : WriteError

-- `obj_type as u8`
unfoldable pub type_num : ObjectType → ℕ
type_num commit = 1
type_num tree = 2
type_num blob = 3
type_num tag = 4
type_num ofs_delta = 6
type_num ref_delta = 7

abbrev pub marked : ℕ → ℕ → ℕ
marked size byte = if ltb 0 size then bit_or byte 0x80 else byte

-- `while size > 0`. A `usize` has at most nine digits of seven bits above the lowest four.
unfoldable pub size_loop : ℕ → ℕ → List ℕ
size_loop zero size = []
size_loop (suc fuel) size =
    let rest = size_loop fuel (size / 2 ^ 7) in
    if size == 0 then [] else marked (size / 2 ^ 7) (bit_and size 0x7f % 256) ∷ rest

-- The type and the size at the front of an object.
unfoldable pub entry_header : ObjectType → ℕ → List ℕ
entry_header obj_type size =
    marked (size / 2 ^ 4) (bit_or (type_num obj_type * 2 ^ 4 % 256) (bit_and size 0x0f % 256))
    ∷ size_loop 9 (size / 2 ^ 4)

abbrev pub pack_header : ℕ → List ℕ
pack_header count = ascii "PACK" ++ be32 2 ++ be32 (as_u32 count)

-- `entries.sort_by` keeps the order of equal elements.
unfoldable pub insert_entry : ObjectEntry → List ObjectEntry → List ObjectEntry
insert_entry a [] = a ∷ []
insert_entry a (b ∷ entries) =
    let rest = insert_entry a entries in
    elim (compare a.oid_bytes b.oid_bytes) [
      | greater ↦ b ∷ rest
      | less ↦ a ∷ b ∷ entries
      | equal ↦ a ∷ b ∷ entries
    ]

unfoldable pub sort_entries : List ObjectEntry → List ObjectEntry
sort_entries [] = []
sort_entries (a ∷ entries) = insert_entry a (sort_entries entries)

-- `fanout[byte] += 1`
unfoldable pub bump : ℕ → List ℕ → List ℕ
bump byte [] = []
bump zero (n ∷ fanout) = as_u32 (n + 1) ∷ fanout
bump (suc byte) (n ∷ fanout) = n ∷ bump byte fanout

-- How many names start with each byte. An empty name has no first byte, where the source panics.
unfoldable pub count_bytes : List ObjectEntry → List ℕ → Result WriteError (List ℕ)
count_bytes [] fanout = ok fanout
count_bytes (e ∷ entries) fanout = elim e.oid_bytes [
  | [] ↦ err no_first_byte
  | byte ∷ _ ↦ count_bytes entries (bump byte fanout)
]

unfoldable pub cumulate : ℕ → List ℕ → List ℕ
cumulate cum [] = []
cumulate cum (n ∷ fanout) = as_u32 (cum + n) ∷ cumulate (as_u32 (cum + n)) fanout

abbrev pub be32s : List ℕ → List ℕ
be32s xs = concat (map be32 xs)

-- The table of offsets. From 2 GB on there is none.
unfoldable pub offset_table : List ObjectEntry → Result WriteError (List ℕ)
offset_table [] = ok []
offset_table (e ∷ entries) = do
  guard (leb e.pack_offset 0x7fffffff) large_offset
  rest ← offset_table entries
  ok (as_u32 e.pack_offset ∷ rest)

-- The bytes of the index in front of its own hash.
unfoldable pub index_body : List ℕ → List ObjectEntry → List ℕ → Result WriteError (List ℕ)
index_body pack_sha entries zeros = do
  counts ← count_bytes entries zeros
  offsets ← offset_table entries
  ok (
      (255 ∷ ascii "tOc")
      ++ (be32 2
          ++ (be32s (cumulate 0 counts)
              ++ (concat (map (λ (e : ObjectEntry). e.oid_bytes) entries)
                  ++ (be32s (map (λ (e : ObjectEntry). e.crc32) entries)
                      ++ (be32s offsets ++ pack_sha))))))

module _ (zlib : Zlib) (hex : Hex) (sha1 : List ℕ → List ℕ) (crc : List ℕ → ℕ) where
  -- The bytes of an object in the pack.
  unfoldable pub packed_object : GitObjectToPack → List ℕ
  packed_object obj = entry_header obj.obj_type (length obj.content) ++ zlib.compress obj.content

  -- The loop over the objects, with the bytes and the entries written before.
  unfoldable pub write_objects :
      List GitObjectToPack
      → List ℕ
      → List ObjectEntry
      → Result WriteError (List ℕ × List ObjectEntry)
  write_objects [] pack entries = ok (pack, entries)
  write_objects (obj ∷ objects) pack entries = do
    oid_bytes ← ok_or (hex.decode obj.oid) invalid_hex
    let entry : ObjectEntry = record {
      oid_bytes = oid_bytes;
      pack_offset = length pack;
      crc32 = crc (packed_object obj);
    }
    write_objects objects (pack ++ packed_object obj) (entries ++ entry ∷ [])

  -- The pack, the entries of the index, and the hash behind the pack.
  unfoldable pub create_pack_data :
      List GitObjectToPack → Result WriteError (List ℕ × List ObjectEntry × List ℕ)
  create_pack_data objects = do
    (pack, entries) ← write_objects objects (pack_header (length objects)) []
    ok (pack ++ sha1 pack, entries, sha1 pack)

  unfoldable pub create_idx_v2_data : List ObjectEntry → List ℕ → Result WriteError (List ℕ)
  create_idx_v2_data entries pack_sha = do
    idx ← index_body pack_sha (sort_entries entries) (replicate 256 0)
    ok (idx ++ sha1 idx)

  -- The pack, its index and the name of the pack.
  unfoldable pub create_pack_and_index_bytes :
      List GitObjectToPack → Result WriteError (List ℕ × List ℕ × List ℕ)
  create_pack_and_index_bytes objects = do
    (pack_data, entries, pack_sha) ← create_pack_data objects
    idx_data ← create_idx_v2_data entries pack_sha
    ok (pack_data, idx_data, hex.encode pack_sha)
