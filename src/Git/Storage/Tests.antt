-- ===== src/Git/Storage/Tests.antt =====
-- Packs, indexes and their objects at concrete inputs.
use git_nfs.Prelude.{
  ℕ, zero, suc, ◌+◌, ◌*◌, ◌∙◌, ◌≤◌, ◌<◌, ◌≡◌, ◌≢◌, refl, ap, subst, true, Option, none, some, List,
  [], ◌∷◌, ◌++◌, length, replicate, get_elem?, Result, ok, err, inl, inr, arith, str_eq,
}
use git_nfs.Prelude.Assoc.{insert}
use git_nfs.Bytes.{be32}
use git_nfs.Text.{ascii}
use git_nfs.Text.Radix.{digits_of, digit_char}
use git_nfs.Git.Tree.{Hex}
use git_nfs.Git.Objects.{blob, tree, from_u8, compute_git_sha1, object_header, type_str}
use git_nfs.Git.Builder.{GitObjectToPack, compare}
use git_nfs.Git.Delta.{
  DeltaError, varint_loop, decode_varint, operand, copy_operands, instruction, delta_loop,
  apply_git_delta,
}
use git_nfs.Git.Pack
use git_nfs.Git.Pack.{Zlib, GitRawObject, ObjectMap, PackError, unpack_packfile, lookup_sha}
use git_nfs.Git.Pack.Named.{lookup_sha-unpack_packfile, unpack_packfile_ends}
use git_nfs.Git.PackWriter.{
  ObjectEntry, type_num, size_loop, entry_header, packed_object, write_objects, create_pack_data,
  create_idx_v2_data, create_pack_and_index_bytes, insert_entry, sort_entries, count_bytes, bump,
  cumulate, offset_table, index_body,
}
use git_nfs.Git.PackWriter.RoundTrip.{by_name, unpack_packfile-create_pack_data}
use git_nfs.Git.Idx
use git_nfs.Git.Idx.{PackIndex, parse, find_offset, object_len, sort_offsets}
use git_nfs.Git.Idx.Room.{object_len-room}
use git_nfs.Git.Idx.Tables.{IsSha}
use git_nfs.Git.Idx.Find.{find_offset-parse, find_offset-entries}
use git_nfs.Git.Storage.{Storage, find_pack, read_object_raw}
use git_nfs.Git.Storage.Reads.{raw_of, Gives}
use git_nfs.Git.Storage.Written.{read_object_raw-created}
use git_nfs.Cache.Block.{Lru, new, write_block}
use git_nfs.Cache.Block.Pieces.{slice}
use git_nfs.Cache.Block.Consistent.{LruLaws, write_block-keeps, new-Consistent}

-- A compression that marks every byte, and the end.
abbrev marked_bytes : List ℕ → List ℕ
marked_bytes [] = 0 ∷ []
marked_bytes (b ∷ bytes) = 1 ∷ b ∷ marked_bytes bytes

abbrev longer : ℕ → Option (List ℕ × ℕ) → Option (List ℕ × ℕ)
longer b none = none
longer b (some (bytes, n)) = some (b ∷ bytes, n + 2)

abbrev unmark : List ℕ → Option (List ℕ × ℕ)
unmark [] = none
unmark (zero ∷ rest) = some ([], 1)
unmark (suc m ∷ []) = none
unmark (suc m ∷ b ∷ rest) = longer b (unmark rest)

unmark-marked_bytes :
    (content rest : List ℕ)
    → unmark (marked_bytes content ++ rest) ≡ some (content, length (marked_bytes content))
unmark-marked_bytes [] rest = refl
unmark-marked_bytes (b ∷ content) rest =
    ap (longer b) (unmark-marked_bytes content rest)
    ∙ ap {A = ℕ} {B = Option (List ℕ × ℕ)} (λ n. some (b ∷ content, n)) (omega arith)

abbrev zlib : Zlib
zlib = record {
  compress = marked_bytes;
  decompress = unmark;
  decompress-compress = unmark-marked_bytes;
}

abbrev hex : Hex
hex = record { encode = λ bytes. bytes; decode = λ text. some text }

-- A hash that tells texts of different lengths apart.
abbrev sha1 : List ℕ → List ℕ
sha1 bytes = length bytes ∷ replicate 19 0

abbrev crc : List ℕ → ℕ
crc = length

-- Two objects under names that start with different bytes, not in the order of the index.
abbrev first : GitObjectToPack
first = record { oid = 9 ∷ replicate 19 0; obj_type = blob; content = 5 ∷ 6 ∷ [] }

abbrev second : GitObjectToPack
second = record { oid = 7 ∷ replicate 19 0; obj_type = tree; content = replicate 20 1 }

abbrev objects : List GitObjectToPack
objects = first ∷ second ∷ []

abbrev value {ℓ} : {A E : Type ℓ} → A → Result E A → A
value a (ok b) = b
value a (err e) = a

abbrev packed : List ℕ × List ObjectEntry × List ℕ
packed = value ([], [], []) (create_pack_data zlib hex sha1 crc objects)

packed_run : create_pack_data zlib hex sha1 crc objects ≡ ok packed
unfolding create_pack_data write_objects packed_object entry_header size_loop type_num
packed_run = refl

-- A header with 20 bytes takes a second byte.
header_run : entry_header tree 20 ≡ (2 * 16 + 4 + 128) ∷ 1 ∷ []
unfolding entry_header size_loop type_num
header_run = refl

unpack_packfile-create_pack_data_example :
    unpack_packfile zlib hex sha1 packed.0 ≡ ok (by_name zlib hex sha1 crc objects [])
unpack_packfile-create_pack_data_example =
    unpack_packfile-create_pack_data zlib hex sha1 crc objects packed.0 packed.2 packed.1 packed_run
      (omega arith) ((λ e. cc e, λ e. cc e, omega arith), ((λ e. cc e, λ e. cc e, omega arith), tt))

-- A blob and a delta on it, which copies two bytes and inserts a third.
abbrev delta_pack : List ℕ
delta_pack =
    ascii "PACK"
    ++ be32 2
    ++ be32 2
    ++ ((3 * 16 + 2) ∷ marked_bytes (5 ∷ 6 ∷ []))
    ++ ((7 * 16 + 6) ∷ sha1 (object_header blob (5 ∷ 6 ∷ []) ++ (5 ∷ 6 ∷ [])))
    ++ marked_bytes (2 ∷ 3 ∷ 0x90 ∷ 2 ∷ 1 ∷ 9 ∷ [])

abbrev blob_of : List ℕ → List ℕ × GitRawObject
blob_of content =
    (compute_git_sha1 hex sha1 blob content, record { obj_type = blob; content = content })

delta_pack_run :
    unpack_packfile zlib hex sha1 delta_pack
    ≡ ok (blob_of (5 ∷ 6 ∷ []) ∷ blob_of (5 ∷ 6 ∷ 9 ∷ []) ∷ [])
unfolding unpack_packfile Pack.unpack_body Pack.read_objects Pack.parse_header varint_loop from_u8
    Pack.read_object Pack.inflate Pack.add_base compute_git_sha1 object_header type_str digits_of
    digit_char Pack.insert_sha str_eq Pack.read_ref_delta Pack.resolve_deltas Pack.resolve_round
    Pack.find_base Pack.lookup_sha Pack.resolve_item_with apply_git_delta decode_varint delta_loop
    instruction copy_operands operand insert
delta_pack_run = refl

abbrev resolved : GitRawObject
resolved = record { obj_type = blob; content = 5 ∷ 6 ∷ 9 ∷ [] }

resolved_run :
    lookup_sha (blob_of (5 ∷ 6 ∷ 9 ∷ [])).0 (blob_of (5 ∷ 6 ∷ []) ∷ blob_of (5 ∷ 6 ∷ 9 ∷ []) ∷ [])
    ≡ some resolved
unfolding lookup_sha compute_git_sha1 object_header type_str digits_of digit_char str_eq
resolved_run = refl

lookup_sha-unpack_packfile_example :
    (blob_of (5 ∷ 6 ∷ 9 ∷ [])).0 ≡ compute_git_sha1 hex sha1 blob (5 ∷ 6 ∷ 9 ∷ [])
lookup_sha-unpack_packfile_example =
    lookup_sha-unpack_packfile zlib hex sha1 delta_pack (blob_of (5 ∷ 6 ∷ 9 ∷ [])).0
      (blob_of (5 ∷ 6 ∷ []) ∷ blob_of (5 ∷ 6 ∷ 9 ∷ []) ∷ []) resolved delta_pack_run resolved_run

unpack_packfile_ends_example :
    (unpack_packfile zlib hex sha1 delta_pack ≢ err PackError.stuck)
    × (unpack_packfile zlib hex sha1 delta_pack ≢ err (PackError.bad_delta DeltaError.stuck))
unpack_packfile_ends_example = unpack_packfile_ends zlib hex sha1 delta_pack

-- The object at offset 12, and the other one behind its 6 bytes.
abbrev entries : List ObjectEntry
entries =
    record { oid_bytes = 9 ∷ replicate 19 0; pack_offset = 12; crc32 = 6 }
    ∷ record { oid_bytes = 7 ∷ replicate 19 0; pack_offset = 18; crc32 = 43 }
    ∷ []

entries_run : packed.1 ≡ entries
unfolding create_pack_data write_objects packed_object entry_header size_loop type_num
entries_run = refl

abbrev written : List ℕ
written = value [] (create_idx_v2_data zlib hex sha1 crc entries (sha1 []))

written_run : create_idx_v2_data zlib hex sha1 crc entries (sha1 []) ≡ ok written
unfolding create_idx_v2_data index_body sort_entries insert_entry count_bytes bump cumulate
    offset_table compare
written_run = refl

find_offset-parse_example :
    (index : PackIndex) × (parse [] written ≡ ok index)
    × (find_offset index (7 ∷ replicate 19 0) ≡ some (18, object_len index 18))
find_offset-parse_example =
    find_offset-parse zlib hex sha1 crc [] (sha1 []) written entries 1
      (record { oid_bytes = 7 ∷ replicate 19 0; pack_offset = 18; crc32 = 43 }) written_run refl
      ((λ e. cc e, tt), (tt, tt)) ((refl, omega arith), ((refl, omega arith), tt)) (omega arith)
      refl (λ content. refl)

found :
    (index : PackIndex) × (parse [] written ≡ ok index)
    × (find_offset index (9 ∷ replicate 19 0) ≡ some (12, object_len index 12))
found =
    find_offset-parse zlib hex sha1 crc [] (sha1 []) written entries 0
      (record { oid_bytes = 9 ∷ replicate 19 0; pack_offset = 12; crc32 = 6 }) written_run refl
      ((λ e. cc e, tt), (tt, tt)) ((refl, omega arith), ((refl, omega arith), tt)) (omega arith)
      refl (λ content. refl)

find_offset-entries_example :
    (i : ℕ) × (e : ObjectEntry) × (get_elem? entries i ≡ some e)
    × (e.oid_bytes ≡ 9 ∷ replicate 19 0)
    × (e.pack_offset ≡ 12)
find_offset-entries_example =
    find_offset-entries zlib hex sha1 crc [] (sha1 []) written (9 ∷ replicate 19 0) entries found.0
      12 (object_len found.0 12) written_run found.1 found.2
      ((refl, omega arith), ((refl, omega arith), tt)) (omega arith) refl (λ content. refl)

-- The pack and its index as a commit writes them.
abbrev files : List ℕ × List ℕ × List ℕ
files = value ([], [], []) (create_pack_and_index_bytes zlib hex sha1 crc objects)

files_run : create_pack_and_index_bytes zlib hex sha1 crc objects ≡ ok files
unfolding create_pack_and_index_bytes create_idx_v2_data index_body sort_entries insert_entry
    count_bytes bump cumulate offset_table compare create_pack_data write_objects packed_object
    entry_header size_loop type_num
files_run = refl

-- A map that forgets nothing.
abbrev unlimited : Lru
unlimited = record {
  Store = List ℕ → ℕ → Option (List ℕ);
  get = λ f i s. (s f i, s);
  put = λ f i b s. write_block s f i b;
}

unlimited_laws : LruLaws unlimited
unlimited_laws = record {
  get_keeps = λ f g i j b s h. h;
  put_keeps = λ f g i j a b s h. write_block-keeps s f g i j a b h;
}

abbrev fetch : List ℕ → ℕ → ℕ → Option (List ℕ)
fetch name o n = some (slice files.0 o n)

abbrev indexes : Result Idx.IndexError PackIndex → List PackIndex
indexes (ok index) = index ∷ []
indexes (err e) = []

abbrev storage : Storage unlimited
storage = record {
  block_cache = new unlimited 16 (λ f i. none);
  pack_indexes = indexes (parse (ascii "p") files.1);
  object_cache = [];
}

same_name :
    (oid : List ℕ)
    → IsSha oid
    → Idx.first_byte oid < 256
    → (sha : List ℕ) → hex.decode oid ≡ some sha
    → IsSha sha × (Idx.first_byte sha < 256)
same_name oid long small sha h =
    let same : oid ≡ sha = cc h in
    subst (λ s. IsSha s × (Idx.first_byte s < 256)) same (long, small)

fits : length (packed_object zlib hex sha1 crc second) ≤ 64 * 1024
unfolding packed_object entry_header size_loop type_num
fits = omega arith

not_cached : lookup_sha second.oid [] ≡ none
unfolding lookup_sha
not_cached = refl

not_older : (sha : List ℕ) → find_pack [] sha ≡ none
unfolding find_pack
not_older sha = refl

-- The last object of the pack, read through blocks of 16 bytes.
read_object_raw-created_example :
    Gives unlimited unlimited_laws zlib hex sha1 crc []
      (λ f. none)
      true
      fetch
      (λ f. files.0)
      16
      (ascii "p")
      (raw_of second)
      (read_object_raw unlimited zlib hex [] (λ f. none) true fetch 1 second.oid storage)
read_object_raw-created_example =
    read_object_raw-created unlimited unlimited_laws zlib hex sha1 crc [] (λ f. none) true fetch
      (λ f. files.0) 16 objects files.0 files.1 files.2 (ascii "p") 1 0 second storage [] []
      files_run refl
      (same_name first.oid refl (omega arith), (same_name second.oid refl (omega arith), tt))
      ((λ e. cc e, tt), (tt, tt)) (omega arith) (λ content. refl) (inl fits)
      (λ e. cc e, λ e. cc e, omega arith) refl (λ name o n x h. cc h)
      (new-Consistent unlimited unlimited_laws (λ f. files.0) 16 (λ f i. none) (omega arith)
        (λ f i. refl))
      (omega arith) not_cached (λ index read. ap indexes read) (λ sha h. not_older sha)

-- Offsets that are not in order: the object at 12 has the 6 bytes up to the next one.
abbrev places : PackIndex
places = record {
  pack_name = [];
  fanout = [];
  shas = [];
  offsets = 18 ∷ 12 ∷ 61 ∷ [];
  sorted_offsets = sort_offsets (18 ∷ 12 ∷ 61 ∷ []);
  pack_sha = [];
}

object_len-room_example : 6 ≤ object_len places 12
object_len-room_example =
    object_len-room places (18 ∷ 12 ∷ 61 ∷ []) 12 6 refl
      ((omega arith, (omega arith, tt)), ((omega arith, tt), (tt, tt))) (inr (inl refl))
      (λ h. omega arith, (λ h. omega arith, (λ h. omega arith, tt))) (inl (omega arith))
