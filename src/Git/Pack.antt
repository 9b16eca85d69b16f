-- ===== src/Git/Pack.antt =====
-- src/git/pack.rs: packs and the objects in them. The `flate2` crate is the parameter `Zlib`, the hash
-- and `hex` are parameters too. A position in the pack is the rest of its bytes, and an offset the number of bytes before.
pub mod Named
use git_nfs.Prelude.{ℕ, zero, suc, ◌+◌, ◌-◌, ◌*◌, ◌/◌, ◌^◌, Bool, not, ◌||◌, Option, none, some}
use git_nfs.Prelude.{List, [], ◌∷◌, ◌++◌, ◌==◌, ltb, leb, str_eq, if◌then◌else◌, length, take, drop}
use git_nfs.Prelude.{Result, ok, err, ◌>>=◌, ◌>>◌, guard, ok_or, ◌≡◌}
use git_nfs.Prelude.Assoc.{insert, lookup}
use Prim.Native.Nat.{bit_and, bit_or}
use git_nfs.Bytes.{from_be32, capacity_limit}
use git_nfs.Text.{ascii}
use git_nfs.Git.Tree.{Hex}
use git_nfs.Git.Objects.{
  ObjectType, commit, tree, blob, tag, ofs_delta, ref_delta, UnknownType, from_u8, compute_git_sha1,
}
use git_nfs.Git.Delta.{DeltaError, shl, has_bit, varint_loop, apply_git_delta}

-- `ZlibDecoder::read_to_end` with `total_in`, and `ZlibEncoder`: a stream is decompressed alike whatever
-- stands behind it.
pub record Zlib : Type 0 where
  pub compress : List ℕ → List ℕ
  pub decompress : List ℕ → Option (List ℕ × ℕ)
  pub decompress-compress :
      (content rest : List ℕ)
      → decompress (compress content ++ rest) ≡ some (content, length (compress content))

pub record GitRawObject : Type 0 where
  pub obj_type : ObjectType
  pub content : List ℕ

pub record PendingDelta : Type 0 where
  pub obj_offset : ℕ
  pub delta_type : ObjectType
  pub base_offset : Option ℕ
  pub base_sha : Option (List ℕ)
  pub delta_data : List ℕ

-- `stuck` is no error of the source: the rounds ran out of fuel. `capacity_overflow` is the panic of
-- `Vec::with_capacity` on the size in a header.
pub data PackError : Type 0 where
  too_short bad_magic unsupported_version eof negative_base decompressing : PackError
  unresolved capacity_overflow stuck : PackError
  bad_type : UnknownType → PackError
  bad_delta : DeltaError → PackError

abbrev pub map_err {ℓ} :
    {A : Type ℓ} {E : Type 0} → (E → PackError) → Result E A → Result PackError A
map_err f (ok a) = ok a
map_err f (err e) = err (f e)

-- The objects found so far, by name and by offset, and the deltas whose base is not known yet.
abbrev pub ObjectMap : Type 0
ObjectMap = List (List ℕ × GitRawObject)

unfoldable pub insert_sha : List ℕ → GitRawObject → ObjectMap → ObjectMap
insert_sha sha o [] = (sha, o) ∷ []
insert_sha sha o (e ∷ objects) =
    let rest = insert_sha sha o objects in if str_eq e.0 sha then (sha, o) ∷ objects else e ∷ rest

unfoldable pub lookup_sha : List ℕ → ObjectMap → Option GitRawObject
lookup_sha sha [] = none
lookup_sha sha (e ∷ objects) =
    let rest = lookup_sha sha objects in if str_eq e.0 sha then some e.1 else rest

pub record Unpacked : Type 0 where
  pub objects_by_offset : List (ℕ × (ObjectType × List ℕ × List ℕ))
  pub objects_by_sha : ObjectMap

-- The type and the size at the front of an object, and the rest.
unfoldable pub parse_header : List ℕ → Result PackError (ObjectType × ℕ × List ℕ)
parse_header [] = err eof
parse_header (c ∷ bytes) = do
  obj_type ← map_err bad_type (from_u8 (bit_and (c / 2 ^ 4) 7))
  (size, rest) ← map_err (λ e. eof) (varint_loop c (bit_and c 15) 4 bytes)
  ok (obj_type, size, rest)

-- The loop over the distance to the base, behind the byte `c`.
unfoldable pub distance_loop : ℕ → ℕ → List ℕ → Result PackError (ℕ × List ℕ)
distance_loop c distance [] = if has_bit 0x80 c then err eof else ok (distance, [])
distance_loop c distance (d ∷ bytes) =
    let more = distance_loop d (bit_or (shl (distance + 1) 7) (bit_and d 0x7f)) bytes in
    if has_bit 0x80 c then more else ok (distance, d ∷ bytes)

unfoldable pub parse_distance : List ℕ → Result PackError (ℕ × List ℕ)
parse_distance [] = err eof
parse_distance (c ∷ bytes) = distance_loop c (bit_and c 0x7f) bytes

unfoldable pub resolve_item_with :
    Hex → (List ℕ → List ℕ) → PendingDelta → GitRawObject → Unpacked → Result PackError Unpacked
resolve_item_with hex sha1 item base u = do
  resolved ← map_err bad_delta (apply_git_delta base.content item.delta_data)
  let sha = compute_git_sha1 hex sha1 base.obj_type resolved
  ok (record {
    objects_by_offset = insert item.obj_offset (base.obj_type, resolved, sha) u.objects_by_offset;
    objects_by_sha =
        insert_sha sha (record { obj_type = base.obj_type; content = resolved }) u.objects_by_sha;
  })

-- `base_info`
unfoldable pub find_base : PendingDelta → Unpacked → Option GitRawObject
find_base item u = elim item.base_offset [
  | some base_off ↦ elim (lookup base_off u.objects_by_offset) [
    | some (t, d, _) ↦ some (record { obj_type = t; content = d })
    | none ↦ none
  ]
  | none ↦ elim item.base_sha [ some base_sha ↦ lookup_sha base_sha u.objects_by_sha | none ↦ none ]
]

abbrev pub nothing_unpacked : Unpacked
nothing_unpacked = record { objects_by_offset = []; objects_by_sha = [] }

module _ (zlib : Zlib) (hex : Hex) (sha1 : List ℕ → List ℕ) where
  -- The decompressed bytes, and the rest behind the stream.
  unfoldable pub inflate : List ℕ → Result PackError (List ℕ × List ℕ)
  inflate bytes = elim (zlib.decompress bytes) [
    | none ↦ err decompressing
    | some (content, consumed) ↦ ok (content, drop consumed bytes)
  ]

  unfoldable pub add_base : ℕ → ObjectType → List ℕ → Unpacked → Unpacked
  add_base obj_offset base_type content u =
      let sha = compute_git_sha1 hex sha1 base_type content in
      record {
        objects_by_offset = insert obj_offset (base_type, content, sha) u.objects_by_offset;
        objects_by_sha =
            insert_sha sha (record { obj_type = base_type; content = content }) u.objects_by_sha;
      }

  -- A delta at `obj_offset` by the distance to its base.
  unfoldable pub read_ofs_delta : ℕ → List ℕ → Result PackError (PendingDelta × List ℕ)
  read_ofs_delta obj_offset bytes = do
    (base_offset_delta, bytes') ← parse_distance bytes
    guard (leb base_offset_delta obj_offset) negative_base
    (delta, rest) ← inflate bytes'
    ok (
      record {
        obj_offset = obj_offset;
        delta_type = ofs_delta;
        base_offset = some (obj_offset - base_offset_delta);
        base_sha = none;
        delta_data = delta;
      },
      rest,
    )

  -- A delta by the name of its base.
  unfoldable pub read_ref_delta : ℕ → List ℕ → Result PackError (PendingDelta × List ℕ)
  read_ref_delta obj_offset bytes = do
    guard (leb 20 (length bytes)) eof
    (delta, rest) ← inflate (drop 20 bytes)
    ok (
      record {
        obj_offset = obj_offset;
        delta_type = ref_delta;
        base_offset = none;
        base_sha = some (hex.encode (take 20 bytes));
        delta_data = delta;
      },
      rest,
    )

  -- An object that is no delta is stored, a delta is put off.
  unfoldable pub read_object :
      ℕ
      → ObjectType
      → ℕ
      → List ℕ
      → Unpacked × List PendingDelta
      → Result PackError ((Unpacked × List PendingDelta) × List ℕ)
  read_object obj_offset ofs_delta size bytes (u, pending) = do
    (item, rest) ← read_ofs_delta obj_offset bytes
    ok ((u, pending ++ item ∷ []), rest)
  read_object obj_offset ref_delta size bytes (u, pending) = do
    (item, rest) ← read_ref_delta obj_offset bytes
    ok ((u, pending ++ item ∷ []), rest)
  read_object obj_offset base_type size bytes (u, pending) = do
    guard (ltb size capacity_limit) capacity_overflow
    (content, rest) ← inflate bytes
    ok ((add_base obj_offset base_type content u, pending), rest)

  -- `for _ in 0..num_objects`, in a pack of `total` bytes.
  unfoldable pub read_objects :
      ℕ
      → ℕ
      → List ℕ
      → Unpacked × List PendingDelta
      → Result PackError (Unpacked × List PendingDelta)
  read_objects total zero bytes st = ok st
  read_objects total (suc n) bytes st = do
    (obj_type, size, bytes') ← parse_header bytes
    (st', rest) ← read_object (total - length bytes) obj_type size bytes' st
    read_objects total n rest st'

  -- One round over the pending deltas: those without a base remain.
  unfoldable pub resolve_round :
      List PendingDelta → Unpacked → Result PackError (Unpacked × List PendingDelta)
  resolve_round [] u = ok (u, [])
  resolve_round (item ∷ items) u = elim (find_base item u) [
    | some base ↦ resolve_item_with hex sha1 item base u >>= resolve_round items
    | none ↦ resolve_round items u >>= λ r. ok (r.0, item ∷ r.1)
  ]

  -- The rounds until no delta is pending. A round that resolves none is an error.
  unfoldable pub resolve_deltas : ℕ → List PendingDelta → Unpacked → Result PackError ObjectMap
  resolve_deltas fuel [] u = ok u.objects_by_sha
  resolve_deltas zero (item ∷ items) u = err stuck
  resolve_deltas (suc fuel) (item ∷ items) u = do
    (u', remaining) ← resolve_round (item ∷ items) u
    guard (not (length remaining == length (item ∷ items))) unresolved
    resolve_deltas fuel remaining u'

  -- Behind the magic number: the version, the number of objects and the objects. A round resolves a delta at least.
  unfoldable pub unpack_body : ℕ → List ℕ → Result PackError ObjectMap
  unpack_body total (v3 ∷ v2 ∷ v1 ∷ v0 ∷ n3 ∷ n2 ∷ n1 ∷ n0 ∷ bytes) = do
    let version = from_be32 v3 v2 v1 v0
    guard (version == 2 || version == 3) unsupported_version
    (u, pending) ← read_objects total (from_be32 n3 n2 n1 n0) bytes (nothing_unpacked, [])
    resolve_deltas (length pending) pending u
  unpack_body total _ = err too_short

  unfoldable pub unpack_packfile : List ℕ → Result PackError ObjectMap
  unpack_packfile pack = do
    guard (leb 12 (length pack)) too_short
    guard (str_eq (take 4 pack) (ascii "PACK")) bad_magic
    unpack_body (length pack) (drop 4 pack)
