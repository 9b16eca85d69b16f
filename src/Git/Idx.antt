-- ===== src/Git/Idx.antt =====
-- src/git/idx.rs: the index of a pack.
pub mod Search
pub mod Fanout
pub mod Tables
pub mod Parse
pub mod Sorted
pub mod Places
pub mod Find
pub mod Room
use git_nfs.Prelude.{ℕ, zero, suc, ◌+◌, ◌-◌, ◌*◌, ◌/◌, ◌^◌, Bool, ◌||◌, Option, none, some}
use git_nfs.Prelude.{List, [], ◌∷◌, ◌++◌, ◌==◌, ltb, leb, str_eq, if◌then◌else◌, length, take, drop}
use git_nfs.Prelude.{Result, ok, err, ◌>>=◌, ◌>>◌, guard, get_or, get_elem?}
use Prim.Native.Nat.{bit_and}
use git_nfs.Bytes.{from_be32}
use git_nfs.Text.{ascii}
use git_nfs.Git.Tree.{Hex}
use git_nfs.Git.Delta.{has_bit}
use git_nfs.Git.Builder.{Ordering, less, equal, greater, compare}

pub record PackIndex : Type 0 where
  pub pack_name : List ℕ
  pub fanout : List ℕ
  pub shas : List (List ℕ)
  pub offsets : List ℕ
  pub sorted_offsets : List ℕ
  pub pack_sha : List ℕ

pub data IndexError : Type 0 where
  too_short bad_magic unsupported_version truncated large_index : IndexError

-- `u32::from_be_bytes` of the first four bytes. The callers have checked that there are as many.
unfoldable pub u32_at : List ℕ → ℕ
u32_at (a ∷ b ∷ c ∷ d ∷ bytes) = from_be32 a b c d
u32_at _ = 0

-- A table of `n` numbers, and one of `n` pieces of `width` bytes.
unfoldable pub read_u32s : ℕ → List ℕ → List ℕ
read_u32s zero bytes = []
read_u32s (suc n) bytes = u32_at bytes ∷ read_u32s n (drop 4 bytes)

unfoldable pub read_chunks : ℕ → ℕ → List ℕ → List (List ℕ)
read_chunks width zero bytes = []
read_chunks width (suc n) bytes = take width bytes ∷ read_chunks width n (drop width bytes)

-- The offsets, of which the marked ones are positions in the table behind, at `large_table_start`.
unfoldable pub read_offsets : List ℕ → ℕ → List ℕ → Result IndexError (List ℕ)
read_offsets bytes large_table_start [] = ok []
read_offsets bytes large_table_start (raw ∷ raws) = do
  let start = large_table_start + bit_and raw 0x7fffffff * 8
  offset ←
      if has_bit 0x80000000 raw
      then if leb (start + 8) (length bytes - 40)
        then ok (u32_at (drop start bytes) * 2 ^ 32 + u32_at (drop (start + 4) bytes))
        else err large_index
      else ok raw
  rest ← read_offsets bytes large_table_start raws
  ok (offset ∷ rest)

-- `sort_unstable` of numbers.
unfoldable pub insert_offset : ℕ → List ℕ → List ℕ
insert_offset a [] = a ∷ []
insert_offset a (b ∷ offsets) =
    let rest = insert_offset a offsets in if ltb b a then b ∷ rest else a ∷ b ∷ offsets

unfoldable pub sort_offsets : List ℕ → List ℕ
sort_offsets [] = []
sort_offsets (a ∷ offsets) = insert_offset a (sort_offsets offsets)

unfoldable pub parse : List ℕ → List ℕ → Result IndexError PackIndex
parse pack_name bytes = do
  guard (leb (8 + 1024 + 40) (length bytes)) too_short
  guard (str_eq (take 4 bytes) (255 ∷ ascii "tOc")) bad_magic
  guard (u32_at (drop 4 bytes) == 2) unsupported_version
  let fanout = read_u32s 256 (drop 8 bytes)
  let num_objects = get_or fanout 255 0
  let shas_start = 8 + 1024
  let offsets_start = shas_start + num_objects * 20 + num_objects * 4
  let offsets_end = offsets_start + num_objects * 4
  guard (leb (offsets_end + 40) (length bytes)) truncated
  offsets ← read_offsets bytes offsets_end (read_u32s num_objects (drop offsets_start bytes))
  ok (record {
    pack_name = pack_name;
    fanout = fanout;
    shas = read_chunks 20 num_objects (drop shas_start bytes);
    offsets = offsets;
    sorted_offsets = sort_offsets offsets;
    pack_sha = take 20 (drop (length bytes - 40) bytes);
  })

-- `binary_search_by` of the standard library: the place of an element that `f` calls equal, if `f` calls
-- those before it less and those behind it greater. Half of the `size` elements from `base` on are left after a round.
unfoldable pub halve {ℓ} : {A : Type ℓ} → (A → Ordering) → List A → ℕ → ℕ → ℕ
halve f l base mid = elim (get_elem? l mid) [
  | none ↦ base
  | some x ↦ elim (f x) [ greater ↦ base | less ↦ mid | equal ↦ mid ]
]

unfoldable pub search_loop {ℓ} : {A : Type ℓ} → ℕ → (A → Ordering) → List A → ℕ → ℕ → ℕ
search_loop zero f l base size = base
search_loop (suc fuel) f l base size =
    let rest = search_loop fuel f l (halve f l base (base + size / 2)) (size - size / 2) in
    if ltb 1 size then rest else base

unfoldable pub binary_search {ℓ} : {A : Type ℓ} → (A → Ordering) → List A → Option ℕ
binary_search f l =
    let base = search_loop (length l) f l 0 (length l) in
    elim (get_elem? l base) [
      | none ↦ none
      | some x ↦ elim (f x) [ equal ↦ some base | less ↦ none | greater ↦ none ]
    ]

abbrev pub compare_num : ℕ → ℕ → Ordering
compare_num a b = if ltb a b then less else if ltb b a then greater else equal

unfoldable pub get_object_len_at_offset : PackIndex → ℕ → Option ℕ
get_object_len_at_offset idx offset =
    elim (binary_search (λ o. compare_num o offset) idx.sorted_offsets) [
      | none ↦ none
      | some sorted_idx ↦
          if ltb (sorted_idx + 1) (length idx.sorted_offsets)
          then some (get_or idx.sorted_offsets (sorted_idx + 1) 0 - offset)
          else none
    ]

-- The offset of an object and the room up to the next one, for the last one 64 KB. A name has 20 bytes.
unfoldable pub object_len : PackIndex → ℕ → ℕ
object_len idx offset = elim (get_object_len_at_offset idx offset) [
  | some len ↦ len
  | none ↦ 64 * 1024
]

abbrev pub first_byte : List ℕ → ℕ
first_byte sha = get_or sha 0 0

abbrev pub fanout_low : PackIndex → ℕ → ℕ
fanout_low idx first = if first == 0 then 0 else get_or idx.fanout (first - 1) 0

unfoldable pub find_offset : PackIndex → List ℕ → Option (ℕ × ℕ)
find_offset idx sha =
    let low = fanout_low idx (first_byte sha) in
    let high = get_or idx.fanout (first_byte sha) 0 in
    if leb high low || ltb (length idx.shas) high
    then none
    else elim (binary_search (λ s. compare s sha) (take (high - low) (drop low idx.shas))) [
      | none ↦ none
      | some pos ↦
          let offset = get_or idx.offsets (low + pos) 0 in some (offset, object_len idx offset)
    ]

unfoldable pub object_count : PackIndex → ℕ
object_count idx = length idx.shas

unfoldable pub pack_sha_hex : Hex → PackIndex → List ℕ
pack_sha_hex hex idx = hex.encode idx.pack_sha
