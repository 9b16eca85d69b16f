-- ===== src/Cache/Block.antt =====
-- src/cache/block.rs: the block cache of packfiles. The bounded map of the `lru` crate is the parameter
-- `Lru`. One request runs alone: waiting for another request that fetches the same block is not
-- modelled. Reading a file that is there succeeds; whether a block can be written is the parameter
-- `writes`.
pub mod Pieces
pub mod Consistent
pub mod Range
mod Tests
use git_nfs.Prelude.{
  ℕ, zero, suc, ◌+◌, ◌-◌, ◌*◌, ◌/◌, ◌<◌, Bool, true, false, Option, none, some, is_some, ◌||◌, List,
  [], ◌∷◌, ◌++◌, min, max, length, take, drop, ◌==◌, ltb, leb, str_eq, if◌then◌else◌, Result, ok,
  err, ◌&&◌,
}
use git_nfs.Prelude.Exec.{Exec, pure, continue, ◌>>=◌, ◌>>◌}
use git_nfs.Text.{split}

-- A map with a limit, keyed by a file name and a block index.
pub record Lru : Type 1 where
  pub Store : Type 0
  pub get : List ℕ → ℕ → Store → Option (List ℕ) × Store
  pub put : List ℕ → ℕ → List ℕ → Store → Store

pub data BlockError : Type 0 where
  fetch_failed : BlockError

abbrev pub default_block_size : ℕ
default_block_size = 10 * 1024 * 1024

-- `rsplit('/').next()`
unfoldable pub last_piece : List (List ℕ) → List ℕ
last_piece [] = []
last_piece (p ∷ []) = p
last_piece (p ∷ q ∷ ps) = last_piece (q ∷ ps)

unfoldable pub extract_filename : List ℕ → List ℕ
extract_filename pack_name = last_piece (split b'/' pack_name)

-- `block_path`: the file's blocks, by the file name and the index.
abbrev pub write_block :
    (List ℕ → ℕ → Option (List ℕ)) → List ℕ → ℕ → List ℕ → List ℕ → ℕ → Option (List ℕ)
write_block blocks filename index block f i =
    if str_eq filename f && index == i then some block else blocks f i

-- What the block at `start` gives to the range of `len` bytes from `offset` on.
unfoldable pub overlap : ℕ → ℕ → ℕ → List ℕ → List ℕ
overlap offset len start block =
    let overlap_start = max offset start - start in
    let overlap_end = min (offset + len) (start + length block) - start in
    if ltb overlap_start (length block)
    then take (min overlap_end (length block) - overlap_start) (drop overlap_start block)
    else []

-- `read_at` on the whole packfile.
unfoldable pub read_full : List ℕ → ℕ → ℕ → List ℕ
read_full file offset len =
    if leb (length file) offset
    then []
    else take (min len (length file - offset)) (drop offset file)

module _ (lru : Lru) where
  -- The disk has whole packfiles and single blocks.
  pub record BlockCache : Type 0 where
    pub block_size : ℕ
    pub memory_blocks : lru.Store
    pub full_packs : List ℕ → Option (List ℕ)
    pub blocks : List ℕ → ℕ → Option (List ℕ)
    pub hits : ℕ
    pub misses : ℕ

  abbrev pub Cached {ℓ} : Type ℓ → Type ℓ
  Cached A = Exec BlockCache BlockError A

  abbrev pub new : ℕ → lru.Store → BlockCache
  new block_size memory = record {
    block_size = if block_size == 0 then default_block_size else block_size;
    memory_blocks = memory;
    full_packs = λ f. none;
    blocks = λ f i. none;
    hits = 0;
    misses = 0;
  }

  unfoldable pub has_block : List ℕ → ℕ → BlockCache → Bool
  has_block pack_name block_index c =
      let filename = extract_filename pack_name in
      let in_memory = is_some (lru.get filename block_index c.memory_blocks).0 in
      let on_disk = is_some (c.blocks filename block_index) in
      in_memory || on_disk || is_some (c.full_packs filename)

  -- `fetch_block` at an offset and a size.
  module _ (writes : Bool) (fetch_block : ℕ → ℕ → Option (List ℕ)) where
    unfoldable pub fetch_and_store : List ℕ → ℕ → Cached (List ℕ)
    fetch_and_store filename block_index c =
        elim (fetch_block (block_index * c.block_size) c.block_size) [
          | none ↦ (err fetch_failed, record c { misses = c.misses + 1 })
          | some block ↦ (
            ok block,
            record c {
              misses = c.misses + 1;
              blocks = if writes then write_block c.blocks filename block_index block else c.blocks;
              memory_blocks = lru.put filename block_index block c.memory_blocks;
            },
          )
        ]

    unfoldable pub get_or_fetch_block : List ℕ → ℕ → Cached (List ℕ)
    get_or_fetch_block pack_name block_index c =
        let filename = extract_filename pack_name in
        let r = lru.get filename block_index c.memory_blocks in
        elim r.0 [
          | some block ↦ (ok block, record c { memory_blocks = r.1; hits = c.hits + 1 })
          | none ↦ elim (c.blocks filename block_index) [
            | some block ↦ (
              ok block,
              record c {
                hits = c.hits + 1;
                memory_blocks = lru.put filename block_index block r.1;
              },
            )
            | none ↦ fetch_and_store filename block_index (record c { memory_blocks = r.1 })
          ]
        ]

    -- `count` blocks from the block `b` on; `result` is what was read before.
    unfoldable pub read_blocks : List ℕ → ℕ → ℕ → ℕ → ℕ → List ℕ → Cached (List ℕ)
    read_blocks pack_name offset len zero b result = pure result
    read_blocks pack_name offset len (suc count) b result = do
      block ← get_or_fetch_block pack_name b
      λ c.
          let result' = result ++ overlap offset len (b * c.block_size) block in
          elim (ltb (length block) c.block_size) [
            | true ↦ (ok result', c)
            | false ↦ read_blocks pack_name offset len count (suc b) result' c
          ]

    unfoldable pub read_range : List ℕ → ℕ → ℕ → Cached (List ℕ)
    read_range pack_name offset len c = elim (len == 0) [
      | true ↦ (ok [], c)
      | false ↦ elim (c.full_packs (extract_filename pack_name)) [
        | some file ↦ (ok (read_full file offset len), c)
        | none ↦
            let start_block = offset / c.block_size in
            let end_block = (offset + len - 1) / c.block_size in
            read_blocks pack_name offset len (end_block + 1 - start_block) start_block [] c
      ]
    ]
