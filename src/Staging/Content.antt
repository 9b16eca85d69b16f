-- ===== src/Staging/Content.antt =====
-- What a write and a truncation leave in a staged file, byte by byte.
use git_nfs.Prelude.{ℕ, suc, ◌+◌, ◌-◌, ◌≡◌, refl, max, Option, none, some}
use git_nfs.Prelude.{List, ◌∷◌, ◌++◌, length, take, drop, replicate, get_elem?, arith}
use git_nfs.Prelude.{◌≢◌, ltb, if◌then◌else◌, ok}
use git_nfs.Prelude.{length-append, length-take, length-drop, length-replicate}
use git_nfs.Prelude.{get_elem?-append, get_elem?-take, get_elem?-replicate}
use git_nfs.Prelude.{get_elem?-drop_le}
use git_nfs.Staging.{StagingStore, write_bytes, set_len, base_content, write_at, truncate}
use git_nfs.Staging.{get_staged_content, get_size, is_staged}
use git_nfs.Prelude.Assoc.{lookup-insert}

module _ (file : List ℕ) where
  padded : ℕ → List ℕ
  padded size = file ++ replicate (size - length file) 0

  length-padded : (size : ℕ) → length (padded size) ≡ max (length file) size
  unfolding padded
  length-padded size = omega (
    arith,
    length-append file (replicate (size - length file) 0),
    length-replicate {A = ℕ} (size - length file) 0,
  )

  -- The file's bytes, and zeros behind its end up to `size`.
  get_elem?-padded :
      (size i : ℕ)
      → get_elem? (padded size) i
        ≡ (if ltb i (length file) then get_elem? file i else if ltb i size then some 0 else none)
  unfolding padded
  get_elem?-padded size i = ground (
    arith,
    get_elem?-append file (replicate (size - length file) 0) i,
    get_elem?-replicate {A = ℕ} (size - length file) 0 (i - length file),
  )

  pub length-set_len : (size : ℕ) → length (set_len file size) ≡ size
  unfolding set_len
  length-set_len size =
      unfold padded in omega (arith, length-take size (padded size), length-padded size)

  pub get_elem?-set_len :
      (size i : ℕ)
      → get_elem? (set_len file size) i
        ≡ (if ltb i size then if ltb i (length file) then get_elem? file i else some 0 else none)
  unfolding set_len padded
  get_elem?-set_len size i =
      ground (arith, get_elem?-take size (padded size) i, get_elem?-padded size i)

  module _ (offset b : ℕ) (bytes : List ℕ) where
    pub length-write_bytes :
        length (write_bytes file offset (b ∷ bytes))
        ≡ max (length file) (offset + suc (length bytes))
    unfolding write_bytes padded
    length-write_bytes = omega (
      arith,
      length-append (take offset (padded offset))
          ((b ∷ bytes) ++ drop (offset + suc (length bytes)) file),
      length-append (b ∷ bytes) (drop (offset + suc (length bytes)) file),
      length-take offset (padded offset),
      length-padded offset,
      length-drop (offset + suc (length bytes)) file,
    )

    pub get_elem?-write_bytes :
        (i : ℕ)
        → get_elem? (write_bytes file offset (b ∷ bytes)) i ≡ (
            if ltb i offset
            then if ltb i (length file) then get_elem? file i else some 0
            else if ltb i (offset + suc (length bytes))
            then get_elem? (b ∷ bytes) (i - offset)
            else get_elem? file i)
    unfolding write_bytes padded
    get_elem?-write_bytes i =
        let n = offset + suc (length bytes) in
        ground (
          arith,
          get_elem?-append (take offset (padded offset)) ((b ∷ bytes) ++ drop n file) i,
          length-take offset (padded offset),
          length-padded offset,
          get_elem?-take offset (padded offset) i,
          get_elem?-padded offset i,
          get_elem?-append (b ∷ bytes) (drop n file) (i - offset),
          get_elem?-drop_le n file i (i - offset - suc (length bytes)),
        )

-- A node's file after a write of the bytes `b ∷ bytes` at `offset`: `old` was its content before.
pub record Written (before after : StagingStore) (id size offset b : ℕ) (bytes old : List ℕ)
    : Type 0 where
  pub file : List ℕ
  pub content : get_staged_content after id ≡ ok (some file)
  pub recorded : get_size after id ≡ some size
  pub length_file : length file ≡ size
  pub size_eq : size ≡ max (length old) (offset + suc (length bytes))
  pub elems :
      (i : ℕ)
      → get_elem? file i ≡ (
          if ltb i offset
          then if ltb i (length old) then get_elem? old i else some 0
          else if ltb i (offset + suc (length bytes))
          then get_elem? (b ∷ bytes) (i - offset)
          else get_elem? old i)
  pub others : (j : ℕ) → j ≢ id → after.files j ≡ before.files j

-- A write of at least one byte at `offset`, whatever the node's file was: it is staged with the
-- length reported, its bytes are the old ones before `offset` (zeros where the old file was
-- shorter), then the written ones, then the old ones, and every other node's file is untouched.
pub write_at_lem :
    (s : StagingStore) (id offset b : ℕ) (bytes : List ℕ) (initial_data : Option (List ℕ))
    → Written s
        (write_at s id offset (b ∷ bytes) initial_data).0
        id
        (write_at s id offset (b ∷ bytes) initial_data).1
        offset
        b
        bytes
        (base_content s id initial_data)
unfolding write_at get_staged_content get_size is_staged
write_at_lem s id offset b bytes initial_data =
    let old = base_content s id initial_data in
    let file = write_bytes old offset (b ∷ bytes) in
    record {
      file = file;
      content = ground (arith, lookup-insert id id (length file) s.staged_nodes);
      recorded = ground (arith, lookup-insert id id (length file) s.staged_nodes);
      length_file = refl;
      size_eq = length-write_bytes old offset b bytes;
      elems = get_elem?-write_bytes old offset b bytes;
      others = λ j other. ground arith;
    }

-- A node's file after a truncation to `size`: `old` was its content before.
pub record Truncated (before after : StagingStore) (id size : ℕ) (old : List ℕ) : Type 0 where
  pub file : List ℕ
  pub content : get_staged_content after id ≡ ok (some file)
  pub recorded : get_size after id ≡ some size
  pub length_file : length file ≡ size
  pub elems :
      (i : ℕ)
      → get_elem? file i
        ≡ (if ltb i size then if ltb i (length old) then get_elem? old i else some 0 else none)
  pub others : (j : ℕ) → j ≢ id → after.files j ≡ before.files j

-- A truncation stages the node with exactly `new_size` bytes: the old ones up to there, and zeros
-- where the old file was shorter. Every other node's file is untouched.
pub truncate_lem :
    (s : StagingStore) (id new_size : ℕ) (initial_data : Option (List ℕ))
    → Truncated s (truncate s id new_size initial_data) id new_size (base_content s id initial_data)
unfolding truncate get_staged_content get_size is_staged
truncate_lem s id new_size initial_data =
    let old = base_content s id initial_data in
    record {
      file = set_len old new_size;
      content = ground (arith, lookup-insert id id new_size s.staged_nodes);
      recorded = ground (arith, lookup-insert id id new_size s.staged_nodes);
      length_file = length-set_len old new_size;
      elems = get_elem?-set_len old new_size;
      others = λ j other. ground arith;
    }
