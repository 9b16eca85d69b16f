-- ===== src/Cache/Block/Consistent.antt =====
-- What a block cache may hold, and that getting a block keeps it so.
use git_nfs.Prelude.{
  ℕ, ◌+◌, ◌*◌, ◌<◌, ◌≡◌, refl, sym, ◌∙◌, List, if◌then◌else◌, ◌&&◌, ◌==◌, arith, Bool, Option-cases,
  Option, none, some, inl, inr, true, false, Result, ok, err, ◌⊎◌, str_eq, eq_of_str_eq,
}
use git_nfs.Prelude.Exec.{continue}
use git_nfs.Cache.Block.{
  Lru, BlockCache, new, extract_filename, write_block, fetch_and_store, get_or_fetch_block,
  BlockError, Cached,
}
use git_nfs.Cache.Block.Pieces.{slice}

-- What a map with a limit promises: a block that is found was put there under the same key, and
-- finding or forgetting a block makes up no other.
pub record LruLaws (lru : Lru) : Type 0 where
  pub get_keeps :
      (f g : List ℕ) (i j : ℕ) (b : List ℕ) (s : lru.Store)
      → (lru.get g j (lru.get f i s).1).0 ≡ some b
      → (lru.get g j s).0 ≡ some b
  pub put_keeps :
      (f g : List ℕ) (i j : ℕ) (a b : List ℕ) (s : lru.Store)
      → (lru.get g j (lru.put f i a s)).0 ≡ some b
      → ((f ≡ g) × (i ≡ j) × (a ≡ b)) ⊎ ((lru.get g j s).0 ≡ some b)

-- A write of a block changes that block only.
pub write_block-keeps :
    (blocks : List ℕ → ℕ → Option (List ℕ)) (f g : List ℕ) (i j : ℕ) (a b : List ℕ)
    → write_block blocks f i a g j ≡ some b
    → ((f ≡ g) × (i ≡ j) × (a ≡ b)) ⊎ (blocks g j ≡ some b)
write_block-keeps blocks f g i j a b h = go (str_eq f g && i == j) refl h
  where
    go :
        (t : Bool)
        → (str_eq f g && i == j) ≡ t
        → (if t then some a else blocks g j) ≡ some b
        → ((f ≡ g) × (i ≡ j) × (a ≡ b)) ⊎ (blocks g j ≡ some b)
    go true t r =
        let p : f ≡ g = eq_of_str_eq f g (ground (arith, t)) in
        let q : i ≡ j = ground (arith, t) in let z : a ≡ b = cc r in inl (p, q, z)
    go false t r = inr r

module _ (lru : Lru) (laws : LruLaws lru) (remote : List ℕ → List ℕ) where
  -- Everything that is cached is a part of a remote packfile.
  pub record Consistent (size : ℕ) (c : BlockCache lru) : Type 0 where
    pub sized : c.block_size ≡ size
    pub memory :
        (f : List ℕ) (i : ℕ) (b : List ℕ)
        → (lru.get f i c.memory_blocks).0 ≡ some b
        → b ≡ slice (remote f) (i * size) size
    pub disk :
        (f : List ℕ) (i : ℕ) (b : List ℕ)
        → c.blocks f i ≡ some b
        → b ≡ slice (remote f) (i * size) size
    pub packs : (f : List ℕ) (b : List ℕ) → c.full_packs f ≡ some b → b ≡ remote f

  -- A call gives the bytes that are expected, or a fetch of a block has failed. The cache holds nothing
  -- wrong afterwards.
  abbrev pub Answers :
      ℕ → (ℕ → ℕ → Option (List ℕ)) → List ℕ → Result BlockError (List ℕ) × BlockCache lru → Type 0
  Answers size fetch bytes (ok b, t) = (b ≡ bytes) × Consistent size t
  Answers size fetch bytes (err e, t) =
      ((i : ℕ) × (fetch (i * size) size ≡ none)) × Consistent size t

  -- A block that is right may be put into the memory.
  put-Consistent :
      (size : ℕ) (c : BlockCache lru) (f : List ℕ) (i : ℕ) (b : List ℕ)
      → Consistent size c
      → b ≡ slice (remote f) (i * size) size
      → (g : List ℕ) (j : ℕ) (x : List ℕ) → (lru.get g j (lru.put f i b c.memory_blocks)).0 ≡ some x
      → x ≡ slice (remote g) (j * size) size
  put-Consistent size c f i b v e g j x h = elim (laws.put_keeps f g i j b x c.memory_blocks h) [
    | inl (p, q, r) ↦ sym r ∙ e ∙ (rw (p, q) refl)
    | inr m ↦ v.memory g j x m
  ]

  write-Consistent :
      (size : ℕ) (writes : Bool) (c : BlockCache lru) (f : List ℕ) (i : ℕ) (b : List ℕ)
      → Consistent size c
      → b ≡ slice (remote f) (i * size) size
      → (g : List ℕ) (j : ℕ) (x : List ℕ)
      → (if writes then write_block c.blocks f i b else c.blocks) g j ≡ some x
      → x ≡ slice (remote g) (j * size) size
  write-Consistent size false c f i b v e g j x h = v.disk g j x h
  write-Consistent size true c f i b v e g j x h = elim (write_block-keeps c.blocks f g i j b x h) [
    | inl (p, q, r) ↦ sym r ∙ e ∙ rw (p, q) refl
    | inr m ↦ v.disk g j x m
  ]

  got-Consistent :
      (size : ℕ) (c : BlockCache lru) (f : List ℕ) (i : ℕ)
      → Consistent size c
      → Consistent size (record c { memory_blocks = (lru.get f i c.memory_blocks).1 })
  got-Consistent size c f i v = record {
    sized = v.sized;
    memory = λ g j b h. v.memory g j b (laws.get_keeps f g i j b c.memory_blocks h);
    disk = v.disk;
    packs = v.packs;
  }

  -- A new cache holds nothing, if its memory holds nothing.
  pub new-Consistent :
      (size : ℕ) (memory : lru.Store)
      → 0 < size
      → ((f : List ℕ) (i : ℕ) → (lru.get f i memory).0 ≡ none)
      → Consistent size (new lru size memory)
  new-Consistent size memory pos empty = record {
    sized = ground arith;
    memory = λ f i b h. absurd (cc (h, empty f i));
    disk = λ f i b h. cc h;
    packs = λ f b h. cc h;
  }

  module _ (size : ℕ) (writes : Bool) (fetch : ℕ → ℕ → Option (List ℕ)) where
    fetch_and_store-Answers :
        (f : List ℕ) (i : ℕ) (c : BlockCache lru)
        → ((o n : ℕ) (b : List ℕ) → fetch o n ≡ some b → b ≡ slice (remote f) o n)
        → Consistent size c
        → Answers size fetch
            (slice (remote f) (i * size) size)
            (fetch_and_store lru writes fetch f i c)
    unfolding fetch_and_store
    fetch_and_store-Answers f i c honest v = elim (Option-cases (fetch (i * size) size)) [
      | inl e ↦
          rw (fetch_and_store, v.sized, e)
            ((i, e), record { sized = v.sized; memory = v.memory; disk = v.disk; packs = v.packs })
      | inr (b, e) ↦
          let right : b ≡ slice (remote f) (i * size) size = honest (i * size) size b e in
          rw (fetch_and_store, v.sized, e)
            (
              right,
              record {
                sized = v.sized;
                memory = put-Consistent size c f i b v right;
                disk = write-Consistent size writes c f i b v right;
                packs = v.packs;
              },
            )
    ]

    -- With `hits` counted and the memory as it is after a block was put.
    stored-Consistent :
        (c : BlockCache lru) (f : List ℕ) (i : ℕ) (b : List ℕ) (hits : ℕ)
        → Consistent size c
        → b ≡ slice (remote f) (i * size) size
        → Consistent size (record c { hits = hits; memory_blocks = lru.put f i b c.memory_blocks })
    stored-Consistent c f i b hits v e = record {
      sized = v.sized;
      memory = put-Consistent size c f i b v e;
      disk = v.disk;
      packs = v.packs;
    }

    pub get_or_fetch_block-Answers :
        (pack_name : List ℕ) (i : ℕ) (c : BlockCache lru)
        → ((o n : ℕ) (b : List ℕ)
            → fetch o n ≡ some b
            → b ≡ slice (remote (extract_filename pack_name)) o n)
        → Consistent size c
        → Answers size fetch
            (slice (remote (extract_filename pack_name)) (i * size) size)
            (get_or_fetch_block lru writes fetch pack_name i c)
    unfolding get_or_fetch_block
    get_or_fetch_block-Answers pack_name i c honest v =
        let f = extract_filename pack_name in
        let got = got-Consistent size c f i v in
        elim (Option-cases (lru.get f i c.memory_blocks).0) [
          | inr (b, e) ↦
              rw (get_or_fetch_block, e)
                (
                  v.memory f i b e,
                  record { sized = v.sized; memory = got.memory; disk = v.disk; packs = v.packs },
                )
          | inl e ↦ elim (Option-cases (c.blocks f i)) [
            | inr (b, d) ↦
                rw (get_or_fetch_block, e, d)
                  (
                    v.disk f i b d,
                    stored-Consistent (record c { memory_blocks = (lru.get f i c.memory_blocks).1 })
                        f i b (c.hits + 1) got (v.disk f i b d),
                  )
            | inl d ↦ rw (get_or_fetch_block, e, d) (fetch_and_store-Answers f i _ honest got)
          ]
        ]

    pub Answers-continue :
        (r : Result BlockError (List ℕ) × BlockCache lru) (block bytes : List ℕ)
        (f : List ℕ → Cached lru (List ℕ))
        → Answers size fetch block r
        → ((t : BlockCache lru) → Consistent size t → Answers size fetch bytes (f block t))
        → Answers size fetch bytes (continue r.0 f r.1)
    Answers-continue (ok b, t) block bytes f (e, v) next = rw e (next t v)
    Answers-continue (err x, t) block bytes f a next = a
