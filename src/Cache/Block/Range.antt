-- ===== src/Cache/Block/Range.antt =====
-- A range that is read through the blocks is the range of the remote packfile.
use git_nfs.Prelude.{
  ℕ, zero, suc, ◌+◌, ◌-◌, ◌*◌, ◌/◌, ◌%◌, ◌≤◌, ◌<◌, ◌≡◌, ap, sym, ◌∙◌, subst, List, [], ◌++◌, min,
  max, length, ltb, ltb→lt, ◌==◌, leb, arith, Bool, Bool-cases, Option-cases, Option, some, inl,
  inr, take_nil, leb→le, drop_of_length-le,
}
use native.Mathlib.Nat.{div-add-mod', mod-lt, le-div_iff_mul-le}
use git_nfs.Cache.Block.{
  Lru, BlockCache, extract_filename, overlap, read_full, get_or_fetch_block, read_blocks,
  read_range,
}
use git_nfs.Cache.Block.Pieces.{slice, slice-same, slice-add, overlap-block, length-slice}
use git_nfs.Cache.Block.Consistent.{
  LruLaws, Consistent, Answers, get_or_fetch_block-Answers, Answers-continue,
}

-- Reading the whole file.
read_full-slice :
    (file : List ℕ) (offset len : ℕ) → read_full file offset len ≡ slice file offset len
unfolding read_full
read_full-slice file offset len = elim (Bool-cases (leb (length file) offset)) [
  | inl e ↦ rw (e, drop_of_length-le offset file (leb→le _ _ e)) (sym (take_nil len))
  | inr e ↦ rw e (slice-same file offset (min len (length file - offset)) len (omega arith))
]

-- Behind a block that is shorter than `s` there is nothing.
short :
    (l a s o len n : ℕ)
    → n ≡ min s (l - a)
    → n < s
    → min (min (a + s - o) len) (l - o) ≡ min len (l - o)
short l a s o len n e h = omega arith

module _ (lru : Lru) (laws : LruLaws lru) (remote : List ℕ → List ℕ) where
  module _ (size : ℕ) (writes : Bool) (fetch : ℕ → ℕ → Option (List ℕ)) where
    -- The bytes read before a block and the bytes that the block gives.
    joined :
        (xs : List ℕ) (offset len a : ℕ)
        → 0 < size
        → a < offset + len
        → offset < a + size
        → slice xs offset (min (a - offset) len) ++ overlap offset len a (slice xs a size)
          ≡ slice xs offset (min (a + size - offset) len)
    joined xs offset len a pos h k =
        let lo = max offset a in
        let m : offset + min (a - offset) len ≡ lo = omega arith in
        let n : min (a - offset) len + (min (offset + len) (a + size) - lo)
            ≡ min (a + size - offset) len =
          omega arith in
        ap (λ t. slice xs offset (min (a - offset) len) ++ t)
          (overlap-block xs offset len a size h k pos
            ∙ ap (λ o. slice xs o (min (offset + len) (a + size) - lo)) (sym m))
        ∙ slice-add xs offset (min (a - offset) len) (min (offset + len) (a + size) - lo)
        ∙ ap (slice xs offset) n

    -- The loop has read the range up to the block `b`, and reads the rest of it.
    read_blocks-Answers :
        (pack_name : List ℕ) (offset len count b : ℕ) (result : List ℕ) (c : BlockCache lru)
        → ((o n : ℕ) (x : List ℕ)
            → fetch o n ≡ some x
            → x ≡ slice (remote (extract_filename pack_name)) o n)
        → Consistent lru laws remote size c
        → 0 < size
        → offset < b * size + size
        → offset + len ≤ (b + count) * size
        → (b + count) * size < offset + len + size
        → result ≡ slice (remote (extract_filename pack_name)) offset (min (b * size - offset) len)
        → Answers lru laws remote size fetch
            (slice (remote (extract_filename pack_name)) offset len)
            (read_blocks lru writes fetch pack_name offset len count b result c)
    unfolding read_blocks
    read_blocks-Answers pack_name offset len zero b result c honest v pos h1 h2 h3 e =
        let z : min (b * size - offset) len ≡ len = omega arith in
        (e ∙ ap (slice (remote (extract_filename pack_name)) offset) z, v)
    read_blocks-Answers pack_name offset len (suc count) b result c honest v pos h1 h2 h3 e =
        let xs = remote (extract_filename pack_name) in
        let block = slice xs (b * size) size in
        let m : b * size < offset + len = omega arith in
        let all : result ++ overlap offset len (b * size) block
            ≡ slice xs offset (min (b * size + size - offset) len) =
          rw e (joined xs offset len (b * size) pos m h1) in
        Answers-continue lru laws remote size writes fetch
          (get_or_fetch_block lru writes fetch pack_name b c) block (slice xs offset len) _
          (get_or_fetch_block-Answers lru laws remote size writes fetch pack_name b c honest v)
          (λ t w.
            let here : result ++ overlap offset len (b * t.block_size) block
                ≡ slice xs offset (min (b * size + size - offset) len) =
              ap (λ s. result ++ overlap offset len (b * s) block) w.sized ∙ all in
            elim (Bool-cases (ltb (length block) t.block_size)) [
              | inl d ↦ rw d (
                here
                    ∙ slice-same xs offset (min (b * size + size - offset) len) len (
                        short (length xs) (b * size) size offset len (length block)
                          (length-slice xs (b * size) size)
                          (subst (λ s. length block < s) w.sized
                            (ltb→lt (length block) t.block_size d))),
                w,
              )
              | inr d ↦ rw d (
                  read_blocks-Answers pack_name offset len count (suc b) _ _ honest w pos
                    (omega arith) (omega arith) (omega arith)
                    (here
                      ∙ (let n : min (b * size + size - offset) len
                              ≡ min (suc b * size - offset) len =
                            omega arith in
                          ap (slice xs offset) n)))
            ])

    -- The blocks from the one that holds the first byte to the one that holds the last byte.
    all_blocks-Answers :
        (pack_name : List ℕ) (offset len q : ℕ) (c : BlockCache lru)
        → ((o n : ℕ) (x : List ℕ)
            → fetch o n ≡ some x
            → x ≡ slice (remote (extract_filename pack_name)) o n)
        → Consistent lru laws remote size c
        → 0 < size
        → 0 < len
        → q ≡ size
        → Answers lru laws remote size fetch
            (slice (remote (extract_filename pack_name)) offset len)
            (read_blocks lru writes fetch pack_name offset len
              ((offset + len - 1) / q + 1 - offset / q)
              (offset / q)
              []
              c)
    all_blocks-Answers pack_name offset len q c honest v pos l s =
        let f1 : offset / size * size + offset % size ≡ offset = div-add-mod' offset size in
        let f2 : offset % size < size = mod-lt offset pos in
        let l1 : (offset + len - 1) / size * size + (offset + len - 1) % size ≡ offset + len - 1 =
          div-add-mod' (offset + len - 1) size in
        let l2 : (offset + len - 1) % size < size = mod-lt (offset + len - 1) pos in
        let z : 0 ≡ min (offset / size * size - offset) len = omega (arith, f1) in
        let n : offset / size + ((offset + len - 1) / size + 1 - offset / size)
            ≡ (offset + len - 1) / size + 1 =
          let le : offset / size ≤ (offset + len - 1) / size =
            (le-div_iff_mul-le pos).1 (omega (arith, f1)) in
          omega (arith, le) in
        rw s (
          read_blocks-Answers pack_name offset len _ (offset / size) [] c honest v pos
            (omega (arith, f1, f2)) (rw n (omega (arith, l1, l2))) (rw n (omega (arith, l1, l2)))
            (ap (slice (remote (extract_filename pack_name)) offset) z))

    -- Reading a range of the cached packfile, whether it is cached whole, in blocks or not at all, gives
    -- that range of the remote packfile, cut at its end, or a fetch of a block has failed. It needs a
    -- cache that is consistent with the remote packfiles, and what a fetch returns to be what it was
    -- asked for; the cache is consistent afterwards too.
    pub read_range-Answers :
        (pack_name : List ℕ) (offset len : ℕ) (c : BlockCache lru)
        → ((o n : ℕ) (x : List ℕ)
            → fetch o n ≡ some x
            → x ≡ slice (remote (extract_filename pack_name)) o n)
        → Consistent lru laws remote size c
        → 0 < size
        → Answers lru laws remote size fetch
            (slice (remote (extract_filename pack_name)) offset len)
            (read_range lru writes fetch pack_name offset len c)
    unfolding read_range read_full
    read_range-Answers pack_name offset len c honest v pos =
        let f = extract_filename pack_name in
        elim (Bool-cases (len == 0)) [
          | inl e ↦
              let z : 0 ≡ len = ground (arith, e) in
              rw (read_range, e) (ap (slice (remote f) offset) z, v)
          | inr e ↦ elim (Option-cases (c.full_packs f)) [
            | inr (file, p) ↦
                rw (read_range, e, p)
                  (
                    read_full-slice file offset len
                        ∙ ap (λ x. slice x offset len) (v.packs f file p),
                    v,
                  )
            | inl p ↦
                rw (read_range, e, p)
                  (all_blocks-Answers pack_name offset len c.block_size c honest v pos
                    (ground (arith, e)) v.sized)
          ]
        ]
