-- ===== src/Cache/Block/Tests.antt =====
-- A block cache at a concrete input.
use git_nfs.Prelude.{ℕ, ◌≡◌, refl, List, [], ◌∷◌, Option, none, some, true, ok, str_eq, arith}
use git_nfs.Text.{split}
use git_nfs.Cache.Block.{
  Lru, BlockCache, new, write_block, extract_filename, last_piece, read_range, fetch_and_store,
  get_or_fetch_block, read_blocks, overlap,
}
use git_nfs.Cache.Block.Pieces.{slice}
use git_nfs.Cache.Block.Consistent.{LruLaws, write_block-keeps, new-Consistent, Answers}
use git_nfs.Cache.Block.Range.{read_range-Answers}

-- A map that forgets nothing.
abbrev unlimited : Lru
unlimited = record {
  Store = List ℕ → ℕ → Option (List ℕ);
  get = λ f i s. (s f i, s);
  put = λ f i b s. write_block s f i b;
}

unlimited_laws : LruLaws unlimited
unlimited_laws = record {
  get_keeps = λ f g i j b s h. h;
  put_keeps = λ f g i j a b s h. write_block-keeps s f g i j a b h;
}

abbrev pack : List ℕ
pack = 10 ∷ 11 ∷ 12 ∷ 13 ∷ 14 ∷ 15 ∷ 16 ∷ []

abbrev fetch : ℕ → ℕ → Option (List ℕ)
fetch o n = some (slice pack o n)

abbrev empty : BlockCache unlimited
empty = new unlimited 3 (λ f i. none)

-- `p/a`
abbrev name : List ℕ
name = b'p' ∷ b'/' ∷ b'a' ∷ []

-- The range ends behind the end of the packfile.
read_range_run : (read_range unlimited true fetch name 2 9 empty).0 ≡ ok (slice pack 2 9)
unfolding read_range fetch_and_store get_or_fetch_block read_blocks overlap extract_filename
    last_piece split str_eq
read_range_run = refl

read_range-Answers_example :
    Answers unlimited unlimited_laws
      (λ f. pack)
      3
      fetch
      (slice pack 2 9)
      (read_range unlimited true fetch name 2 9 empty)
read_range-Answers_example =
    read_range-Answers unlimited unlimited_laws (λ f. pack) 3 true fetch name 2 9 empty
      (λ o n x h. cc h)
      (new-Consistent unlimited unlimited_laws (λ f. pack) 3 (λ f i. none) (omega arith)
        (λ f i. refl))
      (omega arith)
