-- ===== src/Staging/Reads.antt =====
-- Reading a staged file in pieces.
use git_nfs.Prelude.{
  ℕ, ◌+◌, ◌-◌, ◌≤◌, ◌≡◌, refl, ◌↔◌, ap, sym, ◌∙◌, Bool, true, List, ◌∷◌, ◌++◌, min, ap,
}
use git_nfs.Prelude.{leb, arith, length, take, drop, length-take, length-drop}
use git_nfs.Prelude.{
  take-add, drop-drop, take-min, take_nil, drop_of_length-le, Bool-cases, inl, inr,
}
use git_nfs.Prelude.{leb→le, ok, Option, some}
use git_nfs.Prelude.{
  replicate, length-append, length-replicate, drop-length_append, take-length_append,
}
use git_nfs.Prelude.Assoc.{lookup, lookup-insert}
use git_nfs.Staging.{
  StagingStore, read_file, read_at, get_staged_content, write_bytes, write_at, base_content,
  is_staged,
}

-- A read is the slice of the file, whatever the offset and the count.
pub read_file-slice :
    (file : List ℕ) (offset count : ℕ)
    → (read_file file offset count).0 ≡ take count (drop offset file)
unfolding read_file
read_file-slice file offset count = elim (Bool-cases (leb (length file) offset)) [
  | inl e ↦ rw (e, drop_of_length-le offset file (leb→le _ _ e)) (sym (take_nil count))
  | inr e ↦ rw e (
      ap (λ n. take (min count n) (drop offset file)) (sym (length-drop offset file))
      ∙ take-min count (drop offset file))
]

-- The flag is set exactly when the bytes returned reach the end of the file.
pub read_file-eof :
    (file : List ℕ) (offset count : ℕ)
    → ((read_file file offset count).1 ≡ true)
      ↔ (length file ≤ offset + length (read_file file offset count).0)
unfolding read_file
read_file-eof file offset count = ground (
  arith,
  length-drop offset file,
  length-take (min count (length file - offset)) (drop offset file),
)

-- Two reads, the second where the first ends, beside one read of both counts.
pub record Pieces (s : StagingStore) (id offset n m : ℕ) (file : List ℕ) : Type 0 where
  pub first : List ℕ
  pub second : List ℕ
  pub first_eof : Bool
  pub second_eof : Bool
  pub both_eof : Bool
  pub read_first : read_at s id offset n ≡ some (first, first_eof)
  pub read_second : read_at s id (offset + n) m ≡ some (second, second_eof)
  pub read_both : read_at s id offset (n + m) ≡ some (first ++ second, both_eof)
  pub at_end : (both_eof ≡ true) ↔ (length file ≤ offset + length (first ++ second))

-- For a staged node: a read of `n` bytes and one of `m` bytes behind it return together what one
-- read of `n + m` bytes returns, and a read sets the end flag exactly when it reaches the end.
pub read_at_split :
    (s : StagingStore) (id offset n m : ℕ) (file : List ℕ)
    → get_staged_content s id ≡ ok (some file)
    → Pieces s id offset n m file
unfolding read_at get_staged_content
read_at_split s id offset n m file h =
    let joined : (read_file file offset (n + m)).0
        ≡ (read_file file offset n).0 ++ (read_file file (offset + n) m).0 =
      rw (
        read_file-slice file offset (n + m),
        read_file-slice file offset n,
        read_file-slice file (offset + n) m,
        take-add n m (drop offset file),
        drop-drop offset n file,
      ) in
    record {
      first = (read_file file offset n).0;
      second = (read_file file (offset + n) m).0;
      first_eof = (read_file file offset n).1;
      second_eof = (read_file file (offset + n) m).1;
      both_eof = (read_file file offset (n + m)).1;
      read_first = ground arith;
      read_second = ground arith;
      read_both = ground (arith, joined);
      at_end = rw (← joined) (read_file-eof file offset (n + m));
    }

-- What was written is read back.
pub write_bytes-slice :
    (file : List ℕ) (offset b : ℕ) (bytes : List ℕ)
    → take (length (b ∷ bytes)) (drop offset (write_bytes file offset (b ∷ bytes))) ≡ b ∷ bytes
unfolding write_bytes
write_bytes-slice file offset b bytes =
    let padded = file ++ replicate (offset - length file) 0 in
    let front = take offset padded in
    let back = drop (offset + length (b ∷ bytes)) file in
    let exact : length front ≡ offset = omega (
      arith,
      length-take offset padded,
      length-append file (replicate (offset - length file) 0),
      length-replicate {A = ℕ} (offset - length file) 0,
    ) in
    ap (take (length (b ∷ bytes))) (
      ap (λ n. drop n (front ++ ((b ∷ bytes) ++ back))) (sym exact)
      ∙ drop-length_append front ((b ∷ bytes) ++ back))
    ∙ take-length_append (b ∷ bytes) back

read_at_staged :
    (s : StagingStore) (id offset count size : ℕ) (file : List ℕ)
    → lookup id s.staged_nodes ≡ some size
    → s.files id ≡ some file
    → read_at s id offset count ≡ some (read_file file offset count)
unfolding read_at is_staged
read_at_staged s id offset count size file staged has = rw (staged, has, is_staged) refl

-- A read of the range of a write gives what was written.
pub read_at-write_at :
    (s : StagingStore) (id offset b : ℕ) (bytes : List ℕ) (base : Option (List ℕ))
    → (eof : Bool) × (read_at
          (write_at s id offset (b ∷ bytes) base).0
          id
          offset
          (length (b ∷ bytes))
        ≡ some (b ∷ bytes, eof))
unfolding write_at
read_at-write_at s id offset b bytes base =
    let old = base_content s id base in
    let file = write_bytes old offset (b ∷ bytes) in
    let n = length (b ∷ bytes) in
    let eof = (read_file file offset n).1 in
    let slice : (read_file file offset n).0 ≡ b ∷ bytes =
      read_file-slice file offset n ∙ write_bytes-slice old offset b bytes in
    (
      eof,
      read_at_staged (write_at s id offset (b ∷ bytes) base).0 id offset n (length file) file
            (ground (arith, lookup-insert id id (length file) s.staged_nodes)) (ground arith)
          ∙ ap {A = List ℕ} {B = Option (List ℕ × Bool)} (λ r. some (r, eof)) slice,
    )
