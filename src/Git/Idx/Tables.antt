-- ===== src/Git/Idx/Tables.antt =====
-- The tables of an index, read back from their bytes.
use git_nfs.Prelude.{
  ℕ, ◌*◌, ◌^◌, ◌<◌, ◌≡◌, refl, ap, sym, ◌∙◌, List, [], ◌∷◌, ◌++◌, length, take, drop, concat, map,
  All, ok, arith, not, ◌==◌, false, ap, append_assoc, length-append, take-length_append,
  drop-length_append, leb, Bool-cases, inl, inr, leb→le, Result-cases,
}
use git_nfs.Prelude.Masks.{and_high}
use git_nfs.Bytes.{as_u32, from_be32-be32, u32_mod}
use git_nfs.Git.Delta.{has_bit}
use git_nfs.Git.Idx.{u32_at, read_u32s, read_chunks, read_offsets}
use git_nfs.Git.PackWriter.{ObjectEntry, be32s, offset_table}

pub take_of_length : {A : Type 0} (n : ℕ) (xs ys : List A) → length xs ≡ n → take n (xs ++ ys) ≡ xs
take_of_length n xs ys e = ap (λ k. take k (xs ++ ys)) (sym e) ∙ take-length_append xs ys

pub drop_of_length : {A : Type 0} (n : ℕ) (xs ys : List A) → length xs ≡ n → drop n (xs ++ ys) ≡ ys
drop_of_length n xs ys e = ap (λ k. drop k (xs ++ ys)) (sym e) ∙ drop-length_append xs ys

pub length-be32s : (xs : List ℕ) → length (be32s xs) ≡ length xs * 4
length-be32s [] = refl
length-be32s (x ∷ xs) = omega (arith, length-be32s xs)

abbrev pub IsU32 : ℕ → Type 0
IsU32 x = x < u32_mod

pub read_u32s-be32s :
    (xs rest : List ℕ) → All IsU32 xs → read_u32s (length xs) (be32s xs ++ rest) ≡ xs
unfolding read_u32s u32_at
read_u32s-be32s [] rest h = refl
read_u32s-be32s (x ∷ xs) rest (h, hs) =
    let head = from_be32-be32 x h in let tail = read_u32s-be32s xs rest hs in cc

abbrev pub IsSha : List ℕ → Type 0
IsSha s = length s ≡ 20

pub length-concat :
    (names : List (List ℕ)) → All IsSha names → length (concat names) ≡ length names * 20
length-concat [] h = refl
length-concat (s ∷ names) (h, hs) =
    omega (arith, length-append s (concat names), length-concat names hs)

pub read_chunks-concat :
    (names : List (List ℕ)) (rest : List ℕ)
    → All IsSha names
    → read_chunks 20 (length names) (concat names ++ rest) ≡ names
unfolding read_chunks
read_chunks-concat [] rest h = refl
read_chunks-concat (s ∷ names) rest (h, hs) =
    let joined = append_assoc s (concat names) rest in
    let head = ap (take 20) joined ∙ take_of_length 20 s (concat names ++ rest) h in
    let tail =
      ap (λ b. read_chunks 20 (length names) b)
        (ap (drop 20) joined ∙ drop_of_length 20 s (concat names ++ rest) h)
      ∙ read_chunks-concat names rest hs in
    cc

-- No mark: the offset itself.
abbrev pub IsSmall : ℕ → Type 0
IsSmall x = x < 2 ^ 31

pub read_offsets-small :
    (bytes : List ℕ) (start : ℕ) (offsets : List ℕ)
    → All IsSmall offsets
    → read_offsets bytes start offsets ≡ ok offsets
unfolding read_offsets
read_offsets-small bytes start [] h = refl
read_offsets-small bytes start (x ∷ offsets) (h, hs) =
    let plain : has_bit 0x80000000 x ≡ false = ap (λ (b : ℕ). not (b == 0)) (and_high 31 x h) in
    rw (read_offsets, plain, read_offsets-small bytes start offsets hs) refl

abbrev pub pack_offsets : List ObjectEntry → List ℕ
pack_offsets = map (λ (e : ObjectEntry). e.pack_offset)

-- The table of offsets is written only if every offset is small.
pub offset_table-Small :
    (entries : List ObjectEntry) (offsets : List ℕ)
    → offset_table entries ≡ ok offsets
    → (offsets ≡ pack_offsets entries) × All IsSmall (pack_offsets entries)
unfolding offset_table
offset_table-Small [] offsets h = (cc, tt)
offset_table-Small (e ∷ entries) offsets h = elim (Bool-cases (leb e.pack_offset 0x7fffffff)) [
  | inr t ↦ absurd (cc (rw (offset_table, t) at h))
  | inl t ↦ elim (Result-cases (offset_table entries)) [
    | inr (f, failed) ↦ absurd (cc (rw (offset_table, t, failed) at h))
    | inl (rest, written) ↦
        let (same, small) = offset_table-Small entries rest written in
        let all : offsets ≡ as_u32 e.pack_offset ∷ rest = cc (rw (offset_table, t, written) at h) in
        let fits = leb→le e.pack_offset 0x7fffffff t in
        let head : as_u32 e.pack_offset ≡ e.pack_offset = omega arith in (cc, (omega arith, small))
  ]
]
