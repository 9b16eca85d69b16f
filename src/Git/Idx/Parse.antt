-- ===== src/Git/Idx/Parse.antt =====
-- An index that was written, parsed.
use git_nfs.Prelude.{
  ℕ, ◌+◌, ◌-◌, ◌*◌, ◌≡◌, refl, ap, sym, ◌∙◌, List, [], ◌∷◌, ◌++◌, length, str_eq, str_eq_self, take,
  drop, drop-drop, concat, All, get_or, ok, arith, leb, le→leb, ◌==◌, true, length-append,
}
use git_nfs.Bytes.{be32}
use git_nfs.Text.{ascii}
use git_nfs.Git.Idx.{PackIndex, u32_at, read_u32s, read_chunks, sort_offsets, parse}
use git_nfs.Git.PackWriter.{be32s}
use git_nfs.Git.Idx.Tables.{
  IsU32, IsSha, IsSmall, read_u32s-be32s, read_chunks-concat, read_offsets-small, length-be32s,
  length-concat, take_of_length, drop_of_length,
}

abbrev pub magic : List ℕ
magic = 255 ∷ ascii "tOc"

abbrev pub parsed : List ℕ → List ℕ → List (List ℕ) → List ℕ → List ℕ → PackIndex
parsed name fanout shas offsets pack_sha = record {
  pack_name = name;
  fanout = fanout;
  shas = shas;
  offsets = offsets;
  sorted_offsets = sort_offsets offsets;
  pack_sha = pack_sha;
}

module _ (name bytes fanout : List ℕ) (shas : List (List ℕ)) (offsets pack_sha : List ℕ)
    (n : ℕ) where
  -- The parts of the bytes that parsing looks at.
  parse_parts :
      take 4 bytes ≡ magic
      → u32_at (drop 4 bytes) ≡ 2
      → read_u32s 256 (drop 8 bytes) ≡ fanout
      → get_or fanout 255 0 ≡ n
      → length bytes ≡ 8 + 1024 + n * 20 + n * 4 + n * 4 + 40
      → read_chunks 20 n (drop (8 + 1024) bytes) ≡ shas
      → read_u32s n (drop (8 + 1024 + n * 20 + n * 4) bytes) ≡ offsets
      → All IsSmall offsets
      → take 20 (drop (length bytes - 40) bytes) ≡ pack_sha
      → parse name bytes ≡ ok (parsed name fanout shas offsets pack_sha)
  unfolding parse
  parse_parts is_magic version fan count size names table small sha =
      let long : leb 1072 (length bytes) ≡ true = le→leb 1072 (length bytes) (omega arith) in
      let e1 : str_eq (take 4 bytes) magic ≡ true = rw is_magic (str_eq_self magic) in
      let e2 : (u32_at (drop 4 bytes) == 2) ≡ true = rw version refl in
      let e3 : leb (1032 + n * 20 + n * 4 + n * 4 + 40) (length bytes) ≡ true =
        le→leb (1032 + n * 20 + n * 4 + n * 4 + 40) (length bytes) (omega arith) in
      rw
        (
          parse,
          long,
          e1,
          e2,
          fan,
          count,
          e3,
          names,
          table,
          read_offsets-small bytes (1032 + n * 20 + n * 4 + n * 4) offsets small,
          sha,
        )
        refl

-- The tables one behind the other, from the fanout table on.
abbrev pub laid_out : List ℕ → List (List ℕ) → List ℕ → List ℕ → List ℕ → List ℕ
laid_out fanout shas crcs offsets tail =
    be32s fanout ++ (concat shas ++ (be32s crcs ++ (be32s offsets ++ tail)))

module _ (fanout : List ℕ) (shas : List (List ℕ)) (crcs offsets tail : List ℕ) where
  drop-laid_out_shas :
      length fanout ≡ 256
      → drop (8 + 1024) (magic ++ (be32 2 ++ laid_out fanout shas crcs offsets tail))
        ≡ concat shas ++ (be32s crcs ++ (be32s offsets ++ tail))
  drop-laid_out_shas full =
      drop_of_length 1024 (be32s fanout) (concat shas ++ (be32s crcs ++ (be32s offsets ++ tail)))
        (omega (arith, length-be32s fanout))

  drop-laid_out_offsets :
      (n : ℕ)
      → length fanout ≡ 256
      → length shas ≡ n
      → length crcs ≡ n
      → All IsSha shas
      → drop
          (8 + 1024 + n * 20 + n * 4)
          (magic ++ (be32 2 ++ laid_out fanout shas crcs offsets tail))
        ≡ be32s offsets ++ tail
  drop-laid_out_offsets n full names checks are_names =
      let start = magic ++ (be32 2 ++ laid_out fanout shas crcs offsets tail) in
      sym (drop-drop (8 + 1024 + n * 20) (n * 4) start)
      ∙ ap (drop (n * 4)) (
          sym (drop-drop (8 + 1024) (n * 20) start)
          ∙ ap (drop (n * 20)) (drop-laid_out_shas full)
          ∙ drop_of_length (n * 20) (concat shas) (be32s crcs ++ (be32s offsets ++ tail))
              (omega (arith, length-concat shas are_names)))
      ∙ drop_of_length (n * 4) (be32s crcs) (be32s offsets ++ tail)
          (omega (arith, length-be32s crcs))

  length-laid_out :
      (n : ℕ)
      → length fanout ≡ 256
      → length shas ≡ n
      → length crcs ≡ n
      → length offsets ≡ n
      → All IsSha shas
      → length (laid_out fanout shas crcs offsets tail)
        ≡ 1024 + n * 20 + n * 4 + n * 4 + length tail
  length-laid_out n full names checks places are_names = omega (
    arith,
    length-append (be32s fanout) (concat shas ++ (be32s crcs ++ (be32s offsets ++ tail))),
    length-append (concat shas) (be32s crcs ++ (be32s offsets ++ tail)),
    length-append (be32s crcs) (be32s offsets ++ tail),
    length-append (be32s offsets) tail,
    length-be32s fanout,
    length-be32s crcs,
    length-be32s offsets,
    length-concat shas are_names,
  )

IsSmall-IsU32 : (xs : List ℕ) → All IsSmall xs → All IsU32 xs
IsSmall-IsU32 [] h = tt
IsSmall-IsU32 (x ∷ xs) (h, hs) = (omega arith, IsSmall-IsU32 xs hs)

-- Tables of equal lengths, with the two hashes behind them, are parsed to what they were made of.
pub parse-laid_out :
    (name fanout : List ℕ) (shas : List (List ℕ)) (crcs offsets pack_sha idx_sha : List ℕ)
    → length fanout ≡ 256
    → All IsU32 fanout
    → get_or fanout 255 0 ≡ length shas
    → length crcs ≡ length shas
    → length offsets ≡ length shas
    → All IsSha shas
    → All IsSmall offsets
    → IsSha pack_sha
    → IsSha idx_sha
    → parse name (magic ++ (be32 2 ++ laid_out fanout shas crcs offsets (pack_sha ++ idx_sha)))
      ≡ ok (parsed name fanout shas offsets pack_sha)
unfolding u32_at
parse-laid_out name fanout shas crcs offsets pack_sha idx_sha full u32s count checks places
      are_names small p q =
    let n = length shas in
    let bytes = magic ++ (be32 2 ++ laid_out fanout shas crcs offsets (pack_sha ++ idx_sha)) in
    let size : length bytes ≡ 8 + 1024 + n * 20 + n * 4 + n * 4 + 40 = omega (
      arith,
      length-laid_out fanout shas crcs offsets (pack_sha ++ idx_sha) n full refl checks places
          are_names,
      length-append pack_sha idx_sha,
    ) in
    let from_offsets =
      drop-laid_out_offsets fanout shas crcs offsets (pack_sha ++ idx_sha) n full refl checks
        are_names in
    let end : length bytes - 40 ≡ 8 + 1024 + n * 20 + n * 4 + n * 4 = omega arith in
    let behind : drop (length bytes - 40) bytes ≡ pack_sha ++ idx_sha =
      ap (λ k. drop k bytes) end
      ∙ sym (drop-drop (8 + 1024 + n * 20 + n * 4) (n * 4) bytes)
      ∙ ap (drop (n * 4)) from_offsets
      ∙ drop_of_length (n * 4) (be32s offsets) (pack_sha ++ idx_sha)
          (omega (arith, length-be32s offsets)) in
    parse_parts name bytes fanout shas offsets pack_sha n refl refl
      (ap (λ k. read_u32s k (laid_out fanout shas crcs offsets (pack_sha ++ idx_sha))) (sym full)
        ∙ read_u32s-be32s fanout _ u32s)
      count size
      (ap (read_chunks 20 n)
          (drop-laid_out_shas fanout shas crcs offsets (pack_sha ++ idx_sha) full)
        ∙ read_chunks-concat shas _ are_names)
      (ap (read_u32s n) from_offsets
        ∙ ap (λ k. read_u32s k (be32s offsets ++ (pack_sha ++ idx_sha))) (sym places)
        ∙ read_u32s-be32s offsets (pack_sha ++ idx_sha) (IsSmall-IsU32 offsets small))
      small (ap (take 20) behind ∙ take_of_length 20 pack_sha idx_sha p)
