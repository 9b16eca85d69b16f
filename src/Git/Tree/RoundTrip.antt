-- ===== src/Git/Tree/RoundTrip.antt =====
-- The parser reads back what the builder of trees writes.
use git_nfs.Prelude.{
  ℕ, zero, suc, map, ◌≤◌, ◌≡◌, refl, ap, sym, ◌∙◌, true, some, List, [], ◌∷◌, ◌++◌,
}
use git_nfs.Prelude.{leb, str_eq, length, take, drop, arith, All, append_assoc, append-nil}
use git_nfs.Prelude.{Result, ok, err, length-append, take-length_append, drop-length_append}
use git_nfs.Text.{Lacks}
use git_nfs.Text.Utf8.{is_utf8}
use git_nfs.Git.Tree.{
  Hex, TreeEntryMode, regular_file, executable_file, directory, symlink, submodule, other,
}
use git_nfs.Git.Tree.{
  from_mode_str, GitTreeEntry, GitTree, split_once, parse_entry, parse_loop, parse, TreeError,
  missing_space,
}
use git_nfs.Git.Builder.{mode_str, raw_entry}

split_once-append :
    (c : ℕ) (p rest : List ℕ) → Lacks c p → split_once c (p ++ (c ∷ rest)) ≡ some (p, rest)
unfolding split_once
split_once-append c [] rest h = ground arith
split_once-append c (x ∷ p) rest h = rw (split_once-append c p rest h.1) (ground arith)

-- One of the five modes that have a name of their own.
pub data IsNamed : TreeEntryMode → Type 0 where
  a_file : IsNamed regular_file
  a_program : IsNamed executable_file
  a_directory : IsNamed directory
  a_symlink : IsNamed symlink
  a_submodule : IsNamed submodule

-- What the name of a mode has: no space, text, and the mode comes back.
record ReadsAs (mode : TreeEntryMode) : Type 0 where
  lacks : Lacks b' ' (mode_str mode)
  utf8 : is_utf8 (mode_str mode) ≡ true
  back : from_mode_str (mode_str mode) ≡ mode

named-ReadsAs : (mode : TreeEntryMode) → IsNamed mode → ReadsAs mode
unfolding mode_str is_utf8 from_mode_str str_eq
named-ReadsAs regular_file a_file = record { lacks = ground arith; utf8 = refl; back = refl }
named-ReadsAs executable_file a_program = record { lacks = ground arith; utf8 = refl; back = refl }
named-ReadsAs directory a_directory = record { lacks = ground arith; utf8 = refl; back = refl }
named-ReadsAs symlink a_symlink = record { lacks = ground arith; utf8 = refl; back = refl }
named-ReadsAs (other m) e = elim e [ ]
named-ReadsAs submodule a_submodule = record { lacks = ground arith; utf8 = refl; back = refl }

-- A raw tree: its entries one after the other.
unfoldable pub raw_tree : List (GitTreeEntry × List ℕ) → List ℕ
raw_tree [] = []
raw_tree ((entry, sha) ∷ entries) = raw_entry entry.mode entry.name sha ++ raw_tree entries

module _ (hex : Hex) where
  -- An entry that a tree can hold, with the bytes that its object name stands for.
  pub record IsEntry (entry : GitTreeEntry) (sha : List ℕ) : Type 0 where
    pub named : IsNamed entry.mode
    pub lacks : Lacks 0 entry.name
    pub utf8 : is_utf8 entry.name ≡ true
    pub length_sha : length sha ≡ 20
    pub encoded : hex.encode sha ≡ entry.oid

  raw_shape :
      (entry : GitTreeEntry) (sha rest : List ℕ)
      → raw_entry entry.mode entry.name sha ++ rest
        ≡ mode_str entry.mode ++ (b' ' ∷ (entry.name ++ (0 ∷ (sha ++ rest))))
  unfolding raw_entry
  raw_shape entry sha rest =
      append_assoc (mode_str entry.mode) (b' ' ∷ (entry.name ++ (0 ∷ sha))) rest
      ∙ ap (λ t. mode_str entry.mode ++ (b' ' ∷ t)) (append_assoc entry.name (0 ∷ sha) rest)

  take_sha : (sha rest : List ℕ) → length sha ≡ 20 → take 20 (sha ++ rest) ≡ sha
  take_sha sha rest h = ap (λ n. take n (sha ++ rest)) (sym h) ∙ take-length_append sha rest

  drop_sha : (sha rest : List ℕ) → length sha ≡ 20 → drop 20 (sha ++ rest) ≡ rest
  drop_sha sha rest h = ap (λ n. drop n (sha ++ rest)) (sym h) ∙ drop-length_append sha rest

  long_enough : (sha rest : List ℕ) → length sha ≡ 20 → leb 20 (length (sha ++ rest)) ≡ true
  long_enough sha rest h = ground (arith, length-append sha rest)

  parse_entry-raw_entry :
      (entry : GitTreeEntry) (sha rest : List ℕ)
      → IsEntry entry sha
      → parse_entry hex (raw_entry entry.mode entry.name sha ++ rest) ≡ ok (entry, rest)
  unfolding parse_entry
  parse_entry-raw_entry entry sha rest e =
      let m = named-ReadsAs entry.mode e.named in
      rw
        (
          raw_shape entry sha rest,
          split_once-append b' ' (mode_str entry.mode) (entry.name ++ (0 ∷ (sha ++ rest))) m.lacks,
          m.utf8,
          split_once-append 0 entry.name (sha ++ rest) e.lacks,
          e.utf8,
          long_enough sha rest e.length_sha,
          m.back,
          take_sha sha rest e.length_sha,
          drop_sha sha rest e.length_sha,
          e.encoded,
        )
        refl

  abbrev pub AreEntries : List (GitTreeEntry × List ℕ) → Type 0
  AreEntries = All (λ e. IsEntry e.0 e.1)

  length-raw_tree :
      (entries : List (GitTreeEntry × List ℕ)) → length entries ≤ length (raw_tree entries)
  unfolding raw_tree raw_entry
  length-raw_tree [] = omega arith
  length-raw_tree ((entry, sha) ∷ entries) = omega (
    arith,
    length-raw_tree entries,
    length-append (raw_entry entry.mode entry.name sha) (raw_tree entries),
    length-append (mode_str entry.mode) (b' ' ∷ (entry.name ++ (0 ∷ sha))),
  )

  parse_entry-nil : parse_entry hex [] ≡ err missing_space
  unfolding parse_entry split_once
  parse_entry-nil = refl

  parse_loop_step :
      (fuel : ℕ) (bytes : List ℕ) (before : List GitTreeEntry) (entry : GitTreeEntry)
      (rest : List ℕ)
      → parse_entry hex bytes ≡ ok (entry, rest)
      → parse_loop hex (suc fuel) bytes before ≡ parse_loop hex fuel rest (before ++ entry ∷ [])
  unfolding parse_loop
  parse_loop_step fuel [] before entry rest h = absurd (ground (arith, parse_entry-nil))
  parse_loop_step fuel (b ∷ bytes) before entry rest h = rw h refl

  parse_loop-raw_tree :
      (fuel : ℕ) (entries : List (GitTreeEntry × List ℕ)) (before : List GitTreeEntry)
      → AreEntries entries
      → length entries ≤ fuel
      → parse_loop hex fuel (raw_tree entries) before
        ≡ ok (record { entries = before ++ map (λ e. e.0) entries })
  unfolding parse_loop raw_tree
  parse_loop-raw_tree fuel [] before h le =
      ap (λ es. ok (record { entries = es })) (sym (append-nil before))
  parse_loop-raw_tree zero ((entry, sha) ∷ entries) before h le = absurd (omega arith)
  parse_loop-raw_tree (suc fuel) ((entry, sha) ∷ entries) before h le =
      parse_loop_step fuel (raw_entry entry.mode entry.name sha ++ raw_tree entries) before entry
        (raw_tree entries) (parse_entry-raw_entry entry sha (raw_tree entries) h.0)
      ∙ parse_loop-raw_tree fuel entries (before ++ entry ∷ []) h.1 (omega arith)
      ∙ ap {A = List GitTreeEntry} {B = Result TreeError GitTree}
          (λ es. ok (record { entries = es }))
          (append_assoc before (entry ∷ []) (map (λ e. e.0) entries))

  -- The bytes of a tree, as the builder writes them, parse to its entries in their order: modes of the
  -- five named kinds, names that are text without a zero byte, and object names of 20 bytes.
  pub parse-raw_tree :
      (entries : List (GitTreeEntry × List ℕ))
      → AreEntries entries
      → parse hex (raw_tree entries) ≡ ok (record { entries = map (λ e. e.0) entries })
  unfolding parse
  parse-raw_tree entries h =
      parse_loop-raw_tree (length (raw_tree entries)) entries [] h (length-raw_tree entries)
