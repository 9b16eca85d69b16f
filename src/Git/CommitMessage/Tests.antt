-- ===== src/Git/CommitMessage/Tests.antt =====
-- Messages at concrete inputs.
use git_nfs.Prelude.{ℕ, ◌≡◌, refl, ◌↔◌, inl, inr, map, List, [], ◌∷◌, str_eq}
use git_nfs.Text.{ascii, trim, trim_matches, split}
use git_nfs.Text.Radix.{digits_of, digit_char}
use git_nfs.Vfs.Filter.{is_apple_metadata}
use git_nfs.Git.Builder.{compare}
use mathlib.Core.List.{Permᴰ}
use mathlib.Core.List.Permᴰ
use git_nfs.Git.CommitMessage.{HashOrder}
use git_nfs.Git.CommitMessage.{
  generate_commit_message, message_of, valid_paths, add_clean, insert_path, any_metadata,
  join_comma, clean, subject, body, sort_dirs, insert_dir, goes_first, dir_counts, count_dir,
  top_dir_of, dir_line, other_str,
}
use git_nfs.Git.CommitMessage.Paths.{Ascending, In, IsNamed, valid_paths_lem}
use git_nfs.Git.CommitMessage.Order.{generate_commit_message-same}

abbrev paths : List (List ℕ)
paths = ascii "b.txt" ∷ ascii "/a.txt" ∷ ascii ".DS_Store" ∷ []

abbrev again : List (List ℕ)
again = ascii "/a.txt" ∷ ascii ".DS_Store" ∷ ascii "b.txt" ∷ ascii "b.txt" ∷ []

generate_commit_message_run : generate_commit_message (λ ds. ds) paths ≡ ascii "Update a.txt, b.txt"
unfolding generate_commit_message message_of valid_paths add_clean insert_path any_metadata
    join_comma trim trim_matches split compare is_apple_metadata str_eq
generate_commit_message_run = refl

valid_paths_lem_example :
    Ascending (valid_paths paths [])
    × ((p : List ℕ) → In p (valid_paths paths []) ↔ (In p (map clean paths) × IsNamed p))
valid_paths_lem_example = valid_paths_lem paths

same_paths : (p : List ℕ) → In p (map clean paths) ↔ In p (map clean again)
same_paths p = (
  λ i. elim i [
    | inl b ↦ inr (inr (inl b))
    | inr (inl a) ↦ inl a
    | inr (inr (inl d)) ↦ inr (inl d)
    | inr (inr (inr e)) ↦ absurd e
  ],
  λ i. elim i [
    | inl a ↦ inr (inl a)
    | inr (inl d) ↦ inr (inr (inl d))
    | inr (inr (inl b)) ↦ inl b
    | inr (inr (inr (inl b))) ↦ inl b
    | inr (inr (inr (inr e))) ↦ absurd e
  ],
)

-- Turns the first two directories around.
abbrev backwards : HashOrder
backwards [] = []
backwards (x ∷ []) = x ∷ []
backwards (x ∷ y ∷ ds) = y ∷ x ∷ ds

backwards-perm : (ds : List (List ℕ × ℕ)) → Permᴰ (backwards ds) ds
backwards-perm [] = Permᴰ.nil
backwards-perm (x ∷ []) = Permᴰ.refl (x ∷ [])
backwards-perm (x ∷ y ∷ ds) = Permᴰ.swap refl refl

generate_commit_message-same_example :
    generate_commit_message (λ ds. ds) paths ≡ generate_commit_message backwards again
generate_commit_message-same_example =
    generate_commit_message-same (λ ds. ds) backwards paths again (λ ds. Permᴰ.refl ds)
      backwards-perm same_paths

many_run :
    generate_commit_message backwards
      (ascii "src/a" ∷ ascii "src/b" ∷ ascii "t/1" ∷ ascii "C" ∷ ascii "d/r" ∷ [])
    ≡ ascii
        "Update 5 files across src/, d/ (and 2 other directories)\n\nChanged directories:\n- src/ (2 files)\n- d/ (1 file)\n- root/ (1 file)\n- t/ (1 file)\n"
unfolding generate_commit_message message_of valid_paths add_clean insert_path any_metadata trim
    trim_matches split compare is_apple_metadata str_eq subject body sort_dirs insert_dir goes_first
    dir_counts count_dir top_dir_of dir_line other_str digits_of digit_char
many_run = refl
