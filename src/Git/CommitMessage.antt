-- ===== src/Git/CommitMessage.antt =====
-- src/git/commit_message.rs: the message of a commit, made of the paths that changed. A `BTreeSet` is
-- the list of its elements in their order, and the hash map of the counts an association list, whose elements
-- come in the order that the parameter `iter` gives them.
pub mod Paths
pub mod Dirs
pub mod Order
mod Tests
use git_nfs.Prelude.{
  ℕ, zero, suc, ◌+◌, ◌-◌, Bool, true, false, not, ◌||◌, List, [], ◌∷◌, ◌++◌, map, length, ◌==◌, ltb,
  leb, if◌then◌else◌, str_eq, concat,
}
use git_nfs.Text.{ascii, trim, trim_matches, split}
use git_nfs.Text.Radix.{digits_of}
use git_nfs.Vfs.Filter.{is_apple_metadata}
use git_nfs.Git.Builder.{Ordering, less, equal, greater, compare}

-- `valid_paths.insert(path)`
unfoldable pub insert_path : List ℕ → List (List ℕ) → List (List ℕ)
insert_path p [] = p ∷ []
insert_path p (q ∷ paths) =
    let rest = insert_path p paths in
    elim (compare p q) [ less ↦ p ∷ q ∷ paths | equal ↦ q ∷ paths | greater ↦ q ∷ rest ]

unfoldable pub any_metadata : List (List ℕ) → Bool
any_metadata [] = false
any_metadata (component ∷ components) = is_apple_metadata component || any_metadata components

abbrev pub clean : List ℕ → List ℕ
clean raw_path = trim_matches b'/' (trim raw_path)

-- One cleaned path.
unfoldable pub add_clean : List ℕ → List (List ℕ) → List (List ℕ)
add_clean [] paths = paths
add_clean (c ∷ path) paths =
    if any_metadata (split b'/' (c ∷ path)) then paths else insert_path (c ∷ path) paths

unfoldable pub valid_paths : List (List ℕ) → List (List ℕ) → List (List ℕ)
valid_paths [] paths = paths
valid_paths (raw_path ∷ raw) paths = valid_paths raw (add_clean (clean raw_path) paths)

-- The path up to its first slash, the slash included, or `root/`.
unfoldable pub top_dir_of : List (List ℕ) → List ℕ
top_dir_of [] = ascii "root/"
top_dir_of (p ∷ []) = ascii "root/"
top_dir_of (p ∷ q ∷ ps) = p ++ ascii "/"

abbrev pub top_dir : List ℕ → List ℕ
top_dir file = top_dir_of (split b'/' file)

unfoldable pub count_dir : List ℕ → List (List ℕ × ℕ) → List (List ℕ × ℕ)
count_dir dir [] = (dir, 1) ∷ []
count_dir dir ((d, n) ∷ counts) =
    let rest = count_dir dir counts in if str_eq dir d then (d, n + 1) ∷ counts else (d, n) ∷ rest

unfoldable pub dir_counts : List (List ℕ) → List (List ℕ × ℕ) → List (List ℕ × ℕ)
dir_counts [] counts = counts
dir_counts (file ∷ files) counts = dir_counts files (count_dir (top_dir file) counts)

-- By the count, the largest first, then by the name.
unfoldable pub goes_first : List ℕ × ℕ → List ℕ × ℕ → Bool
goes_first (a, n) (b, m) =
    if ltb m n
    then true
    else if ltb n m
    then false
    else elim (compare a b) [ greater ↦ false | _ ↦ true ]

unfoldable pub insert_dir : List ℕ × ℕ → List (List ℕ × ℕ) → List (List ℕ × ℕ)
insert_dir x [] = x ∷ []
insert_dir x (y ∷ dirs) =
    let rest = insert_dir x dirs in if goes_first x y then x ∷ y ∷ dirs else y ∷ rest

unfoldable pub sort_dirs : List (List ℕ × ℕ) → List (List ℕ × ℕ)
sort_dirs [] = []
sort_dirs (x ∷ dirs) = insert_dir x (sort_dirs dirs)

-- `pieces.join(", ")`
unfoldable pub join_comma : List (List ℕ) → List ℕ
join_comma [] = []
join_comma (p ∷ []) = p
join_comma (p ∷ q ∷ ps) = p ++ ascii ", " ++ join_comma (q ∷ ps)

abbrev pub decimal : ℕ → List ℕ
decimal n = digits_of 19 10 n

unfoldable pub other_str : ℕ → List ℕ
other_str n = if n == 1 then ascii "1 other directory" else decimal n ++ ascii " other directories"

unfoldable pub subject : ℕ → List (List ℕ × ℕ) → List ℕ
subject total [] = []
subject total ((d, n) ∷ []) = ascii "Update " ++ decimal total ++ ascii " files in " ++ d
subject total ((d, n) ∷ (e, m) ∷ dirs) =
    let names = d ∷ e ∷ map (λ (x : List ℕ × ℕ). x.0) dirs in
    let start = ascii "Update " ++ decimal total ++ ascii " files across " in
    if leb (length names) 3
    then start ++ join_comma names
    else start
      ++ d
      ++ ascii ", "
      ++ e
      ++ ascii " (and "
      ++ other_str (length names - 2)
      ++ ascii ")"

unfoldable pub dir_line : List ℕ × ℕ → List ℕ
dir_line (dir, count) =
    ascii "- "
    ++ dir
    ++ ascii " ("
    ++ decimal count
    ++ ascii " "
    ++ (if count == 1 then ascii "file" else ascii "files")
    ++ ascii ")\n"

unfoldable pub body : List (List ℕ × ℕ) → List ℕ
body dirs = ascii "\n\nChanged directories:\n" ++ concat (map dir_line dirs)

-- The iteration over the hash map.
abbrev pub HashOrder : Type 0
HashOrder = List (List ℕ × ℕ) → List (List ℕ × ℕ)

unfoldable pub message_of : HashOrder → List (List ℕ) → List ℕ
message_of iter [] = ascii "Empty commit: no files changed"
message_of iter (f ∷ files) =
    if leb (length (f ∷ files)) 3
    then ascii "Update " ++ join_comma (f ∷ files)
    else (let sorted = sort_dirs (iter (dir_counts (f ∷ files) [])) in
        subject (length (f ∷ files)) sorted ++ body sorted)

unfoldable pub generate_commit_message : HashOrder → List (List ℕ) → List ℕ
generate_commit_message iter changed_paths = message_of iter (valid_paths changed_paths [])
