-- ===== src/Staging.antt =====
-- src/staging/mod.rs: the files that a session has changed. The staging directory is a map from
-- node ids to file contents; the operating system's calls on it are taken to succeed.
pub mod Content
pub mod Valid
pub mod Reads
pub mod Paths
mod Tests
use mathlib.Core.Option
use git_nfs.Prelude.{ℕ, ◌+◌, ◌-◌, ◌≤◌, ◌≡◌, Bool, true, false, not, ◌||◌, Option, none, some, min}
use git_nfs.Prelude.{List, [], ◌∷◌, ◌++◌, map, length, take, drop, replicate}
use git_nfs.Prelude.{◌==◌, leb, if◌then◌else◌, str_eq, Result, ok, err}
use git_nfs.Prelude.Assoc.{lookup, insert, keys, contains, add}
use git_nfs.Text.{trim, trim_matches}

pub record StagingStore : Type 0 where
  pub files : ℕ → Option (List ℕ)
  pub staged_nodes : List (ℕ × ℕ)
  pub deleted_nodes : List ℕ
  pub changed_paths : List (List ℕ)

pub data StagingError : Type 0 where
  file_missing : StagingError

abbrev pub update : (ℕ → Option (List ℕ)) → ℕ → List ℕ → ℕ → Option (List ℕ)
update files id bytes j = if id == j then some bytes else files j

-- `StagingStore::new`: an old staging directory is removed.
abbrev pub new : StagingStore
new = record { files = λ _. none; staged_nodes = []; deleted_nodes = []; changed_paths = [] }

unfoldable pub is_staged : StagingStore → ℕ → Bool
is_staged s id = elim (lookup id s.staged_nodes) [ some _ ↦ true | none ↦ false ]

unfoldable pub is_deleted : StagingStore → ℕ → Bool
is_deleted s id = contains id s.deleted_nodes

unfoldable pub list_deleted_nodes : StagingStore → List ℕ
list_deleted_nodes s = s.deleted_nodes

unfoldable pub mark_deleted : StagingStore → ℕ → StagingStore
mark_deleted s id = record s { deleted_nodes = add id s.deleted_nodes }

unfoldable pub get_size : StagingStore → ℕ → Option ℕ
get_size s id = lookup id s.staged_nodes

-- `File::create` leaves an empty file, also where there was one.
unfoldable pub create_file : StagingStore → ℕ → StagingStore
create_file s id = record s {
  files = update s.files id [];
  staged_nodes = insert id 0 s.staged_nodes;
}

-- `seek` and `write_all`: a gap behind the end is filled with zeros, and no byte is written for
-- empty data.
unfoldable pub write_bytes : List ℕ → ℕ → List ℕ → List ℕ
write_bytes file offset [] = file
write_bytes file offset (b ∷ bytes) =
    take offset (file ++ replicate (offset - length file) 0)
    ++ ((b ∷ bytes) ++ drop (offset + length (b ∷ bytes)) file)

-- `set_len`
unfoldable pub set_len : List ℕ → ℕ → List ℕ
set_len file size = take size (file ++ replicate (size - length file) 0)

-- The file to change: the staged one, or a new one with the base content.
unfoldable pub base_content : StagingStore → ℕ → Option (List ℕ) → List ℕ
base_content s id initial_data = elim (s.files id) [
  | some file ↦ file
  | none ↦ elim initial_data [ some base ↦ base | none ↦ [] ]
]

-- The new state and the new length.
unfoldable pub write_at : StagingStore → ℕ → ℕ → List ℕ → Option (List ℕ) → StagingStore × ℕ
write_at s id offset bytes initial_data =
    let file = write_bytes (base_content s id initial_data) offset bytes in
    (
      record s {
        files = update s.files id file;
        staged_nodes = insert id (length file) s.staged_nodes;
      },
      length file,
    )

unfoldable pub truncate : StagingStore → ℕ → ℕ → Option (List ℕ) → StagingStore
truncate s id new_size initial_data = record s {
  files = update s.files id (set_len (base_content s id initial_data) new_size);
  staged_nodes = insert id new_size s.staged_nodes;
}

-- The bytes from `offset` on, `count` at most, and whether they reach the end.
unfoldable pub read_file : List ℕ → ℕ → ℕ → List ℕ × Bool
read_file file offset count =
    if leb (length file) offset
    then ([], true)
    else let to_read = min count (length file - offset) in
      (take to_read (drop offset file), leb (length file) (offset + to_read))

unfoldable pub read_at : StagingStore → ℕ → ℕ → ℕ → Option (List ℕ × Bool)
read_at s id offset count =
    if not (is_staged s id)
    then none
    else Option.map (λ file. read_file file offset count) (s.files id)

unfoldable pub get_staged_content : StagingStore → ℕ → Result StagingError (Option (List ℕ))
get_staged_content s id =
    if not (is_staged s id)
    then ok none
    else elim (s.files id) [ some file ↦ ok (some file) | none ↦ err file_missing ]

unfoldable pub list_staged_nodes : StagingStore → List ℕ
list_staged_nodes s = keys s.staged_nodes

unfoldable pub contains_path : List ℕ → List (List ℕ) → Bool
contains_path p [] = false
contains_path p (q ∷ ps) = str_eq p q || contains_path p ps

-- The set insertion behind `if !clean.is_empty()`.
unfoldable pub add_path : StagingStore → List ℕ → StagingStore
add_path s [] = s
add_path s (b ∷ bs) =
    if contains_path (b ∷ bs) s.changed_paths
    then s
    else record s { changed_paths = (b ∷ bs) ∷ s.changed_paths }

unfoldable pub record_changed_path : StagingStore → List ℕ → StagingStore
record_changed_path s path = add_path s (trim_matches b'/' (trim path))

unfoldable pub list_changed_paths : StagingStore → List (List ℕ)
list_changed_paths s = s.changed_paths

abbrev pub is_nonempty {ℓ} : {A : Type ℓ} → List A → Bool
is_nonempty [] = false
is_nonempty (x ∷ xs) = true

unfoldable pub has_modifications : StagingStore → Bool
has_modifications s =
    is_nonempty s.staged_nodes || is_nonempty s.deleted_nodes || is_nonempty s.changed_paths

unfoldable pub reset : StagingStore → StagingStore
reset s = new
