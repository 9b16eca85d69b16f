-- ===== src/Git/Tree.antt =====
-- src/git/tree.rs: tree objects. The `hex` crate is the parameter `Hex`.
pub mod RoundTrip
use git_nfs.Prelude.{ℕ, zero, suc, ◌≡◌, Bool, true, false, Option, none, some, List, [], ◌∷◌, ◌++◌}
use git_nfs.Prelude.{◌==◌, leb, if◌then◌else◌, str_eq, length, take, drop}
use git_nfs.Prelude.{Result, ok, err, ◌>>=◌, ◌>>◌, guard, ok_or}
use git_nfs.Bytes.{u32_mod}
use git_nfs.Text.{ascii}
use git_nfs.Text.Utf8.{is_utf8}
use git_nfs.Text.Radix.{from_str_radix}
use mathlib.Core.Option

-- `hex::encode` and `hex::decode(_).ok()`
pub record Hex : Type 0 where
  pub encode : List ℕ → List ℕ
  pub decode : List ℕ → Option (List ℕ)

pub data TreeEntryMode : Type 0 where
  regular_file executable_file directory symlink submodule : TreeEntryMode
  other : ℕ → TreeEntryMode

unfoldable pub from_mode_str : List ℕ → TreeEntryMode
unfolding from_str_radix
from_mode_str s =
    if str_eq s (ascii "100644")
    then regular_file
    else if str_eq s (ascii "100755")
    then executable_file
    else if str_eq s (ascii "40000")
    then directory
    else if str_eq s (ascii "040000")
    then directory
    else if str_eq s (ascii "120000")
    then symlink
    else if str_eq s (ascii "160000")
    then submodule
    else other (Option.get_or (from_str_radix 8 u32_mod s) 0o100644)

abbrev pub is_dir : TreeEntryMode → Bool
is_dir directory = true
is_dir _ = false

abbrev pub is_symlink : TreeEntryMode → Bool
is_symlink symlink = true
is_symlink _ = false

unfoldable pub posix_mode : TreeEntryMode → ℕ
posix_mode regular_file = 0o100644
posix_mode executable_file = 0o100755
posix_mode directory = 0o040755
posix_mode symlink = 0o120777
posix_mode submodule = 0o040755
posix_mode (other m) = m

pub record GitTreeEntry : Type 0 where
  pub mode : TreeEntryMode
  pub name : List ℕ
  pub oid : List ℕ

pub record GitTree : Type 0 where
  pub entries : List GitTreeEntry

-- `stuck` is no error of the source: the loop of `parse` ran out of fuel.
pub data TreeError : Type 0 where
  missing_space invalid_mode missing_null invalid_name truncated stuck : TreeError

-- What stands before the first byte `c`, and what stands behind it.
unfoldable pub split_once : ℕ → List ℕ → Option (List ℕ × List ℕ)
split_once c [] = none
split_once c (x ∷ s) =
    let later = Option.map (λ (r : List ℕ × List ℕ). (x ∷ r.0, r.1)) (split_once c s) in
    if x == c then some ([], s) else later

module _ (hex : Hex) where
  -- One round of the loop of `parse`: an entry, and the rest of the bytes.
  unfoldable pub parse_entry : List ℕ → Result TreeError (GitTreeEntry × List ℕ)
  parse_entry bytes = do
    (mode_str, bytes') ← ok_or (split_once b' ' bytes) missing_space
    guard (is_utf8 mode_str) invalid_mode
    (name, bytes'') ← ok_or (split_once 0 bytes') missing_null
    guard (is_utf8 name) invalid_name
    guard (leb 20 (length bytes'')) truncated
    ok (
      record { mode = from_mode_str mode_str; name = name; oid = hex.encode (take 20 bytes'') },
      drop 20 bytes'',
    )

  unfoldable pub parse_loop : ℕ → List ℕ → List GitTreeEntry → Result TreeError GitTree
  parse_loop fuel [] entries = ok (record { entries = entries })
  parse_loop zero (b ∷ bytes) entries = err stuck
  parse_loop (suc fuel) (b ∷ bytes) entries = do
    (entry, rest) ← parse_entry (b ∷ bytes)
    parse_loop fuel rest (entries ++ entry ∷ [])

  -- A round takes 22 bytes at least.
  unfoldable pub parse : List ℕ → Result TreeError GitTree
  parse bytes = parse_loop (length bytes) bytes []
