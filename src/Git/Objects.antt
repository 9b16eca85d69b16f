-- ===== src/Git/Objects.antt =====
-- src/git/pack.rs: the types of objects and their names. The hash is a parameter.
use git_nfs.Prelude.{ℕ, List, [], ◌∷◌, ◌++◌, length, Result, ok, err, ◌==◌, if◌then◌else◌}
use git_nfs.Text.{ascii}
use git_nfs.Text.Radix.{digits_of}
use git_nfs.Git.Tree.{Hex}

pub data ObjectType : Type 0 where
  commit tree blob tag ofs_delta ref_delta : ObjectType

pub data UnknownType : Type 0 where
  unknown_type : ℕ → UnknownType

unfoldable pub from_u8 : ℕ → Result UnknownType ObjectType
from_u8 n =
    if n == 1
    then ok commit
    else if n == 2
    then ok tree
    else if n == 3
    then ok blob
    else if n == 4
    then ok tag
    else if n == 6
    then ok ofs_delta
    else if n == 7
    then ok ref_delta
    else err (unknown_type n)

unfoldable pub type_str : ObjectType → List ℕ
type_str commit = ascii "commit"
type_str tree = ascii "tree"
type_str blob = ascii "blob"
type_str tag = ascii "tag"
type_str ofs_delta = ascii "unknown"
type_str ref_delta = ascii "unknown"

-- The header of the hashed text: the type, the length in decimal and a zero byte.
unfoldable pub object_header : ObjectType → List ℕ → List ℕ
object_header obj_type content =
    type_str obj_type ++ ascii " " ++ digits_of 19 10 (length content) ++ (0 ∷ [])

unfoldable pub compute_git_sha1 : Hex → (List ℕ → List ℕ) → ObjectType → List ℕ → List ℕ
compute_git_sha1 hex sha1 obj_type content =
    hex.encode (sha1 (object_header obj_type content ++ content))
