-- ===== src/Git/Builder/Commit.antt =====
-- The commit object, and a commit as a whole. The clock is an argument. The parameter `iter` is
-- the iteration over a hash map.
use git_nfs.Prelude.{ℕ, List, [], ◌∷◌, ◌++◌, Result, ok, err}
use git_nfs.Prelude.Exec.{◌>>=◌}
use git_nfs.Text.{ascii, trim}
use git_nfs.Text.Radix.{digits_of}
use git_nfs.Git.Tree.{Hex}
use git_nfs.Git.Objects.{commit, compute_git_sha1}
use git_nfs.Git.CommitMessage.{HashOrder, generate_commit_message}
use git_nfs.Staging.{StagingStore, list_staged_nodes, list_deleted_nodes, list_changed_paths}
use git_nfs.Vfs.State.{VfsManager, VfsError, Engine, get_path}
use git_nfs.Vfs.State
use git_nfs.Git.Builder.{BuildError, stuck, Builder, GitObjectToPack, rebuild_trees, insert_new}

-- The paths of the nodes that have one.
unfoldable pub paths_of : VfsManager → List ℕ → Result BuildError (List (List ℕ))
paths_of vfs [] = ok []
paths_of vfs (id ∷ ids) =
    let rest = paths_of vfs ids in
    elim (get_path vfs.next_inode vfs id) [
      | ok path ↦ elim rest [ ok paths ↦ ok (path ∷ paths) | err e ↦ err e ]
      | err State.stuck ↦ err stuck
      | err _ ↦ rest
    ]

unfoldable pub changed_paths_or_nodes :
    VfsManager → StagingStore → List (List ℕ) → Result BuildError (List (List ℕ))
changed_paths_or_nodes vfs staging [] =
    paths_of vfs (list_staged_nodes staging ++ list_deleted_nodes staging)
changed_paths_or_nodes vfs staging (path ∷ paths) = ok (path ∷ paths)

-- The message that is given, unless it is blank.
unfoldable pub message_or_generated :
    HashOrder → List ℕ → List ℕ → VfsManager → StagingStore → Result BuildError (List ℕ)
message_or_generated iter commit_message [] vfs staging =
    elim (changed_paths_or_nodes vfs staging (list_changed_paths staging)) [
      | ok paths ↦ ok (generate_commit_message iter paths)
      | err e ↦ err e
    ]
message_or_generated iter commit_message (c ∷ trimmed) vfs staging = ok commit_message

unfoldable pub commit_content : List ℕ → List ℕ → List ℕ → ℕ → List ℕ → List ℕ
commit_content tree_oid base_commit_oid author timestamp message =
    let when = ascii " " ++ digits_of 19 10 timestamp ++ ascii " +0000\n" in
    ascii "tree "
    ++ tree_oid
    ++ ascii "\nparent "
    ++ base_commit_oid
    ++ ascii "\nauthor "
    ++ author
    ++ when
    ++ ascii "committer "
    ++ author
    ++ when
    ++ ascii "\n"
    ++ message
    ++ ascii "\n"

pub record Commit : Type 0 where
  pub oid : List ℕ
  pub root_tree_oid : List ℕ
  pub objects : List GitObjectToPack

module _ (hex : Hex) (sha1 : List ℕ → List ℕ) (engine : Engine) (staging : StagingStore) where
  unfoldable pub finish_commit : List ℕ → List ℕ → Builder Commit
  finish_commit root content b =
      let oid = compute_git_sha1 hex sha1 commit content in
      let b' = insert_new hex sha1 engine staging commit oid content b in
      (ok (record { oid = oid; root_tree_oid = root; objects = b'.new_objects }), b')

  unfoldable pub rebuild_git_objects : HashOrder → ℕ → ℕ → List ℕ → List ℕ → List ℕ → Builder Commit
  rebuild_git_objects iter fuel timestamp base_commit_oid author commit_message = do
    root ← rebuild_trees hex sha1 engine staging fuel
    message ← λ b. (message_or_generated iter commit_message (trim commit_message) b.vfs staging, b)
    finish_commit root (commit_content root base_commit_oid author timestamp message)
