-- ===== src/Vfs/Inode/Valid.antt =====
-- After any calls the inode tables are valid, as long as inode numbers do not run out.
use git_nfs.Prelude.{ℕ, ◌+◌, ◌*◌, ◌≤◌, ◌<◌, List, [], ◌∷◌, length, arith}
use git_nfs.Bytes.{u64_mod}
use git_nfs.Git.Tree.{TreeEntryMode}
use git_nfs.Vfs.State
use git_nfs.Vfs.State.{VfsManager, Engine, new, VfsNode, root_node, root_inode}
use git_nfs.Vfs.State.Laws.{IsValid}
use git_nfs.Vfs.Inode
use git_nfs.Vfs.Inode.{tree_entries}
use git_nfs.Vfs.Inode.Steps.{
  Steps, create_file-Steps, mkdir-Steps, remove-Steps, list_dir-Steps, lookup-Steps, rename-Steps,
  update_file_size-Steps, Steps-le,
}

-- The calls that change the tables.
pub data Call : Type 0 where
  looks_up : ℕ → List ℕ → Call
  lists : ℕ → Call
  creates : ℕ → List ℕ → TreeEntryMode → Call
  makes : ℕ → List ℕ → Call
  removes : ℕ → List ℕ → Call
  renames : ℕ → List ℕ → ℕ → List ℕ → Call
  resizes : ℕ → ℕ → Call

abbrev pub perform : Engine → VfsManager → Call → VfsManager
perform engine v (looks_up dir name) = (Inode.lookup engine dir name v).1
perform engine v (lists dir) = (Inode.list_dir engine dir v).1
perform engine v (creates dir name mode) = (Inode.create_file engine dir name mode v).1
perform engine v (makes dir name) = (Inode.mkdir engine dir name v).1
perform engine v (removes dir name) = (Inode.remove engine dir name v).1
perform engine v (renames d s e t) = (Inode.rename engine d s e t v).1
perform engine v (resizes id size) = State.update_file_size id size v

abbrev pub perform_all : Engine → VfsManager → List Call → VfsManager
perform_all engine v [] = v
perform_all engine v (c ∷ cs) = perform_all engine (perform engine v c) cs

pub new-IsValid : (oid : List ℕ) → IsValid (new oid)
unfolding new
new-IsValid oid = record {
  below = λ id node h. ground arith;
  mapped = λ dir name id h. absurd (ground arith);
}

module _ (engine : Engine) (width : ℕ)
    (narrow : (oid : List ℕ) → length (tree_entries engine oid) ≤ width) where
  widen :
      (v w : VfsManager) (cost : ℕ)
      → cost ≤ width + width + 1
      → Steps engine width narrow cost v w
      → Steps engine width narrow (width + width + 1) v w
  widen v w cost le s = Steps-le engine width narrow cost (width + width + 1) v w le s

  pub perform-Steps :
      (v : VfsManager) (c : Call)
      → IsValid v
      → v.next_inode + (width + width + 1) < u64_mod
      → Steps engine width narrow (width + width + 1) v (perform engine v c)
  perform-Steps v (looks_up dir name) valid room =
      widen v _ (width + 0) (omega arith)
        (lookup-Steps engine width narrow dir name v valid (omega arith))
  perform-Steps v (lists dir) valid room =
      widen v _ (width + 0) (omega arith)
        (list_dir-Steps engine width narrow dir v valid (omega arith))
  perform-Steps v (creates dir name mode) valid room =
      widen v _ (width + 1) (omega arith)
        (create_file-Steps engine width narrow dir name mode v valid (omega arith))
  perform-Steps v (makes dir name) valid room =
      widen v _ (width + 1) (omega arith)
        (mkdir-Steps engine width narrow dir name v valid (omega arith))
  perform-Steps v (removes dir name) valid room =
      widen v _ (width + 0) (omega arith)
        (remove-Steps engine width narrow dir name v valid (omega arith))
  perform-Steps v (renames d s e t) valid room =
      widen v _ (width + width) (omega arith)
        (rename-Steps engine width narrow d s e t v valid (omega arith))
  perform-Steps v (resizes id size) valid room =
      widen v _ 0 (omega arith) (update_file_size-Steps engine width narrow id size v valid)

  -- Any calls of the methods that change the tables keep them valid, from valid tables, if no tree has
  -- more than `width` entries and the numbers left are enough: two directories and a node per call.
  pub perform_all-IsValid :
      (v : VfsManager) (calls : List Call)
      → IsValid v
      → v.next_inode + length calls * (width + width + 1) < u64_mod
      → IsValid (perform_all engine v calls)
  perform_all-IsValid v [] valid room = valid
  perform_all-IsValid v (c ∷ cs) valid room =
      let s = perform-Steps v c valid (ground arith) in
      perform_all-IsValid (perform engine v c) cs s.valid (ground (arith, s.next_le))
