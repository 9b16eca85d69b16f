-- ===== src/Nfs/Listing.antt =====
-- src/nfs/fs.rs: listing a directory page by page, and links. The background prefetch of a directory's
-- blobs has no result and is left out.
use mathlib.Core.Option
use git_nfs.Prelude.{ℕ, ◌+◌, not, Bool, Option, none, some, List, [], ◌∷◌, length, take, drop, min}
use git_nfs.Prelude.{suc, ◌==◌, leb, if◌then◌else◌}
use git_nfs.Prelude.Exec.{raise, refuse, gets, ◌>>=◌, ◌>>◌}
use git_nfs.Text.{ascii}
use git_nfs.Git.Tree.{is_symlink}
use git_nfs.Staging.{is_deleted}
use git_nfs.Vfs.State.{VfsNode, get_node}
use git_nfs.Vfs.Inode
use git_nfs.Nfs.State.{
  Remote, GitNfsFileSystem, noent, io, notdir, inval, rofs, Fattr3, Fs, in_vfs, some_or,
  node_to_fattr3,
}

pub record DirEntry : Type 0 where
  pub fileid : ℕ
  pub name : List ℕ
  pub attr : Fattr3

pub record ReadDirResult : Type 0 where
  pub entries : List DirEntry
  pub end : Bool

-- `position(|e| e.fileid == id)`
unfoldable pub position : ℕ → List DirEntry → Option ℕ
position id [] = none
position id (e ∷ es) =
    let rest = position id es in if e.fileid == id then some 0 else Option.map suc rest

unfoldable pub start_index : ℕ → List DirEntry → ℕ
start_index start_after all_entries =
    if start_after == 0
    then 0
    else elim (position start_after all_entries) [ some idx ↦ idx + 1 | none ↦ 0 ]

-- `drain(..end_idx).skip(start_idx)`, and whether the page reaches the end.
unfoldable pub page : ℕ → ℕ → List DirEntry → ReadDirResult
page start_after max_entries all_entries =
    let start_idx = start_index start_after all_entries in
    let end_idx = min (start_idx + max_entries) (length all_entries) in
    record {
      entries = drop start_idx (take end_idx all_entries);
      end = leb (length all_entries) end_idx;
    }

module _ (remote : Remote) where
  unfoldable pub child_entries : GitNfsFileSystem → List VfsNode → List DirEntry
  child_entries s [] = []
  child_entries s (child ∷ children) =
      let rest = child_entries s children in
      if is_deleted s.staging child.id
      then rest
      else record { fileid = child.id; name = child.name; attr = node_to_fattr3 remote s child }
        ∷ rest

  unfoldable pub all_entries : GitNfsFileSystem → ℕ → VfsNode → List VfsNode → List DirEntry
  all_entries s dirid dir_node children =
      let parent_node = Option.get_or (get_node s.vfs dir_node.parent_id) dir_node in
      record { fileid = dirid; name = ascii "."; attr = node_to_fattr3 remote s dir_node }
      ∷ record {
        fileid = dir_node.parent_id;
        name = ascii "..";
        attr = node_to_fattr3 remote s parent_node;
      }
      ∷ child_entries s children

  unfoldable pub readdir : ℕ → ℕ → ℕ → Fs ReadDirResult
  readdir dirid start_after max_entries = do
    dir_node ← some_or noent (λ s. get_node s.vfs dirid)
    refuse (not dir_node.is_dir) notdir
    children ← in_vfs io (Inode.list_dir remote.engine dirid)
    gets (λ s. page start_after max_entries (all_entries s dirid dir_node children))

  unfoldable pub symlink : Fs (ℕ × Fattr3)
  symlink = raise rofs

  unfoldable pub readlink : ℕ → Fs (List ℕ)
  readlink id = do
    node ← some_or noent (λ s. get_node s.vfs id)
    refuse (not (is_symlink node.mode)) inval
    some_or io (λ _. remote.get_blob node.oid)
