-- ===== src/Nfs/Names.antt =====
-- src/nfs/fs.rs: the handlers that make, remove and rename files and directories.
use git_nfs.Prelude.{ℕ, List, ok}
use git_nfs.Prelude.Exec.{pure, ◌>>=◌, ◌>>◌}
use git_nfs.Git.Tree.{TreeEntryMode}
use git_nfs.Staging
use git_nfs.Vfs.State.{VfsNode}
use git_nfs.Vfs.Inode
use git_nfs.Wal.Proto.{WalPayload}
use git_nfs.Nfs.State.{
  Remote, noent, io, Fattr3, Fs, in_vfs, on_staging, path_of, child_path, record_mutation, log,
  node_to_fattr3,
}

-- The change of a child is noted under the path of its directory, and logged.
unfoldable pub note_child : ℕ → ℕ → List ℕ → (List ℕ → WalPayload) → Fs (Unit {0})
note_child now dirid name payload = do
  parent ← path_of dirid
  record_mutation now (child_path parent name)
  log now (payload (child_path parent name))

module _ (remote : Remote) where
  -- `create_exclusive`
  unfoldable pub make_file : ℕ → ℕ → List ℕ → Fs VfsNode
  make_file now dirid filename =
      let name = remote.from_utf8_lossy filename in
      (do
        node ← in_vfs io (Inode.create_file remote.engine dirid name TreeEntryMode.regular_file)
        on_staging (λ t. Staging.create_file t node.id)
        note_child now dirid name (λ path.
            WalPayload.create_file (record { path = path; inode_type = 0; mode = 0o100644 }))
        pure node)

  unfoldable pub create_exclusive : ℕ → ℕ → List ℕ → Fs ℕ
  create_exclusive now dirid filename = do node ← make_file now dirid filename; pure node.id

  unfoldable pub create : ℕ → ℕ → List ℕ → Fs (ℕ × Fattr3)
  create now dirid filename = do
    node ← make_file now dirid filename
    λ s. (ok (node.id, node_to_fattr3 remote s node), s)

  unfoldable pub mkdir : ℕ → ℕ → List ℕ → Fs (ℕ × Fattr3)
  mkdir now dirid dirname =
      let name = remote.from_utf8_lossy dirname in
      (do
        node ← in_vfs io (Inode.mkdir remote.engine dirid name)
        note_child now dirid name (λ path. WalPayload.mkdir (record { path = path }))
        λ s. (ok (node.id, node_to_fattr3 remote s node), s))

  unfoldable pub remove : ℕ → ℕ → List ℕ → Fs (Unit {0})
  remove now dirid filename =
      let name = remote.from_utf8_lossy filename in
      (do
        node ← in_vfs noent (Inode.remove remote.engine dirid name)
        on_staging (λ t. Staging.mark_deleted t node.id)
        note_child now dirid name (λ path. WalPayload.remove (record { path = path })))

  -- Both paths are taken before the move.
  unfoldable pub rename : ℕ → ℕ → List ℕ → ℕ → List ℕ → Fs (Unit {0})
  rename now from_dirid from_filename to_dirid to_filename =
      let from_name = remote.from_utf8_lossy from_filename in
      let to_name = remote.from_utf8_lossy to_filename in
      (do
        from_parent ← path_of from_dirid
        to_parent ← path_of to_dirid
        in_vfs io (Inode.rename remote.engine from_dirid from_name to_dirid to_name)
        record_mutation now (child_path from_parent from_name)
        record_mutation now (child_path to_parent to_name)
        log now (
            WalPayload.rename (record {
              from_path = child_path from_parent from_name;
              to_path = child_path to_parent to_name;
            })))
