-- ===== src/Nfs/Data.antt =====
-- src/nfs/fs.rs: the handlers that read and write attributes and contents.
use mathlib.Core.Option
use git_nfs.Prelude.{ℕ, ◌&&◌, not, Bool, true, false, Option, none, some, List, [], ◌∷◌, length}
use git_nfs.Prelude.{if◌then◌else◌, ok, err}
use git_nfs.Prelude.Exec.{pure, refuse, gets, ◌>>=◌, ◌>>◌}
use git_nfs.Staging.{is_deleted, is_staged, truncate, write_at, read_at, read_file}
use git_nfs.Vfs.State.{VfsNode, get_node, update_file_size}
use git_nfs.Vfs.Inode
use git_nfs.Wal.Proto.{WalPayload}
use git_nfs.Nfs.State.{
  Remote, GitNfsFileSystem, noent, io, isdir, Fattr3, Fs, in_vfs, on_vfs, on_staging, some_or,
  path_of, record_mutation, log, attr_of, get_base_data, cached_size,
}

-- The node, unless the session or the manager has deleted it.
unfoldable pub live_node : ℕ → Fs VfsNode
live_node id s =
    if is_deleted s.staging id then (err noent, s) else some_or noent (λ t. get_node t.vfs id) s

-- The change is noted under the node's path, if it has one, and logged.
unfoldable pub note_change : ℕ → ℕ → (List ℕ → WalPayload) → Fs (Unit {0})
note_change now id payload = do
  found ← path_of id
  elim found [ none ↦ pure tt | some path ↦ record_mutation now path >> log now (payload path) ]

module _ (remote : Remote) where
  unfoldable pub lookup : ℕ → List ℕ → Fs ℕ
  lookup dirid filename = do
    child_id ← in_vfs noent (Inode.lookup remote.engine dirid (remote.from_utf8_lossy filename))
    λ s. if is_deleted s.staging child_id then (err noent, s) else (ok child_id, s)

  -- What is known of the size of a blob, which may have to be fetched.
  unfoldable pub blob_size : List ℕ → Option ℕ
  blob_size oid = elim (cached_size remote oid) [
    | some size ↦ some size
    | none ↦ Option.map length (remote.get_blob oid)
  ]

  unfoldable pub refresh_size : ℕ → VfsNode → Fs (Unit {0})
  refresh_size id node s = elim (not node.is_dir && not (is_staged s.staging id)) [
    | false ↦ (ok tt, s)
    | true ↦ elim node.oid [
      | [] ↦ (ok tt, s)
      | c ∷ cs ↦ elim (blob_size (c ∷ cs)) [
        | none ↦ (ok tt, s)
        | some size ↦ on_vfs (update_file_size id size) s
      ]
    ]
  ]

  unfoldable pub getattr : ℕ → Fs Fattr3
  getattr id = do node ← live_node id; refresh_size id node; attr_of remote node

  -- The base content that a first change starts from.
  unfoldable pub base_data : VfsNode → ℕ → GitNfsFileSystem → Option (List ℕ)
  base_data node id s = if is_staged s.staging id then none else get_base_data remote node

  unfoldable pub set_size : ℕ → ℕ → VfsNode → ℕ → Fs (Unit {0})
  set_size now id node new_size = do
    refuse node.is_dir isdir
    base ← gets (base_data node id)
    on_staging (λ t. truncate t id new_size base)
    on_vfs (update_file_size id new_size)
    note_change now id (λ path. WalPayload.truncate (record { path = path; new_size = new_size }))

  -- Of the attributes only a new size is set.
  unfoldable pub set_size_if : ℕ → ℕ → VfsNode → Option ℕ → Fs (Unit {0})
  set_size_if now id node none = pure tt
  set_size_if now id node (some new_size) = set_size now id node new_size

  unfoldable pub setattr : ℕ → ℕ → Option ℕ → Fs Fattr3
  setattr now id size = do node ← live_node id; set_size_if now id node size; attr_of remote node

  unfoldable pub read_blob : VfsNode → ℕ → ℕ → ℕ → Fs (List ℕ × Bool)
  read_blob node id offset count s = elim node.oid [
    | [] ↦ (ok ([], true), s)
    | c ∷ cs ↦ elim (remote.get_blob (c ∷ cs)) [
      | none ↦ (err io, s)
      | some blob ↦ (
        ok (read_file blob offset count),
        record s { vfs = update_file_size id (length blob) s.vfs },
      )
    ]
  ]

  unfoldable pub read : ℕ → ℕ → ℕ → Fs (List ℕ × Bool)
  read id offset count = do
    node ← live_node id
    refuse node.is_dir isdir
    λ s. elim (read_at s.staging id offset count) [
      | some found ↦ (ok found, s)
      | none ↦ read_blob node id offset count s
    ]

  unfoldable pub stage_write : ℕ → ℕ → List ℕ → Option (List ℕ) → Fs ℕ
  stage_write id offset bytes base s =
      let (staging, new_len) = write_at s.staging id offset bytes base in
      (ok new_len, record s { staging = staging })

  unfoldable pub write : ℕ → ℕ → ℕ → List ℕ → Fs Fattr3
  write now id offset bytes = do
    node ← live_node id
    refuse node.is_dir isdir
    base ← gets (base_data node id)
    new_len ← stage_write id offset bytes base
    on_vfs (update_file_size id new_len)
    note_change now id
        (λ path. WalPayload.write (record { path = path; offset = offset; content = bytes }))
    attr_of remote node
