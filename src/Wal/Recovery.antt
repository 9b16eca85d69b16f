-- ===== src/Wal/Recovery.antt =====
-- src/wal/recovery.rs and the recovery of src/wal/mod.rs: the entries of a log are replayed on fresh
-- inode tables and a fresh staging store. `get_blob` is the engine's.
pub mod Logs
mod Tests
use git_nfs.Prelude.{
  ℕ, Bool, true, false, Option, none, some, List, [], ◌∷◌, ◌++◌, Result, ok, err, ◌==◌,
  if◌then◌else◌,
}
use git_nfs.Prelude.Exec.{Exec, pure, attempt, discard, gets, ◌>>=◌, ◌>>◌}
use git_nfs.Git.Tree.{TreeEntryMode, regular_file, executable_file, symlink}
use git_nfs.Text.{ascii}
use git_nfs.Staging
use git_nfs.Staging.{StagingStore, is_staged, record_changed_path, mark_deleted, write_at, truncate}
use git_nfs.Vfs.State.{VfsNode, VfsManager, Engine, Vfs, new, get_node, update_file_size}
use git_nfs.Vfs.Inode
use git_nfs.Wal.Proto
use git_nfs.Wal.Proto.{
  Prost, decode_all_framed, WalEntry, WalPayload, CreateFileMutation, WriteMutation,
  TruncateMutation, RenameMutation,
}

pub record World : Type 0 where
  pub vfs : VfsManager
  pub staging : StagingStore

pub data RecoverError : Type 0 where
  vfs_failed node_missing : RecoverError

abbrev pub Recover {ℓ} : Type ℓ → Type ℓ
Recover A = Exec World RecoverError A

abbrev pub in_vfs {ℓ} : {A : Type ℓ} → Vfs A → Recover A
in_vfs m w =
    let (r, v) = m w.vfs in (elim r [ ok a ↦ ok a | err _ ↦ err vfs_failed ], record w { vfs = v })

abbrev pub on_vfs : (VfsManager → VfsManager) → Recover (Unit {0})
on_vfs f w = (ok tt, record w { vfs = f w.vfs })

abbrev pub on_staging : (StagingStore → StagingStore) → Recover (Unit {0})
on_staging f w = (ok tt, record w { staging = f w.staging })

-- `create.inode_type()`, and the mode made of it; an unknown number is a regular file.
unfoldable pub replay_mode : ℕ → TreeEntryMode
replay_mode t = if t == 3 then executable_file else if t == 2 then symlink else regular_file

abbrev pub existing_node : ℕ → Recover VfsNode
existing_node id w = elim (get_node w.vfs id) [
  | some node ↦ (ok node, w)
  | none ↦ (err node_missing, w)
]

module _ (engine : Engine) (get_blob : List ℕ → Option (List ℕ)) where
  abbrev pub note_path : List ℕ → Recover (Unit {0})
  note_path path = on_staging (λ s. record_changed_path s path)

  unfoldable pub recovered_base : ℕ → VfsNode → World → Option (List ℕ)
  recovered_base id node w =
      if is_staged w.staging id
      then none
      else elim node.oid [ [] ↦ none | c ∷ cs ↦ get_blob (c ∷ cs) ]

  -- A new file at a path, and its empty content.
  unfoldable pub replay_new : List ℕ → TreeEntryMode → Recover ℕ
  replay_new path mode = do
    place ← in_vfs (Inode.ensure_parent_dirs engine path)
    node ← in_vfs (Inode.create_file engine place.0 place.1 mode)
    on_staging (λ s. Staging.create_file s node.id)
    pure node.id

  unfoldable pub replay_create : CreateFileMutation → Recover (Unit {0})
  replay_create create = do
    note_path create.path
    replay_new create.path (replay_mode create.inode_type)
    pure tt

  unfoldable pub replay_mkdir : List ℕ → Recover (Unit {0})
  replay_mkdir path = do
    note_path path
    place ← in_vfs (Inode.ensure_parent_dirs engine path)
    in_vfs (Inode.mkdir engine place.0 place.1)
    pure tt

  unfoldable pub replay_write : WriteMutation → Recover (Unit {0})
  replay_write write = do
    note_path write.path
    node_id ←
        attempt (in_vfs (Inode.lookup_path engine write.path)) pure
          (replay_new write.path regular_file)
    node ← existing_node node_id
    base ← gets (recovered_base node_id node)
    λ w.
        let (staging, new_len) = write_at w.staging node_id write.offset write.content base in
        on_vfs (update_file_size node_id new_len) (record w { staging = staging })

  -- A path that is not found is passed over.
  unfoldable pub replay_truncate : TruncateMutation → Recover (Unit {0})
  replay_truncate trunc = do
    note_path trunc.path
    attempt (in_vfs (Inode.lookup_path engine trunc.path))
        (λ node_id. do
          node ← existing_node node_id
          base ← gets (recovered_base node_id node)
          on_staging (λ s. truncate s node_id trunc.new_size base)
          on_vfs (update_file_size node_id trunc.new_size))
        (pure tt)

  unfoldable pub replay_remove : List ℕ → Recover (Unit {0})
  replay_remove path = do
    note_path path
    attempt (in_vfs (Inode.lookup_path engine path))
        (λ node_id. do
          attempt (in_vfs (Inode.ensure_parent_dirs engine path))
              (λ place. discard (in_vfs (Inode.remove engine place.0 place.1))) (pure tt)
          on_staging (λ s. mark_deleted s node_id))
        (pure tt)

  unfoldable pub replay_rename : RenameMutation → Recover (Unit {0})
  replay_rename rename = do
    note_path rename.from_path
    note_path rename.to_path
    attempt (in_vfs (Inode.ensure_parent_dirs engine rename.from_path))
        (λ from.
          attempt (in_vfs (Inode.ensure_parent_dirs engine rename.to_path))
            (λ to. discard (in_vfs (Inode.rename engine from.0 from.1 to.0 to.1))) (pure tt))
        (pure tt)

  -- A header changes nothing.
  unfoldable pub replay_payload : WalPayload → Recover (Unit {0})
  replay_payload (Proto.header _) = pure tt
  replay_payload (Proto.create_file create) = replay_create create
  replay_payload (Proto.mkdir mkdir) = replay_mkdir mkdir.path
  replay_payload (Proto.write write) = replay_write write
  replay_payload (Proto.truncate trunc) = replay_truncate trunc
  replay_payload (Proto.remove remove) = replay_remove remove.path
  replay_payload (Proto.rename rename) = replay_rename rename

  unfoldable pub replay_wal_entries : List WalEntry → Recover (Unit {0})
  replay_wal_entries [] = pure tt
  replay_wal_entries (entry ∷ entries) = elim entry.payload [
    | none ↦ replay_wal_entries entries
    | some payload ↦ replay_payload payload >> replay_wal_entries entries
  ]

-- What the recovered commit is labelled with.
pub record CommitInfo : Type 0 where
  pub base_commit_oid : List ℕ
  pub author : List ℕ
  pub commit_message : List ℕ

abbrev pub nonempty_or {ℓ} : {A : Type ℓ} → List A → List A → List A
nonempty_or [] old = old
nonempty_or (x ∷ xs) old = x ∷ xs

unfoldable pub recovered_message : List ℕ → List ℕ → List ℕ
recovered_message [] old = old
recovered_message (c ∷ message) old = ascii "Recovered from crash: " ++ (c ∷ message)

unfoldable pub read_header : CommitInfo → WalEntry → CommitInfo
read_header info entry = elim entry.payload [
  | some (Proto.header h) ↦ record {
    base_commit_oid = nonempty_or h.base_commit_oid info.base_commit_oid;
    author = nonempty_or h.author info.author;
    commit_message = recovered_message h.commit_message info.commit_message;
  }
  | _ ↦ info
]

unfoldable pub read_headers : CommitInfo → List WalEntry → CommitInfo
read_headers info [] = info
read_headers info (entry ∷ entries) = read_headers (read_header info entry) entries

module _ (p : Prost) (engine : Engine) (get_blob : List ℕ → Option (List ℕ)) where
  -- The logs one after the other, given by their bytes.
  unfoldable pub replay_logs : List (List ℕ) → CommitInfo → Recover CommitInfo
  replay_logs [] info = pure info
  replay_logs (log_bytes ∷ logs) info =
      let entries = (decode_all_framed p log_bytes).0 in
      replay_wal_entries engine get_blob entries >> replay_logs logs (read_headers info entries)

  unfoldable pub uncommitted_logs : (ℕ → Bool) → (ℕ → List ℕ) → List ℕ → List (List ℕ)
  uncommitted_logs is_log_done read_log [] = []
  uncommitted_logs is_log_done read_log (seq ∷ seqs) =
      let rest = uncommitted_logs is_log_done read_log seqs in
      if is_log_done seq then rest else read_log seq ∷ rest

  -- What is rebuilt, on fresh tables and a fresh store: nothing where every log is done.
  unfoldable pub recover_uncommitted :
      (ℕ → Bool)
      → (ℕ → List ℕ)
      → List ℕ
      → List ℕ
      → CommitInfo
      → Option (Result RecoverError CommitInfo × World)
  recover_uncommitted is_log_done read_log all_seqs root_oid info =
      elim (uncommitted_logs is_log_done read_log all_seqs) [
        | [] ↦ none
        | log ∷ logs ↦
            some
              (replay_logs (log ∷ logs) info (record { vfs = new root_oid; staging = Staging.new }))
      ]
