-- ===== src/Nfs/Logged.antt =====
-- src/nfs/fs.rs and src/wal/mod.rs: what a handler that notes a change leaves in the log.
use git_nfs.Prelude.{ℕ, ◌≡◌, refl, true, Option, none, some, List, [], ◌∷◌, ◌++◌, ok}
use git_nfs.Prelude.Exec.{OnOk}
use git_nfs.Staging.{StagingStore}
use git_nfs.Vfs.State.{update_file_size, get_path}
use git_nfs.Vfs.State.Resize.{get_path-update_file_size}
use git_nfs.Wal.Proto.{WalPayload, WalEntry}
use git_nfs.Wal.Manager.{ActiveWalWriter, WalManager, next_entry, log_mutation}
use git_nfs.Nfs.State.{GitNfsFileSystem, path_of, record_mutation, log}
use git_nfs.Nfs.Data.{note_change}

-- The entries of the active log.
abbrev pub manager_log : Option WalManager → Option (List WalEntry)
manager_log none = none
manager_log (some m) = elim m.active_writer [ none ↦ none | some w ↦ some w.entries ]

abbrev pub log_of : GitNfsFileSystem → Option (List WalEntry)
log_of s = manager_log s.wal

-- The log is open, and its writer accepts what is appended.
pub record Logging (s : GitNfsFileSystem) (m : WalManager) (w : ActiveWalWriter) : Type 0 where
  pub manager : s.wal ≡ some m
  pub writer : m.active_writer ≡ some w
  pub accepts : (entries : List WalEntry) (e : WalEntry) → w.appends entries e ≡ true

-- A noted change of a node with a path is the next entry of the log.
pub note_change-log :
    (now id : ℕ) (payload : List ℕ → WalPayload) (s : GitNfsFileSystem) (path : List ℕ)
    (m : WalManager) (w : ActiveWalWriter)
    → path_of id s ≡ (ok (some path), s)
    → Logging s m w
    → OnOk
        (λ u t. log_of t ≡ some (w.entries ++ next_entry m now (payload path) ∷ []))
        (note_change now id payload s)
unfolding note_change record_mutation log log_mutation
note_change-log now id payload s path m w e l =
    rw (e, l.manager, log_mutation, l.writer, l.accepts w.entries (next_entry m now (payload path)))
      refl

-- The path is the one from before the change of the size.
pub path_of-update_file_size :
    (s : GitNfsFileSystem) (staging : StagingStore) (id size : ℕ) (path : List ℕ)
    → get_path s.vfs.next_inode s.vfs id ≡ ok path
    → let t = record s { staging = staging; vfs = update_file_size id size s.vfs } in
      path_of id t ≡ (ok (some path), t)
unfolding path_of
path_of-update_file_size s staging id size path e =
    rw (path_of, get_path-update_file_size s.vfs id size id, e) refl
