-- ===== src/Nfs/Replay.antt =====
-- src/nfs/fs.rs and src/wal/recovery.rs: what a handler logs, recovery does again.
use git_nfs.Prelude.{
  ℕ, ◌≡◌, refl, ap, sym, false, some, List, [], ◌∷◌, ◌++◌, Result, ok, Bool-cases, Option-cases,
  inl, inr,
}
use git_nfs.Prelude.Exec.{◌>>◌, pure, attempt, attempt-ok, OnOk, OnOk-bind, OnOk-holds}
use git_nfs.Staging.{
  StagingStore, is_deleted, is_staged, write_at, truncate, record_changed_path, base_content,
}
use git_nfs.Staging.Paths.{record_changed_path-eq}
use git_nfs.Vfs.State.{VfsNode, get_node, get_path, live, update_file_size}
use git_nfs.Vfs.Inode
use git_nfs.Git.Tree.{regular_file}
use git_nfs.Wal.Proto.{WalPayload}
use git_nfs.Wal.Manager.{ActiveWalWriter, WalManager, next_entry}
use git_nfs.Nfs.Logged.{log_of, Logging, note_change-log, path_of-update_file_size}
use git_nfs.Wal.Recovery.{
  World, RecoverError, Recover, replay_new, in_vfs, existing_node, recovered_base, replay_write,
  replay_truncate, replay_payload,
}
use git_nfs.Nfs.State.{Remote, GitNfsFileSystem, Nfsstat3, Fattr3, attr_of, get_base_data, path_of}
use git_nfs.Nfs.Data.{note_change, write, stage_write, base_data, setattr, set_size, set_size_if}
use git_nfs.Nfs.ReadWrite.{Kept, note_change-Kept, live_node_ok, live_node_refuses}

-- Recovery succeeds, with the inode tables and the staged contents of the file system; only the set
-- of changed paths may differ.
pub record Recovered (t : GitNfsFileSystem) (r : Result RecoverError (Unit {0}) × World)
    : Type 0 where
  pub succeeds : r.0 ≡ ok tt
  pub vfs_eq : r.1.vfs ≡ t.vfs
  pub staging_eq : r.1.staging ≡ record t.staging { changed_paths = r.1.staging.changed_paths }

module _ (remote : Remote) where
  abbrev world : GitNfsFileSystem → World
  world s = record { vfs = s.vfs; staging = s.staging }

  abbrev pub replayed : GitNfsFileSystem → WalPayload → Result RecoverError (Unit {0}) × World
  replayed s payload = replay_payload remote.engine remote.get_blob payload (world s)

  -- The path is found without a change of the tables.
  found_path :
      (w : World) (path : List ℕ) (id : ℕ) {B : Type 0} (f : ℕ → Recover B) (g : Recover B)
      → Inode.lookup_path remote.engine path w.vfs ≡ (ok id, w.vfs)
      → attempt (in_vfs (Inode.lookup_path remote.engine path)) f g w ≡ f id w
  found_path w path id f g e =
      attempt-ok (in_vfs (Inode.lookup_path remote.engine path)) f g w w id (rw (in_vfs, e) refl)

  replay_write-eq :
      (s : GitNfsFileSystem) (path : List ℕ) (id offset : ℕ) (bytes : List ℕ) (node : VfsNode)
      → Inode.lookup_path remote.engine path s.vfs ≡ (ok id, s.vfs)
      → get_node s.vfs id ≡ some node
      → let w = write_at s.staging id offset bytes (base_data remote node id s) in
        replayed s (WalPayload.write (record { path = path; offset = offset; content = bytes })) ≡ (
          ok tt,
          record {
            vfs = update_file_size id w.1 s.vfs;
            staging = record w.0 {
              changed_paths = (record_changed_path s.staging path).changed_paths;
            };
          },
        )
  unfolding replay_payload replay_write recovered_base base_data get_base_data write_at is_staged
      base_content get_node live
  replay_write-eq s path id offset bytes node found has =
      let noted = record s.staging {
        changed_paths = (record_changed_path s.staging path).changed_paths;
      } in
      rw
        (
          replay_payload,
          replay_write,
          record_changed_path-eq s.staging path,
          found_path (record { vfs = s.vfs; staging = noted }) path id pure
              (replay_new remote.engine remote.get_blob path regular_file) found,
          existing_node,
          has,
        )
        refl

  replay_truncate-eq :
      (s : GitNfsFileSystem) (path : List ℕ) (id size : ℕ) (node : VfsNode)
      → Inode.lookup_path remote.engine path s.vfs ≡ (ok id, s.vfs)
      → get_node s.vfs id ≡ some node
      → replayed s (WalPayload.truncate (record { path = path; new_size = size })) ≡ (
        ok tt,
        record {
          vfs = update_file_size id size s.vfs;
          staging = record (truncate s.staging id size (base_data remote node id s)) {
            changed_paths = (record_changed_path s.staging path).changed_paths;
          };
        },
      )
  unfolding replay_payload replay_truncate recovered_base base_data get_base_data truncate is_staged
      base_content get_node live
  replay_truncate-eq s path id size node found has =
      let noted = record s.staging {
        changed_paths = (record_changed_path s.staging path).changed_paths;
      } in
      rw
        (
          replay_payload,
          replay_truncate,
          record_changed_path-eq s.staging path,
          found_path (record { vfs = s.vfs; staging = noted }) path id _ _ found,
          existing_node,
          has,
        )
        refl

  -- What is noted afterwards does not matter.
  Recovered-Kept :
      (s t : GitNfsFileSystem) (r : Result RecoverError (Unit {0}) × World) (cp : List (List ℕ))
      → Kept s t
      → r ≡ (ok tt, record { vfs = s.vfs; staging = record s.staging { changed_paths = cp } })
      → Recovered t r
  Recovered-Kept s t r cp k e = rw e (record {
    succeeds = refl;
    vfs_eq = sym k.vfs_eq;
    staging_eq = sym (
        ap {A = StagingStore} {B = StagingStore} (λ g. record g { changed_paths = cp })
          k.staging_eq);
  })

  -- The log has one more entry, and its payload, replayed from the state before, gives the state `t`.
  abbrev pub Replays :
      ℕ → GitNfsFileSystem → WalManager → ActiveWalWriter → GitNfsFileSystem → Type 0
  Replays now s m w t =
      (payload : WalPayload) × (log_of t ≡ some (w.entries ++ next_entry m now payload ∷ []))
      × Recovered t (replayed s payload)

  noted-Replays :
      (now id : ℕ) (payload : List ℕ → WalPayload) (shown : VfsNode) (s u : GitNfsFileSystem)
      (path : List ℕ) (m : WalManager) (w : ActiveWalWriter) (cp : List (List ℕ))
      → path_of id u ≡ (ok (some path), u)
      → Logging u m w
      → replayed s (payload path)
        ≡ (ok tt, record { vfs = u.vfs; staging = record u.staging { changed_paths = cp } })
      → OnOk {E = Nfsstat3}
          (λ attr t. Replays now s m w t)
          ((note_change now id payload >> attr_of remote shown) u)
  unfolding attr_of
  noted-Replays now id payload shown s u path m w cp found logging e =
      OnOk-bind (λ attr t. Replays now s m w t) (note_change now id payload)
        (λ x. attr_of remote shown) u
        (λ x t f. (
          payload path,
          OnOk-holds (λ x t. log_of t ≡ some (w.entries ++ next_entry m now (payload path) ∷ [])) _
              x t (note_change-log now id payload u path m w found logging) f,
          Recovered-Kept u t _ cp
              (OnOk-holds (λ x t. Kept u t) _ x t (note_change-Kept now id payload u) f) e,
        ))

  module _ (now id : ℕ) (path : List ℕ) (s : GitNfsFileSystem) (m : WalManager)
      (w : ActiveWalWriter) (logging : Logging s m w)
      (leads : get_path s.vfs.next_inode s.vfs id ≡ ok path)
      (found : Inode.lookup_path remote.engine path s.vfs ≡ (ok id, s.vfs)) where
    write-Replays :
        (offset : ℕ) (bytes : List ℕ)
        → OnOk (λ attr t. Replays now s m w t) (write remote now id offset bytes s)
    unfolding write stage_write base_data get_base_data
    write-Replays offset bytes = elim (Bool-cases (is_deleted s.staging id)) [
      | inl gone ↦ rw (live_node_refuses remote s id (inl gone)) tt
      | inr alive ↦ elim (Option-cases (get_node s.vfs id)) [
        | inl missing ↦ rw (live_node_refuses remote s id (inr missing)) tt
        | inr (node, has) ↦ elim (Bool-cases node.is_dir) [
          | inl dir ↦ rw (live_node_ok remote s id node alive has, dir) tt
          | inr file ↦
              let base = base_data remote node id s in
              let r = write_at s.staging id offset bytes base in
              rw (live_node_ok remote s id node alive has, file)
                (noted-Replays now id
                  (λ path.
                    WalPayload.write (record { path = path; offset = offset; content = bytes }))
                  (record node { is_dir = false }) s
                  (record s { staging = r.0; vfs = update_file_size id r.1 s.vfs }) path m w _
                  (path_of-update_file_size s r.0 id r.1 path leads)
                  (record {
                    manager = logging.manager;
                    writer = logging.writer;
                    accepts = logging.accepts;
                  })
                  (replay_write-eq s path id offset bytes node found has))
        ]
      ]
    ]

    set_size-Replays :
        (size : ℕ) → OnOk (λ attr t. Replays now s m w t) (setattr remote now id (some size) s)
    unfolding setattr set_size set_size_if base_data get_base_data
    set_size-Replays size = elim (Bool-cases (is_deleted s.staging id)) [
      | inl gone ↦ rw (live_node_refuses remote s id (inl gone)) tt
      | inr alive ↦ elim (Option-cases (get_node s.vfs id)) [
        | inl missing ↦ rw (live_node_refuses remote s id (inr missing)) tt
        | inr (node, has) ↦ elim (Bool-cases node.is_dir) [
          | inl dir ↦ rw (live_node_ok remote s id node alive has, dir) tt
          | inr file ↦
              let g = truncate s.staging id size (base_data remote node id s) in
              rw (live_node_ok remote s id node alive has, file)
                (noted-Replays now id
                  (λ path. WalPayload.truncate (record { path = path; new_size = size }))
                  (record node { is_dir = false }) s
                  (record s { staging = g; vfs = update_file_size id size s.vfs }) path m w _
                  (path_of-update_file_size s g id size path leads)
                  (record {
                    manager = logging.manager;
                    writer = logging.writer;
                    accepts = logging.accepts;
                  })
                  (replay_truncate-eq s path id size node found has))
        ]
      ]
    ]

    -- A write of the file system that succeeds, with a log that accepts it, adds one entry to the log.
    -- Replaying the payload of that entry on the inode tables and the staging store from before the write
    -- succeeds and gives the tables and the staged contents from after it. The path of the file must lead
    -- to it, through directories that were read before.
    pub write-replay :
        (offset : ℕ) (bytes : List ℕ) (t : GitNfsFileSystem) (attr : Fattr3)
        → write remote now id offset bytes s ≡ (ok attr, t)
        → Replays now s m w t
    write-replay offset bytes t attr =
        OnOk-holds (λ a t. Replays now s m w t) _ attr t (write-Replays offset bytes)

    -- A change of the size of a file that succeeds, with a log that accepts it, adds one entry to the log.
    -- Replaying its payload on the inode tables and the staging store from before succeeds and gives
    -- those from after it. The path of the file must lead to it, through directories that were read before.
    pub setattr-replay :
        (size : ℕ) (t : GitNfsFileSystem) (attr : Fattr3)
        → setattr remote now id (some size) s ≡ (ok attr, t)
        → Replays now s m w t
    setattr-replay size t attr =
        OnOk-holds (λ a t. Replays now s m w t) _ attr t (set_size-Replays size)
