-- ===== src/Nfs/ReadWrite.antt =====
-- What is written through the protocol is read back through it.
use git_nfs.Prelude.{
  ℕ, ◌≡◌, refl, ap, ◌∙◌, Bool, true, false, Option, none, some, List, ◌∷◌, length,
}
use git_nfs.Prelude.{◌⊎◌, Result, ok, err, arith, Bool-cases, Option-cases, inl, inr}
use git_nfs.Prelude.Exec.{◌>>◌, OnOk, OnOk-bind, OnOk-holds}
use git_nfs.Staging.{is_deleted, is_staged, write_at, read_at}
use git_nfs.Staging.Paths.{record_changed_path-eq}
use git_nfs.Staging.Reads.{read_at-write_at}
use git_nfs.Vfs.State.{VfsNode, VfsManager, VfsError, get_node, live, update_file_size, get_path}
use git_nfs.Prelude.Assoc
use git_nfs.Vfs.State.{
  set_node, dir_not_found, not_a_directory, child_not_found, node_not_found, empty_path, stuck,
}
use git_nfs.Wal.Proto.{WalPayload}
use git_nfs.Nfs.State.{
  Remote, GitNfsFileSystem, Nfsstat3, noent, hung, Fattr3, some_or, path_of, record_mutation, log,
  attr_of,
}
use git_nfs.Nfs.Data.{live_node, note_change, read, write, stage_write, base_data}

-- Noting a change touches neither the inode tables nor what is staged or deleted.
pub record Kept (s t : GitNfsFileSystem) : Type 0 where
  pub vfs_eq : t.vfs ≡ s.vfs
  pub staging_eq : t.staging ≡ record s.staging { changed_paths = t.staging.changed_paths }

path_of_cases :
    (id : ℕ) (s : GitNfsFileSystem)
    → ((found : Option (List ℕ)) × (path_of id s ≡ (ok found, s))) ⊎ (path_of id s ≡ (err hung, s))
unfolding path_of
path_of_cases id s = go (get_path s.vfs.next_inode s.vfs id) refl
  where
    go :
        (r : Result VfsError (List ℕ))
        → get_path s.vfs.next_inode s.vfs id ≡ r
        → ((found : Option (List ℕ)) × (path_of id s ≡ (ok found, s)))
          ⊎ (path_of id s ≡ (err hung, s))
    go (ok path) e = inl (some path, rw (e, path_of) refl)
    go (err dir_not_found) e = inl (none, rw (e, path_of) refl)
    go (err not_a_directory) e = inl (none, rw (e, path_of) refl)
    go (err child_not_found) e = inl (none, rw (e, path_of) refl)
    go (err node_not_found) e = inl (none, rw (e, path_of) refl)
    go (err empty_path) e = inl (none, rw (e, path_of) refl)
    go (err stuck) e = inr (rw (e, path_of) refl)

pub note_change-Kept :
    (now id : ℕ) (payload : List ℕ → WalPayload) (s : GitNfsFileSystem)
    → OnOk (λ u t. Kept s t) (note_change now id payload s)
unfolding note_change record_mutation log
note_change-Kept now id payload s = elim (path_of_cases id s) [
  | inr e ↦ rw e tt
  | inl (none, e) ↦ rw e (record { vfs_eq = refl; staging_eq = refl })
  | inl (some path, e) ↦ rw e (noted path)
]
  where
    noted :
        (path : List ℕ)
        → OnOk (λ u t. Kept s t) ((record_mutation now path >> log now (payload path)) s)
    noted path = record { vfs_eq = refl; staging_eq = record_changed_path-eq s.staging path }

module _ (remote : Remote) where
  pub live_node_ok :
      (s : GitNfsFileSystem) (id : ℕ) (node : VfsNode)
      → is_deleted s.staging id ≡ false
      → get_node s.vfs id ≡ some node
      → live_node id s ≡ (ok node, s)
  unfolding live_node
  live_node_ok s id node alive has = rw (alive, has, some_or) refl

  pub live_node_refuses :
      (s : GitNfsFileSystem) (id : ℕ)
      → (is_deleted s.staging id ≡ true) ⊎ (get_node s.vfs id ≡ none)
      → live_node id s ≡ (err noent, s)
  unfolding live_node
  live_node_refuses s id (inl gone) = rw gone refl
  live_node_refuses s id (inr missing) = elim (Bool-cases (is_deleted s.staging id)) [
    | inl e ↦ rw e refl
    | inr e ↦ rw (e, missing, some_or) refl
  ]

  -- A read of a staged file that is alive.
  read_staged :
      (s : GitNfsFileSystem) (id offset count : ℕ) (node : VfsNode) (found : List ℕ × Bool)
      → is_deleted s.staging id ≡ false
      → get_node s.vfs id ≡ some node
      → node.is_dir ≡ false
      → read_at s.staging id offset count ≡ some found
      → read remote id offset count s ≡ (ok found, s)
  unfolding read read_at is_staged Assoc.lookup
  read_staged s id offset count node found alive has file staged =
      rw (live_node_ok s id node alive has, file, staged) refl

  updated :
      (v : VfsManager) (id : ℕ) (node : VfsNode)
      → node.is_deleted ≡ false
      → get_node (set_node id node v) id ≡ some node
  unfolding get_node live
  updated v id node alive = ground arith

  -- A change of the size only.
  update_file_size-node :
      (v : VfsManager) (id size : ℕ) (node : VfsNode)
      → get_node v id ≡ some node
      → get_node (update_file_size id size v) id ≡ some (record node { size = size })
  unfolding get_node live update_file_size
  update_file_size-node v id size node has = elim (Option-cases (v.nodes id)) [
    | inl e ↦ absurd (ground arith)
    | inr (n, e) ↦ elim (Bool-cases n.is_deleted) [
      | inl f ↦ absurd (ground arith)
      | inr f ↦
          let same : n ≡ node = ground arith in
          rw (e, update_file_size)
            (updated v id (record n { size = size }) f
              ∙ ap {A = VfsNode} {B = Option VfsNode} (λ x. some (record x { size = size })) same)
    ]
  ]

  -- The bytes can be read back at their offset.
  abbrev ReadsBack : ℕ → ℕ → List ℕ → GitNfsFileSystem → Type 0
  ReadsBack id offset bytes t =
      (eof : Bool) × (read remote id offset (length bytes) t ≡ (ok (bytes, eof), t))

  -- Whatever is noted afterwards.
  ReadsBack-Kept :
      (s t : GitNfsFileSystem) (id offset b : ℕ) (bytes : List ℕ) (base : Option (List ℕ))
      (node : VfsNode)
      → is_deleted s.staging id ≡ false
      → get_node s.vfs id ≡ some node
      → node.is_dir ≡ false
      → Kept
          (record s {
            staging = (write_at s.staging id offset (b ∷ bytes) base).0;
            vfs = update_file_size id (write_at s.staging id offset (b ∷ bytes) base).1 s.vfs;
          })
          t
      → ReadsBack id offset (b ∷ bytes) t
  unfolding is_deleted write_at read_at is_staged
  ReadsBack-Kept s t id offset b bytes base node alive has file k =
      let w = write_at s.staging id offset (b ∷ bytes) base in
      let (eof, staged) = read_at-write_at s.staging id offset b bytes base in
      (
        eof,
        read_staged t id offset (length (b ∷ bytes)) (record node { size = w.1 }) (b ∷ bytes, eof)
            (ap (λ g. is_deleted g id) k.staging_eq ∙ alive)
            (ap (λ v. get_node v id) k.vfs_eq ∙ update_file_size-node s.vfs id w.1 node has) file
            (ap (λ g. read_at g id offset (length (b ∷ bytes))) k.staging_eq ∙ staged),
      )

  -- The last steps of a write: noting it, and the attributes.
  noted-OnOk :
      (now id offset b : ℕ) (bytes : List ℕ) (base : Option (List ℕ))
      (payload : List ℕ → WalPayload) (shown node : VfsNode) (s : GitNfsFileSystem)
      → is_deleted s.staging id ≡ false
      → get_node s.vfs id ≡ some node
      → node.is_dir ≡ false
      → let w = write_at s.staging id offset (b ∷ bytes) base in
        OnOk {E = Nfsstat3}
          (λ attr. ReadsBack id offset (b ∷ bytes))
          ((note_change now id payload >> attr_of remote shown)
            (record s { staging = w.0; vfs = update_file_size id w.1 s.vfs }))
  unfolding attr_of
  noted-OnOk now id offset b bytes base payload shown node s alive has file =
      let w = write_at s.staging id offset (b ∷ bytes) base in
      let s2 = record s { staging = w.0; vfs = update_file_size id w.1 s.vfs } in
      OnOk-bind (λ attr. ReadsBack id offset (b ∷ bytes)) (note_change now id payload)
        (λ u. attr_of remote shown) s2
        (λ u t e.
          ReadsBack-Kept s t id offset b bytes base node alive has file
            (OnOk-holds (λ u t. Kept s2 t) _ u t (note_change-Kept now id payload s2) e))

  write-OnOk :
      (now id offset b : ℕ) (bytes : List ℕ) (s : GitNfsFileSystem)
      → OnOk (λ attr. ReadsBack id offset (b ∷ bytes)) (write remote now id offset (b ∷ bytes) s)
  unfolding write stage_write
  write-OnOk now id offset b bytes s = elim (Bool-cases (is_deleted s.staging id)) [
    | inl gone ↦ rw (live_node_refuses s id (inl gone)) tt
    | inr alive ↦ elim (Option-cases (get_node s.vfs id)) [
      | inl missing ↦ rw (live_node_refuses s id (inr missing)) tt
      | inr (node, has) ↦ elim (Bool-cases node.is_dir) [
        | inl dir ↦ rw (live_node_ok s id node alive has, dir) tt
        | inr file ↦
            rw (live_node_ok s id node alive has, file)
              (noted-OnOk now id offset b bytes
                (base_data remote (record node { is_dir = false }) id s)
                (λ path.
                  WalPayload.write (record { path = path; offset = offset; content = b ∷ bytes }))
                (record node { is_dir = false }) node s alive has file)
      ]
    ]
  ]

  -- A write of at least one byte that succeeds is followed by a read of the same range that succeeds
  -- with the bytes written, whatever the file was and also when no path or log is there to note it in.
  pub write-read :
      (now id offset b : ℕ) (bytes : List ℕ) (s t : GitNfsFileSystem) (attr : Fattr3)
      → write remote now id offset (b ∷ bytes) s ≡ (ok attr, t)
      → (eof : Bool) × (read remote id offset (length (b ∷ bytes)) t ≡ (ok (b ∷ bytes, eof), t))
  write-read now id offset b bytes s t attr =
      OnOk-holds (λ a. ReadsBack id offset (b ∷ bytes)) _ attr t
        (write-OnOk now id offset b bytes s)
