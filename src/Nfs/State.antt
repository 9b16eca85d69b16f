-- ===== src/Nfs/State.antt =====
-- src/nfs/fs.rs: the state of the file system, and what its handlers share. `Remote` is what they ask
-- of the Git engine and of the surroundings: blobs, the sizes known to the caches, the lossy conversion
-- of a name to UTF-8, the owner and the start time. That fetching a blob fills the caches is
-- not modelled: the sizes they know stay the same. The locks that keep commits and changes apart are
-- not modelled: a handler runs alone.
use mathlib.Core.Option
use git_nfs.Prelude.{ℕ, ◌%◌, Bool, true, Option, none, some, List, [], ◌∷◌, ◌++◌}
use git_nfs.Prelude.{if◌then◌else◌, ok, err}
use git_nfs.Prelude.Exec.{Exec}
use git_nfs.Text.{ascii}
use git_nfs.Git.Tree.{is_symlink, posix_mode}
use git_nfs.Staging.{StagingStore, record_changed_path, get_size}
use git_nfs.Vfs.State.{VfsNode, VfsManager, Engine, Vfs, get_path, stuck}
use git_nfs.Wal.Proto.{WalPayload}
use git_nfs.Wal.Manager.{WalManager, log_mutation}

pub record Remote : Type 0 where
  pub engine : Engine
  pub get_blob : List ℕ → Option (List ℕ)
  pub from_utf8_lossy : List ℕ → List ℕ
  pub uid : ℕ
  pub gid : ℕ
  pub epoch_seconds : ℕ

pub record GitNfsFileSystem : Type 0 where
  pub vfs : VfsManager
  pub staging : StagingStore
  pub wal : Option WalManager
  pub last_mutation_time : ℕ
  pub has_uncommitted_changes : Bool

-- `NFS3ERR_*`; `hung` is no status of the source: the walk to the root does not end there.
pub data Nfsstat3 : Type 0 where
  noent io isdir notdir inval rofs hung : Nfsstat3

pub data Ftype3 : Type 0 where
  nf3reg nf3dir nf3lnk : Ftype3

-- The attributes; the device, the file system id and the nanoseconds are constants.
pub record Fattr3 : Type 0 where
  pub ftype : Ftype3
  pub mode : ℕ
  pub nlink : ℕ
  pub uid : ℕ
  pub gid : ℕ
  pub size : ℕ
  pub used : ℕ
  pub fileid : ℕ
  pub seconds : ℕ

abbrev pub Fs {ℓ} : Type ℓ → Type ℓ
Fs A = Exec GitNfsFileSystem Nfsstat3 A

-- A method of the inode manager, every error of which becomes one status.
abbrev pub in_vfs {ℓ} : {A : Type ℓ} → Nfsstat3 → Vfs A → Fs A
in_vfs status m s =
    let (r, v) = m s.vfs in (elim r [ ok a ↦ ok a | err _ ↦ err status ], record s { vfs = v })

abbrev pub on_vfs : (VfsManager → VfsManager) → Fs (Unit {0})
on_vfs f s = (ok tt, record s { vfs = f s.vfs })

abbrev pub on_staging : (StagingStore → StagingStore) → Fs (Unit {0})
on_staging f s = (ok tt, record s { staging = f s.staging })

abbrev pub some_or {ℓ} : {A : Type ℓ} → Nfsstat3 → (GitNfsFileSystem → Option A) → Fs A
some_or status f s = elim (f s) [ some a ↦ (ok a, s) | none ↦ (err status, s) ]

-- `vfs.get_path(id)`, its error as `none`.
unfoldable pub path_of : ℕ → Fs (Option (List ℕ))
path_of id s = elim (get_path s.vfs.next_inode s.vfs id) [
  | ok path ↦ (ok (some path), s)
  | err stuck ↦ (err hung, s)
  | err _ ↦ (ok none, s)
]

-- The path of a child, from the directory's path or the empty default.
unfoldable pub child_path : Option (List ℕ) → List ℕ → List ℕ
child_path none name = name
child_path (some []) name = name
child_path (some (c ∷ parent)) name = (c ∷ parent) ++ ascii "/" ++ name

unfoldable pub record_mutation : ℕ → List ℕ → Fs (Unit {0})
record_mutation now path s = (
  ok tt,
  record s {
    staging = record_changed_path s.staging path;
    last_mutation_time = now;
    has_uncommitted_changes = true;
  },
)

-- `if let Some(ref wal) = self.wal { let _ = wal.log_mutation(payload).await; }`
unfoldable pub log : ℕ → WalPayload → Fs (Unit {0})
log now payload s =
    (ok tt, record s { wal = Option.map (λ m. (log_mutation now payload m).1) s.wal })

module _ (remote : Remote) where
  unfoldable pub cached_size : List ℕ → Option ℕ
  cached_size oid = elim (remote.engine.memory_size oid) [
    | some size ↦ some size
    | none ↦ remote.engine.disk_size oid
  ]

  -- The staged size, else that of the cached blob, else the one noted.
  unfoldable pub shown_size : GitNfsFileSystem → VfsNode → ℕ
  shown_size s node = elim (get_size s.staging node.id) [
    | some n ↦ n
    | none ↦ Option.get_or (cached_size node.oid) node.size
  ]

  unfoldable pub node_to_fattr3 : GitNfsFileSystem → VfsNode → Fattr3
  node_to_fattr3 s node =
      let size = shown_size s node in
      record {
        ftype = if node.is_dir then nf3dir else if is_symlink node.mode then nf3lnk else nf3reg;
        mode = posix_mode node.mode % 512;
        nlink = if node.is_dir then 2 else 1;
        uid = remote.uid;
        gid = remote.gid;
        size = size;
        used = size;
        fileid = node.id;
        seconds = remote.epoch_seconds;
      }

  -- A node is shared: its attributes are those it has now.
  unfoldable pub attr_of : VfsNode → Fs Fattr3
  attr_of node s = (ok (node_to_fattr3 s (Option.get_or (s.vfs.nodes node.id) node)), s)

  unfoldable pub get_base_data : VfsNode → Option (List ℕ)
  get_base_data node = elim node.oid [ [] ↦ none | c ∷ cs ↦ remote.get_blob (c ∷ cs) ]
