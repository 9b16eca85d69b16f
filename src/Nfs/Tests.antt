-- ===== src/Nfs/Tests.antt =====
-- Concrete runs of the handlers, and the theorems at concrete inputs.
use git_nfs.Prelude.{ℕ, ◌≡◌, refl, Bool, false, none, some, [], ◌∷◌, length, ok, str_eq}
use git_nfs.Prelude.Assoc.{lookup, insert, contains}
use git_nfs.Text.{ascii, join, split, trim, trim_matches}
use git_nfs.Git.Tree.{posix_mode}
use git_nfs.Staging
use git_nfs.Staging.{
  is_deleted, is_staged, write_at, write_bytes, base_content, get_size, record_changed_path,
  add_path, contains_path, truncate, set_len,
}
use git_nfs.Vfs.State.{
  new, get_node, live, update_file_size, get_path, path_loop, create_new, attach,
}
use git_nfs.Vfs.State.{add_nodes, add_mappings, find_child}
use git_nfs.Vfs.Inode
use git_nfs.Vfs.Inode.{
  ensure_dir_populated, populate, scan, tree_entries, lookup_parts, lookup_child,
}
use mathlib.Core.Option
use git_nfs.Prelude.{true}
use git_nfs.Wal.Manager.{ActiveWalWriter, WalManager, log_mutation}
use git_nfs.Nfs.Logged.{log_of, Logging}
use git_nfs.Wal.Manager
use git_nfs.Nfs.State.{
  Remote, GitNfsFileSystem, Fattr3, nf3reg, path_of, child_path, record_mutation, log,
  node_to_fattr3, shown_size, cached_size, attr_of, get_base_data,
}
use git_nfs.Nfs.Data.{
  live_node, note_change, base_data, stage_write, write, read, setattr, set_size, set_size_if,
}
use git_nfs.Nfs.Names.{make_file, create_exclusive, note_child}
use git_nfs.Nfs.ReadWrite.{write-read}
use git_nfs.Nfs.Replay.{Replays, write-replay, setattr-replay}

-- An empty repository.
abbrev remote : Remote
remote = record {
  engine = record { get_tree = λ oid. none; memory_size = λ oid. none; disk_size = λ oid. none };
  get_blob = λ oid. none;
  from_utf8_lossy = λ name. name;
  uid = 501;
  gid = 20;
  epoch_seconds = 1000;
}

-- A writer that accepts all.
abbrev writer : ActiveWalWriter
writer = record {
  entries = [];
  appends = λ es e. true;
  flushes = λ es. true;
  finalizes = λ es. true;
}

abbrev start : GitNfsFileSystem
start = record {
  vfs = new [];
  staging = Staging.new;
  wal = some (record (Manager.new 1) { active_writer = some writer });
  last_mutation_time = 0;
  has_uncommitted_changes = false;
}

abbrev created : GitNfsFileSystem
created = (create_exclusive remote 5 1 (ascii "x") start).1

abbrev written : GitNfsFileSystem
written = (write remote 6 2 3 (7 ∷ 8 ∷ []) created).1

abbrev attr : Fattr3
attr = record {
  ftype = nf3reg;
  mode = 0o644;
  nlink = 1;
  uid = 501;
  gid = 20;
  size = 5;
  used = 5;
  fileid = 2;
  seconds = 1000;
}

written_run : write remote 6 2 3 (7 ∷ 8 ∷ []) created ≡ (ok attr, written)
unfolding create_exclusive make_file note_child path_of child_path record_mutation log
    node_to_fattr3 shown_size cached_size attr_of get_base_data live_node note_change base_data
    stage_write write Inode.create_file ensure_dir_populated populate scan tree_entries add_nodes
    add_mappings create_new attach new get_node live update_file_size get_path path_loop join
    Staging.create_file is_deleted is_staged write_at write_bytes base_content get_size
    record_changed_path add_path contains_path lookup insert contains log_mutation posix_mode str_eq
    trim_matches trim
written_run = refl

write-read_example :
    (eof : Bool) × (read remote 2 3 (length {A = ℕ} (7 ∷ 8 ∷ [])) written
      ≡ (ok (7 ∷ 8 ∷ [], eof), written))
write-read_example = write-read remote 6 2 3 7 (8 ∷ []) created written attr written_run

path_run : Inode.lookup_path remote.engine (ascii "x") created.vfs ≡ (ok 2, created.vfs)
unfolding create_exclusive make_file note_child path_of child_path record_mutation log
    node_to_fattr3 shown_size cached_size attr_of get_base_data live_node note_change base_data
    stage_write write Inode.create_file ensure_dir_populated populate scan tree_entries add_nodes
    add_mappings create_new attach new get_node live update_file_size get_path path_loop join
    Staging.create_file is_deleted is_staged write_at write_bytes base_content get_size
    record_changed_path add_path contains_path lookup insert contains log_mutation posix_mode str_eq
    trim_matches trim Inode.lookup_path split lookup_parts Inode.lookup lookup_child find_child
path_run = refl

leads_run : get_path created.vfs.next_inode created.vfs 2 ≡ ok (ascii "x")
unfolding create_exclusive make_file note_child path_of child_path record_mutation log
    node_to_fattr3 shown_size cached_size attr_of get_base_data live_node note_change base_data
    stage_write write Inode.create_file ensure_dir_populated populate scan tree_entries add_nodes
    add_mappings create_new attach new get_node live update_file_size get_path path_loop join
    Staging.create_file is_deleted is_staged write_at write_bytes base_content get_size
    record_changed_path add_path contains_path lookup insert contains log_mutation posix_mode str_eq
    trim_matches trim
leads_run = refl

-- The log of the file system that has created the file.
abbrev used : ActiveWalWriter
used = record writer { entries = Option.get_or (log_of created) [] }

abbrev manager : WalManager
manager = record { active_seq = 1; active_writer = some used; entry_seq = 2 }

created-Logging : Logging created manager used
unfolding create_exclusive make_file note_child path_of child_path record_mutation log
    node_to_fattr3 shown_size cached_size attr_of get_base_data live_node note_change base_data
    stage_write write Inode.create_file ensure_dir_populated populate scan tree_entries add_nodes
    add_mappings create_new attach new get_node live update_file_size get_path path_loop join
    Staging.create_file is_deleted is_staged write_at write_bytes base_content get_size
    record_changed_path add_path contains_path lookup insert contains log_mutation posix_mode str_eq
    trim_matches trim
created-Logging = record { manager = refl; writer = refl; accepts = λ es e. refl }

write-replay_example : Replays remote 6 created manager used written
write-replay_example =
    write-replay remote 6 2 (ascii "x") created manager used created-Logging leads_run path_run 3
      (7 ∷ 8 ∷ []) written attr written_run

abbrev resized : GitNfsFileSystem
resized = (setattr remote 7 2 (some 5) created).1

resized_run : setattr remote 7 2 (some 5) created ≡ (ok attr, resized)
unfolding create_exclusive make_file note_child path_of child_path record_mutation log
    node_to_fattr3 shown_size cached_size attr_of get_base_data live_node note_change base_data
    setattr set_size set_size_if truncate set_len Inode.create_file ensure_dir_populated populate
    scan tree_entries add_nodes add_mappings create_new attach new get_node live update_file_size
    get_path path_loop join Staging.create_file is_deleted is_staged base_content get_size
    record_changed_path add_path contains_path lookup insert contains log_mutation posix_mode str_eq
    trim_matches trim
resized_run = refl

setattr-replay_example : Replays remote 7 created manager used resized
setattr-replay_example =
    setattr-replay remote 7 2 (ascii "x") created manager used created-Logging leads_run path_run 5
      resized attr resized_run
