-- ===== src/Vfs/Inode.antt =====
-- src/vfs/inode.rs: the methods of the inode manager that read directories from the Git engine.
pub mod Population
pub mod Filled
pub mod Steps
pub mod Valid
pub mod Listed
pub mod Names
pub mod Moves
mod Tests
use mathlib.Core.Option
use git_nfs.Prelude.{ℕ, ◌*◌, not, true, false, Option, none, some, List, [], ◌∷◌, ◌==◌}
use git_nfs.Prelude.{if◌then◌else◌, str_eq, Result, ok, err, ok_or}
use git_nfs.Prelude.Exec.{Exec, pure, raise, gets, modify, discard, ◌>>=◌, ◌>>◌, attempt}
use git_nfs.Text.{ascii, trim_matches, split}
use git_nfs.Git.Tree.{TreeEntryMode, GitTreeEntry, is_dir}
use git_nfs.Vfs.State.{
  root_inode, VfsNode, VfsManager, Engine, VfsError, dir_not_found, not_a_directory,
  child_not_found, empty_path, Vfs, set_node, set_child, set_children, bump, Scan, add_nodes,
  add_mappings, find_child, live_nodes, fresh_node, attach, create_new, child_entry, detach,
  move_child, is_skipped, nonempty_parts,
}

module _ (engine : Engine) where
  unfoldable pub initial_size : GitTreeEntry → ℕ
  initial_size entry = if is_dir entry.mode then 4096 else elim (engine.memory_size entry.oid) [
    | some size ↦ size
    | none ↦ Option.get_or (engine.disk_size entry.oid) (1024 * 1024)
  ]

  unfoldable pub entry_node : ℕ → GitTreeEntry → ℕ → VfsNode
  entry_node dir_id entry id = record {
    id = id;
    parent_id = dir_id;
    name = entry.name;
    oid = entry.oid;
    mode = entry.mode;
    is_dir = is_dir entry.mode;
    size = initial_size entry;
    is_deleted = false;
  }

  unfoldable pub scan : VfsManager → ℕ → List GitTreeEntry → ℕ → Scan
  scan v dir_id [] next = record {
    child_ids = [];
    new_nodes = [];
    new_child_mappings = [];
    next = next;
  }
  scan v dir_id (entry ∷ entries) next = elim (v.child_map dir_id entry.name) [
    | some id ↦ let r = scan v dir_id entries next in record r { child_ids = id ∷ r.child_ids }
    | none ↦
        let r = scan v dir_id entries (bump next) in
        record {
          child_ids = next ∷ r.child_ids;
          new_nodes = (next, entry_node dir_id entry next) ∷ r.new_nodes;
          new_child_mappings = ((dir_id, entry.name), next) ∷ r.new_child_mappings;
          next = r.next;
        }
  ]

  unfoldable pub tree_entries : List ℕ → List GitTreeEntry
  tree_entries oid = elim (engine.get_tree oid) [ none ↦ [] | some tree ↦ tree.entries ]

  unfoldable pub populate : VfsManager → ℕ → VfsNode → VfsManager
  populate v dir_id node =
      let r = scan v dir_id (tree_entries node.oid) v.next_inode in
      set_children dir_id r.child_ids (
        add_mappings r.new_child_mappings
          (add_nodes r.new_nodes (record v { next_inode = r.next })))

  unfoldable pub ensure_dir_populated : ℕ → Vfs (Unit {0})
  ensure_dir_populated dir_id v = elim (v.dir_children dir_id) [
    | some _ ↦ (ok tt, v)
    | none ↦ elim (v.nodes dir_id) [
      | none ↦ (err dir_not_found, v)
      | some node ↦
          if not node.is_dir then (err not_a_directory, v) else (ok tt, populate v dir_id node)
    ]
  ]

  unfoldable pub lookup_child : ℕ → List ℕ → Vfs ℕ
  lookup_child dir_id name v = elim (find_child v dir_id name) [
    | some id ↦ (ok id, v)
    | none ↦
        (ensure_dir_populated dir_id >>= λ _ v'.
        (ok_or (find_child v' dir_id name) child_not_found, v'))
          v
  ]

  unfoldable pub lookup : ℕ → List ℕ → Vfs ℕ
  lookup dir_id name v =
      if str_eq name (ascii ".")
      then (ok dir_id, v)
      else if str_eq name (ascii "..")
      then (ok_or (Option.map (λ node. node.parent_id) (v.nodes dir_id)) dir_not_found, v)
      else lookup_child dir_id name v

  unfoldable pub list_dir : ℕ → Vfs (List VfsNode)
  list_dir dir_id = do
    ensure_dir_populated dir_id
    gets (λ v. live_nodes v (Option.get_or (v.dir_children dir_id) []))

  unfoldable pub create_file : ℕ → List ℕ → TreeEntryMode → Vfs VfsNode
  create_file dir_id name mode = do
    ensure_dir_populated dir_id
    λ v. elim (v.child_map dir_id name) [
      | none ↦ create_new dir_id name mode v
      | some id ↦ elim (v.nodes id) [
        | none ↦ create_new dir_id name mode v
        | some node ↦
            let node' = record node { is_deleted = false; size = 0 } in
            (ok node', set_node id node' v)
      ]
    ]

  unfoldable pub mkdir : ℕ → List ℕ → Vfs VfsNode
  mkdir dir_id name = do
    ensure_dir_populated dir_id
    λ v.
        let node = fresh_node v.next_inode dir_id name TreeEntryMode.directory true 4096 in
        (ok node, set_children node.id [] (attach dir_id name node v))

  unfoldable pub remove : ℕ → List ℕ → Vfs VfsNode
  remove dir_id name = do
    ensure_dir_populated dir_id
    (id, node) ← λ v. (child_entry dir_id name v, v)
    λ v. (ok (record node { is_deleted = true }), detach dir_id name id node v)

  unfoldable pub rename : ℕ → List ℕ → ℕ → List ℕ → Vfs (Unit {0})
  rename from_dir_id from_name to_dir_id to_name = do
    ensure_dir_populated from_dir_id
    ensure_dir_populated to_dir_id
    (id, node) ← λ v. (child_entry from_dir_id from_name v, v)
    discard (remove to_dir_id to_name)
    modify (move_child id from_dir_id from_name to_dir_id to_name)

  unfoldable pub lookup_parts : ℕ → List (List ℕ) → Vfs ℕ
  lookup_parts curr [] = pure curr
  lookup_parts curr (part ∷ parts) =
      let here = lookup_parts curr parts in
      if is_skipped part then here else (do next ← lookup curr part; lookup_parts next parts)

  unfoldable pub lookup_path : List ℕ → Vfs ℕ
  lookup_path path = elim (trim_matches b'/' path) [
    | [] ↦ pure root_inode
    | c ∷ cs ↦ lookup_parts root_inode (split b'/' (c ∷ cs))
  ]

  -- Walks to the directory of the last part, and makes the directories that are missing.
  unfoldable pub walk_parents : ℕ → List ℕ → List (List ℕ) → Vfs (ℕ × List ℕ)
  walk_parents curr part [] = pure (curr, part)
  walk_parents curr part (next ∷ parts) =
      attempt (lookup curr part) (λ child. walk_parents child next parts)
        (do dir ← mkdir curr part; walk_parents dir.id next parts)

  unfoldable pub ensure_parent_dirs : List ℕ → Vfs (ℕ × List ℕ)
  ensure_parent_dirs path = elim (nonempty_parts (split b'/' (trim_matches b'/' path))) [
    | [] ↦ raise empty_path
    | part ∷ parts ↦ walk_parents root_inode part parts
  ]
