-- ===== src/Vfs/State.antt =====
-- src/vfs/inode.rs: the inode manager's state, and the parts of its methods that do not ask the Git
-- engine. A hash map is a function from keys to options. A node is shared by reference in the source,
-- so its fields change at one place, the table of nodes. Methods run one at a time: calls that
-- interleave between two locks are not modelled.
pub mod Laws
pub mod Keeps
pub mod Resize
pub mod Listed
use mathlib.Core.Option
use git_nfs.Prelude.{ℕ, zero, suc, ◌+◌, ◌%◌, Bool, true, false, ◌&&◌, Option, none, some}
use git_nfs.Prelude.{List, [], ◌∷◌, ◌++◌, ◌==◌, if◌then◌else◌, str_eq, Result, ok, err}
use git_nfs.Prelude.Exec.{Exec}
use git_nfs.Bytes.{u64_mod}
use git_nfs.Text.{ascii, join}
use git_nfs.Git.Tree.{TreeEntryMode, GitTree}

abbrev pub root_inode : ℕ
root_inode = 1

pub record VfsNode : Type 0 where
  pub id : ℕ
  pub parent_id : ℕ
  pub name : List ℕ
  pub oid : List ℕ
  pub mode : TreeEntryMode
  pub is_dir : Bool
  pub size : ℕ
  pub is_deleted : Bool

pub record VfsManager : Type 0 where
  pub nodes : ℕ → Option VfsNode
  pub child_map : ℕ → List ℕ → Option ℕ
  pub dir_children : ℕ → Option (List ℕ)
  pub next_inode : ℕ

-- What the manager asks of the Git engine: a parsed tree, and the size of a blob in the memory
-- cache or in the disk cache.
pub record Engine : Type 0 where
  pub get_tree : List ℕ → Option GitTree
  pub memory_size : List ℕ → Option ℕ
  pub disk_size : List ℕ → Option ℕ

-- `stuck` is no error of the source: the loop of `get_path` ran out of fuel.
pub data VfsError : Type 0 where
  dir_not_found not_a_directory child_not_found node_not_found empty_path stuck : VfsError

abbrev pub Vfs {ℓ} : Type ℓ → Type ℓ
Vfs A = Exec VfsManager VfsError A

abbrev pub set_node : ℕ → VfsNode → VfsManager → VfsManager
set_node id node v = record v { nodes = λ j. if id == j then some node else v.nodes j }

abbrev pub set_child : ℕ → List ℕ → Option ℕ → VfsManager → VfsManager
set_child dir name entry v = record v {
  child_map = λ d n. if dir == d && str_eq name n then entry else v.child_map d n;
}

abbrev pub set_children : ℕ → List ℕ → VfsManager → VfsManager
set_children dir ids v = record v {
  dir_children = λ d. if dir == d then some ids else v.dir_children d;
}

-- `entry(dir).or_default().push(id)`
abbrev pub push_child : ℕ → ℕ → VfsManager → VfsManager
push_child dir id v = set_children dir (Option.get_or (v.dir_children dir) [] ++ id ∷ []) v

unfoldable pub without : ℕ → List ℕ → List ℕ
without id [] = []
without id (x ∷ xs) = let rest = without id xs in if x == id then rest else x ∷ rest

-- `if let Some(children) = get_mut(&dir) { children.retain(|&child| child != id) }`
abbrev pub drop_child : ℕ → ℕ → VfsManager → VfsManager
drop_child dir id v = elim (v.dir_children dir) [
  | none ↦ v
  | some ids ↦ set_children dir (without id ids) v
]

-- `fetch_add(1)` leaves this value.
abbrev pub bump : ℕ → ℕ
bump n = (n + 1) % u64_mod

abbrev pub root_node : List ℕ → VfsNode
root_node root_oid = record {
  id = root_inode;
  parent_id = root_inode;
  name = ascii "/";
  oid = root_oid;
  mode = TreeEntryMode.directory;
  is_dir = true;
  size = 4096;
  is_deleted = false;
}

unfoldable pub new : List ℕ → VfsManager
new root_oid = record {
  nodes = λ j. if root_inode == j then some (root_node root_oid) else none;
  child_map = λ d n. none;
  dir_children = λ d. none;
  next_inode = 2;
}

-- The node, unless it is deleted.
unfoldable pub live : Option VfsNode → Option VfsNode
live none = none
live (some node) = if node.is_deleted then none else some node

unfoldable pub get_node : VfsManager → ℕ → Option VfsNode
get_node v id = live (v.nodes id)

-- What the loop over the entries of a tree collects.
pub record Scan : Type 0 where
  pub child_ids : List ℕ
  pub new_nodes : List (ℕ × VfsNode)
  pub new_child_mappings : List ((ℕ × List ℕ) × ℕ)
  pub next : ℕ

unfoldable pub add_nodes : List (ℕ × VfsNode) → VfsManager → VfsManager
add_nodes [] v = v
add_nodes ((id, node) ∷ rest) v = add_nodes rest (set_node id node v)

unfoldable pub add_mappings : List ((ℕ × List ℕ) × ℕ) → VfsManager → VfsManager
add_mappings [] v = v
add_mappings ((key, id) ∷ rest) v = add_mappings rest (set_child key.0 key.1 (some id) v)

-- The child's id, if it is mapped and its node is not deleted.
unfoldable pub find_child : VfsManager → ℕ → List ℕ → Option ℕ
find_child v dir_id name = elim (v.child_map dir_id name) [
  | none ↦ none
  | some id ↦ Option.map (λ _. id) (get_node v id)
]

unfoldable pub live_nodes : VfsManager → List ℕ → List VfsNode
live_nodes v [] = []
live_nodes v (id ∷ ids) =
    let rest = live_nodes v ids in elim (get_node v id) [ some node ↦ node ∷ rest | none ↦ rest ]

-- A node that does not exist yet, under the directory.
abbrev pub fresh_node : ℕ → ℕ → List ℕ → TreeEntryMode → Bool → ℕ → VfsNode
fresh_node id dir_id name mode dir size = record {
  id = id;
  parent_id = dir_id;
  name = name;
  oid = [];
  mode = mode;
  is_dir = dir;
  size = size;
  is_deleted = false;
}

unfoldable pub attach : ℕ → List ℕ → VfsNode → VfsManager → VfsManager
attach dir_id name node v = push_child dir_id node.id (
    set_child dir_id name (some node.id)
      (set_node node.id node (record v { next_inode = bump v.next_inode })))

unfoldable pub create_new : ℕ → List ℕ → TreeEntryMode → Vfs VfsNode
create_new dir_id name mode v =
    let node = fresh_node v.next_inode dir_id name mode false 0 in
    (ok node, attach dir_id name node v)

-- The id and the node under a name, deleted or not.
unfoldable pub child_entry : ℕ → List ℕ → VfsManager → Result VfsError (ℕ × VfsNode)
child_entry dir_id name v = elim (v.child_map dir_id name) [
  | none ↦ err child_not_found
  | some id ↦ elim (v.nodes id) [ none ↦ err node_not_found | some node ↦ ok (id, node) ]
]

unfoldable pub detach : ℕ → List ℕ → ℕ → VfsNode → VfsManager → VfsManager
detach dir_id name id node v =
    set_child dir_id name none
      (drop_child dir_id id (set_node id (record node { is_deleted = true }) v))

-- `*node.parent_id.write() = to_dir; *node.name.write() = to_name;`
unfoldable pub relabel : ℕ → ℕ → List ℕ → VfsManager → VfsManager
relabel id to_dir_id to_name v = elim (v.nodes id) [
  | none ↦ v
  | some node ↦ set_node id (record node { parent_id = to_dir_id; name = to_name }) v
]

unfoldable pub move_child : ℕ → ℕ → List ℕ → ℕ → List ℕ → VfsManager → VfsManager
move_child id from_dir_id from_name to_dir_id to_name v = push_child to_dir_id id (
    drop_child from_dir_id id (
      set_child to_dir_id to_name (some id)
        (set_child from_dir_id from_name none (relabel id to_dir_id to_name v))))

unfoldable pub update_file_size : ℕ → ℕ → VfsManager → VfsManager
update_file_size id real_size v = elim (v.nodes id) [
  | none ↦ v
  | some node ↦ set_node id (record node { size = real_size }) v
]

-- The loop of `get_path`. A name is put in front of those found before, which is what `push` and
-- the final `reverse` give.
unfoldable pub path_loop : ℕ → VfsManager → ℕ → List (List ℕ) → Result VfsError (List (List ℕ))
path_loop zero v curr components = if curr == root_inode then ok components else err stuck
path_loop (suc fuel) v curr components = elim (curr == root_inode) [
  | true ↦ ok components
  | false ↦ elim (v.nodes curr) [
    | none ↦ err node_not_found
    | some node ↦ elim (node.parent_id == curr) [
      | true ↦ ok (node.name ∷ components)
      | false ↦ path_loop fuel v node.parent_id (node.name ∷ components)
    ]
  ]
]

unfoldable pub get_path : ℕ → VfsManager → ℕ → Result VfsError (List ℕ)
get_path fuel v node_id = elim (path_loop fuel v node_id []) [
  | ok components ↦ ok (join b'/' components)
  | err e ↦ err e
]

abbrev pub is_skipped : List ℕ → Bool
is_skipped [] = true
is_skipped (c ∷ cs) = str_eq (c ∷ cs) (ascii ".")

-- `filter(|p| !p.is_empty())`
unfoldable pub nonempty_parts : List (List ℕ) → List (List ℕ)
nonempty_parts [] = []
nonempty_parts ([] ∷ parts) = nonempty_parts parts
nonempty_parts ((c ∷ cs) ∷ parts) = (c ∷ cs) ∷ nonempty_parts parts
