-- ===== src/Git/Builder.antt =====
-- src/git/builder.rs: new objects for a commit. The hash and `hex` are parameters.
pub mod Compare
pub mod Order
pub mod Commit
pub mod Addressed
pub mod Written
mod Tests
use git_nfs.Prelude.{
  ℕ, zero, suc, Bool, true, false, not, ◌&&◌, ◌||◌, none, some, List, [], ◌∷◌, ◌++◌,
}
use git_nfs.Prelude.{◌==◌, ltb, if◌then◌else◌, str_eq, Result, ok, err}
use git_nfs.Prelude.Exec.{Exec, pure, raise, ◌>>=◌, ◌>>◌}
use git_nfs.Prelude.Assoc.{contains, add}
use git_nfs.Text.{ascii}
use git_nfs.Text.Radix.{digits_of}
use git_nfs.Git.Tree.{
  Hex, TreeEntryMode, regular_file, executable_file, directory, symlink, submodule, other,
}
use git_nfs.Git.Objects.{ObjectType, tree, blob, compute_git_sha1}
use git_nfs.Staging.{
  StagingStore, is_deleted, get_staged_content, list_staged_nodes, list_deleted_nodes,
}
use git_nfs.Vfs.Filter.{is_apple_metadata}
use git_nfs.Vfs.State.{root_inode, VfsNode, VfsManager, Engine, get_node, set_node}
use git_nfs.Vfs.Inode.{list_dir}

pub record GitObjectToPack : Type 0 where
  pub oid : List ℕ
  pub obj_type : ObjectType
  pub content : List ℕ

pub data Ordering : Type 0 where
  less equal greater : Ordering

-- The order of byte strings.
unfoldable pub compare : List ℕ → List ℕ → Ordering
compare [] [] = equal
compare [] (b ∷ t) = less
compare (a ∷ s) [] = greater
compare (a ∷ s) (b ∷ t) =
    let rest = compare s t in if ltb a b then less else if ltb b a then greater else rest

abbrev pub sort_key : List ℕ → Bool → List ℕ
sort_key name dir = if dir then name ++ ascii "/" else name

unfoldable pub compare_tree_entries : List ℕ → Bool → List ℕ → Bool → Ordering
compare_tree_entries name_a is_dir_a name_b is_dir_b =
    compare (sort_key name_a is_dir_a) (sort_key name_b is_dir_b)

unfoldable pub mode_str : TreeEntryMode → List ℕ
mode_str regular_file = ascii "100644"
mode_str executable_file = ascii "100755"
mode_str directory = ascii "40000"
mode_str symlink = ascii "120000"
mode_str submodule = ascii "160000"
mode_str (other m) = digits_of 10 8 m

-- One entry of a raw tree, for an object whose name decodes to `sha`.
unfoldable pub raw_entry : TreeEntryMode → List ℕ → List ℕ → List ℕ
raw_entry mode name sha = mode_str mode ++ (b' ' ∷ name ++ (0 ∷ sha))

-- `sort_by` keeps the order of equal elements.
unfoldable pub insert_child : VfsNode → List VfsNode → List VfsNode
insert_child a [] = a ∷ []
insert_child a (b ∷ children) =
    let rest = insert_child a children in
    elim (compare_tree_entries a.name a.is_dir b.name b.is_dir) [
      | greater ↦ b ∷ rest
      | less ↦ a ∷ b ∷ children
      | equal ↦ a ∷ b ∷ children
    ]

unfoldable pub sort_children : List VfsNode → List VfsNode
sort_children [] = []
sort_children (a ∷ children) = insert_child a (sort_children children)

unfoldable pub valid_children : StagingStore → List VfsNode → List VfsNode
valid_children staging [] = []
valid_children staging (c ∷ children) =
    let rest = valid_children staging children in
    if not (is_apple_metadata c.name) && not (is_deleted staging c.id) then c ∷ rest else rest

-- The directories above a node, and the node itself if it is one. The fuel is the number of inodes: it
-- runs out only on a cycle of parents, where the source does not end.
unfoldable pub mark_dirty : ℕ → VfsManager → ℕ → List ℕ → List ℕ
mark_dirty zero vfs curr dirty = dirty
mark_dirty (suc fuel) vfs curr dirty = elim (get_node vfs curr) [
  | none ↦ dirty
  | some node ↦
      let own = if node.is_dir then add node.id dirty else dirty in
      let marked = add node.parent_id own in
      elim (node.parent_id == root_inode || node.parent_id == curr) [
        | true ↦ marked
        | false ↦ mark_dirty fuel vfs node.parent_id marked
      ]
]

unfoldable pub mark_all : VfsManager → List ℕ → List ℕ → List ℕ
mark_all vfs [] dirty = dirty
mark_all vfs (id ∷ ids) dirty = mark_all vfs ids (mark_dirty vfs.next_inode vfs id dirty)

unfoldable pub dirty_dirs : VfsManager → StagingStore → List ℕ
dirty_dirs vfs staging =
    mark_all vfs (list_staged_nodes staging ++ list_deleted_nodes staging) (root_inode ∷ [])

-- `new_objects.insert(oid, object)`
unfoldable pub insert_object : GitObjectToPack → List GitObjectToPack → List GitObjectToPack
insert_object o [] = o ∷ []
insert_object o (p ∷ objects) =
    let rest = insert_object o objects in if str_eq p.oid o.oid then o ∷ objects else p ∷ rest

pub record Build : Type 0 where
  pub vfs : VfsManager
  pub new_objects : List GitObjectToPack

-- `stuck` is no error of the source: the recursion over directories ran out of fuel.
pub data BuildError : Type 0 where
  list_failed invalid_hex staged_file_missing stuck : BuildError

abbrev pub Builder {ℓ} : Type ℓ → Type ℓ
Builder A = Exec Build BuildError A

module _ (hex : Hex) (sha1 : List ℕ → List ℕ) (engine : Engine) (staging : StagingStore) where
  abbrev pub insert_new : ObjectType → List ℕ → List ℕ → Build → Build
  insert_new obj_type oid content b = record b {
    new_objects =
        insert_object (record { oid = oid; obj_type = obj_type; content = content }) b.new_objects;
  }

  -- The staged files become blobs, and their nodes name them.
  unfoldable pub build_blobs : List ℕ → Builder (Unit {0})
  build_blobs [] b = (ok tt, b)
  build_blobs (id ∷ ids) b = elim (get_node b.vfs id) [
    | none ↦ build_blobs ids b
    | some node ↦ elim (is_apple_metadata node.name) [
      | true ↦ build_blobs ids b
      | false ↦ elim (get_staged_content staging id) [
        | err _ ↦ (err staged_file_missing, b)
        | ok none ↦ build_blobs ids b
        | ok (some content) ↦
            let sha = compute_git_sha1 hex sha1 blob content in
            build_blobs ids (
              insert_new blob sha content
                (record b { vfs = set_node id (record node { oid = sha }) b.vfs }))
      ]
    ]
  ]

  abbrev pub list_children : ℕ → Builder (List VfsNode)
  list_children dir_id b =
      let (r, vfs) = list_dir engine dir_id b.vfs in
      (elim r [ ok children ↦ ok children | err _ ↦ err list_failed ], record b { vfs = vfs })

  -- The tree is new unless the engine has it.
  unfoldable pub finish_tree : List ℕ → Builder (List ℕ)
  finish_tree raw_tree b =
      let tree_sha = compute_git_sha1 hex sha1 tree raw_tree in
      elim (engine.get_tree tree_sha) [
        | none ↦ (ok tree_sha, insert_new tree tree_sha raw_tree b)
        | some _ ↦ (ok tree_sha, b)
      ]

  unfoldable pub entry_bytes : VfsNode → List ℕ → Result BuildError (List ℕ)
  entry_bytes child [] = ok []
  entry_bytes child (c ∷ cs) = elim (hex.decode (c ∷ cs)) [
    | none ↦ err invalid_hex
    | some sha ↦ ok (raw_entry child.mode child.name sha)
  ]

  -- The loop over the children: `rebuild` makes the tree of a changed subdirectory, and `raw_tree` is
  -- what was written before.
  unfoldable pub raw_children :
      (ℕ → Builder (List ℕ)) → List ℕ → List VfsNode → List ℕ → Builder (List ℕ)
  raw_children rebuild dirty [] raw_tree = pure raw_tree
  raw_children rebuild dirty (child ∷ children) raw_tree = do
    child_oid ← elim (child.is_dir && contains child.id dirty) [
      | true ↦ rebuild child.id
      | false ↦ pure child.oid
    ]
    bytes ← λ b. (entry_bytes child child_oid, b)
    raw_children rebuild dirty children (raw_tree ++ bytes)

  unfoldable pub rebuild_tree_recursive : ℕ → List ℕ → ℕ → Builder (List ℕ)
  rebuild_tree_recursive zero dirty dir_id = raise stuck
  rebuild_tree_recursive (suc fuel) dirty dir_id = do
    children ← list_children dir_id
    raw_tree ←
        raw_children (λ id. rebuild_tree_recursive fuel dirty id) dirty
          (sort_children (valid_children staging children)) []
    finish_tree raw_tree

  -- The first three steps of `rebuild_git_objects`: the blobs, the directories to rebuild and the root
  -- tree.
  unfoldable pub rebuild_trees : ℕ → Builder (List ℕ)
  rebuild_trees fuel = do
    build_blobs (list_staged_nodes staging)
    λ b. rebuild_tree_recursive fuel (dirty_dirs b.vfs staging) root_inode b
