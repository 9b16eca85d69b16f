-- ===== src/Vfs/State/Laws.antt =====
-- The invariant of the inode tables, and what the table updates keep of it.
use git_nfs.Prelude.{ℕ, ◌+◌, ◌<◌, ◌≡◌, true, none, some, List}
use git_nfs.Prelude.{◌==◌, str_eq, str_eq_iff, arith, Bool-cases, inl, inr, ◌&&◌}
use git_nfs.Bytes.{u64_mod}
use git_nfs.Vfs.State.{VfsNode, VfsManager, set_node, set_child, bump}

-- Every node stands under its own id, below the next one; every mapped child has a node that names
-- the same parent and the same name.
pub record IsValid (v : VfsManager) : Type 0 where
  pub below :
      (id : ℕ) (node : VfsNode) → v.nodes id ≡ some node → (id < v.next_inode) × (node.id ≡ id)
  pub mapped :
      (dir : ℕ) (name : List ℕ) (id : ℕ)
      → v.child_map dir name ≡ some id
      → (node : VfsNode) × (v.nodes id ≡ some node) × (node.parent_id ≡ dir) × (node.name ≡ name)

pub same_key : (a b : ℕ) (s t : List ℕ) → (a == b && str_eq s t) ≡ true → (a ≡ b) × (s ≡ t)
same_key a b s t h = ground (arith, str_eq_iff s t)

-- Two mappings of one node are one mapping.
pub mapped_once :
    (v : VfsManager) (d e : ℕ) (s t : List ℕ) (id : ℕ)
    → IsValid v
    → v.child_map d s ≡ some id
    → v.child_map e t ≡ some id
    → (d ≡ e) × (s ≡ t)
mapped_once v d e s t id valid h k =
    let (x, has, p, q) = valid.mapped d s id h in
    let (y, has', p', q') = valid.mapped e t id k in let same : x ≡ y = ground arith in (cc, cc)

module _ (v : VfsManager) (valid : IsValid v) where
  -- A new node under the next id, mapped under its parent and its name.
  pub add-IsValid :
      (node : VfsNode)
      → node.id ≡ v.next_inode
      → v.next_inode + 1 < u64_mod
      → IsValid (
          set_child node.parent_id node.name
            (some node.id)
            (set_node node.id node (record v { next_inode = bump v.next_inode })))
  add-IsValid node same room = record {
    below = λ id n h. ground (arith, valid.below id n);
    mapped = λ dir name id h. elim (Bool-cases (node.parent_id == dir && str_eq node.name name)) [
      | inl e ↦
          let k = same_key node.parent_id dir node.name name e in (node, ground arith, k.0, k.1)
      | inr e ↦
          let (x, has, p, q) = valid.mapped dir name id (ground arith) in
          let lt = valid.below id x has in (x, ground arith, p, q)
    ];
  }

  -- A node whose place in the tree stays the same.
  pub update-IsValid :
      (id : ℕ) (node node' : VfsNode)
      → v.nodes id ≡ some node
      → node'.id ≡ node.id
      → node'.parent_id ≡ node.parent_id
      → node'.name ≡ node.name
      → IsValid (set_node id node' v)
  update-IsValid id node node' has same_id same_parent same_name = record {
    below = λ j n h. ground (arith, valid.below j n, valid.below id node has);
    mapped = λ dir name j h. elim (Bool-cases (id == j)) [
      | inl e ↦
          let (x, old, p, q) = valid.mapped dir name j h in
          (node', ground arith, ground arith, ground arith)
      | inr e ↦ let (x, old, p, q) = valid.mapped dir name j h in (x, ground arith, p, q)
    ];
  }

  pub clear-IsValid : (dir : ℕ) (name : List ℕ) → IsValid (set_child dir name none v)
  clear-IsValid dir name = record {
    below = valid.below;
    mapped = λ d n id h. valid.mapped d n id (ground arith);
  }

  -- A node that moves: its one mapping goes, and the new place has none.
  pub move-IsValid :
      (id : ℕ) (node : VfsNode) (from_dir : ℕ) (from_name : List ℕ) (to_dir : ℕ) (to_name : List ℕ)
      → v.nodes id ≡ some node
      → ((d : ℕ) (n : List ℕ) → v.child_map d n ≡ some id → (d ≡ from_dir) × (n ≡ from_name))
      → IsValid (
          set_child to_dir to_name (some id) (
            set_child from_dir from_name none
              (set_node id (record node { parent_id = to_dir; name = to_name }) v)))
  move-IsValid id node from_dir from_name to_dir to_name has only = record {
    below = λ j n h. ground (arith, valid.below j n, valid.below id node has);
    mapped = λ dir name j h. elim (Bool-cases (to_dir == dir && str_eq to_name name)) [
      | inl e ↦
          let k = same_key to_dir dir to_name name e in
          (record node { parent_id = to_dir; name = to_name }, ground arith, k.0, k.1)
      | inr e ↦ elim (Bool-cases (from_dir == dir && str_eq from_name name)) [
        | inl f ↦ absurd (ground arith)
        | inr f ↦
            let old : v.child_map dir name ≡ some j = ground arith in
            let (x, has_x, p, q) = valid.mapped dir name j old in
            elim (Bool-cases (id == j)) [
              | inl g ↦
                  let k = only dir name (ground arith) in
                  absurd (ground (arith, str_eq_iff from_name name))
              | inr g ↦ (x, ground arith, p, q)
            ]
      ]
    ];
  }
