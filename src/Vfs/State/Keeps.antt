-- ===== src/Vfs/State/Keeps.antt =====
-- What detaching, attaching and moving a child keep of the inode tables.
use git_nfs.Prelude.{ℕ, ◌+◌, ◌<◌, ◌≡◌, refl, true}
use git_nfs.Prelude.{none, some, List, ◌==◌, arith}
use git_nfs.Prelude.{Bool-cases, Option-cases, inl, inr, ok}
use git_nfs.Bytes.{u64_mod}
use git_nfs.Vfs.State.{VfsNode, VfsManager, set_node, set_child, drop_child}
use git_nfs.Vfs.State.{attach, child_entry, detach, relabel, move_child}
use git_nfs.Vfs.State.Laws.{IsValid, add-IsValid, update-IsValid, clear-IsValid, move-IsValid}

-- The lists of children have no part in the invariant.
pub drop_child-IsValid : (dir id : ℕ) (v : VfsManager) → IsValid v → IsValid (drop_child dir id v)
drop_child-IsValid dir id v valid = elim (Option-cases (v.dir_children dir)) [
  | inl e ↦ rw (e, drop_child) valid
  | inr (ids, e) ↦ rw (e, drop_child) (record { below = valid.below; mapped = valid.mapped })
]

pub attach-IsValid :
    (v : VfsManager) (node : VfsNode)
    → IsValid v
    → node.id ≡ v.next_inode
    → v.next_inode + 1 < u64_mod
    → IsValid (attach node.parent_id node.name node v)
unfolding attach
attach-IsValid v node valid same room =
    let a = add-IsValid v valid node same room in record { below = a.below; mapped = a.mapped }

pub detach-IsValid :
    (v : VfsManager) (dir : ℕ) (name : List ℕ) (id : ℕ) (node : VfsNode)
    → IsValid v
    → v.nodes id ≡ some node
    → IsValid (detach dir name id node v)
unfolding detach
detach-IsValid v dir name id node valid has =
    let u = update-IsValid v valid id node (record node { is_deleted = true }) has refl refl refl in
    clear-IsValid _ (drop_child-IsValid dir id _ u) dir name

pub child_entry-inv :
    (dir : ℕ) (name : List ℕ) (v : VfsManager) (id : ℕ) (node : VfsNode)
    → child_entry dir name v ≡ ok (id, node)
    → (v.child_map dir name ≡ some id) × (v.nodes id ≡ some node)
unfolding child_entry
child_entry-inv dir name v id node h = ground arith

pub drop_child-next :
    (dir id : ℕ) (v : VfsManager) → (drop_child dir id v).next_inode ≡ v.next_inode
drop_child-next dir id v = elim (Option-cases (v.dir_children dir)) [
  | inl e ↦ rw (e, drop_child) refl
  | inr (ids, e) ↦ rw (e, drop_child) refl
]

pub detach-next :
    (dir : ℕ) (name : List ℕ) (id : ℕ) (node : VfsNode) (v : VfsManager)
    → (detach dir name id node v).next_inode ≡ v.next_inode
unfolding detach
detach-next dir name id node v =
    drop_child-next dir id (set_node id (record node { is_deleted = true }) v)

-- Detaching takes mappings away, and keeps every node.
pub detach-keeps :
    (dir : ℕ) (name : List ℕ) (id : ℕ) (node : VfsNode) (v : VfsManager)
    → ((d : ℕ) (n : List ℕ) (j : ℕ)
        → (detach dir name id node v).child_map d n ≡ some j
        → v.child_map d n ≡ some j)
      × ((j : ℕ) (x : VfsNode)
          → v.nodes j ≡ some x
          → (y : VfsNode) × ((detach dir name id node v).nodes j ≡ some y))
unfolding detach
detach-keeps dir name id node v =
    let z = set_node id (record node { is_deleted = true }) v in
    elim (Option-cases (z.dir_children dir)) [
      | inl e ↦
          rw (e, drop_child)
            (
              λ d n j h. ground arith,
              λ j x h. elim (Bool-cases (id == j)) [
                | inl f ↦ (record node { is_deleted = true }, ground arith)
                | inr f ↦ (x, ground arith)
              ],
            )
      | inr (ids, e) ↦
          rw (e, drop_child)
            (
              λ d n j h. ground arith,
              λ j x h. elim (Bool-cases (id == j)) [
                | inl f ↦ (record node { is_deleted = true }, ground arith)
                | inr f ↦ (x, ground arith)
              ],
            )
    ]

pub move_child-IsValid :
    (v : VfsManager) (id : ℕ) (node : VfsNode) (from_dir : ℕ) (from_name : List ℕ) (to_dir : ℕ)
    (to_name : List ℕ)
    → IsValid v
    → v.nodes id ≡ some node
    → ((d : ℕ) (n : List ℕ) → v.child_map d n ≡ some id → (d ≡ from_dir) × (n ≡ from_name))
    → IsValid (move_child id from_dir from_name to_dir to_name v)
      × ((move_child id from_dir from_name to_dir to_name v).next_inode ≡ v.next_inode)
unfolding move_child relabel
move_child-IsValid v id node from_dir from_name to_dir to_name valid has only =
    let w = set_child to_dir to_name (some id) (
      set_child from_dir from_name none
        (set_node id (record node { parent_id = to_dir; name = to_name }) v)) in
    let d =
      drop_child-IsValid from_dir id w
        (move-IsValid v valid id node from_dir from_name to_dir to_name has only) in
    rw (has, relabel) (record { below = d.below; mapped = d.mapped }, drop_child-next from_dir id w)
