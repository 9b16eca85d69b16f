-- ===== src/Vfs/State/Resize.antt =====
-- src/vfs/inode.rs: a new size of a node changes no path.
use git_nfs.Prelude.{
  ℕ, zero, suc, ◌≡◌, refl, Bool-cases, Option-cases, some, inl, inr, List, [], ◌∷◌, ◌==◌, arith,
}
use git_nfs.Vfs.State.{
  root_inode, VfsNode, VfsManager, set_node, update_file_size, path_loop, get_path,
}

module _ (v : VfsManager) (id size : ℕ) (node : VfsNode) (has : v.nodes id ≡ some node) where
  abbrev resized : VfsManager
  resized = set_node id (record node { size = size }) v

  path_loop-resized :
      (fuel curr : ℕ) (components : List (List ℕ))
      → path_loop fuel resized curr components ≡ path_loop fuel v curr components
  unfolding path_loop
  path_loop-resized zero curr components = refl
  path_loop-resized (suc fuel) curr components = elim (Bool-cases (curr == root_inode)) [
    | inl e ↦ rw (path_loop, e) refl
    | inr e ↦ elim (Bool-cases (id == curr)) [
      | inl f ↦
          let here : v.nodes curr ≡ some node = ground arith in
          elim (Bool-cases (node.parent_id == curr)) [
            | inl g ↦ rw (path_loop, e, f, here, g) refl
            | inr g ↦
                rw (path_loop, e, f, here, g)
                  (path_loop-resized fuel node.parent_id (node.name ∷ components))
          ]
      | inr f ↦ elim (Option-cases (v.nodes curr)) [
        | inl missing ↦ rw (path_loop, e, f, missing) refl
        | inr (other, there) ↦ elim (Bool-cases (other.parent_id == curr)) [
          | inl g ↦ rw (path_loop, e, f, there, g) refl
          | inr g ↦
              rw (path_loop, e, f, there, g)
                (path_loop-resized fuel other.parent_id (other.name ∷ components))
        ]
      ]
    ]
  ]

-- The path of a node stays the same.
pub get_path-update_file_size :
    (v : VfsManager) (id size at : ℕ)
    → get_path (update_file_size id size v).next_inode (update_file_size id size v) at
      ≡ get_path v.next_inode v at
unfolding update_file_size get_path
get_path-update_file_size v id size at = elim (Option-cases (v.nodes id)) [
  | inl missing ↦ rw (update_file_size, missing) refl
  | inr (node, has) ↦
      rw (update_file_size, has, get_path, path_loop-resized v id size node has v.next_inode at [])
        refl
]
