-- ===== src/Vfs/Inode/Steps.antt =====
-- What a call of each method may do to valid inode tables.
use git_nfs.Prelude.{ℕ, ◌+◌, ◌≤◌, ◌<◌, ◌≡◌, refl, true, false}
use git_nfs.Prelude.{some, List, length, str_eq, arith}
use git_nfs.Prelude.{Bool-cases, Option-cases, inl, inr, ◌⊎◌}
use git_nfs.Prelude.Exec.{◌>>◌}
use git_nfs.Bytes.{u64_mod}
use git_nfs.Git.Tree.{TreeEntryMode}
use git_nfs.Vfs.State
use git_nfs.Vfs.State.{
  VfsNode, VfsManager, Engine, set_node, set_child, set_children, push_child, drop_child,
}
use git_nfs.Vfs.State.{
  fresh_node, attach, create_new, child_entry, detach, relabel, move_child, VfsError, Vfs,
}
use git_nfs.Vfs.State.{update_file_size, new, root_node, root_inode, without, find_child}
use git_nfs.Text.{ascii}
use git_nfs.Vfs.State.Laws.{IsValid, update-IsValid, mapped_once}
use git_nfs.Vfs.Inode
use git_nfs.Vfs.Inode.{tree_entries, ensure_dir_populated}
use git_nfs.Vfs.Inode.Population.{HasRoom, Ensured, ensure_cases, ensure_listed}
use git_nfs.Prelude.{Result-cases}
use git_nfs.Vfs.State.Keeps.{
  attach-IsValid, detach-IsValid, child_entry-inv, detach-next, detach-keeps, move_child-IsValid,
}

module _ (engine : Engine) where
  -- `remove` of a directory that is populated: an entry goes, or nothing changes.
  pub remove_listed :
      (dir : ℕ) (name : List ℕ) (v : VfsManager) (ids : List ℕ)
      → v.dir_children dir ≡ some ids
      → ((id : ℕ) × (node : VfsNode) × (v.child_map dir name ≡ some id)
          × (v.nodes id ≡ some node)
          × ((Inode.remove engine dir name v).1 ≡ detach dir name id node v))
        ⊎ ((Inode.remove engine dir name v).1 ≡ v)
  unfolding Inode.remove
  remove_listed dir name v ids listed = elim (Result-cases (child_entry dir name v)) [
    | inl ((id, node), e) ↦
        let k = child_entry-inv dir name v id node e in
        inl (id, node, k.0, k.1, rw (ensure_listed engine dir ids v listed, e) refl)
    | inr (x, e) ↦ inr (rw (ensure_listed engine dir ids v listed, e) refl)
  ]

module _ (engine : Engine) (width : ℕ)
    (narrow : (oid : List ℕ) → length (tree_entries engine oid) ≤ width) where
  -- What a call may do to a valid state: it stays valid and takes `cost` inode numbers at most.
  pub record Steps (cost : ℕ) (v w : VfsManager) : Type 0 where
    pub valid : IsValid w
    pub next_le : w.next_inode ≤ v.next_inode + cost

  pub has_room :
      (v : VfsManager) (dir more : ℕ)
      → v.next_inode + width + more < u64_mod
      → HasRoom engine v dir more
  has_room v dir more h = λ node e. omega (arith, narrow node.oid)

  pub Ensured-Steps :
      (dir more : ℕ) (v w : VfsManager) → Ensured engine dir more v w → Steps width v w
  Ensured-Steps dir more v w e = record {
    valid = e.grows.valid;
    next_le = omega (arith, e.grows.next_room, e.room_le width narrow);
  }

  Steps-refl : (cost : ℕ) (v : VfsManager) → IsValid v → Steps cost v v
  Steps-refl cost v valid = record { valid = valid; next_le = omega arith }

  pub Steps-le : (a b : ℕ) (v w : VfsManager) → a ≤ b → Steps a v w → Steps b v w
  Steps-le a b v w le s = record { valid = s.valid; next_le = omega (arith, s.next_le) }

  pub Steps-trans :
      (a b c : ℕ) (v w x : VfsManager) → a + b ≤ c → Steps a v w → Steps b w x → Steps c v x
  Steps-trans a b c v w x le s t = record {
    valid = t.valid;
    next_le = omega (arith, s.next_le, t.next_le);
  }

  -- A method that populates a directory first, and then does `f`.
  populated-Steps {ℓ} :
      {A : Type ℓ} (dir cost : ℕ) (f : Vfs A) (v : VfsManager)
      → IsValid v
      → v.next_inode + width + cost < u64_mod
      → ((w : VfsManager) → IsValid w → w.next_inode + cost < u64_mod → Steps cost w (f w).1)
      → Steps (width + cost) v ((ensure_dir_populated engine dir >> f) v).1
  populated-Steps dir cost f v valid room next =
      elim (ensure_cases engine v dir cost valid (omega arith) (has_room v dir cost room)) [
        | inl (w, e) ↦
            let s = Ensured-Steps dir cost v w e in
            rw e.result (
              Steps-trans width cost (width + cost) v w (f w).1 (omega arith) s
                (next w s.valid (omega (arith, s.next_le))))
        | inr (x, e) ↦ rw e (Steps-refl (width + cost) v valid)
      ]

  pub create_file-Steps :
      (dir : ℕ) (name : List ℕ) (mode : TreeEntryMode) (v : VfsManager)
      → IsValid v
      → v.next_inode + width + 1 < u64_mod
      → Steps (width + 1) v (Inode.create_file engine dir name mode v).1
  unfolding Inode.create_file create_new
  create_file-Steps dir name mode v valid room =
      populated-Steps dir 1 _ v valid room λ w valid' room'.
        elim (Option-cases (w.child_map dir name)) [
          | inl e ↦ rw e (created w valid' room')
          | inr (id, e) ↦ elim (Option-cases (w.nodes id)) [
            | inl f ↦ rw (e, f) (created w valid' room')
            | inr (node, f) ↦
                rw (e, f)
                  (record {
                    valid =
                        update-IsValid w valid' id node
                          (record node { is_deleted = false; size = 0 }) f refl refl refl;
                    next_le = omega arith;
                  })
          ]
        ]
    where
      created :
          (w : VfsManager)
          → IsValid w
          → w.next_inode + 1 < u64_mod
          → Steps 1 w (attach dir name (State.fresh_node w.next_inode dir name mode false 0) w)
      created w valid' room' = record {
        valid =
            attach-IsValid w (State.fresh_node w.next_inode dir name mode false 0) valid' refl
              room';
        next_le = unfold attach in ground arith;
      }

  pub mkdir-Steps :
      (dir : ℕ) (name : List ℕ) (v : VfsManager)
      → IsValid v
      → v.next_inode + width + 1 < u64_mod
      → Steps (width + 1) v (Inode.mkdir engine dir name v).1
  unfolding Inode.mkdir
  mkdir-Steps dir name v valid room = populated-Steps dir 1 _ v valid room λ w valid' room'.
      let node = State.fresh_node w.next_inode dir name TreeEntryMode.directory true 4096 in
      let a = attach-IsValid w node valid' refl room' in
      record {
        valid = record { below = a.below; mapped = a.mapped };
        next_le = unfold attach in ground arith;
      }

  pub remove-Steps :
      (dir : ℕ) (name : List ℕ) (v : VfsManager)
      → IsValid v
      → v.next_inode + width + 0 < u64_mod
      → Steps (width + 0) v (Inode.remove engine dir name v).1
  unfolding Inode.remove
  remove-Steps dir name v valid room = populated-Steps dir 0 _ v valid room λ w valid' room'.
      elim (Result-cases (child_entry dir name w)) [
        | inl ((id, node), e) ↦
            let k = child_entry-inv dir name w id node e in
            rw e (record {
              valid = detach-IsValid w dir name id node valid' k.1;
              next_le = omega (arith, detach-next dir name id node w);
            })
        | inr (x, e) ↦ rw e (Steps-refl 0 w valid')
      ]

  pub list_dir-Steps :
      (dir : ℕ) (v : VfsManager)
      → IsValid v
      → v.next_inode + width + 0 < u64_mod
      → Steps (width + 0) v (Inode.list_dir engine dir v).1
  unfolding Inode.list_dir
  list_dir-Steps dir v valid room =
      populated-Steps dir 0 _ v valid room λ w valid' room'. Steps-refl 0 w valid'

  lookup_child-Steps :
      (dir : ℕ) (name : List ℕ) (v : VfsManager)
      → IsValid v
      → v.next_inode + width + 0 < u64_mod
      → Steps (width + 0) v (Inode.lookup_child engine dir name v).1
  unfolding Inode.lookup_child
  lookup_child-Steps dir name v valid room = elim (Option-cases (find_child v dir name)) [
    | inr (id, g) ↦ rw (g, Inode.lookup_child) (Steps-refl (width + 0) v valid)
    | inl g ↦
        rw (g, Inode.lookup_child)
          (populated-Steps dir 0 _ v valid room λ w valid' room'. Steps-refl 0 w valid')
  ]

  pub lookup-Steps :
      (dir : ℕ) (name : List ℕ) (v : VfsManager)
      → IsValid v
      → v.next_inode + width + 0 < u64_mod
      → Steps (width + 0) v (Inode.lookup engine dir name v).1
  unfolding Inode.lookup
  lookup-Steps dir name v valid room = elim (Bool-cases (str_eq name (ascii "."))) [
    | inl e ↦ rw e (Steps-refl (width + 0) v valid)
    | inr e ↦ elim (Bool-cases (str_eq name (ascii ".."))) [
      | inl f ↦ rw (e, f) (Steps-refl (width + 0) v valid)
      | inr f ↦ rw (e, f) (lookup_child-Steps dir name v valid room)
    ]
  ]

  pub update_file_size-Steps :
      (id size : ℕ) (v : VfsManager) → IsValid v → Steps 0 v (update_file_size id size v)
  unfolding update_file_size
  update_file_size-Steps id size v valid = elim (Option-cases (v.nodes id)) [
    | inl e ↦ rw (e, update_file_size) (Steps-refl 0 v valid)
    | inr (node, e) ↦
        rw (e, update_file_size)
          (record {
            valid = update-IsValid v valid id node (record node { size = size }) e refl refl refl;
            next_le = omega arith;
          })
  ]

  -- `rename`, once the entry is found in a state whose directories are populated.
  renamed :
      (from_dir : ℕ) (from_name : List ℕ) (to_dir : ℕ) (to_name : List ℕ) (id : ℕ) (node : VfsNode)
      (v : VfsManager) (ids : List ℕ)
      → IsValid v
      → v.dir_children to_dir ≡ some ids
      → v.child_map from_dir from_name ≡ some id
      → v.nodes id ≡ some node
      → Steps 0 v
          (move_child id from_dir from_name to_dir to_name (Inode.remove engine to_dir to_name v).1)
  renamed from_dir from_name to_dir to_name id node v ids valid listed found has =
      elim (remove_listed engine to_dir to_name v ids listed) [
        | inr same ↦
            let m = move_child-IsValid v id node from_dir from_name to_dir to_name valid has only in
            rw same (record { valid = m.0; next_le = omega (arith, m.1) })
        | inl (old, gone, mapped, has_old, same) ↦
            let (maps, keeps) = detach-keeps to_dir to_name old gone v in
            let (x, has_x) = keeps id node has in
            let m =
              move_child-IsValid (detach to_dir to_name old gone v) id x from_dir from_name to_dir
                to_name (detach-IsValid v to_dir to_name old gone valid has_old) has_x
                (λ d n h. only d n (maps d n id h)) in
            rw same (record {
              valid = m.0;
              next_le = omega (arith, m.1, detach-next to_dir to_name old gone v);
            })
      ]
    where
      only : (d : ℕ) (n : List ℕ) → v.child_map d n ≡ some id → (d ≡ from_dir) × (n ≡ from_name)
      only d n h = mapped_once v d from_dir n from_name id valid h found

  pub rename-Steps :
      (from_dir : ℕ) (from_name : List ℕ) (to_dir : ℕ) (to_name : List ℕ) (v : VfsManager)
      → IsValid v
      → v.next_inode + width + width < u64_mod
      → Steps (width + width) v (Inode.rename engine from_dir from_name to_dir to_name v).1
  unfolding Inode.rename
  rename-Steps from_dir from_name to_dir to_name v valid room =
      elim (ensure_cases engine v from_dir width valid (omega arith)
        (has_room v from_dir width room)) [
          | inr (x, e) ↦ rw e (Steps-refl (width + width) v valid)
          | inl (w, e) ↦
              let s = Ensured-Steps from_dir width v w e in
              elim (ensure_cases engine w to_dir 0 s.valid (omega (arith, e.spare))
                (has_room w to_dir 0 (omega (arith, e.spare)))) [
                  | inr (x, f) ↦
                      rw (e.result, f)
                        (record { valid = s.valid; next_le = omega (arith, s.next_le) })
                  | inl (z, f) ↦
                      let t = Ensured-Steps to_dir 0 w z f in
                      let st = Steps-trans width width (width + width) v w z (omega arith) s t in
                      rw (e.result, f.result)
                        (elim (Result-cases (child_entry from_dir from_name z)) [
                          | inr (x, g) ↦ rw g st
                          | inl ((id, node), g) ↦
                              let (found, has) = child_entry-inv from_dir from_name z id node g in
                              let m =
                                renamed from_dir from_name to_dir to_name id node z f.ids t.valid
                                  f.listed found has in
                              rw g (
                                Steps-trans (width + width) 0 (width + width) v z _ (omega arith) st
                                  m)
                        ])
                ]
        ]
