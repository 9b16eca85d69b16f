-- ===== src/Vfs/Inode/Listed.antt =====
-- src/vfs/inode.rs: after any calls that rename nothing onto itself the lists of children agree with the other tables.
use git_nfs.Prelude.{
  ℕ, ◌+◌, ◌*◌, ◌≤◌, ◌<◌, ◌≡◌, ◌≢◌, refl, subst, sym, true, false, some, List, [], ◌∷◌, All, length,
  ◌==◌, str_eq, str_eq_iff, arith, Bool-cases, Option-cases, Result-cases, inl, inr, ◌&&◌,
}
use git_nfs.Prelude.Exec.{◌>>◌}
use git_nfs.Bytes.{u64_mod}
use git_nfs.Text.{ascii}
use git_nfs.Git.Tree.{TreeEntryMode}
use git_nfs.Vfs.State
use git_nfs.Vfs.State.{
  VfsNode, VfsManager, Engine, Vfs, attach, detach, child_entry, move_child, find_child, without,
}
use git_nfs.Vfs.State.Laws.{IsValid, same_key}
use git_nfs.Vfs.State.Keeps.{detach-IsValid, child_entry-inv, detach-keeps}
use git_nfs.Vfs.State.Listed.{
  In, IsListed, update-IsListed, attach-IsListed, mapped-Child, detach-IsListed, other_id,
}
use git_nfs.Vfs.Inode
use git_nfs.Vfs.Inode.{tree_entries, ensure_dir_populated}
use git_nfs.Vfs.Inode.Population.{Ensured, ensure_cases}
use git_nfs.Vfs.Inode.Filled.{ensure-IsListed, move_child-IsListed}
use git_nfs.Vfs.Inode.Steps.{has_room, Ensured-Steps, remove_listed}
use git_nfs.Vfs.Inode.Valid.{
  Call, looks_up, lists, creates, makes, removes, renames, resizes, perform, perform_all,
  perform-Steps,
}

pub new-IsListed : (oid : List ℕ) → IsListed (State.new oid)
unfolding State.new
new-IsListed oid = record {
  listed = λ dir ids id h i. absurd (ground arith);
  mapped_listed = λ dir name id h. absurd (ground arith);
  dir_below = λ dir ids h. absurd (ground arith);
}

module _ (engine : Engine) (width : ℕ)
    (narrow : (oid : List ℕ) → length (tree_entries engine oid) ≤ width) where
  ensured :
      (dir more : ℕ) (v w : VfsManager)
      → IsValid v
      → IsListed v
      → v.next_inode + width < u64_mod
      → Ensured engine dir more v w
      → IsListed w
  ensured dir more v w valid l room e =
      subst (λ r. IsListed r.1) e.result
        (ensure-IsListed engine v dir valid l (λ node h. omega (arith, narrow node.oid)))

  -- A method that reads a directory first, and then does `f`.
  populated-IsListed {ℓ} :
      {A : Type ℓ} (dir cost : ℕ) (f : Vfs A) (v : VfsManager)
      → IsValid v
      → IsListed v
      → v.next_inode + width + cost < u64_mod
      → ((w : VfsManager) (ids : List ℕ)
          → IsValid w
          → IsListed w
          → w.next_inode + cost < u64_mod
          → w.dir_children dir ≡ some ids
          → IsListed (f w).1)
      → IsListed ((ensure_dir_populated engine dir >> f) v).1
  populated-IsListed dir cost f v valid l room next =
      elim (ensure_cases engine v dir cost valid (omega arith)
        (has_room engine width narrow v dir cost room)) [
          | inl (w, e) ↦
              let s = Ensured-Steps engine width narrow dir cost v w e in
              rw e.result (
                next w e.ids s.valid (ensured dir cost v w valid l (omega arith) e)
                  (omega (arith, s.next_le)) e.listed)
          | inr (x, e) ↦ rw e l
        ]

  create_file-IsListed :
      (dir : ℕ) (name : List ℕ) (mode : TreeEntryMode) (v : VfsManager)
      → IsValid v
      → IsListed v
      → v.next_inode + width + 1 < u64_mod
      → IsListed (Inode.create_file engine dir name mode v).1
  unfolding Inode.create_file State.create_new
  create_file-IsListed dir name mode v valid l room =
      populated-IsListed dir 1 _ v valid l room λ w ids valid' l' room' has.
        elim (Option-cases (w.child_map dir name)) [
          | inl e ↦ rw e (
              attach-IsListed w (State.fresh_node w.next_inode dir name mode false 0) ids valid' l'
                refl refl has room')
          | inr (id, e) ↦
              let (node, f, p, live) = mapped-Child w valid' l' dir name id e in
              rw (e, f)
                (update-IsListed w id node (record node { is_deleted = false; size = 0 }) l' f refl
                  (λ k. refl))
        ]

  mkdir-IsListed :
      (dir : ℕ) (name : List ℕ) (v : VfsManager)
      → IsValid v
      → IsListed v
      → v.next_inode + width + 1 < u64_mod
      → IsListed (Inode.mkdir engine dir name v).1
  unfolding Inode.mkdir
  mkdir-IsListed dir name v valid l room =
      populated-IsListed dir 1 _ v valid l room λ w ids valid' l' room' has.
        let node = State.fresh_node w.next_inode dir name TreeEntryMode.directory true 4096 in
        let a = attach-IsListed w node ids valid' l' refl refl has room' in
        new_list w node ids l' refl has room' a
    where
      unread :
          (w : VfsManager) (node : VfsNode) (ids : List ℕ)
          → IsListed w
          → node.id ≡ w.next_inode
          → w.dir_children node.parent_id ≡ some ids
          → (d : ℕ) (js : List ℕ) → node.id ≡ d
          → (attach node.parent_id node.name node w).dir_children d ≡ some js
          → ⊥
      unread w node ids l' fresh has d js e h =
          unfold attach in
          elim (Bool-cases (node.parent_id == d)) [
            | inl f ↦ absurd (ground (arith, l'.dir_below node.parent_id ids has))
            | inr f ↦
                let old : w.dir_children d ≡ some js = ground arith in
                absurd (omega (arith, l'.dir_below d js old))
          ]

      new_list :
          (w : VfsManager) (node : VfsNode) (ids : List ℕ)
          → IsListed w
          → node.id ≡ w.next_inode
          → w.dir_children node.parent_id ≡ some ids
          → w.next_inode + 1 < u64_mod
          → IsListed (attach node.parent_id node.name node w)
          → IsListed (State.set_children node.id [] (attach node.parent_id node.name node w))
      new_list w node ids l' fresh has room' a = record {
        listed = λ d js j h i. elim (Bool-cases (node.id == d)) [
          | inl e ↦ let same : [] ≡ js = ground arith in absurd (subst (In j) (sym same) i)
          | inr e ↦ a.listed d js j (ground arith) i
        ];
        mapped_listed = λ d n j h.
            let (js, there, k) = a.mapped_listed d n j h in
            elim (Bool-cases (node.id == d)) [
              | inl e ↦ absurd (unread w node ids l' fresh has d js (ground arith) there)
              | inr e ↦ (js, ground arith, k)
            ];
        dir_below = λ d js h. elim (Bool-cases (node.id == d)) [
          | inl e ↦ unfold attach in ground arith
          | inr e ↦ a.dir_below d js (ground arith)
        ];
      }

  remove-IsListed :
      (dir : ℕ) (name : List ℕ) (v : VfsManager)
      → IsValid v
      → IsListed v
      → v.next_inode + width + 0 < u64_mod
      → IsListed (Inode.remove engine dir name v).1
  unfolding Inode.remove
  remove-IsListed dir name v valid l room =
      populated-IsListed dir 0 _ v valid l room λ w ids valid' l' room' has.
        elim (Result-cases (child_entry dir name w)) [
          | inl ((id, node), e) ↦
              let k = child_entry-inv dir name w id node e in
              rw e (detach-IsListed w valid' l' dir name id node ids k.0 k.1 has)
          | inr (x, e) ↦ rw e l'
        ]

  list_dir-IsListed :
      (dir : ℕ) (v : VfsManager)
      → IsValid v
      → IsListed v
      → v.next_inode + width + 0 < u64_mod
      → IsListed (Inode.list_dir engine dir v).1
  unfolding Inode.list_dir
  list_dir-IsListed dir v valid l room =
      populated-IsListed dir 0 _ v valid l room λ w ids valid' l' room' has. l'

  lookup-IsListed :
      (dir : ℕ) (name : List ℕ) (v : VfsManager)
      → IsValid v
      → IsListed v
      → v.next_inode + width + 0 < u64_mod
      → IsListed (Inode.lookup engine dir name v).1
  unfolding Inode.lookup Inode.lookup_child
  lookup-IsListed dir name v valid l room = elim (Bool-cases (str_eq name (ascii "."))) [
    | inl e ↦ rw e l
    | inr e ↦ elim (Bool-cases (str_eq name (ascii ".."))) [
      | inl f ↦ rw (e, f) l
      | inr f ↦ elim (Option-cases (find_child v dir name)) [
        | inr (id, g) ↦ rw (e, f, Inode.lookup_child, g) l
        | inl g ↦
            rw (e, f, Inode.lookup_child, g)
              (populated-IsListed dir 0 _ v valid l room λ w ids valid' l' room' has. l')
      ]
    ]
  ]

  update_file_size-IsListed :
      (id size : ℕ) (v : VfsManager) → IsListed v → IsListed (State.update_file_size id size v)
  unfolding State.update_file_size
  update_file_size-IsListed id size v l = elim (Option-cases (v.nodes id)) [
    | inl e ↦ rw (e, State.update_file_size) l
    | inr (node, e) ↦
        rw (e, State.update_file_size)
          (update-IsListed v id node (record node { size = size }) l e refl (λ k. k))
  ]

  renamed-IsListed :
      (from_dir : ℕ) (from_name : List ℕ) (to_dir : ℕ) (to_name : List ℕ) (id : ℕ) (node : VfsNode)
      (v : VfsManager) (ids : List ℕ)
      → (from_dir == to_dir && str_eq from_name to_name) ≡ false
      → IsValid v
      → IsListed v
      → v.dir_children to_dir ≡ some ids
      → v.child_map from_dir from_name ≡ some id
      → v.nodes id ≡ some node
      → IsListed
          (move_child id from_dir from_name to_dir to_name (Inode.remove engine to_dir to_name v).1)
  renamed-IsListed from_dir from_name to_dir to_name id node v ids apart valid l listed found has =
      let (js, from_listed, k) = l.mapped_listed from_dir from_name id found in
      elim (remove_listed engine to_dir to_name v ids listed) [
        | inr same ↦ rw same (
            move_child-IsListed v id node from_dir from_name to_dir to_name js ids valid l found has
              from_listed listed)
        | inl (old, gone, mapped, has_old, same) ↦ rw same (behind old gone mapped has_old)
      ]
    where
      flipped : (to_dir == from_dir && str_eq to_name from_name) ≡ false
      flipped = elim (Bool-cases (to_dir == from_dir && str_eq to_name from_name)) [
        | inr e ↦ e
        | inl e ↦
            let (p, q) = same_key to_dir from_dir to_name from_name e in
            absurd (ground (arith, str_eq_iff from_name to_name))
      ]

      behind :
          (old : ℕ) (gone : VfsNode)
          → v.child_map to_dir to_name ≡ some old
          → v.nodes old ≡ some gone
          → IsListed
              (move_child id from_dir from_name to_dir to_name (detach to_dir to_name old gone v))
      behind old gone mapped has_old =
          let w = detach to_dir to_name old gone v in
          let w_valid = detach-IsValid v to_dir to_name old gone valid has_old in
          let w_l = detach-IsListed v valid l to_dir to_name old gone ids mapped has_old listed in
          let other : old ≢ id =
            other_id v valid l from_dir to_dir from_name to_name id old found mapped apart in
          let found' : w.child_map from_dir from_name ≡ some id =
            unfold detach in rw (detach, listed, State.drop_child, flipped) found in
          let (js', from_listed', k') = w_l.mapped_listed from_dir from_name id found' in
          let (x, has_x) = (detach-keeps to_dir to_name old gone v).1 id node has in
          let to_listed : w.dir_children to_dir ≡ some (without old ids) =
            unfold detach in rw (detach, listed, State.drop_child) (ground arith) in
          move_child-IsListed w id x from_dir from_name to_dir to_name js' (without old ids) w_valid
            w_l found' has_x from_listed' to_listed

  rename-IsListed :
      (from_dir : ℕ) (from_name : List ℕ) (to_dir : ℕ) (to_name : List ℕ) (v : VfsManager)
      → (from_dir == to_dir && str_eq from_name to_name) ≡ false
      → IsValid v
      → IsListed v
      → v.next_inode + width + width < u64_mod
      → IsListed (Inode.rename engine from_dir from_name to_dir to_name v).1
  unfolding Inode.rename
  rename-IsListed from_dir from_name to_dir to_name v apart valid l room =
      elim (ensure_cases engine v from_dir width valid (omega arith)
        (has_room engine width narrow v from_dir width room)) [
          | inr (x, e) ↦ rw e l
          | inl (w, e) ↦
              let s = Ensured-Steps engine width narrow from_dir width v w e in
              let l' = ensured from_dir width v w valid l (omega arith) e in
              elim (ensure_cases engine w to_dir 0 s.valid (omega (arith, e.spare))
                (has_room engine width narrow w to_dir 0 (omega (arith, e.spare)))) [
                  | inr (x, f) ↦ rw (e.result, f) l'
                  | inl (z, f) ↦
                      let t = Ensured-Steps engine width narrow to_dir 0 w z f in
                      let l'' = ensured to_dir 0 w z s.valid l' (omega (arith, e.spare)) f in
                      rw (e.result, f.result)
                        (elim (Result-cases (child_entry from_dir from_name z)) [
                          | inr (x, g) ↦ rw g l''
                          | inl ((id, node), g) ↦
                              let (found, has) = child_entry-inv from_dir from_name z id node g in
                              rw g (
                                renamed-IsListed from_dir from_name to_dir to_name id node z f.ids
                                  apart t.valid l'' f.listed found has)
                        ])
                ]
        ]

  -- A call that does not rename a child onto itself.
  abbrev pub MovesAway : Call → Type 0
  MovesAway (renames d s e t) = (d == e && str_eq s t) ≡ false
  MovesAway _ = Unit

  perform-IsListed :
      (v : VfsManager) (c : Call)
      → MovesAway c
      → IsValid v
      → IsListed v
      → v.next_inode + (width + width + 1) < u64_mod
      → IsListed (perform engine v c)
  perform-IsListed v (looks_up dir name) away valid l room =
      lookup-IsListed dir name v valid l (omega arith)
  perform-IsListed v (lists dir) away valid l room = list_dir-IsListed dir v valid l (omega arith)
  perform-IsListed v (creates dir name mode) away valid l room =
      create_file-IsListed dir name mode v valid l (omega arith)
  perform-IsListed v (makes dir name) away valid l room =
      mkdir-IsListed dir name v valid l (omega arith)
  perform-IsListed v (removes dir name) away valid l room =
      remove-IsListed dir name v valid l (omega arith)
  perform-IsListed v (renames d s e t) away valid l room =
      rename-IsListed d s e t v away valid l (omega arith)
  perform-IsListed v (resizes id size) away valid l room = update_file_size-IsListed id size v l

  -- Any calls of the methods that change the tables keep them consistent, from consistent tables, if no
  -- tree has more than `width` entries, the numbers left are enough, two directories and a node per call,
  -- and no call renames a child onto itself. Every node stands under its own number, below the next one, and
  -- every mapped name leads to a node with that parent and that name. A list of children holds nodes of
  -- its own directory that are not deleted, so that no node is listed in two directories; every mapped
  -- child stands in the list of its directory.
  pub perform_all-IsListed :
      (v : VfsManager) (calls : List Call)
      → All MovesAway calls
      → IsValid v
      → IsListed v
      → v.next_inode + length calls * (width + width + 1) < u64_mod
      → IsValid (perform_all engine v calls) × IsListed (perform_all engine v calls)
  perform_all-IsListed v [] away valid l room = (valid, l)
  perform_all-IsListed v (c ∷ cs) (here, away) valid l room =
      let s = perform-Steps engine width narrow v c valid (ground arith) in
      perform_all-IsListed (perform engine v c) cs away s.valid
        (perform-IsListed v c here valid l (ground arith)) (ground (arith, s.next_le))
