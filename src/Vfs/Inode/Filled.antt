-- ===== src/Vfs/Inode/Filled.antt =====
-- src/vfs/inode.rs: reading a directory from its tree, and moving a child, keep the lists of children.
use git_nfs.Prelude.{
  ℕ, ◌+◌, ◌<◌, ◌≡◌, ◌≢◌, ◌⊎◌, refl, sym, ◌∙◌, subst, false, none, some, List, [], ◌∷◌, length, ◌==◌,
  str_eq, arith, Bool-cases, Option-cases, inl, inr,
}
use git_nfs.Bytes.{u64_mod}
use git_nfs.Git.Tree.{GitTreeEntry}
use git_nfs.Vfs.State.{
  VfsNode, VfsManager, Engine, move_child, relabel, drop_child, push_child, set_child, set_node,
  without,
}
use git_nfs.Vfs.State.Laws.{IsValid}
use git_nfs.Vfs.State.Listed.{
  In, Child, IsListed, In-without, without-In, mapped-Child, moved-IsListed,
}
use git_nfs.Vfs.Inode.{scan, populate, tree_entries, ensure_dir_populated, entry_node}
use git_nfs.Vfs.Inode.Population.{add_entry, fill, scan-fill, add_entry-Grows, fill-Grows}

-- `rename`, with nothing at the new place, and both directories read.
pub move_child-IsListed :
    (v : VfsManager) (id : ℕ) (node : VfsNode) (from_dir : ℕ) (from_name : List ℕ) (to_dir : ℕ)
    (to_name : List ℕ) (ids_from ids_to : List ℕ)
    → IsValid v
    → IsListed v
    → v.child_map from_dir from_name ≡ some id
    → v.nodes id ≡ some node
    → v.dir_children from_dir ≡ some ids_from
    → v.dir_children to_dir ≡ some ids_to
    → IsListed (move_child id from_dir from_name to_dir to_name v)
unfolding move_child relabel
move_child-IsListed v id node from_dir from_name to_dir to_name ids_from ids_to valid l found has
      list_from list_to =
    subst (λ u. IsListed (after u)) (sym relabelled)
      (elim (Bool-cases (from_dir == to_dir)) [
        | inl e ↦
            let same : ids_to ≡ ids_from = ground arith in
            rw (list_from, drop_child, e)
              (moved-IsListed v valid l id from_dir from_name to_dir to_name node moved ids_from
                ids_to (without id ids_from) _ found has refl alive list_from list_to (λ j. refl)
                (λ d n. refl) (ground arith)
                (λ j i. let (k, n) = In-without ids_from id j i in (subst (In j) (sym same) k, n))
                (λ j i n. without-In ids_from id j (subst (In j) same i) n)
                (λ apart. absurd (cc (e, apart))) refl (λ d a b. rw (a, b) refl))
        | inr e ↦
            rw (list_from, drop_child, e, list_to)
              (moved-IsListed v valid l id from_dir from_name to_dir to_name node moved ids_from
                ids_to ids_to _ found has refl alive list_from list_to (λ j. refl) (λ d n. refl)
                (ground arith)
                (λ j i.
                  let (x, old, p, a) = l.listed to_dir ids_to j list_to i in
                  (i, λ q. absurd (ground (arith, parent))))
                (λ j i n. i) (λ apart. ground arith) refl (λ d a b. rw (a, b) refl))
      ])
  where
    moved : VfsNode
    moved = record node { parent_id = to_dir; name = to_name }

    after : VfsManager → VfsManager
    after u = push_child to_dir id (
        drop_child from_dir id
          (set_child to_dir to_name (some id) (set_child from_dir from_name none u)))

    relabelled : relabel id to_dir to_name v ≡ set_node id moved v
    relabelled = rw (has, relabel) refl

    place : Child v from_dir id
    place = mapped-Child v valid l from_dir from_name id found

    parent : node.parent_id ≡ from_dir
    parent = let (y, has_y, p, a) = place in ground arith

    alive : node.is_deleted ≡ false
    alive = let (y, has_y, p, a) = place in ground arith

module _ (engine : Engine) where
  -- The entries of a directory that has none yet.
  filled :
      (known : VfsManager) (dir : ℕ) (entries : List GitTreeEntry) (v : VfsManager)
      → IsValid v
      → v.next_inode + length entries < u64_mod
      → ((name : List ℕ) → known.child_map dir name ≡ none)
      → let ids = (scan engine known dir entries v.next_inode).child_ids in
        let w = fill engine known.child_map dir entries v in
        ((j : ℕ) → In j ids → Child w dir j)
        × ((name : List ℕ) (j : ℕ)
            → w.child_map dir name ≡ some j
            → In j ids ⊎ (v.child_map dir name ≡ some j))
  unfolding scan fill
  filled known dir [] v valid room new = (λ j i. absurd i, λ name j h. inr h)
  filled known dir (entry ∷ entries) v valid room new =
      let g =
        add_entry-Grows engine known.child_map dir entry v valid (new entry.name) (omega arith) in
      let v' = add_entry engine dir entry v in
      let h =
        fill-Grows engine known.child_map dir entries v' g.valid (omega (arith, g.next_room)) in
      let (nodes, maps) = filled known dir entries v' g.valid (omega (arith, g.next_room)) new in
      rw (scan, fill, new entry.name)
        (
          λ j i. elim i [ inl e ↦ first j h.nodes_kept e | inr k ↦ nodes j k ],
          λ name j m. elim (maps name j m) [
            | inl k ↦ inl (inr k)
            | inr k ↦ elim (Bool-cases (str_eq entry.name name)) [
              | inl e ↦ inl (inl (ground arith))
              | inr e ↦ inr (ground arith)
            ]
          ],
        )
    where
      first :
          (j : ℕ)
          → ((id : ℕ) (node : VfsNode)
              → (add_entry engine dir entry v).nodes id ≡ some node
              → (fill engine known.child_map dir entries (add_entry engine dir entry v)).nodes id
                ≡ some node)
          → v.next_inode ≡ j
          → Child (fill engine known.child_map dir entries (add_entry engine dir entry v)) dir j
      first j kept e =
          unfold entry_node in
          (
            entry_node engine dir entry v.next_inode,
            kept j (entry_node engine dir entry v.next_inode) (ground arith),
            refl,
            refl,
          )

  populate-IsListed :
      (v : VfsManager) (dir : ℕ) (node : VfsNode)
      → IsValid v
      → IsListed v
      → v.dir_children dir ≡ none
      → v.nodes dir ≡ some node
      → v.next_inode + length (tree_entries engine node.oid) < u64_mod
      → IsListed (populate engine v dir node)
  unfolding populate
  populate-IsListed v dir node valid l unread has room =
      let es = tree_entries engine node.oid in
      let ids = (scan engine v dir es v.next_inode).child_ids in
      let g = fill-Grows engine v.child_map dir es v valid room in
      let (nodes, maps) = filled v dir es v valid room empty in
      rw (scan-fill engine v dir es v) (record {
        dir_below = λ d js h. elim (Bool-cases (dir == d)) [
          | inl e ↦ let (lt, same) = valid.below dir node has in ground (arith, g.next_le)
          | inr e ↦
              let apart : d ≢ dir = λ q. absurd (ground arith) in
              let lt : d < v.next_inode = l.dir_below d js (ground (arith, g.lists_kept d apart)) in
              omega (arith, g.next_le)
        ];
        listed = λ d js j h i. elim (Bool-cases (dir == d)) [
          | inl e ↦
              let same : js ≡ ids = ground arith in
              let p : dir ≡ d = ground arith in
              subst (λ k. Child (fill engine v.child_map dir es v) k j) p
                (nodes j (subst (In j) same i))
          | inr e ↦
              let apart : d ≢ dir = λ q. absurd (ground arith) in
              let (x, old, p, a) = l.listed d js j (ground (arith, g.lists_kept d apart)) i in
              (x, g.nodes_kept j x old, p, a)
        ];
        mapped_listed = λ d name j h. elim (Bool-cases (dir == d)) [
          | inl e ↦
              let p : dir ≡ d = ground arith in
              elim (maps name j (
                subst (λ k. (fill engine v.child_map dir es v).child_map k name ≡ some j) (sym p)
                  h)) [ inl k ↦ (ids, ground arith, k) | inr k ↦ absurd (cc (k, empty name)) ]
          | inr e ↦
              let apart : d ≢ dir = λ q. absurd (ground arith) in
              let (js, there, k) =
                l.mapped_listed d name j (sym (g.others_kept d name apart) ∙ h) in
              (js, ground (arith, g.lists_kept d apart), k)
        ];
      })
    where
      empty : (name : List ℕ) → v.child_map dir name ≡ none
      empty name = elim (Option-cases (v.child_map dir name)) [
        | inl e ↦ e
        | inr (id, e) ↦
            let (js, there, k) = l.mapped_listed dir name id e in absurd (cc (there, unread))
      ]

  pub ensure-IsListed :
      (v : VfsManager) (dir : ℕ)
      → IsValid v
      → IsListed v
      → ((node : VfsNode)
          → v.nodes dir ≡ some node
          → v.next_inode + length (tree_entries engine node.oid) < u64_mod)
      → IsListed (ensure_dir_populated engine dir v).1
  unfolding ensure_dir_populated populate
  ensure-IsListed v dir valid l room = elim (Option-cases (v.dir_children dir)) [
    | inr (ids, e) ↦ rw (e, ensure_dir_populated) l
    | inl e ↦ elim (Option-cases (v.nodes dir)) [
      | inl f ↦ rw (e, f, ensure_dir_populated) l
      | inr (node, f) ↦ elim (Bool-cases node.is_dir) [
        | inr g ↦ rw (e, f, g, ensure_dir_populated) l
        | inl g ↦
            rw (e, f, g, ensure_dir_populated)
              (populate-IsListed v dir node valid l e f (room node f))
      ]
    ]
  ]
