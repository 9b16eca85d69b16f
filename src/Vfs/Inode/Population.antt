-- ===== src/Vfs/Inode/Population.antt =====
-- Reading a directory from its tree: the loop and the batched insertions do what inserting entry by
-- entry would do, and they keep the invariant and everything that was there.
use git_nfs.Prelude.{◌≢◌, ℕ, ◌+◌, ◌≤◌, ◌<◌, ◌≡◌, refl, ap, ◌∙◌, Option}
use git_nfs.Prelude.{none, some, List, [], ◌∷◌, length, str_eq_iff, arith}
use git_nfs.Prelude.{Bool-cases, Option-cases, inl, inr, ◌⊎◌, ok, err}
use git_nfs.Bytes.{u64_mod}
use git_nfs.Git.Tree.{GitTreeEntry}
use git_nfs.Vfs.State.{VfsNode, VfsManager, Engine, set_node, set_child, set_children, bump}
use git_nfs.Vfs.State.{add_nodes, add_mappings, VfsError, dir_not_found, not_a_directory}
use git_nfs.Vfs.State.Laws.{IsValid, add-IsValid}
use git_nfs.Vfs.Inode.{entry_node, scan, populate, tree_entries, ensure_dir_populated}

module _ (engine : Engine) where
  set_child-add_nodes :
      (d : ℕ) (s : List ℕ) (i : Option ℕ) (ns : List (ℕ × VfsNode)) (v : VfsManager)
      → set_child d s i (add_nodes ns v) ≡ add_nodes ns (set_child d s i v)
  unfolding add_nodes
  set_child-add_nodes d s i [] v = refl
  set_child-add_nodes d s i ((id, node) ∷ ns) v = set_child-add_nodes d s i ns (set_node id node v)

  -- One entry that the directory did not have.
  abbrev pub add_entry : ℕ → GitTreeEntry → VfsManager → VfsManager
  add_entry dir entry v = set_child dir entry.name (some v.next_inode) (
      set_node v.next_inode (entry_node engine dir entry v.next_inode)
        (record v { next_inode = bump v.next_inode }))

  -- Entry by entry; `known` is the table of children before the loop, which the loop reads.
  unfoldable pub fill : (ℕ → List ℕ → Option ℕ) → ℕ → List GitTreeEntry → VfsManager → VfsManager
  fill known dir [] v = v
  fill known dir (entry ∷ entries) v = elim (known dir entry.name) [
    | some _ ↦ fill known dir entries v
    | none ↦ fill known dir entries (add_entry dir entry v)
  ]

  pub scan-fill :
      (known : VfsManager) (dir : ℕ) (entries : List GitTreeEntry) (v : VfsManager)
      → let r = scan engine known dir entries v.next_inode in
        add_mappings r.new_child_mappings (add_nodes r.new_nodes (record v { next_inode = r.next }))
        ≡ fill known.child_map dir entries v
  unfolding scan fill add_nodes add_mappings
  scan-fill known dir [] v = refl
  scan-fill known dir (entry ∷ entries) v = elim (Option-cases (known.child_map dir entry.name)) [
    | inl e ↦
        rw (e, scan, fill)
          (ap (add_mappings (scan engine known dir entries (bump v.next_inode)).new_child_mappings)
              (set_child-add_nodes dir entry.name (some v.next_inode)
                ((v.next_inode, entry_node engine dir entry v.next_inode)
                  ∷ (scan engine known dir entries (bump v.next_inode)).new_nodes)
                (record v {
                  next_inode = (scan engine known dir entries (bump v.next_inode)).next;
                }))
            ∙ scan-fill known dir entries (add_entry dir entry v))
    | inr (id, e) ↦ rw (e, scan, fill) (scan-fill known dir entries v)
  ]

  -- What the insertion of entries keeps: the invariant, the nodes, the children that were known, and
  -- those of other directories.
  pub record Grows (known : ℕ → List ℕ → Option ℕ) (dir room : ℕ) (v w : VfsManager) : Type 0 where
    pub valid : IsValid w
    pub next_le : v.next_inode ≤ w.next_inode
    pub next_room : w.next_inode ≤ v.next_inode + room
    pub nodes_kept : (id : ℕ) (node : VfsNode) → v.nodes id ≡ some node → w.nodes id ≡ some node
    pub others_kept : (d : ℕ) (name : List ℕ) → d ≢ dir → w.child_map d name ≡ v.child_map d name
    pub known_kept :
        (name : List ℕ) (id : ℕ)
        → known dir name ≡ some id
        → w.child_map dir name ≡ v.child_map dir name
    pub lists_kept : (d : ℕ) → d ≢ dir → w.dir_children d ≡ v.dir_children d

  Grows-refl :
      (known : ℕ → List ℕ → Option ℕ) (dir room : ℕ) (v : VfsManager)
      → IsValid v
      → Grows known dir room v v
  Grows-refl known dir room v valid = record {
    valid = valid;
    next_le = omega arith;
    next_room = omega arith;
    nodes_kept = λ id node h. h;
    others_kept = λ d name h. refl;
    known_kept = λ name id h. refl;
    lists_kept = λ d h. refl;
  }

  Grows-trans :
      (known : ℕ → List ℕ → Option ℕ) (dir a b c : ℕ) (v w x : VfsManager)
      → a + b ≤ c
      → Grows known dir a v w
      → Grows known dir b w x
      → Grows known dir c v x
  Grows-trans known dir a b c v w x le g h = record {
    valid = h.valid;
    next_le = omega (arith, g.next_le, h.next_le);
    next_room = omega (arith, g.next_room, h.next_room);
    nodes_kept = λ id node e. h.nodes_kept id node (g.nodes_kept id node e);
    others_kept = λ d name e. h.others_kept d name e ∙ g.others_kept d name e;
    known_kept = λ name id e. h.known_kept name id e ∙ g.known_kept name id e;
    lists_kept = λ d e. h.lists_kept d e ∙ g.lists_kept d e;
  }

  pub add_entry-Grows :
      (known : ℕ → List ℕ → Option ℕ) (dir : ℕ) (entry : GitTreeEntry) (v : VfsManager)
      → IsValid v
      → known dir entry.name ≡ none
      → v.next_inode + 1 < u64_mod
      → Grows known dir 1 v (add_entry dir entry v)
  unfolding entry_node
  add_entry-Grows known dir entry v valid new room = record {
    valid = add-IsValid v valid (entry_node engine dir entry v.next_inode) refl room;
    next_le = omega arith;
    next_room = omega arith;
    nodes_kept = λ id node e. ground (arith, valid.below id node e);
    others_kept = λ d name e. ground arith;
    known_kept = λ name id e.
        ground (arith, str_eq_iff entry.name name, ap (known dir) {x = entry.name} {y = name});
    lists_kept = λ d e. refl;
  }

  pub fill-Grows :
      (known : ℕ → List ℕ → Option ℕ) (dir : ℕ) (entries : List GitTreeEntry) (v : VfsManager)
      → IsValid v
      → v.next_inode + length entries < u64_mod
      → Grows known dir (length entries) v (fill known dir entries v)
  fill-Grows known dir [] v valid room = unfold fill in Grows-refl known dir 0 v valid
  fill-Grows known dir (entry ∷ entries) v valid room = elim (Option-cases (known dir entry.name)) [
    | inl e ↦
        let g = add_entry-Grows known dir entry v valid e (omega arith) in
        fill_more e g (
          fill-Grows known dir entries (add_entry dir entry v) g.valid (omega (arith, g.next_room)))
    | inr (id, e) ↦ fill_known id e (fill-Grows known dir entries v valid (omega arith))
  ]
    where
      fill_more :
          known dir entry.name ≡ none
          → Grows known dir 1 v (add_entry dir entry v)
          → Grows known dir
              (length entries)
              (add_entry dir entry v)
              (fill known dir entries (add_entry dir entry v))
          → Grows known dir (length (entry ∷ entries)) v (fill known dir (entry ∷ entries) v)
      fill_more e g h =
          let t =
            Grows-trans known dir 1 (length entries) (length (entry ∷ entries)) v _ _ (omega arith)
              g h in
          unfold fill in rw (e, fill) t

      fill_known :
          (id : ℕ)
          → known dir entry.name ≡ some id
          → Grows known dir (length entries) v (fill known dir entries v)
          → Grows known dir (length (entry ∷ entries)) v (fill known dir (entry ∷ entries) v)
      fill_known id e h =
          let t =
            Grows-trans known dir 0 (length entries) (length (entry ∷ entries)) v _ _ (omega arith)
              (Grows-refl known dir 0 v valid) h in
          unfold fill in rw (e, fill) t

  -- The inode numbers do not run out: those of the entries still to be read, and `more`.
  abbrev pub HasRoom : VfsManager → ℕ → ℕ → Type 0
  HasRoom v dir more =
      (node : VfsNode)
      → v.nodes dir ≡ some node
      → v.next_inode + length (tree_entries engine node.oid) + more < u64_mod

  -- A successful `ensure_dir_populated`: the directory has its list of children, and the rest grew.
  pub record Ensured (dir more : ℕ) (v w : VfsManager) : Type 0 where
    pub result : ensure_dir_populated engine dir v ≡ (ok tt, w)
    pub spare : w.next_inode + more < u64_mod
    pub room : ℕ
    pub room_le :
        (bound : ℕ) → ((oid : List ℕ) → length (tree_entries engine oid) ≤ bound) → room ≤ bound
    pub grows : Grows v.child_map dir room v w
    pub ids : List ℕ
    pub listed : w.dir_children dir ≡ some ids

  set_children-Grows :
      (known : ℕ → List ℕ → Option ℕ) (dir room : ℕ) (v w : VfsManager) (ids : List ℕ)
      → Grows known dir room v w
      → Grows known dir room v (set_children dir ids w)
  set_children-Grows known dir room v w ids g = record {
    valid = record { below = g.valid.below; mapped = g.valid.mapped };
    next_le = g.next_le;
    next_room = g.next_room;
    nodes_kept = g.nodes_kept;
    others_kept = g.others_kept;
    known_kept = g.known_kept;
    lists_kept = λ d e. ground (arith, g.lists_kept d);
  }

  populate-Grows :
      (v : VfsManager) (dir : ℕ) (node : VfsNode)
      → IsValid v
      → v.next_inode + length (tree_entries engine node.oid) < u64_mod
      → Grows v.child_map dir (length (tree_entries engine node.oid)) v (populate engine v dir node)
  unfolding populate
  populate-Grows v dir node valid room =
      let es = tree_entries engine node.oid in
      set_children-Grows v.child_map dir (length es) v _
        (scan engine v dir es v.next_inode).child_ids
        (rw (scan-fill v dir es v) (fill-Grows v.child_map dir es v valid room))

  -- `ensure_dir_populated` succeeds with the directory's children read, or fails and changes nothing.
  pub ensure_cases :
      (v : VfsManager) (dir more : ℕ)
      → IsValid v
      → v.next_inode + more < u64_mod
      → HasRoom v dir more
      → ((w : VfsManager) × Ensured dir more v w)
        ⊎ ((e : VfsError) × (ensure_dir_populated engine dir v ≡ (err e, v)))
  unfolding ensure_dir_populated
  ensure_cases v dir more valid spare room = elim (Option-cases (v.dir_children dir)) [
    | inr (ids, e) ↦ inl (
      v,
      record {
        result = rw (e, ensure_dir_populated);
        spare = spare;
        room = 0;
        room_le = λ bound narrow. omega arith;
        grows = Grows-refl v.child_map dir 0 v valid;
        ids = ids;
        listed = e;
      },
    )
    | inl e ↦ elim (Option-cases (v.nodes dir)) [
      | inl f ↦ inr (dir_not_found, rw (e, f, ensure_dir_populated))
      | inr (node, f) ↦ elim (Bool-cases node.is_dir) [
        | inr g ↦ inr (not_a_directory, ground arith)
        | inl g ↦
            let h = populate-Grows v dir node valid (omega (arith, room node f)) in
            inl (
              populate engine v dir node,
              record {
                result = ground arith;
                spare = omega (arith, h.next_room, room node f);
                room = length (tree_entries engine node.oid);
                room_le = λ bound narrow. narrow node.oid;
                grows = h;
                ids = (scan engine v dir (tree_entries engine node.oid) v.next_inode).child_ids;
                listed = unfold populate in ground arith;
              },
            )
      ]
    ]
  ]

  pub ensure_listed :
      (dir : ℕ) (ids : List ℕ) (v : VfsManager)
      → v.dir_children dir ≡ some ids
      → ensure_dir_populated engine dir v ≡ (ok tt, v)
  unfolding ensure_dir_populated
  ensure_listed dir ids v listed = rw (listed, ensure_dir_populated) refl

  -- A directory whose population succeeds has a list of children.
  pub ensure_ok :
      (dir : ℕ) (v w : VfsManager)
      → ensure_dir_populated engine dir v ≡ (ok tt, w)
      → (ids : List ℕ) × (w.dir_children dir ≡ some ids)
  unfolding ensure_dir_populated populate
  ensure_ok dir v w h = elim (Option-cases (v.dir_children dir)) [
    | inr (ids, e) ↦ (ids, ground arith)
    | inl e ↦ elim (Option-cases (v.nodes dir)) [
      | inl f ↦ absurd (ground arith)
      | inr (node, f) ↦ elim (Bool-cases node.is_dir) [
        | inr g ↦ absurd (ground arith)
        | inl g ↦ (
          (scan engine v dir (tree_entries engine node.oid) v.next_inode).child_ids,
          ground arith,
        )
      ]
    ]
  ]
