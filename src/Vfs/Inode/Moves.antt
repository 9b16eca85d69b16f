-- ===== src/Vfs/Inode/Moves.antt =====
-- What `rename` does to the two names and to the node.
use mathlib.Core.Option
use git_nfs.Prelude.{ℕ, ◌+◌, ◌≤◌, ◌<◌, ◌≡◌, ◌≢◌, refl, sym, ◌∙◌, false, ◌&&◌, none, some}
use git_nfs.Prelude.{subst, List, [], ◌∷◌, ◌++◌, length, ◌==◌, str_eq, str_eq_iff, str_eq_self}
use git_nfs.Prelude.{arith, Bool-cases, inl, inr, ok, err}
use git_nfs.Prelude.Exec.{OnOk, OnOk-holds}
use git_nfs.Bytes.{u64_mod}
use git_nfs.Vfs.State.{VfsNode, VfsManager, Engine, child_not_found, get_node, live}
use git_nfs.Vfs.State.{
  child_entry, detach, drop_child, push_child, set_node, set_children, set_child, without,
  move_child, relabel,
}
use git_nfs.Vfs.State.Laws.{IsValid, mapped_once}
use git_nfs.Vfs.Inode.{tree_entries, lookup, remove, rename}
use git_nfs.Vfs.Inode.Steps.{has_room, remove_listed}
use git_nfs.Vfs.Inode.Names.{IsPlain, live_child, lookup_found, lookup_missing}
use git_nfs.Vfs.Inode.Population.{Ensured, ensure_cases}

module _ (engine : Engine) (from_dir : ℕ) (from_name : List ℕ) (to_dir : ℕ) (to_name : List ℕ)
    (id : ℕ) (node : VfsNode) where
  -- The new name finds the node, the old one finds nothing, and but for its place the node is what
  -- it was.
  pub record Moved (w : VfsManager) : Type 0 where
    pub arrived : lookup engine to_dir to_name w ≡ (ok id, w)
    pub left : lookup engine from_dir from_name w ≡ (err child_not_found, w)
    pub kept : get_node w id ≡ some (record node { parent_id = to_dir; name = to_name })

  -- The names are two, and `lookup` takes neither for itself.
  abbrev pub AreApart : Type 0
  AreApart =
      IsPlain from_name
      × IsPlain to_name
      × ((from_dir == to_dir && str_eq from_name to_name) ≡ false)

  listed_after :
      (v : VfsManager) (ids : List ℕ)
      → v.dir_children from_dir ≡ some ids
      → (js : List ℕ) × ((push_child to_dir id (drop_child from_dir id v)).dir_children from_dir
          ≡ some js)
  listed_after v ids listed = elim (Bool-cases (to_dir == from_dir)) [
    | inl e ↦
        let w = set_children from_dir (without id ids) v in
        rw (listed, drop_child) (Option.get_or (w.dir_children to_dir) [] ++ id ∷ [], ground arith)
    | inr e ↦ rw (listed, drop_child) (without id ids, ground arith)
  ]

  -- The tables of a move, read off.
  moved_tables :
      (v : VfsManager) (ids : List ℕ)
      → AreApart
      → v.nodes id ≡ some node
      → v.dir_children from_dir ≡ some ids
      → let w = move_child id from_dir from_name to_dir to_name v in
        (w.child_map to_dir to_name ≡ some id)
        × (w.child_map from_dir from_name ≡ none)
        × (w.nodes id ≡ some (record node { parent_id = to_dir; name = to_name }))
  unfolding move_child relabel
  moved_tables v ids apart has listed =
      rw (has, relabel, listed, drop_child)
        (
          ground (arith, str_eq_self to_name),
          ground (
            arith,
            str_eq_self from_name,
            str_eq_iff to_name from_name,
            str_eq_iff from_name to_name,
          ),
          ground arith,
        )

  moved_list :
      (v : VfsManager) (ids : List ℕ)
      → v.nodes id ≡ some node
      → v.dir_children from_dir ≡ some ids
      → (js : List ℕ) × ((move_child id from_dir from_name to_dir to_name v).dir_children from_dir
          ≡ some js)
  unfolding move_child relabel
  moved_list v ids has listed =
      let w = set_child to_dir to_name (some id) (
        set_child from_dir from_name none
          (set_node id (record node { parent_id = to_dir; name = to_name }) v)) in
      rw (has, relabel) (listed_after w ids listed)

  move_child-Moved :
      (v : VfsManager) (ids : List ℕ)
      → AreApart
      → v.nodes id ≡ some node
      → node.is_deleted ≡ false
      → v.dir_children from_dir ≡ some ids
      → Moved (move_child id from_dir from_name to_dir to_name v)
  unfolding get_node live
  move_child-Moved v ids apart has alive listed =
      let (to, gone, now) = moved_tables v ids apart has listed in
      let (js, rest) = moved_list v ids has listed in
      let w = move_child id from_dir from_name to_dir to_name v in
      record {
        arrived = lookup_found engine w to_dir to_name id apart.1 (
            live_child w to_dir to_name id (record node { parent_id = to_dir; name = to_name }) to
              now alive);
        left = lookup_missing engine w from_dir from_name js apart.0 gone rest;
        kept = rw (now, get_node, live) (ground arith);
      }

  -- Removing what stood at the new name leaves the node.
  removed_keeps :
      (v : VfsManager) (old : ℕ) (gone : VfsNode) (ids js : List ℕ)
      → id ≢ old
      → v.nodes id ≡ some node
      → v.dir_children from_dir ≡ some ids
      → v.dir_children to_dir ≡ some js
      → ((detach to_dir to_name old gone v).nodes id ≡ some node)
        × ((ks : List ℕ) × ((detach to_dir to_name old gone v).dir_children from_dir ≡ some ks))
  unfolding detach
  removed_keeps v old gone ids js other has listed listed' =
      elim (Bool-cases (to_dir == from_dir)) [
        | inl e ↦ rw (listed', drop_child) (ground arith, (without old js, ground arith))
        | inr e ↦ rw (listed', drop_child) (ground arith, (ids, ground arith))
      ]

  -- The last two steps of `rename`.
  replaced-Moved :
      (v : VfsManager) (ids js : List ℕ)
      → IsValid v
      → AreApart
      → v.child_map from_dir from_name ≡ some id
      → v.nodes id ≡ some node
      → node.is_deleted ≡ false
      → v.dir_children from_dir ≡ some ids
      → v.dir_children to_dir ≡ some js
      → Moved (move_child id from_dir from_name to_dir to_name (remove engine to_dir to_name v).1)
  replaced-Moved v ids js valid apart found has alive listed listed' =
      elim (remove_listed engine to_dir to_name v js listed') [
        | inr same ↦ rw same (move_child-Moved v ids apart has alive listed)
        | inl (old, gone, mapped, has_old, same) ↦
            let other : id ≢ old = λ e.
              let k =
                mapped_once v from_dir to_dir from_name to_name id valid found (ground arith) in
              absurd (ground (arith, str_eq_iff from_name to_name)) in
            let (kept, (ks, rest)) = removed_keeps v old gone ids js other has listed listed' in
            rw same (move_child-Moved (detach to_dir to_name old gone v) ks apart kept alive rest)
      ]

module _ (engine : Engine) where
  child_kept :
      (dir more : ℕ) (v w : VfsManager) (d : ℕ) (name : List ℕ) (id : ℕ)
      → Ensured engine dir more v w
      → v.child_map d name ≡ some id
      → w.child_map d name ≡ some id
  child_kept dir more v w d name id e h = elim (Bool-cases (d == dir)) [
    | inl f ↦
        let same : d ≡ dir = ground arith in
        subst (λ k. w.child_map k name ≡ some id) (sym same)
          (e.grows.known_kept name id (subst (λ k. v.child_map k name ≡ some id) same h)
            ∙ subst (λ k. v.child_map k name ≡ some id) same h)
    | inr f ↦ e.grows.others_kept d name (λ k. absurd (ground arith)) ∙ h
  ]

  list_kept :
      (dir more : ℕ) (v w : VfsManager) (d : ℕ) (ids : List ℕ)
      → Ensured engine dir more v w
      → v.dir_children d ≡ some ids
      → (js : List ℕ) × (w.dir_children d ≡ some js)
  list_kept dir more v w d ids e h = elim (Bool-cases (d == dir)) [
    | inl f ↦
        let same : d ≡ dir = ground arith in
        (e.ids, subst (λ k. w.dir_children k ≡ some e.ids) (sym same) e.listed)
    | inr f ↦ (ids, e.grows.lists_kept d (λ k. absurd (ground arith)) ∙ h)
  ]

module _ (engine : Engine) (width : ℕ)
    (narrow : (oid : List ℕ) → length (tree_entries engine oid) ≤ width) (from_dir : ℕ)
    (from_name : List ℕ) (to_dir : ℕ) (to_name : List ℕ) where
  rename-OnOk :
      (id : ℕ) (node : VfsNode) (v : VfsManager)
      → IsValid v
      → v.next_inode + width + width < u64_mod
      → AreApart engine from_dir from_name to_dir to_name id node
      → v.child_map from_dir from_name ≡ some id
      → v.nodes id ≡ some node
      → node.is_deleted ≡ false
      → OnOk
          (λ u. Moved engine from_dir from_name to_dir to_name id node)
          (rename engine from_dir from_name to_dir to_name v)
  unfolding rename child_entry
  rename-OnOk id node v valid room apart found has alive =
      elim (ensure_cases engine v from_dir width valid (omega arith)
        (has_room engine width narrow v from_dir width room)) [
          | inr (x, e) ↦ rw e tt
          | inl (w, e) ↦
              elim (ensure_cases engine w to_dir 0 e.grows.valid (omega (arith, e.spare))
                (has_room engine width narrow w to_dir 0 (omega (arith, e.spare)))) [
                  | inr (x, f) ↦ rw (e.result, f) tt
                  | inl (z, f) ↦
                      let (ids, listed) = list_kept engine to_dir 0 w z from_dir e.ids f e.listed in
                      let there =
                        child_kept engine to_dir 0 w z from_dir from_name id f
                          (child_kept engine from_dir width v w from_dir from_name id e found) in
                      let still = f.grows.nodes_kept id node (e.grows.nodes_kept id node has) in
                      rw (e.result, f.result, entry z there still)
                        (replaced-Moved engine from_dir from_name to_dir to_name id node z ids f.ids
                          f.grows.valid apart there still alive listed f.listed)
                ]
        ]
    where
      entry :
          (z : VfsManager)
          → z.child_map from_dir from_name ≡ some id
          → z.nodes id ≡ some node
          → child_entry from_dir from_name z ≡ ok (id, node)
      entry z there still = rw (there, still, child_entry) refl

  -- A live file or directory that is renamed to another place is found there and no longer at the old
  -- one, and keeps its id, blob, mode and size; what stood at the new place does not matter. The tables
  -- are valid, the child is known, and inode numbers are left for two directories.
  pub rename-Moved :
      (id : ℕ) (node : VfsNode) (v w : VfsManager)
      → IsValid v
      → v.next_inode + width + width < u64_mod
      → AreApart engine from_dir from_name to_dir to_name id node
      → v.child_map from_dir from_name ≡ some id
      → v.nodes id ≡ some node
      → node.is_deleted ≡ false
      → rename engine from_dir from_name to_dir to_name v ≡ (ok tt, w)
      → Moved engine from_dir from_name to_dir to_name id node w
  rename-Moved id node v w valid room apart found has alive =
      OnOk-holds (λ u. Moved engine from_dir from_name to_dir to_name id node) _ tt w
        (rename-OnOk id node v valid room apart found has alive)
