-- ===== src/Vfs/Inode/Names.antt =====
-- What a name finds after a file is made, removed or moved.
use git_nfs.Prelude.{ℕ, ◌≡◌, refl, true, false, none, some}
use git_nfs.Prelude.{List, [], str_eq, str_eq_self}
use git_nfs.Prelude.{arith, Bool-cases, Option-cases, Result-cases, inl, inr, ok, err}
use git_nfs.Prelude.Exec.{OnOk, OnOk-bind, OnOk-holds}
use git_nfs.Text.{ascii}
use git_nfs.Git.Tree.{TreeEntryMode}
use git_nfs.Vfs.State.{VfsNode, VfsManager, Engine, child_not_found, find_child, get_node, live}
use git_nfs.Vfs.State.{
  attach, create_new, child_entry, detach, drop_child, set_node, set_children, without, fresh_node,
}
use git_nfs.Vfs.Inode.{ensure_dir_populated, lookup, lookup_child, create_file, mkdir, remove}
use git_nfs.Vfs.Inode.Population.{ensure_listed, ensure_ok}

-- Not `.` and not `..`, which `lookup` takes for itself.
abbrev pub IsPlain : List ℕ → Type 0
IsPlain name = (str_eq name (ascii ".") ≡ false) × (str_eq name (ascii "..") ≡ false)

pub live_child :
    (v : VfsManager) (dir : ℕ) (name : List ℕ) (id : ℕ) (node : VfsNode)
    → v.child_map dir name ≡ some id
    → v.nodes id ≡ some node
    → node.is_deleted ≡ false
    → find_child v dir name ≡ some id
unfolding find_child get_node live
live_child v dir name id node found has alive = rw (found, has, find_child, get_node) (ground arith)

pub find_child-inv :
    (v : VfsManager) (dir : ℕ) (name : List ℕ) (id : ℕ)
    → find_child v dir name ≡ some id
    → (v.child_map dir name ≡ some id)
      × ((node : VfsNode) × (v.nodes id ≡ some node) × (node.is_deleted ≡ false))
unfolding find_child get_node live
find_child-inv v dir name id h = elim (Option-cases (v.child_map dir name)) [
  | inl e ↦ absurd (ground arith)
  | inr (j, e) ↦ elim (Option-cases (v.nodes j)) [
    | inl f ↦ absurd (ground arith)
    | inr (node, f) ↦ elim (Bool-cases node.is_deleted) [
      | inl g ↦ absurd (ground arith)
      | inr g ↦ (ground arith, (node, ground arith, g))
    ]
  ]
]

module _ (engine : Engine) where
  pub lookup_found :
      (v : VfsManager) (dir : ℕ) (name : List ℕ) (id : ℕ)
      → IsPlain name
      → find_child v dir name ≡ some id
      → lookup engine dir name v ≡ (ok id, v)
  unfolding lookup lookup_child
  lookup_found v dir name id plain found = rw (plain.0, plain.1, found, lookup_child) refl

  pub lookup_missing :
      (v : VfsManager) (dir : ℕ) (name : List ℕ) (ids : List ℕ)
      → IsPlain name
      → v.child_map dir name ≡ none
      → v.dir_children dir ≡ some ids
      → lookup engine dir name v ≡ (err child_not_found, v)
  unfolding lookup lookup_child find_child
  lookup_missing v dir name ids plain gone listed =
      rw (plain.0, plain.1, gone, lookup_child, find_child, ensure_listed engine dir ids v listed)
        (rw (gone, find_child) refl)

  -- The name finds the node, which is there and not deleted.
  pub record Finds (v : VfsManager) (dir : ℕ) (name : List ℕ) (node : VfsNode) : Type 0 where
    pub id : ℕ
    pub found : lookup engine dir name v ≡ (ok id, v)
    pub has : get_node v id ≡ some node

  Finds-live :
      (v : VfsManager) (dir : ℕ) (name : List ℕ) (id : ℕ) (node : VfsNode)
      → IsPlain name
      → v.child_map dir name ≡ some id
      → v.nodes id ≡ some node
      → node.is_deleted ≡ false
      → Finds v dir name node
  unfolding get_node live
  Finds-live v dir name id node plain found has alive = record {
    id = id;
    found = lookup_found v dir name id plain (live_child v dir name id node found has alive);
    has = rw (has, get_node, live) (ground arith);
  }

  attach-Finds :
      (dir : ℕ) (name : List ℕ) (v : VfsManager) (node : VfsNode)
      → IsPlain name
      → node.is_deleted ≡ false
      → Finds (attach dir name node v) dir name node
  unfolding attach
  attach-Finds dir name v node plain alive =
      Finds-live _ dir name node.id node plain (ground (arith, str_eq_self name)) (ground arith)
        alive

  abbrev Created : ℕ → List ℕ → VfsNode → VfsManager → Type 0
  Created dir name node v = Finds v dir name node

  abbrev Made : ℕ → List ℕ → VfsNode → VfsManager → Type 0
  Made dir name node v = Finds v dir name node × (v.dir_children node.id ≡ some [])

  abbrev Gone : ℕ → List ℕ → VfsNode → VfsManager → Type 0
  Gone dir name node v =
      (lookup engine dir name v ≡ (err child_not_found, v)) × (node.is_deleted ≡ true)

  create_new-Created :
      (dir : ℕ) (name : List ℕ) (mode : TreeEntryMode) (v : VfsManager)
      → IsPlain name
      → OnOk (Created dir name) (create_new dir name mode v)
  unfolding create_new
  create_new-Created dir name mode v plain =
      attach-Finds dir name v (fresh_node v.next_inode dir name mode false 0) plain refl

  create_file-Created :
      (dir : ℕ) (name : List ℕ) (mode : TreeEntryMode) (v : VfsManager)
      → IsPlain name
      → OnOk (Created dir name) (create_file engine dir name mode v)
  unfolding create_file
  create_file-Created dir name mode v plain =
      OnOk-bind (Created dir name) (ensure_dir_populated engine dir) _ v λ u w e.
        elim (Option-cases (w.child_map dir name)) [
          | inl f ↦ rw f (create_new-Created dir name mode w plain)
          | inr (id, f) ↦ elim (Option-cases (w.nodes id)) [
            | inl g ↦ rw (f, g) (create_new-Created dir name mode w plain)
            | inr (old, g) ↦
                let node = record old { is_deleted = false; size = 0 } in
                rw (f, g)
                  (Finds-live (set_node id node w) dir name id node plain f (ground arith) refl)
          ]
        ]

  -- A file that is created is found under its name, alive, and as `create_file` returned it.
  pub create_file-Finds :
      (dir : ℕ) (name : List ℕ) (mode : TreeEntryMode) (v w : VfsManager) (node : VfsNode)
      → IsPlain name
      → create_file engine dir name mode v ≡ (ok node, w)
      → Finds w dir name node
  create_file-Finds dir name mode v w node plain =
      OnOk-holds (Created dir name) _ node w (create_file-Created dir name mode v plain)

  mkdir-Made :
      (dir : ℕ) (name : List ℕ) (v : VfsManager)
      → IsPlain name
      → OnOk (Made dir name) (mkdir engine dir name v)
  unfolding mkdir
  mkdir-Made dir name v plain =
      OnOk-bind (Made dir name) (ensure_dir_populated engine dir) _ v λ u w e.
        let node = fresh_node w.next_inode dir name TreeEntryMode.directory true 4096 in
        let z = set_children w.next_inode [] (attach dir name node w) in
        (
          Finds-live z dir name node.id node plain
              (unfold attach in ground (arith, str_eq_self name)) (unfold attach in ground arith)
              refl,
          ground arith,
        )

  -- A directory that is made is found under its name, alive, as `mkdir` returned it, and empty.
  pub mkdir-Finds :
      (dir : ℕ) (name : List ℕ) (v w : VfsManager) (node : VfsNode)
      → IsPlain name
      → mkdir engine dir name v ≡ (ok node, w)
      → Finds w dir name node × (w.dir_children node.id ≡ some [])
  mkdir-Finds dir name v w node plain =
      OnOk-holds (Made dir name) _ node w (mkdir-Made dir name v plain)

  detach_lem :
      (dir : ℕ) (name : List ℕ) (id : ℕ) (node : VfsNode) (v : VfsManager) (ids : List ℕ)
      → v.dir_children dir ≡ some ids
      → ((detach dir name id node v).child_map dir name ≡ none)
        × ((detach dir name id node v).dir_children dir ≡ some (without id ids))
  unfolding detach
  detach_lem dir name id node v ids listed =
      rw (listed, drop_child) (ground (arith, str_eq_self name), ground arith)

  remove-Gone :
      (dir : ℕ) (name : List ℕ) (v : VfsManager)
      → IsPlain name
      → OnOk (Gone dir name) (remove engine dir name v)
  unfolding remove
  remove-Gone dir name v plain =
      OnOk-bind (Gone dir name) (ensure_dir_populated engine dir) _ v λ u w e.
        let (ids, listed) = ensure_ok engine dir v w e in
        elim (Result-cases (child_entry dir name w)) [
          | inl ((id, node), f) ↦
              let (gone, rest) = detach_lem dir name id node w ids listed in
              rw f (lookup_missing _ dir name (without id ids) plain gone rest, refl)
          | inr (x, f) ↦ rw f tt
        ]

  -- A name that was removed is not found any more: its directory is not read from the tree again.
  pub remove-lookup :
      (dir : ℕ) (name : List ℕ) (v w : VfsManager) (node : VfsNode)
      → IsPlain name
      → remove engine dir name v ≡ (ok node, w)
      → (lookup engine dir name w ≡ (err child_not_found, w)) × (node.is_deleted ≡ true)
  remove-lookup dir name v w node plain =
      OnOk-holds (Gone dir name) _ node w (remove-Gone dir name v plain)
