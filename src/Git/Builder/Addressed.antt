-- ===== src/Git/Builder/Addressed.antt =====
-- Every object of a commit stands under the hash of its content.
use git_nfs.Prelude.{
  ℕ, zero, suc, ◌≡◌, refl, Bool, true, false, ◌&&◌, Bool-cases, Option-cases, Result-cases, none,
  some, inl, inr, ◌⊎◌, List, [], ◌∷◌, ◌++◌, All, str_eq, Result, ok, err,
}
use git_nfs.Prelude.Exec.{pure, continue, ◌>>=◌, OnOk, OnOk-bind, OnOk-holds}
use git_nfs.Prelude.Assoc.{contains}
use git_nfs.Text.{trim}
use git_nfs.Git.Tree.{Hex}
use git_nfs.Git.Objects.{tree, commit, compute_git_sha1}
use git_nfs.Staging.{StagingStore, get_staged_content, list_staged_nodes}
use git_nfs.Vfs.Filter.{is_apple_metadata}
use git_nfs.Vfs.State.{VfsNode, VfsManager, Engine, VfsError, get_node, root_inode}
use git_nfs.Vfs.Inode.{list_dir}
use git_nfs.Git.Builder.{
  Build, BuildError, list_failed, Builder, GitObjectToPack, insert_object, build_blobs,
  list_children, finish_tree, entry_bytes, raw_children, rebuild_tree_recursive, rebuild_trees,
  dirty_dirs, sort_children, valid_children,
}
use git_nfs.Git.CommitMessage.{HashOrder}
use git_nfs.Git.Builder.Commit.{
  Commit, finish_commit, rebuild_git_objects, message_or_generated, commit_content,
}

module _ (hex : Hex) (sha1 : List ℕ → List ℕ) (engine : Engine) (staging : StagingStore) where
  abbrev pub IsAddressed : GitObjectToPack → Type 0
  IsAddressed o = o.oid ≡ compute_git_sha1 hex sha1 o.obj_type o.content

  abbrev pub Addressed : Build → Type 0
  Addressed b = All IsAddressed b.new_objects

  insert_object-All :
      (o : GitObjectToPack) (objects : List GitObjectToPack)
      → IsAddressed o
      → All IsAddressed objects
      → All IsAddressed (insert_object o objects)
  unfolding insert_object
  insert_object-All o [] h hs = (h, tt)
  insert_object-All o (p ∷ objects) h hs = elim (Bool-cases (str_eq p.oid o.oid)) [
    | inl e ↦ rw (insert_object, e) (h, hs.1)
    | inr e ↦ rw (insert_object, e) (hs.0, insert_object-All o objects h hs.1)
  ]

  -- A part of the build that keeps the objects so.
  abbrev Keeps {ℓ} : {A : Type ℓ} → Builder A → Type 0
  Keeps m = (b : Build) → Addressed b → OnOk (λ a t. Addressed t) (m b)

  Keeps-bind :
      {A : Type 0} {B : Type 0} (m : Builder A) (f : A → Builder B)
      → Keeps m
      → ((a : A) → Keeps (f a))
      → Keeps (m >>= f)
  Keeps-bind m f hm hf b h =
      OnOk-bind (λ a t. Addressed t) m f b
        (λ a t e. hf a t (OnOk-holds (λ a t. Addressed t) (m b) a t (hm b h) e))

  list_children-Keeps : (dir : ℕ) → Keeps (list_children hex sha1 engine staging dir)
  list_children-Keeps dir b h = go (list_dir engine dir b.vfs).0
    where
      go :
          (r : Result VfsError (List VfsNode))
          → OnOk {S = Build} {E = BuildError} {A = List VfsNode}
              (λ a t. Addressed t)
              (
                elim r [ ok children ↦ ok children | err _ ↦ err list_failed ],
                record b { vfs = (list_dir engine dir b.vfs).1 },
              )
      go (ok children) = h
      go (err e) = tt

  -- A value or an error that changes nothing.
  lift-Keeps : {A : Type 0} (r : Build → Result BuildError A) → Keeps (λ b. (r b, b))
  lift-Keeps {A = A} r b h = go (r b)
    where
      go : (q : Result BuildError A) → OnOk (λ (a : A) (t : Build). Addressed t) (q, b)
      go (ok a) = h
      go (err e) = tt

  finish_tree-Keeps : (raw_tree : List ℕ) → Keeps (finish_tree hex sha1 engine staging raw_tree)
  unfolding finish_tree
  finish_tree-Keeps raw_tree b h =
      let tree_sha = compute_git_sha1 hex sha1 tree raw_tree in
      elim (Option-cases (engine.get_tree tree_sha)) [
        | inl e ↦ rw (finish_tree, e) (insert_object-All _ b.new_objects refl h)
        | inr (t, e) ↦ rw (finish_tree, e) h
      ]

  -- The name of a child's object.
  abbrev child_tree : (ℕ → Builder (List ℕ)) → List ℕ → VfsNode → Builder (List ℕ)
  child_tree rebuild dirty child = elim (child.is_dir && contains child.id dirty) [
    | true ↦ rebuild child.id
    | false ↦ pure child.oid
  ]

  child_tree-Keeps :
      (rebuild : ℕ → Builder (List ℕ)) (dirty : List ℕ) (child : VfsNode)
      → ((id : ℕ) → Keeps (rebuild id))
      → Keeps (child_tree rebuild dirty child)
  child_tree-Keeps rebuild dirty child k = go (child.is_dir && contains child.id dirty)
    where
      go : (t : Bool) → Keeps (elim t [ true ↦ rebuild child.id | false ↦ pure child.oid ])
      go true = k child.id
      go false = λ b h. h

  raw_children-Keeps :
      (rebuild : ℕ → Builder (List ℕ)) (dirty : List ℕ) (children : List VfsNode)
      (raw_tree : List ℕ)
      → ((id : ℕ) → Keeps (rebuild id))
      → Keeps (raw_children hex sha1 engine staging rebuild dirty children raw_tree)
  unfolding raw_children
  raw_children-Keeps rebuild dirty [] raw_tree k = λ b h. h
  raw_children-Keeps rebuild dirty (child ∷ children) raw_tree k =
      Keeps-bind (child_tree rebuild dirty child) _ (child_tree-Keeps rebuild dirty child k)
        (λ child_oid.
          Keeps-bind (λ b. (entry_bytes hex sha1 engine staging child child_oid, b)) _
            (lift-Keeps (λ b. entry_bytes hex sha1 engine staging child child_oid))
            (λ bytes. raw_children-Keeps rebuild dirty children (raw_tree ++ bytes) k))

  rebuild_tree_recursive-Keeps :
      (fuel : ℕ) (dirty : List ℕ) (dir : ℕ)
      → Keeps (rebuild_tree_recursive hex sha1 engine staging fuel dirty dir)
  unfolding rebuild_tree_recursive
  rebuild_tree_recursive-Keeps zero dirty dir = λ b h. tt
  rebuild_tree_recursive-Keeps (suc fuel) dirty dir =
      Keeps-bind (list_children hex sha1 engine staging dir) _ (list_children-Keeps dir)
        (λ children.
          Keeps-bind
            (raw_children hex sha1 engine staging
              (λ id. rebuild_tree_recursive hex sha1 engine staging fuel dirty id) dirty
              (sort_children (valid_children staging children)) [])
            (λ raw_tree. finish_tree hex sha1 engine staging raw_tree)
            (raw_children-Keeps _ dirty _ [] (λ id. rebuild_tree_recursive-Keeps fuel dirty id))
            finish_tree-Keeps)

  build_blobs-Keeps : (ids : List ℕ) → Keeps (build_blobs hex sha1 engine staging ids)
  unfolding build_blobs
  build_blobs-Keeps [] b h = h
  build_blobs-Keeps (id ∷ ids) b h = elim (Option-cases (get_node b.vfs id)) [
    | inl e ↦ rw (build_blobs, e) (build_blobs-Keeps ids b h)
    | inr (node, e) ↦ elim (Bool-cases (is_apple_metadata node.name)) [
      | inl f ↦ rw (build_blobs, e, f) (build_blobs-Keeps ids b h)
      | inr f ↦ elim (Result-cases (get_staged_content staging id)) [
        | inr (x, g) ↦ rw (build_blobs, e, f, g) tt
        | inl (none, g) ↦ rw (build_blobs, e, f, g) (build_blobs-Keeps ids b h)
        | inl (some content, g) ↦
            rw (build_blobs, e, f, g)
              (build_blobs-Keeps ids _ (insert_object-All _ b.new_objects refl h))
      ]
    ]
  ]

  rebuild_trees-Keeps : (fuel : ℕ) → Keeps (rebuild_trees hex sha1 engine staging fuel)
  unfolding rebuild_trees
  rebuild_trees-Keeps fuel =
      Keeps-bind (build_blobs hex sha1 engine staging (list_staged_nodes staging)) _
        (build_blobs-Keeps (list_staged_nodes staging))
        (λ u b h. rebuild_tree_recursive-Keeps fuel (dirty_dirs b.vfs staging) root_inode b h)

  -- An object stands among the objects.
  abbrev pub Has : GitObjectToPack → List GitObjectToPack → Type 0
  Has o [] = ⊥
  Has o (p ∷ objects) = (p ≡ o) ⊎ Has o objects

  insert_object-Has :
      (o : GitObjectToPack) (objects : List GitObjectToPack) → Has o (insert_object o objects)
  unfolding insert_object
  insert_object-Has o [] = inl refl
  insert_object-Has o (p ∷ objects) = elim (Bool-cases (str_eq p.oid o.oid)) [
    | inl e ↦ rw (insert_object, e) (inl refl)
    | inr e ↦ rw (insert_object, e) (inr (insert_object-Has o objects))
  ]

  -- The commit object, with the root tree, the message and the labels in its content.
  abbrev pub HasCommit : HashOrder → ℕ → List ℕ → List ℕ → List ℕ → Commit → Build → Type 0
  HasCommit iter timestamp base author message c t =
      (m : List ℕ) × (message_or_generated iter message (trim message) t.vfs staging ≡ ok m)
      × Has
          (record {
            oid = c.oid;
            obj_type = commit;
            content = commit_content c.root_tree_oid base author timestamp m;
          })
          c.objects

  -- A commit that is built from nothing: every object in it stands under the hash of its own type and
  -- content, and the commit object is one of them. It stands under the name of the commit, and its content
  -- names the root tree, the base, the author, the time and the message: the one given, or the one that is
  -- made of the changed paths.
  pub rebuild_git_objects-Addressed :
      (iter : HashOrder) (fuel timestamp : ℕ) (base author message : List ℕ) (vfs : VfsManager)
      (c : Commit) (t : Build)
      → rebuild_git_objects hex sha1 engine staging iter fuel timestamp base author message
          (record { vfs = vfs; new_objects = [] })
        ≡ (ok c, t)
      → All IsAddressed c.objects × HasCommit iter timestamp base author message c t
  unfolding rebuild_git_objects finish_commit rebuild_trees
  rebuild_git_objects-Addressed iter fuel timestamp base author message vfs c t =
      OnOk-holds Q _ c t (
        OnOk-bind Q trees _ start (λ root u e. labelled root u (
          OnOk-holds (λ r v. Addressed v) (trees start) root u (rebuild_trees-Keeps fuel start tt)
            e)))
    where
      start : Build
      start = record { vfs = vfs; new_objects = [] }

      trees : Builder (List ℕ)
      trees = rebuild_trees hex sha1 engine staging fuel

      Q : Commit → Build → Type 0
      Q k v = All IsAddressed k.objects × HasCommit iter timestamp base author message k v

      labelled :
          (root : List ℕ) (u : Build)
          → Addressed u
          → OnOk Q (
              continue
                (message_or_generated iter message (trim message) u.vfs staging)
                (λ m.
                  finish_commit hex sha1 engine staging root
                    (commit_content root base author timestamp m))
                u)
      labelled root u h = go (message_or_generated iter message (trim message) u.vfs staging) refl
        where
          go :
              (r : Result BuildError (List ℕ))
              → message_or_generated iter message (trim message) u.vfs staging ≡ r
              → OnOk Q (
                  continue r
                    (λ m.
                      finish_commit hex sha1 engine staging root
                        (commit_content root base author timestamp m))
                    u)
          go (ok m) e =
              (insert_object-All _ u.new_objects refl h, (m, e, insert_object-Has _ u.new_objects))
          go (err x) e = tt
