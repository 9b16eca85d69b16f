-- ===== src/Git/Builder/Written.antt =====
-- src/git/builder.rs and src/git/tree.rs: the parser reads back the tree that the loop over the children writes.
use git_nfs.Prelude.{
  ℕ, ◌≡◌, ap, sym, ◌∙◌, subst, Bool, true, false, ◌&&◌, Option-cases, some, inl, inr, List, [], ◌∷◌,
  ◌++◌, All, map, length, append_assoc, append-nil, ok,
}
use git_nfs.Prelude.Exec.{pure, OnOk, OnOk-bind, OnOk-holds, OnOk-weaken}
use git_nfs.Prelude.Assoc.{contains}
use git_nfs.Text.{Lacks}
use git_nfs.Text.Utf8.{is_utf8}
use git_nfs.Git.Tree.{Hex, GitTreeEntry, parse}
use git_nfs.Git.Tree.RoundTrip.{IsNamed, AreEntries, raw_tree, parse-raw_tree}
use git_nfs.Staging.{StagingStore}
use git_nfs.Vfs.State.{VfsNode, Engine}
use git_nfs.Git.Builder.{Build, Builder, raw_entry, entry_bytes, raw_children}

module _ (hex : Hex) (sha1 : List ℕ → List ℕ) (engine : Engine) (staging : StagingStore)
    (rebuild : ℕ → Builder (List ℕ)) (dirty : List ℕ) where
  -- The empty text, or one that decodes to 20 bytes, which encode to it, if it decodes.
  abbrev pub IsOid : List ℕ → Type 0
  IsOid [] = Unit
  IsOid (c ∷ cs) =
      (sha : List ℕ)
      → hex.decode (c ∷ cs) ≡ some sha
      → (length sha ≡ 20) × (hex.encode sha ≡ c ∷ cs)

  -- A child that a tree can hold.
  pub record IsChild (child : VfsNode) : Type 0 where
    pub named : IsNamed child.mode
    pub lacks : Lacks 0 child.name
    pub utf8 : is_utf8 child.name ≡ true
    pub is_oid : IsOid child.oid

  -- The object of a child: that of its tree, made anew, if it is a changed directory, else the one it has.
  abbrev pub Takes : Bool → VfsNode → List ℕ → Type 0
  Takes true child oid = (b : Build) × (t : Build) × (rebuild child.id b ≡ (ok oid, t))
  Takes false child oid = child.oid ≡ oid

  abbrev pub is_changed : VfsNode → Bool
  is_changed child = child.is_dir && contains child.id dirty

  -- The entries of a tree follow the children, each with its mode, its name and its object. A child without
  -- an object has no entry.
  pub data Follows : List VfsNode → List GitTreeEntry → Type 0 where
    nothing : Follows [] []
    skips :
        {child : VfsNode} {children : List VfsNode} {entries : List GitTreeEntry}
        → Takes (is_changed child) child []
        → Follows children entries
        → Follows (child ∷ children) entries
    writes :
        {child : VfsNode} {children : List VfsNode} {entries : List GitTreeEntry} {oid : List ℕ}
        → Takes (is_changed child) child oid
        → Follows children entries
        → Follows
            (child ∷ children)
            (record { mode = child.mode; name = child.name; oid = oid } ∷ entries)

  abbrev Pairs : Type 0
  Pairs = List (GitTreeEntry × List ℕ)

  -- What is written behind `before`.
  abbrev Wrote : List VfsNode → List ℕ → List ℕ → Build → Type 0
  Wrote children before raw t =
      (pairs : Pairs) × (raw ≡ before ++ raw_tree pairs)
      × AreEntries hex pairs
      × Follows children (map (λ e. e.0) pairs)

  abbrev pub GivesOids : Type 0
  GivesOids = (id : ℕ) (b : Build) → OnOk (λ oid t. IsOid oid) (rebuild id b)

  abbrev taken : Bool → VfsNode → Builder (List ℕ)
  taken changed child = elim changed [ true ↦ rebuild child.id | false ↦ pure child.oid ]

  taken-Takes :
      (changed : Bool) (child : VfsNode) (oid : List ℕ) (b t : Build)
      → GivesOids
      → IsOid child.oid
      → taken changed child b ≡ (ok oid, t)
      → Takes changed child oid × IsOid oid
  taken-Takes true child oid b t gives own e =
      ((b, t, e), OnOk-holds (λ oid t. IsOid oid) (rebuild child.id b) oid t (gives child.id b) e)
  taken-Takes false child oid b t gives own e =
      let same : child.oid ≡ oid = cc in (same, subst IsOid same own)

  -- An entry behind the others.
  entry-Wrote :
      (child : VfsNode) (children : List VfsNode) (before oid bytes : List ℕ)
      → IsChild child
      → IsOid oid
      → Takes (is_changed child) child oid
      → entry_bytes hex sha1 engine staging child oid ≡ ok bytes
      → (raw : List ℕ) (t : Build) → Wrote children (before ++ bytes) raw t
      → Wrote (child ∷ children) before raw t
  unfolding entry_bytes raw_tree
  entry-Wrote child children before [] bytes good is_oid takes e raw t
        (pairs, same, entries, follows) =
      let none_written : [] ≡ bytes = cc in
      (
        pairs,
        same
            ∙ ap (λ x. (before ++ x) ++ raw_tree pairs) (sym none_written)
            ∙ ap (λ x. x ++ raw_tree pairs) (append-nil before),
        entries,
        skips takes follows,
      )
  entry-Wrote child children before (c ∷ cs) bytes good is_oid takes e raw t
        (pairs, same, entries, follows) =
      elim (Option-cases (hex.decode (c ∷ cs))) [
        | inl missing ↦ absurd (cc (rw (entry_bytes, missing) at e))
        | inr (sha, decoded) ↦
            let one : raw_entry child.mode child.name sha ≡ bytes =
              cc (rw (entry_bytes, decoded) at e) in
            let entry : GitTreeEntry = record {
              mode = child.mode;
              name = child.name;
              oid = c ∷ cs;
            } in
            (
              (entry, sha) ∷ pairs,
              same
                  ∙ append_assoc before bytes (raw_tree pairs)
                  ∙ ap (λ x. before ++ (x ++ raw_tree pairs)) (sym one),
              (
                record {
                  named = good.named;
                  lacks = good.lacks;
                  utf8 = good.utf8;
                  length_sha = (is_oid sha decoded).0;
                  encoded = (is_oid sha decoded).1;
                },
                entries,
              ),
              writes takes follows,
            )
      ]

  raw_children-Wrote :
      (children : List VfsNode) (before : List ℕ) (b : Build)
      → GivesOids
      → All IsChild children
      → OnOk
          (Wrote children before)
          (raw_children hex sha1 engine staging rebuild dirty children before b)
  unfolding raw_children raw_tree
  raw_children-Wrote [] before b gives good = ([], sym (append-nil before), tt, nothing)
  raw_children-Wrote (child ∷ children) before b gives (here, good) =
      OnOk-bind (Wrote (child ∷ children) before) (taken (is_changed child) child) _ b (λ oid t e.
        let (takes, is_oid) = taken-Takes (is_changed child) child oid b t gives here.is_oid e in
        OnOk-bind (Wrote (child ∷ children) before)
          (λ b. (entry_bytes hex sha1 engine staging child oid, b)) _ t
          (λ bytes u f.
            OnOk-weaken (Wrote children (before ++ bytes)) (Wrote (child ∷ children) before) _
              (entry-Wrote child children before oid bytes here is_oid takes (cc f))
              (raw_children-Wrote children (before ++ bytes) u gives good)))

  -- The raw tree that the loop over the children of a directory writes parses to an entry for each child in
  -- their order, with its mode, its name and its object: the one it has, or the one that its rebuilding gives
  -- if it is a changed directory. A child without an object has no entry. It needs modes of the five named
  -- kinds, names that are text without a zero byte, and object names that, if they decode, decode to 20 bytes
  -- which encode to them.
  pub parse-raw_children :
      (children : List VfsNode) (raw : List ℕ) (b t : Build)
      → raw_children hex sha1 engine staging rebuild dirty children [] b ≡ (ok raw, t)
      → GivesOids
      → All IsChild children
      → (entries : List GitTreeEntry) × (parse hex raw ≡ ok (record { entries = entries }))
        × Follows children entries
  parse-raw_children children raw b t e gives good =
      let (pairs, same, entries, follows) =
        OnOk-holds (Wrote children []) _ raw t (raw_children-Wrote children [] b gives good) e in
      (map (λ e. e.0) pairs, ap (parse hex) same ∙ parse-raw_tree hex pairs entries, follows)
