-- ===== src/Git/Publish/Updated.antt =====
-- src/git/gcs_storage.rs: what an upload that succeeds leaves under `HEAD` and under the branch.
use git_nfs.Prelude.{
  ℕ, ◌≡◌, refl, ◌∙◌, Bool, false, Option, some, List, ◌++◌, Result, ok, err, str_eq, str_eq_self,
  inl, inr,
}
use git_nfs.Prelude.Exec.{OnOk, OnOk-bind, OnOk-holds, ◌>>=◌, ◌>>◌}
use git_nfs.Text.{ascii}
use git_nfs.Git.Publish.{
  Repo, PublishError, Outcome, Publishing, pack_file, idx_file, branch_or_master,
  write_rapid_object, write_local, refresh_pack_indexes, update_server_info, update_refs,
  write_completed_commit,
}
use git_nfs.Git.Publish.Keeps.{
  Outcome-cases, Keeps, write_rapid_object-Keeps, write_local-Keeps, refresh_pack_indexes-Keeps,
  update_server_info-Keeps,
}
use git_nfs.Git.Publish.Order.{other_name}

-- What stands in the bucket under a name.
abbrev pub Stores : List ℕ → List ℕ → Repo → Type 0
Stores name content r = r.bucket name ≡ some content

module _ (prefix : List ℕ) (lossy : List ℕ → List ℕ) (outcome : List ℕ → List ℕ → Outcome)
    (list : (List ℕ → Option (List ℕ)) → List ℕ → Option (List (List ℕ))) (local_writes : Bool)
    (commit_oid target : List ℕ) where
  abbrev pub head_name : List ℕ
  head_name = prefix ++ ascii "HEAD"

  abbrev pub head_payload : List ℕ
  head_payload = ascii "ref: refs/heads/" ++ target ++ ascii "\n"

  abbrev pub ref_name : List ℕ
  ref_name = prefix ++ (ascii "refs/heads/" ++ target)

  abbrev pub commit_payload : List ℕ
  commit_payload = commit_oid ++ ascii "\n"

  abbrev pub Updated : {A : Type 0} → A → Repo → Type 0
  Updated a t = Stores head_name head_payload t × Stores ref_name commit_payload t

  write_rapid_object-Stores :
      (name content : List ℕ) (r : Repo)
      → OnOk
          (λ u t. Stores name content t)
          (write_rapid_object prefix lossy outcome list local_writes name content r)
  unfolding write_rapid_object
  write_rapid_object-Stores name content r = elim (Outcome-cases (outcome name content)) [
    | inl e ↦ rw (write_rapid_object, e, str_eq_self name) refl
    | inr (left, e) ↦ rw (write_rapid_object, e) tt
  ]

  -- A step that keeps an object keeps what stands there.
  Keeps-Stores :
      {A : Type 0} (n content : List ℕ) (m : Publishing A) (r : Repo)
      → Keeps n m
      → Stores n content r
      → OnOk {S = Repo} {E = PublishError} {A = A} (λ a t. Stores n content t) (m r)
  Keeps-Stores {A} n content m r k h = go (m r) (k.kept r ∙ h)
    where
      go :
          (o : Result PublishError A × Repo)
          → Stores n content o.1
          → OnOk {S = Repo} {E = PublishError} {A = A} (λ a t. Stores n content t) o
      go (ok a, t) h = h
      go (err e, t) h = tt

  OnOk-both :
      {A : Type 0} (P Q : A → Repo → Type 0) (o : Result PublishError A × Repo)
      → OnOk P o
      → OnOk Q o
      → OnOk (λ a t. P a t × Q a t) o
  OnOk-both P Q (ok a, t) p q = (p, q)
  OnOk-both P Q (err e, t) p q = tt

  OnOk-then :
      {A B : Type 0} (P : A → Repo → Type 0) (Q : B → Repo → Type 0) (m : Publishing A)
      (f : A → Publishing B) (r : Repo)
      → OnOk P (m r)
      → ((a : A) (t : Repo) → P a t → OnOk Q (f a t))
      → OnOk Q ((m >>= f) r)
  OnOk-then P Q m f r h next = OnOk-bind Q m f r (λ a t e. next a t (OnOk-holds P (m r) a t h e))

  Keeps-Updated :
      {A : Type 0} (m : Publishing A) (r : Repo)
      → Keeps head_name m
      → Keeps ref_name m
      → Updated tt r
      → OnOk {S = Repo} {E = PublishError} {A = A} (λ a t. Updated tt t) (m r)
  Keeps-Updated {A} m r k l (h, g) =
      OnOk-both {A = A} (λ a t. Stores head_name head_payload t)
        (λ a t. Stores ref_name commit_payload t) (m r)
        (Keeps-Stores head_name head_payload m r k h) (Keeps-Stores ref_name commit_payload m r l g)

  abbrev write : List ℕ → List ℕ → Publishing (Unit {0})
  write = write_rapid_object prefix lossy outcome list local_writes

  abbrev store : List ℕ → List ℕ → Publishing (Unit {0})
  store = write_local prefix lossy outcome list local_writes

  abbrev pub Done : Unit {0} → Repo → Type 0
  Done u t = Updated tt t

  abbrev HeadDone : Unit {0} → Repo → Type 0
  HeadDone u t = Stores head_name head_payload t

  update_refs-Updated :
      (r : Repo)
      → OnOk Done (update_refs prefix lossy outcome list local_writes commit_oid target r)
  unfolding update_refs str_eq
  update_refs-Updated r =
      OnOk-then HeadDone Done (write head_name head_payload) _ r
        (write_rapid_object-Stores head_name head_payload r)
        (λ u t h.
          OnOk-then HeadDone Done (store (ascii "HEAD") head_payload) _ t
            (Keeps-Stores head_name head_payload (store (ascii "HEAD") head_payload) t
              (write_local-Keeps head_name prefix lossy outcome list local_writes (ascii "HEAD")
                head_payload)
              h)
            (λ u t h.
              OnOk-then Done Done (write ref_name commit_payload) _ t
                (OnOk-both HeadDone (λ u t. Stores ref_name commit_payload t)
                  (write ref_name commit_payload t)
                  (Keeps-Stores head_name head_payload (write ref_name commit_payload) t
                    (write_rapid_object-Keeps head_name prefix lossy outcome list local_writes
                      ref_name commit_payload
                      (other_name prefix lossy outcome list local_writes
                        (ascii "refs/heads/" ++ target) (ascii "HEAD") refl))
                    h)
                  (write_rapid_object-Stores ref_name commit_payload t))
                (λ u t h.
                  Keeps-Updated (store (ascii "refs/heads/" ++ target) commit_payload) t
                    (write_local-Keeps head_name prefix lossy outcome list local_writes
                      (ascii "refs/heads/" ++ target) commit_payload)
                    (write_local-Keeps ref_name prefix lossy outcome list local_writes
                      (ascii "refs/heads/" ++ target) commit_payload)
                    h)))

  server_info-Keeps :
      (s : List ℕ)
      → str_eq (ascii "info/refs") s ≡ false
      → str_eq (ascii "objects/info/packs") s ≡ false
      → Keeps
          (prefix ++ s)
          (update_server_info prefix lossy outcome list local_writes target commit_oid)
  server_info-Keeps s a b =
      update_server_info-Keeps (prefix ++ s) prefix lossy outcome list local_writes target
        commit_oid (other_name prefix lossy outcome list local_writes (ascii "info/refs") s a)
        (other_name prefix lossy outcome list local_writes (ascii "objects/info/packs") s b)

  after_refs-Updated :
      (r : Repo)
      → Done tt r
      → OnOk Done (
          (refresh_pack_indexes prefix lossy outcome list local_writes
              >> update_server_info prefix lossy outcome list local_writes target commit_oid)
            r)
  unfolding str_eq
  after_refs-Updated r h =
      OnOk-then Done Done (refresh_pack_indexes prefix lossy outcome list local_writes)
        (λ u. update_server_info prefix lossy outcome list local_writes target commit_oid) r
        (Keeps-Updated (refresh_pack_indexes prefix lossy outcome list local_writes) r
          (refresh_pack_indexes-Keeps head_name prefix lossy outcome list local_writes)
          (refresh_pack_indexes-Keeps ref_name prefix lossy outcome list local_writes) h)
        (λ u t g.
          Keeps-Updated
            (update_server_info prefix lossy outcome list local_writes target commit_oid) t
            (server_info-Keeps (ascii "HEAD") refl refl)
            (server_info-Keeps (ascii "refs/heads/" ++ target) refl refl) g)

pub write_completed_commit-Updated :
    (prefix : List ℕ) (lossy : List ℕ → List ℕ) (outcome : List ℕ → List ℕ → Outcome)
    (list : (List ℕ → Option (List ℕ)) → List ℕ → Option (List (List ℕ))) (local_writes : Bool)
    (commit_oid pack_sha pack_data idx_data : List ℕ) (branch : Option (List ℕ)) (r : Repo)
    → OnOk (Done prefix lossy outcome list local_writes commit_oid (branch_or_master branch)) (
        write_completed_commit prefix lossy outcome list local_writes commit_oid pack_sha pack_data
          idx_data branch r)
unfolding write_completed_commit
write_completed_commit-Updated prefix lossy outcome list local_writes commit_oid pack_sha pack_data
      idx_data branch r =
    let D = Done prefix lossy outcome list local_writes commit_oid (branch_or_master branch) in
    OnOk-bind D
      (write_rapid_object prefix lossy outcome list local_writes (prefix ++ pack_file pack_sha)
        pack_data)
      _ r
      (λ u t e.
        OnOk-bind D
          (write_rapid_object prefix lossy outcome list local_writes (prefix ++ idx_file pack_sha)
            idx_data)
          _ t
          (λ u t e.
            OnOk-bind D
              (write_local prefix lossy outcome list local_writes (pack_file pack_sha) pack_data) _
              t
              (λ u t e.
                OnOk-bind D
                  (write_local prefix lossy outcome list local_writes (idx_file pack_sha) idx_data)
                  _ t
                  (λ u t e.
                    OnOk-then prefix lossy outcome list local_writes commit_oid
                      (branch_or_master branch) D D
                      (update_refs prefix lossy outcome list local_writes commit_oid
                        (branch_or_master branch))
                      _ t
                      (update_refs-Updated prefix lossy outcome list local_writes commit_oid
                        (branch_or_master branch) t)
                      (λ u t h.
                        after_refs-Updated prefix lossy outcome list local_writes commit_oid
                          (branch_or_master branch) t h)))))
