-- ===== src/Git/Publish/Order.antt =====
-- The order of the uploads: no reference names a commit whose pack is not there.
use git_nfs.Prelude.{
  ℕ, ◌≡◌, refl, ◌∙◌, Bool, false, inl, inr, ◌⊎◌, Option, some, List, ◌++◌, str_eq, str_eq_self,
}
use git_nfs.Prelude.Exec.{◌>>◌}
use git_nfs.Text.{ascii}
use git_nfs.Git.Publish.{
  Repo, Outcome, put, Publishing, pack_file, idx_file, branch_or_master, write_rapid_object,
  write_local, refresh_pack_indexes, update_server_info, update_refs, write_completed_commit,
}
use git_nfs.Git.Publish.Keeps.{
  str_eq-append, Outcome-cases, Keeps, Keeps-bind, write_rapid_object-Keeps, write_local-Keeps,
  refresh_pack_indexes-Keeps, update_server_info-Keeps,
}

module _ (prefix : List ℕ) (lossy : List ℕ → List ℕ) (outcome : List ℕ → List ℕ → Outcome)
    (list : (List ℕ → Option (List ℕ)) → List ℕ → Option (List (List ℕ)))
    (local_writes : Bool) where
  -- Names of the objects, with the beginning that they share.
  pub other_name : (s t : List ℕ) → str_eq s t ≡ false → str_eq (prefix ++ s) (prefix ++ t) ≡ false
  other_name s t e = str_eq-append prefix s t ∙ e

  idx-pack : (sha : List ℕ) → str_eq (idx_file sha) (pack_file sha) ≡ false
  unfolding str_eq
  idx-pack sha = str_eq-append sha (ascii ".idx") (ascii ".pack")

  -- What comes after the index leaves every object alone but those it is about.
  after_index :
      (commit_oid pack_sha pack_data idx_data : List ℕ) (branch : Option (List ℕ))
      → Publishing (Unit {0})
  after_index commit_oid pack_sha pack_data idx_data branch = do
    write_local prefix lossy outcome list local_writes (pack_file pack_sha) pack_data
    write_local prefix lossy outcome list local_writes (idx_file pack_sha) idx_data
    update_refs prefix lossy outcome list local_writes commit_oid (branch_or_master branch)
    refresh_pack_indexes prefix lossy outcome list local_writes
    update_server_info prefix lossy outcome list local_writes (branch_or_master branch) commit_oid

  update_refs-Keeps :
      (n commit_oid target : List ℕ)
      → str_eq (prefix ++ ascii "HEAD") n ≡ false
      → str_eq (prefix ++ (ascii "refs/heads/" ++ target)) n ≡ false
      → Keeps n (update_refs prefix lossy outcome list local_writes commit_oid target)
  unfolding update_refs
  update_refs-Keeps n commit_oid target no_head no_ref =
      let head_payload = ascii "ref: refs/heads/" ++ target ++ ascii "\n" in
      let commit_payload = commit_oid ++ ascii "\n" in
      Keeps-bind n
        (write_rapid_object prefix lossy outcome list local_writes (prefix ++ ascii "HEAD")
          head_payload)
        _ (write_rapid_object-Keeps n prefix lossy outcome list local_writes _ head_payload no_head)
        (λ u.
          Keeps-bind n
            (write_local prefix lossy outcome list local_writes (ascii "HEAD") head_payload) _
            (write_local-Keeps n prefix lossy outcome list local_writes (ascii "HEAD") head_payload)
            (λ u.
              Keeps-bind n
                (write_rapid_object prefix lossy outcome list local_writes
                  (prefix ++ (ascii "refs/heads/" ++ target)) commit_payload)
                _
                (write_rapid_object-Keeps n prefix lossy outcome list local_writes _ commit_payload
                  no_ref)
                (λ u.
                  write_local-Keeps n prefix lossy outcome list local_writes
                    (ascii "refs/heads/" ++ target) commit_payload)))

  after_index-Keeps :
      (n commit_oid pack_sha pack_data idx_data : List ℕ) (branch : Option (List ℕ))
      → str_eq (prefix ++ ascii "HEAD") n ≡ false
      → str_eq (prefix ++ (ascii "refs/heads/" ++ branch_or_master branch)) n ≡ false
      → str_eq (prefix ++ ascii "info/refs") n ≡ false
      → str_eq (prefix ++ ascii "objects/info/packs") n ≡ false
      → Keeps n (after_index commit_oid pack_sha pack_data idx_data branch)
  unfolding after_index
  after_index-Keeps n commit_oid pack_sha pack_data idx_data branch no_head no_ref no_info
        no_packs =
      Keeps-bind n
        (write_local prefix lossy outcome list local_writes (pack_file pack_sha) pack_data) _
        (write_local-Keeps n prefix lossy outcome list local_writes (pack_file pack_sha) pack_data)
        (λ u.
          Keeps-bind n
            (write_local prefix lossy outcome list local_writes (idx_file pack_sha) idx_data) _
            (write_local-Keeps n prefix lossy outcome list local_writes (idx_file pack_sha)
              idx_data)
            (λ u.
              Keeps-bind n
                (update_refs prefix lossy outcome list local_writes commit_oid
                  (branch_or_master branch))
                _ (update_refs-Keeps n commit_oid (branch_or_master branch) no_head no_ref)
                (λ u.
                  Keeps-bind n (refresh_pack_indexes prefix lossy outcome list local_writes) _
                    (refresh_pack_indexes-Keeps n prefix lossy outcome list local_writes)
                    (λ u.
                      update_server_info-Keeps n prefix lossy outcome list local_writes
                        (branch_or_master branch) commit_oid no_info no_packs))))

  -- The pack and its index stand in the bucket as they were made.
  abbrev pub IsThere : List ℕ → List ℕ → List ℕ → Repo → Type 0
  IsThere pack_sha pack_data idx_data r =
      (r.bucket (prefix ++ pack_file pack_sha) ≡ some pack_data)
      × (r.bucket (prefix ++ idx_file pack_sha) ≡ some idx_data)

  -- Neither `HEAD` nor the reference of the branch has changed.
  abbrev pub RefsUnchanged : Option (List ℕ) → Repo → Repo → Type 0
  RefsUnchanged branch r t =
      (t.bucket (prefix ++ ascii "HEAD") ≡ r.bucket (prefix ++ ascii "HEAD"))
      × (t.bucket (prefix ++ (ascii "refs/heads/" ++ branch_or_master branch))
          ≡ r.bucket (prefix ++ (ascii "refs/heads/" ++ branch_or_master branch)))

  put-other :
      (name n : List ℕ) (content : Option (List ℕ)) (files : List ℕ → Option (List ℕ))
      → str_eq name n ≡ false
      → put name content files n ≡ files n
  put-other name n content files e = rw e refl

  put_self :
      (name : List ℕ) (content : Option (List ℕ)) (files : List ℕ → Option (List ℕ))
      → put name content files name ≡ content
  put_self name content files = rw (str_eq_self name) refl

  -- However the upload of a commit ends, and whatever a write that fails leaves of its object, the pack and its index stand complete in the
  -- bucket, or neither `HEAD` nor the branch has changed.
  pub write_completed_commit-IsThere :
      (commit_oid pack_sha pack_data idx_data : List ℕ) (branch : Option (List ℕ)) (r : Repo)
      → IsThere pack_sha pack_data idx_data
          (write_completed_commit prefix lossy outcome list local_writes commit_oid pack_sha
            pack_data idx_data branch r).1
        ⊎ RefsUnchanged branch r
            (write_completed_commit prefix lossy outcome list local_writes commit_oid pack_sha
              pack_data idx_data branch r).1
  unfolding write_completed_commit write_rapid_object str_eq after_index
  write_completed_commit-IsThere commit_oid pack_sha pack_data idx_data branch r =
      elim (Outcome-cases (outcome pack_name pack_data)) [
        | inr (left, e) ↦ inr (
            rw (write_completed_commit, write_rapid_object, e)
              (
                put-other pack_name _ left r.bucket
                    (other_name (pack_file pack_sha) (ascii "HEAD") refl),
                put-other pack_name _ left r.bucket
                    (other_name (pack_file pack_sha) reference refl),
              ))
        | inl e ↦ elim (Outcome-cases (outcome idx_name idx_data)) [
          | inr (left, f) ↦ inr (
              rw (write_completed_commit, write_rapid_object, e, f)
                (
                  put-other idx_name _ left with_pack
                        (other_name (idx_file pack_sha) (ascii "HEAD") refl)
                      ∙ put-other pack_name _ (some pack_data) r.bucket
                          (other_name (pack_file pack_sha) (ascii "HEAD") refl),
                  put-other idx_name _ left with_pack
                        (other_name (idx_file pack_sha) reference refl)
                      ∙ put-other pack_name _ (some pack_data) r.bucket
                          (other_name (pack_file pack_sha) reference refl),
                ))
          | inl f ↦ inl (
              rw (write_completed_commit, write_rapid_object, e, f)
                (
                  (kept (pack_file pack_sha) refl refl refl refl).kept both
                      ∙ put-other idx_name pack_name (some idx_data) with_pack
                          (other_name (idx_file pack_sha) (pack_file pack_sha) (idx-pack pack_sha))
                      ∙ put_self pack_name (some pack_data) r.bucket,
                  (kept (idx_file pack_sha) refl refl refl refl).kept both
                      ∙ put_self idx_name (some idx_data) with_pack,
                ))
        ]
      ]
    where
      pack_name : List ℕ
      pack_name = prefix ++ pack_file pack_sha

      idx_name : List ℕ
      idx_name = prefix ++ idx_file pack_sha

      reference : List ℕ
      reference = ascii "refs/heads/" ++ branch_or_master branch

      with_pack : List ℕ → Option (List ℕ)
      with_pack = put pack_name (some pack_data) r.bucket

      both : Repo
      both = record r { bucket = put idx_name (some idx_data) with_pack }

      kept :
          (s : List ℕ)
          → str_eq (ascii "HEAD") s ≡ false
          → str_eq reference s ≡ false
          → str_eq (ascii "info/refs") s ≡ false
          → str_eq (ascii "objects/info/packs") s ≡ false
          → Keeps (prefix ++ s) (after_index commit_oid pack_sha pack_data idx_data branch)
      kept s a b c d =
          after_index-Keeps (prefix ++ s) commit_oid pack_sha pack_data idx_data branch
            (other_name (ascii "HEAD") s a) (other_name reference s b)
            (other_name (ascii "info/refs") s c) (other_name (ascii "objects/info/packs") s d)
