-- ===== src/Git/Publish/Keeps.antt =====
-- The objects of the bucket that a step of the upload leaves alone.
use git_nfs.Prelude.{
  ℕ, ◌≡◌, refl, ap, ◌∙◌, sym, Bool, false, Bool-cases, Option-cases, inl, inr, ◌⊎◌, Option, List,
  [], ◌∷◌, ◌++◌, Result, ok, err, Result-cases, str_eq, ==_self,
}
use git_nfs.Prelude.Exec.{continue, ◌>>=◌}
use git_nfs.Text.{ascii}
use git_nfs.Git.Publish.{
  Repo, PublishError, Outcome, written, failed, Publishing, write_rapid_object, write_local,
  load_indexes, refresh_pack_indexes, update_server_info, collect_refs, collect_packs,
}
use git_nfs.Git.Refs.{format_info_refs, format_info_packs}

-- Names with the same beginning differ as their ends do.
pub str_eq-append : (p s t : List ℕ) → str_eq (p ++ s) (p ++ t) ≡ str_eq s t
unfolding str_eq
str_eq-append [] s t = refl
str_eq-append (x ∷ p) s t = rw (==_self x) (str_eq-append p s t)

pub Outcome-cases : (o : Outcome) → (o ≡ written) ⊎ ((left : Option (List ℕ)) × (o ≡ failed left))
Outcome-cases written = inl refl
Outcome-cases (failed left) = inr (left, refl)

module _ (n : List ℕ) where
  -- Whether a step succeeds or fails, the object named `n` is as before.
  pub record Keeps {A : Type 0} (m : Publishing A) : Type 0 where
    pub kept : (r : Repo) → (m r).1.bucket n ≡ r.bucket n

  pub Keeps-bind :
      {A B : Type 0} (m : Publishing A) (f : A → Publishing B)
      → Keeps m
      → ((a : A) → Keeps (f a))
      → Keeps (m >>= f)
  Keeps-bind {A} {B} m f k ks = record { kept = λ r. go r (m r) refl }
    where
      go :
          (r : Repo) (o : Result PublishError A × Repo)
          → m r ≡ o
          → (continue o.0 f o.1).1.bucket n ≡ r.bucket n
      go r (ok a, t) e =
          (ks a).kept t ∙ ap (λ (x : Result PublishError A × Repo). x.1.bucket n) (sym e) ∙ k.kept r
      go r (err x, t) e = ap (λ (x : Result PublishError A × Repo). x.1.bucket n) (sym e) ∙ k.kept r

  module _ (prefix : List ℕ) (lossy : List ℕ → List ℕ) (outcome : List ℕ → List ℕ → Outcome)
      (list : (List ℕ → Option (List ℕ)) → List ℕ → Option (List (List ℕ)))
      (local_writes : Bool) where
    pub write_rapid_object-Keeps :
        (name content : List ℕ)
        → str_eq name n ≡ false
        → Keeps (write_rapid_object prefix lossy outcome list local_writes name content)
    unfolding write_rapid_object
    write_rapid_object-Keeps name content other = record {
      kept = λ r. elim (Outcome-cases (outcome name content)) [
        | inl e ↦ rw (write_rapid_object, e, other) refl
        | inr (left, e) ↦ rw (write_rapid_object, e, other) refl
      ];
    }

    pub write_local-Keeps :
        (path content : List ℕ)
        → Keeps (write_local prefix lossy outcome list local_writes path content)
    unfolding write_local
    write_local-Keeps path content = record {
      kept = λ r. elim (Bool-cases local_writes) [
        | inl e ↦ rw (write_local, e) refl
        | inr e ↦ rw (write_local, e) refl
      ];
    }

    pub refresh_pack_indexes-Keeps :
        Keeps (refresh_pack_indexes prefix lossy outcome list local_writes)
    unfolding refresh_pack_indexes
    refresh_pack_indexes-Keeps = record {
      kept = λ r. elim (Option-cases (list r.bucket (prefix ++ ascii "objects/pack/"))) [
        | inl e ↦ rw (refresh_pack_indexes, e) refl
        | inr (names, e) ↦
            elim (Result-cases
              (load_indexes prefix lossy outcome list local_writes r.pack_indexes names r)) [
                | inl (indexes, f) ↦ rw (refresh_pack_indexes, e, f) refl
                | inr (x, f) ↦ rw (refresh_pack_indexes, e, f) refl
              ]
      ];
    }

    pub update_server_info-Keeps :
        (target_branch new_commit_oid : List ℕ)
        → str_eq (prefix ++ ascii "info/refs") n ≡ false
        → str_eq (prefix ++ ascii "objects/info/packs") n ≡ false
        → Keeps
            (update_server_info prefix lossy outcome list local_writes target_branch new_commit_oid)
    unfolding update_server_info
    update_server_info-Keeps target_branch new_commit_oid other_refs other_packs =
        Keeps-bind
          (λ r. (
            ok (
                format_info_refs (
                  collect_refs prefix lossy outcome list local_writes target_branch new_commit_oid
                    r)),
            r,
          ))
          _ (record { kept = λ r. refl })
          (λ info_refs.
            Keeps-bind
              (write_rapid_object prefix lossy outcome list local_writes
                (prefix ++ ascii "info/refs") info_refs)
              _ (write_rapid_object-Keeps (prefix ++ ascii "info/refs") info_refs other_refs)
              (λ u.
                Keeps-bind
                  (write_local prefix lossy outcome list local_writes (ascii "info/refs") info_refs)
                  _ (write_local-Keeps (ascii "info/refs") info_refs)
                  (λ u.
                    Keeps-bind
                      (λ r. (
                        ok (
                            format_info_packs
                              (collect_packs prefix lossy outcome list local_writes r)),
                        r,
                      ))
                      _ (record { kept = λ r. refl })
                      (λ info_packs.
                        Keeps-bind
                          (write_rapid_object prefix lossy outcome list local_writes
                            (prefix ++ ascii "objects/info/packs") info_packs)
                          _
                          (write_rapid_object-Keeps (prefix ++ ascii "objects/info/packs")
                            info_packs other_packs)
                          (λ u. write_local-Keeps (ascii "objects/info/packs") info_packs)))))
