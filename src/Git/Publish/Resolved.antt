-- ===== src/Git/Publish/Resolved.antt =====
-- src/git/gcs_storage.rs: the repository resolves to the commit that was uploaded.
use git_nfs.Prelude.{
  ℕ, ◌<◌, ◌≡◌, refl, ap, ◌∙◌, Bool, Option, none, some, List, [], ◌∷◌, ◌++◌, All, All-append,
  length, Result, ok, arith,
}
use git_nfs.Prelude.Exec.{OnOk-holds}
use git_nfs.Text.{ascii, starts_with, trim}
use git_nfs.Text.Words.{trim_text}
use git_nfs.Text.Trim.{IsPlain, trim-plain, trim-line}
use git_nfs.Git.Refs.{RefError, read_ref, follow_head, read_head, resolve_head}
use git_nfs.Git.Publish.{Repo, Outcome, write_completed_commit}
use git_nfs.Git.Publish.Updated.{Done, write_completed_commit-Updated}

-- `from_utf8_lossy` leaves ASCII alone.
abbrev pub KeepsAscii : (List ℕ → List ℕ) → Type 0
KeepsAscii lossy = (s : List ℕ) → All (λ b. b < 128) s → lossy s ≡ s

plain-ascii : (s : List ℕ) → All IsPlain s → All (λ b. b < 128) s
plain-ascii [] h = tt
plain-ascii (b ∷ s) (h, hs) = (omega arith, plain-ascii s hs)

line-ascii : (s : List ℕ) → All (λ b. b < 128) s → All (λ b. b < 128) (s ++ b'\n' ∷ [])
line-ascii s h = All-append (λ b. b < 128) s (b'\n' ∷ []) h (omega arith, tt)

module _ (prefix : List ℕ) (lossy : List ℕ → List ℕ) (remote : List ℕ → Option (List ℕ))
    (keeps : KeepsAscii lossy) where
  trim-oid :
      (oid : List ℕ) → length oid ≡ 40 → All IsPlain oid → trim (lossy (oid ++ b'\n' ∷ [])) ≡ oid
  trim-oid [] long h = absurd (omega arith)
  trim-oid (x ∷ oid) long h =
      ap trim (keeps _ (line-ascii (x ∷ oid) (plain-ascii (x ∷ oid) h)))
      ∙ trim-line [] (x ∷ oid) oid x refl h.0 h (λ e. cc e)

  read_ref-stored :
      (name oid : List ℕ)
      → remote (prefix ++ name) ≡ some (oid ++ b'\n' ∷ [])
      → length oid ≡ 40
      → All IsPlain oid
      → read_ref prefix lossy remote name ≡ some oid
  unfolding read_ref
  read_ref-stored name oid stored long h = rw (read_ref, stored, trim-oid oid long h, long) refl

  follow_head-branch :
      (branch oid : List ℕ)
      → read_ref prefix lossy remote (ascii "refs/heads/" ++ branch) ≡ some oid
      → trim (ascii "refs/heads/" ++ branch) ≡ ascii "refs/heads/" ++ branch
      → follow_head prefix lossy remote (ascii "ref: refs/heads/" ++ branch)
        ≡ ok (oid, ascii "refs/heads/" ++ branch)
  unfolding follow_head trim_text starts_with
  follow_head-branch branch oid found name =
      rw (name, found)
        (ap {A = List ℕ} {B = Result RefError (List ℕ × List ℕ)} (λ n. ok (oid, n)) name)

  read_head-stored :
      (branch oid : List ℕ)
      → remote (prefix ++ ascii "HEAD") ≡ some (ascii "ref: refs/heads/" ++ branch ++ ascii "\n")
      → read_ref prefix lossy remote (ascii "refs/heads/" ++ branch) ≡ some oid
      → All IsPlain branch
      → read_head prefix lossy remote ≡ ok (oid, ascii "refs/heads/" ++ branch)
  unfolding read_head
  read_head-stored branch oid stored found h =
      let line = ascii "ref: refs/heads/" ++ branch in
      let end : All IsPlain (b'/' ∷ branch) = (omega arith, h) in
      let front : All (λ b. b < 128) (ascii "ref: refs/heads") = omega arith in
      let read : trim (lossy (line ++ b'\n' ∷ [])) ≡ line =
        ap trim (
          keeps _ (
            line-ascii line (
              All-append (λ b. b < 128) (ascii "ref: refs/heads") (b'/' ∷ branch) front
                (plain-ascii (b'/' ∷ branch) end))))
        ∙ trim-line (ascii "ref: refs/heads") (b'/' ∷ branch) _ b'r' refl (omega arith) end
            (λ e. cc e) in
      let name =
        trim-plain (ascii "refs/heads") (b'/' ∷ branch) _ b'r' refl (omega arith) end (λ e. cc e) in
      rw (read_head, stored)
        (ap (follow_head prefix lossy remote) read ∙ follow_head-branch branch oid found name)

-- After an upload that succeeds, a later start resolves both `HEAD` and the branch to the commit, for a commit with a name of 40 characters and a branch
-- without spaces, both in ASCII.
pub resolve_head-write_completed_commit :
    (prefix : List ℕ) (lossy : List ℕ → List ℕ) (outcome : List ℕ → List ℕ → Outcome)
    (list : (List ℕ → Option (List ℕ)) → List ℕ → Option (List (List ℕ))) (local_writes : Bool)
    (commit_oid pack_sha pack_data idx_data branch : List ℕ) (r t : Repo)
    → write_completed_commit prefix lossy outcome list local_writes commit_oid pack_sha pack_data
        idx_data
        (some branch)
        r
      ≡ (ok tt, t)
    → KeepsAscii lossy
    → length commit_oid ≡ 40
    → All IsPlain commit_oid
    → All IsPlain branch
    → (resolve_head prefix lossy t.bucket none ≡ ok (commit_oid, ascii "refs/heads/" ++ branch))
      × (resolve_head prefix lossy t.bucket (some branch) ≡ ok (commit_oid, branch))
unfolding resolve_head
resolve_head-write_completed_commit prefix lossy outcome list local_writes commit_oid pack_sha
      pack_data idx_data branch r t e keeps long plain named =
    let (head, stored) =
      OnOk-holds (Done prefix lossy outcome list local_writes commit_oid branch) _ tt t
        (write_completed_commit-Updated prefix lossy outcome list local_writes commit_oid pack_sha
          pack_data idx_data (some branch) r)
        e in
    let found =
      read_ref-stored prefix lossy t.bucket keeps (ascii "refs/heads/" ++ branch) commit_oid stored
        long plain in
    (
      read_head-stored prefix lossy t.bucket keeps branch commit_oid head found named,
      rw (resolve_head, found) refl,
    )
