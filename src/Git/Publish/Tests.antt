-- ===== src/Git/Publish/Tests.antt =====
-- An upload at concrete inputs, and the text files for clients over HTTP.
use git_nfs.Prelude.{
  ℕ, ◌≡◌, ◌⊎◌, refl, true, Option, none, some, List, [], ◌∷◌, replicate, Result, ok, err, str_eq,
  arith, if◌then◌else◌,
}
use git_nfs.Text.{ascii, split}
use git_nfs.Text.Words.{ends_with}
use git_nfs.Text.{starts_with}
use git_nfs.Git.Builder.{compare}
use git_nfs.Cache.Block.{last_piece}
use git_nfs.Git.Refs.{
  resolve_head, sort_refs, insert_by_name, ref_lines, format_info_refs, sorted_packs, insert_name,
  pack_line, format_info_packs,
}
use git_nfs.Git.Publish.{
  Repo, PublishError, Outcome, written, failed, write_failed, write_rapid_object, write_local,
  load_indexes, refresh_pack_indexes, update_server_info, update_refs, write_completed_commit,
}
use git_nfs.Git.Publish.Order.{IsThere, RefsUnchanged, write_completed_commit-IsThere}
use git_nfs.Git.Publish.Resolved.{resolve_head-write_completed_commit}

abbrev list : (List ℕ → Option (List ℕ)) → List ℕ → Option (List (List ℕ))
list bucket prefix = some []

abbrev empty : Repo
empty = record { bucket = λ n. none; local_files = λ n. none; pack_indexes = [] }

-- The write of the branch fails, and leaves half of the commit's name.
abbrev branch_fails : List ℕ → List ℕ → Outcome
branch_fails name content =
    if str_eq name (ascii "r/refs/heads/b") then failed (some (replicate 20 b'a')) else written

abbrev broken : Result PublishError (Unit {0}) × Repo
broken =
    write_completed_commit (ascii "r/") (λ s. s) branch_fails list true (replicate 40 b'a')
      (ascii "1") (5 ∷ []) (6 ∷ []) (some (ascii "b")) empty

broken_run : broken.0 ≡ err (write_failed (ascii "r/refs/heads/b"))
unfolding write_completed_commit write_rapid_object write_local update_refs str_eq
broken_run = refl

write_completed_commit-IsThere_example :
    IsThere (ascii "r/") (λ s. s) branch_fails list true (ascii "1") (5 ∷ []) (6 ∷ []) broken.1
    ⊎ RefsUnchanged (ascii "r/") (λ s. s) branch_fails list true (some (ascii "b")) empty broken.1
write_completed_commit-IsThere_example =
    write_completed_commit-IsThere (ascii "r/") (λ s. s) branch_fails list true (replicate 40 b'a')
      (ascii "1") (5 ∷ []) (6 ∷ []) (some (ascii "b")) empty

abbrev done : Result PublishError (Unit {0}) × Repo
done =
    write_completed_commit (ascii "r/") (λ s. s) (λ n c. written) list true (replicate 40 b'a')
      (ascii "1") (5 ∷ []) (6 ∷ []) (some (ascii "b")) empty

done_run : done ≡ (ok tt, done.1)
unfolding write_completed_commit write_rapid_object write_local update_refs refresh_pack_indexes
    load_indexes update_server_info
done_run = refl

resolve_head-write_completed_commit_example :
    (resolve_head (ascii "r/") (λ s. s) done.1.bucket none
      ≡ ok (replicate 40 b'a', ascii "refs/heads/b"))
    × (resolve_head (ascii "r/") (λ s. s) done.1.bucket (some (ascii "b"))
        ≡ ok (replicate 40 b'a', ascii "b"))
resolve_head-write_completed_commit_example =
    resolve_head-write_completed_commit (ascii "r/") (λ s. s) (λ n c. written) list true
      (replicate 40 b'a') (ascii "1") (5 ∷ []) (6 ∷ []) (ascii "b") empty done.1 done_run
      (λ s h. refl) refl (omega arith) (omega arith)

-- The examples of the source.
info_refs_run :
    format_info_refs (
      (ascii "refs/tags/v", (ascii "2", some (ascii "3")))
      ∷ (ascii "refs/heads/f", (ascii "4", none))
      ∷ [])
    ≡ ascii "4\trefs/heads/f\n2\trefs/tags/v\n3\trefs/tags/v^{}\n"
unfolding format_info_refs sort_refs insert_by_name compare ref_lines
info_refs_run = refl

info_packs_run :
    format_info_packs
      (ascii "objects/pack/b.pack" ∷ ascii "a.pack" ∷ ascii "b.pack" ∷ ascii "ignored.idx" ∷ [])
    ≡ ascii "P a.pack\nP b.pack\n\n"
unfolding format_info_packs sorted_packs insert_name compare pack_line ends_with starts_with
    last_piece split
info_packs_run = refl
