-- ===== src/Git/Publish.antt =====
-- src/git/gcs_storage.rs: the upload of a commit. A write of an object succeeds or fails, by the parameter `outcome`, and one that
-- fails leaves anything under the object's name. `list` is the listing of the bucket.
pub mod Keeps
pub mod Order
pub mod Resolved
pub mod Updated
mod Tests
use git_nfs.Prelude.{ℕ, Bool, true, false, not, Option, none, some, List, [], ◌∷◌, ◌++◌, map}
use git_nfs.Prelude.{◌==◌, str_eq, if◌then◌else◌, length, take, ◌-◌, Result, ok, err}
use git_nfs.Prelude.Exec.{Exec, pure, raise, ◌>>=◌, ◌>>◌}
use git_nfs.Text.{ascii, trim}
use git_nfs.Text.Words.{lines, ends_with, strip_prefix}
use git_nfs.Git.Idx.{PackIndex, IndexError, parse}
use git_nfs.Git.Refs.{
  RefMap, insert_ref, lookup_ref, packed_lines, format_info_refs, format_info_packs, basename,
}

pub data PublishError : Type 0 where
  write_failed list_failed read_failed : List ℕ → PublishError
  bad_index : IndexError → PublishError

-- What a write that fails leaves of the object.
pub data Outcome : Type 0 where
  written : Outcome
  failed : Option (List ℕ) → Outcome

-- The bucket, the files of the cache directory, and the indexes in memory.
pub record Repo : Type 0 where
  pub bucket : List ℕ → Option (List ℕ)
  pub local_files : List ℕ → Option (List ℕ)
  pub pack_indexes : List PackIndex

abbrev pub put : List ℕ → Option (List ℕ) → (List ℕ → Option (List ℕ)) → List ℕ → Option (List ℕ)
put name content files n = if str_eq name n then content else files n

abbrev pub Publishing {ℓ} : Type ℓ → Type ℓ
Publishing A = Exec Repo PublishError A

unfoldable pub contains_name : List ℕ → List PackIndex → Bool
contains_name name [] = false
contains_name name (idx ∷ indexes) =
    let rest = contains_name name indexes in if str_eq idx.pack_name name then true else rest

abbrev pub pack_object_name : List ℕ → List ℕ
pack_object_name name = take (length name - 4) name ++ ascii ".pack"

abbrev pub peeled_of : Option (List ℕ × Option (List ℕ)) → Option (List ℕ)
peeled_of none = none
peeled_of (some e) = e.1

abbrev pub pack_file : List ℕ → List ℕ
pack_file pack_sha = ascii "objects/pack/pack-" ++ pack_sha ++ ascii ".pack"

abbrev pub idx_file : List ℕ → List ℕ
idx_file pack_sha = ascii "objects/pack/pack-" ++ pack_sha ++ ascii ".idx"

abbrev pub branch_or_master : Option (List ℕ) → List ℕ
branch_or_master (some branch) = branch
branch_or_master none = ascii "master"

module _ (prefix : List ℕ) (lossy : List ℕ → List ℕ) (outcome : List ℕ → List ℕ → Outcome)
    (list : (List ℕ → Option (List ℕ)) → List ℕ → Option (List (List ℕ)))
    (local_writes : Bool) where
  unfoldable pub write_rapid_object : List ℕ → List ℕ → Publishing (Unit {0})
  write_rapid_object object_name content r = elim (outcome object_name content) [
    | written ↦ (ok tt, record r { bucket = put object_name (some content) r.bucket })
    | failed left ↦
        (err (write_failed object_name), record r { bucket = put object_name left r.bucket })
  ]

  -- `let _ = fs::write(...)` in the cache directory.
  unfoldable pub write_local : List ℕ → List ℕ → Publishing (Unit {0})
  write_local path content r = (
    ok tt,
    if local_writes then record r { local_files = put path (some content) r.local_files } else r,
  )

  -- The indexes that are not in memory yet.
  unfoldable pub load_indexes :
      List PackIndex → List (List ℕ) → Repo → Result PublishError (List PackIndex)
  load_indexes loaded [] r = ok []
  load_indexes loaded (name ∷ names) r =
      let rest = load_indexes loaded names r in
      if not (ends_with name (ascii ".idx"))
      then rest
      else if contains_name (pack_object_name name) loaded
      then rest
      else elim (r.bucket name) [
        | none ↦ err (read_failed name)
        | some bytes ↦ elim (parse (pack_object_name name) bytes) [
          | err e ↦ err (bad_index e)
          | ok idx ↦ elim rest [ err e ↦ err e | ok indexes ↦ ok (idx ∷ indexes) ]
        ]
      ]

  unfoldable pub refresh_pack_indexes : Publishing (Unit {0})
  refresh_pack_indexes r = elim (list r.bucket (prefix ++ ascii "objects/pack/")) [
    | none ↦ (err (list_failed (prefix ++ ascii "objects/pack/")), r)
    | some names ↦ elim (load_indexes r.pack_indexes names r) [
      | err e ↦ (err e, r)
      | ok indexes ↦ (ok tt, record r { pack_indexes = r.pack_indexes ++ indexes })
    ]
  ]

  unfoldable pub packed_refs : Repo → RefMap
  packed_refs r = elim (r.bucket (prefix ++ ascii "packed-refs")) [
    | none ↦ []
    | some bytes ↦ packed_lines (lines (lossy bytes)) ([], none)
  ]

  -- A reference in a file of its own goes before a packed one.
  unfoldable pub loose_ref : Repo → List ℕ → RefMap → RefMap
  loose_ref r obj_name refs = elim (strip_prefix obj_name prefix) [
    | none ↦ refs
    | some ref_name ↦ elim (r.bucket obj_name) [
      | none ↦ refs
      | some bytes ↦
          let sha = trim (lossy bytes) in
          if length sha == 40
          then insert_ref ref_name (sha, peeled_of (lookup_ref ref_name refs)) refs
          else refs
    ]
  ]

  unfoldable pub loose_refs : Repo → List (List ℕ) → RefMap → RefMap
  loose_refs r [] refs = refs
  loose_refs r (name ∷ names) refs = loose_refs r names (loose_ref r name refs)

  unfoldable pub collect_refs : List ℕ → List ℕ → Repo → RefMap
  collect_refs target_branch new_commit_oid r =
      insert_ref (ascii "refs/heads/" ++ target_branch) (new_commit_oid, none)
        (elim (list r.bucket (prefix ++ ascii "refs/")) [
          | none ↦ packed_refs r
          | some names ↦ loose_refs r names (packed_refs r)
        ])

  unfoldable pub pack_basenames : List (List ℕ) → List (List ℕ)
  pack_basenames [] = []
  pack_basenames (name ∷ names) =
      let rest = pack_basenames names in
      if ends_with name (ascii ".pack") then basename name ∷ rest else rest

  unfoldable pub collect_packs : Repo → List (List ℕ)
  collect_packs r =
      map (λ (idx : PackIndex). basename idx.pack_name) r.pack_indexes
      ++ elim (list r.bucket (prefix ++ ascii "objects/pack/")) [
        | none ↦ []
        | some names ↦ pack_basenames names
      ]

  unfoldable pub update_server_info : List ℕ → List ℕ → Publishing (Unit {0})
  update_server_info target_branch new_commit_oid = do
    info_refs ← λ r. (ok (format_info_refs (collect_refs target_branch new_commit_oid r)), r)
    write_rapid_object (prefix ++ ascii "info/refs") info_refs
    write_local (ascii "info/refs") info_refs
    info_packs ← λ r. (ok (format_info_packs (collect_packs r)), r)
    write_rapid_object (prefix ++ ascii "objects/info/packs") info_packs
    write_local (ascii "objects/info/packs") info_packs

  -- `HEAD` names the branch, and the branch the commit.
  unfoldable pub update_refs : List ℕ → List ℕ → Publishing (Unit {0})
  update_refs commit_oid target_branch = do
    let head_payload = ascii "ref: refs/heads/" ++ target_branch ++ ascii "\n"
    let commit_payload = commit_oid ++ ascii "\n"
    write_rapid_object (prefix ++ ascii "HEAD") head_payload
    write_local (ascii "HEAD") head_payload
    write_rapid_object (prefix ++ (ascii "refs/heads/" ++ target_branch)) commit_payload
    write_local (ascii "refs/heads/" ++ target_branch) commit_payload

  -- The pack, then its index, then the references, then the files for clients over HTTP.
  unfoldable pub write_completed_commit :
      List ℕ → List ℕ → List ℕ → List ℕ → Option (List ℕ) → Publishing (Unit {0})
  write_completed_commit commit_oid pack_sha pack_data idx_data branch = do
    write_rapid_object (prefix ++ pack_file pack_sha) pack_data
    write_rapid_object (prefix ++ idx_file pack_sha) idx_data
    write_local (pack_file pack_sha) pack_data
    write_local (idx_file pack_sha) idx_data
    update_refs commit_oid (branch_or_master branch)
    refresh_pack_indexes
    update_server_info (branch_or_master branch) commit_oid
