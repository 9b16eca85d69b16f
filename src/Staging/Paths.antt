-- ===== src/Staging/Paths.antt =====
-- Noting a changed path touches nothing but the set of changed paths.
use git_nfs.Prelude.{ℕ, ◌≡◌, refl, Bool-cases, inl, inr, List, [], ◌∷◌}
use git_nfs.Text.{trim, trim_matches}
use git_nfs.Staging.{StagingStore, record_changed_path, add_path, contains_path}

add_path-eq :
    (s : StagingStore) (path : List ℕ)
    → add_path s path ≡ record s { changed_paths = (add_path s path).changed_paths }
unfolding add_path
add_path-eq s [] = refl
add_path-eq s (c ∷ cs) = elim (Bool-cases (contains_path (c ∷ cs) s.changed_paths)) [
  | inl e ↦ rw e refl
  | inr e ↦ rw e refl
]

pub record_changed_path-eq :
    (s : StagingStore) (path : List ℕ)
    → record_changed_path s path
      ≡ record s { changed_paths = (record_changed_path s path).changed_paths }
unfolding record_changed_path
record_changed_path-eq s path = add_path-eq s (trim_matches b'/' (trim path))
