-- ===== src/Staging/Valid.antt =====
-- The bookkeeping agrees with the staging directory, after any calls.
use mathlib.Core.Option
use git_nfs.Prelude.{ℕ, ◌≡◌, refl, Option, none, some, List, [], ◌∷◌, length, arith}
use git_nfs.Prelude.{◌==◌, ok, Option-cases, inl, inr, Bool-cases}
use git_nfs.Prelude.Assoc.{lookup, insert, lookup-insert}
use git_nfs.Staging.{
  StagingStore, new, create_file, write_at, truncate, mark_deleted, reset, set_len,
}
use git_nfs.Staging.{record_changed_path, get_staged_content, get_size, is_staged, base_content}
use git_nfs.Staging.{update, write_bytes, add_path, contains_path}
use git_nfs.Staging.Content.{length-set_len}

-- A staged node has a file, of the recorded size.
pub record IsValid (s : StagingStore) : Type 0 where
  pub backed :
      (id size : ℕ)
      → lookup id s.staged_nodes ≡ some size
      → (file : List ℕ) × (s.files id ≡ some file) × (length file ≡ size)

-- The calls that change the store.
pub data Call : Type 0 where
  creates : ℕ → Call
  writes : ℕ → ℕ → List ℕ → Option (List ℕ) → Call
  truncates : ℕ → ℕ → Option (List ℕ) → Call
  deletes : ℕ → Call
  records : List ℕ → Call
  resets : Call

abbrev pub perform : StagingStore → Call → StagingStore
perform s (creates id) = create_file s id
perform s (writes id offset bytes base) = (write_at s id offset bytes base).0
perform s (truncates id size base) = truncate s id size base
perform s (deletes id) = mark_deleted s id
perform s (records path) = record_changed_path s path
perform s resets = reset s

abbrev pub perform_all : StagingStore → List Call → StagingStore
perform_all s [] = s
perform_all s (c ∷ cs) = perform_all (perform s c) cs

-- Putting a file and its length under one node keeps the agreement.
stage-IsValid :
    (s : StagingStore) (id size : ℕ) (file : List ℕ)
    → length file ≡ size
    → IsValid s
    → IsValid
        (record s { files = update s.files id file; staged_nodes = insert id size s.staged_nodes })
stage-IsValid s id size file same v = record { backed = λ j n found. backed j n found }
  where
    backed :
        (j n : ℕ)
        → lookup j (insert id size s.staged_nodes) ≡ some n
        → (f : List ℕ) × (update s.files id file j ≡ some f) × (length f ≡ n)
    backed j n found = elim (Bool-cases (id == j)) [
      | inl e ↦ (file, rw e, ground (arith, lookup-insert id j size s.staged_nodes))
      | inr e ↦
          let old : lookup j s.staged_nodes ≡ some n =
            ground (arith, lookup-insert id j size s.staged_nodes) in
          let (f, has, length_f) = v.backed j n old in (f, rw e has, length_f)
    ]

add_path-IsValid : (s : StagingStore) (clean : List ℕ) → IsValid s → IsValid (add_path s clean)
unfolding add_path
add_path-IsValid s [] v = v
add_path-IsValid s (b ∷ bs) v = elim (Bool-cases (contains_path (b ∷ bs) s.changed_paths)) [
  | inl e ↦ rw e v
  | inr e ↦ rw e (record { backed = v.backed })
]

perform-IsValid : (s : StagingStore) (c : Call) → IsValid s → IsValid (perform s c)
perform-IsValid s (creates id) v = unfold create_file in stage-IsValid s id 0 [] refl v
perform-IsValid s (writes id offset bytes base) v =
    unfold write_at in
    stage-IsValid s id _ (write_bytes (base_content s id base) offset bytes) refl v
perform-IsValid s (truncates id size base) v =
    unfold truncate in
    stage-IsValid s id size (set_len (base_content s id base) size) (length-set_len _ size) v
perform-IsValid s (deletes id) v = unfold mark_deleted in record { backed = v.backed }
perform-IsValid s (records path) v = unfold record_changed_path in add_path-IsValid s _ v
perform-IsValid s resets v = unfold reset lookup in record { backed = λ id n found. cc }

perform_all-IsValid : (s : StagingStore) (cs : List Call) → IsValid s → IsValid (perform_all s cs)
perform_all-IsValid s [] v = v
perform_all-IsValid s (c ∷ cs) v = perform_all-IsValid (perform s c) cs (perform-IsValid s c v)

-- After any calls on a new store the content of a node can be read without an error, and the
-- recorded size is the length of that content; a node that is not staged has neither.
pub get_staged_content_lem :
    (cs : List Call) (id : ℕ)
    → let s = perform_all new cs in
      (content : Option (List ℕ)) × (get_staged_content s id ≡ ok content)
      × (get_size s id ≡ Option.map length content)
unfolding get_staged_content get_size is_staged
get_staged_content_lem cs id =
    let s = perform_all new cs in
    let v = perform_all-IsValid new cs (record { backed = λ j n found. unfold lookup in cc }) in
    elim (Option-cases (lookup id s.staged_nodes)) [
      | inl e ↦ (none, ground arith, ground arith)
      | inr (size, e) ↦
          let (file, has, length_file) = v.backed id size e in
          (some file, ground arith, ground arith)
    ]
