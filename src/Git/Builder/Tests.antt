-- ===== src/Git/Builder/Tests.antt =====
-- The order of entries at a concrete input.
use mathlib.Core.List.{Perm}
use git_nfs.Prelude.{
  ℕ, ◌≡◌, refl, Bool, true, false, none, some, List, [], ◌∷◌, length, All, Result, ok,
}
use git_nfs.Staging
use git_nfs.Staging.{StagingStore, write_at}
use git_nfs.Vfs.State.{VfsManager, Engine, new}
use git_nfs.Vfs.Inode
use git_nfs.Vfs.Inode.{list_dir}
use git_nfs.Git.Builder.{
  Build, BuildError, rebuild_trees, build_blobs, insert_object, rebuild_tree_recursive,
  valid_children, raw_children, entry_bytes, raw_entry, mode_str, finish_tree, dirty_dirs, mark_all,
  mark_dirty,
}
use git_nfs.Prelude.{str_eq}
use git_nfs.Prelude.Assoc.{insert, lookup, contains, add}
use git_nfs.Text.{trim, trim_start, trim_back, starts_with}
use git_nfs.Text.Radix.{digits_of, digit_char}
use git_nfs.Git.Objects.{compute_git_sha1, object_header, type_str}
use git_nfs.Vfs.Filter.{is_apple_metadata}
use git_nfs.Vfs.State.{get_node, live, add_mappings, add_nodes, create_new, attach, live_nodes}
use git_nfs.Staging.{
  list_staged_nodes, get_staged_content, is_staged, is_deleted, list_deleted_nodes, write_bytes,
  base_content,
}
use git_nfs.Git.Builder.Commit.{
  Commit, rebuild_git_objects, message_or_generated, commit_content, finish_commit,
}
use git_nfs.Git.Builder.Addressed.{IsAddressed, HasCommit, rebuild_git_objects-Addressed}
use git_nfs.Text.{ascii}
use git_nfs.Git.Tree.{Hex, regular_file, directory, GitTreeEntry, parse}
use git_nfs.Git.Tree.RoundTrip.{a_file, a_directory}
use git_nfs.Text.Utf8.{is_utf8}
use git_nfs.Git.Builder.{Builder}
use git_nfs.Git.Builder.Written.{IsChild, Follows, parse-raw_children}
use git_nfs.Prelude.{◌++◌, ap, replicate, arith}
use git_nfs.Vfs.State.{VfsNode}
use git_nfs.Git.Builder.{compare, compare_tree_entries, insert_child, sort_children}
use git_nfs.Git.Builder.Order.{Ordered, InGitOrder, sort_children-Ordered}

abbrev node : ℕ → List ℕ → Bool → VfsNode
node id name dir = record {
  id = id;
  parent_id = 1;
  name = name;
  oid = [];
  mode = regular_file;
  is_dir = dir;
  size = 0;
  is_deleted = false;
}

-- The slash of the directory comes behind the dot of the file.
abbrev children : List VfsNode
children =
    node 2 (ascii "foo") true ∷ node 3 (ascii "foo.c") false ∷ node 4 (ascii "bar") false ∷ []

sort_children_run :
    sort_children children
    ≡ node 4 (ascii "bar") false ∷ node 3 (ascii "foo.c") false ∷ node 2 (ascii "foo") true ∷ []
unfolding sort_children insert_child compare_tree_entries compare
sort_children_run = refl

sort_children-Ordered_example :
    Ordered InGitOrder (sort_children children) × Perm (sort_children children) children
sort_children-Ordered_example = sort_children-Ordered children

-- A hash that tells texts of different lengths apart.
abbrev hex : Hex
hex = record { encode = λ bytes. bytes; decode = λ text. some text }

abbrev sha1 : List ℕ → List ℕ
sha1 bytes = length bytes ∷ []

abbrev engine : Engine
engine = record { get_tree = λ oid. none; memory_size = λ oid. none; disk_size = λ oid. none }

-- One new file in the root directory, with two bytes.
abbrev tables : VfsManager
tables = (Inode.create_file engine 1 (ascii "x") regular_file (new [])).1

abbrev staging : StagingStore
staging = (write_at Staging.new 2 0 (7 ∷ 8 ∷ []) none).0

abbrev outcome : Result BuildError Commit × Build
outcome =
    rebuild_git_objects hex sha1 engine staging (λ ds. ds) 5 1000 (ascii "b") (ascii "me")
      (ascii "m") (record { vfs = tables; new_objects = [] })

abbrev made : Commit
made = record { oid = 74 ∷ []; root_tree_oid = 18 ∷ []; objects = outcome.1.new_objects }

outcome_run : outcome ≡ (ok made, outcome.1)
unfolding rebuild_git_objects rebuild_trees build_blobs list_staged_nodes write_at insert get_node
    live Inode.create_file Inode.ensure_dir_populated new Inode.populate add_mappings Inode.scan
    Inode.tree_entries add_nodes create_new attach is_apple_metadata str_eq get_staged_content
    is_staged lookup compute_git_sha1 object_header type_str digits_of digit_char insert_object
    rebuild_tree_recursive list_dir live_nodes valid_children is_deleted contains sort_children
    insert_child compare_tree_entries compare raw_children entry_bytes raw_entry mode_str
    finish_tree dirty_dirs mark_all mark_dirty list_deleted_nodes add message_or_generated trim
    trim_start trim_back commit_content finish_commit write_bytes base_content starts_with
outcome_run = refl

rebuild_git_objects-Addressed_example :
    All (IsAddressed hex sha1 engine staging) made.objects
    × HasCommit hex sha1 engine staging
        (λ ds. ds)
        1000
        (ascii "b")
        (ascii "me")
        (ascii "m")
        made
        outcome.1
rebuild_git_objects-Addressed_example =
    rebuild_git_objects-Addressed hex sha1 engine staging (λ ds. ds) 5 1000 (ascii "b") (ascii "me")
      (ascii "m") tables made outcome.1 outcome_run

abbrev twenty : List ℕ
twenty = replicate 20 b'a'

-- A directory that is rebuilt, a file, and a file without an object.
abbrev kids : List VfsNode
kids =
    record (node 2 (ascii "d") true) { mode = directory }
    ∷ record (node 3 (ascii "f") false) { oid = twenty }
    ∷ node 4 (ascii "g") false
    ∷ []

abbrev rebuild : ℕ → Builder (List ℕ)
rebuild id b = (ok twenty, b)

twenty-long : (sha : List ℕ) → some twenty ≡ some sha → (length sha ≡ 20) × (sha ≡ twenty)
twenty-long sha e = let same : sha ≡ twenty = cc in (ap length same, same)

abbrev before : Build
before = record { vfs = new []; new_objects = [] }

abbrev kids_tree : List ℕ
kids_tree = raw_entry directory (ascii "d") twenty ++ raw_entry regular_file (ascii "f") twenty

kids_run :
    raw_children hex sha1 engine staging rebuild (2 ∷ []) kids [] before ≡ (ok kids_tree, before)
unfolding raw_children contains entry_bytes raw_entry mode_str
kids_run = refl

kids-All : All (IsChild hex sha1 engine staging rebuild (2 ∷ [])) kids
unfolding is_utf8
kids-All = (
  record { named = a_directory; lacks = ground arith; utf8 = refl; is_oid = tt },
  (
    record {
      named = a_file;
      lacks = ground arith;
      utf8 = refl;
      is_oid = λ sha e. twenty-long sha e;
    },
    (record { named = a_file; lacks = ground arith; utf8 = refl; is_oid = tt }, tt),
  ),
)

parse-raw_children_example :
    (entries : List GitTreeEntry) × (parse hex kids_tree ≡ ok (record { entries = entries }))
    × Follows hex sha1 engine staging rebuild (2 ∷ []) kids entries
parse-raw_children_example =
    parse-raw_children hex sha1 engine staging rebuild (2 ∷ []) kids kids_tree before before
      kids_run (λ id b. twenty-long) kids-All
