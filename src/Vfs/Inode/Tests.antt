-- ===== src/Vfs/Inode/Tests.antt =====
-- Concrete runs of the inode manager, and the theorems at concrete inputs.
use git_nfs.Prelude.{ℕ, ◌+◌, ◌*◌, ◌≤◌, ◌<◌, ◌≡◌, refl, true, false, none, some, List, [], ◌∷◌}
use git_nfs.Prelude.{length, str_eq, ok, err, arith}
use git_nfs.Bytes.{u64_mod}
use git_nfs.Text.{ascii}
use git_nfs.Git.Tree.{TreeEntryMode}
use git_nfs.Vfs.State.{VfsNode, VfsManager, Engine, child_not_found, new, fresh_node}
use git_nfs.Vfs.State.{
  add_nodes, add_mappings, attach, create_new, child_entry, detach, without, relabel, move_child,
}
use git_nfs.Vfs.State.Laws.{IsValid}
use git_nfs.Vfs.Inode.{tree_entries, entry_node, initial_size, scan, populate, ensure_dir_populated}
use git_nfs.Vfs.Inode.{lookup, list_dir, create_file, mkdir, remove, rename}
use git_nfs.Prelude.{All}
use git_nfs.Vfs.State.Listed.{IsListed}
use git_nfs.Vfs.Inode.Listed.{MovesAway, new-IsListed, perform_all-IsListed}
use git_nfs.Vfs.Inode.Valid.{
  Call, lists, creates, makes, renames, removes, perform_all, new-IsValid, perform_all-IsValid,
}
use git_nfs.Vfs.Inode.Names.{IsPlain, Finds, create_file-Finds, mkdir-Finds, remove-lookup}
use git_nfs.Vfs.Inode.Moves.{Moved, AreApart, rename-Moved}

-- Every tree has a file `a` and a directory `d`.
abbrev engine : Engine
engine = record {
  get_tree = λ oid. some (record {
    entries =
        record { mode = TreeEntryMode.regular_file; name = ascii "a"; oid = 7 ∷ [] }
        ∷ record { mode = TreeEntryMode.directory; name = ascii "d"; oid = 8 ∷ [] }
        ∷ [];
  });
  memory_size = λ oid. none;
  disk_size = λ oid. some 12;
}

narrow : (oid : List ℕ) → length (tree_entries engine oid) ≤ 2
unfolding tree_entries
narrow oid = omega arith

abbrev start : VfsManager
start = new (9 ∷ [])

abbrev calls : List Call
calls =
    lists 1
    ∷ creates 1 (ascii "b") TreeEntryMode.regular_file
    ∷ makes 3 (ascii "e")
    ∷ renames 1 (ascii "a") 3 (ascii "f")
    ∷ removes 1 (ascii "b")
    ∷ []

start_room : (n : ℕ) → n ≤ 100 → start.next_inode + n * (2 + 2 + 1) < u64_mod
unfolding new
start_room n small = omega arith

calls-All : All (MovesAway engine 2 narrow) calls
unfolding str_eq
calls-All = (tt, (tt, (tt, (refl, (tt, tt)))))

perform_all-IsListed_example :
    IsValid (perform_all engine start calls) × IsListed (perform_all engine start calls)
perform_all-IsListed_example =
    perform_all-IsListed engine 2 narrow start calls calls-All (new-IsValid (9 ∷ []))
      (new-IsListed (9 ∷ [])) (start_room 5 (omega arith))

abbrev name_b : List ℕ
name_b = ascii "b"

plain : IsPlain name_b
unfolding str_eq
plain = (refl, refl)

abbrev created : VfsManager
created = (create_file engine 1 name_b TreeEntryMode.regular_file start).1

abbrev node_b : VfsNode
node_b = fresh_node 4 1 name_b TreeEntryMode.regular_file false 0

created_run : create_file engine 1 name_b TreeEntryMode.regular_file start ≡ (ok node_b, created)
unfolding create_file ensure_dir_populated populate scan tree_entries entry_node initial_size
    add_nodes add_mappings create_new attach new str_eq
created_run = refl

create_file-Finds_example : Finds engine created 1 name_b node_b
create_file-Finds_example =
    create_file-Finds engine 1 name_b TreeEntryMode.regular_file start created node_b plain
      created_run

abbrev made : VfsManager
made = (mkdir engine 1 name_b start).1

abbrev dir_b : VfsNode
dir_b = fresh_node 4 1 name_b TreeEntryMode.directory true 4096

made_run : mkdir engine 1 name_b start ≡ (ok dir_b, made)
unfolding mkdir ensure_dir_populated populate scan tree_entries entry_node initial_size add_nodes
    add_mappings attach new str_eq
made_run = refl

mkdir-Finds_example : Finds engine made 1 name_b dir_b × (made.dir_children 4 ≡ some [])
mkdir-Finds_example = mkdir-Finds engine 1 name_b start made dir_b plain made_run

abbrev removed : VfsManager
removed = (remove engine 1 name_b created).1

removed_run : remove engine 1 name_b created ≡ (ok (record node_b { is_deleted = true }), removed)
unfolding remove create_file ensure_dir_populated populate scan tree_entries entry_node initial_size
    add_nodes add_mappings create_new attach new str_eq child_entry detach without
removed_run = refl

remove-lookup_example :
    (lookup engine 1 name_b removed ≡ (err child_not_found, removed)) × (true ≡ true)
remove-lookup_example =
    remove-lookup engine 1 name_b created removed (record node_b { is_deleted = true }) plain
      removed_run

-- A file of the tree moves into the directory of the tree, to the name of a file that is there.
abbrev listed : VfsManager
listed = (list_dir engine 1 start).1

abbrev name_a : List ℕ
name_a = ascii "a"

abbrev node_a : VfsNode
node_a = record {
  id = 2;
  parent_id = 1;
  name = name_a;
  oid = 7 ∷ [];
  mode = TreeEntryMode.regular_file;
  is_dir = false;
  size = 12;
  is_deleted = false;
}

abbrev moved : VfsManager
moved = (rename engine 1 name_a 3 name_a listed).1

moved_run : rename engine 1 name_a 3 name_a listed ≡ (ok tt, moved)
unfolding rename remove list_dir ensure_dir_populated populate scan tree_entries entry_node
    initial_size add_nodes add_mappings new str_eq child_entry detach without relabel move_child
moved_run = refl

listed-IsValid : IsValid listed
listed-IsValid =
    perform_all-IsValid engine 2 narrow start (lists 1 ∷ []) (new-IsValid (9 ∷ []))
      (start_room 1 (omega arith))

found_a : (listed.child_map 1 name_a ≡ some 2) × (listed.nodes 2 ≡ some node_a)
unfolding list_dir ensure_dir_populated populate scan tree_entries entry_node initial_size add_nodes
    add_mappings new str_eq
found_a = (refl, refl)

room : listed.next_inode + 2 + 2 < u64_mod
unfolding list_dir ensure_dir_populated populate scan tree_entries add_nodes add_mappings new
room = omega arith

apart : AreApart engine 1 name_a 3 name_a 2 node_a
unfolding str_eq
apart = ((refl, refl), (refl, refl), refl)

rename-Moved_example : Moved engine 1 name_a 3 name_a 2 node_a moved
rename-Moved_example =
    rename-Moved engine 2 narrow 1 name_a 3 name_a 2 node_a listed moved listed-IsValid room apart
      found_a.0 found_a.1 refl moved_run
