-- ===== src/Staging/Tests.antt =====
-- Concrete runs of the staging store, and the theorems at concrete inputs.
use mathlib.Core.Option
use git_nfs.Prelude.{ℕ, ◌≡◌, refl, Option}
use git_nfs.Prelude.{none, some, List, [], ◌∷◌, length, ok}
use git_nfs.Prelude.Assoc.{lookup, insert}
use git_nfs.Staging.{new, create_file, write_bytes, base_content, write_at, truncate}
use git_nfs.Staging.{is_staged, get_staged_content, get_size}
use git_nfs.Staging.Content.{Written, Truncated, write_at_lem, truncate_lem}
use git_nfs.Staging.Valid.{Call, creates, writes, truncates, perform_all, get_staged_content_lem}
use git_nfs.Staging.Reads.{Pieces, read_at_split}

abbrev calls : List Call
calls = creates 5 ∷ writes 5 2 (7 ∷ 8 ∷ []) none ∷ truncates 6 1 (some (9 ∷ 9 ∷ [])) ∷ []

-- A write behind the end leaves a gap of zeros.
calls_run : get_staged_content (perform_all new calls) 5 ≡ ok (some (0 ∷ 0 ∷ 7 ∷ 8 ∷ []))
unfolding create_file write_bytes base_content write_at truncate get_staged_content is_staged lookup
    insert
calls_run = refl

abbrev old : Option (List ℕ)
old = some (1 ∷ 2 ∷ 3 ∷ 4 ∷ [])

write_at_lem_example :
    Written new
      (write_at new 5 1 (7 ∷ 8 ∷ []) old).0
      5
      (write_at new 5 1 (7 ∷ 8 ∷ []) old).1
      1
      7
      (8 ∷ [])
      (base_content new 5 old)
write_at_lem_example = write_at_lem new 5 1 7 (8 ∷ []) old

truncate_lem_example : Truncated new (truncate new 5 6 old) 5 6 (base_content new 5 old)
truncate_lem_example = truncate_lem new 5 6 old

get_staged_content_lem_example :
    (content : Option (List ℕ)) × (get_staged_content (perform_all new calls) 5 ≡ ok content)
    × (get_size (perform_all new calls) 5 ≡ Option.map length content)
get_staged_content_lem_example = get_staged_content_lem calls 5

read_at_split_example : Pieces (perform_all new calls) 5 1 2 9 (0 ∷ 0 ∷ 7 ∷ 8 ∷ [])
read_at_split_example = read_at_split (perform_all new calls) 5 1 2 9 (0 ∷ 0 ∷ 7 ∷ 8 ∷ []) calls_run
