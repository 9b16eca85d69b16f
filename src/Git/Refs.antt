-- ===== src/Git/Refs.antt =====
-- src/git/gcs_storage.rs: references, and the text files that name references and packs. The bucket is
-- the parameter `remote`, and `from_utf8_lossy` the parameter `lossy`.
use git_nfs.Prelude.{ℕ, Bool, ◌||◌, Option, none, some, List, [], ◌∷◌, ◌++◌, map}
use git_nfs.Prelude.{◌==◌, leb, str_eq, if◌then◌else◌, length, take, Result, ok, err, concat}
use git_nfs.Text.{ascii, starts_with, trim, trim_start_matches, split}
use git_nfs.Text.Words.{lines, split_whitespace, ends_with, trim_text}
use git_nfs.Git.Builder.{less, equal, greater, compare}
use git_nfs.Cache.Block.{last_piece}

pub data RefError : Type 0 where
  no_head unresolved invalid_head : RefError

-- A reference, the object it names, and for a tag the object behind the tag.
abbrev pub RefMap : Type 0
RefMap = List (List ℕ × (List ℕ × Option (List ℕ)))

unfoldable pub insert_ref : List ℕ → List ℕ × Option (List ℕ) → RefMap → RefMap
insert_ref name value [] = (name, value) ∷ []
insert_ref name value (e ∷ refs) =
    let rest = insert_ref name value refs in
    if str_eq e.0 name then (name, value) ∷ refs else e ∷ rest

unfoldable pub lookup_ref : List ℕ → RefMap → Option (List ℕ × Option (List ℕ))
lookup_ref name [] = none
lookup_ref name (e ∷ refs) =
    let rest = lookup_ref name refs in if str_eq e.0 name then some e.1 else rest

-- The first two words of a line.
abbrev pub two_words : List (List ℕ) → Option (List ℕ × List ℕ)
two_words [] = none
two_words (a ∷ []) = none
two_words (a ∷ b ∷ words) = some (a, b)

-- `#` or `^`
abbrev pub is_note : List ℕ → Bool
is_note line = starts_with line (ascii "#") || starts_with line (ascii "^")

unfoldable pub find_packed_ref : List ℕ → List (List ℕ) → Option (List ℕ)
find_packed_ref ref_name [] = none
find_packed_ref ref_name (l ∷ ls) =
    let rest = find_packed_ref ref_name ls in
    if is_note (trim l) then rest else elim (two_words (split_whitespace (trim l))) [
      | none ↦ rest
      | some (sha, name) ↦ if str_eq name ref_name then some sha else rest
    ]

-- One line of the packed references, for `update_server_info`: the map, and the name read last.
unfoldable pub note_peeled : List ℕ → RefMap × Option (List ℕ) → RefMap × Option (List ℕ)
note_peeled line (refs, last) =
    let peeled = trim (trim_start_matches b'^' line) in
    if length peeled == 40
    then elim last [
      | none ↦ (refs, none)
      | some name ↦ elim (lookup_ref name refs) [
        | none ↦ (refs, some name)
        | some (sha, _) ↦ (insert_ref name (sha, some peeled) refs, some name)
      ]
    ]
    else (refs, last)

unfoldable pub note_ref : List ℕ → RefMap × Option (List ℕ) → RefMap × Option (List ℕ)
note_ref line (refs, last) = elim (two_words (split_whitespace line)) [
  | none ↦ (refs, last)
  | some (sha, name) ↦
      if length sha == 40 then (insert_ref name (sha, none) refs, some name) else (refs, last)
]

unfoldable pub packed_line : List ℕ → RefMap × Option (List ℕ) → RefMap × Option (List ℕ)
packed_line line st =
    if starts_with line (ascii "#") || length line == 0
    then st
    else if starts_with line (ascii "^")
    then note_peeled line st
    else note_ref line st

unfoldable pub packed_lines : List (List ℕ) → RefMap × Option (List ℕ) → RefMap
packed_lines [] st = st.0
packed_lines (l ∷ ls) st = packed_lines ls (packed_line (trim l) st)

-- `sort_by` on the names.
unfoldable pub insert_by_name : List ℕ × (List ℕ × Option (List ℕ)) → RefMap → RefMap
insert_by_name a [] = a ∷ []
insert_by_name a (b ∷ refs) =
    let rest = insert_by_name a refs in
    elim (compare a.0 b.0) [ greater ↦ b ∷ rest | less ↦ a ∷ b ∷ refs | equal ↦ a ∷ b ∷ refs ]

unfoldable pub sort_refs : RefMap → RefMap
sort_refs [] = []
sort_refs (a ∷ refs) = insert_by_name a (sort_refs refs)

unfoldable pub ref_lines : List ℕ × (List ℕ × Option (List ℕ)) → List ℕ
ref_lines (ref_name, (sha, peeled)) = sha ++ ascii "\t" ++ ref_name ++ ascii "\n" ++ elim peeled [
  | none ↦ []
  | some peeled_sha ↦ peeled_sha ++ ascii "\t" ++ ref_name ++ ascii "^{}\n"
]

unfoldable pub format_info_refs : RefMap → List ℕ
format_info_refs entries = concat (map ref_lines (sort_refs entries))

abbrev pub basename : List ℕ → List ℕ
basename name = last_piece (split b'/' name)

-- `sort` and `dedup` of the names that end in `.pack`.
unfoldable pub insert_name : List ℕ → List (List ℕ) → List (List ℕ)
insert_name a [] = a ∷ []
insert_name a (b ∷ names) =
    let rest = insert_name a names in
    elim (compare a b) [ greater ↦ b ∷ rest | less ↦ a ∷ b ∷ names | equal ↦ b ∷ names ]

unfoldable pub sorted_packs : List (List ℕ) → List (List ℕ)
sorted_packs [] = []
sorted_packs (p ∷ pack_names) =
    let rest = sorted_packs pack_names in
    if ends_with (basename p) (ascii ".pack") then insert_name (basename p) rest else rest

unfoldable pub pack_line : List ℕ → List ℕ
pack_line name = ascii "P " ++ name ++ ascii "\n"

unfoldable pub format_info_packs : List (List ℕ) → List ℕ
format_info_packs pack_names =
    let out = concat (map pack_line (sorted_packs pack_names)) in
    if length out == 0 then [] else out ++ ascii "\n"

module _ (prefix : List ℕ) (lossy : List ℕ → List ℕ) (remote : List ℕ → Option (List ℕ)) where
  unfoldable pub lookup_packed_ref : List ℕ → Option (List ℕ)
  lookup_packed_ref ref_name = elim (remote (prefix ++ ascii "packed-refs")) [
    | none ↦ none
    | some bytes ↦ find_packed_ref ref_name (lines (lossy bytes))
  ]

  -- The object that a reference names, in a file of its own or among the packed ones.
  unfoldable pub read_ref : List ℕ → Option (List ℕ)
  read_ref ref_name = elim (remote (prefix ++ ref_name)) [
    | none ↦ lookup_packed_ref ref_name
    | some bytes ↦
        let sha = trim (lossy bytes) in
        if length sha == 40 then some sha else lookup_packed_ref ref_name
  ]

  unfoldable pub follow_head : List ℕ → Result RefError (List ℕ × List ℕ)
  follow_head head_str =
      if starts_with head_str (ascii "ref: ")
      then (let ref_name = trim (trim_text (length head_str) (ascii "ref: ") head_str) in
          elim (read_ref ref_name) [ some sha ↦ ok (sha, ref_name) | none ↦ err unresolved ])
      else if leb 40 (length head_str)
      then ok (take 40 head_str, ascii "HEAD")
      else err invalid_head

  unfoldable pub read_head : Result RefError (List ℕ × List ℕ)
  read_head = elim (remote (prefix ++ ascii "HEAD")) [
    | none ↦ err no_head
    | some head_bytes ↦ follow_head (trim (lossy head_bytes))
  ]

  unfoldable pub resolve_head : Option (List ℕ) → Result RefError (List ℕ × List ℕ)
  resolve_head none = read_head
  resolve_head (some branch) = elim (read_ref (ascii "refs/heads/" ++ branch)) [
    | some sha ↦ ok (sha, branch)
    | none ↦ read_head
  ]
