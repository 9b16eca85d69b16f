-- ===== src/Text/Words.antt =====
-- `lines`, `split_whitespace` and the tests on both ends of a text.
use git_nfs.Prelude.{ℕ, zero, suc, Bool, true, false, Option, none, some, List, [], ◌∷◌}
use git_nfs.Prelude.{◌==◌, if◌then◌else◌, length, drop}
use mathlib.Core.List.{reverse}
use git_nfs.Text.{split, starts_with, is_space1, is_space2, is_space3}

-- A `\r` in front of a line break goes with it. The bytes of the line come backwards.
unfoldable pub strip_return : List ℕ → List ℕ
strip_return [] = []
strip_return (x ∷ s) = if x == 13 then s else x ∷ s

-- Nothing comes behind the last line break.
unfoldable pub full_lines : List (List ℕ) → List (List ℕ)
full_lines [] = []
full_lines ([] ∷ []) = []
full_lines ((x ∷ s) ∷ []) = (x ∷ s) ∷ []
full_lines (p ∷ q ∷ ps) = reverse (strip_return (reverse p)) ∷ full_lines (q ∷ ps)

-- `s.lines()`
unfoldable pub lines : List ℕ → List (List ℕ)
lines s = full_lines (split b'\n' s)

-- A word, of which the bytes come backwards, in front of others.
abbrev pub end_word : List ℕ → List (List ℕ) → List (List ℕ)
end_word [] words = words
end_word (x ∷ word) words = reverse (x ∷ word) ∷ words

-- `s.split_whitespace()`, where `word` was read before.
unfoldable pub words_from : List ℕ → List ℕ → List (List ℕ)
words_from [] word = end_word word []
words_from (a ∷ []) word = if is_space1 a then end_word word [] else end_word (a ∷ word) []
words_from (a ∷ b ∷ []) word = elim (is_space1 a) [
  | true ↦ end_word word (words_from (b ∷ []) [])
  | false ↦ elim (is_space2 a b) [
    | true ↦ end_word word []
    | false ↦ words_from (b ∷ []) (a ∷ word)
  ]
]
words_from (a ∷ b ∷ c ∷ s) word = elim (is_space1 a) [
  | true ↦ end_word word (words_from (b ∷ c ∷ s) [])
  | false ↦ elim (is_space2 a b) [
    | true ↦ end_word word (words_from (c ∷ s) [])
    | false ↦ elim (is_space3 a b c) [
      | true ↦ end_word word (words_from s [])
      | false ↦ words_from (b ∷ c ∷ s) (a ∷ word)
    ]
  ]
]

unfoldable pub split_whitespace : List ℕ → List (List ℕ)
split_whitespace s = words_from s []

-- `s.ends_with(t)`
unfoldable pub ends_with : List ℕ → List ℕ → Bool
ends_with s t = starts_with (reverse s) (reverse t)

-- `s.strip_prefix(t)`
unfoldable pub strip_prefix : List ℕ → List ℕ → Option (List ℕ)
strip_prefix s t = if starts_with s t then some (drop (length t) s) else none

-- `s.trim_start_matches(t)` for a text `t`, which is taken away as often as it stands there. The fuel is the length.
unfoldable pub trim_text : ℕ → List ℕ → List ℕ → List ℕ
trim_text zero t s = s
trim_text (suc fuel) t s =
    let rest = trim_text fuel t (drop (length t) s) in if starts_with s t then rest else s
