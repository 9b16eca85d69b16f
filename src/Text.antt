-- ===== src/Text.antt =====
-- The methods of `str` that the source calls, on the bytes of the text (UTF-8).
mod Split
pub mod Utf8
pub mod Radix
pub mod Words
pub mod Trim
unfoldable pub use Split.{split, join}
pub use Split.{Lacks, split-join}
use git_nfs.Prelude.{ℕ, zero, suc, ◌≡◌, refl, Bool, true, false, ◌&&◌, ◌||◌, List, [], ◌∷◌, ◌++◌}
use git_nfs.Prelude.{Option, none, some, ◌==◌, leb, if◌then◌else◌, str_eq}
use mathlib.Core.List.{reverse}
use Prim.Native.Char.{code}
use Prim.Native.String.{String}

-- The bytes of an ASCII literal.
abbrev pub ascii : String → List ℕ
ascii String.[] = []
ascii (String.◌∷◌ c s) = code c ∷ ascii s

-- `s.starts_with(t)`
unfoldable pub starts_with : List ℕ → List ℕ → Bool
starts_with s [] = true
starts_with [] (y ∷ t) = false
starts_with (x ∷ s) (y ∷ t) = x == y && starts_with s t

-- `char::is_whitespace` for the characters of one byte.
abbrev pub is_space1 : ℕ → Bool
is_space1 b = (leb 9 b && leb b 13) || b == 32

-- For those of two bytes: U+0085 and U+00A0.
abbrev pub is_space2 : ℕ → ℕ → Bool
is_space2 a b = a == 0xc2 && (b == 0x85 || b == 0xa0)

-- For those of three bytes: U+1680, U+2000 to U+200A, U+2028, U+2029, U+202F, U+205F, U+3000.
abbrev pub is_space3 : ℕ → ℕ → ℕ → Bool
is_space3 a b c =
    (a == 0xe1 && b == 0x9a && c == 0x80)
    || (a == 0xe2 && b == 0x80 && (leb 0x80 c && leb c 0x8a || c == 0xa8 || c == 0xa9 || c == 0xaf))
    || (a == 0xe2 && b == 0x81 && c == 0x9f)
    || (a == 0xe3 && b == 0x80 && c == 0x80)

-- `s.trim_start()`
unfoldable pub trim_start : List ℕ → List ℕ
trim_start [] = []
trim_start (a ∷ []) = if is_space1 a then [] else a ∷ []
trim_start (a ∷ b ∷ []) = elim (is_space1 a) [
  | true ↦ trim_start (b ∷ [])
  | false ↦ if is_space2 a b then [] else a ∷ b ∷ []
]
trim_start (a ∷ b ∷ c ∷ s) = elim (is_space1 a) [
  | true ↦ trim_start (b ∷ c ∷ s)
  | false ↦ elim (is_space2 a b) [
    | true ↦ trim_start (c ∷ s)
    | false ↦ elim (is_space3 a b c) [ true ↦ trim_start s | false ↦ a ∷ b ∷ c ∷ s ]
  ]
]

-- The same from the end, on the reversed bytes.
unfoldable pub trim_back : List ℕ → List ℕ
trim_back [] = []
trim_back (a ∷ []) = if is_space1 a then [] else a ∷ []
trim_back (b ∷ a ∷ []) = elim (is_space1 b) [
  | true ↦ trim_back (a ∷ [])
  | false ↦ if is_space2 a b then [] else b ∷ a ∷ []
]
trim_back (c ∷ b ∷ a ∷ s) = elim (is_space1 c) [
  | true ↦ trim_back (b ∷ a ∷ s)
  | false ↦ elim (is_space2 b c) [
    | true ↦ trim_back (a ∷ s)
    | false ↦ elim (is_space3 a b c) [ true ↦ trim_back s | false ↦ c ∷ b ∷ a ∷ s ]
  ]
]

-- `s.trim()`
unfoldable pub trim : List ℕ → List ℕ
unfolding trim_start trim_back
trim s = reverse (trim_back (reverse (trim_start s)))

-- `s.trim_start_matches(c)`
unfoldable pub trim_start_matches : ℕ → List ℕ → List ℕ
trim_start_matches c [] = []
trim_start_matches c (x ∷ s) = elim (x == c) [ true ↦ trim_start_matches c s | false ↦ x ∷ s ]

-- `s.trim_end_matches(c)`
unfoldable pub trim_end_matches : ℕ → List ℕ → List ℕ
unfolding trim_start_matches
trim_end_matches c s = reverse (trim_start_matches c (reverse s))

-- `s.trim_matches(c)`
unfoldable pub trim_matches : ℕ → List ℕ → List ℕ
unfolding trim_start_matches trim_end_matches
trim_matches c s = trim_end_matches c (trim_start_matches c s)
