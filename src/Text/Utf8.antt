-- ===== src/Text/Utf8.antt =====
-- `std::str::from_utf8`: which byte strings are texts.
use git_nfs.Prelude.{ℕ, Bool, true, false, ◌&&◌, ◌||◌, List, [], ◌∷◌, ltb, leb, ◌==◌}

abbrev is_tail : ℕ → Bool
is_tail b = leb 0x80 b && leb b 0xbf

-- A second byte after a first one of two, three or four.
abbrev second2 : ℕ → ℕ → Bool
second2 a b = leb 0xc2 a && leb a 0xdf && is_tail b

abbrev second3 : ℕ → ℕ → Bool
second3 a b =
    (a == 0xe0 && leb 0xa0 b && leb b 0xbf)
    || (leb 0xe1 a && leb a 0xec && is_tail b)
    || (a == 0xed && leb 0x80 b && leb b 0x9f)
    || (leb 0xee a && leb a 0xef && is_tail b)

abbrev second4 : ℕ → ℕ → Bool
second4 a b =
    (a == 0xf0 && leb 0x90 b && leb b 0xbf)
    || (leb 0xf1 a && leb a 0xf3 && is_tail b)
    || (a == 0xf4 && leb 0x80 b && leb b 0x8f)

unfoldable pub is_utf8 : List ℕ → Bool
is_utf8 [] = true
is_utf8 (a ∷ []) = ltb a 0x80
is_utf8 (a ∷ b ∷ []) = elim (ltb a 0x80) [ true ↦ is_utf8 (b ∷ []) | false ↦ second2 a b ]
is_utf8 (a ∷ b ∷ c ∷ []) = elim (ltb a 0x80) [
  | true ↦ is_utf8 (b ∷ c ∷ [])
  | false ↦ elim (second2 a b) [ true ↦ is_utf8 (c ∷ []) | false ↦ second3 a b && is_tail c ]
]
is_utf8 (a ∷ b ∷ c ∷ d ∷ s) = elim (ltb a 0x80) [
  | true ↦ is_utf8 (b ∷ c ∷ d ∷ s)
  | false ↦ elim (second2 a b) [
    | true ↦ is_utf8 (c ∷ d ∷ s)
    | false ↦ elim (second3 a b && is_tail c) [
      | true ↦ is_utf8 (d ∷ s)
      | false ↦ elim (second4 a b && is_tail c && is_tail d) [ true ↦ is_utf8 s | false ↦ false ]
    ]
  ]
]
