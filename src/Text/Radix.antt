-- ===== src/Text/Radix.antt =====
-- Numbers in a base of at most 36: `from_str_radix` of an unsigned type, and the digits that
-- `format!` prints.
pub mod Digits
use git_nfs.Prelude.{ℕ, zero, suc, ◌+◌, ◌-◌, ◌*◌, ◌/◌, ◌%◌, Bool}
use git_nfs.Prelude.{Option, none, some, List, [], ◌∷◌, ◌++◌, ltb, leb, ◌==◌, ◌&&◌, if◌then◌else◌}

-- `char::to_digit`, on a byte.
unfoldable pub to_digit : ℕ → ℕ → Option ℕ
to_digit base c =
    let value =
      if leb b'0' c && leb c b'9'
      then c - b'0'
      else if leb b'a' c && leb c b'z'
      then c - b'a' + 10
      else if leb b'A' c && leb c b'Z'
      then c - b'A' + 10
      else 36 in
    if ltb value base then some value else none

-- The digits one by one; a value of `bound` or more is an overflow.
unfoldable pub from_digits : ℕ → ℕ → ℕ → List ℕ → Option ℕ
from_digits base bound acc [] = some acc
from_digits base bound acc (c ∷ s) = elim (to_digit base c) [
  | none ↦ none
  | some d ↦ elim (ltb (acc * base + d) bound) [
    | Bool.true ↦ from_digits base bound (acc * base + d) s
    | Bool.false ↦ none
  ]
]

unfoldable pub from_digits1 : ℕ → ℕ → List ℕ → Option ℕ
from_digits1 base bound [] = none
from_digits1 base bound (c ∷ s) = from_digits base bound 0 (c ∷ s)

-- `T::from_str_radix(s, base).ok()` for an unsigned `T` with `bound` values: one `+` may lead.
unfoldable pub from_str_radix : ℕ → ℕ → List ℕ → Option ℕ
unfolding from_digits1 from_digits to_digit
from_str_radix base bound [] = none
from_str_radix base bound (c ∷ s) =
    if c == b'+' then from_digits1 base bound s else from_digits1 base bound (c ∷ s)

unfoldable pub digit_char : ℕ → ℕ
digit_char d = if ltb d 10 then b'0' + d else b'a' + (d - 10)

-- The digits of `n`, for `n` below `base ^ suc k`; no leading zero.
unfoldable pub digits_of : ℕ → ℕ → ℕ → List ℕ
unfolding digit_char
digits_of zero base n = digit_char n ∷ []
digits_of (suc k) base n =
    let more = digits_of k base (n / base) in
    if ltb n base then digit_char n ∷ [] else more ++ (digit_char (n % base) ∷ [])
