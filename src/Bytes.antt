-- ===== src/Bytes.antt =====
-- The byte conversions of the standard library that the source calls. A byte slice, and a string,
-- is the list of its bytes.
use git_nfs.Prelude.{ℕ, ◌+◌, ◌*◌, ◌/◌, ◌%◌, ◌^◌, ◌<◌, ◌≡◌, List, [], ◌∷◌}
use git_nfs.Prelude.{arith}

abbrev pub IsByte : ℕ → Type 0
IsByte b = b < 256

abbrev pub u32_mod : ℕ
u32_mod = 2 ^ 32

abbrev pub u64_mod : ℕ
u64_mod = 2 ^ 64

-- `Vec::with_capacity` panics from this number of bytes on.
abbrev pub capacity_limit : ℕ
capacity_limit = 2 ^ 63

-- `x as u32`
abbrev pub as_u32 : ℕ → ℕ
as_u32 x = x % u32_mod

-- `x.to_be_bytes()` of a `u32`
abbrev pub be32 : ℕ → List ℕ
be32 x = x / 2 ^ 24 % 256 ∷ x / 2 ^ 16 % 256 ∷ x / 2 ^ 8 % 256 ∷ x % 256 ∷ []

-- `u32::from_be_bytes([a, b, c, d])`
abbrev pub from_be32 : ℕ → ℕ → ℕ → ℕ → ℕ
from_be32 a b c d = a * 2 ^ 24 + b * 2 ^ 16 + c * 2 ^ 8 + d

pub from_be32-be32 :
    (x : ℕ)
    → x < u32_mod
    → from_be32 (x / 2 ^ 24 % 256) (x / 2 ^ 16 % 256) (x / 2 ^ 8 % 256) (x % 256) ≡ x
from_be32-be32 x h = omega arith
