-- ===== src/Git/PackWriter/Header.antt =====
-- The type and the size at the front of an object, written and read back.
use Prim.Native.Nat.{bit_and, bit_or}
use git_nfs.Prelude.{
  ℕ, zero, suc, ◌+◌, ◌*◌, ◌/◌, ◌%◌, ◌^◌, ◌≤◌, ◌<◌, ◌≡◌, refl, ap, ◌∙◌, List, [], ◌∷◌, ◌++◌, ltb,
  ◌==◌, Result, ok, arith, Bool-cases, inl, inr, false, true, ltb→lt,
}
use native.Mathlib.Nat.{pow-suc}
use git_nfs.Prelude.Bits.{eq_of_same_below, same_below, or_80}
use git_nfs.Prelude.Masks.{and_15, and_127}
use git_nfs.Bytes.{u64_mod}
use git_nfs.Git.Objects.{
  ObjectType, commit, tree, blob, tag, ofs_delta, ref_delta, UnknownType, from_u8,
}
use git_nfs.Git.Delta.{DeltaError, varint_loop}
use git_nfs.Git.Delta.Varint.{varint, varint_loop-last, varint_loop-more, varint_from-varint}
use git_nfs.Git.Pack.{parse_header}
use git_nfs.Git.PackWriter.{type_num, marked, size_loop, entry_header}

last_byte :
    (k size : ℕ)
    → 0 < size
    → ltb size 128 ≡ true
    → marked (size / 2 ^ 7) (bit_and size 0x7f % 256) ∷ size_loop (suc k) (size / 2 ^ 7) ≡ size ∷ []
unfolding size_loop
last_byte k size some_left small =
    let zero_left : size / 2 ^ 7 ≡ 0 = ground arith in
    let low : bit_and size 0x7f % 256 ≡ size = ground (arith, and_127 size) in
    rw (zero_left, low) refl

next_byte :
    (k size : ℕ)
    → ltb size 128 ≡ false
    → size_loop (suc k) (size / 128) ≡ varint k (size / 128)
    → marked (size / 2 ^ 7) (bit_and size 0x7f % 256) ∷ size_loop (suc k) (size / 2 ^ 7)
      ≡ (size % 128 + 128) ∷ varint k (size / 128)
next_byte k size big rest =
    let more_left : ltb 0 (size / 128) ≡ true = ground arith in
    let low : bit_and size 0x7f % 256 ≡ size % 128 = omega (arith, and_127 size) in
    rw (more_left, low, or_80 (size % 128) (omega arith), rest) refl

nonzero : (size : ℕ) → 0 < size → (size == 0) ≡ false
nonzero size h = ground arith

-- The loop of the writer makes the bytes that the loop of the reader takes.
size_loop-varint :
    (k size : ℕ) → 0 < size → size < 128 ^ suc k → size_loop (suc k) size ≡ varint k size
unfolding size_loop varint
size_loop-varint zero size some_left fits =
    rw (size_loop, nonzero size some_left, last)
      (ap {A = ℕ} {B = List ℕ} (λ b. b ∷ [])
        (let e : bit_and size 0x7f % 256 ≡ size = omega (arith, and_127 size) in e))
  where
    last : ltb 0 (size / 2 ^ 7) ≡ false
    last = ground arith
size_loop-varint (suc k) size some_left fits = elim (Bool-cases (ltb size 128)) [
  | inl e ↦ rw (size_loop, varint, nonzero size some_left, e) (last_byte k size some_left e)
  | inr e ↦
      rw (size_loop, varint, nonzero size some_left, e)
        (next_byte k size e
          (size_loop-varint k (size / 128) (ground arith) (omega (arith, pow-suc 128 (suc k)))))
]

and_7 : (x : ℕ) → x < 16 → bit_and x 7 ≡ x % 8
unfolding same_below
and_7 = eq_of_same_below _ _ 16 refl

or_commit : (x : ℕ) → x < 16 → bit_or 16 x ≡ 16 + x
unfolding same_below
or_commit = eq_of_same_below _ _ 16 refl

or_tree : (x : ℕ) → x < 16 → bit_or 32 x ≡ 32 + x
unfolding same_below
or_tree = eq_of_same_below _ _ 16 refl

or_blob : (x : ℕ) → x < 16 → bit_or 48 x ≡ 48 + x
unfolding same_below
or_blob = eq_of_same_below _ _ 16 refl

or_tag : (x : ℕ) → x < 16 → bit_or 64 x ≡ 64 + x
unfolding same_below
or_tag = eq_of_same_below _ _ 16 refl

or_ofs_delta : (x : ℕ) → x < 16 → bit_or 96 x ≡ 96 + x
unfolding same_below
or_ofs_delta = eq_of_same_below _ _ 16 refl

or_ref_delta : (x : ℕ) → x < 16 → bit_or 112 x ≡ 112 + x
unfolding same_below
or_ref_delta = eq_of_same_below _ _ 16 refl

-- The first byte without its mark.
or_type :
    (t : ObjectType) (x : ℕ) → x < 16 → bit_or (type_num t * 2 ^ 4 % 256) x ≡ type_num t * 16 + x
unfolding type_num
or_type commit x h = or_commit x h
or_type tree x h = or_tree x h
or_type blob x h = or_blob x h
or_type tag x h = or_tag x h
or_type ofs_delta x h = or_ofs_delta x h
or_type ref_delta x h = or_ref_delta x h

first_byte :
    (t : ObjectType) (size : ℕ)
    → bit_or (type_num t * 2 ^ 4 % 256) (bit_and size 0x0f % 256) ≡ type_num t * 16 + size % 16
first_byte t size =
    ap (λ (x : ℕ). bit_or (type_num t * 2 ^ 4 % 256) x)
      (let e : bit_and size 15 % 256 ≡ size % 16 = omega (arith, and_15 size) in e)
    ∙ or_type t (size % 16) (omega arith)

type_num_small : (t : ObjectType) → type_num t < 8
unfolding type_num
type_num_small commit = omega arith
type_num_small tree = omega arith
type_num_small blob = omega arith
type_num_small tag = omega arith
type_num_small ofs_delta = omega arith
type_num_small ref_delta = omega arith

from_u8-type_num : (t : ObjectType) → from_u8 (type_num t) ≡ ok t
unfolding from_u8 type_num
from_u8-type_num commit = refl
from_u8-type_num tree = refl
from_u8-type_num blob = refl
from_u8-type_num tag = refl
from_u8-type_num ofs_delta = refl
from_u8-type_num ref_delta = refl

module _ (t : ObjectType) (c size : ℕ) (bytes rest : List ℕ) where
  parse_header-parts :
      from_u8 (bit_and (c / 2 ^ 4) 7) ≡ ok t
      → varint_loop c (bit_and c 15) 4 bytes ≡ ok (size, rest)
      → parse_header (c ∷ bytes) ≡ ok (t, size, rest)
  unfolding parse_header
  parse_header-parts known counted = rw (parse_header, known, counted) refl

-- The bits of the first byte, whether it is marked or not.
type_bits :
    (t : ObjectType) (low mark : ℕ)
    → low < 16
    → mark ≤ 1
    → from_u8 (bit_and ((type_num t * 16 + low + mark * 128) / 2 ^ 4) 7) ≡ ok t
type_bits t low mark fits one =
    ap {A = ℕ} {B = Result UnknownType ObjectType} from_u8 (
      let high : (type_num t * 16 + low + mark * 128) / 2 ^ 4 ≡ type_num t + mark * 8 =
        omega arith in
      rw high (
        and_7 (type_num t + mark * 8) (omega (arith, type_num_small t))
        ∙ omega (arith, type_num_small t)))
    ∙ from_u8-type_num t

size_bits :
    (t : ObjectType) (low mark : ℕ)
    → low < 16
    → bit_and (type_num t * 16 + low + mark * 128) 15 ≡ low
size_bits t low mark fits = omega (arith, and_15 (type_num t * 16 + low + mark * 128))

-- The size behind a marked first byte.
count_more :
    (t : ObjectType) (size : ℕ) (rest : List ℕ)
    → size < u64_mod
    → 0 < size / 16
    → varint_loop
        (type_num t * 16 + size % 16 + 128)
        (size % 16)
        4
        (size_loop 9 (size / 16) ++ rest)
      ≡ ok (size, rest)
count_more t size rest fits some_left =
    ap (λ (b : List ℕ). varint_loop (type_num t * 16 + size % 16 + 128) (size % 16) 4 (b ++ rest))
      (size_loop-varint 8 (size / 16) some_left (omega arith))
    ∙ varint_loop-more (type_num t * 16 + size % 16) (size % 16) 4 (varint 8 (size / 16) ++ rest)
        (omega (arith, type_num_small t))
    ∙ varint_from-varint 8 (size / 16) (size % 16) 4 rest (omega arith) (omega arith) (omega arith)
        (omega arith)
    ∙ ap {A = ℕ} {B = Result DeltaError (ℕ × List ℕ)} (λ v. ok (v, rest)) (omega arith)

marked_front :
    (t : ObjectType) (size : ℕ) (rest : List ℕ)
    → size < u64_mod
    → ltb 0 (size / 16) ≡ true
    → parse_header (bit_or (type_num t * 16 + size % 16) 0x80 ∷ (size_loop 9 (size / 16) ++ rest))
      ≡ ok (t, size, rest)
marked_front t size rest fits e =
    let c : bit_or (type_num t * 16 + size % 16) 0x80 ≡ type_num t * 16 + size % 16 + 1 * 128 =
      or_80 (type_num t * 16 + size % 16) (omega (arith, type_num_small t)) in
    rw c (
      parse_header-parts t (type_num t * 16 + size % 16 + 1 * 128) size
        (size_loop 9 (size / 16) ++ rest) rest
        (type_bits t (size % 16) 1 (omega arith) (omega arith))
        (rw (size_bits t (size % 16) 1 (omega arith))
          (count_more t size rest fits (ltb→lt 0 (size / 16) e))))

single_front :
    (t : ObjectType) (size : ℕ) (rest : List ℕ)
    → ltb 0 (size / 16) ≡ false
    → parse_header ((type_num t * 16 + size % 16) ∷ (size_loop 9 (size / 16) ++ rest))
      ≡ ok (t, size, rest)
unfolding size_loop
single_front t size rest e =
    let c : type_num t * 16 + size % 16 ≡ type_num t * 16 + size % 16 + 0 * 128 = omega arith in
    let whole : size / 16 ≡ 0 = ground arith in
    let low : size % 16 ≡ size = omega arith in
    rw (c, whole)
      (parse_header-parts t (type_num t * 16 + size % 16 + 0 * 128) size rest rest
        (type_bits t (size % 16) 0 (omega arith) (omega arith))
        (rw (size_bits t (size % 16) 0 (omega arith)) (
          varint_loop-last (type_num t * 16 + size % 16 + 0 * 128) (size % 16) 4 rest
            (omega (arith, type_num_small t))
          ∙ ap {A = ℕ} {B = Result DeltaError (ℕ × List ℕ)} (λ v. ok (v, rest)) low)))

-- The front of an object is read back, for every type and size that a machine can hold.
pub parse_header-entry_header :
    (t : ObjectType) (size : ℕ) (rest : List ℕ)
    → size < u64_mod
    → parse_header (entry_header t size ++ rest) ≡ ok (t, size, rest)
unfolding entry_header
parse_header-entry_header t size rest fits = elim (Bool-cases (ltb 0 (size / 16))) [
  | inl e ↦ rw (first_byte t size, e) (marked_front t size rest fits e)
  | inr e ↦ rw (first_byte t size, e) (single_front t size rest e)
]
