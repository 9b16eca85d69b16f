-- ===== src/Git/Delta/Copies.antt =====
-- Copy instructions: every choice of operand bytes that an encoder may make.
use Prim.Native.Nat.{bit_and}
use git_nfs.Prelude.{
  ℕ, ◌+◌, ◌*◌, ◌/◌, ◌%◌, ◌^◌, ◌≤◌, ◌<◌, ◌≡◌, refl, ap, List, [], ◌∷◌, ◌++◌, true, Option, none,
  some, ◌==◌, if◌then◌else◌, Result, ok, arith, length,
}
use git_nfs.Prelude.Bits.{and_80, same_below, eq_of_same_below}
use git_nfs.Git.Delta.Varint.{or_digit}
use git_nfs.Bytes.{u64_mod}
use git_nfs.Git.Delta.{DeltaError, has_bit, operand, copy_operands}

abbrev pub flag : Option ℕ → ℕ
flag none = 0
flag (some b) = 1

abbrev pub value : Option ℕ → ℕ
value none = 0
value (some b) = b

abbrev pub bytes_of : Option ℕ → List ℕ
bytes_of none = []
bytes_of (some b) = b ∷ []

abbrev pub IsOperand : Option ℕ → Type 0
IsOperand o = value o < 256

-- The operand bytes of a copy, each there or not.
pub record Copy : Type 0 where
  pub off0 : Option ℕ
  pub off1 : Option ℕ
  pub off2 : Option ℕ
  pub off3 : Option ℕ
  pub size0 : Option ℕ
  pub size1 : Option ℕ
  pub size2 : Option ℕ

pub record IsCopy (c : Copy) : Type 0 where
  pub off0 : IsOperand c.off0
  pub off1 : IsOperand c.off1
  pub off2 : IsOperand c.off2
  pub off3 : IsOperand c.off3
  pub size0 : IsOperand c.size0
  pub size1 : IsOperand c.size1
  pub size2 : IsOperand c.size2

abbrev pub opcode : Copy → ℕ
opcode c =
    128
    + flag c.off0
    + 2 * flag c.off1
    + 4 * flag c.off2
    + 8 * flag c.off3
    + 16 * flag c.size0
    + 32 * flag c.size1
    + 64 * flag c.size2

abbrev pub operand_bytes : Copy → List ℕ → List ℕ
operand_bytes c rest =
    bytes_of c.off0
    ++ (bytes_of c.off1
        ++ (bytes_of c.off2
            ++ (bytes_of c.off3
                ++ (bytes_of c.size0 ++ (bytes_of c.size1 ++ (bytes_of c.size2 ++ rest))))))

abbrev pub offset : Copy → ℕ
offset c = value c.off0 + value c.off1 * 2 ^ 8 + value c.off2 * 2 ^ 16 + value c.off3 * 2 ^ 24

abbrev pub size_field : Copy → ℕ
size_field c = value c.size0 + value c.size1 * 2 ^ 8 + value c.size2 * 2 ^ 16

-- A size of zero stands for 65536.
abbrev pub size : Copy → ℕ
size c = if size_field c == 0 then 0x10000 else size_field c

has_bit-flag :
    (op bit : ℕ) (o : Option ℕ)
    → bit_and op bit ≡ op / bit % 2 * bit
    → op / bit % 2 ≡ flag o
    → 1 ≤ bit
    → has_bit bit op ≡ (flag o == 1)
has_bit-flag op bit none h e p = ground (arith, ap (λ (t : ℕ). t * bit) e)
has_bit-flag op bit (some b) h e p = ground (arith, ap (λ (t : ℕ). t * bit) e)

flag_le : (o : Option ℕ) → flag o ≤ 1
flag_le none = omega arith
flag_le (some b) = omega arith

-- What the bits of an opcode say.
record Announces (c : Copy) : Type 0 where
  bit0 : has_bit 0x01 (opcode c) ≡ (flag c.off0 == 1)
  bit1 : has_bit 0x02 (opcode c) ≡ (flag c.off1 == 1)
  bit2 : has_bit 0x04 (opcode c) ≡ (flag c.off2 == 1)
  bit3 : has_bit 0x08 (opcode c) ≡ (flag c.off3 == 1)
  bit4 : has_bit 0x10 (opcode c) ≡ (flag c.size0 == 1)
  bit5 : has_bit 0x20 (opcode c) ≡ (flag c.size1 == 1)
  bit6 : has_bit 0x40 (opcode c) ≡ (flag c.size2 == 1)

module _ (c : Copy) where
  flags :
      (flag c.off0 ≤ 1)
      × (flag c.off1 ≤ 1)
      × (flag c.off2 ≤ 1)
      × (flag c.off3 ≤ 1)
      × (flag c.size0 ≤ 1)
      × (flag c.size1 ≤ 1)
      × (flag c.size2 ≤ 1)
  flags = (
    flag_le c.off0,
    flag_le c.off1,
    flag_le c.off2,
    flag_le c.off3,
    flag_le c.size0,
    flag_le c.size1,
    flag_le c.size2,
  )

  announced :
      (bit : ℕ) (o : Option ℕ)
      → same_below (λ b. bit_and b bit) (λ b. b / bit % 2 * bit) 256 ≡ true
      → opcode c / bit % 2 ≡ flag o
      → 1 ≤ bit
      → has_bit bit (opcode c) ≡ (flag o == 1)
  announced bit o table e p =
      let (f0, f1, f2, f3, f4, f5, f6) = flags in
      has_bit-flag (opcode c) bit o
        (eq_of_same_below (λ b. bit_and b bit) (λ b. b / bit % 2 * bit) 256 table (opcode c)
          (omega arith))
        e p

  announces : Announces c
  unfolding same_below
  announces =
      let (f0, f1, f2, f3, f4, f5, f6) = flags in
      record {
        bit0 = announced 0x01 c.off0 refl (omega arith) (omega arith);
        bit1 = announced 0x02 c.off1 refl (omega arith) (omega arith);
        bit2 = announced 0x04 c.off2 refl (omega arith) (omega arith);
        bit3 = announced 0x08 c.off3 refl (omega arith) (omega arith);
        bit4 = announced 0x10 c.size0 refl (omega arith) (omega arith);
        bit5 = announced 0x20 c.size1 refl (omega arith) (omega arith);
        bit6 = announced 0x40 c.size2 refl (omega arith) (omega arith);
      }

operand_there :
    (op bit distance acc : ℕ) (o : Option ℕ) (rest : List ℕ)
    → has_bit bit op ≡ (flag o == 1)
    → acc < 2 ^ distance
    → distance < 64
    → value o * 2 ^ distance < u64_mod
    → operand op bit distance (acc, bytes_of o ++ rest) ≡ ok (acc + value o * 2 ^ distance, rest)
unfolding operand
operand_there op bit distance acc none [] h fits near top = rw h (ground arith)
operand_there op bit distance acc none (b ∷ rest) h fits near top = rw h (ground arith)
operand_there op bit distance acc (some b) rest h fits near top =
    rw (h, or_digit acc b distance fits near top) refl

same_fields :
    {o o' s s' : ℕ} {rest : List ℕ}
    → o ≡ o'
    → s ≡ s'
    → ◌≡◌ {A = Result DeltaError (ℕ × ℕ × List ℕ)}
        (ok (o, if s == 0 then 0x10000 else s, rest))
        (ok (o', if s' == 0 then 0x10000 else s', rest))
same_fields e f = cc

pub copy_operands-copy :
    (c : Copy) (rest : List ℕ)
    → IsCopy c
    → copy_operands (opcode c) (operand_bytes c rest) ≡ ok (offset c, size c, rest)
unfolding copy_operands
copy_operands-copy c rest i =
    let a = announces c in
    let op = opcode c in
    let r6 = bytes_of c.size2 ++ rest in
    let r5 = bytes_of c.size1 ++ r6 in
    let r4 = bytes_of c.size0 ++ r5 in
    let r3 = bytes_of c.off3 ++ r4 in
    let r2 = bytes_of c.off2 ++ r3 in
    let r1 = bytes_of c.off1 ++ r2 in
    let o0 = 0 + value c.off0 * 2 ^ 0 in
    let o1 = o0 + value c.off1 * 2 ^ 8 in
    let o2 = o1 + value c.off2 * 2 ^ 16 in
    let s0 = 0 + value c.size0 * 2 ^ 0 in
    let s1 = s0 + value c.size1 * 2 ^ 8 in
    rw
      (
        operand_there op 0x01 0 0 c.off0 r1 a.bit0 (omega arith) (omega arith)
            (omega (arith, i.off0)),
        operand_there op 0x02 8 o0 c.off1 r2 a.bit1 (omega (arith, i.off0)) (omega arith)
            (omega (arith, i.off1)),
        operand_there op 0x04 16 o1 c.off2 r3 a.bit2 (omega (arith, i.off0, i.off1)) (omega arith)
            (omega (arith, i.off2)),
        operand_there op 0x08 24 o2 c.off3 r4 a.bit3 (omega (arith, i.off0, i.off1, i.off2))
            (omega arith) (omega (arith, i.off3)),
        operand_there op 0x10 0 0 c.size0 r5 a.bit4 (omega arith) (omega arith)
            (omega (arith, i.size0)),
        operand_there op 0x20 8 s0 c.size1 r6 a.bit5 (omega (arith, i.size0)) (omega arith)
            (omega (arith, i.size1)),
        operand_there op 0x40 16 s1 c.size2 rest a.bit6 (omega (arith, i.size0, i.size1))
            (omega arith) (omega (arith, i.size2)),
      )
      (same_fields {o' = offset c} {s = s1 + value c.size2 * 2 ^ 16} {s' = size_field c}
        {rest = rest} (omega arith) (omega arith))

-- The highest bit of an opcode tells a copy from an insertion.
pub has_bit-copy : (c : Copy) → has_bit 0x80 (opcode c) ≡ true
has_bit-copy c =
    let (f0, f1, f2, f3, f4, f5, f6) = flags c in
    let small : opcode c < 256 = omega arith in ground (arith, and_80 (opcode c) small)

length-bytes_of : (o : Option ℕ) (rest : List ℕ) → length rest ≤ length (bytes_of o ++ rest)
length-bytes_of none rest = omega arith
length-bytes_of (some b) rest = omega arith

pub length-operand_bytes : (c : Copy) (rest : List ℕ) → length rest ≤ length (operand_bytes c rest)
length-operand_bytes c rest =
    let r6 = bytes_of c.size2 ++ rest in
    let r5 = bytes_of c.size1 ++ r6 in
    let r4 = bytes_of c.size0 ++ r5 in
    let r3 = bytes_of c.off3 ++ r4 in
    let r2 = bytes_of c.off2 ++ r3 in
    let r1 = bytes_of c.off1 ++ r2 in
    omega (
      arith,
      length-bytes_of c.off0 r1,
      length-bytes_of c.off1 r2,
      length-bytes_of c.off2 r3,
      length-bytes_of c.off3 r4,
      length-bytes_of c.size0 r5,
      length-bytes_of c.size1 r6,
      length-bytes_of c.size2 rest,
    )
