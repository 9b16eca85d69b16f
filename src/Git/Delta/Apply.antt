-- ===== src/Git/Delta/Apply.antt =====
-- `apply_git_delta` on any encoding of a list of instructions does what the instructions say.
use git_nfs.Bytes.{capacity_limit}
use git_nfs.Prelude.{ltb}
use git_nfs.Prelude.{
  ℕ, zero, suc, ◌+◌, ◌^◌, ◌≤◌, ◌<◌, ◌≡◌, refl, List, [], ◌∷◌, ◌++◌, true, false, ◌==◌, leb,
  if◌then◌else◌, Result, ok, err, ◌>>=◌, ◌>>◌, guard, arith, Bool-cases, inl, inr, length, take,
  drop, All, length-append, take-length_append, drop-length_append,
}
use git_nfs.Prelude.Bits.{and_80}
use git_nfs.Git.Delta.{
  DeltaError, copy_out_of_range, size_mismatch, has_bit, instruction, delta_loop, apply_git_delta,
}
use git_nfs.Git.Delta.Varint.{varint, decode_varint-varint}
use git_nfs.Git.Delta.Copies.{
  Copy, IsCopy, opcode, operand_bytes, offset, size, copy_operands-copy, has_bit-copy,
  length-operand_bytes,
}

-- An instruction: copy a range of the base, or insert bytes.
pub data Instruction : Type 0 where
  copies : Copy → Instruction
  inserts : List ℕ → Instruction

abbrev pub IsInstruction : Instruction → Type 0
IsInstruction (copies c) = IsCopy c
IsInstruction (inserts bytes) = (1 ≤ length bytes) × (length bytes < 128)

abbrev pub encode : Instruction → List ℕ → List ℕ
encode (copies c) rest = opcode c ∷ operand_bytes c rest
encode (inserts bytes) rest = length bytes ∷ (bytes ++ rest)

abbrev pub encode_all : List Instruction → List ℕ
encode_all [] = []
encode_all (i ∷ is) = encode i (encode_all is)

-- What an instruction appends.
abbrev pub piece : List ℕ → Instruction → Result DeltaError (List ℕ)
piece base (copies c) =
    if leb (offset c + size c) (length base)
    then ok (take (size c) (drop (offset c) base))
    else err copy_out_of_range
piece base (inserts bytes) = ok bytes

-- What a list of instructions makes, behind what is there.
abbrev pub run : List ℕ → List Instruction → List ℕ → Result DeltaError (List ℕ)
run base [] out = ok out
run base (i ∷ is) out = piece base i >>= λ p. run base is (out ++ p)

instruction-copies :
    (base : List ℕ) (c : Copy) (rest : List ℕ)
    → IsCopy c
    → instruction base (opcode c) (operand_bytes c rest)
      ≡ (piece base (copies c) >>= λ p. ok (p, rest))
unfolding instruction
instruction-copies base c rest h = elim (Bool-cases (leb (offset c + size c) (length base))) [
  | inl e ↦ rw (has_bit-copy c, copy_operands-copy c rest h, e) refl
  | inr e ↦ rw (has_bit-copy c, copy_operands-copy c rest h, e) refl
]

instruction-inserts :
    (base bytes rest : List ℕ)
    → 1 ≤ length bytes
    → length bytes < 128
    → instruction base (length bytes) (bytes ++ rest) ≡ ok (bytes, rest)
unfolding instruction
instruction-inserts base bytes rest one short =
    rw (plain, some_bytes, there, take-length_append bytes rest, drop-length_append bytes rest) refl
  where
    plain : has_bit 0x80 (length bytes) ≡ false
    plain = ground (arith, and_80 (length bytes) (omega arith))

    some_bytes : (length bytes == 0) ≡ false
    some_bytes = ground arith

    there : leb (length bytes) (length (bytes ++ rest)) ≡ true
    there = ground (arith, length-append bytes rest)

length-encode : (i : Instruction) (rest : List ℕ) → length rest < length (encode i rest)
length-encode (copies c) rest = omega (arith, length-operand_bytes c rest)
length-encode (inserts bytes) rest = omega (arith, length-append bytes rest)

delta_loop-encode_all :
    (fuel : ℕ) (base : List ℕ) (is : List Instruction) (out : List ℕ)
    → All IsInstruction is
    → length is ≤ fuel
    → delta_loop fuel base (encode_all is) out ≡ run base is out
unfolding delta_loop
delta_loop-encode_all fuel base [] out h le = refl
delta_loop-encode_all zero base (i ∷ is) out h le = absurd (omega arith)
delta_loop-encode_all (suc fuel) base (copies c ∷ is) out h le =
    elim (Bool-cases (leb (offset c + size c) (length base))) [
      | inl e ↦
          rw (instruction-copies base c (encode_all is) h.0, e)
            (delta_loop-encode_all fuel base is (out ++ take (size c) (drop (offset c) base)) h.1
              (omega arith))
      | inr e ↦ rw (instruction-copies base c (encode_all is) h.0, e) refl
    ]
delta_loop-encode_all (suc fuel) base (inserts bytes ∷ is) out h le =
    rw (instruction-inserts base bytes (encode_all is) h.0.0 h.0.1)
      (delta_loop-encode_all fuel base is (out ++ bytes) h.1 (omega arith))

length-encode_all : (is : List Instruction) → length is ≤ length (encode_all is)
length-encode_all [] = omega arith
length-encode_all (i ∷ is) = omega (arith, length-encode i (encode_all is), length-encode_all is)

-- A delta made of two sizes and any instructions, each encoded with any choice of operand bytes: the
-- result is what the instructions make of the base, and an error if a copy leaves the base or if the
-- second size is not that of the result. The first size is not looked at.
pub apply_git_delta-encode_all :
    (base : List ℕ) (is : List Instruction) (base_len res_len : ℕ)
    → All IsInstruction is
    → base_len < 2 ^ 63
    → res_len < 2 ^ 63
    → apply_git_delta base (varint 8 base_len ++ (varint 8 res_len ++ encode_all is))
      ≡ (run base is [] >>= λ out. guard (length out == res_len) size_mismatch >> ok out)
unfolding apply_git_delta
apply_git_delta-encode_all base is base_len res_len h p q =
    rw
      (
        decode_varint-varint base_len (varint 8 res_len ++ encode_all is) p,
        decode_varint-varint res_len (encode_all is) q,
        fits,
        delta_loop-encode_all (length (encode_all is)) base is [] h (length-encode_all is),
      )
      refl
  where
    fits : ltb res_len capacity_limit ≡ true
    fits = ground arith
