-- ===== src/Git/Delta.antt =====
-- src/git/pack.rs: delta instructions. A position in the buffer is the rest of the buffer. Shifts are
-- those of a release build on 64 bits, which takes the shift's distance modulo 64.
pub mod Varint
pub mod Copies
pub mod Apply
pub mod Termination
mod Tests
use git_nfs.Prelude.{ℕ, zero, suc, ◌+◌, ◌*◌, ◌%◌, ◌^◌, Bool, not, List, [], ◌∷◌, ◌++◌}
use git_nfs.Prelude.{
  ◌==◌, ltb, leb, if◌then◌else◌, length, take, drop, Result, ok, err, ◌>>=◌, ◌>>◌, guard,
}
use Prim.Native.Nat.{bit_and, bit_or}
use git_nfs.Bytes.{u64_mod, capacity_limit}

-- `stuck` is no error of the source: the loop ran out of fuel. `capacity_overflow` is the panic of
-- `Vec::with_capacity`; below its limit memory is not exhausted.
pub data DeltaError : Type 0 where
  varint_truncated delta_truncated copy_out_of_range insert_out_of_range opcode_zero : DeltaError
  size_mismatch capacity_overflow stuck : DeltaError

abbrev pub shl : ℕ → ℕ → ℕ
shl x distance = x * 2 ^ (distance % 64) % u64_mod

abbrev pub has_bit : ℕ → ℕ → Bool
has_bit bit op = not (bit_and op bit == 0)

-- The loop of `decode_varint`, behind the byte `c`.
unfoldable pub varint_loop : ℕ → ℕ → ℕ → List ℕ → Result DeltaError (ℕ × List ℕ)
varint_loop c val shift [] = if has_bit 0x80 c then err varint_truncated else ok (val, [])
varint_loop c val shift (d ∷ bytes) =
    let more = varint_loop d (bit_or val (shl (bit_and d 0x7f) shift)) (shift + 7) bytes in
    if has_bit 0x80 c then more else ok (val, d ∷ bytes)

unfoldable pub decode_varint : List ℕ → Result DeltaError (ℕ × List ℕ)
decode_varint [] = err varint_truncated
decode_varint (c ∷ bytes) = varint_loop c (bit_and c 0x7f) 7 bytes

-- One operand byte of a copy, if the opcode announces it.
unfoldable pub operand : ℕ → ℕ → ℕ → ℕ × List ℕ → Result DeltaError (ℕ × List ℕ)
operand op bit distance (value, []) = if has_bit bit op then err delta_truncated else ok (value, [])
operand op bit distance (value, b ∷ bytes) =
    if has_bit bit op then ok (bit_or value (shl b distance), bytes) else ok (value, b ∷ bytes)

-- The offset and the size of a copy, and the rest.
unfoldable pub copy_operands : ℕ → List ℕ → Result DeltaError (ℕ × ℕ × List ℕ)
copy_operands op bytes = do
  o1 ← operand op 0x01 0 (0, bytes)
  o2 ← operand op 0x02 8 o1
  o3 ← operand op 0x04 16 o2
  (cp_off, bytes') ← operand op 0x08 24 o3
  s1 ← operand op 0x10 0 (0, bytes')
  s2 ← operand op 0x20 8 s1
  (cp_size, bytes'') ← operand op 0x40 16 s2
  ok (cp_off, if cp_size == 0 then 0x10000 else cp_size, bytes'')

-- One instruction: what it appends to the output, and the rest.
unfoldable pub instruction : List ℕ → ℕ → List ℕ → Result DeltaError (List ℕ × List ℕ)
instruction base op bytes =
    if has_bit 0x80 op
    then (do
      (cp_off, cp_size, rest) ← copy_operands op bytes
      guard (leb (cp_off + cp_size) (length base)) copy_out_of_range
      ok (take cp_size (drop cp_off base), rest))
    else if op == 0
    then err opcode_zero
    else if leb op (length bytes)
    then ok (take op bytes, drop op bytes)
    else err insert_out_of_range

unfoldable pub delta_loop : ℕ → List ℕ → List ℕ → List ℕ → Result DeltaError (List ℕ)
delta_loop fuel base [] out = ok out
delta_loop zero base (op ∷ bytes) out = err stuck
delta_loop (suc fuel) base (op ∷ bytes) out = do
  (piece, rest) ← instruction base op bytes
  delta_loop fuel base rest (out ++ piece)

-- The length of the base is read and not compared. An instruction takes a byte at least.
unfoldable pub apply_git_delta : List ℕ → List ℕ → Result DeltaError (List ℕ)
apply_git_delta base delta = do
  (base_len, bytes) ← decode_varint delta
  (res_len, bytes') ← decode_varint bytes
  guard (ltb res_len capacity_limit) capacity_overflow
  out ← delta_loop (length bytes') base bytes' []
  guard (length out == res_len) size_mismatch
  ok out
