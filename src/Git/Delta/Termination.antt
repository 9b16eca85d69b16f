-- ===== src/Git/Delta/Termination.antt =====
-- Applying a delta ends on every input: the fuel, one round for each byte, is enough.
use git_nfs.Prelude.{
  ℕ, zero, suc, ◌+◌, ◌≤◌, ◌≢◌, Bool, true, false, Bool-cases, inl, inr, List, [], ◌∷◌, ◌++◌, length,
  take, drop, length-drop, Result, ok, err, ◌>>=◌, guard, arith, ltb, leb, ◌==◌,
}
use Prim.Native.Nat.{bit_and, bit_or}
use git_nfs.Bytes.{capacity_limit}
use git_nfs.Git.Delta.{
  DeltaError, stuck, copy_out_of_range, size_mismatch, capacity_overflow, has_bit, shl, varint_loop,
  decode_varint, operand, copy_operands, instruction, delta_loop, apply_git_delta,
}

-- What holds of a value; an error is not that the fuel ran out.
abbrev Safe {ℓ} : {A : Type ℓ} → (A → Type 0) → Result DeltaError A → Type 0
Safe P (ok a) = P a
Safe P (err e) = e ≢ stuck

Safe-bind {ℓ κ} :
    {A : Type ℓ} {B : Type κ} (P : A → Type 0) (Q : B → Type 0) (r : Result DeltaError A)
    (f : A → Result DeltaError B)
    → Safe P r
    → ((a : A) → P a → Safe Q (f a))
    → Safe Q (r >>= f)
Safe-bind P Q (ok a) f s next = next a s
Safe-bind P Q (err e) f s next = s

abbrev Within {ℓ} : {A : Type ℓ} → ℕ → A × List ℕ → Type 0
Within n o = length o.1 ≤ n

operand-Safe :
    (op bit distance n : ℕ) (o : ℕ × List ℕ)
    → Within n o
    → Safe (Within n) (operand op bit distance o)
unfolding operand
operand-Safe op bit distance n (v, []) h = elim (Bool-cases (has_bit bit op)) [
  | inl e ↦ rw (operand, e) (λ i. cc i)
  | inr e ↦ rw (operand, e) h
]
operand-Safe op bit distance n (v, b ∷ bytes) h = elim (Bool-cases (has_bit bit op)) [
  | inl e ↦ rw (operand, e) (omega arith)
  | inr e ↦ rw (operand, e) h
]

copy_operands-Safe :
    (op : ℕ) (bytes : List ℕ)
    → Safe (λ (c : ℕ × ℕ × List ℕ). length c.2 ≤ length bytes) (copy_operands op bytes)
unfolding copy_operands
copy_operands-Safe op bytes =
    let n = length bytes in
    let W : ℕ × List ℕ → Type 0 = Within n in
    let Q : ℕ × ℕ × List ℕ → Type 0 = λ c. length c.2 ≤ n in
    Safe-bind W Q _ _ (operand-Safe op 0x01 0 n (0, bytes) (omega arith)) (λ o1 h1.
      Safe-bind W Q _ _ (operand-Safe op 0x02 8 n o1 h1) (λ o2 h2.
        Safe-bind W Q _ _ (operand-Safe op 0x04 16 n o2 h2) (λ o3 h3.
          Safe-bind W Q _ _ (operand-Safe op 0x08 24 n o3 h3) (λ o4 h4.
            Safe-bind W Q _ _ (operand-Safe op 0x10 0 n (0, o4.1) h4) (λ s1 k1.
              Safe-bind W Q _ _ (operand-Safe op 0x20 8 n s1 k1)
                (λ s2 k2. Safe-bind W Q _ _ (operand-Safe op 0x40 16 n s2 k2) (λ s3 k3. k3)))))))

instruction-Safe :
    (base : List ℕ) (op : ℕ) (bytes : List ℕ)
    → Safe (Within (length bytes)) (instruction base op bytes)
unfolding instruction
instruction-Safe base op bytes = elim (Bool-cases (has_bit 0x80 op)) [
  | inl e ↦
      rw (instruction, e)
        (Safe-bind (λ (c : ℕ × ℕ × List ℕ). length c.2 ≤ length bytes) (Within (length bytes))
          (copy_operands op bytes) _ (copy_operands-Safe op bytes)
          (λ c h. guarded c h (leb (c.0 + c.1) (length base))))
  | inr e ↦ elim (Bool-cases (op == 0)) [
    | inl f ↦ rw (instruction, e, f) (λ i. cc i)
    | inr f ↦ elim (Bool-cases (leb op (length bytes))) [
      | inl g ↦ rw (instruction, e, f, g) (omega (arith, length-drop op bytes))
      | inr g ↦ rw (instruction, e, f, g) (λ i. cc i)
    ]
  ]
]
  where
    guarded :
        (c : ℕ × ℕ × List ℕ)
        → length c.2 ≤ length bytes
        → (t : Bool)
        → Safe
            (Within {A = List ℕ} (length bytes))
            (guard t copy_out_of_range >>= λ u. ok (take c.1 (drop c.0 base), c.2))
    guarded c h true = h
    guarded c h false = λ i. cc i

-- The fuel is enough, since an instruction takes its first byte at least.
delta_loop-Safe :
    (fuel : ℕ) (base bytes out : List ℕ)
    → length bytes ≤ fuel
    → Safe (λ (o : List ℕ). Unit) (delta_loop fuel base bytes out)
unfolding delta_loop
delta_loop-Safe zero base [] out h = tt
delta_loop-Safe (suc fuel) base [] out h = tt
delta_loop-Safe zero base (op ∷ bytes) out h = absurd (omega arith)
delta_loop-Safe (suc fuel) base (op ∷ bytes) out h =
    Safe-bind (Within (length bytes)) (λ (o : List ℕ). Unit) (instruction base op bytes) _
      (instruction-Safe base op bytes)
      (λ r k. delta_loop-Safe fuel base r.1 (out ++ r.0) (omega arith))

varint_loop-Safe :
    (c val shift : ℕ) (bytes : List ℕ)
    → Safe (λ (o : ℕ × List ℕ). Unit) (varint_loop c val shift bytes)
unfolding varint_loop
varint_loop-Safe c val shift [] = elim (Bool-cases (has_bit 0x80 c)) [
  | inl e ↦ rw (varint_loop, e) (λ i. cc i)
  | inr e ↦ rw (varint_loop, e) tt
]
varint_loop-Safe c val shift (d ∷ bytes) = elim (Bool-cases (has_bit 0x80 c)) [
  | inl e ↦
      rw (varint_loop, e)
        (varint_loop-Safe d (bit_or val (shl (bit_and d 0x7f) shift)) (shift + 7) bytes)
  | inr e ↦ rw (varint_loop, e) tt
]

decode_varint-Safe : (bytes : List ℕ) → Safe (λ (o : ℕ × List ℕ). Unit) (decode_varint bytes)
unfolding decode_varint
decode_varint-Safe [] = λ i. cc i
decode_varint-Safe (c ∷ bytes) = varint_loop-Safe c (bit_and c 0x7f) 7 bytes

not_stuck : {A : Type 0} (P : A → Type 0) (r : Result DeltaError A) → Safe P r → r ≢ err stuck
not_stuck P (ok a) s = λ i. cc i
not_stuck P (err e) s = λ i. s (cc i)

-- On every base and every delta, well formed or not, the application ends: with a result, with one of the
-- errors of the source, or with the panic on a result of 2 ^ 63 bytes or more, never for want of fuel.
pub apply_git_delta_ends : (base delta : List ℕ) → apply_git_delta base delta ≢ err stuck
unfolding apply_git_delta
apply_git_delta_ends base delta =
    let V : ℕ × List ℕ → Type 0 = λ o. Unit in
    let Q : List ℕ → Type 0 = λ o. Unit in
    not_stuck Q (apply_git_delta base delta) (
      Safe-bind V Q (decode_varint delta) _ (decode_varint-Safe delta) (λ a h.
        Safe-bind V Q (decode_varint a.1) _ (decode_varint-Safe a.1) (λ b k.
          fitting (ltb b.0 capacity_limit) _ (
            Safe-bind Q Q (delta_loop (length b.1) base b.1 []) _
              (delta_loop-Safe (length b.1) base b.1 [] (omega arith))
              (λ out l. checked out (length out == b.0))))))
  where
    fitting :
        (t : Bool) (r : Result DeltaError (List ℕ))
        → Safe (λ (o : List ℕ). Unit) r
        → Safe (λ (o : List ℕ). Unit) (guard t capacity_overflow >>= λ u. r)
    fitting true r s = s
    fitting false r s = λ i. cc i

    checked :
        (out : List ℕ) (t : Bool)
        → Safe (λ (o : List ℕ). Unit) (guard t size_mismatch >>= λ u. ok out)
    checked out true = tt
    checked out false = λ i. cc i
