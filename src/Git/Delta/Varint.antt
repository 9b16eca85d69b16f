-- ===== src/Git/Delta/Varint.antt =====
-- The sizes at the front of a delta.
use Prim.Native.Nat.{bit_and, bit_or}
use git_nfs.Prelude.{
  ℕ, zero, suc, ◌+◌, ◌*◌, ◌/◌, ◌%◌, ◌^◌, ◌≤◌, ◌<◌, ◌≡◌, ap, sym, ◌∙◌, List, [], ◌∷◌, ◌++◌, ltb,
  if◌then◌else◌, Result, ok, err, arith, Bool-cases, inl, inr,
}
use native.Mathlib.Nat.{pow-suc}
use git_nfs.Prelude.Bits.{and_7f, and_80, or_shifted}
use git_nfs.Bytes.{u64_mod}
use git_nfs.Git.Delta.{DeltaError, shl, varint_loop, decode_varint}

-- The bytes of `n`, seven bits each from the lowest on, at most `k` before the last one.
unfoldable pub varint : ℕ → ℕ → List ℕ
varint zero n = n ∷ []
varint (suc k) n = if ltb n 128 then n ∷ [] else (n % 128 + 128) ∷ varint k (n / 128)

-- A round of the loop, entered with the next byte not yet taken.
pub varint_from : ℕ → ℕ → List ℕ → Result DeltaError (ℕ × List ℕ)
varint_from val shift [] = err DeltaError.varint_truncated
varint_from val shift (d ∷ bytes) =
    varint_loop d (bit_or val (shl (bit_and d 0x7f) shift)) (shift + 7) bytes

-- A byte without the mark ends the number, one with it goes on.
pub varint_loop-last :
    (c val shift : ℕ) (bytes : List ℕ) → c < 128 → varint_loop c val shift bytes ≡ ok (val, bytes)
unfolding varint_loop
varint_loop-last c val shift [] small = rw (and_80 c (omega arith)) (ground arith)
varint_loop-last c val shift (d ∷ bytes) small = rw (and_80 c (omega arith)) (ground arith)

pub varint_loop-more :
    (c val shift : ℕ) (bytes : List ℕ)
    → c < 128
    → varint_loop (c + 128) val shift bytes ≡ varint_from val shift bytes
unfolding varint_loop varint_from
varint_loop-more c val shift [] small = rw (and_80 (c + 128) (omega arith)) (ground arith)
varint_loop-more c val shift (d ∷ bytes) small = rw (and_80 (c + 128) (omega arith)) (ground arith)

-- The digit is put above the ones before it.
pub or_digit :
    (val d shift : ℕ)
    → val < 2 ^ shift
    → shift < 64
    → d * 2 ^ shift < u64_mod
    → bit_or val (shl d shift) ≡ val + d * 2 ^ shift
or_digit val d shift fits small room =
    ap (λ (s : ℕ). bit_or val (d * 2 ^ s % u64_mod)) (let e : shift % 64 ≡ shift = omega arith in e)
    ∙ ap (bit_or val) (let e : d * 2 ^ shift % u64_mod ≡ d * 2 ^ shift = omega arith in e)
    ∙ or_shifted shift val d fits

pow_7 : (s : ℕ) → 2 ^ (s + 7) ≡ 128 * 2 ^ s
pow_7 s =
    ap (λ (t : ℕ). 2 ^ t)
      (let e : s + 7 ≡ suc (suc (suc (suc (suc (suc (suc s)))))) = omega arith in e)
    ∙ omega (
      arith,
      pow-suc 2 (suc (suc (suc (suc (suc (suc s)))))),
      pow-suc 2 (suc (suc (suc (suc (suc s))))),
      pow-suc 2 (suc (suc (suc (suc s)))),
      pow-suc 2 (suc (suc (suc s))),
      pow-suc 2 (suc (suc s)),
      pow-suc 2 (suc s),
      pow-suc 2 s,
    )

pow_pos : (s : ℕ) → 1 ≤ 2 ^ s
pow_pos zero = omega arith
pow_pos (suc s) = omega (arith, pow-suc 2 s, pow_pos s)

spread : (a b p : ℕ) → (a + 128 * b) * p ≡ a * p + b * (128 * p)
spread a b p = grind arith

split_digit : (n p : ℕ) → n % 128 * p + n / 128 * (128 * p) ≡ n * p
split_digit n p =
    sym (spread (n % 128) (n / 128) p)
    ∙ ap (λ (t : ℕ). t * p) (let e : n % 128 + 128 * (n / 128) ≡ n = omega arith in e)

-- The steps of a round: the next digit, and the numbers that the rest starts from.
digit_fits : (val d shift : ℕ) → val < 2 ^ shift → d < 128 → val + d * 2 ^ shift < 2 ^ (shift + 7)
digit_fits val d shift fits small =
    let p : d * 2 ^ shift ≤ 127 * 2 ^ shift = grind arith in omega (arith, pow_7 shift)

-- The first byte of a number, last of all or not.
last_digit :
    (n val shift : ℕ) (rest : List ℕ)
    → n < 128
    → val < 2 ^ shift
    → shift < 64
    → n * 2 ^ shift < u64_mod
    → varint_from val shift (n ∷ rest) ≡ ok (val + n * 2 ^ shift, rest)
unfolding varint_from
last_digit n val shift rest small fits room top =
    varint_loop-last n (bit_or val (shl (bit_and n 0x7f) shift)) (shift + 7) rest small
    ∙ ap {A = ℕ} {B = Result DeltaError (ℕ × List ℕ)} (λ v. ok (v, rest))
        (ap (λ (d : ℕ). bit_or val (shl d shift))
            (let e : bit_and n 0x7f ≡ n = omega (arith, and_7f n (omega arith)) in e)
          ∙ or_digit val n shift fits room top)

marked_digit :
    (d val shift : ℕ) (bytes : List ℕ)
    → d < 128
    → val < 2 ^ shift
    → shift < 64
    → d * 2 ^ shift < u64_mod
    → varint_from val shift ((d + 128) ∷ bytes)
      ≡ varint_from (val + d * 2 ^ shift) (shift + 7) bytes
unfolding varint_from
marked_digit d val shift bytes small fits room top =
    varint_loop-more d (bit_or val (shl (bit_and (d + 128) 0x7f) shift)) (shift + 7) bytes small
    ∙ ap (λ (v : ℕ). varint_from v (shift + 7) bytes)
        (ap (λ (t : ℕ). bit_or val (shl t shift))
            (let e : bit_and (d + 128) 0x7f ≡ d = omega (arith, and_7f (d + 128) (omega arith)) in
              e)
          ∙ or_digit val d shift fits room top)

pub varint_from-varint :
    (k n val shift : ℕ) (rest : List ℕ)
    → n < 128 ^ suc k
    → val < 2 ^ shift
    → shift + 7 * k < 64
    → n * 2 ^ shift < u64_mod
    → varint_from val shift (varint k n ++ rest) ≡ ok (val + n * 2 ^ shift, rest)
unfolding varint
varint_from-varint zero n val shift rest small fits room top =
    last_digit n val shift rest (omega arith) fits (omega arith) top
varint_from-varint (suc k) n val shift rest small fits room top = elim (Bool-cases (ltb n 128)) [
  | inl e ↦ rw e (last_digit n val shift rest (ground arith) fits (omega arith) top)
  | inr e ↦
      let d : n % 128 < 128 = omega arith in
      let low : n % 128 * 2 ^ shift ≤ n * 2 ^ shift =
        let le : n % 128 ≤ n = omega arith in grind arith in
      let high : n / 128 * 2 ^ (shift + 7) < u64_mod =
        omega (arith, split_digit n (2 ^ shift), ap (λ (t : ℕ). n / 128 * t) (pow_7 shift)) in
      rw e (
        marked_digit (n % 128) val shift (varint k (n / 128) ++ rest) d fits (omega arith)
          (omega arith)
        ∙ varint_from-varint k (n / 128) (val + n % 128 * 2 ^ shift) (shift + 7) rest
            (omega (arith, pow-suc 128 (suc k))) (digit_fits val (n % 128) shift fits d)
            (omega arith) high
        ∙ ap {A = ℕ} {B = Result DeltaError (ℕ × List ℕ)} (λ v. ok (v, rest))
            (omega (arith, split_digit n (2 ^ shift), ap (λ (t : ℕ). n / 128 * t) (pow_7 shift))))
]

-- The function starts with the first digit, as a round at distance 0 does.
decode_varint-from :
    (c : ℕ) (bytes : List ℕ) → c < 256 → decode_varint (c ∷ bytes) ≡ varint_from 0 0 (c ∷ bytes)
unfolding decode_varint varint_from
decode_varint-from c bytes small =
    ap (λ (v : ℕ). varint_loop c v 7 bytes)
      (omega (
        arith,
        and_7f c small,
        or_digit 0 (bit_and c 0x7f) 0 (omega arith) (omega arith) (omega (arith, and_7f c small)),
      ))

-- A number below 2 ^ 63 comes back from its bytes, and the rest is left.
pub decode_varint-varint :
    (n : ℕ) (rest : List ℕ) → n < 2 ^ 63 → decode_varint (varint 8 n ++ rest) ≡ ok (n, rest)
unfolding varint
decode_varint-varint n rest small = begins ∙ counted
  where
    counted : varint_from 0 0 (varint 8 n ++ rest) ≡ ok (n, rest)
    counted =
        varint_from-varint 8 n 0 0 rest (omega arith) (omega arith) (omega arith) (omega arith)
        ∙ ap {A = ℕ} {B = Result DeltaError (ℕ × List ℕ)} (λ v. ok (v, rest)) (omega arith)

    begins : decode_varint (varint 8 n ++ rest) ≡ varint_from 0 0 (varint 8 n ++ rest)
    begins = elim (Bool-cases (ltb n 128)) [
      | inl e ↦ rw (varint, e) (decode_varint-from n rest (ground arith))
      | inr e ↦
          rw (varint, e)
            (decode_varint-from (n % 128 + 128) (varint 7 (n / 128) ++ rest) (omega arith))
    ]
