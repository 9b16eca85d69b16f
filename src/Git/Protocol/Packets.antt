-- ===== src/Git/Protocol/Packets.antt =====
-- A stream of packets is read packet by packet.
use git_nfs.Prelude.{
  ℕ, ◌+◌, ◌-◌, ◌^◌, ◌≤◌, ◌<◌, ◌≡◌, refl, ap, sym, ◌∙◌, true, false, List, [], ◌∷◌, ◌++◌, length,
  take, drop, replicate, length-append, length-replicate, take-length_append, take-append_le,
  drop-length_append, ok, arith, All, append_assoc, ltb, lt→ltb, ◌==◌, ◌||◌,
}
use git_nfs.Text.Utf8.{is_utf8}
use git_nfs.Text.Radix.{digits_of, digit_char}
use git_nfs.Text.Radix.Digits.{
  IsDigit, from_str_radix-padded, padded-IsDigit, length-digits_of, length-digits_of_pos,
}
use git_nfs.Bytes.{u64_mod}
use git_nfs.Git.Protocol.{
  flush_pkt, delim_pkt, hex_prefix, line_length, packet_of, read_packet, special, chunk, end, cut,
}

length-hex_prefix : (n : ℕ) → n < 2 ^ 16 → length (hex_prefix n) ≡ 4
unfolding hex_prefix
length-hex_prefix n h = omega (
  arith,
  length-append (replicate (4 - length (digits_of 15 16 n)) b'0') (digits_of 15 16 n),
  length-replicate {A = ℕ} (4 - length (digits_of 15 16 n)) b'0',
  length-digits_of 15 16 n 3 (omega arith) h,
)

-- Digits are a text.
utf8_of_digits : (s : List ℕ) → All IsDigit s → is_utf8 s ≡ true
unfolding is_utf8
utf8_of_digits [] h = refl
utf8_of_digits (a ∷ []) h = lt→ltb a 128 h.0.ascii
utf8_of_digits (a ∷ b ∷ []) h = rw (is_utf8, lt→ltb a 128 h.0.ascii) (utf8_of_digits (b ∷ []) h.1)
utf8_of_digits (a ∷ b ∷ c ∷ []) h =
    rw (is_utf8, lt→ltb a 128 h.0.ascii) (utf8_of_digits (b ∷ c ∷ []) h.1)
utf8_of_digits (a ∷ b ∷ c ∷ d ∷ s) h =
    rw (is_utf8, lt→ltb a 128 h.0.ascii) (utf8_of_digits (b ∷ c ∷ d ∷ s) h.1)

-- The length that was written is read.
line_length-hex_prefix : (n : ℕ) → n < 2 ^ 16 → line_length (hex_prefix n) ≡ ok n
unfolding line_length hex_prefix
line_length-hex_prefix n h =
    let digits = digits_of 15 16 n in
    rw
      (
        line_length,
        utf8_of_digits (hex_prefix n)
            (padded-IsDigit (4 - length digits) 15 16 n (omega arith) (omega arith) (omega arith)),
        from_str_radix-padded (4 - length digits) 15 16 u64_mod n (omega arith) (omega arith)
            (omega arith) (omega arith),
      )
      refl

-- A line of `n` bytes, its length included.
unfoldable pub line_of : List ℕ → List ℕ
line_of payload = hex_prefix (length payload + 4) ++ payload

length-line_of :
    (payload : List ℕ) → length payload + 4 < 2 ^ 16 → length (line_of payload) ≡ length payload + 4
unfolding line_of
length-line_of payload h = omega (
  arith,
  length-append (hex_prefix (length payload + 4)) payload,
  length-hex_prefix (length payload + 4) h,
)

pub length-line_of_pos : (payload : List ℕ) → 0 < length (line_of payload)
unfolding line_of hex_prefix
length-line_of_pos payload =
    let digits = digits_of 15 16 (length payload + 4) in
    omega (
      arith,
      length-append (replicate (4 - length digits) b'0' ++ digits) payload,
      length-append (replicate (4 - length digits) b'0') digits,
      length-digits_of_pos 15 16 (length payload + 4),
    )

-- A prefix is read first.
take-hex_prefix :
    (n : ℕ) (rest : List ℕ) → n < 2 ^ 16 → take 4 (hex_prefix n ++ rest) ≡ hex_prefix n
take-hex_prefix n rest h =
    ap (λ k. take k (hex_prefix n ++ rest)) (sym (length-hex_prefix n h))
    ∙ take-length_append (hex_prefix n) rest

drop-hex_prefix : (n : ℕ) (rest : List ℕ) → n < 2 ^ 16 → drop 4 (hex_prefix n ++ rest) ≡ rest
drop-hex_prefix n rest h =
    ap (λ k. drop k (hex_prefix n ++ rest)) (sym (length-hex_prefix n h))
    ∙ drop-length_append (hex_prefix n) rest

read_packet-prefix :
    (n : ℕ) (bytes : List ℕ)
    → n < 2 ^ 16
    → 4 ≤ length bytes
    → take 4 bytes ≡ hex_prefix n
    → read_packet bytes ≡ packet_of bytes n
unfolding read_packet
read_packet-prefix n bytes h l e =
    let f : ltb (length bytes) 4 ≡ false = ground arith in
    rw (read_packet, f, e, line_length-hex_prefix n h) refl

-- A line in front of other bytes is read as one chunk.
pub read_packet-line :
    (payload rest : List ℕ)
    → length payload + 4 < 2 ^ 16
    → read_packet (line_of payload ++ rest) ≡ ok (chunk payload rest)
unfolding line_of packet_of
read_packet-line payload rest h =
    let n = length payload + 4 in
    let l : length (line_of payload) ≡ n = length-line_of payload h in
    let bytes = line_of payload ++ rest in
    let a : length bytes ≡ n + length rest = omega (arith, length-append (line_of payload) rest) in
    let t : take n bytes ≡ line_of payload =
      ap (λ k. take k bytes) (sym l) ∙ take-length_append (line_of payload) rest in
    let d : drop n bytes ≡ rest =
      ap (λ k. drop k bytes) (sym l) ∙ drop-length_append (line_of payload) rest in
    let c : drop 4 (line_of payload) ≡ payload = drop-hex_prefix n payload h in
    let e1 : (n == 0 || n == 1) ≡ false = ground arith in
    let e2 : ltb (length bytes) n ≡ false = ground arith in
    let e3 : ltb n 4 ≡ false = ground arith in
    read_packet-prefix n bytes h (omega arith) (
      ap (take 4) (append_assoc (hex_prefix n) payload rest)
      ∙ take-hex_prefix n (payload ++ rest) h)
    ∙ rw (packet_of, e1, e2, e3, t, d, c) refl

-- A line that is not there as a whole.
pub read_packet-cut :
    (payload part missing : List ℕ)
    → length payload + 4 < 2 ^ 16
    → line_of payload ≡ part ++ missing
    → 4 ≤ length part
    → 0 < length missing
    → read_packet part ≡ ok (cut (length payload + 4) (length part))
unfolding line_of packet_of
read_packet-cut payload part missing h w l m =
    let n = length payload + 4 in
    let a : length part < n =
      omega (arith, length-line_of payload h, ap length w, length-append part missing) in
    let e1 : (n == 0 || n == 1) ≡ false = ground arith in
    let e2 : ltb (length part) n ≡ true = ground arith in
    read_packet-prefix n part h l
      (sym (take-append_le 4 part missing l) ∙ ap (take 4) (sym w) ∙ take-hex_prefix n payload h)
    ∙ rw (packet_of, e1, e2) refl

pub read_packet-special :
    (n : ℕ) (rest : List ℕ) → n < 2 → read_packet (hex_prefix n ++ rest) ≡ ok (special rest)
unfolding packet_of
read_packet-special n rest h =
    let e1 : (n == 0 || n == 1) ≡ true = ground arith in
    read_packet-prefix n (hex_prefix n ++ rest) (omega arith)
      (omega (arith, length-append (hex_prefix n) rest, length-hex_prefix n (omega arith)))
      (take-hex_prefix n rest (omega arith))
    ∙ rw (packet_of, e1, drop-hex_prefix n rest (omega arith)) refl

pub read_packet-flush : (rest : List ℕ) → read_packet (flush_pkt ++ rest) ≡ ok (special rest)
unfolding hex_prefix digits_of digit_char
read_packet-flush rest = read_packet-special 0 rest (omega arith)

pub read_packet-delim : (rest : List ℕ) → read_packet (delim_pkt ++ rest) ≡ ok (special rest)
unfolding hex_prefix digits_of digit_char
read_packet-delim rest = read_packet-special 1 rest (omega arith)

pub read_packet-end : (bytes : List ℕ) → length bytes < 4 → read_packet bytes ≡ ok end
unfolding read_packet
read_packet-end bytes h = rw (read_packet, lt→ltb (length bytes) 4 h) refl
