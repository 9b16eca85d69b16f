-- ===== src/Git/Protocol/Termination.antt =====
-- The loops over packets end on every input: the fuel they are given is enough.
use git_nfs.Prelude.{
  ℕ, zero, suc, ◌≤◌, ◌<◌, ◌≡◌, ◌≢◌, refl, ap, ◌∙◌, Result-cases, ◌||◌, Bool-cases, Option-cases,
  inl, inr, List, [], ◌∷◌, length, take, length-drop, Result, ok, err, ◌>>=◌, arith, ltb, ◌==◌,
}
use git_nfs.Bytes.{u64_mod}
use git_nfs.Text.{starts_with, ascii}
use git_nfs.Text.Utf8.{is_utf8}
use git_nfs.Text.Radix.{from_str_radix}
use git_nfs.Git.Protocol.{
  PktError, stuck, Packet, end, special, cut, chunk, line_length, packet_of, read_packet,
  parse_loop, parse_pkt_lines, channel, extract_loop, find_pack, or_raw, extract_pack_from_sideband,
}

-- What a packet leaves is shorter than what there was, and reading it is not what runs out of fuel.
abbrev Shrinks : List ℕ → Result PktError Packet → Type 0
Shrinks bytes (ok end) = Unit
Shrinks bytes (ok (special rest)) = length rest < length bytes
Shrinks bytes (ok (cut n m)) = Unit
Shrinks bytes (ok (chunk c rest)) = length rest < length bytes
Shrinks bytes (err e) = e ≢ stuck

packet_of-Shrinks : (bytes : List ℕ) (n : ℕ) → 4 ≤ length bytes → Shrinks bytes (packet_of bytes n)
unfolding packet_of
packet_of-Shrinks bytes n h = elim (Bool-cases (n == 0 || n == 1)) [
  | inl e ↦ rw (packet_of, e) (omega (arith, length-drop 4 bytes))
  | inr e ↦ elim (Bool-cases (ltb (length bytes) n)) [
    | inl f ↦ rw (packet_of, e, f) tt
    | inr f ↦ elim (Bool-cases (ltb n 4)) [
      | inl g ↦ rw (packet_of, e, f, g) (λ i. cc i)
      | inr g ↦ rw (packet_of, e, f, g) (ground (arith, length-drop n bytes))
    ]
  ]
]

line_length-Shrinks :
    (bytes prefix : List ℕ)
    → 4 ≤ length bytes
    → Shrinks bytes (line_length prefix >>= packet_of bytes)
unfolding line_length
line_length-Shrinks bytes prefix h = elim (Bool-cases (is_utf8 prefix)) [
  | inl e ↦ elim (Option-cases (from_str_radix 16 u64_mod prefix)) [
    | inl f ↦ rw (line_length, e, f) (λ i. cc i)
    | inr (n, f) ↦ rw (line_length, e, f) (packet_of-Shrinks bytes n h)
  ]
  | inr e ↦ rw (line_length, e) (λ i. cc i)
]

read_packet-Shrinks : (bytes : List ℕ) → Shrinks bytes (read_packet bytes)
unfolding read_packet
read_packet-Shrinks bytes = elim (Bool-cases (ltb (length bytes) 4)) [
  | inl e ↦ rw (read_packet, e) tt
  | inr e ↦ rw (read_packet, e) (line_length-Shrinks bytes (take 4 bytes) (ground arith))
]

err_inj : {A : Type 0} {x y : PktError} → ◌≡◌ {A = Result PktError A} (err x) (err y) → x ≡ y
err_inj i = cc i

find_pack_ends : (bytes : List ℕ) → find_pack bytes ≢ err stuck
unfolding find_pack
find_pack_ends [] = λ i. cc i
find_pack_ends (b ∷ bytes) = elim (Bool-cases (starts_with (b ∷ bytes) (ascii "PACK"))) [
  | inl e ↦ rw (find_pack, e) (λ i. cc i)
  | inr e ↦ rw (find_pack, e) (find_pack_ends bytes)
]

or_raw_ends : (bytes pack : List ℕ) → or_raw bytes pack ≢ err stuck
unfolding or_raw
or_raw_ends bytes [] = find_pack_ends bytes
or_raw_ends bytes (b ∷ pack) = λ i. cc i

module _ (lossy : List ℕ → List ℕ) where
  channel_ends : (pack c : List ℕ) → channel lossy pack c ≢ err stuck
  unfolding channel
  channel_ends pack [] = λ i. cc i
  channel_ends pack (c ∷ payload) = elim (Bool-cases (c == 1)) [
    | inl e ↦ rw (channel, e) (λ i. cc i)
    | inr e ↦ elim (Bool-cases (c == 2)) [
      | inl f ↦ rw (channel, e, f) (λ i. cc i)
      | inr f ↦ elim (Bool-cases (c == 3)) [
        | inl g ↦ rw (channel, e, f, g) (λ i. cc i)
        | inr g ↦ elim (Bool-cases (starts_with (c ∷ payload) (ascii "PACK"))) [
          | inl h ↦ rw (channel, e, f, g, h) (λ i. cc i)
          | inr h ↦ rw (channel, e, f, g, h) (λ i. cc i)
        ]
      ]
    ]
  ]

  parse_loop_ends :
      (fuel : ℕ) (bytes : List ℕ) (lines : List (List ℕ))
      → length bytes < fuel
      → parse_loop lossy fuel bytes lines ≢ err stuck
  unfolding parse_loop
  parse_loop_ends zero bytes lines l = absurd (omega arith)
  parse_loop_ends (suc fuel) bytes lines l =
      go (read_packet bytes) refl (read_packet-Shrinks bytes)
        (λ rest more s. parse_loop_ends fuel rest more (omega arith))
    where
      go :
          (r : Result PktError Packet)
          → read_packet bytes ≡ r
          → Shrinks bytes r
          → ((rest : List ℕ) (more : List (List ℕ))
              → length rest < length bytes
              → parse_loop lossy fuel rest more ≢ err stuck)
          → parse_loop lossy (suc fuel) bytes lines ≢ err stuck
      go (ok end) e s rec = rw (parse_loop, e) (λ i. cc i)
      go (ok (special rest)) e s rec = rw (parse_loop, e) (rec rest lines s)
      go (ok (cut n m)) e s rec = rw (parse_loop, e) (λ i. cc i)
      go (ok (chunk c rest)) e s rec = rw (parse_loop, e) (rec rest _ s)
      go (err x) e s rec = rw (parse_loop, e) (λ i. s (err_inj i))

  extract_loop_ends :
      (fuel : ℕ) (bytes pack : List ℕ)
      → length bytes < fuel
      → extract_loop lossy fuel bytes pack ≢ err stuck
  unfolding extract_loop
  extract_loop_ends zero bytes pack l = absurd (omega arith)
  extract_loop_ends (suc fuel) bytes pack l =
      go (read_packet bytes) refl (read_packet-Shrinks bytes)
        (λ rest more s. extract_loop_ends fuel rest more (omega arith))
    where
      go :
          (r : Result PktError Packet)
          → read_packet bytes ≡ r
          → Shrinks bytes r
          → ((rest more : List ℕ)
              → length rest < length bytes
              → extract_loop lossy fuel rest more ≢ err stuck)
          → extract_loop lossy (suc fuel) bytes pack ≢ err stuck
      go (ok end) e s rec = rw (extract_loop, e) (λ i. cc i)
      go (ok (special rest)) e s rec = rw (extract_loop, e) (rec rest pack s)
      go (ok (cut n m)) e s rec = rw (extract_loop, e) (λ i. cc i)
      go (ok (chunk c rest)) e s rec = elim (Result-cases (channel lossy pack c)) [
        | inl (more, f) ↦ rw (extract_loop, e, f) (rec rest more s)
        | inr (x, f) ↦ rw (extract_loop, e, f) (λ i. channel_ends pack c (f ∙ i))
      ]
      go (err x) e s rec = rw (extract_loop, e) (λ i. s (err_inj i))

  -- On every bytes, well formed or not, both parsers come to an end: the fuel of the model, one round
  -- for each byte and one more, does not run out.
  pub packets_end :
      (bytes : List ℕ)
      → (parse_pkt_lines lossy bytes ≢ err stuck)
        × (extract_pack_from_sideband lossy bytes ≢ err stuck)
  unfolding parse_pkt_lines extract_pack_from_sideband
  packets_end bytes = (
    parse_loop_ends (suc (length bytes)) bytes [] (omega arith),
    elim (Result-cases (extract_loop lossy (suc (length bytes)) bytes [])) [
      | inl (pack, e) ↦ rw e (or_raw_ends bytes pack)
      | inr (x, e) ↦ rw e (λ i.
          extract_loop_ends (suc (length bytes)) bytes [] (omega arith) (e ∙ ap err (err_inj i)))
    ],
  )
