-- ===== src/Git/Protocol.antt =====
-- src/git/protocol.rs: packet lines of the wire protocol, `encode_pkt_line` and `parse_pkt_lines`, and
-- the side band. `String::from_utf8_lossy` is the parameter `lossy`. A loop runs on fuel, a round for
-- each byte: a round takes four bytes at least.
pub mod Packets
pub mod Lines
pub mod Sideband
pub mod Termination
mod Tests
use git_nfs.Prelude.{
  ℕ, zero, suc, ◌+◌, ◌-◌, ◌^◌, ◌||◌, Bool, true, false, Option, none, some, List, [], ◌∷◌, ◌++◌,
  length, take, drop, replicate, ◌==◌, ltb, leb, if◌then◌else◌, Result, ok, err, ◌>>=◌, ok_or,
}
use git_nfs.Bytes.{u64_mod}
use git_nfs.Text.{ascii, starts_with, trim_end_matches}
use git_nfs.Text.Utf8.{is_utf8}
use git_nfs.Text.Radix.{from_str_radix, digits_of}

pub data PktError : Type 0 where
  invalid_utf8 : PktError
  invalid_hex : PktError
  -- A length of 2 or 3: the slice of the chunk panics.
  slice_panics : PktError
  too_long : ℕ → ℕ → PktError
  remote_error : List ℕ → PktError
  no_pack : PktError
  stuck : PktError

-- `format!("{total_len:04x}")`
unfoldable pub hex_prefix : ℕ → List ℕ
hex_prefix n = let digits = digits_of 15 16 n in replicate (4 - length digits) b'0' ++ digits

unfoldable pub encode_pkt_line : List ℕ → List ℕ
encode_pkt_line line =
    let payload = line ++ (b'\n' ∷ []) in hex_prefix (length payload + 4) ++ payload

abbrev pub flush_pkt : List ℕ
flush_pkt = ascii "0000"

abbrev pub delim_pkt : List ℕ
delim_pkt = ascii "0001"

-- `len_str` and `line_len`.
unfoldable pub line_length : List ℕ → Result PktError ℕ
line_length prefix =
    if is_utf8 prefix
    then ok_or (from_str_radix 16 u64_mod prefix) invalid_hex
    else err invalid_utf8

-- What a round of either loop finds at its place: the end, a packet without data, a line that is longer
-- than the bytes that are there, or a chunk; and what follows.
pub data Packet : Type 0 where
  end : Packet
  special : List ℕ → Packet
  cut : ℕ → ℕ → Packet
  chunk : List ℕ → List ℕ → Packet

unfoldable pub packet_of : List ℕ → ℕ → Result PktError Packet
packet_of bytes line_len =
    if line_len == 0 || line_len == 1
    then ok (special (drop 4 bytes))
    else if ltb (length bytes) line_len
    then ok (cut line_len (length bytes))
    else if ltb line_len 4
    then err slice_panics
    else ok (chunk (drop 4 (take line_len bytes)) (drop line_len bytes))

unfoldable pub read_packet : List ℕ → Result PktError Packet
read_packet bytes = elim (ltb (length bytes) 4) [
  | true ↦ ok end
  | false ↦ line_length (take 4 bytes) >>= packet_of bytes
]

module _ (lossy : List ℕ → List ℕ) where
  unfoldable pub parse_loop : ℕ → List ℕ → List (List ℕ) → Result PktError (List (List ℕ))
  parse_loop zero bytes lines = err stuck
  parse_loop (suc fuel) bytes lines = elim (read_packet bytes) [
    | err e ↦ err e
    | ok end ↦ ok lines
    | ok (special rest) ↦ parse_loop fuel rest lines
    | ok (cut line_len available) ↦ ok lines
    | ok (chunk c rest) ↦ parse_loop fuel rest (lines ++ (trim_end_matches b'\n' (lossy c) ∷ []))
  ]

  unfoldable pub parse_pkt_lines : List ℕ → Result PktError (List (List ℕ))
  parse_pkt_lines bytes = parse_loop (suc (length bytes)) bytes []

  -- The channels of the side band.
  unfoldable pub channel : List ℕ → List ℕ → Result PktError (List ℕ)
  channel pack [] = ok pack
  channel pack (c ∷ payload) =
      if c == 1
      then ok (pack ++ payload)
      else if c == 2
      then ok pack
      else if c == 3
      then err (remote_error (lossy payload))
      else if starts_with (c ∷ payload) (ascii "PACK")
      then ok (pack ++ (c ∷ payload))
      else ok pack

  unfoldable pub extract_loop : ℕ → List ℕ → List ℕ → Result PktError (List ℕ)
  extract_loop zero bytes pack = err stuck
  extract_loop (suc fuel) bytes pack = elim (read_packet bytes) [
    | err e ↦ err e
    | ok end ↦ ok pack
    | ok (special rest) ↦ extract_loop fuel rest pack
    | ok (cut line_len available) ↦ err (too_long line_len available)
    | ok (chunk c rest) ↦ elim (channel pack c) [
      | err e ↦ err e
      | ok more ↦ extract_loop fuel rest more
    ]
  ]

-- `data.windows(4).position(|w| w == b"PACK")`, and the bytes from there on.
unfoldable pub find_pack : List ℕ → Result PktError (List ℕ)
find_pack [] = err no_pack
find_pack (b ∷ bytes) = elim (starts_with (b ∷ bytes) (ascii "PACK")) [
  | true ↦ ok (b ∷ bytes)
  | false ↦ find_pack bytes
]

-- The bytes of the packfile, or, when there are none, the response itself from its first `PACK` on.
unfoldable pub or_raw : List ℕ → List ℕ → Result PktError (List ℕ)
or_raw bytes [] = find_pack bytes
or_raw bytes (b ∷ pack) = ok (b ∷ pack)

unfoldable pub extract_pack_from_sideband : (List ℕ → List ℕ) → List ℕ → Result PktError (List ℕ)
extract_pack_from_sideband lossy bytes =
    extract_loop lossy (suc (length bytes)) bytes [] >>= or_raw bytes
