-- ===== src/Git/Protocol/Tests.antt =====
-- Packet lines at concrete inputs.
use git_nfs.Prelude.{◌≡◌, ◌≢◌, refl, List, [], ◌∷◌, ◌++◌, ok, err, arith, ◌>>=◌}
use git_nfs.Text.{ascii, trim_start_matches, trim_end_matches}
use git_nfs.Text.Utf8.{is_utf8}
use git_nfs.Text.Radix.{from_str_radix, from_digits1, from_digits, to_digit, digits_of, digit_char}
use git_nfs.Git.Protocol.{
  encode_pkt_line, hex_prefix, line_length, packet_of, read_packet, parse_loop, parse_pkt_lines,
  stuck, slice_panics, extract_pack_from_sideband, too_long,
}
use git_nfs.Git.Protocol.Termination.{packets_end}
use git_nfs.Git.Protocol.Packets.{line_of}
use git_nfs.Git.Protocol.Lines.{
  Piece, CanSend, IsTorn, encode_all, lines_of, parse_pkt_lines-encode_all,
}
use git_nfs.Git.Protocol.Sideband.{
  Band, IsCut, stream, delivered, pack_bytes, progress, extract_pack_from_sideband-stream,
  extract_pack_from_sideband-cut,
}

encode_pkt_line_run : encode_pkt_line (ascii "command=ls-refs") ≡ ascii "0014command=ls-refs\n"
unfolding encode_pkt_line hex_prefix digits_of digit_char
encode_pkt_line_run = refl

-- The length counts its own four digits; 2 is less.
panic_run : parse_pkt_lines (λ s. s) (ascii "0002") ≡ err slice_panics
unfolding parse_pkt_lines parse_loop read_packet line_length packet_of is_utf8 from_str_radix
    from_digits1 from_digits to_digit
panic_run = refl

abbrev pieces : List Piece
pieces = Piece.line (ascii "hello") ∷ Piece.flush ∷ Piece.line (ascii "world") ∷ []

hello-CanSend : CanSend (λ s. s) (ascii "hello")
unfolding trim_end_matches trim_start_matches
hello-CanSend = record { short = omega arith; text = refl; trimmed = refl }

world-CanSend : CanSend (λ s. s) (ascii "world")
unfolding trim_end_matches trim_start_matches
world-CanSend = record { short = omega arith; text = refl; trimmed = refl }

part-IsTorn : IsTorn (λ s. s) (ascii "000ahe")
unfolding encode_pkt_line hex_prefix digits_of digit_char
part-IsTorn = record {
  cut_line = ascii "hello";
  can_send = hello-CanSend;
  missing = ascii "llo\n";
  lost = omega arith;
  whole = refl;
}

parse_pkt_lines-encode_all_example :
    parse_pkt_lines (λ s. s) (encode_all pieces ++ ascii "000ahe") ≡ ok (lines_of pieces)
parse_pkt_lines-encode_all_example =
    parse_pkt_lines-encode_all (λ s. s) pieces (ascii "000ahe")
      (hello-CanSend, (tt, (world-CanSend, tt))) part-IsTorn

abbrev bands : List Band
bands = pack_bytes (80 ∷ 65 ∷ []) ∷ progress (ascii "half") ∷ pack_bytes (67 ∷ []) ∷ Band.flush ∷ []

extract_pack_from_sideband-stream_example :
    extract_pack_from_sideband (λ s. s) (stream bands) ≡ delivered (λ s. s) bands
extract_pack_from_sideband-stream_example =
    extract_pack_from_sideband-stream (λ s. s) bands
      (omega arith, (omega arith, (omega arith, (tt, tt)))) (λ e. cc e)

part-IsCut : IsCut (λ s. s) (1 ∷ 80 ∷ 65 ∷ []) (ascii "0007" ++ (1 ∷ []))
unfolding line_of hex_prefix digits_of digit_char
part-IsCut = record {
  short = omega arith;
  missing = 80 ∷ 65 ∷ [];
  lost = omega arith;
  counted = omega arith;
  whole = refl;
}

extract_pack_from_sideband-cut_example :
    extract_pack_from_sideband (λ s. s) (stream bands ++ (ascii "0007" ++ (1 ∷ [])))
    ≡ (delivered (λ s. s) bands >>= λ more. err (too_long 7 5))
extract_pack_from_sideband-cut_example =
    extract_pack_from_sideband-cut (λ s. s) bands (1 ∷ 80 ∷ 65 ∷ []) (ascii "0007" ++ (1 ∷ []))
      (omega arith, (omega arith, (omega arith, (tt, tt)))) part-IsCut

-- A length that is no number.
packets_end_example :
    (parse_pkt_lines (λ s. s) (ascii "0005axyz!") ≢ err stuck)
    × (extract_pack_from_sideband (λ s. s) (ascii "0005axyz!") ≢ err stuck)
packets_end_example = packets_end (λ s. s) (ascii "0005axyz!")
