-- ===== src/Git/Protocol/Lines.antt =====
-- Lines that are sent are the lines that are parsed.
use mathlib.Core.List.{reverse, reverse-append}
use git_nfs.Prelude.{
  ℕ, zero, suc, ◌+◌, ◌^◌, ◌≤◌, ◌<◌, ◌≡◌, refl, ap, sym, ◌∙◌, List, [], ◌∷◌, ◌++◌, length,
  length-append, ok, arith, ltb, ltb→lt, Bool-cases, inl, inr, All, append_assoc, append-nil,
}
use git_nfs.Text.{trim_end_matches, trim_start_matches}
use git_nfs.Git.Protocol.{encode_pkt_line, flush_pkt, delim_pkt, parse_pkt_lines, parse_loop}
use git_nfs.Git.Protocol.Packets.{
  line_of, length-line_of_pos, read_packet-line, read_packet-cut, read_packet-flush,
  read_packet-delim, read_packet-end,
}

pub data Piece : Type 0 where
  line : List ℕ → Piece
  flush : Piece
  delim : Piece

abbrev pub encode : Piece → List ℕ
encode (line s) = encode_pkt_line s
encode flush = flush_pkt
encode delim = delim_pkt

abbrev pub encode_all : List Piece → List ℕ
encode_all [] = []
encode_all (p ∷ ps) = encode p ++ encode_all ps

abbrev pub lines_of : List Piece → List (List ℕ)
lines_of [] = []
lines_of (line s ∷ ps) = s ∷ lines_of ps
lines_of (flush ∷ ps) = lines_of ps
lines_of (delim ∷ ps) = lines_of ps

trim-newline : (s : List ℕ) → trim_end_matches b'\n' (s ++ (b'\n' ∷ [])) ≡ trim_end_matches b'\n' s
unfolding trim_end_matches trim_start_matches
trim-newline s = ap (λ r. reverse (trim_start_matches b'\n' r)) (reverse-append s (b'\n' ∷ []))

module _ (lossy : List ℕ → List ℕ) where
  -- A line that four digits can count: text that does not end in a newline.
  pub record CanSend (s : List ℕ) : Type 0 where
    pub short : length s + 5 < 2 ^ 16
    pub text : lossy (s ++ (b'\n' ∷ [])) ≡ s ++ (b'\n' ∷ [])
    pub trimmed : trim_end_matches b'\n' s ≡ s

  abbrev pub Sendable : Piece → Type 0
  Sendable (line s) = CanSend s
  Sendable flush = Unit
  Sendable delim = Unit

  -- The beginning of a line, or nothing: the stream was cut.
  pub record IsTorn (tail : List ℕ) : Type 0 where
    pub cut_line : List ℕ
    pub can_send : CanSend cut_line
    pub missing : List ℕ
    pub lost : 0 < length missing
    pub whole : encode_pkt_line cut_line ≡ tail ++ missing

  -- A line behind its prefix.
  encode_pkt_line-line_of : (s : List ℕ) → encode_pkt_line s ≡ line_of (s ++ (b'\n' ∷ []))
  unfolding encode_pkt_line line_of
  encode_pkt_line-line_of s = refl

  short_payload : (s : List ℕ) → CanSend s → length (s ++ (b'\n' ∷ [])) + 4 < 2 ^ 16
  short_payload s h = omega (arith, h.short, length-append s (b'\n' ∷ []))

  parse_loop-torn :
      (fuel : ℕ) (tail : List ℕ) (done : List (List ℕ))
      → IsTorn tail
      → parse_loop lossy (suc fuel) tail done ≡ ok done
  unfolding parse_loop
  parse_loop-torn fuel tail done t = elim (Bool-cases (ltb (length tail) 4)) [
    | inl e ↦ rw (parse_loop, read_packet-end tail (ltb→lt (length tail) 4 e)) refl
    | inr e ↦
        rw
          (
            parse_loop,
            read_packet-cut (t.cut_line ++ (b'\n' ∷ [])) tail t.missing
                (short_payload t.cut_line t.can_send)
                (sym (encode_pkt_line-line_of t.cut_line) ∙ t.whole) (ground arith) t.lost,
          )
          refl
  ]

  parse_loop-line :
      (fuel : ℕ) (s rest : List ℕ) (done : List (List ℕ))
      → CanSend s
      → parse_loop lossy (suc fuel) (encode_pkt_line s ++ rest) done
        ≡ parse_loop lossy fuel rest (done ++ (s ∷ []))
  unfolding parse_loop
  parse_loop-line fuel s rest done h =
      rw
        (
          parse_loop,
          encode_pkt_line-line_of s,
          read_packet-line (s ++ (b'\n' ∷ [])) rest (short_payload s h),
        )
        (ap (λ x. parse_loop lossy fuel rest (done ++ (x ∷ [])))
          (ap (trim_end_matches b'\n') h.text ∙ trim-newline s ∙ h.trimmed))

  parse_loop-encode_all :
      (fuel : ℕ) (ps : List Piece) (tail : List ℕ) (done : List (List ℕ))
      → All Sendable ps
      → IsTorn tail
      → length ps < fuel
      → parse_loop lossy fuel (encode_all ps ++ tail) done ≡ ok (done ++ lines_of ps)
  unfolding parse_loop
  parse_loop-encode_all zero ps tail done h t l = absurd (omega arith)
  parse_loop-encode_all (suc fuel) [] tail done h t l =
      parse_loop-torn fuel tail done t ∙ ap ok (sym (append-nil done))
  parse_loop-encode_all (suc fuel) (line s ∷ ps) tail done h t l =
      ap (λ b. parse_loop lossy (suc fuel) b done)
        (append_assoc (encode_pkt_line s) (encode_all ps) tail)
      ∙ parse_loop-line fuel s (encode_all ps ++ tail) done h.0
      ∙ parse_loop-encode_all fuel ps tail (done ++ (s ∷ [])) h.1 t (omega arith)
      ∙ ap ok (append_assoc done (s ∷ []) (lines_of ps))
  parse_loop-encode_all (suc fuel) (flush ∷ ps) tail done h t l =
      rw (parse_loop, read_packet-flush (encode_all ps ++ tail))
        (parse_loop-encode_all fuel ps tail done h.1 t (omega arith))
  parse_loop-encode_all (suc fuel) (delim ∷ ps) tail done h t l =
      rw (parse_loop, read_packet-delim (encode_all ps ++ tail))
        (parse_loop-encode_all fuel ps tail done h.1 t (omega arith))

  length-encode_all : (ps : List Piece) → length ps ≤ length (encode_all ps)
  length-encode_all [] = omega arith
  length-encode_all (line s ∷ ps) = omega (
    arith,
    length-encode_all ps,
    length-append (encode_pkt_line s) (encode_all ps),
    ap length (encode_pkt_line-line_of s),
    length-line_of_pos (s ++ (b'\n' ∷ [])),
  )
  length-encode_all (flush ∷ ps) = omega (arith, length-encode_all ps)
  length-encode_all (delim ∷ ps) = omega (arith, length-encode_all ps)

  -- A stream of lines, flush and delimiter packets, with a line behind them that was cut off, parses to
  -- the lines in their order. Each line must be text that does not end in a newline, of at most 65530
  -- bytes.
  pub parse_pkt_lines-encode_all :
      (ps : List Piece) (tail : List ℕ)
      → All Sendable ps
      → IsTorn tail
      → parse_pkt_lines lossy (encode_all ps ++ tail) ≡ ok (lines_of ps)
  unfolding parse_pkt_lines
  parse_pkt_lines-encode_all ps tail h t =
      parse_loop-encode_all (suc (length (encode_all ps ++ tail))) ps tail [] h t
        (omega (arith, length-append (encode_all ps) tail, length-encode_all ps))
