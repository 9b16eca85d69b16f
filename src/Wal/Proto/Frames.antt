-- ===== src/Wal/Proto/Frames.antt =====
-- A log of whole frames, with or without a torn frame at its end, decodes to its entries.
use git_nfs.Prelude.{ℕ, zero, suc, ◌+◌, ◌≤◌, ◌<◌, ◌≡◌, refl, ◌∙◌, ap, none, some, map}
use git_nfs.Prelude.{List, [], ◌∷◌, ◌++◌, length, arith, All, concat}
use git_nfs.Prelude.{
  length-append, take-length_append, drop-length_append, append_assoc, append-nil,
}
use git_nfs.Prelude.{le→leb, lt→not-leb, ◌/◌, ◌%◌, ◌^◌, ◌⊎◌, inl, inr}
use git_nfs.Bytes.{be32, as_u32, from_be32, from_be32-be32}
use git_nfs.Wal.Proto.{WalEntry, Prost, Encodes, encode_framed, take_body, take_frame}
use git_nfs.Wal.Proto.{decode_loop, decode_all_framed}

module _ (p : Prost) where
  abbrev pub frames : List WalEntry → List ℕ
  frames es = concat (map (encode_framed p) es)

  -- `tail` stops inside the frame of some entry: what a crash in the middle of a write leaves.
  pub record IsTorn (tail : List ℕ) : Type 0 where
    pub entry : WalEntry
    pub encodes : Encodes p entry
    pub missing : List ℕ
    pub lost : 0 < length missing
    pub whole : encode_framed p entry ≡ tail ++ missing

  pub take_body-whole :
      (body rest : List ℕ) {e : WalEntry}
      → p.decode body ≡ some e
      → take_body p (length body) (body ++ rest) ≡ some (e, rest, 4 + length body)
  unfolding take_body
  take_body-whole body rest h = rw (
    le→leb (length body) (length (body ++ rest)) (omega (arith, length-append body rest)),
    take-length_append body rest,
    drop-length_append body rest,
    h,
  )

  take_body-short : (n : ℕ) (rest : List ℕ) → length rest < n → take_body p n rest ≡ none
  unfolding take_body
  take_body-short n rest h = rw (lt→not-leb n (length rest) h)

  prefix_eq : (e : WalEntry) → Encodes p e → as_u32 (p.encoded_len e) ≡ length (p.encode e)
  prefix_eq e h = omega (arith, h.announced, h.short)

  -- The four bytes of the prefix read back as the length of the record.
  take_frame-prefix :
      (e : WalEntry) (rest : List ℕ)
      → Encodes p e
      → take_frame p (be32 (as_u32 (p.encoded_len e)) ++ rest)
        ≡ take_body p (length (p.encode e)) rest
  unfolding take_frame
  take_frame-prefix e rest h =
      ap (λ n. take_body p n rest)
        (from_be32-be32 (as_u32 (p.encoded_len e)) (omega arith) ∙ prefix_eq e h)

  length-frame : (e : WalEntry) → Encodes p e → length (encode_framed p e) ≡ 4 + length (p.encode e)
  unfolding encode_framed
  length-frame e h = omega arith

  pub take_frame-frame :
      (e : WalEntry) (rest : List ℕ)
      → Encodes p e
      → take_frame p (encode_framed p e ++ rest) ≡ some (e, rest, length (encode_framed p e))
  take_frame-frame e rest h = rw (length-frame e h) (
      unfold encode_framed in
      (take_frame-prefix e (p.encode e ++ rest) h ∙ take_body-whole (p.encode e) rest h.decodes))

  torn_body :
      (a b c d : ℕ) (rest missing : List ℕ) (e : WalEntry)
      → Encodes p e
      → 0 < length missing
      → be32 (as_u32 (p.encoded_len e)) ++ p.encode e ≡ a ∷ b ∷ c ∷ d ∷ (rest ++ missing)
      → take_body p (from_be32 a b c d) rest ≡ none
  torn_body a b c d rest missing e h lost whole = take_body-short (from_be32 a b c d) rest (
      omega (
        arith,
        head,
        from_be32-be32 (as_u32 (p.encoded_len e)) (omega arith),
        prefix_eq e h,
        ap length body,
        length-append rest missing,
      ))
    where
      l : ℕ
      l = as_u32 (p.encoded_len e)

      head :
          from_be32 a b c d
          ≡ from_be32 (l / 2 ^ 24 % 256) (l / 2 ^ 16 % 256) (l / 2 ^ 8 % 256) (l % 256)
      head = cc

      body : p.encode e ≡ rest ++ missing
      body = cc

  -- A torn frame yields nothing.
  pub take_frame-torn : (tail : List ℕ) → IsTorn tail → take_frame p tail ≡ none
  unfolding take_frame encode_framed
  take_frame-torn [] t = refl
  take_frame-torn (a ∷ []) t = refl
  take_frame-torn (a ∷ b ∷ []) t = refl
  take_frame-torn (a ∷ b ∷ c ∷ []) t = refl
  take_frame-torn (a ∷ b ∷ c ∷ d ∷ rest) t =
      torn_body a b c d rest t.missing t.entry t.encodes t.lost t.whole

  frame_count : (es : List WalEntry) → All (Encodes p) es → length es ≤ length (frames es)
  frame_count [] h = omega arith
  frame_count (e ∷ es) h =
      omega (
        arith,
        length-append (encode_framed p e) (frames es),
        length-frame e h.0,
        frame_count es h.1,
      )

  decode_loop-frames :
      (fuel : ℕ) (es : List WalEntry) (tail : List ℕ) (done : List WalEntry) (n : ℕ)
      → All (Encodes p) es
      → take_frame p tail ≡ none
      → length es ≤ fuel
      → decode_loop p fuel (frames es ++ tail) done n ≡ (done ++ es, n + length (frames es))
  unfolding decode_loop
  decode_loop-frames zero [] tail done n h stop enough = ground (arith, append-nil done)
  decode_loop-frames zero (e ∷ es) tail done n h stop enough = absurd (omega arith)
  decode_loop-frames (suc fuel) [] tail done n h stop enough =
      rw (stop, decode_loop) (ground (arith, append-nil done))
  decode_loop-frames (suc fuel) (e ∷ es) tail done n h stop enough =
      rw
        (
          append_assoc (encode_framed p e) (frames es) tail,
          take_frame-frame e (frames es ++ tail) h.0,
          decode_loop,
        )
        (ground (
          arith,
          decode_loop-frames fuel es tail (done ++ e ∷ []) (n + length (encode_framed p e)) h.1 stop
              (omega arith),
          append_assoc done (e ∷ []) es,
          length-append (encode_framed p e) (frames es),
        ))

  -- Nothing, or a torn frame.
  abbrev pub IsCut : List ℕ → Type 0
  IsCut tail = (tail ≡ []) ⊎ IsTorn tail

  take_frame-cut : (tail : List ℕ) → IsCut tail → take_frame p tail ≡ none
  take_frame-cut tail (inl e) = rw e (unfold take_frame in refl)
  take_frame-cut tail (inr t) = take_frame-torn tail t

  -- A log of encodable entries, whole or cut off behind them inside the frame of one more entry,
  -- decodes to exactly those entries, and the bytes consumed are exactly their frames.
  pub decode_all_framed-frames :
      (es : List WalEntry) (tail : List ℕ)
      → All (Encodes p) es
      → IsCut tail
      → decode_all_framed p (frames es ++ tail) ≡ (es, length (frames es))
  unfolding decode_all_framed
  decode_all_framed-frames es tail h t = ground (
    arith,
    decode_loop-frames (length (frames es ++ tail)) es tail [] 0 h (take_frame-cut tail t)
        (omega (arith, length-append (frames es) tail, frame_count es h)),
  )
