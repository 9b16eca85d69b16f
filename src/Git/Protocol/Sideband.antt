-- ===== src/Git/Protocol/Sideband.antt =====
-- The side band delivers the packfile, or the first error that the remote reports.
use git_nfs.Prelude.{
  ℕ, zero, suc, ◌+◌, ◌^◌, ◌≤◌, ◌<◌, ◌≡◌, ◌≢◌, refl, ap, sym, ◌∙◌, List, [], ◌∷◌, ◌++◌, length,
  length-append, Result, ok, err, ◌>>=◌, arith, All, append_assoc, append-nil,
}
use git_nfs.Git.Protocol.{
  PktError, remote_error, too_long, flush_pkt, channel, extract_loop, or_raw,
  extract_pack_from_sideband,
}
use git_nfs.Git.Protocol.Packets.{
  line_of, length-line_of_pos, read_packet-line, read_packet-cut, read_packet-flush,
  read_packet-end,
}

pub data Band : Type 0 where
  pack_bytes : List ℕ → Band
  progress : List ℕ → Band
  failure : List ℕ → Band
  flush : Band

abbrev pub encode : Band → List ℕ
encode (pack_bytes b) = line_of (1 ∷ b)
encode (progress m) = line_of (2 ∷ m)
encode (failure m) = line_of (3 ∷ m)
encode flush = flush_pkt

abbrev pub stream : List Band → List ℕ
stream [] = []
stream (b ∷ bs) = encode b ++ stream bs

abbrev pub Short : Band → Type 0
Short (pack_bytes b) = length b + 5 < 2 ^ 16
Short (progress m) = length m + 5 < 2 ^ 16
Short (failure m) = length m + 5 < 2 ^ 16
Short flush = Unit

module _ (lossy : List ℕ → List ℕ) where
  -- What the bands mean.
  abbrev pub delivered : List Band → Result PktError (List ℕ)
  delivered [] = ok []
  delivered (pack_bytes b ∷ bs) = delivered bs >>= λ more. ok (b ++ more)
  delivered (progress m ∷ bs) = delivered bs
  delivered (failure m ∷ bs) = err (remote_error (lossy m))
  delivered (flush ∷ bs) = delivered bs

  join :
      (g : List ℕ → Result PktError (List ℕ)) (pack b : List ℕ) (r : Result PktError (List ℕ))
      → (r >>= λ more. g ((pack ++ b) ++ more))
        ≡ ((r >>= λ more. ok (b ++ more)) >>= λ more. g (pack ++ more))
  join g pack b (ok more) = ap g (append_assoc pack b more)
  join g pack b (err e) = refl

  -- The loop on a stream and what it does on the bytes behind it.
  extract_loop-stream :
      (fuel : ℕ) (bs : List Band) (tail pack : List ℕ) (g : List ℕ → Result PktError (List ℕ))
      → All Short bs
      → length bs < fuel
      → ((f : ℕ) (p : List ℕ) → extract_loop lossy (suc f) tail p ≡ g p)
      → extract_loop lossy fuel (stream bs ++ tail) pack
        ≡ (delivered bs >>= λ more. g (pack ++ more))
  unfolding extract_loop channel
  extract_loop-stream zero bs tail pack g h l e = absurd (omega arith)
  extract_loop-stream (suc fuel) [] tail pack g h l e = e fuel pack ∙ ap g (sym (append-nil pack))
  extract_loop-stream (suc fuel) (pack_bytes b ∷ bs) tail pack g h l e =
      rw
        (
          extract_loop,
          append_assoc (line_of (1 ∷ b)) (stream bs) tail,
          read_packet-line (1 ∷ b) (stream bs ++ tail) (omega (arith, h.0)),
        )
        (extract_loop-stream fuel bs tail (pack ++ b) g h.1 (omega arith) e
          ∙ join g pack b (delivered bs))
  extract_loop-stream (suc fuel) (progress m ∷ bs) tail pack g h l e =
      rw
        (
          extract_loop,
          append_assoc (line_of (2 ∷ m)) (stream bs) tail,
          read_packet-line (2 ∷ m) (stream bs ++ tail) (omega (arith, h.0)),
        )
        (extract_loop-stream fuel bs tail pack g h.1 (omega arith) e)
  extract_loop-stream (suc fuel) (failure m ∷ bs) tail pack g h l e =
      rw
        (
          extract_loop,
          append_assoc (line_of (3 ∷ m)) (stream bs) tail,
          read_packet-line (3 ∷ m) (stream bs ++ tail) (omega (arith, h.0)),
        )
        refl
  extract_loop-stream (suc fuel) (flush ∷ bs) tail pack g h l e =
      rw (extract_loop, read_packet-flush (stream bs ++ tail))
        (extract_loop-stream fuel bs tail pack g h.1 (omega arith) e)

  extract_loop-end : (f : ℕ) (p : List ℕ) → extract_loop lossy (suc f) [] p ≡ ok p
  unfolding extract_loop
  extract_loop-end f p = rw (extract_loop, read_packet-end [] (omega arith)) refl

  length-stream : (bs : List Band) → length bs ≤ length (stream bs)
  length-stream [] = omega arith
  length-stream (b ∷ bs) =
      omega (arith, length-stream bs, length-append (encode b) (stream bs), length-encode b)
    where
      length-encode : (b : Band) → 0 < length (encode b)
      length-encode (pack_bytes c) = length-line_of_pos (1 ∷ c)
      length-encode (progress m) = length-line_of_pos (2 ∷ m)
      length-encode (failure m) = length-line_of_pos (3 ∷ m)
      length-encode flush = omega arith

  not_raw : (bytes : List ℕ) (r : Result PktError (List ℕ)) → r ≢ ok [] → (r >>= or_raw bytes) ≡ r
  unfolding or_raw
  not_raw bytes (ok []) h = absurd (h refl)
  not_raw bytes (ok (b ∷ pack)) h = refl
  not_raw bytes (err e) h = refl

  as_is : (r : Result PktError (List ℕ)) → (r >>= λ more. ok more) ≡ r
  as_is (ok more) = refl
  as_is (err e) = refl

  -- A response whose lines carry bytes of the packfile, progress and errors of the remote gives the
  -- bytes of the packfile in their order, or the first error. It must hold a byte of the packfile or an
  -- error, and no line may be longer than 65535 bytes.
  pub extract_pack_from_sideband-stream :
      (bs : List Band)
      → All Short bs
      → delivered bs ≢ ok []
      → extract_pack_from_sideband lossy (stream bs) ≡ delivered bs
  unfolding extract_pack_from_sideband
  extract_pack_from_sideband-stream bs h some_bytes =
      ap (λ r. r >>= or_raw (stream bs))
        (ap (λ b. extract_loop lossy (suc (length (stream bs))) b []) (sym (append-nil (stream bs)))
          ∙ extract_loop-stream (suc (length (stream bs))) bs [] [] ok h
              (omega (arith, length-stream bs)) extract_loop-end
          ∙ as_is (delivered bs))
      ∙ not_raw (stream bs) (delivered bs) some_bytes

  -- The beginning of a line, with its whole length prefix.
  pub record IsCut (payload part : List ℕ) : Type 0 where
    pub short : length payload + 4 < 2 ^ 16
    pub missing : List ℕ
    pub lost : 0 < length missing
    pub counted : 4 ≤ length part
    pub whole : line_of payload ≡ part ++ missing

  then_raw :
      (bytes : List ℕ) (e : PktError) (r : Result PktError (List ℕ))
      → ((r >>= λ more. err e) >>= or_raw bytes) ≡ (r >>= λ more. err e)
  unfolding or_raw
  then_raw bytes e (ok more) = refl
  then_raw bytes e (err x) = refl

  -- A response that was cut behind the length of a line is refused with both lengths, or with the error
  -- that the remote reported before; no part of the packfile is returned.
  pub extract_pack_from_sideband-cut :
      (bs : List Band) (payload part : List ℕ)
      → All Short bs
      → IsCut payload part
      → extract_pack_from_sideband lossy (stream bs ++ part)
        ≡ (delivered bs >>= λ more. err (too_long (length payload + 4) (length part)))
  unfolding extract_pack_from_sideband extract_loop
  extract_pack_from_sideband-cut bs payload part h c =
      let e = too_long (length payload + 4) (length part) in
      ap (λ r. r >>= or_raw (stream bs ++ part))
        (extract_loop-stream (suc (length (stream bs ++ part))) bs part [] (λ p. err e) h
          (omega (arith, length-stream bs, length-append (stream bs) part))
          (λ f p.
            rw
              (
                extract_loop,
                read_packet-cut payload part c.missing c.short c.whole c.counted c.lost,
              )
              refl))
      ∙ then_raw (stream bs ++ part) e (delivered bs)
