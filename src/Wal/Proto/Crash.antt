-- ===== src/Wal/Proto/Crash.antt =====
-- The decoder on any bytes, well formed or not: what it has read is settled.
use git_nfs.Prelude.{
  subst, ℕ, zero, suc, ◌+◌, ◌≤◌, ◌<◌, ◌≡◌, refl, sym, ◌∙◌, ap, Option, none, some,
}
use git_nfs.Prelude.{List, [], ◌∷◌, ◌++◌, length, take, drop, arith}
use git_nfs.Prelude.{length-append, length-take, take-append-drop, append_assoc, append-nil}
use git_nfs.Prelude.{Option-cases, inl, inr}
use git_nfs.Bytes.{from_be32}
use git_nfs.Wal.Proto.{WalEntry, Prost, take_body, take_frame, decode_loop, decode_all_framed}
use git_nfs.Wal.Proto.Frames.{take_body-whole}

module _ (p : Prost) where
  -- A frame stands at the front, and what follows it has no part in it.
  pub record Front (bytes : List ℕ) (e : WalEntry) (rest : List ℕ) (k : ℕ) : Type 0 where
    pub front : List ℕ
    pub splits : bytes ≡ front ++ rest
    pub size : length front ≡ k
    pub grows : 0 < k
    pub alone : (x : List ℕ) → take_frame p (front ++ x) ≡ some (e, x, k)

  take_body-inv :
      (m : ℕ) (r : List ℕ) (e : WalEntry) (rest : List ℕ) (k : ℕ)
      → take_body p m r ≡ some (e, rest, k)
      → (m ≤ length r) × (p.decode (take m r) ≡ some e) × (rest ≡ drop m r) × (k ≡ 4 + m)
  unfolding take_body
  take_body-inv m r e rest k h = ground arith

  take_body-alone :
      (m : ℕ) (r x : List ℕ) (e : WalEntry)
      → m ≤ length r
      → p.decode (take m r) ≡ some e
      → take_body p m (take m r ++ x) ≡ some (e, x, 4 + m)
  take_body-alone m r x e h d =
      let size : length (take m r) ≡ m = omega (arith, length-take m r) in
      subst (λ n. take_body p n (take m r ++ x) ≡ some (e, x, 4 + n)) size
        (take_body-whole p (take m r) x d)

  Front-body :
      (a b c d m : ℕ) (r : List ℕ) (e : WalEntry) (rest : List ℕ) (k : ℕ)
      → m ≡ from_be32 a b c d
      → take_body p m r ≡ some (e, rest, k)
      → Front (a ∷ b ∷ c ∷ d ∷ r) e rest k
  unfolding take_frame
  Front-body a b c d m r e rest k same h =
      let (fits, read, left, count) = take_body-inv m r e rest k h in
      record {
        front = a ∷ b ∷ c ∷ d ∷ take m r;
        splits = rw (left, take-append-drop);
        size = omega (arith, length-take m r);
        grows = omega arith;
        alone = λ x. rw (← same, count) (take_body-alone m r x e fits read);
      }

  take_frame-Front :
      (bytes : List ℕ) (e : WalEntry) (rest : List ℕ) (k : ℕ)
      → take_frame p bytes ≡ some (e, rest, k)
      → Front bytes e rest k
  unfolding take_frame
  take_frame-Front [] e rest k h = cc
  take_frame-Front (a ∷ []) e rest k h = cc
  take_frame-Front (a ∷ b ∷ []) e rest k h = cc
  take_frame-Front (a ∷ b ∷ c ∷ []) e rest k h = cc
  take_frame-Front (a ∷ b ∷ c ∷ d ∷ r) e rest k h = Front-body a b c d _ r e rest k refl h

  -- What the loop of the source does, with no fuel: it reads frames while there is a whole one that
  -- decodes.
  pub data Decodes : List ℕ → List WalEntry → ℕ → Type 0 where
    stop : {bytes : List ℕ} → take_frame p bytes ≡ none → Decodes bytes [] 0
    next :
        {bytes : List ℕ} {e : WalEntry} {rest : List ℕ} {k : ℕ} {es : List WalEntry} {n m : ℕ}
        → take_frame p bytes ≡ some (e, rest, k)
        → Decodes rest es n
        → m ≡ k + n
        → Decodes bytes (e ∷ es) m

  -- The outcome of the loop from any accumulators, with enough fuel.
  record Runs (fuel : ℕ) (bytes : List ℕ) (done : List WalEntry) (n : ℕ) : Type 0 where
    entries : List WalEntry
    taken : ℕ
    decodes : Decodes bytes entries taken
    result : decode_loop p fuel bytes done n ≡ (done ++ entries, n + taken)

  decode_loop-Runs :
      (fuel : ℕ) (bytes : List ℕ) (done : List WalEntry) (n : ℕ)
      → length bytes ≤ fuel
      → Runs fuel bytes done n
  unfolding decode_loop
  decode_loop-Runs zero [] done n h = record {
    entries = [];
    taken = 0;
    decodes = stop {bytes = []} (unfold take_frame in refl);
    result = ground (arith, append-nil done);
  }
  decode_loop-Runs zero (b ∷ bytes) done n h = absurd (omega arith)
  decode_loop-Runs (suc fuel) bytes done n h = elim (Option-cases (take_frame p bytes)) [
    | inl e ↦ record {
      entries = [];
      taken = 0;
      decodes = stop e;
      result = rw (e, decode_loop) (ground (arith, append-nil done));
    }
    | inr ((entry, rest, k), e) ↦
        let f = take_frame-Front bytes entry rest k e in
        let r : Runs fuel rest (done ++ entry ∷ []) (n + k) =
          decode_loop-Runs fuel rest (done ++ entry ∷ []) (n + k)
            (omega (arith, ap length f.splits, length-append f.front rest, f.size, f.grows)) in
        record {
          entries = entry ∷ r.entries;
          taken = k + r.taken;
          decodes = next e r.decodes refl;
          result =
              rw (e, decode_loop)
                (ground (arith, r.result, append_assoc done (entry ∷ []) r.entries));
        }
  ]

  -- The decoder terminates on every input and computes what the loop of the source computes.
  pub decode_all_framed-Decodes :
      (bytes : List ℕ) → Decodes bytes (decode_all_framed p bytes).0 (decode_all_framed p bytes).1
  unfolding decode_all_framed
  decode_all_framed-Decodes bytes =
      let r = decode_loop-Runs (length bytes) bytes [] 0 (omega arith) in
      let e : (r.entries, r.taken) ≡ decode_loop p (length bytes) bytes [] 0 =
        ground (arith, r.result) in
      subst (λ q. Decodes bytes q.0 q.1) e r.decodes

  Decodes-unique :
      {a b : List ℕ} {es fs : List WalEntry} {n m : ℕ}
      → Decodes a es n
      → Decodes b fs m
      → a ≡ b
      → (es ≡ fs) × (n ≡ m)
  Decodes-unique (stop e) (stop f) q = (refl, refl)
  Decodes-unique {a} (stop e) (next f d h) q =
      absurd (let g : take_frame p a ≡ none = e in cc (ap (take_frame p) q))
  Decodes-unique (next e d h) (stop f) q = absurd (cc (ap (take_frame p) q))
  Decodes-unique {a} {b} (next {e = x} {rest = r} {k = k} e d h)
        (next {e = y} {rest = s} {k = l} f c i) q =
      let g : ◌≡◌ {A = Option (WalEntry × List ℕ × ℕ)} (some (x, r, k)) (some (y, s, l)) =
        sym e ∙ ap (take_frame p) q ∙ f in
      let same = Decodes-unique d c (let z : r ≡ s = cc in z) in ground (arith, same)

  pub Decodes-eq :
      {bytes : List ℕ} {es : List WalEntry} {n : ℕ}
      → Decodes bytes es n
      → decode_all_framed p bytes ≡ (es, n)
  Decodes-eq {bytes} d =
      let same = Decodes-unique (decode_all_framed-Decodes bytes) d refl in ground (arith, same)

  Decodes-le : {bytes : List ℕ} {es : List WalEntry} {n : ℕ} → Decodes bytes es n → n ≤ length bytes
  Decodes-le (stop e) = omega arith
  Decodes-le (next {bytes = bytes} {e = x} {rest = rest} {k = k} e d h) =
      let f = take_frame-Front bytes x rest k e in
      omega (arith, Decodes-le d, ap length f.splits, length-append f.front rest, f.size)

  take_past :
      (front rest : List ℕ) (k n : ℕ)
      → length front ≡ k
      → take (k + n) (front ++ rest) ≡ front ++ take n rest
  take_past [] rest k n h = let e : k + n ≡ n = omega arith in rw e
  take_past (x ∷ front) rest k n h =
      let e : k + n ≡ suc (length front + n) = omega arith in
      rw (e, take_past front rest (length front) n refl)

  Decodes-take :
      {bytes : List ℕ} {es : List WalEntry} {n : ℕ}
      → Decodes bytes es n
      → Decodes (take n bytes) es n
  Decodes-take (stop {bytes} e) = stop {bytes = []} (unfold take_frame in refl)
  Decodes-take (next {bytes = bytes} {e = x} {rest = rest} {k = k} {n = n} {m = m} e d h) =
      let f = take_frame-Front bytes x rest k e in
      let cut : take m bytes ≡ f.front ++ take n rest =
        rw (h, f.splits) (take_past f.front rest k n f.size) in
      next (ap (take_frame p) cut ∙ f.alone (take n rest)) (Decodes-take d) h

  record Extends (bytes more : List ℕ) (es : List WalEntry) : Type 0 where
    later : List WalEntry
    count : ℕ
    decodes : Decodes (bytes ++ more) (es ++ later) count

  Decodes-Extends :
      {bytes : List ℕ} {es : List WalEntry} {n : ℕ} (more : List ℕ)
      → Decodes bytes es n
      → Extends bytes more es
  Decodes-Extends more (stop {bytes} e) = record {
    later = (decode_all_framed p (bytes ++ more)).0;
    count = (decode_all_framed p (bytes ++ more)).1;
    decodes = decode_all_framed-Decodes (bytes ++ more);
  }
  Decodes-Extends more (next {bytes = bytes} {e = x} {rest = rest} {k = k} e d h) =
      let f = take_frame-Front bytes x rest k e in
      let r = Decodes-Extends more d in
      let joined : bytes ++ more ≡ f.front ++ (rest ++ more) =
        ap (λ b. b ++ more) f.splits ∙ append_assoc f.front rest more in
      record {
        later = r.later;
        count = k + r.count;
        decodes = next (ap (take_frame p) joined ∙ f.alone (rest ++ more)) r.decodes refl;
      }

  -- On any bytes: the count of consumed bytes lies within them, those bytes alone decode to the same
  -- entries with nothing left over, and appending more bytes loses and alters none of the entries.
  pub decode_all_framed-settled :
      (bytes more : List ℕ)
      → ((decode_all_framed p bytes).1 ≤ length bytes)
        × (decode_all_framed p (take (decode_all_framed p bytes).1 bytes)
            ≡ decode_all_framed p bytes)
        × ((later : List WalEntry) × ((decode_all_framed p (bytes ++ more)).0
              ≡ (decode_all_framed p bytes).0 ++ later))
  decode_all_framed-settled bytes more =
      let d = decode_all_framed-Decodes bytes in
      let x = Decodes-Extends more d in
      (Decodes-le d, Decodes-eq (Decodes-take d), (x.later, ap (λ q. q.0) (Decodes-eq x.decodes)))
