-- ===== src/Wal/Recovery/Logs.antt =====
-- Recovery of logs that crashes cut off.
use git_nfs.Prelude.{
  ℕ, ◌≡◌, refl, ap, sym, ◌∙◌, Option, Option-cases, inl, inr, List, [], ◌∷◌, ◌++◌, map, All, Result,
  ok, err,
}
use git_nfs.Prelude.Exec.{pure, continue, ◌>>◌}
use git_nfs.Vfs.State.{Engine}
use git_nfs.Wal.Proto.{Prost, Encodes, WalEntry, decode_all_framed}
use git_nfs.Wal.Proto.Frames.{frames, IsCut, decode_all_framed-frames}
use git_nfs.Wal.Recovery.{
  World, RecoverError, Recover, CommitInfo, replay_payload, replay_wal_entries, read_headers,
  read_header, replay_logs,
}

module _ (engine : Engine) (get_blob : List ℕ → Option (List ℕ)) where
  then_assoc :
      {A : Type 0} (m n : Recover (Unit {0})) (k : Recover A) (w : World)
      → ((m >> n) >> k) w ≡ (m >> (n >> k)) w
  then_assoc {A = A} m n k w = go (m w)
    where
      go :
          (r : Result RecoverError (Unit {0}) × World)
          → ((λ (v : World). continue {B = Unit {0}} r.0 (λ u. n) r.1) >> k) w
            ≡ continue r.0 (λ u. n >> k) r.1
      go (ok tt, t) = refl
      go (err e, t) = refl

  then_cong :
      {A : Type 0} (m : Recover (Unit {0})) (n k : Recover A) (w : World)
      → ((t : World) → n t ≡ k t)
      → (m >> n) w ≡ (m >> k) w
  then_cong m n k w same = go (m w)
    where
      go :
          (r : Result RecoverError (Unit {0}) × World)
          → continue r.0 (λ u. n) r.1 ≡ continue r.0 (λ u. k) r.1
      go (ok tt, t) = same t
      go (err e, t) = refl

  -- Entries replayed in two parts.
  replay-append :
      {A : Type 0} (xs ys : List WalEntry) (k : Recover A) (w : World)
      → (replay_wal_entries engine get_blob (xs ++ ys) >> k) w
        ≡ (replay_wal_entries engine get_blob xs >> (replay_wal_entries engine get_blob ys >> k)) w
  unfolding replay_wal_entries
  replay-append [] ys k w = refl
  replay-append (x ∷ xs) ys k w = elim (Option-cases x.payload) [
    | inl e ↦ rw (replay_wal_entries, e) (replay-append xs ys k w)
    | inr (payload, e) ↦
        let m = replay_payload engine get_blob payload in
        let r : List WalEntry → Recover (Unit {0}) = λ zs. replay_wal_entries engine get_blob zs in
        rw (replay_wal_entries, e)
          (then_assoc m (r (xs ++ ys)) k w
            ∙ then_cong m (r (xs ++ ys) >> k) (r xs >> (r ys >> k)) w (λ t. replay-append xs ys k t)
            ∙ sym (then_assoc m (r xs) (r ys >> k) w))
  ]

read_headers-append :
    (info : CommitInfo) (xs ys : List WalEntry)
    → read_headers info (xs ++ ys) ≡ read_headers (read_headers info xs) ys
unfolding read_headers
read_headers-append info [] ys = refl
read_headers-append info (x ∷ xs) ys = read_headers-append (read_header info x) xs ys

-- A log of one session: its entries, and the part of one more entry that a crash left.
pub record Log : Type 0 where
  pub entries : List WalEntry
  pub tail : List ℕ

abbrev pub all_entries : List Log → List WalEntry
all_entries [] = []
all_entries (l ∷ ls) = l.entries ++ all_entries ls

module _ (p : Prost) (engine : Engine) (get_blob : List ℕ → Option (List ℕ)) where
  abbrev pub bytes_of : Log → List ℕ
  bytes_of l = frames p l.entries ++ l.tail

  pub record IsLog (l : Log) : Type 0 where
    pub encodes : All (Encodes p) l.entries
    pub cut : IsCut p l.tail

  -- The replay of logs that were written by sessions, of which each may have crashed inside an entry, is
  -- the replay of all their entries one after the other, from any state, errors included; the commit is
  -- labelled by the last header that has the part in question.
  pub replay_logs-entries :
      (ls : List Log) (info : CommitInfo) (w : World)
      → All IsLog ls
      → replay_logs p engine get_blob (map bytes_of ls) info w
        ≡ (replay_wal_entries engine get_blob (all_entries ls)
              >> pure (read_headers info (all_entries ls)))
            w
  unfolding replay_logs replay_wal_entries read_headers
  replay_logs-entries [] info w h = refl
  replay_logs-entries (l ∷ ls) info w h =
      let d : (decode_all_framed p (bytes_of l)).0 ≡ l.entries =
        ap (λ r. r.0) (decode_all_framed-frames p l.entries l.tail h.0.encodes h.0.cut) in
      let r : List WalEntry → Recover (Unit {0}) = λ zs. replay_wal_entries engine get_blob zs in
      ap (λ es. (r es >> replay_logs p engine get_blob (map bytes_of ls) (read_headers info es)) w)
        d
      ∙ then_cong engine get_blob (r l.entries)
          (replay_logs p engine get_blob (map bytes_of ls) (read_headers info l.entries)) _ w
          (λ t. replay_logs-entries ls (read_headers info l.entries) t h.1)
      ∙ sym (
          replay-append engine get_blob l.entries (all_entries ls)
            (pure (read_headers (read_headers info l.entries) (all_entries ls))) w)
      ∙ ap (λ i. (r (l.entries ++ all_entries ls) >> pure i) w)
          (sym (read_headers-append info l.entries (all_entries ls)))
