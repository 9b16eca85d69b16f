-- ===== src/Wal/Manager/Tests.antt =====
-- A session with two mutations, on a writer that accepts all and on one that refuses the second entry.
use git_nfs.Prelude.{
  ℕ, ◌≡◌, refl, Bool, true, false, some, List, [], ◌∷◌, ◌==◌, if◌then◌else◌, ok, arith,
}
use git_nfs.Text.{ascii}
use git_nfs.Wal.Proto.{WalPayload, header}
use git_nfs.Wal.Manager.{
  ActiveWalWriter, WalManager, new, start_active_wal, log_mutation, finalize_active_wal,
}
use git_nfs.Wal.Manager.Session.{
  log_all, AllLogged, numbered, accepted, finalize_active_wal-log_all,
  finalize_active_wal-AllLogged,
}

abbrev changes : List (ℕ × WalPayload)
changes =
    (7, WalPayload.mkdir (record { path = ascii "d" }))
    ∷ (8, WalPayload.write (record { path = ascii "d/f"; offset = 4; content = 1 ∷ [] }))
    ∷ []

abbrev first : WalPayload
first = header (record {
  repo_url = ascii "r";
  base_commit_oid = ascii "c";
  author = ascii "a";
  commit_message = ascii "m";
  started_at_unix_secs = 5;
  wal_seq = 3;
})

abbrev writer : (ℕ → Bool) → ActiveWalWriter
writer accepts = record {
  entries = [];
  appends = λ es e. accepts e.seq;
  flushes = λ es. true;
  finalizes = λ es. true;
}

abbrev not_two : ℕ → Bool
not_two n = if n == 2 then false else true

abbrev started : (ℕ → Bool) → WalManager
started accepts = record {
  active_seq = 3;
  active_writer = some (record (writer accepts) {
    entries = record { seq = 1; timestamp_unix_nanos = 6; payload = some first } ∷ [];
  });
  entry_seq = 2;
}

not_two_run :
    start_active_wal
      (λ seq. some (writer not_two))
      6
      5
      (ascii "r")
      (ascii "c")
      (ascii "a")
      (ascii "m")
      (new 3)
    ≡ (ok tt, started not_two)
unfolding start_active_wal
not_two_run = refl

all_run :
    start_active_wal
      (λ seq. some (writer (λ n. true)))
      6
      5
      (ascii "r")
      (ascii "c")
      (ascii "a")
      (ascii "m")
      (new 3)
    ≡ (ok tt, started (λ n. true))
unfolding start_active_wal
all_run = refl

changes-AllLogged : AllLogged changes (started (λ n. true))
unfolding log_mutation
changes-AllLogged = (refl, (refl, tt))

-- The number 2 is missing.
finalize_active_wal-log_all_example :
    (finalize_active_wal (log_all changes (started not_two))).0
    ≡ ok (
        some (
          record { seq = 1; timestamp_unix_nanos = 6; payload = some first }
          ∷ record {
            seq = 3;
            timestamp_unix_nanos = 8;
            payload =
                some
                  (WalPayload.write (record { path = ascii "d/f"; offset = 4; content = 1 ∷ [] }));
          }
          ∷ []))
unfolding accepted
finalize_active_wal-log_all_example =
    finalize_active_wal-log_all (λ seq. some (writer not_two)) 3 6 5 (ascii "r") (ascii "c")
      (ascii "a") (ascii "m") (writer not_two) (started not_two) refl refl not_two_run changes
      (omega arith)

finalize_active_wal-AllLogged_example :
    (finalize_active_wal (log_all changes (started (λ n. true)))).0
    ≡ ok (some (numbered 1 ((6, first) ∷ changes)))
finalize_active_wal-AllLogged_example =
    finalize_active_wal-AllLogged (λ seq. some (writer (λ n. true))) 3 6 5 (ascii "r") (ascii "c")
      (ascii "a") (ascii "m") (writer (λ n. true)) (started (λ n. true)) refl refl all_run changes
      (omega arith) changes-AllLogged
