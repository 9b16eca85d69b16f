-- ===== src/Wal/Recovery/Tests.antt =====
-- Recovery at a concrete input.
use git_nfs.Prelude.{ℕ, ◌≡◌, refl, none, some, Option, List, [], ◌∷◌, map, arith, inl, inr}
use git_nfs.Prelude.Exec.{pure, ◌>>◌}
use git_nfs.Text.{ascii}
use git_nfs.Staging
use git_nfs.Vfs.State.{Engine, new}
use git_nfs.Wal.Proto.{WalEntry, Prost, Encodes, encode_framed, mkdir}
use git_nfs.Wal.Proto.Frames.{IsTorn}
use git_nfs.Wal.Recovery.{World, CommitInfo, replay_logs, replay_wal_entries, read_headers}
use git_nfs.Wal.Recovery.Logs.{Log, all_entries, bytes_of, replay_logs-entries}

-- Each entry makes a directory with a name of one letter.
abbrev entry : ℕ → WalEntry
entry n = record {
  seq = n;
  timestamp_unix_nanos = 0;
  payload = some (mkdir (record { path = n ∷ [] }));
}

abbrev decode_small : List ℕ → Option WalEntry
decode_small (n ∷ []) = some (entry n)
decode_small _ = none

abbrev small : Prost
small = record { encoded_len = λ e. 1; encode = λ e. e.seq ∷ []; decode = decode_small }

entry-Encodes : (n : ℕ) → Encodes small (entry n)
entry-Encodes n = record { announced = refl; short = omega arith; decodes = refl }

tail-IsTorn : IsTorn small (0 ∷ 0 ∷ 0 ∷ 1 ∷ [])
unfolding encode_framed
tail-IsTorn = record {
  entry = entry 99;
  encodes = entry-Encodes 99;
  missing = 99 ∷ [];
  lost = omega arith;
  whole = refl;
}

abbrev engine : Engine
engine = record { get_tree = λ oid. none; memory_size = λ oid. none; disk_size = λ oid. none }

abbrev logs : List Log
logs =
    record { entries = entry 97 ∷ []; tail = [] }
    ∷ record { entries = entry 98 ∷ []; tail = 0 ∷ 0 ∷ 0 ∷ 1 ∷ [] }
    ∷ []

abbrev info : CommitInfo
info = record { base_commit_oid = []; author = ascii "me"; commit_message = [] }

abbrev world : World
world = record { vfs = new []; staging = Staging.new }

replay_logs-entries_example :
    replay_logs small engine
      (λ oid. none)
      (map (bytes_of small engine (λ oid. none)) logs)
      info
      world
    ≡ (replay_wal_entries engine (λ oid. none) (all_entries logs)
          >> pure (read_headers info (all_entries logs)))
        world
replay_logs-entries_example =
    replay_logs-entries small engine (λ oid. none) logs info world
      (
        record { encodes = (entry-Encodes 97, tt); cut = inl refl },
        (record { encodes = (entry-Encodes 98, tt); cut = inr tail-IsTorn }, tt),
      )
