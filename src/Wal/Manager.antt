-- ===== src/Wal/Manager.antt =====
-- src/wal/mod.rs: the manager of the active log. The backend's writer is the parameter `ActiveWalWriter`, whose calls
-- may fail, and the clock is an argument.
pub mod Session
mod Tests
use git_nfs.Prelude.{
  ℕ, ◌+◌, ◌%◌, Bool, Option, none, some, List, [], ◌∷◌, ◌++◌, if◌then◌else◌, ok, err,
}
use git_nfs.Prelude.Exec.{Exec}
use git_nfs.Bytes.{u64_mod}
use git_nfs.Wal.Proto.{WalPayload, header, WalEntry}

-- A writer, with the entries whose append succeeded. Whether a call succeeds may depend on them.
pub record ActiveWalWriter : Type 0 where
  pub entries : List WalEntry
  pub appends : List WalEntry → WalEntry → Bool
  pub flushes : List WalEntry → Bool
  pub finalizes : List WalEntry → Bool

pub data WalError : Type 0 where
  open_failed append_failed flush_failed finalize_failed : WalError

pub record WalManager : Type 0 where
  pub active_seq : ℕ
  pub active_writer : Option ActiveWalWriter
  pub entry_seq : ℕ

abbrev pub Wal {ℓ} : Type ℓ → Type ℓ
Wal A = Exec WalManager WalError A

abbrev pub new : ℕ → WalManager
new active_seq = record { active_seq = active_seq; active_writer = none; entry_seq = 1 }

-- `advance_seq`: the new state and the value returned.
unfoldable pub advance_seq : WalManager → WalManager × ℕ
advance_seq m = (
  record m { entry_seq = 1; active_seq = (m.active_seq + 1) % u64_mod },
  (m.active_seq + 1) % u64_mod,
)

abbrev pub next_entry : WalManager → ℕ → WalPayload → WalEntry
next_entry m now payload = record {
  seq = m.entry_seq;
  timestamp_unix_nanos = now;
  payload = some payload;
}

-- `entry_seq.fetch_add(1)`
abbrev pub take_number : WalManager → WalManager
take_number m = record m { entry_seq = (m.entry_seq + 1) % u64_mod }

abbrev pub with_entry : ActiveWalWriter → WalEntry → ActiveWalWriter
with_entry w entry = record w { entries = w.entries ++ entry ∷ [] }

abbrev pub with_writer : ActiveWalWriter → WalManager → WalManager
with_writer w m = record m { active_writer = some w }

-- A new writer for the log `active_seq`, with the header as its first entry. It becomes the active one when the
-- header is written and flushed.
unfoldable pub start_active_wal :
    (ℕ → Option ActiveWalWriter) → ℕ → ℕ → List ℕ → List ℕ → List ℕ → List ℕ → Wal (Unit {0})
start_active_wal open_writer now now_secs repo_url base_commit_oid author commit_message m =
    let header_entry = next_entry m now (
      header (record {
        repo_url = repo_url;
        base_commit_oid = base_commit_oid;
        author = author;
        commit_message = commit_message;
        started_at_unix_secs = now_secs;
        wal_seq = m.active_seq;
      })) in
    elim (open_writer m.active_seq) [
      | none ↦ (err open_failed, m)
      | some w ↦
          if w.appends w.entries header_entry
          then (if w.flushes (w.entries ++ header_entry ∷ [])
              then (ok tt, with_writer (with_entry w header_entry) (take_number m))
              else (err flush_failed, take_number m))
          else (err append_failed, take_number m)
    ]

-- The entry's number is taken also when no writer is open, and when the entry is not written.
unfoldable pub log_mutation : ℕ → WalPayload → Wal (Unit {0})
log_mutation now payload m =
    let entry = next_entry m now payload in
    elim m.active_writer [
      | none ↦ (ok tt, take_number m)
      | some w ↦
          if w.appends w.entries entry
          then (
            if w.flushes (w.entries ++ entry ∷ []) then ok tt else err flush_failed,
            with_writer (with_entry w entry) (take_number m),
          )
          else (err append_failed, take_number m)
    ]

-- The finished log, if one was open.
unfoldable pub finalize_active_wal : Wal (Option (List WalEntry))
finalize_active_wal m = (
  elim m.active_writer [
    | none ↦ ok none
    | some w ↦ if w.finalizes w.entries then ok (some w.entries) else err finalize_failed
  ],
  record m { active_writer = none },
)
