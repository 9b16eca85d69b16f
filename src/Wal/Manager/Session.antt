-- ===== src/Wal/Manager/Session.antt =====
-- src/wal/mod.rs: the log of a session, whose calls may fail.
use git_nfs.Prelude.{
  ℕ, ◌+◌, ◌<◌, ◌≡◌, refl, sym, ap, ◌∙◌, Bool, true, Bool-cases, Option, some, List, [], ◌∷◌, ◌++◌,
  length, arith, append_assoc, append-nil, inl, inr, if◌then◌else◌, Result, ok, err,
}
use git_nfs.Bytes.{u64_mod}
use git_nfs.Wal.Proto.{WalPayload, WalEntry, header}
use git_nfs.Wal.Manager.{
  ActiveWalWriter, WalManager, WalError, finalize_failed, new, next_entry, take_number, with_entry,
  with_writer, start_active_wal, log_mutation, finalize_active_wal,
}

-- The mutations of a session, each with the time it is logged at. The handlers ignore the errors.
abbrev pub log_all : List (ℕ × WalPayload) → WalManager → WalManager
log_all [] m = m
log_all ((now, payload) ∷ changes) m = log_all changes (log_mutation now payload m).1

-- Every call of the session answers that it succeeded.
abbrev pub AllLogged : List (ℕ × WalPayload) → WalManager → Type 0
AllLogged [] m = Unit
AllLogged ((now, payload) ∷ changes) m =
    ((log_mutation now payload m).0 ≡ ok tt) × AllLogged changes (log_mutation now payload m).1

-- The entries with consecutive numbers.
abbrev pub numbered : ℕ → List (ℕ × WalPayload) → List WalEntry
numbered n [] = []
numbered n ((now, payload) ∷ changes) =
    record { seq = n; timestamp_unix_nanos = now; payload = some payload }
    ∷ numbered (n + 1) changes

-- What a writer keeps of entries that are offered one after the other.
unfoldable pub accepted :
    (List WalEntry → WalEntry → Bool) → List WalEntry → List WalEntry → List WalEntry
accepted appends kept [] = kept
accepted appends kept (e ∷ entries) =
    if appends kept e
    then accepted appends (kept ++ e ∷ []) entries
    else accepted appends kept entries

-- The log after a call, and the number after it.
logged :
    (now : ℕ) (payload : WalPayload) (m : WalManager) (w : ActiveWalWriter)
    → m.active_writer ≡ some w
    → m.entry_seq + 1 < u64_mod
    → ((log_mutation now payload m).1.active_writer
        ≡ some
            (record w { entries = accepted w.appends w.entries (next_entry m now payload ∷ []) }))
      × ((log_mutation now payload m).1.entry_seq ≡ m.entry_seq + 1)
unfolding log_mutation accepted
logged now payload m w opened room =
    elim (Bool-cases (w.appends w.entries (next_entry m now payload))) [
      | inl e ↦ rw (log_mutation, opened, accepted, e) (refl, ground arith)
      | inr e ↦ rw (log_mutation, opened, accepted, e) (opened, ground arith)
    ]

accepted_step :
    (appends : List WalEntry → WalEntry → Bool) (kept : List WalEntry) (e : WalEntry)
    (entries : List WalEntry)
    → accepted appends (accepted appends kept (e ∷ [])) entries
      ≡ accepted appends kept (e ∷ entries)
unfolding accepted
accepted_step appends kept e entries = elim (Bool-cases (appends kept e)) [
  | inl h ↦ rw (accepted, h) refl
  | inr h ↦ rw (accepted, h) refl
]

log_all-accepted :
    (changes : List (ℕ × WalPayload)) (m : WalManager) (w : ActiveWalWriter)
    → m.active_writer ≡ some w
    → m.entry_seq + length changes < u64_mod
    → (log_all changes m).active_writer
      ≡ some (record w { entries = accepted w.appends w.entries (numbered m.entry_seq changes) })
unfolding accepted
log_all-accepted [] m w opened room = opened
log_all-accepted ((now, payload) ∷ changes) m w opened room =
    let m' = (log_mutation now payload m).1 in
    let (writer, next) = logged now payload m w opened (omega arith) in
    let e : WalEntry = next_entry m now payload in
    let w' : ActiveWalWriter = record w { entries = accepted w.appends w.entries (e ∷ []) } in
    log_all-accepted changes m' w' writer (omega (arith, next))
    ∙ ap {A = ℕ} {B = Option ActiveWalWriter}
        (λ n. some (record w { entries = accepted w.appends w'.entries (numbered n changes) })) next
    ∙ ap {A = List WalEntry} {B = Option ActiveWalWriter} (λ es. some (record w { entries = es }))
        (accepted_step w.appends w.entries e (numbered (m.entry_seq + 1) changes))

logged_ok :
    (now : ℕ) (payload : WalPayload) (m : WalManager) (w : ActiveWalWriter)
    → m.active_writer ≡ some w
    → (log_mutation now payload m).0 ≡ ok tt
    → w.appends w.entries (next_entry m now payload) ≡ true
unfolding log_mutation
logged_ok now payload m w opened done =
    elim (Bool-cases (w.appends w.entries (next_entry m now payload))) [
      | inl e ↦ e
      | inr e ↦ absurd (cc (rw (log_mutation, opened, e) at done))
    ]

-- Nothing is left out when every call succeeds.
accepted_all :
    (changes : List (ℕ × WalPayload)) (m : WalManager) (w : ActiveWalWriter)
    → m.active_writer ≡ some w
    → m.entry_seq + length changes < u64_mod
    → AllLogged changes m
    → accepted w.appends w.entries (numbered m.entry_seq changes)
      ≡ w.entries ++ numbered m.entry_seq changes
unfolding accepted
accepted_all [] m w opened room done = sym (append-nil w.entries)
accepted_all ((now, payload) ∷ changes) m w opened room (first, done) =
    let m' = (log_mutation now payload m).1 in
    let e : WalEntry = next_entry m now payload in
    let kept : w.appends w.entries e ≡ true = logged_ok now payload m w opened first in
    let one : accepted w.appends w.entries (e ∷ []) ≡ w.entries ++ e ∷ [] =
      rw (accepted, kept) refl in
    let (writer, next) = logged now payload m w opened (omega arith) in
    let w' : ActiveWalWriter = record w { entries = accepted w.appends w.entries (e ∷ []) } in
    sym (accepted_step w.appends w.entries e (numbered (m.entry_seq + 1) changes))
    ∙ ap (λ n. accepted w.appends w'.entries (numbered n changes)) (sym next)
    ∙ accepted_all changes m' w' writer (omega (arith, next)) done
    ∙ ap (λ n. w'.entries ++ numbered n changes) next
    ∙ ap (λ es. es ++ numbered (m.entry_seq + 1) changes) one
    ∙ append_assoc w.entries (e ∷ []) (numbered (m.entry_seq + 1) changes)

module _ (open_writer : ℕ → Option ActiveWalWriter) (seq now now_secs : ℕ)
    (repo_url base_commit_oid author commit_message : List ℕ) (w : ActiveWalWriter) (m : WalManager)
    (opens : open_writer seq ≡ some w) (empty : w.entries ≡ [])
    (starts : start_active_wal open_writer now now_secs repo_url base_commit_oid author
        commit_message
        (new seq)
      ≡ (ok tt, m)) where
  abbrev pub header_entry : WalPayload
  header_entry = header (record {
    repo_url = repo_url;
    base_commit_oid = base_commit_oid;
    author = author;
    commit_message = commit_message;
    started_at_unix_secs = now_secs;
    wal_seq = seq;
  })

  abbrev first : WalEntry
  first = next_entry (new seq) now header_entry

  -- The session that has started.
  started : m ≡ with_writer (with_entry w first) (take_number (new seq))
  unfolding start_active_wal
  started = elim (Bool-cases (w.appends w.entries first)) [
    | inr e ↦ absurd (cc (rw (start_active_wal, opens, e) at starts))
    | inl e ↦ elim (Bool-cases (w.flushes (w.entries ++ first ∷ []))) [
      | inr f ↦ absurd (cc (rw (start_active_wal, opens, e, f) at starts))
      | inl f ↦ cc (rw (start_active_wal, opens, e, f) at starts)
    ]
  ]

  alone : w.entries ++ first ∷ [] ≡ first ∷ []
  alone = ap (λ es. es ++ first ∷ []) empty

  writer : m.active_writer ≡ some (record w { entries = first ∷ [] })
  writer =
      ap {A = WalManager} {B = Option ActiveWalWriter} (λ x. x.active_writer) started
      ∙ ap {A = List WalEntry} {B = Option ActiveWalWriter} (λ es. some (record w { entries = es }))
          alone

  number : m.entry_seq ≡ 2
  number = ap {A = WalManager} {B = ℕ} (λ x. x.entry_seq) started ∙ omega arith

  -- What the log of a session has at its end.
  abbrev pub session_log : List (ℕ × WalPayload) → List WalEntry
  session_log changes = accepted w.appends (first ∷ []) (numbered 2 changes)

  -- A session that has started, on an empty log of a new manager, and logs `changes`, with entry numbers
  -- left for them: every change takes the next number from 2 on, whether it is written or not, and the log
  -- has, behind the header with the number 1, those whose append the writer accepts, in their order. That
  -- is the finished log, if the writer can finalize it, else an error.
  pub finalize_active_wal-log_all :
      (changes : List (ℕ × WalPayload))
      → 2 + length changes < u64_mod
      → (finalize_active_wal (log_all changes m)).0 ≡ (
          if w.finalizes (session_log changes)
          then ok (some (session_log changes))
          else err finalize_failed)
  unfolding finalize_active_wal
  finalize_active_wal-log_all changes room =
      let log : (log_all changes m).active_writer
          ≡ some (record w { entries = session_log changes }) =
        log_all-accepted changes m (record w { entries = first ∷ [] }) writer
          (omega (arith, number))
        ∙ ap {A = ℕ} {B = Option ActiveWalWriter}
            (λ n.
              some (record w { entries = accepted w.appends (first ∷ []) (numbered n changes) }))
            number in
      rw (finalize_active_wal, log) refl

  session_log-AllLogged :
      (changes : List (ℕ × WalPayload))
      → 2 + length changes < u64_mod
      → AllLogged changes m
      → session_log changes ≡ numbered 1 ((now, header_entry) ∷ changes)
  session_log-AllLogged changes room done =
      ap (λ n. accepted w.appends (first ∷ []) (numbered n changes)) (sym number)
      ∙ accepted_all changes m (record w { entries = first ∷ [] }) writer (omega (arith, number))
          done
      ∙ ap (λ n. first ∷ numbered n changes) number

  -- When every call of such a session succeeds, the finished log is the header and all changes in their
  -- order, numbered from 1 without gaps, or finalizing it fails.
  pub finalize_active_wal-AllLogged :
      (changes : List (ℕ × WalPayload))
      → 2 + length changes < u64_mod
      → AllLogged changes m
      → (finalize_active_wal (log_all changes m)).0 ≡ (
          if w.finalizes (numbered 1 ((now, header_entry) ∷ changes))
          then ok (some (numbered 1 ((now, header_entry) ∷ changes)))
          else err finalize_failed)
  finalize_active_wal-AllLogged changes room done =
      finalize_active_wal-log_all changes room
      ∙ ap {A = List WalEntry} {B = Result WalError (Option (List WalEntry))}
          (λ es. if w.finalizes es then ok (some es) else err finalize_failed)
          (session_log-AllLogged changes room done)
