-- ===== src/Wal/Proto/Tests.antt =====
-- Concrete runs of the framing, over a small encoding that stands for the derived one, and the
-- theorems at concrete inputs.
use git_nfs.Prelude.{ℕ, ◌≤◌, ◌≡◌, refl, Option, none, some, List, [], ◌∷◌, ◌++◌, length, take}
use git_nfs.Prelude.{arith, inr}
use git_nfs.Wal.Proto.{WalEntry, Prost, Encodes, encode_framed, take_body, take_frame, decode_loop}
use git_nfs.Wal.Proto.{decode_all_framed}
use git_nfs.Wal.Proto.Frames.{frames, IsTorn, decode_all_framed-frames}
use git_nfs.Wal.Proto.Crash.{decode_all_framed-settled}

abbrev entry : ℕ → WalEntry
entry n = record { seq = n; timestamp_unix_nanos = 0; payload = none }

abbrev decode_small : List ℕ → Option WalEntry
decode_small (n ∷ []) = some (entry n)
decode_small _ = none

-- Entries without a payload, one byte each.
abbrev small : Prost
small = record { encoded_len = λ e. 1; encode = λ e. e.seq ∷ []; decode = decode_small }

entry-Encodes : (n : ℕ) → Encodes small (entry n)
entry-Encodes n = record { announced = refl; short = omega arith; decodes = refl }

abbrev torn : List ℕ
torn = 0 ∷ 0 ∷ 0 ∷ 1 ∷ []

torn-IsTorn : IsTorn small torn
unfolding encode_framed
torn-IsTorn = record {
  entry = entry 9;
  encodes = entry-Encodes 9;
  missing = 9 ∷ [];
  lost = omega arith;
  whole = refl;
}

abbrev log : List ℕ
log = 0 ∷ 0 ∷ 0 ∷ 1 ∷ 7 ∷ 0 ∷ 0 ∷ 0 ∷ 1 ∷ 8 ∷ 0 ∷ 0 ∷ 0 ∷ 5 ∷ []

-- Two frames are read, and the third announces five bytes that are not there.
log_run : decode_all_framed small log ≡ (entry 7 ∷ entry 8 ∷ [], 10)
unfolding decode_all_framed decode_loop take_frame take_body
log_run = refl

decode_all_framed-frames_example :
    decode_all_framed small (frames small (entry 7 ∷ entry 8 ∷ []) ++ torn)
    ≡ (entry 7 ∷ entry 8 ∷ [], length (frames small (entry 7 ∷ entry 8 ∷ [])))
decode_all_framed-frames_example =
    decode_all_framed-frames small (entry 7 ∷ entry 8 ∷ []) torn
      (entry-Encodes 7, (entry-Encodes 8, tt)) (inr torn-IsTorn)

decode_all_framed-settled_example :
    ((decode_all_framed small log).1 ≤ length log)
    × (decode_all_framed small (take (decode_all_framed small log).1 log)
        ≡ decode_all_framed small log)
    × ((later : List WalEntry) × ((decode_all_framed small (log ++ torn)).0
          ≡ (decode_all_framed small log).0 ++ later))
decode_all_framed-settled_example = decode_all_framed-settled small log torn
