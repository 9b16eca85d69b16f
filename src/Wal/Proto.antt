-- ===== src/Wal/Proto.antt =====
-- src/wal/proto.rs: the records of the write-ahead log and their framing. The byte encoding of one
-- record is derived by `prost`, which is not part of the repository: it is the parameter `Prost`.
pub mod Frames
pub mod Crash
mod Tests
use mathlib.Core.Option
use git_nfs.Prelude.{ℕ, zero, suc, ◌+◌, ◌<◌, ◌≡◌, Option, none, some}
use git_nfs.Prelude.{List, [], ◌∷◌, ◌++◌, length, take, drop, leb, if◌then◌else◌}
use git_nfs.Bytes.{as_u32, be32, from_be32, u32_mod}

pub data InodeType : Type 0 where
  regular_file directory symlink executable_file : InodeType

pub record WalHeader : Type 0 where
  pub repo_url : List ℕ
  pub base_commit_oid : List ℕ
  pub author : List ℕ
  pub commit_message : List ℕ
  pub started_at_unix_secs : ℕ
  pub wal_seq : ℕ

-- `inode_type` is an `i32` on the wire; the negative half is read as its bit pattern.
pub record CreateFileMutation : Type 0 where
  pub path : List ℕ
  pub inode_type : ℕ
  pub mode : ℕ

pub record MkdirMutation : Type 0 where
  pub path : List ℕ

pub record WriteMutation : Type 0 where
  pub path : List ℕ
  pub offset : ℕ
  pub content : List ℕ

pub record TruncateMutation : Type 0 where
  pub path : List ℕ
  pub new_size : ℕ

pub record RemoveMutation : Type 0 where
  pub path : List ℕ

pub record RenameMutation : Type 0 where
  pub from_path : List ℕ
  pub to_path : List ℕ

pub data WalPayload : Type 0 where
  header : WalHeader → WalPayload
  create_file : CreateFileMutation → WalPayload
  mkdir : MkdirMutation → WalPayload
  write : WriteMutation → WalPayload
  truncate : TruncateMutation → WalPayload
  remove : RemoveMutation → WalPayload
  rename : RenameMutation → WalPayload

pub record WalEntry : Type 0 where
  pub seq : ℕ
  pub timestamp_unix_nanos : ℕ
  pub payload : Option WalPayload

-- What the derived code offers: `encoded_len`, `encode` and `decode`.
pub record Prost : Type 0 where
  pub encoded_len : WalEntry → ℕ
  pub encode : WalEntry → List ℕ
  pub decode : List ℕ → Option WalEntry

-- What the framing relies on for one record: the announced length is the number of bytes written,
-- it fits the 32-bit prefix, and what was encoded decodes to the record again.
pub record Encodes (p : Prost) (e : WalEntry) : Type 0 where
  pub announced : p.encoded_len e ≡ length (p.encode e)
  pub short : length (p.encode e) < u32_mod
  pub decodes : p.decode (p.encode e) ≡ some e

module _ (p : Prost) where
  unfoldable pub encode_framed : WalEntry → List ℕ
  encode_framed e = be32 (as_u32 (p.encoded_len e)) ++ p.encode e

  -- A round of the loop behind the length prefix: the entry, what follows it, and the bytes taken.
  -- `none` is each of the two `break`s.
  unfoldable pub take_body : ℕ → List ℕ → Option (WalEntry × List ℕ × ℕ)
  take_body msg_len rest =
      if leb msg_len (length rest)
      then Option.map (λ entry. (entry, drop msg_len rest, 4 + msg_len))
          (p.decode (take msg_len rest))
      else none

  -- The loop's condition, `data.len() >= 4`, and a round.
  unfoldable pub take_frame : List ℕ → Option (WalEntry × List ℕ × ℕ)
  take_frame (a ∷ b ∷ c ∷ d ∷ rest) = take_body (from_be32 a b c d) rest
  take_frame bytes = none

  unfoldable pub decode_loop : ℕ → List ℕ → List WalEntry → ℕ → List WalEntry × ℕ
  decode_loop zero bytes entries consumed = (entries, consumed)
  decode_loop (suc fuel) bytes entries consumed = elim (take_frame bytes) [
    | none ↦ (entries, consumed)
    | some (entry, rest, taken) ↦ decode_loop fuel rest (entries ++ entry ∷ []) (consumed + taken)
  ]

  -- The entries and the number of bytes that they take. A round takes four bytes at least, so
  -- `length bytes` rounds are enough.
  unfoldable pub decode_all_framed : List ℕ → List WalEntry × ℕ
  decode_all_framed bytes = decode_loop (length bytes) bytes [] 0
