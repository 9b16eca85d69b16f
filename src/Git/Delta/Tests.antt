-- ===== src/Git/Delta/Tests.antt =====
-- A delta of a copy and an insertion.
use git_nfs.Prelude.{ℕ, ◌≡◌, ◌≢◌, err, List, [], ◌∷◌, ◌++◌, none, some, ok, All, arith}
use git_nfs.Git.Delta.{apply_git_delta, stuck}
use git_nfs.Git.Delta.Termination.{apply_git_delta_ends}
use git_nfs.Git.Delta.Varint.{varint}
use git_nfs.Git.Delta.Copies.{Copy, IsCopy}
use git_nfs.Git.Delta.Apply.{
  Instruction, copies, inserts, IsInstruction, encode_all, apply_git_delta-encode_all,
}

-- Three bytes from position 1.
abbrev middle : Copy
middle = record {
  off0 = some 1;
  off1 = none;
  off2 = none;
  off3 = none;
  size0 = some 3;
  size1 = none;
  size2 = none;
}

middle-IsCopy : IsCopy middle
middle-IsCopy = record {
  off0 = omega arith;
  off1 = omega arith;
  off2 = omega arith;
  off3 = omega arith;
  size0 = omega arith;
  size1 = omega arith;
  size2 = omega arith;
}

abbrev base : List ℕ
base = 10 ∷ 11 ∷ 12 ∷ 13 ∷ 14 ∷ []

abbrev instructions : List Instruction
instructions = copies middle ∷ inserts (7 ∷ 8 ∷ []) ∷ []

instructions-All : All IsInstruction instructions
instructions-All = (middle-IsCopy, ((omega arith, omega arith), tt))

apply_git_delta-encode_all_example :
    apply_git_delta base (varint 8 5 ++ (varint 8 5 ++ encode_all instructions))
    ≡ ok (11 ∷ 12 ∷ 13 ∷ 7 ∷ 8 ∷ [])
apply_git_delta-encode_all_example =
    apply_git_delta-encode_all base instructions 5 5 instructions-All (omega arith) (omega arith)

-- The opcode zero is refused.
apply_git_delta_ends_example : apply_git_delta [] (0 ∷ 1 ∷ 0 ∷ []) ≢ err stuck
apply_git_delta_ends_example = apply_git_delta_ends [] (0 ∷ 1 ∷ 0 ∷ [])
