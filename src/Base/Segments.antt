-- ===== src/Base/Segments.antt =====
-- The segments of shared memory that a process attaches, and lists of what a process holds.
use Prim.Native.Nat.{ℕ}
use mathlib.Core.List.{List, [], ◌∷◌}
use dei_chain.Base.Tests.{◌==◌, if◌then◌else◌}

pub data Segment : Type 0 where
  pool_segment ledger_segment config_segment : Segment

abbrev pub segment_number : Segment → ℕ
segment_number pool_segment = 0
segment_number ledger_segment = 1
segment_number config_segment = 2

-- A thing that is held is given back, once; the things are told apart by a number.
abbrev pub without {ℓ} : {A : Type ℓ} → (A → ℕ) → A → List A → List A
without number x [] = []
without number x (y ∷ ys) = if number x == number y then ys else y ∷ without number x ys

-- `shmdt`
abbrev pub detach : Segment → List Segment → List Segment
detach = without segment_number
