-- ===== src/Miner/Main/Count.antt =====
-- How much the threads have left to do, and how many of them may still wait.
use dei_chain.Base.{
  ℕ, zero, suc, ◌+◌, ◌≤◌, ◌<◌, ◌≡◌, refl, ap, ◌⊎◌, inl, inr, Bool, true, false, none, some, List,
  [], ◌∷◌, set, get_elem?, length, total, arith,
}
use mathlib.Core.Option.{some-injective}
use dei_chain.Miner.Main.Steps.{
  ThreadPoint, at_while, at_wait, awake, at_round, blocked, gone, thread_step,
}

-- The steps that a thread takes at most, once the flag is set.
abbrev pub rank : ThreadPoint → ℕ
rank at_while = 1
rank at_wait = 2
rank awake = 1
rank at_round = 2
rank blocked = 2
rank gone = 0

abbrev pub waits : ThreadPoint → ℕ
waits at_while = 0
waits at_wait = 1
waits awake = 0
waits at_round = 0
waits blocked = 0
waits gone = 0

-- With the flag set, a step brings a thread nearer to its end, and it takes as much from the semaphore
-- as there are fewer who wait.
pub thread_step-rank :
    (other : Bool) (p q : ThreadPoint) (m n : ℕ)
    → thread_step other true p m ≡ some (q, n)
    → (rank q < rank p) × (waits q + m ≤ waits p + n)
unfolding thread_step
thread_step-rank true at_while q m n e = ground arith
thread_step-rank false at_while q m n e = ground arith
thread_step-rank true at_wait q m n e = ground arith
thread_step-rank false at_wait q zero n e = ground arith
thread_step-rank false at_wait q (suc m) n e = ground arith
thread_step-rank true awake q m n e = ground arith
thread_step-rank false awake q m n e = ground arith
thread_step-rank true at_round q m n e = ground arith
thread_step-rank false at_round q m n e = ground arith
thread_step-rank true blocked q m n e = ground arith
thread_step-rank false blocked q m n e = ground arith
thread_step-rank true gone q m n e = ground arith
thread_step-rank false gone q m n e = ground arith

-- The first `i` threads are gone.
abbrev pub GoneUpTo : ℕ → List ThreadPoint → Type 0
GoneUpTo zero ps = Unit {0}
GoneUpTo (suc i) [] = ⊥
GoneUpTo (suc i) (p ∷ ps) = (rank p ≡ 0) × GoneUpTo i ps

pub GoneUpTo-set :
    (i j : ℕ) (ps : List ThreadPoint) (p q : ThreadPoint)
    → get_elem? ps j ≡ some p
    → 0 < rank p
    → GoneUpTo i ps
    → GoneUpTo i (set ps j q)
GoneUpTo-set zero j ps p q at busy h = tt
GoneUpTo-set (suc i) j [] p q at busy h = h
GoneUpTo-set (suc i) zero (x ∷ ps) p q at busy h =
    absurd (omega (arith, h.0, ap rank (some-injective _ _ at)))
GoneUpTo-set (suc i) (suc j) (x ∷ ps) p q at busy h = (h.0, GoneUpTo-set i j ps p q at busy h.1)

pub GoneUpTo-suc :
    (i : ℕ) (ps : List ThreadPoint)
    → get_elem? ps i ≡ some gone
    → GoneUpTo i ps
    → GoneUpTo (suc i) ps
GoneUpTo-suc i [] at h = cc
GoneUpTo-suc zero (x ∷ ps) at h = (ap rank (some-injective _ _ at), tt)
GoneUpTo-suc (suc i) (x ∷ ps) at h = (h.0, GoneUpTo-suc i ps at h.1)

-- Behind the last thread, all of them are gone.
pub GoneUpTo-total :
    (i : ℕ) (ps : List ThreadPoint)
    → get_elem? ps i ≡ none
    → GoneUpTo i ps
    → (length ps ≡ i) × (total rank ps ≡ 0)
GoneUpTo-total zero [] at h = (refl, refl)
GoneUpTo-total zero (x ∷ ps) at h = cc
GoneUpTo-total (suc i) [] at h = elim h [ ]
GoneUpTo-total (suc i) (x ∷ ps) at h =
    let (size, rest) = GoneUpTo-total i ps at h.1 in (ap suc size, omega (arith, h.0, rest))

-- A thread that is not gone is blocked or has a step, if there is a post for each that waits.
pub thread_step-some :
    (p : ThreadPoint) (flag : Bool) (m : ℕ)
    → 0 < rank p
    → waits p ≤ m
    → (p ≡ blocked) ⊎ ((q : ThreadPoint) × (n : ℕ) × (thread_step false flag p m ≡ some (q, n)))
unfolding thread_step
thread_step-some at_while flag m busy enough = inr (_, _, refl)
thread_step-some at_wait flag zero busy enough = absurd (omega arith)
thread_step-some at_wait flag (suc m) busy enough = inr (_, _, refl)
thread_step-some awake flag m busy enough = inr (_, _, refl)
thread_step-some at_round flag m busy enough = inr (_, _, refl)
thread_step-some blocked flag m busy enough = inl refl
thread_step-some gone flag m busy enough = absurd (omega arith)

-- Either some thread is not gone, or all are.
pub busy_or_gone :
    (ps : List ThreadPoint)
    → ((i : ℕ) × (p : ThreadPoint) × (get_elem? ps i ≡ some p)
        × (0 < rank p)
        × (waits p ≤ total waits ps))
      ⊎ (total rank ps ≡ 0)
busy_or_gone [] = inr refl
busy_or_gone (at_while ∷ ps) = inl (0, at_while, refl, omega arith, omega arith)
busy_or_gone (at_wait ∷ ps) = inl (0, at_wait, refl, omega arith, omega arith)
busy_or_gone (awake ∷ ps) = inl (0, awake, refl, omega arith, omega arith)
busy_or_gone (at_round ∷ ps) = inl (0, at_round, refl, omega arith, omega arith)
busy_or_gone (blocked ∷ ps) = inl (0, blocked, refl, omega arith, omega arith)
busy_or_gone (gone ∷ ps) = elim (busy_or_gone ps) [
  | inl (i, p, at, busy, some_wait) ↦ inl (suc i, p, at, busy, omega (arith, some_wait))
  | inr all ↦ inr (omega (arith, all))
]

rank-gone : (p : ThreadPoint) → rank p ≡ 0 → p ≡ gone
rank-gone p h = ground arith

pub all_gone :
    (ps : List ThreadPoint) (i : ℕ)
    → total rank ps ≡ 0
    → (get_elem? ps i ≡ none) ⊎ (get_elem? ps i ≡ some gone)
all_gone [] i h = inl refl
all_gone (p ∷ ps) zero h = inr (ap some (rank-gone p (omega arith)))
all_gone (p ∷ ps) (suc i) h = all_gone ps i (omega arith)
