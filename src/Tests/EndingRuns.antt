-- ===== src/Tests/EndingRuns.antt =====
-- The ends of the miner and of a validator at concrete inputs.
use dei_chain.Base.{
  ℕ, ◌+◌, ◌*◌, ◌≤◌, ◌≡◌, ◌⊎◌, refl, Bool, true, false, none, some, List, get_elem?, length, [], ◌∷◌,
}
use dei_chain.Miner.Main.Steps.{
  joining, ended, gone, ThreadPoint, at_while, at_wait, awake, MainPoint, creating, testing,
  pausing, asleep, posting, Process, started, Step, main_goes, thread_goes, Run, here, own, signal,
}
use dei_chain.Miner.Main.Whole.{
  MinerStart, miner_begins, miner_ends, at_end, all_succeed, Returns-gone,
}
use dei_chain.Miner.Main.Steps.{blocked, main_step}
use dei_chain.Miner.Main.Liveness.{IsBlocked, IsFinished, miner_main-finishes}
use dei_chain.Validator.Turn.{Outside, nothing_ready}
use dei_chain.Validator.Main.{Start, End, validator_main}
use dei_chain.System.ValidatorEnd.{IsEnd, Waits, validator_main-IsEnd}
use dei_chain.Tests.Fixtures.{code, digest, config}
use dei_chain.Tests.ChainRuns.{shared-IsSystem}
use dei_chain.Tests.TurnRuns.{outside, before}

-- One thread, the flag, and the semaphore.
abbrev one : MainPoint → ThreadPoint → Bool → ℕ → Process
one main p flag n = record { main = main; threads = p ∷ []; flag = flag; work_notification_sem = n }

-- The thread waits, and the main thread sleeps, when the signal comes.
leaves_loop : Run 1 (started 0) 6 (one (posting 1) at_wait true 0)
unfolding code
leaves_loop =
    own
      (signal (
        own
          (own
            (own
              (own (own here (main_goes true (one creating at_while false 0) refl))
                (main_goes true (one testing at_while false 0) refl))
              (thread_goes 0 at_while at_wait 0 false refl refl))
            (main_goes true (one pausing at_wait false 0) refl))
          (main_goes true (one asleep at_wait false 0) refl)))
      (main_goes true (one (posting 1) at_wait true 0) refl)

wakes : Run 1 (one (posting 1) at_wait true 0) 2 (one (posting 0) awake true 0)
unfolding code
wakes =
    own (own here (main_goes true (one (posting 0) at_wait true 1) refl))
      (thread_goes 0 at_wait awake 0 false refl refl)

miner_main-finishes_example :
    (2 ≤ 4 * 1 + 2)
    × (((u : Process) × Step 1 (one (posting 0) awake true 0) u)
        ⊎ IsBlocked 1 (one (posting 0) awake true 0)
        ⊎ IsFinished 1 (one (posting 0) awake true 0))
miner_main-finishes_example = miner_main-finishes 1 0 leaves_loop refl wakes

-- The thread wakes and leaves, and is joined.
joins : Run 1 (started 0) 12 (one ended gone true 0)
unfolding code
joins =
    own
      (own
        (own
          (own
            (own (own leaves_loop (main_goes true (one (posting 0) at_wait true 1) refl))
              (thread_goes 0 at_wait awake 0 false refl refl))
            (main_goes true (one (joining 0) awake true 0) refl))
          (thread_goes 0 awake gone 0 false refl refl))
        (main_goes true (one (joining 1) gone true 0) refl))
      (main_goes true (one ended gone true 0) refl)

abbrev begun : MinerStart
begun = record {
  pool_attached = true;
  ledger_attached = true;
  config_attached = true;
  threads_allocated = true;
  args_allocated = true;
}

begun_goes_on : (miner_begins begun).0 ≡ true
unfolding code
begun_goes_on = refl

Returns-gone_example :
    let held = miner_ends (miner_begins begun).1 in
    ((i : ℕ) → (get_elem? (gone ∷ []) i ≡ none) ⊎ (get_elem? (gone ∷ []) i ≡ some gone))
    × (((true ≡ true)
          × (all_succeed begun ≡ true)
          × (length (gone ∷ []) ≡ 1)
          × (held.attached ≡ [])
          × (held.unfreed ≡ []))
        ⊎ ((true ≡ false) × (all_succeed begun ≡ false) × (gone ∷ [] ≡ [])))
Returns-gone_example = Returns-gone (at_end begun_goes_on joins refl)

-- A thread that is blocked in its round holds up the joining.
join_waits : main_step true 1 (joining 0) (one (joining 0) blocked true 0) ≡ none
unfolding code
join_waits = refl

abbrev opened : Start
opened = record {
  pool_attached = true;
  ledger_attached = true;
  config_attached = true;
  pipe_opened = true;
}

-- A turn with a block, one without, and the signal.
abbrev turns : List (Bool × Outside)
turns =
    (false, outside) ∷ (false, record outside { selected = nothing_ready }) ∷ (true, outside) ∷ []

validator_main-IsEnd_example :
    ((end : End) × (validator_main digest (λ a b. a + b) config opened turns before ≡ some end)
      × IsEnd digest config before end)
    ⊎ Waits digest (λ a b. a + b) config turns before
validator_main-IsEnd_example =
    validator_main-IsEnd digest (λ a b. a + b) config opened turns before shared-IsSystem
      (((λ s h. h), refl), (((λ s h. h), refl), (((λ s h. h), refl), tt))) refl
