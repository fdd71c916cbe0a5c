-- ===== src/Statistics/Whole.antt =====
-- `statistics_main` of statistics.c from its start to its end.
use dei_chain.Base.{
  arith, ℕ, ◌≡◌, refl, ◌⊎◌, inl, inr, Bool, true, false, not, ◌&&◌, Option, some, List, [], ◌∷◌,
  ◌++◌, if◌then◌else◌, Bool-cases,
}
use mathlib.Core.Option
use dei_chain.Base.Int.{pos, ◌+ℤ◌}
use dei_chain.Base.Segments.{Segment, pool_segment, ledger_segment, config_segment, without, detach}
use dei_chain.Data.{Config}
use dei_chain.Statistics.Record.{MinerStatistics, totals}
use dei_chain.Statistics.RecordLaws.{valid_of, invalid_of, received, rewards_received}
use dei_chain.Statistics.Loop.{Turn, statistics_main}
use dei_chain.Statistics.LoopLaws.{ends, messages_before_end, statistics_main-totals}

-- The arrays that the function allocates.
pub data Counter : Type 0 where
  valid_blocks invalid_blocks avg_validation_time validation_count credits : Counter

-- The outcomes of the calls of `shmat` and `calloc`.
pub record StatisticsStart : Type 0 where
  pub pool_attached : Bool
  pub ledger_attached : Bool
  pub config_attached : Bool
  pub allocated : Counter → Bool

-- Whether the function returns `EXIT_SUCCESS`, what `print_statistics` was called with, and what is
-- attached and allocated then.
pub record StatisticsEnd : Type 0 where
  pub success : Bool
  pub printed : List (List MinerStatistics)
  pub attached : List Segment
  pub unfreed : List Counter

abbrev counters : List Counter
counters = valid_blocks ∷ invalid_blocks ∷ avg_validation_time ∷ validation_count ∷ credits ∷ []

abbrev pub holding : (Counter → Bool) → List Counter → List Counter
holding allocated [] = []
holding allocated (c ∷ cs) = if allocated c then c ∷ holding allocated cs else holding allocated cs

abbrev pub every : (Counter → Bool) → List Counter → Bool
every allocated [] = true
every allocated (c ∷ cs) = allocated c && every allocated cs

abbrev pub all_succeed : StatisticsStart → Bool
all_succeed start =
    start.pool_attached
    && start.ledger_attached
    && start.config_attached
    && every start.allocated counters

abbrev counter_number : Counter → ℕ
counter_number valid_blocks = 0
counter_number invalid_blocks = 1
counter_number avg_validation_time = 2
counter_number validation_count = 3
counter_number credits = 4

-- `free`
abbrev free : Counter → List Counter → List Counter
free = without counter_number

-- What is attached and allocated.
pub record Held : Type 0 where
  pub attached : List Segment
  pub unfreed : List Counter

-- Whether the function goes on to its loop, or returns `EXIT_FAILURE`, and what it holds.
unfoldable pub statistics_begins : StatisticsStart → Bool × Held
statistics_begins start =
    if not start.pool_attached
    then (false, record { attached = []; unfreed = [] })
    else if not start.ledger_attached
    then (false, record { attached = pool_segment ∷ []; unfreed = [] })
    else if not start.config_attached
    then (false, record { attached = pool_segment ∷ ledger_segment ∷ []; unfreed = [] })
    else (
      every start.allocated counters,
      record {
        attached = pool_segment ∷ ledger_segment ∷ config_segment ∷ [];
        unfreed = holding start.allocated counters;
      },
    )

-- Behind the loop: the last call of `print_statistics`, the five of `free`, and the three of `shmdt`.
unfoldable pub statistics_ends :
    Held → List (List MinerStatistics) × List MinerStatistics → StatisticsEnd
statistics_ends h r = record {
  success = true;
  printed = r.0 ++ r.1 ∷ [];
  attached = detach config_segment (detach ledger_segment (detach pool_segment h.attached));
  unfreed = free credits (
      free validation_count
        (free avg_validation_time (free invalid_blocks (free valid_blocks h.unfreed))));
}

module _ (next_average : ℕ → ℕ → ℕ → ℕ) (config : Config) where
  -- `none` says that the loop has not ended after the turns.
  unfoldable pub statistics_returns : StatisticsStart → List Turn → Option StatisticsEnd
  unfolding statistics_main statistics_begins statistics_ends
  statistics_returns start ts =
      let (goes_on, held) = statistics_begins start in
      if goes_on
      then Option.map (statistics_ends held) (statistics_main next_average config ts)
      else some (record {
        success = false;
        printed = [];
        attached = held.attached;
        unfreed = held.unfreed;
      })

  -- The totals of the statistics are those of the messages received before the end.
  abbrev pub Counts : List Turn → List MinerStatistics → Type 0
  Counts ts stats =
      ((totals stats).total_valid ≡ received (valid_of config) (messages_before_end ts))
      × ((totals stats).total_invalid ≡ received (invalid_of config) (messages_before_end ts))
      × ((totals stats).total_credits ≡ pos 0 +ℤ rewards_received config (messages_before_end ts))

  begins_all :
      (start : StatisticsStart)
      → (statistics_begins start).0 ≡ true
      → (all_succeed start ≡ true)
        × (statistics_begins start ≡ (
          true,
          record {
            attached = pool_segment ∷ ledger_segment ∷ config_segment ∷ [];
            unfreed = counters;
          },
        ))
  unfolding statistics_begins
  begins_all start e = ground arith

  begins_failing :
      (start : StatisticsStart) → (statistics_begins start).0 ≡ false → all_succeed start ≡ false
  unfolding statistics_begins
  begins_failing start e = ground arith

  -- If a turn ends the loop, the process returns. Either all calls of its start have succeeded, the
  -- totals that it prints last are those of the messages received before the end (one valid block and its
  -- rewards, or one invalid block, for each message from a miner numbered 1 to `num_miners`), and
  -- no array is left allocated and no segment attached; or one has failed, the process fails, and
  -- nothing is printed.
  pub statistics_returns-Counts :
      (start : StatisticsStart) (ts : List Turn)
      → ends ts ≡ true
      → (end : StatisticsEnd) × (statistics_returns start ts ≡ some end)
        × (((all_succeed start ≡ true)
              × (end.success ≡ true)
              × (end.attached ≡ [])
              × (end.unfreed ≡ [])
              × (before : List (List MinerStatistics)) × (last : List MinerStatistics)
              × (end.printed ≡ before ++ last ∷ [])
              × Counts ts last)
            ⊎ ((all_succeed start ≡ false) × (end.success ≡ false) × (end.printed ≡ [])))
  unfolding statistics_returns
  statistics_returns-Counts start ts h =
      let (printed, stats, e, v, i, c) = statistics_main-totals next_average config ts h in
      elim (Bool-cases (statistics_begins start).0) [
        | inl goes ↦
            let (all, holds) = begins_all start goes in
            rw (holds, e) (_, refl, inl (all, refl, refl, refl, printed, stats, refl, (v, i, c)))
        | inr fails ↦ rw fails (_, refl, inr (begins_failing start fails, refl, refl))
      ]
