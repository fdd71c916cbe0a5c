-- ===== src/Statistics/Loop.antt =====
-- The loop of `statistics_main` of statistics.c.
use dei_chain.Base.{ℕ, Bool, Option, none, some, List, [], ◌∷◌, ◌++◌, replicate, if◌then◌else◌}
use mathlib.Core.Option
use dei_chain.Data.{StatisticsMessage, Config}
use dei_chain.Statistics.Record.{MinerStatistics, no_statistics, process_message}

-- What a turn of the loop meets: `should_terminate` at its head, the flag of SIGUSR1, how `msgrcv`
-- returns (`none` is -1), and `should_terminate` after that.
pub record Turn : Type 0 where
  pub terminate : Bool
  pub sigusr1 : Bool
  pub received : Option StatisticsMessage
  pub terminate_after : Bool

module _ (next_average : ℕ → ℕ → ℕ → ℕ) (config : Config) where
  -- What `print_statistics` is called with, the last time behind the loop. `none` says that the loop has
  -- not ended after the turns.
  unfoldable pub statistics_loop :
      List Turn → List MinerStatistics → Option (List (List MinerStatistics) × List MinerStatistics)
  statistics_loop [] stats = none
  statistics_loop (t ∷ ts) stats =
      let printed = if t.sigusr1 then stats ∷ [] else [] in
      if t.terminate then some ([], stats) else elim t.received [
        | none ↦
            if t.terminate_after
            then some (printed, stats)
            else Option.map
                (λ (r : List (List MinerStatistics) × List MinerStatistics). (printed ++ r.0, r.1))
                (statistics_loop ts stats)
        | some msg ↦
            Option.map
              (λ (r : List (List MinerStatistics) × List MinerStatistics). (printed ++ r.0, r.1))
              (statistics_loop ts (process_message next_average msg config stats))
      ]

  -- From the `calloc`s on.
  unfoldable pub statistics_main :
      List Turn → Option (List (List MinerStatistics) × List MinerStatistics)
  unfolding statistics_loop
  statistics_main ts = statistics_loop ts (replicate config.num_miners no_statistics)
