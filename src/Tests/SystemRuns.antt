-- ===== src/Tests/SystemRuns.antt =====
-- A block on its way from a miner to a validator, and the statistics, at concrete inputs.
use dei_chain.Base.{ℕ, ◌≡◌, refl, Bool, true, false, List, [], ◌∷◌, arith}
use dei_chain.Base.Int.{pos}
use dei_chain.Base.Arrays.{strlen, strcmp_eq-strlen}
use dei_chain.Data.{StatisticsMessage}
use dei_chain.Pool.Counting.{live}
use dei_chain.Statistics.Record.{no_statistics, process_messages, totals, MinerStatistics}
use dei_chain.Tests.Fixtures.{code, tx, pool, config}

sizes : (strlen (tx 1).tx_id ≡ 6) × (strlen (tx 2).tx_id ≡ 6)
unfolding code
sizes = (refl, refl)

pub pool-named : (id : List ℕ) → strlen id ≡ 0 → live id pool.transactions_list ≡ 0
unfolding live
pool-named id h =
    ground (arith, sizes, strcmp_eq-strlen (tx 1).tx_id id, strcmp_eq-strlen (tx 2).tx_id id)

abbrev pub message : ℕ → Bool → StatisticsMessage
message miner valid = record {
  mtype = 1;
  miner_id = pos miner;
  valid = valid;
  elapsed_time = 5;
  transaction_count = pos 2;
  total_value = 14;
  total_rewards = pos 4;
}

-- The third message names no miner of the configuration.
abbrev messages : List StatisticsMessage
messages = message 2 true ∷ message 1 false ∷ message 3 true ∷ message 2 true ∷ []

abbrev start : List MinerStatistics
start = no_statistics ∷ no_statistics ∷ []

statistics_run :
    (totals (process_messages (λ a b c. c) messages config start)).total_credits ≡ pos 8
unfolding code
statistics_run = refl
