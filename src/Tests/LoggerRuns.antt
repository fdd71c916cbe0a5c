-- ===== src/Tests/LoggerRuns.antt =====
-- The logger and the loop of the statistics process at concrete inputs.
use dei_chain.Base.{ℕ, ◌≡◌, refl, true, false, none, some, List, [], ◌∷◌, ◌++◌, arith}
use dei_chain.Base.Text.{codes, decimal}
use dei_chain.Logger.Log.{Log, stamped, print, log_miner_message, log_validator_message}
use dei_chain.Logger.LogLaws.{Call, calls, calls-init, log_message-whole}
use dei_chain.Logger.LogLaws
use dei_chain.Statistics.Record.{MinerStatistics}
use dei_chain.Statistics.Loop.{Turn}
use dei_chain.Base.Segments.{pool_segment, ledger_segment, config_segment}
use dei_chain.Statistics.Whole.{
  Counter, valid_blocks, invalid_blocks, avg_validation_time, validation_count, credits,
  StatisticsStart, StatisticsEnd, all_succeed, statistics_returns, Counts,
  statistics_returns-Counts,
}
use dei_chain.Base.{Bool, ◌⊎◌}
use dei_chain.Tests.Fixtures.{code, config}
use dei_chain.Tests.SystemRuns.{message}

-- The terminal shows something already, and the file has lines of an earlier run.
abbrev old : Log
old = record { console = codes "$"; file = codes "old"; opened = false }

abbrev fresh : Log
fresh = record { console = codes "$"; file = []; opened = true }

abbrev two_calls : List Call
two_calls =
    LogLaws.message (codes "12:00") (codes "UP") ∷ LogLaws.miner 7 (codes "12:01") (codes "OK") ∷ []

abbrev lines : List ℕ
lines = codes "12:00 UP\n12:01 MINER 7: OK\n"

calls-init_example : codes "$" ++ lines ≡ codes "$" ++ lines
unfolding code
calls-init_example =
    calls-init two_calls old fresh
      (record { console = codes "$" ++ lines; file = lines; opened = true }) refl refl

log_message-whole_example :
    (log_miner_message 7 (codes "12:01") (codes "OK") fresh
      ≡ some (
          print
            (stamped (codes "12:01") (codes "MINER " ++ (decimal 7 ++ (codes ": " ++ codes "OK"))))
            fresh))
    × (log_validator_message 7 (codes "12:01") (codes "OK") fresh
        ≡ some (
            print
              (stamped
                (codes "12:01")
                (codes "VALIDATOR " ++ (decimal 7 ++ (codes ": " ++ codes "OK"))))
              fresh))
log_message-whole_example =
    log_message-whole 7 (codes "12:01") (codes "OK") fresh (omega arith) (omega arith)

abbrev quiet_turn : Turn
quiet_turn = record { terminate = false; sigusr1 = false; received = none; terminate_after = false }

-- A message, SIGUSR1, another message, and a signal to terminate that wakes the process.
abbrev turns : List Turn
turns =
    record quiet_turn { received = some (message 2 true) }
    ∷ record quiet_turn { sigusr1 = true }
    ∷ record quiet_turn { received = some (message 1 false) }
    ∷ record quiet_turn { terminate_after = true }
    ∷ []

abbrev is_not_credits : Counter → Bool
is_not_credits valid_blocks = true
is_not_credits invalid_blocks = true
is_not_credits avg_validation_time = true
is_not_credits validation_count = true
is_not_credits credits = false

abbrev begun : StatisticsStart
begun = record {
  pool_attached = true;
  ledger_attached = true;
  config_attached = true;
  allocated = λ c. true;
}

statistics_returns-Counts_example :
    (end : StatisticsEnd) × (statistics_returns (λ a b c. c) config begun turns ≡ some end)
    × (((all_succeed begun ≡ true)
          × (end.success ≡ true)
          × (end.attached ≡ [])
          × (end.unfreed ≡ [])
          × (before : List (List MinerStatistics)) × (last : List MinerStatistics) × (end.printed
              ≡ before ++ last ∷ [])
          × Counts (λ a b c. c) config turns last)
        ⊎ ((all_succeed begun ≡ false) × (end.success ≡ false) × (end.printed ≡ [])))
statistics_returns-Counts_example = statistics_returns-Counts (λ a b c. c) config begun turns refl

-- Without one of the arrays.
statistics_fails :
    statistics_returns
      (λ a b c. c)
      config
      (record begun { allocated = λ c. is_not_credits c })
      turns
    ≡ some (record {
      success = false;
      printed = [];
      attached = pool_segment ∷ ledger_segment ∷ config_segment ∷ [];
      unfreed = valid_blocks ∷ invalid_blocks ∷ avg_validation_time ∷ validation_count ∷ [];
    })
unfolding code
statistics_fails = refl
