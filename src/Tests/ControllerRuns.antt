-- ===== src/Tests/ControllerRuns.antt =====
-- The start of the program, its statistics and its signals.
use dei_chain.Base.{◌+◌, ◌≤◌, ◌≡◌, ◌↔◌, refl, true, false, none, some, [], ◌∷◌, map, length}
use dei_chain.Base.Int.{pos}
use dei_chain.Data.{BlockchainLedger}
use dei_chain.TxGen.Add.{add_transaction_to_pool}
use dei_chain.Validator.Process.{Shared}
use dei_chain.System.Steps.{here, next, generate}
use dei_chain.System.Safety.{IsSystem}
use dei_chain.Controller.Start.{Scanned, read_config, Ipc, Memories, cleared}
use dei_chain.Controller.StartLaws.{started-IsSystem}
use dei_chain.Controller.Signals.{at_dump, asleep, Controller, sigint, deliver, steps, steps-sigint}
use dei_chain.Statistics.Record.{no_statistics}
use dei_chain.Statistics.Print.{print_statistics, max_stats_lines, print_statistics_fits_iff}
use dei_chain.Controller.Lifecycle.{Run, controller_main, init_objects, create_processes}
use dei_chain.Tests.Fixtures.{code, digest, tx, pool, config, ledger}

-- A file with three numbers.
abbrev scanned : Scanned
scanned = record {
  num_miners = some (pos 2);
  tx_pool_size = some (pos 4);
  transactions_per_block = some (pos 2);
  blockchain_blocks = none;
}

config_runs :
    (read_config true scanned ≡ none)
    × (read_config true (record scanned { blockchain_blocks = some (pos 3) }) ≡ some config)
unfolding code
config_runs = (refl, refl)

abbrev all_succeed : Ipc
all_succeed = record {
  config_get = true;
  config_attach = true;
  pool_get = true;
  pool_attach = true;
  pool_mutex = true;
  pool_notification = true;
  ledger_get = true;
  ledger_attach = true;
  ledger_mutex = true;
  queue_get = true;
  fifo = true;
}

-- What an earlier run has left in the ledger's segment.
abbrev old_ledger : BlockchainLedger
old_ledger = record ledger { num_blocks = 3; mutex = 0 }

abbrev fresh : Memories
fresh = record {
  shared_config = config;
  pool = record pool {
    current_block_id = 0;
    occupancy = 0;
    mutex = 1;
    work_notification_sem = 0;
    transactions_list = map cleared pool.transactions_list;
  };
  ledger = record old_ledger { num_blocks = 0; mutex = 1 };
}

abbrev fed : Shared
fed = record { pool = (add_transaction_to_pool (tx 5) fresh.pool 4).1; ledger = fresh.ledger }

started-IsSystem_example : IsSystem digest config fed
unfolding code
started-IsSystem_example =
    started-IsSystem digest all_succeed config pool old_ledger fresh fed refl refl refl
      (next here (generate (tx 5))) (tt, tt)

-- The controller writes a dump when SIGINT arrives.
abbrev dumping : Controller
dumping = record { point = at_dump; should_terminate = false; sigusr1_received = true; dumps = 0 }

steps-sigint_example : (steps (5 + 7) (deliver sigint dumping)).point ≡ asleep
steps-sigint_example = steps-sigint dumping 7

print_statistics_fits_iff_example :
    (length (print_statistics (λ v. []) (λ s. []) true (no_statistics ∷ no_statistics ∷ []))
      ≤ max_stats_lines)
    ↔ (2 ≤ 17)
print_statistics_fits_iff_example =
    print_statistics_fits_iff (λ v. []) (λ s. []) (no_statistics ∷ no_statistics ∷ [])

-- The last `fork` fails.
abbrev two_children : Run
two_children = record {
  logger = true;
  handlers = true;
  config_read = true;
  ipc = all_succeed;
  forks = record { miner = true; validator = true; statistics = false };
}

two_children_run :
    let (success, left) = controller_main two_children in
    (success ≡ false) × (left.validator ≡ true) × (left.statistics ≡ false)
unfolding controller_main init_objects create_processes
two_children_run = (refl, refl, refl)
