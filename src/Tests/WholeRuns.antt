-- ===== src/Tests/WholeRuns.antt =====
-- A thread of the miner, a validator and a generator that alternate, at concrete inputs.
use dei_chain.Base.{◌≡◌, refl, false, [], ◌∷◌, set, arith}
use dei_chain.Miner.Select.{reserve}
use dei_chain.TxGen.Add.{add_transaction_to_pool}
use dei_chain.System.Frame.{IsFrame}
use dei_chain.Interleaving.Steps.{idle, got}
use dei_chain.Interleaving.Sound.{IsSound}
use dei_chain.Interleaving.Miners.{outside, reserved, mining}
use dei_chain.Interleaving.Whole.{
  Whole, seen, with_pool, validator_goes, miner_goes, Runs, start, reads, validates, mines,
  generates, Runs-IsSound,
}
use dei_chain.Tests.Fixtures.{code, digest, tx, pool, config, mined_at, memory, shared}
use dei_chain.Tests.ChainRuns.{mined-IsRead}
use dei_chain.Tests.InterleavingRuns.{start-IsSound}

-- Two validators without a block and a thread outside; the pool has two transactions.
abbrev first : Whole digest config
first = record { shared = shared; validators = idle ∷ idle ∷ []; miners = outside ∷ [] }

abbrev selecting : Whole digest config
selecting = miner_goes digest config 0 outside false first

-- The generator takes the entry of a transaction that is reserved.
abbrev generated : Whole digest config
generated =
    with_pool digest config selecting
      ((add_transaction_to_pool (tx 3) selecting.shared.pool config.tx_pool_size).1)

abbrev selected : Whole digest config
selected =
    miner_goes digest config 0 (reserved (reserve 2 [] 0 pool.transactions_list)) false generated

abbrev read_one : Whole digest config
read_one = record selected { validators = set selected.validators 0 (got (mined_at 1000 3)) }

abbrev checked : Whole digest config
checked = validator_goes digest config 0 (got (mined_at 1000 3)) memory read_one

alternating : Runs digest config first checked
unfolding code
alternating =
    validates 0 (got (mined_at 1000 3)) memory
      (reads 0 (mined_at 1000 3)
        (mines 0 (reserved (reserve 2 [] 0 pool.transactions_list)) false
          (generates (tx 3) (mines 0 outside false start refl)) refl)
        refl mined-IsRead)
      refl

alternating_mines : checked.miners ≡ mining (tx 1 ∷ tx 2 ∷ []) ∷ []
unfolding code
alternating_mines = refl

first-IsFrame : IsFrame config.tx_pool_size shared.pool
first-IsFrame = record { sized = refl; percentage = omega arith; unlocked = refl }

Runs-IsSound_example :
    IsSound digest config (seen digest config checked)
    × IsFrame config.tx_pool_size checked.shared.pool
Runs-IsSound_example = Runs-IsSound digest config start-IsSound first-IsFrame alternating
