-- ===== src/Tests/ValidatorRuns.antt =====
-- The validator's work at concrete inputs.
use dei_chain.Base.{◌≤◌, ◌≡◌, refl, ◌↔◌, true, [], ◌∷◌, length, arith, if◌then◌else◌, take, All}
use dei_chain.Base.Int.{pos}
use dei_chain.Data.{TransactionBlock, TransactionPool}
use dei_chain.Pool.Entries.{mentions, count_occupied, occupancy_of}
use dei_chain.Pool.Counting.{live}
use dei_chain.Validator.Ledger.{initial_hash, transactions_of, add_block_to_ledger}
use dei_chain.Validator.Check.{check_transactions}
use dei_chain.Validator.Remove.{remove_transactions_from_pool}
use dei_chain.Validator.Process.{process_block}
use dei_chain.Validator.Chain.{chain, IsChain, IsLedger}
use dei_chain.Validator.Race.{two_validators_break_chain}
use dei_chain.Validator.PoolLaws.{
  IsListed, block_transactions, check_transactions_iff, check_transactions-remove,
  remove_transactions_from_pool_lem,
}
use dei_chain.Validator.Manage.{Manager, in_parent, manage_validators}
use dei_chain.Validator.ManageLaws.{manage_validators_grows}
use dei_chain.Tests.Fixtures.{code, digest, tx, pool, config, ledger, mined_at, memory, shared}

pub ledger-IsLedger : IsLedger digest config ledger
ledger-IsLedger = record { room = refl; bounded = omega arith; unlocked = refl; linked = tt }

-- The block is accepted and stored, and its transactions leave the pool.
process_runs :
    let (valid, after) = process_block digest memory (mined_at 1000 3) config shared in
    (valid ≡ true)
    × (after.ledger.num_blocks ≡ 1)
    × (count_occupied after.pool.transactions_list ≡ 0)
unfolding code
process_runs = (refl, refl, refl)

-- Two blocks for the empty ledger, a second apart.
two_validators_break_chain_example :
    let ledger' = (add_block_to_ledger (mined_at 1000 3) ledger config).1 in
    ¬ IsChain digest initial_hash (chain (add_block_to_ledger (mined_at 1001 2) ledger' config).1)
unfolding code
two_validators_break_chain_example =
    two_validators_break_chain digest memory memory (mined_at 1000 3) (mined_at 1001 2)
      (tx 1 ∷ tx 2 ∷ []) config ledger pool pool ledger-IsLedger (omega arith) refl (omega arith)
      refl refl refl refl refl

check_transactions_iff_example :
    (((check_transactions true (mined_at 1000 3) pool).0 ≡ true)
      ↔ All (IsListed pool.transactions_list) (block_transactions (mined_at 1000 3)))
    × ((check_transactions true (mined_at 1000 3) pool).1.mutex ≡ 1)
check_transactions_iff_example = check_transactions_iff (mined_at 1000 3) pool refl

check_transactions-remove_example :
    (check_transactions true
      (mined_at 1001 2)
      (remove_transactions_from_pool (mined_at 1000 3) pool config)).0
    ≡ (check_transactions true (mined_at 1001 2) pool).0
check_transactions-remove_example =
    check_transactions-remove true (mined_at 1000 3) (mined_at 1001 2) pool config

remove_transactions_from_pool_example :
    let pool' = remove_transactions_from_pool (mined_at 1000 3) pool config in
    let id = (tx 2).tx_id in
    (live id pool'.transactions_list ≡ (
      if mentions id (take 2 (transactions_of (mined_at 1000 3)))
      then 0
      else live id pool.transactions_list))
    × (length pool'.transactions_list ≡ length pool.transactions_list)
    × (pool'.occupancy ≡ occupancy_of pool'.transactions_list 4)
    × (pool'.mutex ≡ 1)
unfolding code
remove_transactions_from_pool_example =
    remove_transactions_from_pool_lem (mined_at 1000 3) pool config (tx 2).tx_id refl (omega arith)

-- A block that names another hash than the initial one.
abbrev stale : TransactionBlock
stale = record (mined_at 1000 3) { previous_block_hash = b'7' ∷ initial_hash }

abbrev pub manager : Manager
manager = record { validator_id = 1; active_validators = 1; last_validator_creation = pos 0 }

abbrev crowded : TransactionPool
crowded = record pool { occupancy = 85 }

fork_runs : (manage_validators (pos 9) in_parent crowded manager).active_validators ≡ 2
unfolding code
fork_runs = refl

manage_validators_grows_example :
    1 ≤ (manage_validators (pos 9) in_parent crowded manager).active_validators
manage_validators_grows_example =
    manage_validators_grows (pos 9) in_parent crowded manager (ground arith)
