-- ===== src/Validator/Process.antt =====
-- What `validator_main` of validator.c does with a block that it has read whole, and the message
-- that `send_statistics` makes of it.
use dei_chain.Base.{ℕ, Bool, true, false, List, [], ◌∷◌, if◌then◌else◌, take}
use dei_chain.Base.Int.{ℤ, pos, eqb_ℤ, ◌+ℤ◌}
use dei_chain.Data.{
  Transaction, TransactionBlock, TransactionPool, BlockchainLedger, Config, StatisticsMessage,
}
use dei_chain.Pow.Serialize.{transaction_count}
use dei_chain.Validator.Ledger.{add_block_to_ledger, transactions_of}
use dei_chain.Validator.Check.{Memory, validate_block}
use dei_chain.Validator.Remove.{remove_transactions_from_pool, return_transactions_to_pool}

unfoldable pub sum_rewards : ℤ → List Transaction → ℤ
sum_rewards acc [] = acc
sum_rewards acc (t ∷ ts) = sum_rewards (acc +ℤ t.reward) ts

-- What a validator keeps between two blocks.
pub record Shared : Type 0 where
  pub pool : TransactionPool
  pub ledger : BlockchainLedger

-- The addition of two `float`s, by their patterns, is the machine's.
module _ (float_add : ℕ → ℕ → ℕ) where
  unfoldable pub sum_values : ℕ → List Transaction → ℕ
  sum_values acc [] = acc
  sum_values acc (t ∷ ts) = sum_values (float_add acc t.value) ts

  -- The message that `send_statistics` sends; `0.0` has the pattern 0.
  unfoldable pub statistics_message : ℤ → Bool → TransactionBlock → ℕ → StatisticsMessage
  unfolding sum_values sum_rewards
  statistics_message miner_id valid b elapsed_time =
      let ts = take (transaction_count b) (transactions_of b) in
      record {
        mtype = 1;
        miner_id = miner_id;
        valid = valid;
        elapsed_time = elapsed_time;
        transaction_count = if valid then b.transactions_per_block else pos 0;
        total_value = if valid then sum_values 0 ts else 0;
        total_rewards = if valid then sum_rewards (pos 0) ts else pos 0;
      }

module _ (sha256 : List ℕ → List ℕ) where
  -- The verdict on the block, and the pool and the ledger afterwards.
  unfoldable pub process_block : Memory → TransactionBlock → Config → Shared → Bool × Shared
  process_block memory b config s =
      let (valid, pool) = validate_block sha256 memory b s.ledger s.pool in
      let (added, ledger) = add_block_to_ledger b s.ledger config in
      if valid
      then (if eqb_ℤ added (pos 0)
          then (
            true,
            record { pool = remove_transactions_from_pool b pool config; ledger = ledger },
          )
          else (true, record { pool = return_transactions_to_pool b pool config; ledger = ledger }))
      else (false, record { pool = pool; ledger = s.ledger })
