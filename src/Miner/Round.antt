-- ===== src/Miner/Round.antt =====
-- One round of the loop of `miner_thread_function` of miner.c, while the flag to terminate is not set.
use dei_chain.Base.{ℕ, Bool, not, Option, none, some, List, if◌then◌else◌}
use dei_chain.Base.Int.{ℤ}
use dei_chain.Data.{
  TransactionBlock, PowResult, TransactionPool, BlockchainLedger, Config, sem_wait,
}
use dei_chain.Pow.Search.{proof_of_work}
use dei_chain.Miner.Select.{select_transactions}
use dei_chain.Miner.Block.{create_block, return_to_pool}
use dei_chain.Validator.Ledger.{latest_hash}

-- What a round gets from outside: the outcomes of its allocations, of `strdup` for all IDs together,
-- and of `send_block_to_validator`, the two readings of the clock, and what buffers held.
pub record Outcomes : Type 0 where
  pub selected_allocated : Bool
  pub indices_allocated : Bool
  pub ids_copied : Bool
  pub block_allocated : Bool
  pub hash_allocated : Bool
  pub hash_buffer : List ℕ
  pub now : ℤ
  pub retry_now : ℤ
  pub pow_allocated : ℕ → Bool
  pub pow_buffer : List ℕ
  pub retry_allocated : ℕ → Bool
  pub retry_buffer : List ℕ
  pub sent : Bool

module _ (sha256 : List ℕ → List ℕ) where
  -- The search for a nonce, and the second one with a new timestamp if the first fails.
  unfoldable pub mine : Outcomes → TransactionBlock → PowResult × TransactionBlock
  mine o b =
      let first = proof_of_work sha256 o.pow_allocated o.pow_buffer b in
      if first.0.error
      then proof_of_work sha256 o.retry_allocated o.retry_buffer
          (record (first.1) { timestamp = o.retry_now })
      else first

  -- The block that was sent, if one was, and the pool after the round. The pool is that of a round
  -- during which no other process writes to it.
  unfoldable pub miner_round :
      Outcomes
      → ℕ
      → Config
      → BlockchainLedger
      → TransactionPool
      → Option TransactionBlock × TransactionPool
  unfolding mine
  miner_round o miner_id config ledger pool =
      let woken : TransactionPool = record pool {
        work_notification_sem = sem_wait pool.work_notification_sem;
      } in
      let previous_hash = latest_hash sha256 o.hash_allocated o.hash_buffer ledger in
      let per_block = config.transactions_per_block in
      let out = select_transactions o.selected_allocated o.indices_allocated woken per_block in
      elim out.result [
        | none ↦ (none, out.pool)
        | some ts ↦
            if not o.ids_copied
            then (none, return_to_pool ts out.pool)
            else elim (create_block o.block_allocated o.now ts per_block previous_hash miner_id
                ledger.num_blocks) [
                  | none ↦ (none, return_to_pool ts out.pool)
                  | some b ↦
                      let (result, mined) = mine o b in
                      if result.error
                      then (none, return_to_pool ts out.pool)
                      else if o.sent
                      then (some mined, out.pool)
                      else (none, return_to_pool ts out.pool)
                ]
      ]
