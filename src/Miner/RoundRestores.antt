-- ===== src/Miner/RoundRestores.antt =====
-- A round of the miner that sends no block leaves no trace in the pool.
use dei_chain.Base.{ℕ, ◌≤◌, ◌<◌, ◌≡◌, none, List, arith, inl, inr, Option-cases}
use dei_chain.Data.{TransactionPool, BlockchainLedger, Config, sem_wait}
use dei_chain.Pool.Counting.{live}
use dei_chain.Pool.Ids.{slots}
use dei_chain.Miner.Select.{select_transactions}
use dei_chain.Miner.SelectLaws.{select_transactions_null}
use dei_chain.Miner.RestoreLaws.{select_transactions-return_to_pool}
use dei_chain.Miner.Round.{Outcomes, miner_round}

module _ (sha256 : List ℕ → List ℕ) where
  -- A round that sends no block, whatever made it give up (too few transactions, an allocation, the
  -- copies of the IDs, the search for a nonce, the pipe), leaves the pool exactly as it was, each entry in
  -- its place, but for the semaphore that it waited for. The hypotheses are that the ID of an
  -- occupied entry stands in no other entry, occupied or not, and that the mutex was free.
  pub miner_round_restores :
      (o : Outcomes) (miner_id : ℕ) (config : Config) (ledger : BlockchainLedger)
      (pool : TransactionPool)
      → pool.mutex ≡ 1
      → ((id : List ℕ) → 0 < live id pool.transactions_list → slots id pool.transactions_list ≤ 1)
      → (miner_round sha256 o miner_id config ledger pool).0 ≡ none
      → (miner_round sha256 o miner_id config ledger pool).1
        ≡ record pool { work_notification_sem = sem_wait pool.work_notification_sem }
  unfolding miner_round
  miner_round_restores o miner_id config ledger pool free apart nothing =
      let woken : TransactionPool = record pool {
        work_notification_sem = sem_wait pool.work_notification_sem;
      } in
      let per_block = config.transactions_per_block in
      let first = o.selected_allocated in
      let second = o.indices_allocated in
      elim (Option-cases (select_transactions first second woken per_block).result) [
        | inl null ↦
            ground (arith, null, select_transactions_null first second woken per_block free null)
        | inr (ts, given) ↦ ground (
          arith,
          given,
          select_transactions-return_to_pool first second woken per_block ts free apart given,
        )
      ]
