-- ===== src/Validator/Check.antt =====
-- `validate_block` of validator.c.
use dei_chain.Base.{ℕ, Bool, true, false, not, none, some, List, [], ◌∷◌, ◌==◌, if◌then◌else◌, take}
use dei_chain.Base.Arrays.{strcmp_eq, strlen}
use dei_chain.Data.{
  Transaction, TransactionBlock, TransactionPoolEntry, TransactionPool, BlockchainLedger, sem_wait,
  sem_post,
}
use dei_chain.Pow.Serialize.{transaction_count}
use dei_chain.Pow.Search.{verify_nonce}
use dei_chain.Pool.Entries.{find_id, mark_available}
use dei_chain.Validator.Ledger.{latest_hash, transactions_of}

-- The outcomes of the allocations of a call, and what its two hash buffers held (the hash at the
-- top of the function is only logged); and what a write past the end of the array of the ledger leaves
-- in the place of the transactions of a block.
pub record Memory : Type 0 where
  pub nonce_allocated : Bool
  pub nonce_buffer : List ℕ
  pub last_allocated : Bool
  pub last_buffer : List ℕ
  pub positions_allocated : Bool
  pub past_end : ℕ → List Transaction → List Transaction

-- The loop over the transactions of the block: whether all of them have an ID and stand in the pool,
-- in an entry of either kind, and the positions found until the loop ended.
unfoldable pub locate : List Transaction → List TransactionPoolEntry → Bool × List ℕ
locate [] es = (true, [])
locate (t ∷ ts) es =
    let rest = locate ts es in
    if strlen t.tx_id == 0
    then (false, [])
    else elim (find_id t.tx_id es) [ none ↦ (false, []) | some j ↦ (rest.0, j ∷ rest.1) ]

-- The part of the function under the mutex of the pool.
unfoldable pub check_transactions :
    Bool → TransactionBlock → TransactionPool → Bool × TransactionPool
unfolding locate
check_transactions allocated b pool =
    let locked : TransactionPool = record pool { mutex = sem_wait pool.mutex } in
    let (found, positions) =
      locate (take (transaction_count b) (transactions_of b)) locked.transactions_list in
    let returned = mark_available locked.transactions_list positions in
    if not allocated
    then (false, record locked { mutex = sem_post locked.mutex })
    else if found
    then (true, record locked { mutex = sem_post locked.mutex })
    else (false, record locked { transactions_list = returned; mutex = sem_post locked.mutex })

module _ (sha256 : List ℕ → List ℕ) where
  -- The part of the function under the mutex of the ledger.
  unfoldable pub check_previous : Memory → TransactionBlock → BlockchainLedger → Bool
  check_previous memory b ledger =
      strcmp_eq b.previous_block_hash
        (latest_hash sha256 memory.last_allocated memory.last_buffer ledger)

  -- The verdict, and the pool afterwards. The ledger is only read.
  unfoldable pub validate_block :
      Memory → TransactionBlock → BlockchainLedger → TransactionPool → Bool × TransactionPool
  unfolding check_previous check_transactions
  validate_block memory b ledger pool =
      if not (verify_nonce sha256 memory.nonce_allocated memory.nonce_buffer b)
      then (false, pool)
      else if not (check_previous memory b ledger)
      then (false, pool)
      else check_transactions memory.positions_allocated b pool
