-- ===== src/Validator/Remove.antt =====
-- `remove_transactions_from_pool` of validator.c, and the return of a block's transactions when the
-- ledger is full.
use dei_chain.Base.{List, take}
use dei_chain.Data.{
  TransactionBlock, TransactionPoolEntry, TransactionPool, Config, sem_wait, sem_post,
}
use dei_chain.Pow.Serialize.{transaction_count}
use dei_chain.Pool.Entries.{occupancy_of, update_all, vacate, readmit}
use dei_chain.Validator.Ledger.{transactions_of}

-- The new entries and the occupancy that follows from them, under the mutex.
unfoldable pub rewrite_pool : List TransactionPoolEntry → TransactionPool → Config → TransactionPool
rewrite_pool es pool config =
    let locked : TransactionPool = record pool { mutex = sem_wait pool.mutex } in
    record locked {
      transactions_list = es;
      occupancy = occupancy_of es config.tx_pool_size;
      mutex = sem_post locked.mutex;
    }

unfoldable pub remove_transactions_from_pool :
    TransactionBlock → TransactionPool → Config → TransactionPool
unfolding update_all rewrite_pool
remove_transactions_from_pool b pool config =
    rewrite_pool
      (update_all vacate (take config.transactions_per_block (transactions_of b))
        pool.transactions_list)
      pool config

-- The loop in `validator_main` after a failure to add the block.
unfoldable pub return_transactions_to_pool :
    TransactionBlock → TransactionPool → Config → TransactionPool
unfolding update_all rewrite_pool
return_transactions_to_pool b pool config =
    rewrite_pool
      (update_all readmit (take (transaction_count b) (transactions_of b)) pool.transactions_list)
      pool config
