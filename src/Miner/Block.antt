-- ===== src/Miner/Block.antt =====
-- `create_block` of miner.c, and the return of a block's transactions to the pool.
use dei_chain.Base.{ℕ, ◌-◌, Bool, Option, none, some, List, ◌++◌, if◌then◌else◌, set, replicate}
use dei_chain.Base.Int.{ℤ, pos}
use dei_chain.Base.Text.{codes, decimal, snprintf}
use dei_chain.Data.{
  Transaction, TransactionBlock, TransactionPool, txb_id_len, hash_size, sem_wait, sem_post,
}
use dei_chain.Pool.Entries.{readmit_all}

-- "BLOCK-%d-%d"
unfoldable pub block_name : ℕ → ℕ → List ℕ
block_name miner_id block_id =
    codes "BLOCK-" ++ (decimal miner_id ++ (codes "-" ++ decimal block_id))

-- `allocated` is the outcome of the `calloc`, `now` that of `time(NULL)`.
unfoldable pub create_block :
    Bool → ℤ → List Transaction → ℕ → List ℕ → ℕ → ℕ → Option TransactionBlock
create_block allocated now transactions per_block previous_hash miner_id block_id =
    if allocated
    then some (record {
      txb_id =
          set (snprintf txb_id_len (block_name miner_id block_id) (replicate txb_id_len 0))
            (txb_id_len - 1) 0;
      previous_block_hash = set previous_hash (hash_size - 1) 0;
      timestamp = now;
      transactions = some transactions;
      nonce = 0;
      transactions_per_block = pos per_block;
    })
    else none

-- The loops of `miner_thread_function` that give the transactions of an abandoned block back, under
-- the mutex. They do not compute the occupancy.
unfoldable pub return_to_pool : List Transaction → TransactionPool → TransactionPool
unfolding readmit_all
return_to_pool ts pool =
    let locked : TransactionPool = record pool { mutex = sem_wait pool.mutex } in
    record locked {
      transactions_list = readmit_all ts locked.transactions_list;
      mutex = sem_post locked.mutex;
    }
