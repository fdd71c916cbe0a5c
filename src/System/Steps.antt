-- ===== src/System/Steps.antt =====
-- The calls of the processes on the shared memory as steps in any order: generators (txgen.c), the
-- threads of the miner (miner.c), and one validator (validator.c). Each call is one step. Blocks come
-- to the validator from anywhere; it knows of a block only what its reader has checked.
use dei_chain.Base.{ℕ, ◌-◌, ◌<◌, ◌≡◌, Bool, true, List}
use dei_chain.Base.Int.{ℤ}
use dei_chain.Data.{Transaction, TransactionBlock, TransactionPool, Config}
use dei_chain.TxGen.Add.{add_transaction_to_pool}
use dei_chain.Miner.Select.{select_transactions}
use dei_chain.Miner.Block.{return_to_pool}
use dei_chain.Validator.Check.{Memory}
use dei_chain.Validator.Process.{Shared, process_block}
use dei_chain.Validator.Age.{age_transaction_pool}
use dei_chain.Wire.Accepts.{IsRead}

abbrev with_pool : Shared → TransactionPool → Shared
with_pool s pool = record s { pool = pool }

module _ (sha256 : List ℕ → List ℕ) (config : Config) where
  pub data Step (s : Shared) : Shared → Type 0 where
    -- A generator adds a transaction.
    generate :
        (tx : Transaction)
        → Step s (with_pool s ((add_transaction_to_pool tx s.pool config.tx_pool_size).1))
    -- A miner is let through the notification semaphore.
    wake :
        0 < s.pool.work_notification_sem
        → Step s (
            with_pool s
              (record (s.pool) { work_notification_sem = s.pool.work_notification_sem - 1 }))
    -- A miner selects transactions; `first` and `second` are the outcomes of its allocations.
    select :
        (first second : Bool)
        → Step s (
            with_pool s
              ((select_transactions first second s.pool config.transactions_per_block).pool))
    -- A miner gives transactions back.
    give_back : (ts : List Transaction) → Step s (with_pool s (return_to_pool ts s.pool))
    -- The validator processes a block that it has read.
    process :
        (memory : Memory) (b : TransactionBlock)
        → IsRead config b
        → Step s ((process_block sha256 memory b config s).1)
    -- The validator ages the pool, `last` being the time of the last ageing.
    grow_old : (now last : ℤ) → Step s (with_pool s ((age_transaction_pool now s.pool last).0))

  pub data Reach (s : Shared) : Shared → Type 0 where
    here : Reach s s
    next : {t u : Shared} → Reach s t → Step t u → Reach s u

  -- The validator finds the memory to hash the latest block.
  abbrev pub HasRoom : {s t : Shared} → Step s t → Type 0
  HasRoom (generate tx) = Unit {0}
  HasRoom (wake ready) = Unit {0}
  HasRoom (select first second) = Unit {0}
  HasRoom (give_back ts) = Unit {0}
  HasRoom (process memory b checked) = memory.last_allocated ≡ true
  HasRoom (grow_old now last) = Unit {0}

  -- It does so in each step of a run.
  abbrev pub AllHaveRoom : {s t : Shared} → Reach s t → Type 0
  AllHaveRoom here = Unit {0}
  AllHaveRoom (next r st) = AllHaveRoom r × HasRoom st
