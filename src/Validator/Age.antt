-- ===== src/Validator/Age.antt =====
-- `age_transaction_pool` of validator.c, and what it amounts to over many seconds.
use dei_chain.Base.{◌+◌, ◌%◌, if◌then◌else◌, ◌==◌, map}
use dei_chain.Base.Int.{ℤ, pos, leb_ℤ, ◌+ℤ◌}
use dei_chain.Data.{TransactionPoolEntry, TransactionPool, sem_wait, sem_post}

-- The body of the loop.
unfoldable pub age_entry : TransactionPoolEntry → TransactionPoolEntry
age_entry e =
    if e.empty
    then e
    else (let older : TransactionPoolEntry = record e { age = e.age + 1 } in
        if older.age % 50 == 0
        then record older {
          transaction = record older.transaction { reward = older.transaction.reward +ℤ pos 1 };
        }
        else older)

-- One call at time `now`, with `last_age_update` before and after.
unfoldable pub age_transaction_pool : ℤ → TransactionPool → ℤ → TransactionPool × ℤ
unfolding age_entry
age_transaction_pool now pool last_age_update =
    if leb_ℤ now last_age_update
    then (pool, last_age_update)
    else (let locked : TransactionPool = record pool { mutex = sem_wait pool.mutex } in
        (
          record locked {
            transactions_list = map age_entry locked.transactions_list;
            mutex = sem_post locked.mutex;
          },
          now,
        ))
