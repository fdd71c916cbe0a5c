-- ===== src/TxGen/Add.antt =====
-- `add_transaction_to_pool` of txgen.c.
use dei_chain.Base.{
  ℕ, ◌+◌, Bool, false, not, ◌&&◌, ◌||◌, none, some, List, [], ◌∷◌, ◌==◌, if◌then◌else◌, set,
}
use dei_chain.Base.Int.{ℤ, pos, negsuc}
use dei_chain.Base.Arrays.{strcmp_eq}
use dei_chain.Data.{Transaction, TransactionPoolEntry, TransactionPool, sem_wait, sem_post}
use dei_chain.Pool.Entries.{id_of, occupancy_of, first_empty}

-- The loop that looks for the ID among the occupied entries other than `position`; `i` is the index
-- of the first entry of the list.
unfoldable pub duplicated : ℕ → ℕ → List ℕ → List TransactionPoolEntry → Bool
duplicated position i id [] = false
duplicated position i id (e ∷ es) =
    (not (i == position) && not e.empty && strcmp_eq (id_of e) id)
    || duplicated position (i + 1) id es

abbrev pub fresh_entry : Transaction → TransactionPoolEntry
fresh_entry tx = record { transaction = tx; empty = false; age = 0 }

-- The result 0, -1 (the pool is full) or -2 (the ID is a duplicate), and the pool afterwards.
unfoldable pub add_transaction_to_pool : Transaction → TransactionPool → ℕ → ℤ × TransactionPool
unfolding first_empty duplicated occupancy_of
add_transaction_to_pool tx pool pool_size =
    let locked : TransactionPool = record pool { mutex = sem_wait pool.mutex } in
    elim (first_empty locked.transactions_list) [
      | none ↦ (negsuc 0, record locked { mutex = sem_post locked.mutex })
      | some position ↦
          if duplicated position 0 tx.tx_id locked.transactions_list
          then (negsuc 1, record locked { mutex = sem_post locked.mutex })
          else (let entries = set locked.transactions_list position (fresh_entry tx) in
              (
                pos 0,
                record locked {
                  transactions_list = entries;
                  occupancy = occupancy_of entries pool_size;
                  mutex = sem_post locked.mutex;
                  work_notification_sem = sem_post locked.work_notification_sem;
                },
              ))
    ]
