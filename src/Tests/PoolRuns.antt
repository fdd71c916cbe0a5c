-- ===== src/Tests/PoolRuns.antt =====
-- The generator's and the miner's work on the pool at concrete inputs.
use dei_chain.Base.{
  ℕ, ◌+◌, ◌≤◌, ◌≡◌, refl, true, false, none, List, [], ◌∷◌, length, arith, ltb, ◌==◌, if◌then◌else◌,
  ◌*◌,
}
use dei_chain.Base.Int.{pos, negsuc}
use dei_chain.Base.Arrays.{strcmp_eq, strcmp_eq_trans, strcmp_eq_sym}
use dei_chain.Data.{TransactionPool}
use dei_chain.Pool.Entries.{count_occupied}
use dei_chain.Pool.Counting.{live}
use dei_chain.Pool.Invariant.{IsPool}
use dei_chain.TxGen.Add.{add_transaction_to_pool}
use dei_chain.TxGen.AddLaws.{add_transaction_to_pool_result}
use dei_chain.TxGen.GenerateLaws.{id_at, generate_transaction_collides}
use dei_chain.Miner.Select.{select_transactions, indices_buffer}
use dei_chain.Miner.ReserveLaws.{carried}
use dei_chain.Miner.SelectLaws.{
  select_transactions-some, times_freed, select_transactions_frees_twice,
}
use dei_chain.Tests.Fixtures.{code, tx, entry, free_entry, pool_of, pool}

apart : strcmp_eq (tx 1).tx_id (tx 2).tx_id ≡ false
unfolding code
apart = refl

pool-distinct : (id : List ℕ) → live id pool.transactions_list ≤ 1
unfolding live
pool-distinct id =
    ground
      (arith, apart, strcmp_eq_trans (tx 1).tx_id id (tx 2).tx_id, strcmp_eq_sym (tx 2).tx_id id)

pub pool-IsPool : IsPool 4 pool
pool-IsPool = record {
  sized = refl;
  percentage = omega arith;
  unlocked = refl;
  distinct = pool-distinct;
}

add_transaction_to_pool_result_example : (add_transaction_to_pool (tx 2) pool 4).0 ≡ (
    if count_occupied pool.transactions_list == length pool.transactions_list
    then negsuc 0
    else if ltb 0 (live (tx 2).tx_id pool.transactions_list)
    then negsuc 1
    else pos 0)
add_transaction_to_pool_result_example = add_transaction_to_pool_result (tx 2) pool 4

select_transactions-some_example :
    let ts = tx 1 ∷ tx 2 ∷ [] in
    let id = (tx 2).tx_id in
    let out = select_transactions true true pool 2 in
    (length ts ≡ 2)
    × (carried id ts ≤ 1)
    × (live id out.pool.transactions_list + carried id ts ≡ live id pool.transactions_list)
    × (count_occupied out.pool.transactions_list + 2 ≡ count_occupied pool.transactions_list)
    × (length out.pool.transactions_list ≡ length pool.transactions_list)
    × (out.pool.mutex ≡ 1)
    × (out.pool.work_notification_sem ≡ pool.work_notification_sem)
    × (out.pool.occupancy ≡ pool.occupancy)
    × (out.freed ≡ indices_buffer ∷ [])
unfolding code
select_transactions-some_example =
    select_transactions-some true true pool 2 (tx 1 ∷ tx 2 ∷ []) (tx 2).tx_id refl refl

-- The same transaction stands in two entries, one of them taken back after the other was added.
abbrev doubled : TransactionPool
doubled = pool_of (entry 1 ∷ free_entry ∷ entry 1 ∷ free_entry ∷ [])

select_transactions_frees_twice_example :
    ((select_transactions true true doubled 2).result ≡ none)
    × (times_freed indices_buffer (select_transactions true true doubled 2).freed ≡ 2)
unfolding code
select_transactions_frees_twice_example =
    select_transactions_frees_twice doubled 2 (tx 1).tx_id refl (omega arith) (omega arith)

-- "TX-4194303-1000" has 15 characters: transactions 1000 and 10007 of process 4194303.
generate_transaction_collides_example :
    strcmp_eq
      (id_at (pos 1) 4194303 1000 0 7 (pos 5) [])
      (id_at (pos 1) 4194303 (1000 * 10 + 7) 1 8 (pos 6) [])
    ≡ true
unfolding code
generate_transaction_collides_example =
    generate_transaction_collides (pos 1) 4194303 1000 7 0 1 7 8 (pos 5) (pos 6) [] [] (omega arith)
      (omega arith) (omega arith)
