-- ===== src/Miner/ReturnLaws.antt =====
-- A reservation and its return leave the bag of available transactions as it was.
use dei_chain.Base.{
  ℕ, zero, suc, ◌+◌, ◌≤◌, ◌≡◌, refl, Bool, true, false, some, List, [], ◌∷◌, ◌++◌, arith,
}
use dei_chain.Data.{Transaction, TransactionPoolEntry, TransactionPool}
use dei_chain.Pool.Counting.{live}
use dei_chain.Pool.Ids.{slots, live-le-slots, live-readmit_all}
use dei_chain.Miner.Select.{reserve, select_transactions}
use dei_chain.Miner.Block.{return_to_pool}
use dei_chain.Miner.ReserveLaws.{mentions-eq-carried}
use dei_chain.Miner.SelectLaws.{select_transactions-some}

reserve-slots :
    (id : List ℕ) (room : ℕ) (selected : List Transaction) (i : ℕ) (es : List TransactionPoolEntry)
    → slots id (reserve room selected i es).entries ≡ slots id es
unfolding reserve slots
reserve-slots id room selected i [] = refl
reserve-slots id zero selected i (e ∷ es) = refl
reserve-slots id (suc room) selected i (e ∷ es) = ground (
  arith,
  reserve-slots id room (selected ++ e.transaction ∷ []) (i + 1) es,
  reserve-slots id (suc room) selected (i + 1) es,
)

pub select_transactions-slots :
    (first second : Bool) (pool : TransactionPool) (per_block : ℕ) (ts : List Transaction)
    (id : List ℕ)
    → (select_transactions first second pool per_block).result ≡ some ts
    → slots id (select_transactions first second pool per_block).pool.transactions_list
      ≡ slots id pool.transactions_list
unfolding select_transactions
select_transactions-slots false second pool per_block ts id h = cc
select_transactions-slots true false pool per_block ts id h = cc
select_transactions-slots true true pool per_block ts id h =
    ground (arith, reserve-slots id per_block [] 0 pool.transactions_list)

-- A miner that selects transactions and then gives its block up restores the bag of available IDs,
-- for every ID that stands in one entry of the pool at most, and leaves the mutex free. The
-- hypothesis on the mutex says that it was free before.
pub select_transactions-return :
    (first second : Bool) (pool : TransactionPool) (per_block : ℕ) (ts : List Transaction)
    (id : List ℕ)
    → pool.mutex ≡ 1
    → slots id pool.transactions_list ≤ 1
    → (select_transactions first second pool per_block).result ≡ some ts
    → let pool' = return_to_pool ts (select_transactions first second pool per_block).pool in
      (live id pool'.transactions_list ≡ live id pool.transactions_list) × (pool'.mutex ≡ 1)
unfolding return_to_pool
select_transactions-return first second pool per_block ts id free one given =
    let out = select_transactions first second pool per_block in
    let facts = select_transactions-some first second pool per_block ts id free given in
    ground (
      arith,
      facts,
      live-readmit_all id ts out.pool.transactions_list,
      select_transactions-slots first second pool per_block ts id given,
      live-le-slots id pool.transactions_list,
      mentions-eq-carried id ts,
    )
