-- ===== src/Interleaving/Miners.antt =====
-- The way of a thread through `select_transactions` of miner.c and of its block after it, as the points
-- between which other processes run.
use dei_chain.Base.{
  ℕ, ◌≡◌, refl, Bool, true, false, Option, none, some, List, [], length, ltb, ◌==◌, if◌then◌else◌,
  inl, inr, Bool-cases,
}
use dei_chain.Data.{Transaction, TransactionPool}
use dei_chain.Pool.Entries.{count_occupied, mark_available}
use dei_chain.Miner.Select.{Selection, reserve, select_transactions, with_entries, locked, released}
use dei_chain.Miner.Block.{return_to_pool}

pub data MinerPoint : Type 0 where
  outside : MinerPoint  -- before the mutex, to select
  reserved : Selection → MinerPoint  -- behind the mutex, before the test of the count
  mining : List Transaction → MinerPoint  -- with transactions, until they are sent or given back

-- One step of a thread; the first argument says whether it gives its block up.
unfoldable pub miner_step : Bool → ℕ → MinerPoint → TransactionPool → MinerPoint × TransactionPool
unfolding count_occupied reserve mark_available
miner_step gives_up per_block outside pool =
    let pool₁ = locked pool in
    let chosen = reserve per_block [] 0 pool₁.transactions_list in
    if ltb (count_occupied pool₁.transactions_list) per_block
    then (outside, released pool₁)
    else (reserved chosen, released (with_entries pool₁ chosen.entries))
miner_step gives_up per_block (reserved chosen) pool =
    let pool₁ = locked pool in
    if length chosen.indices == per_block then (mining chosen.selected, pool) else (
      outside,
      released (with_entries pool₁ (mark_available pool₁.transactions_list chosen.indices)),
    )
miner_step gives_up per_block (mining ts) pool =
    (outside, if gives_up then return_to_pool ts pool else pool)

-- The second step of a selection, if there is one.
unfoldable pub settled : ℕ → MinerPoint × TransactionPool → MinerPoint × TransactionPool
unfolding miner_step
settled per_block (outside, pool) = (outside, pool)
settled per_block (reserved chosen, pool) = miner_step false per_block (reserved chosen) pool
settled per_block (mining ts, pool) = (mining ts, pool)

abbrev pub point_of : Option (List Transaction) → MinerPoint
point_of none = outside
point_of (some ts) = mining ts

-- With nothing in between, the steps of a thread do what `select_transactions` does at once, when its
-- allocations succeed.
miner_step-select_transactions :
    (gives_up : Bool) (per_block : ℕ) (pool : TransactionPool)
    → let out = select_transactions true true pool per_block in
      settled per_block (miner_step gives_up per_block outside pool)
      ≡ (point_of out.result, out.pool)
unfolding miner_step settled select_transactions
miner_step-select_transactions gives_up per_block pool =
    elim (Bool-cases (ltb (count_occupied pool.transactions_list) per_block)) [
      | inl few ↦ rw few refl
      | inr enough ↦
          elim (Bool-cases
            (length (reserve per_block [] 0 pool.transactions_list).indices == per_block)) [
              | inl all ↦ rw (enough, all) refl
              | inr missing ↦ rw (enough, missing) refl
            ]
    ]
