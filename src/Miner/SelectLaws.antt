-- ===== src/Miner/SelectLaws.antt =====
-- What `select_transactions` hands out, and in which state it leaves the pool.
use dei_chain.Base.{
  ℕ, suc, ◌+◌, ◌≤◌, ◌<◌, ◌≡◌, refl, ◌↔◌, Option-cases, Bool, true, false, none, some, List, [], ◌∷◌,
  length, arith, inl, inr, Bool-cases, ltb,
}
use dei_chain.Data.{Transaction, TransactionPool}
use dei_chain.Pool.Entries.{count_occupied}
use dei_chain.Pool.Counting.{live, live-le-count}
use dei_chain.Pool.Invariant.{IsPool}
use dei_chain.Miner.Select.{Buffer, selected_buffer, indices_buffer, reserve, select_transactions}
use dei_chain.Miner.ReserveLaws.{
  carried, reserve-live, reserve-count, reserve-carried, reserve-fills, mark_available-reserve,
}

-- A call that returns NULL, for want of memory, of transactions or of distinct transactions, leaves
-- the pool exactly as it was. The hypothesis on the mutex says that it was free before.
pub select_transactions_null :
    (first second : Bool) (pool : TransactionPool) (per_block : ℕ)
    → pool.mutex ≡ 1
    → (select_transactions first second pool per_block).result ≡ none
    → (select_transactions first second pool per_block).pool ≡ pool
unfolding select_transactions
select_transactions_null false second pool per_block free h = refl
select_transactions_null true false pool per_block free h = refl
select_transactions_null true true pool per_block free h =
    ground (arith, mark_available-reserve [] per_block [] 0 pool.transactions_list refl)

-- A call that returns transactions returns `per_block` of them, no two with the same ID. They have
-- left the bag of occupied entries, and nothing else has; the mutex is free, the notification
-- semaphore and the occupancy are as they were, and only the array of indices has been freed.
pub select_transactions-some :
    (first second : Bool) (pool : TransactionPool) (per_block : ℕ) (ts : List Transaction)
    (id : List ℕ)
    → pool.mutex ≡ 1
    → (select_transactions first second pool per_block).result ≡ some ts
    → let out = select_transactions first second pool per_block in
      (length ts ≡ per_block)
      × (carried id ts ≤ 1)
      × (live id out.pool.transactions_list + carried id ts ≡ live id pool.transactions_list)
      × (count_occupied out.pool.transactions_list + per_block
          ≡ count_occupied pool.transactions_list)
      × (length out.pool.transactions_list ≡ length pool.transactions_list)
      × (out.pool.mutex ≡ 1)
      × (out.pool.work_notification_sem ≡ pool.work_notification_sem)
      × (out.pool.occupancy ≡ pool.occupancy)
      × (out.freed ≡ indices_buffer ∷ [])
unfolding select_transactions
select_transactions-some false second pool per_block ts id free h = cc
select_transactions-some true false pool per_block ts id free h = cc
select_transactions-some true true pool per_block ts id free h = ground (
  arith,
  reserve-count per_block [] 0 pool.transactions_list,
  reserve-live id per_block [] 0 pool.transactions_list,
  reserve-carried id per_block [] 0 pool.transactions_list (λ id'. omega arith),
)

-- In a well-formed pool, with memory at hand, the call finds a block's worth of transactions exactly
-- if at least that many entries are occupied.
select_transactions_finds :
    (pool : TransactionPool) (size per_block : ℕ)
    → IsPool size pool
    → ((select_transactions true true pool per_block).result ≡ none)
      ↔ (count_occupied pool.transactions_list < per_block)
unfolding select_transactions
select_transactions_finds pool size per_block h =
    elim (Bool-cases (ltb (count_occupied pool.transactions_list) per_block)) [
      | inl few ↦ ground arith
      | inr enough ↦ ground (
        arith,
        reserve-fills per_block [] 0 pool.transactions_list (λ id. omega (arith, h.distinct id))
            (ground arith),
      )
    ]

-- A selection from a well-formed pool leaves the pool well formed, whatever the call returns.
select_transactions-IsPool :
    (first second : Bool) (pool : TransactionPool) (size per_block : ℕ)
    → IsPool size pool
    → IsPool size (select_transactions first second pool per_block).pool
select_transactions-IsPool first second pool size per_block h =
    elim (Option-cases (select_transactions first second pool per_block).result) [
      | inl null ↦ rw (select_transactions_null first second pool per_block h.unlocked null) h
      | inr (ts, given) ↦
          let facts = λ (id : List ℕ).
            select_transactions-some first second pool per_block ts id h.unlocked given in
          record {
            sized = omega (arith, facts [], h.sized);
            percentage = omega (arith, facts [], h.percentage);
            unlocked = omega (arith, facts []);
            distinct = λ id. omega (arith, facts id, h.distinct id);
          }
    ]

-- How often a buffer was freed.
abbrev pub times_freed : Buffer → List Buffer → ℕ
times_freed b [] = 0
times_freed selected_buffer (selected_buffer ∷ fs) = suc (times_freed selected_buffer fs)
times_freed indices_buffer (indices_buffer ∷ fs) = suc (times_freed indices_buffer fs)
times_freed b (f ∷ fs) = times_freed b fs

-- A call on a well-formed pool frees neither of its two buffers more than once.
pub select_transactions_frees_once :
    (b : Buffer) (first second : Bool) (pool : TransactionPool) (size per_block : ℕ)
    → IsPool size pool
    → times_freed b (select_transactions first second pool per_block).freed ≤ 1
unfolding select_transactions
select_transactions_frees_once selected_buffer false second pool size per_block h = omega arith
select_transactions_frees_once indices_buffer false second pool size per_block h = omega arith
select_transactions_frees_once selected_buffer true false pool size per_block h = omega arith
select_transactions_frees_once indices_buffer true false pool size per_block h = omega arith
select_transactions_frees_once selected_buffer true true pool size per_block h = ground arith
select_transactions_frees_once indices_buffer true true pool size per_block h =
    elim (Bool-cases (ltb (count_occupied pool.transactions_list) per_block)) [
      | inl few ↦ ground arith
      | inr enough ↦ ground (
        arith,
        reserve-fills per_block [] 0 pool.transactions_list (λ id. omega (arith, h.distinct id))
            (ground arith),
      )
    ]

-- Where every occupied entry carries one ID and a block takes two transactions or more, a pool that
-- is full enough makes the call give up and free the array of indices twice.
pub select_transactions_frees_twice :
    (pool : TransactionPool) (per_block : ℕ) (id : List ℕ)
    → live id pool.transactions_list ≡ count_occupied pool.transactions_list
    → 2 ≤ per_block
    → per_block ≤ count_occupied pool.transactions_list
    → ((select_transactions true true pool per_block).result ≡ none)
      × (times_freed indices_buffer (select_transactions true true pool per_block).freed ≡ 2)
unfolding select_transactions
select_transactions_frees_twice pool per_block id same two enough =
    let s = reserve per_block [] 0 pool.transactions_list in
    let one : length s.indices ≤ 1 = omega (
      arith,
      reserve-count per_block [] 0 pool.transactions_list,
      reserve-live id per_block [] 0 pool.transactions_list,
      reserve-carried id per_block [] 0 pool.transactions_list (λ id'. omega arith),
      live-le-count id s.entries,
    ) in
    ground arith
