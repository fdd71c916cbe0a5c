-- ===== src/Pool/Invariant.antt =====
-- The state of the pool between two critical sections.
use dei_chain.Base.{ℕ, ◌≤◌, ◌≡◌, List, length}
use dei_chain.Data.{TransactionPool}
use dei_chain.Pool.Counting.{live}

-- The pool has `tx_pool_size` entries, the occupancy is a percentage, the mutex is free, and no two
-- occupied entries carry the same ID.
pub record IsPool (size : ℕ) (pool : TransactionPool) : Type 0 where
  pub sized : length pool.transactions_list ≡ size
  pub percentage : pool.occupancy ≤ 100
  pub unlocked : pool.mutex ≡ 1
  pub distinct : (id : List ℕ) → live id pool.transactions_list ≤ 1
