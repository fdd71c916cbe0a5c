-- ===== src/Validator/PoolLaws.antt =====
-- What the validator does to the pool: its verdict on a block's transactions, and their removal or
-- return.
use dei_chain.Base.{
  ℕ, ◌≤◌, ◌<◌, ◌≡◌, refl, ◌↔◌, Bool, true, false, List, [], ◌∷◌, if◌then◌else◌, length, take, arith,
  inl, inr, Option-cases, All,
}
use dei_chain.Base.Arrays.{strcmp_eq, strlen}
use dei_chain.Data.{Transaction, TransactionBlock, TransactionPoolEntry, TransactionPool, Config}
use dei_chain.Pow.Serialize.{transaction_count}
use dei_chain.Pool.Entries.{mentions, find_id, update_all, vacate, readmit, occupancy_of}
use dei_chain.Pool.Counting.{live}
use dei_chain.Pool.Ids.{
  slots, find_id-eq-none, slots-update_all, length-update_all, live-update_all,
}
use dei_chain.Validator.Ledger.{transactions_of, latest_hash}
use dei_chain.Validator.Check.{Memory, locate, check_transactions, validate_block}
use dei_chain.Validator.Remove.{remove_transactions_from_pool, return_transactions_to_pool}
use dei_chain.Validator.Process.{Shared, process_block}

-- A transaction has an ID, and some entry, occupied or not, carries it.
abbrev pub IsListed : List TransactionPoolEntry → Transaction → Type 0
IsListed es t = (0 < strlen t.tx_id) × (0 < slots t.tx_id es)

-- The transactions of a block that the loops visit.
abbrev pub block_transactions : TransactionBlock → List Transaction
block_transactions b = take (transaction_count b) (transactions_of b)

locate_iff :
    (ts : List Transaction) (es : List TransactionPoolEntry)
    → ((locate ts es).0 ≡ true) ↔ All (IsListed es) ts
unfolding locate
locate_iff [] es = ground arith
locate_iff (t ∷ ts) es = elim (Option-cases (find_id t.tx_id es)) [
  | inl absent ↦ ground (arith, find_id-eq-none t.tx_id es)
  | inr (j, found) ↦ ground (arith, find_id-eq-none t.tx_id es, locate_iff ts es)
]

locate-verdict :
    (b : TransactionBlock) (pool : TransactionPool)
    → (check_transactions true b pool).0 ≡ (locate (block_transactions b) pool.transactions_list).0
unfolding check_transactions
locate-verdict b pool = ground arith

-- With memory at hand, the transactions of a block are accepted exactly if each has an ID that some
-- entry of the pool carries. The mutex of the pool, if it was free, is free afterwards, whatever
-- the verdict.
pub check_transactions_iff :
    (b : TransactionBlock) (pool : TransactionPool)
    → pool.mutex ≡ 1
    → (((check_transactions true b pool).0 ≡ true)
        ↔ All (IsListed pool.transactions_list) (block_transactions b))
      × ((check_transactions true b pool).1.mutex ≡ 1)
check_transactions_iff b pool free = (
  rw (locate-verdict b pool) (locate_iff (block_transactions b) pool.transactions_list),
  unlocked b pool free,
)
  where
    unlocked :
        (b : TransactionBlock) (pool : TransactionPool)
        → pool.mutex ≡ 1
        → (check_transactions true b pool).1.mutex ≡ 1
    unlocked b pool free = unfold check_transactions in ground arith

locate-slots :
    (ts : List Transaction) (es fs : List TransactionPoolEntry)
    → ((id : List ℕ) → slots id fs ≡ slots id es)
    → (locate ts fs).0 ≡ (locate ts es).0
unfolding locate
locate-slots [] es fs same = refl
locate-slots (t ∷ ts) es fs same = ground (
  arith,
  same t.tx_id,
  find_id-eq-none t.tx_id es,
  find_id-eq-none t.tx_id fs,
  locate-slots ts es fs same,
)

-- Committed transactions stay acceptable: after the transactions of any block `b` were removed from
-- the pool, the transactions of any block `c`, those of `b` among them, get the verdict that they
-- got before.
pub check_transactions-remove :
    (allocated : Bool) (b c : TransactionBlock) (pool : TransactionPool) (config : Config)
    → (check_transactions allocated c (remove_transactions_from_pool b pool config)).0
      ≡ (check_transactions allocated c pool).0
unfolding check_transactions remove_transactions_from_pool
check_transactions-remove false b c pool config = refl
check_transactions-remove true b c pool config = ground (
  arith,
  locate-slots (block_transactions c) pool.transactions_list
      (update_all vacate (take config.transactions_per_block (transactions_of b))
        pool.transactions_list)
      (λ id.
        slots-update_all vacate (λ e. refl) id
          (take config.transactions_per_block (transactions_of b)) pool.transactions_list),
)

-- After the removal an ID of the block is carried by no occupied entry, and any other ID by as many
-- as before, if the ID stands in one entry of the pool at most. The occupancy fits the new entries,
-- their number is the same, and the mutex, if it was free, is free. The IDs of the block are those of
-- its first `transactions_per_block` transactions, by the configuration.
pub remove_transactions_from_pool_lem :
    (b : TransactionBlock) (pool : TransactionPool) (config : Config) (id : List ℕ)
    → pool.mutex ≡ 1
    → slots id pool.transactions_list ≤ 1
    → let pool' = remove_transactions_from_pool b pool config in
      (live id pool'.transactions_list ≡ (
        if mentions id (take config.transactions_per_block (transactions_of b))
        then 0
        else live id pool.transactions_list))
      × (length pool'.transactions_list ≡ length pool.transactions_list)
      × (pool'.occupancy ≡ occupancy_of pool'.transactions_list config.tx_pool_size)
      × (pool'.mutex ≡ 1)
unfolding remove_transactions_from_pool
remove_transactions_from_pool_lem b pool config id free one = (
  live-update_all vacate true id _ pool.transactions_list (λ e. (refl, refl)) one,
  length-update_all vacate (λ e. refl) (take config.transactions_per_block (transactions_of b))
      pool.transactions_list,
  refl,
  ground arith,
)

-- The return of the transactions of a block after a full ledger makes every entry that carries an ID
-- of the block available again, and leaves any other ID as it was, if the ID stands in one entry of
-- the pool at most. The occupancy fits the new entries, their number is the same, and the mutex, if
-- it was free, is free.
return_transactions_to_pool_lem :
    (b : TransactionBlock) (pool : TransactionPool) (config : Config) (id : List ℕ)
    → pool.mutex ≡ 1
    → slots id pool.transactions_list ≤ 1
    → let pool' = return_transactions_to_pool b pool config in
      (live id pool'.transactions_list ≡ (
        if mentions id (block_transactions b)
        then slots id pool.transactions_list
        else live id pool.transactions_list))
      × (length pool'.transactions_list ≡ length pool.transactions_list)
      × (pool'.occupancy ≡ occupancy_of pool'.transactions_list config.tx_pool_size)
      × (pool'.mutex ≡ 1)
unfolding return_transactions_to_pool
return_transactions_to_pool_lem b pool config id free one = (
  live-update_all readmit false id _ pool.transactions_list (λ e. (refl, refl)) one,
  length-update_all readmit (λ e. refl) (block_transactions b) pool.transactions_list,
  refl,
  ground arith,
)

-- A block that does not name the latest hash is rejected, and both the pool and the ledger stay as
-- they were: the entries that the miner reserved for it stay reserved.
process_block_stale :
    (sha256 : List ℕ → List ℕ) (memory : Memory) (b : TransactionBlock) (config : Config)
    (s : Shared)
    → strcmp_eq b.previous_block_hash
        (latest_hash sha256 memory.last_allocated memory.last_buffer s.ledger)
      ≡ false
    → process_block sha256 memory b config s ≡ (false, s)
unfolding process_block validate_block
process_block_stale sha256 memory b config s stale = ground arith
