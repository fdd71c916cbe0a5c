-- ===== src/Interleaving/Steps.antt =====
-- The way of a block through `validate_block`, `add_block_to_ledger` and `validator_main` of
-- validator.c, as the points between which other processes run, and the system of several validators.
use dei_chain.Base.{ℕ, zero, suc, ◌≡◌, some, List, set, get_elem?, leb, if◌then◌else◌}
use dei_chain.Data.{TransactionBlock, TransactionPool, Config}
use dei_chain.Pow.Search.{verify_nonce}
use dei_chain.Validator.Ledger.{append_block}
use dei_chain.Validator.Check.{Memory, check_previous, check_transactions}
use dei_chain.Validator.Remove.{remove_transactions_from_pool, return_transactions_to_pool}
use dei_chain.Validator.Process.{Shared}
use dei_chain.Wire.Accepts.{IsRead}

-- Where a validator stands with its block.
pub data Point : Type 0 where
  idle : Point  -- it has none
  got : TransactionBlock → Point  -- before the nonce is checked
  proven : TransactionBlock → Point  -- before the mutex of the ledger, for the previous hash
  linked : TransactionBlock → Point  -- before the mutex of the pool, for the transactions
  accepted : TransactionBlock → Point  -- before the test whether the ledger is full
  admitted : TransactionBlock → Point  -- before the mutex of the ledger, to add the block
  stored : TransactionBlock → Point  -- before the transactions are removed
  refused : TransactionBlock → Point  -- before the transactions are given back

module _ (sha256 : List ℕ → List ℕ) (config : Config) where
  -- One step of a validator, from a point to the next. The outcomes of its allocations are `memory`.
  unfoldable pub advance : Memory → Point → Shared → Point × Shared
  advance memory idle s = (idle, s)
  advance memory (got b) s =
      if verify_nonce sha256 memory.nonce_allocated memory.nonce_buffer b
      then (proven b, s)
      else (idle, s)
  advance memory (proven b) s =
      if check_previous sha256 memory b s.ledger then (linked b, s) else (idle, s)
  advance memory (linked b) s =
      let (valid, pool) = check_transactions memory.positions_allocated b s.pool in
      if valid then (accepted b, record s { pool = pool }) else (idle, record s { pool = pool })
  advance memory (accepted b) s =
      if leb config.blockchain_blocks s.ledger.num_blocks then (refused b, s) else (admitted b, s)
  advance memory (admitted b) s =
      (stored b, record s { ledger = append_block memory.past_end b s.ledger config })
  advance memory (stored b) s =
      (idle, record s { pool = remove_transactions_from_pool b s.pool config })
  advance memory (refused b) s =
      (idle, record s { pool = return_transactions_to_pool b s.pool config })

  -- The memory, and where each validator stands.
  pub record System : Type 0 where
    pub shared : Shared
    pub points : List Point

  -- Validator `i` goes from the point `p` one step on.
  unfoldable pub moved : ℕ → Point → Memory → System → System
  unfolding advance
  moved i p memory s =
      let (p', shared) = advance memory p s.shared in
      record { shared = shared; points = set s.points i p' }

  pub data Step (s : System) : System → Type 0 where
    -- A validator that has none gets a block that its reader lets through.
    read :
        (i : ℕ) (b : TransactionBlock)
        → get_elem? s.points i ≡ some idle
        → IsRead config b
        → Step s (record s { points = set s.points i (got b) })
    -- A validator that has one goes one step on.
    validator :
        (i : ℕ) (p : Point) (memory : Memory)
        → get_elem? s.points i ≡ some p
        → Step s (moved i p memory s)
    -- Generators, miners and the ageing of the pool: they write to the pool only, here anything.
    others :
        (pool : TransactionPool) → Step s (record s { shared = record (s.shared) { pool = pool } })

  pub data Reach (s : System) : System → Type 0 where
    here : Reach s s
    next : {t u : System} → Reach s t → Step t u → Reach s u

  -- `n` steps of one validator with nothing in between.
  unfoldable pub advances : ℕ → Memory → Point → Shared → Point × Shared
  unfolding advance
  advances zero memory p s = (p, s)
  advances (suc n) memory p s = let (p', s') = advance memory p s in advances n memory p' s'
