-- ===== src/Miner/Thread.antt =====
-- A round of the loop of `miner_thread_function` of miner.c with the flag to terminate, the bytes that
-- go into the pipe, and the memory that it allocates and frees.
use dei_chain.Base.{
  ℕ, zero, suc, Bool, true, false, not, ◌&&◌, Option, none, some, List, [], ◌∷◌, ◌++◌, ltb,
  if◌then◌else◌,
}
use dei_chain.Base.Int.{pos, eqb_ℤ}
use dei_chain.Data.{
  Transaction, TransactionBlock, TransactionPool, BlockchainLedger, Config, sem_wait,
}
use dei_chain.Pow.Search.{proof_of_work}
use dei_chain.Miner.Select.{Buffer, selected_buffer, indices_buffer, select_transactions}
use dei_chain.Miner.Block.{create_block, return_to_pool}
use dei_chain.Miner.Round.{Outcomes, mine}
use dei_chain.Validator.Ledger.{latest_hash}
use dei_chain.Wire.Send.{Write, send_block_to_validator}

-- What a round gets from outside: the outcomes of its calls (`ids_copied` and `sent` of them are not
-- read here), whether `sem_wait` returns 0, the flag at the places that read it, counted in the order of
-- the text, how many calls of `strdup` succeed, and what happens at the pipe.
pub record Environment : Type 0 where
  pub outcomes : Outcomes
  pub notified : Bool
  pub flag : ℕ → Bool
  pub copies : ℕ
  pub opened : Bool
  pub writes : ℕ → Write

-- What a round allocates: the array of transactions, which `select_transactions` returns and the block
-- points to, the array of indices in that function, the copies of the IDs, and the block.
pub data Allocation : Type 0 where
  transaction_array index_array block_struct : Allocation
  id_copy : ℕ → Allocation

-- The first `n` copies.
abbrev pub id_copies : ℕ → List Allocation
id_copies zero = []
id_copies (suc n) = id_copy n ∷ id_copies n

-- What `select_transactions` allocates, by the outcomes of its two calls of `malloc`.
abbrev pub selection_allocated : Bool → Bool → List Allocation
selection_allocated false second = []
selection_allocated true false = transaction_array ∷ []
selection_allocated true true = transaction_array ∷ index_array ∷ []

abbrev pub buffer_freed : Buffer → Allocation
buffer_freed selected_buffer = transaction_array
buffer_freed indices_buffer = index_array

abbrev pub buffers_freed : List Buffer → List Allocation
buffers_freed [] = []
buffers_freed (b ∷ bs) = buffer_freed b ∷ buffers_freed bs

-- The end of a round: the block if it was sent, the bytes in the pipe, the pool, whether the thread
-- leaves its loop, and what was allocated and freed.
pub record Round : Type 0 where
  pub block_sent : Option TransactionBlock
  pub written : List ℕ
  pub pool : TransactionPool
  pub leaves : Bool
  pub allocated : List Allocation
  pub freed : List Allocation

-- A round that sends nothing.
abbrev pub unsent : Bool → TransactionPool → List Allocation → List Allocation → Round
unsent leaves pool allocated freed = record {
  block_sent = none;
  written = [];
  pool = pool;
  leaves = leaves;
  allocated = allocated;
  freed = freed;
}

module _ (sha256 : List ℕ → List ℕ) (env : Environment) (miner_id : ℕ) (config : Config) where
  -- From the search for a nonce on.
  unfoldable pub block_round : List Transaction → TransactionBlock → TransactionPool → Round
  unfolding mine
  block_round ts b pool =
      let first = proof_of_work sha256 env.outcomes.pow_allocated env.outcomes.pow_buffer b in
      let (result, mined) = mine sha256 env.outcomes b in
      let ids = id_copies config.transactions_per_block in
      let allocated = transaction_array ∷ ids ++ block_struct ∷ [] in
      let freed = ids ++ transaction_array ∷ block_struct ∷ [] in
      let (code, written) = send_block_to_validator env.opened env.writes miner_id mined in
      if env.flag 4
      then unsent true pool allocated freed
      else if env.flag 5
      then unsent true pool allocated freed
      else if first.0.error && env.flag 6
      then unsent true pool allocated freed
      else if result.error
      then unsent false (return_to_pool ts pool) allocated freed
      else if env.flag 7
      then unsent true pool allocated freed
      else record {
        block_sent = if eqb_ℤ code (pos 0) then some mined else none;
        written = written;
        pool = if eqb_ℤ code (pos 0) then pool else return_to_pool ts pool;
        leaves = false;
        allocated = allocated;
        freed = freed;
      }

  -- From the selected transactions on.
  unfoldable pub selected_round : List ℕ → ℕ → List Transaction → TransactionPool → Round
  unfolding block_round
  selected_round previous_hash block_id ts pool =
      let per_block = config.transactions_per_block in
      if env.flag 3
      then unsent true pool (transaction_array ∷ []) (transaction_array ∷ [])
      else if ltb env.copies per_block
      then unsent false (return_to_pool ts pool) (transaction_array ∷ id_copies env.copies)
          (id_copies env.copies ++ transaction_array ∷ [])
      else elim (create_block env.outcomes.block_allocated env.outcomes.now ts per_block
          previous_hash miner_id block_id) [
            | none ↦
                unsent false (return_to_pool ts pool) (transaction_array ∷ id_copies per_block)
                  (id_copies per_block ++ transaction_array ∷ [])
            | some b ↦ block_round ts b pool
          ]

  -- From `select_transactions` on, with the hash of the latest block and the count of blocks.
  unfoldable pub selecting_round : List ℕ → ℕ → TransactionPool → Round
  unfolding selected_round
  selecting_round previous_hash block_id pool =
      let o = env.outcomes in
      let out =
        select_transactions o.selected_allocated o.indices_allocated pool
          config.transactions_per_block in
      elim out.result [
        | none ↦
            unsent (env.flag 3) out.pool
              (selection_allocated o.selected_allocated o.indices_allocated)
              (buffers_freed out.freed)
        | some ts ↦
            let r = selected_round previous_hash block_id ts out.pool in
            record r {
              allocated = index_array ∷ r.allocated;
              freed = buffers_freed out.freed ++ r.freed;
            }
      ]

  unfoldable pub thread_round : BlockchainLedger → TransactionPool → Round
  unfolding selecting_round
  thread_round ledger pool =
      let o = env.outcomes in
      let woken : TransactionPool = record pool {
        work_notification_sem = sem_wait pool.work_notification_sem;
      } in
      if env.flag 0
      then unsent true pool [] []
      else if not env.notified
      then unsent true pool [] []
      else if env.flag 1
      then unsent true woken [] []
      else if env.flag 2
      then unsent true woken [] []
      else selecting_round (latest_hash sha256 o.hash_allocated o.hash_buffer ledger)
          ledger.num_blocks woken
