-- ===== src/Miner/Pipeline.antt =====
-- The way of a block: selected from the pool, built and mined by a miner, checked by a validator.
use dei_chain.Base.{
  ℕ, ◌≤◌, ◌<◌, ◌≡◌, Bool, true, false, some, List, [], ◌∷◌, length, All, arith, sym, subst,
}
use dei_chain.Base.Int.{ℤ}
use dei_chain.Base.Arrays.{strlen, strcmp_eq_refl}
use dei_chain.Data.{
  Transaction, TransactionBlock, TransactionPoolEntry, TransactionPool, BlockchainLedger,
}
use dei_chain.Pow.Hash.{digest_length}
use dei_chain.Pow.Search.{proof_of_work}
use dei_chain.Pool.Counting.{live}
use dei_chain.Pool.Ids.{slots, live-le-slots}
use dei_chain.Miner.Select.{select_transactions}
use dei_chain.Miner.Block.{create_block}
use dei_chain.Miner.ReserveLaws.{carried}
use dei_chain.Miner.SelectLaws.{select_transactions-some}
use dei_chain.Miner.ReturnLaws.{select_transactions-slots}
use dei_chain.Miner.Accepted.{mined_block_accepted}
use dei_chain.Validator.Ledger.{latest_hash}
use dei_chain.Validator.Check.{Memory, validate_block}
use dei_chain.Validator.PoolLaws.{IsListed}

carried-IsListed :
    (ts : List Transaction) (es : List TransactionPoolEntry)
    → ((id : List ℕ) → 0 < carried id ts → (0 < strlen id) × (0 < slots id es))
    → All (IsListed es) ts
carried-IsListed [] es h = tt
carried-IsListed (t ∷ ts) es h = (
  h t.tx_id (ground (arith, strcmp_eq_refl t.tx_id)),
  carried-IsListed ts es (λ id p. h id (omega arith)),
)

-- The transactions that a miner selects are in the pool afterwards, reserved, under their IDs.
pub select_transactions-IsListed :
    (first second : Bool) (pool : TransactionPool) (per_block : ℕ) (ts : List Transaction)
    → pool.mutex ≡ 1
    → ((id : List ℕ) → strlen id ≡ 0 → live id pool.transactions_list ≡ 0)
    → (select_transactions first second pool per_block).result ≡ some ts
    → All (IsListed (select_transactions first second pool per_block).pool.transactions_list) ts
select_transactions-IsListed first second pool per_block ts free named given =
    carried-IsListed ts (select_transactions first second pool per_block).pool.transactions_list
      (λ id p. ground (
        arith,
        named id,
        select_transactions-some first second pool per_block ts id free given,
        select_transactions-slots first second pool per_block ts id given,
        live-le-slots id pool.transactions_list,
      ))

-- A miner selects transactions from a pool, takes the latest hash of the ledger, makes a block of
-- them, and its search for a nonce succeeds. If neither the pool nor the ledger changes meanwhile, a
-- validator that has its memory accepts the block. The mutex of the pool was free and no occupied
-- entry had an empty ID; SHA-256 is assumed to give at least its 32 bytes; the ledger has room for
-- the blocks that it counts.
pub selected_block_accepted :
    (sha256 : List ℕ → List ℕ) (first second : Bool) (allocated : ℕ → Bool) (old stack : List ℕ)
    (now : ℤ) (per_block miner_id block_id : ℕ) (ts : List Transaction) (b : TransactionBlock)
    (memory : Memory) (ledger : BlockchainLedger) (pool : TransactionPool)
    → ((bytes : List ℕ) → digest_length ≤ length (sha256 bytes))
    → ledger.num_blocks ≤ length ledger.blocks
    → pool.mutex ≡ 1
    → ((id : List ℕ) → strlen id ≡ 0 → live id pool.transactions_list ≡ 0)
    → (select_transactions first second pool per_block).result ≡ some ts
    → create_block true now ts per_block (latest_hash sha256 true old ledger) miner_id block_id
      ≡ some b
    → (proof_of_work sha256 allocated stack b).0.error ≡ false
    → memory.nonce_allocated ≡ true
    → memory.last_allocated ≡ true
    → memory.positions_allocated ≡ true
    → (validate_block sha256 memory
        (proof_of_work sha256 allocated stack b).1
        ledger
        (select_transactions first second pool per_block).pool).0
      ≡ true
selected_block_accepted sha256 first second allocated old stack now per_block miner_id block_id ts b
      memory ledger pool digest room free named given made found m₁ m₂ m₃ =
    let facts = select_transactions-some first second pool per_block ts [] free given in
    mined_block_accepted sha256 allocated old stack now ts miner_id block_id b memory ledger
      (select_transactions first second pool per_block).pool digest room
      (subst
        (λ n.
          create_block true now ts n (latest_hash sha256 true old ledger) miner_id block_id
          ≡ some b)
        (sym facts.0) made)
      found m₁ m₂ m₃ (omega (arith, facts))
      (select_transactions-IsListed first second pool per_block ts free named given)
