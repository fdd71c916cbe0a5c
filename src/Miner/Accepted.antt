-- ===== src/Miner/Accepted.antt =====
-- A block that a miner has built on the latest hash and mined is accepted by a validator, as long as
-- the ledger and the pool still hold what the miner saw.
use mathlib.Core.Option.{some-injective}
use dei_chain.Base.{
  ℕ, zero, suc, ◌-◌, ◌^◌, ◌≤◌, ◌<◌, ◌≡◌, refl, sym, ap, subst, ◌∙◌, Bool, true, false, some, List,
  length, length-set, set, get_elem?, get_elem?-lt, take-all, replicate, length-replicate, arith,
  All, set-same,
}
use dei_chain.Base.Int.{ℤ, pos}
use dei_chain.Base.Arrays.{strcmp_eq, strcmp_eq_refl, Fits}
use dei_chain.Base.Text.{snprintf, length-snprintf}
use dei_chain.Data.{
  Transaction, TransactionBlock, TransactionPool, BlockchainLedger, hash_size, txb_id_len,
}
use dei_chain.Pow.Serialize.{serialized}
use dei_chain.Pow.Hash.{digest_length, compute_sha256_old, compute_sha256_last}
use dei_chain.Pow.Layout.{IsTransaction, IsBlock}
use dei_chain.Pow.Search.{verify_nonce, proof_of_work}
use dei_chain.Pow.Sound.{proof_of_work_sound, verify_nonce_old}
use dei_chain.Miner.Block.{create_block, block_name}
use dei_chain.Validator.Ledger.{latest_hash}
use dei_chain.Validator.Check.{Memory, check_transactions, validate_block}
use dei_chain.Validator.PoolLaws.{IsListed, check_transactions_iff, block_transactions}

-- A block as `create_block` makes it fits its place in memory, if what it is made of does.
pub create_block-IsBlock :
    (now : ℤ) (ts : List Transaction) (hash : List ℕ) (miner_id block_id : ℕ) (b : TransactionBlock)
    → Fits (2 ^ 64) now
    → length hash ≡ hash_size
    → length ts < 2 ^ 31
    → All IsTransaction ts
    → create_block true now ts (length ts) hash miner_id block_id ≡ some b
    → IsBlock b ts
unfolding create_block
create_block-IsBlock now ts hash miner_id block_id b fits size small each made =
    subst (λ (c : TransactionBlock). IsBlock c ts) (some-injective _ _ made)
      (record {
        id_size =
            length-set (snprintf txb_id_len (block_name miner_id block_id) (replicate txb_id_len 0))
              63 0
            ∙ length-snprintf 64 (block_name miner_id block_id) (replicate 64 0) (omega arith)
                (length-replicate {A = ℕ} 64 0);
        hash_fits = length-set hash 64 0 ∙ size;
        time_fits = fits;
        nonce_fits = omega arith;
        points = refl;
        counted = refl;
        count_fits = small;
        each = each;
      })

-- The latest hash ends in a NUL, and does not depend on what its buffer held.
pub latest_hash-end :
    (sha256 : List ℕ → List ℕ) (old new : List ℕ) (ledger : BlockchainLedger)
    → ((bytes : List ℕ) → digest_length ≤ length (sha256 bytes))
    → ledger.num_blocks ≤ length ledger.blocks
    → (get_elem? (latest_hash sha256 true old ledger) (hash_size - 1) ≡ some 0)
      × (latest_hash sha256 true old ledger ≡ latest_hash sha256 true new ledger)
unfolding latest_hash
latest_hash-end sha256 old new ledger digest h = at ledger.num_blocks h
  where
    at :
        (n : ℕ)
        → n ≤ length ledger.blocks
        → let counted : BlockchainLedger = record ledger { num_blocks = n } in
          (get_elem? (latest_hash sha256 true old counted) (hash_size - 1) ≡ some 0)
          × (latest_hash sha256 true old counted ≡ latest_hash sha256 true new counted)
    at zero p = (refl, refl)
    at (suc n) p =
        let (e, found) = get_elem?-lt ledger.blocks n p in
        rw (found, latest_hash)
          (
            compute_sha256_last sha256 e.block old (digest (serialized e.block)),
            compute_sha256_old sha256 e.block old new,
          )

-- The checks of `validate_block`, put together.
accepts :
    (sha256 : List ℕ → List ℕ) (memory : Memory) (b : TransactionBlock) (ledger : BlockchainLedger)
    (pool : TransactionPool)
    → memory.nonce_allocated ≡ true
    → memory.last_allocated ≡ true
    → memory.positions_allocated ≡ true
    → verify_nonce sha256 true memory.nonce_buffer b ≡ true
    → strcmp_eq b.previous_block_hash (latest_hash sha256 true memory.last_buffer ledger) ≡ true
    → (check_transactions true b pool).0 ≡ true
    → (validate_block sha256 memory b ledger pool).0 ≡ true
unfolding validate_block
accepts sha256 memory b ledger pool m₁ m₂ m₃ v l t = rw (m₁, m₂, m₃, v, l) t

created :
    (now : ℤ) (ts : List Transaction) (hash : List ℕ) (miner_id block_id : ℕ) (b : TransactionBlock)
    → create_block true now ts (length ts) hash miner_id block_id ≡ some b
    → (b.previous_block_hash ≡ set hash (hash_size - 1) 0)
      × (b.transactions ≡ some ts)
      × (b.transactions_per_block ≡ pos (length ts))
unfolding create_block
created now ts hash miner_id block_id b made =
    let e = some-injective _ _ made in
    (
      sym (ap (λ (c : TransactionBlock). c.previous_block_hash) e),
      sym (ap (λ (c : TransactionBlock). c.transactions) e),
      sym (ap (λ (c : TransactionBlock). c.transactions_per_block) e),
    )

-- A miner takes the latest hash of a ledger, makes a block of `ts`, and its search for a nonce
-- succeeds. A validator that has its memory, over the same ledger and a pool that still lists every
-- transaction of the block under its non-empty ID, accepts the block. SHA-256 is assumed to give at least
-- its 32 bytes; the ledger has room for the blocks that it counts, and the mutex of the pool is
-- free.
pub mined_block_accepted :
    (sha256 : List ℕ → List ℕ) (allocated : ℕ → Bool) (old stack : List ℕ) (now : ℤ)
    (ts : List Transaction) (miner_id block_id : ℕ) (b : TransactionBlock) (memory : Memory)
    (ledger : BlockchainLedger) (pool : TransactionPool)
    → ((bytes : List ℕ) → digest_length ≤ length (sha256 bytes))
    → ledger.num_blocks ≤ length ledger.blocks
    → create_block true now ts (length ts) (latest_hash sha256 true old ledger) miner_id block_id
      ≡ some b
    → (proof_of_work sha256 allocated stack b).0.error ≡ false
    → memory.nonce_allocated ≡ true
    → memory.last_allocated ≡ true
    → memory.positions_allocated ≡ true
    → pool.mutex ≡ 1
    → All (IsListed pool.transactions_list) ts
    → (validate_block sha256 memory (proof_of_work sha256 allocated stack b).1 ledger pool).0 ≡ true
mined_block_accepted sha256 allocated old stack now ts miner_id block_id b memory ledger pool digest
      room made found m₁ m₂ m₃ free listed =
    let mined = (proof_of_work sha256 allocated stack b).1 in
    let (same, _, proven, _, _) = proof_of_work_sound sha256 allocated stack b found in
    let (nul, buffer) = latest_hash-end sha256 old memory.last_buffer ledger digest room in
    let (named, points, counted) =
      created now ts (latest_hash sha256 true old ledger) miner_id block_id b made in
    let hash : mined.previous_block_hash ≡ latest_hash sha256 true memory.last_buffer ledger =
      ap (λ (c : TransactionBlock). c.previous_block_hash) same
      ∙ named
      ∙ set-same (latest_hash sha256 true old ledger) (hash_size - 1) 0 nul
      ∙ buffer in
    let held : block_transactions mined ≡ ts =
      ap block_transactions same ∙ rw (points, counted) (take-all (length ts) ts refl) in
    accepts sha256 memory mined ledger pool m₁ m₂ m₃
      (verify_nonce_old sha256 memory.nonce_buffer mined ∙ proven)
      (subst (λ l. strcmp_eq mined.previous_block_hash l ≡ true) hash
        (strcmp_eq_refl mined.previous_block_hash))
      ((check_transactions_iff mined pool free).0.1
        (subst (All (IsListed pool.transactions_list)) (sym held) listed))
