-- ===== src/Validator/Keep.antt =====
-- What `process_block` of validator.c does with a block keeps the ledger well formed.
use dei_chain.Base.{
  ℕ, ◌+◌, ◌≤◌, ◌<◌, ◌≡◌, refl, sym, ap, subst, ◌∙◌, true, false, some, List, [], ◌∷◌, ◌++◌, leb,
  if◌then◌else◌, take, length, length-set, arith, inl, inr, Bool-cases, take-le,
}
use dei_chain.Base.Arrays.{strcmp_eq}
use dei_chain.Data.{
  TransactionPool, Transaction, TransactionBlock, BlockchainEntry, BlockchainLedger, Config,
}
use dei_chain.Pow.Search.{verify_nonce}
use dei_chain.Pow.Sound.{verify_nonce-allocated}
use dei_chain.Validator.Ledger.{
  initial_hash, transactions_of, latest_hash, ledger_entry, add_block_to_ledger,
}
use dei_chain.Validator.Check.{Memory, validate_block}
use dei_chain.Validator.Process.{Shared, process_block}
use dei_chain.Validator.Chain.{
  take-set, chain, end_hash, IsLedger, IsChain-append, latest_hash-eq-end,
}

leb_above : (m n : ℕ) → n < m → leb m n ≡ false
leb_above m n h = ground arith

module _ (sha256 : List ℕ → List ℕ) where
  -- What is stored of a block that carries no more transactions than the configuration allows is
  -- the block.
  pub stored :
      (config : Config) (b : TransactionBlock) (ts : List Transaction)
      → b.transactions ≡ some ts
      → length ts ≤ config.transactions_per_block
      → (ledger_entry b config).block ≡ b
  unfolding ledger_entry
  stored config b ts points small =
      let same : some (take config.transactions_per_block (transactions_of b)) ≡ b.transactions =
        rw points (ap some (take-le config.transactions_per_block ts small)) in
      λ i. record b { transactions = same i }

  -- Adding a block that passed the checks keeps the ledger well formed, also when the ledger is full.
  pub add_block_to_ledger-IsLedger :
      (config : Config) (ledger : BlockchainLedger) (b : TransactionBlock) (ts : List Transaction)
      → IsLedger sha256 config ledger
      → b.transactions ≡ some ts
      → length ts ≤ config.transactions_per_block
      → strcmp_eq b.previous_block_hash (end_hash sha256 initial_hash (chain ledger)) ≡ true
      → verify_nonce sha256 true [] b ≡ true
      → IsLedger sha256 config (add_block_to_ledger b ledger config).1
  unfolding add_block_to_ledger
  add_block_to_ledger-IsLedger config ledger b ts h points small link proven =
      elim (Bool-cases (leb config.blockchain_blocks ledger.num_blocks)) [
        | inl full ↦ rw full h
        | inr space ↦ rw space (
            let e : BlockchainEntry = ledger_entry b config in
            let same : e.block ≡ b = stored config b ts points small in
            let fits : ledger.num_blocks < length ledger.blocks = ground (arith, h.room) in
            record {
              room = length-set ledger.blocks ledger.num_blocks e ∙ h.room;
              bounded = omega (arith, h.room);
              unlocked = omega (arith, h.unlocked);
              linked = rw (take-set ledger.blocks ledger.num_blocks e fits) (
                  IsChain-append sha256 initial_hash (chain ledger) e h.linked refl
                    (subst
                      (λ (x : TransactionBlock).
                        strcmp_eq x.previous_block_hash
                          (end_hash sha256 initial_hash (chain ledger))
                        ≡ true)
                      (sym same) link)
                    (subst (λ x. verify_nonce sha256 true [] x ≡ true) (sym same) proven));
            })
      ]

  -- What an accepted verdict says: the proof of work holds, and the block names the latest hash.
  pub validate_block-accepts :
      (memory : Memory) (b : TransactionBlock) (ledger : BlockchainLedger) (pool : TransactionPool)
      → (validate_block sha256 memory b ledger pool).0 ≡ true
      → (verify_nonce sha256 true [] b ≡ true)
        × (strcmp_eq b.previous_block_hash
              (latest_hash sha256 memory.last_allocated memory.last_buffer ledger)
            ≡ true)
  unfolding validate_block
  validate_block-accepts memory b ledger pool h =
      ground (arith, verify_nonce-allocated sha256 memory.nonce_allocated memory.nonce_buffer b)

  -- With the memory for the latest hash, an accepted block continues the chain.
  pub validate_block-links :
      (memory : Memory) (b : TransactionBlock) (config : Config) (ledger : BlockchainLedger)
      (pool : TransactionPool)
      → IsLedger sha256 config ledger
      → memory.last_allocated ≡ true
      → (validate_block sha256 memory b ledger pool).0 ≡ true
      → strcmp_eq b.previous_block_hash (end_hash sha256 initial_hash (chain ledger)) ≡ true
  validate_block-links memory b config ledger pool h room accepted =
      subst (λ l. strcmp_eq b.previous_block_hash l ≡ true)
        (ap (λ a. latest_hash sha256 a memory.last_buffer ledger) room
          ∙ latest_hash-eq-end sha256 config ledger memory.last_buffer h)
        (validate_block-accepts memory b ledger pool accepted).1

  -- Adding a block to a ledger with room appends its entry to the chain.
  pub chain-add_block_to_ledger :
      (b : TransactionBlock) (ledger : BlockchainLedger) (config : Config)
      → ledger.num_blocks < config.blockchain_blocks
      → length ledger.blocks ≡ config.blockchain_blocks
      → let ledger' = (add_block_to_ledger b ledger config).1 in
        (chain ledger' ≡ chain ledger ++ ledger_entry b config ∷ [])
        × (ledger'.num_blocks ≡ ledger.num_blocks + 1)
        × (length ledger'.blocks ≡ config.blockchain_blocks)
  unfolding add_block_to_ledger
  chain-add_block_to_ledger b ledger config space room =
      rw (leb_above config.blockchain_blocks ledger.num_blocks space) (
        take-set ledger.blocks ledger.num_blocks (ledger_entry b config) (omega (arith, room)),
        refl,
        length-set ledger.blocks ledger.num_blocks (ledger_entry b config) ∙ room,
      )

  pub process_block-ledger :
      (memory : Memory) (b : TransactionBlock) (config : Config) (s : Shared)
      → (process_block sha256 memory b config s).1.ledger ≡ (
          if (validate_block sha256 memory b s.ledger s.pool).0
          then (add_block_to_ledger b s.ledger config).1
          else s.ledger)
  unfolding process_block
  process_block-ledger memory b config s = ground arith

  -- What a validator does with a block that it has read, with no other validator in between, keeps
  -- the ledger well formed, whatever the verdict: each block in use passes the check of its nonce and
  -- names the hash of the one before it, the first one `INITIAL_HASH`. The hypotheses are that the
  -- ledger was well formed, that the block carries no more transactions than the configuration
  -- allows, and that the memory for hashing the latest block is found.
  pub process_block-IsLedger :
      (memory : Memory) (b : TransactionBlock) (ts : List Transaction) (config : Config)
      (s : Shared)
      → IsLedger sha256 config s.ledger
      → b.transactions ≡ some ts
      → length ts ≤ config.transactions_per_block
      → memory.last_allocated ≡ true
      → IsLedger sha256 config (process_block sha256 memory b config s).1.ledger
  process_block-IsLedger memory b ts config s h points small room =
      rw (process_block-ledger memory b config s)
        (elim (Bool-cases (validate_block sha256 memory b s.ledger s.pool).0) [
          | inr rejected ↦ rw rejected h
          | inl accepted ↦ rw accepted (
              add_block_to_ledger-IsLedger config s.ledger b ts h points small
                (validate_block-links memory b config s.ledger s.pool h room accepted)
                (validate_block-accepts memory b s.ledger s.pool accepted).0)
        ])
