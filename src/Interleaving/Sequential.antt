-- ===== src/Interleaving/Sequential.antt =====
-- With nothing in between, the steps of a validator do what `process_block` does at once.
use dei_chain.Base.{ℕ, ◌≡◌, refl, true, false, ltb, arith, inl, inr, Bool-cases, List, leb}
use dei_chain.Data.{Transaction, TransactionBlock, BlockchainLedger, Config}
use dei_chain.Pow.Search.{verify_nonce}
use dei_chain.Validator.Check.{Memory, validate_block, check_previous, check_transactions}
use dei_chain.Validator.Ledger.{add_block_to_ledger, write_block, append_block}
use dei_chain.Validator.Process.{Shared, process_block}
use dei_chain.Interleaving.Steps.{idle, got, advances}

append_block-write :
    (past_end : ℕ → List Transaction → List Transaction) (b : TransactionBlock)
    (ledger : BlockchainLedger) (config : Config)
    → leb config.blockchain_blocks ledger.num_blocks ≡ false
    → append_block past_end b ledger config ≡ write_block b ledger config
unfolding append_block
append_block-write past_end b ledger config space =
    let fits : ltb ledger.num_blocks config.blockchain_blocks ≡ true = ground arith in rw fits refl

module _ (sha256 : List ℕ → List ℕ) (config : Config) where
  -- Six steps of a validator from a block that it has read, with no step of another process in
  -- between, end with no block in hand and with the pool and the ledger that `process_block` gives.
  advances-process_block :
      (memory : Memory) (b : TransactionBlock) (s : Shared)
      → advances sha256 config 6 memory (got b) s
        ≡ (idle, (process_block sha256 memory b config s).1)
  unfolding advances process_block validate_block add_block_to_ledger
  advances-process_block memory b s =
      elim (Bool-cases (verify_nonce sha256 memory.nonce_allocated memory.nonce_buffer b)) [
        | inr unproven ↦ rw unproven refl
        | inl proven ↦ elim (Bool-cases (check_previous sha256 memory b s.ledger)) [
          | inr stale ↦ rw (proven, stale) refl
          | inl linked ↦
              elim (Bool-cases (check_transactions memory.positions_allocated b s.pool).0) [
                | inr unlisted ↦ rw (proven, linked, unlisted) refl
                | inl listed ↦
                    elim (Bool-cases (leb config.blockchain_blocks s.ledger.num_blocks)) [
                      | inl full ↦ rw (proven, linked, listed, full) refl
                      | inr space ↦
                          let e = append_block-write memory.past_end b s.ledger config space in
                          rw (proven, linked, listed, space, e) refl
                    ]
              ]
        ]
      ]
