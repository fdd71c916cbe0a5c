-- ===== src/Validator/Ledger.antt =====
-- The ledger: the hash that the next block has to name, and `add_block_to_ledger` of validator.c.
use dei_chain.Base.{
  ℕ, zero, suc, ◌+◌, Bool, true, none, some, List, [], ◌∷◌, ◌++◌, leb, ltb, if◌then◌else◌, take,
  set, get_elem?,
}
use dei_chain.Base.Int.{ℤ, pos, negsuc}
use dei_chain.Base.Text.{codes}
use dei_chain.Data.{
  Transaction, TransactionBlock, BlockchainEntry, BlockchainLedger, Config, sem_wait, sem_post,
}
use dei_chain.Pow.Hash.{compute_sha256}

-- `INITIAL_HASH` of data_structures.h, the NUL of the literal included.
abbrev pub initial_hash : List ℕ
initial_hash = codes "00006a8e76f31ba74e21a092cca1015a418c9d5f4375e7a4fec676e1d2ec1436" ++ 0 ∷ []

-- The transactions behind the pointer of a block that has been read from the pipe.
abbrev pub transactions_of : TransactionBlock → List Transaction
transactions_of b = elim b.transactions [ some ts ↦ ts | none ↦ [] ]

module _ (sha256 : List ℕ → List ℕ) where
  -- The hash of the last block, or `INITIAL_HASH` for an empty ledger: in `validate_block`, and in
  -- `miner_thread_function` for the block to be mined. `allocated` is the outcome of the `calloc`,
  -- `old` what the buffer held.
  unfoldable pub latest_hash : Bool → List ℕ → BlockchainLedger → List ℕ
  latest_hash allocated old ledger = elim ledger.num_blocks [
    | zero ↦ initial_hash
    | suc n ↦ elim (get_elem? ledger.blocks n) [
      | some e ↦ compute_sha256 sha256 allocated e.block old
      | none ↦ old
    ]
  ]

-- The entry that is written: the block, its transactions copied into the segment, the flag set. As
-- many are copied as the configuration says.
unfoldable pub ledger_entry : TransactionBlock → Config → BlockchainEntry
ledger_entry b config = record {
  block = record b { transactions = some (take config.transactions_per_block (transactions_of b)) };
  valid = true;
}

-- The part of `add_block_to_ledger` under the mutex of the ledger, for a ledger that has room.
unfoldable pub write_block : TransactionBlock → BlockchainLedger → Config → BlockchainLedger
unfolding ledger_entry
write_block b ledger config =
    let locked : BlockchainLedger = record ledger { mutex = sem_wait ledger.mutex } in
    record locked {
      blocks = set locked.blocks locked.num_blocks (ledger_entry b config);
      num_blocks = locked.num_blocks + 1;
      mutex = sem_post locked.mutex;
    }

-- The transactions lie right behind the array, those of block 0 first, so that an entry past its end is
-- written over them. `past_end` says what the transactions of a block are then.
unfoldable pub overwritten :
    (ℕ → List Transaction → List Transaction) → ℕ → List BlockchainEntry → List BlockchainEntry
overwritten past_end i [] = []
overwritten past_end i (e ∷ es) =
    record e {
      block = record (e.block) {
        transactions = elim e.block.transactions [ some ts ↦ some (past_end i ts) | none ↦ none ];
      };
    }
    ∷ overwritten past_end (i + 1) es

-- The same part, whether the ledger still has room or not: another validator may have filled it since
-- the test. The count and the mutex lie before the array.
unfoldable pub append_block :
    (ℕ → List Transaction → List Transaction)
    → TransactionBlock
    → BlockchainLedger
    → Config
    → BlockchainLedger
unfolding write_block overwritten
append_block past_end b ledger config =
    if ltb ledger.num_blocks config.blockchain_blocks
    then write_block b ledger config
    else (let locked : BlockchainLedger = record ledger { mutex = sem_wait ledger.mutex } in
        record locked {
          blocks = overwritten past_end 0 locked.blocks;
          num_blocks = locked.num_blocks + 1;
          mutex = sem_post locked.mutex;
        })

-- The result 0, or -1 if the ledger is full, and the ledger afterwards.
unfoldable pub add_block_to_ledger :
    TransactionBlock → BlockchainLedger → Config → ℤ × BlockchainLedger
unfolding write_block
add_block_to_ledger b ledger config =
    if leb config.blockchain_blocks ledger.num_blocks
    then (negsuc 0, ledger)
    else (pos 0, write_block b ledger config)
