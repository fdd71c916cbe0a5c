-- ===== src/Controller/Layout.antt =====
-- Where the ledger lies in its segment: the size that `init_ipc_resources` of controller.c asks for,
-- and the addresses that `add_block_to_ledger` of validator.c and `dump_ledger` compute. All are in
-- bytes from the start of the segment, with the sizes of the structures on a 64-bit machine.
use dei_chain.Base.{ℕ, ◌+◌, ◌*◌, ◌≤◌, ◌<◌, ◌≡◌, ◌↔◌, arith}
use native.Mathlib.Decide.{dec_lt}
use dei_chain.Base.Int.{pos}
use dei_chain.Data.{TransactionBlock, BlockchainLedger, Config}
use dei_chain.Pow.Serialize.{sizeof_transaction}
use dei_chain.Validator.Ledger.{add_block_to_ledger}

-- `sizeof(BlockchainLedger)`: the count, padding, and the semaphore
abbrev pub sizeof_ledger : ℕ
sizeof_ledger = 40

-- `sizeof(BlockchainEntry)`: the block, the flag and padding
abbrev pub sizeof_entry : ℕ
sizeof_entry = 168

unfoldable pub total_ledger_shm_size : Config → ℕ
total_ledger_shm_size config =
    sizeof_ledger
    + config.blockchain_blocks * (sizeof_entry + config.transactions_per_block * sizeof_transaction)

-- `&ledger->blocks[i]`
unfoldable pub entry_offset : ℕ → ℕ
entry_offset i = sizeof_ledger + i * sizeof_entry

-- `transactions_base + block_tx_offset`
unfoldable pub transactions_offset : Config → ℕ → ℕ
transactions_offset config i =
    sizeof_ledger
    + config.blockchain_blocks * sizeof_entry
    + i * config.transactions_per_block * sizeof_transaction

mul-le : (a b k : ℕ) → a ≤ b → a * k ≤ b * k
mul-le a b k h = grind arith

mul-lt : (a b k : ℕ) → a < b → a * k + k ≤ b * k
mul-lt a b k h = grind arith

mul-entry :
    (blocks per_block : ℕ)
    → blocks * (168 + per_block * 32) ≡ blocks * 168 + blocks * per_block * 32
mul-entry blocks per_block = grind arith

transactions_offset_fits :
    (config : Config) (i : ℕ)
    → 0 < config.transactions_per_block
    → (transactions_offset config i + config.transactions_per_block * sizeof_transaction
        ≤ total_ledger_shm_size config)
      ↔ (i < config.blockchain_blocks)
unfolding transactions_offset total_ledger_shm_size
transactions_offset_fits config i h =
    let n = config.blockchain_blocks in
    let k = config.transactions_per_block in
    (
      (λ fits. elim (dec_lt i n) [
        | yes below ↦ below
        | no above ↦ absurd (omega (arith, mul-entry n k, mul-le n i k (omega arith)))
      ]),
      (λ below. omega (arith, mul-entry n k, mul-lt i n k below)),
    )

entry_offset_fits :
    (config : Config) (i : ℕ)
    → (entry_offset i + sizeof_entry ≤ transactions_offset config 0)
      ↔ (i < config.blockchain_blocks)
unfolding entry_offset transactions_offset
entry_offset_fits config i = ((λ fits. omega arith), (λ below. omega arith))

added_iff :
    (b : TransactionBlock) (ledger : BlockchainLedger) (config : Config)
    → ((add_block_to_ledger b ledger config).0 ≡ pos 0)
      ↔ (ledger.num_blocks < config.blockchain_blocks)
unfolding add_block_to_ledger
added_iff b ledger config = ground arith

-- `add_block_to_ledger` returns 0 exactly if the place that it computes for the transactions of the
-- block lies in the segment, and exactly if the entry that it fills lies before the transactions of
-- all blocks. This place lies behind that of each block before. A block takes one transaction at
-- least.
pub add_block_to_ledger_bounds :
    (b : TransactionBlock) (ledger : BlockchainLedger) (config : Config) (j : ℕ)
    → 0 < config.transactions_per_block
    → j < ledger.num_blocks
    → let n = ledger.num_blocks in
      let size = config.transactions_per_block * sizeof_transaction in
      (((add_block_to_ledger b ledger config).0 ≡ pos 0)
        ↔ (transactions_offset config n + size ≤ total_ledger_shm_size config))
      × (((add_block_to_ledger b ledger config).0 ≡ pos 0)
          ↔ (entry_offset n + sizeof_entry ≤ transactions_offset config 0))
      × (transactions_offset config j + size ≤ transactions_offset config n)
unfolding transactions_offset
add_block_to_ledger_bounds b ledger config j h below =
    let n = ledger.num_blocks in
    let added = added_iff b ledger config in
    let place = transactions_offset_fits config n h in
    let entry = entry_offset_fits config n in
    (
      ((λ ok. place.1 (added.0 ok)), (λ fits. added.1 (place.0 fits))),
      ((λ ok. entry.1 (added.0 ok)), (λ fits. added.1 (entry.0 fits))),
      omega (arith, mul-lt j n config.transactions_per_block below),
    )
