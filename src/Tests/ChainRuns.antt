-- ===== src/Tests/ChainRuns.antt =====
-- A ledger with a block, its hash, and steps of the processes that lead to it.
use dei_chain.Base.{
  ℕ, ◌+◌, ◌%◌, ◌*◌, ◌≤◌, ◌≡◌, ◌↔◌, ◌⊎◌, refl, true, List, [], ◌∷◌, zero, suc, All, replicate,
  length, arith,
}
use dei_chain.Base.Int.{pos}
use dei_chain.Data.{BlockchainEntry, BlockchainLedger}
use dei_chain.Validator.Ledger.{initial_hash, add_block_to_ledger}
use dei_chain.Validator.Chain.{IsLedger, IsChain}
use dei_chain.Validator.Process.{Shared, process_block}
use dei_chain.Validator.Tamper.{IsByte, IsDigest, Collision, chain_determined}
use dei_chain.Pow.Serialize.{sizeof_transaction}
use dei_chain.Validator.Age.{age_transaction_pool}
use dei_chain.Wire.Accepts.{IsRead}
use dei_chain.System.Safety.{IsSystem}
use dei_chain.Controller.Layout.{
  entry_offset, transactions_offset, total_ledger_shm_size, sizeof_entry,
  add_block_to_ledger_bounds,
}
use dei_chain.Controller.Dump.{dump_ledger, max_ledger_lines}
use dei_chain.Controller.DumpLaws.{dump_ledger_fits_iff}
use dei_chain.Tests.Fixtures.{
  pool, blank_entry, code, digest, byte_sum, tx, config, ledger, mined_at, memory, shared,
}
use dei_chain.Tests.PowRuns.{mined-IsBlock}
use dei_chain.Tests.ValidatorRuns.{ledger-IsLedger}

-- The entry of the block.
abbrev entry_3 : BlockchainEntry
entry_3 = record { block = mined_at 1000 3; valid = true }

abbrev grown : BlockchainLedger
grown = record ledger { num_blocks = 1; blocks = entry_3 ∷ blank_entry ∷ blank_entry ∷ [] }

bytes_of : (n b : ℕ) → IsByte b → All IsByte (replicate n b)
bytes_of zero b h = tt
bytes_of (suc n) b h = (h, bytes_of n b h)

digest-IsDigest : (bytes : List ℕ) → IsDigest (digest bytes)
digest-IsDigest bytes = (refl, (ground arith, bytes_of 31 (byte_sum bytes % 256) (omega arith)))

grown-IsChain : IsChain digest initial_hash (entry_3 ∷ [])
unfolding code
grown-IsChain = (refl, refl, refl, tt)

grown-IsLedger : IsLedger digest config grown
grown-IsLedger = record {
  room = refl;
  bounded = omega arith;
  unlocked = refl;
  linked = grown-IsChain;
}

chain_determined_example :
    (entry_3 ∷ [] ≡ entry_3 ∷ []) ⊎ Collision digest (entry_3 ∷ []) (entry_3 ∷ [])
chain_determined_example =
    chain_determined digest digest-IsDigest initial_hash (entry_3 ∷ []) (entry_3 ∷ []) grown-IsChain
      grown-IsChain ((tx 1 ∷ tx 2 ∷ [], mined-IsBlock), tt) ((tx 1 ∷ tx 2 ∷ [], mined-IsBlock), tt)
      refl refl

pub mined-IsRead : IsRead config (mined_at 1000 3)
mined-IsRead = record {
  ts = tx 1 ∷ tx 2 ∷ [];
  points = refl;
  counted = refl;
  some_transactions = omega arith;
  few_transactions = omega arith;
}

pub shared-IsSystem : IsSystem digest config shared
shared-IsSystem = record {
  ledger = ledger-IsLedger;
  pool = record { sized = refl; percentage = omega arith; unlocked = refl };
}

abbrev after : Shared
after =
    (process_block digest memory (mined_at 1000 3) config
      (record shared { pool = (age_transaction_pool (pos 9) pool (pos 8)).0 })).1

add_block_to_ledger_bounds_example :
    (((add_block_to_ledger (mined_at 1001 2) grown config).0 ≡ pos 0)
      ↔ (transactions_offset config 1 + 2 * sizeof_transaction ≤ total_ledger_shm_size config))
    × (((add_block_to_ledger (mined_at 1001 2) grown config).0 ≡ pos 0)
        ↔ (entry_offset 1 + sizeof_entry ≤ transactions_offset config 0))
    × (transactions_offset config 0 + 2 * sizeof_transaction ≤ transactions_offset config 1)
add_block_to_ledger_bounds_example =
    add_block_to_ledger_bounds (mined_at 1001 2) grown config 0 (omega arith) (omega arith)

dump_ledger_fits_iff_example :
    (length (dump_ledger (λ v. []) (λ i j. tx 0) true grown config) ≤ max_ledger_lines)
    ↔ (1 * (8 + 2) ≤ 995)
dump_ledger_fits_iff_example =
    dump_ledger_fits_iff (λ v. []) (λ i j. tx 0) digest config grown grown-IsLedger
