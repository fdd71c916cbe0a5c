-- ===== src/Controller/StartLaws.antt =====
-- What the program starts with: a valid configuration, and a pool and a ledger in shape.
use dei_chain.Base.{
  ℕ, suc, ◌≡◌, ◌↔◌, refl, ap, ◌∙◌, Bool, true, some, List, [], ◌∷◌, map, length, arith,
}
use dei_chain.Base.Int.{pos, pos_part, ◌≤ℤ◌}
use dei_chain.Data.{TransactionPoolEntry, TransactionPool, BlockchainLedger, Config}
use dei_chain.Validator.Chain.{IsLedger}
use dei_chain.Validator.Process.{Shared}
use dei_chain.System.Steps.{Reach, AllHaveRoom}
use dei_chain.System.Safety.{IsSystem, Reach-IsSystem}
use dei_chain.Controller.Start.{
  Scanned, scanned_or_zero, read_config, Ipc, Memories, cleared, init_ipc_resources,
}

length-cleared : (es : List TransactionPoolEntry) → length (map cleared es) ≡ length es
length-cleared [] = refl
length-cleared (e ∷ es) = ap suc (length-cleared es)

init-eq :
    (ipc : Ipc) (config : Config) (old_pool : TransactionPool) (old_ledger : BlockchainLedger)
    (m : Memories)
    → init_ipc_resources ipc config old_pool old_ledger ≡ some m
    → (m.pool.transactions_list ≡ map cleared old_pool.transactions_list)
      × (m.pool.occupancy ≡ 0)
      × (m.pool.mutex ≡ 1)
      × (m.ledger ≡ record old_ledger { num_blocks = 0; mutex = 1 })
unfolding init_ipc_resources
init-eq ipc config old_pool old_ledger m h = ground arith

-- After `init_ipc_resources` the pool has its size, occupancy 0 and a free mutex, and the ledger is
-- well formed. The segments have the sizes that were asked for.
pub init_ipc_resources-IsSystem :
    (sha256 : List ℕ → List ℕ) (ipc : Ipc) (config : Config) (old_pool : TransactionPool)
    (old_ledger : BlockchainLedger) (m : Memories)
    → length old_pool.transactions_list ≡ config.tx_pool_size
    → length old_ledger.blocks ≡ config.blockchain_blocks
    → init_ipc_resources ipc config old_pool old_ledger ≡ some m
    → IsSystem sha256 config (record { pool = m.pool; ledger = m.ledger })
init_ipc_resources-IsSystem sha256 ipc config old_pool old_ledger m hp hl h =
    let (es, percent, mutex, ledger) = init-eq ipc config old_pool old_ledger m h in
    let fresh : IsLedger sha256 config (record old_ledger { num_blocks = 0; mutex = 1 }) = record {
      room = hl;
      bounded = omega arith;
      unlocked = refl;
      linked = tt;
    } in
    record {
      ledger = rw ledger fresh;
      pool = record {
        sized = ap length es ∙ length-cleared old_pool.transactions_list ∙ hp;
        percentage = omega (arith, percent);
        unlocked = mutex;
      };
    }

-- `read_config` accepts a file exactly if it can be opened and gives four numbers of 1 at least; a
-- number that is not there counts as 0.
pub read_config_iff :
    (opened : Bool) (s : Scanned)
    → ((config : Config) × (read_config opened s ≡ some config)) ↔ (
        (opened ≡ true)
        × (pos 1 ≤ℤ scanned_or_zero s.num_miners)
        × (pos 1 ≤ℤ scanned_or_zero s.tx_pool_size)
        × (pos 1 ≤ℤ scanned_or_zero s.transactions_per_block)
        × (pos 1 ≤ℤ scanned_or_zero s.blockchain_blocks))
unfolding read_config
read_config_iff opened s = (
  (λ r. ground arith),
  (λ r. (
    record {
      num_miners = pos_part (scanned_or_zero s.num_miners);
      tx_pool_size = pos_part (scanned_or_zero s.tx_pool_size);
      transactions_per_block = pos_part (scanned_or_zero s.transactions_per_block);
      blockchain_blocks = pos_part (scanned_or_zero s.blockchain_blocks);
    },
    ground arith,
  )),
)

-- From the memory that the controller sets up, whatever generators, miners and one validator do, in
-- any order and with any blocks: the ledger is a chain from `INITIAL_HASH` of blocks that pass the
-- check of their nonces, within its room, and the pool keeps its size and a percentage for its
-- occupancy, both mutexes free between two calls. The hypotheses are that the segments have the sizes
-- that were asked for, and that each time the validator processes a block it finds the memory to hash the
-- latest one.
pub started-IsSystem :
    (sha256 : List ℕ → List ℕ) (ipc : Ipc) (config : Config) (old_pool : TransactionPool)
    (old_ledger : BlockchainLedger) (m : Memories) (s : Shared)
    → length old_pool.transactions_list ≡ config.tx_pool_size
    → length old_ledger.blocks ≡ config.blockchain_blocks
    → init_ipc_resources ipc config old_pool old_ledger ≡ some m
    → (run : Reach sha256 config (record { pool = m.pool; ledger = m.ledger }) s)
    → AllHaveRoom sha256 config run
    → IsSystem sha256 config s
started-IsSystem sha256 ipc config old_pool old_ledger m s hp hl h run rooms =
    Reach-IsSystem sha256 config run rooms
      (init_ipc_resources-IsSystem sha256 ipc config old_pool old_ledger m hp hl h)
