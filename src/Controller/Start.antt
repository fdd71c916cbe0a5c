-- ===== src/Controller/Start.antt =====
-- `read_config` and `init_ipc_resources` of controller.c.
use dei_chain.Base.{Bool, true, not, ◌&&◌, ◌||◌, Option, none, some, map, if◌then◌else◌}
use dei_chain.Base.Int.{ℤ, pos, pos_part, leb_ℤ}
use dei_chain.Data.{TransactionPoolEntry, TransactionPool, BlockchainLedger, Config}

-- The four results of `fscanf`: a number, or none where no number was converted.
pub record Scanned : Type 0 where
  pub num_miners : Option ℤ
  pub tx_pool_size : Option ℤ
  pub transactions_per_block : Option ℤ
  pub blockchain_blocks : Option ℤ

-- A field that `fscanf` does not set keeps the 0 that it was initialised with.
abbrev pub scanned_or_zero : Option ℤ → ℤ
scanned_or_zero none = pos 0
scanned_or_zero (some z) = z

-- `opened` is the outcome of `fopen`; `none` is `exit(EXIT_FAILURE)`.
unfoldable pub read_config : Bool → Scanned → Option Config
read_config opened s =
    let miners = scanned_or_zero s.num_miners in
    let size = scanned_or_zero s.tx_pool_size in
    let per_block = scanned_or_zero s.transactions_per_block in
    let blocks = scanned_or_zero s.blockchain_blocks in
    if not opened
    then none
    else if leb_ℤ miners (pos 0)
        || leb_ℤ size (pos 0)
        || leb_ℤ per_block (pos 0)
        || leb_ℤ blocks (pos 0)
    then none
    else some (record {
      num_miners = pos_part miners;
      tx_pool_size = pos_part size;
      transactions_per_block = pos_part per_block;
      blockchain_blocks = pos_part blocks;
    })

-- The outcomes of the calls in order: each is whether the call succeeds. `mkfifo` succeeds here also
-- where the pipe is there already.
pub record Ipc : Type 0 where
  pub config_get : Bool
  pub config_attach : Bool
  pub pool_get : Bool
  pub pool_attach : Bool
  pub pool_mutex : Bool
  pub pool_notification : Bool
  pub ledger_get : Bool
  pub ledger_attach : Bool
  pub ledger_mutex : Bool
  pub queue_get : Bool
  pub fifo : Bool

-- The memory after the calls: the configuration, the pool and the ledger.
pub record Memories : Type 0 where
  pub shared_config : Config
  pub pool : TransactionPool
  pub ledger : BlockchainLedger

abbrev pub cleared : TransactionPoolEntry → TransactionPoolEntry
cleared e = record e { empty = true; age = 0 }

-- The segments may hold anything at the start, such as what an earlier run has left: `old_pool` and
-- `old_ledger`. `none` is `exit(EXIT_FAILURE)`.
unfoldable pub init_ipc_resources :
    Ipc → Config → TransactionPool → BlockchainLedger → Option Memories
init_ipc_resources ipc config old_pool old_ledger =
    if ipc.config_get && ipc.config_attach && ipc.pool_get && ipc.pool_attach && ipc.pool_mutex
      && ipc.pool_notification && ipc.ledger_get && ipc.ledger_attach && ipc.ledger_mutex
      && ipc.queue_get && ipc.fifo
    then some (record {
      shared_config = config;
      pool = record old_pool {
        current_block_id = 0;
        occupancy = 0;
        mutex = 1;
        work_notification_sem = 0;
        transactions_list = map cleared old_pool.transactions_list;
      };
      ledger = record old_ledger { num_blocks = 0; mutex = 1 };
    })
    else none
