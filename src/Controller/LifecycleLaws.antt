-- ===== src/Controller/LifecycleLaws.antt =====
-- What the controller leaves behind.
use dei_chain.Base.{◌≡◌, ◌↔◌, Bool, false, ◌||◌, ◌&&◌, none, arith}
use dei_chain.Data.{Config, TransactionPool, BlockchainLedger}
use dei_chain.Controller.Start.{Ipc, init_ipc_resources}
use dei_chain.Controller.Lifecycle.{Kernel, init_objects}

-- Whether there is a child process.
abbrev pub some_child : Kernel → Bool
some_child k = k.miner || k.validator || k.statistics

-- Whether all five objects are there.
abbrev pub all_objects : Kernel → Bool
all_objects k =
    k.config_segment && k.pool_segment && k.ledger_segment && k.message_queue && k.named_pipe

-- Both descriptions of `init_ipc_resources` get to its end in the same runs.
pub init_objects_iff :
    (ipc : Ipc) (config : Config) (pool : TransactionPool) (ledger : BlockchainLedger) (k : Kernel)
    → ((init_objects ipc k).0 ≡ false) ↔ (init_ipc_resources ipc config pool ledger ≡ none)
unfolding init_objects init_ipc_resources
init_objects_iff ipc config pool ledger k = ground arith

abbrev pub some_object : Kernel → Bool
some_object k =
    k.config_segment || k.pool_segment || k.ledger_segment || k.message_queue || k.named_pipe
