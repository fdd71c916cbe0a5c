-- ===== src/Controller/Lifecycle.antt =====
-- `create_processes`, `cleanup_resources` and `controller_main` of controller.c, by what they leave in
-- the kernel: the segments, the queue, the pipe and the child processes.
use dei_chain.Base.{Bool, true, false, not, if◌then◌else◌}
use dei_chain.Controller.Start.{Ipc}

-- What there is.
pub record Kernel : Type 0 where
  pub config_segment : Bool
  pub pool_segment : Bool
  pub ledger_segment : Bool
  pub message_queue : Bool
  pub named_pipe : Bool
  pub miner : Bool
  pub validator : Bool
  pub statistics : Bool

-- Nothing of the program.
abbrev pub nothing : Kernel
nothing = record {
  config_segment = false;
  pool_segment = false;
  ledger_segment = false;
  message_queue = false;
  named_pipe = false;
  miner = false;
  validator = false;
  statistics = false;
}

-- What `init_ipc_resources` creates up to its end or to its `exit(EXIT_FAILURE)`, and whether it gets
-- to its end.
unfoldable pub init_objects : Ipc → Kernel → Bool × Kernel
init_objects ipc k =
    let k₁ : Kernel = record k { config_segment = true } in
    let k₂ : Kernel = record k₁ { pool_segment = true } in
    let k₃ : Kernel = record k₂ { ledger_segment = true } in
    let k₄ : Kernel = record k₃ { message_queue = true } in
    if not ipc.config_get
    then (false, k)
    else if not ipc.config_attach
    then (false, k₁)
    else if not ipc.pool_get
    then (false, k₁)
    else if not ipc.pool_attach
    then (false, k₂)
    else if not ipc.pool_mutex
    then (false, k₂)
    else if not ipc.pool_notification
    then (false, k₂)
    else if not ipc.ledger_get
    then (false, k₂)
    else if not ipc.ledger_attach
    then (false, k₃)
    else if not ipc.ledger_mutex
    then (false, k₃)
    else if not ipc.queue_get
    then (false, k₃)
    else if not ipc.fifo
    then (false, k₄)
    else (true, record k₄ { named_pipe = true })

-- Whether each `fork` of the controller succeeds.
pub record Forks : Type 0 where
  pub miner : Bool
  pub validator : Bool
  pub statistics : Bool

-- In the controller: whether it goes on, and what there is.
unfoldable pub create_processes : Forks → Kernel → Bool × Kernel
create_processes forks k =
    let k₁ : Kernel = record k { miner = true } in
    let k₂ : Kernel = record k₁ { validator = true } in
    if not forks.miner
    then (false, k)
    else if not forks.validator
    then (false, k₁)
    else if not forks.statistics
    then (false, k₂)
    else (true, record k₂ { statistics = true })

-- The arguments of `cleanup_resources`: whether a process ID is positive, or another ID is not -1.
pub record Ids : Type 0 where
  pub miner_pid : Bool
  pub validator_pid : Bool
  pub statistics_pid : Bool
  pub pool_id : Bool
  pub ledger_id : Bool
  pub config_id : Bool
  pub queue_id : Bool

-- `kill` and `waitpid` return here: each child ends on SIGTERM.
unfoldable pub cleanup_resources : Ids → Kernel → Kernel
cleanup_resources ids k = record {
  config_segment = if ids.config_id then false else k.config_segment;
  pool_segment = if ids.pool_id then false else k.pool_segment;
  ledger_segment = if ids.ledger_id then false else k.ledger_segment;
  message_queue = if ids.queue_id then false else k.message_queue;
  named_pipe = false;
  miner = if ids.miner_pid then false else k.miner;
  validator = if ids.validator_pid then false else k.validator;
  statistics = if ids.statistics_pid then false else k.statistics;
}

-- What the controller gets from outside: whether `init_logger` and both `sigaction`s succeed, whether
-- `read_config` returns, and the calls above.
pub record Run : Type 0 where
  pub logger : Bool
  pub handlers : Bool
  pub config_read : Bool
  pub ipc : Ipc
  pub forks : Forks

-- The ends of the controller, by which of its parts succeed: `k₁` is there before the forks and `k₂`
-- after them. The IDs are those that the calls have returned.
unfoldable pub controller_ends : Bool → Bool → Bool → Bool → Bool → Kernel → Kernel → Bool × Kernel
unfolding cleanup_resources
controller_ends logger handlers config_read ready running k₁ k₂ =
    let ids : Ids = record {
      miner_pid = true;
      validator_pid = true;
      statistics_pid = true;
      pool_id = true;
      ledger_id = true;
      config_id = true;
      queue_id = true;
    } in
    if not logger
    then (false, nothing)
    else if not handlers
    then (false, nothing)
    else if not config_read
    then (false, nothing)
    else if not ready
    then (false, k₁)
    else if not running
    then (false, k₂)
    else (true, cleanup_resources ids k₂)

-- From a kernel with nothing of the program to the end, `EXIT_SUCCESS` or `EXIT_FAILURE`; the loop in
-- between is taken to end.
unfoldable pub controller_main : Run → Bool × Kernel
unfolding controller_ends
controller_main run =
    let (ready, k₁) = init_objects run.ipc nothing in
    let (running, k₂) = create_processes run.forks k₁ in
    controller_ends run.logger run.handlers run.config_read ready running k₁ k₂
