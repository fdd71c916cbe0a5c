-- ===== src/Lib.antt =====
-- DEIChain simulates a blockchain with several processes that share memory. A generator puts
-- transactions into a pool; the threads of the miner reserve transactions, build blocks and search
-- for a nonce; validators check the blocks, append them to a ledger and take their transactions off
-- the pool; a statistics process counts what the validators report; a controller starts all of
-- them. The pool and the ledger are each guarded by a semaphore that is used as a mutex.
--
-- Files. `Data` has the structures of data_structures.h, field by field. `Base` has shared helpers:
-- lists and the native numbers, `Base.Arrays` the byte arrays and C strings, `Base.Int` the signed
-- integers, `Base.Decimal` and `Base.Text` what `snprintf` prints.
--   `Pow` is pow.c: `Pow.Serialize` has `serialize_block` as a function to bytes, `Pow.Hash`
-- `compute_sha256`, `Pow.Difficulty` `getDifficultFromReward` and `check_difficulty`, `Pow.Search`
-- `verify_nonce` and `proof_of_work`; `Pow.Layout`, `Pow.Binding` and `Pow.Sound` are about them.
--   `Pool` has the loops over the entries of the pool that occur in txgen.c, miner.c and
-- validator.c. `Pool.Counting` and `Pool.Ids` count the entries that carry an ID, occupied or in any
-- state; `Pool.Invariant` says what a well-formed pool is.
--   `TxGen` is txgen.c: `generate_transaction`, `add_transaction_to_pool`, the loop of `txgen_main` in
-- `TxGen.Loop`, and `main` in `TxGen.Whole`.
--   `Miner` is miner.c: `Miner.Select` has `select_transactions`, `Miner.Block` `create_block` and
-- the return of transactions in `miner_thread_function`, `Miner.Round` a round of its loop, and
-- `Miner.Thread` the round with the flag to terminate, the pipe, and the memory allocated and freed;
-- `Miner.Pipeline` follows a block from the pool to its acceptance, `Miner.RestoreLaws` and
-- `Miner.RoundRestores` are about transactions that are given back. `Miner.Main` is `miner_main`: in `Miner.Main.Steps` the main thread
-- and the threads at the head of their loop, with the semaphore that they wait for, take steps in any
-- order, and signals and posts come between any two; `Miner.Main.Whole` adds the start and the end.
--   `Validator` is validator.c: `Validator.Ledger` has the latest hash and `add_block_to_ledger`,
-- `Validator.Check` `validate_block`, `Validator.Remove` `remove_transactions_from_pool`,
-- `Validator.Process` what `validator_main` does with a block that it has read, `Validator.Age`
-- `age_transaction_pool`, `Validator.Manage` `manage_validators`. `Validator.Chain` says what a
-- well-formed ledger is, `Validator.Round` is the part of a turn of the loop of `validator_main` from the
-- reading of a block on, `Validator.Turn` the whole turn, `Validator.Main` the function from its start to its end, and
-- `Validator.Tamper` is about what the hash of the latest block fixes.
--   `Wire` is the named pipe: `Wire.Send` has `send_block_to_validator` of miner.c, `Wire.Read` and
-- `Wire.Parse` have `read_fully` and the reading of a block in `validator_main` of validator.c;
-- `Wire.Delivery` and `Wire.Accepts` are about the two together, `Wire.Interleaved` about two miners.
--   `Statistics` is statistics.c: the messages processed, `print_statistics`, the loop of
-- `statistics_main` in `Statistics.Loop`, and its start and end in `Statistics.Whole`.
--   `Logger` is logger.c, for one process.
--   `Controller` is controller.c: `Controller.Start` has `read_config` and `init_ipc_resources`,
-- `Controller.Layout` the segment of the ledger, `Controller.Dump` `dump_ledger`,
-- `Controller.Signals` the signal handler and the loop of `controller_main`, and `Controller.Lifecycle`
-- what `init_ipc_resources`, `create_processes` and `cleanup_resources` create and remove.
--   `System` puts the parts together: `System.Steps` has the calls of the processes on the shared
-- memory as steps in any order, `System.Turns` has the turns of a validator and `System.ValidatorEnd` its
-- end, `System.Bag` the pool as a bag of transactions, `System.Overwrite` a generator beside a miner,
-- `System.Sendable` and `System.EndToEnd` follow a block from the pool to the ledger.
--   `Interleaving` is several processes at once: `Interleaving.Steps` has the points of a validator
-- with its block between which others run, and the steps of a system of validators;
-- `Interleaving.Miners` has the points of a thread of the miner, and `Interleaving.Whole` the steps of
-- all processes.
--   `Tests` has small inputs and runs on them.
--
-- Conventions. A function that changes shared memory takes the state and returns the new one. A
-- semaphore is its count: `sem_wait` takes one off, `sem_post` adds one, and a `sem_wait` is taken
-- to return only when the count is positive, so that a section under a mutex is one step. The
-- outcome of each `malloc`, `calloc` and `fork`, the clock, the random numbers and what a buffer on
-- the stack held before are arguments. SHA-256 comes from OpenSSL and is a parameter; where its
-- length matters, 32 bytes at least are assumed. A `float` is its 32-bit pattern, and its arithmetic
-- is a parameter. `unsigned int` wraps around at 2 ^ 32; `int` and `time_t` are integers without a
-- bound, since their overflow is undefined, and are written to memory in two's complement. The
-- array of the pool has exactly `tx_pool_size` entries and is a list.
--   The pipe is the list of the bytes that the reader will get, and a list of the outcomes of its
-- calls of `read`: `got n` lets `n + 1` bytes through at most. The reading returns `none` while it
-- waits. A `write` has an outcome too, and the value of the flag to terminate that is read before it.
-- What an earlier run has left in a segment of shared memory is an argument of
-- `init_ipc_resources`. The sizes of structures are those of a 64-bit Linux.
--   In `System.Steps` a call is one step, and there is one validator: a generator adds a
-- transaction, a miner selects some or gives some back, the validator ages the pool or processes any
-- block that its reader lets through. In `Interleaving.Steps` a section under a mutex is one step, or a
-- test that reads the ledger without it, and any number of validators take steps in any order; the
-- pool may be changed in any way between two of them. In `Interleaving.Whole` the pool is changed only by
-- what generators, validators and the threads of the miner do in their sections. In
-- `Controller.Signals` the steps are the statements of the loop of `controller_main`, and a signal can
-- come between any two.
--   An entry that is written past the end of the ledger's array lies over the transactions of the first
-- blocks; what these are then is an argument of `append_block`, in `Memory.past_end`. A write past the end
-- of the segment is taken to do nothing more, though it may end the process. In `Validator.Turn` what
-- other processes do between two turns, the validators that it forks included, is an argument; what they do
-- within one is the subject of `Interleaving`. In `Miner.Main` the rest of a round counts as one step of a
-- thread, which may be blocked in it for as long as others let it wait.
--
-- Fuel. The loop of `proof_of_work` has as much fuel as `POW_MAX_OPS`, 10000000. Every round raises
-- the nonce by one from 0, and the loop ends when it reaches that number, so that the fuel is never
-- what ends the search. The reading needs no fuel: it takes a call off the list each time. In the
-- theorems on delivery as many calls bring bytes as the message is long, which is enough, since each
-- brings one at least.
--   The turns of a validator come as a list; in the theorem on its end the flag to terminate is set at
-- the head of one of them, which is enough. The end of `miner_main` is a bound on steps.
--
-- Not modelled. What sleeps in the loops, the messages of `perror`, and the seeds of the random numbers:
-- these are calls of the system only. The delivery of signals to the generator and the statistics
-- process, which is a flag there or nothing at all.
-- The log lines of the other files, which are output only. An entry of the ledger holds its transactions
-- in the model; their places in the segment are computed in `Controller.Layout`.
pub mod Base
pub mod Data
pub mod Pow
pub mod Pool
pub mod TxGen
pub mod Miner
pub mod Validator
pub mod Wire
pub mod Statistics
pub mod System
pub mod Interleaving
pub mod Controller
pub mod Logger
mod Tests
