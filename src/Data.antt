-- ===== src/Data.antt =====
-- The shared structures of data_structures.h: transactions, blocks, the pool, the ledger, the
-- configuration and the statistics message.
--
-- A `char` array is the list of its bytes. A `float` is its 32-bit pattern. `int` and `time_t` are
-- integers with no bound; a count or an index that the code only moves up from zero is a natural
-- number. An `int` that is used as a flag is a Boolean. A pointer to transactions is an `Option`.
use dei_chain.Base.{ℕ, ◌+◌, ◌-◌, Bool, Option, List}
use dei_chain.Base.Int.{ℤ}

-- `TX_ID_LEN`, `TXB_ID_LEN`, `HASH_SIZE`
abbrev pub tx_id_len : ℕ
tx_id_len = 16

abbrev pub txb_id_len : ℕ
txb_id_len = 64

abbrev pub hash_size : ℕ
hash_size = 65

-- `POW_MAX_OPS`
abbrev pub pow_max_ops : ℕ
pow_max_ops = 10000000

pub record Transaction : Type 0 where
  pub tx_id : List ℕ
  pub reward : ℤ
  pub value : ℕ
  pub timestamp : ℤ

pub record TransactionBlock : Type 0 where
  pub txb_id : List ℕ
  pub previous_block_hash : List ℕ
  pub timestamp : ℤ
  pub transactions : Option (List Transaction)
  pub nonce : ℕ
  pub transactions_per_block : ℤ

-- `elapsed_time` is left out: it is processor time, which nothing in the program reads back.
pub record PowResult : Type 0 where
  pub hash : List ℕ
  pub operations : ℕ
  pub error : Bool

pub record TransactionPoolEntry : Type 0 where
  pub transaction : Transaction
  pub empty : Bool
  pub age : ℕ

-- A semaphore is its count.
pub record TransactionPool : Type 0 where
  pub current_block_id : ℕ
  pub occupancy : ℕ
  pub mutex : ℕ
  pub work_notification_sem : ℕ
  pub transactions_list : List TransactionPoolEntry

pub record BlockchainEntry : Type 0 where
  pub block : TransactionBlock
  pub valid : Bool

-- `blocks` is the whole array of the segment, of which the first `num_blocks` entries are in use.
pub record BlockchainLedger : Type 0 where
  pub num_blocks : ℕ
  pub mutex : ℕ
  pub blocks : List BlockchainEntry

pub record StatisticsMessage : Type 0 where
  pub mtype : ℕ
  pub miner_id : ℤ
  pub valid : Bool
  pub elapsed_time : ℕ
  pub transaction_count : ℤ
  pub total_value : ℕ
  pub total_rewards : ℤ

-- The fields are positive once `read_config` has accepted them.
pub record Config : Type 0 where
  pub num_miners : ℕ
  pub tx_pool_size : ℕ
  pub transactions_per_block : ℕ
  pub blockchain_blocks : ℕ

-- `sem_wait` on a semaphore that is not zero: the caller is let through only then.
abbrev pub sem_wait : ℕ → ℕ
sem_wait s = s - 1

abbrev pub sem_post : ℕ → ℕ
sem_post s = s + 1
