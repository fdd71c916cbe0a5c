-- ===== src/Tests/Fixtures.antt =====
-- Small inputs: a digest in place of SHA-256, transactions, pools, a ledger and the blocks for it.
use dei_chain.Base.{
  Bool, ℕ, ◌+◌, ◌%◌, ◌≡◌, refl, true, false, none, some, List, [], ◌∷◌, ◌++◌, ◌==◌, if◌then◌else◌,
  replicate, length,
}
use dei_chain.Base.Int.{pos, ◌+ℤ◌, ◌-ℤ◌}
use dei_chain.Base.Arrays.{
  word_bytes, pattern_of, bytes_eq, c_string, strcmp_eq, strlen, integer_of, bytes_word,
}
use dei_chain.Base.Text.{codes, snprintf, decimal}
use dei_chain.Data.{
  Transaction, TransactionBlock, TransactionPoolEntry, TransactionPool, BlockchainEntry,
  BlockchainLedger, Config,
}
use dei_chain.Pow.Serialize.{
  serialized, transactions_data, transaction_bytes, transactions_bytes, buffer_size,
}
use dei_chain.Pow.Hash.{compute_sha256, hex_string}
use dei_chain.Pow.Difficulty.{check_difficulty}
use dei_chain.Pow.Search.{max_reward, largest_reward, verify_nonce, proof_of_work}
use dei_chain.Pool.Entries.{
  count_occupied, find_id, mark_available, update_first, readmit_all, mentions, occupancy_of,
  first_empty,
}
use dei_chain.Pool.Counting.{live}
use dei_chain.Pool.Ids.{slots}
use dei_chain.TxGen.Add.{add_transaction_to_pool}
use dei_chain.TxGen.Generate.{generate_transaction, transaction_name}
use dei_chain.TxGen.Loop.{txgen_loop}
use dei_chain.Miner.Select.{select_transactions}
use dei_chain.Miner.Block.{create_block, block_name, return_to_pool}
use dei_chain.Miner.Round.{Outcomes, mine, miner_round}
use dei_chain.Validator.Ledger.{
  initial_hash, latest_hash, add_block_to_ledger, write_block, overwritten, append_block,
}
use dei_chain.Validator.Check.{Memory, validate_block}
use dei_chain.Validator.Remove.{remove_transactions_from_pool, return_transactions_to_pool}
use dei_chain.Validator.Process.{Shared, process_block, statistics_message}
use dei_chain.Validator.Age.{age_transaction_pool}
use dei_chain.Validator.Manage.{manage_validators, child_terminates}
use dei_chain.Validator.Round.{validator_round}
use dei_chain.Validator.Turn.{after_select, validator_turn, validator_turns}
use dei_chain.Interleaving.Steps.{advance, moved, advances}
use dei_chain.Interleaving.Miners.{miner_step, settled}
use dei_chain.Interleaving.Whole.{validator_goes, miner_goes}
use dei_chain.Miner.Main.Steps.{thread_step, join, main_step, woken, miner_signal_handler}
use dei_chain.Miner.Main.Whole.{miner_begins, miner_ends}
use dei_chain.Statistics.Whole.{statistics_begins, statistics_ends, statistics_returns}
use dei_chain.System.Bag.{history}
use dei_chain.Validator.Main.{validator_loop, at_end, validator_main}
use dei_chain.Miner.Thread.{block_round, selected_round, selecting_round, thread_round}
use dei_chain.Logger.Log.{
  init_logger, print, vsprintf, logged, log_message, log_atomic_messages, prefixed,
  log_miner_message, log_validator_message,
}
use dei_chain.Logger.LogLaws.{call, calls}
use dei_chain.Statistics.Loop.{statistics_loop, statistics_main}
use dei_chain.Wire.Read.{read_loop, read_fully}
use dei_chain.Wire.Parse.{
  read_field, int_of, time_of, transaction_of, transactions_from, in_range, read_transactions,
  read_block, read_message,
}
use dei_chain.Wire.Send.{chunks, send_chunks, send_block_to_validator}
use dei_chain.Controller.Start.{read_config, init_ipc_resources}
use dei_chain.Controller.Signals.{signal_handler, deliver, step, steps}
use dei_chain.Statistics.Record.{
  process_message, update_miner, process_messages, totals, totals_from,
}

-- What a run of the code computes with.
unfoldable pub code : ℕ
unfolding mine miner_round word_bytes pattern_of bytes_eq c_string strcmp_eq strlen snprintf decimal
    serialized transactions_data transaction_bytes transactions_bytes buffer_size compute_sha256
    hex_string check_difficulty max_reward largest_reward verify_nonce proof_of_work count_occupied
    find_id mark_available update_first readmit_all mentions occupancy_of first_empty live slots
    add_transaction_to_pool generate_transaction select_transactions create_block block_name
    return_to_pool latest_hash add_block_to_ledger validate_block remove_transactions_from_pool
    return_transactions_to_pool process_block statistics_message age_transaction_pool
    manage_validators process_message update_miner process_messages totals totals_from ◌+ℤ◌ ◌-ℤ◌
    validator_round read_loop read_fully read_field int_of time_of transaction_of transactions_from
    in_range read_transactions read_block read_message chunks send_chunks send_block_to_validator
    miner_step settled validator_goes miner_goes thread_step join main_step miner_begins miner_ends
    statistics_begins statistics_ends statistics_returns woken miner_signal_handler history
    validator_loop at_end validator_main txgen_loop transaction_name after_select validator_turn
    validator_turns advance moved advances write_block overwritten append_block block_round
    selected_round selecting_round thread_round init_logger print vsprintf logged log_message
    log_atomic_messages prefixed log_miner_message log_validator_message call calls statistics_loop
    statistics_main child_terminates read_config integer_of bytes_word init_ipc_resources
    signal_handler deliver step steps
code = 0

-- A digest of 32 bytes; every fourth sum of the bytes gives a hash that passes.
abbrev pub byte_sum : List ℕ → ℕ
byte_sum [] = 0
byte_sum (b ∷ bs) = b + byte_sum bs

abbrev pub digest : List ℕ → List ℕ
digest bytes = (if byte_sum bytes % 4 == 0 then 0 else 17) ∷ replicate 31 (byte_sum bytes % 256)

pub length-digest : (bytes : List ℕ) → length (digest bytes) ≡ 32
length-digest bytes = refl

abbrev pub tx : ℕ → Transaction
tx n = record {
  tx_id = codes "TX-9-" ++ (b'0' + n) ∷ replicate 10 0;
  reward = pos 1;
  value = 7;
  timestamp = pos 1000;
}

abbrev pub free_entry : TransactionPoolEntry
free_entry = record {
  transaction = record (tx 0) { tx_id = replicate 16 0 };
  empty = true;
  age = 0;
}

abbrev pub entry : ℕ → TransactionPoolEntry
entry n = record { transaction = tx n; empty = false; age = 3 }

abbrev pub pool_of : List TransactionPoolEntry → TransactionPool
pool_of es = record {
  current_block_id = 0;
  occupancy = 50;
  mutex = 1;
  work_notification_sem = 0;
  transactions_list = es;
}

-- Two transactions and two free entries.
abbrev pub pool : TransactionPool
pool = pool_of (entry 1 ∷ free_entry ∷ entry 2 ∷ free_entry ∷ [])

abbrev pub config : Config
config = record {
  num_miners = 2;
  tx_pool_size = 4;
  transactions_per_block = 2;
  blockchain_blocks = 3;
}

abbrev pub blank_block : TransactionBlock
blank_block = record {
  txb_id = replicate 64 0;
  previous_block_hash = replicate 65 0;
  timestamp = pos 0;
  transactions = none;
  nonce = 0;
  transactions_per_block = pos 0;
}

abbrev pub blank_entry : BlockchainEntry
blank_entry = record { block = blank_block; valid = false }

abbrev pub ledger : BlockchainLedger
ledger = record { num_blocks = 0; mutex = 1; blocks = blank_entry ∷ blank_entry ∷ blank_entry ∷ [] }

-- The block of miner 1 for the empty ledger, at the given time and before its nonce is sought.
abbrev pub block_at : ℕ → TransactionBlock
block_at now = record blank_block {
  txb_id = codes "BLOCK-1-0" ++ replicate 55 0;
  previous_block_hash = initial_hash;
  timestamp = pos now;
  transactions = some (tx 1 ∷ tx 2 ∷ []);
  transactions_per_block = pos 2;
}

-- The same with a nonce.
abbrev pub mined_at : ℕ → ℕ → TransactionBlock
mined_at now n = record (block_at now) { nonce = n }

abbrev pub memory : Memory
memory = record {
  nonce_allocated = true;
  nonce_buffer = [];
  last_allocated = true;
  last_buffer = [];
  positions_allocated = true;
  past_end = λ i ts. [];
}

abbrev pub shared : Shared
shared = record { pool = pool; ledger = ledger }

-- A round in which everything succeeds; the sending does if the argument says so.
abbrev pub outcomes : Bool → Outcomes
outcomes sent = record {
  selected_allocated = true;
  indices_allocated = true;
  ids_copied = true;
  block_allocated = true;
  hash_allocated = true;
  hash_buffer = [];
  now = pos 1000;
  retry_now = pos 1001;
  pow_allocated = λ _. true;
  pow_buffer = [];
  retry_allocated = λ _. true;
  retry_buffer = [];
  sent = sent;
}
