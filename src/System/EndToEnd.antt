-- ===== src/System/EndToEnd.antt =====
-- From the pool to the ledger: a block is mined, sent, read, accepted and added.
use dei_chain.Base.{
  ℕ, ◌^◌, ◌≤◌, ◌<◌, ◌≡◌, refl, ap, ◌∙◌, true, some, List, [], ◌∷◌, ◌++◌, length, arith,
}
use dei_chain.Base.Int.{ℤ, pos}
use dei_chain.Base.Arrays.{strlen, Fits}
use dei_chain.Data.{
  TransactionBlock, TransactionPool, BlockchainEntry, BlockchainLedger, StatisticsMessage, Config,
}
use dei_chain.Pow.Hash.{digest_length}
use dei_chain.Pool.Counting.{live}
use dei_chain.Miner.Round.{Outcomes, miner_round}
use dei_chain.Miner.RoundLaws.{miner_round-some}
use dei_chain.Validator.Ledger.{ledger_entry, add_block_to_ledger}
use dei_chain.Validator.Check.{validate_block}
use dei_chain.Validator.Chain.{chain, IsLedger}
use dei_chain.Validator.Keep.{stored, chain-add_block_to_ledger, process_block-ledger}
use dei_chain.Validator.Process.{Shared, statistics_message, process_block}
use dei_chain.Validator.Round.{Inputs, validator_round}
use dei_chain.Wire.Read.{ReadOutcome, got, Fd}
use dei_chain.Wire.ReadLaws.{gots}
use dei_chain.Wire.Parse.{read_message}
use dei_chain.Wire.Send.{Write, send_block_to_validator}
use dei_chain.Wire.Delivery.{read_message-send}
use dei_chain.System.Sendable.{AreTransactions, miner_round-IsSendable}

module _ (sha256 : List ℕ → List ℕ) (float_add : ℕ → ℕ → ℕ) where
  validator_round-block :
      (inputs : Inputs) (config : Config) (fd fd' : Fd) (s : Shared) (miner_id : ℤ)
      (b : TransactionBlock)
      → read_message inputs.transactions_allocated config fd ≡ some (some (miner_id, b), fd')
      → validator_round sha256 float_add inputs config fd s
        ≡ some (
          some (
              statistics_message float_add miner_id
                (process_block sha256 inputs.memory b config s).0
                b
                inputs.elapsed_time),
          (process_block sha256 inputs.memory b config s).1,
          fd',
        )
  unfolding validator_round
  validator_round-block inputs config fd fd' s miner_id b read = rw (read, validator_round) refl

  -- A miner's round over a well-formed ledger with room sends a block; the block is written into the
  -- pipe whole, and a round of the validator reads the pipe. Then the validator's round ends, the
  -- ledger has this block behind those it had, and what stood behind the block in the pipe stays there.
  -- Neither pool nor ledger changes in between. The pool's mutex was free, no occupied entry had an
  -- empty ID, and its transactions, the two times, the miner's number and the number of transactions
  -- per block, which is not 0, hold what their places in memory can hold; the read of the miner's
  -- number gets its 4 bytes at once, and as many reads bring bytes as the message has; the
  -- allocations of the validator succeed, and the miner's for the latest hash; SHA-256 gives at least
  -- its 32 bytes.
  pub mined_block_committed :
      (o : Outcomes) (miner_id n : ℕ) (config : Config) (ledger : BlockchainLedger)
      (pool : TransactionPool) (b : TransactionBlock) (writes : ℕ → Write) (inputs : Inputs)
      (sent rest : List ℕ) (calls : List ReadOutcome)
      → ((bytes : List ℕ) → digest_length ≤ length (sha256 bytes))
      → IsLedger sha256 config ledger
      → ledger.num_blocks < config.blockchain_blocks
      → pool.mutex ≡ 1
      → ((id : List ℕ) → strlen id ≡ 0 → live id pool.transactions_list ≡ 0)
      → AreTransactions pool.transactions_list
      → Fits (2 ^ 64) o.now
      → Fits (2 ^ 64) o.retry_now
      → 0 < config.transactions_per_block
      → config.transactions_per_block < 2 ^ 31
      → o.hash_allocated ≡ true
      → inputs.memory.nonce_allocated ≡ true
      → inputs.memory.last_allocated ≡ true
      → inputs.memory.positions_allocated ≡ true
      → inputs.transactions_allocated ≡ true
      → (miner_round sha256 o miner_id config ledger pool).0 ≡ some b
      → miner_id < 2 ^ 31
      → 3 ≤ n
      → send_block_to_validator true writes miner_id b ≡ (pos 0, sent)
      → length sent ≤ gots calls
      → (message : StatisticsMessage) × (s' : Shared) × (fd' : Fd) × (validator_round sha256
            float_add inputs config
            (record { stream = sent ++ rest; calls = got n ∷ calls })
            (record {
              pool = (miner_round sha256 o miner_id config ledger pool).1;
              ledger = ledger;
            })
          ≡ some (some message, s', fd'))
        × (fd'.stream ≡ rest)
        × ((e : BlockchainEntry) × (chain s'.ledger ≡ chain ledger ++ e ∷ []) × (e.block ≡ b))
  mined_block_committed o miner_id n config ledger pool b writes inputs sent rest calls digest h
        space free named fit now retry_now some_few few m₀ m₁ m₂ m₃ m₄ mined small enough ok gets =
      let room : ledger.num_blocks ≤ length ledger.blocks = omega (arith, h.bounded, h.room) in
      let (ts, sendable) =
        miner_round-IsSendable sha256 o miner_id config ledger pool b digest room free fit now
          retry_now some_few few m₀ mined in
      let pool' = (miner_round sha256 o miner_id config ledger pool).1 in
      let fd : Fd = record { stream = sent ++ rest; calls = got n ∷ calls } in
      let s : Shared = record { pool = pool'; ledger = ledger } in
      let valid : (validate_block sha256 inputs.memory b ledger pool').0 ≡ true =
        miner_round-some sha256 o miner_id config ledger pool inputs.memory b digest room free named
          m₀ m₁ m₂ m₃ mined in
      let (calls', read) =
        read_message-send writes miner_id n config b ts sent rest calls sendable small enough ok
          gets in
      let added : (process_block sha256 inputs.memory b config s).1.ledger
          ≡ (add_block_to_ledger b ledger config).1 =
        process_block-ledger sha256 inputs.memory b config s ∙ rw valid refl in
      (
        _,
        (process_block sha256 inputs.memory b config s).1,
        record { stream = rest; calls = calls' },
        validator_round-block inputs config fd _ s (pos miner_id) b
            (ap (λ a. read_message a config fd) m₄ ∙ read),
        refl,
        (
          ledger_entry b config,
          ap chain added ∙ (chain-add_block_to_ledger sha256 b ledger config space h.room).0,
          stored sha256 config b ts sendable.built.points sendable.few_transactions,
        ),
      )
