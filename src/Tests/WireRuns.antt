-- ===== src/Tests/WireRuns.antt =====
-- A block on the pipe, and the round of the validator that reads it.
use dei_chain.Base.{
  ℕ, ◌+◌, ◌≡◌, refl, true, false, some, List, [], ◌∷◌, ◌++◌, replicate, length, get_elem?, arith,
}
use dei_chain.Base.Int.{pos, negsuc}
use dei_chain.Data.{StatisticsMessage, BlockchainEntry}
use dei_chain.Pow.Layout.{IsTransaction}
use dei_chain.Miner.Round.{miner_round}
use dei_chain.Validator.Chain.{chain}
use dei_chain.Validator.Process.{Shared, process_block}
use dei_chain.Validator.Round.{Inputs, validator_round}
use dei_chain.Wire.Read.{ReadOutcome, got, again, Fd}
use dei_chain.Wire.Parse.{read_message}
use dei_chain.Wire.Send.{Write, chunks, send_block_to_validator}
use dei_chain.Wire.SendLaws.{Sends, send_block_to_validator_lem}
use dei_chain.Wire.Sendable.{IsSendable}
use dei_chain.Wire.Delivery.{read_message-send}
use dei_chain.System.Sendable.{AreTransactions}
use dei_chain.System.EndToEnd.{mined_block_committed}
use dei_chain.Tests.Fixtures.{
  free_entry, code, digest, length-digest, tx, pool, config, ledger, mined_at, memory, shared,
  outcomes,
}
use dei_chain.Tests.PowRuns.{mined-IsBlock, tx_fits}
use dei_chain.Tests.SystemRuns.{pool-named}
use dei_chain.Tests.RoundRuns.{round_sends}
use dei_chain.Tests.ValidatorRuns.{ledger-IsLedger}

-- The seven writes, each of them whole.
abbrev pub writes : ℕ → Write
writes i = record { terminate = false; written = get_elem? (4 ∷ 64 ∷ 65 ∷ 8 ∷ 4 ∷ 4 ∷ 64 ∷ []) i }

-- The second write takes 10 bytes only.
abbrev short_writes : ℕ → Write
short_writes i = record { terminate = false; written = get_elem? (4 ∷ 10 ∷ []) i }

abbrev message_bytes : List ℕ
message_bytes = (send_block_to_validator true writes 1 (mined_at 1000 3)).1

-- The text stops inside the second field.
short_run :
    ((send_block_to_validator true short_writes 1 (mined_at 1000 3)).0 ≡ negsuc 0)
    × (length (send_block_to_validator true short_writes 1 (mined_at 1000 3)).1 ≡ 14)
unfolding code
short_run = (refl, refl)

send_block_to_validator_lem_example :
    Sends
      (chunks 1 (mined_at 1000 3))
      (send_block_to_validator true short_writes 1 (mined_at 1000 3))
send_block_to_validator_lem_example =
    send_block_to_validator_lem true short_writes 1 (mined_at 1000 3)

mined-IsSendable : IsSendable config (mined_at 1000 3) (tx 1 ∷ tx 2 ∷ [])
mined-IsSendable = record {
  built = mined-IsBlock;
  id_ends = refl;
  hash_ends = refl;
  some_transactions = omega arith;
  few_transactions = omega arith;
}

-- Byte by byte.
abbrev slow : List ReadOutcome
slow = replicate 213 (got 0)

-- Something else stands behind the block.
read_message-send_example :
    (calls : List ReadOutcome) × (read_message true config
        (record { stream = message_bytes ++ 5 ∷ []; calls = got 3 ∷ slow })
      ≡ some (some (pos 1, mined_at 1000 3), record { stream = 5 ∷ []; calls = calls }))
unfolding code
read_message-send_example =
    read_message-send writes 1 3 config (mined_at 1000 3) (tx 1 ∷ tx 2 ∷ []) message_bytes (5 ∷ [])
      slow mined-IsSendable (omega arith) (omega arith) refl (omega arith)

abbrev pub inputs : Inputs
inputs = record { memory = memory; transactions_allocated = true; elapsed_time = 5 }

-- The block in pieces of up to 50 bytes, with a call that finds nothing.
abbrev pub arriving : Fd
arriving = record { stream = message_bytes; calls = got 3 ∷ again ∷ replicate 9 (got 49) }

abbrev after : Shared
after = (process_block digest memory (mined_at 1000 3) config shared).1

pool-AreTransactions : AreTransactions pool.transactions_list
pool-AreTransactions =
    let free : IsTransaction free_entry.transaction = record {
      id_size = refl;
      reward_fits = omega arith;
      value_fits = omega arith;
      time_fits = omega arith;
    } in
    (tx_fits 1, (free, (tx_fits 2, (free, tt))))

mined_block_committed_example :
    (message : StatisticsMessage) × (s' : Shared) × (fd' : Fd) × (validator_round digest
        (λ a b. a + b)
        inputs
        config
        (record { stream = message_bytes ++ []; calls = got 3 ∷ slow })
        (record {
          pool = (miner_round digest (outcomes true) 1 config ledger pool).1;
          ledger = ledger;
        })
      ≡ some (some message, s', fd'))
    × (fd'.stream ≡ [])
    × ((e : BlockchainEntry) × (chain s'.ledger ≡ chain ledger ++ e ∷ [])
        × (e.block ≡ mined_at 1000 3))
unfolding code
mined_block_committed_example =
    mined_block_committed digest (λ a b. a + b) (outcomes true) 1 3 config ledger pool
      (mined_at 1000 3) writes inputs message_bytes [] slow
      (λ bytes. omega (arith, length-digest bytes)) ledger-IsLedger (omega arith) refl pool-named
      pool-AreTransactions (omega arith) (omega arith) (omega arith) (omega arith) refl refl refl
      refl refl round_sends (omega arith) (omega arith) refl (omega arith)
