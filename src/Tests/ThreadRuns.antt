-- ===== src/Tests/ThreadRuns.antt =====
-- Rounds of a miner's thread, and two miners at the pipe, at concrete inputs.
use mathlib.Core.List.{Perm}
use dei_chain.Base.{
  ℕ, ◌⊎◌, ◌≡◌, ◌≢◌, refl, true, false, some, List, [], ◌∷◌, ◌++◌, replicate, take, arith,
}
use dei_chain.Base.Int.{pos}
use dei_chain.Data.{Transaction, TransactionBlock}
use dei_chain.Miner.Thread.{Environment, thread_round, transaction_array, index_array, id_copies}
use dei_chain.Miner.ThreadLaws.{IsShort, thread_round-perm}
use dei_chain.Wire.Read.{got}
use dei_chain.Wire.Interleaved.{number, interleaved_message_corrupted}
use dei_chain.Tests.Fixtures.{
  code, digest, pool, pool_of, entry, config, ledger, mined_at, outcomes,
}
use dei_chain.Tests.WireRuns.{writes}

abbrev quiet : Environment
quiet = record {
  outcomes = outcomes true;
  notified = true;
  flag = λ _. false;
  copies = 2;
  opened = true;
  writes = writes;
}

-- The second `strdup` fails.
abbrev one_copy : Environment
one_copy = record quiet { copies = 1 }

one_copy_run :
    (thread_round digest one_copy 1 config ledger pool).freed
    ≡ index_array ∷ id_copies 1 ++ transaction_array ∷ []
unfolding code
one_copy_run = refl

thread_round-perm_example :
    let r = thread_round digest one_copy 1 config ledger pool in
    Perm r.allocated r.freed ⊎ (Perm (index_array ∷ r.allocated) r.freed × IsShort 2 pool)
thread_round-perm_example = thread_round-perm digest one_copy 1 config ledger pool

-- Both entries carry one ID.
doubled_run :
    (thread_round digest quiet 1 config ledger (pool_of (entry 1 ∷ entry 1 ∷ []))).freed
    ≡ transaction_array ∷ index_array ∷ index_array ∷ []
unfolding code
doubled_run = refl

abbrev zeros : Transaction
zeros = record { tx_id = replicate 16 0; reward = pos 0; value = 0; timestamp = pos 0 }

-- What stands behind the two numbers: the rest of an ID, a hash, a time, a nonce, the count 2, and
-- two transactions.
abbrev rest : List ℕ
rest = replicate 137 0 ++ 2 ∷ replicate 67 0

abbrev mixed : TransactionBlock
mixed = record {
  txb_id = 2 ∷ replicate 63 0;
  previous_block_hash = replicate 65 0;
  timestamp = pos 0;
  transactions = some (zeros ∷ zeros ∷ []);
  nonce = 0;
  transactions_per_block = pos 2;
}

interleaved_message_corrupted_example :
    (pos 1 ≡ pos 1) × (take 4 mixed.txb_id ≡ number 2) × (mixed ≢ mined_at 1000 3)
unfolding code
interleaved_message_corrupted_example =
    interleaved_message_corrupted true 3 1 2 config (mined_at 1000 3) mixed rest
      (replicate 6 (got 99)) (pos 1) (record { stream = []; calls = [] }) (omega arith)
      (omega arith) (omega arith) refl refl
