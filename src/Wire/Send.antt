-- ===== src/Wire/Send.antt =====
-- `send_block_to_validator` of miner.c: what reaches the pipe, and the result.
use dei_chain.Base.{
  ℕ, ◌+◌, ◌^◌, Bool, Option, none, some, List, [], ◌∷◌, ◌++◌, length, take, ◌==◌, if◌then◌else◌,
}
use dei_chain.Base.Int.{ℤ, pos, negsuc}
use dei_chain.Base.Arrays.{word_bytes, pattern_of}
use dei_chain.Data.{TransactionBlock}
use dei_chain.Pow.Serialize.{transaction_count, transactions_bytes}
use dei_chain.Validator.Ledger.{transactions_of}

-- The arguments of the seven `write`s in order. The pointer to the transactions is never null here.
unfoldable pub chunks : ℕ → TransactionBlock → List (List ℕ)
chunks miner_id b =
    word_bytes 4 (pattern_of (2 ^ 32) (pos miner_id))
    ∷ b.txb_id
    ∷ b.previous_block_hash
    ∷ word_bytes 8 (pattern_of (2 ^ 64) b.timestamp)
    ∷ word_bytes 4 b.nonce
    ∷ word_bytes 4 (pattern_of (2 ^ 32) b.transactions_per_block)
    ∷ transactions_bytes (take (transaction_count b) (transactions_of b))
    ∷ []

-- What happens at a `write`: the flag to terminate as it is read before, and the number of bytes
-- that the kernel takes, or an error.
pub record Write : Type 0 where
  pub terminate : Bool
  pub written : Option ℕ

-- The result of the function and the bytes that went into the pipe, from the write with number `i` on.
unfoldable pub send_chunks : (ℕ → Write) → ℕ → List (List ℕ) → ℤ × List ℕ
send_chunks writes i [] = (pos 0, [])
send_chunks writes i (c ∷ cs) =
    let (result, sent) = send_chunks writes (i + 1) cs in
    if (writes i).terminate then (negsuc 0, []) else elim (writes i).written [
      | none ↦ (negsuc 0, [])
      | some n ↦ if n == length c then (result, c ++ sent) else (negsuc 0, take n c)
    ]

-- `opened` is the outcome of `open`.
unfoldable pub send_block_to_validator : Bool → (ℕ → Write) → ℕ → TransactionBlock → ℤ × List ℕ
unfolding send_chunks
send_block_to_validator opened writes miner_id b =
    if opened then send_chunks writes 0 (chunks miner_id b) else (negsuc 0, [])

-- The bytes of a whole message.
abbrev pub concat : List (List ℕ) → List ℕ
concat [] = []
concat (c ∷ cs) = c ++ concat cs
