-- ===== src/Pow/Layout.antt =====
-- Blocks as the program builds them: every field fills its place in memory and holds a value that
-- its type can hold, and the transaction pointer leads to as many transactions as the count says.
use dei_chain.Base.{
  ℕ, ◌*◌, ◌^◌, ◌<◌, ◌≡◌, refl, some, List, [], ◌∷◌, length, length-append, All, arith, take-all, ap,
  ◌++◌,
}
use dei_chain.Base.Int.{pos}
use dei_chain.Base.Arrays.{Fits, word_bytes, pattern_of, length-word_bytes}
use dei_chain.Data.{Transaction, TransactionBlock, tx_id_len, txb_id_len, hash_size}
use dei_chain.Pow.Serialize.{
  transaction_bytes, transactions_bytes, transactions_data, sizeof_transaction, serialized,
  buffer_size,
}

pub record IsTransaction (t : Transaction) : Type 0 where
  pub id_size : length t.tx_id ≡ tx_id_len
  pub reward_fits : Fits (2 ^ 32) t.reward
  pub value_fits : t.value < 2 ^ 32
  pub time_fits : Fits (2 ^ 64) t.timestamp

pub record IsBlock (b : TransactionBlock) (ts : List Transaction) : Type 0 where
  pub id_size : length b.txb_id ≡ txb_id_len
  pub hash_fits : length b.previous_block_hash ≡ hash_size
  pub time_fits : Fits (2 ^ 64) b.timestamp
  pub nonce_fits : b.nonce < 2 ^ 32
  pub points : b.transactions ≡ some ts
  pub counted : b.transactions_per_block ≡ pos (length ts)
  pub count_fits : length ts < 2 ^ 31
  pub each : All IsTransaction ts

pub length-transaction_bytes :
    (t : Transaction) → IsTransaction t → length (transaction_bytes t) ≡ sizeof_transaction
unfolding transaction_bytes
length-transaction_bytes t h =
    let reward : List ℕ = word_bytes 4 (pattern_of (2 ^ 32) t.reward) in
    let value : List ℕ = word_bytes 4 t.value in
    let time : List ℕ = word_bytes 8 (pattern_of (2 ^ 64) t.timestamp) in
    omega (
      arith,
      length-append t.tx_id (reward ++ (value ++ time)),
      length-append reward (value ++ time),
      length-append value time,
      length-word_bytes 4 (pattern_of (2 ^ 32) t.reward),
      length-word_bytes 4 t.value,
      length-word_bytes 8 (pattern_of (2 ^ 64) t.timestamp),
    )

pub length-transactions_bytes :
    (ts : List Transaction)
    → All IsTransaction ts
    → length (transactions_bytes ts) ≡ sizeof_transaction * length ts
unfolding transactions_bytes
length-transactions_bytes [] h = refl
length-transactions_bytes (t ∷ ts) h = omega (
  arith,
  length-append (transaction_bytes t) (transactions_bytes ts),
  length-transaction_bytes t h.0,
  length-transactions_bytes ts h.1,
)

pub transactions_data_lem :
    (b : TransactionBlock) (ts : List Transaction)
    → IsBlock b ts
    → transactions_data b ≡ transactions_bytes ts
unfolding transactions_data
transactions_data_lem b ts h =
    rw (h.points, h.counted) (ap transactions_bytes (take-all (length ts) ts refl))

-- The bytes of a block as the program builds it are as many as the buffer of `serialize_block` has,
-- so that no write passes its end.
length-serialized :
    (b : TransactionBlock) (ts : List Transaction)
    → IsBlock b ts
    → length (serialized b) ≡ buffer_size b
unfolding serialized buffer_size
length-serialized b ts h =
    rw (transactions_data_lem b ts h, h.counted)
      (omega (
        arith,
        length-append {0},
        length-word_bytes 8 (pattern_of (2 ^ 64) b.timestamp),
        length-word_bytes 4 b.nonce,
        length-word_bytes 4 (pattern_of (2 ^ 32) (pos (length ts))),
        length-transactions_bytes ts h.each,
        h.id_size,
        h.hash_fits,
      ))
