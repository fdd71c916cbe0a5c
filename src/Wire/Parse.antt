-- ===== src/Wire/Parse.antt =====
-- The reading of a block in `validator_main` of validator.c.
use dei_chain.Base.{
  ℕ, zero, suc, ◌-◌, ◌*◌, ◌^◌, Bool, not, ◌&&◌, ◌==◌, ◌||◌, Option, none, some, List, [], ◌∷◌,
  length, take, drop, set, if◌then◌else◌,
}
use dei_chain.Base.Int.{ℤ, pos, pos_part, leb_ℤ, ltb_ℤ, eqb_ℤ}
use dei_chain.Base.Arrays.{bytes_word, integer_of}
use dei_chain.Data.{Transaction, TransactionBlock, Config, txb_id_len, hash_size, tx_id_len}
use dei_chain.Pow.Serialize.{sizeof_transaction}
use dei_chain.Wire.Read.{got, Fd, read_fully, arrived}

-- A read in progress: `none` while it waits; then its value, or `none` for `read_success = 0`, and
-- the pipe.
abbrev pub Reading : Type 0 → Type 0
Reading A = Fd → Option (Option A × Fd)

infixl 5 ◌>>=◌
-- The tests `if (read_success && ...)`: what follows a failure is skipped.
abbrev pub ◌>>=◌ : {A B : Type 0} → Reading A → (A → Reading B) → Reading B
◌>>=◌ m f fd = elim (m fd) [
  | none ↦ none
  | some (none, fd') ↦ some (none, fd')
  | some (some a, fd') ↦ f a fd'
]

abbrev pub done : {A : Type 0} → A → Reading A
done a fd = some (some a, fd)

abbrev pub failing : {A : Type 0} → Reading A
failing fd = some (none, fd)

-- A field of `size` bytes.
unfoldable pub read_field : ℕ → Reading (List ℕ)
read_field size fd = elim (read_fully size fd) [
  | none ↦ none
  | some (n, bytes, fd') ↦ if eqb_ℤ n (pos size) then some (some bytes, fd') else some (none, fd')
]

unfoldable pub int_of : List ℕ → ℤ
int_of bytes = integer_of (2 ^ 32) (bytes_word bytes)

unfoldable pub time_of : List ℕ → ℤ
time_of bytes = integer_of (2 ^ 64) (bytes_word bytes)

-- A `Transaction` in memory.
unfoldable pub transaction_of : List ℕ → Transaction
unfolding int_of time_of
transaction_of bytes =
    let at_reward = drop tx_id_len bytes in
    let at_value = drop 4 at_reward in
    let at_timestamp = drop 4 at_value in
    record {
      tx_id = take tx_id_len bytes;
      reward = int_of (take 4 at_reward);
      value = bytes_word (take 4 at_value);
      timestamp = time_of (take 8 at_timestamp);
    }

unfoldable pub transactions_from : ℕ → List ℕ → List Transaction
unfolding transaction_of
transactions_from zero bytes = []
transactions_from (suc n) bytes =
    transaction_of (take sizeof_transaction bytes)
    ∷ transactions_from n (drop sizeof_transaction bytes)

-- The test of `transactions_per_block` against the configuration.
unfoldable pub in_range : ℤ → Config → Bool
in_range n config = not (leb_ℤ n (pos 0) || ltb_ℤ (pos config.transactions_per_block) n)

-- From the test of the count on. `allocated` is the outcome of the `malloc`.
unfoldable pub read_transactions :
    Bool → Config → ℤ → List ℕ → List ℕ → List ℕ → List ℕ → Reading TransactionBlock
unfolding read_field in_range time_of transactions_from
read_transactions allocated config count txb_id previous_hash timestamp nonce =
    if in_range count config && allocated
    then (do
      bytes ← read_field (pos_part count * sizeof_transaction)
      done (record {
        txb_id = set txb_id (txb_id_len - 1) 0;
        previous_block_hash = set previous_hash (hash_size - 1) 0;
        timestamp = time_of timestamp;
        transactions = some (transactions_from (pos_part count) bytes);
        nonce = bytes_word nonce;
        transactions_per_block = count;
      }))
    else failing

-- The fields behind the miner's number.
unfoldable pub read_block : Bool → Config → Reading TransactionBlock
unfolding read_field int_of read_transactions
read_block allocated config = do
  txb_id ← read_field txb_id_len
  previous_hash ← read_field hash_size
  timestamp ← read_field 8
  nonce ← read_field 4
  count ← read_field 4
  read_transactions allocated config (int_of count) txb_id previous_hash timestamp nonce

-- One `read` for the miner's number. If it gives fewer than 4 bytes they are lost, and no block is
-- read. The value is the miner's number and the block, if one was read.
unfoldable pub read_message : Bool → Config → Reading (ℤ × TransactionBlock)
read_message allocated config fd = elim fd.calls [
  | [] ↦ none
  | got n ∷ calls ↦
      let bytes = arrived 4 n fd.stream in
      let fd' : Fd = record { stream = drop (length bytes) fd.stream; calls = calls } in
      if length bytes == 4
      then (do b ← read_block allocated config; done (int_of bytes, b)) fd'
      else some (none, fd')
  | call ∷ calls ↦ some (none, record fd { calls = calls })
]
