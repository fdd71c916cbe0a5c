-- ===== src/Wire/Sendable.antt =====
-- A block as the program sends it, and the reading of its fields from the pipe.
use mathlib.Core.List.{append-nil}
use dei_chain.Base.{
  ℕ, ◌-◌, ◌*◌, ◌^◌, ◌≤◌, ◌<◌, ◌≡◌, refl, sym, ap, ◌∙◌, true, some, List, [], ◌++◌, length, set,
  set-same, arith, get_elem?, subst,
}
use dei_chain.Base.Int.{ℤ, pos}
use dei_chain.Base.Arrays.{
  Fits, word_bytes, pattern_of, bytes_word, bytes_word-word_bytes, length-word_bytes,
}
use dei_chain.Data.{Transaction, TransactionBlock, Config, txb_id_len, hash_size}
use dei_chain.Pow.Serialize.{transactions_bytes, sizeof_transaction}
use dei_chain.Pow.Layout.{IsBlock, length-transactions_bytes}
use dei_chain.Wire.Parse.{
  Reading, ◌>>=◌, done, read_field, int_of, time_of, transactions_from, in_range, read_transactions,
  read_block,
}
use dei_chain.Wire.RoundTrip.{
  Reads, Reads->>=, read_field-Reads, int_of-word_bytes, time_of-word_bytes,
  transactions_from-bytes,
}

-- A block as the program sends it: built, its strings ended by a NUL in the last byte, and a number of
-- transactions that the configuration allows.
pub record IsSendable (config : Config) (b : TransactionBlock) (ts : List Transaction)
    : Type 0 where
  pub built : IsBlock b ts
  pub id_ends : get_elem? b.txb_id (txb_id_len - 1) ≡ some 0
  pub hash_ends : get_elem? b.previous_block_hash (hash_size - 1) ≡ some 0
  pub some_transactions : 0 < length ts
  pub few_transactions : length ts ≤ config.transactions_per_block

-- The fields behind the miner's number.
abbrev pub fields : TransactionBlock → List Transaction → List ℕ
fields b ts =
    b.txb_id
    ++ (b.previous_block_hash
        ++ (word_bytes 8 (pattern_of (2 ^ 64) b.timestamp)
            ++ (word_bytes 4 b.nonce
                ++ (word_bytes 4 (pattern_of (2 ^ 32) b.transactions_per_block)
                    ++ transactions_bytes ts))))

module _ (config : Config) (b : TransactionBlock) (ts : List Transaction)
    (h : IsSendable config b ts) where
  -- The record that is put together is the block.
  rebuilt :
      ◌≡◌ {A = TransactionBlock}
        (record {
          txb_id = set b.txb_id (txb_id_len - 1) 0;
          previous_block_hash = set b.previous_block_hash (hash_size - 1) 0;
          timestamp = b.timestamp;
          transactions = some ts;
          nonce = b.nonce;
          transactions_per_block = pos (length ts);
        })
        b
  rebuilt = λ i. record {
    txb_id = set-same b.txb_id (txb_id_len - 1) 0 h.id_ends i;
    previous_block_hash = set-same b.previous_block_hash (hash_size - 1) 0 h.hash_ends i;
    timestamp = b.timestamp;
    transactions = sym h.built.points i;
    nonce = b.nonce;
    transactions_per_block = sym h.built.counted i;
  }

  in_range-length : in_range (pos (length ts)) config ≡ true
  unfolding in_range
  in_range-length = ground (arith, h.some_transactions, h.few_transactions)

  assembled : List ℕ → List ℕ → List ℕ → TransactionBlock
  assembled timestamp nonce bytes = record {
    txb_id = set b.txb_id (txb_id_len - 1) 0;
    previous_block_hash = set b.previous_block_hash (hash_size - 1) 0;
    timestamp = time_of timestamp;
    transactions = some (transactions_from (length ts) bytes);
    nonce = bytes_word nonce;
    transactions_per_block = pos (length ts);
  }

  opened :
      (timestamp nonce : List ℕ)
      → read_transactions true config
          (pos (length ts))
          b.txb_id
          b.previous_block_hash
          timestamp
          nonce
        ≡ (read_field (length ts * sizeof_transaction) >>= λ bytes.
            done (assembled timestamp nonce bytes))
  unfolding read_transactions assembled
  opened timestamp nonce = rw in_range-length refl

  assembled-eq :
      (timestamp nonce : List ℕ)
      → time_of timestamp ≡ b.timestamp
      → bytes_word nonce ≡ b.nonce
      → assembled timestamp nonce (transactions_bytes ts) ≡ b
  unfolding assembled
  assembled-eq timestamp nonce timed nonced =
      rw (timed, nonced, transactions_from-bytes ts h.built.each) rebuilt

  read_transactions-Reads :
      (count : ℤ) (timestamp nonce : List ℕ)
      → count ≡ pos (length ts)
      → time_of timestamp ≡ b.timestamp
      → bytes_word nonce ≡ b.nonce
      → Reads
          (read_transactions true config count b.txb_id b.previous_block_hash timestamp nonce)
          (transactions_bytes ts)
          b
  read_transactions-Reads count timestamp nonce counted timed nonced =
      let bytes : List ℕ = transactions_bytes ts in
      let field = read_field (length ts * sizeof_transaction) in
      let finish : List ℕ → Reading TransactionBlock = λ l. done (assembled timestamp nonce l) in
      let last : Reads (finish bytes) [] b =
        subst (λ c. Reads (finish bytes) [] c) (assembled-eq timestamp nonce timed nonced)
          (λ ys calls enough. (calls, refl, omega arith)) in
      subst (λ m. Reads m bytes b)
        (sym (
          ap (λ n. read_transactions true config n b.txb_id b.previous_block_hash timestamp nonce)
            counted
          ∙ opened timestamp nonce))
        (subst (λ l. Reads (field >>= finish) l b) (append-nil bytes)
          (Reads->>= field finish bytes [] bytes b
            (read_field-Reads _ bytes (omega (arith, length-transactions_bytes ts h.built.each)))
            last))

  pub read_block-Reads : Reads (read_block true config) (fields b ts) b
  unfolding read_block
  read_block-Reads =
      let t : List ℕ = word_bytes 8 (pattern_of (2 ^ 64) b.timestamp) in
      let n : List ℕ = word_bytes 4 b.nonce in
      let k : List ℕ = word_bytes 4 (pattern_of (2 ^ 32) b.transactions_per_block) in
      let fits : Fits (2 ^ 32) b.transactions_per_block =
        rw h.built.counted (omega (arith, h.built.count_fits)) in
      let last : Reads (read_transactions true config (int_of k) b.txb_id b.previous_block_hash t n)
          (transactions_bytes ts) b =
        read_transactions-Reads (int_of k) t n
          (int_of-word_bytes b.transactions_per_block fits ∙ h.built.counted)
          (time_of-word_bytes b.timestamp h.built.time_fits)
          (bytes_word-word_bytes 4 b.nonce h.built.nonce_fits) in
      let rest : List ℕ → List ℕ → List ℕ → List ℕ → List ℕ → Reading TransactionBlock =
        λ id hash time nonce count.
          read_transactions true config (int_of count) id hash time nonce in
      let at_count : List ℕ → List ℕ → List ℕ → List ℕ → Reading TransactionBlock =
        λ id hash time nonce. read_field 4 >>= rest id hash time nonce in
      let at_nonce : List ℕ → List ℕ → List ℕ → Reading TransactionBlock =
        λ id hash time. read_field 4 >>= at_count id hash time in
      let at_time : List ℕ → List ℕ → Reading TransactionBlock =
        λ id hash. read_field 8 >>= at_nonce id hash in
      let at_hash : List ℕ → Reading TransactionBlock = λ id. read_field hash_size >>= at_time id in
      let id : List ℕ = b.txb_id in
      let hash : List ℕ = b.previous_block_hash in
      Reads->>= (read_field txb_id_len) at_hash id _ id b (read_field-Reads _ id h.built.id_size) (
        Reads->>= (read_field hash_size) (at_time id) hash _ hash b
          (read_field-Reads _ hash h.built.hash_fits)
          (Reads->>= (read_field 8) (at_nonce id hash) t _ t b
            (read_field-Reads _ t (length-word_bytes 8 _))
            (Reads->>= (read_field 4) (at_count id hash t) n _ n b
              (read_field-Reads _ n (length-word_bytes 4 _))
              (Reads->>= (read_field 4) (rest id hash t n) k _ k b
                (read_field-Reads _ k (length-word_bytes 4 _)) last))))
