-- ===== src/Pow/Binding.antt =====
-- The serialisation keeps every field: two blocks with the same bytes are the same block.
use dei_chain.Base.{
  ℕ, ◌^◌, ◌<◌, ◌≡◌, refl, ap, ap₂, sym, ◌∙◌, some, List, [], ◌∷◌, ◌++◌, length, arith, replicate,
  append_assoc, All,
}
use dei_chain.Base.Int.{ℤ, pos}
use dei_chain.Base.Arrays.{
  Fits, append_injective, word_bytes, word_bytes_injective, length-word_bytes, pattern_of,
  pattern_of-lt, pattern_of_int_injective, pattern_of_time_injective,
}
use dei_chain.Data.{Transaction, TransactionBlock}
use dei_chain.Pow.Serialize.{transaction_bytes, transactions_bytes, serialized}
use dei_chain.Pow.Layout.{IsTransaction, IsBlock, length-transaction_bytes, transactions_data_lem}

word_split :
    (n v w : ℕ) (r s : List ℕ)
    → v < 256 ^ n
    → w < 256 ^ n
    → word_bytes n v ++ r ≡ word_bytes n w ++ s
    → (v ≡ w) × (r ≡ s)
word_split n v w r s hv hw e =
    let (same, rest) =
      append_injective n (word_bytes n v) (word_bytes n w) r s (length-word_bytes n v)
        (length-word_bytes n w) e in
    (word_bytes_injective n v w hv hw same, rest)

-- The two's complement words of two `int`s, and of two `time_t`s.
int_split :
    (y z : ℤ) (r s : List ℕ)
    → Fits (2 ^ 32) y
    → Fits (2 ^ 32) z
    → word_bytes 4 (pattern_of (2 ^ 32) y) ++ r ≡ word_bytes 4 (pattern_of (2 ^ 32) z) ++ s
    → (y ≡ z) × (r ≡ s)
int_split y z r s hy hz e =
    let (same, rest) =
      word_split 4 _ _ r s (pattern_of-lt (2 ^ 32) y (omega arith))
        (pattern_of-lt (2 ^ 32) z (omega arith)) e in
    (pattern_of_int_injective y z hy hz same, rest)

time_split :
    (y z : ℤ) (r s : List ℕ)
    → Fits (2 ^ 64) y
    → Fits (2 ^ 64) z
    → word_bytes 8 (pattern_of (2 ^ 64) y) ++ r ≡ word_bytes 8 (pattern_of (2 ^ 64) z) ++ s
    → (y ≡ z) × (r ≡ s)
time_split y z r s hy hz e =
    let (same, rest) =
      word_split 8 _ _ r s (pattern_of-lt (2 ^ 64) y (omega arith))
        (pattern_of-lt (2 ^ 64) z (omega arith)) e in
    (pattern_of_time_injective y z hy hz same, rest)

transaction_split :
    (t u : Transaction) (r s : List ℕ)
    → IsTransaction t
    → IsTransaction u
    → transaction_bytes t ++ r ≡ transaction_bytes u ++ s
    → (t ≡ u) × (r ≡ s)
unfolding transaction_bytes
transaction_split t u r s ht hu e =
    let (bytes, rest) =
      append_injective 32 (transaction_bytes t) (transaction_bytes u) r s
        (length-transaction_bytes t ht) (length-transaction_bytes u hu) e in
    (fields bytes, rest)
  where
    fields : transaction_bytes t ≡ transaction_bytes u → t ≡ u
    fields bytes =
        let (ids, e₁) = append_injective 16 t.tx_id u.tx_id _ _ ht.id_size hu.id_size bytes in
        let (rewards, e₂) = int_split t.reward u.reward _ _ ht.reward_fits hu.reward_fits e₁ in
        let (values, e₃) = word_split 4 t.value u.value _ _ ht.value_fits hu.value_fits e₂ in
        let (times, _) =
          time_split t.timestamp u.timestamp [] [] ht.time_fits hu.time_fits
            (ap (λ l. l ++ []) e₃) in
        λ i. record { tx_id = ids i; reward = rewards i; value = values i; timestamp = times i }

transactions_split :
    (ts us : List Transaction) (r s : List ℕ)
    → All IsTransaction ts
    → All IsTransaction us
    → length ts ≡ length us
    → transactions_bytes ts ++ r ≡ transactions_bytes us ++ s
    → ts ≡ us
unfolding transactions_bytes
transactions_split [] [] r s hts hus n e = refl
transactions_split [] (u ∷ us) r s hts hus n e = absurd (omega arith)
transactions_split (t ∷ ts) [] r s hts hus n e = absurd (omega arith)
transactions_split (t ∷ ts) (u ∷ us) r s hts hus n e =
    let e' : transaction_bytes t ++ (transactions_bytes ts ++ r)
        ≡ transaction_bytes u ++ (transactions_bytes us ++ s) =
      sym (append_assoc (transaction_bytes t) _ r) ∙ e ∙ append_assoc (transaction_bytes u) _ s in
    let (same, rest) = transaction_split t u _ _ hts.0 hus.0 e' in
    ap₂ ◌∷◌ same (transactions_split ts us r s hts.1 hus.1 (omega arith) rest)

-- Two blocks that serialise to the same bytes agree in every field, nonce and transactions included.
-- Both are blocks as the program builds them: the fields fill their places and the transaction
-- pointer leads to as many transactions as the count says.
pub serialized_injective :
    (b c : TransactionBlock) (ts us : List Transaction)
    → IsBlock b ts
    → IsBlock c us
    → serialized b ≡ serialized c
    → b ≡ c
unfolding serialized
serialized_injective b c ts us hb hc e =
    let (ids, e₁) = append_injective 64 b.txb_id c.txb_id _ _ hb.id_size hc.id_size e in
    let (hashes, e₂) =
      append_injective 65 b.previous_block_hash c.previous_block_hash _ _ hb.hash_fits hc.hash_fits
        e₁ in
    let (times, e₃) = time_split b.timestamp c.timestamp _ _ hb.time_fits hc.time_fits e₂ in
    let (nonces, e₄) = word_split 4 b.nonce c.nonce _ _ hb.nonce_fits hc.nonce_fits e₃ in
    let (counts, e₅) =
      int_split b.transactions_per_block c.transactions_per_block _ _ (count_fits b ts hb)
        (count_fits c us hc) e₄ in
    let same : ts ≡ us =
      transactions_split ts us (replicate 7 0) (replicate 7 0) hb.each hc.each
        (same_length ts us (sym hb.counted ∙ counts ∙ hc.counted))
        (ap (λ l. l ++ replicate 7 0) (sym (transactions_data_lem b ts hb))
          ∙ e₅
          ∙ ap (λ l. l ++ replicate 7 0) (transactions_data_lem c us hc)) in
    let pointers : b.transactions ≡ c.transactions = hb.points ∙ ap some same ∙ sym hc.points in
    λ i. record {
      txb_id = ids i;
      previous_block_hash = hashes i;
      timestamp = times i;
      transactions = pointers i;
      nonce = nonces i;
      transactions_per_block = counts i;
    }
  where
    count_fits :
        (b : TransactionBlock) (ts : List Transaction)
        → IsBlock b ts
        → Fits (2 ^ 32) b.transactions_per_block
    count_fits b ts h = rw h.counted (omega (arith, h.count_fits))

    same_length :
        (ts us : List Transaction) → pos (length ts) ≡ pos (length us) → length ts ≡ length us
    same_length ts us e = ground arith
