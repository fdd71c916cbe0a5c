-- ===== src/Wire/RoundTrip.antt =====
-- What a miner sends is what a validator reads.
use dei_chain.Base.{
  ℕ, ◌+◌, ◌^◌, ◌≤◌, ◌≡◌, refl, sym, ap, ap₂, ◌∙◌, some, List, [], ◌∷◌, ◌++◌, length, take-all,
  take-append, drop-append, length-append, append_assoc, arith, All,
}
use dei_chain.Base.Int.{ℤ}
use dei_chain.Base.Arrays.{
  Fits, word_bytes, pattern_of, integer_of, bytes_word-word_bytes, integer_of-pattern_of_int,
  integer_of-pattern_of_time, pattern_of-lt, length-word_bytes,
}
use dei_chain.Data.{Transaction, tx_id_len}
use dei_chain.Pow.Serialize.{transaction_bytes, transactions_bytes, sizeof_transaction}
use dei_chain.Pow.Layout.{IsTransaction, length-transaction_bytes}
use dei_chain.Wire.Read.{ReadOutcome}
use dei_chain.Wire.ReadLaws.{gots, read_fully-Delivers}
use dei_chain.Wire.Parse.{
  Reading, ◌>>=◌, read_field, int_of, time_of, transaction_of, transactions_from,
}

-- However the bytes `xs` arrive, the reading takes them and gives `a`.
abbrev pub Reads : {A : Type 0} → Reading A → List ℕ → A → Type 0
Reads m xs a =
    (ys : List ℕ) (calls : List ReadOutcome)
    → length xs ≤ gots calls
    → (calls' : List ReadOutcome) × (m (record { stream = xs ++ ys; calls = calls })
        ≡ some (some a, record { stream = ys; calls = calls' }))
      × (gots calls ≤ gots calls' + length xs)

pub Reads->>= :
    {A B : Type 0} (m : Reading A) (f : A → Reading B) (xs zs : List ℕ) (a : A) (b : B)
    → Reads m xs a
    → Reads (f a) zs b
    → Reads (m >>= f) (xs ++ zs) b
Reads->>= m f xs zs a b first second ys calls enough =
    let size = length-append xs zs in
    let (calls', e, left) = first (zs ++ ys) calls (omega (arith, size)) in
    let (calls'', e', left') = second ys calls' (omega (arith, size)) in
    (calls'', rw (append_assoc xs zs ys, e, ◌>>=◌) e', omega (arith, size))

pub read_field-Reads : (size : ℕ) (xs : List ℕ) → length xs ≡ size → Reads (read_field size) xs xs
unfolding read_field
read_field-Reads size xs e ys calls enough =
    let (calls', result, left) = read_fully-Delivers xs ys calls enough in
    (calls', rw (sym e, result, read_field) (ground arith), left)

pub int_of-word_bytes :
    (z : ℤ) → Fits (2 ^ 32) z → int_of (word_bytes 4 (pattern_of (2 ^ 32) z)) ≡ z
unfolding int_of
int_of-word_bytes z h =
    ap (integer_of (2 ^ 32))
      (bytes_word-word_bytes 4 (pattern_of (2 ^ 32) z) (pattern_of-lt (2 ^ 32) z (omega arith)))
    ∙ integer_of-pattern_of_int z h

pub time_of-word_bytes :
    (z : ℤ) → Fits (2 ^ 64) z → time_of (word_bytes 8 (pattern_of (2 ^ 64) z)) ≡ z
unfolding time_of
time_of-word_bytes z h =
    ap (integer_of (2 ^ 64))
      (bytes_word-word_bytes 8 (pattern_of (2 ^ 64) z) (pattern_of-lt (2 ^ 64) z (omega arith)))
    ∙ integer_of-pattern_of_time z h

transaction_of-bytes :
    (t : Transaction) → IsTransaction t → transaction_of (transaction_bytes t) ≡ t
unfolding transaction_of transaction_bytes
transaction_of-bytes t h =
    let reward : List ℕ = word_bytes 4 (pattern_of (2 ^ 32) t.reward) in
    let value : List ℕ = word_bytes 4 t.value in
    let time : List ℕ = word_bytes 8 (pattern_of (2 ^ 64) t.timestamp) in
    rw (
      take-append tx_id_len t.tx_id (reward ++ (value ++ time)) h.id_size,
      drop-append tx_id_len t.tx_id (reward ++ (value ++ time)) h.id_size,
      take-append 4 reward (value ++ time) (length-word_bytes 4 _),
      drop-append 4 reward (value ++ time) (length-word_bytes 4 _),
      take-append 4 value time (length-word_bytes 4 _),
      drop-append 4 value time (length-word_bytes 4 _),
      take-all 8 time (length-word_bytes 8 _),
      int_of-word_bytes t.reward h.reward_fits,
      time_of-word_bytes t.timestamp h.time_fits,
      bytes_word-word_bytes 4 t.value h.value_fits,
    )

pub transactions_from-bytes :
    (ts : List Transaction)
    → All IsTransaction ts
    → transactions_from (length ts) (transactions_bytes ts) ≡ ts
unfolding transactions_from transactions_bytes
transactions_from-bytes [] h = refl
transactions_from-bytes (t ∷ ts) h =
    let size = length-transaction_bytes t h.0 in
    rw
      (
        take-append sizeof_transaction (transaction_bytes t) (transactions_bytes ts) size,
        drop-append sizeof_transaction (transaction_bytes t) (transactions_bytes ts) size,
      )
      (ap₂ ◌∷◌ (transaction_of-bytes t h.0) (transactions_from-bytes ts h.1))
