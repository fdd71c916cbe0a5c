-- ===== src/Wire/Delivery.antt =====
-- A block goes through the pipe unchanged.
use mathlib.Core.List.{append-nil}
use dei_chain.Base.{
  ℕ, suc, ◌^◌, ◌≤◌, ◌<◌, ◌≡◌, refl, sym, ap, ◌∙◌, true, some, List, ◌∷◌, ◌++◌, length, take, drop,
  take-all, take-append, take-le, drop-append, length-append, append_assoc, arith, inl, inr,
}
use dei_chain.Base.Int.{ℤ, pos}
use dei_chain.Base.Arrays.{word_bytes, pattern_of, length-word_bytes}
use dei_chain.Data.{Transaction, TransactionBlock, Config}
use dei_chain.Pow.Serialize.{transactions_bytes}
use dei_chain.Wire.Send.{Write, chunks, concat, send_block_to_validator}
use dei_chain.Wire.SendLaws.{send_block_to_validator_lem}
use dei_chain.Wire.Read.{ReadOutcome, got, Fd, arrived}
use dei_chain.Wire.ReadLaws.{gots}
use dei_chain.Wire.Parse.{◌>>=◌, int_of, read_block, read_message}
use dei_chain.Wire.RoundTrip.{int_of-word_bytes}
use dei_chain.Wire.Sendable.{IsSendable, fields, read_block-Reads}

-- What a successful send puts into the pipe is the miner's number and the fields.
message-fields :
    (miner_id : ℕ) (config : Config) (b : TransactionBlock) (ts : List Transaction)
    → IsSendable config b ts
    → concat (chunks miner_id b) ≡ word_bytes 4 (pattern_of (2 ^ 32) (pos miner_id)) ++ fields b ts
unfolding chunks
message-fields miner_id config b ts h = rw (
  h.built.points,
  h.built.counted,
  take-all (length ts) ts refl,
  append-nil (transactions_bytes ts),
)

read_message-block :
    (n : ℕ) (config : Config) (word stream stream' : List ℕ) (calls : List ReadOutcome)
    (b : TransactionBlock) (fd : Fd)
    → arrived 4 n stream ≡ word
    → length word ≡ 4
    → drop (length word) stream ≡ stream'
    → read_block true config (record { stream = stream'; calls = calls }) ≡ some (some b, fd)
    → read_message true config (record { stream = stream; calls = got n ∷ calls })
      ≡ some (some (int_of word, b), fd)
unfolding read_message
read_message-block n config word stream stream' calls b fd first size after read =
    rw (first, after, size, read, ◌>>=◌) (ap (λ w. some (some (int_of w, b), fd)) first)

-- A block that `send_block_to_validator` sends with result 0 is read unchanged by a validator, with
-- the number of its miner, and what stands behind it in the pipe stays there. This holds however
-- the bytes arrive, if the read of the miner's number gets its 4 bytes at once, as many reads
-- bring bytes as the message has, and the `malloc` succeeds. The block is as the program sends it,
-- and the miner's number is an `int`.
pub read_message-send :
    (writes : ℕ → Write) (miner_id n : ℕ) (config : Config) (b : TransactionBlock)
    (ts : List Transaction) (sent rest : List ℕ) (calls : List ReadOutcome)
    → IsSendable config b ts
    → miner_id < 2 ^ 31
    → 3 ≤ n
    → send_block_to_validator true writes miner_id b ≡ (pos 0, sent)
    → length sent ≤ gots calls
    → (calls' : List ReadOutcome) × (read_message true config
          (record { stream = sent ++ rest; calls = got n ∷ calls })
        ≡ some (some (pos miner_id, b), record { stream = rest; calls = calls' }))
read_message-send writes miner_id n config b ts sent rest calls h small enough ok gets =
    let word : List ℕ = word_bytes 4 (pattern_of (2 ^ 32) (pos miner_id)) in
    let size : length word ≡ 4 = length-word_bytes 4 _ in
    let result : (send_block_to_validator true writes miner_id b).0 ≡ pos 0 =
      ap (λ (r : ℤ × List ℕ). r.0) ok in
    let text : sent ≡ word ++ fields b ts =
      elim (send_block_to_validator_lem true writes miner_id b) [
        | inl (_, whole) ↦
            sym (ap (λ (r : ℤ × List ℕ). r.1) ok) ∙ whole ∙ message-fields miner_id config b ts h
        | inr (bad, _, _) ↦ absurd (cc)
      ] in
    let stream : sent ++ rest ≡ word ++ (fields b ts ++ rest) =
      ap (λ l. l ++ rest) text ∙ append_assoc word (fields b ts) rest in
    let (calls', read, _) =
      read_block-Reads config b ts h rest calls
        (omega (arith, ap length text, length-append word (fields b ts))) in
    (
      calls',
      read_message-block n config word (sent ++ rest) (fields b ts ++ rest) calls b _
            (ap (arrived 4 n) stream
              ∙ ap (take (suc n)) (take-append 4 word (fields b ts ++ rest) size)
              ∙ take-le (suc n) word (omega arith))
            size
            (ap (drop (length word)) stream
              ∙ drop-append (length word) word (fields b ts ++ rest) refl)
            read
          ∙ ap (λ z. some (some (z, b), record { stream = rest; calls = calls' }))
              (int_of-word_bytes (pos miner_id) (omega arith)),
    )
