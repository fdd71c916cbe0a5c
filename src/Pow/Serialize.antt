-- ===== src/Pow/Serialize.antt =====
-- `serialize_block` of pow.c, with the layout of the structs on a little-endian machine of 64 bits.
use dei_chain.Base.{
  ℕ, ◌+◌, ◌*◌, ◌^◌, Bool, Option, none, some, List, [], ◌∷◌, ◌++◌, if◌then◌else◌, take, replicate,
}
use dei_chain.Base.Int.{pos_part}
use dei_chain.Base.Arrays.{word_bytes, pattern_of}
use dei_chain.Data.{Transaction, TransactionBlock}

-- The memory of a `Transaction`: `char[16]`, `int`, `float`, `time_t`, with no padding.
unfoldable pub transaction_bytes : Transaction → List ℕ
transaction_bytes t =
    t.tx_id
    ++ (word_bytes 4 (pattern_of (2 ^ 32) t.reward)
        ++ (word_bytes 4 t.value ++ word_bytes 8 (pattern_of (2 ^ 64) t.timestamp)))

-- `sizeof(Transaction)`
abbrev pub sizeof_transaction : ℕ
sizeof_transaction = 32

unfoldable pub transactions_bytes : List Transaction → List ℕ
transactions_bytes [] = []
transactions_bytes (t ∷ ts) = transaction_bytes t ++ transactions_bytes ts

-- The rounds of a loop `for (i = 0; i < block->transactions_per_block; i++)`.
abbrev pub transaction_count : TransactionBlock → ℕ
transaction_count b = pos_part b.transactions_per_block

-- A null pointer leaves zeros in the place of the transactions.
unfoldable pub transactions_data : TransactionBlock → List ℕ
transactions_data b = elim b.transactions [
  | some ts ↦ transactions_bytes (take (transaction_count b) ts)
  | none ↦ replicate (sizeof_transaction * transaction_count b) 0
]

-- `sizeof(TransactionBlock) - sizeof(Transaction *)`, the padding of the struct included.
abbrev pub fixed_size : ℕ
fixed_size = 152

unfoldable pub buffer_size : TransactionBlock → ℕ
buffer_size b = fixed_size + sizeof_transaction * transaction_count b

-- The fields fill 145 bytes before the transactions; `calloc` left the 7 bytes at the end zero.
unfoldable pub serialized : TransactionBlock → List ℕ
serialized b =
    b.txb_id
    ++ (b.previous_block_hash
        ++ (word_bytes 8 (pattern_of (2 ^ 64) b.timestamp)
            ++ (word_bytes 4 b.nonce
                ++ (word_bytes 4 (pattern_of (2 ^ 32) b.transactions_per_block)
                    ++ (transactions_data b ++ replicate 7 0)))))

-- `allocated` is the outcome of `calloc`.
unfoldable pub serialize_block : Bool → TransactionBlock → Option (List ℕ)
serialize_block allocated b = if allocated then some (serialized b) else none
