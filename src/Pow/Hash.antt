-- ===== src/Pow/Hash.antt =====
-- `compute_sha256` of pow.c. SHA-256 itself is OpenSSL's `SHA256`, a parameter.
use dei_chain.Base.{
  ℕ, zero, suc, ◌+◌, ◌-◌, ◌/◌, ◌%◌, ◌≡◌, refl, ◌≤◌, Bool, true, none, some, List, [], ◌∷◌, ◌++◌,
  ltb, if◌then◌else◌, take, drop, get_elem?, length, length-append, length-take, arith,
}
use dei_chain.Data.{TransactionBlock, hash_size}
use dei_chain.Pow.Serialize.{serialized, serialize_block}

-- `SHA256_DIGEST_LENGTH`
abbrev pub digest_length : ℕ
digest_length = 32

-- A digit of `%02x`.
unfoldable pub hex_digit : ℕ → ℕ
hex_digit d = if ltb d 10 then b'0' + d else b'a' + (d - 10)

unfoldable pub hex_string : List ℕ → List ℕ
unfolding hex_digit
hex_string [] = []
hex_string (b ∷ bs) = hex_digit (b / 16 % 16) ∷ hex_digit (b % 16) ∷ hex_string bs

-- "ERROR" and its NUL
abbrev pub error_text : List ℕ
error_text = b'E' ∷ b'R' ∷ b'R' ∷ b'O' ∷ b'R' ∷ 0 ∷ []

length-hex_string : (bs : List ℕ) → length (hex_string bs) ≡ length bs + length bs
unfolding hex_string
length-hex_string [] = refl
length-hex_string (b ∷ bs) = omega (arith, length-hex_string bs)

get_elem?-end : (xs : List ℕ) (x n : ℕ) → length xs ≡ n → get_elem? (xs ++ x ∷ []) n ≡ some x
get_elem?-end [] x zero h = refl
get_elem?-end [] x (suc n) h = absurd (omega arith)
get_elem?-end (y ∷ xs) x zero h = absurd (omega arith)
get_elem?-end (y ∷ xs) x (suc n) h = get_elem?-end xs x n (omega arith)

module _ (sha256 : List ℕ → List ℕ) where
  -- `old` is what `hash_output` held before: where the serialisation fails, "ERROR" is written over
  -- its first bytes and the rest stays.
  unfoldable pub compute_sha256 : Bool → TransactionBlock → List ℕ → List ℕ
  unfolding serialize_block
  compute_sha256 allocated b old = elim (serialize_block allocated b) [
    | none ↦ error_text ++ drop 6 old
    | some bytes ↦ hex_string (take digest_length (sha256 bytes)) ++ 0 ∷ []
  ]

  -- With memory at hand the buffer that is filled has no influence.
  pub compute_sha256_old :
      (b : TransactionBlock) (old new : List ℕ)
      → compute_sha256 true b old ≡ compute_sha256 true b new
  unfolding compute_sha256
  compute_sha256_old b old new = refl

  -- The hash fills the array of `HASH_SIZE` bytes exactly.
  pub length-compute_sha256 :
      (b : TransactionBlock) (old : List ℕ)
      → digest_length ≤ length (sha256 (serialized b))
      → length (compute_sha256 true b old) ≡ hash_size
  unfolding compute_sha256
  length-compute_sha256 b old h = omega (
    arith,
    length-append (hex_string (take digest_length (sha256 (serialized b)))) (0 ∷ []),
    length-hex_string (take digest_length (sha256 (serialized b))),
    length-take digest_length (sha256 (serialized b)) h,
  )

  -- The last byte of the array is the NUL.
  pub compute_sha256_last :
      (b : TransactionBlock) (old : List ℕ)
      → digest_length ≤ length (sha256 (serialized b))
      → get_elem? (compute_sha256 true b old) (hash_size - 1) ≡ some 0
  unfolding compute_sha256
  compute_sha256_last b old h =
      get_elem?-end (hex_string (take digest_length (sha256 (serialized b)))) 0 (hash_size - 1) (
        omega (
          arith,
          length-hex_string (take digest_length (sha256 (serialized b))),
          length-take digest_length (sha256 (serialized b)) h,
        ))
