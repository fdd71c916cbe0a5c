-- ===== src/Pow/Search.antt =====
-- `verify_nonce` and `proof_of_work` of pow.c.
use dei_chain.Base.{
  ℕ, zero, suc, ◌+◌, ◌%◌, ◌^◌, Bool, true, false, none, some, List, [], ◌∷◌, ltb, leb,
  if◌then◌else◌, take,
}
use dei_chain.Base.Int.{ℤ, pos, ltb_ℤ}
use dei_chain.Base.Arrays.{c_string}
use dei_chain.Data.{Transaction, TransactionBlock, PowResult, pow_max_ops}
use dei_chain.Pow.Serialize.{transaction_count}
use dei_chain.Pow.Hash.{compute_sha256}
use dei_chain.Pow.Difficulty.{check_difficulty}

-- The loop that both functions share: the larger of `most` and the rewards.
unfoldable pub largest_reward : ℤ → List Transaction → ℤ
largest_reward most [] = most
largest_reward most (t ∷ ts) = largest_reward (if ltb_ℤ most t.reward then t.reward else most) ts

unfoldable pub max_reward : TransactionBlock → ℤ
max_reward b = elim b.transactions [
  | some ts ↦ largest_reward (pos 0) (take (transaction_count b) ts)
  | none ↦ if ltb_ℤ (pos 0) b.transactions_per_block then pos 1 else pos 0
]

-- `block->nonce = n`
abbrev pub with_nonce : TransactionBlock → ℕ → TransactionBlock
with_nonce b n = record b { nonce = n }

abbrev pub failed : ℕ → TransactionBlock → PowResult × TransactionBlock
failed operations b = (record { hash = []; operations = operations; error = true }, b)

module _ (sha256 : List ℕ → List ℕ) where
  -- `allocated` is the outcome of the `calloc` in the serialisation, `old` the buffer on the stack.
  unfoldable pub verify_nonce : Bool → List ℕ → TransactionBlock → Bool
  verify_nonce allocated old b =
      check_difficulty (compute_sha256 sha256 allocated b old) (max_reward b)

  module _ (allocated : ℕ → Bool) (limit : ℕ) (most : ℤ) where
    -- The `while` loop with at most `fuel` rounds. `allocated n` is the outcome of the `calloc` of
    -- the round that tries nonce `n`; `limit` is `POW_MAX_OPS`, and `most` the largest reward. The
    -- result's `hash` is the string that `strcpy` copies.
    unfoldable pub pow_loop : ℕ → ℕ → List ℕ → TransactionBlock → PowResult × TransactionBlock
    pow_loop zero operations hash b = failed operations b
    pow_loop (suc fuel) operations hash b =
        let operations' = operations + 1 in
        let hash' = compute_sha256 sha256 (allocated b.nonce) b hash in
        let b' = with_nonce b ((b.nonce + 1) % 2 ^ 32) in
        let rest = pow_loop fuel operations' hash' b' in
        if ltb b.nonce limit
        then (if check_difficulty hash' most
            then (record { hash = c_string hash'; operations = operations'; error = false }, b)
            else if leb limit operations'
            then failed operations' b'
            else rest)
        else failed operations b

  -- Every nonce below `POW_MAX_OPS` is tried once, so that many rounds are enough.
  unfoldable pub proof_of_work :
      (ℕ → Bool) → List ℕ → TransactionBlock → PowResult × TransactionBlock
  unfolding pow_loop
  proof_of_work allocated old b =
      pow_loop allocated pow_max_ops (max_reward b) pow_max_ops 0 old (with_nonce b 0)
