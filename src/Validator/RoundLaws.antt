-- ===== src/Validator/RoundLaws.antt =====
-- Whatever comes down the pipe, a round of a validator keeps the ledger well formed.
use mathlib.Core.Option.{some-injective}
use dei_chain.Base.{
  ℕ, ◌≡◌, ◌⊎◌, inl, inr, sym, ap, ◌∙◌, subst, true, none, some, List, Option, Option-cases,
}
use dei_chain.Base.Int.{ℤ}
use dei_chain.Data.{TransactionBlock, StatisticsMessage, Config}
use dei_chain.Validator.Chain.{IsLedger}
use dei_chain.Validator.Keep.{process_block-IsLedger}
use dei_chain.Validator.Process.{Shared, process_block}
use dei_chain.Validator.Round.{Inputs, validator_round}
use dei_chain.Wire.Read.{Fd}
use dei_chain.Wire.Parse.{read_message}
use dei_chain.Wire.Accepts.{read_message-IsRead}

module _ (sha256 : List ℕ → List ℕ) (float_add : ℕ → ℕ → ℕ) where
  -- What a round that ends did: it read no block, or it processed the block that it read.
  pub validator_round_cases :
      (inputs : Inputs) (config : Config) (fd fd' : Fd) (s s' : Shared)
      (message : Option StatisticsMessage)
      → validator_round sha256 float_add inputs config fd s ≡ some (message, s', fd')
      → (s' ≡ s)
        ⊎ ((miner_id : ℤ) × (b : TransactionBlock) × (read_message inputs.transactions_allocated
                config fd
              ≡ some (some (miner_id, b), fd'))
            × (s' ≡ (process_block sha256 inputs.memory b config s).1))
  unfolding validator_round
  validator_round_cases inputs config fd fd' s s' message round =
      elim (Option-cases (read_message inputs.transactions_allocated config fd)) [
        | inl waits ↦ cc (rw (waits, validator_round) at round)
        | inr ((none, fd₁), read) ↦ inl (
            sym (
              ap (λ (r : Option StatisticsMessage × Shared × Fd). r.1)
                (some-injective _ _ (rw (read, validator_round) at round))))
        | inr ((some (miner_id, b), fd₁), read) ↦
            let same = some-injective _ _ (rw (read, validator_round) at round) in
            inr (
              miner_id,
              b,
              read
                  ∙ ap
                      (λ (r : Option StatisticsMessage × Shared × Fd).
                        some (some (miner_id, b), r.2))
                      same,
              sym (ap (λ (r : Option StatisticsMessage × Shared × Fd). r.1) same),
            )
      ]

  -- A round that ends, with no other validator in between, keeps the ledger well formed, whatever
  -- bytes stand in the pipe and however they arrive: each block in use passes the check of its
  -- nonce and names the hash of the one before it, the first one `INITIAL_HASH`. The hypotheses are
  -- that the ledger was well formed and that the memory for hashing the latest block is found.
  pub validator_round-IsLedger :
      (inputs : Inputs) (config : Config) (fd fd' : Fd) (s s' : Shared)
      (message : Option StatisticsMessage)
      → IsLedger sha256 config s.ledger
      → inputs.memory.last_allocated ≡ true
      → validator_round sha256 float_add inputs config fd s ≡ some (message, s', fd')
      → IsLedger sha256 config s'.ledger
  validator_round-IsLedger inputs config fd fd' s s' message h room round =
      elim (validator_round_cases inputs config fd fd' s s' message round) [
        | inl same ↦ subst (λ (t : Shared). IsLedger sha256 config t.ledger) (sym same) h
        | inr (miner_id, b, read, same) ↦
            let r =
              read_message-IsRead inputs.transactions_allocated config fd.stream fd.calls fd'
                miner_id b read in
            subst (λ (t : Shared). IsLedger sha256 config t.ledger) (sym same)
              (process_block-IsLedger sha256 inputs.memory b r.ts config s h r.points
                r.few_transactions room)
      ]
