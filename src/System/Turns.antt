-- ===== src/System/Turns.antt =====
-- The loop of a validator keeps the pool in shape and the ledger a chain.
use mathlib.Core.Option.{some-injective}
use dei_chain.Base.{
  ℕ, ◌≡◌, sym, subst, true, Option, some, List, [], ◌∷◌, inl, inr, Bool-cases, Option-cases, All,
}
use dei_chain.Data.{StatisticsMessage, Config}
use dei_chain.Validator.Manage.{manage_validators, child_terminates}
use dei_chain.Validator.Process.{Shared}
use dei_chain.Validator.Round.{Inputs, validator_round}
use dei_chain.Validator.RoundLaws.{validator_round_cases, validator_round-IsLedger}
use dei_chain.Validator.Turn.{
  Select, data_ready, nothing_ready, select_failed, Outside, Validator, Ending, exits, leaves,
  goes_on, after_select, validator_turn, validator_turns,
}
use dei_chain.Wire.Read.{Fd}
use dei_chain.System.Frame.{IsFrame, age_transaction_pool-IsFrame, process_block-IsFrame}
use dei_chain.System.Safety.{IsSystem}

module _ (sha256 : List ℕ → List ℕ) (float_add : ℕ → ℕ → ℕ) (config : Config) where
  validator_round-IsSystem :
      (inputs : Inputs) (fd fd' : Fd) (s s' : Shared) (message : Option StatisticsMessage)
      → IsSystem sha256 config s
      → inputs.memory.last_allocated ≡ true
      → validator_round sha256 float_add inputs config fd s ≡ some (message, s', fd')
      → IsSystem sha256 config s'
  validator_round-IsSystem inputs fd fd' s s' message h room round = record {
    ledger =
        validator_round-IsLedger sha256 float_add inputs config fd fd' s s' message h.ledger room
          round;
    pool = elim (validator_round_cases sha256 float_add inputs config fd fd' s s' message round) [
      | inl same ↦ subst (λ (t : Shared). IsFrame config.tx_pool_size t.pool) (sym same) h.pool
      | inr (miner_id, b, read, same) ↦
          subst (λ (t : Shared). IsFrame config.tx_pool_size t.pool) (sym same)
            (process_block-IsFrame sha256 inputs.memory b config s h.pool)
    ];
  }

  after_select-IsSystem :
      (select : Select) (inputs : Inputs) (v v' : Validator) (ending : Ending)
      → IsSystem sha256 config v.shared
      → inputs.memory.last_allocated ≡ true
      → after_select sha256 float_add config select inputs v ≡ some (ending, v')
      → IsSystem sha256 config v'.shared
  unfolding after_select
  after_select-IsSystem select_failed inputs v v' ending h room e =
      subst (λ (r : Ending × Validator). IsSystem sha256 config r.1.shared) (some-injective _ _ e) h
  after_select-IsSystem nothing_ready inputs v v' ending h room e =
      subst (λ (r : Ending × Validator). IsSystem sha256 config r.1.shared) (some-injective _ _ e) h
  after_select-IsSystem data_ready inputs v v' ending h room e =
      elim (Option-cases (validator_round sha256 float_add inputs config v.fd v.shared)) [
        | inl waits ↦ cc (rw (waits, after_select) at e)
        | inr ((message, s, fd), round) ↦
            subst (λ (r : Ending × Validator). IsSystem sha256 config r.1.shared)
              (some-injective _ _ (rw (round, after_select) at e))
              (validator_round-IsSystem inputs v.fd fd v.shared s message h room round)
      ]

  pub validator_turn-IsSystem :
      (o : Outside) (v v' : Validator) (ending : Ending)
      → IsSystem sha256 config v.shared
      → (IsSystem sha256 config v.shared → IsSystem sha256 config (o.others v.shared))
      → o.inputs.memory.last_allocated ≡ true
      → validator_turn sha256 float_add config o v ≡ some (ending, v')
      → IsSystem sha256 config v'.shared
  unfolding validator_turn
  validator_turn-IsSystem o before v' ending well keeps room turn =
      let v = record before { shared = o.others before.shared } in
      let h = keeps well in
      let manager = manage_validators o.managed_at o.fork v.shared.pool v.manager in
      elim (Bool-cases (child_terminates v.shared.pool manager)) [
        | inl ends ↦
            subst (λ (r : Ending × Validator). IsSystem sha256 config r.1.shared)
              (some-injective _ _ (rw (ends, validator_turn) at turn)) h
        | inr stays ↦
            after_select-IsSystem o.selected o.inputs _ v' ending
              (record {
                ledger = h.ledger;
                pool =
                    age_transaction_pool-IsFrame o.aged_at v.last_age_update v.shared.pool
                      config.tx_pool_size h.pool;
              })
              room (rw (stays, validator_turn) at turn)
      ]

  -- Whatever the turns of a validator meet (any bytes in the pipe, any clock, any outcome of `fork`
  -- and `select`), from a well-formed state on, the ledger stays a chain and the pool in shape. The
  -- hypotheses are that the other processes keep the memory well formed between the turns, that each turn
  -- finds the memory to hash the latest block, and that no turn waits
  -- for ever for the rest of a block.
  validator_turns-IsSystem :
      (os : List Outside) (v v' : Validator)
      → IsSystem sha256 config v.shared
      → All
          (λ (o : Outside).
            ((s : Shared) → IsSystem sha256 config s → IsSystem sha256 config (o.others s))
            × (o.inputs.memory.last_allocated ≡ true))
          os
      → validator_turns sha256 float_add config os v ≡ some v'
      → IsSystem sha256 config v'.shared
  unfolding validator_turns
  validator_turns-IsSystem [] v v' h rooms e =
      subst (λ (w : Validator). IsSystem sha256 config w.shared) (some-injective _ _ e) h
  validator_turns-IsSystem (o ∷ os) v v' h ((keeps, room), rooms) e =
      elim (Option-cases (validator_turn sha256 float_add config o v)) [
        | inl waits ↦ cc (rw (waits, validator_turns) at e)
        | inr ((exits, w), turn) ↦
            subst (λ (w : Validator). IsSystem sha256 config w.shared)
              (some-injective _ _ (rw (turn, validator_turns) at e))
              (validator_turn-IsSystem o v w exits h (keeps v.shared) room turn)
        | inr ((leaves, w), turn) ↦
            subst (λ (w : Validator). IsSystem sha256 config w.shared)
              (some-injective _ _ (rw (turn, validator_turns) at e))
              (validator_turn-IsSystem o v w leaves h (keeps v.shared) room turn)
        | inr ((goes_on message, w), turn) ↦
            validator_turns-IsSystem os w v'
              (validator_turn-IsSystem o v w (goes_on message) h (keeps v.shared) room turn) rooms
              (rw (turn, validator_turns) at e)
      ]
