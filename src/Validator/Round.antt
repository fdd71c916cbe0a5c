-- ===== src/Validator/Round.antt =====
-- A round of the loop of `validator_main` of validator.c once `select` has reported data: the reading
-- of a block, and what is done with it.
use dei_chain.Base.{ℕ, Bool, Option, none, some, List}
use dei_chain.Data.{StatisticsMessage, Config}
use dei_chain.Validator.Check.{Memory}
use dei_chain.Validator.Process.{Shared, statistics_message, process_block}
use dei_chain.Wire.Read.{Fd}
use dei_chain.Wire.Parse.{read_message}

-- What a round gets from outside: the outcomes of its allocations and the elapsed processor time.
pub record Inputs : Type 0 where
  pub memory : Memory
  pub transactions_allocated : Bool
  pub elapsed_time : ℕ

module _ (sha256 : List ℕ → List ℕ) (float_add : ℕ → ℕ → ℕ) where
  -- The message that is sent, if a block was read, the pool and the ledger, and the pipe. `none` says
  -- that the round still waits for bytes.
  unfoldable pub validator_round :
      Inputs → Config → Fd → Shared → Option (Option StatisticsMessage × Shared × Fd)
  validator_round inputs config fd s = elim (read_message inputs.transactions_allocated config fd) [
    | none ↦ none
    | some (none, fd') ↦ some (none, s, fd')
    | some (some (miner_id, b), fd') ↦
        let (valid, s') = process_block sha256 inputs.memory b config s in
        some (some (statistics_message float_add miner_id valid b inputs.elapsed_time), s', fd')
  ]
