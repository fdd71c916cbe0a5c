-- ===== src/Validator/Main.antt =====
-- `validator_main` of validator.c as a whole: what it attaches and opens, its loop, and its end.
use dei_chain.Base.{ℕ, Bool, true, false, not, Option, none, some, List, [], ◌∷◌, if◌then◌else◌}
use dei_chain.Base.Segments.{Segment, pool_segment, ledger_segment, config_segment, detach}
use dei_chain.Data.{Config}
use dei_chain.Validator.Turn.{Outside, Validator, exits, leaves, goes_on, validator_turn}

-- The outcomes of the calls of `shmat` and `open` before the loop.
pub record Start : Type 0 where
  pub pool_attached : Bool
  pub ledger_attached : Bool
  pub config_attached : Bool
  pub pipe_opened : Bool

-- How the process ends: `EXIT_SUCCESS` or `EXIT_FAILURE` at the end of the function, or the `exit` of a
-- child in the loop.
pub data Exit : Type 0 where
  success failure child_exit : Exit

-- What the process has at its end: the state, the segments that it has not detached, and whether the
-- pipe is still open.
pub record End : Type 0 where
  pub exit : Exit
  pub state : Validator
  pub attached : List Segment
  pub pipe_open : Bool

module _ (sha256 : List ℕ → List ℕ) (float_add : ℕ → ℕ → ℕ) (config : Config) where
  -- The loop; with each turn comes `should_terminate` at its head. The result is whether a child exits,
  -- and the state; `none` says that the loop has not ended after the turns.
  unfoldable pub validator_loop : List (Bool × Outside) → Validator → Option (Bool × Validator)
  unfolding validator_turn
  validator_loop [] v = none
  validator_loop ((terminate, o) ∷ os) v =
      if terminate then some (false, v) else elim (validator_turn sha256 float_add config o v) [
        | none ↦ none
        | some (exits, v') ↦ some (true, v')
        | some (leaves, v') ↦ some (false, v')
        | some (goes_on message, v') ↦ validator_loop os v'
      ]

  abbrev pub gives_up : Validator → List Segment → End
  gives_up v attached = record { exit = failure; state = v; attached = attached; pipe_open = false }

  -- What follows the loop: `close` of the pipe and the three calls of `shmdt`, or the `exit` of a child.
  unfoldable pub at_end : Option (Bool × Validator) → Option End
  at_end none = none
  at_end (some (true, v)) = some (record {
    exit = child_exit;
    state = v;
    attached = pool_segment ∷ ledger_segment ∷ config_segment ∷ [];
    pipe_open = true;
  })
  at_end (some (false, v)) = some (record {
    exit = success;
    state = v;
    attached = detach config_segment (
        detach ledger_segment
          (detach pool_segment (pool_segment ∷ ledger_segment ∷ config_segment ∷ [])));
    pipe_open = false;
  })

  unfoldable pub validator_main : Start → List (Bool × Outside) → Validator → Option End
  unfolding validator_loop at_end
  validator_main start os v =
      if not start.pool_attached
      then some (gives_up v [])
      else if not start.ledger_attached
      then some (gives_up v (pool_segment ∷ []))
      else if not start.config_attached
      then some (gives_up v (pool_segment ∷ ledger_segment ∷ []))
      else if not start.pipe_opened
      then some (gives_up v (pool_segment ∷ ledger_segment ∷ config_segment ∷ []))
      else at_end (validator_loop os v)
