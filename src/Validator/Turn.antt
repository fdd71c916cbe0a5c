-- ===== src/Validator/Turn.antt =====
-- A turn of the loop of `validator_main` of validator.c, from `manage_validators` on.
use dei_chain.Base.{ℕ, Option, none, some, List, [], ◌∷◌, if◌then◌else◌}
use dei_chain.Base.Int.{ℤ}
use dei_chain.Data.{StatisticsMessage, Config}
use dei_chain.Validator.Age.{age_transaction_pool}
use dei_chain.Validator.Manage.{Manager, Fork, manage_validators, child_terminates}
use dei_chain.Validator.Process.{Shared}
use dei_chain.Validator.Round.{Inputs, validator_round}
use dei_chain.Wire.Read.{Fd}

-- How `select` returns: with data; with 0, or with -1 for a signal; with -1 for another reason.
pub data Select : Type 0 where
  data_ready nothing_ready select_failed : Select

-- What a turn gets from outside: what other processes have made of the memory since the turn before,
-- the validators that a `fork` has started among them; the time at its two readings of the clock, how
-- `fork` and `select` return, and what a round with a block gets.
pub record Outside : Type 0 where
  pub others : Shared → Shared
  pub managed_at : ℤ
  pub fork : Fork
  pub aged_at : ℤ
  pub selected : Select
  pub inputs : Inputs

-- What a validator process has between two turns, the shared memory included.
pub record Validator : Type 0 where
  pub manager : Manager
  pub last_age_update : ℤ
  pub shared : Shared
  pub fd : Fd

-- How a turn ends: the child exits; the loop is left; the loop goes on, with the message that was
-- sent.
pub data Ending : Type 0 where
  exits leaves : Ending
  goes_on : Option StatisticsMessage → Ending

module _ (sha256 : List ℕ → List ℕ) (float_add : ℕ → ℕ → ℕ) (config : Config) where
  -- The part of a turn after the pool has been aged.
  unfoldable pub after_select : Select → Inputs → Validator → Option (Ending × Validator)
  after_select select_failed inputs v = some (leaves, v)
  after_select nothing_ready inputs v = some (goes_on none, v)
  after_select data_ready inputs v =
      elim (validator_round sha256 float_add inputs config v.fd v.shared) [
        | none ↦ none
        | some (message, s, fd) ↦ some (goes_on message, record v { shared = s; fd = fd })
      ]

  -- `none` says that the turn still waits for bytes of a block.
  unfoldable pub validator_turn : Outside → Validator → Option (Ending × Validator)
  unfolding after_select
  validator_turn outside before =
      let v = record before { shared = outside.others before.shared } in
      let manager = manage_validators outside.managed_at outside.fork v.shared.pool v.manager in
      let (aged, last) = age_transaction_pool outside.aged_at v.shared.pool v.last_age_update in
      if child_terminates v.shared.pool manager
      then some (exits, record v { manager = manager })
      else after_select outside.selected outside.inputs (record v {
        manager = manager;
        last_age_update = last;
        shared = record (v.shared) { pool = aged };
      })

  -- The turns until one ends the loop, or all of them.
  unfoldable pub validator_turns : List Outside → Validator → Option Validator
  unfolding validator_turn
  validator_turns [] v = some v
  validator_turns (o ∷ os) v = elim (validator_turn o v) [
    | none ↦ none
    | some (exits, v') ↦ some v'
    | some (leaves, v') ↦ some v'
    | some (goes_on message, v') ↦ validator_turns os v'
  ]
