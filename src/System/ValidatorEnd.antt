-- ===== src/System/ValidatorEnd.antt =====
-- A validator from its start to its end keeps the pool in shape and the ledger a chain.
use mathlib.Core.Option.{some-injective}
use dei_chain.Base.{
  ℕ, ◌≡◌, refl, subst, Bool, true, false, ◌||◌, ◌⊎◌, none, some, List, [], ◌∷◌, All, inl, inr,
  Bool-cases, Option-cases, arith,
}
use dei_chain.Base.Segments.{Segment}
use dei_chain.Data.{StatisticsMessage}
use dei_chain.Base.{Option}
use dei_chain.Wire.Parse.{read_message}
use dei_chain.Validator.Process.{Shared}
use dei_chain.Validator.Manage.{manage_validators, child_terminates}
use dei_chain.Validator.Round.{Inputs, validator_round}
use dei_chain.Validator.Turn.{Select, data_ready, nothing_ready, select_failed, after_select}
use dei_chain.Data.{Config}
use dei_chain.Validator.Turn.{Outside, Validator, exits, leaves, goes_on, validator_turn}
use dei_chain.Validator.Main.{
  Start, Exit, success, failure, child_exit, End, validator_loop, gives_up, at_end, validator_main,
}
use dei_chain.System.Safety.{IsSystem}
use dei_chain.System.Turns.{validator_turn-IsSystem}

-- What is still attached and open, by the way the process ends: nothing after a normal end; after a
-- failure the memory is as it was.
abbrev pub IsLeft : Validator → End → Exit → Type 0
IsLeft v end success = (end.attached ≡ []) × (end.pipe_open ≡ false)
IsLeft v end failure = (end.state ≡ v) × (end.pipe_open ≡ false)
IsLeft v end child_exit = (end.pipe_open ≡ true)

pub record IsEnd (sha256 : List ℕ → List ℕ) (config : Config) (v : Validator) (end : End)
    : Type 0 where
  pub system : IsSystem sha256 config end.state.shared
  pub left : IsLeft v end end.exit

-- Between the turns the other processes keep the memory well formed, and the turn finds the memory to
-- hash the latest block.
abbrev pub IsKept : (List ℕ → List ℕ) → Config → Bool × Outside → Type 0
IsKept sha256 config t =
    ((s : Shared) → IsSystem sha256 config s → IsSystem sha256 config (t.1.others s))
    × (t.1.inputs.memory.last_allocated ≡ true)

-- Whether the flag is set at the head of some turn.
abbrev pub stops : List (Bool × Outside) → Bool
stops [] = false
stops (t ∷ ts) = t.0 || stops ts

module _ (sha256 : List ℕ → List ℕ) (float_add : ℕ → ℕ → ℕ) (config : Config) where
  -- One of these turns, from this state on, finds data in the pipe and waits for the rest of a block.
  pub data Waits : List (Bool × Outside) → Validator → Type 0 where
    waits_here :
        {o : Outside} {os : List (Bool × Outside)} {v : Validator}
        → o.selected ≡ data_ready
        → read_message o.inputs.transactions_allocated config v.fd ≡ none
        → Waits ((false, o) ∷ os) v
    waits_later :
        {o : Outside} {os : List (Bool × Outside)} {v w : Validator}
        (message : Option StatisticsMessage)
        → validator_turn sha256 float_add config o v ≡ some (goes_on message, w)
        → Waits os w
        → Waits ((false, o) ∷ os) v

  after_select_waits :
      (select : Select) (inputs : Inputs) (v : Validator)
      → after_select sha256 float_add config select inputs v ≡ none
      → (select ≡ data_ready) × (read_message inputs.transactions_allocated config v.fd ≡ none)
  unfolding after_select validator_round
  after_select_waits select_failed inputs v e = cc
  after_select_waits nothing_ready inputs v e = cc
  after_select_waits data_ready inputs v e =
      elim (Option-cases (read_message inputs.transactions_allocated config v.fd)) [
        | inl dry ↦ (refl, dry)
        | inr ((none, fd), read) ↦ cc (rw (read, after_select, validator_round) at e)
        | inr ((some (miner_id, b), fd), read) ↦ cc (rw (read, after_select, validator_round) at e)
      ]

  turn_waits :
      (o : Outside) (v : Validator)
      → validator_turn sha256 float_add config o v ≡ none
      → (o.selected ≡ data_ready)
        × (read_message o.inputs.transactions_allocated config v.fd ≡ none)
  unfolding validator_turn
  turn_waits o v e =
      let s = o.others v.shared in
      let manager = manage_validators o.managed_at o.fork s.pool v.manager in
      elim (Bool-cases (child_terminates s.pool manager)) [
        | inl ends ↦ cc (rw (ends, validator_turn) at e)
        | inr stays ↦ after_select_waits o.selected o.inputs _ (rw (stays, validator_turn) at e)
      ]

  validator_loop-IsSystem :
      (os : List (Bool × Outside)) (v v' : Validator) (child : Bool)
      → IsSystem sha256 config v.shared
      → All (IsKept sha256 config) os
      → validator_loop sha256 float_add config os v ≡ some (child, v')
      → IsSystem sha256 config v'.shared
  unfolding validator_loop
  validator_loop-IsSystem [] v v' child h rooms e = cc
  validator_loop-IsSystem ((true, o) ∷ os) v v' child h rooms e =
      subst (λ (r : Bool × Validator). IsSystem sha256 config r.1.shared) (some-injective _ _ e) h
  validator_loop-IsSystem ((false, o) ∷ os) v v' child h ((keeps, room), rooms) e =
      elim (Option-cases (validator_turn sha256 float_add config o v)) [
        | inl waits ↦ cc (rw (waits, validator_loop) at e)
        | inr ((exits, w), turn) ↦
            subst (λ (r : Bool × Validator). IsSystem sha256 config r.1.shared)
              (some-injective _ _ (rw (turn, validator_loop) at e))
              (validator_turn-IsSystem sha256 float_add config o v w exits h (keeps v.shared) room
                turn)
        | inr ((leaves, w), turn) ↦
            subst (λ (r : Bool × Validator). IsSystem sha256 config r.1.shared)
              (some-injective _ _ (rw (turn, validator_loop) at e))
              (validator_turn-IsSystem sha256 float_add config o v w leaves h (keeps v.shared) room
                turn)
        | inr ((goes_on message, w), turn) ↦
            validator_loop-IsSystem os w v' child
              (validator_turn-IsSystem sha256 float_add config o v w (goes_on message) h
                (keeps v.shared) room turn)
              rooms (rw (turn, validator_loop) at e)
      ]

  ends_as :
      (v : Validator) (u end : End)
      → IsEnd sha256 config v u
      → some u ≡ some end
      → IsEnd sha256 config v end
  ends_as v u end h e = subst (IsEnd sha256 config v) (some-injective _ _ e) h

  gave_up :
      (v : Validator) (attached : List Segment) (end : End)
      → IsSystem sha256 config v.shared
      → some (gives_up sha256 float_add config v attached) ≡ some end
      → IsEnd sha256 config v end
  gave_up v attached end h e = ends_as v _ end (record { system = h; left = (refl, refl) }) e

  looped :
      (os : List (Bool × Outside)) (v : Validator) (end : End)
      → IsSystem sha256 config v.shared
      → All (IsKept sha256 config) os
      → at_end sha256 float_add config (validator_loop sha256 float_add config os v) ≡ some end
      → IsEnd sha256 config v end
  unfolding at_end
  looped os v end h rooms e = elim (Option-cases (validator_loop sha256 float_add config os v)) [
    | inl goes ↦ cc (rw (goes, at_end) at e)
    | inr ((true, w), stops) ↦
        ends_as v _ end
          (record { system = validator_loop-IsSystem os v w true h rooms stops; left = refl })
          (rw (stops, at_end) at e)
    | inr ((false, w), stops) ↦
        ends_as v _ end
          (record {
            system = validator_loop-IsSystem os v w false h rooms stops;
            left = (refl, refl);
          })
          (rw (stops, at_end) at e)
  ]

  -- The loop ends by the turn at whose head the flag is set, or a turn before it waits.
  loop_stops :
      (os : List (Bool × Outside)) (v : Validator)
      → IsSystem sha256 config v.shared
      → All (IsKept sha256 config) os
      → stops os ≡ true
      → ((child : Bool) × (v' : Validator) × (validator_loop sha256 float_add config os v
            ≡ some (child, v')))
        ⊎ Waits os v
  unfolding validator_loop
  loop_stops [] v h rooms e = cc
  loop_stops ((true, o) ∷ os) v h rooms e = inl (false, v, refl)
  loop_stops ((false, o) ∷ os) v h ((keeps, room), rooms) e =
      elim (Option-cases (validator_turn sha256 float_add config o v)) [
        | inl waits ↦ let (ready, dry) = turn_waits o v waits in inr (waits_here ready dry)
        | inr ((exits, w), turn) ↦ inl (true, w, rw (turn, validator_loop) refl)
        | inr ((leaves, w), turn) ↦ inl (false, w, rw (turn, validator_loop) refl)
        | inr ((goes_on message, w), turn) ↦
            let h' =
              validator_turn-IsSystem sha256 float_add config o v w (goes_on message) h
                (keeps v.shared) room turn in
            elim (loop_stops os w h' rooms e) [
              | inl (child, v', ends) ↦ inl (child, v', rw (turn, validator_loop) ends)
              | inr waits ↦ inr (waits_later message turn waits)
            ]
      ]

  -- A validator process that ends leaves what `IsEnd` says.
  validator_main_sound :
      (start : Start) (os : List (Bool × Outside)) (v : Validator) (end : End)
      → IsSystem sha256 config v.shared
      → All (IsKept sha256 config) os
      → validator_main sha256 float_add config start os v ≡ some end
      → IsEnd sha256 config v end
  unfolding validator_main
  validator_main_sound start os v end h rooms e = elim (Bool-cases start.pool_attached) [
    | inr no_pool ↦ gave_up v _ end h (rw (no_pool, validator_main) at e)
    | inl pool ↦ elim (Bool-cases start.ledger_attached) [
      | inr no_ledger ↦ gave_up v _ end h (rw (pool, no_ledger, validator_main) at e)
      | inl ledger ↦ elim (Bool-cases start.config_attached) [
        | inr no_config ↦ gave_up v _ end h (rw (pool, ledger, no_config, validator_main) at e)
        | inl attached ↦ elim (Bool-cases start.pipe_opened) [
          | inr no_pipe ↦
              gave_up v _ end h (rw (pool, ledger, attached, no_pipe, validator_main) at e)
          | inl opened ↦
              looped os v end h rooms (rw (pool, ledger, attached, opened, validator_main) at e)
        ]
      ]
    ]
  ]

  main_stops :
      (start : Start) (os : List (Bool × Outside)) (v : Validator)
      → IsSystem sha256 config v.shared
      → All (IsKept sha256 config) os
      → stops os ≡ true
      → ((end : End) × (validator_main sha256 float_add config start os v ≡ some end)) ⊎ Waits os v
  unfolding validator_main at_end
  main_stops start os v h rooms e = elim (loop_stops os v h rooms e) [
    | inr waits ↦ inr waits
    | inl (true, w, ends) ↦
        elim (Option-cases (validator_main sha256 float_add config start os v)) [
          | inl missing ↦ absurd (ground (arith, missing, ends))
          | inr result ↦ inl result
        ]
    | inl (false, w, ends) ↦
        elim (Option-cases (validator_main sha256 float_add config start os v)) [
          | inl missing ↦ absurd (ground (arith, missing, ends))
          | inr result ↦ inl result
        ]
  ]

  -- A validator process in a well-formed state, with a signal to terminate that some turn finds at its
  -- head, whatever the turns meet (any bytes in the pipe, any clock, any outcome of `fork`, `select`, `shmat`
  -- and `open`): it ends, unless one of these turns, with the loop run up to it, waits for the rest of a
  -- block. At the end the ledger is a chain and the pool in shape; at a normal end the process has
  -- detached its segments and closed the pipe, and where it could not start the memory is as it was. The
  -- hypotheses are that what other processes do between two turns, the validators that it forks
  -- included, keeps the memory well formed, and that each turn finds the memory to hash the latest
  -- block.
  pub validator_main-IsEnd :
      (start : Start) (os : List (Bool × Outside)) (v : Validator)
      → IsSystem sha256 config v.shared
      → All (IsKept sha256 config) os
      → stops os ≡ true
      → ((end : End) × (validator_main sha256 float_add config start os v ≡ some end)
          × IsEnd sha256 config v end)
        ⊎ Waits os v
  validator_main-IsEnd start os v h rooms e = elim (main_stops start os v h rooms e) [
    | inl (end, ends) ↦ inl (end, ends, validator_main_sound start os v end h rooms ends)
    | inr waits ↦ inr waits
  ]
