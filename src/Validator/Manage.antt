-- ===== src/Validator/Manage.antt =====
-- `manage_validators` of validator.c: when the primary validator forks another.
use dei_chain.Base.{ℕ, ◌+◌, Bool, not, ◌&&◌, if◌then◌else◌, ◌==◌, leb, ltb}
use dei_chain.Base.Int.{ℤ, pos, ltb_ℤ, ◌-ℤ◌}
use dei_chain.Data.{TransactionPool}

-- The static variables of a validator process that the function uses.
pub record Manager : Type 0 where
  pub validator_id : ℕ
  pub active_validators : ℕ
  pub last_validator_creation : ℤ

-- How `fork` returns.
pub data Fork : Type 0 where
  in_child in_parent fork_failed : Fork

-- What the process does after the `fork` for the validator with the given ID.
unfoldable pub after_fork : Fork → ℕ → ℤ → Manager → Manager
after_fork in_child id now m = record m { validator_id = id; active_validators = 1 }
after_fork in_parent id now m = record m {
  active_validators = m.active_validators + 1;
  last_validator_creation = now;
}
after_fork fork_failed id now m = m

-- One call at time `now`, in the process that `fork`, if it is called, returns in.
unfoldable pub manage_validators : ℤ → Fork → TransactionPool → Manager → Manager
unfolding after_fork
manage_validators now fork pool m =
    let occupancy = pool.occupancy in
    if not (m.validator_id == 1)
    then m
    else if ltb_ℤ (now -ℤ m.last_validator_creation) (pos 5)
    then m
    else if leb 80 occupancy && ltb m.active_validators 3
    then after_fork fork 3 now m
    else if leb 60 occupancy && ltb occupancy 80 && ltb m.active_validators 2
    then after_fork fork 2 now m
    else m

-- Whether a child validator ends: the test at the head of the loop of `validator_main`.
unfoldable pub child_terminates : TransactionPool → Manager → Bool
child_terminates pool m = ltb 1 m.validator_id && leb pool.occupancy 40
