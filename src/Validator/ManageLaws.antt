-- ===== src/Validator/ManageLaws.antt =====
-- The number of validators, and what the primary validator's count becomes.
use dei_chain.Base.{◌≤◌, ◌≢◌, arith}
use dei_chain.Base.Int.{ℤ}
use dei_chain.Data.{TransactionPool}
use dei_chain.Validator.Manage.{Manager, Fork, in_child, manage_validators}

-- What the primary validator knows of itself: its count is between 1 and 3.
pub record IsManager (m : Manager) : Type 0 where
  pub some_active : 1 ≤ m.active_validators
  pub few_active : m.active_validators ≤ 3

-- Every call keeps the count of active validators between 1 and 3, in the parent and in the child.
pub manage_validators_bounds :
    (now : ℤ) (fork : Fork) (pool : TransactionPool) (m : Manager)
    → IsManager m
    → IsManager (manage_validators now fork pool m)
unfolding manage_validators
manage_validators_bounds now fork pool m h = ground arith

-- In the process that made the call the count of active validators never falls, however far the
-- occupancy does. The hypothesis says that this process is not the child of the `fork`.
pub manage_validators_grows :
    (now : ℤ) (fork : Fork) (pool : TransactionPool) (m : Manager)
    → fork ≢ in_child
    → m.active_validators ≤ (manage_validators now fork pool m).active_validators
unfolding manage_validators
manage_validators_grows now fork pool m h = ground arith
