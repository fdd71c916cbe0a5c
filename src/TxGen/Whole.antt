-- ===== src/TxGen/Whole.antt =====
-- `main` and `txgen_main` of txgen.c from their start on.
use dei_chain.Base.{ℕ, Bool, not, ◌||◌, ◌&&◌, none, some, List, [], ◌∷◌, ◌==◌, if◌then◌else◌}
use dei_chain.Base.Int.{ℤ, pos, leb_ℤ}
use dei_chain.Base.Segments.{Segment, pool_segment}
use dei_chain.Data.{TransactionPool}
use dei_chain.TxGen.Generate.{check_arguments}
use dei_chain.TxGen.Loop.{Draw, txgen_loop}

-- The outcomes of the calls of `shmget` and `shmat`.
pub record TxGenStart : Type 0 where
  pub pool_found : Bool
  pub config_found : Bool
  pub pool_attached : Bool
  pub config_attached : Bool

-- `failed` has the segments that are attached at `EXIT_FAILURE`; the loop has the results that it
-- printed and the pool so far.
pub data TxGenResult : Type 0 where
  failed : List Segment → TxGenResult
  looping : List ℤ × TransactionPool → TxGenResult

-- The counter of the transactions starts at 0.
unfoldable pub txgen_main : TxGenStart → ℤ → ℕ → ℕ → List Draw → TransactionPool → TxGenResult
unfolding txgen_loop
txgen_main start reward pid pool_size ds pool =
    if not start.pool_attached
    then failed []
    else if not start.config_attached
    then failed (pool_segment ∷ [])
    else looping (txgen_loop reward pid pool_size ds 0 pool)

-- The rest of `main` behind the check of its arguments.
unfoldable pub txgen_found : TxGenStart → ℤ → ℕ → ℕ → List Draw → TransactionPool → TxGenResult
unfolding txgen_main
txgen_found start reward pid pool_size ds pool =
    if not start.pool_found || not start.config_found
    then failed []
    else txgen_main start reward pid pool_size ds pool

-- `main`, with its number of arguments and the two after `atoi`.
unfoldable pub txgen_process :
    ℕ → ℤ → ℤ → TxGenStart → ℕ → ℕ → List Draw → TransactionPool → TxGenResult
unfolding check_arguments txgen_found
txgen_process argc reward sleep_time start pid pool_size ds pool =
    elim (check_arguments argc reward sleep_time) [
      | none ↦ failed []
      | some (r, _) ↦ txgen_found start r pid pool_size ds pool
    ]

-- The arguments are within their ranges.
abbrev pub in_ranges : ℕ → ℤ → ℤ → Bool
in_ranges argc reward sleep_time =
    argc == 3
    && (leb_ℤ (pos 1) reward && leb_ℤ reward (pos 3))
    && (leb_ℤ (pos 200) sleep_time && leb_ℤ sleep_time (pos 3000))

-- Every call of the start succeeds.
abbrev pub all_succeed : TxGenStart → Bool
all_succeed start =
    (start.pool_found && start.config_found) && (start.pool_attached && start.config_attached)
