-- ===== src/Tests/BagRuns.antt =====
-- The pool as a bag, and a block that is given up, at concrete inputs.
use mathlib.Mathlib.Data.Multiset.Defs.{of_list}
use mathlib.Mathlib.Data.Multiset.AddSub.{add}
use dei_chain.Base.{ℕ, ◌≤◌, ◌<◌, ◌≡◌, refl, true, false, List, [], ◌∷◌, arith}
use dei_chain.Base.Arrays.{strlen, strcmp_eq, strcmp_eq-strlen, strcmp_eq_trans, strcmp_eq_sym}
use dei_chain.Pool.Counting.{live}
use dei_chain.Pool.Ids.{slots}
use dei_chain.Data.{sem_wait}
use dei_chain.Miner.Round.{miner_round}
use dei_chain.Miner.RoundRestores.{miner_round_restores}
use dei_chain.System.Bag.{available, Call, generates, selects, history, history-conserves}
use dei_chain.Tests.Fixtures.{code, digest, tx, free_entry, pool, config, ledger, outcomes}
use dei_chain.Tests.RoundRuns.{round_fails}

-- One transaction is added, two are handed out, and then there are too few.
abbrev calls : List Call
calls = generates (tx 3) ∷ selects true true ∷ selects true true ∷ []

calls_run :
    ((history 4 2 calls pool).taken ≡ tx 1 ∷ tx 3 ∷ [])
    × ((history 4 2 calls pool).added ≡ tx 3 ∷ [])
unfolding code
calls_run = (refl, refl)

history-conserves_example :
    let h = history 4 2 calls pool in
    add (of_list h.taken) (available h.pool) ≡ add (of_list h.added) (available pool)
history-conserves_example = history-conserves 4 2 calls pool refl

sizes :
    (strlen (tx 1).tx_id ≡ 6)
    × (strlen (tx 2).tx_id ≡ 6)
    × (strlen free_entry.transaction.tx_id ≡ 0)
    × (strcmp_eq (tx 1).tx_id (tx 2).tx_id ≡ false)
unfolding code
sizes = (refl, refl, refl, refl)

pool-once : (id : List ℕ) → 0 < live id pool.transactions_list → slots id pool.transactions_list ≤ 1
unfolding live slots
pool-once id some_there = ground (
  arith,
  sizes,
  strcmp_eq-strlen (tx 1).tx_id id,
  strcmp_eq-strlen (tx 2).tx_id id,
  strcmp_eq-strlen free_entry.transaction.tx_id id,
  strcmp_eq_sym (tx 2).tx_id id,
  strcmp_eq_trans (tx 1).tx_id id (tx 2).tx_id,
)

miner_round_restores_example :
    (miner_round digest (outcomes false) 1 config ledger pool).1
    ≡ record pool { work_notification_sem = sem_wait pool.work_notification_sem }
miner_round_restores_example =
    miner_round_restores digest (outcomes false) 1 config ledger pool refl pool-once round_fails
