-- ===== src/Tests/RoundRuns.antt =====
-- Rounds of a miner over a pool of two transactions.
use dei_chain.Base.{◌≡◌, refl, true, false, none, some}
use dei_chain.Miner.Round.{miner_round}
use dei_chain.Tests.Fixtures.{code, digest, pool, config, ledger, mined_at, outcomes}

pub round_sends :
    (miner_round digest (outcomes true) 1 config ledger pool).0 ≡ some (mined_at 1000 3)
unfolding code
round_sends = refl

pub round_fails : (miner_round digest (outcomes false) 1 config ledger pool).0 ≡ none
unfolding code
round_fails = refl
