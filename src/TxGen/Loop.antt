-- ===== src/TxGen/Loop.antt =====
-- The loop of `txgen_main` of txgen.c.
use dei_chain.Base.{ℕ, List, [], ◌∷◌}
use dei_chain.Base.Int.{ℤ}
use dei_chain.Data.{TransactionPool}
use dei_chain.TxGen.Generate.{generate_transaction}
use dei_chain.TxGen.Add.{add_transaction_to_pool}

-- What a turn gets from outside, as `generate_transaction` does.
pub record Draw : Type 0 where
  pub rand_reward : ℕ
  pub value : ℕ
  pub now : ℤ
  pub stack : List ℕ

-- The results of the additions in their order, which the loop prints, and the pool, after the turns.
-- The loop has no end of its own.
unfoldable pub txgen_loop : ℤ → ℕ → ℕ → List Draw → ℕ → TransactionPool → List ℤ × TransactionPool
unfolding generate_transaction add_transaction_to_pool
txgen_loop reward pid pool_size [] counter pool = ([], pool)
txgen_loop reward pid pool_size (d ∷ ds) counter pool =
    let (tx, counter') =
      generate_transaction reward pid counter d.rand_reward d.value d.now d.stack in
    let (result, pool') = add_transaction_to_pool tx pool pool_size in
    let (results, pool'') = txgen_loop reward pid pool_size ds counter' pool' in
    (result ∷ results, pool'')
