-- ===== src/Tests/GeneratorRuns.antt =====
-- A generator and an empty pool of four entries.
use dei_chain.Base.{◌≡◌, refl, [], ◌∷◌, replicate}
use dei_chain.Base.Int.{pos, negsuc}
use dei_chain.Data.{TransactionPool}
use dei_chain.TxGen.Loop.{Draw, txgen_loop}
use dei_chain.TxGen.Whole.{TxGenStart, failed, txgen_process}
use dei_chain.Base.{true}
use dei_chain.Tests.Fixtures.{code, free_entry, pool_of}

abbrev empty_pool : TransactionPool
empty_pool = record (pool_of (replicate 4 free_entry)) { occupancy = 0 }

abbrev draw : Draw
draw = record { rand_reward = 0; value = 7; now = pos 1000; stack = replicate 16 9 }

-- The fifth transaction finds no room.
generator_runs :
    (txgen_loop (pos 1) 77 4 (replicate 5 draw) 8 empty_pool).0
    ≡ pos 0 ∷ pos 0 ∷ pos 0 ∷ pos 0 ∷ negsuc 0 ∷ []
unfolding code
generator_runs = refl

abbrev begun : TxGenStart
begun = record {
  pool_found = true;
  config_found = true;
  pool_attached = true;
  config_attached = true;
}

-- A reward out of its range.
process_refuses :
    txgen_process 3 (pos 4) (pos 200) begun 77 4 (replicate 5 draw) empty_pool ≡ failed []
unfolding code txgen_process
process_refuses = refl
