-- ===== src/Tests/InterleavingRuns.antt =====
-- Validators whose calls overlap, and a generator beside a miner, at concrete inputs.
use dei_chain.Base.{◌+◌, ◌<◌, ◌≡◌, refl, true, false, List, [], ◌∷◌, ◌++◌, set, arith}
use dei_chain.Data.{BlockchainEntry, TransactionBlock, TransactionPool}
use dei_chain.TxGen.Add.{add_transaction_to_pool}
use dei_chain.Validator.Check.{check_transactions}
use dei_chain.Validator.Chain.{chain}
use dei_chain.Validator.Ledger.{write_block, overwritten}
use dei_chain.Controller.Layout.{entry_offset, transactions_offset}
use dei_chain.Validator.Process.{Shared}
use dei_chain.Interleaving.Steps.{
  idle, got, proven, linked, accepted, admitted, stored, System, moved, read, validator, Reach,
  here, next,
}
use dei_chain.Interleaving.Sound.{IsSound, Reach-Appends}
use dei_chain.Interleaving.Capacity.{pair, Reach-capacity, two_validators_overflow}
use dei_chain.System.Overwrite.{reserved_overwritten}
use dei_chain.Tests.Fixtures.{
  code, digest, tx, entry, free_entry, pool_of, config, ledger, mined_at, memory, shared,
}
use dei_chain.Tests.ChainRuns.{mined-IsRead}

-- Two validators; the first gets a block and takes it to the ledger, the second gets it in between.
abbrev pub start : System digest config
start = pair digest config shared idle idle

abbrev block : TransactionBlock
block = mined_at 1000 3

abbrev read_once : System digest config
read_once = record start { points = set start.points 0 (got block) }

abbrev checked_once : System digest config
checked_once = moved digest config 0 (got block) memory read_once

abbrev read_twice : System digest config
read_twice = record checked_once { points = set checked_once.points 1 (got block) }

abbrev linked_once : System digest config
linked_once = moved digest config 0 (proven block) memory read_twice

abbrev accepted_once : System digest config
accepted_once = moved digest config 0 (linked block) memory linked_once

abbrev admitted_once : System digest config
admitted_once = moved digest config 0 (accepted block) memory accepted_once

abbrev stored_once : System digest config
stored_once = moved digest config 0 (admitted block) memory admitted_once

overlapping : Reach digest config start stored_once
unfolding code
overlapping =
    next
      (next
        (next
          (next
            (next
              (next (next here (read 0 block refl mined-IsRead))
                (validator 0 (got block) memory refl))
              (read 1 block refl mined-IsRead))
            (validator 0 (proven block) memory refl))
          (validator 0 (linked block) memory refl))
        (validator 0 (accepted block) memory refl))
      (validator 0 (admitted block) memory refl)

overlapping_stores :
    (stored_once.shared.ledger.num_blocks ≡ 1)
    × (stored_once.points ≡ stored block ∷ got block ∷ [])
unfolding code
overlapping_stores = (refl, refl)

pub start-IsSound : IsSound digest config start
start-IsSound = record {
  ledger = record { room = refl; unlocked = refl; marked = tt; blocks = λ fits. tt };
  points = (tt, (tt, tt));
}

Reach-Appends_example :
    (new : List BlockchainEntry) × (chain stored_once.shared.ledger
      ≡ chain start.shared.ledger ++ new)
Reach-Appends_example =
    Reach-Appends digest config start-IsSound overlapping (omega (arith, overlapping_stores.0))

Reach-capacity_example : stored_once.shared.ledger.num_blocks < 3 + 2
Reach-capacity_example =
    Reach-capacity digest config 2 refl (omega arith) refl (omega arith) overlapping

-- One place of three is free.
abbrev nearly_full : Shared
nearly_full = record shared { ledger = record ledger { num_blocks = 2 } }

two_validators_overflow_example :
    (t : Shared) × Reach digest config
      (pair digest config nearly_full (accepted (mined_at 1000 3)) (accepted (mined_at 1001 2)))
      (pair digest config t (stored (mined_at 1000 3)) (stored (mined_at 1001 2)))
    × (t.ledger.num_blocks ≡ 3 + 1)
    × (entry_offset (2 + 1) ≡ transactions_offset config 0)
    × (t.ledger.blocks
        ≡ overwritten memory.past_end 0
            (write_block (mined_at 1000 3) nearly_full.ledger config).blocks)
two_validators_overflow_example =
    two_validators_overflow digest config memory (mined_at 1000 3) (mined_at 1001 2) nearly_full
      refl

-- The first transaction is reserved.
abbrev reserved : TransactionPool
reserved = pool_of (record (entry 1) { empty = true } ∷ free_entry ∷ entry 2 ∷ free_entry ∷ [])

reserved_overwritten_example :
    (check_transactions true block (add_transaction_to_pool (tx 3) reserved 4).1).0 ≡ false
unfolding code
reserved_overwritten_example =
    reserved_overwritten (tx 3) (tx 1) reserved 4 0 (record (entry 1) { empty = true }) block refl
      refl refl refl refl refl refl refl
