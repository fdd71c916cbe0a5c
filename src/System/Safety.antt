-- ===== src/System/Safety.antt =====
-- What holds in every state that the processes reach, and what is never taken back.
use mathlib.Core.List.{append-nil}
use dei_chain.Base.{ℕ, ◌≡◌, inl, inr, sym, subst, List, [], ◌++◌, Bool-cases, leb, arith}
use dei_chain.Data.{TransactionBlock, BlockchainEntry, BlockchainLedger, Config}
use dei_chain.Validator.Ledger.{ledger_entry, add_block_to_ledger}
use dei_chain.Validator.Check.{Memory, validate_block}
use dei_chain.Validator.Chain.{chain, IsLedger}
use dei_chain.Validator.Keep.{
  chain-add_block_to_ledger, process_block-ledger, process_block-IsLedger,
}
use dei_chain.Validator.Log.{Appends, same, one_more, Appends-prefix}
use dei_chain.Validator.Process.{Shared, process_block}
use dei_chain.System.Steps.{
  Step, generate, wake, select, give_back, process, grow_old, Reach, here, next, HasRoom,
  AllHaveRoom,
}
use dei_chain.System.Frame.{
  IsFrame, add_transaction_to_pool-IsFrame, select_transactions-IsFrame, return_to_pool-IsFrame,
  age_transaction_pool-IsFrame, process_block-IsFrame,
}

-- Between two calls the ledger is a chain, and the pool is in shape.
pub record IsSystem (sha256 : List ℕ → List ℕ) (config : Config) (s : Shared) : Type 0 where
  pub ledger : IsLedger sha256 config s.ledger
  pub pool : IsFrame config.tx_pool_size s.pool

module _ (sha256 : List ℕ → List ℕ) (config : Config) where
  Step-IsSystem :
      {s t : Shared} (st : Step sha256 config s t)
      → HasRoom sha256 config st
      → IsSystem sha256 config s
      → IsSystem sha256 config t
  Step-IsSystem {s} (generate tx) room h = record {
    ledger = h.ledger;
    pool = add_transaction_to_pool-IsFrame tx s.pool config.tx_pool_size h.pool;
  }
  Step-IsSystem {s} (wake ready) room h = record {
    ledger = h.ledger;
    pool = record {
      sized = h.pool.sized;
      percentage = h.pool.percentage;
      unlocked = h.pool.unlocked;
    };
  }
  Step-IsSystem {s} (select first second) room h = record {
    ledger = h.ledger;
    pool =
        select_transactions-IsFrame first second s.pool config.tx_pool_size
          config.transactions_per_block h.pool;
  }
  Step-IsSystem {s} (give_back ts) room h = record {
    ledger = h.ledger;
    pool = return_to_pool-IsFrame ts s.pool config.tx_pool_size h.pool;
  }
  Step-IsSystem {s} (process memory b r) room h = record {
    ledger =
        process_block-IsLedger sha256 memory b r.ts config s h.ledger r.points r.few_transactions
          room;
    pool = process_block-IsFrame sha256 memory b config s h.pool;
  }
  Step-IsSystem {s} (grow_old now last) room h = record {
    ledger = h.ledger;
    pool = age_transaction_pool-IsFrame now last s.pool config.tx_pool_size h.pool;
  }

  -- Whatever generators, miners and one validator do from a well-formed state on, in any order and
  -- with any blocks, if the validator finds the memory to hash the latest block each time: the ledger stays well formed, the pool keeps its size and a percentage for its
  -- occupancy, and its mutex is free between two calls.
  pub Reach-IsSystem :
      {s t : Shared} (r : Reach sha256 config s t)
      → AllHaveRoom sha256 config r
      → IsSystem sha256 config s
      → IsSystem sha256 config t
  Reach-IsSystem here rooms h = h
  Reach-IsSystem (next r st) (rooms, room) h = Step-IsSystem st room (Reach-IsSystem r rooms h)

  add_block_to_ledger-Appends :
      (b : TransactionBlock) (ledger : BlockchainLedger)
      → IsLedger sha256 config ledger
      → Appends (chain ledger) (chain (add_block_to_ledger b ledger config).1)
  unfolding add_block_to_ledger
  add_block_to_ledger-Appends b ledger h =
      elim (Bool-cases (leb config.blockchain_blocks ledger.num_blocks)) [
        | inl full ↦ rw full same
        | inr space ↦
            subst (Appends (chain ledger))
              (sym (chain-add_block_to_ledger sha256 b ledger config (ground arith) h.room).0)
              (one_more (ledger_entry b config))
      ]

  process_block-Appends :
      (memory : Memory) (b : TransactionBlock) (s : Shared)
      → IsLedger sha256 config s.ledger
      → Appends (chain s.ledger) (chain (process_block sha256 memory b config s).1.ledger)
  process_block-Appends memory b s h =
      rw (process_block-ledger sha256 memory b config s)
        (elim (Bool-cases (validate_block sha256 memory b s.ledger s.pool).0) [
          | inr rejected ↦ rw rejected same
          | inl accepted ↦ rw accepted (add_block_to_ledger-Appends b s.ledger h)
        ])

  -- Each step does to the blocks in use what the abstract log allows: nothing, or one more entry
  -- at the end.
  pub Step-Appends :
      {s t : Shared}
      → IsSystem sha256 config s
      → Step sha256 config s t
      → Appends (chain s.ledger) (chain t.ledger)
  Step-Appends h (generate tx) = same
  Step-Appends h (wake ready) = same
  Step-Appends h (select first second) = same
  Step-Appends h (give_back ts) = same
  Step-Appends {s} h (process memory b r) = process_block-Appends memory b s h.ledger
  Step-Appends h (grow_old now last) = same

  -- A block in the ledger is never changed or removed: the blocks in use of a later state are those
  -- of the earlier one, with others behind them. The earlier state is well formed, there is one
  -- validator, and it finds the memory to hash the latest block each time.
  Reach-append :
      {s t : Shared}
      → IsSystem sha256 config s
      → (r : Reach sha256 config s t) → AllHaveRoom sha256 config r
      → (new : List BlockchainEntry) × (chain t.ledger ≡ chain s.ledger ++ new)
  Reach-append {s} h here rooms = ([], sym (append-nil (chain s.ledger)))
  Reach-append {s} h (next {t} {u} r st) (rooms, room) =
      Appends-prefix (chain s.ledger) (chain t.ledger) (chain u.ledger) (Reach-append h r rooms)
        (Step-Appends (Reach-IsSystem r rooms h) st)
