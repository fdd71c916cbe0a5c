-- ===== src/Interleaving/Whole.antt =====
-- All processes at once: generators, the threads of the miner and several validators, with other
-- processes between any two sections under a mutex.
use dei_chain.Base.{
  ℕ, ◌-◌, ◌<◌, ◌≡◌, refl, ◌∙◌, Bool, some, List, set, get_elem?, arith, Bool-cases, inl, inr, ltb,
  leb, [], true, false, length, ◌==◌,
}
use dei_chain.Base.Int.{ℤ}
use dei_chain.Data.{Transaction, TransactionBlock, TransactionPoolEntry, TransactionPool, Config}
use dei_chain.TxGen.Add.{add_transaction_to_pool}
use dei_chain.Pool.Entries.{count_occupied, mark_available}
use dei_chain.Pow.Search.{verify_nonce}
use dei_chain.Miner.Select.{reserve, with_entries, locked, released}
use dei_chain.Miner.ReserveLaws.{reserve-count}
use dei_chain.Validator.Check.{Memory, check_previous, check_transactions}
use dei_chain.Validator.Process.{Shared}
use dei_chain.Validator.Age.{age_transaction_pool}
use dei_chain.Wire.Accepts.{IsRead}
use dei_chain.Interleaving.Steps.{
  Point, idle, got, proven, linked, accepted, admitted, stored, refused, advance, System, moved,
  Reach, here, next, read, validator, others,
}
use dei_chain.Interleaving.Sound.{IsSound, Reach-IsSound}
use dei_chain.Interleaving.Miners.{MinerPoint, outside, reserved, mining, miner_step}
use dei_chain.System.Frame.{
  IsFrame, length-mark_available, check_transactions-IsFrame, remove_transactions_from_pool-IsFrame,
  return_transactions_to_pool-IsFrame, add_transaction_to_pool-IsFrame, return_to_pool-IsFrame,
  age_transaction_pool-IsFrame,
}

-- New entries under the mutex.
entries-IsFrame :
    (pool : TransactionPool) (es : List TransactionPoolEntry) (size : ℕ)
    → length es ≡ length pool.transactions_list
    → IsFrame size pool
    → IsFrame size (released (with_entries (locked pool) es))
entries-IsFrame pool es size same h = record {
  sized = same ∙ h.sized;
  percentage = h.percentage;
  unlocked = omega (arith, h.unlocked);
}

-- Also where the indices that it noted are no longer those of its transactions.
miner_step-IsFrame :
    (gives_up : Bool) (p : MinerPoint) (pool : TransactionPool) (size per_block : ℕ)
    → IsFrame size pool
    → IsFrame size (miner_step gives_up per_block p pool).1
unfolding miner_step
miner_step-IsFrame gives_up outside pool size per_block h =
    let es = pool.transactions_list in
    elim (Bool-cases (ltb (count_occupied es) per_block)) [
      | inl few ↦ rw few (entries-IsFrame pool es size refl h)
      | inr enough ↦
          let (_, _, _, same) = reserve-count per_block [] 0 es in
          rw enough (entries-IsFrame pool (reserve per_block [] 0 es).entries size same h)
    ]
miner_step-IsFrame gives_up (reserved chosen) pool size per_block h =
    elim (Bool-cases (length chosen.indices == per_block)) [
      | inl all ↦ rw all h
      | inr missing ↦ rw missing (
          entries-IsFrame pool (mark_available pool.transactions_list chosen.indices) size
            (length-mark_available pool.transactions_list chosen.indices) h)
    ]
miner_step-IsFrame true (mining ts) pool size per_block h = return_to_pool-IsFrame ts pool size h
miner_step-IsFrame false (mining ts) pool size per_block h = h

module _ (sha256 : List ℕ → List ℕ) (config : Config) where
  -- The memory, and where each validator and each thread of the miner stands.
  pub record Whole : Type 0 where
    pub shared : Shared
    pub validators : List Point
    pub miners : List MinerPoint

  -- What the validators see of it.
  abbrev pub seen : Whole → System sha256 config
  seen w = record { shared = w.shared; points = w.validators }

  abbrev pub with_pool : Whole → TransactionPool → Whole
  with_pool w pool = record w { shared = record (w.shared) { pool = pool } }

  -- Validator `i` goes from the point `p` one step on.
  unfoldable pub validator_goes : ℕ → Point → Memory → Whole → Whole
  unfolding moved
  validator_goes i p memory w =
      let s = moved sha256 config i p memory (seen w) in
      record w { shared = s.shared; validators = s.points }

  -- Thread `i` goes from the point `p` one step on.
  unfoldable pub miner_goes : ℕ → MinerPoint → Bool → Whole → Whole
  unfolding miner_step
  miner_goes i p gives_up w =
      let (p', pool) = miner_step gives_up config.transactions_per_block p w.shared.pool in
      record (with_pool w pool) { miners = set w.miners i p' }

  pub data Runs (w : Whole) : Whole → Type 0 where
    start : Runs w w
    reads :
        {v : Whole} (i : ℕ) (b : TransactionBlock)
        → Runs w v
        → get_elem? v.validators i ≡ some idle
        → IsRead config b
        → Runs w (record v { validators = set v.validators i (got b) })
    validates :
        {v : Whole} (i : ℕ) (p : Point) (memory : Memory)
        → Runs w v
        → get_elem? v.validators i ≡ some p
        → Runs w (validator_goes i p memory v)
    mines :
        {v : Whole} (i : ℕ) (p : MinerPoint) (gives_up : Bool)
        → Runs w v
        → get_elem? v.miners i ≡ some p
        → Runs w (miner_goes i p gives_up v)
    generates :
        {v : Whole} (tx : Transaction)
        → Runs w v
        → Runs w (with_pool v ((add_transaction_to_pool tx v.shared.pool config.tx_pool_size).1))
    wakes :
        {v : Whole}
        → Runs w v
        → 0 < v.shared.pool.work_notification_sem
        → Runs w (
            with_pool v (record (v.shared.pool) {
              work_notification_sem = v.shared.pool.work_notification_sem - 1;
            }))
    grows_old :
        {v : Whole} (now last : ℤ)
        → Runs w v
        → Runs w (with_pool v ((age_transaction_pool now v.shared.pool last).0))

  -- The validators see steps of their own and changes of the pool.
  Runs-Reach : {w v : Whole} → Runs w v → Reach sha256 config (seen w) (seen v)
  unfolding validator_goes miner_goes
  Runs-Reach start = here
  Runs-Reach (reads i b r free checked) = next (Runs-Reach r) (read i b free checked)
  Runs-Reach (validates i p memory r at) = next (Runs-Reach r) (validator i p memory at)
  Runs-Reach (mines i p gives_up r at) = next (Runs-Reach r) (others _)
  Runs-Reach (generates tx r) = next (Runs-Reach r) (others _)
  Runs-Reach (wakes r posted) = next (Runs-Reach r) (others _)
  Runs-Reach (grows_old now last r) = next (Runs-Reach r) (others _)

  -- All that a step of a validator does to the pool is a call of it.
  advance-IsFrame :
      (memory : Memory) (p : Point) (s : Shared)
      → IsFrame config.tx_pool_size s.pool
      → IsFrame config.tx_pool_size (advance sha256 config memory p s).1.pool
  unfolding advance
  advance-IsFrame memory idle s h = h
  advance-IsFrame memory (got b) s h =
      elim (Bool-cases (verify_nonce sha256 memory.nonce_allocated memory.nonce_buffer b)) [
        | inl passed ↦ rw passed h
        | inr failed ↦ rw failed h
      ]
  advance-IsFrame memory (proven b) s h =
      elim (Bool-cases (check_previous sha256 memory b s.ledger)) [
        | inl last ↦ rw last h
        | inr stale ↦ rw stale h
      ]
  advance-IsFrame memory (linked b) s h =
      let checked =
        check_transactions-IsFrame memory.positions_allocated b s.pool config.tx_pool_size h in
      elim (Bool-cases (check_transactions memory.positions_allocated b s.pool).0) [
        | inl listed ↦ rw listed checked
        | inr unlisted ↦ rw unlisted checked
      ]
  advance-IsFrame memory (accepted b) s h =
      elim (Bool-cases (leb config.blockchain_blocks s.ledger.num_blocks)) [
        | inl full ↦ rw full h
        | inr space ↦ rw space h
      ]
  advance-IsFrame memory (admitted b) s h = h
  advance-IsFrame memory (stored b) s h = remove_transactions_from_pool-IsFrame b s.pool config h
  advance-IsFrame memory (refused b) s h = return_transactions_to_pool-IsFrame b s.pool config h

  Runs-IsFrame :
      {w v : Whole}
      → IsFrame config.tx_pool_size w.shared.pool
      → Runs w v
      → IsFrame config.tx_pool_size v.shared.pool
  unfolding validator_goes miner_goes moved
  Runs-IsFrame h start = h
  Runs-IsFrame h (reads i b r free checked) = Runs-IsFrame h r
  Runs-IsFrame h (validates {v} i p memory r at) =
      advance-IsFrame memory p v.shared (Runs-IsFrame h r)
  Runs-IsFrame h (mines {v} i p gives_up r at) =
      miner_step-IsFrame gives_up p v.shared.pool config.tx_pool_size config.transactions_per_block
        (Runs-IsFrame h r)
  Runs-IsFrame h (generates {v} tx r) =
      add_transaction_to_pool-IsFrame tx v.shared.pool config.tx_pool_size (Runs-IsFrame h r)
  Runs-IsFrame h (wakes r posted) =
      let kept = Runs-IsFrame h r in
      record { sized = kept.sized; percentage = kept.percentage; unlocked = kept.unlocked }
  Runs-IsFrame h (grows_old {v} now last r) =
      age_transaction_pool-IsFrame now last v.shared.pool config.tx_pool_size (Runs-IsFrame h r)

  -- However generators, the threads of the miner and any number of validators alternate, each between
  -- its sections under a mutex, with any blocks read: every block in the ledger is marked valid, and passes
  -- the check of its nonce as long as the ledger does not count more blocks than it has room for; the pool
  -- keeps its size and a percentage for its occupancy, and both mutexes are free between two steps.
  -- This holds of the first state by hypothesis.
  pub Runs-IsSound :
      {w v : Whole}
      → IsSound sha256 config (seen w)
      → IsFrame config.tx_pool_size w.shared.pool
      → Runs w v
      → IsSound sha256 config (seen v) × IsFrame config.tx_pool_size v.shared.pool
  Runs-IsSound sound frame r =
      (Reach-IsSound sha256 config sound (Runs-Reach r), Runs-IsFrame frame r)
