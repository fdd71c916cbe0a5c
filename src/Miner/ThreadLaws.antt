-- ===== src/Miner/ThreadLaws.antt =====
-- What a round of a miner's thread frees, and what it does when the flag to terminate is not set.
use mathlib.Core.List.{perm_middle, perm_append_singleton}
use mathlib.Core.List.Perm
use mathlib.Core.List.{Perm}
use dei_chain.Base.{
  ℕ, ◌≤◌, ◌≡◌, ◌≢◌, ◌⊎◌, refl, Bool, length, ◌==◌, none, true, false, not, some, List, [], ◌∷◌,
  ◌++◌, ltb, inl, inr, Bool-cases, Option-cases, arith,
}
use dei_chain.Base.Int.{pos, eqb_ℤ}
use dei_chain.Data.{
  Transaction, TransactionBlock, TransactionPool, BlockchainLedger, Config, sem_wait,
}
use dei_chain.Miner.Select.{Selected, reserve, select_transactions}
use dei_chain.Pool.Entries.{count_occupied}
use dei_chain.Miner.Block.{create_block}
use dei_chain.Miner.Round.{mine, miner_round}
use dei_chain.Miner.Thread.{
  Environment, transaction_array, block_struct, id_copies, Round, block_round, index_array,
  selection_allocated, buffers_freed, selecting_round, selected_round, thread_round,
}
use dei_chain.Wire.Send.{send_block_to_validator}
use dei_chain.Validator.Ledger.{latest_hash}

-- Enough occupied entries, and too few distinct IDs among them.
abbrev pub IsShort : ℕ → TransactionPool → Type 0
IsShort per_block pool =
    (per_block ≤ count_occupied pool.transactions_list)
    × (length (reserve per_block [] 0 pool.transactions_list).indices ≢ per_block)

-- What `select_transactions` allocates and frees.
Selects : Bool → Bool → ℕ → TransactionPool → Selected → Type 0
Selects first second per_block pool out =
    ((ts : List Transaction) × (out.result ≡ some ts)
      × (buffers_freed out.freed ≡ index_array ∷ []))
    ⊎ ((out.result ≡ none) × (buffers_freed out.freed ≡ selection_allocated first second))
    ⊎ ((out.result ≡ none)
        × (selection_allocated first second ≡ transaction_array ∷ index_array ∷ [])
        × (buffers_freed out.freed ≡ transaction_array ∷ index_array ∷ index_array ∷ [])
        × IsShort per_block pool)

select_transactions-Selects :
    (first second : Bool) (pool : TransactionPool) (per_block : ℕ)
    → Selects first second per_block pool (select_transactions first second pool per_block)
unfolding select_transactions Selects
select_transactions-Selects false second pool per_block = inr (inl (refl, refl))
select_transactions-Selects true false pool per_block = inr (inl (refl, refl))
select_transactions-Selects true true pool per_block =
    elim (Bool-cases (ltb (count_occupied pool.transactions_list) per_block)) [
      | inl few ↦ rw few (inr (inl (refl, refl)))
      | inr enough ↦
          let indices = (reserve per_block [] 0 pool.transactions_list).indices in
          elim (Bool-cases (length indices == per_block)) [
            | inl all ↦ rw (enough, all) (inl (_, refl, refl))
            | inr missing ↦
                rw (enough, missing)
                  (inr (
                    inr (
                      refl,
                      refl,
                      refl,
                      (ground (arith, enough), λ e. ground (arith, missing, e)),
                    )))
          ]
    ]

abbrev IsBalanced : Round → Type 0
IsBalanced r = Perm r.allocated r.freed

module _ (sha256 : List ℕ → List ℕ) (env : Environment) (miner_id : ℕ) (config : Config) where
  block_round-IsBalanced :
      (ts : List Transaction) (b : TransactionBlock) (pool : TransactionPool)
      → IsBalanced (block_round sha256 env miner_id config ts b pool)
  unfolding block_round
  block_round-IsBalanced ts b pool =
      let all = Perm.symm (
        perm_middle {a = transaction_array} (id_copies config.transactions_per_block)
          (block_struct ∷ [])) in
      ground (arith, all)

  selected_round-IsBalanced :
      (previous_hash : List ℕ) (block_id : ℕ) (ts : List Transaction) (pool : TransactionPool)
      → IsBalanced (selected_round sha256 env miner_id config previous_hash block_id ts pool)
  unfolding selected_round
  selected_round-IsBalanced previous_hash block_id ts pool =
      let one : Perm (transaction_array ∷ []) (transaction_array ∷ []) = Perm.rfl in
      let copied : Perm (transaction_array ∷ id_copies env.copies)
          (id_copies env.copies ++ transaction_array ∷ []) =
        Perm.symm (perm_append_singleton transaction_array (id_copies env.copies)) in
      let all_copied : Perm (transaction_array ∷ id_copies config.transactions_per_block)
          (id_copies config.transactions_per_block ++ transaction_array ∷ []) =
        Perm.symm
          (perm_append_singleton transaction_array (id_copies config.transactions_per_block)) in
      elim (Option-cases (
        create_block env.outcomes.block_allocated env.outcomes.now ts config.transactions_per_block
          previous_hash miner_id block_id)) [
            | inl null ↦ ground (arith, one, copied, all_copied, null)
            | inr (b, made) ↦ ground (arith, one, copied, made, block_round-IsBalanced ts b pool)
          ]

  -- The round frees what it allocates, or the array of indices once more.
  abbrev IsAccounted : TransactionPool → Round → Type 0
  IsAccounted pool r =
      Perm r.allocated r.freed
      ⊎ (Perm (index_array ∷ r.allocated) r.freed × IsShort config.transactions_per_block pool)

  selecting_round-IsAccounted :
      (previous_hash : List ℕ) (block_id : ℕ) (pool : TransactionPool)
      → IsAccounted pool (selecting_round sha256 env miner_id config previous_hash block_id pool)
  unfolding selecting_round Selects
  selecting_round-IsAccounted previous_hash block_id pool =
      let o = env.outcomes in
      elim (select_transactions-Selects o.selected_allocated o.indices_allocated pool
        config.transactions_per_block) [
          | inl (ts, given, freed) ↦
              rw (given, freed, selecting_round)
                (inl
                  (Perm.cons index_array (selected_round-IsBalanced previous_hash block_id ts _)))
          | inr (inl (null, freed)) ↦ rw (null, freed, selecting_round) (inl Perm.rfl)
          | inr (inr (null, allocated, freed, short)) ↦
              rw (null, freed, allocated, selecting_round)
                (inr (Perm.swap transaction_array index_array (index_array ∷ []), short))
        ]

  -- On every path through a round, the allocations' failures, the flag and the pipe's included, what it
  -- frees is what it allocated, so that no allocation is lost and none is freed twice, but for one: when
  -- the pool has enough occupied entries and too few distinct IDs among them, what it frees is what it
  -- allocated and the array of indices once more.
  pub thread_round-perm :
      (ledger : BlockchainLedger) (pool : TransactionPool)
      → let r = thread_round sha256 env miner_id config ledger pool in
        Perm r.allocated r.freed
        ⊎ (Perm (index_array ∷ r.allocated) r.freed × IsShort config.transactions_per_block pool)
  unfolding thread_round
  thread_round-perm ledger pool =
      let o = env.outcomes in
      let woken : TransactionPool = record pool {
        work_notification_sem = sem_wait pool.work_notification_sem;
      } in
      let accounted =
        selecting_round-IsAccounted (latest_hash sha256 o.hash_allocated o.hash_buffer ledger)
          ledger.num_blocks woken in
      elim (Bool-cases (env.flag 0)) [
        | inl set_before ↦ rw set_before (inl Perm.rfl)
        | inr unset ↦ elim (Bool-cases env.notified) [
          | inr interrupted ↦ rw (unset, interrupted) (inl Perm.rfl)
          | inl notified ↦ elim (Bool-cases (env.flag 1)) [
            | inl set_behind ↦ rw (unset, notified, set_behind) (inl Perm.rfl)
            | inr unset_behind ↦ elim (Bool-cases (env.flag 2)) [
              | inl set_hashed ↦ rw (unset, notified, unset_behind, set_hashed) (inl Perm.rfl)
              | inr unset_hashed ↦ rw (unset, notified, unset_behind, unset_hashed) accounted
            ]
          ]
        ]
      ]

  -- If the flag is not set at any of the places that read it, and the semaphore lets the thread
  -- through, the round does what `miner_round` does and the thread stays in its loop. The copies of the
  -- IDs succeed exactly if there is one for each transaction, and the block is sent if
  -- `send_block_to_validator` does not return -1.
  thread_round-eq :
      (ledger : BlockchainLedger) (pool : TransactionPool)
      → ((i : ℕ) → env.flag i ≡ false)
      → env.notified ≡ true
      → env.outcomes.ids_copied ≡ not (ltb env.copies config.transactions_per_block)
      → ((b : TransactionBlock)
          → (miner_round sha256
              (record (env.outcomes) { sent = true })
              miner_id
              config
              ledger
              pool).0
            ≡ some b
          → eqb_ℤ (send_block_to_validator env.opened env.writes miner_id b).0 (pos 0)
            ≡ env.outcomes.sent)
      → let r = thread_round sha256 env miner_id config ledger pool in
        ((r.block_sent, r.pool) ≡ miner_round sha256 env.outcomes miner_id config ledger pool)
        × (r.leaves ≡ false)
  unfolding thread_round selecting_round miner_round
  thread_round-eq ledger pool unset notified copied sends =
      let o = env.outcomes in
      let woken : TransactionPool = record pool {
        work_notification_sem = sem_wait pool.work_notification_sem;
      } in
      let out =
        select_transactions o.selected_allocated o.indices_allocated woken
          config.transactions_per_block in
      elim (Option-cases out.result) [
        | inl null ↦ ground (arith, null, unset 0, unset 1, unset 2, unset 3, notified)
        | inr (ts, given) ↦ elim (Bool-cases o.ids_copied) [
          | inr some_missing ↦
              ground
                (arith, given, unset 0, unset 1, unset 2, unset 3, notified, some_missing, copied)
          | inl all_copied ↦
              elim (Option-cases (
                create_block o.block_allocated o.now ts config.transactions_per_block
                  (latest_hash sha256 o.hash_allocated o.hash_buffer ledger) miner_id
                  ledger.num_blocks)) [
                    | inl null ↦ ground (
                      arith,
                      given,
                      unset 0,
                      unset 1,
                      unset 2,
                      unset 3,
                      notified,
                      all_copied,
                      copied,
                      null,
                    )
                    | inr (b, made) ↦ elim (Bool-cases (mine sha256 o b).0.error) [
                      | inl failed ↦ ground (
                        arith,
                        given,
                        unset 0,
                        unset 1,
                        unset 2,
                        unset 3,
                        unset 4,
                        unset 5,
                        unset 6,
                        notified,
                        all_copied,
                        copied,
                        made,
                        failed,
                      )
                      | inr found ↦ ground (
                        arith,
                        given,
                        unset 0,
                        unset 1,
                        unset 2,
                        unset 3,
                        unset 4,
                        unset 5,
                        unset 6,
                        unset 7,
                        notified,
                        all_copied,
                        copied,
                        made,
                        found,
                        sends (mine sha256 o b).1,
                      )
                    ]
                  ]
        ]
      ]
