-- ===== src/Miner/RoundLaws.antt =====
-- What a round of a miner does to the pool, and what it sends.
use dei_chain.Base.{
  ℕ, ◌-◌, ◌≤◌, ◌≡◌, sym, Bool, true, false, Option, none, some, List, length, arith, inl, inr,
  Bool-cases, Option-cases, subst,
}
use dei_chain.Base.Int.{ℤ}
use dei_chain.Base.Arrays.{strlen}
use dei_chain.Data.{Transaction, TransactionBlock, TransactionPool, BlockchainLedger, Config}
use dei_chain.Pow.Hash.{digest_length}
use dei_chain.Pool.Counting.{live}
use dei_chain.Pool.Ids.{slots}
use dei_chain.Miner.Select.{Selected, select_transactions}
use dei_chain.Miner.Block.{create_block}
use dei_chain.Miner.ReturnLaws.{select_transactions-return}
use dei_chain.Miner.SelectLaws.{select_transactions_null}
use dei_chain.Miner.Pipeline.{selected_block_accepted}
use dei_chain.Miner.Mined.{Mined, mine-Mined}
use dei_chain.Miner.Round.{Outcomes, mine, miner_round}
use dei_chain.Validator.Ledger.{latest_hash}
use dei_chain.Validator.Check.{Memory, validate_block}

module _ (sha256 : List ℕ → List ℕ) where
  -- A round that sends no block, whatever made it give up, leaves as many occupied entries with an ID
  -- as there were, for every ID that stands in one entry of the pool at most, and the mutex free. The
  -- hypothesis on the mutex says that it was free before.
  miner_round-none :
      (o : Outcomes) (miner_id : ℕ) (config : Config) (ledger : BlockchainLedger)
      (pool : TransactionPool) (id : List ℕ)
      → pool.mutex ≡ 1
      → slots id pool.transactions_list ≤ 1
      → (miner_round sha256 o miner_id config ledger pool).0 ≡ none
      → let pool' = (miner_round sha256 o miner_id config ledger pool).1 in
        (live id pool'.transactions_list ≡ live id pool.transactions_list) × (pool'.mutex ≡ 1)
  unfolding miner_round
  miner_round-none o miner_id config ledger pool id free one nothing =
      let woken : TransactionPool = record pool {
        work_notification_sem = pool.work_notification_sem - 1;
      } in
      let out =
        select_transactions o.selected_allocated o.indices_allocated woken
          config.transactions_per_block in
      elim (Option-cases out.result) [
        | inl null ↦ ground (
          arith,
          null,
          select_transactions_null o.selected_allocated o.indices_allocated woken
              config.transactions_per_block free null,
        )
        | inr (ts, given) ↦ ground (
          arith,
          given,
          select_transactions-return o.selected_allocated o.indices_allocated woken
              config.transactions_per_block ts id free one given,
        )
      ]

  created-allocated :
      (a : Bool) (now : ℤ) (ts : List Transaction) (n : ℕ) (hash : List ℕ) (miner_id block_id : ℕ)
      (c : TransactionBlock)
      → create_block a now ts n hash miner_id block_id ≡ some c
      → create_block true now ts n hash miner_id block_id ≡ some c
  unfolding create_block
  created-allocated true now ts n hash miner_id block_id c made = made
  created-allocated false now ts n hash miner_id block_id c made = cc

  module _ (o : Outcomes) (miner_id : ℕ) (config : Config) (ledger : BlockchainLedger)
      (pool : TransactionPool) (b : TransactionBlock) where
    abbrev pub woken : TransactionPool
    woken = record pool { work_notification_sem = pool.work_notification_sem - 1 }

    abbrev pub chosen : Selected
    chosen =
        select_transactions o.selected_allocated o.indices_allocated woken
          config.transactions_per_block

    abbrev pub creates : Bool → List Transaction → ℤ → Option TransactionBlock
    creates a ts t =
        create_block a t ts config.transactions_per_block
          (latest_hash sha256 o.hash_allocated o.hash_buffer ledger) miner_id ledger.num_blocks

    -- A round that sends a block has selected transactions, created a block, and mined it.
    pub record Sent : Type 0 where
      pub ts : List Transaction
      pub mined : Mined sha256 o (creates true ts) b
      pub given : chosen.result ≡ some ts
      pub after : (miner_round sha256 o miner_id config ledger pool).1 ≡ chosen.pool

    pub round-Sent : (miner_round sha256 o miner_id config ledger pool).0 ≡ some b → Sent
    unfolding miner_round
    round-Sent sent = elim (Option-cases chosen.result) [
      | inl null ↦ absurd (ground (arith, null))
      | inr (ts, given) ↦ elim (Bool-cases o.ids_copied) [
        | inr none_copied ↦ absurd (ground (arith, given, none_copied))
        | inl copied ↦ elim (Option-cases (creates o.block_allocated ts o.now)) [
          | inl null ↦ absurd (ground (arith, given, copied, null))
          | inr (c, made) ↦
              let fine : (mine sha256 o c).0.error ≡ false = ground (arith, given, copied, made) in
              let block : (mine sha256 o c).1 ≡ b = ground (arith, given, copied, made) in
              record {
                ts = ts;
                mined = subst (Mined sha256 o (creates true ts)) block (
                    mine-Mined sha256 o ts config.transactions_per_block _ miner_id
                      ledger.num_blocks c
                      (created-allocated o.block_allocated o.now ts _ _ miner_id ledger.num_blocks c
                        made)
                      fine);
                given = given;
                after = ground (arith, given, copied, made, fine);
              }
        ]
      ]
    ]

  -- A block that a round sends is accepted by a validator that has its memory, if neither the pool
  -- nor the ledger changes between the start of the round and the check. The mutex of the pool was
  -- free and no occupied entry had an empty ID; SHA-256 is assumed to give at least its 32 bytes; the
  -- memory for the latest hash was found and the ledger has room for the blocks that it counts.
  pub miner_round-some :
      (o : Outcomes) (miner_id : ℕ) (config : Config) (ledger : BlockchainLedger)
      (pool : TransactionPool) (memory : Memory) (b : TransactionBlock)
      → ((bytes : List ℕ) → digest_length ≤ length (sha256 bytes))
      → ledger.num_blocks ≤ length ledger.blocks
      → pool.mutex ≡ 1
      → ((id : List ℕ) → strlen id ≡ 0 → live id pool.transactions_list ≡ 0)
      → o.hash_allocated ≡ true
      → memory.nonce_allocated ≡ true
      → memory.last_allocated ≡ true
      → memory.positions_allocated ≡ true
      → (miner_round sha256 o miner_id config ledger pool).0 ≡ some b
      → (validate_block sha256 memory b ledger
          (miner_round sha256 o miner_id config ledger pool).1).0
        ≡ true
  miner_round-some o miner_id config ledger pool memory b digest room free named m₀ m₁ m₂ m₃ sent =
      let s = round-Sent o miner_id config ledger pool b sent in
      let m = s.mined in
      let made : create_block true m.time s.ts config.transactions_per_block
            (latest_hash sha256 true o.hash_buffer ledger) miner_id ledger.num_blocks
          ≡ some m.start =
        subst
          (λ a.
            create_block true m.time s.ts config.transactions_per_block
              (latest_hash sha256 a o.hash_buffer ledger) miner_id ledger.num_blocks
            ≡ some m.start)
          m₀ m.made in
      subst (λ p. (validate_block sha256 memory b ledger p).0 ≡ true) (sym s.after)
        (subst
          (λ c.
            (validate_block sha256 memory c ledger (chosen o miner_id config ledger pool b).pool).0
            ≡ true)
          m.same
          (selected_block_accepted sha256 o.selected_allocated o.indices_allocated m.allocated
            o.hash_buffer m.buffer m.time config.transactions_per_block miner_id ledger.num_blocks
            s.ts m.start memory ledger (woken o miner_id config ledger pool b) digest room free
            named s.given made m.found m₁ m₂ m₃))
