-- ===== src/System/Sendable.antt =====
-- The block that a round of a miner sends fits its place in memory, and the pipe can carry it.
use mathlib.Core.Option.{some-injective}
use dei_chain.Base.{
  ℕ, zero, suc, ◌+◌, ◌-◌, ◌^◌, ◌≤◌, ◌<◌, ◌≡◌, refl, sym, ap, subst, ◌∙◌, Bool, true, false, not,
  ◌&&◌, some, List, [], ◌∷◌, ◌++◌, length, length-set, get_elem?, get_elem?-lt, get_elem?-set_self,
  set, All, arith, inl, inr, Bool-cases,
}
use dei_chain.Base.Int.{ℤ}
use dei_chain.Base.Arrays.{Fits}
use dei_chain.Data.{
  Transaction, TransactionBlock, TransactionPoolEntry, TransactionPool, BlockchainLedger, Config,
  hash_size, txb_id_len,
}
use dei_chain.Pow.Hash.{digest_length, length-compute_sha256}
use dei_chain.Pow.Layout.{IsTransaction, IsBlock}
use dei_chain.Pow.Search.{with_nonce}
use dei_chain.Pow.Serialize.{serialized}
use dei_chain.Pow.Sound.{proof_of_work_sound}
use dei_chain.Pool.Entries.{id_of, mentions}
use dei_chain.Miner.Accepted.{create_block-IsBlock}
use dei_chain.Miner.Block.{create_block}
use dei_chain.Miner.Round.{Outcomes, miner_round}
use dei_chain.Miner.RoundLaws.{round-Sent, woken}
use dei_chain.Miner.Select.{reserve, select_transactions}
use dei_chain.Miner.SelectLaws.{select_transactions-some}
use dei_chain.Validator.Ledger.{latest_hash}
use dei_chain.Wire.Sendable.{IsSendable}

-- The transactions of the entries hold what their places in memory can hold.
abbrev pub AreTransactions : List TransactionPoolEntry → Type 0
AreTransactions es = All (λ (e : TransactionPoolEntry). IsTransaction e.transaction) es

All-snoc :
    (ts : List Transaction) (t : Transaction)
    → All IsTransaction ts
    → IsTransaction t
    → All IsTransaction (ts ++ t ∷ [])
All-snoc [] t h k = (k, tt)
All-snoc (u ∷ ts) t h k = (h.0, All-snoc ts t h.1 k)

reserve-AreTransactions :
    (room : ℕ) (selected : List Transaction) (i : ℕ) (es : List TransactionPoolEntry)
    → All IsTransaction selected
    → AreTransactions es
    → All IsTransaction (reserve room selected i es).selected
unfolding reserve
reserve-AreTransactions room selected i [] h k = h
reserve-AreTransactions zero selected i (e ∷ es) h k = h
reserve-AreTransactions (suc room) selected i (e ∷ es) h k =
    elim (Bool-cases (not e.empty && not (mentions (id_of e) selected))) [
      | inl fits ↦ rw fits (
          reserve-AreTransactions room (selected ++ e.transaction ∷ []) (i + 1) es
            (All-snoc selected e.transaction h k.0) k.1)
      | inr skipped ↦ rw skipped (reserve-AreTransactions (suc room) selected (i + 1) es h k.1)
    ]

select_transactions-AreTransactions :
    (first second : Bool) (pool : TransactionPool) (per_block : ℕ) (ts : List Transaction)
    → AreTransactions pool.transactions_list
    → (select_transactions first second pool per_block).result ≡ some ts
    → All IsTransaction ts
unfolding select_transactions
select_transactions-AreTransactions false second pool per_block ts h given = cc
select_transactions-AreTransactions true false pool per_block ts h given = cc
select_transactions-AreTransactions true true pool per_block ts h given =
    subst (All IsTransaction) (the_selected)
      (reserve-AreTransactions per_block [] 0 pool.transactions_list tt h)
  where
    the_selected : (reserve per_block [] 0 pool.transactions_list).selected ≡ ts
    the_selected = ground arith

length-latest_hash :
    (sha256 : List ℕ → List ℕ) (old : List ℕ) (ledger : BlockchainLedger)
    → ((bytes : List ℕ) → digest_length ≤ length (sha256 bytes))
    → ledger.num_blocks ≤ length ledger.blocks
    → length (latest_hash sha256 true old ledger) ≡ hash_size
unfolding latest_hash
length-latest_hash sha256 old ledger digest h = at ledger.num_blocks h
  where
    at :
        (n : ℕ)
        → n ≤ length ledger.blocks
        → length (latest_hash sha256 true old (record ledger { num_blocks = n })) ≡ hash_size
    at zero p = refl
    at (suc n) p =
        let (e, found) = get_elem?-lt ledger.blocks n p in
        rw (found, latest_hash)
          (length-compute_sha256 sha256 e.block old (digest (serialized e.block)))

get_elem?-last :
    (xs ys : List ℕ) (n : ℕ) → set xs n 0 ≡ ys → n < length ys → get_elem? ys n ≡ some 0
get_elem?-last xs ys n e h =
    ap (λ l. get_elem? l n) (sym e)
    ∙ get_elem?-set_self xs n 0 (omega (arith, length-set xs n 0, ap length e))

-- The arrays of a block that has been created end in a NUL.
created-ends :
    (now : ℤ) (ts : List Transaction) (n : ℕ) (hash : List ℕ) (miner_id block_id : ℕ)
    (b : TransactionBlock)
    → create_block true now ts n hash miner_id block_id ≡ some b
    → length b.txb_id ≡ txb_id_len
    → length b.previous_block_hash ≡ hash_size
    → (get_elem? b.txb_id (txb_id_len - 1) ≡ some 0)
      × (get_elem? b.previous_block_hash (hash_size - 1) ≡ some 0)
unfolding create_block
created-ends now ts n hash miner_id block_id b made id_size hash_fits =
    let e = some-injective _ _ made in
    (
      get_elem?-last _ b.txb_id (txb_id_len - 1) (ap (λ (c : TransactionBlock). c.txb_id) e)
          (omega (arith, id_size)),
      get_elem?-last _ b.previous_block_hash (hash_size - 1)
          (ap (λ (c : TransactionBlock). c.previous_block_hash) e) (omega (arith, hash_fits)),
    )

with_nonce-IsSendable :
    (config : Config) (b : TransactionBlock) (ts : List Transaction) (n : ℕ)
    → IsSendable config b ts
    → n < 2 ^ 32
    → IsSendable config (with_nonce b n) ts
with_nonce-IsSendable config b ts n h small = record {
  built = record {
    id_size = h.built.id_size;
    hash_fits = h.built.hash_fits;
    time_fits = h.built.time_fits;
    nonce_fits = small;
    points = h.built.points;
    counted = h.built.counted;
    count_fits = h.built.count_fits;
    each = h.built.each;
  };
  id_ends = h.id_ends;
  hash_ends = h.hash_ends;
  some_transactions = h.some_transactions;
  few_transactions = h.few_transactions;
}

created-IsSendable :
    (config : Config) (now : ℤ) (ts : List Transaction) (hash : List ℕ) (miner_id block_id : ℕ)
    (b : TransactionBlock)
    → Fits (2 ^ 64) now
    → length hash ≡ hash_size
    → All IsTransaction ts
    → length ts ≡ config.transactions_per_block
    → 0 < config.transactions_per_block
    → config.transactions_per_block < 2 ^ 31
    → create_block true now ts config.transactions_per_block hash miner_id block_id ≡ some b
    → IsSendable config b ts
created-IsSendable config now ts hash miner_id block_id b fits size each many some_few few made =
    let built : IsBlock b ts =
      create_block-IsBlock now ts hash miner_id block_id b fits size (omega (arith, many)) each
        (ap (λ n. create_block true now ts n hash miner_id block_id) many ∙ made) in
    let ends =
      created-ends now ts config.transactions_per_block hash miner_id block_id b made built.id_size
        built.hash_fits in
    record {
      built = built;
      id_ends = ends.0;
      hash_ends = ends.1;
      some_transactions = omega (arith, many);
      few_transactions = omega (arith, many);
    }

module _ (sha256 : List ℕ → List ℕ) where
  -- The block that a round sends is as the pipe carries it. The transactions in the pool, the two
  -- times and the number of transactions per block hold what their places in memory can hold.
  pub miner_round-IsSendable :
      (o : Outcomes) (miner_id : ℕ) (config : Config) (ledger : BlockchainLedger)
      (pool : TransactionPool) (b : TransactionBlock)
      → ((bytes : List ℕ) → digest_length ≤ length (sha256 bytes))
      → ledger.num_blocks ≤ length ledger.blocks
      → pool.mutex ≡ 1
      → AreTransactions pool.transactions_list
      → Fits (2 ^ 64) o.now
      → Fits (2 ^ 64) o.retry_now
      → 0 < config.transactions_per_block
      → config.transactions_per_block < 2 ^ 31
      → o.hash_allocated ≡ true
      → (miner_round sha256 o miner_id config ledger pool).0 ≡ some b
      → (ts : List Transaction) × IsSendable config b ts
  miner_round-IsSendable o miner_id config ledger pool b digest room free fit now retry_now some_few
        few m₀ sent =
      let s = round-Sent sha256 o miner_id config ledger pool b sent in
      let m = s.mined in
      let out = woken sha256 o miner_id config ledger pool b in
      let facts =
        select_transactions-some o.selected_allocated o.indices_allocated out
          config.transactions_per_block s.ts [] free s.given in
      let timed : Fits (2 ^ 64) m.time = elim m.timed [
        | inl first ↦ subst (Fits (2 ^ 64)) (sym first) now
        | inr second ↦ subst (Fits (2 ^ 64)) (sym second) retry_now
      ] in
      let size : length (latest_hash sha256 o.hash_allocated o.hash_buffer ledger) ≡ hash_size =
        rw m₀ (length-latest_hash sha256 o.hash_buffer ledger digest room) in
      let start : IsSendable config m.start s.ts =
        created-IsSendable config m.time s.ts _ miner_id ledger.num_blocks m.start timed size
          (select_transactions-AreTransactions o.selected_allocated o.indices_allocated out
            config.transactions_per_block s.ts fit s.given)
          facts.0 some_few few m.made in
      let found = proof_of_work_sound sha256 m.allocated m.buffer m.start m.found in
      (
        s.ts,
        subst (λ c. IsSendable config c s.ts) (sym found.0 ∙ m.same)
            (with_nonce-IsSendable config m.start s.ts _ start (omega (arith, found.1))),
      )
