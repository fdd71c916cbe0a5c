-- ===== src/TxGen/LoopLaws.antt =====
-- A generator that runs alone fills the pool.
use dei_chain.Base.{
  ℕ, suc, ◌+◌, ◌⊎◌, ◌-◌, ◌≤◌, ◌<◌, ◌≡◌, ◌≢◌, refl, sym, ap, subst, ◌∙◌, true, false, List, [], ◌∷◌,
  ◌++◌, length, ltb, ◌==◌, if◌then◌else◌, arith, inl, inr, Bool-cases,
}
use dei_chain.Base.Int.{ℤ, pos, negsuc}
use dei_chain.Base.Arrays.{strcmp_eq, strcmp_eq_iff}
use dei_chain.Base.Decimal.{c_string-text}
use dei_chain.Data.{Transaction, TransactionPool, tx_id_len}
use dei_chain.Pool.Entries.{count_occupied}
use dei_chain.Pool.Counting.{bit, live, live-same, count_occupied-le-length}
use dei_chain.Pool.Invariant.{IsPool}
use dei_chain.TxGen.Generate.{transaction_name, generate_transaction}
use dei_chain.TxGen.GenerateLaws.{name-IsText, name-injective, generated-name}
use dei_chain.TxGen.Add.{add_transaction_to_pool}
use dei_chain.TxGen.AddLaws.{
  add_transaction_to_pool_result, add_transaction_to_pool_refused, add_transaction_to_pool_accepted,
  add_transaction_to_pool-IsPool,
}
use dei_chain.TxGen.Loop.{Draw, txgen_loop}

-- The name as a C string.
abbrev pub key : ℕ → ℕ → List ℕ
key pid counter = transaction_name pid counter ++ 0 ∷ []

module _ (reward : ℤ) (pid counter : ℕ) (d : Draw)
    (fits : length (transaction_name pid counter) ≤ tx_id_len - 1) where
  abbrev made : Transaction
  made = (generate_transaction reward pid counter d.rand_reward d.value d.now d.stack).0

  made-key : strcmp_eq made.tx_id (key pid counter) ≡ true
  made-key = (strcmp_eq_iff _ _).1 (
      generated-name reward pid counter d.rand_reward d.value d.now d.stack fits
      ∙ sym (c_string-text (transaction_name pid counter) [] (name-IsText pid counter)))

  made_apart : (m : ℕ) → counter ≢ m → strcmp_eq made.tx_id (key pid m) ≡ false
  made_apart m apart = elim (Bool-cases (strcmp_eq made.tx_id (key pid m))) [
    | inr differ ↦ differ
    | inl same ↦ absurd (
        apart (
          name-injective pid counter m (
            sym (generated-name reward pid counter d.rand_reward d.value d.now d.stack fits)
            ∙ (strcmp_eq_iff _ _).0 same
            ∙ c_string-text (transaction_name pid m) [] (name-IsText pid m))))
  ]

-- The names from `counter` on, `n` of them, fit into an ID, and no occupied entry carries one.
abbrev pub AreFree : ℕ → ℕ → ℕ → TransactionPool → Type 0
AreFree pid counter n pool =
    (m : ℕ)
    → counter ≤ m
    → m < counter + n
    → (length (transaction_name pid m) ≤ tx_id_len - 1)
      × (live (key pid m) pool.transactions_list ≡ 0)

-- The pool holds `n` transactions more, or is full if that is too many; the notifications have grown
-- with it.
pub record IsFilled (size n : ℕ) (pool pool' : TransactionPool) : Type 0 where
  pub pool_kept : IsPool size pool'
  pub filled : count_occupied pool'.transactions_list ≡ (
      if ltb (count_occupied pool.transactions_list + n) size
      then count_occupied pool.transactions_list + n
      else size)
  pub notified :
      pool'.work_notification_sem + count_occupied pool.transactions_list
      ≡ pool.work_notification_sem + count_occupied pool'.transactions_list

-- One turn with an ID that is not in the pool: the transaction is added, or the pool was full.
pub record IsAdded (size : ℕ) (tx : Transaction) (pool pool' : TransactionPool) : Type 0 where
  pub room : count_occupied pool.transactions_list < size
  pub one_more : count_occupied pool'.transactions_list ≡ count_occupied pool.transactions_list + 1
  pub bag :
      (id : List ℕ)
      → live id pool'.transactions_list
        ≡ live id pool.transactions_list + bit (strcmp_eq tx.tx_id id)
  pub one_notified : pool'.work_notification_sem ≡ pool.work_notification_sem + 1

add_fresh :
    (tx : Transaction) (pool : TransactionPool) (size : ℕ)
    → IsPool size pool
    → live tx.tx_id pool.transactions_list ≡ 0
    → let pool' = (add_transaction_to_pool tx pool size).1 in
      IsAdded size tx pool pool' ⊎ ((count_occupied pool.transactions_list ≡ size) × (pool' ≡ pool))
add_fresh tx pool size h unused =
    let es = pool.transactions_list in
    let result = add_transaction_to_pool_result tx pool size in
    elim (Bool-cases (count_occupied es == length es)) [
      | inl full ↦
          let code : (add_transaction_to_pool tx pool size).0 ≡ negsuc 0 =
            ground (arith, result, full) in
          let same_size : count_occupied es ≡ size = ground (arith, full, h.sized) in
          inr (same_size, add_transaction_to_pool_refused tx pool size h.unlocked (λ ok. cc))
      | inr space ↦
          let code : (add_transaction_to_pool tx pool size).0 ≡ pos 0 =
            ground (arith, result, space, unused) in
          let (bag, _, more, _, sem, _) =
            add_transaction_to_pool_accepted tx pool size h.unlocked code in
          let apart : count_occupied es ≢ length es = λ same. ground (arith, space, same) in
          inl (record {
            room = ground (arith, apart, h.sized, count_occupied-le-length es);
            one_more = more;
            bag = bag;
            one_notified = sem;
          })
    ]

added-IsFilled :
    (size n : ℕ) (tx : Transaction) (pool pool' pool'' : TransactionPool)
    → IsAdded size tx pool pool'
    → IsFilled size n pool' pool''
    → IsFilled size (suc n) pool pool''
added-IsFilled size n tx pool pool' pool'' added h = record {
  pool_kept = h.pool_kept;
  filled = ground (arith, added.room, added.one_more, h.filled);
  notified = omega (arith, added.one_more, added.one_notified, h.notified);
}

full-IsFilled :
    (size n : ℕ) (pool pool' pool'' : TransactionPool)
    → count_occupied pool.transactions_list ≡ size
    → pool' ≡ pool
    → IsFilled size n pool' pool''
    → IsFilled size (suc n) pool pool''
full-IsFilled size n pool pool' pool'' full same h =
    let h' : IsFilled size n pool pool'' =
      subst (λ (p : TransactionPool). IsFilled size n p pool'') same h in
    record {
      pool_kept = h'.pool_kept;
      filled = ground (arith, full, h'.filled);
      notified = h'.notified;
    }

module _ (reward : ℤ) (pid size : ℕ) where
  -- A generator that runs alone, from a well-formed pool on: after `n` turns the pool holds `n`
  -- transactions more, or is full if it has no room for them, it is well formed, and for each
  -- transaction that was added one notification was posted. The hypotheses are that the names of these turns have at
  -- most 15 characters and that none of them is in the pool before.
  pub txgen_loop-IsFilled :
      (ds : List Draw) (counter : ℕ) (pool : TransactionPool)
      → IsPool size pool
      → AreFree pid counter (length ds) pool
      → IsFilled size (length ds) pool (txgen_loop reward pid size ds counter pool).1
  unfolding txgen_loop
  txgen_loop-IsFilled [] counter pool h free = record {
    pool_kept = h;
    filled = ground (arith, h.sized, count_occupied-le-length pool.transactions_list);
    notified = refl;
  }
  txgen_loop-IsFilled (d ∷ ds) counter pool h free =
      let (fits, none_there) = free counter (omega arith) (omega arith) in
      let tx = made reward pid counter d fits in
      let named : live tx.tx_id pool.transactions_list ≡ 0 =
        live-same tx.tx_id (key pid counter) pool.transactions_list
          (made-key reward pid counter d fits)
        ∙ none_there in
      let pool' = (add_transaction_to_pool tx pool size).1 in
      let kept : IsPool size pool' = add_transaction_to_pool-IsPool tx pool size h in
      elim (add_fresh tx pool size h named) [
        | inl added ↦
            let free' : AreFree pid (counter + 1) (length ds) pool' = λ m low high. (
              (free m (omega arith) (omega arith)).0,
              added.bag (key pid m)
                  ∙ omega (
                    arith,
                    (free m (omega arith) (omega arith)).1,
                    ap bit (made_apart reward pid counter d fits m (λ same. absurd (omega arith))),
                  ),
            ) in
            added-IsFilled size (length ds) tx pool pool' _ added
              (txgen_loop-IsFilled ds (counter + 1) pool' kept free')
        | inr (full, same) ↦
            let free' : AreFree pid (counter + 1) (length ds) pool' =
              subst (AreFree pid (counter + 1) (length ds)) (sym same)
                (λ m low high. free m (omega arith) (omega arith)) in
            full-IsFilled size (length ds) pool pool' _ full same
              (txgen_loop-IsFilled ds (counter + 1) pool' kept free')
      ]
