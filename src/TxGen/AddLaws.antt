-- ===== src/TxGen/AddLaws.antt =====
-- What `add_transaction_to_pool` does to the pool on each of its results.
use dei_chain.Base.{
  ℕ, suc, ◌+◌, ◌≡◌, refl, ap, ◌∙◌, ◌≢◌, true, some, List, [], ◌∷◌, if◌then◌else◌, ◌==◌, length,
  get_elem?, set, length-set, arith, inl, inr, Bool-cases, Option-cases, ltb,
}
use dei_chain.Base.Int.{pos, negsuc, ℤ-discrete}
use dei_chain.Base.Arrays.{strcmp_eq}
use dei_chain.Data.{Transaction, TransactionPoolEntry, TransactionPool}
use dei_chain.Pool.Entries.{count_occupied, occupancy_of, first_empty}
use dei_chain.Pool.Counting.{
  bit, live, live-set, live-same, count_occupied-set, first_empty-some, first_empty-none,
  first_empty_lt, occupancy_of-le,
}
use dei_chain.Pool.Invariant.{IsPool}
use dei_chain.TxGen.Add.{duplicated, fresh_entry, add_transaction_to_pool}

-- The loop skips `position`, which is free, so that it looks at every occupied entry.
duplicated-eq-live :
    (position i : ℕ) (id : List ℕ) (es : List TransactionPoolEntry)
    → ((j : ℕ) (e : TransactionPoolEntry)
        → i + j ≡ position
        → get_elem? es j ≡ some e
        → e.empty ≡ true)
    → duplicated position i id es ≡ ltb 0 (live id es)
unfolding duplicated live
duplicated-eq-live position i id [] free = refl
duplicated-eq-live position i id (e ∷ es) free =
    let ih : duplicated position (i + 1) id es ≡ ltb 0 (live id es) =
      duplicated-eq-live position (i + 1) id es (λ j f p q. free (suc j) f (omega arith) q) in
    elim (Bool-cases (i == position)) [
      | inl here ↦ ground (arith, ih, free 0 e)
      | inr there ↦ ground (arith, ih)
    ]

duplicated-first_empty :
    (id : List ℕ) (es : List TransactionPoolEntry) (position : ℕ)
    → first_empty es ≡ some position
    → duplicated position 0 id es ≡ ltb 0 (live id es)
duplicated-first_empty id es position h = duplicated-eq-live position 0 id es free
  where
    free :
        (j : ℕ) (e : TransactionPoolEntry)
        → 0 + j ≡ position
        → get_elem? es j ≡ some e
        → e.empty ≡ true
    free j e p q = let (f, at_position, is_free) = first_empty-some es position h in ground arith

-- What a call returns: -1 exactly if every entry is occupied, otherwise -2 exactly if an occupied
-- entry carries the ID already, and otherwise 0.
pub add_transaction_to_pool_result :
    (tx : Transaction) (pool : TransactionPool) (pool_size : ℕ)
    → let es = pool.transactions_list in
      (add_transaction_to_pool tx pool pool_size).0 ≡ (
        if count_occupied es == length es
        then negsuc 0
        else if ltb 0 (live tx.tx_id es)
        then negsuc 1
        else pos 0)
unfolding add_transaction_to_pool
add_transaction_to_pool_result tx pool pool_size =
    elim (Option-cases (first_empty pool.transactions_list)) [
      | inl full ↦ ground (arith, full, first_empty-none pool.transactions_list full)
      | inr (position, found) ↦ ground (
        arith,
        first_empty_lt pool.transactions_list position found,
        duplicated-first_empty tx.tx_id pool.transactions_list position found,
      )
    ]

-- A call that does not return 0 leaves the whole pool as it was, its semaphores included; the
-- hypothesis on the mutex says that it was free.
pub add_transaction_to_pool_refused :
    (tx : Transaction) (pool : TransactionPool) (pool_size : ℕ)
    → pool.mutex ≡ 1
    → (add_transaction_to_pool tx pool pool_size).0 ≢ pos 0
    → (add_transaction_to_pool tx pool pool_size).1 ≡ pool
unfolding add_transaction_to_pool
add_transaction_to_pool_refused tx pool pool_size free h =
    elim (Option-cases (first_empty pool.transactions_list)) [
      | inl full ↦ ground arith
      | inr (position, found) ↦ ground arith
    ]

-- A call that returns 0 puts the transaction, of age 0, into one free entry, which is the first. As
-- a bag of IDs the pool gains this one and loses none; one more entry is occupied, the occupancy is
-- computed anew, one notification is posted, and the mutex is free again. The hypothesis on the
-- mutex says that it was free before.
pub add_transaction_to_pool_accepted :
    (tx : Transaction) (pool : TransactionPool) (pool_size : ℕ)
    → pool.mutex ≡ 1
    → (add_transaction_to_pool tx pool pool_size).0 ≡ pos 0
    → let pool' = (add_transaction_to_pool tx pool pool_size).1 in
      let es = pool.transactions_list in
      let es' = pool'.transactions_list in
      ((id : List ℕ) → live id es' ≡ live id es + bit (strcmp_eq tx.tx_id id))
      × ((i : ℕ) × (first_empty es ≡ some i) × (es' ≡ set es i (fresh_entry tx)))
      × (count_occupied es' ≡ count_occupied es + 1)
      × (pool'.occupancy ≡ occupancy_of es' pool_size)
      × (pool'.work_notification_sem ≡ pool.work_notification_sem + 1)
      × (pool'.mutex ≡ 1)
unfolding add_transaction_to_pool
add_transaction_to_pool_accepted tx pool pool_size free h =
    elim (Option-cases (first_empty pool.transactions_list)) [
      | inl full ↦ ground arith
      | inr (position, found) ↦
          let es = pool.transactions_list in
          let (old, here, is_free) = first_empty-some es position found in
          (
            (λ id. ground (arith, live-set id es position old (fresh_entry tx) here)),
            (position, found, ground arith),
            ground (arith, count_occupied-set es position old (fresh_entry tx) here),
            ground arith,
            ground arith,
            ground arith,
          )
    ]

-- An accepted ID was carried by no occupied entry.
accepted-live :
    (tx : Transaction) (pool : TransactionPool) (pool_size : ℕ)
    → (add_transaction_to_pool tx pool pool_size).0 ≡ pos 0
    → live tx.tx_id pool.transactions_list ≡ 0
accepted-live tx pool pool_size h = ground (arith, add_transaction_to_pool_result tx pool pool_size)

accepted-IsPool :
    (tx : Transaction) (pool : TransactionPool) (pool_size : ℕ)
    → IsPool pool_size pool
    → (add_transaction_to_pool tx pool pool_size).0 ≡ pos 0
    → IsPool pool_size (add_transaction_to_pool tx pool pool_size).1
accepted-IsPool tx pool pool_size h ok =
    let (bag, (i, _, written), _, percent, _, free) =
      add_transaction_to_pool_accepted tx pool pool_size h.unlocked ok in
    let same_size : length (add_transaction_to_pool tx pool pool_size).1.transactions_list
        ≡ pool_size =
      ap length written ∙ length-set pool.transactions_list i (fresh_entry tx) ∙ h.sized in
    record {
      sized = same_size;
      percentage = rw percent (occupancy_of-le _ pool_size same_size);
      unlocked = free;
      distinct = λ id. ground (
        arith,
        bag id,
        h.distinct id,
        accepted-live tx pool pool_size ok,
        live-same tx.tx_id id pool.transactions_list,
      );
    }

-- An attempt to add to a well-formed pool leaves the pool well formed, whatever the call returns.
pub add_transaction_to_pool-IsPool :
    (tx : Transaction) (pool : TransactionPool) (pool_size : ℕ)
    → IsPool pool_size pool
    → IsPool pool_size (add_transaction_to_pool tx pool pool_size).1
add_transaction_to_pool-IsPool tx pool pool_size h =
    elim (ℤ-discrete (add_transaction_to_pool tx pool pool_size).0 (pos 0)) [
      | yes ok ↦ accepted-IsPool tx pool pool_size h ok
      | no refused ↦ rw (add_transaction_to_pool_refused tx pool pool_size h.unlocked refused) h
    ]
