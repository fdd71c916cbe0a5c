-- ===== src/Miner/RestoreLaws.antt =====
-- A block that is given up right after its selection leaves no trace in the pool.
use dei_chain.Base.{
  ℕ, zero, suc, ◌+◌, ◌≤◌, ◌<◌, ◌≡◌, refl, sym, ap, ap₂, Bool, true, false, not, ◌&&◌, some, List,
  [], ◌∷◌, ◌++◌, arith, inl, inr, Bool-cases,
}
use dei_chain.Base.Arrays.{strcmp_eq_refl}
use dei_chain.Data.{Transaction, TransactionPoolEntry, TransactionPool}
use dei_chain.Pool.Entries.{id_of, mentions, readmit, readmit_all}
use dei_chain.Pool.Counting.{live}
use dei_chain.Pool.Ids.{slots, live-le-slots}
use dei_chain.Miner.Select.{reserve, select_transactions}
use dei_chain.Miner.Block.{return_to_pool}
use dei_chain.Miner.ReserveLaws.{carried, carried-append, reserve-live, mentions-eq-carried}

-- The copies that were there stay.
reserve-grows :
    (id : List ℕ) (room : ℕ) (selected : List Transaction) (i : ℕ) (es : List TransactionPoolEntry)
    → carried id selected ≤ carried id (reserve room selected i es).selected
unfolding reserve
reserve-grows id room selected i [] = omega arith
reserve-grows id zero selected i (e ∷ es) = omega arith
reserve-grows id (suc room) selected i (e ∷ es) = ground (
  arith,
  reserve-grows id room (selected ++ e.transaction ∷ []) (i + 1) es,
  reserve-grows id (suc room) selected (i + 1) es,
  carried-append id selected (e.transaction ∷ []),
)

-- The ID of an occupied entry, or of a copy that was taken before them, stands once.
Apart : List Transaction → List TransactionPoolEntry → Type 0
Apart selected es =
    (id : List ℕ) → 0 < live id es + carried id selected → slots id es + carried id selected ≤ 1

readmit_all-Apart :
    (selected : List Transaction) (es : List TransactionPoolEntry)
    → Apart selected es
    → readmit_all selected es ≡ es
unfolding readmit_all live slots Apart
readmit_all-Apart selected [] apart = refl
readmit_all-Apart selected (e ∷ es) apart =
    let absent : mentions (id_of e) selected ≡ false =
      ground (
        arith,
        apart (id_of e),
        strcmp_eq_refl (id_of e),
        mentions-eq-carried (id_of e) selected,
      ) in
    rw absent
      (ap (λ l. e ∷ l) (readmit_all-Apart selected es (λ id some_there. ground (arith, apart id))))

-- An occupied entry that is reserved and readmitted is as it was.
readmit-reserved :
    (e : TransactionPoolEntry) → e.empty ≡ false → readmit (record e { empty = true }) ≡ e
readmit-reserved e occupied = λ j. record e { empty = sym occupied j }

reserve-readmit_all :
    (room : ℕ) (selected : List Transaction) (i : ℕ) (es : List TransactionPoolEntry)
    → Apart selected es
    → let s = reserve room selected i es in readmit_all s.selected s.entries ≡ es
unfolding reserve readmit_all live slots Apart
reserve-readmit_all room selected i [] apart = refl
reserve-readmit_all zero selected i (e ∷ es) apart = readmit_all-Apart selected (e ∷ es) apart
reserve-readmit_all (suc room) selected i (e ∷ es) apart =
    let selected' = selected ++ e.transaction ∷ [] in
    let taken = reserve room selected' (i + 1) es in
    let passed = reserve (suc room) selected (i + 1) es in
    let here = strcmp_eq_refl (id_of e) in
    elim (Bool-cases (not e.empty && not (mentions (id_of e) selected))) [
      | inl fits ↦
          let found : mentions (id_of e) taken.selected ≡ true = ground (
            arith,
            mentions-eq-carried (id_of e) taken.selected,
            reserve-grows (id_of e) room selected' (i + 1) es,
            carried-append (id_of e) selected (e.transaction ∷ []),
            here,
          ) in
          rw (fits, found)
            (ap₂ (λ f l. f ∷ l) (readmit-reserved e (ground (arith, fits)))
              (reserve-readmit_all room selected' (i + 1) es λ id some_there.
                ground (arith, apart id, carried-append id selected (e.transaction ∷ []))))
      | inr skipped ↦
          let absent : mentions (id_of e) passed.selected ≡ false = ground (
            arith,
            mentions-eq-carried (id_of e) passed.selected,
            reserve-live (id_of e) (suc room) selected (i + 1) es,
            live-le-slots (id_of e) es,
            apart (id_of e),
            here,
          ) in
          rw (skipped, absent)
            (ap (λ l. e ∷ l)
              (reserve-readmit_all (suc room) selected (i + 1) es
                λ id some_there. ground (arith, apart id)))
    ]

-- A miner that selects transactions and gives its block up at once leaves the pool exactly as it was,
-- each entry in its place. The hypotheses are that the ID of an occupied entry stands in no
-- other entry, occupied or not, and that the mutex was free.
pub select_transactions-return_to_pool :
    (first second : Bool) (pool : TransactionPool) (per_block : ℕ) (ts : List Transaction)
    → pool.mutex ≡ 1
    → ((id : List ℕ) → 0 < live id pool.transactions_list → slots id pool.transactions_list ≤ 1)
    → (select_transactions first second pool per_block).result ≡ some ts
    → return_to_pool ts (select_transactions first second pool per_block).pool ≡ pool
unfolding select_transactions return_to_pool Apart
select_transactions-return_to_pool false second pool per_block ts free apart given = cc
select_transactions-return_to_pool true false pool per_block ts free apart given = cc
select_transactions-return_to_pool true true pool per_block ts free apart given =
    let back =
      reserve-readmit_all per_block [] 0 pool.transactions_list
        (λ id some_there. ground (arith, apart id)) in
    ground (arith, back)
