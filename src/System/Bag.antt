-- ===== src/System/Bag.antt =====
-- The pool as a bag of transactions, in which the order and the places of the entries are forgotten.
use mathlib.Core.List.{perm_middle, perm_append_comm}
use mathlib.Core.List.Perm
use mathlib.Core.List.{Perm}
use mathlib.Mathlib.Data.Multiset.Defs.{Multiset, of_list, coe-eq-coe}
use mathlib.Mathlib.Data.Multiset.AddSub.{add}
use dei_chain.Base.{
  ℕ, zero, suc, ◌+◌, ◌≡◌, refl, sym, ap, ◌∙◌, subst, Bool, true, false, not, ◌&&◌, none, some, List,
  [], ◌∷◌, ◌++◌, append_assoc, set, get_elem?, arith, inl, inr, Bool-cases, Option-cases,
  if◌then◌else◌,
}
use mathlib.Core.Option.{some-injective}
use dei_chain.Base.Int.{pos, eqb_ℤ, eqb_ℤ-eq}
use dei_chain.Data.{Transaction, TransactionPoolEntry, TransactionPool}
use dei_chain.Pool.Entries.{id_of, mentions}
use dei_chain.Pool.Counting.{first_empty-some}
use dei_chain.TxGen.Add.{add_transaction_to_pool, fresh_entry}
use dei_chain.TxGen.AddLaws.{add_transaction_to_pool_accepted, add_transaction_to_pool_refused}
use dei_chain.Miner.SelectLaws.{select_transactions_null, select_transactions-some}
use dei_chain.Miner.Select.{reserve, select_transactions}

-- The transactions of the occupied entries.
abbrev pub occupied : List TransactionPoolEntry → List Transaction
occupied [] = []
occupied (e ∷ es) = if e.empty then occupied es else e.transaction ∷ occupied es

abbrev pub available : TransactionPool → Multiset Transaction
available pool = of_list (occupied pool.transactions_list)

occupied-set :
    (es : List TransactionPoolEntry) (i : ℕ) (old : TransactionPoolEntry) (tx : Transaction)
    → get_elem? es i ≡ some old
    → old.empty ≡ true
    → Perm (occupied (set es i (fresh_entry tx))) (tx ∷ occupied es)
occupied-set [] i old tx at free = cc
occupied-set (e ∷ es) zero old tx at free =
    let here : e.empty ≡ true =
      ap (λ (f : TransactionPoolEntry). f.empty) (some-injective _ _ at) ∙ free in
    rw here Perm.rfl
occupied-set (e ∷ es) (suc i) old tx at free =
    let ih = occupied-set es i old tx at free in
    elim (Bool-cases e.empty) [
      | inl empty ↦ rw empty ih
      | inr full ↦
          rw full
            (Perm.trans (Perm.cons e.transaction ih) (Perm.swap tx e.transaction (occupied es)))
    ]

reserve-occupied :
    (room : ℕ) (selected : List Transaction) (i : ℕ) (es : List TransactionPoolEntry)
    → let s = reserve room selected i es in
      Perm (s.selected ++ occupied s.entries) (selected ++ occupied es)
unfolding reserve
reserve-occupied room selected i [] = Perm.rfl
reserve-occupied zero selected i (e ∷ es) = Perm.rfl
reserve-occupied (suc room) selected i (e ∷ es) =
    let taken = reserve room (selected ++ e.transaction ∷ []) (i + 1) es in
    let passed = reserve (suc room) selected (i + 1) es in
    elim (Bool-cases (not e.empty && not (mentions (id_of e) selected))) [
      | inl fits ↦
          let full : e.empty ≡ false = ground (arith, fits) in
          rw (fits, full)
            (subst (Perm (taken.selected ++ occupied taken.entries))
              (append_assoc selected (e.transaction ∷ []) (occupied es))
              (reserve-occupied room (selected ++ e.transaction ∷ []) (i + 1) es))
      | inr skipped ↦ elim (Bool-cases e.empty) [
        | inl empty ↦ rw (skipped, empty) (reserve-occupied (suc room) selected (i + 1) es)
        | inr full ↦
            let ih = reserve-occupied (suc room) selected (i + 1) es in
            rw (skipped, full)
              (Perm.trans (perm_middle passed.selected (occupied passed.entries)) (
                Perm.trans (Perm.cons e.transaction ih)
                  (Perm.symm (perm_middle selected (occupied es)))))
      ]
    ]

add-occupied :
    (tx : Transaction) (pool : TransactionPool) (pool_size : ℕ)
    → pool.mutex ≡ 1
    → (add_transaction_to_pool tx pool pool_size).0 ≡ pos 0
    → Perm
        (occupied (add_transaction_to_pool tx pool pool_size).1.transactions_list)
        (tx ∷ occupied pool.transactions_list)
add-occupied tx pool pool_size free ok =
    let (_, (i, first, written), _, _, _, _) =
      add_transaction_to_pool_accepted tx pool pool_size free ok in
    let (old, at, empty) = first_empty-some pool.transactions_list i first in
    subst (λ es. Perm (occupied es) (tx ∷ occupied pool.transactions_list)) (sym written)
      (occupied-set pool.transactions_list i old tx at empty)

select-occupied :
    (first second : Bool) (pool : TransactionPool) (per_block : ℕ) (ts : List Transaction)
    → (select_transactions first second pool per_block).result ≡ some ts
    → Perm
        (ts ++ occupied (select_transactions first second pool per_block).pool.transactions_list)
        (occupied pool.transactions_list)
unfolding select_transactions
select-occupied false second pool per_block ts given = cc
select-occupied true false pool per_block ts given = cc
select-occupied true true pool per_block ts given =
    let all = reserve-occupied per_block [] 0 pool.transactions_list in ground (arith, all)

-- The calls of generators and of miners on the pool, as they come.
pub data Call : Type 0 where
  generates : Transaction → Call
  selects : Bool → Bool → Call

-- The pool after the calls, the transactions that were added and those that were handed out.
pub record History : Type 0 where
  pub pool : TransactionPool
  pub added : List Transaction
  pub taken : List Transaction

unfoldable pub history : ℕ → ℕ → List Call → TransactionPool → History
history pool_size per_block [] pool = record { pool = pool; added = []; taken = [] }
history pool_size per_block (generates tx ∷ cs) pool =
    let (result, pool') = add_transaction_to_pool tx pool pool_size in
    let h = history pool_size per_block cs pool' in
    if eqb_ℤ result (pos 0) then record h { added = tx ∷ h.added } else h
history pool_size per_block (selects first second ∷ cs) pool =
    let out = select_transactions first second pool per_block in
    let h = history pool_size per_block cs out.pool in
    elim out.result [ none ↦ h | some ts ↦ record h { taken = ts ++ h.taken } ]

exchange : (xs ys zs : List Transaction) → Perm (xs ++ (ys ++ zs)) (ys ++ (xs ++ zs))
exchange xs ys zs =
    subst (λ l. Perm l (ys ++ (xs ++ zs))) (append_assoc xs ys zs)
      (subst (Perm ((xs ++ ys) ++ zs)) (append_assoc ys xs zs)
        (Perm.append_right zs (perm_append_comm xs ys)))

-- What was added and what was there is what was taken and what is there.
abbrev Conserves : TransactionPool → History → Type 0
Conserves pool h =
    Perm (h.taken ++ occupied h.pool.transactions_list) (h.added ++ occupied pool.transactions_list)

history-null :
    (pool_size per_block : ℕ) (first second : Bool) (cs : List Call) (pool : TransactionPool)
    → (select_transactions first second pool per_block).result ≡ none
    → history pool_size per_block (selects first second ∷ cs) pool
      ≡ history pool_size per_block cs (select_transactions first second pool per_block).pool
unfolding history
history-null pool_size per_block first second cs pool null = rw (null, history) refl

history-some :
    (pool_size per_block : ℕ) (first second : Bool) (cs : List Call) (pool : TransactionPool)
    (ts : List Transaction)
    → (select_transactions first second pool per_block).result ≡ some ts
    → let h =
        history pool_size per_block cs (select_transactions first second pool per_block).pool in
      history pool_size per_block (selects first second ∷ cs) pool
      ≡ record h { taken = ts ++ h.taken }
unfolding history
history-some pool_size per_block first second cs pool ts given = rw (given, history) refl

history-Perm :
    (pool_size per_block : ℕ) (cs : List Call) (pool : TransactionPool)
    → pool.mutex ≡ 1
    → Conserves pool (history pool_size per_block cs pool)
unfolding history
history-Perm pool_size per_block [] pool free = Perm.rfl
history-Perm pool_size per_block (generates tx ∷ cs) pool free =
    let pool' = (add_transaction_to_pool tx pool pool_size).1 in
    let h = history pool_size per_block cs pool' in
    elim (Bool-cases (eqb_ℤ (add_transaction_to_pool tx pool pool_size).0 (pos 0))) [
      | inl ok ↦
          let result = eqb_ℤ-eq _ _ ok in
          let (_, _, _, _, _, free') =
            add_transaction_to_pool_accepted tx pool pool_size free result in
          rw ok (
            Perm.trans (history-Perm pool_size per_block cs pool' free') (
              Perm.trans (Perm.append_left h.added (add-occupied tx pool pool_size free result))
                (perm_middle h.added (occupied pool.transactions_list))))
      | inr refused ↦
          let same : pool' ≡ pool =
            add_transaction_to_pool_refused tx pool pool_size free
              (λ result. cc (rw result at refused)) in
          rw refused (
            subst (λ p. Conserves p h) same
              (history-Perm pool_size per_block cs pool'
                (ap (λ (p : TransactionPool). p.mutex) same ∙ free)))
    ]
history-Perm pool_size per_block (selects first second ∷ cs) pool free =
    let out = select_transactions first second pool per_block in
    let h = history pool_size per_block cs out.pool in
    elim (Option-cases out.result) [
      | inl null ↦
          let same = select_transactions_null first second pool per_block free null in
          subst (Conserves pool) (sym (history-null pool_size per_block first second cs pool null))
            (subst (λ p. Conserves p h) same
              (history-Perm pool_size per_block cs out.pool
                (ap (λ (p : TransactionPool). p.mutex) same ∙ free)))
      | inr (ts, given) ↦
          let (_, _, _, _, _, free', _, _, _) =
            select_transactions-some first second pool per_block ts [] free given in
          subst (Conserves pool)
            (sym (history-some pool_size per_block first second cs pool ts given))
            (subst (λ l. Perm l (h.added ++ occupied pool.transactions_list))
              (sym (append_assoc ts h.taken (occupied h.pool.transactions_list)))
              (Perm.trans (Perm.append_left ts (history-Perm pool_size per_block cs out.pool free'))
                (Perm.trans (exchange ts h.added (occupied out.pool.transactions_list)) (
                  Perm.append_left h.added
                    (select-occupied first second pool per_block ts given)))))
    ]

-- Whatever generators add and miners select, in any order: what was added and what the pool held
-- before is what was handed out and what the pool holds, as bags of transactions, so that no
-- transaction is lost or changed, or handed out more often than it came. The mutex was free.
pub history-conserves :
    (pool_size per_block : ℕ) (cs : List Call) (pool : TransactionPool)
    → pool.mutex ≡ 1
    → let h = history pool_size per_block cs pool in
      add (of_list h.taken) (available h.pool) ≡ add (of_list h.added) (available pool)
history-conserves pool_size per_block cs pool free =
    coe-eq-coe.1 (history-Perm pool_size per_block cs pool free)
