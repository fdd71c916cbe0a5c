-- ===== src/System/Overwrite.antt =====
-- A generator beside a miner: `add_transaction_to_pool` of txgen.c takes an entry for free that
-- `select_transactions` of miner.c has reserved.
use dei_chain.Base.{
  ℕ, zero, suc, ◌+◌, ◌≡◌, refl, sym, ap, ◌∙◌, true, false, some, List, [], ◌∷◌, All, set, get_elem?,
  arith, inl, inr, Bool-cases,
}
use mathlib.Core.Option.{some-injective}
use dei_chain.Base.Int.{pos}
use dei_chain.Base.Arrays.{strcmp_eq, strcmp_eq_left, strcmp_eq_comm}
use dei_chain.Data.{Transaction, TransactionBlock, TransactionPoolEntry, TransactionPool}
use dei_chain.Pool.Entries.{id_of, first_empty, mentions}
use dei_chain.Pool.Counting.{bit}
use dei_chain.Pool.Ids.{slots}
use dei_chain.TxGen.Add.{add_transaction_to_pool, fresh_entry}
use dei_chain.TxGen.AddLaws.{add_transaction_to_pool_accepted}
use dei_chain.Validator.Check.{check_transactions}
use dei_chain.Validator.PoolLaws.{IsListed, block_transactions, check_transactions_iff}

slots-set :
    (id : List ℕ) (es : List TransactionPoolEntry) (i : ℕ) (old new : TransactionPoolEntry)
    → get_elem? es i ≡ some old
    → slots id (set es i new) + bit (strcmp_eq (id_of old) id)
      ≡ slots id es + bit (strcmp_eq (id_of new) id)
unfolding slots
slots-set id [] i old new h = cc
slots-set id (e ∷ es) zero old new h =
    let same : strcmp_eq (id_of e) id ≡ strcmp_eq (id_of old) id =
      ap (λ (f : TransactionPoolEntry). strcmp_eq (id_of f) id) (some-injective _ _ h) in
    omega (arith, ap bit same)
slots-set id (e ∷ es) (suc i) old new h = omega (arith, slots-set id es i old new h)

slots-strcmp_eq :
    (id key : List ℕ) (es : List TransactionPoolEntry)
    → strcmp_eq id key ≡ true
    → slots id es ≡ slots key es
unfolding slots
slots-strcmp_eq id key [] h = refl
slots-strcmp_eq id key (e ∷ es) h = omega (
  arith,
  ap bit (
      strcmp_eq_comm (id_of e) id
      ∙ strcmp_eq_left id key (id_of e) h
      ∙ strcmp_eq_comm key (id_of e)),
  slots-strcmp_eq id key es h,
)

unlisted :
    (id : List ℕ) (ts : List Transaction) (es : List TransactionPoolEntry)
    → mentions id ts ≡ true
    → slots id es ≡ 0
    → All (IsListed es) ts
    → ◌≡◌ {A = ℕ} 0 1
unfolding mentions
unlisted id [] es m none_there all = cc
unlisted id (t ∷ ts) es m none_there all = elim (Bool-cases (strcmp_eq id t.tx_id)) [
  | inl here ↦ omega (arith, slots-strcmp_eq id t.tx_id es here, all.0)
  | inr later ↦ unlisted id ts es (ground arith) none_there all.1
]

-- A transaction `t` stands in one entry of the pool, which is the first that is marked empty: a miner
-- has reserved it. If a generator then adds a transaction with another ID, every block that carries
-- `t` fails the check of its transactions, also with the memory for it. The mutex was free.
pub reserved_overwritten :
    (tx t : Transaction) (pool : TransactionPool) (pool_size i : ℕ) (e : TransactionPoolEntry)
    (b : TransactionBlock)
    → pool.mutex ≡ 1
    → first_empty pool.transactions_list ≡ some i
    → get_elem? pool.transactions_list i ≡ some e
    → strcmp_eq (id_of e) t.tx_id ≡ true
    → slots t.tx_id pool.transactions_list ≡ 1
    → strcmp_eq tx.tx_id t.tx_id ≡ false
    → mentions t.tx_id (block_transactions b) ≡ true
    → (add_transaction_to_pool tx pool pool_size).0 ≡ pos 0
    → (check_transactions true b (add_transaction_to_pool tx pool pool_size).1).0 ≡ false
reserved_overwritten tx t pool pool_size i e b free first here reserved one other carries ok =
    let pool' = (add_transaction_to_pool tx pool pool_size).1 in
    let (_, (j, found, written), _, _, _, free') =
      add_transaction_to_pool_accepted tx pool pool_size free ok in
    let at_i : pool'.transactions_list ≡ set pool.transactions_list i (fresh_entry tx) =
      written
      ∙ ap (λ k. set pool.transactions_list k (fresh_entry tx))
          (some-injective _ _ (sym found ∙ first)) in
    let gone : slots t.tx_id pool'.transactions_list ≡ 0 = omega (
      arith,
      ap (slots t.tx_id) at_i,
      slots-set t.tx_id pool.transactions_list i e (fresh_entry tx) here,
      ap bit reserved,
      ap bit other,
      one,
    ) in
    elim (Bool-cases (check_transactions true b pool').0) [
      | inr rejected ↦ rejected
      | inl passed ↦ absurd (
          omega (
            arith,
            unlisted t.tx_id (block_transactions b) pool'.transactions_list carries gone
                ((check_transactions_iff b pool' free').0.0 passed),
          ))
    ]
