-- ===== src/System/Frame.antt =====
-- What every call keeps of the pool, also when IDs come back twice.
use mathlib.Core.List.{map}
use dei_chain.Base.{
  ℕ, zero, suc, ◌≤◌, ◌≡◌, refl, ap, ◌∙◌, Bool, false, List, [], ◌∷◌, length, length-set, take,
  arith, inl, inr, Bool-cases, Option-cases,
}
use dei_chain.Base.Int.{ℤ, pos, eqb_ℤ, ℤ-discrete}
use dei_chain.Data.{
  Transaction, TransactionBlock, TransactionPoolEntry, TransactionPool, BlockchainLedger, Config,
}
use dei_chain.Pool.Entries.{readmit_all, mark_available, set_empty, vacate, readmit}
use dei_chain.Pool.Counting.{occupancy_of-le}
use dei_chain.Pool.Ids.{length-update_all}
use dei_chain.TxGen.Add.{add_transaction_to_pool}
use dei_chain.TxGen.AddLaws.{add_transaction_to_pool_accepted, add_transaction_to_pool_refused}
use dei_chain.Miner.Select.{select_transactions}
use dei_chain.Miner.SelectLaws.{select_transactions_null, select_transactions-some}
use dei_chain.Miner.Block.{return_to_pool}
use dei_chain.Pow.Search.{verify_nonce}
use dei_chain.Validator.Ledger.{add_block_to_ledger, transactions_of}
use dei_chain.Validator.PoolLaws.{block_transactions}
use dei_chain.Validator.Check.{Memory, locate, check_transactions, check_previous, validate_block}
use dei_chain.Validator.Remove.{remove_transactions_from_pool, return_transactions_to_pool}
use dei_chain.Validator.Process.{Shared, process_block}
use dei_chain.Validator.Age.{age_entry, age_transaction_pool}

-- The pool has `tx_pool_size` entries, the occupancy is a percentage, and the mutex is free.
pub record IsFrame (size : ℕ) (pool : TransactionPool) : Type 0 where
  pub sized : length pool.transactions_list ≡ size
  pub percentage : pool.occupancy ≤ 100
  pub unlocked : pool.mutex ≡ 1

pub add_transaction_to_pool-IsFrame :
    (tx : Transaction) (pool : TransactionPool) (size : ℕ)
    → IsFrame size pool
    → IsFrame size (add_transaction_to_pool tx pool size).1
add_transaction_to_pool-IsFrame tx pool size h =
    elim (ℤ-discrete (add_transaction_to_pool tx pool size).0 (pos 0)) [
      | no bad ↦ rw (add_transaction_to_pool_refused tx pool size h.unlocked bad) h
      | yes ok ↦
          let (_, (i, _, written), _, percent, _, free) =
            add_transaction_to_pool_accepted tx pool size h.unlocked ok in
          let sized : length (add_transaction_to_pool tx pool size).1.transactions_list ≡ size =
            ap length written ∙ length-set pool.transactions_list i _ ∙ h.sized in
          record {
            sized = sized;
            percentage = omega (arith, percent, occupancy_of-le _ size sized);
            unlocked = free;
          }
    ]

pub select_transactions-IsFrame :
    (first second : Bool) (pool : TransactionPool) (size per_block : ℕ)
    → IsFrame size pool
    → IsFrame size (select_transactions first second pool per_block).pool
select_transactions-IsFrame first second pool size per_block h =
    elim (Option-cases (select_transactions first second pool per_block).result) [
      | inl null ↦ rw (select_transactions_null first second pool per_block h.unlocked null) h
      | inr (ts, given) ↦
          let facts = select_transactions-some first second pool per_block ts [] h.unlocked given in
          record {
            sized = omega (arith, facts, h.sized);
            percentage = omega (arith, facts, h.percentage);
            unlocked = omega (arith, facts);
          }
    ]

length-readmit_all :
    (ts : List Transaction) (es : List TransactionPoolEntry)
    → length (readmit_all ts es) ≡ length es
unfolding readmit_all
length-readmit_all ts [] = refl
length-readmit_all ts (e ∷ es) = ap suc (length-readmit_all ts es)

pub return_to_pool-IsFrame :
    (ts : List Transaction) (pool : TransactionPool) (size : ℕ)
    → IsFrame size pool
    → IsFrame size (return_to_pool ts pool)
unfolding return_to_pool
return_to_pool-IsFrame ts pool size h = record {
  sized = length-readmit_all ts pool.transactions_list ∙ h.sized;
  percentage = h.percentage;
  unlocked = omega (arith, h.unlocked);
}

length-map-age : (es : List TransactionPoolEntry) → length (map age_entry es) ≡ length es
length-map-age [] = refl
length-map-age (e ∷ es) = ap suc (length-map-age es)

pub age_transaction_pool-IsFrame :
    (now last : ℤ) (pool : TransactionPool) (size : ℕ)
    → IsFrame size pool
    → IsFrame size (age_transaction_pool now pool last).0
unfolding age_transaction_pool
age_transaction_pool-IsFrame now last pool size h =
    ground (arith, h.sized, h.percentage, h.unlocked, length-map-age pool.transactions_list)

length-set_empty :
    (flag : Bool) (es : List TransactionPoolEntry) (i : ℕ)
    → length (set_empty flag es i) ≡ length es
unfolding set_empty
length-set_empty flag [] i = refl
length-set_empty flag (e ∷ es) zero = refl
length-set_empty flag (e ∷ es) (suc i) = ap suc (length-set_empty flag es i)

pub length-mark_available :
    (es : List TransactionPoolEntry) (is : List ℕ) → length (mark_available es is) ≡ length es
unfolding mark_available
length-mark_available es [] = refl
length-mark_available es (i ∷ is) =
    length-mark_available (set_empty false es i) is ∙ length-set_empty false es i

pub check_transactions-IsFrame :
    (allocated : Bool) (b : TransactionBlock) (pool : TransactionPool) (size : ℕ)
    → IsFrame size pool
    → IsFrame size (check_transactions allocated b pool).1
unfolding check_transactions
check_transactions-IsFrame allocated b pool size h = ground (
  arith,
  h.sized,
  h.percentage,
  h.unlocked,
  length-mark_available pool.transactions_list
      (locate (block_transactions b) pool.transactions_list).1,
)

validate_block-IsFrame :
    (sha256 : List ℕ → List ℕ) (memory : Memory) (b : TransactionBlock) (ledger : BlockchainLedger)
    (pool : TransactionPool) (size : ℕ)
    → IsFrame size pool
    → IsFrame size (validate_block sha256 memory b ledger pool).1
unfolding validate_block
validate_block-IsFrame sha256 memory b ledger pool size h =
    elim (Bool-cases (verify_nonce sha256 memory.nonce_allocated memory.nonce_buffer b)) [
      | inr unproven ↦ rw unproven h
      | inl proven ↦ elim (Bool-cases (check_previous sha256 memory b ledger)) [
        | inr stale ↦ rw (proven, stale) h
        | inl linked ↦
            rw (proven, linked)
              (check_transactions-IsFrame memory.positions_allocated b pool size h)
      ]
    ]

pub remove_transactions_from_pool-IsFrame :
    (b : TransactionBlock) (pool : TransactionPool) (config : Config)
    → IsFrame config.tx_pool_size pool
    → IsFrame config.tx_pool_size (remove_transactions_from_pool b pool config)
unfolding remove_transactions_from_pool
remove_transactions_from_pool-IsFrame b pool config h =
    let sized =
      length-update_all vacate (λ e. refl) (take config.transactions_per_block (transactions_of b))
        pool.transactions_list
      ∙ h.sized in
    record {
      sized = sized;
      percentage = occupancy_of-le _ config.tx_pool_size sized;
      unlocked = omega (arith, h.unlocked);
    }

pub return_transactions_to_pool-IsFrame :
    (b : TransactionBlock) (pool : TransactionPool) (config : Config)
    → IsFrame config.tx_pool_size pool
    → IsFrame config.tx_pool_size (return_transactions_to_pool b pool config)
unfolding return_transactions_to_pool
return_transactions_to_pool-IsFrame b pool config h =
    let sized =
      length-update_all readmit (λ e. refl) (block_transactions b) pool.transactions_list
      ∙ h.sized in
    record {
      sized = sized;
      percentage = occupancy_of-le _ config.tx_pool_size sized;
      unlocked = omega (arith, h.unlocked);
    }

pub process_block-IsFrame :
    (sha256 : List ℕ → List ℕ) (memory : Memory) (b : TransactionBlock) (config : Config)
    (s : Shared)
    → IsFrame config.tx_pool_size s.pool
    → IsFrame config.tx_pool_size (process_block sha256 memory b config s).1.pool
unfolding process_block
process_block-IsFrame sha256 memory b config s h =
    let pool' = (validate_block sha256 memory b s.ledger s.pool).1 in
    let checked = validate_block-IsFrame sha256 memory b s.ledger s.pool config.tx_pool_size h in
    elim (Bool-cases (validate_block sha256 memory b s.ledger s.pool).0) [
      | inr rejected ↦ rw rejected checked
      | inl accepted ↦ elim (Bool-cases (eqb_ℤ (add_block_to_ledger b s.ledger config).0 (pos 0))) [
        | inl added ↦
            rw (accepted, added) (remove_transactions_from_pool-IsFrame b pool' config checked)
        | inr full ↦
            rw (accepted, full) (return_transactions_to_pool-IsFrame b pool' config checked)
      ]
    ]
