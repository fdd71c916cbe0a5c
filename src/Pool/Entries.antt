-- ===== src/Pool/Entries.antt =====
-- The loops over the entries of the pool (txgen.c, miner.c, validator.c). The segment has exactly
-- `tx_pool_size` entries, so that a loop `for (i = 0; i < tx_pool_size; i++)` visits the whole list.
use dei_chain.Base.{
  ℕ, zero, suc, ◌*◌, ◌/◌, Bool, true, false, ◌||◌, Option, none, some, List, [], ◌∷◌, if◌then◌else◌,
}
use mathlib.Core.Option
use dei_chain.Base.Arrays.{strcmp_eq}
use dei_chain.Data.{Transaction, TransactionPoolEntry}

-- `transactions_list[i].transaction.tx_id`
abbrev pub id_of : TransactionPoolEntry → List ℕ
id_of e = e.transaction.tx_id

-- The counting loop of `add_transaction_to_pool`, `select_transactions` and the validator.
unfoldable pub count_occupied : List TransactionPoolEntry → ℕ
count_occupied [] = 0
count_occupied (e ∷ es) = if e.empty then count_occupied es else suc (count_occupied es)

-- `(count * 100) / tx_pool_size`
unfoldable pub occupancy_of : List TransactionPoolEntry → ℕ → ℕ
occupancy_of es pool_size = count_occupied es * 100 / pool_size

-- The search for a free position in `add_transaction_to_pool`; `none` is its -1.
unfoldable pub first_empty : List TransactionPoolEntry → Option ℕ
first_empty [] = none
first_empty (e ∷ es) = if e.empty then some 0 else Option.map suc (first_empty es)

-- The search for a transaction by its ID, in an entry of either kind.
unfoldable pub find_id : List ℕ → List TransactionPoolEntry → Option ℕ
find_id id [] = none
find_id id (e ∷ es) = if strcmp_eq id (id_of e) then some 0 else Option.map suc (find_id id es)

-- `transactions_list[i].empty = flag`
unfoldable pub set_empty : Bool → List TransactionPoolEntry → ℕ → List TransactionPoolEntry
set_empty flag [] i = []
set_empty flag (e ∷ es) zero = record e { empty = flag } ∷ es
set_empty flag (e ∷ es) (suc i) = e ∷ set_empty flag es i

-- The loop that sets `empty = 0` at the noted positions, in the order of the notes.
unfoldable pub mark_available : List TransactionPoolEntry → List ℕ → List TransactionPoolEntry
unfolding set_empty
mark_available es [] = es
mark_available es (i ∷ is) = mark_available (set_empty false es i) is

-- An update of the first entry that carries the ID: a loop with `strcmp` and `break`.
unfoldable pub update_first :
    (TransactionPoolEntry → TransactionPoolEntry)
    → List ℕ
    → List TransactionPoolEntry
    → List TransactionPoolEntry
update_first f id [] = []
update_first f id (e ∷ es) = if strcmp_eq (id_of e) id then f e ∷ es else e ∷ update_first f id es

-- `remove_transactions_from_pool` empties an entry, and `validator_main` takes one back.
abbrev pub vacate : TransactionPoolEntry → TransactionPoolEntry
vacate e = record e { empty = true; age = 0 }

abbrev pub readmit : TransactionPoolEntry → TransactionPoolEntry
readmit e = record e { empty = false }

-- The outer loop over the transactions, around the loop that updates the first entry of each ID.
unfoldable pub update_all :
    (TransactionPoolEntry → TransactionPoolEntry)
    → List Transaction
    → List TransactionPoolEntry
    → List TransactionPoolEntry
update_all f [] es = es
update_all f (t ∷ ts) es = update_all f ts (update_first f t.tx_id es)

-- Whether one of the transactions carries the ID: the inner loop, which stops at the first.
unfoldable pub mentions : List ℕ → List Transaction → Bool
mentions id [] = false
mentions id (t ∷ ts) = strcmp_eq id t.tx_id || mentions id ts

-- The loop by which a miner returns transactions: each entry that carries one of the IDs, wherever it
-- stands, is marked as available.
unfoldable pub readmit_all :
    List Transaction → List TransactionPoolEntry → List TransactionPoolEntry
unfolding mentions
readmit_all ts [] = []
readmit_all ts (e ∷ es) = (if mentions (id_of e) ts then readmit e else e) ∷ readmit_all ts es
