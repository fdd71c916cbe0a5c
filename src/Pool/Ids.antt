-- ===== src/Pool/Ids.antt =====
-- The IDs that stand in the pool, in entries of either kind, and the updates that go by ID.
use dei_chain.Base.{
  ℕ, ◌+◌, ◌≤◌, ◌≡◌, refl, ◌↔◌, ◌∙◌, Bool, true, none, List, [], ◌∷◌, if◌then◌else◌, length, arith,
}
use dei_chain.Base.Arrays.{strcmp_eq, strcmp_eq_left, strcmp_eq_comm}
use dei_chain.Data.{Transaction, TransactionPoolEntry}
use dei_chain.Pool.Entries.{id_of, mentions, find_id, update_first, update_all, readmit_all}
use dei_chain.Pool.Counting.{bit, live}

-- How many entries, occupied or not, carry the ID.
unfoldable pub slots : List ℕ → List TransactionPoolEntry → ℕ
slots id [] = 0
slots id (e ∷ es) = bit (strcmp_eq (id_of e) id) + slots id es

pub live-le-slots : (id : List ℕ) (es : List TransactionPoolEntry) → live id es ≤ slots id es
unfolding live slots
live-le-slots id [] = omega arith
live-le-slots id (e ∷ es) = ground (arith, live-le-slots id es)

-- The search by ID fails exactly if no entry carries it.
pub find_id-eq-none :
    (id : List ℕ) (es : List TransactionPoolEntry) → (find_id id es ≡ none) ↔ (slots id es ≡ 0)
unfolding find_id slots
find_id-eq-none id [] = ground arith
find_id-eq-none id (e ∷ es) = ground (arith, find_id-eq-none id es, strcmp_eq_comm id (id_of e))

module _ (f : TransactionPoolEntry → TransactionPoolEntry)
    (keeps : (e : TransactionPoolEntry) → id_of (f e) ≡ id_of e) where
  pub slots-update_first :
      (id key : List ℕ) (es : List TransactionPoolEntry)
      → slots id (update_first f key es) ≡ slots id es
  unfolding slots update_first
  slots-update_first id key [] = refl
  slots-update_first id key (e ∷ es) = ground (arith, slots-update_first id key es, keeps e)

  pub slots-update_all :
      (id : List ℕ) (ts : List Transaction) (es : List TransactionPoolEntry)
      → slots id (update_all f ts es) ≡ slots id es
  unfolding update_all
  slots-update_all id [] es = refl
  slots-update_all id (t ∷ ts) es =
      slots-update_all id ts (update_first f t.tx_id es) ∙ slots-update_first id t.tx_id es

  length-update_first :
      (key : List ℕ) (es : List TransactionPoolEntry) → length (update_first f key es) ≡ length es
  unfolding update_first
  length-update_first key [] = refl
  length-update_first key (e ∷ es) = ground (arith, length-update_first key es)

  pub length-update_all :
      (ts : List Transaction) (es : List TransactionPoolEntry)
      → length (update_all f ts es) ≡ length es
  unfolding update_all
  length-update_all [] es = refl
  length-update_all (t ∷ ts) es =
      length-update_all ts (update_first f t.tx_id es) ∙ length-update_first t.tx_id es

-- An update that sets the flag makes the first entry of the ID count as `n`, and no other.
live-update_first :
    (f : TransactionPoolEntry → TransactionPoolEntry) (flag : Bool) (id key : List ℕ)
    (es : List TransactionPoolEntry)
    → ((e : TransactionPoolEntry) → (id_of (f e) ≡ id_of e) × ((f e).empty ≡ flag))
    → slots id es ≤ 1
    → live id (update_first f key es)
      ≡ (if strcmp_eq key id then (if flag then 0 else slots id es) else live id es)
unfolding live slots update_first
live-update_first f flag id key [] sets one = ground arith
live-update_first f flag id key (e ∷ es) sets one = ground (
  arith,
  sets e,
  live-update_first f flag id key es sets (omega arith),
  live-le-slots id es,
  strcmp_eq_left (id_of e) key id,
  strcmp_eq_left key id (id_of e),
  strcmp_eq_comm key (id_of e),
  strcmp_eq_comm id (id_of e),
)

-- The loop over a block's transactions, in terms of one ID that stands in at most one entry.
pub live-update_all :
    (f : TransactionPoolEntry → TransactionPoolEntry) (flag : Bool) (id : List ℕ)
    (ts : List Transaction) (es : List TransactionPoolEntry)
    → ((e : TransactionPoolEntry) → (id_of (f e) ≡ id_of e) × ((f e).empty ≡ flag))
    → slots id es ≤ 1
    → live id (update_all f ts es)
      ≡ (if mentions id ts then (if flag then 0 else slots id es) else live id es)
unfolding update_all mentions
live-update_all f flag id [] es sets one = refl
live-update_all f flag id (t ∷ ts) es sets one = ground (
  arith,
  slots-update_first f (λ e. (sets e).0) id t.tx_id es,
  live-update_first f flag id t.tx_id es sets one,
  live-update_all f flag id ts (update_first f t.tx_id es) sets
      (omega (arith, slots-update_first f (λ e. (sets e).0) id t.tx_id es)),
  strcmp_eq_comm id t.tx_id,
)

pub mentions-same :
    (a b : List ℕ) (ts : List Transaction) → strcmp_eq a b ≡ true → mentions a ts ≡ mentions b ts
unfolding mentions
mentions-same a b [] h = refl
mentions-same a b (t ∷ ts) h = ground (arith, mentions-same a b ts h, strcmp_eq_left a b t.tx_id h)

pub live-readmit_all :
    (id : List ℕ) (ts : List Transaction) (es : List TransactionPoolEntry)
    → live id (readmit_all ts es) ≡ (if mentions id ts then slots id es else live id es)
unfolding live slots readmit_all
live-readmit_all id ts [] = ground arith
live-readmit_all id ts (e ∷ es) =
    ground (arith, live-readmit_all id ts es, mentions-same (id_of e) id ts)
