-- ===== src/Pool/Counting.antt =====
-- How the entries are counted: the occupied ones, and those that carry a given ID.
use dei_chain.Base.{
  ℕ, zero, suc, ◌+◌, ◌≤◌, ◌<◌, ◌≡◌, refl, Bool, true, false, not, ◌&&◌, none, some, List, [], ◌∷◌,
  length, get_elem?, set, arith,
}
use dei_chain.Base.Arrays.{strcmp_eq, strcmp_eq_left, strcmp_eq_comm}
use dei_chain.Data.{TransactionPoolEntry}
use dei_chain.Pool.Entries.{id_of, count_occupied, occupancy_of, first_empty}

abbrev pub bit : Bool → ℕ
bit true = 1
bit false = 0

-- The pool as a bag of IDs: how many occupied entries carry the ID. Positions are forgotten.
unfoldable pub live : List ℕ → List TransactionPoolEntry → ℕ
live id [] = 0
live id (e ∷ es) = bit (not e.empty && strcmp_eq (id_of e) id) + live id es

pub count_occupied-le-length : (es : List TransactionPoolEntry) → count_occupied es ≤ length es
unfolding count_occupied
count_occupied-le-length [] = omega arith
count_occupied-le-length (e ∷ es) = ground (arith, count_occupied-le-length es)

pub live-le-count : (id : List ℕ) (es : List TransactionPoolEntry) → live id es ≤ count_occupied es
unfolding live count_occupied
live-le-count id [] = omega arith
live-le-count id (e ∷ es) = ground (arith, live-le-count id es)

pub occupancy_of-le :
    (es : List TransactionPoolEntry) (size : ℕ) → length es ≡ size → occupancy_of es size ≤ 100
unfolding occupancy_of
occupancy_of-le es size h = grind (arith, count_occupied-le-length es)

-- A write to one entry, in terms of what stood there.
pub count_occupied-set :
    (es : List TransactionPoolEntry) (i : ℕ) (old new : TransactionPoolEntry)
    → get_elem? es i ≡ some old
    → count_occupied (set es i new) + bit (not old.empty) ≡ count_occupied es + bit (not new.empty)
unfolding count_occupied
count_occupied-set [] i old new h = cc
count_occupied-set (e ∷ es) zero old new h = ground arith
count_occupied-set (e ∷ es) (suc i) old new h = ground (arith, count_occupied-set es i old new h)

pub live-set :
    (id : List ℕ) (es : List TransactionPoolEntry) (i : ℕ) (old new : TransactionPoolEntry)
    → get_elem? es i ≡ some old
    → live id (set es i new) + bit (not old.empty && strcmp_eq (id_of old) id)
      ≡ live id es + bit (not new.empty && strcmp_eq (id_of new) id)
unfolding live
live-set id [] i old new h = cc
live-set id (e ∷ es) zero old new h = ground arith
live-set id (e ∷ es) (suc i) old new h = omega (arith, live-set id es i old new h)

-- The position that `first_empty` finds is free.
pub first_empty-some :
    (es : List TransactionPoolEntry) (i : ℕ)
    → first_empty es ≡ some i
    → (e : TransactionPoolEntry) × (get_elem? es i ≡ some e) × (e.empty ≡ true)
unfolding first_empty
first_empty-some [] i h = cc
first_empty-some (e ∷ es) zero h = (e, refl, ground arith)
first_empty-some (e ∷ es) (suc i) h = first_empty-some es i (ground arith)

-- It finds one exactly if not every entry is occupied.
pub first_empty-none :
    (es : List TransactionPoolEntry) → first_empty es ≡ none → count_occupied es ≡ length es
unfolding first_empty count_occupied
first_empty-none [] h = refl
first_empty-none (e ∷ es) h = ground (arith, first_empty-none es)

pub first_empty_lt :
    (es : List TransactionPoolEntry) (i : ℕ)
    → first_empty es ≡ some i
    → count_occupied es < length es
unfolding first_empty count_occupied
first_empty_lt [] i h = cc
first_empty_lt (e ∷ es) zero h = ground (arith, count_occupied-le-length es)
first_empty_lt (e ∷ es) (suc i) h = ground (arith, first_empty_lt es i)

-- IDs that compare equal count alike.
pub live-same :
    (a b : List ℕ) (es : List TransactionPoolEntry) → strcmp_eq a b ≡ true → live a es ≡ live b es
unfolding live
live-same a b [] h = refl
live-same a b (e ∷ es) h = ground (
  arith,
  live-same a b es h,
  strcmp_eq_left a b (id_of e) h,
  strcmp_eq_comm (id_of e) a,
  strcmp_eq_comm (id_of e) b,
)
