-- ===== src/Miner/ReserveLaws.antt =====
-- The loop that reserves: what it takes from the bag, how much of it, and that it can be undone.
use dei_chain.Base.{
  ℕ, zero, suc, ◌+◌, ◌≤◌, ◌≡◌, refl, sym, ap, ◌∙◌, Bool, true, false, not, ◌&&◌, List, [], ◌∷◌,
  ◌++◌, length, length-append, arith, inl, inr, Bool-cases, ltb, append_assoc,
}
use dei_chain.Base.Arrays.{strcmp_eq, strcmp_eq_comm, strcmp_eq_left, strcmp_eq_refl}
use dei_chain.Data.{Transaction, TransactionPoolEntry}
use dei_chain.Pool.Entries.{id_of, count_occupied, set_empty, mark_available, mentions}
use dei_chain.Pool.Counting.{bit, live}
use dei_chain.Miner.Select.{reserve}

-- How many of the transactions carry the ID.
abbrev pub carried : List ℕ → List Transaction → ℕ
carried id [] = 0
carried id (t ∷ ts) = bit (strcmp_eq t.tx_id id) + carried id ts

pub carried-append :
    (id : List ℕ) (ts us : List Transaction) → carried id (ts ++ us) ≡ carried id ts + carried id us
carried-append id [] us = omega arith
carried-append id (t ∷ ts) us = omega (arith, carried-append id ts us)

-- What was chosen has left the bag, and nothing else has.
pub reserve-live :
    (id : List ℕ) (room : ℕ) (selected : List Transaction) (i : ℕ) (es : List TransactionPoolEntry)
    → let s = reserve room selected i es in
      live id s.entries + carried id s.selected ≡ live id es + carried id selected
unfolding reserve live
reserve-live id room selected i [] = refl
reserve-live id zero selected i (e ∷ es) = refl
reserve-live id (suc room) selected i (e ∷ es) = ground (
  arith,
  reserve-live id room (selected ++ e.transaction ∷ []) (i + 1) es,
  reserve-live id (suc room) selected (i + 1) es,
  carried-append id selected (e.transaction ∷ []),
)

pub reserve-count :
    (room : ℕ) (selected : List Transaction) (i : ℕ) (es : List TransactionPoolEntry)
    → let s = reserve room selected i es in
      (count_occupied s.entries + length s.indices ≡ count_occupied es)
      × (length s.selected ≡ length selected + length s.indices)
      × (length s.indices ≤ room)
      × (length s.entries ≡ length es)
unfolding reserve count_occupied
reserve-count room selected i [] = (refl, omega arith, omega arith, refl)
reserve-count zero selected i (e ∷ es) = (omega arith, omega arith, omega arith, refl)
reserve-count (suc room) selected i (e ∷ es) = ground (
  arith,
  reserve-count room (selected ++ e.transaction ∷ []) (i + 1) es,
  reserve-count (suc room) selected (i + 1) es,
  length-append selected (e.transaction ∷ []),
)

set_empty-append :
    (flag : Bool) (pre es : List TransactionPoolEntry) (e : TransactionPoolEntry)
    → set_empty flag (pre ++ e ∷ es) (length pre) ≡ pre ++ record e { empty = flag } ∷ es
unfolding set_empty
set_empty-append flag [] es e = refl
set_empty-append flag (p ∷ pre) es e = ap (λ l. p ∷ l) (set_empty-append flag pre es e)

-- A reservation that is taken back leaves the entry as it was.
unreserve :
    (pre es : List TransactionPoolEntry) (e : TransactionPoolEntry) (i : ℕ)
    → length pre ≡ i
    → e.empty ≡ false
    → set_empty false (pre ++ record e { empty = true } ∷ es) i ≡ (pre ++ e ∷ []) ++ es
unreserve pre es e i h occupied = rw (← h) (
    set_empty-append false pre es (record e { empty = true })
    ∙ ap (λ f. pre ++ f ∷ es) same
    ∙ sym (append_assoc pre (e ∷ []) es))
  where
    same : record e { empty = false } ≡ e
    same = λ j. record e { empty = sym occupied j }

-- Taking the reservations back restores the entries.
pub mark_available-reserve :
    (pre : List TransactionPoolEntry) (room : ℕ) (selected : List Transaction) (i : ℕ)
    (es : List TransactionPoolEntry)
    → length pre ≡ i
    → let s = reserve room selected i es in mark_available (pre ++ s.entries) s.indices ≡ pre ++ es
unfolding reserve mark_available
mark_available-reserve pre room selected i [] h = refl
mark_available-reserve pre zero selected i (e ∷ es) h = refl
mark_available-reserve pre (suc room) selected i (e ∷ es) h =
    let longer : length (pre ++ e ∷ []) ≡ i + 1 = omega (arith, length-append pre (e ∷ [])) in
    let taken = reserve room (selected ++ e.transaction ∷ []) (i + 1) es in
    let passed = reserve (suc room) selected (i + 1) es in
    elim (Bool-cases (not e.empty && not (mentions (id_of e) selected))) [
      | inl fits ↦ rw fits (
          ap (λ l. mark_available l taken.indices)
            (unreserve pre taken.entries e i h (ground arith))
          ∙ mark_available-reserve (pre ++ e ∷ []) room (selected ++ e.transaction ∷ []) (i + 1) es
              longer
          ∙ append_assoc pre (e ∷ []) es)
      | inr skipped ↦ rw skipped (
          ap (λ l. mark_available l passed.indices) (sym (append_assoc pre (e ∷ []) passed.entries))
          ∙ mark_available-reserve (pre ++ e ∷ []) (suc room) selected (i + 1) es longer
          ∙ append_assoc pre (e ∷ []) es)
    ]

pub mentions-eq-carried :
    (id : List ℕ) (ts : List Transaction) → mentions id ts ≡ ltb 0 (carried id ts)
unfolding mentions
mentions-eq-carried id [] = refl
mentions-eq-carried id (t ∷ ts) =
    ground (arith, mentions-eq-carried id ts, strcmp_eq_comm id t.tx_id)

carried-same :
    (a b : List ℕ) (ts : List Transaction) → strcmp_eq a b ≡ true → carried a ts ≡ carried b ts
carried-same a b [] h = refl
carried-same a b (t ∷ ts) h = ground (
  arith,
  carried-same a b ts h,
  strcmp_eq_left a b t.tx_id h,
  strcmp_eq_comm t.tx_id a,
  strcmp_eq_comm t.tx_id b,
)

-- One more copy, if its ID is not mentioned, keeps the IDs of the copies apart.
carried-more :
    (id : List ℕ) (t : Transaction) (ts : List Transaction)
    → ((id : List ℕ) → carried id ts ≤ 1)
    → mentions t.tx_id ts ≡ false
    → carried id (ts ++ t ∷ []) ≤ 1
carried-more id t ts apart new = ground (
  arith,
  apart id,
  carried-append id ts (t ∷ []),
  carried-same t.tx_id id ts,
  mentions-eq-carried t.tx_id ts,
)

pub reserve-carried :
    (id : List ℕ) (room : ℕ) (selected : List Transaction) (i : ℕ) (es : List TransactionPoolEntry)
    → ((id : List ℕ) → carried id selected ≤ 1)
    → carried id (reserve room selected i es).selected ≤ 1
unfolding reserve
reserve-carried id room selected i [] apart = apart id
reserve-carried id zero selected i (e ∷ es) apart = apart id
reserve-carried id (suc room) selected i (e ∷ es) apart =
    elim (Bool-cases (not e.empty && not (mentions (id_of e) selected))) [
      | inl fits ↦ rw fits (
          reserve-carried id room (selected ++ e.transaction ∷ []) (i + 1) es
            λ id'. carried-more id' e.transaction selected apart (ground arith))
      | inr skipped ↦ rw skipped (reserve-carried id (suc room) selected (i + 1) es apart)
    ]

-- With all IDs of occupied entries different from one another and from the chosen ones, the loop
-- takes every occupied entry until the room is used up.
pub reserve-fills :
    (room : ℕ) (selected : List Transaction) (i : ℕ) (es : List TransactionPoolEntry)
    → ((id : List ℕ) → live id es + carried id selected ≤ 1)
    → room ≤ count_occupied es
    → length (reserve room selected i es).indices ≡ room
unfolding reserve count_occupied live
reserve-fills room selected i [] apart enough = omega arith
reserve-fills zero selected i (e ∷ es) apart enough = refl
reserve-fills (suc room) selected i (e ∷ es) apart enough = elim (Bool-cases e.empty) [
  | inl free ↦ ground (
    arith,
    reserve-fills (suc room) selected (i + 1) es (λ id. ground (arith, apart id)) (ground arith),
  )
  | inr occupied ↦ ground (
    arith,
    apart (id_of e),
    strcmp_eq_refl (id_of e),
    mentions-eq-carried (id_of e) selected,
    reserve-fills room (selected ++ e.transaction ∷ []) (i + 1) es
        (λ id. ground (arith, apart id, carried-append id selected (e.transaction ∷ [])))
        (ground arith),
  )
]
