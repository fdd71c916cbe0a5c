-- ===== src/Validator/AgeLaws.antt =====
-- What the ageing of the pool amounts to over many seconds.
use dei_chain.Base.{
  ℕ, zero, suc, ◌+◌, ◌/◌, ◌%◌, ◌≡◌, refl, true, false, List, [], ◌∷◌, ◌==◌, map, arith, ap, sym,
  ◌∙◌, inl, inr, Bool-cases, length,
}
use dei_chain.Base.Int.{ℤ, pos, leb_ℤ, ◌+ℤ◌, +ℤ_right_comm, +ℤ_pos}
use dei_chain.Data.{TransactionPoolEntry, TransactionPool}
use dei_chain.Pool.Entries.{count_occupied}
use dei_chain.Pool.Counting.{live}
use dei_chain.Pool.Invariant.{IsPool}
use dei_chain.Validator.Age.{age_entry, age_transaction_pool}

-- The loop body, `n` seconds in a row.
unfoldable pub age_times : ℕ → TransactionPoolEntry → TransactionPoolEntry
age_times zero e = e
age_times (suc n) e = age_entry (age_times n e)

older_reward :
    (x y : ℤ) (a b k b' : ℕ)
    → x +ℤ pos a ≡ y +ℤ pos b
    → b' ≡ b + k
    → x +ℤ pos k +ℤ pos a ≡ y +ℤ pos b'
older_reward x y a b k b' e h =
    +ℤ_right_comm x (pos k) (pos a)
    ∙ ap (λ z. z +ℤ pos k) e
    ∙ +ℤ_pos y b k
    ∙ ap (λ c. y +ℤ pos c) (sym h)

-- One more round, from what the rounds before have come to.
age_entry_lem :
    (e : TransactionPoolEntry) (y : ℤ) (start : ℕ)
    → e.empty ≡ false
    → e.transaction.reward +ℤ pos start ≡ y +ℤ pos (e.age / 50)
    → ((age_entry e).empty ≡ false)
      × ((age_entry e).age ≡ e.age + 1)
      × ((age_entry e).transaction.reward +ℤ pos start ≡ y +ℤ pos ((e.age + 1) / 50))
      × ((age_entry e).transaction.tx_id ≡ e.transaction.tx_id)
      × ((age_entry e).transaction.value ≡ e.transaction.value)
      × ((age_entry e).transaction.timestamp ≡ e.transaction.timestamp)
unfolding age_entry
age_entry_lem e y start h r = elim (Bool-cases ((e.age + 1) % 50 == 0)) [
  | inl due ↦
      rw (h, due)
        (
          refl,
          refl,
          older_reward e.transaction.reward y start (e.age / 50) 1 ((e.age + 1) / 50) r
              (ground arith),
          refl,
          refl,
          refl,
        )
  | inr not_due ↦
      rw (h, not_due)
        (refl, refl, r ∙ ap (λ c. y +ℤ pos c) (same_fifty e.age not_due), refl, refl, refl)
]
  where
    same_fifty : (n : ℕ) → ((n + 1) % 50 == 0) ≡ false → n / 50 ≡ (n + 1) / 50
    same_fifty n h = ground arith

-- After `n` rounds an occupied entry is `n` older, and its reward has grown by one for each multiple
-- of 50 that its age has reached; ID, value and timestamp of the transaction are the same.
pub age_times_lem :
    (n : ℕ) (e : TransactionPoolEntry)
    → e.empty ≡ false
    → let e' = age_times n e in
      (e'.empty ≡ false)
      × (e'.age ≡ e.age + n)
      × (e'.transaction.reward +ℤ pos (e.age / 50) ≡ e.transaction.reward +ℤ pos ((e.age + n) / 50))
      × (e'.transaction.tx_id ≡ e.transaction.tx_id)
      × (e'.transaction.value ≡ e.transaction.value)
      × (e'.transaction.timestamp ≡ e.transaction.timestamp)
unfolding age_times
age_times_lem zero e h = (
  h,
  omega arith,
  ap (λ (k : ℕ). e.transaction.reward +ℤ pos (k / 50)) (omega arith),
  refl,
  refl,
  refl,
)
age_times_lem (suc n) e h =
    let (occupied, age, reward, id, value, time) = age_times_lem n e h in
    let (occupied', age', reward', id', value', time') =
      age_entry_lem (age_times n e) e.transaction.reward (e.age / 50) occupied
        (reward ∙ ap (λ (k : ℕ). e.transaction.reward +ℤ pos (k / 50)) (sym age)) in
    (
      occupied',
      omega (arith, age, age'),
      reward' ∙ ap (λ (k : ℕ). e.transaction.reward +ℤ pos (k / 50)) (omega (arith, age)),
      id' ∙ id,
      value' ∙ value,
      time' ∙ time,
    )

leb_ℤ-self : (a : ℤ) → leb_ℤ a a ≡ true
leb_ℤ-self a = ground arith

count-age : (es : List TransactionPoolEntry) → count_occupied (map age_entry es) ≡ count_occupied es
unfolding count_occupied age_entry
count-age [] = refl
count-age (e ∷ es) = ground (arith, count-age es)

live-age : (id : List ℕ) (es : List TransactionPoolEntry) → live id (map age_entry es) ≡ live id es
unfolding live age_entry
live-age id [] = refl
live-age id (e ∷ es) = ground (arith, live-age id es)

length-age : (es : List TransactionPoolEntry) → length (map age_entry es) ≡ length es
length-age [] = refl
length-age (e ∷ es) = ap suc (length-age es)

-- Ageing keeps the pool well formed and the occupied entries as they are, and a second call in the
-- same second changes nothing.
age_transaction_pool_lem :
    (now last : ℤ) (pool : TransactionPool) (size : ℕ) (id : List ℕ)
    → IsPool size pool
    → let (pool', last') = age_transaction_pool now pool last in
      IsPool size pool'
      × (live id pool'.transactions_list ≡ live id pool.transactions_list)
      × (count_occupied pool'.transactions_list ≡ count_occupied pool.transactions_list)
      × (age_transaction_pool now pool' last' ≡ (pool', last'))
unfolding age_transaction_pool
age_transaction_pool_lem now last pool size id h =
    let es = pool.transactions_list in
    elim (Bool-cases (leb_ℤ now last)) [
      | inl early ↦ rw early (h, refl, refl, rw early)
      | inr due ↦
          rw (due, leb_ℤ-self now)
            (
              record {
                sized = length-age es ∙ h.sized;
                percentage = h.percentage;
                unlocked = omega (arith, h.unlocked);
                distinct = λ id'. omega (arith, live-age id' es, h.distinct id');
              },
              live-age id es,
              count-age es,
              refl,
            )
    ]
