-- ===== src/Miner/Select.antt =====
-- `select_transactions` of miner.c.
use dei_chain.Base.{
  ℕ, zero, suc, ◌+◌, Bool, true, false, not, ◌&&◌, Option, none, some, List, [], ◌∷◌, ◌++◌, ltb,
  ◌==◌, if◌then◌else◌, length,
}
use dei_chain.Data.{Transaction, TransactionPoolEntry, TransactionPool, sem_wait, sem_post}
use dei_chain.Pool.Entries.{id_of, count_occupied, mark_available, mentions}

-- What the loop has done: the copies, the indices that it noted, and the entries with the
-- reservations in place.
pub record Selection : Type 0 where
  pub selected : List Transaction
  pub indices : List ℕ
  pub entries : List TransactionPoolEntry

-- The loop that reserves, with room for `room` more copies behind `selected`, over the entries from
-- index `i` on. It stops when the room is used up.
unfoldable pub reserve : ℕ → List Transaction → ℕ → List TransactionPoolEntry → Selection
unfolding mentions
reserve room selected i [] = record { selected = selected; indices = []; entries = [] }
reserve zero selected i (e ∷ es) = record { selected = selected; indices = []; entries = e ∷ es }
reserve (suc room) selected i (e ∷ es) =
    let taken = reserve room (selected ++ e.transaction ∷ []) (i + 1) es in
    let passed = reserve (suc room) selected (i + 1) es in
    if not e.empty && not (mentions (id_of e) selected)
    then record taken {
      indices = i ∷ taken.indices;
      entries = record e { empty = true } ∷ taken.entries;
    }
    else record passed { entries = e ∷ passed.entries }

-- The two buffers that the function allocates; `freed` lists its calls of `free` in order.
pub data Buffer : Type 0 where
  selected_buffer indices_buffer : Buffer

pub record Selected : Type 0 where
  pub result : Option (List Transaction)
  pub pool : TransactionPool
  pub freed : List Buffer

abbrev nothing_selected : TransactionPool → List Buffer → Selected
nothing_selected pool freed = record { result = none; pool = pool; freed = freed }

abbrev pub with_entries : TransactionPool → List TransactionPoolEntry → TransactionPool
with_entries pool es = record pool { transactions_list = es }

abbrev pub locked : TransactionPool → TransactionPool
locked pool = record pool { mutex = sem_wait pool.mutex }

abbrev pub released : TransactionPool → TransactionPool
released pool = record pool { mutex = sem_post pool.mutex }

-- `first` and `second` are the outcomes of the two `malloc`s.
unfoldable pub select_transactions : Bool → Bool → TransactionPool → ℕ → Selected
unfolding count_occupied reserve mark_available
select_transactions false second pool per_block = nothing_selected pool []
select_transactions true false pool per_block = nothing_selected pool (selected_buffer ∷ [])
select_transactions true true pool per_block =
    let pool₁ : TransactionPool = locked pool in
    if ltb (count_occupied pool₁.transactions_list) per_block
    then nothing_selected (released pool₁) (selected_buffer ∷ indices_buffer ∷ [])
    else (let chosen = reserve per_block [] 0 pool₁.transactions_list in
        let pool₂ : TransactionPool = released (with_entries pool₁ chosen.entries) in
        if length chosen.indices == per_block
        then record { result = some chosen.selected; pool = pool₂; freed = indices_buffer ∷ [] }
        else (let pool₃ : TransactionPool = locked pool₂ in
            let pool₄ =
              with_entries pool₃ (mark_available pool₃.transactions_list chosen.indices) in
            nothing_selected (released pool₄)
              (selected_buffer ∷ indices_buffer ∷ indices_buffer ∷ [])))
