-- ===== src/Interleaving/Sound.antt =====
-- What several validators with overlapping calls never break: the blocks in the ledger are checked,
-- and they stay.
use dei_chain.Base.{
  ℕ, zero, suc, ◌+◌, ◌≤◌, ◌≡◌, ◌⊎◌, refl, sym, ap, ◌∙◌, subst, true, some, List, [], ◌∷◌, ◌++◌, All,
  set, get_elem?, length, length-set, take-le, leb, ltb, ◌<◌, arith, inl, inr, Bool-cases,
}
use mathlib.Core.Option.{some-injective}
use mathlib.Core.List.{append-nil}
use dei_chain.Data.{Transaction, TransactionBlock, BlockchainEntry, BlockchainLedger, Config}
use dei_chain.Pow.Search.{verify_nonce}
use dei_chain.Pow.Sound.{verify_nonce-allocated}
use dei_chain.Validator.Ledger.{ledger_entry, overwritten, append_block}
use dei_chain.Validator.Check.{Memory, check_previous, check_transactions}
use dei_chain.Validator.Chain.{take-set, chain}
use dei_chain.Validator.Keep.{stored}
use dei_chain.Validator.Process.{Shared}
use dei_chain.Wire.Accepts.{IsRead}
use dei_chain.Validator.Log.{Appends, same, one_more, Appends-prefix}
use dei_chain.Interleaving.Steps.{
  Point, idle, got, proven, linked, accepted, admitted, refused, advance, System, moved, Step, read,
  validator, others, Reach, here, next,
}

All-set :
    {A : Type 0} (P : A → Type 0) (xs : List A) (i : ℕ) (v : A)
    → All P xs
    → P v
    → All P (set xs i v)
All-set P [] i v h k = tt
All-set P (x ∷ xs) zero v h k = (k, h.1)
All-set P (x ∷ xs) (suc i) v h k = (h.0, All-set P xs i v h.1 k)

All-get_elem? :
    {A : Type 0} (P : A → Type 0) (xs : List A) (i : ℕ) (v : A)
    → All P xs
    → get_elem? xs i ≡ some v
    → P v
All-get_elem? P [] i v h k = cc
All-get_elem? P (x ∷ xs) zero v h k = subst P (some-injective _ _ k) h.0
All-get_elem? P (x ∷ xs) (suc i) v h k = All-get_elem? P xs i v h.1 k

All-append_one :
    {A : Type 0} (P : A → Type 0) (xs : List A) (v : A) → All P xs → P v → All P (xs ++ v ∷ [])
All-append_one P [] v h k = (k, tt)
All-append_one P (x ∷ xs) v h k = (h.0, All-append_one P xs v h.1 k)

-- The entry is marked valid.
abbrev pub IsMarked : BlockchainEntry → Type 0
IsMarked e = e.valid ≡ true

overwritten-IsMarked :
    (past_end : ℕ → List Transaction → List Transaction) (i : ℕ) (es : List BlockchainEntry)
    → All IsMarked es
    → All IsMarked (overwritten past_end i es)
unfolding overwritten
overwritten-IsMarked past_end i [] h = tt
overwritten-IsMarked past_end i (e ∷ es) h = (h.0, overwritten-IsMarked past_end (i + 1) es h.1)

length-overwritten :
    (past_end : ℕ → List Transaction → List Transaction) (i : ℕ) (es : List BlockchainEntry)
    → length (overwritten past_end i es) ≡ length es
unfolding overwritten
length-overwritten past_end i [] = refl
length-overwritten past_end i (e ∷ es) = ap suc (length-overwritten past_end (i + 1) es)

append_block-num_blocks :
    (past_end : ℕ → List Transaction → List Transaction) (b : TransactionBlock)
    (ledger : BlockchainLedger) (config : Config)
    → (append_block past_end b ledger config).num_blocks ≡ ledger.num_blocks + 1
unfolding append_block
append_block-num_blocks past_end b ledger config = ground arith

append_block-room :
    (past_end : ℕ → List Transaction → List Transaction) (b : TransactionBlock)
    (ledger : BlockchainLedger) (config : Config)
    → length (append_block past_end b ledger config).blocks ≡ length ledger.blocks
unfolding append_block
append_block-room past_end b ledger config = ground (
  arith,
  length-set ledger.blocks ledger.num_blocks (ledger_entry b config),
  length-overwritten past_end 0 ledger.blocks,
)

append_block-mutex :
    (past_end : ℕ → List Transaction → List Transaction) (b : TransactionBlock)
    (ledger : BlockchainLedger) (config : Config)
    → ledger.mutex ≡ 1
    → (append_block past_end b ledger config).mutex ≡ 1
unfolding append_block
append_block-mutex past_end b ledger config free = ground arith

-- With room for it, the block is behind the others.
append_block-chain :
    (past_end : ℕ → List Transaction → List Transaction) (b : TransactionBlock)
    (ledger : BlockchainLedger) (config : Config)
    → length ledger.blocks ≡ config.blockchain_blocks
    → ledger.num_blocks < config.blockchain_blocks
    → chain (append_block past_end b ledger config) ≡ chain ledger ++ ledger_entry b config ∷ []
unfolding append_block
append_block-chain past_end b ledger config room fits =
    let space : ltb ledger.num_blocks config.blockchain_blocks ≡ true = ground arith in
    rw space
      (take-set ledger.blocks ledger.num_blocks (ledger_entry b config) (omega (arith, room, fits)))

is_marked : (b : TransactionBlock) (config : Config) → IsMarked (ledger_entry b config)
unfolding ledger_entry
is_marked b config = refl

append_block-IsMarked :
    (past_end : ℕ → List Transaction → List Transaction) (b : TransactionBlock)
    (ledger : BlockchainLedger) (config : Config)
    → length ledger.blocks ≡ config.blockchain_blocks
    → All IsMarked (chain ledger)
    → All IsMarked (chain (append_block past_end b ledger config))
unfolding append_block
append_block-IsMarked past_end b ledger config room h =
    elim (Bool-cases (ltb ledger.num_blocks config.blockchain_blocks)) [
      | inl space ↦
          subst (All IsMarked)
            (sym (append_block-chain past_end b ledger config room (ground (arith, space))))
            (All-append_one IsMarked (chain ledger) (ledger_entry b config) h (is_marked b config))
      | inr full ↦
          let above : config.blockchain_blocks ≤ ledger.num_blocks = ground (arith, full) in
          let es = overwritten past_end 0 ledger.blocks in
          let size : length es ≤ ledger.num_blocks + 1 =
            omega (arith, above, room, length-overwritten past_end 0 ledger.blocks) in
          rw full (
            subst (All IsMarked) (sym (take-le (ledger.num_blocks + 1) es size)) (
              overwritten-IsMarked past_end 0 ledger.blocks (
                subst (All IsMarked)
                  (take-le ledger.num_blocks ledger.blocks (omega (arith, above, room))) h)))
    ]

module _ (sha256 : List ℕ → List ℕ) (config : Config) where
  -- The entry is marked valid, and the nonce of its block passes the check.
  abbrev pub IsProven : BlockchainEntry → Type 0
  IsProven e = (e.valid ≡ true) × (verify_nonce sha256 true [] e.block ≡ true)

  abbrev IsNonceChecked : TransactionBlock → Type 0
  IsNonceChecked b = IsRead config b × (verify_nonce sha256 true [] b ≡ true)

  -- What a validator knows of its block at a point.
  abbrev pub IsChecked : Point → Type 0
  IsChecked idle = Unit {0}
  IsChecked (got b) = IsRead config b
  IsChecked (Point.stored b) = Unit {0}
  IsChecked (refused b) = Unit {0}
  IsChecked (proven b) = IsNonceChecked b
  IsChecked (linked b) = IsNonceChecked b
  IsChecked (accepted b) = IsNonceChecked b
  IsChecked (admitted b) = IsNonceChecked b

  -- The ledger between two steps: its array, a free mutex, and blocks that are marked, and checked as
  -- long as no block was written past the end.
  pub record IsProvenLedger (ledger : BlockchainLedger) : Type 0 where
    pub room : length ledger.blocks ≡ config.blockchain_blocks
    pub unlocked : ledger.mutex ≡ 1
    pub marked : All IsMarked (chain ledger)
    pub blocks : ledger.num_blocks ≤ config.blockchain_blocks → All IsProven (chain ledger)

  -- The block of each validator is checked too, as far as the validator has come.
  pub record IsSound (s : System sha256 config) : Type 0 where
    pub ledger : IsProvenLedger s.shared.ledger
    pub points : All IsChecked s.points

  entry-IsProven : (b : TransactionBlock) → IsNonceChecked b → IsProven (ledger_entry b config)
  unfolding ledger_entry
  entry-IsProven b (r, v) = (
    valid,
    subst (λ (c : TransactionBlock). verify_nonce sha256 true [] c ≡ true)
        (sym (stored sha256 config b r.ts r.points r.few_transactions)) v,
  )
    where
      valid : (ledger_entry b config).valid ≡ true
      valid = refl

  advance-IsChecked :
      (memory : Memory) (p : Point) (s : Shared)
      → IsChecked p
      → IsChecked (advance sha256 config memory p s).0
  unfolding advance
  advance-IsChecked memory idle s h = tt
  advance-IsChecked memory (got b) s h =
      elim (Bool-cases (verify_nonce sha256 memory.nonce_allocated memory.nonce_buffer b)) [
        | inr unproven ↦ rw unproven tt
        | inl passed ↦ rw passed (
          h,
          ground
              (arith, verify_nonce-allocated sha256 memory.nonce_allocated memory.nonce_buffer b),
        )
      ]
  advance-IsChecked memory (proven b) s h =
      elim (Bool-cases (check_previous sha256 memory b s.ledger)) [
        | inr stale ↦ rw stale tt
        | inl last ↦ rw last h
      ]
  advance-IsChecked memory (linked b) s h =
      elim (Bool-cases (check_transactions memory.positions_allocated b s.pool).0) [
        | inr unlisted ↦ rw unlisted tt
        | inl listed ↦ rw listed h
      ]
  advance-IsChecked memory (accepted b) s h =
      elim (Bool-cases (leb config.blockchain_blocks s.ledger.num_blocks)) [
        | inl full ↦ rw full tt
        | inr space ↦ rw space h
      ]
  advance-IsChecked memory (admitted b) s h = tt
  advance-IsChecked memory (Point.stored b) s h = tt
  advance-IsChecked memory (refused b) s h = tt

  -- What a step of a validator does to the ledger.
  advance-ledger :
      (memory : Memory) (p : Point) (s : Shared)
      → IsChecked p
      → ((advance sha256 config memory p s).1.ledger ≡ s.ledger)
        ⊎ ((b : TransactionBlock) × IsNonceChecked b
            × ((advance sha256 config memory p s).1.ledger
                ≡ append_block memory.past_end b s.ledger config))
  unfolding advance
  advance-ledger memory idle s h = inl refl
  advance-ledger memory (got b) s h = inl (ground arith)
  advance-ledger memory (proven b) s h = inl (ground arith)
  advance-ledger memory (linked b) s h = inl (ground arith)
  advance-ledger memory (accepted b) s h = inl (ground arith)
  advance-ledger memory (admitted b) s h = inr (b, h, refl)
  advance-ledger memory (Point.stored b) s h = inl refl
  advance-ledger memory (refused b) s h = inl refl

  append_block-IsProvenLedger :
      (past_end : ℕ → List Transaction → List Transaction) (b : TransactionBlock)
      (ledger : BlockchainLedger)
      → IsNonceChecked b
      → IsProvenLedger ledger
      → IsProvenLedger (append_block past_end b ledger config)
  append_block-IsProvenLedger past_end b ledger checked h = record {
    room = append_block-room past_end b ledger config ∙ h.room;
    unlocked = append_block-mutex past_end b ledger config h.unlocked;
    marked = append_block-IsMarked past_end b ledger config h.room h.marked;
    blocks = λ fits.
        let count = append_block-num_blocks past_end b ledger config in
        subst (All IsProven)
          (sym (append_block-chain past_end b ledger config h.room (omega (arith, fits, count))))
          (All-append_one IsProven (chain ledger) (ledger_entry b config)
            (h.blocks (omega (arith, fits, count))) (entry-IsProven b checked));
  }

  Step-IsSound : {s t : System sha256 config} → Step sha256 config s t → IsSound s → IsSound t
  unfolding moved
  Step-IsSound {s} (read i b free r) h = record {
    ledger = h.ledger;
    points = All-set IsChecked s.points i (got b) h.points r;
  }
  Step-IsSound {s} (validator i p memory stands) h =
      let checked = All-get_elem? IsChecked s.points i p h.points stands in
      record {
        ledger = elim (advance-ledger memory p s.shared checked) [
          | inl kept ↦ subst IsProvenLedger (sym kept) h.ledger
          | inr (b, nonce, added) ↦
              subst IsProvenLedger (sym added)
                (append_block-IsProvenLedger memory.past_end b s.shared.ledger nonce h.ledger)
        ];
        points =
            All-set IsChecked s.points i _ h.points (advance-IsChecked memory p s.shared checked);
      }
  Step-IsSound (others pool) h = record { ledger = h.ledger; points = h.points }

  -- However the steps of any number of validators alternate, whatever blocks they read and whatever
  -- happens to the pool: every block in the ledger is marked valid, it passes the check of its nonce if no
  -- block was written past the end, and the mutex of the ledger is free between two steps. This holds of the
  -- first state by hypothesis.
  pub Reach-IsSound : {s t : System sha256 config} → IsSound s → Reach sha256 config s t → IsSound t
  Reach-IsSound h here = h
  Reach-IsSound h (next r st) = Step-IsSound st (Reach-IsSound h r)

  -- A step keeps the ledger or counts one block more, and with room for it the block is behind the
  -- others.
  Extends : BlockchainLedger → BlockchainLedger → Type 0
  Extends ledger ledger' =
      (ledger.num_blocks ≤ ledger'.num_blocks)
      × (ledger'.num_blocks ≤ config.blockchain_blocks → Appends (chain ledger) (chain ledger'))

  append_block-Extends :
      (past_end : ℕ → List Transaction → List Transaction) (b : TransactionBlock)
      (ledger : BlockchainLedger)
      → length ledger.blocks ≡ config.blockchain_blocks
      → Extends ledger (append_block past_end b ledger config)
  unfolding Extends
  append_block-Extends past_end b ledger room =
      let count = append_block-num_blocks past_end b ledger config in
      (
        omega (arith, count),
        (λ fits.
            subst (Appends (chain ledger))
              (sym (append_block-chain past_end b ledger config room (omega (arith, fits, count))))
              (one_more (ledger_entry b config))),
      )

  Step-Extends :
      {s t : System sha256 config}
      → IsSound s
      → Step sha256 config s t
      → Extends s.shared.ledger t.shared.ledger
  unfolding moved Extends
  Step-Extends h (read i b free r) = (omega arith, λ fits. same)
  Step-Extends {s} h (validator i p memory stands) =
      elim (advance-ledger memory p s.shared
        (All-get_elem? IsChecked s.points i p h.points stands)) [
          | inl kept ↦ subst (Extends s.shared.ledger) (sym kept) (omega arith, λ fits. same)
          | inr (b, nonce, added) ↦
              subst (Extends s.shared.ledger) (sym added)
                (append_block-Extends memory.past_end b s.shared.ledger h.ledger.room)
        ]
  Step-Extends h (others pool) = (omega arith, λ fits. same)

  -- However the steps of any number of validators alternate, no block in the ledger is changed or
  -- removed, as long as the ledger does not count more blocks than it has room for: the blocks of a
  -- later state are those of the earlier one, with others behind them. The earlier state is sound.
  pub Reach-Appends :
      {s t : System sha256 config}
      → IsSound s
      → Reach sha256 config s t
      → t.shared.ledger.num_blocks ≤ config.blockchain_blocks
      → (new : List BlockchainEntry) × (chain t.shared.ledger ≡ chain s.shared.ledger ++ new)
  unfolding Extends
  Reach-Appends {s} h here fits = ([], sym (append-nil (chain s.shared.ledger)))
  Reach-Appends {s} h (next {t} {u} r st) fits =
      let (grows, appends) = Step-Extends (Reach-IsSound h r) st in
      Appends-prefix (chain s.shared.ledger) (chain t.shared.ledger) (chain u.shared.ledger)
        (Reach-Appends h r (omega (arith, grows, fits))) (appends fits)
