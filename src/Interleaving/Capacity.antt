-- ===== src/Interleaving/Capacity.antt =====
-- How many blocks several validators add to a ledger, against the room that it has.
use dei_chain.Base.{
  ℕ, zero, suc, ◌+◌, ◌≤◌, ◌<◌, ◌≡◌, ◌⊎◌, refl, ap, ◌∙◌, subst, some, List, [], ◌∷◌, set, get_elem?,
  length, length-set, leb, ltb, true, false, arith,
}
use mathlib.Core.Option.{some-injective}
use dei_chain.Data.{TransactionBlock, Config}
use dei_chain.Validator.Ledger.{write_block, overwritten, append_block}
use dei_chain.Controller.Layout.{entry_offset, transactions_offset}
use dei_chain.Validator.Check.{Memory}
use dei_chain.Validator.Process.{Shared}
use dei_chain.Interleaving.Steps.{
  Point, idle, got, proven, linked, accepted, admitted, stored, refused, advance, System, moved,
  Step, read, validator, others, Reach, here, next,
}

abbrev pub adds : Point → ℕ
adds (admitted b) = 1
adds p = 0

-- The validators that have found room and not added their block yet.
abbrev pub admissions : List Point → ℕ
admissions [] = 0
admissions (p ∷ ps) = adds p + admissions ps

admissions-set :
    (ps : List Point) (i : ℕ) (p p' : Point)
    → get_elem? ps i ≡ some p
    → admissions (set ps i p') + adds p ≡ admissions ps + adds p'
admissions-set [] i p p' h = cc
admissions-set (q ∷ ps) zero p p' h = omega (arith, ap adds (some-injective _ _ h))
admissions-set (q ∷ ps) (suc i) p p' h = omega (arith, admissions-set ps i p p' h)

adds-le : (p : Point) → adds p ≤ 1
adds-le p = ground arith

admissions-le : (ps : List Point) → admissions ps ≤ length ps
admissions-le [] = omega arith
admissions-le (p ∷ ps) = omega (arith, adds-le p, admissions-le ps)

module _ (sha256 : List ℕ → List ℕ) (config : Config) where
  -- A step finds room where there is some, adds a block for which it found room, or does neither.
  Counts : Point → Shared → Point × Shared → Type 0
  Counts p s (p', s') =
      (s'.ledger.num_blocks + adds p' ≤ s.ledger.num_blocks + adds p)
      ⊎ ((s'.ledger.num_blocks ≡ s.ledger.num_blocks)
          × (s.ledger.num_blocks < config.blockchain_blocks))

  advance-Counts :
      (memory : Memory) (p : Point) (s : Shared) → Counts p s (advance sha256 config memory p s)
  unfolding advance Counts append_block
  advance-Counts memory idle s = ground arith
  advance-Counts memory (got b) s = ground arith
  advance-Counts memory (proven b) s = ground arith
  advance-Counts memory (linked b) s = ground arith
  advance-Counts memory (accepted b) s = ground arith
  advance-Counts memory (admitted b) s = ground arith
  advance-Counts memory (stored b) s = ground arith
  advance-Counts memory (refused b) s = ground arith

  -- The blocks in the ledger and those on their way to it.
  abbrev IsCounted : System sha256 config → Type 0
  IsCounted s =
      s.shared.ledger.num_blocks + admissions s.points < config.blockchain_blocks + length s.points

  Step-IsCounted : {s t : System sha256 config} → Step sha256 config s t → IsCounted s → IsCounted t
  unfolding moved Counts
  Step-IsCounted {s} (read i b free r) h =
      omega (arith, h, length-set s.points i (got b), admissions-set s.points i idle (got b) free)
  Step-IsCounted {s} (validator i p memory stands) h =
      let (p', s') = advance sha256 config memory p s.shared in
      ground (
        arith,
        h,
        adds-le p',
        advance-Counts memory p s.shared,
        length-set s.points i p',
        admissions-set s.points i p p' stands,
        admissions-le (set s.points i p'),
      )
  Step-IsCounted (others pool) h = h

  Step-length :
      {s t : System sha256 config} → Step sha256 config s t → length t.points ≡ length s.points
  unfolding moved
  Step-length {s} (read i b free r) = length-set s.points i (got b)
  Step-length {s} (validator i p memory stands) = length-set s.points i _
  Step-length (others pool) = refl

  Reach-length :
      {s t : System sha256 config} → Reach sha256 config s t → length t.points ≡ length s.points
  Reach-length here = refl
  Reach-length (next r st) = Step-length st ∙ Reach-length r

  Reach-IsCounted :
      {s t : System sha256 config} → IsCounted s → Reach sha256 config s t → IsCounted t
  Reach-IsCounted h here = h
  Reach-IsCounted h (next r st) = Step-IsCounted st (Reach-IsCounted h r)

  -- However the steps of `n` validators alternate, from a state in which the ledger is not over its
  -- room and no validator has found room yet: the blocks counted are fewer than the room and `n`
  -- together, so that one validator never passes the room, and `n` of them pass it by `n - 1` at most.
  pub Reach-capacity :
      {s t : System sha256 config} (n : ℕ)
      → length s.points ≡ n
      → 0 < n
      → admissions s.points ≡ 0
      → s.shared.ledger.num_blocks ≤ config.blockchain_blocks
      → Reach sha256 config s t
      → t.shared.ledger.num_blocks < config.blockchain_blocks + n
  Reach-capacity {s} {t} n size some_validator none_admitted bounded run =
      let counted : IsCounted s = omega arith in
      omega (arith, Reach-IsCounted counted run, Reach-length run)

  -- Two validators.
  abbrev pub pair : Shared → Point → Point → System sha256 config
  pair s p q = record { shared = s; points = p ∷ q ∷ [] }

  abbrev appended : Memory → TransactionBlock → Shared → Shared
  appended memory b s = record s { ledger = append_block memory.past_end b s.ledger config }

  Step-moved :
      (i : ℕ) (p : Point) (memory : Memory) (s t : System sha256 config)
      → get_elem? s.points i ≡ some p
      → moved sha256 config i p memory s ≡ t
      → Step sha256 config s t
  Step-moved i p memory s t stands e = subst (Step sha256 config s) e (validator i p memory stands)

  admits :
      (memory : Memory) (b c : TransactionBlock) (s : Shared)
      → s.ledger.num_blocks < config.blockchain_blocks
      → Reach sha256 config (pair s (accepted b) (accepted c)) (pair s (admitted b) (admitted c))
  unfolding moved
  admits memory b c s space =
      let room : leb config.blockchain_blocks s.ledger.num_blocks ≡ false = ground arith in
      next
        (next here (
          Step-moved 0 (accepted b) memory _ (pair s (admitted b) (accepted c)) refl
            (rw room refl)))
        (Step-moved 1 (accepted c) memory _ _ refl (rw room refl))

  both_append :
      (memory : Memory) (b c : TransactionBlock) (s t : Shared)
      → Reach sha256 config (pair t (accepted b) (accepted c)) (pair s (admitted b) (admitted c))
      → Reach sha256 config
          (pair t (accepted b) (accepted c))
          (pair (appended memory c (appended memory b s)) (stored b) (stored c))
  unfolding moved
  both_append memory b c s t run =
      next
        (next run (
          Step-moved 0 (admitted b) memory _ (pair (appended memory b s) (stored b) (admitted c))
            refl refl))
        (Step-moved 1 (admitted c) memory _ _ refl refl)

  -- Two validators with accepted blocks, and one free place: they can both find it free and both add
  -- their block. The ledger then counts one block more than it has room for. The entry of the second
  -- block starts where the transactions of block 0 start, so that these are what the write left there,
  -- whatever that is; the second block is not in the array.
  pub two_validators_overflow :
      (memory : Memory) (b c : TransactionBlock) (s : Shared)
      → s.ledger.num_blocks + 1 ≡ config.blockchain_blocks
      → (t : Shared) × Reach sha256 config
          (pair s (accepted b) (accepted c))
          (pair t (stored b) (stored c))
        × (t.ledger.num_blocks ≡ config.blockchain_blocks + 1)
        × (entry_offset (s.ledger.num_blocks + 1) ≡ transactions_offset config 0)
        × (t.ledger.blocks ≡ overwritten memory.past_end 0 (write_block b s.ledger config).blocks)
  unfolding append_block entry_offset transactions_offset
  two_validators_overflow memory b c s last =
      let fits : ltb s.ledger.num_blocks config.blockchain_blocks ≡ true = ground arith in
      let full : ltb (s.ledger.num_blocks + 1) config.blockchain_blocks ≡ false = ground arith in
      (
        appended memory c (appended memory b s),
        both_append memory b c s s (admits memory b c s (omega (arith, last))),
        rw (fits, full) (omega (arith, last)),
        omega (arith, last),
        rw (fits, full) refl,
      )
