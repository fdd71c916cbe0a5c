-- ===== src/Pow/Difficulty.antt =====
-- `check_difficulty` and `getDifficultFromReward` of pow.c, and what they demand of a hash.
use Prim.Native.Nat.{min}
use dei_chain.Base.{
  ℕ, ◌+◌, zero, suc, ◌-◌, ◌≡◌, refl, ◌≤◌, ◌↔◌, Bool, true, false, List, [], ◌∷◌, ltb, ◌==◌,
  if◌then◌else◌, take, replicate, arith,
}
use dei_chain.Base.Int.{ℤ, pos, negsuc, pos_part, eqb_ℤ, leb_ℤ, ◌≤ℤ◌}
use dei_chain.Data.{hash_size}

pub data DifficultyLevel : Type 0 where
  easy normal hard : DifficultyLevel

unfoldable pub get_difficult_from_reward : ℤ → DifficultyLevel
get_difficult_from_reward reward =
    if eqb_ℤ reward (pos 1)
    then easy
    else if eqb_ℤ reward (pos 2)
    then normal
    else if leb_ℤ (pos 3) reward
    then hard
    else easy

-- The `switch` of `check_difficulty`. The enumeration has no value that reaches its `default`.
unfoldable pub zeros_of_level : DifficultyLevel → ℕ
zeros_of_level easy = 2
zeros_of_level normal = 3
zeros_of_level hard = 4

-- The number of zeros, kept between 1 and `HASH_SIZE - 1`.
unfoldable pub zeros_required : ℤ → ℕ
unfolding get_difficult_from_reward zeros_of_level
zeros_required reward =
    let zeros = zeros_of_level (get_difficult_from_reward reward) in
    let zeros' = if ltb zeros 1 then 1 else zeros in
    if ltb (hash_size - 1) zeros' then hash_size - 1 else zeros'

-- The loop over the first characters of the hash.
unfoldable pub starts_with_zeros : ℕ → List ℕ → Bool
starts_with_zeros zero hash = true
starts_with_zeros (suc n) [] = false
starts_with_zeros (suc n) (c ∷ hash) = if c == b'0' then starts_with_zeros n hash else false

unfoldable pub check_difficulty : List ℕ → ℤ → Bool
unfolding zeros_required starts_with_zeros
check_difficulty hash reward = starts_with_zeros (zeros_required reward) hash

starts_with_zeros-iff-take :
    (n : ℕ) (hash : List ℕ) → (starts_with_zeros n hash ≡ true) ↔ (take n hash ≡ replicate n b'0')
unfolding starts_with_zeros
starts_with_zeros-iff-take zero hash = ground arith
starts_with_zeros-iff-take (suc n) [] = ground arith
starts_with_zeros-iff-take (suc n) (c ∷ hash) = ground (arith, starts_with_zeros-iff-take n hash)

pub zeros_required_lem : (reward : ℤ) → zeros_required reward ≡ 2 + min 2 (pos_part reward - 1)
unfolding zeros_required
zeros_required_lem reward = ground arith

-- A hash passes exactly if it begins with two zeros and one more for each point by which the reward
-- exceeds 1, up to four zeros; rewards of 1 and below, negative ones too, need two.
pub check_difficulty_iff :
    (hash : List ℕ) (reward : ℤ)
    → (check_difficulty hash reward ≡ true)
      ↔ (let zeros = 2 + min 2 (pos_part reward - 1) in take zeros hash ≡ replicate zeros b'0')
unfolding check_difficulty
check_difficulty_iff hash reward =
    rw (← zeros_required_lem reward) (starts_with_zeros-iff-take (zeros_required reward) hash)

starts_with_zeros-le :
    (m n : ℕ) (hash : List ℕ)
    → m ≤ n
    → starts_with_zeros n hash ≡ true
    → starts_with_zeros m hash ≡ true
unfolding starts_with_zeros
starts_with_zeros-le zero n hash h p = refl
starts_with_zeros-le (suc m) zero hash h p = elim h [ ]
starts_with_zeros-le (suc m) (suc n) [] h p = p
starts_with_zeros-le (suc m) (suc n) (c ∷ hash) h p =
    ground (arith, starts_with_zeros-le m n hash (omega arith))

zeros_required-le : (low high : ℤ) → low ≤ℤ high → zeros_required low ≤ zeros_required high
zeros_required-le (pos m) (pos n) h =
    omega (arith, zeros_required_lem (pos m), zeros_required_lem (pos n))
zeros_required-le (pos m) (negsuc n) h = absurd (omega arith)
zeros_required-le (negsuc m) (pos n) h =
    omega (arith, zeros_required_lem (negsuc m), zeros_required_lem (pos n))
zeros_required-le (negsuc m) (negsuc n) h =
    omega (arith, zeros_required_lem (negsuc m), zeros_required_lem (negsuc n))

-- A hash that is good enough for a reward is good enough for every smaller one, so that the test
-- at the largest reward of a block covers each of its transactions.
pub check_difficulty_mono :
    (hash : List ℕ) (low high : ℤ)
    → low ≤ℤ high
    → check_difficulty hash high ≡ true
    → check_difficulty hash low ≡ true
unfolding check_difficulty
check_difficulty_mono hash low high le h =
    starts_with_zeros-le (zeros_required low) (zeros_required high) hash
      (zeros_required-le low high le) h
