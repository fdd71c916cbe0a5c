-- ===== src/Tests/PowRuns.antt =====
-- Serialisation, hashing, difficulty and search at concrete blocks.
use dei_chain.Base.{
  ℕ, ◌+◌, ◌≤◌, ◌<◌, ◌≡◌, refl, ◌↔◌, true, false, [], ◌∷◌, take, replicate, arith, ◌-◌,
}
use Prim.Native.Nat.{min}
use dei_chain.Base.Int.{pos, pos_part}
use dei_chain.Base.Arrays.{c_string}
use dei_chain.Data.{pow_max_ops}
use dei_chain.Pow.Hash.{compute_sha256}
use dei_chain.Pow.Layout.{IsTransaction, IsBlock}
use dei_chain.Pow.Difficulty.{check_difficulty, check_difficulty_iff}
use dei_chain.Pow.Search.{with_nonce, verify_nonce, proof_of_work}
use dei_chain.Pow.Sound.{hit, proof_of_work_sound, proof_of_work_finds}
use dei_chain.Tests.Fixtures.{code, digest, tx, block_at, mined_at}

pub tx_fits : (n : ℕ) → IsTransaction (tx n)
tx_fits n = record {
  id_size = refl;
  reward_fits = omega arith;
  value_fits = omega arith;
  time_fits = omega arith;
}

built-IsBlock : IsBlock (block_at 1000) (tx 1 ∷ tx 2 ∷ [])
built-IsBlock = record {
  id_size = refl;
  hash_fits = refl;
  time_fits = omega arith;
  nonce_fits = omega arith;
  points = refl;
  counted = refl;
  count_fits = omega arith;
  each = (tx_fits 1, (tx_fits 2, tt));
}

pub mined-IsBlock : IsBlock (mined_at 1000 3) (tx 1 ∷ tx 2 ∷ [])
mined-IsBlock = record {
  id_size = refl;
  hash_fits = refl;
  time_fits = omega arith;
  nonce_fits = omega arith;
  points = refl;
  counted = refl;
  count_fits = omega arith;
  each = (tx_fits 1, (tx_fits 2, tt));
}

search_runs : (proof_of_work digest (λ _. true) [] (block_at 1000)).1.nonce ≡ 3
unfolding code
search_runs = refl

check_difficulty_iff_example : (check_difficulty (b'0' ∷ b'0' ∷ b'7' ∷ []) (pos 2) ≡ true) ↔ (
    let zeros = 2 + min 2 (pos_part (pos 2) - 1) in
    take {A = ℕ} zeros (b'0' ∷ b'0' ∷ b'7' ∷ []) ≡ replicate zeros b'0')
check_difficulty_iff_example = check_difficulty_iff (b'0' ∷ b'0' ∷ b'7' ∷ []) (pos 2)

proof_of_work_sound_example :
    let (r, b) = proof_of_work digest (λ _. true) [] (block_at 1000) in
    (b ≡ with_nonce (block_at 1000) b.nonce)
    × (b.nonce < pow_max_ops)
    × (verify_nonce digest true [] b ≡ true)
    × (r.operations ≡ b.nonce + 1)
    × (r.hash ≡ c_string (compute_sha256 digest true b []))
unfolding code
proof_of_work_sound_example = proof_of_work_sound digest (λ _. true) [] (block_at 1000) refl

-- Nonce 7 is a hit too; the search stops before it.
proof_of_work_finds_example :
    let (r, b) = proof_of_work digest (λ _. true) [] (block_at 1000) in
    (r.error ≡ false) × (b.nonce ≤ 7) × (hit digest (λ _. true) (block_at 1000) b.nonce ≡ true)
unfolding code
proof_of_work_finds_example =
    proof_of_work_finds digest (λ _. true) [] (block_at 1000) 7 (omega arith) refl
