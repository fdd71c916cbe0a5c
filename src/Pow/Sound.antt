-- ===== src/Pow/Sound.antt =====
-- `proof_of_work` against `verify_nonce`: the search finds the least nonce that the validator
-- accepts, and fails only if there is none.
use dei_chain.Base.{
  ℕ, zero, suc, ◌+◌, ◌%◌, ◌^◌, ◌≡◌, refl, ◌≤◌, ◌<◌, Bool, true, false, ◌&&◌, List, [], arith, inl,
  inr, Bool-cases, lt→ltb, leb, ap,
}
use native.Mathlib.Decide.{ℕ_discrete, dec_lt}
use dei_chain.Base.Int.{ℤ}
use dei_chain.Base.Arrays.{c_string}
use dei_chain.Data.{TransactionBlock, PowResult, pow_max_ops}
use dei_chain.Pow.Hash.{compute_sha256, compute_sha256_old}
use dei_chain.Pow.Difficulty.{check_difficulty}
use dei_chain.Pow.Search.{max_reward, with_nonce, failed, verify_nonce, pow_loop, proof_of_work}

wrap : (n limit : ℕ) → limit ≤ 2 ^ 32 → leb limit (n + 1) ≡ false → (n + 1) % 2 ^ 32 ≡ n + 1
wrap n limit small more = ground arith

and-right : (a b : Bool) → (a && b) ≡ true → b ≡ true
and-right true b h = h
and-right false b h = cc

module _ (sha256 : List ℕ → List ℕ) where
  -- "ERROR" passes no difficulty test.
  check_difficulty-error :
      (b : TransactionBlock) (old : List ℕ) (most : ℤ)
      → check_difficulty (compute_sha256 sha256 false b old) most ≡ false
  unfolding check_difficulty compute_sha256
  check_difficulty-error b old most = ground arith

  -- A call that accepts had the memory it asked for, and accepts with any other buffer too.
  pub verify_nonce-allocated :
      (a : Bool) (old : List ℕ) (b : TransactionBlock)
      → verify_nonce sha256 a old b ≡ true
      → (a ≡ true) × (verify_nonce sha256 true [] b ≡ true)
  unfolding verify_nonce compute_sha256
  verify_nonce-allocated true old b h = (refl, h)
  verify_nonce-allocated false old b h = cc (check_difficulty-error b old (max_reward b))

  pub verify_nonce_old :
      (old : List ℕ) (b : TransactionBlock)
      → verify_nonce sha256 true old b ≡ verify_nonce sha256 true [] b
  unfolding verify_nonce compute_sha256
  verify_nonce_old old b = refl

  module _ (allocated : ℕ → Bool) (b : TransactionBlock) where
    -- The round for nonce `n` succeeds: there is memory, and `verify_nonce` accepts.
    abbrev pub hit : ℕ → Bool
    hit n = allocated n && verify_nonce sha256 true [] (with_nonce b n)

    check-eq-and :
        (a : Bool) (n : ℕ) (old : List ℕ)
        → check_difficulty (compute_sha256 sha256 a (with_nonce b n) old) (max_reward b)
          ≡ (a && verify_nonce sha256 true [] (with_nonce b n))
    unfolding verify_nonce compute_sha256 max_reward
    check-eq-and true n old = refl
    check-eq-and false n old = check_difficulty-error (with_nonce b n) old (max_reward b)

    check-eq-hit :
        (n : ℕ) (old : List ℕ)
        → check_difficulty (compute_sha256 sha256 (allocated n) (with_nonce b n) old) (max_reward b)
          ≡ hit n
    check-eq-hit n old = check-eq-and (allocated n) n old

    hash-eq :
        (a : Bool) (n : ℕ) (old : List ℕ)
        → (a && verify_nonce sha256 true [] (with_nonce b n)) ≡ true
        → compute_sha256 sha256 a (with_nonce b n) old
          ≡ compute_sha256 sha256 true (with_nonce b n) []
    hash-eq true n old h = compute_sha256_old sha256 (with_nonce b n) old []
    hash-eq false n old h = cc

    -- What the search from nonce `n` on has to deliver.
    abbrev pub Delivers : ℕ → ℕ → PowResult × TransactionBlock → Type 0
    Delivers limit n (r, b') =
        (r.error ≡ false
          → (n ≤ b'.nonce)
            × (b'.nonce < limit)
            × (b' ≡ with_nonce b b'.nonce)
            × (hit b'.nonce ≡ true)
            × ((k : ℕ) → n ≤ k → k < b'.nonce → hit k ≡ false)
            × (r.operations ≡ b'.nonce + 1)
            × (r.hash ≡ c_string (compute_sha256 sha256 true b' [])))
        × (r.error ≡ true → ((k : ℕ) → n ≤ k → k < limit → hit k ≡ false) × (r.operations ≡ limit))

    miss-from :
        (limit n : ℕ)
        → hit n ≡ false
        → ((k : ℕ) → n + 1 ≤ k → k < limit → hit k ≡ false)
        → (k : ℕ) → n ≤ k
        → k < limit
        → hit k ≡ false
    miss-from limit n miss later k p q = elim (ℕ_discrete k n) [
      | yes here ↦ rw here miss
      | no there ↦ later k (omega arith) q
    ]

    Delivers-later :
        (limit n : ℕ) (r : PowResult × TransactionBlock)
        → hit n ≡ false
        → Delivers limit (n + 1) r
        → Delivers limit n r
    Delivers-later limit n (r, b') miss (found, none_found) = (
      (λ h.
          let (above, below, same, good, missed, count, text) = found h in
          (omega arith, below, same, good, miss-from b'.nonce n miss missed, count, text)),
      λ h. let (missed, count) = none_found h in (miss-from limit n miss missed, count),
    )

    Delivers-failed :
        (limit n : ℕ) (b' : TransactionBlock)
        → hit n ≡ false
        → n + 1 ≡ limit
        → Delivers limit n (failed (n + 1) b')
    Delivers-failed limit n b' miss e =
        (λ h. cc, λ h. (miss-from limit n miss (λ k p q. absurd (omega arith)), e))

    pow_loop-Delivers :
        (limit fuel n : ℕ) (old : List ℕ)
        → limit ≤ 2 ^ 32
        → n + fuel ≡ limit
        → Delivers limit n
            (pow_loop sha256 allocated limit (max_reward b) fuel n old (with_nonce b n))
    unfolding pow_loop
    pow_loop-Delivers limit zero n old small e =
        (λ h. cc, λ _. ((λ k p q. absurd (omega arith)), omega arith))
    pow_loop-Delivers limit (suc fuel) n old small e = elim (Bool-cases (hit n)) [
      | inl found ↦
          rw (lt→ltb n limit (omega arith), check-eq-hit n old, found)
            (
              (λ _. (
                omega arith,
                omega arith,
                refl,
                found,
                (λ k p q. absurd (omega arith)),
                refl,
                ap c_string (hash-eq (allocated n) n old found),
              )),
              λ h. cc,
            )
      | inr missed ↦
          rw (lt→ltb n limit (omega arith), check-eq-hit n old, missed)
            (elim (Bool-cases (leb limit (n + 1))) [
              | inl last ↦
                  rw last (
                    Delivers-failed limit n (with_nonce b ((n + 1) % 2 ^ 32)) missed (ground arith))
              | inr more ↦
                  rw (more, wrap n limit small more)
                    (Delivers-later limit n _ missed (
                      pow_loop-Delivers limit fuel (n + 1)
                        (compute_sha256 sha256 (allocated n) (with_nonce b n) old) small
                        (omega arith)))
            ])
    ]

  proof_of_work-Delivers :
      (allocated : ℕ → Bool) (old : List ℕ) (b : TransactionBlock)
      → Delivers allocated b pow_max_ops 0 (proof_of_work sha256 allocated old b)
  unfolding proof_of_work
  proof_of_work-Delivers allocated old b =
      pow_loop-Delivers allocated b pow_max_ops pow_max_ops 0 old (omega arith) (omega arith)

  -- If the search reports success, only the nonce of the block has changed, that nonce is below
  -- `POW_MAX_OPS`, `verify_nonce` accepts the block, the number of operations is the nonce plus one,
  -- and the reported hash is that of the block.
  pub proof_of_work_sound :
      (allocated : ℕ → Bool) (old : List ℕ) (b : TransactionBlock)
      → (proof_of_work sha256 allocated old b).0.error ≡ false
      → let (r, b') = proof_of_work sha256 allocated old b in
        (b' ≡ with_nonce b b'.nonce)
        × (b'.nonce < pow_max_ops)
        × (verify_nonce sha256 true [] b' ≡ true)
        × (r.operations ≡ b'.nonce + 1)
        × (r.hash ≡ c_string (compute_sha256 sha256 true b' []))
  proof_of_work_sound allocated old b h =
      let (_, below, same, good, _, count, text) = (proof_of_work-Delivers allocated old b).0 h in
      (same, below, rw same (and-right _ _ good), count, text)

  -- If some nonce below `POW_MAX_OPS` is a hit, which is to say that the `calloc` of its round
  -- succeeds and `verify_nonce` accepts the block with it, the search reports success, with a nonce
  -- that is a hit and is not larger.
  pub proof_of_work_finds :
      (allocated : ℕ → Bool) (old : List ℕ) (b : TransactionBlock) (n : ℕ)
      → n < pow_max_ops
      → hit allocated b n ≡ true
      → let (r, b') = proof_of_work sha256 allocated old b in
        (r.error ≡ false) × (b'.nonce ≤ n) × (hit allocated b b'.nonce ≡ true)
  proof_of_work_finds allocated old b n below good =
      elim (Bool-cases (proof_of_work sha256 allocated old b).0.error) [
        | inl bad ↦
            let (missed, _) = (proof_of_work-Delivers allocated old b).1 bad in
            cc (missed n (omega arith) below)
        | inr fine ↦
            let (_, _, _, hits, missed, _, _) = (proof_of_work-Delivers allocated old b).0 fine in
            let found : ℕ = (proof_of_work sha256 allocated old b).1.nonce in
            (
              fine,
              elim (dec_lt n found) [
                | yes smaller ↦ cc (missed n (omega arith) smaller)
                | no larger ↦ omega arith
              ],
              hits,
            )
      ]
