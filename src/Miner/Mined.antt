-- ===== src/Miner/Mined.antt =====
-- A block that `mine` delivers came out of one search, which began with a block as it is created.
use mathlib.Core.Option.{some-injective}
use dei_chain.Base.{
  ℕ, zero, suc, ◌+◌, ◌≡◌, refl, sym, ap, ◌∙◌, Bool, true, false, Option, some, List, inl, inr, ◌⊎◌,
  Bool-cases, if◌then◌else◌, ltb, leb, ◌%◌, ◌^◌,
}
use dei_chain.Base.Int.{ℤ}
use dei_chain.Data.{Transaction, TransactionBlock, PowResult, pow_max_ops}
use dei_chain.Pow.Hash.{compute_sha256}
use dei_chain.Pow.Difficulty.{check_difficulty}
use dei_chain.Pow.Search.{with_nonce, pow_loop, proof_of_work, max_reward}
use dei_chain.Miner.Block.{create_block}
use dei_chain.Miner.Round.{Outcomes, mine}

module _ (sha256 : List ℕ → List ℕ) where
  -- The block is as it was but for its nonce.
  abbrev Keeps : TransactionBlock → PowResult × TransactionBlock → Type 0
  Keeps b r = r.1 ≡ with_nonce b r.1.nonce

  if-Keeps :
      (b : TransactionBlock) (c : Bool) (r s : PowResult × TransactionBlock)
      → Keeps b r
      → Keeps b s
      → Keeps b (if c then r else s)
  if-Keeps b true r s h k = h
  if-Keeps b false r s h k = k

  pow_loop-Keeps :
      (allocated : ℕ → Bool) (limit : ℕ) (most : ℤ) (fuel operations : ℕ) (hash : List ℕ)
      (b : TransactionBlock)
      → Keeps b (pow_loop sha256 allocated limit most fuel operations hash b)
  unfolding pow_loop
  pow_loop-Keeps allocated limit most zero operations hash b = refl
  pow_loop-Keeps allocated limit most (suc fuel) operations hash b =
      let hash' = compute_sha256 sha256 (allocated b.nonce) b hash in
      let b' = with_nonce b ((b.nonce + 1) % 2 ^ 32) in
      if-Keeps b (ltb b.nonce limit) _ _
        (if-Keeps b (check_difficulty hash' most) _ _ refl (
          if-Keeps b (leb limit (operations + 1)) _ _ refl
            (pow_loop-Keeps allocated limit most fuel (operations + 1) hash' b')))
        refl

  -- The search changes nothing of a block but its nonce, also when it fails.
  proof_of_work-Keeps :
      (allocated : ℕ → Bool) (old : List ℕ) (b : TransactionBlock)
      → Keeps b (proof_of_work sha256 allocated old b)
  unfolding proof_of_work
  proof_of_work-Keeps allocated old b =
      pow_loop-Keeps allocated pow_max_ops (max_reward b) pow_max_ops 0 old (with_nonce b 0)

  -- The second search works on the block as it was created, with the second time.
  retry :
      (allocated : ℕ → Bool) (old : List ℕ) (again : ℕ → Bool) (buffer : List ℕ) (now : ℤ)
      (b : TransactionBlock)
      → proof_of_work sha256 again buffer
          (record ((proof_of_work sha256 allocated old b).1) { timestamp = now })
        ≡ proof_of_work sha256 again buffer (record b { timestamp = now })
  unfolding proof_of_work max_reward
  retry allocated old again buffer now b =
      ap
        (λ (c : TransactionBlock). proof_of_work sha256 again buffer (record c { timestamp = now }))
        (proof_of_work-Keeps allocated old b)

  mine-retries :
      (o : Outcomes) (c : TransactionBlock)
      → (proof_of_work sha256 o.pow_allocated o.pow_buffer c).0.error ≡ true
      → mine sha256 o c
        ≡ proof_of_work sha256 o.retry_allocated o.retry_buffer
            (record c { timestamp = o.retry_now })
  unfolding mine
  mine-retries o c failed =
      rw failed (retry o.pow_allocated o.pow_buffer o.retry_allocated o.retry_buffer o.retry_now c)

  -- A block that was mined came out of one search, which began with a block as it is created at one
  -- of the two times.
  pub record Mined (o : Outcomes) (created : ℤ → Option TransactionBlock) (b : TransactionBlock)
      : Type 0 where
    pub time : ℤ
    pub timed : (time ≡ o.now) ⊎ (time ≡ o.retry_now)
    pub allocated : ℕ → Bool
    pub buffer : List ℕ
    pub start : TransactionBlock
    pub made : created time ≡ some start
    pub found : (proof_of_work sha256 allocated buffer start).0.error ≡ false
    pub same : (proof_of_work sha256 allocated buffer start).1 ≡ b

  pub mine-Mined :
      (o : Outcomes) (ts : List Transaction) (per_block : ℕ) (hash : List ℕ) (miner_id block_id : ℕ)
      (c : TransactionBlock)
      → create_block true o.now ts per_block hash miner_id block_id ≡ some c
      → (mine sha256 o c).0.error ≡ false
      → Mined o (λ t. create_block true t ts per_block hash miner_id block_id) (mine sha256 o c).1
  unfolding mine create_block
  mine-Mined o ts per_block hash miner_id block_id c made found =
      elim (Bool-cases (proof_of_work sha256 o.pow_allocated o.pow_buffer c).0.error) [
        | inr fine ↦ record {
          time = o.now;
          timed = inl refl;
          allocated = o.pow_allocated;
          buffer = o.pow_buffer;
          start = c;
          made = made;
          found = fine;
          same = rw fine refl;
        }
        | inl failed ↦ record {
          time = o.retry_now;
          timed = inr refl;
          allocated = o.retry_allocated;
          buffer = o.retry_buffer;
          start = record c { timestamp = o.retry_now };
          made = ap some (
              ap (λ (d : TransactionBlock). record d { timestamp = o.retry_now })
                (some-injective _ _ made));
          found =
              ap (λ (r : PowResult × TransactionBlock). r.0.error) (sym (mine-retries o c failed))
              ∙ found;
          same = ap (λ (r : PowResult × TransactionBlock). r.1) (sym (mine-retries o c failed));
        }
      ]
