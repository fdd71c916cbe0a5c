-- ===== src/Statistics/RecordLaws.antt =====
-- The totals that are printed are those of the messages that were received.
use dei_chain.Base.{
  ℕ, zero, suc, ◌+◌, ◌≡◌, refl, sym, ap, ◌∙◌, ◌<◌, Bool, true, ◌&&◌, not, some, List, [], ◌∷◌,
  if◌then◌else◌, length, length-set, get_elem?, get_elem?-lt, set, arith, Bool-cases, inl, inr,
}
use dei_chain.Base.Int.{ℤ, pos, negsuc, pos_part, leb_ℤ, ltb_ℤ, ◌+ℤ◌, ◌-ℤ◌, int_laws, +ℤ_assoc}
use dei_chain.Data.{StatisticsMessage, Config}
use dei_chain.Statistics.Record.{
  MinerStatistics, update_miner, process_message, process_messages, Totals, totals_from, totals,
}

-- The sums, as recursions from the other end.
abbrev valid_sum : List MinerStatistics → ℕ
valid_sum [] = 0
valid_sum (s ∷ stats) = s.valid_blocks + valid_sum stats

abbrev invalid_sum : List MinerStatistics → ℕ
invalid_sum [] = 0
invalid_sum (s ∷ stats) = s.invalid_blocks + invalid_sum stats

abbrev credit_sum : List MinerStatistics → ℤ
credit_sum [] = pos 0
credit_sum (s ∷ stats) = s.credits +ℤ credit_sum stats

totals_from-eq :
    (acc : Totals) (stats : List MinerStatistics)
    → ((totals_from acc stats).total_valid ≡ acc.total_valid + valid_sum stats)
      × ((totals_from acc stats).total_invalid ≡ acc.total_invalid + invalid_sum stats)
      × ((totals_from acc stats).total_credits ≡ acc.total_credits +ℤ credit_sum stats)
unfolding totals_from
totals_from-eq acc [] = (omega arith, omega arith, omega int_laws)
totals_from-eq acc (s ∷ stats) =
    let acc' : Totals = record {
      total_valid = acc.total_valid + s.valid_blocks;
      total_invalid = acc.total_invalid + s.invalid_blocks;
      total_credits = acc.total_credits +ℤ s.credits;
    } in
    let (valid, invalid, credits) = totals_from-eq acc' stats in
    (
      omega (arith, valid),
      omega (arith, invalid),
      credits ∙ +ℤ_assoc acc.total_credits s.credits (credit_sum stats),
    )

-- The message comes from a miner whose number is between 1 and `num_miners`.
abbrev pub is_known : Config → StatisticsMessage → Bool
is_known config msg = leb_ℤ (pos 1) msg.miner_id && leb_ℤ msg.miner_id (pos config.num_miners)

-- What a message adds to the totals.
abbrev pub valid_of : Config → StatisticsMessage → ℕ
valid_of config msg = if is_known config msg && msg.valid then 1 else 0

abbrev pub invalid_of : Config → StatisticsMessage → ℕ
invalid_of config msg = if is_known config msg && not msg.valid then 1 else 0

abbrev pub credits_of : Config → StatisticsMessage → ℤ
credits_of config msg = if is_known config msg && msg.valid then msg.total_rewards else pos 0

-- The code subtracts one from the number of the miner before it tests it.
known-test :
    (id : ℤ) (n : ℕ)
    → (leb_ℤ (pos 0) (id -ℤ pos 1) && ltb_ℤ (id -ℤ pos 1) (pos n))
      ≡ (leb_ℤ (pos 1) id && leb_ℤ id (pos n))
unfolding ◌-ℤ◌
known-test (pos m) n = ground arith
known-test (negsuc m) n = ground arith

known-lt :
    (id : ℤ) (n : ℕ) → (leb_ℤ (pos 1) id && leb_ℤ id (pos n)) ≡ true → pos_part (id -ℤ pos 1) < n
unfolding ◌-ℤ◌
known-lt (pos m) n h = ground arith
known-lt (negsuc m) n h = ground arith

-- The same for all that were received, in any number.
abbrev pub received : (StatisticsMessage → ℕ) → List StatisticsMessage → ℕ
received f [] = 0
received f (msg ∷ msgs) = f msg + received f msgs

abbrev pub rewards_received : Config → List StatisticsMessage → ℤ
rewards_received config [] = pos 0
rewards_received config (msg ∷ msgs) = credits_of config msg +ℤ rewards_received config msgs

module _ (next_average : ℕ → ℕ → ℕ → ℕ) where
  sums-set :
      (msg : StatisticsMessage) (stats : List MinerStatistics) (i : ℕ) (s : MinerStatistics)
      → get_elem? stats i ≡ some s
      → let stats' = set stats i (update_miner next_average msg s) in
        (valid_sum stats' ≡ valid_sum stats + (if msg.valid then 1 else 0))
        × (invalid_sum stats' ≡ invalid_sum stats + (if not msg.valid then 1 else 0))
        × (credit_sum stats' ≡ credit_sum stats +ℤ (if msg.valid then msg.total_rewards else pos 0))
  unfolding update_miner
  sums-set msg [] i s h = cc
  sums-set msg (r ∷ stats) zero s h = grind int_laws
  sums-set msg (r ∷ stats) (suc i) s h = grind (int_laws, sums-set msg stats i s h)

  -- What one message does to the sums.
  process_message-sums :
      (msg : StatisticsMessage) (config : Config) (stats : List MinerStatistics)
      → length stats ≡ config.num_miners
      → let stats' = process_message next_average msg config stats in
        (valid_sum stats' ≡ valid_sum stats + valid_of config msg)
        × (invalid_sum stats' ≡ invalid_sum stats + invalid_of config msg)
        × (credit_sum stats' ≡ credit_sum stats +ℤ credits_of config msg)
        × (length stats' ≡ length stats)
  unfolding process_message
  process_message-sums msg config stats h = elim (Bool-cases (is_known config msg)) [
    | inl known ↦
        let i : ℕ = pos_part (msg.miner_id -ℤ pos 1) in
        let (s, found) =
          get_elem?-lt stats i (rw h (known-lt msg.miner_id config.num_miners known)) in
        let (valid, invalid, credits) = sums-set msg stats i s found in
        rw (known-test msg.miner_id config.num_miners, known, found)
          (valid, invalid, credits, length-set stats i (update_miner next_average msg s))
    | inr unknown ↦
        rw (known-test msg.miner_id config.num_miners, unknown)
          (omega arith, omega arith, omega int_laws, refl)
  ]

  process_messages-sums :
      (msgs : List StatisticsMessage) (config : Config) (stats : List MinerStatistics)
      → length stats ≡ config.num_miners
      → let stats' = process_messages next_average msgs config stats in
        (valid_sum stats' ≡ valid_sum stats + received (valid_of config) msgs)
        × (invalid_sum stats' ≡ invalid_sum stats + received (invalid_of config) msgs)
        × (credit_sum stats' ≡ credit_sum stats +ℤ rewards_received config msgs)
  unfolding process_messages
  process_messages-sums [] config stats h = (omega arith, omega arith, omega int_laws)
  process_messages-sums (msg ∷ msgs) config stats h =
      let (v, i, c, same) = process_message-sums msg config stats h in
      let (vs, is, cs) =
        process_messages-sums msgs config (process_message next_average msg config stats)
          (same ∙ h) in
      (
        omega (arith, v, vs),
        omega (arith, i, is),
        cs
            ∙ ap (λ x. x +ℤ rewards_received config msgs) c
            ∙ +ℤ_assoc (credit_sum stats) (credits_of config msg) (rewards_received config msgs),
      )

  -- The totals that are printed after any messages are the totals before, and for each message from
  -- a miner numbered 1 to `num_miners` one valid block and its rewards, or one invalid block.
  pub process_messages-totals :
      (msgs : List StatisticsMessage) (config : Config) (stats : List MinerStatistics)
      → length stats ≡ config.num_miners
      → let before = totals stats in
        let after = totals (process_messages next_average msgs config stats) in
        (after.total_valid ≡ before.total_valid + received (valid_of config) msgs)
        × (after.total_invalid ≡ before.total_invalid + received (invalid_of config) msgs)
        × (after.total_credits ≡ before.total_credits +ℤ rewards_received config msgs)
  unfolding totals
  process_messages-totals msgs config stats h =
      let zeros : Totals = record { total_valid = 0; total_invalid = 0; total_credits = pos 0 } in
      let (v, i, c) = process_messages-sums msgs config stats h in
      let (v₁, i₁, c₁) = totals_from-eq zeros stats in
      let (v₂, i₂, c₂) = totals_from-eq zeros (process_messages next_average msgs config stats) in
      (
        omega (arith, v, v₁, v₂),
        omega (arith, i, i₁, i₂),
        c₂
            ∙ ap (λ x. pos 0 +ℤ x) c
            ∙ sym (+ℤ_assoc (pos 0) (credit_sum stats) (rewards_received config msgs))
            ∙ ap (λ x. x +ℤ rewards_received config msgs) (sym c₁),
      )
