-- ===== src/Statistics/LoopLaws.antt =====
-- What the statistics process prints when it ends.
use dei_chain.Base.{
  ℕ, zero, suc, ◌+◌, ◌≡◌, refl, ap, ◌∙◌, Bool, true, false, ◌||◌, Option, none, some, List, [], ◌∷◌,
  replicate, length-replicate, arith, inl, inr, Bool-cases, Option-cases, if◌then◌else◌,
}
use dei_chain.Base.Int.{pos, ◌+ℤ◌}
use dei_chain.Data.{StatisticsMessage, Config}
use dei_chain.Statistics.Record.{
  MinerStatistics, Totals, no_statistics, process_message, process_messages, totals,
}
use dei_chain.Statistics.RecordLaws.{
  valid_of, invalid_of, received, rewards_received, process_messages-totals,
}
use dei_chain.Statistics.Loop.{Turn, statistics_loop, statistics_main}

-- Whether a turn ends the loop.
abbrev pub ends : List Turn → Bool
ends [] = false
ends (t ∷ ts) =
    t.terminate || (elim t.received [ none ↦ t.terminate_after | some _ ↦ false ]) || ends ts

-- The messages that are received before.
abbrev pub messages_before_end : List Turn → List StatisticsMessage
messages_before_end [] = []
messages_before_end (t ∷ ts) = if t.terminate then [] else elim t.received [
  | none ↦ if t.terminate_after then [] else messages_before_end ts
  | some msg ↦ msg ∷ messages_before_end ts
]

module _ (next_average : ℕ → ℕ → ℕ → ℕ) (config : Config) where
  abbrev Final :
      List MinerStatistics → Option (List (List MinerStatistics) × List MinerStatistics) → Type 0
  Final final result = (printed : List (List MinerStatistics)) × (result ≡ some (printed, final))

  statistics_loop-Final :
      (ts : List Turn) (stats : List MinerStatistics)
      → ends ts ≡ true
      → Final
          (process_messages next_average (messages_before_end ts) config stats)
          (statistics_loop next_average config ts stats)
  unfolding statistics_loop process_messages
  statistics_loop-Final [] stats h = cc
  statistics_loop-Final (t ∷ ts) stats h = elim (Bool-cases t.terminate) [
    | inl stops ↦ rw stops ([], refl)
    | inr goes ↦ elim (Option-cases t.received) [
      | inl interrupted ↦ elim (Bool-cases t.terminate_after) [
        | inl stops ↦ rw (goes, interrupted, stops) (_, refl)
        | inr goes_on ↦
            let (printed, e) = statistics_loop-Final ts stats (ground arith) in
            rw (goes, interrupted, goes_on, e) (_, refl)
      ]
      | inr (msg, got) ↦
          let (printed, e) =
            statistics_loop-Final ts (process_message next_average msg config stats)
              (ground arith) in
          rw (goes, got, e) (_, refl)
    ]
  ]

  totals-none :
      (n : ℕ)
      → totals (replicate n no_statistics)
        ≡ record { total_valid = 0; total_invalid = 0; total_credits = pos 0 }
  unfolding totals ◌+ℤ◌
  totals-none zero = refl
  totals-none (suc n) = totals-none n

  -- If a turn ends the loop, the process prints a last time, and the totals that it then prints are
  -- those of the messages received before: one valid block and its rewards, or one invalid block, for each
  -- message from a miner numbered 1 to `num_miners`.
  pub statistics_main-totals :
      (ts : List Turn)
      → ends ts ≡ true
      → (printed : List (List MinerStatistics)) × (final : List MinerStatistics) × (statistics_main
            next_average config ts
          ≡ some (printed, final))
        × ((totals final).total_valid ≡ received (valid_of config) (messages_before_end ts))
        × ((totals final).total_invalid ≡ received (invalid_of config) (messages_before_end ts))
        × ((totals final).total_credits ≡ pos 0 +ℤ rewards_received config (messages_before_end ts))
  unfolding statistics_main
  statistics_main-totals ts h =
      let start = replicate config.num_miners no_statistics in
      let (printed, e) = statistics_loop-Final ts start h in
      let zeros = totals-none config.num_miners in
      let (v, i, c) =
        process_messages-totals next_average (messages_before_end ts) config start
          (length-replicate config.num_miners no_statistics) in
      (
        printed,
        _,
        e,
        v
            ∙ ap
                (λ (t : Totals).
                  t.total_valid + received (valid_of config) (messages_before_end ts))
                zeros
            ∙ omega arith,
        i
            ∙ ap
                (λ (t : Totals).
                  t.total_invalid + received (invalid_of config) (messages_before_end ts))
                zeros
            ∙ omega arith,
        c
            ∙ ap
                (λ (t : Totals).
                  t.total_credits +ℤ rewards_received config (messages_before_end ts))
                zeros,
      )
