-- ===== src/Statistics/Record.antt =====
-- The processing of a message in `statistics_main`, and the totals of `print_statistics`.
use dei_chain.Base.{ℕ, ◌+◌, ◌&&◌, none, some, List, [], ◌∷◌, if◌then◌else◌, get_elem?, set}
use dei_chain.Base.Int.{ℤ, pos, pos_part, leb_ℤ, ltb_ℤ, ◌+ℤ◌, ◌-ℤ◌}
use dei_chain.Data.{StatisticsMessage, Config}

-- The elements of the five arrays that belong to one miner; the time is the pattern of a `float`.
pub record MinerStatistics : Type 0 where
  pub valid_blocks : ℕ
  pub invalid_blocks : ℕ
  pub avg_validation_time : ℕ
  pub validation_count : ℕ
  pub credits : ℤ

-- After `calloc`; `0.0` has the pattern 0.
abbrev pub no_statistics : MinerStatistics
no_statistics = record {
  valid_blocks = 0;
  invalid_blocks = 0;
  avg_validation_time = 0;
  validation_count = 0;
  credits = pos 0;
}

-- `(avg * count + elapsed) / (count + 1)` on `float`s is the machine's: `next_average avg count
-- elapsed` is its result.
module _ (next_average : ℕ → ℕ → ℕ → ℕ) where
  unfoldable pub update_miner : StatisticsMessage → MinerStatistics → MinerStatistics
  update_miner msg s =
      let counted : MinerStatistics =
        if msg.valid
        then record s {
          valid_blocks = s.valid_blocks + 1;
          credits = s.credits +ℤ msg.total_rewards;
        }
        else record s { invalid_blocks = s.invalid_blocks + 1 } in
      record counted {
        validation_count = counted.validation_count + 1;
        avg_validation_time =
            next_average counted.avg_validation_time counted.validation_count msg.elapsed_time;
      }

  -- The arrays have `num_miners` elements. A message from no known miner changes nothing.
  unfoldable pub process_message :
      StatisticsMessage → Config → List MinerStatistics → List MinerStatistics
  unfolding update_miner
  process_message msg config stats =
      let miner_idx = msg.miner_id -ℤ pos 1 in
      if leb_ℤ (pos 0) miner_idx && ltb_ℤ miner_idx (pos config.num_miners)
      then elim (get_elem? stats (pos_part miner_idx)) [
        | some s ↦ set stats (pos_part miner_idx) (update_miner msg s)
        | none ↦ stats
      ]
      else stats

  -- The messages that were received, in order.
  unfoldable pub process_messages :
      List StatisticsMessage → Config → List MinerStatistics → List MinerStatistics
  process_messages [] config stats = stats
  process_messages (msg ∷ msgs) config stats =
      process_messages msgs config (process_message msg config stats)

-- The totals that `print_statistics` adds up.
pub record Totals : Type 0 where
  pub total_valid : ℕ
  pub total_invalid : ℕ
  pub total_credits : ℤ

unfoldable pub totals_from : Totals → List MinerStatistics → Totals
totals_from acc [] = acc
totals_from acc (s ∷ stats) =
    totals_from
      (record {
        total_valid = acc.total_valid + s.valid_blocks;
        total_invalid = acc.total_invalid + s.invalid_blocks;
        total_credits = acc.total_credits +ℤ s.credits;
      })
      stats

unfoldable pub totals : List MinerStatistics → Totals
unfolding totals_from
totals = totals_from (record { total_valid = 0; total_invalid = 0; total_credits = pos 0 })
