-- ===== src/Statistics/Print.antt =====
-- `print_statistics` of statistics.c: the lines that it formats, and the array that holds them.
use dei_chain.Base.{
  Bool, true, false, ℕ, ◌+◌, ◌*◌, ◌≤◌, ◌≡◌, ◌↔◌, refl, List, [], ◌∷◌, ◌++◌, length, length-append,
  ltb, if◌then◌else◌, arith,
}
use dei_chain.Base.Text.{codes, decimal}
use dei_chain.Controller.Dump.{decimal_ℤ, line}
use dei_chain.Statistics.Record.{MinerStatistics, totals}

-- `MAX_STATS_LINES`
abbrev pub max_stats_lines : ℕ
max_stats_lines = 100

-- `%.6f` of an average, and of the overall average, which is computed with `float`s, are the machine's.
module _ (show_time : ℕ → List ℕ) (show_overall : List MinerStatistics → List ℕ) where
  -- The loop over the miners, from number `i + 1` on.
  unfoldable pub miner_lines : ℕ → List MinerStatistics → List (List ℕ)
  miner_lines i [] = []
  miner_lines i (s ∷ stats) =
      line (codes "Miner " ++ (decimal (i + 1) ++ codes ":"))
      ∷ line (codes "  Valid blocks: " ++ decimal s.valid_blocks)
      ∷ line (codes "  Invalid blocks: " ++ decimal s.invalid_blocks)
      ∷ line (codes "  Credits: " ++ decimal_ℤ s.credits)
      ∷ line (
          codes "  Avg. validation time: " ++ (show_time s.avg_validation_time ++ codes " seconds"))
      ∷ miner_lines (i + 1) stats

  unfoldable pub total_lines : List MinerStatistics → List (List ℕ)
  total_lines stats =
      let t = totals stats in
      ([]
        ∷ codes "Total Statistics:"
        ∷ line (codes "  Total valid blocks: " ++ decimal t.total_valid)
        ∷ line (codes "  Total invalid blocks: " ++ decimal t.total_invalid)
        ∷ line (codes "  Total blocks: " ++ decimal (t.total_valid + t.total_invalid))
        ∷ line (codes "  Total credits: " ++ decimal_ℤ t.total_credits)
        ∷ [])
      ++ ((if ltb 0 (t.total_valid + t.total_invalid)
            then line (
                codes "  Overall avg. validation time: "
                ++ (show_overall stats ++ codes " seconds"))
              ∷ []
            else [])
          ++ codes "================================" ∷ [] ∷ [])

  -- All lines that are written, those past the end of the array included. `allocated` says whether
  -- the array's `malloc`s all succeed.
  unfoldable pub print_statistics : Bool → List MinerStatistics → List (List ℕ)
  print_statistics false stats = []
  print_statistics true stats =
      ([] ∷ codes "===== BLOCKCHAIN STATISTICS =====" ∷ codes "Statistics per Miner:" ∷ [])
      ++ (miner_lines 0 stats ++ total_lines stats)

  length-miner_lines :
      (i : ℕ) (stats : List MinerStatistics) → length (miner_lines i stats) ≡ 5 * length stats
  unfolding miner_lines
  length-miner_lines i [] = refl
  length-miner_lines i (s ∷ stats) = omega (arith, length-miner_lines (i + 1) stats)

  length-total_lines :
      (stats : List MinerStatistics)
      → (8 ≤ length (total_lines stats)) × (length (total_lines stats) ≤ 9)
  unfolding total_lines
  length-total_lines stats = ground arith

  -- If the allocations succeed, the lines that are printed fit into the array of `MAX_STATS_LINES` exactly if there are 17 miners
  -- at most.
  pub print_statistics_fits_iff :
      (stats : List MinerStatistics)
      → (length (print_statistics true stats) ≤ max_stats_lines) ↔ (length stats ≤ 17)
  unfolding print_statistics
  print_statistics_fits_iff stats = ground (
    arith,
    length-append (miner_lines 0 stats) (total_lines stats),
    length-miner_lines 0 stats,
    length-total_lines stats,
  )
