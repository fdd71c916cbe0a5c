-- ===== src/Controller/Dump.antt =====
-- `dump_ledger` of controller.c: the lines that it formats.
use dei_chain.Base.{
  Bool, true, false, ℕ, zero, suc, ◌+◌, ◌-◌, none, some, List, [], ◌∷◌, ◌++◌, length, take,
  get_elem?, replicate, if◌then◌else◌,
}
use dei_chain.Base.Int.{ℤ, pos, negsuc}
use dei_chain.Base.Arrays.{c_string}
use dei_chain.Base.Text.{codes, decimal}
use dei_chain.Data.{Transaction, BlockchainEntry, BlockchainLedger, Config}
use dei_chain.Validator.Ledger.{transactions_of}

-- `MAX_LEDGER_LINES`, and the size of a line's buffer
abbrev pub max_ledger_lines : ℕ
max_ledger_lines = 1000

-- `snprintf(…, 1024, …)`
abbrev pub line : List ℕ → List ℕ
line text = take 1023 text

-- `%ld`
abbrev pub decimal_ℤ : ℤ → List ℕ
decimal_ℤ (pos n) = decimal n
decimal_ℤ (negsuc n) = b'-' ∷ decimal (n + 1)

-- `%03d` of a number that is not negative
abbrev pub decimal_03 : ℕ → List ℕ
decimal_03 n = replicate (3 - length (decimal n)) b'0' ++ decimal n

-- The lines at the end.
abbrev pub end_lines : List (List ℕ)
end_lines = codes "=================== End Ledger ===================" ∷ [] ∷ []

-- `%.2f` of a `float` is the library's. `stale i j` is what stands in the place for transaction `j` of
-- block `i` where the block has carried fewer.
module _ (show_value : ℕ → List ℕ) (stale : ℕ → ℕ → Transaction) where
  unfoldable pub transaction_line : ℕ → Transaction → List ℕ
  transaction_line j t = line (
      codes " ["
      ++ (decimal j
          ++ (codes "] ID: "
              ++ (c_string t.tx_id
                  ++ (codes " | Reward: "
                      ++ (decimal_ℤ t.reward
                          ++ (codes " | Value: "
                              ++ (show_value t.value
                                  ++ (codes " | Timestamp: " ++ decimal_ℤ t.timestamp)))))))))

  -- The loop over the `count` places for transactions that are left, from number `j` on.
  unfoldable pub transaction_lines : ℕ → BlockchainEntry → ℕ → ℕ → List (List ℕ)
  unfolding transaction_line
  transaction_lines i e j zero = []
  transaction_lines i e j (suc count) =
      let t : Transaction = elim (get_elem? (transactions_of e.block) j) [
        | some t ↦ t
        | none ↦ stale i j
      ] in
      transaction_line j t ∷ transaction_lines i e (j + 1) count

  unfoldable pub block_lines : Config → ℕ → BlockchainEntry → List (List ℕ)
  block_lines config i e =
      (line (codes "||---- Block " ++ (decimal_03 i ++ codes " --"))
        ∷ line (codes "Block ID: " ++ c_string e.block.txb_id)
        ∷ codes "Previous Hash:"
        ∷ line (c_string e.block.previous_block_hash)
        ∷ line (codes "Block Timestamp: " ++ decimal_ℤ e.block.timestamp)
        ∷ line (codes "Nonce: " ++ decimal e.block.nonce)
        ∷ codes "Transactions:"
        ∷ [])
      ++ (transaction_lines i e 0 config.transactions_per_block
          ++ codes "||------------------------------" ∷ [])

  -- The loop over the blocks in use, from number `i` on.
  unfoldable pub ledger_lines : Config → ℕ → List BlockchainEntry → List (List ℕ)
  ledger_lines config i [] = []
  ledger_lines config i (e ∷ es) =
      if e.valid
      then block_lines config i e ++ ledger_lines config (i + 1) es
      else ledger_lines config (i + 1) es

  -- All lines that are written, those past the end of the array included. `allocated` says whether
  -- the array's `malloc`s all succeed.
  unfoldable pub dump_ledger : Bool → BlockchainLedger → Config → List (List ℕ)
  dump_ledger false ledger config = []
  dump_ledger true ledger config =
      (codes "CONTROLLER: Dumping the Ledger (SIGUSR1 Received)"
        ∷ []
        ∷ codes "=================== Start Ledger ==================="
        ∷ [])
      ++ (ledger_lines config 0 (take ledger.num_blocks ledger.blocks) ++ end_lines)
