-- ===== src/Controller/DumpLaws.antt =====
-- How many lines a dump has, against the array that holds them.
use dei_chain.Base.{
  true, ℕ, zero, suc, ◌+◌, ◌*◌, ◌≤◌, ◌≡◌, ◌↔◌, refl, ap, ◌∙◌, List, [], ◌∷◌, length, length-append,
  length-take, arith,
}
use dei_chain.Data.{Transaction, BlockchainEntry, BlockchainLedger, Config}
use dei_chain.Validator.Ledger.{initial_hash}
use dei_chain.Validator.Chain.{chain, hash_of, IsChain, IsLedger}
use dei_chain.Controller.Dump.{
  max_ledger_lines, end_lines, transaction_lines, block_lines, ledger_lines, dump_ledger,
}

suc-mul : (n k : ℕ) → suc n * k ≡ k + n * k
suc-mul n k = grind arith

module _ (show_value : ℕ → List ℕ) (stale : ℕ → ℕ → Transaction) where
  length-transaction_lines :
      (i : ℕ) (e : BlockchainEntry) (j count : ℕ)
      → length (transaction_lines show_value stale i e j count) ≡ count
  unfolding transaction_lines
  length-transaction_lines i e j zero = refl
  length-transaction_lines i e j (suc count) = ap suc (length-transaction_lines i e (j + 1) count)

  length-block_lines :
      (config : Config) (i : ℕ) (e : BlockchainEntry)
      → length (block_lines show_value stale config i e) ≡ 8 + config.transactions_per_block
  unfolding block_lines
  length-block_lines config i e = omega (
    arith,
    length-append (transaction_lines show_value stale i e 0 config.transactions_per_block),
    length-transaction_lines i e 0 config.transactions_per_block,
  )

  length-ledger_lines :
      (sha256 : List ℕ → List ℕ) (previous : List ℕ) (config : Config) (i : ℕ)
      (es : List BlockchainEntry)
      → IsChain sha256 previous es
      → length (ledger_lines show_value stale config i es)
        ≡ length es * (8 + config.transactions_per_block)
  unfolding ledger_lines
  length-ledger_lines sha256 previous config i [] h = omega arith
  length-ledger_lines sha256 previous config i (e ∷ es) (v, _, _, rest) = ground (
    arith,
    v,
    length-append (block_lines show_value stale config i e)
        (ledger_lines show_value stale config (i + 1) es),
    length-block_lines config i e,
    length-ledger_lines sha256 (hash_of sha256 e.block) config (i + 1) es rest,
    suc-mul (length es) (8 + config.transactions_per_block),
  )

  -- If the allocations succeed, the lines of a dump of a well-formed ledger fit into the array of
  -- `MAX_LEDGER_LINES` exactly if the
  -- blocks in use, with 8 lines and one for each of their transactions, have 995 lines at most.
  pub dump_ledger_fits_iff :
      (sha256 : List ℕ → List ℕ) (config : Config) (ledger : BlockchainLedger)
      → IsLedger sha256 config ledger
      → (length (dump_ledger show_value stale true ledger config) ≤ max_ledger_lines)
        ↔ (ledger.num_blocks * (8 + config.transactions_per_block) ≤ 995)
  unfolding dump_ledger
  dump_ledger_fits_iff sha256 config ledger h =
      let lines = ledger_lines show_value stale config 0 (chain ledger) in
      let used : length (chain ledger) ≡ ledger.num_blocks =
        length-take ledger.num_blocks ledger.blocks (omega (arith, h.bounded, h.room)) in
      let many : length lines ≡ ledger.num_blocks * (8 + config.transactions_per_block) =
        length-ledger_lines sha256 initial_hash config 0 (chain ledger) h.linked
        ∙ ap (λ n. n * (8 + config.transactions_per_block)) used in
      ground (arith, many, length-append lines end_lines)
