-- ===== src/Validator/Race.antt =====
-- Two validators that check two blocks against the same ledger before either adds its own.
use dei_chain.Base.{ℕ, ◌+◌, ◌≤◌, ◌≡◌, sym, ap, subst, ◌∙◌, true, false, some, List, length, arith}
use dei_chain.Base.Arrays.{strcmp_eq, strcmp_eq_sym, strcmp_eq_trans}
use dei_chain.Data.{Transaction, TransactionBlock, TransactionPool, BlockchainLedger, Config}
use dei_chain.Validator.Ledger.{initial_hash, ledger_entry, add_block_to_ledger}
use dei_chain.Validator.Check.{Memory, validate_block}
use dei_chain.Validator.Keep.{stored, validate_block-links, chain-add_block_to_ledger}
use dei_chain.Validator.Chain.{
  chain, IsChain, end_hash, IsLedger, IsChain-last, hash_of, end_hash-append,
}

-- The entry of a block names the hash that the block names.
named :
    (c : TransactionBlock) (config : Config) (previous : List ℕ)
    → strcmp_eq (ledger_entry c config).block.previous_block_hash previous ≡ true
    → strcmp_eq c.previous_block_hash previous ≡ true
unfolding ledger_entry
named c config previous h = h

module _ (sha256 : List ℕ → List ℕ) where
  -- If two blocks are both accepted against the same ledger, and both are then added, the ledger is
  -- no chain any more, unless the first block hashes to the hash that it names itself. The
  -- hypotheses are those under which a single validator keeps the chain, and room for two blocks.
  pub two_validators_break_chain :
      (first second : Memory) (b c : TransactionBlock) (ts : List Transaction) (config : Config)
      (ledger : BlockchainLedger) (pool pool' : TransactionPool)
      → IsLedger sha256 config ledger
      → ledger.num_blocks + 2 ≤ config.blockchain_blocks
      → b.transactions ≡ some ts
      → length ts ≤ config.transactions_per_block
      → first.last_allocated ≡ true
      → second.last_allocated ≡ true
      → (validate_block sha256 first b ledger pool).0 ≡ true
      → (validate_block sha256 second c ledger pool').0 ≡ true
      → strcmp_eq (hash_of sha256 b) b.previous_block_hash ≡ false
      → let ledger' = (add_block_to_ledger b ledger config).1 in
        ¬ IsChain sha256 initial_hash (chain (add_block_to_ledger c ledger' config).1)
  two_validators_break_chain first second b c ts config ledger pool pool' h room pb sb mb mc vb vc
        fresh linked =
      let (grown, count, size) =
        chain-add_block_to_ledger sha256 b ledger config (omega arith) h.room in
      let (grown', _, _) =
        chain-add_block_to_ledger sha256 c (add_block_to_ledger b ledger config).1 config
          (omega (arith, count)) size in
      let last : strcmp_eq c.previous_block_hash
            (end_hash sha256 initial_hash (chain (add_block_to_ledger b ledger config).1))
          ≡ true =
        named c config _ (
          IsChain-last sha256 initial_hash _ (ledger_entry c config)
            (subst (IsChain sha256 initial_hash) grown' linked)) in
      let hashed : end_hash sha256 initial_hash (chain (add_block_to_ledger b ledger config).1)
          ≡ hash_of sha256 b =
        ap (end_hash sha256 initial_hash) grown
        ∙ end_hash-append sha256 initial_hash (chain ledger) (ledger_entry b config)
        ∙ ap (hash_of sha256) (stored sha256 config b ts pb sb) in
      let both = validate_block-links sha256 first b config ledger pool h mb vb in
      let both' = validate_block-links sha256 second c config ledger pool' h mc vc in
      cc (
        sym fresh,
        strcmp_eq_trans (hash_of sha256 b) c.previous_block_hash b.previous_block_hash
            (strcmp_eq_sym _ _ (subst (λ l. strcmp_eq c.previous_block_hash l ≡ true) hashed last))
            (strcmp_eq_trans _ _ _ both' (strcmp_eq_sym _ _ both)),
      )
