-- ===== src/Validator/Chain.antt =====
-- The blocks in use form a chain: each names the hash of the one before, the first `INITIAL_HASH`,
-- and each passes the check of its nonce.
use mathlib.Core.Option.{some-injective}
use dei_chain.Base.{
  ℕ, zero, suc, ◌+◌, ◌≤◌, ◌<◌, ◌≡◌, refl, sym, ap, ◌∙◌, true, some, List, [], ◌∷◌, ◌++◌, take, set,
  get_elem?, get_elem?-lt, length, arith,
}
use dei_chain.Base.Arrays.{strcmp_eq}
use dei_chain.Data.{TransactionBlock, BlockchainEntry, BlockchainLedger, Config}
use dei_chain.Pow.Hash.{compute_sha256, compute_sha256_old}
use dei_chain.Pow.Search.{verify_nonce}
use dei_chain.Validator.Ledger.{initial_hash, latest_hash}

pub take-set {ℓ} :
    {A : Type ℓ} (xs : List A) (n : ℕ) (v : A)
    → n < length xs
    → take (n + 1) (set xs n v) ≡ take n xs ++ v ∷ []
take-set [] n v h = elim h [ ]
take-set (x ∷ xs) zero v h = refl
take-set (x ∷ xs) (suc n) v h =
    let e : suc n + 1 ≡ suc (n + 1) = omega arith in
    rw e (ap (λ l. x ∷ l) (take-set xs n v (omega arith)))

-- The blocks in use.
abbrev pub chain : BlockchainLedger → List BlockchainEntry
chain ledger = take ledger.num_blocks ledger.blocks

module _ (sha256 : List ℕ → List ℕ) where
  abbrev pub hash_of : TransactionBlock → List ℕ
  hash_of b = compute_sha256 sha256 true b []

  -- The entries follow one another from a block with the given hash on.
  abbrev pub IsChain : List ℕ → List BlockchainEntry → Type 0
  IsChain previous [] = Unit
  IsChain previous (e ∷ es) =
      (e.valid ≡ true)
      × (strcmp_eq e.block.previous_block_hash previous ≡ true)
      × (verify_nonce sha256 true [] e.block ≡ true)
      × IsChain (hash_of e.block) es

  -- The hash at the end of the chain.
  abbrev pub end_hash : List ℕ → List BlockchainEntry → List ℕ
  end_hash previous [] = previous
  end_hash previous (e ∷ es) = end_hash (hash_of e.block) es

  -- The ledger between two critical sections.
  pub record IsLedger (config : Config) (ledger : BlockchainLedger) : Type 0 where
    pub room : length ledger.blocks ≡ config.blockchain_blocks
    pub bounded : ledger.num_blocks ≤ config.blockchain_blocks
    pub unlocked : ledger.mutex ≡ 1
    pub linked : IsChain initial_hash (chain ledger)

  pub IsChain-append :
      (previous : List ℕ) (es : List BlockchainEntry) (e : BlockchainEntry)
      → IsChain previous es
      → e.valid ≡ true
      → strcmp_eq e.block.previous_block_hash (end_hash previous es) ≡ true
      → verify_nonce sha256 true [] e.block ≡ true
      → IsChain previous (es ++ e ∷ [])
  IsChain-append previous [] e h v l n = (v, l, n, tt)
  IsChain-append previous (f ∷ es) e (fv, fl, fn, rest) v l n =
      (fv, fl, fn, IsChain-append (hash_of f.block) es e rest v l n)

  -- The last link of a chain that was extended.
  pub IsChain-last :
      (previous : List ℕ) (es : List BlockchainEntry) (e : BlockchainEntry)
      → IsChain previous (es ++ e ∷ [])
      → strcmp_eq e.block.previous_block_hash (end_hash previous es) ≡ true
  IsChain-last previous [] e h = h.1
  IsChain-last previous (f ∷ es) e h = IsChain-last (hash_of f.block) es e h.3

  pub end_hash-append :
      (previous : List ℕ) (es : List BlockchainEntry) (e : BlockchainEntry)
      → end_hash previous (es ++ e ∷ []) ≡ hash_of e.block
  end_hash-append previous [] e = refl
  end_hash-append previous (f ∷ es) e = end_hash-append (hash_of f.block) es e

  end_hash-take :
      (previous : List ℕ) (es : List BlockchainEntry) (n : ℕ) (e : BlockchainEntry)
      → get_elem? es n ≡ some e
      → end_hash previous (take (suc n) es) ≡ hash_of e.block
  end_hash-take previous [] n e h = cc
  end_hash-take previous (f ∷ es) zero e h =
      ap (λ (x : BlockchainEntry). hash_of x.block) (some-injective _ _ h)
  end_hash-take previous (f ∷ es) (suc n) e h = end_hash-take (hash_of f.block) es n e h

  -- What the code reads as the latest hash is the hash at the end of the chain.
  pub latest_hash-eq-end :
      (config : Config) (ledger : BlockchainLedger) (old : List ℕ)
      → IsLedger config ledger
      → latest_hash sha256 true old ledger ≡ end_hash initial_hash (chain ledger)
  unfolding latest_hash
  latest_hash-eq-end config ledger old h = at ledger.num_blocks (omega (arith, h.bounded, h.room))
    where
      at :
          (n : ℕ)
          → n ≤ length ledger.blocks
          → latest_hash sha256 true old (record ledger { num_blocks = n })
            ≡ end_hash initial_hash (take n ledger.blocks)
      at zero p = refl
      at (suc n) p =
          let (e, found) = get_elem?-lt ledger.blocks n p in
          rw (found, latest_hash)
            (compute_sha256_old sha256 e.block old []
              ∙ sym (end_hash-take initial_hash ledger.blocks n e found))
