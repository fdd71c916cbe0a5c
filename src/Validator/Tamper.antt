-- ===== src/Validator/Tamper.antt =====
-- A chain is fixed by its end: the blocks behind a hash cannot be exchanged without a collision.
use dei_chain.Base.{
  ℕ, suc, some, get_elem?, ◌/◌, ◌%◌, ◌<◌, ◌≡◌, ◌≢◌, ◌⊎◌, refl, sym, ap, ap₂, ◌∙◌, List, [], ◌∷◌,
  All, length, take-all, arith, inl, inr, Bool-cases,
}
use dei_chain.Base.Arrays.{c_string, bytes_eq, bytes_eq_iff, strcmp_eq_iff}
use dei_chain.Base.Decimal.{IsText, c_string-text}
use dei_chain.Data.{Transaction, TransactionBlock, BlockchainEntry}
use dei_chain.Pow.Serialize.{serialized}
use dei_chain.Pow.Hash.{digest_length, hex_digit, hex_string, compute_sha256}
use dei_chain.Pow.Layout.{IsBlock}
use dei_chain.Pow.Binding.{serialized_injective}
use dei_chain.Validator.Chain.{hash_of, IsChain, end_hash}

abbrev pub IsByte : ℕ → Type 0
IsByte b = b < 256

hex_digit_injective : (d e : ℕ) → d < 16 → e < 16 → hex_digit d ≡ hex_digit e → d ≡ e
unfolding hex_digit
hex_digit_injective d e hd he h = ground arith

hex_digit-pos : (d : ℕ) → 0 < hex_digit d
unfolding hex_digit
hex_digit-pos d = ground arith

hex_string-IsText : (bs : List ℕ) → IsText (hex_string bs)
unfolding hex_string
hex_string-IsText [] = tt
hex_string-IsText (b ∷ bs) =
    (hex_digit-pos (b / 16 % 16), (hex_digit-pos (b % 16), hex_string-IsText bs))

hex_string_injective :
    (bs cs : List ℕ) → All IsByte bs → All IsByte cs → hex_string bs ≡ hex_string cs → bs ≡ cs
unfolding hex_string
hex_string_injective [] [] hb hc e = refl
hex_string_injective [] (c ∷ cs) hb hc e = cc
hex_string_injective (b ∷ bs) [] hb hc e = cc
hex_string_injective (b ∷ bs) (c ∷ cs) hb hc e = ground (
  arith,
  hex_digit_injective (b / 16 % 16) (c / 16 % 16),
  hex_digit_injective (b % 16) (c % 16),
  hex_string_injective bs cs hb.1 hc.1,
)

-- What the program relies on: a digest is 32 bytes.
abbrev pub IsDigest : List ℕ → Type 0
IsDigest bs = (length bs ≡ digest_length) × All IsByte bs

-- Two blocks whose bytes differ and have one digest.
abbrev pub IsClash : (List ℕ → List ℕ) → TransactionBlock → TransactionBlock → Type 0
IsClash sha256 b c = (serialized b ≢ serialized c) × (sha256 (serialized b) ≡ sha256 (serialized c))

-- Two such blocks at one place of two chains.
abbrev pub Collision : (List ℕ → List ℕ) → List BlockchainEntry → List BlockchainEntry → Type 0
Collision sha256 c d =
    (i : ℕ) × (e : BlockchainEntry) × (f : BlockchainEntry) × (get_elem? c i ≡ some e)
    × (get_elem? d i ≡ some f)
    × IsClash sha256 e.block f.block

-- An entry as the program builds it.
abbrev pub IsBuilt : BlockchainEntry → Type 0
IsBuilt e = (ts : List Transaction) × IsBlock e.block ts

module _ (sha256 : List ℕ → List ℕ) (digests : (bytes : List ℕ) → IsDigest (sha256 bytes)) where
  hash_of-string :
      (b : TransactionBlock) → c_string (hash_of sha256 b) ≡ hex_string (sha256 (serialized b))
  unfolding compute_sha256
  hash_of-string b =
      rw (take-all digest_length (sha256 (serialized b)) (digests (serialized b)).0) (
        c_string-text (hex_string (sha256 (serialized b))) []
          (hex_string-IsText (sha256 (serialized b))))

  -- Blocks with one hash are the same, or clash.
  block_determined :
      (b c : TransactionBlock) (ts us : List Transaction)
      → IsBlock b ts
      → IsBlock c us
      → c_string (hash_of sha256 b) ≡ c_string (hash_of sha256 c)
      → (b ≡ c) ⊎ IsClash sha256 b c
  block_determined b c ts us hb hc h =
      let same : sha256 (serialized b) ≡ sha256 (serialized c) =
        hex_string_injective _ _ (digests (serialized b)).1 (digests (serialized c)).1
          (sym (hash_of-string b) ∙ h ∙ hash_of-string c) in
      elim (Bool-cases (bytes_eq (serialized b) (serialized c))) [
        | inl equal ↦ inl (serialized_injective b c ts us hb hc ((bytes_eq_iff _ _).0 equal))
        | inr differ ↦ inr ((λ e. cc ((bytes_eq_iff (serialized b) (serialized c)).1 e)), same)
      ]

  determined :
      (p q : List ℕ) (c d : List BlockchainEntry)
      → IsChain sha256 p c
      → IsChain sha256 q d
      → All IsBuilt c
      → All IsBuilt d
      → length c ≡ length d
      → c_string (end_hash sha256 p c) ≡ c_string (end_hash sha256 q d)
      → ((c ≡ d) × (c_string p ≡ c_string q)) ⊎ Collision sha256 c d
  determined p q [] [] lc ld bc bd n h = inl (refl, h)
  determined p q [] (f ∷ fs) lc ld bc bd n h = absurd (omega arith)
  determined p q (e ∷ es) [] lc ld bc bd n h = absurd (omega arith)
  determined p q (e ∷ es) (f ∷ fs) (ve, le, ne, re) (vf, lf, nf, rf) bc bd n h =
      elim (determined (hash_of sha256 e.block) (hash_of sha256 f.block) es fs re rf bc.1 bd.1
        (omega arith) h) [
          | inr (i, e', f', at, at', clash) ↦ inr (suc i, e', f', at, at', clash)
          | inl (rest, hashes) ↦
              elim (block_determined e.block f.block bc.0.0 bd.0.0 bc.0.1 bd.0.1 hashes) [
                | inr clash ↦ inr (0, e, f, refl, refl, clash)
                | inl block ↦
                    let flag : e.valid ≡ f.valid = ve ∙ sym vf in
                    let entry : e ≡ f = λ i. record { block = block i; valid = flag i } in
                    inl (
                      ap₂ ◌∷◌ entry rest,
                      sym ((strcmp_eq_iff e.block.previous_block_hash p).0 le)
                          ∙ ap (λ (b : TransactionBlock). c_string b.previous_block_hash) block
                          ∙ (strcmp_eq_iff f.block.previous_block_hash q).0 lf,
                    )
              ]
        ]

  -- Two chains of the same length whose ends have the same hash, as strings, hold the same blocks,
  -- or SHA-256 collides on them: at one place they have two blocks whose serialised bytes differ and
  -- have one digest. Both start from the same previous hash, their
  -- blocks are as the program builds them, and SHA-256 gives 32 bytes.
  pub chain_determined :
      (previous : List ℕ) (c d : List BlockchainEntry)
      → IsChain sha256 previous c
      → IsChain sha256 previous d
      → All IsBuilt c
      → All IsBuilt d
      → length c ≡ length d
      → c_string (end_hash sha256 previous c) ≡ c_string (end_hash sha256 previous d)
      → (c ≡ d) ⊎ Collision sha256 c d
  chain_determined previous c d lc ld bc bd n h =
      elim (determined previous previous c d lc ld bc bd n h) [
        | inl (same, _) ↦ inl same
        | inr clash ↦ inr clash
      ]
