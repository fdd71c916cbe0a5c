-- ===== src/Validator/Log.antt =====
-- The ledger as an append-only log.
use dei_chain.Base.{◌≡◌, ap, ◌∙◌, List, [], ◌∷◌, ◌++◌, append_assoc}
use dei_chain.Data.{BlockchainEntry}

-- What one step may do to it.
pub data Appends (before : List BlockchainEntry) : List BlockchainEntry → Type 0 where
  same : Appends before before
  one_more : (e : BlockchainEntry) → Appends before (before ++ e ∷ [])

pub Appends-prefix :
    (before middle after : List BlockchainEntry)
    → (new : List BlockchainEntry) × (middle ≡ before ++ new)
    → Appends middle after
    → (new : List BlockchainEntry) × (after ≡ before ++ new)
Appends-prefix before middle _ grown same = grown
Appends-prefix before middle _ (new, grown) (one_more e) =
    (new ++ e ∷ [], ap (λ l. l ++ e ∷ []) grown ∙ append_assoc before new (e ∷ []))
