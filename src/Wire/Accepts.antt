-- ===== src/Wire/Accepts.antt =====
-- What every block that a validator reads satisfies, whatever stands in the pipe.
use mathlib.Core.Option.{some-injective}
use dei_chain.Base.{
  ℕ, zero, suc, ◌*◌, ◌≤◌, ◌<◌, ◌≡◌, refl, sym, ap, ◌∙◌, Bool, true, false, Option, none, some, List,
  ◌∷◌, [], length, arith, inl, inr, Bool-cases, ◌==◌, if◌then◌else◌, ◌&&◌, subst,
}
use dei_chain.Base.Int.{ℤ, pos, pos_part}
use dei_chain.Data.{Transaction, TransactionBlock, Config, txb_id_len, hash_size}
use dei_chain.Pow.Serialize.{sizeof_transaction}
use dei_chain.Wire.Read.{Fd, ReadOutcome, got, again, closed, error, arrived}
use dei_chain.Wire.Parse.{
  Reading, ◌>>=◌, done, failing, read_field, int_of, transactions_from, in_range, read_transactions,
  read_block, read_message,
}

-- Every value that the reading gives satisfies `P`.
abbrev pub Gives : {A : Type 0} → Reading A → (A → Type 0) → Type 0
Gives {A} m P = (fd fd' : Fd) (a : A) → m fd ≡ some (some a, fd') → P a

pub Gives->>=_with :
    {A B : Type 0} (m : Reading A) (f : A → Reading B) (Q : A → Type 0) (P : B → Type 0)
    → Gives m Q
    → ((a : A) → Q a → Gives (f a) P)
    → Gives (m >>= f) P
Gives->>=_with {A} {B} m f Q P first each fd fd' b given = at (m fd) refl given
  where
    at :
        (r : Option (Option A × Fd))
        → m fd ≡ r
        → (elim r as (λ _. Option (Option B × Fd)) [
          | none ↦ none
          | some (none, fd₁) ↦ some (none, fd₁)
          | some (some a, fd₁) ↦ f a fd₁
        ])
          ≡ some (some b, fd')
        → P b
    at none here e = cc
    at (some (none, fd₁)) here e = cc
    at (some (some a, fd₁)) here e = each a (first fd fd₁ a here) fd₁ fd' b e

pub Gives->>= :
    {A B : Type 0} (m : Reading A) (f : A → Reading B) (P : B → Type 0)
    → ((a : A) → Gives (f a) P)
    → Gives (m >>= f) P
Gives->>= m f P each = Gives->>=_with m f (λ _. Unit {0}) P (λ fd fd' a e. tt) (λ a _. each a)

pub Gives-done : {A : Type 0} (a : A) (P : A → Type 0) → P a → Gives (done a) P
Gives-done {A} a P h fd fd' b given =
    subst P (some-injective a b (ap (λ (r : Option A × Fd). r.0) (some-injective _ _ given))) h

pub Gives-if :
    {A : Type 0} (c : Bool) (m : Reading A) (P : A → Type 0)
    → (c ≡ true → Gives m P)
    → Gives (if c then m else failing) P
Gives-if true m P h fd fd' a given = h refl fd fd' a given
Gives-if false m P h fd fd' a given = cc

-- The pointer leads to as many transactions as the block says, at least one and no more than the
-- configuration allows.
pub record IsRead (config : Config) (b : TransactionBlock) : Type 0 where
  pub ts : List Transaction
  pub points : b.transactions ≡ some ts
  pub counted : b.transactions_per_block ≡ pos (length ts)
  pub some_transactions : 0 < length ts
  pub few_transactions : length ts ≤ config.transactions_per_block

length-transactions_from : (n : ℕ) (bytes : List ℕ) → length (transactions_from n bytes) ≡ n
unfolding transactions_from
length-transactions_from zero bytes = refl
length-transactions_from (suc n) bytes = ap suc (length-transactions_from n _)

in_range_bounds :
    (count : ℤ) (config : Config)
    → in_range count config ≡ true
    → (count ≡ pos (pos_part count))
      × (0 < pos_part count)
      × (pos_part count ≤ config.transactions_per_block)
unfolding in_range
in_range_bounds count config h = ground arith

read_transactions-IsRead :
    (allocated : Bool) (config : Config) (count : ℤ) (id hash timestamp nonce : List ℕ)
    → Gives (read_transactions allocated config count id hash timestamp nonce) (IsRead config)
unfolding read_transactions
read_transactions-IsRead allocated config count id hash timestamp nonce =
    Gives-if (in_range count config && allocated) _ (IsRead config) λ passed.
      let bounds = in_range_bounds count config (ground arith) in
      Gives->>= (read_field (pos_part count * sizeof_transaction)) _ (IsRead config) λ bytes.
        let size = length-transactions_from (pos_part count) bytes in
        Gives-done _ (IsRead config) (record {
          ts = transactions_from (pos_part count) bytes;
          points = refl;
          counted = bounds.0 ∙ ap pos (sym size);
          some_transactions = omega (arith, size, bounds);
          few_transactions = omega (arith, size, bounds);
        })

read_block-IsRead :
    (allocated : Bool) (config : Config) → Gives (read_block allocated config) (IsRead config)
unfolding read_block
read_block-IsRead allocated config = Gives->>= (read_field txb_id_len) _ (IsRead config) λ id.
    Gives->>= (read_field hash_size) _ (IsRead config) λ hash.
      Gives->>= (read_field 8) _ (IsRead config) λ timestamp.
        Gives->>= (read_field 4) _ (IsRead config) λ nonce.
          Gives->>= (read_field 4) _ (IsRead config) λ count.
            read_transactions-IsRead allocated config (int_of count) id hash timestamp nonce

-- A block that is read carries at least one transaction and no more than the configuration allows.
pub read_message-IsRead :
    (allocated : Bool) (config : Config) (stream : List ℕ) (calls : List ReadOutcome) (fd' : Fd)
    (miner_id : ℤ) (b : TransactionBlock)
    → read_message allocated config (record { stream = stream; calls = calls })
      ≡ some (some (miner_id, b), fd')
    → IsRead config b
unfolding read_message
read_message-IsRead allocated config stream [] fd' miner_id b given = cc
read_message-IsRead allocated config stream (again ∷ calls) fd' miner_id b given = cc
read_message-IsRead allocated config stream (closed ∷ calls) fd' miner_id b given = cc
read_message-IsRead allocated config stream (error ∷ calls) fd' miner_id b given = cc
read_message-IsRead allocated config stream (got n ∷ calls) fd' miner_id b given =
    let bytes = arrived 4 n stream in
    elim (Bool-cases (length bytes == 4)) [
      | inr short ↦ cc (rw short at given)
      | inl four ↦
          Gives->>=_with (read_block allocated config) (λ c. done (int_of bytes, c)) (IsRead config)
            (λ (r : ℤ × TransactionBlock). IsRead config (r.1)) (read_block-IsRead allocated config)
            (λ c h.
              Gives-done (int_of bytes, c) (λ (r : ℤ × TransactionBlock). IsRead config (r.1)) h)
            _ fd' (miner_id, b) (rw four at given)
    ]
