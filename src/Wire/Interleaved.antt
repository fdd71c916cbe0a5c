-- ===== src/Wire/Interleaved.antt =====
-- What a validator reads when the messages of two miners mix in the pipe.
use mathlib.Core.Option.{some-injective}
use dei_chain.Base.{
  ℕ, zero, suc, ◌⊎◌, ◌-◌, ◌*◌, ◌^◌, ◌≤◌, ◌<◌, ◌≡◌, ◌≢◌, refl, sym, ap, ◌∙◌, subst, Bool, Option,
  none, some, List, [], ◌∷◌, ◌++◌, append_assoc, length, take, drop, set, arith, inl, inr,
  Bool-cases, Option-cases, ◌==◌, ◌&&◌, take-append, drop-append, take-le, drop-append, take-le,
}
use dei_chain.Base.Int.{ℤ, pos, negsuc, pos_part}
use dei_chain.Base.Arrays.{word_bytes, pattern_of, bytes_word, integer_of, length-word_bytes}
use dei_chain.Base.Text.{codes}
use dei_chain.Data.{TransactionBlock, Config, txb_id_len, hash_size}
use dei_chain.Pow.Serialize.{sizeof_transaction}
use dei_chain.Wire.Read.{ReadOutcome, got, again, closed, error, Fd, arrived, read_loop, read_fully}
use dei_chain.Wire.Parse.{
  Reading, ◌>>=◌, done, read_field, int_of, in_range, read_transactions, read_block, read_message,
}
use dei_chain.Wire.Accepts.{Gives, Gives->>=, Gives-done, Gives-if}
use dei_chain.Wire.RoundTrip.{int_of-word_bytes}

take-take-drop :
    (k c : ℕ) (xs : List ℕ) → take k (take c xs) ++ drop (length (take k (take c xs))) xs ≡ xs
take-take-drop zero c xs = refl
take-take-drop (suc k) zero xs = refl
take-take-drop (suc k) (suc c) [] = refl
take-take-drop (suc k) (suc c) (x ∷ xs) = ap (λ l. x ∷ l) (take-take-drop k c xs)

-- What has been read and what is left make up what was there.
read_loop-prefix :
    (count : ℕ) (buf stream : List ℕ) (calls : List ReadOutcome) (n : ℤ) (bytes : List ℕ) (fd : Fd)
    → read_loop count buf stream calls ≡ some (n, bytes, fd)
    → bytes ++ fd.stream ≡ buf ++ stream
unfolding read_loop
read_loop-prefix count buf stream [] n bytes fd e = ground arith
read_loop-prefix count buf stream (again ∷ calls) n bytes fd e =
    ground (arith, read_loop-prefix count buf stream calls n bytes fd)
read_loop-prefix count buf stream (closed ∷ calls) n bytes fd e = ground arith
read_loop-prefix count buf stream (error ∷ calls) n bytes fd e = ground arith
read_loop-prefix count buf stream (got k ∷ calls) n bytes fd e =
    let bytes' : List ℕ = arrived (count - length buf) k stream in
    let whole : (buf ++ bytes') ++ drop (length bytes') stream ≡ buf ++ stream =
      append_assoc buf bytes' (drop (length bytes') stream)
      ∙ ap (λ l. buf ++ l) (take-take-drop (suc k) (count - length buf) stream) in
    ground (
      arith,
      whole,
      read_loop-prefix count (buf ++ bytes') (drop (length bytes') stream) calls n bytes fd,
    )

-- The result counts the bytes, but for an error.
read_loop-counted :
    (count : ℕ) (buf stream : List ℕ) (calls : List ReadOutcome) (n : ℤ) (bytes : List ℕ) (fd : Fd)
    → read_loop count buf stream calls ≡ some (n, bytes, fd)
    → (n ≡ pos (length bytes)) ⊎ (n ≡ negsuc 0)
unfolding read_loop
read_loop-counted count buf stream [] n bytes fd e = ground arith
read_loop-counted count buf stream (again ∷ calls) n bytes fd e =
    ground (arith, read_loop-counted count buf stream calls n bytes fd)
read_loop-counted count buf stream (closed ∷ calls) n bytes fd e = ground arith
read_loop-counted count buf stream (error ∷ calls) n bytes fd e = ground arith
read_loop-counted count buf stream (got k ∷ calls) n bytes fd e =
    let bytes' : List ℕ = arrived (count - length buf) k stream in
    ground (
      arith,
      read_loop-counted count (buf ++ bytes') (drop (length bytes') stream) calls n bytes fd,
    )

-- A field that is read is what stands next in the pipe.
read_field-prefix :
    (size : ℕ) (bytes : List ℕ) (fd fd' : Fd)
    → read_field size fd ≡ some (some bytes, fd')
    → (bytes ++ fd'.stream ≡ fd.stream) × (length bytes ≡ size)
unfolding read_field read_fully
read_field-prefix size bytes fd fd' e = elim (Option-cases (read_loop size [] fd.stream fd.calls)) [
  | inl waits ↦ cc (rw (waits, read_field) at e)
  | inr ((n, bytes', fd₁), result) ↦ ground (
    arith,
    result,
    read_loop-prefix size [] fd.stream fd.calls n bytes' fd₁,
    read_loop-counted size [] fd.stream fd.calls n bytes' fd₁,
  )
]

-- A reading that gives a value went through its first part.
>>=-some :
    {A B : Type 0} (m : Reading A) (f : A → Reading B) (fd fd' : Fd) (b : B)
    → (m >>= f) fd ≡ some (some b, fd')
    → (a : A) × (fd₁ : Fd) × (m fd ≡ some (some a, fd₁)) × (f a fd₁ ≡ some (some b, fd'))
>>=-some {A} {B} m f fd fd' b given = at (m fd) refl given
  where
    at :
        (r : Option (Option A × Fd))
        → m fd ≡ r
        → (elim r as (λ _. Option (Option B × Fd)) [
          | none ↦ none
          | some (none, fd₁) ↦ some (none, fd₁)
          | some (some a, fd₁) ↦ f a fd₁
        ])
          ≡ some (some b, fd')
        → (a : A) × (fd₁ : Fd) × (m fd ≡ some (some a, fd₁)) × (f a fd₁ ≡ some (some b, fd'))
    at none here e = cc
    at (some (none, fd₁)) here e = cc
    at (some (some a, fd₁)) here e = (a, fd₁, here, e)

-- The ID of the block that is read is the field that was read for it, ended by a NUL.
read_transactions-id :
    (allocated : Bool) (config : Config) (count : ℤ) (id hash timestamp nonce : List ℕ)
    → Gives
        (read_transactions allocated config count id hash timestamp nonce)
        (λ (r : TransactionBlock). r.txb_id ≡ set id (txb_id_len - 1) 0)
unfolding read_transactions
read_transactions-id allocated config count id hash timestamp nonce =
    Gives-if (in_range count config && allocated) _ _ λ passed.
      Gives->>= (read_field (pos_part count * sizeof_transaction)) _ _
        λ bytes. Gives-done _ (λ (r : TransactionBlock). r.txb_id ≡ set id (txb_id_len - 1) 0) refl

IsNamed : List ℕ → TransactionBlock → Type 0
IsNamed id r = r.txb_id ≡ set id (txb_id_len - 1) 0

read_block-id :
    (allocated : Bool) (config : Config) (fd fd' : Fd) (r : TransactionBlock)
    → read_block allocated config fd ≡ some (some r, fd')
    → (id : List ℕ) × (fd₁ : Fd) × (read_field txb_id_len fd ≡ some (some id, fd₁))
      × (r.txb_id ≡ set id (txb_id_len - 1) 0)
unfolding read_block IsNamed
read_block-id allocated config fd fd' r e =
    let (id, fd₁, first, later) = >>=-some (read_field txb_id_len) _ fd fd' r e in
    (
      id,
      fd₁,
      first,
      Gives->>= (read_field hash_size) _ (IsNamed id)
          (λ hash. Gives->>= (read_field 8) _ (IsNamed id) λ timestamp.
            Gives->>= (read_field 4) _ (IsNamed id) λ nonce.
              Gives->>= (read_field 4) _ (IsNamed id) λ count.
                read_transactions-id allocated config (int_of count) id hash timestamp nonce)
          fd₁ fd' r later,
    )

take-set_below : (m i v : ℕ) (xs : List ℕ) → m ≤ i → take m (set xs i v) ≡ take m xs
take-set_below zero i v xs h = refl
take-set_below (suc m) i v [] h = refl
take-set_below (suc m) zero v (x ∷ xs) h = absurd (omega arith)
take-set_below (suc m) (suc i) v (x ∷ xs) h =
    ap (λ l. x ∷ l) (take-set_below m i v xs (omega arith))

take-append_le : (m : ℕ) (xs ys : List ℕ) → m ≤ length xs → take m (xs ++ ys) ≡ take m xs
take-append_le zero xs ys h = refl
take-append_le (suc m) [] ys h = absurd (omega arith)
take-append_le (suc m) (x ∷ xs) ys h = ap (λ l. x ∷ l) (take-append_le m xs ys (omega arith))

-- What a message that is read says of the bytes: the miner's number, and the ID behind it.
read_message-starts :
    (allocated : Bool) (n : ℕ) (config : Config) (stream : List ℕ) (calls : List ReadOutcome)
    (miner_id : ℤ) (r : TransactionBlock) (fd' : Fd)
    → read_message allocated config (record { stream = stream; calls = got n ∷ calls })
      ≡ some (some (miner_id, r), fd')
    → let first = arrived 4 n stream in
      (miner_id ≡ int_of first) × (take 4 r.txb_id ≡ take 4 (drop (length first) stream))
unfolding read_message
read_message-starts allocated n config stream calls miner_id r fd' given =
    let first = arrived 4 n stream in
    let fd : Fd = record { stream = drop (length first) stream; calls = calls } in
    elim (Bool-cases (length first == 4)) [
      | inr short ↦ cc (rw short at given)
      | inl four ↦
          let (b, fd₁, block, last) =
            >>=-some (read_block allocated config) (λ c. done (int_of first, c)) fd fd'
              (miner_id, r) (rw four at given) in
          let (id, fd₂, field, named) = read_block-id allocated config fd fd₁ b block in
          let (text, size) = read_field-prefix txb_id_len id fd fd₂ field in
          let pair : ◌≡◌ {A = ℤ × TransactionBlock} (int_of first, b) (miner_id, r) =
            some-injective _ _
              (ap (λ (p : Option (ℤ × TransactionBlock) × Fd). p.0) (some-injective _ _ last)) in
          let start : take 4 b.txb_id ≡ take 4 (drop (length first) stream) =
            ap (take 4) named
            ∙ take-set_below 4 (txb_id_len - 1) 0 id (omega arith)
            ∙ sym (take-append_le 4 id fd₂.stream (omega (arith, size)))
            ∙ ap (take 4) text in
          (
            sym (ap (λ (p : ℤ × TransactionBlock). p.0) pair),
            subst (λ (c : TransactionBlock). take 4 c.txb_id ≡ take 4 (drop (length first) stream))
                (ap (λ (p : ℤ × TransactionBlock). p.1) pair) start,
          )
    ]

abbrev pub number : ℕ → List ℕ
number n = word_bytes 4 (pattern_of (2 ^ 32) (pos n))

bloc : pos_part (int_of (codes "BLOC")) ≡ 1129270338
unfolding int_of integer_of bytes_word
bloc = refl

-- A miner writes its number, and another one writes its own before the first writes the ID of its
-- block. If a validator then reads a block, it is under the number of the first miner, and it is not
-- the block of the first miner: its ID begins with the other's number, and not with "BLOC". The
-- numbers are `int`s, the other's less than 2 ^ 30, the bytes behind are any, and the first read gets 4.
pub interleaved_message_corrupted :
    (allocated : Bool) (n miner_id other : ℕ) (config : Config) (b r : TransactionBlock)
    (rest : List ℕ) (calls : List ReadOutcome) (read_id : ℤ) (fd' : Fd)
    → 3 ≤ n
    → miner_id < 2 ^ 31
    → other < 2 ^ 30
    → take 4 b.txb_id ≡ codes "BLOC"
    → read_message allocated config
        (record { stream = number miner_id ++ (number other ++ rest); calls = got n ∷ calls })
      ≡ some (some (read_id, r), fd')
    → (read_id ≡ pos miner_id) × (take 4 r.txb_id ≡ number other) × (r ≢ b)
interleaved_message_corrupted allocated n miner_id other config b r rest calls read_id fd' enough
      small few named given =
    let stream : List ℕ = number miner_id ++ (number other ++ rest) in
    let size : length (number miner_id) ≡ 4 = length-word_bytes 4 _ in
    let first : arrived 4 n stream ≡ number miner_id =
      ap (take (suc n)) (take-append 4 (number miner_id) (number other ++ rest) size)
      ∙ take-le (suc n) (number miner_id) (omega arith) in
    let (id_read, start) =
      read_message-starts allocated n config stream calls read_id r fd' given in
    let begins : take 4 r.txb_id ≡ number other =
      start
      ∙ ap (λ l. take 4 (drop (length l) stream)) first
      ∙ ap (take 4)
          (drop-append (length (number miner_id)) (number miner_id) (number other ++ rest) refl)
      ∙ take-append 4 (number other) rest (length-word_bytes 4 _) in
    (
      id_read ∙ ap int_of first ∙ int_of-word_bytes (pos miner_id) (omega arith),
      begins,
      (λ same. far (sym begins ∙ ap (λ (c : TransactionBlock). take 4 c.txb_id) same ∙ named)),
    )
  where
    far : number other ≡ codes "BLOC" → ⊥
    far e =
        let value : pos other ≡ int_of (codes "BLOC") =
          sym (int_of-word_bytes (pos other) (omega arith)) ∙ ap int_of e in
        absurd (omega (arith, few, ap pos_part value, bloc))
