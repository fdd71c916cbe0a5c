-- ===== src/TxGen/GenerateLaws.antt =====
-- The IDs that one generator gives: apart as long as they fit into `TX_ID_LEN`, and no longer.
use dei_chain.Base.{
  ℕ, zero, suc, ◌+◌, ◌*◌, ◌-◌, ◌≤◌, ◌<◌, ◌≡◌, refl, sym, ap, ◌∙◌, true, List, [], ◌∷◌, ◌++◌, length,
  take, arith, append_assoc,
}
use dei_chain.Base.Int.{ℤ}
use dei_chain.Base.Arrays.{c_string, strcmp_eq, strcmp_eq_iff}
use dei_chain.Base.Text.{codes, decimal}
use dei_chain.Base.Decimal.{
  IsText, IsText-append, decimal-IsText, decimal-injective, decimal-snoc, c_string-snprintf,
}
use dei_chain.Data.{tx_id_len}
use dei_chain.TxGen.Generate.{transaction_name, generate_transaction}

pub name-IsText : (pid serial : ℕ) → IsText (transaction_name pid serial)
unfolding transaction_name
name-IsText pid serial =
    IsText-append (codes "TX-") (decimal pid ++ (codes "-" ++ decimal serial)) (omega arith) (
      IsText-append (decimal pid) (codes "-" ++ decimal serial) (decimal-IsText pid)
        (IsText-append (codes "-") (decimal serial) (omega arith) (decimal-IsText serial)))

append-cancel : (xs ys zs : List ℕ) → xs ++ ys ≡ xs ++ zs → ys ≡ zs
append-cancel [] ys zs h = h
append-cancel (x ∷ xs) ys zs h = append-cancel xs ys zs (cc)

pub name-injective : (pid m n : ℕ) → transaction_name pid m ≡ transaction_name pid n → m ≡ n
unfolding transaction_name
name-injective pid m n h = decimal-injective m n (
    append-cancel (codes "-") (decimal m) (decimal n) (
      append-cancel (decimal pid) (codes "-" ++ decimal m) (codes "-" ++ decimal n)
        (append-cancel (codes "TX-") _ _ h)))

name-snoc :
    (pid n d : ℕ)
    → 0 < n
    → d < 10
    → transaction_name pid (n * 10 + d) ≡ transaction_name pid n ++ (b'0' + d) ∷ []
unfolding transaction_name
name-snoc pid n d h k = rw (decimal-snoc n d h k) (simp append_assoc)

-- The ID of the transaction that a call makes is the formatted name, cut to 15 characters.
generated-id :
    (reward : ℤ) (pid counter rand value : ℕ) (now : ℤ) (stack : List ℕ)
    → c_string (generate_transaction reward pid counter rand value now stack).0.tx_id
      ≡ take (tx_id_len - 1) (transaction_name pid counter)
unfolding generate_transaction
generated-id reward pid counter rand value now stack =
    c_string-snprintf tx_id_len (transaction_name pid counter) stack (name-IsText pid counter)

take-long : (n : ℕ) (xs ys : List ℕ) → n ≤ length xs → take n (xs ++ ys) ≡ take n xs
take-long zero xs ys h = refl
take-long (suc n) [] ys h = elim h [ ]
take-long (suc n) (x ∷ xs) ys h = ap (λ l. x ∷ l) (take-long n xs ys (omega arith))

take-short : (n : ℕ) (xs : List ℕ) → length xs ≤ n → take n xs ≡ xs
take-short zero [] h = refl
take-short zero (x ∷ xs) h = elim h [ ]
take-short (suc n) [] h = refl
take-short (suc n) (x ∷ xs) h = ap (λ l. x ∷ l) (take-short n xs (omega arith))

-- A name that fits is the ID.
pub generated-name :
    (reward : ℤ) (pid counter rand value : ℕ) (now : ℤ) (stack : List ℕ)
    → length (transaction_name pid counter) ≤ tx_id_len - 1
    → c_string (generate_transaction reward pid counter rand value now stack).0.tx_id
      ≡ transaction_name pid counter
generated-name reward pid counter rand value now stack fits =
    generated-id reward pid counter rand value now stack
    ∙ take-short (tx_id_len - 1) (transaction_name pid counter) fits

module _ (reward : ℤ) (pid : ℕ) where
  abbrev pub id_at : ℕ → ℕ → ℕ → ℤ → List ℕ → List ℕ
  id_at counter rand value now stack =
      (generate_transaction reward pid counter rand value now stack).0.tx_id

  -- Two transactions of one process whose names have at most 15 characters carry the same ID only
  -- if they were made at the same count.
  generate_transaction_distinct :
      (m n rand rand' value value' : ℕ) (now now' : ℤ) (stack stack' : List ℕ)
      → length (transaction_name pid m) ≤ tx_id_len - 1
      → length (transaction_name pid n) ≤ tx_id_len - 1
      → strcmp_eq (id_at m rand value now stack) (id_at n rand' value' now' stack') ≡ true
      → m ≡ n
  generate_transaction_distinct m n rand rand' value value' now now' stack stack' hm hn same =
      name-injective pid m n (
        sym (take-short (tx_id_len - 1) (transaction_name pid m) hm)
        ∙ sym (generated-id reward pid m rand value now stack)
        ∙ (strcmp_eq_iff _ _).0 same
        ∙ generated-id reward pid n rand' value' now' stack'
        ∙ take-short (tx_id_len - 1) (transaction_name pid n) hn)

  -- Once a name has 15 characters or more, the ten transactions whose count is that of the name with
  -- one more digit carry its ID again.
  pub generate_transaction_collides :
      (n d rand rand' value value' : ℕ) (now now' : ℤ) (stack stack' : List ℕ)
      → 0 < n
      → d < 10
      → tx_id_len - 1 ≤ length (transaction_name pid n)
      → strcmp_eq (id_at n rand value now stack) (id_at (n * 10 + d) rand' value' now' stack')
        ≡ true
  generate_transaction_collides n d rand rand' value value' now now' stack stack' h k long =
      (strcmp_eq_iff _ _).1 (
        generated-id reward pid n rand value now stack
        ∙ sym (take-long (tx_id_len - 1) (transaction_name pid n) ((b'0' + d) ∷ []) long)
        ∙ ap (take (tx_id_len - 1)) (sym (name-snoc pid n d h k))
        ∙ sym (generated-id reward pid (n * 10 + d) rand' value' now' stack'))
