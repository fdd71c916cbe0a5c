-- ===== src/Wire/SendLaws.antt =====
-- What `send_block_to_validator` leaves in the pipe.
use dei_chain.Base.{
  ℕ, ◌+◌, ◌≡◌, ◌⊎◌, refl, sym, ap, ◌∙◌, Bool, true, false, List, [], ◌∷◌, ◌++◌, length, take, drop,
  append_assoc, inl, inr, Bool-cases, Option-cases, ◌==◌,
}
use dei_chain.Base.Int.{ℤ, pos, negsuc}
use dei_chain.Data.{TransactionBlock}
use dei_chain.Wire.ReadLaws.{take-drop}
use dei_chain.Wire.Send.{Write, chunks, concat, send_chunks, send_block_to_validator}

-- Success and the whole text, or failure and a beginning of it.
abbrev pub Sends : List (List ℕ) → ℤ × List ℕ → Type 0
Sends cs (result, sent) =
    ((result ≡ pos 0) × (sent ≡ concat cs))
    ⊎ ((result ≡ negsuc 0) × (rest : List ℕ) × (sent ++ rest ≡ concat cs))

send_chunks-Sends :
    (writes : ℕ → Write) (i : ℕ) (cs : List (List ℕ)) → Sends cs (send_chunks writes i cs)
unfolding send_chunks
send_chunks-Sends writes i [] = inl (refl, refl)
send_chunks-Sends writes i (c ∷ cs) = elim (Bool-cases (writes i).terminate) [
  | inl ends ↦ rw ends (inr (refl, concat (c ∷ cs), refl))
  | inr goes ↦ elim (Option-cases (writes i).written) [
    | inl failed ↦ rw (goes, failed) (inr (refl, concat (c ∷ cs), refl))
    | inr (n, took) ↦ elim (Bool-cases (n == length c)) [
      | inr partial ↦
          rw (goes, took, partial)
            (inr (
              refl,
              drop n c ++ concat cs,
              sym (append_assoc (take n c) (drop n c) (concat cs))
                  ∙ ap (λ l. l ++ concat cs) (take-drop n c),
            ))
      | inl whole ↦
          rw (goes, took, whole)
            (elim (send_chunks-Sends writes (i + 1) cs) [
              | inl (ok, sent) ↦ inl (ok, ap (λ l. c ++ l) sent)
              | inr (bad, rest, sent) ↦
                  inr (bad, rest, append_assoc c _ rest ∙ ap (λ l. c ++ l) sent)
            ])
    ]
  ]
]

-- The result is 0 and the whole message is in the pipe, or it is -1 and a beginning of the message
-- is, which may be part of a field.
pub send_block_to_validator_lem :
    (opened : Bool) (writes : ℕ → Write) (miner_id : ℕ) (b : TransactionBlock)
    → Sends (chunks miner_id b) (send_block_to_validator opened writes miner_id b)
unfolding send_block_to_validator
send_block_to_validator_lem false writes miner_id b = inr (refl, concat (chunks miner_id b), refl)
send_block_to_validator_lem true writes miner_id b = send_chunks-Sends writes 0 (chunks miner_id b)
