-- ===== src/Wire/Read.antt =====
-- `read_fully` of validator.c, over the bytes in the pipe and what each call of `read` does.
use dei_chain.Base.{
  ℕ, suc, ◌-◌, Option, none, some, List, [], ◌∷◌, ◌++◌, length, take, drop, ltb, if◌then◌else◌,
}
use dei_chain.Base.Int.{ℤ, pos, negsuc}

-- How a call of `read` returns: with bytes, where `got n` lets at most `n + 1` of them through; with
-- EAGAIN; with 0, when no writer is left; with another error.
pub data ReadOutcome : Type 0 where
  got : ℕ → ReadOutcome
  again closed error : ReadOutcome

-- The pipe as a reader sees it: the bytes to come, and the outcomes of the calls to come.
pub record Fd : Type 0 where
  pub stream : List ℕ
  pub calls : List ReadOutcome

-- The bytes that a call gives that asks for `count`, `n + 1` being let through. A `got` on an empty
-- pipe gives none; the loop calls again, as for EAGAIN.
abbrev pub arrived : ℕ → ℕ → List ℕ → List ℕ
arrived count n stream = take (suc n) (take count stream)

-- The result of the function, the bytes that it has put into the buffer, and the pipe. `none` says
-- that it is still waiting after the calls that the list has.
unfoldable pub read_loop : ℕ → List ℕ → List ℕ → List ReadOutcome → Option (ℤ × List ℕ × Fd)
read_loop count buf stream [] =
    if ltb (length buf) count
    then none
    else some (pos (length buf), buf, record { stream = stream; calls = [] })
read_loop count buf stream (call ∷ calls) =
    if ltb (length buf) count
    then elim call [
      | got n ↦
          let bytes = arrived (count - length buf) n stream in
          read_loop count (buf ++ bytes) (drop (length bytes) stream) calls
      | again ↦ read_loop count buf stream calls
      | closed ↦ some (pos (length buf), buf, record { stream = stream; calls = calls })
      | error ↦ some (
        (if ltb 0 (length buf) then pos (length buf) else negsuc 0),
        buf,
        record { stream = stream; calls = calls },
      )
    ]
    else some (pos (length buf), buf, record { stream = stream; calls = call ∷ calls })

unfoldable pub read_fully : ℕ → Fd → Option (ℤ × List ℕ × Fd)
unfolding read_loop
read_fully count fd = read_loop count [] fd.stream fd.calls
