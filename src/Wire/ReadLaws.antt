-- ===== src/Wire/ReadLaws.antt =====
-- `read_fully` delivers exactly the bytes asked for, however they arrive.
use mathlib.Core.List.{append-nil}
use dei_chain.Base.{
  ℕ, zero, suc, ◌+◌, ◌-◌, ◌≤◌, ◌≡◌, refl, sym, ap, ◌∙◌, false, some, List, [], ◌∷◌, ◌++◌, length,
  take, drop, take-append, drop-append, length-append, append_assoc, ltb, lt→ltb, arith, Option,
}
use dei_chain.Base.Int.{ℤ, pos}
use dei_chain.Wire.Read.{ReadOutcome, got, again, closed, error, Fd, read_loop, read_fully, arrived}

-- The calls that bring bytes before one that ends the reading.
abbrev pub gots : List ReadOutcome → ℕ
gots [] = 0
gots (got n ∷ calls) = suc (gots calls)
gots (again ∷ calls) = gots calls
gots (closed ∷ calls) = 0
gots (error ∷ calls) = 0

pub take-drop : (n : ℕ) (xs : List ℕ) → take n xs ++ drop n xs ≡ xs
take-drop zero xs = refl
take-drop (suc n) [] = refl
take-drop (suc n) (x ∷ xs) = ap (λ l. x ∷ l) (take-drop n xs)

length-drop-le : (n : ℕ) (xs : List ℕ) → length (drop n xs) ≤ length xs
length-drop-le zero xs = omega arith
length-drop-le (suc n) [] = omega arith
length-drop-le (suc n) (x ∷ xs) = omega (arith, length-drop-le n xs)

-- The call has returned everything: the bytes `xs` that were asked for, and what it left.
abbrev pub Delivers : ℕ → List ℕ → List ℕ → List ReadOutcome → Option (ℤ × List ℕ × Fd) → Type 0
Delivers need xs ys calls result =
    (calls' : List ReadOutcome) × (result
      ≡ some (pos (length xs), xs, record { stream = ys; calls = calls' }))
    × (gots calls ≤ gots calls' + need)

read_loop-Delivers :
    (count : ℕ) (buf xs ys : List ℕ) (calls : List ReadOutcome)
    → length buf + length xs ≡ count
    → length xs ≤ gots calls
    → Delivers (length xs) (buf ++ xs) ys calls (read_loop count buf (xs ++ ys) calls)
unfolding read_loop
read_loop-Delivers count buf [] ys calls size enough =
    stops calls (ltb-self (length buf) count (omega arith))
  where
    ltb-self : (m n : ℕ) → m ≡ n → ltb m n ≡ false
    ltb-self m n e = ground arith

    stops :
        (calls : List ReadOutcome)
        → ltb (length buf) count ≡ false
        → Delivers 0 (buf ++ []) ys calls (read_loop count buf ys calls)
    stops [] full = (
      [],
      rw full (
          ap (λ l. some (pos (length l), l, record { stream = ys; calls = [] }))
            (sym (append-nil buf))),
      omega arith,
    )
    stops (call ∷ calls) full = (
      call ∷ calls,
      rw full (
          ap (λ l. some (pos (length l), l, record { stream = ys; calls = call ∷ calls }))
            (sym (append-nil buf))),
      omega arith,
    )
read_loop-Delivers count buf (x ∷ xs) ys [] size enough = absurd (omega arith)
read_loop-Delivers count buf (x ∷ xs) ys (again ∷ calls) size enough =
    rw (lt→ltb (length buf) count (omega arith))
      (read_loop-Delivers count buf (x ∷ xs) ys calls size enough)
read_loop-Delivers count buf (x ∷ xs) ys (closed ∷ calls) size enough = absurd (omega arith)
read_loop-Delivers count buf (x ∷ xs) ys (error ∷ calls) size enough = absurd (omega arith)
read_loop-Delivers count buf (x ∷ xs) ys (got n ∷ calls) size enough =
    let zs : List ℕ = x ∷ xs in
    let pre = take (suc n) zs in
    let post = drop n xs in
    let first : arrived (count - length buf) n (zs ++ ys) ≡ pre =
      ap (take (suc n)) (take-append (count - length buf) zs ys (omega arith)) in
    let whole : pre ++ post ≡ zs = take-drop (suc n) zs in
    let left : drop (length pre) (zs ++ ys) ≡ post ++ ys =
      ap (λ l. drop (length pre) (l ++ ys)) (sym whole)
      ∙ ap (drop (length pre)) (append_assoc pre post ys)
      ∙ drop-append (length pre) pre (post ++ ys) refl in
    let (calls', result, more) =
      read_loop-Delivers count (buf ++ pre) post ys calls
        (omega (arith, length-append buf pre, length-append pre post, ap length whole))
        (omega (arith, length-drop-le n xs)) in
    (
      calls',
      rw (lt→ltb (length buf) count (omega arith), first, left)
          (result
            ∙ ap (λ l. some (pos (length l), l, record { stream = ys; calls = calls' }))
                (append_assoc buf pre post ∙ ap (λ l. buf ++ l) whole)),
      omega (arith, length-drop-le n xs),
    )

-- With `length xs` calls that bring bytes, and `xs` next in the pipe, the function returns `xs`
-- whole and leaves what comes after.
pub read_fully-Delivers :
    (xs ys : List ℕ) (calls : List ReadOutcome)
    → length xs ≤ gots calls
    → Delivers
        (length xs)
        xs
        ys
        calls
        (read_fully (length xs) (record { stream = xs ++ ys; calls = calls }))
unfolding read_fully
read_fully-Delivers xs ys calls enough =
    read_loop-Delivers (length xs) [] xs ys calls (omega arith) enough
