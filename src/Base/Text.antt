-- ===== src/Base/Text.antt =====
-- Text as bytes: string literals, `%d` of a number that is not negative, and `snprintf`.
use Prim.Native.Char.{code}
use Prim.Native.String.{String}
use mathlib.Core.Path.{◌≡◌}
use native.Mathlib.Omega.{arith}
use Prim.Native.Nat.{ℕ, zero, suc, ◌+◌, ◌-◌, ◌/◌, ◌%◌, ◌≤◌, ◌<◌}
use mathlib.Core.List.{List, [], ◌∷◌, ◌++◌}
use dei_chain.Base.Tests.{ltb, if◌then◌else◌}
use dei_chain.Base.Lists.{length, take, drop, length-append}

-- The bytes of a literal, without its NUL.
abbrev pub codes : String → List ℕ
codes String.[] = []
codes (String.◌∷◌ c s) = code c ∷ codes s

-- The decimal digits of `n`, at most `fuel` of them.
unfoldable pub digits_of : ℕ → ℕ → List ℕ
digits_of zero n = []
digits_of (suc fuel) n =
    let more = digits_of fuel (n / 10) ++ (b'0' + n % 10) ∷ [] in
    if ltb n 10 then (b'0' + n) ∷ [] else more

-- `%d`: a number has fewer digits than its successor counts.
unfoldable pub decimal : ℕ → List ℕ
unfolding digits_of
decimal n = digits_of (n + 1) n

-- `snprintf(array, size, …)` of a text that is already formatted: at most `size - 1` bytes of it and
-- a NUL are written over the array.
unfoldable pub snprintf : ℕ → List ℕ → List ℕ → List ℕ
snprintf size text array =
    let kept = take (size - 1) text in kept ++ 0 ∷ drop (length kept + 1) array

length-take-le : (n : ℕ) (xs : List ℕ) → length (take n xs) ≤ n
length-take-le zero xs = omega arith
length-take-le (suc n) [] = omega arith
length-take-le (suc n) (x ∷ xs) = omega (arith, length-take-le n xs)

length-drop : (n : ℕ) (xs : List ℕ) → length (drop n xs) ≡ length xs - n
length-drop zero xs = omega arith
length-drop (suc n) [] = omega arith
length-drop (suc n) (x ∷ xs) = omega (arith, length-drop n xs)

-- `snprintf` keeps to its array.
pub length-snprintf :
    (size : ℕ) (text array : List ℕ)
    → 0 < size
    → length array ≡ size
    → length (snprintf size text array) ≡ size
unfolding snprintf
length-snprintf size text array h e =
    let kept = take (size - 1) text in
    omega (
      arith,
      length-append kept (0 ∷ drop (length kept + 1) array),
      length-take-le (size - 1) text,
      length-drop (length kept + 1) array,
    )
