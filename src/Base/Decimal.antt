-- ===== src/Base/Decimal.antt =====
-- Decimal numbers as text: reading back, independence of the fuel, and no NUL among the digits.
use Prim.Native.Nat.{ℕ, zero, suc, ◌+◌, ◌-◌, ◌*◌, ◌/◌, ◌%◌, ◌<◌}
use mathlib.Core.Path.{◌≡◌, refl, sym, ap, ◌∙◌}
use mathlib.Core.Logic.{inl, inr}
use mathlib.Core.Bool.{false}
use mathlib.Core.List.{List, [], ◌∷◌, ◌++◌}
use native.Mathlib.Numerals.{add-one}
use native.Mathlib.Omega.{arith}
use dei_chain.Base.Tests.{ltb, Bool-cases}
use dei_chain.Base.Lists.{take, All}
use dei_chain.Base.Arrays.{c_string}
use dei_chain.Base.Text.{digits_of, decimal, snprintf}

number_from : ℕ → List ℕ → ℕ
number_from acc [] = acc
number_from acc (d ∷ ds) = number_from (acc * 10 + (d - b'0')) ds

number_from-append :
    (acc : ℕ) (ds es : List ℕ) → number_from acc (ds ++ es) ≡ number_from (number_from acc ds) es
unfolding number_from
number_from-append acc [] es = refl
number_from-append acc (d ∷ ds) es = number_from-append (acc * 10 + (d - b'0')) ds es

number-digits_of : (fuel n : ℕ) → n < fuel → number_from 0 (digits_of fuel n) ≡ n
unfolding number_from digits_of
number-digits_of zero n h = elim h [ ]
number-digits_of (suc fuel) n h = elim (Bool-cases (ltb n 10)) [
  | inl one ↦ rw one (omega arith)
  | inr more ↦
      rw
        (
          more,
          number_from-append 0 (digits_of fuel (n / 10)) ((b'0' + n % 10) ∷ []),
          number-digits_of fuel (n / 10) (ground arith),
        )
        (omega arith)
]

-- Two numbers with the same digits are the same.
pub decimal-injective : (m n : ℕ) → decimal m ≡ decimal n → m ≡ n
unfolding decimal
decimal-injective m n h =
    sym (number-digits_of (m + 1) m (omega arith))
    ∙ ap (number_from 0) h
    ∙ number-digits_of (n + 1) n (omega arith)

digits_of-fuel : (f g n : ℕ) → n < f → n < g → digits_of f n ≡ digits_of g n
unfolding digits_of
digits_of-fuel zero g n hf hg = elim hf [ ]
digits_of-fuel (suc f) zero n hf hg = elim hg [ ]
digits_of-fuel (suc f) (suc g) n hf hg = elim (Bool-cases (ltb n 10)) [
  | inl one ↦ rw one
  | inr more ↦ rw (more, digits_of-fuel f g (n / 10) (ground arith) (ground arith))
]

digits_of-step :
    (fuel n d : ℕ)
    → 0 < n
    → d < 10
    → digits_of (suc fuel) (n * 10 + d) ≡ digits_of fuel n ++ (b'0' + d) ∷ []
unfolding digits_of
digits_of-step fuel n d h k =
    let big : ltb (n * 10 + d) 10 ≡ false = ground arith in
    let tens : (n * 10 + d) / 10 ≡ n = omega arith in
    let unit : (n * 10 + d) % 10 ≡ d = omega arith in rw (big, tens, unit)

-- One more digit behind a positive number.
pub decimal-snoc : (n d : ℕ) → 0 < n → d < 10 → decimal (n * 10 + d) ≡ decimal n ++ (b'0' + d) ∷ []
unfolding decimal
decimal-snoc n d h k =
    ap (λ f. digits_of f (n * 10 + d)) (add-one (n * 10 + d))
    ∙ digits_of-step (n * 10 + d) n d h k
    ∙ ap (λ l. l ++ (b'0' + d) ∷ [])
        (digits_of-fuel (n * 10 + d) (n + 1) n (omega arith) (omega arith))

abbrev pub IsText : List ℕ → Type 0
IsText = All (λ c. 0 < c)

pub IsText-append : (xs ys : List ℕ) → IsText xs → IsText ys → IsText (xs ++ ys)
IsText-append [] ys hx hy = hy
IsText-append (x ∷ xs) ys hx hy = (hx.0, IsText-append xs ys hx.1 hy)

digits_of-IsText : (fuel n : ℕ) → IsText (digits_of fuel n)
unfolding digits_of
digits_of-IsText zero n = tt
digits_of-IsText (suc fuel) n = elim (Bool-cases (ltb n 10)) [
  | inl one ↦ rw one (omega arith, tt)
  | inr more ↦ rw more (
      IsText-append (digits_of fuel (n / 10)) ((b'0' + n % 10) ∷ [])
        (digits_of-IsText fuel (n / 10)) (omega arith, tt))
]

pub decimal-IsText : (n : ℕ) → IsText (decimal n)
unfolding decimal
decimal-IsText n = digits_of-IsText (n + 1) n

c_string-take :
    (n : ℕ) (xs rest : List ℕ) → IsText xs → c_string (take n xs ++ 0 ∷ rest) ≡ take n xs
unfolding c_string
c_string-take zero xs rest h = refl
c_string-take (suc n) [] rest h = refl
c_string-take (suc n) (x ∷ xs) rest h = ground (arith, c_string-take n xs rest h.1)

-- A text with its NUL is read back as a string.
pub c_string-text : (xs rest : List ℕ) → IsText xs → c_string (xs ++ 0 ∷ rest) ≡ xs
unfolding c_string
c_string-text [] rest h = refl
c_string-text (x ∷ xs) rest h = ground (arith, c_string-text xs rest h.1)

-- The string that `snprintf` leaves in an array: the text, cut to its room.
pub c_string-snprintf :
    (size : ℕ) (text array : List ℕ)
    → IsText text
    → c_string (snprintf size text array) ≡ take (size - 1) text
unfolding snprintf
c_string-snprintf size text array h = c_string-take (size - 1) text _ h
