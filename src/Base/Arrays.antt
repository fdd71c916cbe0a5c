-- ===== src/Base/Arrays.antt =====
-- C arrays of bytes: strings that end at their first NUL, and fixed-size fields in memory order.
use Prim.Native.Nat.{ℕ, zero, suc, ◌+◌, ◌-◌, ◌*◌, ◌/◌, ◌%◌, ◌^◌, ◌≤◌, ◌<◌}
use mathlib.Core.Path.{◌≡◌, refl, ap, sym, ◌∙◌}
use mathlib.Core.Logic.{◌↔◌}
use mathlib.Core.Bool.{Bool, true, false, ◌&&◌}
use mathlib.Core.List.{List, [], ◌∷◌, ◌++◌}
use native.Mathlib.Nat.{pow-suc}
use native.Mathlib.Omega.{arith}
use dei_chain.Base.Tests.{◌==◌, ltb, if◌then◌else◌}
use dei_chain.Base.Lists.{length, take, drop, take-append, drop-append}
use dei_chain.Base.Int.{ℤ, pos, negsuc, pos_part, neg_part}

-- The C string that a char array holds: the bytes before the first NUL. An array with no NUL is
-- taken to end where the field ends.
unfoldable pub c_string : List ℕ → List ℕ
c_string [] = []
c_string (c ∷ cs) = if c == 0 then [] else c ∷ c_string cs

unfoldable pub bytes_eq : List ℕ → List ℕ → Bool
bytes_eq [] [] = true
bytes_eq [] (b ∷ bs) = false
bytes_eq (a ∷ as') [] = false
bytes_eq (a ∷ as') (b ∷ bs) = a == b && bytes_eq as' bs

pub bytes_eq_iff : (a b : List ℕ) → (bytes_eq a b ≡ true) ↔ (a ≡ b)
unfolding bytes_eq
bytes_eq_iff [] [] = ground arith
bytes_eq_iff [] (b ∷ bs) = ground arith
bytes_eq_iff (a ∷ as') [] = ground arith
bytes_eq_iff (a ∷ as') (b ∷ bs) = ground (arith, bytes_eq_iff as' bs)

-- `strcmp(a, b) == 0`
unfoldable pub strcmp_eq : List ℕ → List ℕ → Bool
strcmp_eq a b = bytes_eq (c_string a) (c_string b)

-- `strlen`
unfoldable pub strlen : List ℕ → ℕ
strlen a = length (c_string a)

pub strcmp_eq_iff : (a b : List ℕ) → (strcmp_eq a b ≡ true) ↔ (c_string a ≡ c_string b)
unfolding strcmp_eq
strcmp_eq_iff a b = bytes_eq_iff (c_string a) (c_string b)

pub strcmp_eq_refl : (a : List ℕ) → strcmp_eq a a ≡ true
strcmp_eq_refl a = (strcmp_eq_iff a a).1 refl

pub strcmp_eq_sym : (a b : List ℕ) → strcmp_eq a b ≡ true → strcmp_eq b a ≡ true
strcmp_eq_sym a b h = (strcmp_eq_iff b a).1 (sym ((strcmp_eq_iff a b).0 h))

pub strcmp_eq_trans :
    (a b c : List ℕ) → strcmp_eq a b ≡ true → strcmp_eq b c ≡ true → strcmp_eq a c ≡ true
strcmp_eq_trans a b c h k =
    (strcmp_eq_iff a c).1 ((strcmp_eq_iff a b).0 h ∙ (strcmp_eq_iff b c).0 k)

pub strcmp_eq-strlen : (a b : List ℕ) → strcmp_eq a b ≡ true → strlen a ≡ strlen b
unfolding strlen
strcmp_eq-strlen a b h = ap length ((strcmp_eq_iff a b).0 h)

-- The `n` bytes of a word in memory, least significant first.
unfoldable pub word_bytes : ℕ → ℕ → List ℕ
word_bytes zero w = []
word_bytes (suc n) w = w % 256 ∷ word_bytes n (w / 256)

unfoldable pub bytes_word : List ℕ → ℕ
bytes_word [] = 0
bytes_word (b ∷ bs) = b + 256 * bytes_word bs

pub length-word_bytes : (n w : ℕ) → length (word_bytes n w) ≡ n
unfolding word_bytes
length-word_bytes zero w = refl
length-word_bytes (suc n) w = ap suc (length-word_bytes n (w / 256))

-- The two's complement pattern of an integer, modulo `m = 2 ^ w`, and the integer of a pattern.
unfoldable pub pattern_of : ℕ → ℤ → ℕ
pattern_of m (pos n) = n % m
pattern_of m (negsuc n) = m - 1 - n % m

unfoldable pub integer_of : ℕ → ℕ → ℤ
integer_of m p = if ltb p (m / 2) then pos p else negsuc (m - 1 - p)

-- The integers that a word of `m` patterns holds.
abbrev pub Fits : ℕ → ℤ → Type 0
Fits m z = (pos_part z < m / 2) × (neg_part z ≤ m / 2)

pub bytes_word-word_bytes : (n w : ℕ) → w < 256 ^ n → bytes_word (word_bytes n w) ≡ w
unfolding word_bytes bytes_word
bytes_word-word_bytes zero w h = omega arith
bytes_word-word_bytes (suc n) w h =
    omega (arith, pow-suc 256 n, bytes_word-word_bytes n (w / 256) (omega (arith, pow-suc 256 n)))

pub integer_of-pattern_of_int :
    (z : ℤ) → Fits (2 ^ 32) z → integer_of (2 ^ 32) (pattern_of (2 ^ 32) z) ≡ z
unfolding integer_of pattern_of
integer_of-pattern_of_int (pos n) h = ground arith
integer_of-pattern_of_int (negsuc n) h = ground arith

pub integer_of-pattern_of_time :
    (z : ℤ) → Fits (2 ^ 64) z → integer_of (2 ^ 64) (pattern_of (2 ^ 64) z) ≡ z
unfolding integer_of pattern_of
integer_of-pattern_of_time (pos n) h = ground arith
integer_of-pattern_of_time (negsuc n) h = ground arith

pub pattern_of-lt : (m : ℕ) (z : ℤ) → 0 < m → pattern_of m z < m
unfolding pattern_of
pattern_of-lt m (pos n) h = omega arith
pattern_of-lt m (negsuc n) h = omega arith

-- What is laid out in two parts of known size is read back part by part.
pub append_injective {ℓ} :
    {A : Type ℓ} (n : ℕ) (xs ys as' bs : List A)
    → length xs ≡ n
    → length ys ≡ n
    → xs ++ as' ≡ ys ++ bs
    → (xs ≡ ys) × (as' ≡ bs)
append_injective n xs ys as' bs hx hy e = (
  sym (take-append n xs as' hx) ∙ ap (take n) e ∙ take-append n ys bs hy,
  sym (drop-append n xs as' hx) ∙ ap (drop n) e ∙ drop-append n ys bs hy,
)

pub word_bytes_injective :
    (n v w : ℕ) → v < 256 ^ n → w < 256 ^ n → word_bytes n v ≡ word_bytes n w → v ≡ w
word_bytes_injective n v w hv hw e =
    sym (bytes_word-word_bytes n v hv) ∙ ap bytes_word e ∙ bytes_word-word_bytes n w hw

-- The patterns of two integers that fit tell them apart.
pub pattern_of_int_injective :
    (y z : ℤ)
    → Fits (2 ^ 32) y
    → Fits (2 ^ 32) z
    → pattern_of (2 ^ 32) y ≡ pattern_of (2 ^ 32) z
    → y ≡ z
pattern_of_int_injective y z hy hz e =
    sym (integer_of-pattern_of_int y hy)
    ∙ ap (integer_of (2 ^ 32)) e
    ∙ integer_of-pattern_of_int z hz

pub pattern_of_time_injective :
    (y z : ℤ)
    → Fits (2 ^ 64) y
    → Fits (2 ^ 64) z
    → pattern_of (2 ^ 64) y ≡ pattern_of (2 ^ 64) z
    → y ≡ z
pattern_of_time_injective y z hy hz e =
    sym (integer_of-pattern_of_time y hy)
    ∙ ap (integer_of (2 ^ 64)) e
    ∙ integer_of-pattern_of_time z hz

pub strcmp_eq_comm : (a b : List ℕ) → strcmp_eq a b ≡ strcmp_eq b a
strcmp_eq_comm a b = ground (arith, strcmp_eq_sym a b, strcmp_eq_sym b a)

-- Two strings that are equal compare alike with a third.
pub strcmp_eq_left : (a b c : List ℕ) → strcmp_eq a b ≡ true → strcmp_eq a c ≡ strcmp_eq b c
strcmp_eq_left a b c h =
    ground (arith, strcmp_eq_sym a b, strcmp_eq_trans a b c, strcmp_eq_trans b a c)
