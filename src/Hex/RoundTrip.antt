-- ===== src/Hex/RoundTrip.antt =====
-- The hexadecimal strings of strutl.c: printing and reading, and reading of any string.
use libaacs.Common.{
  ℕ, zero, suc, ◌+◌, ◌*◌, ◌/◌, ◌%◌, ◌^◌, ◌<◌, ◌≡◌, refl, ap, ◌⊎◌, inl, inr, Bool, true, false, ◌||◌,
  Option, none, some, List, [], ◌∷◌, arith, ◌==◌, if◌then◌else◌, Bool-cases, length, take, All, Run,
  ok, fault, stuck, ◌>>=◌, Returns, IsByte,
}
use libaacs.Hex.{
  hex_value, hex_pair, hexstring_to_hex_array, nibble, str_print_hex, str_skip_space, is_xdigit,
  str_is_hex_string, str_get_hex_string,
}

pub hex_value-nibble : (i : ℕ) → i < 16 → hex_value (nibble i) ≡ some i
unfolding hex_value nibble
hex_value-nibble i h = ground arith

-- A printed byte string is read back as it was.
pub hexstring_to_hex_array-str_print_hex :
    (xs : List ℕ)
    → All IsByte xs
    → hexstring_to_hex_array (length xs) (str_print_hex xs) ≡ ok (xs, true)
unfolding hexstring_to_hex_array str_print_hex
hexstring_to_hex_array-str_print_hex [] bytes = refl
hexstring_to_hex_array-str_print_hex (x ∷ xs) (byte_x, bytes) =
    let whole : x / 2 ^ 4 % 16 * 16 + x % 16 ≡ x = omega arith in
    rw
      (
        hex_value-nibble (x / 2 ^ 4 % 16) (omega arith),
        hex_value-nibble (x % 16) (omega arith),
        hexstring_to_hex_array-str_print_hex xs bytes,
      )
      (unfold hex_pair in rw whole refl)

-- A string that ends: it has a 0.
abbrev pub IsTerminated : List ℕ → Type 0
IsTerminated [] = ⊥
IsTerminated (c ∷ s) = (c ≡ 0) ⊎ IsTerminated s

str_skip_space-IsTerminated :
    (p : List ℕ) → IsTerminated p → Returns IsTerminated (str_skip_space p)
unfolding str_skip_space
str_skip_space-IsTerminated [] t = absurd t
str_skip_space-IsTerminated (c ∷ s) (inl e) = rw e (inl refl)
str_skip_space-IsTerminated (c ∷ s) (inr t) =
    elim (Bool-cases (c == 32 || c == 13 || c == 10 || c == 9)) [
      | inl space ↦ rw space (str_skip_space-IsTerminated s t)
      | inr other ↦ rw other (inr t)
    ]

-- `n` hexadecimal digits.
abbrev pub AreDigits : ℕ → List ℕ → Type 0
AreDigits n s = All (λ c. is_xdigit c ≡ true) s × (length s ≡ n)

pub zero_no_digit : is_xdigit 0 ≡ false
unfolding is_xdigit hex_value
zero_no_digit = refl

digits_in_front :
    (n : ℕ) (s : List ℕ)
    → IsTerminated s
    → Returns (λ good. good ≡ true → AreDigits n (take n s)) (str_is_hex_string n s)
unfolding str_is_hex_string
digits_in_front n [] t = absurd t
digits_in_front zero (c ∷ s) t = λ good. (record {}, refl)
digits_in_front (suc n) (c ∷ s) (inl e) = rw (e, zero_no_digit) (λ good. absurd cc)
digits_in_front (suc n) (c ∷ s) (inr t) = by_first (is_xdigit c) refl (digits_in_front n s t)
  where
    one_more :
        is_xdigit c ≡ true
        → (m : Run Bool) → Returns (λ good. good ≡ true → AreDigits n (take n s)) m
        → Returns (λ good. good ≡ true → AreDigits (suc n) (c ∷ take n s)) m
    one_more digit (ok good) h = λ e. let (all, len) = h e in ((digit, all), ap suc len)
    one_more digit fault h = absurd h
    one_more digit stuck h = absurd h

    by_first :
        (b : Bool)
        → is_xdigit c ≡ b
        → Returns (λ good. good ≡ true → AreDigits n (take n s)) (str_is_hex_string n s)
        → Returns
            (λ good. good ≡ true → AreDigits (suc n) (c ∷ take n s))
            (if b then str_is_hex_string n s else ok false)
    by_first true digit h = one_more digit (str_is_hex_string n s) h
    by_first false other h = λ good. absurd cc

abbrev pub OptDigits : ℕ → Option (List ℕ) → Type 0
OptDigits n none = Unit {0}
OptDigits n (some s) = AreDigits n s

-- On any string that ends `str_get_hex_string` returns, without a read behind the end, and gives NULL
-- or as many digits as it was asked for.
pub str_get_hex_string-OptDigits :
    (p : List ℕ) (n : ℕ) → IsTerminated p → Returns (OptDigits n) (str_get_hex_string p n)
unfolding str_get_hex_string
str_get_hex_string-OptDigits p n t =
    after_space (str_skip_space p) (str_skip_space-IsTerminated p t)
  where
    if_good :
        (s : List ℕ) (m : Run Bool)
        → Returns (λ good. good ≡ true → AreDigits n (take n s)) m
        → Returns (OptDigits n) (m >>= λ good. if good then ok (some (take n s)) else ok none)
    if_good s (ok true) h = h refl
    if_good s (ok false) h = record {}
    if_good s fault h = absurd h
    if_good s stuck h = absurd h

    after_space :
        (m : Run (List ℕ))
        → Returns IsTerminated m
        → Returns (OptDigits n) (
            m >>= λ s.
            str_is_hex_string n s >>= λ good. if good then ok (some (take n s)) else ok none)
    after_space (ok s) h = if_good s (str_is_hex_string n s) (digits_in_front n s h)
    after_space fault h = absurd h
    after_space stuck h = absurd h
