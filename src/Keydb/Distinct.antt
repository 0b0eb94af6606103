-- ===== src/Keydb/Distinct.antt =====
-- The list of processing keys that is read from files.
use libaacs.Common.{
  ℕ, zero, suc, ◌+◌, ◌*◌, ◌≤◌, ◌≡◌, refl, ap, inl, inr, Bool, true, false, ◌||◌, Option, none, some,
  List, [], ◌∷◌, ◌++◌, arith, ltb, ◌==◌, Bool-cases, length, All, Run, ok, fault, stuck, ◌>>=◌,
  Returns, byte_at, same_bytes, same_bytes_refl, sym, ◌∙◌,
}
use libaacs.Common.Partial.{Returns-then}
use libaacs.Hex.{
  str_get_hex_string, hexstring_to_hex_array, hex_pair, hex_value, is_xdigit, str_next_line,
  skip_line, skip_breaks,
}
use libaacs.Hex.RoundTrip.{IsTerminated, OptDigits, str_get_hex_string-OptDigits}
use libaacs.Keydb.Files.{
  load_file, is_duplicate_pk, add_pk, add_pk_string, pk_lines, pks_in, parse_pk_file,
}

-- None of the keys is this one.
abbrev pub IsNew : List ℕ → List (List ℕ) → Type 0
IsNew key pkl = All (λ other. ¬ other ≡ key) pkl

-- Keys of 16 bytes, no two of which are the same.
abbrev pub AreKeys : List (List ℕ) → Type 0
AreKeys [] = Unit
AreKeys (key ∷ pkl) = (length key ≡ 16) × IsNew key pkl × AreKeys pkl

-- The test of the source goes through the whole list.
is_duplicate_pk-IsNew :
    (pkl : List (List ℕ)) (key : List ℕ) → is_duplicate_pk pkl key ≡ false → IsNew key pkl
unfolding is_duplicate_pk
is_duplicate_pk-IsNew [] key h = record {}
is_duplicate_pk-IsNew (other ∷ pkl) key h = elim (Bool-cases (same_bytes other key)) [
  | inl same ↦ absurd (true_not_false (rw same at h))
  | inr differs ↦ (
    λ e. true_not_false (sym (same_bytes_refl key) ∙ ap (λ k. same_bytes k key) (sym e) ∙ differs),
    is_duplicate_pk-IsNew pkl key (rw differs at h),
  )
]
  where
    true_not_false : ◌≡◌ {A = Bool} true false → ⊥
    true_not_false e = absurd cc

abbrev pub HasLength : ℕ → List ℕ × Bool → Type 0
HasLength n (key, converted) = (converted ≡ true) × (length key ≡ n)

pub is_xdigit-some : (c : ℕ) → is_xdigit c ≡ true → (v : ℕ) × (hex_value c ≡ some v)
unfolding is_xdigit
is_xdigit-some c digit = by_value (hex_value c) refl digit
  where
    by_value :
        (o : Option ℕ)
        → hex_value c ≡ o
        → elim o [ none ↦ false | some _ ↦ true ] ≡ true
        → (v : ℕ) × (hex_value c ≡ some v)
    by_value none e h = absurd cc
    by_value (some v) e h = (v, e)

pub hexstring_to_hex_array-HasLength :
    (n : ℕ) (s : List ℕ)
    → All (λ c. is_xdigit c ≡ true) s
    → length s ≡ n * 2
    → Returns (HasLength n) (hexstring_to_hex_array n s)
unfolding hexstring_to_hex_array
hexstring_to_hex_array-HasLength zero s all len = (refl, refl)
hexstring_to_hex_array-HasLength (suc n) [] all len = absurd (omega arith)
hexstring_to_hex_array-HasLength (suc n) (a ∷ []) all len = absurd (omega arith)
hexstring_to_hex_array-HasLength (suc n) (a ∷ b ∷ s) (hi, (lo, all)) len =
    let (v, e) = is_xdigit-some a hi in
    let (u, f) = is_xdigit-some b lo in
    rw (e, f)
      (unfold hex_pair in
        one_more (v * 16 + u) (hexstring_to_hex_array n s)
          (hexstring_to_hex_array-HasLength n s all (omega arith)))
  where
    one_more :
        (x : ℕ) (m : Run (List ℕ × Bool))
        → Returns (HasLength n) m
        → Returns (HasLength (suc n)) (m >>= λ r. ok (x ∷ r.0, r.1))
    one_more x (ok (key, converted)) (good, len) = (good, ap suc len)
    one_more x fault h = absurd h
    one_more x stuck h = absurd h

add_pk-AreKeys :
    (pkl : List (List ℕ)) (r : List ℕ × Bool)
    → AreKeys pkl
    → HasLength 16 r
    → AreKeys (add_pk pkl r).0
unfolding add_pk
add_pk-AreKeys pkl (key, false) keys h = keys
add_pk-AreKeys pkl (key, true) keys (good, len) = elim (Bool-cases (is_duplicate_pk pkl key)) [
  | inl same ↦ rw same keys
  | inr other ↦ rw other (len, is_duplicate_pk-IsNew pkl key other, keys)
]

abbrev pub Keys : List (List ℕ) × ℕ → Type 0
Keys r = AreKeys r.0

-- A string that ends, and is no longer than `n`.
abbrev pub EndsWithin : ℕ → List ℕ → Type 0
EndsWithin n s = IsTerminated s × (length s ≤ n)

pub skip_breaks-EndsWithin :
    (p : List ℕ) (n : ℕ) → IsTerminated p → length p ≤ n → Returns (EndsWithin n) (skip_breaks p)
unfolding skip_breaks
skip_breaks-EndsWithin [] n t h = absurd t
skip_breaks-EndsWithin (c ∷ s) n (inl e) h = rw e (inl refl, h)
skip_breaks-EndsWithin (c ∷ s) n (inr t) h = elim (Bool-cases (c == 13 || c == 10 || c == 32)) [
  | inl skipped ↦ rw skipped (skip_breaks-EndsWithin s n t (omega arith))
  | inr kept ↦ rw kept (inr t, h)
]

pub skip_line-EndsWithin :
    (p : List ℕ) → IsTerminated p → Returns (EndsWithin (length p)) (skip_line p)
unfolding skip_line
skip_line-EndsWithin [] t = absurd t
skip_line-EndsWithin (c ∷ s) (inl e) = rw e (inl refl, omega arith)
skip_line-EndsWithin (c ∷ s) (inr t) = elim (Bool-cases (c == 0 || c == 13 || c == 10)) [
  | inl stops ↦ rw stops (inr t, omega arith)
  | inr goes ↦ rw goes (longer (skip_line s) (skip_line-EndsWithin s t))
]
  where
    longer :
        (m : Run (List ℕ))
        → Returns (EndsWithin (length s)) m
        → Returns (EndsWithin (suc (length s))) m
    longer (ok q) (end, h) = (end, omega arith)
    longer fault h = h
    longer stuck h = h

-- The next line starts behind the first character, if that is not the end.
pub str_next_line-EndsWithin :
    (c : ℕ) (s : List ℕ)
    → IsTerminated s
    → (c == 0) ≡ false
    → Returns (EndsWithin (length s)) (str_next_line (c ∷ s))
unfolding str_next_line
str_next_line-EndsWithin c s t more = elim (Bool-cases (c == 13 || c == 10)) [
  | inl break ↦
      let stops : (c == 0 || c == 13 || c == 10) ≡ true = ground arith in
      let skipped : (c == 13 || c == 10 || c == 32) ≡ true = ground arith in
      rw stops
        (unfold skip_breaks in rw skipped (skip_breaks-EndsWithin s (length s) t (omega arith)))
  | inr other ↦
      let goes : (c == 0 || c == 13 || c == 10) ≡ false = ground arith in
      rw goes (breaks (skip_line s) (skip_line-EndsWithin s t))
]
  where
    breaks :
        (m : Run (List ℕ))
        → Returns (EndsWithin (length s)) m
        → Returns (EndsWithin (length s)) (m >>= λ q. skip_breaks q)
    breaks (ok q) (end, h) = skip_breaks-EndsWithin q (length s) end h
    breaks fault h = h
    breaks stuck h = h

pub ends_in_zero : (bytes : List ℕ) → IsTerminated (bytes ++ (0 ∷ []))
ends_in_zero [] = inl refl
ends_in_zero (c ∷ s) = inr (ends_in_zero s)

-- What holds of a list, and stays true with each key that is added, holds of the list that is read.
module _ (P : List (List ℕ) → Type 0)
    (add : (pkl : List (List ℕ)) (r : List ℕ × Bool)
      → P pkl
      → HasLength 16 r
      → P (add_pk pkl r).0) where
  abbrev pub Holds : List (List ℕ) × ℕ → Type 0
  Holds r = P r.0

  add_pk_string-Holds :
      (pkl : List (List ℕ)) (o : Option (List ℕ))
      → P pkl
      → OptDigits 32 o
      → Returns Holds (add_pk_string pkl o)
  unfolding add_pk_string
  add_pk_string-Holds pkl none keys d = keys
  add_pk_string-Holds pkl (some s) keys (all, len) =
      added (hexstring_to_hex_array 16 s) (hexstring_to_hex_array-HasLength 16 s all len)
    where
      added :
          (m : Run (List ℕ × Bool))
          → Returns (HasLength 16) m
          → Returns Holds (m >>= λ r. ok (add_pk pkl r))
      added (ok r) h = add pkl r keys h
      added fault h = absurd h
      added stuck h = absurd h

  pk_lines-Holds :
      (fuel : ℕ) (pkl : List (List ℕ)) (p : List ℕ)
      → P pkl
      → IsTerminated p
      → length p ≤ fuel
      → Returns Holds (pk_lines fuel pkl p)
  unfolding pk_lines byte_at
  pk_lines-Holds fuel pkl [] keys t h = absurd t
  pk_lines-Holds zero pkl (c ∷ s) keys t h = absurd (omega arith)
  pk_lines-Holds (suc fuel) pkl (c ∷ s) keys t h = elim (Bool-cases (c == 0)) [
    | inl end ↦ rw end keys
    | inr more ↦ rw more (
        Returns-then (OptDigits 32) Holds (str_get_hex_string (c ∷ s) 32) _
          (str_get_hex_string-OptDigits (c ∷ s) 32 t)
          (λ str digits.
            Returns-then Holds Holds (add_pk_string pkl str) _
              (add_pk_string-Holds pkl str keys digits)
              (λ r added.
                Returns-then (EndsWithin (length s)) Holds (str_next_line (c ∷ s)) _
                  (str_next_line-EndsWithin c s (behind t more) more)
                  (λ next ends.
                    Returns-then Holds Holds (pk_lines fuel r.0 next) _
                      (pk_lines-Holds fuel r.0 next added ends.0 (omega (arith, ends.1)))
                      (λ q all. all)))))
  ]
    where
      behind : IsTerminated (c ∷ s) → (c == 0) ≡ false → IsTerminated s
      behind (inl e) more = absurd (ground arith)
      behind (inr t) more = t

  pks_in-Holds :
      (pkl : List (List ℕ)) (bytes : List ℕ) → P pkl → Returns Holds (pks_in pkl (load_file bytes))
  unfolding load_file pks_in
  pks_in-Holds pkl bytes keys =
      elim (Bool-cases (ltb (length bytes) 20 || ltb 65535 (length bytes))) [
        | inl bad ↦ rw bad keys
        | inr good ↦ rw good (
            pk_lines-Holds (length (bytes ++ (0 ∷ []))) pkl (bytes ++ (0 ∷ [])) keys
              (ends_in_zero bytes) (omega arith))
      ]

  pub parse_pk_file-Holds :
      (pkl : List (List ℕ)) (bytes : List ℕ) → P pkl → Returns Holds (parse_pk_file pkl bytes)
  unfolding parse_pk_file
  parse_pk_file-Holds pkl bytes keys = pks_in-Holds pkl bytes keys

-- Any file of processing keys is read to an end, without a read outside of it, and a list of keys
-- of 16 bytes that are all different stays one.
pub parse_pk_file-Keys :
    (pkl : List (List ℕ)) (bytes : List ℕ) → AreKeys pkl → Returns Keys (parse_pk_file pkl bytes)
unfolding parse_pk_file
parse_pk_file-Keys pkl bytes keys = pks_in-Holds AreKeys add_pk-AreKeys pkl bytes keys
