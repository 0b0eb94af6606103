-- ===== src/Common/Slices.antt =====
-- Parts of byte strings: a slice is what `take` and `drop` leave.
use Prim.Native.Nat.{ℕ, zero, suc, ◌+◌, ◌≤◌}
use mathlib.Core.Path.{◌≡◌, refl, ap, ◌∙◌}
use mathlib.Core.List.{List, [], ◌∷◌, ◌++◌}
use native.Mathlib.Omega.{arith}
use libaacs.Common.Lists.{length, take, drop}
use libaacs.Common.Bytes.{byte, slice}

slice_tail : (x : ℕ) (xs : List ℕ) (p n : ℕ) → slice (x ∷ xs) (suc p) n ≡ slice xs p n
unfolding slice byte
slice_tail x xs p zero = refl
slice_tail x xs p (suc n) =
    let next : suc p + 1 ≡ suc (p + 1) = omega arith in rw (next, slice_tail x xs (p + 1) n) refl

slice_nothing : (n p q : ℕ) → slice [] p n ≡ slice [] q n
unfolding slice byte
slice_nothing zero p q = refl
slice_nothing (suc n) p q = ap (λ l. 0 ∷ l) (slice_nothing n (p + 1) (q + 1))

pub slice-drop : (xs : List ℕ) (p n : ℕ) → slice xs p n ≡ slice (drop p xs) 0 n
slice-drop xs zero n = refl
slice-drop [] (suc p) n = slice_nothing n (suc p) 0
slice-drop (x ∷ xs) (suc p) n = slice_tail x xs p n ∙ slice-drop xs p n

pub slice_front : (n : ℕ) (xs : List ℕ) → n ≤ length xs → slice xs 0 n ≡ take n xs
unfolding slice byte
slice_front zero xs h = refl
slice_front (suc n) [] h = absurd (omega arith)
slice_front (suc n) (x ∷ xs) h =
    let one : 0 + 1 ≡ 1 = omega arith in
    rw (one, slice_tail x xs 0 n) (ap (λ l. x ∷ l) (slice_front n xs (omega arith)))

pub take_whole : (xs : List ℕ) → take (length xs) xs ≡ xs
take_whole [] = refl
take_whole (x ∷ xs) = ap (λ l. x ∷ l) (take_whole xs)

pub take_append : (xs ys : List ℕ) → take (length xs) (xs ++ ys) ≡ xs
take_append [] ys = refl
take_append (x ∷ xs) ys = ap (λ l. x ∷ l) (take_append xs ys)

pub drop_append : (xs ys : List ℕ) → drop (length xs) (xs ++ ys) ≡ ys
drop_append [] ys = refl
drop_append (x ∷ xs) ys = drop_append xs ys
