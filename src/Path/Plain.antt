-- ===== src/Path/Plain.antt =====
-- Paths without links.
use libaacs.Common.{
  ℕ, zero, suc, ◌+◌, ◌-◌, ◌*◌, ◌≤◌, ◌<◌, ◌≡◌, refl, false, Option, some, List, [], ◌∷◌, ◌++◌, arith,
  ltb, leb, ◌==◌, lt→ltb, length, length-append, All, Run, ok, ◌>>=◌,
}
use mathlib.Core.List.{reverse, reverse_aux, append-nil}
use libaacs.Path.{
  not_link, Links, aacs_path_max, max_links, put, is_dot, is_dot_dot, Walk, copy, slash_unless,
  add_slash, follow, finish, go_on, resolve_link, walk, walk_from, rounds, aacs_resolve_path,
}
use libaacs.Path.Ends.{rounds_eq, length-reverse_aux}

-- A name that is not empty, has no separator, and does not start with a dot.
abbrev pub IsPlain : List ℕ → Type 0
IsPlain [] = ⊥
IsPlain (c ∷ s) = ((c == 46) ≡ false) × All (λ d. (d == 47) ≡ false) (c ∷ s)

abbrev pub NoLinks : Links → Type 0
NoLinks links = (p : List ℕ) → links.readlink p ≡ not_link

-- The names with a separator in front of each.
abbrev pub slashed : List (List ℕ) → List ℕ
slashed [] = []
slashed (name ∷ names) = 47 ∷ (name ++ slashed names)

-- Without the first separator.
abbrev joined : List (List ℕ) → List ℕ
joined [] = []
joined (name ∷ names) = name ++ slashed names

reverse_aux-append :
    (xs ys r : List ℕ) → reverse_aux (xs ++ ys) r ≡ reverse_aux ys (reverse_aux xs r)
reverse_aux-append [] ys r = refl
reverse_aux-append (x ∷ xs) ys r = reverse_aux-append xs ys (x ∷ r)

pub reverse_aux_twice :
    (xs r ys : List ℕ) → reverse_aux (reverse_aux xs r) ys ≡ reverse_aux r (xs ++ ys)
reverse_aux_twice [] r ys = refl
reverse_aux_twice (x ∷ xs) r ys = reverse_aux_twice xs (x ∷ r) ys

is_dot_dot-first : (c : ℕ) (s : List ℕ) → (c == 46) ≡ false → is_dot_dot (c ∷ s) ≡ false
unfolding is_dot_dot
is_dot_dot-first c [] h = refl
is_dot_dot-first c (d ∷ s) h = rw h refl

is_dot-first : (c : ℕ) (s : List ℕ) → (c == 46) ≡ false → is_dot (c ∷ s) ≡ false
unfolding is_dot
is_dot-first c s h = rw h refl

put-room : (c : ℕ) (r : List ℕ) → length r < aacs_path_max → put c r ≡ ok (c ∷ r)
unfolding put
put-room c r h = rw (lt→ltb (length r) aacs_path_max h) refl

slashed-end :
    (names : List (List ℕ)) (offset : ℕ) (r : List ℕ)
    → copy (slashed names) offset r
      ≡ ok (some (record { path = slashed names; offset = offset; resolved = r }))
unfolding copy
slashed-end [] offset r = refl
slashed-end (name ∷ names) offset r = refl

-- A name is copied up to the next separator, where the copy stops.
pub copy-name :
    (name tail : List ℕ) (offset m : ℕ) (r : List ℕ)
    → ((o : ℕ) (q : List ℕ)
        → copy tail o q ≡ ok (some (record { path = tail; offset = o; resolved = q })))
    → All (λ d. (d == 47) ≡ false) name
    → offset + length name ≡ m
    → m < 1023
    → length r + length name < aacs_path_max
    → copy (name ++ tail) offset r
      ≡ ok (some (record { path = tail; offset = m; resolved = reverse_aux name r }))
unfolding copy
copy-name [] tail offset m r stops plain e far room =
    let same : offset ≡ m = omega arith in rw (← same) (stops offset r)
copy-name (c ∷ s) tail offset m r stops (other, plain) e far room =
    let near : leb (aacs_path_max - 1) offset ≡ false = ground arith in
    rw (other, near, put-room c r (omega arith))
      (copy-name s tail (offset + 1) m (c ∷ r) stops plain (omega arith) far (omega arith))

pub finish-room : (r : List ℕ) → length r < aacs_path_max → finish r ≡ ok (reverse r)
unfolding finish
finish-room r h = rw (lt→ltb (length r) aacs_path_max h) refl

-- Behind a name without a link the loop goes on.
resolve_link-plain :
    (links : Links) (n : ℕ) (next : Walk → Run (Option (List ℕ))) (w : Walk)
    → NoLinks links
    → n ≤ max_links
    → length w.resolved < aacs_path_max
    → resolve_link links n next (some w) ≡ (add_slash w >>= next)
unfolding resolve_link follow go_on
resolve_link-plain links n next w plain few room =
    let count : ltb max_links n ≡ false = ground arith in
    rw (count, finish-room w.resolved room, plain (reverse w.resolved)) refl

-- One name.
walk-name :
    (links : Links) (fuel n c : ℕ) (s : List ℕ) (names : List (List ℕ)) (offset m : ℕ) (r : List ℕ)
    → NoLinks links
    → IsPlain (c ∷ s)
    → n ≤ max_links
    → offset + length (c ∷ s) ≡ m
    → m < 1023
    → length r + length (c ∷ s) < aacs_path_max
    → walk links (suc fuel) n (c ∷ (s ++ slashed names)) offset r ≡ (
        add_slash (record { path = slashed names; offset = m; resolved = reverse_aux (c ∷ s) r })
        >>= λ w. walk links fuel (n + 1) w.path w.offset w.resolved)
unfolding walk
walk-name links fuel n c s names offset m r free (dot, plain) few e far room =
    rw
      (
        plain.0,
        is_dot-first c (s ++ slashed names) dot,
        is_dot_dot-first c (s ++ slashed names) dot,
        copy-name (c ∷ s) (slashed names) offset m r (slashed-end names) plain e far room,
      )
      (resolve_link-plain links n _ _ free few (omega (arith, length-reverse_aux (c ∷ s) r)))

walk-plain :
    (links : Links) (names : List (List ℕ)) (fuel n offset : ℕ) (r : List ℕ)
    → NoLinks links
    → All IsPlain names
    → n + length names ≤ 33
    → 2 * length names < fuel
    → offset + length (joined names) < 1023
    → length r + length (joined names) < aacs_path_max
    → walk links fuel n (joined names) offset r ≡ ok (some (reverse (reverse_aux (joined names) r)))
unfolding walk add_slash slash_unless
walk-plain links names zero n offset r free plain few enough far room = absurd (omega arith)
walk-plain links [] (suc fuel) n offset r free plain few enough far room =
    rw (finish-room r (omega arith)) refl
walk-plain links ([] ∷ names) (suc fuel) n offset r free (bad, plain) few enough far room =
    absurd bad
walk-plain links ((c ∷ s) ∷ names) (suc zero) n offset r free plain few enough far room =
    absurd (omega arith)
walk-plain links ((c ∷ s) ∷ []) (suc (suc fuel)) n offset r free (name, plain) few enough far room =
    let size = length-append s [] in
    rw
      (
        walk-name links (suc fuel) n c s [] offset (offset + length (c ∷ s)) r free name
            (omega arith) refl (omega arith) (omega arith),
        finish-room (reverse_aux (c ∷ s) r) (omega (arith, length-reverse_aux (c ∷ s) r)),
        reverse_aux-append s [] (c ∷ r),
      )
      refl
walk-plain links ((c ∷ s) ∷ (t ∷ names)) (suc (suc fuel)) n offset r free (name, plain) few enough
      far room =
    let size = length-append s (slashed (t ∷ names)) in
    let done = length-reverse_aux (c ∷ s) r in
    rw
      (
        walk-name links (suc fuel) n c s (t ∷ names) offset (offset + length (c ∷ s)) r free name
            (omega arith) refl (omega arith) (omega arith),
        put-room 47 (reverse_aux (c ∷ s) r) (omega arith),
        walk-plain links (t ∷ names) fuel (n + 1) (offset + length (c ∷ s) + 1)
            (47 ∷ reverse_aux (c ∷ s) r) free plain (omega arith) (omega arith) (omega arith)
            (omega arith),
        reverse_aux-append s (slashed (t ∷ names)) (c ∷ r),
      )
      refl

-- If nothing is a link, an absolute path of 33 names at most and fewer than 1022 characters,
-- without empty names and names that start with a dot, is given back as it is.
pub aacs_resolve_path-slashed :
    (links : Links) (name : List ℕ) (names : List (List ℕ))
    → NoLinks links
    → All IsPlain (name ∷ names)
    → length (name ∷ names) ≤ 33
    → length (slashed (name ∷ names)) < 1022
    → aacs_resolve_path links (slashed (name ∷ names)) ≡ ok (some (slashed (name ∷ names)))
unfolding aacs_resolve_path walk_from
aacs_resolve_path-slashed links name names free plain few short =
    let fits : leb (aacs_path_max - 2) (length (slashed (name ∷ names))) ≡ false =
      ground (arith, short) in
    rw
      (
        fits,
        walk-plain links (name ∷ names) rounds 0 1 (47 ∷ []) free plain (omega arith)
            (omega (arith, rounds_eq)) (omega arith) (omega arith),
        reverse_aux_twice (name ++ slashed names) (47 ∷ []) [],
        append-nil (name ++ slashed names),
      )
      refl
