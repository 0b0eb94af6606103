-- ===== src/Path/Ends.antt =====
-- The loop of the resolution of a path ends, whatever links there are.
use libaacs.Common.{
  ℕ, zero, suc, ◌+◌, ◌-◌, ◌*◌, ◌≤◌, ◌<◌, ◌≡◌, refl, inl, inr, Option, none, some, List, [], ◌∷◌,
  ◌++◌, arith, ltb, leb, ◌==◌, if◌then◌else◌, Bool-cases, length, drop, length-append, Run, ok,
  fault, length-drop,
}
use libaacs.Common.Partial.{Ends, Ends-then}
use mathlib.Core.List.{reverse, reverse_aux}
use libaacs.Path.{
  Link, link_failed, not_link, link_to, Links, aacs_path_max, max_links, put, is_dot, is_dot_dot,
  up, back, parent, Walk, copy, slash_unless, add_slash, link_start, follow, finish, go_on,
  resolve_link, walk, end_with_slash, start_at, walk_from, rounds, aacs_resolve_path,
}

abbrev pub Any {ℓ} : {A : Type ℓ} → A → Type 0
Any a = Unit {0}

put-Ends : (c : ℕ) (r : List ℕ) → Ends Any (put c r)
unfolding put
put-Ends c r = elim (Bool-cases (ltb (length r) aacs_path_max)) [
  | inl room ↦ rw room (record {})
  | inr full ↦ rw full (record {})
]

up-Ends : (r : List ℕ) → Ends Any (up r)
unfolding up
up-Ends [] = record {}
up-Ends (c ∷ []) = record {}
up-Ends (c ∷ d ∷ r) = elim (Bool-cases (d == 47)) [
  | inl here ↦ rw here (record {})
  | inr further ↦ rw further (up-Ends (d ∷ r))
]

back-Ends : (r : List ℕ) → Ends Any (back r)
unfolding back
back-Ends [] = record {}
back-Ends (c ∷ r) = elim (Bool-cases (c == 47)) [
  | inl here ↦ rw here (record {})
  | inr further ↦ rw further (back-Ends r)
]

parent-Ends : (r : List ℕ) → Ends Any (parent r)
unfolding parent
parent-Ends r = elim (Bool-cases (length r == 1)) [
  | inl root ↦ rw root (record {})
  | inr below ↦ rw below (up-Ends r)
]

-- At most `n` characters are left.
abbrev Leaves : ℕ → Option Walk → Type 0
Leaves n none = Unit {0}
Leaves n (some w) = length w.path ≤ n

copy-Leaves :
    (path : List ℕ) (n offset : ℕ) (r : List ℕ)
    → length path ≤ n
    → Ends (Leaves n) (copy path offset r)
unfolding copy
copy-Leaves [] n offset r h = h
copy-Leaves (c ∷ s) n offset r h = elim (Bool-cases (c == 47)) [
  | inl slash ↦ rw slash h
  | inr other ↦ elim (Bool-cases (leb (aacs_path_max - 1) offset)) [
    | inl full ↦ rw (other, full) (record {})
    | inr room ↦
        rw (other, room)
          (Ends-then Any (Leaves n) (put c r) _ (put-Ends c r)
            (λ q done. copy-Leaves s n (offset + 1) q (omega arith)))
  ]
]

link_start-Ends : (target r : List ℕ) → Ends Any (link_start target r)
unfolding link_start
link_start-Ends [] r = back-Ends r
link_start-Ends (c ∷ target) r = elim (Bool-cases (c == 47)) [
  | inl root ↦ rw root (record {})
  | inr below ↦ rw below (back-Ends r)
]

follow-Leaves : (link : Link) (w : Walk) → length w.path ≤ 1023 → Ends (Leaves 1023) (follow link w)
unfolding follow
follow-Leaves link_failed w h = record {}
follow-Leaves not_link w h = h
follow-Leaves (link_to target) w h = elim (Bool-cases (leb (aacs_path_max - 1) (length target))) [
  | inl long ↦ rw long (record {})
  | inr short ↦ rw short (
      Ends-then Any (Leaves 1023) (link_start target w.resolved) _
        (link_start-Ends target w.resolved) (λ start done. fits start))
]
  where
    fits :
        (start : List ℕ)
        → Ends (Leaves 1023) (
            if leb (aacs_path_max - 1) (w.offset + length target)
            then ok none
            else if leb aacs_path_max (length target + length w.path)
            then fault
            else ok (some (record { path = target ++ w.path; offset = 0; resolved = start })))
    fits start = elim (Bool-cases (leb (aacs_path_max - 1) (w.offset + length target))) [
      | inl far ↦ rw far (record {})
      | inr near ↦ elim (Bool-cases (leb aacs_path_max (length target + length w.path))) [
        | inl past ↦ rw (near, past) (record {})
        | inr room ↦ rw (near, room) (ground (arith, length-append target w.path))
      ]
    ]

pub length-reverse_aux : (xs ys : List ℕ) → length (reverse_aux xs ys) ≡ length xs + length ys
length-reverse_aux [] ys = omega arith
length-reverse_aux (x ∷ xs) ys = omega (arith, length-reverse_aux xs (x ∷ ys))

-- A string that fits into the buffer with its 0.
abbrev pub Fits : Option (List ℕ) → Type 0
Fits none = Unit {0}
Fits (some p) = length p < aacs_path_max

finish-Ends : (r : List ℕ) → Ends (λ p. length p < aacs_path_max) (finish r)
unfolding finish
finish-Ends r = elim (Bool-cases (ltb (length r) aacs_path_max)) [
  | inl room ↦ rw room (ground (arith, length-reverse_aux r []))
  | inr full ↦ rw full (record {})
]

slash_unless-Ends : (path r : List ℕ) → Ends Any (slash_unless path r)
unfolding slash_unless
slash_unless-Ends [] r = record {}
slash_unless-Ends (c ∷ path) r = put-Ends 47 r

abbrev LeavesAll : ℕ → Walk → Type 0
LeavesAll n w = length w.path ≤ n

add_slash-LeavesAll : (w : Walk) → length w.path ≤ 1023 → Ends (LeavesAll 1023) (add_slash w)
unfolding add_slash
add_slash-LeavesAll w h =
    Ends-then Any (LeavesAll 1023) (slash_unless w.path w.resolved) _
      (slash_unless-Ends w.path w.resolved) (λ r done. h)

go_on-Ends :
    (next : Walk → Run (Option (List ℕ))) (o : Option Walk)
    → Leaves 1023 o
    → ((w : Walk) → length w.path ≤ 1023 → Ends Fits (next w))
    → Ends Fits (go_on next o)
unfolding go_on
go_on-Ends next none left h = record {}
go_on-Ends next (some w) left h =
    Ends-then (LeavesAll 1023) Fits (add_slash w) next (add_slash-LeavesAll w left) h

-- A component is followed by the rest of the loop, which is told how much is left.
resolve_link-Ends :
    (links : Links) (n : ℕ) (next : Walk → Run (Option (List ℕ))) (o : Option Walk)
    → Leaves 1023 o
    → (n ≤ max_links → (w : Walk) → length w.path ≤ 1023 → Ends Fits (next w))
    → Ends Fits (resolve_link links n next o)
unfolding resolve_link go_on add_slash
resolve_link-Ends links n next none left h = record {}
resolve_link-Ends links n next (some w) left h = elim (Bool-cases (ltb max_links n)) [
  | inl many ↦ rw many (record {})
  | inr few ↦ rw few (
      Ends-then (λ p. length p < aacs_path_max) Fits (finish w.resolved) _ (finish-Ends w.resolved)
        (λ name fits.
          Ends-then (Leaves 1023) Fits (follow (links.readlink name) w) _
            (follow-Leaves (links.readlink name) w left)
            (λ o less. go_on-Ends next o less (h (ground arith)))))
]

walk-Ends :
    (links : Links) (fuel n : ℕ) (path : List ℕ) (offset : ℕ) (resolved : List ℕ)
    → length path ≤ 1023
    → n ≤ 33
    → (33 - n) * 1024 + length path < fuel
    → Ends Fits (walk links fuel n path offset resolved)
unfolding walk
walk-Ends links zero n path offset r short few h = absurd (omega arith)
walk-Ends links (suc fuel) n [] offset r short few h =
    Ends-then (λ p. length p < aacs_path_max) Fits (finish r) _ (finish-Ends r) (λ p fits. fits)
walk-Ends links (suc fuel) n (c ∷ s) offset r short few h = elim (Bool-cases (c == 47)) [
  | inl slash ↦ rw slash (walk-Ends links fuel n s (offset + 1) r (omega arith) few (omega arith))
  | inr other ↦ elim (Bool-cases (is_dot (c ∷ s))) [
    | inl dot ↦
        rw (other, dot) (walk-Ends links fuel n s (offset + 1) r (omega arith) few (omega arith))
    | inr more ↦ elim (Bool-cases (is_dot_dot (c ∷ s))) [
      | inl dots ↦
          rw (other, more, dots)
            (Ends-then Any Fits (parent r) _ (parent-Ends r) (λ q done.
              walk-Ends links fuel n (drop 1 s) (offset + 2) q (omega (arith, length-drop 1 s)) few
                (omega (arith, length-drop 1 s))))
      | inr name ↦
          rw (other, more, name)
            (Ends-then (Leaves 1023) Fits (copy (c ∷ s) offset r) _
              (copy-Leaves (c ∷ s) 1023 offset r short)
              (λ o left. resolve_link-Ends links n _ o left (λ count w rest.
                walk-Ends links fuel (n + 1) w.path w.offset w.resolved rest (omega arith)
                  (omega arith))))
    ]
  ]
]

end_with_slash-Ends : (r : List ℕ) → Ends Any (end_with_slash r)
unfolding end_with_slash
end_with_slash-Ends [] = record {}
end_with_slash-Ends (c ∷ r) = elim (Bool-cases (c == 47)) [
  | inl slash ↦ rw slash (record {})
  | inr other ↦
      rw other (Ends-then Any Any (put 47 (c ∷ r)) _ (put-Ends 47 (c ∷ r)) (λ q done. record {}))
]

start_at-Ends : (cwd : Option (List ℕ)) → Ends Any (start_at cwd)
unfolding start_at
start_at-Ends none = record {}
start_at-Ends (some cwd) = end_with_slash-Ends (reverse cwd)

pub rounds_eq : rounds ≡ 36_000
unfolding rounds
rounds_eq = refl

walk_from-Ends :
    (links : Links) (path : List ℕ) (offset : ℕ) (o : Option (List ℕ))
    → length path < 1022
    → Ends Fits (walk_from links rounds path offset o)
unfolding walk_from
walk_from-Ends links path offset none short = record {}
walk_from-Ends links path offset (some r) short =
    walk-Ends links rounds 0 path offset r (omega arith) (omega arith) (omega (arith, rounds_eq))

-- Whatever the path, the current directory and the links are, the loop does not run for ever, also
-- where links lead in a circle: the resolution returns, or goes outside of a buffer; a path that it
-- gives fits into the buffer with its 0.
pub aacs_resolve_path-Ends :
    (links : Links) (path : List ℕ) → Ends Fits (aacs_resolve_path links path)
unfolding aacs_resolve_path
aacs_resolve_path-Ends links [] = record {}
aacs_resolve_path-Ends links (c ∷ path) =
    elim (Bool-cases (leb (aacs_path_max - 2) (length (c ∷ path)))) [
      | inl long ↦ rw long (record {})
      | inr short ↦ elim (Bool-cases (c == 47)) [
        | inl slash ↦
            rw (short, slash) (walk_from-Ends links path 1 (some (47 ∷ [])) (ground arith))
        | inr relative ↦
            rw (short, relative)
              (Ends-then Any Fits (start_at links.getcwd) _ (start_at-Ends links.getcwd)
                (λ o done. walk_from-Ends links (c ∷ path) 0 o (ground arith)))
      ]
    ]
