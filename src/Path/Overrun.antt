-- ===== src/Path/Overrun.antt =====
-- A link in front of a long path.
use libaacs.Common.{
  ℕ, zero, suc, ◌+◌, ◌-◌, ◌≤◌, ◌<◌, ◌≡◌, refl, ap, ◌∙◌, inl, inr, true, false, some, List, [], ◌∷◌,
  ◌++◌, arith, leb, ◌==◌, Bool-cases, length, length-append, All, ok, fault,
}
use mathlib.Core.List.{reverse, reverse_aux, append-nil}
use libaacs.Path.{
  link_to, Links, aacs_path_max, is_end, is_dot, is_dot_dot, back, copy, link_start, follow,
  resolve_link, walk, walk_from, rounds, aacs_resolve_path,
}
use libaacs.Path.Ends.{rounds_eq, length-reverse_aux}
use libaacs.Path.Plain.{copy-name, finish-room, reverse_aux_twice}

-- A name that is not empty, has no separator, and is neither "." nor "..".
abbrev pub IsName : List ℕ → Type 0
IsName [] = ⊥
IsName (c ∷ s) =
    All (λ d. (d == 47) ≡ false) (c ∷ s) × (¬ c ∷ s ≡ 46 ∷ []) × (¬ c ∷ s ≡ 46 ∷ 46 ∷ [])

-- The path is short enough, and so is the target behind the name for the test of the source, but
-- the target and the rest are too long together.
abbrev pub IsTooLong : List ℕ → List ℕ → List ℕ → Type 0
IsTooLong name target rest =
    (length name + length rest < 1020)
    × (length name + length target < 1022)
    × (1023 ≤ length target + length rest)

back-name :
    (name r top : List ℕ)
    → All (λ d. (d == 47) ≡ false) name
    → back r ≡ ok top
    → back (reverse_aux name r) ≡ ok top
unfolding back
back-name [] r top plain e = e
back-name (c ∷ s) r top (other, plain) e = back-name s (c ∷ r) top plain (rw other e)

link_start-root :
    (name target : List ℕ)
    → All (λ d. (d == 47) ≡ false) name
    → link_start target (reverse_aux name (47 ∷ [])) ≡ ok []
unfolding link_start back
link_start-root name [] plain = back-name name (47 ∷ []) [] plain refl
link_start-root name (d ∷ target) plain = elim (Bool-cases (d == 47)) [
  | inl root ↦ rw root refl
  | inr below ↦ rw below (back-name name (47 ∷ []) [] plain refl)
]

is_dot-name : (c : ℕ) (s rest : List ℕ) → IsName (c ∷ s) → is_dot (c ∷ (s ++ (47 ∷ rest))) ≡ false
unfolding is_dot is_end
is_dot-name c [] rest ((first, more), dot, dots) = elim (Bool-cases (c == 46)) [
  | inl same ↦ let e : c ≡ 46 = ground arith in absurd (dot (ap (λ x. x ∷ []) e))
  | inr other ↦ rw other refl
]
is_dot-name c (d ∷ s) rest ((first, (second, more)), dot, dots) =
    rw second (elim (Bool-cases (c == 46)) [ inl same ↦ rw same refl | inr other ↦ rw other refl ])

is_dot_dot-name :
    (c : ℕ) (s rest : List ℕ) → IsName (c ∷ s) → is_dot_dot (c ∷ (s ++ (47 ∷ rest))) ≡ false
unfolding is_dot_dot is_end
is_dot_dot-name c [] rest name = elim (Bool-cases (c == 46)) [
  | inl same ↦ rw same refl
  | inr other ↦ rw other refl
]
is_dot_dot-name c (d ∷ []) rest (plain, dot, dots) = elim (Bool-cases (c == 46)) [
  | inl same ↦ elim (Bool-cases (d == 46)) [
    | inl again ↦
        let e : c ≡ 46 = ground arith in
        let f : d ≡ 46 = ground arith in
        absurd (dots (ap (λ x. x ∷ d ∷ []) e ∙ ap (λ x. 46 ∷ x ∷ []) f))
    | inr other ↦ rw (same, other) refl
  ]
  | inr other ↦ rw other refl
]
is_dot_dot-name c (d ∷ f ∷ s) rest ((first, (second, (third, more))), dot, dots) =
    rw third (elim (Bool-cases (c == 46)) [
      | inl same ↦ elim (Bool-cases (d == 46)) [
        | inl again ↦ rw (same, again) refl
        | inr other ↦ rw (same, other) refl
      ]
      | inr other ↦ rw other refl
    ])

follow-fault :
    (name target rest : List ℕ)
    → All (λ d. (d == 47) ≡ false) name
    → IsTooLong name target rest
    → follow (link_to target) (record {
      path = 47 ∷ rest;
      offset = 1 + length name;
      resolved = reverse_aux name (47 ∷ []);
    })
      ≡ fault
unfolding follow
follow-fault name target rest plain (fits, short, long) =
    let small : leb (aacs_path_max - 1) (length target) ≡ false = ground arith in
    let near : leb (aacs_path_max - 1) (1 + length name + length target) ≡ false = ground arith in
    let past : leb aacs_path_max (length target + suc (length rest)) ≡ true = ground arith in
    rw (small, link_start-root name target plain, near, past) refl

separator-stops :
    (rest : List ℕ) (o : ℕ) (q : List ℕ)
    → copy (47 ∷ rest) o q ≡ ok (some (record { path = 47 ∷ rest; offset = o; resolved = q }))
unfolding copy
separator-stops rest o q = refl

-- The name that is looked up is that of the path.
reverse-name : (name : List ℕ) → reverse (reverse_aux name (47 ∷ [])) ≡ 47 ∷ name
reverse-name name = reverse_aux_twice name (47 ∷ []) [] ∙ ap (λ l. 47 ∷ l) (append-nil name)

walk-fault :
    (links : Links) (fuel c : ℕ) (s target rest : List ℕ)
    → 0 < fuel
    → IsName (c ∷ s)
    → links.readlink (47 ∷ c ∷ s) ≡ link_to target
    → IsTooLong (c ∷ s) target rest
    → walk links fuel 0 (c ∷ (s ++ (47 ∷ rest))) 1 (47 ∷ []) ≡ fault
unfolding walk resolve_link
walk-fault links zero c s target rest more name e long = absurd (omega arith)
walk-fault links (suc fuel) c s target rest more name e long =
    rw
      (
        name.0.0,
        is_dot-name c s rest name,
        is_dot_dot-name c s rest name,
        copy-name (c ∷ s) (47 ∷ rest) 1 (1 + length (c ∷ s)) (47 ∷ []) (separator-stops rest) name.0
            refl (omega (arith, long)) (omega (arith, long)),
        finish-room (reverse_aux (c ∷ s) (47 ∷ []))
            (omega (arith, long, length-reverse_aux (c ∷ s) (47 ∷ []))),
        reverse-name (c ∷ s),
        e,
        follow-fault (c ∷ s) target rest name.0 long,
      )
      refl

-- If the first name of an absolute path, which is neither "." nor "..", is a link, the name and the
-- rest behind it have fewer than 1020 characters, the name and the target fewer than 1022, and the
-- target and the rest 1023 or more, then the buffer for the link overflows.
pub aacs_resolve_path-overrun :
    (links : Links) (name target rest : List ℕ)
    → IsName name
    → links.readlink (47 ∷ name) ≡ link_to target
    → IsTooLong name target rest
    → aacs_resolve_path links (47 ∷ (name ++ (47 ∷ rest))) ≡ fault
unfolding aacs_resolve_path walk_from
aacs_resolve_path-overrun links [] target rest name e long = absurd name
aacs_resolve_path-overrun links (c ∷ s) target rest name e long =
    let size = length-append s (47 ∷ rest) in
    let fits : leb (aacs_path_max - 2) (length (47 ∷ c ∷ (s ++ (47 ∷ rest)))) ≡ false =
      ground (arith, long) in
    rw fits (walk-fault links rounds c s target rest (omega (arith, rounds_eq)) name e long)
