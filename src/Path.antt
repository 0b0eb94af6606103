-- ===== src/Path.antt =====
-- src/file/path.c: aacs_resolve_path. A path is its characters without the final 0. What `getcwd`
-- and `readlink` give is a parameter.
pub mod Ends
pub mod Overrun
pub mod Plain
pub mod Examples
use libaacs.Common.{
  ℕ, zero, suc, ◌+◌, ◌-◌, Bool, true, false, ◌&&◌, Option, none, some, List, [], ◌∷◌, ◌++◌, ltb,
  leb, ◌==◌, if◌then◌else◌, length, drop, Run, ok, fault, stuck, ◌>>=◌, ◌>>◌,
}
use mathlib.Core.List.{reverse}

-- `readlink`: an error, `EINVAL` for what is not a link, or the target.
pub data Link : Type 0 where
  link_failed not_link : Link
  link_to : List ℕ → Link

pub record Links : Type 0 where
  pub getcwd : Option (List ℕ)
  pub readlink : List ℕ → Link

-- `AACS_PATH_MAX` and `MAX_LINKS`.
abbrev pub aacs_path_max : ℕ
aacs_path_max = 1024

abbrev pub max_links : ℕ
max_links = 32

-- `*new_path++ = c`, where `resolved` has the characters in front of `new_path`, the last one
-- first.
unfoldable pub put : ℕ → List ℕ → Run (List ℕ)
put c resolved = if ltb (length resolved) aacs_path_max then ok (c ∷ resolved) else fault

unfoldable pub is_end : List ℕ → Bool
is_end [] = true
is_end (c ∷ s) = c == 47

unfoldable pub is_dot : List ℕ → Bool
unfolding is_end
is_dot [] = false
is_dot (c ∷ s) = c == 46 && is_end s

unfoldable pub is_dot_dot : List ℕ → Bool
unfolding is_end
is_dot_dot [] = false
is_dot_dot (c ∷ []) = false
is_dot_dot (c ∷ d ∷ s) = c == 46 && (d == 46 && is_end s)

-- `while ((--new_path)[-1] != '/')`, and `while (*(--new_path) != '/')`. In front of the buffer is
-- nothing.
unfoldable pub up : List ℕ → Run (List ℕ)
up [] = fault
up (c ∷ []) = fault
up (c ∷ d ∷ resolved) = let rest = up (d ∷ resolved) in if d == 47 then ok (d ∷ resolved) else rest

unfoldable pub back : List ℕ → Run (List ℕ)
back [] = fault
back (c ∷ resolved) = let rest = back resolved in if c == 47 then ok resolved else rest

-- "not at root ? -> back up one level".
unfoldable pub parent : List ℕ → Run (List ℕ)
unfolding up
parent resolved = if length resolved == 1 then ok resolved else up resolved

-- What is left of the path, its offset in `tmp_path`, and `resolved`.
pub record Walk : Type 0 where
  pub path : List ℕ
  pub offset : ℕ
  pub resolved : List ℕ

-- "copy next component"; `none` is the NULL that is returned at the end of the buffer.
unfoldable pub copy : List ℕ → ℕ → List ℕ → Run (Option Walk)
unfolding put
copy [] offset resolved = ok (some (record { path = []; offset = offset; resolved = resolved }))
copy (c ∷ s) offset resolved =
    let next = λ (r : List ℕ). copy s (offset + 1) r in
    if c == 47
    then ok (some (record { path = c ∷ s; offset = offset; resolved = resolved }))
    else if leb (aacs_path_max - 1) offset
    then ok none
    else put c resolved >>= next

-- `if (*path) *new_path++ = '/'`.
unfoldable pub slash_unless : List ℕ → List ℕ → Run (List ℕ)
unfolding put
slash_unless [] resolved = ok resolved
slash_unless (c ∷ path) resolved = put 47 resolved

unfoldable pub add_slash : Walk → Run Walk
unfolding slash_unless
add_slash w = do r ← slash_unless w.path w.resolved; ok (record w { resolved = r })

-- Where a link starts: at the root, or at the directory of the link.
unfoldable pub link_start : List ℕ → List ℕ → Run (List ℕ)
unfolding back is_end
link_start [] resolved = back resolved
link_start (c ∷ target) resolved = if c == 47 then ok [] else back resolved

-- "resolve symlink", up to "update what's left". `strcat` writes to a buffer of `aacs_path_max`.
unfoldable pub follow : Link → Walk → Run (Option Walk)
unfolding link_start
follow link_failed w = ok none
follow not_link w = ok (some w)
follow (link_to target) w = if leb (aacs_path_max - 1) (length target) then ok none else (do
  start ← link_start target w.resolved
  if leb (aacs_path_max - 1) (w.offset + length target)
      then ok none
      else if leb aacs_path_max (length target + length w.path)
      then fault
      else ok (some (record { path = target ++ w.path; offset = 0; resolved = start })))

-- `*new_path = 0`.
unfoldable pub finish : List ℕ → Run (List ℕ)
finish resolved = if ltb (length resolved) aacs_path_max then ok (reverse resolved) else fault

-- A component that was copied, where `n` were copied before; `next` goes on with the loop.
unfoldable pub go_on : (Walk → Run (Option (List ℕ))) → Option Walk → Run (Option (List ℕ))
unfolding add_slash
go_on next none = ok none
go_on next (some w) = add_slash w >>= next

unfoldable pub resolve_link :
    Links → ℕ → (Walk → Run (Option (List ℕ))) → Option Walk → Run (Option (List ℕ))
unfolding go_on follow finish
resolve_link links n next none = ok none
resolve_link links n next (some w) =
    if ltb max_links n
    then ok none
    else (do name ← finish w.resolved; o ← follow (links.readlink name) w; go_on next o)

-- The loop.
unfoldable pub walk : Links → ℕ → ℕ → List ℕ → ℕ → List ℕ → Run (Option (List ℕ))
walk links zero n path offset resolved = stuck
walk links (suc fuel) n [] offset resolved = do p ← finish resolved; ok (some p)
walk links (suc fuel) n (c ∷ s) offset resolved =
    let next = λ (m : ℕ) (p : List ℕ) (o : ℕ) (r : List ℕ). walk links fuel m p o r in
    if c == 47
    then next n s (offset + 1) resolved
    else if is_dot (c ∷ s)
    then next n s (offset + 1) resolved
    else if is_dot_dot (c ∷ s)
    then parent resolved >>= next n (drop 1 s) (offset + 2)
    else copy (c ∷ s) offset resolved
      >>= resolve_link links n (λ w. next (n + 1) w.path w.offset w.resolved)

-- `resolved_path` before the loop, for a path that is relative.
unfoldable pub end_with_slash : List ℕ → Run (Option (List ℕ))
unfolding put
end_with_slash [] = fault
end_with_slash (c ∷ r) = if c == 47 then ok (some (c ∷ r)) else (do q ← put 47 (c ∷ r); ok (some q))

unfoldable pub start_at : Option (List ℕ) → Run (Option (List ℕ))
unfolding end_with_slash
start_at none = ok none
start_at (some cwd) = end_with_slash (reverse cwd)

unfoldable pub walk_from : Links → ℕ → List ℕ → ℕ → Option (List ℕ) → Run (Option (List ℕ))
unfolding walk
walk_from links fuel path offset none = ok none
walk_from links fuel path offset (some resolved) = walk links fuel 0 path offset resolved

-- A path goes through 33 components at most, each of which leaves 1023 characters at most.
unfoldable pub rounds : ℕ
rounds = 36_000

unfoldable pub aacs_resolve_path : Links → List ℕ → Run (Option (List ℕ))
unfolding walk_from start_at
aacs_resolve_path links [] = ok none
aacs_resolve_path links (c ∷ path) =
    if leb (aacs_path_max - 2) (length (c ∷ path))
    then ok none
    else if c == 47
    then walk_from links rounds path 1 (some (47 ∷ []))
    else start_at links.getcwd >>= walk_from links rounds (c ∷ path) 0
