-- ===== src/Device/Opened.antt =====
-- What is open after a device was opened.
use libaacs.Common.{
  ℕ, ◌≡◌, refl, ◌∙◌, ◌⊎◌, inl, inr, true, Option, none, some, List, [], ◌∷◌, ◌++◌, arith, ◌==◌,
  if◌then◌else◌, Bool-cases, same_bytes, same_bytes→eq, All, All-reverse, false, sym, ap, Run, ok,
  fault, stuck, ◌>>=◌,
}
use libaacs.Common.Partial.{Ends}
use mathlib.Core.List.{reverse, reverse-append, reverse-reverse}
use libaacs.Path.{aacs_resolve_path}
use libaacs.Path.Ends.{Fits, aacs_resolve_path-Ends}
use libaacs.Device.{
  System, Event, opened, closed, strip, block_of, open_block_device, opened_or, open_mounted,
  mounted_or_none, or_mounted, open_resolved, device_open,
}

-- The descriptors that are open after the calls, the last one first; `close` takes the last one of
-- its number.
abbrev without : ℕ → List ℕ → List ℕ
without fd [] = []
without fd (x ∷ fds) = if x == fd then fds else x ∷ without fd fds

abbrev pub still_open : List ℕ → List Event → List ℕ
still_open fds [] = fds
still_open fds (opened fd ∷ events) = still_open (fd ∷ fds) events
still_open fds (closed fd ∷ events) = still_open (without fd fds) events

abbrev EndsBare : List ℕ → Type 0
EndsBare [] = Unit
EndsBare (c ∷ []) = (c == 47) ≡ false
EndsBare (c ∷ d ∷ s) = EndsBare (d ∷ s)

-- The path is the name with slashes behind it, and the name has none at its end.
abbrev pub IsStripped : List ℕ → List ℕ → Type 0
IsStripped path name =
    (slashes : List ℕ) × (path ≡ name ++ slashes) × All (λ c. c ≡ 47) slashes × EndsBare name

append-EndsBare : (xs : List ℕ) (c : ℕ) → (c == 47) ≡ false → EndsBare (xs ++ (c ∷ []))
append-EndsBare [] c bare = bare
append-EndsBare (x ∷ []) c bare = bare
append-EndsBare (x ∷ y ∷ xs) c bare = append-EndsBare (y ∷ xs) c bare

-- The loop, from the last character on.
strip-slashes :
    (r : List ℕ)
    → (slashes : List ℕ) × (r ≡ slashes ++ strip r)
      × All (λ c. c ≡ 47) slashes
      × EndsBare (reverse (strip r))
unfolding strip
strip-slashes [] = ([], refl, record {}, record {})
strip-slashes (c ∷ r) = elim (Bool-cases (c == 47)) [
  | inl slash ↦
      let (slashes, e, all, bare) = strip-slashes r in
      let same : c ≡ 47 = ground arith in
      rw slash (c ∷ slashes, ap (λ l. c ∷ l) e, (same, all), bare)
  | inr other ↦
      rw other
        ([], refl, record {}, rw (reverse-append (c ∷ []) r) (append-EndsBare (reverse r) c other))
]

strip-IsStripped : (path : List ℕ) → IsStripped path (reverse (strip (reverse path)))
strip-IsStripped path =
    let (slashes, e, all, bare) = strip-slashes (reverse path) in
    (
      reverse slashes,
      sym (reverse-reverse path) ∙ ap reverse e ∙ reverse-append slashes (strip (reverse path)),
      All-reverse (λ c. c ≡ 47) slashes all,
      bare,
    )

abbrev IsEntry : List ℕ × List ℕ → List (List ℕ × List ℕ) → Type 0
IsEntry e [] = ⊥
IsEntry e (m ∷ mounts) = (m ≡ e) ⊎ IsEntry e mounts

-- An entry for the name can be opened.
abbrev IsMounted : System → List ℕ → List (List ℕ × List ℕ) → ℕ → Type 0
IsMounted sys name mounts fd =
    (dir : List ℕ) × (fsname : List ℕ) × IsEntry (dir, fsname) mounts
    × (dir ≡ name)
    × (sys.open_ro fsname ≡ some fd)

abbrev OptMounted : System → List ℕ → Option (List (List ℕ × List ℕ)) → ℕ → Type 0
OptMounted sys name none fd = ⊥
OptMounted sys name (some mounts) fd = IsMounted sys name mounts fd

-- A block device of the name, or what is mounted there.
abbrev pub BelongsTo : System → List ℕ → ℕ → Type 0
BelongsTo sys name fd =
    ((sys.open_ro name ≡ some fd) × (sys.is_block fd ≡ true)) ⊎ OptMounted sys name sys.mounts fd

-- Only the descriptor that is given stays open, and `P` holds of it.
abbrev Leaves : (ℕ → Type 0) → List Event × Option ℕ → Type 0
Leaves P (events, none) = (fds : List ℕ) → still_open fds events ≡ fds
Leaves P (events, some fd) = ((fds : List ℕ) → still_open fds events ≡ fd ∷ fds) × P fd

same_fd : (fd : ℕ) → (fd == fd) ≡ true
same_fd fd = ground arith

Leaves-weaken :
    (P Q : ℕ → Type 0) (r : List Event × Option ℕ)
    → ((fd : ℕ) → P fd → Q fd)
    → Leaves P r
    → Leaves Q r
Leaves-weaken P Q (events, none) h l = l
Leaves-weaken P Q (events, some fd) h (l, p) = (l, h fd p)

still_open-append :
    (fds : List ℕ) (xs ys : List Event)
    → still_open fds (xs ++ ys) ≡ still_open (still_open fds xs) ys
still_open-append fds [] ys = refl
still_open-append fds (opened fd ∷ xs) ys = still_open-append (fd ∷ fds) xs ys
still_open-append fds (closed fd ∷ xs) ys = still_open-append (without fd fds) xs ys

abbrev IsBlock : System → List ℕ → ℕ → Type 0
IsBlock sys name fd = (sys.open_ro name ≡ some fd) × (sys.is_block fd ≡ true)

-- What is not a block device is closed again.
block_of-Leaves :
    (sys : System) (name : List ℕ) (o : Option ℕ)
    → sys.open_ro name ≡ o
    → Leaves (IsBlock sys name) (block_of sys o)
unfolding block_of
block_of-Leaves sys name none e = λ fds. refl
block_of-Leaves sys name (some fd) e = elim (Bool-cases (sys.is_block fd)) [
  | inl block ↦ rw block ((λ fds. refl), (e, block))
  | inr other ↦ rw other (λ fds. rw (same_fd fd) refl)
]

open_mounted-Leaves :
    (sys : System) (name : List ℕ) (mounts : List (List ℕ × List ℕ))
    → Leaves (IsMounted sys name mounts) (open_mounted sys name mounts)
unfolding open_mounted
open_mounted-Leaves sys name [] = λ fds. refl
open_mounted-Leaves sys name ((dir, fsname) ∷ mounts) =
    let rest =
      Leaves-weaken (IsMounted sys name mounts) (IsMounted sys name ((dir, fsname) ∷ mounts))
        (open_mounted sys name mounts) (λ fd (d, f, entry, same, e). (d, f, inr entry, same, e))
        (open_mounted-Leaves sys name mounts) in
    elim (Bool-cases (same_bytes dir name)) [
      | inl same ↦ rw same (here (sys.open_ro fsname) refl (same_bytes→eq dir name same) rest)
      | inr other ↦ rw other rest
    ]
  where
    here :
        (o : Option ℕ)
        → sys.open_ro fsname ≡ o
        → dir ≡ name
        → Leaves (IsMounted sys name ((dir, fsname) ∷ mounts)) (open_mounted sys name mounts)
        → Leaves
            (IsMounted sys name ((dir, fsname) ∷ mounts))
            (opened_or o (open_mounted sys name mounts))
    here none e same rest = unfold opened_or in rest
    here (some fd) e same rest =
        unfold opened_or in ((λ fds. refl), (dir, fsname, inl refl, same, e))

mounted_or_none-Leaves :
    (sys : System) (name : List ℕ) (mounts : Option (List (List ℕ × List ℕ)))
    → Leaves (OptMounted sys name mounts) (mounted_or_none sys name mounts)
unfolding mounted_or_none
mounted_or_none-Leaves sys name none = λ fds. refl
mounted_or_none-Leaves sys name (some mounts) = open_mounted-Leaves sys name mounts

or_mounted-Leaves :
    (sys : System) (name : List ℕ) (r : List Event × Option ℕ)
    → Leaves (IsBlock sys name) r
    → Leaves (BelongsTo sys name) (or_mounted sys name r)
unfolding or_mounted
or_mounted-Leaves sys name (events, some fd) (l, block) = (l, inl block)
or_mounted-Leaves sys name (events, none) l =
    behind (mounted_or_none sys name sys.mounts) (mounted_or_none-Leaves sys name sys.mounts)
  where
    behind :
        (r : List Event × Option ℕ)
        → Leaves (OptMounted sys name sys.mounts) r
        → Leaves (BelongsTo sys name) (events ++ r.0, r.1)
    behind (more, none) m = λ fds. still_open-append fds events more ∙ rw (l fds) (m fds)
    behind (more, some fd) (m, mounted) =
        ((λ fds. still_open-append fds events more ∙ rw (l fds) (m fds)), inr mounted)

-- The descriptor belongs to the path as it was resolved.
abbrev pub IsDevice : System → List ℕ → ℕ → Type 0
IsDevice sys path fd =
    (p : List ℕ) × (name : List ℕ) × (aacs_resolve_path sys.links path ≡ ok (some p))
    × IsStripped p name
    × BelongsTo sys name fd

abbrev pub LeavesDevice : System → List ℕ → List Event × Option ℕ → Type 0
LeavesDevice sys path r = Leaves (IsDevice sys path) r

-- `device_open` returns, or goes outside of a buffer in the resolution of the path. All that it
-- opened is closed again but for the descriptor that it gives, and that is a block device of the
-- resolved path without slashes at its end, or is opened by the name that /proc/mounts has for it.
pub device_open-LeavesDevice :
    (sys : System) (path : List ℕ) → Ends (LeavesDevice sys path) (device_open sys path)
unfolding device_open open_resolved open_block_device
device_open-LeavesDevice sys path =
    after (aacs_resolve_path sys.links path) refl (aacs_resolve_path-Ends sys.links path)
  where
    after :
        (m : Run (Option (List ℕ)))
        → aacs_resolve_path sys.links path ≡ m
        → Ends Fits m
        → Ends (LeavesDevice sys path) (m >>= λ p. ok (open_resolved sys p))
    after (ok none) e h = λ fds. refl
    after (ok (some p)) e h =
        let name = reverse (strip (reverse p)) in
        Leaves-weaken (BelongsTo sys name) (IsDevice sys path) (open_resolved sys (some p))
          (λ fd b. (p, name, e, strip-IsStripped p, b))
          (or_mounted-Leaves sys name (open_block_device sys name)
            (block_of-Leaves sys name (sys.open_ro name) refl))
    after fault e h = h
    after stuck e h = h
