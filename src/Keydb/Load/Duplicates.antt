-- ===== src/Keydb/Load/Duplicates.antt =====
-- Device keys that are compiled in more than once.
use libaacs.Common.{
  ℕ, suc, ◌+◌, ◌≡◌, refl, ap, Bool, false, ◌||◌, List, [], ◌∷◌, map, arith, ◌==◌, length, set, All,
}
use mathlib.Core.List.{reverse_aux}
use libaacs.MediaKey.{DeviceKey}
use libaacs.Keydb.Load.{embedded_dk, is_duplicate_dk, add_embedded_dk, embedded_dks}

-- A key that is not empty and is not the last one of the list.
abbrev pub IsNotLast : DeviceKey → List DeviceKey → Type 0
IsNotLast e dkl = ((e.uv == 0) ≡ false) × (is_duplicate_dk dkl e ≡ false)

or_false : (a b : Bool) → a ≡ false → b ≡ false → (a || b) ≡ false
or_false a b ea eb = rw (ea, eb) refl

add_embedded_dk-new :
    (dkl : List DeviceKey) (e : DeviceKey) → IsNotLast e dkl → add_embedded_dk dkl e ≡ (e ∷ dkl, 1)
unfolding add_embedded_dk
add_embedded_dk-new dkl e (set, other) =
    rw (or_false (e.uv == 0) (is_duplicate_dk dkl e) set other) refl

-- If there was a device key before, and none of the embedded keys is empty or the same as the last
-- one of the list, then every embedded key is added, however often it occurs.
pub embedded_dks-reverse_aux :
    (rows : List (List ℕ)) (d : DeviceKey) (dkl : List DeviceKey)
    → All (λ row. IsNotLast (embedded_dk row) (d ∷ dkl)) rows
    → embedded_dks rows (d ∷ dkl) ≡ (reverse_aux (map embedded_dk rows) (d ∷ dkl), length rows)
unfolding embedded_dks is_duplicate_dk
embedded_dks-reverse_aux [] d dkl h = refl
embedded_dks-reverse_aux (row ∷ rows) d dkl (new, hs) =
    rw
      (
        add_embedded_dk-new (d ∷ dkl) (embedded_dk row) new,
        embedded_dks-reverse_aux rows (embedded_dk row) (d ∷ dkl) hs,
      )
      (ap (λ n. (reverse_aux (map embedded_dk rows) (embedded_dk row ∷ d ∷ dkl), n))
        (one_more (length rows)))
  where
    one_more : (n : ℕ) → 1 + n ≡ suc n
    one_more n = omega arith
