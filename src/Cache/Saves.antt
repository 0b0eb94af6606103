-- ===== src/Cache/Saves.antt =====
-- Files that are saved where the system refuses nothing.
use libaacs.Common.{
  ℕ, ◌≡◌, refl, inl, inr, Bool, true, false, some, List, [], ◌∷◌, ◌++◌, arith, ◌==◌, Bool-cases,
  length,
}
use mathlib.Core.List.{reverse}
use libaacs.Files.{
  Disk, Os, update, components, missing_dirs, make_dirs, mkdirs_above, file_mkdirs, write_all,
  save_file, save_below,
}
use libaacs.Cache.{
  Env, save_at, keycache_file, below_home, cache_file, file_get_cache_home, keycache_save,
}

-- Every call of the system succeeds, and takes all bytes.
pub record IsWilling (os : Os) : Type 0 where
  pub mkdir : (path : List ℕ) → os.mkdir path ≡ true
  pub open_w : (path : List ℕ) → os.open_w path ≡ true
  pub write : (path : List ℕ) (size n : ℕ) → os.write path size n ≡ n

abbrev IsBelow : List (List ℕ) → Type 0
IsBelow (name ∷ c ∷ cs) = Unit
IsBelow _ = ⊥

components-IsBelow : (p here d : List ℕ) (ds : List (List ℕ)) → IsBelow (components p here (d ∷ ds))
unfolding components
components-IsBelow [] here d ds = record {}
components-IsBelow (c ∷ p) here d ds = elim (Bool-cases (c == 47)) [
  | inl separator ↦ rw separator (components-IsBelow p [] (reverse here) (d ∷ ds))
  | inr other ↦ rw other (components-IsBelow p (c ∷ here) d ds)
]

components_path-IsBelow :
    (dir name here : List ℕ) → IsBelow (components (dir ++ (47 ∷ name)) here [])
unfolding components
components_path-IsBelow [] name here = components-IsBelow name [] (reverse here) []
components_path-IsBelow (c ∷ dir) name here = elim (Bool-cases (c == 47)) [
  | inl separator ↦ rw separator (components-IsBelow (dir ++ (47 ∷ name)) [] (reverse here) [])
  | inr other ↦ rw other (components_path-IsBelow dir name (c ∷ here))
]

module _ (os : Os) (willing : IsWilling os) where
  make_dirs-true : (disk : Disk) (base cs : List (List ℕ)) → (make_dirs os disk base cs).1 ≡ true
  unfolding make_dirs
  make_dirs-true disk base [] = refl
  make_dirs-true disk base (c ∷ cs) = rw (willing.mkdir (libaacs.Files.path_of (c ∷ base))) (
      make_dirs-true
        (record disk { dirs = update disk.dirs (libaacs.Files.path_of (c ∷ base)) true }) (c ∷ base)
        cs)

  mkdirs_above-true :
      (disk : Disk) (cs : List (List ℕ)) → IsBelow cs → (mkdirs_above os disk cs).1 ≡ true
  unfolding mkdirs_above
  mkdirs_above-true disk [] below = absurd below
  mkdirs_above-true disk (name ∷ []) below = absurd below
  mkdirs_above-true disk (name ∷ c ∷ cs) below =
      make_dirs-true disk (missing_dirs disk (c ∷ cs) []).0 (missing_dirs disk (c ∷ cs) []).1

  write_all-true :
      (path written : List ℕ) (chunks : List (List ℕ)) → (write_all os path written chunks).1 ≡ true
  unfolding write_all
  write_all-true path written [] = refl
  write_all-true path written (c ∷ cs) =
      let all : (length c == length c) ≡ true = ground arith in
      rw (willing.write path (length written) (length c), all)
        (write_all-true path (written ++ c) cs)

  save_below-true :
      (d : Disk × Bool) (path : List ℕ) (chunks : List (List ℕ))
      → d.1 ≡ true
      → (save_below os d path chunks).1 ≡ true
  unfolding save_below save_file
  save_below-true (disk, false) path chunks h = absurd cc
  save_below-true (disk, true) path chunks h =
      rw (willing.open_w path) (write_all-true path [] chunks)

  -- A file below a directory is saved if the system refuses nothing.
  pub save_at-true :
      (disk : Disk) (dir name : List ℕ) (chunks : List (List ℕ))
      → (save_at os disk (some (dir ++ (47 ∷ name))) chunks).1 ≡ true
  unfolding save_at file_mkdirs
  save_at-true disk dir name chunks =
      save_below-true (mkdirs_above os disk (components (dir ++ (47 ∷ name)) [] []))
        (dir ++ (47 ∷ name)) chunks
        (mkdirs_above-true disk (components (dir ++ (47 ∷ name)) [] [])
          (components_path-IsBelow dir name []))

  -- If moreover there is a cache directory, a key is saved.
  pub keycache_save-true :
      (env : Env) (disk : Disk) (type disc_id key dir : List ℕ)
      → file_get_cache_home env ≡ some dir
      → (keycache_save env os disk type disc_id key).1 ≡ true
  unfolding keycache_save keycache_file cache_file
  keycache_save-true env disk type disc_id key dir home =
      rw home (unfold below_home in save_at-true disk dir _ _)
