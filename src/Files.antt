-- ===== src/Files.antt =====
-- src/file/file.c, and the files that the library reads and writes. What the operating system does
-- beyond that is a parameter: where it lets directories and files be made, and how much it writes.
use libaacs.Common.{
  ℕ, ◌+◌, Bool, true, false, Option, none, some, List, [], ◌∷◌, ◌++◌, leb, ◌==◌, if◌then◌else◌,
  same_bytes, length, take, slice,
}
use mathlib.Core.List.{reverse}

-- What there is by path: the contents of files, and directories. A path is its characters.
pub record Disk : Type 0 where
  pub files : List ℕ → Option (List ℕ)
  pub dirs : List ℕ → Bool

-- The calls of the operating system: `mkdir`, `open` for writing, `remove`, and `write`, which is told the
-- path, the bytes in the file and the size, and gives how many bytes it took.
pub record Os : Type 0 where
  pub mkdir : List ℕ → Bool
  pub open_w : List ℕ → Bool
  pub write : List ℕ → ℕ → ℕ → ℕ
  pub remove : List ℕ → Bool

unfoldable pub update {ℓ} : {V : Type ℓ} → (List ℕ → V) → List ℕ → V → List ℕ → V
update f p v q = if same_bytes p q then v else f q

-- The components of a path between its separators `/`, the last one first, in front of `done`;
-- `here` has the characters of the current component, the last one first.
unfoldable pub components : List ℕ → List ℕ → List (List ℕ) → List (List ℕ)
components [] here done = reverse here ∷ done
components (c ∷ p) here done =
    if c == 47 then components p [] (reverse here ∷ done) else components p (c ∷ here) done

-- The path of components, the last one first.
unfoldable pub path_of : List (List ℕ) → List ℕ
path_of [] = []
path_of (c ∷ []) = c
path_of (c ∷ d ∷ cs) = path_of (d ∷ cs) ++ (47 ∷ c)

-- "tokenize, stop to first existing dir": the directory to start with, and what is missing below,
-- the first one first. The loop ends where no separator is left.
unfoldable pub missing_dirs : Disk → List (List ℕ) → List (List ℕ) → List (List ℕ) × List (List ℕ)
unfolding path_of
missing_dirs disk [] below = ([], below)
missing_dirs disk (c ∷ []) below = (c ∷ [], below)
missing_dirs disk (c ∷ d ∷ cs) below =
    let up = missing_dirs disk (d ∷ cs) (c ∷ below) in
    if disk.dirs (path_of (c ∷ d ∷ cs)) then (c ∷ d ∷ cs, below) else up

-- "create missing dirs": true if `file_mkdir` does not fail.
unfoldable pub make_dirs : Os → Disk → List (List ℕ) → List (List ℕ) → Disk × Bool
unfolding update path_of
make_dirs os disk base [] = (disk, true)
make_dirs os disk base (c ∷ cs) =
    let path = path_of (c ∷ base) in
    let next = make_dirs os (record disk { dirs = update disk.dirs path true }) (c ∷ base) cs in
    if os.mkdir path then next else (disk, false)

-- Without the name of the file.
unfoldable pub mkdirs_above : Os → Disk → List (List ℕ) → Disk × Bool
unfolding make_dirs missing_dirs
mkdirs_above os disk [] = (disk, false)
mkdirs_above os disk (name ∷ []) = (disk, false)
mkdirs_above os disk (name ∷ c ∷ cs) =
    let base = missing_dirs disk (c ∷ cs) [] in make_dirs os disk base.0 base.1

-- `file_mkdirs`; false is -1.
unfoldable pub file_mkdirs : Os → Disk → List ℕ → Disk × Bool
unfolding mkdirs_above components
file_mkdirs os disk path = mkdirs_above os disk (components path [] [])

-- One `file_write` after the other to an open file, up to the first one that takes less than all:
-- the contents then, and whether all was written.
unfoldable pub write_all : Os → List ℕ → List ℕ → List (List ℕ) → List ℕ × Bool
write_all os path written [] = (written, true)
write_all os path written (chunk ∷ chunks) =
    let n = os.write path (length written) (length chunk) in
    let rest = write_all os path (written ++ chunk) chunks in
    if n == length chunk then rest else (written ++ take n chunk, false)

-- A new file, if `file_open` for writing gives one: it has no contents before.
unfoldable pub save_file : Os → Disk → List ℕ → List (List ℕ) → Disk × Bool
unfolding write_all update
save_file os disk path chunks =
    let w = write_all os path [] chunks in
    if os.open_w path
    then (record disk { files = update disk.files path (some w.0) }, w.1)
    else (disk, false)

-- A file of its own directory, which is made first.
unfoldable pub save_below : Os → Disk × Bool → List ℕ → List (List ℕ) → Disk × Bool
unfolding save_file
save_below os (disk, false) path chunks = (disk, false)
save_below os (disk, true) path chunks = save_file os disk path chunks

-- `file_read` of `n` bytes behind `p`, if the file has as many. A read of no bytes gives none.
unfoldable pub file_read : List ℕ → ℕ → ℕ → Option (List ℕ)
file_read contents p n = if leb (p + n) (length contents) then some (slice contents p n) else none
