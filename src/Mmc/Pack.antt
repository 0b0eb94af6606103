-- ===== src/Mmc/Pack.antt =====
-- `_mmc_read_mkb` of mmc.c: the media key block in packs of at most 32 kB, into a heap buffer that
-- is as large as the first pack says.
use libaacs.Common.{
  ℕ, zero, suc, ◌+◌, ◌-◌, ◌*◌, ◌≤◌, ◌<◌, ◌≡◌, refl, ◌||◌, Option, none, some, List, [], ◌++◌, arith,
  ltb, leb, if◌then◌else◌, le→leb, length, length-append, Run, ok, fault, stuck, ◌>>=◌, Returns,
  byte, word16, slice, length-slice,
}
use libaacs.Mmc.{Drive, Mmc, mmc_report_disc_structure, mmc_report_agid, mmc_invalidate_agid}

-- `MKINT_BE16(buf) - 2`, from 1 to 32768.
unfoldable pub pack_len : List ℕ → Option ℕ
pack_len buf =
    let len = word16 buf 0 in if leb len 2 || ltb 32768 (len - 2) then none else some (len - 2)

-- `memcpy(mkb + *size, buf + 4, len)`, which must not leave the buffer.
unfoldable pub put_pack : ℕ → List ℕ → List ℕ → ℕ → Run (List ℕ)
put_pack capacity mkb buf len =
    if leb (length mkb + len) capacity then ok (mkb ++ slice buf 4 len) else fault

-- The block with one pack more; `none` ends the loop.
unfoldable pub add_pack : ℕ → List ℕ → Option (List ℕ) → Run (Option (List ℕ))
unfolding pack_len put_pack
add_pack capacity mkb none = ok none
add_pack capacity mkb (some buf) = elim (pack_len buf) [
  | none ↦ ok none
  | some len ↦ do mkb' ← put_pack capacity mkb buf len; ok (some mkb')
]

-- The loop over `n` packs from `pack` on.
unfoldable pub packs_from : ℕ → Drive → Mmc → ℕ → ℕ → ℕ → List ℕ → Run (Mmc × List ℕ)
unfolding add_pack
packs_from zero drive mmc agid capacity pack mkb = ok (mmc, mkb)
packs_from (suc n) drive mmc agid capacity pack mkb = do
  let r = mmc_report_disc_structure drive mmc agid 0x83 0 pack 32772
  more ← add_pack capacity mkb r.1
  elim more [
    | none ↦ ok (r.0, mkb)
    | some mkb' ↦ packs_from n drive r.0 agid capacity (pack + 1) mkb'
  ]

-- The buffer for the packs, with the first one, and the other packs; `none` is NULL, and the size
-- is the length.
unfoldable pub first_pack : Drive → ℕ → Mmc → List ℕ → Option ℕ → Run (Mmc × Option (List ℕ))
unfolding packs_from put_pack
first_pack drive agid mmc buf none = ok (mmc, none)
first_pack drive agid mmc buf (some len) = do
  let num_packs = byte buf 3
  mkb ← put_pack (32768 * num_packs) [] buf len
  r ← packs_from (num_packs - 1) drive mmc agid (32768 * num_packs) 1 mkb
  ok (r.0, some r.1)

unfoldable pub after_first_pack : Drive → ℕ → Mmc × Option (List ℕ) → Run (Mmc × Option (List ℕ))
unfolding first_pack pack_len
after_first_pack drive agid (mmc, none) = ok (mmc, none)
after_first_pack drive agid (mmc, some buf) = first_pack drive agid mmc buf (pack_len buf)

unfoldable pub read_mkb : Drive → Mmc → ℕ → ℕ → Run (Mmc × Option (List ℕ))
unfolding after_first_pack
read_mkb drive mmc agid address =
    after_first_pack drive agid (mmc_report_disc_structure drive mmc agid 0x83 0 address 32772)

agid_or_zero : Option ℕ → ℕ
agid_or_zero none = 0
agid_or_zero (some agid) = agid

-- The public `mmc_read_mkb`.
pub mmc_read_mkb : Drive → Mmc → ℕ → Run (Mmc × Option (List ℕ))
unfolding read_mkb agid_or_zero
mmc_read_mkb drive mmc address = do
  let asked = mmc_report_agid drive mmc
  let agid = agid_or_zero asked.1
  r ← read_mkb drive asked.0 agid address
  ok (mmc_invalidate_agid drive r.0 agid, r.1)

-- A block of at most `capacity` bytes.
abbrev Fits : ℕ → Mmc × List ℕ → Type 0
Fits capacity r = length r.1 ≤ capacity

pack_len_le : (buf : List ℕ) (len : ℕ) → pack_len buf ≡ some len → (0 < len) × (len ≤ 32768)
unfolding pack_len
pack_len_le buf len e = ground arith

put_pack_lem :
    (capacity : ℕ) (mkb buf : List ℕ) (len : ℕ)
    → length mkb + len ≤ capacity
    → put_pack capacity mkb buf len ≡ ok (mkb ++ slice buf 4 len)
unfolding put_pack
put_pack_lem capacity mkb buf len h = rw (le→leb _ _ h) refl

abbrev Grown : List ℕ → Option (List ℕ) → Type 0
Grown mkb none = Unit {0}
Grown mkb (some mkb') = length mkb' ≤ length mkb + 32768

add_pack-Grown :
    (capacity : ℕ) (mkb : List ℕ) (o : Option (List ℕ))
    → length mkb + 32768 ≤ capacity
    → Returns (Grown mkb) (add_pack capacity mkb o)
unfolding add_pack
add_pack-Grown capacity mkb none h = _
add_pack-Grown capacity mkb (some buf) h = of_len (pack_len buf) (pack_len_le buf)
  where
    of_len :
        (o : Option ℕ)
        → ((len : ℕ) → o ≡ some len → (0 < len) × (len ≤ 32768))
        → Returns (Grown mkb) (elim o [
          | none ↦ ok none
          | some len ↦ put_pack capacity mkb buf len >>= λ mkb'. ok (some mkb')
        ])
    of_len none bound = _
    of_len (some len) bound =
        let few : len ≤ 32768 = (bound len refl).1 in
        rw (put_pack_lem capacity mkb buf len (omega arith))
          (rw (length-append mkb (slice buf 4 len), length-slice buf 4 len) (omega arith))

packs_from-Fits :
    (n : ℕ) (drive : Drive) (mmc : Mmc) (agid capacity pack : ℕ) (mkb : List ℕ)
    → length mkb + 32768 * n ≤ capacity
    → Returns (Fits capacity) (packs_from n drive mmc agid capacity pack mkb)
unfolding packs_from
packs_from-Fits zero drive mmc agid capacity pack mkb h = omega arith
packs_from-Fits (suc n) drive mmc agid capacity pack mkb h =
    next (λ mmc' mkb' small. packs_from-Fits n drive mmc' agid capacity (pack + 1) mkb' small) _
      (add_pack capacity mkb _) (add_pack-Grown capacity mkb _ (omega arith))
  where
    next :
        ((mmc' : Mmc) (mkb' : List ℕ)
          → length mkb' + 32768 * n ≤ capacity
          → Returns (Fits capacity) (packs_from n drive mmc' agid capacity (pack + 1) mkb'))
        → (mmc' : Mmc) (m : Run (Option (List ℕ))) → Returns (Grown mkb) m
        → Returns (Fits capacity) (
            m >>= λ more. elim more [
              | none ↦ ok (mmc', mkb)
              | some mkb' ↦ packs_from n drive mmc' agid capacity (pack + 1) mkb'
            ])
    next rec mmc' (ok none) grown = omega arith
    next rec mmc' (ok (some mkb')) grown = rec mmc' mkb' (omega arith)
    next rec mmc' fault grown = absurd grown
    next rec mmc' stuck grown = absurd grown

-- The answers to the first command.
abbrev pub first_answer : Drive → Mmc → ℕ → ℕ → Option (List ℕ)
first_answer drive mmc agid address =
    (mmc_report_disc_structure drive mmc agid 0x83 0 address 32772).1

abbrev pub HasPacks : Option (List ℕ) → Type 0
HasPacks none = Unit {0}
HasPacks (some buf) = 0 < byte buf 3

-- The block is at most as large as the buffer for the packs that the first one announces.
abbrev pub FitsPacks : Option (List ℕ) → Mmc × Option (List ℕ) → Type 0
FitsPacks none (mmc, mkb) = mkb ≡ none
FitsPacks (some buf) (mmc, none) = Unit {0}
FitsPacks (some buf) (mmc, some mkb) = length mkb ≤ 32768 * byte buf 3

first_pack-FitsPacks :
    (drive : Drive) (agid : ℕ) (mmc : Mmc) (buf : List ℕ) (o : Option ℕ)
    → 0 < byte buf 3
    → ((len : ℕ) → o ≡ some len → (0 < len) × (len ≤ 32768))
    → Returns (FitsPacks (some buf)) (first_pack drive agid mmc buf o)
unfolding first_pack
first_pack-FitsPacks drive agid mmc buf none has bound = _
first_pack-FitsPacks drive agid mmc buf (some len) has bound =
    let few : len ≤ 32768 = (bound len refl).1 in
    let room : length (slice buf 4 len) + 32768 * (byte buf 3 - 1) ≤ 32768 * byte buf 3 =
      rw (length-slice buf 4 len) (omega arith) in
    rw (put_pack_lem (32768 * byte buf 3) [] buf len (omega arith)) (
      whole (packs_from (byte buf 3 - 1) drive mmc agid (32768 * byte buf 3) 1 (slice buf 4 len)) (
        packs_from-Fits (byte buf 3 - 1) drive mmc agid (32768 * byte buf 3) 1 (slice buf 4 len)
          room))
  where
    whole :
        (m : Run (Mmc × List ℕ))
        → Returns (Fits (32768 * byte buf 3)) m
        → Returns (FitsPacks (some buf)) (m >>= λ r. ok (r.0, some r.1))
    whole (ok r) fits = fits
    whole fault fits = fits
    whole stuck fits = fits

after_first_pack-FitsPacks :
    (drive : Drive) (agid : ℕ) (r : Mmc × Option (List ℕ))
    → HasPacks r.1
    → Returns (FitsPacks r.1) (after_first_pack drive agid r)
unfolding after_first_pack
after_first_pack-FitsPacks drive agid (mmc, none) has = refl
after_first_pack-FitsPacks drive agid (mmc, some buf) has =
    first_pack-FitsPacks drive agid mmc buf (pack_len buf) has (pack_len_le buf)

-- If the first pack announces one pack or more, the block is read without a write outside of the
-- buffer, whatever else the drive answers.
pub read_mkb-FitsPacks :
    (drive : Drive) (mmc : Mmc) (agid address : ℕ)
    → HasPacks (first_answer drive mmc agid address)
    → Returns (FitsPacks (first_answer drive mmc agid address)) (read_mkb drive mmc agid address)
unfolding read_mkb
read_mkb-FitsPacks drive mmc agid address has = after_first_pack-FitsPacks drive agid _ has

no_buffer :
    (packs : ℕ) (buf : List ℕ) (len : ℕ)
    → 0 < len
    → packs ≡ 0
    → put_pack (32768 * packs) [] buf len ≡ fault
unfolding put_pack
no_buffer packs buf len some_bytes none_announced = ground arith

no_room :
    (drive : Drive) (agid : ℕ) (mmc : Mmc) (buf : List ℕ) (len : ℕ)
    → 0 < len
    → byte buf 3 ≡ 0
    → first_pack drive agid mmc buf (some len) ≡ fault
unfolding first_pack
no_room drive agid mmc buf len some_bytes none_announced =
    rw (no_buffer (byte buf 3) buf len some_bytes none_announced) refl

overrun_of :
    (drive : Drive) (agid : ℕ) (mmc : Mmc) (o : Option (List ℕ)) (buf : List ℕ) (len : ℕ)
    → o ≡ some buf
    → byte buf 3 ≡ 0
    → pack_len buf ≡ some len
    → after_first_pack drive agid (mmc, o) ≡ fault
overrun_of drive agid mmc o buf len first none_announced valid = rw first (
    unfold after_first_pack in
    rw valid (no_room drive agid mmc buf len (pack_len_le buf len valid).0 none_announced))

-- A valid first pack that announces no packs is written past the end of an empty buffer.
pub read_mkb-overrun :
    (drive : Drive) (mmc : Mmc) (agid address len : ℕ) (buf : List ℕ)
    → first_answer drive mmc agid address ≡ some buf
    → byte buf 3 ≡ 0
    → pack_len buf ≡ some len
    → read_mkb drive mmc agid address ≡ fault
unfolding read_mkb
read_mkb-overrun drive mmc agid address len buf first none_announced valid =
    overrun_of drive agid _ _ buf len first none_announced valid
