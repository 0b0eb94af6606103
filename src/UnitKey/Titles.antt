-- ===== src/UnitKey/Titles.antt =====
-- `_assign_titles` of unit_key.c: the map from titles to unit keys.
use libaacs.Common.{
  ℕ, zero, suc, ◌+◌, ◌*◌, ◌≤◌, ◌<◌, ◌≡◌, refl, ap, ◌⊎◌, Bool, true, Option, none, some, List, [],
  ◌∷◌, map, arith, length, length-map, All, ok, Returns, word16, be16_lem,
}
use libaacs.UnitKey.{UnitKeys, title_units, valid_unit, assign_titles}

-- The raw numbers of the file: first play, top menu, then the titles in order.
abbrev pub raw_titles : ℕ → ℕ → List ℕ → List ℕ
raw_titles zero i p = []
raw_titles (suc n) i p = word16 p (28 + 4 * i) ∷ raw_titles n (i + 1) p

pub length-raw_titles : (n i : ℕ) (p : List ℕ) → length (raw_titles n i p) ≡ n
length-raw_titles zero i p = refl
length-raw_titles (suc n) i p = ap suc (length-raw_titles n (i + 1) p)

title_units-raw_titles :
    (n i : ℕ) (p : List ℕ) → 26 + 4 * (i + n) ≤ length p → title_units n i p ≡ ok (raw_titles n i p)
unfolding title_units
title_units-raw_titles zero i p fits = refl
title_units-raw_titles (suc n) i p fits =
    rw (be16_lem p (28 + 4 * i) (omega arith), title_units-raw_titles n (i + 1) p (omega arith))
      refl

-- An index of a key, or 0.
abbrev pub IsUnit : ℕ → ℕ → Type 0
IsUnit num_uk unit = (unit < num_uk) ⊎ (unit ≡ 0)

valid_unit-IsUnit : (num_uk unit : ℕ) → IsUnit num_uk (valid_unit num_uk unit)
unfolding valid_unit
valid_unit-IsUnit num_uk unit = ground arith

-- A number from 1 to `num_uk` becomes the index before it, any other becomes 0.
pub valid_unit_cases :
    (num_uk unit : ℕ)
    → ((1 ≤ unit) × (unit ≤ num_uk) × (valid_unit num_uk unit + 1 ≡ unit))
      ⊎ (((unit ≡ 0) ⊎ (num_uk < unit)) × (valid_unit num_uk unit ≡ 0))
unfolding valid_unit
valid_unit_cases num_uk unit = ground arith

valid_units : (num_uk : ℕ) (units : List ℕ) → All (IsUnit num_uk) (map (valid_unit num_uk) units)
valid_units num_uk [] = tt
valid_units num_uk (u ∷ us) = (valid_unit-IsUnit num_uk u, valid_units num_uk us)

-- A title map has an entry for each title and two more, and all are indices of keys or 0.
abbrev pub TitlesMatch : Option (List ℕ) → ℕ → ℕ → Type 0
TitlesMatch none num_titles num_uk = num_titles ≡ 0
TitlesMatch (some units) num_titles num_uk =
    (length units ≡ num_titles + 2) × All (IsUnit num_uk) units × (num_titles ≤ 0xfffd)

-- What `_assign_titles` leaves in the struct, whatever it returns.
abbrev pub TitlesAssigned : UnitKeys → UnitKeys × Bool → Type 0
TitlesAssigned uk (uk', assigned) =
    TitlesMatch uk'.title_cps_unit uk'.num_titles uk'.num_uk
    × (uk'.num_uk ≡ uk.num_uk)
    × (uk'.enc_uk ≡ uk.enc_uk)

map_valid-TitlesMatch :
    (num_uk num first_play top_menu : ℕ) (units : List ℕ)
    → length units ≡ num
    → num ≤ 0xfffd
    → TitlesMatch (some (map (valid_unit num_uk) (first_play ∷ top_menu ∷ units))) num num_uk
map_valid-TitlesMatch num_uk num first_play top_menu units e h = (
  omega (arith, length-map (valid_unit num_uk) units),
  valid_units num_uk (first_play ∷ top_menu ∷ units),
  h,
)

-- On any file `_assign_titles` returns, reads nothing outside of it, and leaves the struct without a
-- title map or with one that names keys that exist.
pub assign_titles-TitlesAssigned :
    (uk : UnitKeys) (p : List ℕ)
    → uk.title_cps_unit ≡ none
    → uk.num_titles ≡ 0
    → Returns (TitlesAssigned uk) (assign_titles uk p (length p))
unfolding assign_titles
assign_titles-TitlesAssigned uk p fresh none_yet = ground (
  arith,
  be16_lem p 20,
  be16_lem p 22,
  be16_lem p 24,
  title_units-raw_titles (word16 p 24) 0 p,
  length-raw_titles (word16 p 24) 0 p,
  map_valid-TitlesMatch uk.num_uk (word16 p 24) (word16 p 20) (word16 p 22)
      (raw_titles (word16 p 24) 0 p),
)

-- From a file with room for the titles that it declares the map is read whole: first play, top menu
-- and each title in order, every number checked against the number of keys.
pub assign_titles_lem :
    (uk : UnitKeys) (p : List ℕ)
    → 26 ≤ length p
    → word16 p 24 ≤ 0xfffd
    → 26 + 4 * word16 p 24 ≤ length p
    → assign_titles uk p (length p)
      ≡ ok (
        record uk {
          num_titles = word16 p 24;
          title_cps_unit = some (
              map
                (valid_unit uk.num_uk)
                (word16 p 20 ∷ word16 p 22 ∷ raw_titles (word16 p 24) 0 p));
        },
        true,
      )
unfolding assign_titles
assign_titles_lem uk p long few fits =
    ground
      (arith, be16_lem p 20, be16_lem p 22, be16_lem p 24, title_units-raw_titles (word16 p 24) 0 p)
