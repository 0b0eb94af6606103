-- ===== src/Rl.antt =====
-- The revocation lists of src/libaacs/aacs.c: they are taken from the media key block to the cache, and from
-- there by the player.
pub mod Signed
pub mod Cached
pub mod Examples
use libaacs.Common.{
  ℕ, zero, suc, ◌+◌, ◌-◌, ◌*◌, ◌/◌, ◌%◌, ◌^◌, Bool, true, false, not, ◌&&◌, ◌||◌, Option, none,
  some, List, [], ◌∷◌, ◌++◌, ltb, leb, ◌==◌, if◌then◌else◌, Run, ok, ◌>>=◌, ◌>>◌, be16, be24, be32,
  bytes_at,
}
use libaacs.Mkb.{
  Mkb, mkb_version, mkb_type_and_version_record, mkb_drive_revokation_entries,
  mkb_host_revokation_entries,
}
use libaacs.Mmc.Auth.{Curve}
use libaacs.Files.{Disk, Os}
use libaacs.Cache.{Env, cache_save, cache_get, CacheRead}

-- `12 + 12 + 8 * entries`, computed as a `uint32_t`.
unfoldable pub signed_len : ℕ → ℕ
signed_len entries = (12 + 12 + 8 * entries) % 2 ^ 32

-- `_rl_verify_signature`.
unfoldable pub rl_verify_signature : Curve → List ℕ → ℕ → Run Bool
rl_verify_signature c rl size = if ltb size 40 then ok false else (do
  entries ← be32 rl (12 + 8)
  if leb ((0xffff_ffff - 24 - 40) / 8) entries
      then ok false
      else if ltb (size - 40) (signed_len entries)
      then ok false
      else (do
        signature ← bytes_at rl (signed_len entries) 40
        signed ← bytes_at rl 0 (signed_len entries)
        ok (c.verify_aacsla signature signed)))

-- `_save_rl`, on a record of the block whose body starts at `rl_rec`.
unfoldable pub save_rl : Curve → Env → Os → Disk → List ℕ → ℕ → List ℕ → ℕ → ℕ → ℕ → Run Disk
save_rl c env os disk name version buf version_rec rl_rec rl_len = do
  len ← be24 buf (rl_rec - 3)
  entries ← be32 buf (rl_rec + 4)
  if ltb len 4 || entries == 0 then ok disk else (do
    version_bytes ← bytes_at buf version_rec 12
    rl_bytes ← bytes_at buf (rl_rec - 4) (rl_len + 4)
    let bytes = version_bytes ++ rl_bytes in
        do
          valid ← rl_verify_signature c bytes (rl_len + 4 + 12)
          ok (if valid then (cache_save env os disk name version bytes).0 else disk))

-- If there is a version record, and a list longer than 8 bytes.
unfoldable pub save_found :
    Curve → Env → Os → Disk → List ℕ → ℕ → List ℕ → Option ℕ → Option ℕ × ℕ → Run (Disk × Option ℕ)
unfolding save_rl
save_found c env os disk name version buf (some version_rec) (some rl_rec, rl_len) =
    if ltb 8 rl_len
    then (do
      disk' ← save_rl c env os disk name version buf version_rec rl_rec rl_len
      ok (disk', some rl_len))
    else ok (disk, some rl_len)
save_found c env os disk name version buf _ (_, rl_len) = ok (disk, some rl_len)

-- One of the lists, with the accessor of its record, if the cache has none or an older one. The length is
-- `none` as long as it has no value.
unfoldable pub update_list :
    Curve
    → Env
    → Os
    → Mkb
    → ℕ
    → List ℕ
    → (Mkb → Option ℕ → Run (Option ℕ × ℕ))
    → Disk × Option ℕ
    → Run (Disk × Option ℕ)
unfolding save_found
update_list c env os mkb version name revokation_entries (disk, rl_len) =
    let cache = cache_get env disk name false false 0 in
    if not cache.found || ltb cache.version version
    then (do
      version_rec ← mkb_type_and_version_record mkb
      rl_rec ← revokation_entries mkb rl_len
      save_found c env os disk name version mkb.buf version_rec rl_rec)
    else ok (disk, rl_len)

-- "drl" and "hrl".
abbrev pub drl : List ℕ
drl = b'd' ∷ b'r' ∷ b'l' ∷ []

abbrev pub hrl : List ℕ
hrl = b'h' ∷ b'r' ∷ b'l' ∷ []

unfoldable pub update_rl : Curve → Env → Os → Disk → Mkb → Run Disk
unfolding update_list
update_rl c env os disk mkb = do
  version ← mkb_version mkb
  d ← update_list c env os mkb version drl mkb_drive_revokation_entries (disk, none)
  h ← update_list c env os mkb version hrl mkb_host_revokation_entries d
  ok h.0

-- `AACS_RL_ENTRY`.
pub record RlEntry : Type 0 where
  pub range : ℕ
  pub id : List ℕ

unfoldable pub rl_entries : ℕ → List ℕ → ℕ → Run (List RlEntry)
rl_entries zero buf p = ok []
rl_entries (suc n) buf p = do
  range ← be16 buf p
  id ← bytes_at buf (p + 2) 6
  rest ← rl_entries n buf (p + 8)
  ok ((record { range = range; id = id }) ∷ rest)

-- `*num_records` after the test against the length.
unfoldable pub num_records : ℕ → ℕ → ℕ
num_records len entries = if ltb ((len - 24) / 8) entries then (len - 24) / 8 else entries

-- The list, with the version of its block, from data of the cache; `none` is NULL.
unfoldable pub verified_list : Bool → ℕ → List ℕ → ℕ → Run (Option (ℕ × List RlEntry))
unfolding num_records
verified_list false version bytes len = ok none
verified_list true version bytes len = do
  entries ← be32 bytes 20
  rl ← rl_entries (num_records len entries) bytes 24
  ok (some (version, rl))

unfoldable pub list_in : Curve → CacheRead → Run (Option (ℕ × List RlEntry))
unfolding verified_list
list_in c r =
    if r.found && ltb 24 r.len
    then (do
      valid ← rl_verify_signature c r.bytes r.len
      verified_list valid r.version r.bytes r.len)
    else ok none

-- `_get_rl`: the length is read first, and then all of it.
unfoldable pub get_rl : Curve → Env → Disk → List ℕ → Run (Option (ℕ × List RlEntry))
get_rl c env disk type =
    let sizes = cache_get env disk type true false 0 in
    if ltb 0 sizes.version && ltb 24 sizes.len
    then list_in c (cache_get env disk type true true sizes.len)
    else ok none

unfoldable pub aacs_get_hrl : Curve → Env → Disk → Run (Option (ℕ × List RlEntry))
unfolding get_rl
aacs_get_hrl c env disk = get_rl c env disk hrl

unfoldable pub aacs_get_drl : Curve → Env → Disk → Run (Option (ℕ × List RlEntry))
unfolding get_rl
aacs_get_drl c env disk = get_rl c env disk drl
