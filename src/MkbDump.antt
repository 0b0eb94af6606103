-- ===== src/MkbDump.antt =====
-- src/devtools/mkb_dump.c: what the tool prints of a media key block. A line of output is a value
-- with the numbers in it; names of types are their numbers.
pub mod Lists
pub mod Records
pub mod Examples
use libaacs.Common.{
  ℕ, zero, suc, ◌+◌, ◌-◌, ◌*◌, ◌/◌, ◌%◌, ◌^◌, Bool, true, false, not, ◌&&◌, ◌||◌, List, [], ◌∷◌,
  ◌++◌, ltb, leb, ◌==◌, if◌then◌else◌, length, drop, Run, ok, stuck, ◌>>=◌, ◌>>◌, sub64, byte_at,
  be16, be24, be32, be48, bytes_at,
}

pub data Line : Type 0 where
  -- An entry of a list: its index in the block, its id and the length of its range.
  entry : ℕ → ℕ → ℕ → Line
  -- "Signature", "Raw data" with the bytes, and their number as it is printed.
  signature : List ℕ → Line
  raw_data : ℕ → List ℕ → Line
  mkb_type_line mkb_version_line : ℕ → Line
  -- "size mismatch: total_entries=", "size mismatch" and "invalid revocation list".
  total_mismatch : ℕ → Line
  size_mismatch invalid_list : Line
  -- "Record", "invalid record", the type and size of a record in the list, and "UNKNOWN".
  record_title : ℕ → Line
  invalid_record record_line : ℕ → ℕ → Line
  unknown_rest : ℕ → Line

-- `total_entries - entries` on `uint32_t`.
unfoldable pub sub32 : ℕ → ℕ → ℕ
sub32 a b = (a + (2 ^ 32 - b)) % 2 ^ 32

-- The loop over the entries of a block: the lines, and the list behind them.
unfoldable pub dump_entries : ℕ → ℕ → List ℕ → Run (List Line × List ℕ)
dump_entries zero ii rl = ok ([], rl)
dump_entries (suc n) ii rl = do
  len ← be16 rl 0
  id ← be48 rl 2
  rest ← dump_entries n (ii + 1) (drop 8 rl)
  ok (entry ii id len ∷ rest.0, rest.1)

-- The end of a round: the test of `total_entries` has its sides the other way round.
unfoldable pub after_block : Bool → Run (List Line) → Run (List Line)
after_block true rest = rest
after_block false rest = ok (size_mismatch ∷ [])

-- The loop over the blocks with a signature each, which have `total` entries.
unfoldable pub dump_blocks : ℕ → ℕ → List ℕ → Run (List Line)
unfolding dump_entries after_block sub32
dump_blocks zero total rl = stuck
dump_blocks (suc fuel) total rl =
    let next = λ (t : ℕ) (l : List ℕ). dump_blocks fuel t l in
    if not (ltb 0 total && leb 4 (length rl)) then ok [] else (do
      entries ← be32 rl 0
      let body = drop 4 rl
      if leb ((0xffffffff - 8 - 40) / 8) entries
          then ok (invalid_list ∷ [])
          else if ltb (length body) (8 * entries + 40)
          then ok (size_mismatch ∷ [])
          else (do
            r ← dump_entries entries 0 body
            sig ← bytes_at r.1 0 40
            rest ← after_block (leb total entries) (next (sub32 total entries) (drop 40 r.1))
            ok (r.0 ++ (signature sig ∷ rest))))

-- `rl` has `rl_size` bytes. A block takes four bytes or more, or ends the loop.
unfoldable pub dump_aacs1_rl : List ℕ → Run (List Line)
unfolding dump_blocks
dump_aacs1_rl rl = if ltb (length rl) 4 then ok [] else (do
  total ← be32 rl 0
  let body = drop 4 rl
  if ltb (length body / 8) total
      then ok (total_mismatch total ∷ [])
      else dump_blocks (suc (length body)) total body)

unfoldable pub dump_type_and_version : List ℕ → Run (List Line)
dump_type_and_version p = if not (leb 4 (length p)) then ok [] else (do
  type ← be32 p 0
  if not (leb 8 (length p))
      then ok (mkb_type_line type ∷ [])
      else (do version ← be32 p 4; ok (mkb_type_line type ∷ mkb_version_line version ∷ [])))

-- The `switch` on the record, for its body.
unfoldable pub dump_body : ℕ → ℕ → List ℕ → Run (List Line)
unfolding dump_type_and_version dump_aacs1_rl
dump_body rec len body =
    if not (ltb 4 len)
    then ok []
    else if rec == 0x02
    then (if leb len 64 then ok (signature body ∷ []) else ok [])
    else if rec == 0x10
    then dump_type_and_version body
    else if rec == 0x20 || rec == 0x21
    then dump_aacs1_rl body
    else ok []

-- A record that was found, of `len` bytes at `pos`. With fewer than four bytes `len - 4` wraps
-- around, and no bytes are printed.
unfoldable pub dump_found : List ℕ → ℕ → ℕ → ℕ → Run (List Line)
unfolding dump_body
dump_found bytes rec pos len = do
  body ← bytes_at bytes (pos + 4) (len - 4)
  lines ← dump_body rec len body
  ok (lines ++ (raw_data (sub64 len 4) body ∷ []))

-- The loop of `_dump_record` over `bytes`, which are as many as `mkb_data_size` says.
unfoldable pub dump_from : ℕ → List ℕ → ℕ → ℕ → Run (List Line)
unfolding dump_found
dump_from zero bytes rec pos = stuck
dump_from (suc fuel) bytes rec pos =
    let next = λ (p : ℕ). dump_from fuel bytes rec p in
    if not (leb (pos + 4) (length bytes)) then ok [] else (do
      type ← byte_at bytes pos
      len ← be24 bytes (pos + 1)
      if ltb (length bytes - pos) len
          then ok (invalid_record type len ∷ [])
          else if type == rec
          then dump_found bytes rec pos len
          else next (pos + len))

unfoldable pub dump_record : ℕ → List ℕ → ℕ → Run (List Line)
unfolding dump_from
dump_record fuel bytes rec = do lines ← dump_from fuel bytes rec 0; ok (record_title rec ∷ lines)

-- The loop of `_list_records`: the lines, and the types that were seen.
unfoldable pub list_from : ℕ → List ℕ → ℕ → Run (List Line × List ℕ)
list_from zero bytes pos = stuck
list_from (suc fuel) bytes pos =
    let next = λ (p : ℕ). list_from fuel bytes p in
    if not (leb (pos + 4) (length bytes)) then ok ([], []) else (do
      type ← byte_at bytes pos
      len ← be24 bytes (pos + 1)
      if len == 0
          then ok (record_line type len ∷ unknown_rest (length bytes - pos) ∷ [], type ∷ [])
          else (do rest ← next (pos + len); ok (record_line type len ∷ rest.0, type ∷ rest.1)))

-- A record takes a byte or more, or ends the loop.
unfoldable pub list_records : List ℕ → Run (List Line × List ℕ)
unfolding list_from
list_records bytes = list_from (suc (length bytes)) bytes 0

-- The types with a name in `rec_names`.
abbrev pub rec_names : List ℕ
rec_names = 0x02 ∷ 0x04 ∷ 0x05 ∷ 0x07 ∷ 0x0c ∷ 0x10 ∷ 0x20 ∷ 0x21 ∷ 0x30 ∷ 0x31 ∷ 0x81 ∷ 0x86 ∷ []

unfoldable pub is_seen : List ℕ → ℕ → Bool
is_seen [] type = false
is_seen (t ∷ seen) type = let rest = is_seen seen type in t == type || rest

-- `_list_missing_records`; the names are in the order of their types.
unfoldable pub missing_of : List ℕ → List ℕ → List ℕ
unfolding is_seen
missing_of [] seen = []
missing_of (type ∷ types) seen =
    let rest = missing_of types seen in if is_seen seen type then rest else type ∷ rest

unfoldable pub list_missing_records : List ℕ → List ℕ
unfolding missing_of
list_missing_records seen = missing_of rec_names seen
