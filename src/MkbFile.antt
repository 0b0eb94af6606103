-- ===== src/MkbFile.antt =====
-- `_read_mkb_file` of src/libaacs/aacs.c: the media key block is read from its file record by record.
pub mod Records
pub mod Examples
use libaacs.Common.{
  ℕ, zero, suc, ◌+◌, ◌-◌, ◌*◌, ◌||◌, Option, none, some, List, [], ltb, if◌then◌else◌, length, take,
  Run, ok, fault, stuck, ◌>>=◌, ◌>>◌, word24,
}

-- The loop: `size` bytes of the file were read to a buffer of `data_size` bytes, and the next read
-- takes `chunk_size`. `none` is a read that fails.
unfoldable pub read_records : ℕ → List ℕ → ℕ → ℕ → ℕ → Run (Option ℕ)
read_records zero file size data_size chunk_size = stuck
read_records (suc fuel) file size data_size chunk_size =
    let size' = size + chunk_size in
    let chunk_size' = word24 file (size' - 3) in
    let data_size' =
      if ltb data_size (size' + chunk_size') then 2 * size' + chunk_size' else data_size in
    let rest = read_records fuel file size' data_size' chunk_size' in
    if ltb data_size size'
    then fault
    else if ltb (length file) size'
    then ok none
    else if ltb (length file - size' + 4) chunk_size' || ltb chunk_size' 4
    then ok (some size')
    else rest

-- The bytes that are returned; none for size 0.
unfoldable pub read_bytes : List ℕ → Option ℕ → List ℕ
read_bytes file none = []
read_bytes file (some size) = take size file

-- Each round reads 4 bytes or more.
unfoldable pub read_mkb_file : Option (List ℕ) → Run (List ℕ)
unfolding read_bytes
read_mkb_file none = ok []
read_mkb_file (some file) =
    if ltb (length file) 4
    then ok []
    else (do size ← read_records (suc (length file)) file 0 65536 4; ok (read_bytes file size))

-- `_mkb_open`: the file, or its backup; `none` is NULL.
unfoldable pub mkb_file : Option (List ℕ) → Option (List ℕ) → Run (Option (List ℕ))
unfolding read_mkb_file
mkb_file main backup = do
  first ← read_mkb_file main
  if ltb (length first) 4
      then (do
        second ← read_mkb_file backup
        if ltb (length second) 4 then ok none else ok (some second))
      else ok (some first)
