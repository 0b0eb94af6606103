-- ===== src/Cache/RoundTrip.antt =====
-- What is saved by keydbcfg.c, and read back.
use libaacs.Common.{
  same_bytes_refl, ℕ, suc, ◌+◌, ◌*◌, ◌/◌, ◌%◌, ◌^◌, ◌≤◌, ◌<◌, ◌≡◌, refl, sym, ap, ◌∙◌, inl, inr,
  Bool, true, false, Option, none, some, List, [], ◌∷◌, ◌++◌, arith, ◌==◌, le→leb, Bool-cases,
  length, take, All, ok, IsByte, byte,
}
use mathlib.Core.List.{append_assoc, append-nil}
use libaacs.Common.Slices.{slice-drop, slice_front, take_whole}
use libaacs.Hex.{str_print_hex, hexstring_to_hex_array, hex_pair, nibble}
use libaacs.Hex.RoundTrip.{hex_value-nibble}
use libaacs.Files.{Disk, Os, update, write_all, save_file, save_below, file_mkdirs, file_read}
use libaacs.Cache.{
  Env, save_at, open_at, keycache_file, keycache_save, keycache_find, key_from, le32, word_le32,
  cache_file, cache_save, cache_get, cached_or_none, cached, cached_data,
}

abbrev pub concat : List (List ℕ) → List ℕ
concat [] = []
concat (c ∷ cs) = c ++ concat cs

write_all-concat :
    (os : Os) (path written : List ℕ) (chunks : List (List ℕ))
    → (write_all os path written chunks).1 ≡ true
    → (write_all os path written chunks).0 ≡ written ++ concat chunks
unfolding write_all
write_all-concat os path written [] h = sym (append-nil written)
write_all-concat os path written (c ∷ cs) h =
    elim (Bool-cases (os.write path (length written) (length c) == length c)) [
      | inl whole ↦
          let all : (write_all os path (written ++ c) cs).1 ≡ true = rw whole at h in
          rw whole
            (write_all-concat os path (written ++ c) cs all ∙ append_assoc written c (concat cs))
      | inr part ↦ absurd (false_not_true (rw part at h))
    ]
  where
    false_not_true : ◌≡◌ {A = Bool} false true → ⊥
    false_not_true e = absurd cc

save_below-contents :
    (os : Os) (d : Disk × Bool) (path : List ℕ) (chunks : List (List ℕ))
    → (save_below os d path chunks).1 ≡ true
    → (save_below os d path chunks).0.files path ≡ some (concat chunks)
unfolding save_below save_file
save_below-contents os (disk, false) path chunks h = absurd cc
save_below-contents os (disk, true) path chunks h = elim (Bool-cases (os.open_w path)) [
  | inl opened ↦ rw opened (
      unfold update in
      rw (same_bytes_refl path) (ap some (write_all-concat os path [] chunks (rw opened at h))))
  | inr shut ↦ absurd (false_not_true (rw shut at h))
]
  where
    false_not_true : ◌≡◌ {A = Bool} false true → ⊥
    false_not_true e = absurd cc

-- A file that was saved has what was written.
pub save_at-open_at :
    (os : Os) (disk : Disk) (path : Option (List ℕ)) (chunks : List (List ℕ))
    → (save_at os disk path chunks).1 ≡ true
    → open_at (save_at os disk path chunks).0 path ≡ some (concat chunks)
unfolding save_at open_at
save_at-open_at os disk none chunks h = absurd cc
save_at-open_at os disk (some path) chunks h =
    save_below-contents os (file_mkdirs os disk path) path chunks h

pub file_read_whole : (xs : List ℕ) → file_read xs 0 (length xs) ≡ some xs
unfolding file_read
file_read_whole xs =
    rw (le→leb (0 + length xs) (length xs) (omega arith), slice_front (length xs) xs (omega arith))
      (ap some (take_whole xs))

abbrev digits : List ℕ → List ℕ
digits [] = []
digits (x ∷ xs) = nibble (x / 2 ^ 4 % 16) ∷ nibble (x % 16) ∷ digits xs

length-digits : (xs : List ℕ) → length (digits xs) ≡ length xs * 2
length-digits [] = refl
length-digits (x ∷ xs) = omega (arith, length-digits xs)

take-digits : (xs : List ℕ) → take (length xs * 2) (str_print_hex xs) ≡ digits xs
unfolding str_print_hex
take-digits [] = refl
take-digits (x ∷ xs) =
    let two : length (x ∷ xs) * 2 ≡ suc (suc (length xs * 2)) = omega arith in
    rw (two, take-digits xs) refl

hexstring_to_hex_array-digits :
    (xs : List ℕ) → All IsByte xs → hexstring_to_hex_array (length xs) (digits xs) ≡ ok (xs, true)
unfolding hexstring_to_hex_array
hexstring_to_hex_array-digits [] bytes = refl
hexstring_to_hex_array-digits (x ∷ xs) (byte_x, bytes) =
    let whole : x / 2 ^ 4 % 16 * 16 + x % 16 ≡ x = omega arith in
    rw
      (
        hex_value-nibble (x / 2 ^ 4 % 16) (omega arith),
        hex_value-nibble (x % 16) (omega arith),
        hexstring_to_hex_array-digits xs bytes,
      )
      (unfold hex_pair in rw whole refl)

-- A key that was saved is found, as it was.
pub keycache_find-keycache_save :
    (env : Env) (os : Os) (disk : Disk) (type disc_id key : List ℕ)
    → All IsByte key
    → (keycache_save env os disk type disc_id key).1 ≡ true
    → keycache_find env (keycache_save env os disk type disc_id key).0 type disc_id (length key)
      ≡ ok (key, true)
unfolding keycache_find keycache_save
keycache_find-keycache_save env os disk type disc_id key bytes saved =
    rw
      (
        save_at-open_at os disk (keycache_file env type disc_id)
            (take (length key * 2) (str_print_hex key) ∷ []) saved,
        take-digits key,
        append-nil (digits key),
      )
      (read_back key bytes)
  where
    read_back :
        (key : List ℕ) → All IsByte key → key_from (length key) (some (digits key)) ≡ ok (key, true)
    read_back key bytes =
        rw (← length-digits key, file_read_whole (digits key))
          (hexstring_to_hex_array-digits key bytes)

pub word_le32-front : (n : ℕ) (rest : List ℕ) → n < 2 ^ 32 → word_le32 (le32 n ++ rest) 0 ≡ n
unfolding word_le32 le32 byte
word_le32-front n rest h = omega arith

pub word_le32-second :
    (m n : ℕ) (rest : List ℕ) → n < 2 ^ 32 → word_le32 (le32 m ++ (le32 n ++ rest)) 4 ≡ n
unfolding word_le32 le32 byte
word_le32-second m n rest h = omega arith

-- Behind the two words.
file_read-third :
    (m n : ℕ) (bytes : List ℕ)
    → file_read (le32 m ++ (le32 n ++ bytes)) 8 (length bytes) ≡ some bytes
unfolding file_read
file_read-third m n bytes =
    let all : length (le32 m ++ (le32 n ++ bytes)) ≡ 8 + length bytes =
      unfold le32 in omega arith in
    rw
      (
        le→leb (8 + length bytes) (length (le32 m ++ (le32 n ++ bytes))) (omega arith),
        slice-drop (le32 m ++ (le32 n ++ bytes)) 8 (length bytes),
      )
      (unfold le32 in
        rw (slice_front (length bytes) bytes (omega arith)) (ap some (take_whole bytes)))

cached-fields :
    (contents : List ℕ) (version len buf_size : ℕ) (bytes : List ℕ)
    → word_le32 contents 0 ≡ version
    → word_le32 contents 4 ≡ len
    → 8 ≤ length contents
    → len ≤ buf_size
    → file_read contents 8 len ≡ some bytes
    → cached contents true true buf_size
      ≡ record { version = version; len = len; bytes = bytes; found = true }
unfolding cached cached_data
cached-fields contents version len buf_size bytes v l long fits read =
    rw
      (
        v,
        l,
        le→leb 4 (length contents) (omega arith),
        le→leb 8 (length contents) long,
        le→leb len buf_size fits,
        read,
      )
      refl

-- Data that was saved with a version is read back with it, if the buffer is large enough.
pub cache_get-cache_save :
    (env : Env) (os : Os) (disk : Disk) (name : List ℕ) (version : ℕ) (bytes : List ℕ)
    (buf_size : ℕ)
    → version < 2 ^ 32
    → length bytes < 2 ^ 32
    → length bytes ≤ buf_size
    → (cache_save env os disk name version bytes).1 ≡ true
    → cache_get env (cache_save env os disk name version bytes).0 name true true buf_size
      ≡ record { version = version; len = length bytes; bytes = bytes; found = true }
unfolding cache_get cache_save
cache_get-cache_save env os disk name version bytes buf_size small short fits saved =
    rw
      (
        save_at-open_at os disk (cache_file env name)
            (le32 version ∷ le32 (length bytes) ∷ bytes ∷ []) saved,
        append-nil bytes,
      )
      (unfold cached_or_none in
        cached-fields (le32 version ++ (le32 (length bytes) ++ bytes)) version (length bytes)
          buf_size bytes (word_le32-front version (le32 (length bytes) ++ bytes) small)
          (word_le32-second version (length bytes) bytes short) (unfold le32 in omega arith) fits
          (file_read-third version (length bytes) bytes))
