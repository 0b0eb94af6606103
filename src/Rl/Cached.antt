-- ===== src/Rl/Cached.antt =====
-- Lists that go through the cache.
use libaacs.Common.{
  ℕ, ◌+◌, ◌*◌, ◌^◌, ◌≤◌, ◌<◌, ◌≡◌, refl, inl, inr, true, false, ◌&&◌, Option, none, some, List, [],
  ◌∷◌, ◌++◌, arith, ltb, leb, lt→ltb, le→leb, Bool-cases, length, ok, Returns, word32, slice,
  be32_lem, length-slice,
}
use mathlib.Core.List.{append-nil}
use libaacs.Mmc.Auth.{Curve}
use libaacs.Files.{Disk, Os, file_read}
use libaacs.Cache.{
  Env, cache_save, cache_get, cached, cached_data, cached_or_none, cache_file, open_at, le32,
  word_le32,
}
use libaacs.Cache.RoundTrip.{
  cache_get-cache_save, save_at-open_at, word_le32-front, word_le32-second,
}
use libaacs.Rl.{rl_verify_signature, num_records, verified_list, list_in, get_rl}
use libaacs.Rl.Signed.{
  IsSignedList, rl_verify_signature-Verdict, IsListOf, list_in-IsListOf, entries_of,
  rl_entries-entries_of,
}

cached_data-len :
    (contents : List ℕ) (version len : ℕ) (o : Option (List ℕ))
    → ((bytes : List ℕ) → o ≡ some bytes → length bytes ≡ len)
    → (cached_data contents version len true o).found ≡ true
    → length (cached_data contents version len true o).bytes
      ≡ (cached_data contents version len true o).len
unfolding cached_data
cached_data-len contents version len none h found = absurd cc
cached_data-len contents version len (some bytes) h found = h bytes refl

file_read-len :
    (contents : List ℕ) (p len : ℕ) (bytes : List ℕ)
    → file_read contents p len ≡ some bytes
    → length bytes ≡ len
unfolding file_read
file_read-len contents p len bytes e = elim (Bool-cases (leb (p + len) (length contents))) [
  | inl fits ↦
      let same : slice contents p len ≡ bytes = some_injective (rw fits at e) in
      rw (← same) (length-slice contents p len)
  | inr past ↦ absurd (none_not_some (rw past at e))
]
  where
    some_injective : {x y : List ℕ} → some x ≡ some y → x ≡ y
    some_injective e = cc

    none_not_some : {x : List ℕ} → ◌≡◌ {A = Option (List ℕ)} none (some x) → ⊥
    none_not_some e = absurd cc

cached-len :
    (contents : List ℕ) (size : ℕ)
    → (cached contents true true size).found ≡ true
    → length (cached contents true true size).bytes ≡ (cached contents true true size).len
unfolding cached
cached-len contents size = elim (Bool-cases (leb 4 (length contents))) [
  | inr short ↦ rw short (λ found. absurd cc)
  | inl long ↦ elim (Bool-cases (leb 8 (length contents) && leb (word_le32 contents 4) size)) [
    | inr part ↦ rw (long, part) (λ found. absurd cc)
    | inl sized ↦
        rw (long, sized)
          (cached_data-len contents (word_le32 contents 0) (word_le32 contents 4)
            (file_read contents 8 (word_le32 contents 4))
            (λ bytes e. file_read-len contents 8 (word_le32 contents 4) bytes e))
  ]
]

cache_get-len :
    (o : Option (List ℕ)) (size : ℕ)
    → (cached_or_none o true true size).found ≡ true
    → length (cached_or_none o true true size).bytes ≡ (cached_or_none o true true size).len
unfolding cached_or_none
cache_get-len none size found = refl
cache_get-len (some contents) size found = cached-len contents size found

-- On any files a list of the cache is looked up without a read outside of its bytes; what is given are all
-- entries of a whole list with a valid signature, and the version that the cache has for it.
pub get_rl-IsListOf :
    (c : Curve) (env : Env) (disk : Disk) (type : List ℕ)
    → Returns
        (IsListOf c (cache_get env disk type true true (cache_get env disk type true false 0).len))
        (get_rl c env disk type)
unfolding get_rl
get_rl-IsListOf c env disk type =
    let sizes = cache_get env disk type true false 0 in
    elim (Bool-cases (ltb 0 sizes.version && ltb 24 sizes.len)) [
      | inr small ↦ rw small (record {})
      | inl large ↦ rw large (
          list_in-IsListOf c (cache_get env disk type true true sizes.len)
            (unfold cache_get in cache_get-len (open_at disk (cache_file env type)) sizes.len))
    ]

cached_sizes :
    (contents : List ℕ) (version len : ℕ)
    → word_le32 contents 0 ≡ version
    → word_le32 contents 4 ≡ len
    → 8 ≤ length contents
    → 0 < len
    → cached contents true false 0
      ≡ record { version = version; len = len; bytes = []; found = false }
unfolding cached
cached_sizes contents version len v l long some_bytes =
    rw
      (
        v,
        l,
        le→leb 4 (length contents) (omega arith),
        le→leb 8 (length contents) long,
        positive len some_bytes,
      )
      refl
  where
    positive : (n : ℕ) → 0 < n → leb n 0 ≡ false
    positive n h = ground arith

cache_get_sizes-cache_save :
    (env : Env) (os : Os) (disk : Disk) (name : List ℕ) (version : ℕ) (bytes : List ℕ)
    → version < 2 ^ 32
    → length bytes < 2 ^ 32
    → 0 < length bytes
    → (cache_save env os disk name version bytes).1 ≡ true
    → cache_get env (cache_save env os disk name version bytes).0 name true false 0
      ≡ record { version = version; len = length bytes; bytes = []; found = false }
unfolding cache_get cache_save
cache_get_sizes-cache_save env os disk name version bytes small short some_bytes saved =
    rw
      (
        save_at-open_at os disk (cache_file env name)
            (le32 version ∷ le32 (length bytes) ∷ bytes ∷ []) saved,
        append-nil bytes,
      )
      (unfold cached_or_none in
        cached_sizes (le32 version ++ (le32 (length bytes) ++ bytes)) version (length bytes)
          (word_le32-front version (le32 (length bytes) ++ bytes) small)
          (word_le32-second version (length bytes) bytes short) (unfold le32 in omega arith)
          some_bytes)

verified_list-entries_of :
    (version : ℕ) (bytes : List ℕ)
    → 24 + 8 * word32 bytes 20 + 40 ≤ length bytes
    → verified_list true version bytes (length bytes)
      ≡ ok (some (version, entries_of (word32 bytes 20) bytes 24))
unfolding verified_list
verified_list-entries_of version bytes long =
    let n : num_records (length bytes) (word32 bytes 20) ≡ word32 bytes 20 =
      unfold num_records in ground arith in
    rw
      (
        be32_lem bytes 20 (omega arith),
        n,
        rl_entries-entries_of (word32 bytes 20) bytes 24 (omega arith),
      )
      refl

-- A signed list that was saved with a version other than 0 is given out again, with all of its entries.
pub get_rl-cache_save :
    (c : Curve) (env : Env) (os : Os) (disk : Disk) (type : List ℕ) (version : ℕ) (bytes : List ℕ)
    → 0 < version
    → version < 2 ^ 32
    → length bytes < 2 ^ 32
    → rl_verify_signature c bytes (length bytes) ≡ ok true
    → (cache_save env os disk type version bytes).1 ≡ true
    → get_rl c env (cache_save env os disk type version bytes).0 type
      ≡ ok (some (version, entries_of (word32 bytes 20) bytes 24))
unfolding get_rl
get_rl-cache_save c env os disk type version bytes some_version small short valid saved =
    let (long, signed) : IsSignedList c bytes = rw valid at (rl_verify_signature-Verdict c bytes) in
    rw
      (
        cache_get_sizes-cache_save env os disk type version bytes small short (omega arith) saved,
        lt→ltb 0 version some_version,
        lt→ltb 24 (length bytes) (omega arith),
        cache_get-cache_save env os disk type version bytes (length bytes) small short (omega arith)
            saved,
      )
      (unfold list_in in
        rw (lt→ltb 24 (length bytes) (omega arith), valid)
          (verified_list-entries_of version bytes long))
