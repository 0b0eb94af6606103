-- ===== src/Keydb/Grammar/WellFormed.antt =====
-- What the parser of KEYDB.cfg keeps true of the configuration and of its own state.
use libaacs.Common.{
  ℕ, suc, ◌+◌, ◌-◌, ◌*◌, ◌^◌, ◌<◌, ◌≡◌, refl, ap, inl, inr, Option, none, some, List, [], ◌∷◌,
  arith, ltb, ◌==◌, if◌then◌else◌, Bool-cases, length, replicate, All, Returns,
}
use libaacs.MediaKey.{DeviceKey}
use libaacs.Hex.{hex_value, hexstring_to_hex_array}
use libaacs.Keydb.{DigitKeyPair, HostCert, TitleEntry, ConfigFile}
use libaacs.Common.{All-append}
use libaacs.Common.Partial.{Returns-then}
use libaacs.Keydb.Distinct.{HasLength, hexstring_to_hex_array-HasLength}
use libaacs.Keydb.Grammar.{
  Action, ParserState, dk_entry, pk_entry, host_cert_entry, hexkey_start, hexkey_more,
  hexstring_list, add_dk_entry, add_pk_entry, add_cert_entry, strtoul16,
}
use libaacs.Keydb.Grammar.Titles.{entry_at, change_at}
use libaacs.Keydb.Grammar.Buffer.{IsHex, IsHex-append, HasBuffer, length-written}

abbrev pub IsDeviceKey : DeviceKey → Type 0
IsDeviceKey d = (length d.key ≡ 16) × (d.node < 2 ^ 64) × (d.uv < 2 ^ 32) × (d.u_mask_shift < 2 ^ 8)

abbrev pub IsCert : HostCert → Type 0
IsCert h = (length h.host_priv_key ≡ 20) × (length h.host_cert ≡ 92)

abbrev pub IsTitle : TitleEntry → Type 0
IsTitle t =
    (length t.discid ≡ 20)
    × (length t.mk ≡ 16)
    × (length t.vid ≡ 16)
    × (length t.vuk ≡ 16)
    × All (λ p. length (DigitKeyPair.key p) ≡ 16) t.uk

-- Every array has the size of its type, and every number fits into its type.
abbrev pub IsConfig : ConfigFile → Type 0
IsConfig cf =
    All IsDeviceKey cf.dkl
    × All (λ key. length key ≡ 16) cf.pkl
    × All IsCert cf.host_cert_list
    × All IsTitle cf.list

-- A pointer is NULL or points to one of `n` entries.
abbrev pub IsLive : Option ℕ → ℕ → Type 0
IsLive none n = Unit
IsLive (some e) n = e < n

abbrev pub IsState : ConfigFile × ParserState → Type 0
IsState (cf, ps) =
    IsConfig cf
    × HasBuffer ps
    × IsLive ps.celist (length cf.list)
    × IsLive ps.dkplist (length cf.list)

-- The lexer gives digits.
abbrev pub AreHex : List (List ℕ) → Type 0
AreHex strs = All IsHex strs

abbrev pub IsAction : Action → Type 0
IsAction (dk_entry key node uv u_mask_shift) = AreHex key
IsAction (pk_entry key) = AreHex key
IsAction (host_cert_entry key cert) = AreHex key × AreHex cert
IsAction (hexkey_start str) = IsHex str
IsAction (hexkey_more str) = IsHex str
IsAction _ = Unit

pub hexstring_list-IsHex : (strs : List (List ℕ)) → AreHex strs → IsHex (hexstring_list strs)
unfolding hexstring_list
hexstring_list-IsHex [] h = h
hexstring_list-IsHex (str ∷ strs) (h, hs) =
    IsHex-append str (hexstring_list strs) h (hexstring_list-IsHex strs hs)

strtoul16_lt : (s : List ℕ) (n : ℕ) → strtoul16 s n < 2 ^ 64
unfolding strtoul16
strtoul16_lt [] n = ground arith
strtoul16_lt (c ∷ s) n = by_digit (hex_value c) (λ v. strtoul16_lt s (n * 16 + v))
  where
    by_digit :
        (o : Option ℕ)
        → ((v : ℕ) → strtoul16 s (n * 16 + v) < 2 ^ 64)
        → elim o [
          | none ↦ if ltb n (2 ^ 64) then n else 2 ^ 64 - 1
          | some v ↦ strtoul16 s (n * 16 + v)
        ]
          < 2 ^ 64
    by_digit none h = ground arith
    by_digit (some v) h = h v

pub add_dk_entry-AreKeys :
    (dkl : List DeviceKey) (key node : List ℕ) (uv u_mask_shift : Option (List (List ℕ)))
    → All IsDeviceKey dkl
    → IsHex key
    → Returns (All IsDeviceKey) (add_dk_entry dkl key node uv u_mask_shift)
unfolding add_dk_entry
add_dk_entry-AreKeys dkl key node uv u_mask_shift keys hex = elim (Bool-cases (length key == 32)) [
  | inl good ↦ rw good (
      Returns-then (HasLength 16) (All IsDeviceKey) (hexstring_to_hex_array 16 key) _
        (hexstring_to_hex_array-HasLength 16 key hex (ground arith))
        (λ w len. All-append IsDeviceKey dkl _ keys (
          (
            length-written 16 (replicate 16 0) w len refl,
            strtoul16_lt node 0,
            omega arith,
            omega arith,
          ),
          record {},
        )))
  | inr bad ↦ rw bad keys
]

pub add_pk_entry-AreKeys :
    (pkl : List (List ℕ)) (key : List ℕ)
    → All (λ k. length k ≡ 16) pkl
    → IsHex key
    → Returns (All (λ k. length k ≡ 16)) (add_pk_entry pkl key)
unfolding add_pk_entry
add_pk_entry-AreKeys pkl key keys hex = elim (Bool-cases (length key == 32)) [
  | inl good ↦ rw good (
      Returns-then (HasLength 16) (All (λ k. length k ≡ 16)) (hexstring_to_hex_array 16 key) _
        (hexstring_to_hex_array-HasLength 16 key hex (ground arith))
        (λ w len.
          All-append (λ k. length k ≡ 16) pkl _ keys
            (length-written 16 (replicate 16 0) w len refl, record {})))
  | inr bad ↦ rw bad keys
]

pub add_cert_entry-AreCerts :
    (list : List HostCert) (key cert : List ℕ)
    → All IsCert list
    → IsHex key
    → IsHex cert
    → Returns (All IsCert) (add_cert_entry list key cert)
unfolding add_cert_entry
add_cert_entry-AreCerts list key cert certs hex hexc = elim (Bool-cases (length key == 40)) [
  | inl good ↦ elim (Bool-cases (length cert == 184)) [
    | inl whole ↦
        rw (good, whole)
          (Returns-then (HasLength 20) (All IsCert) (hexstring_to_hex_array 20 key) _
            (hexstring_to_hex_array-HasLength 20 key hex (ground arith))
            (λ w len.
              Returns-then (HasLength 92) (All IsCert) (hexstring_to_hex_array 92 cert) _
                (hexstring_to_hex_array-HasLength 92 cert hexc (ground arith))
                (λ v more. All-append IsCert list _ certs (
                  (
                    length-written 20 (replicate 20 0) w len refl,
                    length-written 92 (replicate 92 0) v more refl,
                  ),
                  record {},
                ))))
    | inr bad ↦ rw (good, bad) certs
  ]
  | inr bad ↦ rw bad certs
]

abbrev pub Kept : List TitleEntry → List TitleEntry → Type 0
Kept list r = All IsTitle r × (length r ≡ length list)

-- A live pointer can be followed, and what is changed there keeps the others.
pub change_at-Kept :
    (list : List TitleEntry) (e : ℕ) (f : TitleEntry → TitleEntry)
    → All IsTitle list
    → e < length list
    → ((t : TitleEntry) → IsTitle t → IsTitle (f t))
    → Returns (Kept list) (change_at list e f)
unfolding change_at
change_at-Kept [] e f titles live h = absurd (omega arith)
change_at-Kept (t ∷ list) e f (title, titles) live h = elim (Bool-cases (length list == e)) [
  | inl here ↦ rw here ((h t title, titles), refl)
  | inr further ↦ rw further (
      Returns-then (Kept list) (Kept (t ∷ list)) (change_at list e f) _
        (change_at-Kept list e f titles (ground arith) h)
        (λ r kept. ((title, kept.0), ap suc kept.1)))
]

pub entry_at-IsTitle :
    (list : List TitleEntry) (e : ℕ)
    → All IsTitle list
    → e < length list
    → Returns IsTitle (entry_at list e)
unfolding entry_at
entry_at-IsTitle [] e titles live = absurd (omega arith)
entry_at-IsTitle (t ∷ list) e (title, titles) live = elim (Bool-cases (length list == e)) [
  | inl here ↦ rw here title
  | inr further ↦ rw further (entry_at-IsTitle list e titles (ground arith))
]
