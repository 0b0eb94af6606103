-- ===== src/Keydb/Grammar/Discs.antt =====
-- The entries of discs that the parser of KEYDB.cfg makes.
use libaacs.Common.{
  ℕ, suc, ◌*◌, ◌<◌, ◌≡◌, refl, inl, inr, Bool, not, ◌&&◌, Option, none, some, List, ◌∷◌, arith,
  ◌==◌, Bool-cases, length, replicate, All, Returns,
}
use libaacs.Hex.{hexstring_to_hex_array}
use libaacs.Keydb.{TitleEntry, ConfigFile}
use libaacs.Common.Partial.{Returns-then}
use libaacs.Keydb.Distinct.{HasLength, hexstring_to_hex_array-HasLength}
use libaacs.Keydb.Grammar.{ParserState, string_in}
use libaacs.Keydb.Grammar.Titles.{
  EntryType, entry_discid, entry_mek, entry_vid, entry_vuk, entry_uk, new_title_entry, change_at,
  put_key, add_entry, new_disc, start_disc, key_of_disc, is_wanted,
}
use libaacs.Keydb.Grammar.Buffer.{
  IsHex, IsBuffer, string_in-IsHex, hexstring_to_hex_array-front, length-written,
}
use libaacs.Keydb.Grammar.WellFormed.{IsTitle, IsLive, IsState, Kept, change_at-Kept}

abbrev KeptEntry : List TitleEntry → List TitleEntry × Bool → Type 0
KeptEntry list r = Kept list r.0

put_key-Kept :
    (list : List TitleEntry) (e n : ℕ) (entry : List ℕ)
    (put : List ℕ × Bool → TitleEntry → TitleEntry)
    → All IsTitle list
    → e < length list
    → IsHex entry
    → ((w : List ℕ × Bool) → HasLength n w → (t : TitleEntry) → IsTitle t → IsTitle (put w t))
    → Returns (KeptEntry list) (put_key list e n entry put)
unfolding put_key
put_key-Kept list e n entry put titles live hex h = elim (Bool-cases (length entry == n * 2)) [
  | inl good ↦ rw good (
      Returns-then (HasLength n) (KeptEntry list) (hexstring_to_hex_array n entry) _
        (hexstring_to_hex_array-HasLength n entry hex (ground arith))
        (λ w len.
          Returns-then (Kept list) (KeptEntry list) (change_at list e (put w)) _
            (change_at-Kept list e (put w) titles live (h w len)) (λ r kept. kept)))
  | inr bad ↦ rw bad (titles, refl)
]

add_entry-Kept :
    (list : List TitleEntry) (celist : Option ℕ) (type : EntryType) (entry : List ℕ)
    → All IsTitle list
    → IsLive celist (length list)
    → IsHex entry
    → Returns (KeptEntry list) (add_entry list celist type entry)
unfolding add_entry
add_entry-Kept list none type entry titles live hex = (titles, refl)
add_entry-Kept list (some e) entry_discid entry titles live hex =
    put_key-Kept list e 20 entry _ titles live hex
      (λ w len t (id, mk, vid, vuk, uk). (length-written 20 t.discid w len id, mk, vid, vuk, uk))
add_entry-Kept list (some e) entry_mek entry titles live hex =
    put_key-Kept list e 16 entry _ titles live hex
      (λ w len t (id, mk, vid, vuk, uk). (id, length-written 16 t.mk w len mk, vid, vuk, uk))
add_entry-Kept list (some e) entry_vid entry titles live hex =
    put_key-Kept list e 16 entry _ titles live hex
      (λ w len t (id, mk, vid, vuk, uk). (id, mk, length-written 16 t.vid w len vid, vuk, uk))
add_entry-Kept list (some e) entry_vuk entry titles live hex =
    put_key-Kept list e 16 entry _ titles live hex
      (λ w len t (id, mk, vid, vuk, uk). (id, mk, vid, length-written 16 t.vuk w len vuk, uk))
add_entry-Kept list (some e) entry_uk entry titles live hex = (titles, refl)

pub key_of_disc-IsState :
    (type : EntryType) (cf : ConfigFile) (ps : ParserState)
    → IsState (cf, ps)
    → Returns IsState (key_of_disc type cf ps)
unfolding key_of_disc
key_of_disc-IsState type cf ps ((dkl, pkl, certs, titles), buffer, celist, dkplist) =
    Returns-then (λ s. IsHex s × (length s ≡ ps.hexkey_size)) IsState (string_in ps.hexkey) _
      (string_in-IsHex ps.hexkey ps.hexkey_size buffer)
      (λ entry hex.
        Returns-then (KeptEntry cf.list) IsState (add_entry cf.list ps.celist type entry) _
          (add_entry-Kept cf.list ps.celist type entry titles celist hex.0)
          (λ r kept. ((dkl, pkl, certs, kept.0), buffer, rw kept.1 celist, rw kept.1 dkplist)))

IsLive-suc : (p : Option ℕ) (n : ℕ) → IsLive p n → IsLive p (suc n)
IsLive-suc none n h = h
IsLive-suc (some e) n h = omega arith

pub disc_id_converted :
    (b : List ℕ) (n : ℕ)
    → IsBuffer b n
    → n ≡ 40
    → Returns (HasLength 20) (hexstring_to_hex_array 20 b)
disc_id_converted b n (s, rest, e, len, hex, whole) size =
    rw (e, hexstring_to_hex_array-front 20 s (0 ∷ rest) (omega arith))
      (hexstring_to_hex_array-HasLength 20 s hex (omega arith))

-- A new entry moves none of the others.
pub disc_info-IsState :
    (cf : ConfigFile) (ps : ParserState) → IsState (cf, ps) → Returns IsState (start_disc cf ps)
unfolding start_disc new_disc new_title_entry
disc_info-IsState cf ps ((dkl, pkl, certs, titles), buffer, celist, dkplist) =
    elim (Bool-cases (ps.hexkey_size == 40)) [
      | inl long ↦
          elim (Bool-cases (not ps.all_discs && not (is_wanted ps.want_disc_id ps.hexkey))) [
            | inl other ↦ rw (long, other) ((dkl, pkl, certs, titles), buffer, record {}, dkplist)
            | inr wanted ↦
                rw (long, wanted)
                  (Returns-then (HasLength 20) IsState (hexstring_to_hex_array 20 ps.hexkey) _
                    (disc_id_converted ps.hexkey ps.hexkey_size buffer (ground arith))
                    (λ w len. (
                      (
                        dkl,
                        pkl,
                        certs,
                        (
                          (
                            length-written 20 (replicate 20 0) w len refl,
                            refl,
                            refl,
                            refl,
                            record {},
                          ),
                          titles,
                        ),
                      ),
                      buffer,
                      omega arith,
                      IsLive-suc ps.dkplist (length cf.list) dkplist,
                    )))
          ]
      | inr short ↦ rw short ((dkl, pkl, certs, titles), buffer, record {}, dkplist)
    ]
