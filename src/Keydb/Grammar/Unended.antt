-- ===== src/Keydb/Grammar/Unended.antt =====
-- The first entry of KEYDB.cfg behind a list of unit keys that was not ended, and the actions that
-- put other keys into entries.
use libaacs.Common.{
  ℕ, ◌*◌, ◌<◌, ◌≡◌, refl, ◌∙◌, inl, inr, Bool, false, Option, none, some, List, [], ◌∷◌, arith,
  ◌==◌, Bool-cases, length, All, Returns,
}
use libaacs.Hex.{hexstring_to_hex_array}
use libaacs.Keydb.{TitleEntry, ConfigFile}
use libaacs.Common.Partial.{Returns-then}
use libaacs.Keydb.Distinct.{HasLength, hexstring_to_hex_array-HasLength}
use libaacs.Keydb.Grammar.{ParserState, string_in}
use libaacs.Keydb.Grammar.Titles.{
  EntryType, entry_discid, entry_mek, entry_vid, entry_vuk, entry_uk, change_at, put_key, add_entry,
  key_of_disc,
}
use libaacs.Keydb.Grammar.Buffer.{IsHex, string_in-IsHex, length-written}
use libaacs.Keydb.Grammar.WellFormed.{IsTitle, IsLive, IsState, Kept, change_at-Kept}

-- The first entry has no unit keys, and `dkplist` points to the keys of another one.
abbrev pub FirstIsEmpty : List TitleEntry → Option ℕ → Type 0
FirstIsEmpty [] dkplist = ⊥
FirstIsEmpty (t ∷ list) none = ⊥
FirstIsEmpty (t ∷ list) (some j) = (t.uk ≡ []) × (j < length list)

abbrev pub First : ConfigFile × ParserState → Type 0
First (cf, ps) = FirstIsEmpty cf.list ps.dkplist

pub change_at-FirstIsEmpty :
    (list : List TitleEntry) (j : ℕ) (f : TitleEntry → TitleEntry)
    → All IsTitle list
    → ((t : TitleEntry) → IsTitle t → IsTitle (f t))
    → FirstIsEmpty list (some j)
    → Returns (λ r. FirstIsEmpty r (some j)) (change_at list j f)
unfolding change_at
change_at-FirstIsEmpty [] j f titles h first = first
change_at-FirstIsEmpty (t ∷ list) j f (title, titles) h (none_yet, live) =
    let other : (length list == j) ≡ false = ground arith in
    rw other (
      Returns-then (Kept list) (λ r. FirstIsEmpty r (some j)) (change_at list j f) _
        (change_at-Kept list j f titles live h) (λ r kept. (none_yet, rw kept.1 live)))

-- A change of any entry that keeps its unit keys.
change_at-keeps_first :
    (list : List TitleEntry) (e : ℕ) (f : TitleEntry → TitleEntry) (dkplist : Option ℕ)
    → All IsTitle list
    → e < length list
    → ((t : TitleEntry) → IsTitle t → IsTitle (f t))
    → ((t : TitleEntry) → TitleEntry.uk (f t) ≡ t.uk)
    → FirstIsEmpty list dkplist
    → Returns (λ r. FirstIsEmpty r dkplist) (change_at list e f)
unfolding change_at
change_at-keeps_first [] e f dkplist titles live h same first = first
change_at-keeps_first (t ∷ list) e f none titles live h same first = absurd first
change_at-keeps_first (t ∷ list) e f (some j) (title, titles) live h same (none_yet, behind) =
    elim (Bool-cases (length list == e)) [
      | inl here ↦ rw here (same t ∙ none_yet, behind)
      | inr further ↦ rw further (
          Returns-then (Kept list) (λ r. FirstIsEmpty r (some j)) (change_at list e f) _
            (change_at-Kept list e f titles (ground arith) h)
            (λ r kept. (none_yet, rw kept.1 behind)))
    ]

abbrev FirstOf : Option ℕ → List TitleEntry × Bool → Type 0
FirstOf dkplist r = FirstIsEmpty r.0 dkplist

put_key-FirstOf :
    (list : List TitleEntry) (e n : ℕ) (entry : List ℕ)
    (put : List ℕ × Bool → TitleEntry → TitleEntry) (dkplist : Option ℕ)
    → All IsTitle list
    → e < length list
    → IsHex entry
    → ((w : List ℕ × Bool) → HasLength n w → (t : TitleEntry) → IsTitle t → IsTitle (put w t))
    → ((w : List ℕ × Bool) (t : TitleEntry) → TitleEntry.uk (put w t) ≡ t.uk)
    → FirstIsEmpty list dkplist
    → Returns (FirstOf dkplist) (put_key list e n entry put)
unfolding put_key
put_key-FirstOf list e n entry put dkplist titles live hex h same first =
    elim (Bool-cases (length entry == n * 2)) [
      | inl good ↦ rw good (
          Returns-then (HasLength n) (FirstOf dkplist) (hexstring_to_hex_array n entry) _
            (hexstring_to_hex_array-HasLength n entry hex (ground arith))
            (λ w len.
              Returns-then (λ r. FirstIsEmpty r dkplist) (FirstOf dkplist)
                (change_at list e (put w)) _
                (change_at-keeps_first list e (put w) dkplist titles live (h w len) (same w) first)
                (λ r still. still)))
      | inr bad ↦ rw bad first
    ]

add_entry-FirstOf :
    (list : List TitleEntry) (celist : Option ℕ) (type : EntryType) (entry : List ℕ)
    (dkplist : Option ℕ)
    → All IsTitle list
    → IsLive celist (length list)
    → IsHex entry
    → FirstIsEmpty list dkplist
    → Returns (FirstOf dkplist) (add_entry list celist type entry)
unfolding add_entry
add_entry-FirstOf list none type entry dkplist titles live hex first = first
add_entry-FirstOf list (some e) entry_discid entry dkplist titles live hex first =
    put_key-FirstOf list e 20 entry _ dkplist titles live hex
      (λ w len t (id, mk, vid, vuk, uk). (length-written 20 t.discid w len id, mk, vid, vuk, uk))
      (λ w t. refl) first
add_entry-FirstOf list (some e) entry_mek entry dkplist titles live hex first =
    put_key-FirstOf list e 16 entry _ dkplist titles live hex
      (λ w len t (id, mk, vid, vuk, uk). (id, length-written 16 t.mk w len mk, vid, vuk, uk))
      (λ w t. refl) first
add_entry-FirstOf list (some e) entry_vid entry dkplist titles live hex first =
    put_key-FirstOf list e 16 entry _ dkplist titles live hex
      (λ w len t (id, mk, vid, vuk, uk). (id, mk, length-written 16 t.vid w len vid, vuk, uk))
      (λ w t. refl) first
add_entry-FirstOf list (some e) entry_vuk entry dkplist titles live hex first =
    put_key-FirstOf list e 16 entry _ dkplist titles live hex
      (λ w len t (id, mk, vid, vuk, uk). (id, mk, vid, length-written 16 t.vuk w len vuk, uk))
      (λ w t. refl) first
add_entry-FirstOf list (some e) entry_uk entry dkplist titles live hex first = first

-- The media key, the volume id and the volume unique key of an entry.
pub key_of_disc-First :
    (type : EntryType) (cf : ConfigFile) (ps : ParserState)
    → IsState (cf, ps)
    → First (cf, ps)
    → Returns First (key_of_disc type cf ps)
unfolding key_of_disc
key_of_disc-First type cf ps ((dkl, pkl, certs, titles), buffer, celist, dkplist) first =
    Returns-then (λ s. IsHex s × (length s ≡ ps.hexkey_size)) First (string_in ps.hexkey) _
      (string_in-IsHex ps.hexkey ps.hexkey_size buffer)
      (λ entry hex.
        Returns-then (FirstOf ps.dkplist) First (add_entry cf.list ps.celist type entry) _
          (add_entry-FirstOf cf.list ps.celist type entry ps.dkplist titles celist hex.0 first)
          (λ r still. still))
