-- ===== src/Keydb/Grammar/LostKeys.antt =====
-- The unit keys of an entry of KEYDB.cfg behind a list that was not ended.
use libaacs.Common.{
  ℕ, ◌<◌, ◌≡◌, refl, true, false, not, ◌&&◌, Option, none, some, List, [], ◌∷◌, arith, ◌==◌, length,
  All, Run, ok, ◌>>=◌, Returns,
}
use libaacs.Hex.{hexstring_to_hex_array}
use libaacs.Keydb.{DigitKeyPair, TitleEntry, ConfigFile}
use libaacs.Common.{All-append}
use libaacs.Common.Partial.{Returns-then, Returns-both}
use libaacs.Keydb.Distinct.{HasLength}
use libaacs.Keydb.Grammar.{
  Action, ParserState, dk_entry, pk_entry, host_cert_entry, hexkey_start, hexkey_more, disc_info,
  mek_entry, vid_entry, vuk_entry, uk_data, end_of_list, start_hexkey, more_hexkey, string_in,
  add_dk_entry, add_pk_entry, add_cert_entry, hexstring_list,
}
use libaacs.Keydb.Grammar.Titles.{
  entry_mek, entry_vid, entry_vuk, change_at, start_disc, new_disc, new_title_entry, next_uk,
  uk_of_disc, reduce, reduce_all, is_wanted, new_digit_key_pair_entry,
}
use libaacs.Keydb.Grammar.Buffer.{
  IsHex, KeepsPointers, start_hexkey-KeepsPointers, more_hexkey-KeepsPointers, string_in-IsHex,
}
use libaacs.Keydb.Grammar.WellFormed.{
  IsTitle, IsState, IsAction, IsLive, hexstring_list-IsHex, add_dk_entry-AreKeys,
  add_pk_entry-AreKeys, add_cert_entry-AreCerts,
}
use libaacs.Keydb.Grammar.Discs.{disc_id_converted}
use libaacs.Keydb.Grammar.Parsed.{reduce-IsState, IsPair, new_digit_key_pair_entry-IsPair}
use libaacs.Keydb.Grammar.Unended.{FirstIsEmpty, First, change_at-FirstIsEmpty, key_of_disc-First}

-- The actions for the keys of a list, with their numbers.
abbrev pub uk_list : List (ℕ × List ℕ) → List Action
uk_list [] = []
uk_list ((digit, key) ∷ keys) = hexkey_start key ∷ uk_data digit ∷ uk_list keys

abbrev NoUks : List TitleEntry → Type 0
NoUks [] = ⊥
NoUks (t ∷ list) = t.uk ≡ []

abbrev pub HasNoUks : ConfigFile × ParserState → Type 0
HasNoUks (cf, ps) = NoUks cf.list

abbrev Lost : ConfigFile × ParserState → Type 0
Lost s = IsState s × First s

no_list : (list : List TitleEntry) → FirstIsEmpty list none → ⊥
no_list [] h = h
no_list (t ∷ list) h = h

next_uk-First :
    (cf : ConfigFile) (ps : ParserState) (j : ℕ) (pair : Option DigitKeyPair)
    → All IsTitle cf.list
    → FirstIsEmpty cf.list (some j)
    → ps.dkplist ≡ some j
    → IsPair pair
    → Returns First (next_uk cf ps j pair)
unfolding next_uk
next_uk-First cf ps j none titles first e h = rw e first
next_uk-First cf ps j (some pair) titles first e h =
    Returns-then (λ r. FirstIsEmpty r (some j)) First (change_at cf.list j _) _
      (change_at-FirstIsEmpty cf.list j _ titles
        (λ t (id, mk, vid, vuk, uk).
          (id, mk, vid, vuk, All-append _ t.uk (pair ∷ []) uk (h, record {})))
        first)
      (λ r kept. rw e kept)

uk_of_disc-First :
    (cf : ConfigFile) (ps : ParserState) (celist dkplist : Option ℕ) (digit : ℕ) (key : List ℕ)
    → All IsTitle cf.list
    → FirstIsEmpty cf.list dkplist
    → ps.dkplist ≡ dkplist
    → IsHex key
    → Returns First (uk_of_disc cf ps celist dkplist digit key)
unfolding uk_of_disc
uk_of_disc-First cf ps none dkplist digit key titles first e hex = rw e first
uk_of_disc-First cf ps (some c) none digit key titles first e hex = absurd (no_list cf.list first)
uk_of_disc-First cf ps (some c) (some j) digit key titles first e hex =
    Returns-then IsPair First (new_digit_key_pair_entry digit key) _
      (new_digit_key_pair_entry-IsPair digit key hex)
      (λ pair h. next_uk-First cf ps j pair titles first e h)

hexkey-First :
    (cf : ConfigFile) (ps : ParserState) (m : Run ParserState)
    → First (cf, ps)
    → Returns (KeepsPointers ps) m
    → Returns First (m >>= λ r. ok (cf, r))
hexkey-First cf ps m first kept =
    Returns-then (KeepsPointers ps) First m _ kept (λ r (good, e, f). rw f first)

-- Neither another disc begins nor a list ends.
abbrev pub IsBetween : Action → Type 0
IsBetween disc_info = ⊥
IsBetween end_of_list = ⊥
IsBetween action = Unit

reduce-First :
    (action : Action) (s : ConfigFile × ParserState)
    → IsState s
    → First s
    → IsAction action
    → IsBetween action
    → Returns First (reduce action s)
unfolding reduce
reduce-First (dk_entry key node uv u_mask_shift) (cf, ps) state first hex inside =
    Returns-then _ First (add_dk_entry cf.dkl _ _ uv u_mask_shift) _
      (add_dk_entry-AreKeys cf.dkl (hexstring_list key) (hexstring_list node) uv u_mask_shift
        state.0.0 (hexstring_list-IsHex key hex))
      (λ r keys. first)
reduce-First (pk_entry key) (cf, ps) state first hex inside =
    Returns-then _ First (add_pk_entry cf.pkl _) _
      (add_pk_entry-AreKeys cf.pkl (hexstring_list key) state.0.1 (hexstring_list-IsHex key hex))
      (λ r keys. first)
reduce-First (host_cert_entry key cert) (cf, ps) state first (hex, hexc) inside =
    Returns-then _ First (add_cert_entry cf.host_cert_list _ _) _
      (add_cert_entry-AreCerts cf.host_cert_list (hexstring_list key) (hexstring_list cert)
        state.0.2 (hexstring_list-IsHex key hex) (hexstring_list-IsHex cert hexc))
      (λ r certs. first)
reduce-First (hexkey_start str) (cf, ps) state first hex inside =
    hexkey-First cf ps (start_hexkey ps str) first (start_hexkey-KeepsPointers ps str state.1 hex)
reduce-First (hexkey_more str) (cf, ps) state first hex inside =
    hexkey-First cf ps (more_hexkey ps str) first (more_hexkey-KeepsPointers ps str state.1 hex)
reduce-First disc_info (cf, ps) state first hex inside = absurd inside
reduce-First mek_entry (cf, ps) state first hex inside =
    key_of_disc-First entry_mek cf ps state first
reduce-First vid_entry (cf, ps) state first hex inside =
    key_of_disc-First entry_vid cf ps state first
reduce-First vuk_entry (cf, ps) state first hex inside =
    key_of_disc-First entry_vuk cf ps state first
reduce-First (uk_data digit) (cf, ps) state first hex inside =
    Returns-then (λ s. IsHex s × (length s ≡ ps.hexkey_size)) First (string_in ps.hexkey) _
      (string_in-IsHex ps.hexkey ps.hexkey_size state.1)
      (λ key digits.
        uk_of_disc-First cf ps ps.celist ps.dkplist digit key state.0.3 first refl digits.0)
reduce-First end_of_list (cf, ps) state first hex inside = absurd inside

First-HasNoUks : (list : List TitleEntry) (p : Option ℕ) → FirstIsEmpty list p → NoUks list
First-HasNoUks [] p h = h
First-HasNoUks (t ∷ list) none h = absurd h
First-HasNoUks (t ∷ list) (some j) (none_yet, live) = none_yet

reduce_all-HasNoUks :
    (actions : List Action) (s : ConfigFile × ParserState)
    → Lost s
    → All IsAction actions
    → All IsBetween actions
    → Returns HasNoUks (reduce_all actions s)
unfolding reduce_all
reduce_all-HasNoUks [] (cf, ps) (state, first) hex inside = First-HasNoUks cf.list ps.dkplist first
reduce_all-HasNoUks (action ∷ actions) s (state, first) (hex, more) (inside, others) =
    Returns-then Lost HasNoUks (reduce action s) _
      (Returns-both IsState First (reduce action s) (reduce-IsState action s state hex)
        (reduce-First action s state first hex inside))
      (λ r lost. reduce_all-HasNoUks actions r lost more others)

-- An entry that is read for a disc that is wanted.
abbrev pub IsRead : ParserState → Type 0
IsRead ps =
    ((ps.hexkey_size == 40) ≡ true)
    × ((not ps.all_discs && not (is_wanted ps.want_disc_id ps.hexkey)) ≡ false)

live_index : (p : Option ℕ) (j n : ℕ) → p ≡ some j → IsLive p n → j < n
live_index none j n e live = absurd cc
live_index (some i) j n e live = let same : i ≡ j = cc e in omega (arith, same)

disc_info-Lost :
    (cf : ConfigFile) (ps : ParserState) (j : ℕ)
    → IsState (cf, ps)
    → IsRead ps
    → ps.dkplist ≡ some j
    → Returns Lost (reduce disc_info (cf, ps))
unfolding reduce start_disc new_disc new_title_entry
disc_info-Lost cf ps j state (long, wanted) e =
    Returns-both IsState First (start_disc cf ps)
      (reduce-IsState disc_info (cf, ps) state (record {}))
      (rw (long, wanted)
        (Returns-then (HasLength 20) First (hexstring_to_hex_array 20 ps.hexkey) _
          (disc_id_converted ps.hexkey ps.hexkey_size state.1 (ground arith))
          (λ w len. rw e (refl, live_index ps.dkplist j (length cf.list) e state.3))))

-- If a list of unit keys was not ended, so that a pointer to its last key was left behind, then the
-- entry of the next disc that is read has no unit keys as long as no list of numbered keys ends and
-- no other disc begins, whatever is read in between: unit keys, other keys of the disc, or keys of
-- the configuration.
pub reduce_all-lost_uks :
    (cf : ConfigFile) (ps : ParserState) (j : ℕ) (actions : List Action)
    → IsState (cf, ps)
    → IsRead ps
    → ps.dkplist ≡ some j
    → All IsAction actions
    → All IsBetween actions
    → Returns HasNoUks (reduce_all (disc_info ∷ actions) (cf, ps))
unfolding reduce_all
reduce_all-lost_uks cf ps j actions state read e hex inside =
    Returns-then Lost HasNoUks (reduce disc_info (cf, ps)) _ (disc_info-Lost cf ps j state read e)
      (λ r lost. reduce_all-HasNoUks actions r lost hex inside)
