-- ===== src/Keydb/Grammar/Parsed.antt =====
-- A parse of KEYDB.cfg from its start to its end.
use libaacs.Common.{
  ℕ, ◌<◌, ◌≡◌, refl, inl, inr, Bool, Option, none, some, List, [], ◌∷◌, arith, ◌==◌, Bool-cases,
  length, replicate, All, Run, ok, ◌>>=◌, Returns,
}
use libaacs.Hex.{hexstring_to_hex_array}
use libaacs.Keydb.{DigitKeyPair, ConfigFile}
use libaacs.Common.{All-append}
use libaacs.Common.Partial.{Returns-then}
use libaacs.Keydb.Distinct.{HasLength, hexstring_to_hex_array-HasLength}
use libaacs.Keydb.Grammar.{
  Action, ParserState, dk_entry, pk_entry, host_cert_entry, hexkey_start, hexkey_more, disc_info,
  mek_entry, vid_entry, vuk_entry, uk_data, end_of_list, hexstring_list, string_in, add_dk_entry,
  add_pk_entry, add_cert_entry, start_hexkey, more_hexkey,
}
use libaacs.Keydb.Grammar.Titles.{
  entry_mek, entry_vid, entry_vuk, entry_at, change_at, new_digit_key_pair_entry, first_uk, next_uk,
  first_uk_unless, uk_of_disc, reduce, reduce_all, initial_state, keydbcfg_parse_config, Parser,
}
use libaacs.Keydb.Grammar.Buffer.{
  IsHex, KeepsPointers, start_hexkey-KeepsPointers, more_hexkey-KeepsPointers, string_in-IsHex,
  length-written,
}
use libaacs.Keydb.Grammar.WellFormed.{
  IsTitle, IsConfig, IsLive, IsState, IsAction, hexstring_list-IsHex, add_dk_entry-AreKeys,
  add_pk_entry-AreKeys, add_cert_entry-AreCerts, Kept, change_at-Kept, entry_at-IsTitle,
}
use libaacs.Keydb.Grammar.Discs.{key_of_disc-IsState, disc_info-IsState}

abbrev pub IsPair : Option DigitKeyPair → Type 0
IsPair none = Unit {0}
IsPair (some pair) = length pair.key ≡ 16

pub new_digit_key_pair_entry-IsPair :
    (digit : ℕ) (key : List ℕ) → IsHex key → Returns IsPair (new_digit_key_pair_entry digit key)
unfolding new_digit_key_pair_entry
new_digit_key_pair_entry-IsPair digit key hex = elim (Bool-cases (length key == 32)) [
  | inl good ↦ rw good (
      Returns-then (HasLength 16) IsPair (hexstring_to_hex_array 16 key) _
        (hexstring_to_hex_array-HasLength 16 key hex (ground arith))
        (λ w len. length-written 16 (replicate 16 0) w len refl))
  | inr bad ↦ rw bad (record {})
]

first_uk-IsState :
    (cf : ConfigFile) (ps : ParserState) (e : ℕ) (pair : Option DigitKeyPair)
    → IsState (cf, ps)
    → e < length cf.list
    → IsPair pair
    → Returns IsState (first_uk cf ps e pair)
unfolding first_uk
first_uk-IsState cf ps e none state live h = state
first_uk-IsState cf ps e (some pair) ((dkl, pkl, certs, titles), buffer, celist, dkplist) live h =
    Returns-then (Kept cf.list) IsState (change_at cf.list e _) _
      (change_at-Kept cf.list e _ titles live
        (λ t (id, mk, vid, vuk, uk). (id, mk, vid, vuk, (h, record {}))))
      (λ r kept. ((dkl, pkl, certs, kept.0), buffer, rw kept.1 celist, rw kept.1 live))

next_uk-IsState :
    (cf : ConfigFile) (ps : ParserState) (e : ℕ) (pair : Option DigitKeyPair)
    → IsState (cf, ps)
    → e < length cf.list
    → IsPair pair
    → Returns IsState (next_uk cf ps e pair)
unfolding next_uk
next_uk-IsState cf ps e none state live h = state
next_uk-IsState cf ps e (some pair) ((dkl, pkl, certs, titles), buffer, celist, dkplist) live h =
    Returns-then (Kept cf.list) IsState (change_at cf.list e _) _
      (change_at-Kept cf.list e _ titles live (λ t (id, mk, vid, vuk, uk).
        (id, mk, vid, vuk, All-append _ t.uk (pair ∷ []) uk (h, record {}))))
      (λ r kept. ((dkl, pkl, certs, kept.0), buffer, rw kept.1 celist, rw kept.1 dkplist))

first_uk_unless-IsState :
    (uk : List DigitKeyPair) (cf : ConfigFile) (ps : ParserState) (e digit : ℕ) (key : List ℕ)
    → IsState (cf, ps)
    → e < length cf.list
    → IsHex key
    → Returns IsState (first_uk_unless uk cf ps e digit key)
unfolding first_uk_unless
first_uk_unless-IsState [] cf ps e digit key state live hex =
    Returns-then IsPair IsState (new_digit_key_pair_entry digit key) _
      (new_digit_key_pair_entry-IsPair digit key hex)
      (λ pair h. first_uk-IsState cf ps e pair state live h)
first_uk_unless-IsState (pair ∷ uk) cf ps e digit key state live hex = state

pub uk_of_disc-IsState :
    (cf : ConfigFile) (ps : ParserState) (celist dkplist : Option ℕ) (digit : ℕ) (key : List ℕ)
    → IsState (cf, ps)
    → IsLive celist (length cf.list)
    → IsLive dkplist (length cf.list)
    → IsHex key
    → Returns IsState (uk_of_disc cf ps celist dkplist digit key)
unfolding uk_of_disc
uk_of_disc-IsState cf ps none dkplist digit key state live last hex = state
uk_of_disc-IsState cf ps (some e) none digit key state live last hex =
    Returns-then IsTitle IsState (entry_at cf.list e) _ (entry_at-IsTitle cf.list e state.0.3 live)
      (λ t title. first_uk_unless-IsState t.uk cf ps e digit key state live hex)
uk_of_disc-IsState cf ps (some e) (some k) digit key state live last hex =
    Returns-then IsPair IsState (new_digit_key_pair_entry digit key) _
      (new_digit_key_pair_entry-IsPair digit key hex)
      (λ pair h. next_uk-IsState cf ps k pair state last h)

pub hexkey-IsState :
    (cf : ConfigFile) (ps : ParserState) (m : Run ParserState)
    → IsState (cf, ps)
    → Returns (KeepsPointers ps) m
    → Returns IsState (m >>= λ r. ok (cf, r))
hexkey-IsState cf ps m (config, buffer, celist, dkplist) kept =
    Returns-then (KeepsPointers ps) IsState m _ kept
      (λ r (good, e, f). (config, good, rw e celist, rw f dkplist))

pub reduce-IsState :
    (action : Action) (s : ConfigFile × ParserState)
    → IsState s
    → IsAction action
    → Returns IsState (reduce action s)
unfolding reduce
reduce-IsState (dk_entry key node uv u_mask_shift) (cf, ps)
      ((dkl, pkl, certs, list), buffer, celist, dkplist) hex =
    Returns-then _ IsState (add_dk_entry cf.dkl _ _ uv u_mask_shift) _
      (add_dk_entry-AreKeys cf.dkl (hexstring_list key) (hexstring_list node) uv u_mask_shift dkl
        (hexstring_list-IsHex key hex))
      (λ r keys. ((keys, pkl, certs, list), buffer, celist, dkplist))
reduce-IsState (pk_entry key) (cf, ps) ((dkl, pkl, certs, list), buffer, celist, dkplist) hex =
    Returns-then _ IsState (add_pk_entry cf.pkl _) _
      (add_pk_entry-AreKeys cf.pkl (hexstring_list key) pkl (hexstring_list-IsHex key hex))
      (λ r keys. ((dkl, keys, certs, list), buffer, celist, dkplist))
reduce-IsState (host_cert_entry key cert) (cf, ps)
      ((dkl, pkl, certs, list), buffer, celist, dkplist) (hex, hexc) =
    Returns-then _ IsState (add_cert_entry cf.host_cert_list _ _) _
      (add_cert_entry-AreCerts cf.host_cert_list (hexstring_list key) (hexstring_list cert) certs
        (hexstring_list-IsHex key hex) (hexstring_list-IsHex cert hexc))
      (λ r keys. ((dkl, pkl, keys, list), buffer, celist, dkplist))
reduce-IsState (hexkey_start str) (cf, ps) state hex =
    hexkey-IsState cf ps (start_hexkey ps str) state (start_hexkey-KeepsPointers ps str state.1 hex)
reduce-IsState (hexkey_more str) (cf, ps) state hex =
    hexkey-IsState cf ps (more_hexkey ps str) state (more_hexkey-KeepsPointers ps str state.1 hex)
reduce-IsState disc_info (cf, ps) state hex = disc_info-IsState cf ps state
reduce-IsState mek_entry (cf, ps) state hex = key_of_disc-IsState entry_mek cf ps state
reduce-IsState vid_entry (cf, ps) state hex = key_of_disc-IsState entry_vid cf ps state
reduce-IsState vuk_entry (cf, ps) state hex = key_of_disc-IsState entry_vuk cf ps state
reduce-IsState (uk_data digit) (cf, ps) state hex =
    Returns-then (λ s. IsHex s × (length s ≡ ps.hexkey_size)) IsState (string_in ps.hexkey) _
      (string_in-IsHex ps.hexkey ps.hexkey_size state.1)
      (λ key digits.
        uk_of_disc-IsState cf ps ps.celist ps.dkplist digit key state state.2 state.3 digits.0)
reduce-IsState end_of_list (cf, ps) (config, buffer, celist, dkplist) hex =
    (config, buffer, celist, record {})

reduce_all-IsState :
    (actions : List Action) (s : ConfigFile × ParserState)
    → IsState s
    → All IsAction actions
    → Returns IsState (reduce_all actions s)
unfolding reduce_all
reduce_all-IsState [] s state hex = state
reduce_all-IsState (action ∷ actions) s state (hex, more) =
    Returns-then IsState IsState (reduce action s) _ (reduce-IsState action s state hex)
      (λ r kept. reduce_all-IsState actions r kept more)

-- The lexer gives tokens of digits, whatever the file is.
abbrev pub GivesDigits : Parser → Type 0
GivesDigits parser = (contents : List ℕ) → All IsAction (parser contents).0

abbrev pub ReadConfig : ConfigFile × Bool → Type 0
ReadConfig r = IsConfig r.0

-- If the tokens for keys are digits, any KEYDB.cfg is parsed to an end without an access outside of
-- the buffer for keys or through a pointer to no entry, and a configuration whose keys have the
-- sizes of their types keeps them.
pub keydbcfg_parse_config-ReadConfig :
    (parser : Parser) (cf : ConfigFile) (contents disc_id : Option (List ℕ)) (all_discs : Bool)
    → GivesDigits parser
    → IsConfig cf
    → Returns ReadConfig (keydbcfg_parse_config parser cf contents disc_id all_discs)
unfolding keydbcfg_parse_config initial_state
keydbcfg_parse_config-ReadConfig parser cf none disc_id all_discs digits config = config
keydbcfg_parse_config-ReadConfig parser cf (some file) disc_id all_discs digits config =
    Returns-then IsState ReadConfig
      (reduce_all (parser file).0 (cf, initial_state disc_id all_discs)) _
      (reduce_all-IsState (parser file).0 (cf, initial_state disc_id all_discs)
        (config, ([], replicate 127 0, refl, refl, record {}, refl), record {}, record {})
        (digits file))
      (λ s state. state.0)
