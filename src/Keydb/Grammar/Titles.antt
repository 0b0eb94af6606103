-- ===== src/Keydb/Grammar/Titles.antt =====
-- src/file/keydbcfg-parser.y, the entries of discs, and keydbcfg_parse_config.
use libaacs.Common.{
  ℕ, ◌*◌, bit_or, Bool, true, false, not, ◌&&◌, Option, none, some, List, [], ◌∷◌, ◌++◌, map, ◌==◌,
  if◌then◌else◌, same_bytes, length, take, replicate, Run, ok, fault, ◌>>=◌,
}
use libaacs.Hex.{hexstring_to_hex_array, str_print_hex}
use libaacs.Keydb.{DigitKeyPair, TitleEntry, ConfigFile}
use libaacs.Keydb.Grammar.{
  Action, ParserState, dk_entry, pk_entry, host_cert_entry, hexkey_start, hexkey_more, disc_info,
  mek_entry, vid_entry, vuk_entry, uk_data, end_of_list, hexstring_list, string_in, written,
  add_dk_entry, add_pk_entry, add_cert_entry, start_hexkey, more_hexkey, max_key_size,
}

-- `ENTRY_TYPE_DISCID` and so on.
pub data EntryType : Type 0 where
  entry_discid entry_mek entry_vid entry_vuk entry_uk : EntryType

-- `new_title_entry_list`, of zeros.
unfoldable pub new_title_entry : TitleEntry
new_title_entry = record {
  discid = replicate 20 0;
  mk = replicate 16 0;
  vid = replicate 16 0;
  vuk = replicate 16 0;
  uk = [];
}

-- The entry that a pointer points to. There is none behind the list.
unfoldable pub entry_at : List TitleEntry → ℕ → Run TitleEntry
entry_at [] e = fault
entry_at (t ∷ list) e = let rest = entry_at list e in if length list == e then ok t else rest

unfoldable pub change_at : List TitleEntry → ℕ → (TitleEntry → TitleEntry) → Run (List TitleEntry)
change_at [] e f = fault
change_at (t ∷ list) e f =
    let rest = change_at list e f >>= λ r. ok (t ∷ r) in
    if length list == e then ok (f t ∷ list) else rest

-- `CHECK_KEY_LENGTH` and the conversion to `n` bytes.
unfoldable pub put_key :
    List TitleEntry
    → ℕ
    → ℕ
    → List ℕ
    → (List ℕ × Bool → TitleEntry → TitleEntry)
    → Run (List TitleEntry × Bool)
unfolding change_at
put_key list e n entry put =
    if length entry == n * 2
    then (do w ← hexstring_to_hex_array n entry; r ← change_at list e (put w); ok (r, true))
    else ok (list, true)

unfoldable pub add_entry :
    List TitleEntry → Option ℕ → EntryType → List ℕ → Run (List TitleEntry × Bool)
unfolding put_key written
add_entry list none type entry = ok (list, false)
add_entry list (some e) entry_discid entry =
    put_key list e 20 entry (λ w t. record t { discid = written t.discid w })
add_entry list (some e) entry_mek entry =
    put_key list e 16 entry (λ w t. record t { mk = written t.mk w })
add_entry list (some e) entry_vid entry =
    put_key list e 16 entry (λ w t. record t { vid = written t.vid w })
add_entry list (some e) entry_vuk entry =
    put_key list e 16 entry (λ w t. record t { vuk = written t.vuk w })
add_entry list (some e) entry_uk entry = ok (list, false)

-- `_discid_cmp`, whose words of 8 characters are compared character by character.
unfoldable pub discid_cmp : List ℕ → List ℕ → Bool
discid_cmp want disc_id = same_bytes want (map (λ c. bit_or c 0x20) disc_id)

-- "ignore this disc" unless it is the wanted one.
unfoldable pub is_wanted : Option (List ℕ) → List ℕ → Bool
unfolding discid_cmp
is_wanted none hexkey = false
is_wanted (some want) hexkey = discid_cmp want (take 40 hexkey)

-- A new entry in front of the list.
unfoldable pub new_disc : ConfigFile → ParserState → List ℕ × Bool → ConfigFile × ParserState
unfolding new_title_entry written
new_disc cf ps w = (
  record cf { list = record new_title_entry { discid = written (replicate 20 0) w } ∷ cf.list },
  record ps { celist = some (length cf.list) },
)

unfoldable pub start_disc : ConfigFile → ParserState → Run (ConfigFile × ParserState)
unfolding is_wanted new_disc
start_disc cf ps =
    if not (ps.hexkey_size == 40)
    then ok (cf, record ps { celist = none })
    else if not ps.all_discs && not (is_wanted ps.want_disc_id ps.hexkey)
    then ok (cf, record ps { celist = none })
    else (do w ← hexstring_to_hex_array 20 ps.hexkey; ok (new_disc cf ps w))

-- The actions of `mek_entry`, `vid_entry` and `vuk_entry`.
unfoldable pub key_of_disc : EntryType → ConfigFile → ParserState → Run (ConfigFile × ParserState)
unfolding string_in add_entry
key_of_disc type cf ps = do
  entry ← string_in ps.hexkey
  r ← add_entry cf.list ps.celist type entry
  ok (record cf { list = r.0 }, ps)

-- `none` is NULL.
unfoldable pub new_digit_key_pair_entry : ℕ → List ℕ → Run (Option DigitKeyPair)
unfolding written
new_digit_key_pair_entry digit key =
    if length key == 32
    then (do
      w ← hexstring_to_hex_array 16 key
      ok (some (record { digit = digit; key = written (replicate 16 0) w })))
    else ok none

-- The first key of an entry, and one behind the last key that was added.
unfoldable pub first_uk :
    ConfigFile → ParserState → ℕ → Option DigitKeyPair → Run (ConfigFile × ParserState)
first_uk cf ps e none = ok (cf, ps)
first_uk cf ps e (some pair) = do
  list ← change_at cf.list e (λ t. record t { uk = pair ∷ [] })
  ok (record cf { list = list }, record ps { dkplist = some e })

unfoldable pub next_uk :
    ConfigFile → ParserState → ℕ → Option DigitKeyPair → Run (ConfigFile × ParserState)
next_uk cf ps e none = ok (cf, ps)
next_uk cf ps e (some pair) = do
  list ← change_at cf.list e (λ t. record t { uk = t.uk ++ (pair ∷ []) })
  ok (record cf { list = list }, ps)

-- "duplicate entry" where there are unit keys.
unfoldable pub first_uk_unless :
    List DigitKeyPair → ConfigFile → ParserState → ℕ → ℕ → List ℕ → Run (ConfigFile × ParserState)
unfolding first_uk new_digit_key_pair_entry
first_uk_unless [] cf ps e digit key = new_digit_key_pair_entry digit key >>= first_uk cf ps e
first_uk_unless (pair ∷ uk) cf ps e digit key = ok (cf, ps)

unfoldable pub uk_of_disc :
    ConfigFile → ParserState → Option ℕ → Option ℕ → ℕ → List ℕ → Run (ConfigFile × ParserState)
unfolding first_uk_unless next_uk entry_at
uk_of_disc cf ps none dkplist digit key = ok (cf, ps)
uk_of_disc cf ps (some e) none digit key =
    entry_at cf.list e >>= λ t. first_uk_unless t.uk cf ps e digit key
uk_of_disc cf ps (some e) (some last) digit key =
    new_digit_key_pair_entry digit key >>= next_uk cf ps last

-- One action.
unfoldable pub reduce : Action → ConfigFile × ParserState → Run (ConfigFile × ParserState)
unfolding start_disc key_of_disc uk_of_disc
reduce (dk_entry key node uv u_mask_shift) (cf, ps) = do
  dkl ← add_dk_entry cf.dkl (hexstring_list key) (hexstring_list node) uv u_mask_shift
  ok (record cf { dkl = dkl }, ps)
reduce (pk_entry key) (cf, ps) = do
  pkl ← add_pk_entry cf.pkl (hexstring_list key)
  ok (record cf { pkl = pkl }, ps)
reduce (host_cert_entry key cert) (cf, ps) = do
  list ← add_cert_entry cf.host_cert_list (hexstring_list key) (hexstring_list cert)
  ok (record cf { host_cert_list = list }, ps)
reduce (hexkey_start str) (cf, ps) = do new ← start_hexkey ps str; ok (cf, new)
reduce (hexkey_more str) (cf, ps) = do new ← more_hexkey ps str; ok (cf, new)
reduce disc_info (cf, ps) = start_disc cf ps
reduce mek_entry (cf, ps) = key_of_disc entry_mek cf ps
reduce vid_entry (cf, ps) = key_of_disc entry_vid cf ps
reduce vuk_entry (cf, ps) = key_of_disc entry_vuk cf ps
reduce (uk_data digit) (cf, ps) =
    string_in ps.hexkey >>= uk_of_disc cf ps ps.celist ps.dkplist digit
reduce end_of_list (cf, ps) = ok (cf, record ps { dkplist = none })

unfoldable pub reduce_all : List Action → ConfigFile × ParserState → Run (ConfigFile × ParserState)
unfolding reduce
reduce_all [] s = ok s
reduce_all (action ∷ actions) s = reduce action s >>= reduce_all actions

-- `yyparse`, on the contents of a file: the actions, and whether it returns 0.
abbrev pub Parser : Type 0
Parser = List ℕ → List Action × Bool

-- `want_disc_id`, the 40 characters in front of the final 0.
unfoldable pub want_of : Option (List ℕ) → Option (List ℕ)
want_of none = none
want_of (some disc_id) = some (take 40 (str_print_hex (take 20 disc_id)))

-- `ps` before the parse.
unfoldable pub initial_state : Option (List ℕ) → Bool → ParserState
unfolding want_of
initial_state disc_id all_discs = record {
  celist = none;
  dkplist = none;
  want_disc_id = want_of disc_id;
  all_discs = all_discs;
  hexkey_size = 0;
  hexkey = replicate max_key_size 0;
}

-- `keydbcfg_parse_config`, with the contents of the file if it can be opened.
unfoldable pub keydbcfg_parse_config :
    Parser → ConfigFile → Option (List ℕ) → Option (List ℕ) → Bool → Run (ConfigFile × Bool)
unfolding reduce_all initial_state
keydbcfg_parse_config parser cf none disc_id all_discs = ok (cf, false)
keydbcfg_parse_config parser cf (some contents) disc_id all_discs =
    let p = parser contents in
    do s ← reduce_all p.0 (cf, initial_state disc_id all_discs); ok (s.0, p.1)
