-- ===== src/Keydb/Grammar/UnitKeys.antt =====
-- The unit keys of an entry of KEYDB.cfg, in the actions of keydbcfg-parser.y.
use libaacs.Common.{
  ℕ, ◌≡◌, refl, ap, ◌∙◌, true, Option, none, some, List, [], ◌∷◌, ◌++◌, arith, ◌==◌, length, Run,
  ok, fault, stuck, ◌>>=◌, Returns,
}
use libaacs.Common.Partial.{Returns-then}
use mathlib.Core.List.{append-nil}
use libaacs.Hex.{hexstring_to_hex_array}
use libaacs.Keydb.{DigitKeyPair, TitleEntry, ConfigFile}
use libaacs.Keydb.Distinct.{HasLength}
use libaacs.Keydb.Grammar.{ParserState, hexkey_start, disc_info, uk_data, start_hexkey}
use libaacs.Keydb.Grammar.Titles.{
  change_at, entry_at, first_uk, next_uk, first_uk_unless, uk_of_disc, reduce, reduce_all,
  new_digit_key_pair_entry, new_disc, new_title_entry, start_disc,
}
use libaacs.Keydb.Grammar.Buffer.{IsHex, HasBuffer}
use libaacs.Keydb.Grammar.LostKeys.{uk_list, IsRead}
use libaacs.Keydb.Grammar.Discs.{disc_id_converted}
use libaacs.Keydb.Grammar.KeyPairs.{
  IsPairOf, ArePairsOf, OptPairOf, AreKeyDigits, new_digit_key_pair_entry-OptPairOf, HoldsKey,
  start_hexkey-HoldsKey,
}

-- The first of `n + 1` entries has the unit keys `uks`.
abbrev HeadIs : List DigitKeyPair → ℕ → List TitleEntry → Type 0
HeadIs uks n [] = ⊥
HeadIs uks n (t ∷ list) = (t.uk ≡ uks) × (length list ≡ n)

change_at-HeadIs :
    (list : List TitleEntry) (n : ℕ) (uks new : List DigitKeyPair) (f : TitleEntry → TitleEntry)
    → HeadIs uks n list
    → ((t : TitleEntry) → t.uk ≡ uks → TitleEntry.uk (f t) ≡ new)
    → Returns (HeadIs new n) (change_at list n f)
unfolding change_at
change_at-HeadIs [] n uks new f h g = absurd h
change_at-HeadIs (t ∷ list) n uks new f (e, len) g =
    let here : (length list == n) ≡ true = ground arith in rw here (g t e, len)

entry_at-uk :
    (list : List TitleEntry) (n : ℕ) (uks : List DigitKeyPair)
    → HeadIs uks n list
    → Returns (λ t. TitleEntry.uk t ≡ uks) (entry_at list n)
unfolding entry_at
entry_at-uk [] n uks h = absurd h
entry_at-uk (t ∷ list) n uks (e, len) =
    let here : (length list == n) ≡ true = ground arith in rw here e

-- `dkplist`, where `uks` were added to the entry.
abbrev last_of : List DigitKeyPair → ℕ → Option ℕ
last_of [] n = none
last_of (pair ∷ uks) n = some n

abbrev Keeps : List DigitKeyPair → ℕ → ConfigFile × ParserState → Type 0
Keeps uks n (cf, ps) =
    HeadIs uks n cf.list × (ps.celist ≡ some n) × (ps.dkplist ≡ last_of uks n) × HasBuffer ps

abbrev Next : List DigitKeyPair → ℕ → ℕ × List ℕ → ConfigFile × ParserState → Type 0
Next uks n key r = (pair : DigitKeyPair) × IsPairOf key pair × Keeps (uks ++ (pair ∷ [])) n r

first_uk-Next :
    (cf : ConfigFile) (ps : ParserState) (n : ℕ) (key : ℕ × List ℕ) (pair : Option DigitKeyPair)
    → HeadIs [] n cf.list
    → ps.celist ≡ some n
    → HasBuffer ps
    → OptPairOf key pair
    → Returns (Next [] n key) (first_uk cf ps n pair)
unfolding first_uk
first_uk-Next cf ps n key none head e buffer h = absurd h
first_uk-Next cf ps n key (some pair) head e buffer h =
    Returns-then (HeadIs (pair ∷ []) n) (Next [] n key) (change_at cf.list n _) _
      (change_at-HeadIs cf.list n [] (pair ∷ []) _ head (λ t same. refl))
      (λ list good. (pair, h, (good, e, refl, buffer)))

next_uk-Next :
    (cf : ConfigFile) (ps : ParserState) (n : ℕ) (key : ℕ × List ℕ) (pair : Option DigitKeyPair)
    (u : DigitKeyPair) (uks : List DigitKeyPair)
    → HeadIs (u ∷ uks) n cf.list
    → ps.celist ≡ some n
    → ps.dkplist ≡ some n
    → HasBuffer ps
    → OptPairOf key pair
    → Returns (Next (u ∷ uks) n key) (next_uk cf ps n pair)
unfolding next_uk
next_uk-Next cf ps n key none u uks head e f buffer h = absurd h
next_uk-Next cf ps n key (some pair) u uks head e f buffer h =
    Returns-then (HeadIs (u ∷ uks ++ (pair ∷ [])) n) (Next (u ∷ uks) n key) (change_at cf.list n _)
      _
      (change_at-HeadIs cf.list n (u ∷ uks) (u ∷ uks ++ (pair ∷ [])) _ head
        (λ t same. ap (λ l. l ++ (pair ∷ [])) same))
      (λ list good. (pair, h, (good, e, f, buffer)))

uk_of_disc-Next :
    (cf : ConfigFile) (ps : ParserState) (n : ℕ) (uks : List DigitKeyPair) (digit : ℕ)
    (key : List ℕ)
    → Keeps uks n (cf, ps)
    → IsHex key
    → length key ≡ 32
    → Returns (Next uks n (digit, key)) (uk_of_disc cf ps (some n) (last_of uks n) digit key)
unfolding uk_of_disc
uk_of_disc-Next cf ps n [] digit key (head, e, f, buffer) hex len =
    Returns-then (λ t. TitleEntry.uk t ≡ []) (Next [] n (digit, key)) (entry_at cf.list n) _
      (entry_at-uk cf.list n [] head)
      (λ t empty. rw empty (
        unfold first_uk_unless in
        Returns-then (OptPairOf (digit, key)) (Next [] n (digit, key))
          (new_digit_key_pair_entry digit key) _
          (new_digit_key_pair_entry-OptPairOf digit key hex len)
          (λ pair h. first_uk-Next cf ps n (digit, key) pair head e buffer h)))
uk_of_disc-Next cf ps n (u ∷ uks) digit key (head, e, f, buffer) hex len =
    Returns-then (OptPairOf (digit, key)) (Next (u ∷ uks) n (digit, key))
      (new_digit_key_pair_entry digit key) _ (new_digit_key_pair_entry-OptPairOf digit key hex len)
      (λ pair h. next_uk-Next cf ps n (digit, key) pair u uks head e f buffer h)

pointers-Next :
    (cf : ConfigFile) (ps : ParserState) (n : ℕ) (uks : List DigitKeyPair) (digit : ℕ)
    (key : List ℕ) (celist dkplist : Option ℕ)
    → celist ≡ some n
    → dkplist ≡ last_of uks n
    → Keeps uks n (cf, ps)
    → IsHex key
    → length key ≡ 32
    → Returns (Next uks n (digit, key)) (uk_of_disc cf ps celist dkplist digit key)
pointers-Next cf ps n uks digit key celist dkplist e f keeps hex len =
    rw (e, f) (uk_of_disc-Next cf ps n uks digit key keeps hex len)

-- A key and its number.
key-Next :
    (s : ConfigFile × ParserState) (n : ℕ) (uks : List DigitKeyPair) (digit : ℕ) (key : List ℕ)
    → Keeps uks n s
    → IsHex key
    → length key ≡ 32
    → Returns (Next uks n (digit, key)) (reduce (hexkey_start key) s >>= reduce (uk_data digit))
unfolding reduce
key-Next (cf, ps) n uks digit key (head, e, f, buffer) hex len =
    held (start_hexkey ps key) (start_hexkey-HoldsKey ps key buffer hex len)
  where
    held :
        (m : Run ParserState)
        → Returns (HoldsKey ps key) m
        → Returns (Next uks n (digit, key)) ((m >>= λ r. ok (cf, r)) >>= reduce (uk_data digit))
    held (ok r) ((good, ec, ed), str) = rw str (
        pointers-Next cf r n uks digit key r.celist r.dkplist (ec ∙ e) (ed ∙ f)
          (head, ec ∙ e, ed ∙ f, good) hex len)
    held fault h = h
    held stuck h = h

append_assoc-one :
    (uks : List DigitKeyPair) (pair : DigitKeyPair) (pairs : List DigitKeyPair)
    → (uks ++ (pair ∷ [])) ++ pairs ≡ uks ++ (pair ∷ pairs)
append_assoc-one [] pair pairs = refl
append_assoc-one (u ∷ uks) pair pairs = ap (λ l. u ∷ l) (append_assoc-one uks pair pairs)

-- The new keys stand behind `uks`.
abbrev Adds : List DigitKeyPair → ℕ → List (ℕ × List ℕ) → ConfigFile × ParserState → Type 0
Adds uks n keys r =
    (pairs : List DigitKeyPair) × ArePairsOf keys pairs
    × HeadIs (uks ++ pairs) n (ConfigFile.list r.0)

uk_list-Adds :
    (keys : List (ℕ × List ℕ)) (s : ConfigFile × ParserState) (n : ℕ) (uks : List DigitKeyPair)
    → Keeps uks n s
    → AreKeyDigits keys
    → Returns (Adds uks n keys) (reduce_all (uk_list keys) s)
unfolding reduce_all
uk_list-Adds [] s n uks (head, e, f, buffer) digits = ([], record {}, rw (append-nil uks) head)
uk_list-Adds ((digit, key) ∷ keys) s n uks keeps ((hex, len), digits) =
    one_more (reduce (hexkey_start key) s) (key-Next s n uks digit key keeps hex len)
      (λ r pair h. uk_list-Adds keys r n (uks ++ (pair ∷ [])) h digits)
  where
    all_of :
        (m : Run (ConfigFile × ParserState)) (pair : DigitKeyPair)
        → IsPairOf (digit, key) pair
        → Returns (Adds (uks ++ (pair ∷ [])) n keys) m
        → Returns (Adds uks n ((digit, key) ∷ keys)) m
    all_of (ok r) pair good (pairs, others, head) =
        (pair ∷ pairs, (good, others), rw (← append_assoc-one uks pair pairs) head)
    all_of fault pair good h = h
    all_of stuck pair good h = h

    one_more :
        (m : Run (ConfigFile × ParserState))
        → Returns (Next uks n (digit, key)) (m >>= reduce (uk_data digit))
        → ((r : ConfigFile × ParserState) (pair : DigitKeyPair)
            → Keeps (uks ++ (pair ∷ [])) n r
            → Returns (Adds (uks ++ (pair ∷ [])) n keys) (reduce_all (uk_list keys) r))
        → Returns
            (Adds uks n ((digit, key) ∷ keys))
            (m >>= λ r. reduce (uk_data digit) r >>= reduce_all (uk_list keys))
    one_more (ok q) next more =
        Returns-then (Next uks n (digit, key)) (Adds uks n ((digit, key) ∷ keys))
          (reduce (uk_data digit) q) _ next
          (λ r (pair, good, keeps).
            all_of (reduce_all (uk_list keys) r) pair good (more r pair keeps))
    one_more fault next more = next
    one_more stuck next more = next

-- The new entry has these keys, in their order.
abbrev pub HasUks : ConfigFile → List (ℕ × List ℕ) → ConfigFile × ParserState → Type 0
HasUks cf keys r = Adds [] (length cf.list) keys r

disc_info-Keeps :
    (cf : ConfigFile) (ps : ParserState)
    → HasBuffer ps
    → IsRead ps
    → ps.dkplist ≡ none
    → Returns (Keeps [] (length cf.list)) (reduce disc_info (cf, ps))
unfolding reduce start_disc new_disc new_title_entry
disc_info-Keeps cf ps buffer (long, wanted) e =
    rw (long, wanted)
      (Returns-then (HasLength 20) (Keeps [] (length cf.list)) (hexstring_to_hex_array 20 ps.hexkey)
        _ (disc_id_converted ps.hexkey ps.hexkey_size buffer (ground arith))
        (λ w len. ((refl, refl), refl, e, buffer)))

-- If no list of unit keys is open, and an entry is read for a disc that is wanted, then its list
-- of keys of 32 digits each is read to an end, and the new entry has all of them, in their order
-- and with their numbers.
pub reduce_all-HasUks :
    (cf : ConfigFile) (ps : ParserState) (keys : List (ℕ × List ℕ))
    → HasBuffer ps
    → IsRead ps
    → ps.dkplist ≡ none
    → AreKeyDigits keys
    → Returns (HasUks cf keys) (reduce_all (disc_info ∷ uk_list keys) (cf, ps))
unfolding reduce_all
reduce_all-HasUks cf ps keys buffer read e digits =
    Returns-then (Keeps [] (length cf.list)) (HasUks cf keys) (reduce disc_info (cf, ps)) _
      (disc_info-Keeps cf ps buffer read e)
      (λ r keeps. uk_list-Adds keys r (length cf.list) [] keeps digits)
