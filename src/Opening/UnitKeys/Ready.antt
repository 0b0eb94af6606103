-- ===== src/Opening/UnitKeys/Ready.antt =====
-- What the search for the unit keys leaves in the struct for the stream.
use libaacs.Common.{
  ℕ, zero, suc, ◌+◌, ◌-◌, ◌^◌, ◌≤◌, ◌<◌, ◌≡◌, refl, ap, inl, inr, Bool, true, false, Option, none,
  some, List, [], ◌∷◌, ◌++◌, arith, ltb, ◌==◌, if◌then◌else◌, Bool-cases, same_bytes, length,
  replicate, length-append, length-replicate, All, Run, ok, fault, stuck,
}
use libaacs.ErrorCode.{ErrorCode, success}
use libaacs.UnitKey.{UnitKeys, empty_key}
use libaacs.UnitKey.Titles.{IsUnit, TitlesMatch}
use libaacs.Keydb.{ConfigFile, TitleEntry}
use libaacs.Stream.{Aacs}
use libaacs.Stream.Ready.{IsReady}
use libaacs.Opening.{World, Disc}
use libaacs.Opening.UnitKeys.{
  VukResult, calc_vuk, put_key, decrypt_keys, may_decrypt, enc_keys_of, decrypt_uks, set_uk,
  config_uks, put_config_uks, put_unless_vuk, entry_uks, entry_keys, from_entry, find_config_entry,
  entry_of, pair_keys, has_keys, uks_by_entry, uks_by_vuk, calc_uks,
}
use libaacs.Common.Partial.{WhenOk, WhenOk-bind, WhenOk-then}
use libaacs.Opening.UnitKeys.Keeps.{fixed, KeepsFixed, calc_vuk-KeepsFixed}

abbrev HasKeys : ℕ → ErrorCode × List (List ℕ) → Type 0
HasKeys n r = length r.1 ≡ n

put_key-HasKeys :
    (code : ErrorCode) (n : ℕ) (go : Bool) (key : Option (List ℕ))
    (rest : Run (ErrorCode × List (List ℕ)))
    → WhenOk (HasKeys n) rest
    → WhenOk (HasKeys (suc n)) (put_key code n go key rest)
unfolding put_key
put_key-HasKeys code n false key rest h = length-replicate (suc n) empty_key
put_key-HasKeys code n true none rest h = length-replicate (suc n) empty_key
put_key-HasKeys code n true (some key) rest h =
    WhenOk-then (HasKeys n) (HasKeys (suc n)) rest _ h (λ r len. ap suc len)

decrypt_keys-HasKeys :
    (w : World) (vuk : List ℕ) (code : ErrorCode) (n i : ℕ) (encs : List (List ℕ))
    → WhenOk (HasKeys n) (decrypt_keys w vuk code n i encs)
unfolding decrypt_keys
decrypt_keys-HasKeys w vuk code zero i encs = refl
decrypt_keys-HasKeys w vuk code (suc n) i [] = record {}
decrypt_keys-HasKeys w vuk code (suc n) i (enc ∷ encs) =
    WhenOk-bind (HasKeys (suc n)) (may_decrypt w code (i + 1)) _ (λ go.
      put_key-HasKeys code n go (w.aes.decrypt vuk enc) _
        (decrypt_keys-HasKeys w vuk code n (i + 1) encs))

-- The struct is ready, with the CPS unit `cur`.
abbrev pub ReadyAt : ℕ → Aacs → Type 0
ReadyAt cur aacs = IsReady aacs × (aacs.current_cps_unit ≡ cur)

-- The fields of the unit keys that do not change when they are decrypted.
abbrev pub FitsUnits : ℕ → UnitKeys → Type 0
FitsUnits cur uk =
    TitlesMatch uk.title_cps_unit uk.num_titles uk.num_uk
    × (0 < uk.num_uk)
    × (uk.num_uk < 2 ^ 16)
    × IsUnit uk.num_uk cur

set_uk-ReadyAt :
    (cur : ℕ) (d : Disc) (uk : UnitKeys) (keys : List (List ℕ))
    → FitsUnits cur uk
    → length keys ≡ uk.num_uk
    → d.aacs.current_cps_unit ≡ cur
    → ReadyAt cur (set_uk d (record uk { uk = some keys })).aacs
unfolding set_uk
set_uk-ReadyAt cur d uk keys (titles, some_keys, few, unit) len here =
    ((titles, (len, some_keys, few), rw here unit), here)

decrypt_uks-ReadyAt :
    (w : World) (cur : ℕ) (uk : UnitKeys) (r : VukResult)
    → FitsUnits cur uk
    → r.disc.aacs.current_cps_unit ≡ cur
    → WhenOk (λ s. ReadyAt cur s.0.aacs) (decrypt_uks w uk r)
unfolding decrypt_uks
decrypt_uks-ReadyAt w cur uk r fits here =
    WhenOk-then (HasKeys uk.num_uk) (λ s. ReadyAt cur s.0.aacs)
      (decrypt_keys w r.vuk r.code uk.num_uk 0 (enc_keys_of uk.enc_uk)) _
      (decrypt_keys-HasKeys w r.vuk r.code uk.num_uk 0 (enc_keys_of uk.enc_uk))
      (λ k len. set_uk-ReadyAt cur r.disc uk k.1 fits len here)

All-le : (n m : ℕ) (units : List ℕ) → n ≤ m → All (IsUnit n) units → All (IsUnit m) units
All-le n m [] h all = record {}
All-le n m (u ∷ us) h (inl lt, all) = (inl (omega arith), All-le n m us h all)
All-le n m (u ∷ us) h (inr e, all) = (inr e, All-le n m us h all)

TitlesMatch-le :
    (n m num_titles : ℕ) (o : Option (List ℕ))
    → n ≤ m
    → TitlesMatch o num_titles n
    → TitlesMatch o num_titles m
TitlesMatch-le n m num_titles none h t = t
TitlesMatch-le n m num_titles (some units) h (len, all, few) = (len, All-le n m units h all, few)

IsUnit-le : (n m cur : ℕ) → n ≤ m → IsUnit n cur → IsUnit m cur
IsUnit-le n m cur h (inl lt) = inl (omega arith)
IsUnit-le n m cur h (inr e) = inr e

-- A configuration does not have too many keys for a disc.
abbrev pub FewKeys : TitleEntry → Type 0
FewKeys ce = length (pair_keys ce.uk) < 2 ^ 16

put_config_uks-ReadyAt :
    (cur : ℕ) (uk : UnitKeys) (keys : List (List ℕ)) (r : VukResult)
    → FitsUnits cur uk
    → length keys < 2 ^ 16
    → r.disc.aacs.current_cps_unit ≡ cur
    → ReadyAt cur (put_config_uks uk keys r).disc.aacs
unfolding put_config_uks config_uks
put_config_uks-ReadyAt cur uk keys r (titles, some_keys, few, unit) short here =
    let num_uk = if ltb uk.num_uk (length keys) then length keys else uk.num_uk in
    let more : uk.num_uk ≤ num_uk = larger uk.num_uk (length keys) in
    let small : num_uk < 2 ^ 16 = smaller uk.num_uk (length keys) few short in
    let all : length (keys ++ replicate (num_uk - length keys) empty_key) ≡ num_uk = omega (
      arith,
      length-append keys (replicate (num_uk - length keys) empty_key),
      length-replicate (num_uk - length keys) empty_key,
      enough uk.num_uk (length keys),
    ) in
    set_uk-ReadyAt cur r.disc (record uk { num_uk = num_uk })
      (keys ++ replicate (num_uk - length keys) empty_key)
      (
        TitlesMatch-le uk.num_uk num_uk uk.num_titles uk.title_cps_unit more titles,
        omega arith,
        small,
        IsUnit-le uk.num_uk num_uk cur more unit,
      )
      all here
  where
    larger : (n m : ℕ) → n ≤ (if ltb n m then m else n)
    larger n m = ground arith

    enough : (n m : ℕ) → m ≤ (if ltb n m then m else n)
    enough n m = ground arith

    smaller : (n m : ℕ) → n < 2 ^ 16 → m < 2 ^ 16 → (if ltb n m then m else n) < 2 ^ 16
    smaller n m h k = ground arith

abbrev VukReady : ℕ → VukResult → Type 0
VukReady cur r = ReadyAt cur r.disc.aacs

calc_vuk-VukReady :
    (w : World) (fuel cur : ℕ) (d : Disc) (mk vuk : List ℕ) (cf : Option ConfigFile)
    → ReadyAt cur d.aacs
    → WhenOk (VukReady cur) (calc_vuk w fuel d mk vuk cf)
calc_vuk-VukReady w fuel cur d mk vuk cf ready =
    after (calc_vuk w fuel d mk vuk cf) (calc_vuk-KeepsFixed w fuel d mk vuk cf)
  where
    after : (m : Run VukResult) → WhenOk (KeepsFixed (fixed d)) m → WhenOk (VukReady cur) m
    after (ok r) keeps = rw (ap (λ f. f.0) keeps) ready
    after fault keeps = record {}
    after stuck keeps = record {}

put_unless_vuk-VukReady :
    (cur : ℕ) (uk : UnitKeys) (keys : List (List ℕ)) (code : ErrorCode) (r : VukResult)
    → FitsUnits cur uk
    → length keys < 2 ^ 16
    → VukReady cur r
    → VukReady cur (put_unless_vuk uk keys code r)
unfolding put_unless_vuk
put_unless_vuk-VukReady cur uk keys success r fits short ready = ready
put_unless_vuk-VukReady cur uk keys _ r fits short ready =
    put_config_uks-ReadyAt cur uk keys r fits short ready.1

entry_uks-VukReady :
    (w : World) (fuel cur : ℕ) (cf : ConfigFile) (uk : UnitKeys) (keys : List (List ℕ))
    (r : VukResult)
    → FitsUnits cur uk
    → length keys < 2 ^ 16
    → VukReady cur r
    → WhenOk (VukReady cur) (entry_uks w fuel cf uk keys r)
unfolding entry_uks
entry_uks-VukReady w fuel cur cf uk [] r fits short ready = ready
entry_uks-VukReady w fuel cur cf uk (k ∷ ks) r fits short ready =
    elim (Bool-cases (length (k ∷ ks) == uk.num_uk)) [
      | inl same ↦ rw same (put_config_uks-ReadyAt cur uk (k ∷ ks) r fits short ready.1)
      | inr other ↦ rw other (
          WhenOk-then (VukReady cur) (VukReady cur) (calc_vuk w fuel r.disc r.mk r.vuk (some cf)) _
            (calc_vuk-VukReady w fuel cur r.disc r.mk r.vuk (some cf) ready)
            (λ v v_ready. put_unless_vuk-VukReady cur uk (k ∷ ks) v.code v fits short v_ready))
    ]

entry_keys-VukReady :
    (cur : ℕ) (ce : TitleEntry) (r : VukResult) → VukReady cur r → VukReady cur (entry_keys ce r)
unfolding entry_keys
entry_keys-VukReady cur ce r ready = ready

from_entry-VukReady :
    (w : World) (fuel cur : ℕ) (cf : ConfigFile) (uk : UnitKeys) (r : VukResult) (disc_id : List ℕ)
    (list : List TitleEntry)
    → FitsUnits cur uk
    → All FewKeys list
    → VukReady cur r
    → WhenOk (VukReady cur) (from_entry w fuel cf uk r (entry_of disc_id list))
unfolding from_entry entry_of
from_entry-VukReady w fuel cur cf uk r disc_id [] fits few ready = ready
from_entry-VukReady w fuel cur cf uk r disc_id (ce ∷ list) fits few ready =
    elim (Bool-cases (same_bytes disc_id ce.discid)) [
      | inl here ↦ rw here (
          entry_uks-VukReady w fuel cur cf uk (pair_keys ce.uk) (entry_keys ce r) fits few.0
            (entry_keys-VukReady cur ce r ready))
      | inr next ↦ rw next (from_entry-VukReady w fuel cur cf uk r disc_id list fits few.1 ready)
    ]

abbrev pub DiscReady : ℕ → Disc × ErrorCode → Type 0
DiscReady cur s = ReadyAt cur s.0.aacs

uks_by_entry-DiscReady :
    (w : World) (fuel cur : ℕ) (cf : ConfigFile) (uk : UnitKeys) (r : VukResult)
    → FitsUnits cur uk
    → VukReady cur r
    → WhenOk (DiscReady cur) (uks_by_entry w fuel cf uk r)
unfolding uks_by_entry
uks_by_entry-DiscReady w fuel cur cf uk r fits ready = elim (Bool-cases (has_keys r.disc.aacs.uk)) [
  | inl there ↦ rw there ready
  | inr missing ↦ rw missing (
      WhenOk-then (VukReady cur) (DiscReady cur) (calc_vuk w fuel r.disc r.mk r.vuk (some cf)) _
        (calc_vuk-VukReady w fuel cur r.disc r.mk r.vuk (some cf) ready)
        (λ v v_ready. decrypt_uks-ReadyAt w cur uk v fits v_ready.1))
]

-- The entries of a configuration, if there is one.
abbrev pub FewKeysIn : Option ConfigFile → Type 0
FewKeysIn none = Unit
FewKeysIn (some cf) = All FewKeys cf.list

uks_by_vuk-DiscReady :
    (w : World) (fuel cur : ℕ) (cf : Option ConfigFile) (uk : UnitKeys) (code : ErrorCode)
    (r : VukResult)
    → FitsUnits cur uk
    → FewKeysIn cf
    → VukReady cur r
    → WhenOk (DiscReady cur) (uks_by_vuk w fuel cf uk code r)
unfolding uks_by_vuk find_config_entry
uks_by_vuk-DiscReady w fuel cur cf uk success r fits few ready =
    decrypt_uks-ReadyAt w cur uk r fits ready.1
uks_by_vuk-DiscReady w fuel cur none uk _ r fits few ready =
    WhenOk-then (VukReady cur) (DiscReady cur) (calc_vuk w fuel r.disc r.mk r.vuk none) _
      (calc_vuk-VukReady w fuel cur r.disc r.mk r.vuk none ready)
      (λ v v_ready. decrypt_uks-ReadyAt w cur uk v fits v_ready.1)
uks_by_vuk-DiscReady w fuel cur (some cf) uk _ r fits few ready =
    WhenOk-then (VukReady cur) (DiscReady cur)
      (from_entry w fuel cf uk r (entry_of r.disc.disc_id cf.list)) _
      (from_entry-VukReady w fuel cur cf uk r r.disc.disc_id cf.list fits few ready)
      (λ e e_ready. uks_by_entry-DiscReady w fuel cur cf uk e fits e_ready)

-- If the struct is ready for the stream, its title map and CPS unit fit to the keys, of which there are 1
-- to 65535, and the entries of the configuration have fewer than 65536 keys, then `_calc_uks` leaves it
-- ready whenever it returns, whatever its result is, and does not change the CPS unit.
pub calc_uks-DiscReady :
    (w : World) (fuel cur : ℕ) (d : Disc) (cf : Option ConfigFile) (uk : UnitKeys)
    → FitsUnits cur uk
    → FewKeysIn cf
    → ReadyAt cur d.aacs
    → WhenOk (DiscReady cur) (calc_uks w fuel d cf uk)
unfolding calc_uks
calc_uks-DiscReady w fuel cur d cf uk fits few ready = elim (Bool-cases (ltb uk.num_uk 1)) [
  | inl nothing ↦ rw nothing ready
  | inr some_keys ↦ rw some_keys (
      WhenOk-then (VukReady cur) (DiscReady cur)
        (calc_vuk w fuel d (replicate 16 0) (replicate 16 0) none) _
        (calc_vuk-VukReady w fuel cur d (replicate 16 0) (replicate 16 0) none ready)
        (λ r r_ready. uks_by_vuk-DiscReady w fuel cur cf uk r.code r fits few r_ready))
]
