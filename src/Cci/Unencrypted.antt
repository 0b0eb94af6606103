-- ===== src/Cci/Unencrypted.antt =====
-- `cci_is_unencrypted` of cci.c against the conditions that its comments name, and the titles that the
-- parser hides from it.
use libaacs.Common.{
  ℕ, zero, suc, ◌+◌, ◌/◌, ◌≤◌, ◌<◌, ◌≡◌, sym, ◌∙◌, ◌≢◌, inl, inr, Bool, true, false, ◌||◌, Option,
  none, some, List, [], ◌∷◌, arith, ◌==◌, if◌then◌else◌, ==_iff, Bool-cases, length, All, Run, ok,
  fault, stuck, Returns, byte, byte_at_lem,
}
use libaacs.Cci.{
  CciEntry, aacs_basic_cci, aacs_enhanced_title_usage, basic_titles, copy_freely,
  cci_is_unencrypted,
}
use libaacs.Cci.Safety.{HasTitles}
use mathlib.Core.Path.{subst}

-- The entry that decides: the first that is basic or enhanced.
abbrev pub decisive : List CciEntry → Option CciEntry
decisive [] = none
decisive (e ∷ es) =
    if e.type == aacs_enhanced_title_usage || e.type == aacs_basic_cci then some e else decisive es

-- Copy freely, EPN unasserted, HD analog output allowed, not only digital, APS off.
abbrev pub AllowsCopies : CciEntry → Type 0
AllowsCopies e =
    (e.version ≡ 0x0100)
    × (e.data_length ≡ 0x84)
    × (e.basic_cci.cci ≡ 0)
    × (e.basic_cci.epn ≡ 1)
    × (e.basic_cci.image_constraint ≢ 0)
    × (e.basic_cci.digital_only ≡ 0)
    × (e.basic_cci.apstb ≡ 0)

-- No title bit is set in the bytes `jj` to `jj + n`.
abbrev pub NoneEnhanced : ℕ → ℕ → List ℕ → Type 0
NoneEnhanced n jj title_type = (i : ℕ) → i < n → byte title_type (jj + i) ≡ 0

-- A basic CCI that allows copies and has basic titles only.
abbrev pub IsFree : CciEntry → Type 0
IsFree e =
    (e.type ≡ aacs_basic_cci)
    × AllowsCopies e
    × NoneEnhanced ((e.basic_cci.num_titles + 7) / 8) 0 e.basic_cci.title_type

abbrev pub Verdict : List CciEntry → Bool → Type 0
Verdict es true = (e : CciEntry) × (decisive es ≡ some e) × IsFree e
Verdict es false = (e : CciEntry) → decisive es ≡ some e → ¬ IsFree e

abbrev Scan : ℕ → ℕ → List ℕ → Bool → Type 0
Scan n jj t true = NoneEnhanced n jj t
Scan n jj t false = ¬ NoneEnhanced n jj t

shift_index : (jj i : ℕ) → jj + suc i ≡ jj + 1 + i
shift_index jj i = omega arith

no_shift : (jj : ℕ) → jj + 0 ≡ jj
no_shift jj = omega arith

one_more_title :
    (n jj : ℕ) (t : List ℕ) (r : Run Bool)
    → byte t jj ≡ 0
    → Returns (Scan n (jj + 1) t) r
    → Returns (Scan (suc n) jj t) r
one_more_title n jj t (ok true) z h = go
  where
    go : NoneEnhanced (suc n) jj t
    go zero lt = rw no_shift z
    go (suc i) lt = rw shift_index (h i (omega arith))
one_more_title n jj t (ok false) z h =
    λ all. h (λ i lt. rw shift_index at (all (suc i) (omega arith)))
one_more_title n jj t fault z h = h
one_more_title n jj t stuck z h = h

basic_titles-Scan :
    (n jj : ℕ) (t : List ℕ) → jj + n ≤ length t → Returns (Scan n jj t) (basic_titles n jj t)
unfolding basic_titles
basic_titles-Scan zero jj t fits = λ i lt. absurd (omega arith)
basic_titles-Scan (suc n) jj t fits =
    rw (byte_at_lem t jj (omega arith)) (elim (Bool-cases (byte t jj == 0)) [
      | inl z ↦ rw z (
          one_more_title n jj t (basic_titles n (jj + 1) t) ((==_iff _ _).0 z)
            (basic_titles-Scan n (jj + 1) t (omega arith)))
      | inr nz ↦
          rw nz
            (λ all. let z : byte t jj ≡ 0 = rw no_shift at (all 0 (omega arith)) in ground arith)
    ])

copy_freely-AllowsCopies : (e : CciEntry) → copy_freely e ≡ true → AllowsCopies e
unfolding copy_freely
copy_freely-AllowsCopies e h = ground arith

AllowsCopies-copy_freely : (e : CciEntry) → AllowsCopies e → copy_freely e ≡ true
unfolding copy_freely
AllowsCopies-copy_freely e (v, l, c, p, i, d, a) = ground arith

one_entry : (e f : CciEntry) (o : Option CciEntry) → o ≡ some e → o ≡ some f → e ≡ f
one_entry e f o p q = cc

-- The verdict on an entry that decides.
scanned-Verdict :
    (e : CciEntry) (es : List CciEntry) (r : Run Bool)
    → e.type ≡ aacs_basic_cci
    → AllowsCopies e
    → decisive (e ∷ es) ≡ some e
    → Returns (Scan ((e.basic_cci.num_titles + 7) / 8) 0 e.basic_cci.title_type) r
    → Returns (Verdict (e ∷ es)) r
scanned-Verdict e es (ok true) type allows first h = (e, first, (type, allows, h))
scanned-Verdict e es (ok false) type allows first h = λ f found (t, a, titles).
    let same : e ≡ f = one_entry e f _ first found in
    h (
      subst (λ x. NoneEnhanced ((x.basic_cci.num_titles + 7) / 8) 0 x.basic_cci.title_type)
        (sym same) titles)
scanned-Verdict e es fault type allows first h = h
scanned-Verdict e es stuck type allows first h = h

skip-Verdict :
    (e : CciEntry) (es : List CciEntry) (b : Bool)
    → decisive (e ∷ es) ≡ decisive es
    → Verdict es b
    → Verdict (e ∷ es) b
skip-Verdict e es true same (f, found, free) = (f, same ∙ found, free)
skip-Verdict e es false same h = λ f found. h f (sym same ∙ found)

skip_run :
    (e : CciEntry) (es : List CciEntry) (r : Run Bool)
    → decisive (e ∷ es) ≡ decisive es
    → Returns (Verdict es) r
    → Returns (Verdict (e ∷ es)) r
skip_run e es (ok b) same h = skip-Verdict e es b same h
skip_run e es fault same h = h
skip_run e es stuck same h = h

refuse :
    (e : CciEntry) (es : List CciEntry)
    → decisive (e ∷ es) ≡ some e
    → ¬ IsFree e
    → Verdict (e ∷ es) false
refuse e es first bad = λ f found free. bad (subst IsFree (sym (one_entry e f _ first found)) free)

titles_fit :
    (e : CciEntry)
    → HasTitles e
    → 0 + (e.basic_cci.num_titles + 7) / 8 ≤ length e.basic_cci.title_type
titles_fit e (sized, few) = omega arith

basic-Verdict :
    (e : CciEntry) (es : List CciEntry)
    → HasTitles e
    → e.type ≡ aacs_basic_cci
    → decisive (e ∷ es) ≡ some e
    → Returns (Verdict (e ∷ es)) (
        if copy_freely e
        then basic_titles ((e.basic_cci.num_titles + 7) / 8) 0 e.basic_cci.title_type
        else ok false)
basic-Verdict e es h type first = elim (Bool-cases (copy_freely e)) [
  | inl free ↦ rw free (
      scanned-Verdict e es _ type (copy_freely-AllowsCopies e free) first (
        basic_titles-Scan ((e.basic_cci.num_titles + 7) / 8) 0 e.basic_cci.title_type
          (titles_fit e h)))
  | inr bound ↦ rw bound (refuse e es first (λ f. cc (AllowsCopies-copy_freely e f.1)))
]

-- On entries that the parser returned, `cci_is_unencrypted` returns. It says yes exactly if the first
-- entry that is basic or enhanced is a basic CCI that allows copies and marks no enhanced title.
pub cci_is_unencrypted-Verdict :
    (es : List CciEntry) → All HasTitles es → Returns (Verdict es) (cci_is_unencrypted es)
unfolding cci_is_unencrypted
cci_is_unencrypted-Verdict [] h = λ e found. cc
cci_is_unencrypted-Verdict (e ∷ es) (titles, all) =
    elim (Bool-cases (e.type == aacs_enhanced_title_usage)) [
      | inl enhanced ↦ rw enhanced (refuse e es (rw enhanced) (λ f. let t = f.0 in ground arith))
      | inr other ↦ elim (Bool-cases (e.type == aacs_basic_cci)) [
        | inl basic ↦
            rw (other, basic) (basic-Verdict e es titles ((==_iff _ _).0 basic) (rw (other, basic)))
        | inr neither ↦
            rw (other, neither)
              (skip_run e es (cci_is_unencrypted es) (rw (other, neither))
                (cci_is_unencrypted-Verdict es all))
      ]
    ]
