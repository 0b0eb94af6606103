-- ===== src/Mkb/Revocation.antt =====
-- The revocation check of mkb.c against what it promises: a certificate is revoked if an entry of the
-- list covers its id.
use libaacs.Common.{
  ℕ, zero, suc, ◌+◌, ◌-◌, ◌*◌, ◌/◌, ◌≤◌, ◌<◌, ◌≡◌, refl, ◌⊎◌, inl, inr, ◌&&◌, Option, none, some,
  List, arith, ltb, leb, if◌then◌else◌, ltb→lt, leb→le, Bool-cases, length, Run, ok, fault, stuck,
  ◌>>=◌, Returns, word16, word32, word48, be16_lem, be32_lem, be48_lem,
}
use libaacs.Mkb.{
  simple_record, Mkb, CertStatus, not_revoked, revoked, unknown, revoked_in, rl_record_len,
  cert_is_revoked, status_in, mkb_host_cert_is_revoked, mkb_drive_cert_is_revoked,
}
use libaacs.Mkb.Safety.{IsValid, IsBody, Returns->>=, simple_record-IsBody}

-- An entry is a range of two bytes and the first id of six.
abbrev pub EntryCovers : List ℕ → ℕ → ℕ → Type 0
EntryCovers buf p cert_id =
    (word48 buf (p + 2) ≤ cert_id) × (cert_id ≤ word48 buf (p + 2) + word16 buf p)

-- One of the `n` entries from `rl` on covers the id.
abbrev pub Covered : List ℕ → ℕ → ℕ → ℕ → Type 0
Covered buf rl n cert_id = (i : ℕ) × (i < n) × EntryCovers buf (rl + 8 * i) cert_id

abbrev pub Scanned : List ℕ → ℕ → ℕ → ℕ → CertStatus → Type 0
Scanned buf rl n cert_id not_revoked = ¬ Covered buf rl n cert_id
Scanned buf rl n cert_id revoked = Covered buf rl n cert_id
Scanned buf rl n cert_id unknown = ⊥

-- The entry `i` behind the first is the entry `i + 1`.
next_entry : (rl i : ℕ) → rl + 8 * suc i ≡ rl + 8 + 8 * i
next_entry rl i = omega arith

first_entry : (rl : ℕ) → rl + 8 * 0 ≡ rl
first_entry rl = omega arith

Scanned-suc :
    (buf : List ℕ) (rl n cert_id : ℕ) (s : CertStatus)
    → ¬ EntryCovers buf rl cert_id
    → Scanned buf (rl + 8) n cert_id s
    → Scanned buf rl (suc n) cert_id s
Scanned-suc buf rl n cert_id not_revoked miss h = go
  where
    go : ¬ Covered buf rl (suc n) cert_id
    go (zero, lt, c) = miss (rw first_entry at c)
    go (suc i, lt, c) = h (i, omega arith, rw next_entry at c)
Scanned-suc buf rl n cert_id revoked miss (i, lt, c) = (suc i, omega arith, rw (next_entry rl i) c)
Scanned-suc buf rl n cert_id unknown miss h = h

-- The bounds of one entry, and the two tests on it.
revoked_in-Scanned :
    (n : ℕ) (buf : List ℕ) (rl cert_id : ℕ)
    → rl + 8 * n ≤ length buf
    → Returns (Scanned buf rl n cert_id) (revoked_in n buf rl cert_id)
unfolding revoked_in
revoked_in-Scanned zero buf rl cert_id fits = none_covered
  where
    none_covered : ¬ Covered buf rl 0 cert_id
    none_covered (i, lt, c) = omega arith
revoked_in-Scanned (suc n) buf rl cert_id fits =
    rw (be16_lem buf rl (omega arith), be48_lem buf (rl + 2) (omega arith))
      (elim (Bool-cases
        (leb (word48 buf (rl + 2)) cert_id && leb cert_id (word48 buf (rl + 2) + word16 buf rl))) [
          | inl hit ↦ rw hit (zero, omega arith, rw first_entry (ground arith))
          | inr miss ↦ rw miss (
              Returns-map (Scanned-suc buf rl n cert_id) (revoked_in n buf (rl + 8) cert_id)
                (λ c. ground arith) (revoked_in-Scanned n buf (rl + 8) cert_id (omega arith)))
        ])
  where
    Returns-map :
        ((s : CertStatus)
          → ¬ EntryCovers buf rl cert_id
          → Scanned buf (rl + 8) n cert_id s
          → Scanned buf rl (suc n) cert_id s)
        → (r : Run CertStatus) → ¬ EntryCovers buf rl cert_id
        → Returns (Scanned buf (rl + 8) n cert_id) r
        → Returns (Scanned buf rl (suc n) cert_id) r
    Returns-map k (ok s) miss h = k s miss h
    Returns-map k fault miss h = absurd h
    Returns-map k stuck miss h = absurd h

-- The length of the list does not wrap below the limit on the number of entries.
rl_record_len_lem :
    (entries : ℕ) → entries < (0xffff_ffff - 8 - 40) / 8 → rl_record_len entries ≡ 48 + 8 * entries
unfolding rl_record_len
rl_record_len_lem entries h = omega arith

-- What a verdict says of the list that starts at `rl`.
abbrev pub RlVerdict : List ℕ → ℕ → ℕ → ℕ → CertStatus → Type 0
RlVerdict buf rl rl_size cert_id not_revoked =
    (rl_size ≤ 8)
    ⊎ ((0xffff_ffff - 8 - 40) / 8 ≤ word32 buf (rl + 4))
    ⊎ (¬ Covered buf (rl + 8) (word32 buf (rl + 4)) cert_id)
RlVerdict buf rl rl_size cert_id revoked =
    (48 + 8 * word32 buf (rl + 4) ≤ rl_size) × Covered buf (rl + 8) (word32 buf (rl + 4)) cert_id
RlVerdict buf rl rl_size cert_id unknown = rl_size < 48 + 8 * word32 buf (rl + 4)

Scanned-RlVerdict :
    (buf : List ℕ) (rl rl_size cert_id : ℕ) (r : Run CertStatus)
    → 48 + 8 * word32 buf (rl + 4) ≤ rl_size
    → Returns (Scanned buf (rl + 8) (word32 buf (rl + 4)) cert_id) r
    → Returns (RlVerdict buf rl rl_size cert_id) r
Scanned-RlVerdict buf rl rl_size cert_id (ok not_revoked) fits h = inr (inr h)
Scanned-RlVerdict buf rl rl_size cert_id (ok revoked) fits h = (fits, h)
Scanned-RlVerdict buf rl rl_size cert_id (ok unknown) fits h = absurd h
Scanned-RlVerdict buf rl rl_size cert_id fault fits h = h
Scanned-RlVerdict buf rl rl_size cert_id stuck fits h = h

-- The part of `cert_is_revoked` behind the reads.
entries_verdict :
    (buf : List ℕ) (rl rl_size cert_id : ℕ)
    → rl + rl_size ≤ length buf
    → Returns (RlVerdict buf rl rl_size cert_id) (
        if leb ((0xffff_ffff - 8 - 40) / 8) (word32 buf (rl + 4))
        then ok not_revoked
        else if ltb rl_size (rl_record_len (word32 buf (rl + 4)))
        then ok unknown
        else revoked_in (word32 buf (rl + 4)) buf (rl + 8) cert_id)
entries_verdict buf rl rl_size cert_id fits =
    elim (Bool-cases (leb ((0xffff_ffff - 8 - 40) / 8) (word32 buf (rl + 4)))) [
      | inl many ↦ rw many (inr (inl (leb→le _ _ many)))
      | inr few ↦ rw few (below (word32 buf (rl + 4)) refl (ground arith))
    ]
  where
    below :
        (n : ℕ)
        → word32 buf (rl + 4) ≡ n
        → n < (0xffff_ffff - 8 - 40) / 8
        → Returns (RlVerdict buf rl rl_size cert_id) (
            if ltb rl_size (rl_record_len (word32 buf (rl + 4)))
            then ok unknown
            else revoked_in (word32 buf (rl + 4)) buf (rl + 8) cert_id)
    below n e few =
        rw (rl_record_len_lem (word32 buf (rl + 4)) (omega arith))
          (elim (Bool-cases (ltb rl_size (48 + 8 * word32 buf (rl + 4)))) [
            | inl short ↦ rw short (ltb→lt _ _ short)
            | inr whole ↦
                let room : 48 + 8 * word32 buf (rl + 4) ≤ rl_size = ground arith in
                rw whole (
                  Scanned-RlVerdict buf rl rl_size cert_id _ room
                    (revoked_in-Scanned (word32 buf (rl + 4)) buf (rl + 8) cert_id (omega arith)))
          ])

-- The verdict on a list that lies inside of the buffer, for an id of six bytes: `revoked` exactly if
-- the list is whole, its number of entries is below the limit, and an entry covers the id.
pub cert_is_revoked-RlVerdict :
    (buf cert : List ℕ) (rl rl_size : ℕ)
    → rl + rl_size ≤ length buf
    → 6 ≤ length cert
    → Returns (RlVerdict buf rl rl_size (word48 cert 0)) (cert_is_revoked buf rl rl_size cert)
unfolding cert_is_revoked
cert_is_revoked-RlVerdict buf cert rl rl_size fits six = elim (Bool-cases (ltb 8 rl_size)) [
  | inl some_entries ↦
      let room : 8 < rl_size = ltb→lt _ _ some_entries in
      rw (some_entries, be48_lem cert 0 (omega arith), be32_lem buf (rl + 4) (omega arith))
        (entries_verdict buf rl rl_size (word48 cert 0) fits)
  | inr empty ↦ rw empty (inl (ground arith))
]

-- What a verdict says of the block: a list behind a header of that type, and the verdict on it.
abbrev pub MkbVerdict : Mkb → ℕ → List ℕ → CertStatus → Type 0
MkbVerdict mkb type cert s =
    (s ≡ unknown)
    ⊎ ((rl : ℕ) × (len : ℕ) × IsBody mkb type (some rl, len)
        × RlVerdict mkb.buf rl len (word48 cert 0) s)

Returns-imp :
    (P Q : CertStatus → Type 0) (r : Run CertStatus)
    → ((s : CertStatus) → P s → Q s)
    → Returns P r
    → Returns Q r
Returns-imp P Q (ok s) k h = k s h
Returns-imp P Q fault k h = h
Returns-imp P Q stuck k h = h

status_in-MkbVerdict :
    (mkb : Mkb) (type : ℕ) (cert : List ℕ)
    → IsValid mkb
    → 6 ≤ length cert
    → (b : Option ℕ × ℕ) → IsBody mkb type b
    → Returns (MkbVerdict mkb type cert) (status_in mkb cert b)
unfolding status_in
status_in-MkbVerdict mkb type cert v six (none, len) h = inl refl
status_in-MkbVerdict mkb type cert v six (some rl, len) h =
    let sized = v.sized in
    Returns-imp (RlVerdict mkb.buf rl len (word48 cert 0)) (MkbVerdict mkb type cert)
      (cert_is_revoked mkb.buf rl len cert) (λ s d. inr (rl, len, h, d))
      (cert_is_revoked-RlVerdict mkb.buf cert rl len (omega arith) six)

-- On any image both checks return, without a read outside of it. `revoked` means that an entry of a
-- whole list in a record of the right type covers the id; `not_revoked` that such a record is there
-- and none of its entries does, or that it has no entries or more than the limit.
pub certs_are_revoked-MkbVerdict :
    (mkb : Mkb) (cert : List ℕ)
    → IsValid mkb
    → 6 ≤ length cert
    → Returns (MkbVerdict mkb 0x21 cert) (mkb_host_cert_is_revoked mkb cert)
      × Returns (MkbVerdict mkb 0x20 cert) (mkb_drive_cert_is_revoked mkb cert)
unfolding mkb_host_cert_is_revoked mkb_drive_cert_is_revoked
certs_are_revoked-MkbVerdict mkb cert v six = (check 0x21, check 0x20)
  where
    check :
        (type : ℕ)
        → Returns
            (MkbVerdict mkb type cert)
            (simple_record mkb type (some 0) >>= λ b. status_in mkb cert b)
    check type =
        Returns->>= (IsBody mkb type) (MkbVerdict mkb type cert) (simple_record mkb type (some 0)) _
          (simple_record-IsBody mkb type 0 v) (status_in-MkbVerdict mkb type cert v six)
