-- ===== src/Mkb/Examples.antt =====
-- The theorems on the media key block at concrete inputs.
use libaacs.Common.{ℕ, ◌≡◌, refl, some, List, [], ◌∷◌, ◌++◌, arith, length, replicate, ok, Returns}
use libaacs.Mkb.{Mkb, mkb_init, find_record, mkb_host_cert_is_revoked, mkb_drive_cert_is_revoked}
use libaacs.Mkb.Safety.{IsValid, IsRecord, find_record-IsRecord}
use libaacs.Mkb.Lookup.{Entry, encode_all, find_record-encode_all}
use libaacs.Mkb.Revocation.{MkbVerdict, certs_are_revoked-MkbVerdict}

-- A type and version record (type 0x00031003, version 7), and a list of one revoked host, id 2 to 5.
abbrev entries : List Entry
entries =
    record { type = 0x10; body = 0 ∷ 3 ∷ 0x10 ∷ 3 ∷ 0 ∷ 0 ∷ 0 ∷ 7 ∷ [] }
    ∷ record {
      type = 0x21;
      body = replicate 7 0 ++ (1 ∷ 0 ∷ 3 ∷ replicate 5 0 ++ (2 ∷ replicate 40 0));
    }
    ∷ []

abbrev sample : Mkb
sample = record { size = length (encode_all entries); buf = encode_all entries }

sample-IsValid : IsValid sample
sample-IsValid = record { sized = refl; small = omega arith; bytes = omega arith }

find_record-IsRecord_example : Returns (IsRecord sample 0x21) (find_record sample 0x21)
find_record-IsRecord_example = find_record-IsRecord sample 0x21 sample-IsValid

find_record-encode_all_example :
    find_record (mkb_init (encode_all entries) (length (encode_all entries))) 0x21
    ≡ ok (some (12, 60))
find_record-encode_all_example = find_record-encode_all 0x21 entries (omega arith) (omega arith)

abbrev host_4 : List ℕ
host_4 = 0 ∷ 0 ∷ 0 ∷ 0 ∷ 0 ∷ 4 ∷ []

certs_are_revoked-MkbVerdict_example :
    Returns (MkbVerdict sample 0x21 host_4) (mkb_host_cert_is_revoked sample host_4)
    × Returns (MkbVerdict sample 0x20 host_4) (mkb_drive_cert_is_revoked sample host_4)
certs_are_revoked-MkbVerdict_example =
    certs_are_revoked-MkbVerdict sample host_4 sample-IsValid (omega arith)
