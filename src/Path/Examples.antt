-- ===== src/Path/Examples.antt =====
-- The theorems on paths at concrete inputs.
use libaacs.Common.{
  ℕ, ◌≡◌, refl, none, some, List, [], ◌∷◌, ◌++◌, arith, replicate, length-replicate, ok, fault,
}
use libaacs.Common.Partial.{Ends}
use libaacs.Path.{Links, link_to, not_link, aacs_resolve_path}
use libaacs.Path.Ends.{Fits, aacs_resolve_path-Ends}
use libaacs.Path.Overrun.{IsName, IsTooLong, aacs_resolve_path-overrun}
use libaacs.Path.Plain.{slashed, aacs_resolve_path-slashed}

-- Every name is a link to itself.
abbrev circle : Links
circle = record { getcwd = none; readlink = λ p. link_to (b'a' ∷ []) }

aacs_resolve_path-Ends_example : Ends Fits (aacs_resolve_path circle (b'/' ∷ b'a' ∷ []))
aacs_resolve_path-Ends_example = aacs_resolve_path-Ends circle (b'/' ∷ b'a' ∷ [])

-- A link to 600 characters in front of 600 others.
abbrev long_link : Links
long_link = record { getcwd = none; readlink = λ p. link_to (replicate 600 b'b') }

-- "link".
abbrev link_name : List ℕ
link_name = b'l' ∷ b'i' ∷ b'n' ∷ b'k' ∷ []

lengths : IsTooLong link_name (replicate 600 b'b') (replicate 600 b'c')
lengths =
    let size = length-replicate {A = ℕ} 600 b'b' in
    let more = length-replicate {A = ℕ} 600 b'c' in (omega arith, omega arith, omega arith)

link_name-IsName : IsName link_name
link_name-IsName = ((refl, (refl, (refl, (refl, record {})))), (λ e. cc), (λ e. cc))

aacs_resolve_path-overrun_example :
    aacs_resolve_path long_link (b'/' ∷ (link_name ++ (b'/' ∷ replicate 600 b'c'))) ≡ fault
aacs_resolve_path-overrun_example =
    aacs_resolve_path-overrun long_link link_name (replicate 600 b'b') (replicate 600 b'c')
      link_name-IsName refl lengths

-- "dev" and "sr0".
abbrev dev : List ℕ
dev = b'd' ∷ b'e' ∷ b'v' ∷ []

abbrev sr0 : List ℕ
sr0 = b's' ∷ b'r' ∷ b'0' ∷ []

abbrev no_links : Links
no_links = record { getcwd = none; readlink = λ p. not_link }

aacs_resolve_path-slashed_example :
    aacs_resolve_path no_links (slashed (dev ∷ sr0 ∷ [])) ≡ ok (some (slashed (dev ∷ sr0 ∷ [])))
aacs_resolve_path-slashed_example =
    aacs_resolve_path-slashed no_links dev (sr0 ∷ []) (λ p. refl)
      (
        (refl, (refl, (refl, (refl, record {})))),
        ((refl, (refl, (refl, (refl, record {})))), record {}),
      )
      (omega arith) (omega arith)
