-- ===== src/Common/Partial.antt =====
-- What a piece of C gives if it returns.
use mathlib.Core.Path.{◌≡◌, refl}
use mathlib.Core.Bool.{Bool, true, false}
use libaacs.Common.Tests.{if◌then◌else◌}
use libaacs.Common.Outcome.{Run, ok, fault, stuck, ◌>>=◌, Returns}

-- If the code returns, what it returns satisfies `P`.
abbrev pub WhenOk {ℓ} : {A : Type ℓ} → (A → Type 0) → Run A → Type 0
WhenOk P (ok a) = P a
WhenOk P fault = Unit
WhenOk P stuck = Unit

pub WhenOk-bind {ℓ κ} :
    {A : Type ℓ} {B : Type κ} (P : B → Type 0) (m : Run A) (f : A → Run B)
    → ((a : A) → WhenOk P (f a))
    → WhenOk P (m >>= f)
WhenOk-bind P (ok a) f h = h a
WhenOk-bind P fault f h = record {}
WhenOk-bind P stuck f h = record {}

pub WhenOk-then {ℓ κ} :
    {A : Type ℓ} {B : Type κ} (Q : A → Type 0) (P : B → Type 0) (m : Run A) (f : A → Run B)
    → WhenOk Q m
    → ((a : A) → Q a → WhenOk P (f a))
    → WhenOk P (m >>= f)
WhenOk-then Q P (ok a) f q h = h a q
WhenOk-then Q P fault f q h = record {}
WhenOk-then Q P stuck f q h = record {}

-- The same, with the equation for what it returned.
pub WhenOk-from {ℓ κ} :
    {A : Type ℓ} {B : Type κ} (P : B → Type 0) (m : Run A) (f : A → Run B)
    → ((a : A) → m ≡ ok a → WhenOk P (f a))
    → WhenOk P (m >>= f)
WhenOk-from P (ok a) f h = h a refl
WhenOk-from P fault f h = record {}
WhenOk-from P stuck f h = record {}

pub WhenOk-weaken {ℓ} :
    {A : Type ℓ} (Q P : A → Type 0) (m : Run A) → ((a : A) → Q a → P a) → WhenOk Q m → WhenOk P m
WhenOk-weaken Q P (ok a) h q = h a q
WhenOk-weaken Q P fault h q = record {}
WhenOk-weaken Q P stuck h q = record {}

pub WhenOk-if {ℓ} :
    {A : Type ℓ} (P : A → Type 0) (b : Bool) (m k : Run A)
    → WhenOk P m
    → WhenOk P k
    → WhenOk P (if b then m else k)
WhenOk-if P true m k p q = p
WhenOk-if P false m k p q = q

pub Returns-then {ℓ κ} :
    {A : Type ℓ} {B : Type κ} (Q : A → Type 0) (P : B → Type 0) (m : Run A) (f : A → Run B)
    → Returns Q m
    → ((a : A) → Q a → Returns P (f a))
    → Returns P (m >>= f)
Returns-then Q P (ok a) f q h = h a q
Returns-then Q P fault f q h = q
Returns-then Q P stuck f q h = q

pub Returns-both {ℓ} :
    {A : Type ℓ} (P Q : A → Type 0) (m : Run A)
    → Returns P m
    → Returns Q m
    → Returns (λ a. P a × Q a) m
Returns-both P Q (ok a) p q = (p, q)
Returns-both P Q fault p q = p
Returns-both P Q stuck p q = p

-- The code comes to an end, and if it returns, what it returns satisfies `P`.
abbrev pub Ends {ℓ} : {A : Type ℓ} → (A → Type 0) → Run A → Type 0
Ends P (ok a) = P a
Ends P fault = Unit
Ends P stuck = ⊥

pub Ends-then {ℓ κ} :
    {A : Type ℓ} {B : Type κ} (Q : A → Type 0) (P : B → Type 0) (m : Run A) (f : A → Run B)
    → Ends Q m
    → ((a : A) → Q a → Ends P (f a))
    → Ends P (m >>= f)
Ends-then Q P (ok a) f q h = h a q
Ends-then Q P fault f q h = record {}
Ends-then Q P stuck f q h = q
