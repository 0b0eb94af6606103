-- ===== src/Ecdsa/Agreement.antt =====
-- Host and drive agree on a bus key.
use libaacs.Common.{
  ℕ, ◌≡◌, refl, sym, ap, ◌∙◌, List, ◌++◌, take, drop, Run, ok, fault, stuck, ◌>>=◌, Returns,
  take-append, drop-append, take_all,
}
use libaacs.Ecdsa.{
  Gcrypt, pad20, last16, curve_g_x, curve_g_y, crypto_create_host_key_pair, crypto_create_bus_key,
}
use libaacs.Ecdsa.Signed.{IsPrinted, IsNumber, pad20-IsNumber}

-- The point of a private key.
abbrev pub point_of : Gcrypt → List ℕ → ℕ × ℕ
point_of g key = g.mul (g.scan (take 20 key)) (g.scan curve_g_x, g.scan curve_g_y)

-- Both coordinates fit into 20 bytes.
abbrev pub IsPoint : Gcrypt → List ℕ → Type 0
IsPoint g key = IsPrinted g (point_of g key).0 × IsPrinted g (point_of g key).1

-- One after the other, the two numbers multiply to the same point in either order.
abbrev pub Commutes : Gcrypt → List ℕ → List ℕ → Type 0
Commutes g a b =
    g.mul (g.scan (take 20 a)) (point_of g b) ≡ g.mul (g.scan (take 20 b)) (point_of g a)

-- The bus key from a point that the other side made.
key_with :
    (g : Gcrypt) (mine other : List ℕ)
    → IsPoint g other
    → (crypto_create_host_key_pair g other >>= crypto_create_bus_key g mine)
      ≡ last16 (g.print (g.mul (g.scan (take 20 mine)) (point_of g other)).0)
unfolding crypto_create_host_key_pair crypto_create_bus_key
key_with g mine other (first, second) =
    by_bytes (pad20 (g.print (point_of g other).0)) (pad20 (g.print (point_of g other).1))
      (pad20-IsNumber g (point_of g other).0 first) (pad20-IsNumber g (point_of g other).1 second)
  where
    by_bytes :
        (m k : Run (List ℕ))
        → Returns (IsNumber g (point_of g other).0) m
        → Returns (IsNumber g (point_of g other).1) k
        → ((do x ← m; y ← k; ok (x ++ y)) >>= λ p. last16 (
            g.print
              (g.mul (g.scan (take 20 mine)) (g.scan (take 20 p), g.scan (take 20 (drop 20 p)))).0))
          ≡ last16 (g.print (g.mul (g.scan (take 20 mine)) (point_of g other)).0)
    by_bytes (ok x) (ok y) (len, e) (more, f) =
        rw (take-append 20 x y len, drop-append 20 x y len, take_all 20 y more, e, f) refl
    by_bytes (ok x) fault h k = absurd k
    by_bytes (ok x) stuck h k = absurd k
    by_bytes fault m h k = absurd h
    by_bytes stuck m h k = absurd h

-- If multiplication commutes and both points have coordinates of 20 bytes at most, then each side
-- makes the same bus key from the point that the other one sends.
pub crypto_create_bus_key-agreed :
    (g : Gcrypt) (a b : List ℕ)
    → IsPoint g a
    → IsPoint g b
    → Commutes g a b
    → (crypto_create_host_key_pair g b >>= crypto_create_bus_key g a)
      ≡ (crypto_create_host_key_pair g a >>= crypto_create_bus_key g b)
crypto_create_bus_key-agreed g a b pa pb same =
    key_with g a b pb ∙ ap (λ q. last16 (g.print q.0)) same ∙ sym (key_with g b a pa)
