-- ===== src/Ecdsa/Examples.antt =====
-- The theorems on signatures and key points at concrete inputs.
use libaacs.Common.{
  ℕ, ◌+◌, ◌*◌, ◌%◌, ◌≡◌, refl, ◌&&◌, some, List, [], ◌∷◌, ◌++◌, arith, ◌==◌, take, replicate,
  Returns,
}
use libaacs.Ecdsa.{Gcrypt, crypto_aacs_sign}
use libaacs.Ecdsa.Signed.{IsKeyPair, IsVerified, crypto_aacs_sign-IsVerified}

number_of : List ℕ → ℕ → ℕ
number_of [] n = n
number_of (c ∷ s) n = number_of s (n * 256 + c)

-- Numbers below 256, multiplication modulo 251, and one signature.
abbrev toy : Gcrypt
toy = record {
  hash = λ type block. 1 ∷ [];
  scan = λ bytes. number_of bytes 0;
  print = λ n. n ∷ [];
  sign = λ key h. some (1, 5);
  verify = λ key h sig. sig.0 == 1 && sig.1 == 5;
  mul = λ k q. (k * q.0 % 251, q.1 % 251);
}

toy-IsKeyPair : IsKeyPair toy (replicate 92 0) (replicate 20 1)
unfolding number_of
toy-IsKeyPair h r s e =
    let er : 1 ≡ r = cc e in
    let es : 5 ≡ s = cc e in rw (← er) (rw (← es) ((omega arith, refl), (omega arith, refl), refl))

crypto_aacs_sign-IsVerified_example :
    Returns
      (IsVerified toy (replicate 92 0) (take 20 (replicate 20 2) ++ take 40 (replicate 40 3)))
      (crypto_aacs_sign toy (replicate 92 0) (replicate 20 1) (replicate 20 2) (replicate 40 3))
crypto_aacs_sign-IsVerified_example =
    crypto_aacs_sign-IsVerified toy (replicate 92 0) (replicate 20 1) (replicate 20 2)
      (replicate 40 3) toy-IsKeyPair
