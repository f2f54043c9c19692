-- ===== src/Common/Bytes.antt =====
-- Byte strings: parts of a joined one, and the words that are kept as their bytes.
use Prim.Native.Nat.{ℕ, zero, suc, ◌+◌, ◌*◌, ◌/◌, ◌%◌, ◌^◌, ◌≤◌, ◌<◌}
use mathlib.Core.Path.{◌≡◌, refl, ap}
use mathlib.Core.List.{List, [], ◌∷◌, ◌++◌}
use native.Mathlib.Omega.{arith}
use raft_etcd.Common.Lists.{length, take, drop}

-- A `uint32_t`, the low byte first.
unfoldable pub le32 : ℕ → List ℕ
le32 n = n % 256 ∷ n / 256 % 256 ∷ n / 2 ^ 16 % 256 ∷ n / 2 ^ 24 % 256 ∷ []

unfoldable pub of_bytes : ℕ → ℕ → ℕ → ℕ → ℕ
of_bytes a b c d = a + 256 * b + 2 ^ 16 * c + 2 ^ 24 * d

pub of_bytes-le32 :
    (n : ℕ)
    → n < 2 ^ 32
    → of_bytes (n % 256) (n / 256 % 256) (n / 2 ^ 16 % 256) (n / 2 ^ 24 % 256) ≡ n
unfolding of_bytes
of_bytes-le32 n h = omega arith

module _ {ℓ} {A : Type ℓ} where
  pub take-append : (n : ℕ) (xs ys : List A) → length xs ≡ n → take n (xs ++ ys) ≡ xs
  take-append zero [] ys h = refl
  take-append zero (x ∷ xs) ys h = absurd (omega (arith, h))
  take-append (suc n) [] ys h = absurd (omega (arith, h))
  take-append (suc n) (x ∷ xs) ys h = ap (λ zs. x ∷ zs) (take-append n xs ys (omega (arith, h)))

  pub drop-append : (n : ℕ) (xs ys : List A) → length xs ≡ n → drop n (xs ++ ys) ≡ ys
  drop-append zero [] ys h = refl
  drop-append zero (x ∷ xs) ys h = absurd (omega (arith, h))
  drop-append (suc n) [] ys h = absurd (omega (arith, h))
  drop-append (suc n) (x ∷ xs) ys h = drop-append n xs ys (omega (arith, h))

  pub take-inside : (n : ℕ) (xs ys : List A) → n ≤ length xs → take n (xs ++ ys) ≡ take n xs
  take-inside zero xs ys h = refl
  take-inside (suc n) [] ys h = absurd (omega (arith, h))
  take-inside (suc n) (x ∷ xs) ys h = ap (λ zs. x ∷ zs) (take-inside n xs ys (omega (arith, h)))

  pub drop-inside : (n : ℕ) (xs ys : List A) → n ≤ length xs → drop n (xs ++ ys) ≡ drop n xs ++ ys
  drop-inside zero xs ys h = refl
  drop-inside (suc n) [] ys h = absurd (omega (arith, h))
  drop-inside (suc n) (x ∷ xs) ys h = drop-inside n xs ys (omega (arith, h))

  pub drop-take : (k n m : ℕ) (xs : List A) → m ≡ k + n → drop k (take m xs) ≡ take n (drop k xs)
  drop-take zero n m xs e = ap (λ i. take i xs) (omega (arith, e))
  drop-take (suc k) n zero xs e = absurd (omega (arith, e))
  drop-take (suc k) zero (suc m) [] e = refl
  drop-take (suc k) (suc n) (suc m) [] e = refl
  drop-take (suc k) n (suc m) (x ∷ xs) e = drop-take k n m xs (omega (arith, e))

  pub drop-drop : (k n m : ℕ) (xs : List A) → m ≡ k + n → drop n (drop k xs) ≡ drop m xs
  drop-drop zero n m xs e = ap (λ i. drop i xs) (omega (arith, e))
  drop-drop (suc k) n zero xs e = absurd (omega (arith, e))
  drop-drop (suc k) zero (suc m) [] e = refl
  drop-drop (suc k) (suc n) (suc m) [] e = refl
  drop-drop (suc k) n (suc m) (x ∷ xs) e = drop-drop k n m xs (omega (arith, e))

  pub append-take-drop : (n : ℕ) (xs : List A) → take n xs ++ drop n xs ≡ xs
  append-take-drop zero xs = refl
  append-take-drop (suc n) [] = refl
  append-take-drop (suc n) (x ∷ xs) = ap (λ zs. x ∷ zs) (append-take-drop n xs)

  pub take-all : (n : ℕ) (xs : List A) → length xs ≤ n → take n xs ≡ xs
  take-all zero [] h = refl
  take-all zero (x ∷ xs) h = absurd (omega arith)
  take-all (suc n) [] h = refl
  take-all (suc n) (x ∷ xs) h = ap (λ zs. x ∷ zs) (take-all n xs (omega arith))
