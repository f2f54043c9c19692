-- ===== src/Common/Maps.antt =====
-- `std::unordered_map` as an association list. The order of iteration, which the standard leaves
-- open, is the order of the list; a new key goes to its end.
use Prim.Native.Nat.{ℕ}
use mathlib.Core.Path.{◌≡◌, refl}
use mathlib.Core.Logic.{◌↔◌}
use mathlib.Core.Bool.{Bool, true, false, ◌&&◌}
use mathlib.Core.Option.{Option, none, some}
use mathlib.Core.List.{List, [], ◌∷◌}
use native.Mathlib.Omega.{arith}
use raft_etcd.Common.Tests.{if◌then◌else◌, ◌==◌ as nat_eq}

pub record Eq {ℓ} (A : Type ℓ) : Type ℓ where
  pub beq : A → A → Bool
  pub beq_iff : (a b : A) → (beq a b ≡ true) ↔ (a ≡ b)

pub nat_eq_iff : (a b : ℕ) → (nat_eq a b ≡ true) ↔ (a ≡ b)
nat_eq_iff a b = ground arith

instance abbrev pub nat_keys : Eq ℕ
nat_keys = record { beq = nat_eq; beq_iff = nat_eq_iff }

-- Equality of byte strings.
unfoldable pub same_bytes : List ℕ → List ℕ → Bool
same_bytes [] [] = true
same_bytes (x ∷ xs) (y ∷ ys) = nat_eq x y && same_bytes xs ys
same_bytes _ _ = false

pub same_bytes_iff : (a b : List ℕ) → (same_bytes a b ≡ true) ↔ (a ≡ b)
unfolding same_bytes
same_bytes_iff [] [] = (λ _. refl, λ _. refl)
same_bytes_iff (x ∷ xs) (y ∷ ys) = ground (arith, same_bytes_iff xs ys)
same_bytes_iff [] (y ∷ ys) = ground arith
same_bytes_iff (x ∷ xs) [] = ground arith

instance abbrev pub bytes_keys : Eq (List ℕ)
bytes_keys = record { beq = same_bytes; beq_iff = same_bytes_iff }

module _ {ℓ κ} {K : Type ℓ} {V : Type κ} ⦃e : Eq K⦄ where
  unfoldable pub find : K → List (K × V) → Option V
  find k [] = none
  find k ((j, v) ∷ m) = if e.beq j k then some v else find k m

  -- `m[k] = v`.
  unfoldable pub put : K → V → List (K × V) → List (K × V)
  put k v [] = (k, v) ∷ []
  put k v ((j, w) ∷ m) = if e.beq j k then (k, v) ∷ m else (j, w) ∷ put k v m

  -- `m.erase(k)`.
  unfoldable pub erase : K → List (K × V) → List (K × V)
  erase k [] = []
  erase k ((j, w) ∷ m) = if e.beq j k then m else (j, w) ∷ erase k m

  abbrev pub keys : List (K × V) → List K
  keys [] = []
  keys ((k, v) ∷ m) = k ∷ keys m

  abbrev pub values : List (K × V) → List V
  values [] = []
  values ((k, v) ∷ m) = v ∷ values m

  abbrev pub has_key : K → List (K × V) → Bool
  has_key k m = elim (find k m) [ none ↦ false | some v ↦ true ]
