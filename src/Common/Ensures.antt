-- ===== src/Common/Ensures.antt =====
-- Partial correctness of calls: what holds of the result if the call returns.
use mathlib.Core.Path.{◌≡◌, refl}
use mathlib.Core.Bool.{Bool, true, false}
use raft_etcd.Common.Tests.{if◌then◌else◌}
use raft_etcd.Common.Abort.{Outcome, ret, fatal, ◌>>=◌}

pub record Ensures {ℓ κ} {A : Type ℓ} (P : A → Type κ) (o : Outcome A) : Type (ℓ ⊔ κ) where
  pub at : (a : A) → o ≡ ret a → P a

module _ {ℓ κ} {A : Type ℓ} {P : A → Type κ} where
  pub Ensures-ret : {a : A} → P a → Ensures P (ret a)
  Ensures-ret {a} h = record { at = λ b e. subst_ret e h }
    where
      subst_ret : {b : A} → ret a ≡ ret b → P a → P b
      subst_ret e h = rw (← cc_path e) h
        where
          cc_path : {b : A} → ret a ≡ ret b → a ≡ b
          cc_path e = cc

  pub Ensures-fatal : Ensures P fatal
  Ensures-fatal = record { at = λ b e. cc }

  pub Ensures-if :
      (b : Bool) {m n : Outcome A}
      → (b ≡ true → Ensures P m)
      → (b ≡ false → Ensures P n)
      → Ensures P (if b then m else n)
  Ensures-if true hm hn = hm refl
  Ensures-if false hm hn = hn refl

module _ {ℓ κ ℓ' κ'} {A : Type ℓ} {P : A → Type κ} {B : Type ℓ'} {Q : B → Type κ'} where
  pub Ensures-bind :
      {m : Outcome A} {f : A → Outcome B}
      → Ensures P m
      → ((a : A) → P a → Ensures Q (f a))
      → Ensures Q (m >>= f)
  Ensures-bind {m} {f} hm hf = go m hm
    where
      go : (m : Outcome A) → Ensures P m → Ensures Q (m >>= f)
      go (ret a) h = hf a (h.at a refl)
      go fatal h = Ensures-fatal

module _ {ℓ ℓ' κ'} {A : Type ℓ} {B : Type ℓ'} {Q : B → Type κ'} where
  -- Where nothing is needed of the first result.
  pub Ensures-then :
      (m : Outcome A) {f : A → Outcome B} → ((a : A) → Ensures Q (f a)) → Ensures Q (m >>= f)
  Ensures-then m {f} hf = go m
    where
      go : (m : Outcome A) → Ensures Q (m >>= f)
      go (ret a) = hf a
      go fatal = Ensures-fatal

module _ {ℓ κ κ'} {A : Type ℓ} {P : A → Type κ} {Q : A → Type κ'} where
  pub Ensures-weaken : {m : Outcome A} → ((a : A) → P a → Q a) → Ensures P m → Ensures Q m
  Ensures-weaken f h = record { at = λ a e. f a (h.at a e) }

pub ruleset ensures_rules = (Ensures-ret, Ensures-fatal, Ensures-if, Ensures-then)
