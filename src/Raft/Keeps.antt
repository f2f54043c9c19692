-- ===== src/Raft/Keeps.antt =====
-- Relations between the object before a method and after it, a rule for each way to build a method.
use raft_etcd.Common.{
  ◌≡◌, refl, subst, Bool, true, false, Option, none, some, List, [], ◌∷◌, ℕ, Outcome, ret, fatal,
  if◌then◌else◌,
}
use raft_etcd.Common.Ensures.{Ensures}
use raft_etcd.RaftLog.{RaftLog}
use raft_etcd.Raft.State.{Raft}
use raft_etcd.Raft.Exec.{
  lifted, stored, Exec, ◌>>=◌, and_then, pure, throw, gets, modify, query, lift, on_log, on_some,
  when,
}
use raft_etcd.Raft.Progresses.{for_each}

abbrev pub Holds : {A : Type 0} → (Raft → Type 0) → Outcome (A × Raft) → Type 0
Holds P (ret (a, s)) = P s
Holds P fatal = Unit

-- The states before and after a call that returns are related.
pub record Keeps {A : Type 0} (R : Raft → Raft → Type 0) (m : Exec A) : Type 0 where
  pub at : (r : Raft) → Holds (R r) (m r)

pub Holds-ret :
    {A : Type 0} (P : Raft → Type 0) (o : Outcome (A × Raft)) {a : A} {s : Raft}
    → o ≡ ret (a, s)
    → Holds P o
    → P s
Holds-ret P o e h = subst (Holds P) e h

pub record Preorder (R : Raft → Raft → Type 0) : Type 0 where
  pub reflexive : (r : Raft) → R r r
  pub transitive : (r s t : Raft) → R r s → R s t → R r t

pub Holds-weaken :
    {A : Type 0} (P Q : Raft → Type 0) (o : Outcome (A × Raft))
    → ((s : Raft) → P s → Q s)
    → Holds P o
    → Holds Q o
Holds-weaken P Q (ret (a, s)) f h = f s h
Holds-weaken P Q fatal f h = tt

-- The rule for a sequence, for any two conditions.
pub Holds-bind :
    {A B : Type 0} (P Q : Raft → Type 0) (m : Exec A) (f : A → Exec B) (r : Raft)
    → Holds P (m r)
    → ((a : A) (s : Raft) → P s → Holds Q (f a s))
    → Holds Q ((m >>= f) r)
unfolding ◌>>=◌
Holds-bind {A} {B} P Q m f r h k = go (m r) h
  where
    go : (o : Outcome (A × Raft)) → Holds P o → Holds Q (and_then o f)
    go (ret (a, s)) h = k a s h
    go fatal h = tt

-- A read goes on from the same state, with what was read.
pub Holds-gets :
    {A B : Type 0} (Q : Raft → Type 0) (f : Raft → A) (k : A → Exec B) (r : Raft)
    → Holds Q (k (f r) r)
    → Holds Q ((gets f >>= k) r)
unfolding ◌>>=◌ gets
Holds-gets Q f k r h = h

pub Holds-query :
    {A B : Type 0} (Q : Raft → Type 0) (f : RaftLog → Outcome A) (k : A → Exec B) (r : Raft)
    → ((a : A) → f r.raft_log ≡ ret a → Holds Q (k a r))
    → Holds Q ((query f >>= k) r)
unfolding ◌>>=◌ query
Holds-query {A} {B} Q f k r h = go (f r.raft_log) h
  where
    go :
        (o : Outcome A)
        → ((a : A) → o ≡ ret a → Holds Q (k a r))
        → Holds Q (and_then (lifted o r) k)
    go (ret a) h = h a refl
    go fatal h = tt

pub Holds-if :
    {A : Type 0} (Q : Raft → Type 0) (b : Bool) (m n : Exec A) (r : Raft)
    → (b ≡ true → Holds Q (m r))
    → (b ≡ false → Holds Q (n r))
    → Holds Q ((if b then m else n) r)
Holds-if Q true m n r hm hn = hm refl
Holds-if Q false m n r hm hn = hn refl

-- The rest of a sequence keeps what its start has reached.
pub Holds-then :
    {A B : Type 0} (R : Raft → Raft → Type 0) (o : Preorder R) (m : Exec A) (f : A → Exec B)
    (r : Raft)
    → Holds (R r) (m r)
    → ((a : A) → Keeps R (f a))
    → Holds (R r) ((m >>= f) r)
Holds-then R o m f r h k =
    Holds-bind (R r) (R r) m f r h
      λ a s t. Holds-weaken (R s) (R r) (f a s) (λ u. o.transitive r s u t) ((k a).at s)

module _ {R : Raft → Raft → Type 0} (o : Preorder R) where
  pub Keeps-pure : {A : Type 0} (a : A) → Keeps R (pure a)
  unfolding pure
  Keeps-pure a = record { at = o.reflexive }

  pub Keeps-throw : {A : Type 0} → Keeps R (throw {A = A})
  unfolding throw
  Keeps-throw = record { at = λ r. tt }

  pub Keeps-gets : {A : Type 0} (f : Raft → A) → Keeps R (gets f)
  unfolding gets
  Keeps-gets f = record { at = o.reflexive }

  lifted-Holds : {A : Type 0} (c : Outcome A) (r : Raft) → Holds (R r) (lifted c r)
  lifted-Holds (ret a) r = o.reflexive r
  lifted-Holds fatal r = tt

  pub Keeps-query : {A : Type 0} (f : RaftLog → Outcome A) → Keeps R (query f)
  unfolding query
  Keeps-query f = record { at = λ r. lifted-Holds (f r.raft_log) r }

  pub Keeps-lift : {A : Type 0} (c : Outcome A) → Keeps R (lift c)
  unfolding lift
  Keeps-lift c = record { at = lifted-Holds c }

  pub Keeps-bind :
      {A B : Type 0} (m : Exec A) (f : A → Exec B)
      → Keeps R m
      → ((a : A) → Keeps R (f a))
      → Keeps R (m >>= f)
  Keeps-bind m f hm hf = record { at = λ r. Holds-then R o m f r (hm.at r) hf }

  pub Keeps-if :
      {A : Type 0} (b : Bool) (m n : Exec A) → Keeps R m → Keeps R n → Keeps R (if b then m else n)
  Keeps-if true m n hm hn = hm
  Keeps-if false m n hm hn = hn

  pub Keeps-on_some :
      {A B : Type 0} (c : Option A) (m : Exec B) (f : A → Exec B)
      → Keeps R m
      → ((a : A) → Keeps R (f a))
      → Keeps R (on_some c m f)
  unfolding on_some
  Keeps-on_some none m f hm hf = hm
  Keeps-on_some (some a) m f hm hf = hf a

  pub Keeps-when : (b : Bool) (m : Exec (Unit {0})) → Keeps R m → Keeps R (when b m)
  unfolding when
  Keeps-when true m h = h
  Keeps-when false m h = Keeps-pure tt

  pub Keeps-for_each :
      (ids : List ℕ) (f : ℕ → Exec (Unit {0}))
      → ((id : ℕ) → Keeps R (f id))
      → Keeps R (for_each ids f)
  unfolding for_each
  Keeps-for_each [] f h = Keeps-pure tt
  Keeps-for_each (id ∷ ids) f h = Keeps-bind (f id) _ (h id) (λ _. Keeps-for_each ids f h)

pub Keeps-modify :
    {R : Raft → Raft → Type 0} (f : Raft → Raft) → ((r : Raft) → R r (f r)) → Keeps R (modify f)
unfolding modify
Keeps-modify f h = record { at = h }

pub Keeps-on_log :
    {A : Type 0} {R : Raft → Raft → Type 0} (f : RaftLog → Outcome (A × RaftLog))
    → ((r : Raft) → Ensures (λ x. R r (record r { raft_log = x.1 })) (f r.raft_log))
    → Keeps R (on_log f)
unfolding on_log
Keeps-on_log {A} {R} f h = record { at = λ r. go r (f r.raft_log) (h r) }
  where
    go :
        (r : Raft) (o : Outcome (A × RaftLog))
        → Ensures (λ x. R r (record r { raft_log = x.1 })) o
        → Holds (R r) (stored o r)
    go r (ret (a, l)) k = k.at (a, l) refl
    go r fatal k = tt

pub ruleset keeps_rules = (
  Keeps-pure, Keeps-throw, Keeps-gets, Keeps-query, Keeps-lift, Keeps-bind, Keeps-if, Keeps-on_some,
  Keeps-when, Keeps-for_each,
)
