-- ===== src/Raft/Exec.antt =====
-- Methods of `Raft`: they change the object, and may end in an exception (`fatal`), after which the
-- object is not used.
use raft_etcd.Common.{Option, none, some, Outcome, ret, fatal, Bool, true, false}
use raft_etcd.RaftLog.{RaftLog}
use raft_etcd.Raft.State.{Raft}

abbrev pub Exec : Type 0 → Type 0
Exec A = Raft → Outcome (A × Raft)

abbrev pub and_then : {A B : Type 0} → Outcome (A × Raft) → (A → Exec B) → Outcome (B × Raft)
and_then (ret (a, r)) f = f a r
and_then fatal f = fatal

infixl 5 ◌>>=◌ ◌>>◌
unfoldable pub ◌>>=◌ : {A B : Type 0} → Exec A → (A → Exec B) → Exec B
◌>>=◌ m f r = and_then (m r) f

abbrev pub ◌>>◌ : {A B : Type 0} → Exec A → Exec B → Exec B
m >> k = m >>= λ _. k

unfoldable pub pure : {A : Type 0} → A → Exec A
pure a r = ret (a, r)

unfoldable pub throw : {A : Type 0} → Exec A
throw r = fatal

-- A value that is read from the object.
unfoldable pub gets : {A : Type 0} → (Raft → A) → Exec A
gets f r = ret (f r, r)

unfoldable pub modify : (Raft → Raft) → Exec (Unit {0})
modify f r = ret (tt, f r)

abbrev pub lifted : {A : Type 0} → Outcome A → Raft → Outcome (A × Raft)
lifted (ret a) r = ret (a, r)
lifted fatal r = fatal

-- A call that reads no member but the log.
unfoldable pub query : {A : Type 0} → (RaftLog → Outcome A) → Exec A
query f r = lifted (f r.raft_log) r

unfoldable pub lift : {A : Type 0} → Outcome A → Exec A
lift o r = lifted o r

abbrev pub stored : {A : Type 0} → Outcome (A × RaftLog) → Raft → Outcome (A × Raft)
stored (ret (a, l)) r = ret (a, record r { raft_log = l })
stored fatal r = fatal

-- A call of a method of the log that changes it.
unfoldable pub on_log : {A : Type 0} → (RaftLog → Outcome (A × RaftLog)) → Exec A
on_log f r = stored (f r.raft_log) r

-- A test of a pointer, or of an out parameter, that may hold nothing.
unfoldable pub on_some : {A B : Type 0} → Option A → Exec B → (A → Exec B) → Exec B
on_some none m f = m
on_some (some a) m f = f a

unfoldable pub when : Bool → Exec (Unit {0}) → Exec (Unit {0})
when true m = m
when false m = pure tt
