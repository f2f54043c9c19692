-- ===== src/Server/Applying.antt =====
-- How `RaftNode` of raft-kv/server/raft_node.cpp applies the committed entries, whose batches may
-- overlap: each entry is handed to the store once, in the order of the log.
use mathlib.Core.List.{append_assoc, append-nil}
use raft_etcd.Common.{
  Bool, false, ◌==◌, Option, none, some, suc, ◌+◌, ◌-◌, ◌^◌, ◌≤◌, ◌<◌, ◌≡◌, refl, ap, sym, ◌∙◌,
  subst, inl, inr, true, Bool-cases, List, [], ◌∷◌, ◌++◌, ret, ◌>>=◌, arith, length, drop, is_empty,
  if◌then◌else◌,
}
use raft_etcd.Common.Ensures.{Ensures, Ensures-ret, Ensures-bind, Ensures-then, Ensures-weaken}
use raft_etcd.Proto.{Entry, entry_normal, entry_conf_change, ConfChange, ConfState}
use raft_etcd.Raft.State.{Raft}
use raft_etcd.Node.RawNode
use raft_etcd.Unstable.Contiguous.{Numbered, Numbered-drop}
use raft_etcd.Server.Rounds.{apply_committed}
use raft_etcd.Server.{
  Encodings, read_commit_post, RaftNode, publish_entry, publish_entries, publish_change,
  after_change, with_raft,
}
use raft_etcd.Server.Batch.{
  commands, commands-append, is_command, AllNormal, AllNormal-drop, stays, accepted, AllAccepted,
  AllAccepted-drop, entries_to_apply_lem,
}

module _ {C : Type 0} where
  -- The store has been handed the commands of some entries more, and they are applied.
  pub record Published (es : List Entry) (n n' : RaftNode C) : Type 0 where
    pub posted : n'.posted ≡ n.posted ++ commands es
    pub applied : n'.applied_index ≡ n.applied_index + length es
    pub same_id : n'.id ≡ n.id

  Published-nil : (n : RaftNode C) → Published [] n n
  unfolding commands
  Published-nil n = record {
    posted = sym (append-nil n.posted);
    applied = omega arith;
    same_id = refl;
  }

  Published-then :
      (e : Entry) (es : List Entry) (n m n' : RaftNode C)
      → Published (e ∷ []) n m
      → Published es m n'
      → Published (e ∷ es) n n'
  Published-then e es n m n' p q = record {
    posted =
        q.posted
        ∙ ap (λ ps. ps ++ commands es) p.posted
        ∙ append_assoc n.posted (commands (e ∷ [])) (commands es)
        ∙ ap (λ ps. n.posted ++ ps) (sym (commands-append (e ∷ []) es));
    applied = omega (arith, p.applied, q.applied);
    same_id = q.same_id ∙ p.same_id;
  }

  -- The result of a step of the loop: it goes on, with these entries published.
  abbrev On : List Entry → RaftNode C → Bool × RaftNode C → Type 0
  On es n x = (x.0 ≡ true) × Published es n x.1

  skipped :
      (e : Entry) (n m : RaftNode C)
      → is_command e ≡ false
      → e.index ≡ suc n.applied_index
      → m.posted ≡ n.posted
      → m.id ≡ n.id
      → On (e ∷ []) n (true, record m { applied_index = e.index })
  unfolding commands
  skipped e n m c i p d = (
    refl,
    record {
      posted = rw c (p ∙ sym (append-nil n.posted));
      applied = omega (arith, i);
      same_id = d;
    },
  )

  publish_change-On :
      (e : Entry) (n : RaftNode C) (o : Option ConfChange)
      → stays n.id o ≡ true
      → is_command e ≡ false
      → e.index ≡ suc n.applied_index
      → Ensures (On (e ∷ []) n) (publish_change e.index o n)
  publish_change-On e n none s c i = absurd (cc)
  publish_change-On e n (some cc') s c i =
      Ensures-then (RawNode.apply_conf_change cc' n.node.raft) λ (cs, r). Ensures-ret (changed cs r)
    where
      changed :
          (cs : ConfState) (r : Raft)
          → On (e ∷ []) n (
              let (on, n') = after_change cc' (with_raft r (record n { conf_state = cs })) in
              (on, if on then record n' { applied_index = e.index } else n'))
      changed cs r = elim (Bool-cases (cc'.conf_change_type == 0)) [
        | inl a ↦ elim (Bool-cases (is_empty cc'.context)) [
          | inl b ↦ rw (a, b) (skipped e n m c i refl refl)
          | inr b ↦
              rw (a, b)
                (skipped e n
                  (record m { added_peers = m.added_peers ++ (cc'.node_id, cc'.context) ∷ [] }) c i
                  refl refl)
        ]
        | inr a ↦ elim (Bool-cases (cc'.conf_change_type == 1)) [
          | inl b ↦ elim (Bool-cases (cc'.node_id == n.id)) [
            | inl d ↦ absurd (ground (arith, s, b, d))
            | inr d ↦ rw (a, b, d) (skipped e n m c i refl refl)
          ]
          | inr b ↦ rw (a, b) (skipped e n m c i refl refl)
        ]
      ]
        where
          m : RaftNode C
          m = with_raft r (record n { conf_state = cs })

  publish_entry-On :
      (F : Encodings) (e : Entry) (n : RaftNode C)
      → accepted F n.id e ≡ true
      → e.index ≡ suc n.applied_index
      → Ensures (On (e ∷ []) n) (publish_entry F e n)
  unfolding commands
  publish_entry-On F e n s i = elim (Bool-cases (e.type == entry_normal)) [
    | inl t ↦ elim (Bool-cases (is_empty e.payload)) [
      | inl p ↦ rw (t, p) (Ensures-ret (skipped e n n (rw (t, p) refl) i refl refl))
      | inr p ↦
          rw (t, p)
            (Ensures-ret (
              refl,
              record { posted = rw (t, p) refl; applied = omega (arith, i); same_id = refl },
            ))
    ]
    | inr t ↦ elim (Bool-cases (e.type == entry_conf_change)) [
      | inl k ↦
          rw (t, k)
            (publish_change-On e n (F.conf_changes.unpack e.payload) (ground (arith, s, t, k))
              (rw t refl) i)
      | inr k ↦ absurd (ground (arith, s, t, k))
    ]
  ]

  publish_entries-On :
      (F : Encodings) (es : List Entry) (n : RaftNode C)
      → AllAccepted F n.id es
      → Numbered (suc n.applied_index) es
      → Ensures (On es n) (publish_entries F es n)
  unfolding publish_entries
  publish_entries-On F [] n t i = Ensures-ret (refl, Published-nil n)
  publish_entries-On F (e ∷ es) n t i =
      Ensures-bind (publish_entry-On F e n t.0 i.0) (later λ m a j. publish_entries-On F es m a j)
    where
      later :
          ((m : RaftNode C)
            → AllAccepted F m.id es
            → Numbered (suc m.applied_index) es
            → Ensures (On es m) (publish_entries F es m))
          → (x : Bool × RaftNode C) → On (e ∷ []) n x
          → Ensures
              (On (e ∷ es) n)
              (elim x.0 [ true ↦ publish_entries F es x.1 | false ↦ ret (false, x.1) ])
      later rec (false, m) h = absurd (cc)
      later rec (true, m) h =
          Ensures-weaken (λ y g. (g.0, Published-then e es n m y.1 h.1 g.1))
            (rec m (subst (λ d. AllAccepted F d es) (sym h.1.same_id) t.1)
              (subst (λ j. Numbered j es) (omega (arith, h.1.applied)) i.1))

  -- Entries of the normal type are published without a failure.
  publish_entries-returns :
      (F : Encodings) (es : List Entry) (n : RaftNode C)
      → AllNormal es
      → (n' : RaftNode C) × (publish_entries F es n ≡ ret (true, n'))
  unfolding publish_entries
  publish_entries-returns F [] n t = (n, refl)
  publish_entries-returns F (e ∷ es) n t =
      let m = record n {
        posted =
            if is_empty e.payload then n.posted else n.posted ++ read_commit_post e.payload ∷ [];
        applied_index = e.index;
      } in
      let rest = publish_entries-returns F es m t.1 in (rest.0, rw t.0 rest.1)

  -- A batch of committed entries that starts at most one after the applied index.
  pub apply_committed_lem :
      (F : Encodings) (e : Entry) (es : List Entry) (n : RaftNode C)
      → 0 < e.index
      → e.index ≤ n.applied_index + 1
      → n.applied_index + 1 < 2 ^ 64
      → Numbered e.index (e ∷ es)
      → AllAccepted F n.id (e ∷ es)
      → Ensures
          (Published (drop (n.applied_index + 1 - e.index) (e ∷ es)) n)
          (apply_committed F (e ∷ es) n)
        × (AllNormal (e ∷ es) → (n' : RaftNode C) × (apply_committed F (e ∷ es) n ≡ ret n'))
  unfolding apply_committed
  apply_committed_lem F e es n p h f i t = rw (entries_to_apply_lem e es n.applied_index p h f) (
    on_rest new (
        publish_entries-On F new n
          (AllAccepted-drop F n.id (n.applied_index + 1 - e.index) (e ∷ es) t)
          (subst (λ k. Numbered k new) (omega (arith, h))
            (Numbered-drop e.index (n.applied_index + 1 - e.index) (e ∷ es) i))),
    λ a. returns new (
        publish_entries-returns F new n
          (AllNormal-drop (n.applied_index + 1 - e.index) (e ∷ es) a)),
  )
    where
      new : List Entry
      new = drop (n.applied_index + 1 - e.index) (e ∷ es)

      on_rest :
          (ents : List Entry)
          → Ensures (On ents n) (publish_entries F ents n)
          → Ensures
              (Published ents n)
              (if is_empty ents then ret n else publish_entries F ents n >>= (λ (on, n'). ret n'))
      on_rest [] q = Ensures-ret (Published-nil n)
      on_rest (x ∷ xs) q = Ensures-bind q λ y g. Ensures-ret g.1

      returns :
          (ents : List Entry)
          → (n' : RaftNode C) × (publish_entries F ents n ≡ ret (true, n'))
          → (n' : RaftNode C) × ((if is_empty ents
                then ret n
                else publish_entries F ents n >>= (λ (on, n'). ret n'))
              ≡ ret n')
      returns [] q = (n, refl)
      returns (x ∷ xs) q = (q.0, rw q.1 refl)
