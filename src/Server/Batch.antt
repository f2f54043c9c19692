-- ===== src/Server/Batch.antt =====
-- The entries that `RaftNode` of raft-kv/server/raft_node.cpp applies: which it picks of a batch, and
-- what the store is to read of them.
use raft_etcd.Common.{
  Bool, false, not, ◌&&◌, ◌==◌, Option, none, some, ℕ, zero, suc, ◌+◌, ◌-◌, ◌^◌, ◌≤◌, ◌<◌, ◌≡◌,
  refl, ap, inl, inr, true, Bool-cases, List, [], ◌∷◌, ◌++◌, ret, arith, length, drop, is_empty,
  ltb, add64, sub64, add64_lem, if◌then◌else◌,
}
use raft_etcd.Proto.{Entry, entry_normal, entry_conf_change, ConfChange}
use raft_etcd.Server.{Encodings, Posted, read_commit_post, entries_to_apply}

-- Whether an entry has a command for the store.
abbrev pub is_command : Entry → Bool
is_command e = (e.type == entry_normal) && not (is_empty e.payload)

-- What the store is to read of some entries.
unfoldable pub commands : List Entry → List Posted
commands [] = []
commands (e ∷ es) =
    let rest = commands es in if is_command e then read_commit_post e.payload ∷ rest else rest

abbrev pub AllNormal : List Entry → Type 0
AllNormal [] = Unit
AllNormal (e ∷ es) = (e.type ≡ entry_normal) × AllNormal es

-- A change of the configuration that can be read and does not remove the node itself.
abbrev pub stays : ℕ → Option ConfChange → Bool
stays id none = false
stays id (some cc) = not ((cc.conf_change_type == 1) && (cc.node_id == id))

-- Entries of commands, or of such changes.
abbrev pub accepted : Encodings → ℕ → Entry → Bool
accepted F id e =
    if e.type == entry_normal
    then true
    else (e.type == entry_conf_change) && stays id (F.conf_changes.unpack e.payload)

abbrev pub AllAccepted : Encodings → ℕ → List Entry → Type 0
AllAccepted F id [] = Unit
AllAccepted F id (e ∷ es) = (accepted F id e ≡ true) × AllAccepted F id es

wrapped : (a i : ℕ) → i ≤ a + 1 → a + 1 < 2 ^ 64 → 0 < i → add64 (sub64 a i) 1 ≡ a + 1 - i
unfolding add64 sub64
wrapped a i h f p = omega arith

pub drop-past : (n : ℕ) (es : List Entry) → length es ≤ n → drop n es ≡ []
drop-past zero [] h = refl
drop-past zero (e ∷ es) h = absurd (omega (arith, h))
drop-past (suc n) [] h = refl
drop-past (suc n) (e ∷ es) h = drop-past n es (omega (arith, h))

-- The entries that are picked are those after the applied index.
pub entries_to_apply_lem :
    (e : Entry) (es : List Entry) (applied : ℕ)
    → 0 < e.index
    → e.index ≤ applied + 1
    → applied + 1 < 2 ^ 64
    → entries_to_apply (e ∷ es) applied ≡ ret (drop (applied + 1 - e.index) (e ∷ es))
unfolding entries_to_apply
entries_to_apply_lem e es applied p h f =
    rw (add64_lem applied 1 f, wrapped applied e.index h f p)
      elim (Bool-cases (ltb (applied + 1 - e.index) (length (e ∷ es)))) [
        | inl l ↦ rw l (ground arith)
        | inr l ↦ rw (l, drop-past (applied + 1 - e.index) (e ∷ es) (ground arith)) (ground arith)
      ]

pub commands-append : (es fs : List Entry) → commands (es ++ fs) ≡ commands es ++ commands fs
unfolding commands
commands-append [] fs = refl
commands-append (e ∷ es) fs = elim (Bool-cases (is_command e)) [
  | inl p ↦ rw p (ap (λ ps. read_commit_post e.payload ∷ ps) (commands-append es fs))
  | inr p ↦ rw p (commands-append es fs)
]

pub AllNormal-drop : (n : ℕ) (es : List Entry) → AllNormal es → AllNormal (drop n es)
AllNormal-drop zero es t = t
AllNormal-drop (suc n) [] t = t
AllNormal-drop (suc n) (e ∷ es) t = AllNormal-drop n es t.1

pub AllAccepted-drop :
    (F : Encodings) (id n : ℕ) (es : List Entry)
    → AllAccepted F id es
    → AllAccepted F id (drop n es)
AllAccepted-drop F id zero es t = t
AllAccepted-drop F id (suc n) [] t = t
AllAccepted-drop F id (suc n) (e ∷ es) t = AllAccepted-drop F id n es t.1
