-- ===== src/Snap/Newest.antt =====
-- What is loaded of a directory that raft-kv/snap/snapshotter.cpp has saved a snapshot in.
use raft_etcd.Common.{
  ℕ, ◌+◌, ◌-◌, ◌<◌, ◌^◌, ◌/◌, ◌%◌, ◌≡◌, refl, ap, sym, ◌∙◌, inl, inr, Bool, true, false, Bool-cases,
  ◌||◌, List, [], ◌∷◌, ◌++◌, some, ret, arith, length, take, take-all, drop-append, length-append,
  le32, of_bytes, of_bytes-le32, to_u32, to_u32_lem, if◌then◌else◌,
}
use raft_etcd.Common.Maps.{find, put, same_bytes, same_bytes_iff, bytes_keys, keys}
use raft_etcd.Status.{ok}
use raft_etcd.Proto.{Snapshot, saved_snapshot}
use raft_etcd.Snap.{
  SnapFormat, Directory, snap_name, snap_bytes, save_snap, has_extension, less, insert, sort,
  snap_names, get_snap_names, read_record, read_snap, load_snap, load_first, load, hex_digits,
  dot_snap,
}

read_record_lem :
    (F : SnapFormat) (s : Snapshot)
    → 0 < length (F.snapshots.pack s)
    → 0 < F.checksum (F.snapshots.pack s)
    → read_record F
        (length (F.snapshots.pack s))
        (F.checksum (F.snapshots.pack s))
        (F.snapshots.pack s)
      ≡ some (saved_snapshot s)
unfolding read_record
read_record_lem F s h k =
    rw
      (
        take-all (length (F.snapshots.pack s)) (F.snapshots.pack s) (omega arith),
        F.snapshots.unpack-pack s,
      )
      (ground (arith, h, k))

-- The bytes of a snapshot are read back as the snapshot, if its encoding is not empty and shorter
-- than 2 ^ 32 bytes and the checksum is not 0.
pub read_snap-snap_bytes :
    (F : SnapFormat) (s : Snapshot)
    → 0 < length (F.snapshots.pack s)
    → length (F.snapshots.pack s) < 2 ^ 32
    → 0 < F.checksum (F.snapshots.pack s)
    → read_snap F (snap_bytes F s) ≡ some (saved_snapshot s)
unfolding read_snap snap_bytes le32
read_snap-snap_bytes F s h l k =
    let p = F.snapshots.pack s in
    let n = to_u32 (length p) in
    let e : n ≡ length p = to_u32_lem (length p) l in
    ap (λ i. read_record F i (of_word (F.checksum p)) (take n p))
      (of_bytes-le32 n (omega (arith, e, l)) ∙ e)
    ∙ ap (λ c. read_record F (length p) c (take n p))
        (of_bytes-le32 (F.checksum p) (F.checksum-lt p))
    ∙ ap (λ bytes. read_record F (length p) (F.checksum p) bytes)
        (ap (λ i. take i p) e ∙ take-all (length p) p (omega arith))
    ∙ read_record_lem F s h k
  where
    of_word : ℕ → ℕ
    of_word n = of_bytes (n % 256) (n / 256 % 256) (n / 2 ^ 16 % 256) (n / 2 ^ 24 % 256)

less_refl : (a : List ℕ) → less a a ≡ false
unfolding less
less_refl [] = refl
less_refl (x ∷ xs) = ground (arith, less_refl xs)

less-antisym : (a b : List ℕ) → less a b ≡ false → less b a ≡ false → a ≡ b
unfolding less
less-antisym [] [] h k = refl
less-antisym [] (y ∷ ys) h k = absurd (cc)
less-antisym (x ∷ xs) [] h k = absurd (cc)
less-antisym (x ∷ xs) (y ∷ ys) h k = ground (arith, less-antisym xs ys)

-- No string of a list is greater than `x`.
unfoldable pub top : List ℕ → List (List ℕ) → Bool
unfolding less
top x [] = true
top x (y ∷ ys) = if less x y then false else top x ys

unfoldable pub among : List ℕ → List (List ℕ) → Bool
among x [] = false
among x (y ∷ ys) = same_bytes y x || among x ys

abbrev HeadIs : List ℕ → List (List ℕ) → Type 0
HeadIs x xs = (rest : List (List ℕ)) × (xs ≡ x ∷ rest)

top-insert :
    (x y : List ℕ) (ys : List (List ℕ))
    → less x y ≡ false
    → top x ys ≡ true
    → top x (insert y ys) ≡ true
unfolding top insert
top-insert x y [] h k = ground arith
top-insert x y (z ∷ zs) h k = ground (arith, top-insert x y zs)

top-sort : (x : List ℕ) (xs : List (List ℕ)) → top x xs ≡ true → top x (sort xs) ≡ true
unfolding top sort
top-sort x [] h = refl
top-sort x (y ∷ ys) h =
    top-insert x y (sort ys) (ground (arith, h)) (top-sort x ys (ground (arith, h)))

insert-top : (x : List ℕ) (ys : List (List ℕ)) → top x ys ≡ true → HeadIs x (insert x ys)
unfolding top insert
insert-top x [] h = ([], refl)
insert-top x (y ∷ ys) h = elim (Bool-cases (less x y)) [
  | inl e ↦ absurd (ground (arith, h))
  | inr e ↦ (y ∷ ys, rw e refl)
]

insert_below :
    (x y : List ℕ) (rest : List (List ℕ)) → less x y ≡ false → HeadIs x (insert y (x ∷ rest))
unfolding insert
insert_below x y rest h = elim (Bool-cases (less y x)) [
  | inl e ↦ (insert y rest, rw e refl)
  | inr e ↦ (x ∷ rest, rw e (ap (λ z. z ∷ x ∷ rest) (less-antisym y x e h)))
]

-- The greatest string of a list comes first when it is sorted.
sort-top :
    (x : List ℕ) (xs : List (List ℕ)) → among x xs ≡ true → top x xs ≡ true → HeadIs x (sort xs)
unfolding among top sort
sort-top x [] m h = absurd (cc)
sort-top x (y ∷ ys) m h = elim (Bool-cases (same_bytes y x)) [
  | inl e ↦
      rw ((same_bytes_iff y x).0 e) (insert-top x (sort ys) (top-sort x ys (ground (arith, h))))
  | inr e ↦
      let rest = sort-top x ys (ground (arith, m)) (ground (arith, h)) in
      rw rest.1 (insert_below x y rest.0 (ground (arith, h)))
]

has_extension-append : (name : List ℕ) → has_extension (name ++ dot_snap) ≡ true
unfolding has_extension
has_extension-append name =
    rw (length-append name dot_snap, plus_minus (length name))
      (rw (drop-append (length name) name dot_snap refl)
        (ground (arith, same_bytes_iff dot_snap dot_snap)))
  where
    plus_minus : (n : ℕ) → n + 5 - 5 ≡ n
    plus_minus n = omega arith

among-snap_names :
    (n : List ℕ) (ns : List (List ℕ))
    → has_extension n ≡ true
    → among n ns ≡ true
    → among n (snap_names ns) ≡ true
unfolding among snap_names
among-snap_names n [] e h = absurd (cc)
among-snap_names n (m ∷ ns) e h = elim (Bool-cases (same_bytes m n)) [
  | inl q ↦
      let f : has_extension m ≡ true = ap has_extension ((same_bytes_iff m n).0 q) ∙ e in
      rw f (rw q refl)
  | inr q ↦ elim (Bool-cases (has_extension m)) [
    | inl f ↦ rw f (rw q (among-snap_names n ns e (sym (rw q refl) ∙ h)))
    | inr f ↦ rw f (among-snap_names n ns e (sym (rw q refl) ∙ h))
  ]
]

among-put : (n bytes : List ℕ) (dir : Directory) → among n (keys (put n bytes dir)) ≡ true
unfolding among put
among-put n bytes [] = rw ((same_bytes_iff n n).1 refl) refl
among-put n bytes ((m, b) ∷ dir) =
    ground (arith, same_bytes_iff n n, same_bytes_iff m n, among-put n bytes dir)

top-put :
    (n bytes : List ℕ) (dir : Directory)
    → top n (snap_names (keys dir)) ≡ true
    → top n (snap_names (keys (put n bytes dir))) ≡ true
unfolding top snap_names put
top-put n bytes [] h = ground (arith, less_refl n)
top-put n bytes ((m, b) ∷ dir) h =
    ground (arith, same_bytes_iff m n, top-put n bytes dir, less_refl n)

find-put_self : (n bytes : List ℕ) (dir : Directory) → find n (put n bytes dir) ≡ some bytes
unfolding find put
find-put_self n bytes [] = rw ((same_bytes_iff n n).1 refl) refl
find-put_self n bytes ((m, b) ∷ dir) =
    ground (arith, same_bytes_iff n n, same_bytes_iff m n, find-put_self n bytes dir)

load_first-found :
    (F : SnapFormat) (n : List ℕ) (ns : List (List ℕ)) (bytes : List ℕ) (s : Snapshot)
    (dir : Directory)
    → find n dir ≡ some bytes
    → read_snap F bytes ≡ some s
    → load_first F (n ∷ ns) dir ≡ ret (some s, dir)
unfolding load_first load_snap
load_first-found F n ns bytes s dir e r = rw e (rw r refl)

-- A snapshot whose encoding is not empty, shorter than 2 ^ 32 bytes and of a checksum other than 0
-- is saved in a directory where no snapshot has a greater name: the save answers an ok status, and
-- `load` then returns this snapshot, less its `conf_state`, which is not packed, and changes no file.
pub load-save_snap :
    (F : SnapFormat) (s : Snapshot) (dir : Directory)
    → 0 < length (F.snapshots.pack s)
    → length (F.snapshots.pack s) < 2 ^ 32
    → 0 < F.checksum (F.snapshots.pack s)
    → top (snap_name s.metadata.term s.metadata.index) (snap_names (keys dir)) ≡ true
    → ((save_snap F true s dir).0 ≡ ok)
      × (load F (save_snap F true s dir).1
          ≡ ret (some (saved_snapshot s), (save_snap F true s dir).1))
unfolding save_snap load get_snap_names snap_name
load-save_snap F s dir h l k t =
    let n = snap_name s.metadata.term s.metadata.index in
    let dir' = put n (snap_bytes F s) dir in
    let first =
      sort-top n (snap_names (keys dir'))
        (among-snap_names n (keys dir')
          (has_extension-append
            (hex_digits 16 s.metadata.term ++ b'-' ∷ hex_digits 16 s.metadata.index))
          (among-put n (snap_bytes F s) dir))
        (top-put n (snap_bytes F s) dir t) in
    (
      refl,
      ap (λ ns. load_first F ns dir') first.1
          ∙ load_first-found F n first.0 (snap_bytes F s) (saved_snapshot s) dir'
              (find-put_self n (snap_bytes F s) dir) (read_snap-snap_bytes F s h l k),
    )
