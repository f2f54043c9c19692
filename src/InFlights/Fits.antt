-- ===== src/InFlights/Fits.antt =====
-- The ring of raft-kv/raft/progress.cpp: a message that is noted finds a slot.
use raft_etcd.Common.{
  ℕ, zero, suc, ◌+◌, ◌-◌, ◌*◌, ◌^◌, ◌≡◌, ◌≤◌, ◌<◌, ◌⊎◌, inl, inr, refl, Bool-cases, true, false,
  List, arith, ret, sub64, add64_lem, sub64_lem, to_u32_lem, length, set, take, length-append,
  length-take, length-set, ltb, leb, ◌==◌, if◌then◌else◌,
}
use raft_etcd.InFlights.{InFlights, zeros, resize, grown_size, write, add}

-- There are no more messages than slots, and the slots that are in use exist: the buffer is of the full
-- size, or what is in use does not go round.
pub record Fits (f : InFlights) : Type 0 where
  pub count : f.count ≤ f.size
  pub start : f.start < f.size
  pub buffer : length f.buffer ≤ f.size
  pub used : (f.start + f.count ≤ length f.buffer) ⊎ (length f.buffer ≡ f.size)
  pub size : f.size < 2 ^ 31

length-zeros : (n : ℕ) → length (zeros n) ≡ n
length-zeros zero = refl
length-zeros (suc n) = omega (arith, length-zeros n)

length-resize : (n : ℕ) (b : List ℕ) → length b ≤ n → length (resize n b) ≡ n
unfolding resize
length-resize n b h = omega (
  arith,
  length-append (take n b) (zeros (n - length b)),
  length-take n b,
  length-zeros (n - length b),
)

grown_size_lem :
    (len size : ℕ)
    → len < size
    → size < 2 ^ 31
    → (len < grown_size len size) × (grown_size len size ≤ size)
unfolding grown_size
grown_size_lem len size h k =
    let d = to_u32_lem (len * 2) (omega arith) in (ground (arith, d), ground (arith, d))

-- The slot that `add` writes.
abbrev next_slot : InFlights → ℕ
next_slot f =
    if leb f.size (f.start + f.count) then f.start + f.count - f.size else f.start + f.count

-- The buffer that it writes to.
abbrev grown : InFlights → List ℕ
grown f =
    if leb (length f.buffer) (next_slot f)
    then resize (grown_size (length f.buffer) f.size) f.buffer
    else f.buffer

write_lem : (b : List ℕ) (i v : ℕ) → i < length b → write b i v ≡ ret (set b i v)
unfolding write
write_lem b i v h = ground arith

grown_room :
    (f : InFlights)
    → Fits f
    → f.count < f.size
    → leb (length f.buffer) (next_slot f) ≡ true
    → (length f.buffer < grown_size (length f.buffer) f.size)
      × (grown_size (length f.buffer) f.size ≤ f.size)
    → (next_slot f < grown_size (length f.buffer) f.size)
      × (grown_size (length f.buffer) f.size ≤ f.size)
      × ((f.start + suc f.count ≤ grown_size (length f.buffer) f.size)
          ⊎ (grown_size (length f.buffer) f.size ≡ f.size))
grown_room f w h e g = ground (arith, e, g)

kept_room :
    (f : InFlights)
    → Fits f
    → f.count < f.size
    → leb (length f.buffer) (next_slot f) ≡ false
    → (next_slot f < length f.buffer)
      × (length f.buffer ≤ f.size)
      × ((f.start + suc f.count ≤ length f.buffer) ⊎ (length f.buffer ≡ f.size))
kept_room f w h e = ground (arith, e)

grown-Fits :
    (f : InFlights)
    → Fits f
    → f.count < f.size
    → (next_slot f < length (grown f))
      × (length (grown f) ≤ f.size)
      × ((f.start + suc f.count ≤ length (grown f)) ⊎ (length (grown f) ≡ f.size))
grown-Fits f w h = elim (Bool-cases (leb (length f.buffer) (next_slot f))) [
  | inl e ↦
      let short : length f.buffer < f.size = ground (arith, w.start, h, w.count) in
      let g = grown_size_lem (length f.buffer) f.size short w.size in
      let r = length-resize (grown_size (length f.buffer) f.size) f.buffer (omega (arith, g.0)) in
      rw (e, r) (grown_room f w h e g)
  | inr e ↦ rw e (kept_room f w h e)
]

no_wrap :
    (a size : ℕ)
    → a < 2 ^ 64
    → (if leb size a then sub64 a size else a) ≡ (if leb size a then a - size else a)
no_wrap a size h = elim (Bool-cases (leb size a)) [
  | inl e ↦ rw e (sub64_lem a size (ground arith) h)
  | inr e ↦ rw e refl
]

in_slot : (i n : ℕ) → i < n → ltb i n ≡ true
in_slot i n h = ground arith

abbrev pub added : ℕ → InFlights → InFlights
added v f = record f { buffer = set (grown f) (next_slot f) v; count = f.count + 1 }

add-added : (v : ℕ) (f : InFlights) → Fits f → f.count < f.size → add v f ≡ ret (added v f)
unfolding add
add-added v f w h =
    let open_ : (f.size == f.count) ≡ false = ground (arith, h) in
    let a = add64_lem f.start f.count (omega (arith, w.start, w.count, w.size)) in
    rw
      (
        open_,
        a,
        no_wrap (f.start + f.count) f.size (omega (arith, w.start, w.count, w.size)),
        add64_lem f.count 1 (omega (arith, w.count, w.size)),
        in_slot (next_slot f) (length (grown f)) (grown-Fits f w h).0,
      )
      refl

-- On a window that keeps its bounds (`Fits`) and is not full, `add` returns: the message gets a
-- slot, there is one more in flight, and the window keeps its bounds.
pub add-Fits :
    (v : ℕ) (f : InFlights)
    → Fits f
    → f.count < f.size
    → (f' : InFlights) × (add v f ≡ ret f') × (f'.count ≡ f.count + 1) × Fits f'
add-Fits v f w h =
    let g = grown-Fits f w h in
    let l = length-set (grown f) (next_slot f) v in
    (
      added v f,
      add-added v f w h,
      refl,
      record {
        count = omega (arith, h);
        start = w.start;
        buffer = omega (arith, l, g.1);
        used = ground (arith, l, g.2);
        size = w.size;
      },
    )
