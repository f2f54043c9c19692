-- ===== src/Buffer/Bounds.antt =====
-- The ends of the buffer of raft-kv/common/bytebuffer.cpp, and the bytes between them as it grows.
use mathlib.Core.List.{append_assoc}
use raft_etcd.Common.{
  ℕ, zero, suc, ◌+◌, ◌-◌, ◌*◌, ◌^◌, ◌≤◌, ◌<◌, ◌≡◌, refl, ap, sym, ◌∙◌, List, [], ◌++◌, arith,
  length, take, drop, length-append, length-take, length-drop, sub32, to_u32, sub32_lem, to_u32_lem,
  ltb, Bool-cases, inl, inr, take-append, take-inside, drop-inside, drop-take, drop-drop, take-all,
}
use raft_etcd.Buffer.{ByteBuffer, zeros, resize, grown, slice}

-- Both ends are inside the vector, whose size is a `uint32_t`.
pub record IsValid (b : ByteBuffer) : Type 0 where
  pub ordered : b.reader ≤ b.writer
  pub inside : b.writer ≤ length b.buff
  pub narrow : length b.buff < 2 ^ 32

pub length-zeros : (n : ℕ) → length (zeros n) ≡ n
unfolding zeros
length-zeros zero = refl
length-zeros (suc n) = ap suc (length-zeros n)

pub length-resize : (n : ℕ) (xs : List ℕ) → length (resize n xs) ≡ n
unfolding resize
length-resize n xs = omega (
  arith,
  length-append (take n xs) (zeros (n - length xs)),
  length-take n xs,
  length-zeros (n - length xs),
)

-- What the room for new bytes keeps, and how much of it there is.
pub grown-take :
    (len : ℕ) (b : ByteBuffer) (n : ℕ) → n ≤ length b.buff → take n (grown len b) ≡ take n b.buff
unfolding grown resize
grown-take len b n h = elim (Bool-cases (ltb (sub32 (to_u32 (length b.buff)) b.writer) len)) [
  | inl e ↦ rw e (
      rw (take-all (length b.buff * 2 + len) b.buff (omega arith))
        (take-inside n b.buff (zeros (length b.buff * 2 + len - length b.buff)) h))
  | inr e ↦ rw e refl
]

pub length-grown :
    (len : ℕ) (b : ByteBuffer)
    → IsValid b
    → length b.buff * 2 + len < 2 ^ 32
    → (b.writer + len ≤ length (grown len b)) × (length (grown len b) < 2 ^ 32)
unfolding grown
length-grown len b v f =
    rw (to_u32_lem (length b.buff) v.narrow, sub32_lem (length b.buff) b.writer v.inside v.narrow)
      ground (arith, length-resize (length b.buff * 2 + len) b.buff, v.inside, v.narrow)

-- The bytes of the queue, as the front of the vector has them.
pub slice_front :
    (b : ByteBuffer) (xs : List ℕ)
    → IsValid b
    → take b.writer xs ≡ take b.writer b.buff
    → drop b.reader (take b.writer xs) ≡ slice b
unfolding slice
slice_front b xs v e =
    ap (λ ys. drop b.reader ys) e
    ∙ drop-take b.reader (b.writer - b.reader) b.writer b.buff (omega (arith, v.ordered))

-- What is read back of a vector that holds the front of the old one and the new bytes.
pub slice_written :
    (r w : ℕ) (bytes xs ys : List ℕ)
    → r ≤ w
    → w ≤ length xs
    → take (w + length bytes - r) (drop r (take w xs ++ (bytes ++ ys)))
      ≡ drop r (take w xs) ++ bytes
slice_written r w bytes xs ys h k =
    rw (drop-inside r (take w xs) (bytes ++ ys) (omega (arith, length-take w xs))) rw
      (← (append_assoc (drop r (take w xs)) bytes ys))
      (take-append (w + length bytes - r) (drop r (take w xs) ++ bytes) ys (
        omega (
          arith,
          length-append (drop r (take w xs)) bytes,
          length-drop r (take w xs),
          length-take w xs,
        )))

pub length-written :
    (w : ℕ) (bytes xs : List ℕ)
    → w + length bytes ≤ length xs
    → length (take w xs ++ (bytes ++ drop (w + length bytes) xs)) ≡ length xs
length-written w bytes xs h = omega (
  arith,
  length-append (take w xs) (bytes ++ drop (w + length bytes) xs),
  length-append bytes (drop (w + length bytes) xs),
  length-take w xs,
  length-drop (w + length bytes) xs,
)

pub slice-empty : (xs : List ℕ) → take (0 - 0) (drop 0 xs) ≡ []
slice-empty xs = ap (λ n. take n xs) none_left
  where
    none_left : 0 - 0 ≡ 0
    none_left = refl

pub length-slice : (b : ByteBuffer) → IsValid b → length (slice b) ≡ b.writer - b.reader
unfolding slice
length-slice b v = omega (
  arith,
  length-take (b.writer - b.reader) (drop b.reader b.buff),
  length-drop b.reader b.buff,
  v.ordered,
  v.inside,
)

pub drop-take_less : (n m : ℕ) (xs : List ℕ) → n ≤ m → drop n (take m xs) ≡ take (m - n) (drop n xs)
drop-take_less n m xs h = drop-take n (m - n) m xs (omega arith)

pub take-nothing : (n : ℕ) (xs : List ℕ) → n ≡ 0 → take n xs ≡ []
take-nothing zero xs e = refl
take-nothing (suc n) xs e = absurd (omega (arith, e))

-- What is left after `n` bytes, before the ends are reset.
pub slice_rest :
    (n : ℕ) (b : ByteBuffer)
    → IsValid b
    → n ≤ b.writer - b.reader
    → take (b.writer - (b.reader + n)) (drop (b.reader + n) b.buff) ≡ drop n (slice b)
unfolding slice
slice_rest n b v h = sym (
    drop-take_less n (b.writer - b.reader) (drop b.reader b.buff) h
    ∙ ap (λ ys. take (b.writer - b.reader - n) ys) (drop-drop b.reader n (b.reader + n) b.buff refl)
    ∙ ap (λ k. take k (drop (b.reader + n) b.buff)) (omega (arith, v.ordered)))
