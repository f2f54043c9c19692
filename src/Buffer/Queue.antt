-- ===== src/Buffer/Queue.antt =====
-- `ByteBuffer` of raft-kv/common/bytebuffer.cpp as a queue of bytes: `put` at the end, `read_bytes`
-- from the front.
use raft_etcd.Common.{
  ℕ, ◌+◌, ◌-◌, ◌*◌, ◌^◌, ◌≤◌, ◌<◌, ◌≡◌, refl, ap, sym, ◌∙◌, List, [], ◌++◌, Outcome, ret, fatal,
  arith, length, take, drop, add32_lem, leb, ◌==◌, if◌then◌else◌, Bool-cases, inl, inr,
}
use raft_etcd.Buffer.Bounds.{
  IsValid, length-resize, grown-take, length-grown, slice_front, slice_written, length-written,
  slice-empty, length-slice, take-nothing, slice_rest,
}
use raft_etcd.Buffer.{
  ByteBuffer, resize, write_at, grown, put, read_bytes, reset, slice, readable_bytes,
  may_shrink_to_fit, min_buffering,
}

-- The queue that a buffer stands for.
pub record Holds (b : ByteBuffer) (queue : List ℕ) : Type 0 where
  pub valid : IsValid b
  pub same : slice b ≡ queue

-- A call on a buffer, and what it does to the queue; `none` breaks the assertion of `read_bytes`.
pub data Op : Type 0 where
  put_op : List ℕ → Op
  read_op : ℕ → Op
  reset_op : Op

abbrev pub call : Op → ByteBuffer → Outcome ByteBuffer
call (put_op bytes) b = put bytes b
call (read_op n) b = read_bytes n b
call reset_op b = ret (reset b)

abbrev pub on_queue : Op → List ℕ → Outcome (List ℕ)
on_queue (put_op bytes) q = ret (q ++ bytes)
on_queue (read_op n) q = if leb n (length q) then ret (drop n q) else fatal
on_queue reset_op q = ret []

-- The vector doubled, with the new bytes, is still measured by a `uint32_t`.
abbrev pub Fits : Op → ByteBuffer → Type 0
Fits (put_op bytes) b = length b.buff * 2 + length bytes < 2 ^ 32
Fits _ b = Unit

write_at_lem :
    (at : ℕ) (bytes buff : List ℕ)
    → at + length bytes ≤ length buff
    → write_at at bytes buff ≡ ret (take at buff ++ (bytes ++ drop (at + length bytes) buff))
unfolding write_at
write_at_lem at bytes buff h = ground arith

-- The buffer after `put`.
abbrev pub put_result : List ℕ → ByteBuffer → ByteBuffer
put_result bytes b = record b {
  writer = b.writer + length bytes;
  buff =
      let g = grown (length bytes) b in
      take b.writer g ++ (bytes ++ drop (b.writer + length bytes) g);
}

pub put_lem :
    (bytes : List ℕ) (b : ByteBuffer)
    → IsValid b
    → length b.buff * 2 + length bytes < 2 ^ 32
    → put bytes b ≡ ret (put_result bytes b)
unfolding put
put_lem bytes b v f =
    let g = length-grown (length bytes) b v f in
    rw
      (
        write_at_lem b.writer bytes (grown (length bytes) b) g.0,
        add32_lem b.writer (length bytes) (omega (arith, g.0, g.1)),
      )
      refl

pub put-Holds :
    (bytes : List ℕ) (b : ByteBuffer) (q : List ℕ)
    → Holds b q
    → length b.buff * 2 + length bytes < 2 ^ 32
    → Holds (put_result bytes b) (q ++ bytes)
unfolding slice
put-Holds bytes b q h f = record {
  valid = record {
    ordered = omega (arith, v.ordered);
    inside = omega (arith, long, g.0);
    narrow = omega (arith, long, g.1);
  };
  same =
      slice_written b.reader b.writer bytes (grown (length bytes) b)
        (drop (b.writer + length bytes) (grown (length bytes) b)) v.ordered (omega (arith, g.0))
      ∙ ap (λ ys. ys ++ bytes)
          (slice_front b (grown (length bytes) b) v (grown-take (length bytes) b b.writer v.inside)
            ∙ h.same);
}
  where
    v : IsValid b
    v = h.valid

    g :
        (b.writer + length bytes ≤ length (grown (length bytes) b))
        × (length (grown (length bytes) b) < 2 ^ 32)
    g = length-grown (length bytes) b v f

    long : length (put_result bytes b).buff ≡ length (grown (length bytes) b)
    long = length-written b.writer bytes (grown (length bytes) b) g.0

read-Holds :
    (n : ℕ) (b : ByteBuffer) (q : List ℕ)
    → Holds b q
    → n ≤ b.writer - b.reader
    → Holds (may_shrink_to_fit (record b { reader = b.reader + n })) (drop n q)
unfolding may_shrink_to_fit slice
read-Holds n b q h k = elim (Bool-cases (b.reader + n == b.writer)) [
  | inl e ↦ rw e (record {
    valid = record { ordered = omega arith; inside = omega arith; narrow = h.valid.narrow };
    same =
        sym (take-nothing (b.writer - (b.reader + n)) (drop (b.reader + n) b.buff) (ground arith))
        ∙ rest;
  })
  | inr e ↦ rw e (record {
    valid = record {
      ordered = omega (arith, k, h.valid.ordered);
      inside = h.valid.inside;
      narrow = h.valid.narrow;
    };
    same = rest;
  })
]
  where
    rest : take (b.writer - (b.reader + n)) (drop (b.reader + n) b.buff) ≡ drop n q
    rest = slice_rest n b h.valid k ∙ ap (λ ys. drop n ys) h.same

read_bytes_lem :
    (n : ℕ) (b : ByteBuffer)
    → IsValid b
    → n ≤ b.writer - b.reader
    → read_bytes n b ≡ ret (may_shrink_to_fit (record b { reader = b.reader + n }))
unfolding read_bytes readable_bytes
read_bytes_lem n b v h =
    rw (add32_lem b.reader n (omega (arith, v.ordered, v.inside, v.narrow))) ground
      (arith, v.ordered)

read_bytes_too_many :
    (n : ℕ) (b : ByteBuffer) → IsValid b → b.writer - b.reader < n → read_bytes n b ≡ fatal
unfolding read_bytes readable_bytes
read_bytes_too_many n b v h = ground (arith, v.ordered)

reset-Holds : (b : ByteBuffer) → Holds (reset b) []
unfolding reset slice
reset-Holds b = record {
  valid = record {
    ordered = omega arith;
    inside = omega arith;
    narrow = omega (arith, length-resize min_buffering b.buff);
  };
  same = slice-empty (resize min_buffering b.buff);
}

-- What an operation does to a buffer that holds a queue.
abbrev pub Follows : Op → ByteBuffer → Outcome (List ℕ) → Type 0
Follows op b (ret q) = (b' : ByteBuffer) × (call op b ≡ ret b') × Holds b' q
Follows op b fatal = call op b ≡ fatal

-- If a buffer with its ends in order inside a vector of less than 2 ^ 32 bytes has a queue as its
-- readable bytes, and twice the vector with the bytes to put is less than 2 ^ 32, then each
-- operation does on the buffer what it does on the queue (`put` joins the bytes at the end,
-- `read_bytes` drops from the front, `reset` empties): it returns a buffer that is in order again
-- and has the new queue, or, where more is read than there is, it fails as the queue does.
pub call-Follows :
    (op : Op) (b : ByteBuffer) (q : List ℕ) → Holds b q → Fits op b → Follows op b (on_queue op q)
call-Follows (put_op bytes) b q h f =
    (put_result bytes b, put_lem bytes b h.valid f, put-Holds bytes b q h f)
call-Follows reset_op b q h f = (reset b, refl, reset-Holds b)
call-Follows (read_op n) b q h f = elim (Bool-cases (leb n (length q))) [
  | inl e ↦ rw e (
    _,
    read_bytes_lem n b h.valid (ground (arith, readable)),
    read-Holds n b q h (ground (arith, readable)),
  )
  | inr e ↦ rw e (read_bytes_too_many n b h.valid (ground (arith, readable)))
]
  where
    readable : length q ≡ b.writer - b.reader
    readable = sym (ap length h.same) ∙ length-slice b h.valid

-- The vector grows to twice its size and the new bytes at most.
pub length-put_result :
    (bytes : List ℕ) (b : ByteBuffer)
    → IsValid b
    → length b.buff * 2 + length bytes < 2 ^ 32
    → length (put_result bytes b).buff ≤ length b.buff * 2 + length bytes
unfolding grown
length-put_result bytes b v f =
    rw
      (length-written b.writer bytes (grown (length bytes) b) (length-grown (length bytes) b v f).0)
      ground (arith, length-resize (length b.buff * 2 + length bytes) b.buff)
