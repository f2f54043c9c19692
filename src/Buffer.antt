-- ===== src/Buffer.antt =====
-- `ByteBuffer` of raft-kv/common/bytebuffer.cpp. The readable bytes are those from the reader to the
-- writer; a copy past the end of the vector is `fatal`.
pub mod Bounds
pub mod Queue
use raft_etcd.Common.{
  ℕ, ◌+◌, ◌-◌, ◌*◌, ◌^◌, ◌%◌, Bool, true, false, List, [], ◌∷◌, ◌++◌, Outcome, ret, fatal, ◌>>=◌,
  length, take, drop, add32, sub32, to_u32, ltb, leb, ◌==◌, if◌then◌else◌,
}

pub record ByteBuffer : Type 0 where
  pub reader : ℕ
  pub writer : ℕ
  pub buff : List ℕ

abbrev pub min_buffering : ℕ
min_buffering = 4096

unfoldable pub zeros : ℕ → List ℕ
zeros ℕ.zero = []
zeros (ℕ.suc n) = 0 ∷ zeros n

-- `v.resize(n, 0)`.
unfoldable pub resize : ℕ → List ℕ → List ℕ
unfolding zeros
resize n xs = take n xs ++ zeros (n - length xs)

-- `ByteBuffer()`.
unfoldable pub new_buffer : ByteBuffer
unfolding zeros
new_buffer = record { reader = 0; writer = 0; buff = zeros min_buffering }

-- `memcpy(buff.data() + at, data, len)`.
unfoldable pub write_at : ℕ → List ℕ → List ℕ → Outcome (List ℕ)
write_at at bytes buff =
    if leb (at + length bytes) (length buff)
    then ret (take at buff ++ (bytes ++ drop (at + length bytes) buff))
    else fatal

-- The vector as `put` makes room in it for `len` bytes.
unfoldable pub grown : ℕ → ByteBuffer → List ℕ
unfolding resize
grown len b =
    if ltb (sub32 (to_u32 (length b.buff)) b.writer) len
    then resize (length b.buff * 2 + len) b.buff
    else b.buff

unfoldable pub put : List ℕ → ByteBuffer → Outcome ByteBuffer
unfolding grown write_at
put bytes b = write_at b.writer bytes (grown (length bytes) b) >>= λ buff.
    ret (record b { writer = add32 b.writer (length bytes); buff = buff })

unfoldable pub readable : ByteBuffer → Bool
readable b = ltb b.reader b.writer

unfoldable pub readable_bytes : ByteBuffer → Outcome ℕ
readable_bytes b = if leb b.reader b.writer then ret (b.writer - b.reader) else fatal

unfoldable pub may_shrink_to_fit : ByteBuffer → ByteBuffer
may_shrink_to_fit b = if b.reader == b.writer then record b { reader = 0; writer = 0 } else b

-- `read_bytes`: its assertion, the new reader, and the reset of both ends where they meet.
unfoldable pub read_bytes : ℕ → ByteBuffer → Outcome ByteBuffer
unfolding readable_bytes may_shrink_to_fit
read_bytes bytes b = readable_bytes b >>= λ n.
    if leb bytes n
    then ret (may_shrink_to_fit (record b { reader = add32 b.reader bytes }))
    else fatal

unfoldable pub reset : ByteBuffer → ByteBuffer
unfolding resize
reset b = record { reader = 0; writer = 0; buff = resize min_buffering b.buff }

-- `slice`: the bytes that `reader()` points to, as many as are readable.
unfoldable pub slice : ByteBuffer → List ℕ
slice b = take (b.writer - b.reader) (drop b.reader b.buff)
