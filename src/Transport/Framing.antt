-- ===== src/Transport/Framing.antt =====
-- The frames that `ClientSession` of raft-kv/transport/peer.cpp puts in its buffer, and what
-- `ServerSession` of raft_server.cpp reads of them.
use mathlib.Core.List.{append_assoc}
use raft_etcd.Common.{
  ℕ, zero, suc, ◌+◌, ◌*◌, ◌^◌, ◌≤◌, ◌<◌, ◌≡◌, refl, ap, sym, ◌∙◌, subst, Bool, true, ◌&&◌, List, [],
  ◌∷◌, ◌++◌, map, Outcome, ret, ◌>>=◌, arith, length, take, length-append, length-take, take-append,
  drop-append, of_bytes-le32, ◌==◌, if◌then◌else◌,
}
use raft_etcd.Codec.{Packing}
use raft_etcd.Proto.{Message, sent_message}
use raft_etcd.Buffer.{ByteBuffer, readable_bytes}
use raft_etcd.Buffer.Bounds.{length-slice}
use raft_etcd.Buffer.Queue.{Holds, put-Holds, put_lem, put_result, length-put_result}
use raft_etcd.Transport.{
  transport_type_stream, be32, meta_bytes, ClientSession, send, start_write, read_frames,
}

abbrev pub frame : ℕ → List ℕ → List ℕ
frame type bytes = meta_bytes type (length bytes) ++ bytes

-- The frames of some messages, one after the other.
unfoldable pub frames : Packing sent_message → List Message → List ℕ
frames F [] = []
frames F (m ∷ ms) = frame transport_type_stream (F.pack m) ++ frames F ms

-- The encodings are not empty, and their size is a `uint32_t`.
abbrev pub Framed : Packing sent_message → List Message → Type 0
Framed F [] = Unit
Framed F (m ∷ ms) = (0 < length (F.pack m)) × (length (F.pack m) < 2 ^ 32) × Framed F ms

read_frame :
    (F : Packing sent_message) (fuel : ℕ) (m : Message) (rest : List ℕ)
    → 0 < length (F.pack m)
    → length (F.pack m) < 2 ^ 32
    → read_frames F (suc fuel) (frame transport_type_stream (F.pack m) ++ rest)
      ≡ (read_frames F fuel rest >>= λ ms. ret (sent_message m ∷ ms))
unfolding read_frames meta_bytes be32
read_frame F fuel m rest h l =
    rw
      (
        of_bytes-le32 (length (F.pack m)) l,
        take-append (length (F.pack m)) (F.pack m) rest refl,
        drop-append (length (F.pack m)) (F.pack m) rest refl,
        F.unpack-pack m,
      )
      (ground (arith, h, length-append (F.pack m) rest))

-- A frame that is cut off gives nothing.
read_frames_cut :
    (F : Packing sent_message) (fuel k : ℕ) (bytes : List ℕ)
    → length bytes < 2 ^ 32
    → k < 5 + length bytes
    → read_frames F fuel (take k (frame transport_type_stream bytes)) ≡ ret []
unfolding read_frames meta_bytes be32
read_frames_cut F zero k bytes l h = refl
read_frames_cut F (suc fuel) zero bytes l h = refl
read_frames_cut F (suc fuel) (suc zero) bytes l h = refl
read_frames_cut F (suc fuel) (suc (suc zero)) bytes l h = refl
read_frames_cut F (suc fuel) (suc (suc (suc zero))) bytes l h = refl
read_frames_cut F (suc fuel) (suc (suc (suc (suc zero)))) bytes l h = refl
read_frames_cut F (suc fuel) (suc (suc (suc (suc (suc k))))) bytes l h =
    rw (of_bytes-le32 (length bytes) l) (ground (arith, h, length-take k bytes))

-- The server reads of the frames of some messages, whose encodings are not empty and shorter than
-- 2 ^ 32 bytes, and of a beginning of one more frame, short of its end, just these messages, in
-- order and each without its snapshot, which is not packed. The number of messages, or more, is
-- enough fuel.
pub read_frames-frames :
    (F : Packing sent_message) (fuel k : ℕ) (ms : List Message) (next : Message)
    → Framed F ms
    → length (F.pack next) < 2 ^ 32
    → k < 5 + length (F.pack next)
    → length ms ≤ fuel
    → read_frames F fuel (frames F ms ++ take k (frame transport_type_stream (F.pack next)))
      ≡ ret (map sent_message ms)
unfolding frames
read_frames-frames F fuel k [] next f l c h = read_frames_cut F fuel k (F.pack next) l c
read_frames-frames F zero k (m ∷ ms) next f l c h = absurd (omega (arith, h))
read_frames-frames F (suc fuel) k (m ∷ ms) next f l c h =
    ap (λ bytes. read_frames F (suc fuel) bytes)
      (append_assoc (frame transport_type_stream (F.pack m)) (frames F ms) _)
    ∙ read_frame F fuel m (frames F ms ++ take k (frame transport_type_stream (F.pack next))) f.0
        f.1
    ∙ ap (λ o. o >>= λ ns. ret (sent_message m ∷ ns))
        (read_frames-frames F fuel k ms next f.2 l c (omega (arith, h)))

-- What a send leaves in a session: the frame after what was there.
pub record Sent (s : ClientSession) (queue : List ℕ) (o : Outcome ClientSession) : Type 0 where
  pub after : ClientSession
  pub returns : o ≡ ret after
  pub holds : Holds after.buffer queue

readable_bytes_lem : (b : ByteBuffer) (q : List ℕ) → Holds b q → readable_bytes b ≡ ret (length q)
unfolding readable_bytes
readable_bytes_lem b q h = ground (arith, h.valid.ordered, length-slice b h.valid, ap length h.same)

-- `start_write` leaves the buffer as it is.
abbrev written_on : Bool → ClientSession → ClientSession
written_on b s = if b then start_write s else s

written_on-buffer : (b : Bool) (s : ClientSession) → (written_on b s).buffer ≡ s.buffer
unfolding start_write
written_on-buffer b s = ground arith

-- If the readable bytes of the buffer of a session are a queue, with its ends in order, and four
-- times the size of its vector with the bytes is well below 2 ^ 32, then `send` returns, its
-- assertion holds, and the readable bytes are the queue, the header of the frame and the bytes.
pub send-Sent :
    (type : ℕ) (bytes q : List ℕ) (s : ClientSession)
    → Holds s.buffer q
    → length s.buffer.buff * 4 + 10 + length bytes < 2 ^ 32
    → Sent s (q ++ frame type bytes) (send type bytes s)
unfolding send
send-Sent type bytes q s h f =
    let b1 = put_result (meta_bytes type (length bytes)) s.buffer in
    let b2 = put_result bytes b1 in
    let on = s.connected && (length q == 0) in
    record {
      after = written_on on (record s { buffer = b2 });
      returns =
          rw
            (
              readable_bytes_lem s.buffer q h,
              put_lem (meta_bytes type (length bytes)) s.buffer h.valid fits,
              put_lem bytes b1 first.valid fits_too,
              readable_bytes_lem b2 ((q ++ meta_bytes type (length bytes)) ++ bytes) second,
              total,
            )
            refl;
      holds =
          subst (λ b. Holds b (q ++ frame type bytes))
            (sym (written_on-buffer on (record s { buffer = b2 })))
            (subst (λ ys. Holds b2 ys) (append_assoc q (meta_bytes type (length bytes)) bytes)
              second);
    }
  where
    header : length (meta_bytes type (length bytes)) ≡ 5
    header = refl

    fits : length s.buffer.buff * 2 + length (meta_bytes type (length bytes)) < 2 ^ 32
    fits = omega (arith, f, header)

    first :
        Holds
          (put_result (meta_bytes type (length bytes)) s.buffer)
          (q ++ meta_bytes type (length bytes))
    first = put-Holds (meta_bytes type (length bytes)) s.buffer q h fits

    fits_too :
        length (put_result (meta_bytes type (length bytes)) s.buffer).buff * 2 + length bytes
        < 2 ^ 32
    fits_too =
        omega (
          arith,
          f,
          header,
          length-put_result (meta_bytes type (length bytes)) s.buffer h.valid fits,
        )

    second :
        Holds
          (put_result bytes (put_result (meta_bytes type (length bytes)) s.buffer))
          ((q ++ meta_bytes type (length bytes)) ++ bytes)
    second = put-Holds bytes _ _ first fits_too

    total :
        (length q + 5 + length bytes == length ((q ++ meta_bytes type (length bytes)) ++ bytes))
        ≡ true
    total = ground (
      arith,
      length-append (q ++ meta_bytes type (length bytes)) bytes,
      length-append q (meta_bytes type (length bytes)),
      header,
    )
