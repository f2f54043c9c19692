-- ===== src/Transport.antt =====
-- The connections between the nodes: raft-kv/transport/proto.h, transport.cpp, peer.cpp and
-- raft_server.cpp. A socket is the bytes that it carries; the handlers of the asynchronous calls are
-- operations, which the library calls with an error flag and a number of bytes.
pub mod Framing
use raft_etcd.Common.{
  ℕ, zero, suc, ◌+◌, ◌/◌, ◌%◌, ◌^◌, Bool, true, false, not, ◌&&◌, ◌||◌, List, [], ◌∷◌, ◌++◌, Option,
  none, some, Outcome, ret, fatal, check, ◌>>=◌, ◌>>◌, length, take, drop, ltb, ◌==◌, add32, to_u32,
  le32, of_bytes, if◌then◌else◌,
}
use raft_etcd.Common.Maps.{find, put, nat_keys}
use raft_etcd.Codec.{Packing}
use raft_etcd.Proto.{Message, sent_message}
use raft_etcd.Buffer.{ByteBuffer, new_buffer, readable, readable_bytes, read_bytes, slice}
use raft_etcd.Buffer

abbrev pub transport_type_stream : ℕ
transport_type_stream = 1

abbrev pub transport_type_debug : ℕ
transport_type_debug = 5

-- `htonl(n)`, as it lies in memory.
unfoldable pub be32 : ℕ → List ℕ
be32 n = n / 2 ^ 24 % 256 ∷ n / 2 ^ 16 % 256 ∷ n / 256 % 256 ∷ n % 256 ∷ []

-- `TransportMeta`, packed.
unfoldable pub meta_bytes : ℕ → ℕ → List ℕ
unfolding be32
meta_bytes type len = type ∷ be32 len

-- `ClientSession`: `writing` is the bytes of the write that is under way.
pub record ClientSession : Type 0 where
  pub buffer : ByteBuffer
  pub connected : Bool
  pub writing : Option (List ℕ)

unfoldable pub new_session : ClientSession
unfolding new_buffer
new_session = record { buffer = new_buffer; connected = false; writing = none }

unfoldable pub start_write : ClientSession → ClientSession
unfolding readable slice
start_write s = if readable s.buffer then record s { writing = some (slice s.buffer) } else s

-- `ClientSession::send`, with its assertion on the buffer.
unfoldable pub send : ℕ → List ℕ → ClientSession → Outcome ClientSession
unfolding start_write meta_bytes readable_bytes Buffer.put
send type bytes s = readable_bytes s.buffer >>= λ remaining.
    Buffer.put (meta_bytes type (length bytes)) s.buffer >>= λ b1. Buffer.put bytes b1 >>= λ b2.
    readable_bytes b2 >>= λ total.
    check (remaining + 5 + length bytes == total)
    >> (let s' = record s { buffer = b2 } in
        ret (if s.connected && (remaining == 0) then start_write s' else s'))

-- The handler of a write; `none` is a session that is closed.
unfoldable pub on_written : Bool → ℕ → ClientSession → Outcome (Option ClientSession)
unfolding start_write read_bytes
on_written error bytes s =
    if error || (bytes == 0)
    then ret none
    else read_bytes bytes s.buffer >>= λ b.
        ret (some (start_write (record s { buffer = b; writing = none })))

-- The handler of the connection.
unfoldable pub on_connected : Bool → ClientSession → Option ClientSession
unfolding start_write
on_connected error s = if error then none else some (start_write (record s { connected = true }))

abbrev session_of : Option ClientSession → ClientSession
session_of none = new_session
session_of (some s) = s

-- `PeerImpl::do_send_data`, which makes the session if there is none.
unfoldable pub do_send_data : ℕ → List ℕ → Option ClientSession → Outcome (Option ClientSession)
unfolding send new_session
do_send_data type bytes o = send type bytes (session_of o) >>= λ s. ret (some s)

-- `PeerImpl::send`; the size is a `uint32_t`.
unfoldable pub peer_send :
    Packing sent_message → Message → Option ClientSession → Outcome (Option ClientSession)
unfolding do_send_data
peer_send F msg o =
    do_send_data transport_type_stream (take (to_u32 (length (F.pack msg))) (F.pack msg)) o

-- The round of the timer of a peer: a `DebugMessage`, and the counter after it.
unfoldable pub send_debug : ℕ → Option ClientSession → Outcome (ℕ × Option ClientSession)
unfolding do_send_data le32
send_debug tick o = do_send_data transport_type_debug (le32 tick ++ le32 (add32 tick 1)) o >>= λ o'.
    ret (add32 (add32 tick 1) 1, o')

-- `TransportImpl`: the sessions of the peers.
abbrev pub Peers : Type 0
Peers = List (ℕ × Option ClientSession)

abbrev with_peer : ℕ → Option (Option ClientSession) → Peers → Peers
with_peer id none peers = put id none peers
with_peer id (some o) peers = peers

unfoldable pub add_peer : ℕ → Peers → Peers
unfolding find put
add_peer id peers = with_peer id (find id peers) peers

-- The body of the loop of `TransportImpl::send` once the peer is looked up.
abbrev pub send_found :
    Packing sent_message → Message → Peers → Option (Option ClientSession) → Outcome Peers
send_found F msg peers none = ret peers
send_found F msg peers (some o) = peer_send F msg o >>= λ o'. ret (put msg.to o' peers)

unfoldable pub send_all : Packing sent_message → List Message → Peers → Outcome Peers
unfolding find put peer_send
send_all F [] peers = ret peers
send_all F (msg ∷ msgs) peers =
    (if msg.to == 0 then ret peers else send_found F msg peers (find msg.to peers)) >>= λ peers'.
    send_all F msgs peers'

-- What a session of the server does with a frame: it reads on with a message or without one, or it
-- stops, since the bytes are no message or the type is not known.
pub data Decoded : Type 0 where
  message : Message → Decoded
  debug stopped : Decoded

abbrev pub decode_debug : List ℕ → Outcome Decoded
decode_debug (a ∷ b ∷ c ∷ d ∷ e ∷ f ∷ g ∷ h ∷ []) =
    check (add32 (of_bytes a b c d) 1 == of_bytes e f g h) >> ret debug
decode_debug _ = fatal

abbrev pub decode_stream : Option Message → Decoded
decode_stream none = stopped
decode_stream (some m) = message m

unfoldable pub decode_message : Packing sent_message → ℕ → List ℕ → Outcome Decoded
unfolding of_bytes
decode_message F type bytes =
    if type == transport_type_debug
    then decode_debug bytes
    else if type == transport_type_stream
    then ret (decode_stream (F.unpack bytes))
    else ret stopped

-- The messages of the bytes that a socket has carried. The handler of a read of 0 bytes stops, so an
-- empty frame ends the session. Each frame has 5 bytes or more, so their number is enough fuel.
abbrev pub after_frame : Outcome (List Message) → Decoded → Outcome (List Message)
after_frame more (message m) = more >>= λ ms. ret (m ∷ ms)
after_frame more debug = more
after_frame more stopped = ret []

unfoldable pub read_frames : Packing sent_message → ℕ → List ℕ → Outcome (List Message)
unfolding decode_message of_bytes
read_frames F zero bytes = ret []
read_frames F (suc fuel) (t ∷ b3 ∷ b2 ∷ b1 ∷ b0 ∷ rest) =
    let len = of_bytes b0 b1 b2 b3 in
    if (len == 0) || ltb (length rest) len
    then ret []
    else decode_message F t (take len rest) >>= λ d.
        after_frame (read_frames F fuel (drop len rest)) d
read_frames F (suc fuel) _ = ret []
