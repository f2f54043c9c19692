-- ===== src/Redis/Session/Link.antt =====
-- The socket of `RedisSession` in raft-kv/server/redis_session.cpp: replies that are sent, and lines
-- that are read. The parser of hiredis is a parameter: a reader, and what it makes of a line.
use raft_etcd.Common.{
  ℕ, zero, suc, Bool, true, false, ◌||◌, List, [], ◌∷◌, Option, none, some, Outcome, ret, ◌>>=◌,
  length, ◌==◌, if◌then◌else◌,
}
use raft_etcd.Common.Maps.{bytes_keys}
use raft_etcd.Buffer.{ByteBuffer, readable, readable_bytes, read_bytes, slice}
use raft_etcd.Buffer
use raft_etcd.Redis.Session.{Request}

-- The sending side: the buffer, and the bytes of the write that is under way.
pub record Sender : Type 0 where
  pub send_buffer : ByteBuffer
  pub sending : Option (List ℕ)

unfoldable pub start_send : Sender → Sender
unfolding readable slice
start_send s =
    if readable s.send_buffer then record s { sending = some (slice s.send_buffer) } else s

unfoldable pub send_reply : List ℕ → Sender → Outcome Sender
unfolding start_send readable_bytes Buffer.put
send_reply bytes s = readable_bytes s.send_buffer >>= λ n. Buffer.put bytes s.send_buffer >>= λ b.
    let s' = record s { send_buffer = b } in ret (if n == 0 then start_send s' else s')

-- The handler of a write; after an error nothing more is sent.
unfoldable pub on_sent : Bool → ℕ → Sender → Outcome Sender
unfolding start_send read_bytes
on_sent error bytes s =
    if (bytes == 0) || error
    then ret s
    else read_bytes bytes s.send_buffer >>= λ b.
        ret (start_send (record s { send_buffer = b; sending = none }))

-- `memchr` for the end of a line: the line with it, and what follows.
unfoldable pub split_line : List ℕ → Option (List ℕ × List ℕ)
split_line [] = none
split_line (b ∷ bs) = elim (b == 10) [
  | true ↦ some (b ∷ [], bs)
  | false ↦ elim (split_line bs) [ none ↦ none | some (line, rest) ↦ some (b ∷ line, rest) ]
]

-- The loop of `handle_read`: the requests that are complete, the reader, and whether it failed. The
-- bytes after the last line are not fed. Each line has a byte, so their number is enough fuel.
pub record Parsed (R : Type 0) : Type 0 where
  pub reader : R
  pub requests : List Request
  pub quit : Bool

module _ {R : Type 0} where
  abbrev pub with_request : Option Request → Parsed R → Parsed R
  with_request none p = p
  with_request (some q) p = record p { requests = q ∷ p.requests }

  unfoldable pub parse_lines :
      (R → List ℕ → Option (R × Option Request)) → ℕ → R → List ℕ → Parsed R
  unfolding split_line
  parse_lines feed zero r bytes = record { reader = r; requests = []; quit = false }
  parse_lines feed (suc fuel) r bytes = elim (split_line bytes) [
    | none ↦ record { reader = r; requests = []; quit = false }
    | some (line, rest) ↦ elim (feed r line) [
      | none ↦ record { reader = r; requests = []; quit = true }
      | some (r', q) ↦ with_request q (parse_lines feed fuel r' rest)
    ]
  ]

  -- `handle_read` up to the calls of `on_redis_reply`: no request is handled if the reader failed.
  unfoldable pub handle_read : (R → List ℕ → Option (R × Option Request)) → R → List ℕ → Parsed R
  unfolding parse_lines
  handle_read feed r bytes =
      let p = parse_lines feed (length bytes) r bytes in
      if p.quit then record p { requests = [] } else p
