-- ===== src/Connection/Wire.antt =====
-- `_read` and `_write` of kazoo/protocol/connection.py over what the socket does, and the frames of
-- `_read_header` and `_submit`.
pub mod Reading
pub mod Writing
use kazoo.Base.{
  ℕ, zero, suc, ◌+◌, ◌-◌, List, [], ◌∷◌, ◌++◌, Option, none, some, Bool, Exn, timeout_error,
  connection_dropped, Result, ok, err, ◌>>=◌, ◌<>◌, if◌then◌else◌, length, take, drop, leb,
}
use kazoo.Base.Int.{ℤ, pos, truthy}
use kazoo.Python.Struct.{pack}
use kazoo.Protocol.Reader.{range_of}
use kazoo.Protocol.Reader
use kazoo.Protocol.Records.{ReplyHeader, read_reply_header}
use kazoo.Protocol.Requests.{Request, request_type, serialize}

-- What a `select` and the `recv` behind it meet: bytes that arrived, the empty ones at the stream's
-- end; nothing within the time; an SSL error that asks to try again; and any other socket error,
-- which `_socket_error_handling` turns into ConnectionDropped.
pub data Arrival : Type 0 where
  chunk : List ℕ → Arrival
  timed_out want_again broken : Arrival

-- `recv(remaining)` leaves what is more than `remaining` for the next call. Where nothing more
-- arrives, the time runs out.
unfoldable pub read : ℕ → List Arrival → Result (List ℕ × List Arrival)
read zero as' = ok ([], as')
read (suc n) [] = err timeout_error
read (suc n) (timed_out ∷ as') = err timeout_error
read (suc n) (want_again ∷ as') = read (suc n) as'
read (suc n) (broken ∷ as') = err connection_dropped
read (suc n) (chunk [] ∷ as') = err connection_dropped
read (suc n) (chunk (b ∷ bs) ∷ as') =
    let rest = read (n - length bs) as' in
    if leb (length bs) n
    then (rest >>= λ r. ok ((b ∷ bs) ++ r.0, r.1))
    else ok (b ∷ take n bs, chunk (drop n bs) ∷ as')

-- What a `select` and the `send` behind it meet: the number of bytes that are taken at most.
pub data Sending : Type 0 where
  accepts : ℕ → Sending
  not_writable want_again broken : Sending

-- What was handed to the socket, and how `_write` ends.
abbrev pub sent_first : List ℕ → List ℕ × Result (List Sending) → List ℕ × Result (List Sending)
sent_first bs r = (bs ++ r.0, r.1)

unfoldable pub write : List ℕ → List Sending → List ℕ × Result (List Sending)
write [] ss = ([], ok ss)
write (b ∷ bs) [] = ([], err timeout_error)
write (b ∷ bs) (not_writable ∷ ss) = ([], err timeout_error)
write (b ∷ bs) (want_again ∷ ss) = write (b ∷ bs) ss
write (b ∷ bs) (broken ∷ ss) = ([], err connection_dropped)
write (b ∷ bs) (accepts zero ∷ ss) = ([], err connection_dropped)
write (b ∷ bs) (accepts (suc k) ∷ ss) = sent_first (b ∷ take k bs) (write (drop k bs) ss)

-- `int_struct.unpack(b)[0]`
abbrev pub frame_length : List ℕ → Result ℕ
frame_length bs = Reader.int_of 4 bs 0 >>= λ r. ok (range_of r.0)

-- The two reads of `_read_header` and `_invoke`: a length and as many bytes.
unfoldable pub read_frame : List Arrival → Result (List ℕ × List Arrival)
unfolding read
read_frame as' = read 4 as' >>= λ four. frame_length four.0 >>= λ n. read n four.1

-- The header, the buffer and the offset behind the header.
unfoldable pub read_header : List Arrival → Result (ReplyHeader × List ℕ × ℕ × List Arrival)
unfolding read_frame
read_header as' = read_frame as' >>= λ f. read_reply_header f.0 0 >>= λ h. ok (h.0, f.0, h.1, f.1)

-- A number that is written where Python takes it for true.
abbrev written_if : Option ℤ → Result (List ℕ)
written_if none = ok []
written_if (some z) = if truthy z then pack 4 z else ok []

-- The bytes that `_submit` writes.
unfoldable pub packet : Request → Option ℤ → Result (List ℕ)
packet r xid = written_if xid <> written_if (request_type r) <> serialize r >>= λ b.
    pack 4 (pos (length b)) <> ok b
