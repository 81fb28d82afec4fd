-- ===== src/Tests/Wires.antt =====
-- The connection.
use kazoo.Base.{ℕ, List, [], ◌∷◌, ◌++◌, ◌≡◌, refl, false, Bool, some, inl, inr, ok, All, arith}
use kazoo.Base.Int.{pos, negsuc}
use kazoo.Exceptions.{no_node_error}
use kazoo.Exceptions.Codes.{exceptions-code}
use kazoo.Python.Text.{codes}
use kazoo.Python.Struct.{pack}
use kazoo.States.{KazooState, KeeperState, EventType}
use kazoo.Protocol.Records.{ReplyHeader, read_watch}
use kazoo.Protocol.Requests.{sync, auth}
use kazoo.Client.{request}
use kazoo.Client.Session.Effects.{completions, waiting}
use kazoo.Connection.{Connection, auth_xid}
use kazoo.Connection.Wire.{Arrival, chunk, want_again, accepts, read_frame, write}
use kazoo.Connection.Wire.Reading.{arrived, IsFine, read_frame-pack}
use kazoo.Connection.Wire.Writing.{Writes, write_lem}
use kazoo.Connection.Sending.{send_request}
use kazoo.Connection.Sending.Order.{send_request_lem}
use kazoo.Connection.Watching.{read_watch_event}
use kazoo.Connection.Watching.Once.{IsTriggered, read_watch_event-IsTriggered}
use kazoo.Connection.Receiving.InOrder.{Packet, outcomes, serve, serve-IsInOrder}
use kazoo.Tests.{new_client, connection_of}

abbrev waiting_client : Connection
waiting_client = connection_of (record new_client {
  state = KeeperState.connected;
  stopped = false;
  pending =
      (sync (some (codes "/a")), some 1, pos 1) ∷ (sync (some (codes "/b")), some 2, pos 2) ∷ [];
  queue = (request (sync (some (codes "/c"))), some 3) ∷ [];
  wakes = 1;
})

abbrev stays : ℕ → KazooState → Bool
stays listener state = false

abbrev fine_header : ReplyHeader
fine_header = record { xid = pos 1; zxid = pos 50; err = pos 0 }

-- The first request succeeds, the second finds no node.
abbrev two_packets : List Packet
two_packets =
    (fine_header, 0 ∷ 0 ∷ 0 ∷ 2 ∷ 47 ∷ 97 ∷ [], 0)
    ∷ (record fine_header { xid = pos 2; err = negsuc 100 }, [], 0)
    ∷ []

-- An `Auth` was sent behind them, and is accepted.
abbrev signing_in : Connection
signing_in = connection_of (record waiting_client.client {
  pending =
      waiting_client.client.pending
      ++ (auth (pos 0) (some (codes "digest")) (some (codes "me:pw")), some 3, auth_xid) ∷ [];
})

abbrev three_packets : List Packet
three_packets = two_packets ++ (record fine_header { xid = auth_xid }, [], 0) ∷ []

serve-IsInOrder_example :
    (completions (serve stays three_packets signing_in).client.effects
      ≡ completions signing_in.client.effects
        ++ outcomes [] three_packets signing_in.client.pending)
    × ((serve stays three_packets signing_in).client.pending ≡ [])
serve-IsInOrder_example = serve-IsInOrder stays three_packets signing_in (
  refl,
  inl ((refl, refl, refl), inl refl, refl),
  (
    refl,
    inl ((refl, refl, refl), inr (no_node_error, exceptions-code no_node_error), refl),
    (refl, inr (refl, refl), tt),
  ),
)

send_request_lem_example :
    (waiting (send_request (accepts 5 ∷ accepts 100 ∷ []) waiting_client).0.client
      ≡ waiting waiting_client.client)
    × ((send_request (accepts 5 ∷ accepts 100 ∷ []) waiting_client).0.client.effects ≡ [])
send_request_lem_example =
    send_request_lem (accepts 5 ∷ accepts 100 ∷ []) waiting_client (omega arith)

abbrev cut : List Arrival
cut = chunk (0 ∷ 0 ∷ []) ∷ want_again ∷ chunk (0 ∷ 2 ∷ 7 ∷ []) ∷ chunk (8 ∷ 9 ∷ []) ∷ []

read_frame-pack_example :
    (later : List Arrival) × (read_frame cut ≡ ok (7 ∷ 8 ∷ [], later))
    × (arrived later ≡ 9 ∷ [])
    × All IsFine later
unfolding arrived pack kazoo.Python.Struct.be_bytes
read_frame-pack_example =
    read_frame-pack (7 ∷ 8 ∷ []) (9 ∷ []) (0 ∷ 0 ∷ 0 ∷ 2 ∷ []) cut refl (tt, (tt, (tt, (tt, tt))))
      refl

write_lem_example : Writes (1 ∷ 2 ∷ 3 ∷ []) (write (1 ∷ 2 ∷ 3 ∷ []) (accepts 2 ∷ []))
write_lem_example = write_lem (1 ∷ 2 ∷ 3 ∷ []) (accepts 2 ∷ [])

-- The type CHANGED, the state CONNECTED and the path "/a".
abbrev changed_bytes : List ℕ
changed_bytes = 0 ∷ 0 ∷ 0 ∷ 3 ∷ 0 ∷ 0 ∷ 0 ∷ 3 ∷ 0 ∷ 0 ∷ 0 ∷ 2 ∷ 47 ∷ 97 ∷ []

read_watch_event-IsTriggered_example :
    IsTriggered EventType.changed
      (codes "/a")
      waiting_client.client
      (read_watch_event changed_bytes 0 waiting_client)
unfolding read_watch kazoo.Protocol.Reader.◌>>=◌ kazoo.Protocol.Reader.int_of
    kazoo.Protocol.Strings.read_string kazoo.Python.Struct.from_be kazoo.Protocol.Reader.slice
    kazoo.Python.Utf8.decode
read_watch_event-IsTriggered_example =
    read_watch_event-IsTriggered changed_bytes 0
      (record { type = pos 3; state = pos 3; path = some (codes "/a") }, 14) EventType.changed
      (codes "/a") waiting_client refl refl refl refl refl
