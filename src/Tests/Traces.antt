-- ===== src/Tests/Traces.antt =====
-- Sequences of steps.
use kazoo.Base.{ℕ, ◌<◌, [], ◌∷◌, some, true, false, Bool, arith}
use kazoo.Python.Text.{codes}
use kazoo.States.{KazooState, KeeperState}
use kazoo.Protocol.Requests.{sync}
use kazoo.Client.Calls.{call}
use kazoo.Client.Session.{session_callback}
use kazoo.Client.Session.Invariant.{session_callback-next_async}
use kazoo.Connection.Sending.Order.{send_request-next_async}
use kazoo.Connection.{Connection, on_client, ping_xid}
use kazoo.Connection.Receiving.{read_packet}
use kazoo.Protocol.Records.{ReplyHeader}
use kazoo.Base.Int.{pos}
use kazoo.Connection.Wire.{accepts}
use kazoo.Connection.Sending.{send_request}
use kazoo.Connection.Steps.{issued, here, step, reads, calls, sends, changes, IsAccounted}
use kazoo.Connection.Steps.Accounts.{steps-accounted}
use kazoo.Tests.{new_client, connection_of}

abbrev quiet : ℕ → KazooState → Bool
quiet listener state = false

abbrev fresh : Connection
fresh = connection_of (record new_client {
  state = KeeperState.connected;
  kazoo_state = KazooState.connected;
  live = true;
  write_sock = some true;
  wakes = 1;
})

abbrev ping_header : ReplyHeader
ping_header = record { xid = ping_xid; zxid = pos 5; err = pos 0 }

abbrev pinged : Connection
pinged = (read_packet quiet ping_header [] 0 fresh).0

-- The answer to a ping, a call, a send and the loss of the connection.
abbrev called_once : Connection
called_once = on_client (issued (sync (some (codes "/a")))) pinged

abbrev sent_once : Connection
sent_once = (send_request (accepts 100 ∷ []) called_once).0

abbrev dropped : Connection
dropped = on_client (session_callback quiet KeeperState.connecting) sent_once

called_once-wakes : 0 < called_once.client.wakes
unfolding call read_packet
called_once-wakes = omega arith

dropped-makes : 0 < dropped.client.next_async
unfolding call read_packet
dropped-makes =
    rw
      (
        session_callback-next_async quiet KeeperState.connecting sent_once.client,
        send_request-next_async (accepts 100 ∷ []) called_once called_once-wakes,
      )
      (omega arith)

steps-accounted_example : IsAccounted dropped.client 0
steps-accounted_example =
    steps-accounted quiet fresh dropped
      (step
        (step
          (step (step (here fresh) (reads ping_header [] 0 fresh tt))
            (calls (sync (some (codes "/a"))) pinged))
          (sends (accepts 100 ∷ []) called_once called_once-wakes))
        (changes KeeperState.connecting sent_once))
      (λ a h. absurd (omega (arith, h))) 0 dropped-makes
