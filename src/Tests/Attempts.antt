-- ===== src/Tests/Attempts.antt =====
-- A connection from its first byte to its end.
use kazoo.Base.{ℕ, List, [], ◌∷◌, ◌≡◌, refl, none, some, true, false, Bool, zookeeper_error}
use kazoo.Base.Int.{pos}
use kazoo.Exceptions.{connection_loss}
use kazoo.Python.Text.{codes}
use kazoo.States.{KazooState, is_connected}
use kazoo.Protocol.Requests.{sync}
use kazoo.Protocol.Replies.{text}
use kazoo.Client.{Client, request, reply, exception, completed, notified}
use kazoo.Connection.{Connection}
use kazoo.Connection.Wire.{chunk, broken, accepts}
use kazoo.Connection.Attempt.{Net, State}
use kazoo.Connection.Attempt.Rounds.{
  Round, active, connect_attempt, connect_again, stop_connecting, zk_loop,
}
use kazoo.Connection.Attempt.Ends.{state_of, connect_attempt-unconnected}
use kazoo.Tests.{new_client, connection_of}

abbrev keeps : ℕ → KazooState → Bool
keeps listener state = false

-- Two requests are queued.
abbrev started : Connection
started = connection_of (record new_client {
  stopped = false;
  queue =
      (request (sync (some (codes "/a"))), some 1)
      ∷ (request (sync (some (codes "/b"))), some 2)
      ∷ [];
  listeners = 7 ∷ [];
  wakes = 2;
})

-- The answer to the connect, the answer to the first request in two chunks, and the end.
abbrev net : Net
net = record {
  sendings = (accepts 100 ∷ []) ∷ (accepts 9 ∷ accepts 100 ∷ []) ∷ (accepts 100 ∷ []) ∷ [];
  arrivals =
      chunk (
        0 ∷ 0 ∷ 0 ∷ 23 ∷ 0 ∷ 0 ∷ 0 ∷ 0 ∷ 0 ∷ 0 ∷ 15 ∷ 160 ∷ 0 ∷ 0 ∷ 0 ∷ 0 ∷ 0 ∷ 0 ∷ 0 ∷ 77 ∷ 0 ∷ 0
        ∷ 0 ∷ 2 ∷ 1 ∷ 2 ∷ 0 ∷ [])
      ∷ chunk (0 ∷ 0 ∷ 0 ∷ 22 ∷ 0 ∷ 0 ∷ 0 ∷ 1 ∷ 0 ∷ 0 ∷ 0 ∷ 0 ∷ 0 ∷ 0 ∷ 0 ∷ 9 ∷ [])
      ∷ chunk (0 ∷ 0 ∷ 0 ∷ 0 ∷ 0 ∷ 0 ∷ 0 ∷ 2 ∷ 47 ∷ 97 ∷ [])
      ∷ broken
      ∷ [];
}

abbrev turns : List Round
turns =
    active false true false
    ∷ active false true false
    ∷ active true false false
    ∷ active true false false
    ∷ []

-- The listener hears of the connection, the first request is answered, the second fails with the
-- connection.
connect_attempt_run :
    (connect_attempt keeps (pos 10000) false none turns (started, net)).0.0.client.effects
    ≡ notified 7 KazooState.connected
      ∷ completed 1 (reply (text (some (codes "/a"))))
      ∷ completed 2 (exception (zookeeper_error connection_loss))
      ∷ notified 7 KazooState.suspended
      ∷ []
unfolding connect_attempt kazoo.Connection.Attempt.Rounds.rounds
    kazoo.Connection.Attempt.Rounds.handle kazoo.Connection.Attempt.◌>>=◌
    kazoo.Connection.Attempt.connect_session kazoo.Connection.Attempt.invoke_connect
    kazoo.Connection.Attempt.invoke_auths kazoo.Connection.Attempt.change
    kazoo.Connection.Attempt.writing kazoo.Connection.Sending.submit
    kazoo.Connection.Sending.send_head kazoo.Connection.Sending.send_request
    kazoo.Connection.Sending.send_ping kazoo.Connection.Wire.packet kazoo.Connection.Wire.write
    kazoo.Connection.Wire.read kazoo.Connection.Wire.read_frame kazoo.Connection.Wire.read_header
    kazoo.Connection.Receiving.read_socket kazoo.Connection.Receiving.read_packet
    kazoo.Connection.Receiving.read_response kazoo.Connection.Receiving.respond
    kazoo.Connection.Receiving.matched kazoo.Connection.Receiving.authenticate
    kazoo.Protocol.Requests.serialize kazoo.Protocol.Records.write_connect
    kazoo.Protocol.Records.read_connect kazoo.Protocol.Records.read_reply_header
    kazoo.Python.Struct.pack kazoo.Python.Struct.unpack_from kazoo.Client.Session.session_callback
    kazoo.Client.Session.transition kazoo.Client.Session.make_state_change
    kazoo.Client.Session.call_listeners kazoo.Client.Session.notify_pending
    kazoo.Client.Session.fail_pending kazoo.Client.Session.fail_queue
    kazoo.Client.Session.reset_watchers kazoo.Client.Session.dispatch_all
    kazoo.Protocol.Strings.write_buffer kazoo.Protocol.Strings.write_string
    kazoo.Protocol.Strings.read_string kazoo.Protocol.Strings.read_buffer kazoo.Python.Utf8.decode
    kazoo.Python.Utf8.encode kazoo.Python.Struct.be_bytes kazoo.Protocol.Reader.int_of
    kazoo.Python.Struct.from_be kazoo.Protocol.Reader.◌>>=◌ kazoo.Protocol.Reader.slice
    kazoo.Protocol.Reader.byte kazoo.Protocol.Replies.deserialize kazoo.Python.Utf8.encode_char
connect_attempt_run = refl

connect_attempt-unconnected_example :
    is_connected (state_of (connect_attempt keeps (pos 10000) false none turns (started, net)).0)
    ≡ false
unfolding connect_attempt kazoo.Connection.Attempt.Rounds.rounds
    kazoo.Connection.Attempt.Rounds.handle kazoo.Connection.Attempt.◌>>=◌
    kazoo.Connection.Attempt.connect_session kazoo.Connection.Attempt.invoke_connect
    kazoo.Connection.Attempt.invoke_auths kazoo.Connection.Attempt.change
    kazoo.Connection.Attempt.writing kazoo.Connection.Sending.submit
    kazoo.Connection.Sending.send_head kazoo.Connection.Sending.send_request
    kazoo.Connection.Sending.send_ping kazoo.Connection.Wire.packet kazoo.Connection.Wire.write
    kazoo.Connection.Wire.read kazoo.Connection.Wire.read_frame kazoo.Connection.Wire.read_header
    kazoo.Connection.Receiving.read_socket kazoo.Connection.Receiving.read_packet
    kazoo.Connection.Receiving.read_response kazoo.Connection.Receiving.respond
    kazoo.Connection.Receiving.matched kazoo.Connection.Receiving.authenticate
    kazoo.Protocol.Requests.serialize kazoo.Protocol.Records.write_connect
    kazoo.Protocol.Records.read_connect kazoo.Protocol.Records.read_reply_header
    kazoo.Python.Struct.pack kazoo.Python.Struct.unpack_from kazoo.Client.Session.session_callback
    kazoo.Client.Session.transition kazoo.Client.Session.make_state_change
    kazoo.Client.Session.call_listeners kazoo.Client.Session.notify_pending
    kazoo.Client.Session.fail_pending kazoo.Client.Session.fail_queue
    kazoo.Client.Session.reset_watchers kazoo.Client.Session.dispatch_all
    kazoo.Protocol.Strings.write_buffer kazoo.Protocol.Strings.write_string
    kazoo.Protocol.Strings.read_string kazoo.Protocol.Strings.read_buffer kazoo.Python.Utf8.decode
    kazoo.Python.Utf8.encode kazoo.Python.Struct.be_bytes kazoo.Protocol.Reader.int_of
    kazoo.Python.Struct.from_be kazoo.Protocol.Reader.◌>>=◌ kazoo.Protocol.Reader.slice
    kazoo.Protocol.Reader.byte kazoo.Protocol.Replies.deserialize kazoo.Python.Utf8.encode_char
connect_attempt-unconnected_example =
    connect_attempt-unconnected keeps (pos 10000) false none turns (started, net) tt
