-- ===== src/Client/Calls.antt =====
-- How a request gets into the queue: `_call` and `stop` of kazoo/client.py.
pub mod Accounts
use kazoo.Base.{
  ℕ, ◌+◌, List, [], ◌∷◌, ◌++◌, Option, none, some, Bool, true, false, Exn, zookeeper_error,
  connection_closed, Result, ok, ◌>>=◌, if◌then◌else◌,
}
use kazoo.Exceptions.{auth_failed_error, session_expired_error}
use kazoo.States.{KeeperState}
use kazoo.Protocol.Requests.{Request, close}
use kazoo.Client.{Client, Effect, completed, exception, request, emit}

-- The exception with which a state refuses a request.
abbrev pub refusal : KeeperState → Option Exn
refusal KeeperState.auth_failed = some (zookeeper_error auth_failed_error)
refusal KeeperState.closed = some connection_closed
refusal KeeperState.expired_session = some (zookeeper_error session_expired_error)
refusal _ = none

-- `write_sock.send(b"\0")`: what it sets, and how many bytes it adds.
abbrev pub woken : Option Bool → ℕ → List Effect
woken (some true) a = []
woken _ a = completed a (exception connection_closed) ∷ []

abbrev pub bytes_sent : Option Bool → ℕ
bytes_sent (some true) = 1
bytes_sent _ = 0

abbrev call_unless : Option Exn → Request → ℕ → Client → Client × Bool
call_unless (some e) r a c = (emit c (completed a (exception e) ∷ []), false)
call_unless none r a c = (
  emit
      (record c {
        queue = c.queue ++ (request r, some a) ∷ [];
        wakes = c.wakes + bytes_sent c.write_sock;
      })
      (woken c.write_sock a),
  true,
)

-- False where the call was refused.
unfoldable pub call : Request → ℕ → Client → Client × Bool
call r a c = call_unless (refusal c.state) r a c

-- An operation makes an async object, then its request, which may fail, and calls.
unfoldable pub issue : Result Request → Client → Result (ℕ × Client)
unfolding call
issue made c = made >>= λ r.
    ok (c.next_async, (call r c.next_async (record c { next_async = c.next_async + 1 })).0)

-- `stop` up to the wait for the connection: `Close` has no async object.
unfoldable pub stop : Client → Client
stop c = if c.stopped then c else record c {
  stopped = true;
  queue = c.queue ++ (request close, none) ∷ [];
  wakes = c.wakes + bytes_sent c.write_sock;
}
