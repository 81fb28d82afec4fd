-- ===== src/Connection/Attempt/Rounds.antt =====
-- The loop of `_connect_attempt` of kazoo/protocol/connection.py, and how an attempt ends.
use kazoo.Base.{
  ℕ, List, [], ◌∷◌, Option, none, some, Bool, true, false, Exn, zookeeper_error, connection_dropped,
  connection_closed, timeout_error, Result, ok, err, if◌then◌else◌,
}
use kazoo.Base.Int.{ℤ}
use kazoo.Exceptions.{auth_failed_error, session_expired_error, session_closed_require_sasl_error}
use kazoo.States.{KazooState, KeeperState, keeper_eq}
use kazoo.Client.Session.{session_callback}
use kazoo.Connection.{Connection, on_client}
use kazoo.Connection.Wire.{Arrival}
use kazoo.Connection.Sending.{send_request, send_ping}
use kazoo.Connection.Receiving.{Reading, read_socket}
use kazoo.Connection.Attempt.{State, Action, pure, raise, ◌>>=◌, change, writing, connect_session}

-- What a `select` of the loop finds, and whether the deadline for a ping is over: nothing, or whether
-- the socket and the pipe are readable.
pub data Round : Type 0 where
  idle : Bool → Round
  active : Bool → Bool → Bool → Round

-- How an attempt ends: STOP_CONNECTING, None, or not within the rounds.
pub data Ended : Type 0 where
  stop_connecting connect_again running : Ended

-- The `except` clauses, by what they do.
pub data Handler : Type 0 where
  reconnects fails_auth expires : Handler

-- ConnectionClosedError is a SessionExpiredError.
abbrev pub handler_of : Exn → Option Handler
handler_of connection_dropped = some reconnects
handler_of timeout_error = some reconnects
handler_of (zookeeper_error auth_failed_error) = some fails_auth
handler_of (zookeeper_error session_closed_require_sasl_error) = some fails_auth
handler_of (zookeeper_error session_expired_error) = some expires
handler_of connection_closed = some expires
handler_of e = none

abbrev pub read_outcome : Reading × List Arrival → State → State × Result Bool
read_outcome ((n, r), later) (_, net) = ((n, record net { arrivals = later }), r)

abbrev ping_if : Bool → Action Bool
ping_if due = if due then writing send_ping else pure true

abbrev outstanding : State → Bool
outstanding (n, net) = n.ping_outstanding

-- An outstanding ping at an idle round ends the connection.
abbrev idle_round : Bool → Action Bool
idle_round due s =
    if outstanding s
    then (change (λ n. record n { ping_outstanding = false }) >>= λ _. raise connection_dropped) s
    else ping_if due s

-- In `zk_loop` the loops over hosts and retries are one sequence of attempts. It ends behind the
-- last attempt, at STOP_CONNECTING, or at an exception that no attempt handles.
abbrev pub Attempt : Type 0
Attempt = State → State × Result Ended

abbrev pub next : State × Result Ended → Attempt → State × Result Ended
next (s, ok connect_again) later = later s
next (s, ok stop_connecting) later = (s, ok stop_connecting)
next (s, ok running) later = (s, ok running)
next (s, err e) later = (s, err e)

unfoldable pub run_attempts : List Attempt → State → State × Result Ended
run_attempts [] s = (s, ok connect_again)
run_attempts (a ∷ as') s = let later : Attempt = λ s'. run_attempts as' s' in next (a s) later

module _ (wants_removal : ℕ → KazooState → Bool) where
  abbrev read_one : Action Bool
  read_one (n, net) = read_outcome (read_socket wants_removal net.arrivals n) (n, net)

  abbrev read_if : Bool → Action Bool
  read_if readable = if readable then read_one else pure false

  -- A request that is sent takes the place of a ping.
  abbrev after_read : Bool → Bool → Bool → Action Bool → Action Bool
  after_read true woken due rest = pure true
  after_read false woken due rest =
      (if woken then writing send_request else ping_if due) >>= λ _. rest

  -- True where the response of a `Close` was read.
  unfoldable pub rounds : List Round → Action Bool
  unfolding ◌>>=◌ change writing send_ping send_request read_socket
  rounds [] = pure false
  rounds (idle due ∷ rs) = let rest = rounds rs in do _ ← idle_round due; rest
  rounds (active readable woken due ∷ rs) =
      let rest = rounds rs in do closing ← read_if readable; after_read closing woken due rest

  abbrev pub callback : KeeperState → State → State
  callback state (n, net) = (on_client (session_callback wants_removal state) n, net)

  abbrev pub client_state : State → KeeperState
  client_state (n, net) = n.client.state

  abbrev pub callback_unless : KeeperState → State → State
  callback_unless state s = if keeper_eq (client_state s) state then s else callback state s

  -- What the clauses do.
  abbrev pub handle_by : Option Handler → Exn → State → State × Result Ended
  handle_by (some reconnects) e s = (callback_unless KeeperState.connecting s, ok connect_again)
  handle_by (some fails_auth) e s = (callback KeeperState.auth_failed s, ok stop_connecting)
  handle_by (some expires) e s = (callback KeeperState.expired_session s, ok connect_again)
  handle_by none e s = (s, err e)

  unfoldable pub handle : Exn → State → State × Result Ended
  handle e s = handle_by (handler_of e) e s

  abbrev pub finish : State × Result Bool → State × Result Ended
  finish (s, ok true) = (callback KeeperState.closed s, ok stop_connecting)
  finish (s, ok false) = (s, ok running)
  finish (s, err e) = handle e s

  abbrev pub begin : State → State
  begin (n, net) = (record n { xid = 0 }, net)

  abbrev pub start_loop : Connection → Connection
  start_loop n = record n { ping_outstanding = false }

  unfoldable pub connect_attempt : ℤ → Bool → Option Exn → List Round → State → State × Result Ended
  connect_attempt session_timeout read_only opened rs s = finish (
      (connect_session wants_removal session_timeout read_only opened >>= λ _.
      change start_loop >>= λ _. rounds rs)
        (begin (callback_unless KeeperState.connecting s)))

  -- The connection is closed at the end of `zk_loop`.
  abbrev pub close_unless_running : State × Result Ended → State × Result Ended
  close_unless_running (s, ok running) = (s, ok running)
  close_unless_running (s, ok e) = (callback KeeperState.closed s, ok e)
  close_unless_running (s, err e) = (callback KeeperState.closed s, err e)

  unfoldable pub zk_loop : List Attempt → State → State × Result Ended
  zk_loop as' s = close_unless_running (run_attempts as' s)
