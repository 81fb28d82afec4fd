-- ===== src/Connection/Attempt.antt =====
-- `_connect` and `_connect_attempt` of kazoo/protocol/connection.py, and the loop of a connection.
pub mod Rounds
pub mod Ends
use kazoo.Base.{
  ℕ, List, [], ◌∷◌, Option, none, some, Bool, true, false, not, Exn, zookeeper_error, runtime_error,
  connection_dropped, connection_closed, timeout_error, Result, ok, err, if◌then◌else◌,
}
use kazoo.Base.Int.{ℤ, pos, int_eq, truthy, is_pos}
use kazoo.Exceptions.{auth_failed_error, session_expired_error, session_closed_require_sasl_error}
use kazoo.Exceptions.Codes.{exceptions}
use kazoo.States.{KazooState, KeeperState, keeper_eq}
use kazoo.Protocol.Strings.{Buffer}
use kazoo.Protocol.Records.{Connect, ReplyHeader, read_connect}
use kazoo.Protocol.Requests.{Request, connect, auth}
use kazoo.Client.{Client}
use kazoo.Client.Session.{session_callback}
use kazoo.Connection.{Connection, Step, auth_xid, on_client}
use kazoo.Connection.Wire.{Arrival, Sending, read_frame, read_header}
use kazoo.Connection.Sending.{submit, send_request, send_ping}
use kazoo.Connection.Receiving.{read_socket}

-- What the network does: for each message what its writes meet, and what arrives.
pub record Net : Type 0 where
  pub sendings : List (List Sending)
  pub arrivals : List Arrival

abbrev pub State : Type 0
State = Connection × Net

abbrev pub Action {ℓ} : Type ℓ → Type ℓ
Action A = State → State × Result A

module _ {ℓ} {A : Type ℓ} where
  unfoldable pub pure : A → Action A
  pure a s = (s, ok a)

  unfoldable pub raise : Exn → Action A
  raise e s = (s, err e)

module _ {ℓ κ} {A : Type ℓ} {B : Type κ} where
  abbrev pub then_do : State × Result A → (A → Action B) → State × Result B
  then_do (s, ok a) f = f a s
  then_do (s, err e) f = (s, err e)

  infixl 5 ◌>>=◌
  unfoldable pub ◌>>=◌ : Action A → (A → Action B) → Action B
  unfolding pure raise
  ◌>>=◌ m f s = then_do (m s) f

abbrev pub client_of : Action Client
client_of (n, net) = ((n, net), ok n.client)

unfoldable pub change : (Connection → Connection) → Action Bool
change f (n, net) = ((f n, net), ok true)

-- The writes of the next message.
abbrev pub first_of : List (List Sending) → List Sending
first_of [] = []
first_of (ss ∷ rest) = ss

abbrev pub rest_of : List (List Sending) → List (List Sending)
rest_of [] = []
rest_of (ss ∷ rest) = rest

abbrev pub stepped : Step → Net → State × Result Bool
stepped (n, none) net = ((n, net), ok true)
stepped (n, some e) net = ((n, net), err e)

-- A method that writes one message.
unfoldable pub writing : (List Sending → Connection → Step) → Action Bool
writing f (n, net) =
    stepped (f (first_of net.sendings) n) (record net { sendings = rest_of net.sendings })

-- What is left to arrive behind a read that fails is not used.
module _ {ℓ} {A : Type ℓ} where
  abbrev pub arrived_as : Result (A × List Arrival) → State → State × Result A
  arrived_as (ok (a, later)) (n, net) = ((n, record net { arrivals = later }), ok a)
  arrived_as (err e) (n, net) = ((n, record net { arrivals = [] }), err e)

receive_frame : Action (List ℕ)
unfolding read_frame
receive_frame (n, net) = arrived_as (read_frame net.arrivals) (n, net)

abbrev header_only :
    Result (ReplyHeader × List ℕ × ℕ × List Arrival) → Result (ReplyHeader × List Arrival)
header_only (ok (h, buffer, offset, later)) = ok (h, later)
header_only (err e) = err e

receive_header : Action ReplyHeader
unfolding read_header
receive_header (n, net) = arrived_as (header_only (read_header net.arrivals)) (n, net)

abbrev valid_answer : Result (Connect × ℕ) → Action Connect
valid_answer (ok (c, _)) = pure c
valid_answer (err e) = raise connection_dropped

-- `_invoke` of a `Connect`
unfoldable pub invoke_connect : Connect → Action Connect
unfolding ◌>>=◌ writing submit receive_frame read_connect
invoke_connect c = do
  _ ← writing (submit (connect c) none)
  msg ← receive_frame
  valid_answer (read_connect msg 0)

abbrev raise_error : Result Exn → Action Bool
raise_error (ok e) = raise e
raise_error (err e) = raise e

abbrev error_class : ℤ → Result Exn
error_class code = elim (exceptions code) [ ok e ↦ ok (zookeeper_error e) | err x ↦ err x ]

abbrev seen_zxid : ℤ → Connection → Connection
seen_zxid z n = on_client (λ c. record c { last_zxid = if is_pos z then z else c.last_zxid }) n

abbrev check_auth : ReplyHeader → Action Bool
check_auth h =
    if not (int_eq h.xid auth_xid)
    then raise runtime_error
    else if truthy h.err
    then raise_error (error_class h.err)
    else change (seen_zxid h.zxid)

-- `_invoke` of an `Auth`, and what `_connect` does with its zxid
unfoldable pub invoke_auth : List ℕ × List ℕ → Action Bool
unfolding ◌>>=◌ writing submit receive_header change
invoke_auth (scheme, credential) = do
  _ ← writing (submit (auth (pos 0) (some scheme) (some credential)) (some auth_xid))
  h ← receive_header
  check_auth h

unfoldable pub invoke_auths : List (List ℕ × List ℕ) → Action Bool
unfolding invoke_auth
invoke_auths [] = pure true
invoke_auths (a ∷ as') = do _ ← invoke_auth a; invoke_auths as'

abbrev int_or_zero : Option ℤ → ℤ
int_or_zero none = pos 0
int_or_zero (some z) = z

module _ (wants_removal : ℕ → KazooState → Bool) (session_timeout : ℤ) (read_only : Bool) where
  abbrev connect_request : Client → Connect
  connect_request c = record {
    protocol_version = pos 0;
    last_zxid_seen = c.last_zxid;
    time_out = session_timeout;
    session_id = int_or_zero c.session_id;
    passwd = c.session_passwd;
    read_only = read_only;
  }

  abbrev load : Connect → Connection → Connection
  load r n =
      on_client
        (λ c. record c {
          session_id = some r.session_id;
          protocol_version = some r.protocol_version;
          session_passwd = r.passwd;
        })
        n

  abbrev connected_state : Bool → KeeperState
  connected_state ro = if ro then KeeperState.connected_ro else KeeperState.connected

  -- Behind the answer of the server, which may have ended the session.
  abbrev welcome : Connect → Action Bool
  welcome r =
      if is_pos r.time_out
      then change
          (λ n. on_client (session_callback wants_removal (connected_state r.read_only)) (load r n))
      else raise (zookeeper_error session_expired_error)

  -- `_connect` without SASL; the argument is how the socket was opened.
  unfoldable pub connect_session : Option Exn → Action Bool
  unfolding invoke_connect invoke_auths change
  connect_session (some e) = raise e
  connect_session none = do
    c ← client_of
    r ← invoke_connect (connect_request c)
    _ ← welcome r
    c' ← client_of
    invoke_auths c'.auth_data
