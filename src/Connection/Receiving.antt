-- ===== src/Connection/Receiving.antt =====
-- `_read_response` and `_read_socket` of kazoo/protocol/connection.py.
pub mod Answers
pub mod InOrder
use kazoo.Base.{
  ℕ, List, [], ◌∷◌, ◌++◌, map, Option, none, some, Bool, true, false, not, ◌&&◌, Exn,
  zookeeper_error, runtime_error, index_error, attribute_error, Result, ok, err, if◌then◌else◌,
}
use kazoo.Base.Int.{ℤ, pos, int_eq, truthy, is_pos}
use kazoo.Exceptions.{ZookeeperError, auth_failed_error, no_node_error}
use kazoo.Exceptions.Codes.{exceptions, code}
use kazoo.States.{KazooState, KeeperState}
use kazoo.Paths.{unchroot}
use kazoo.Protocol.Records.{ReplyHeader}
use kazoo.Protocol.Requests.{Request, close, ping, exists, get_data, get_children, get_children2}
use kazoo.Protocol.Multi.{TxResponse, text}
use kazoo.Protocol.Replies.{Reply, results, deserialize}
use kazoo.Client.{Client, Outcome, reply, no_value, true_value, exception, emit}
use kazoo.Client.Watchers.{watch}
use kazoo.Client.Session.{session_callback}
use kazoo.Connection.{Connection, Step, watch_xid, ping_xid, auth_xid, on_client, set_if}
use kazoo.Connection.Watching.{read_watch_event}
use kazoo.Connection.Wire.{Arrival, read_header}

-- The connection afterwards, and an exception or whether the response of a `Close` was read.
abbrev pub Reading : Type 0
Reading = Connection × Result Bool

-- The named tuples without fields are falsy.
abbrev pub is_truthy_request : Request → Bool
is_truthy_request close = false
is_truthy_request ping = false
is_truthy_request _ = true

abbrev pub is_close : Request → Bool
is_close close = true
is_close _ = false

abbrev pub is_exists : Request → Bool
is_exists (exists _ _) = true
is_exists _ = false

-- `Transaction.unchroot`
abbrev pub unchroot_response : List ℕ → TxResponse → TxResponse
unchroot_response chroot (text (some path)) = text (some (unchroot chroot path))
unchroot_response chroot r = r

abbrev pub shown : List ℕ → Reply → Reply
shown chroot (results rs) = results (map (unchroot_response chroot) rs)
shown chroot r = r

-- The watcher of a request and its path, which is never None, and whether it is on the children.
abbrev pub registration : Request → Option (Bool × List ℕ × ℕ)
registration (get_children (some path) (some w)) = some (true, path, w)
registration (get_children2 (some path) (some w)) = some (true, path, w)
registration (exists (some path) (some w)) = some (false, path, w)
registration (get_data (some path) (some w)) = some (false, path, w)
registration _ = none

abbrev pub keep : Option (Bool × List ℕ × ℕ) → Client → Client
keep none c = c
keep (some (true, path, w)) c = record c { child_watchers = watch path w c.child_watchers }
keep (some (false, path, w)) c = record c { data_watchers = watch path w c.data_watchers }

abbrev pub registered : Request → Connection → Connection
registered r n = if n.client.stopped then n else on_client (keep (registration r)) n

-- A response of the server, by how it deserializes.
abbrev pub answered : Request → ℕ → Result Reply → Connection → Connection
answered r a (err e) n = set_if (some a) (exception e) n
answered r a (ok x) n = registered r (set_if (some a) (reply (shown n.client.chroot x)) n)

-- An error of the server, by its class; `EXCEPTIONS` raises where there is none.
abbrev pub refused : Request → Option ℕ → Result ZookeeperError → Connection → Reading
refused r a (err e) n = (n, err e)
refused r a (ok e) n = (set_if a (exception (zookeeper_error e)) n, ok (is_close r))

abbrev pub accepted : Bool → Request → Option ℕ → Result Reply → Connection → Connection
accepted is_missing r none x n = n
accepted is_missing r (some a) x n =
    if is_truthy_request r
    then (if is_missing then registered r (set_if (some a) no_value n) else answered r a x n)
    else n

abbrev pub is_missing : ReplyHeader → Request → Bool
is_missing header r = int_eq header.err (code no_node_error) && is_exists r

-- A response to the request that is first in the line.
unfoldable pub matched : ReplyHeader → Result Reply → Request → Option ℕ → Connection → Reading
matched header x r a n =
    if truthy header.err && not (is_missing header r)
    then refused r a (exceptions header.err) n
    else (accepted (is_missing header r) r a x n, ok (is_close r))

abbrev pub mismatched : Option ℕ → Connection → Reading
mismatched none n = (n, err attribute_error)
mismatched (some a) n = (set_if (some a) (exception runtime_error) n, err runtime_error)

abbrev pub taken : ReplyHeader → List (Request × Option ℕ × ℤ) → Connection → Connection
taken header rest n =
    on_client
      (λ c. record c {
        pending = rest;
        last_zxid = if is_pos header.zxid then header.zxid else c.last_zxid;
      })
      n

-- The last argument but one is the line of pending requests.
unfoldable pub respond :
    ReplyHeader → List ℕ → ℕ → List (Request × Option ℕ × ℤ) → Connection → Reading
unfolding matched deserialize
respond header buffer offset [] n = (n, err index_error)
respond header buffer offset ((r, a, xid) ∷ rest) n =
    if int_eq header.xid xid
    then matched header (deserialize r buffer offset) r a (taken header rest n)
    else mismatched a (taken header rest n)

unfoldable pub read_response : ReplyHeader → List ℕ → ℕ → Connection → Reading
unfolding respond
read_response header buffer offset n = respond header buffer offset n.client.pending n

-- A step that returns None.
abbrev pub returned : Step → Reading
returned (n, none) = (n, ok false)
returned (n, some e) = (n, err e)

module _ (wants_removal : ℕ → KazooState → Bool) where
  -- The response to an `Auth`; the argument is the line of pending requests.
  unfoldable pub authenticate : ReplyHeader → List (Request × Option ℕ × ℤ) → Connection → Reading
  authenticate header [] n = (n, err index_error)
  authenticate header ((r, none, xid) ∷ rest) n =
      (on_client (λ c. record c { pending = rest }) n, err attribute_error)
  authenticate header ((r, some a, xid) ∷ rest) n =
      let n' = on_client (λ c. record c { pending = rest }) n in
      if truthy header.err
      then (
        on_client (session_callback wants_removal KeeperState.auth_failed)
            (set_if (some a) (exception (zookeeper_error auth_failed_error)) n'),
        ok false,
      )
      else (set_if (some a) true_value n', ok false)

  unfoldable pub read_packet : ReplyHeader → List ℕ → ℕ → Connection → Reading
  unfolding authenticate read_response read_watch_event
  read_packet header buffer offset n =
      if int_eq header.xid ping_xid
      then (record n { ping_outstanding = false }, ok false)
      else if int_eq header.xid auth_xid
      then authenticate header n.client.pending n
      else if int_eq header.xid watch_xid
      then returned (read_watch_event buffer offset n)
      else read_response header buffer offset n

  -- What arrives later is left in the socket.
  abbrev dispatched_to :
      Result (ReplyHeader × List ℕ × ℕ × List Arrival) → Connection → Reading × List Arrival
  dispatched_to (err e) n = ((n, err e), [])
  dispatched_to (ok (header, buffer, offset, later)) n = (read_packet header buffer offset n, later)

  unfoldable pub read_socket : List Arrival → Connection → Reading × List Arrival
  unfolding read_packet read_header
  read_socket as' n = dispatched_to (read_header as') n
