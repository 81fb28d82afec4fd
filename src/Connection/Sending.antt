-- ===== src/Connection/Sending.antt =====
-- `_send_request` and `_send_ping` of kazoo/protocol/connection.py.
pub mod Order
use kazoo.Base.{
  ℕ, zero, suc, ◌+◌, ◌-◌, ◌%◌, List, [], ◌∷◌, ◌++◌, Option, none, some, Bool, true, false, Exn,
  zookeeper_error, connection_dropped, Result, ok, err,
}
use kazoo.Base.Int.{ℤ, pos}
use kazoo.Exceptions.{session_expired_error}
use kazoo.Protocol.Requests.{
  Request, close, ping, connect, single, exists, get_data, get_children, get_children2, get_acl,
  sync, set_acl, transaction, reconfig, auth, sasl,
}
use kazoo.Client.{Client, Queued, request, session_expired_mark, connection_drop_mark}
use kazoo.Connection.{Connection, Step, auth_xid, ping_xid, on_client}
use kazoo.Connection.Wire.{Sending, packet, write}

abbrev pub is_auth : Request → Bool
is_auth (auth _ _ _) = true
is_auth _ = false

-- `(self._xid % 2147483647) + 1`
abbrev pub next_xid : ℕ → ℕ
next_xid x = x % 2147483647 + 1

-- The xid of a request, and the counter after it.
abbrev pub xid_of : Request → ℕ → ℤ × ℕ
xid_of (auth _ _ _) x = (auth_xid, x)
xid_of _ x = (pos (next_xid x), next_xid x)

-- The write of a message, which counts as sent where `_write` returns.
abbrev written : List ℕ × Result (List Sending) → Connection → Step
written (bs, ok ss) n = (record n { sent = n.sent ++ bs ∷ [] }, none)
written (bs, err e) n = (n, some e)

-- `_submit`
abbrev submit_bytes : Result (List ℕ) → List Sending → Connection → Step
submit_bytes (err e) ss n = (n, some e)
submit_bytes (ok bs) ss n = written (write bs ss) n

unfoldable pub submit : Request → Option ℤ → List Sending → Connection → Step
unfolding packet write
submit r xid ss n = submit_bytes (packet r xid) ss n

-- Behind `_submit`: the request leaves the queue, a byte is read from the pipe, which fails where
-- there is none, and the request is pending.
abbrev pub after_submit : Request → Option ℕ → ℤ → List (Queued × Option ℕ) → Step → Step
after_submit r a xid rest (n, some e) = (n, some e)
after_submit r a xid rest (n, none) = elim n.client.wakes [
  | zero ↦ (on_client (λ c. record c { queue = rest }) n, some connection_dropped)
  | suc k ↦ (
    on_client (λ c. record c { queue = rest; wakes = k; pending = c.pending ++ (r, a, xid) ∷ [] })
        n,
    none,
  )
]

-- The head of the queue is sent, if there is one; the last argument is the queue.
unfoldable pub send_head : List Sending → Connection → List (Queued × Option ℕ) → Step
unfolding submit
send_head ss n [] = (on_client (λ c. record c { wakes = c.wakes - 1 }) n, none)
send_head ss n ((session_expired_mark, a) ∷ rest) =
    (n, some (zookeeper_error session_expired_error))
send_head ss n ((connection_drop_mark, a) ∷ rest) = (n, some connection_dropped)
send_head ss n ((request r, a) ∷ rest) =
    let x = xid_of r n.xid in
    after_submit r a x.0 rest (submit r (some x.0) ss (record n { xid = x.1 }))

unfoldable pub send_request : List Sending → Connection → Step
unfolding send_head
send_request ss n = send_head ss n n.client.queue

-- `_send_ping` of a connection that is not read-only.
unfoldable pub send_ping : List Sending → Connection → Step
unfolding submit
send_ping ss n = submit ping (some ping_xid) ss (record n { ping_outstanding = true })
