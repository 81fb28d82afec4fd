-- ===== src/Client/Session.antt =====
-- `_session_callback` of kazoo/client.py and the methods that it calls.
pub mod Effects
pub mod Invariant
use kazoo.Base.{
  ℕ, List, [], ◌∷◌, ◌++◌, map, Option, none, some, Bool, true, false, not, ◌&&◌, ◌==◌, Exn,
  zookeeper_error, if◌then◌else◌,
}
use kazoo.Base.Int.{ℤ, pos}
use kazoo.Exceptions.{auth_failed_error, session_expired_error, connection_loss}
use kazoo.States.{
  KazooState, KeeperState, EventType, WatchedEvent, suspended, lost, is_closed, is_connected,
  keeper_eq, kazoo_eq,
}
use kazoo.Protocol.Strings.{Buffer}
use kazoo.Protocol.Requests.{Request}
use kazoo.Client.{Client, Queued, Effect, completed, notified, dispatched, exception, emit}
use kazoo.Client.Watchers.{all_watchers, set_add}

-- The exception that the requests get, by the new state.
abbrev pub drop_exception : KeeperState → Exn
drop_exception KeeperState.auth_failed = zookeeper_error auth_failed_error
drop_exception KeeperState.expired_session = zookeeper_error session_expired_error
drop_exception _ = zookeeper_error connection_loss

-- `if async_object: async_object.set_exception(exc)`
abbrev pub fail_async : Exn → Option ℕ → List Effect
fail_async exn none = []
fail_async exn (some a) = completed a (exception exn) ∷ []

-- The two loops that empty the queues.
unfoldable pub fail_pending : Exn → List (Request × Option ℕ × ℤ) → List Effect
fail_pending exn [] = []
fail_pending exn ((r, a, xid) ∷ rest) = fail_async exn a ++ fail_pending exn rest

unfoldable pub fail_queue : Exn → List (Queued × Option ℕ) → List Effect
fail_queue exn [] = []
fail_queue exn ((r, a) ∷ rest) = fail_async exn a ++ fail_queue exn rest

unfoldable pub notify_pending : KeeperState → Client → Client
unfolding fail_pending fail_queue
notify_pending state c =
    let exn = drop_exception state in
    record c {
      pending = [];
      queue = [];
      effects = c.effects ++ (fail_pending exn c.pending ++ fail_queue exn c.queue);
    }

unfoldable pub dispatch_all : WatchedEvent → List ℕ → List Effect
dispatch_all ev [] = []
dispatch_all ev (w ∷ ws) = dispatched w ev ∷ dispatch_all ev ws

unfoldable pub reset_watchers : Client → Client
unfolding dispatch_all all_watchers
reset_watchers c =
    let watchers = all_watchers c.child_watchers ++ all_watchers c.data_watchers in
    let ev : WatchedEvent = record { type = EventType.nothing; state = c.state; path = none } in
    record c {
      child_watchers = [];
      data_watchers = [];
      effects = c.effects ++ dispatch_all ev watchers;
    }

-- sixteen zero bytes
abbrev pub no_passwd : Buffer
no_passwd = some (0 ∷ 0 ∷ 0 ∷ 0 ∷ 0 ∷ 0 ∷ 0 ∷ 0 ∷ 0 ∷ 0 ∷ 0 ∷ 0 ∷ 0 ∷ 0 ∷ 0 ∷ 0 ∷ [])

unfoldable pub reset_session : Client → Client
reset_session c = record c { session_id = none; session_passwd = no_passwd }

unfoldable pub reset : Client → Client
unfolding reset_watchers reset_session
reset c =
    let c' = reset_session (reset_watchers (record c { queue = []; pending = [] })) in
    record c' { last_zxid = pos 0; protocol_version = none }

-- l.discard(x) on a set
unfoldable pub discard : ℕ → List ℕ → List ℕ
discard x [] = []
discard x (y ∷ ys) = let rest = discard x ys in if y == x then rest else y ∷ rest

remove_listener : ℕ → Client → Client
unfolding discard
remove_listener listener c = record c { listeners = discard listener c.listeners }

add_listener : ℕ → Client → Client
add_listener listener c = record c { listeners = set_add listener c.listeners }

-- Whether a listener returns True for a state; one that raises does not.
module _ (wants_removal : ℕ → KazooState → Bool) where
  -- The loop over a copy of the listeners.
  unfoldable pub call_listeners : KazooState → List ℕ → Client → Client
  unfolding remove_listener
  call_listeners state [] c = c
  call_listeners state (l ∷ ls) c =
      let called = emit c (notified l state ∷ []) in
      call_listeners state ls (if wants_removal l state then remove_listener l called else called)

  unfoldable pub make_state_change : KazooState → Client → Client
  make_state_change state c =
      if kazoo_eq c.kazoo_state state
      then c
      else call_listeners state c.listeners (record c { kazoo_state = state })

  -- The part of `_session_callback` behind the early returns.
  unfoldable pub transition : KeeperState → Client → Client
  transition state c =
      if is_connected state
      then make_state_change KazooState.connected (record c { live = true })
      else if is_closed state
      then reset (notify_pending state (make_state_change lost (record c { live = false })))
      else reset_watchers
          (make_state_change suspended (notify_pending state (record c { live = false })))

  unfoldable pub session_callback : KeeperState → Client → Client
  session_callback state c =
      let closed_state = is_closed c.state in
      let c' = record c { state = state } in
      if keeper_eq state c.state
      then c
      else if closed_state && keeper_eq state KeeperState.connecting
      then c'
      else transition state c'
