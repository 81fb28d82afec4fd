-- ===== src/Client.antt =====
-- The state of `KazooClient` (kazoo/client.py) and what its methods make happen outside of it.
pub mod Watchers
pub mod Session
pub mod Calls
pub mod Operations
pub mod Transactions
pub mod Making
use kazoo.Base.{ℕ, ◌+◌, List, [], ◌∷◌, ◌++◌, Option, none, some, Bool, true, false, Exn}
use kazoo.Base.Int.{ℤ, pos}
use kazoo.States.{KazooState, KeeperState, WatchedEvent}
use kazoo.Protocol.Strings.{Buffer}
use kazoo.Protocol.Requests.{Request}
use kazoo.Protocol.Replies.{Reply}
use kazoo.Client.Watchers.{WatcherMap}

-- What stands in the queue: a request, or one of the two marks by which tests force an error.
pub data Queued : Type 0 where
  request : Request → Queued
  session_expired_mark connection_drop_mark : Queued

-- What an async object is set to; `set(None)` and `set(True)` have no reply of their own.
pub data Outcome : Type 0 where
  reply : Reply → Outcome
  no_value true_value : Outcome
  exception : Exn → Outcome

-- In the order in which they happen: async objects set, listeners called, watchers dispatched.
pub data Effect : Type 0 where
  completed : ℕ → Outcome → Effect
  notified : ℕ → KazooState → Effect
  dispatched : ℕ → WatchedEvent → Effect

-- Async objects, listeners and watchers are known by numbers. `write_sock` is None, or a socket
-- with whether a `send` on it succeeds. `wakes` counts the bytes in it that were not read yet.
pub record Client : Type 0 where
  pub state : KeeperState
  pub kazoo_state : KazooState
  pub live : Bool
  pub stopped : Bool
  pub queue : List (Queued × Option ℕ)
  pub pending : List (Request × Option ℕ × ℤ)
  pub data_watchers : WatcherMap
  pub child_watchers : WatcherMap
  pub listeners : List ℕ
  pub session_id : Option ℤ
  pub session_passwd : Buffer
  pub last_zxid : ℤ
  pub protocol_version : Option ℤ
  pub chroot : List ℕ
  pub auth_data : List (List ℕ × List ℕ)
  pub write_sock : Option Bool
  pub wakes : ℕ
  pub next_async : ℕ
  pub effects : List Effect

abbrev pub emit : Client → List Effect → Client
emit c es = record c { effects = c.effects ++ es }
