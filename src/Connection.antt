-- ===== src/Connection.antt =====
-- The state of `ConnectionHandler` (kazoo/protocol/connection.py), and what its methods share.
pub mod Wire
pub mod Sending
pub mod Watching
pub mod Receiving
pub mod Attempt
pub mod Steps
use kazoo.Base.{ℕ, List, [], ◌∷◌, ◌++◌, Option, none, some, Bool, Exn, attribute_error}
use kazoo.Base.Int.{ℤ, negsuc}
use kazoo.Client.{Client, Effect, Outcome, completed, emit}

-- `xid` is the counter; `sent` holds the messages that were written whole.
pub record Connection : Type 0 where
  pub client : Client
  pub xid : ℕ
  pub ping_outstanding : Bool
  pub sent : List (List ℕ)

abbrev pub watch_xid : ℤ
watch_xid = negsuc 0

abbrev pub ping_xid : ℤ
ping_xid = negsuc 1

abbrev pub auth_xid : ℤ
auth_xid = negsuc 3

-- A method's state afterwards, and the exception that it raises.
abbrev pub Step : Type 0
Step = Connection × Option Exn

abbrev pub on_client : (Client → Client) → Connection → Connection
on_client f n = record n { client = f n.client }

-- `if async_object: async_object.set(...)`
abbrev pub set_if : Option ℕ → Outcome → Connection → Connection
set_if none o n = n
set_if (some a) o n = on_client (λ c. emit c (completed a o ∷ [])) n

-- `async_object.set(...)`, where the object may be None.
abbrev pub set_or_fail : Option ℕ → Outcome → Option Exn → Connection → Step
set_or_fail none o raised n = (n, some attribute_error)
set_or_fail (some a) o raised n = (set_if (some a) o n, raised)
