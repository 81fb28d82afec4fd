-- ===== src/Tests.antt =====
-- Runs of the definitions on concrete inputs, and the inputs at which the theorems are applied.
mod Names
mod Operations
mod Packets
mod Addresses
mod Attempts
mod Sessions
mod Traces
mod Waits
mod Servers
mod Recipes
mod Watches
mod Trees
mod Caches
mod Wires
use kazoo.Base.{[], none, true, false}
use kazoo.Base.Int.{pos}
use kazoo.States.{KazooState, KeeperState, lost}
use kazoo.Client.{Client}
use kazoo.Client.Session.{no_passwd}
use kazoo.Connection.{Connection}

-- A client that was just made.
abbrev pub new_client : Client
new_client = record {
  state = KeeperState.closed;
  kazoo_state = lost;
  live = false;
  stopped = true;
  queue = [];
  pending = [];
  data_watchers = [];
  child_watchers = [];
  listeners = [];
  session_id = none;
  session_passwd = no_passwd;
  last_zxid = pos 0;
  protocol_version = none;
  chroot = [];
  auth_data = [];
  write_sock = none;
  wakes = 0;
  next_async = 0;
  effects = [];
}

abbrev pub connection_of : Client → Connection
connection_of c = record { client = c; xid = 0; ping_outstanding = false; sent = [] }
