-- ===== src/Connection/Watching/Once.antt =====
-- Which watchers an event triggers, and which are left.
use kazoo.Base.{
  ℕ, List, [], ◌++◌, ◌≡◌, refl, ap, sym, append-nil, none, some, Bool, true, false, ◌&&◌, ◌||◌, ok,
  list_eq, if◌then◌else◌,
}
use kazoo.States.{EventType, WatchedEvent, event_type}
use kazoo.Paths.{unchroot}
use kazoo.Protocol.Records.{Watch, read_watch}
use kazoo.Client.{Client}
use kazoo.Client.Watchers.{watching, watching-without}
use kazoo.Client.Operations.{unchroot_text}
use kazoo.Client.Session.{dispatch_all}
use kazoo.Connection.{Connection, Step}
use kazoo.Connection.Watching.{triggered, watched, read_watch_event}

-- The events that concern a node's data, and those that concern its children.
abbrev pub on_data : EventType → Bool
on_data EventType.created = true
on_data EventType.changed = true
on_data EventType.deleted = true
on_data _ = false

abbrev pub on_child : EventType → Bool
on_child EventType.deleted = true
on_child EventType.child = true
on_child _ = false

-- The watchers of a path that hear of an event.
pub hearing : EventType → List ℕ → Client → List ℕ
hearing type path c =
    (if on_data type then watching path c.data_watchers else [])
    ++ (if on_child type then watching path c.child_watchers else [])

pub event_of : EventType → List ℕ → Client → WatchedEvent
event_of type path c = record { type = type; state = c.state; path = some (unchroot c.chroot path) }

-- A client after an event: what was dispatched, and the watchers that are left.
pub record IsTriggered (type : EventType) (path : List ℕ) (c : Client) (s : Step) : Type 0 where
  pub returns : s.1 ≡ none
  pub dispatches :
      s.0.client.effects ≡ c.effects ++ dispatch_all (event_of type path c) (hearing type path c)
  pub left_data :
      (q : List ℕ)
      → watching q s.0.client.data_watchers
        ≡ (if on_data type && list_eq path q then [] else watching q c.data_watchers)
  pub left_child :
      (q : List ℕ)
      → watching q s.0.client.child_watchers
        ≡ (if on_child type && list_eq path q then [] else watching q c.child_watchers)

data_only :
    (type : EventType) (path : List ℕ) (c : Client)
    → c.effects ++ dispatch_all (event_of type path c) (watching path c.data_watchers)
      ≡ c.effects ++ dispatch_all (event_of type path c) (watching path c.data_watchers ++ [])
data_only type path c =
    ap (λ l. c.effects ++ dispatch_all (event_of type path c) l)
      (sym (append-nil (watching path c.data_watchers)))

watched_lem :
    (type : EventType) (path : List ℕ) (n : Connection)
    → on_data type || on_child type ≡ true
    → n.client.stopped ≡ false
    → IsTriggered type path n.client
        (watched (some path) (triggered (some type) (some path) n.client) n)
unfolding hearing event_of unchroot_text
watched_lem EventType.created path n k h = rw h (record {
  returns = refl;
  dispatches = data_only EventType.created path n.client;
  left_data = λ q. watching-without path q n.client.data_watchers;
  left_child = λ q. refl;
})
watched_lem EventType.changed path n k h = rw h (record {
  returns = refl;
  dispatches = data_only EventType.changed path n.client;
  left_data = λ q. watching-without path q n.client.data_watchers;
  left_child = λ q. refl;
})
watched_lem EventType.deleted path n k h = rw h (record {
  returns = refl;
  dispatches = refl;
  left_data = λ q. watching-without path q n.client.data_watchers;
  left_child = λ q. watching-without path q n.client.child_watchers;
})
watched_lem EventType.child path n k h = rw h (record {
  returns = refl;
  dispatches = refl;
  left_data = λ q. refl;
  left_child = λ q. watching-without path q n.client.child_watchers;
})
watched_lem EventType.nothing path n k h = cc

-- A watch event is delivered once: unless the client is stopped, an event of a known type is
-- dispatched, without the chroot, to the watchers of its path and kind and to no others, and these
-- watchers are gone afterwards while all others stay.
pub read_watch_event-IsTriggered :
    (buffer : List ℕ) (offset : ℕ) (w : Watch × ℕ) (type : EventType) (path : List ℕ)
    (n : Connection)
    → read_watch buffer offset ≡ ok w
    → event_type w.0.type ≡ some type
    → w.0.path ≡ some path
    → on_data type || on_child type ≡ true
    → n.client.stopped ≡ false
    → IsTriggered type path n.client (read_watch_event buffer offset n)
unfolding read_watch_event
read_watch_event-IsTriggered buffer offset w type path n hr ht hp k h =
    rw (hr, ht, hp) (watched_lem type path n k h)
