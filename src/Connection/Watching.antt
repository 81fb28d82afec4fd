-- ===== src/Connection/Watching.antt =====
-- `_read_watch_event` of kazoo/protocol/connection.py.
pub mod Once
use kazoo.Base.{ℕ, List, [], ◌∷◌, ◌++◌, Option, none, some, Exn, Result, ok, err, if◌then◌else◌}
use kazoo.States.{EventType, WatchedEvent, event_type}
use kazoo.Protocol.Strings.{Text}
use kazoo.Protocol.Records.{Watch, read_watch}
use kazoo.Client.{Client, emit}
use kazoo.Client.Watchers.{WatcherMap, watching, without}
use kazoo.Client.Operations.{unchroot_text}
use kazoo.Client.Session.{dispatch_all}
use kazoo.Connection.{Connection, Step, on_client}

-- `d.pop(path, [])`: no key is None.
abbrev pub pop_from : Text → WatcherMap → List ℕ
pop_from none d = []
pop_from (some p) d = watching p d

abbrev pub left_in : Text → WatcherMap → WatcherMap
left_in none d = d
left_in (some p) d = without p d

-- The watchers that an event triggers, taken out of the client; none for an unknown event.
abbrev pub popped : EventType → Text → Client → Option (List ℕ × Client)
popped EventType.created path c =
    some (pop_from path c.data_watchers, record c { data_watchers = left_in path c.data_watchers })
popped EventType.changed path c =
    some (pop_from path c.data_watchers, record c { data_watchers = left_in path c.data_watchers })
popped EventType.deleted path c = some (
  pop_from path c.data_watchers ++ pop_from path c.child_watchers,
  record c {
    data_watchers = left_in path c.data_watchers;
    child_watchers = left_in path c.child_watchers;
  },
)
popped EventType.child path c =
    some
      (pop_from path c.child_watchers, record c { child_watchers = left_in path c.child_watchers })
popped EventType.nothing path c = none

abbrev pub triggered : Option EventType → Text → Client → Option (EventType × List ℕ × Client)
triggered none path c = none
triggered (some type) path c = elim (popped type path c) [
  | none ↦ none
  | some p ↦ some (type, p.0, p.1)
]

-- Behind the pop: the path without the chroot, and the dispatch, unless the client is stopped.
abbrev pub deliver : Result Text → EventType → List ℕ → Connection → Step
deliver (err e) type watchers n = (n, some e)
deliver (ok path) type watchers n =
    let ev : WatchedEvent = record { type = type; state = n.client.state; path = path } in
    ((if n.client.stopped then n else on_client (λ c. emit c (dispatch_all ev watchers)) n), none)

abbrev pub watched : Text → Option (EventType × List ℕ × Client) → Connection → Step
watched path none n = (n, none)
watched path (some (type, watchers, c)) n =
    deliver (unchroot_text c.chroot path) type watchers (record n { client = c })

abbrev pub watch_event : Result (Watch × ℕ) → Connection → Step
watch_event (err e) n = (n, some e)
watch_event (ok (w, _)) n = watched w.path (triggered (event_type w.type) w.path n.client) n

unfoldable pub read_watch_event : List ℕ → ℕ → Connection → Step
unfolding read_watch dispatch_all unchroot_text
read_watch_event buffer offset n = watch_event (read_watch buffer offset) n
