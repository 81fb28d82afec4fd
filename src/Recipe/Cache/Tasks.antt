-- ===== src/Recipe/Cache/Tasks.antt =====
-- What the background thread of a `TreeCache` does, and the methods of its users.
use kazoo.Base.{
  ℕ, ◌-◌, ◌==◌, List, [], ◌∷◌, ◌++◌, Option, none, some, Bool, true, false, not, ◌&&◌, Result, ok,
  err, kazoo_exception, value_error, if◌then◌else◌, length, drop,
}
use kazoo.Base.Int.{int_eq}
use kazoo.States.{KazooState, connected, suspended, lost}
use kazoo.Protocol.Records.{ZnodeStat}
use kazoo.Python.Text.{starts_with, split}
use kazoo.Python.Ordered.{sorted_texts}
use kazoo.Python.Path.{slash}
use kazoo.Paths.{join}
use kazoo.Recipe.{is_no_node}
use kazoo.Recipe.Cache.{
  NodeState, pending, live, dead, CacheState, latent, started, closed, NodeData, node_added,
  node_updated, connection_suspended, connection_reconnected, connection_lost, initialized, Answer,
  got, listed, checked, Task, run_created, run_reconnected, process, publish, stop, TreeCache,
  new_node, is_live, node, put, in_background, publish_event, refresh, on_reconnected, deleted_from,
  on_deleted, child_of,
}

-- A missing node of `exists` that is there again.
abbrev pub revived : NodeState → NodeState
revived dead = pending
revived s = s

-- A child that is not known yet.
abbrev pub add_child : ℕ → List ℕ → Option ℕ → TreeCache → TreeCache
add_child n name (some k) c = c
add_child n name none c =
    let x = node c n in
    let k = length c.nodes in
    refresh k (record (put n (record x { children = x.children ++ ((name, k) ∷ []) }) c) {
      nodes =
          (put n (record x { children = x.children ++ ((name, k) ∷ []) }) c).nodes
          ++ (new_node (join x.path (name ∷ [])) (some n) ∷ []);
    })

unfoldable pub add_children : ℕ → List (List ℕ) → TreeCache → TreeCache
unfolding refresh child_of
add_children n [] c = c
add_children n (name ∷ names) c =
    add_children n names (add_child n name (child_of name (node c n).children) c)

-- old_data is None or old_data.stat.mzxid != stat.mzxid
abbrev pub is_newer : Option NodeData → ZnodeStat → Bool
is_newer none s = true
is_newer (some d) s = not (int_eq d.stat.mzxid s.mzxid)

-- Which event the data of a node makes, if any.
abbrev pub event_of : Bool → Bool → NodeData → TreeCache → TreeCache
event_of true true d c = publish_event (node_updated (some d)) c
event_of true false d c = c
event_of false newer d c = publish_event (node_added (some d)) c

abbrev pub take_data : ℕ → List ℕ × ZnodeStat → TreeCache → TreeCache
take_data n (bytes, stat) c =
    let x = node c n in
    let d : NodeData = record { path = x.path; bytes = bytes; stat = stat } in
    event_of (is_live x.state) (is_newer x.data_of stat) d
      (put n (record x { data_of = some d; state = live }) c)

abbrev pub deleted_if : Bool → ℕ → TreeCache → TreeCache
deleted_if true n c = deleted_from n c
deleted_if false n c = c

-- `_process_result` up to the count; other exceptions than NoNodeError change nothing.
unfoldable pub take_answer : ℕ → Answer → TreeCache → TreeCache
unfolding refresh on_deleted publish_event add_children
take_answer n (checked (ok true)) c =
    refresh n (put n (record (node c n) { state = revived (node c n).state }) c)
take_answer n (checked r) c = c
take_answer n (listed (ok names)) c = add_children n (sorted_texts names) c
take_answer n (listed (err e)) c = deleted_if (is_no_node e) n c
take_answer n (got (ok found)) c = take_data n found c
take_answer n (got (err e)) c = deleted_if (is_no_node e) n c

-- The end of `_process_result`.
unfoldable pub count_down : TreeCache → TreeCache
unfolding publish_event
count_down c =
    let c' = record c { outstanding = c.outstanding - 1 } in
    if (c'.outstanding == 0) && not c'.is_initialized
    then publish_event initialized (record c' { is_initialized = true })
    else c'

-- Only the root asks with `exists`, so the assertion never fails.
unfoldable pub process_result : ℕ → Answer → TreeCache → TreeCache
unfolding take_answer count_down
process_result n a c = count_down (take_answer n a c)

-- One round of `_do_background`, behind the task that it took from the queue.
unfoldable pub run_task : Task → TreeCache → TreeCache
unfolding refresh on_reconnected process_result
run_task (run_created n) c = refresh n c
run_task (run_reconnected n) c = on_reconnected (length c.nodes) n c
run_task (process n a) c = process_result n a c
run_task (publish e) c = record c { told = c.told ++ (e ∷ []) }
run_task stop c = c

-- STOP ends the thread: it stays in front here, and nothing behind it runs.
abbrev pub background_on : List Task → TreeCache → TreeCache
background_on [] c = c
background_on (stop ∷ ts) c = c
background_on (t ∷ ts) c = run_task t (record c { tasks = ts })

unfoldable pub do_background : TreeCache → TreeCache
unfolding run_task
do_background c = background_on c.tasks c

unfoldable pub session_watcher : KazooState → TreeCache → TreeCache
unfolding publish_event
session_watcher suspended c = publish_event connection_suspended c
session_watcher connected c =
    publish_event connection_reconnected (in_background (run_reconnected 0) c)
session_watcher lost c = publish_event connection_lost (record c { is_initialized = false })

-- `start`, where `ensure_path` succeeds, and whether the client is connected behind it.
abbrev pub started_if : Bool → TreeCache → TreeCache
started_if true c = in_background (run_created 0) c
started_if false c = c

abbrev pub start_from : CacheState → Bool → TreeCache → TreeCache × Result (Unit {0})
start_from latent is_connected c = (started_if is_connected (record c { state = started }), ok tt)
start_from closed is_connected c = (c, err kazoo_exception)
start_from started is_connected c = (c, err kazoo_exception)

unfoldable pub start : Bool → TreeCache → TreeCache × Result (Unit {0})
start is_connected c = start_from c.state is_connected c

abbrev pub close_from : CacheState → TreeCache → TreeCache
close_from started c = deleted_from 0 (in_background stop (record c { state = closed }))
close_from latent c = c
close_from closed c = c

unfoldable pub close : TreeCache → TreeCache
unfolding on_deleted
close c = close_from c.state c

-- `_find_node`: from the root down, over the names that are not empty.
abbrev pub step_down : Option ℕ → (ℕ → Option ℕ) → Option ℕ
step_down none rest = none
step_down (some n) rest = rest n

unfoldable pub walk : TreeCache → List (List ℕ) → ℕ → Option ℕ
unfolding child_of
walk c [] n = some n
walk c ([] ∷ names) n = walk c names n
walk c ((k ∷ name) ∷ names) n =
    let rest = walk c names in step_down (child_of (k ∷ name) (node c n).children) rest

unfoldable pub find_node : List ℕ → TreeCache → Result (Option ℕ)
unfolding walk
find_node path c =
    let root = (node c 0).path in
    if starts_with root path
    then ok (walk c (split slash (drop (length root) path)) 0)
    else err value_error

abbrev pub data_or : Option NodeData → TreeCache → Option ℕ → Option NodeData
data_or default c none = default
data_or default c (some n) = (node c n).data_of

unfoldable pub get_data : List ℕ → Option NodeData → TreeCache → Result (Option NodeData)
unfolding find_node
get_data path default c = go (find_node path c)
  where
    go : Result (Option ℕ) → Result (Option NodeData)
    go (ok found) = ok (data_or default c found)
    go (err e) = err e
