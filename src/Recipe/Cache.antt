-- ===== src/Recipe/Cache.antt =====
-- kazoo/recipe/cache.py. Nodes are known by their numbers, the root is 0: callbacks and watches keep a
-- node after it has left the tree. `in_flight` are the calls whose answers have not come, `tasks` is the
-- queue of the background thread, `told` what the listeners were told, and `discarded` the nodes whose
-- watches were taken from the client.
pub mod Tasks
pub mod Owes
pub mod Balanced
use kazoo.Base.{
  ℕ, zero, suc, ◌+◌, ◌-◌, ◌==◌, List, [], ◌∷◌, ◌++◌, map, Option, none, some, Bool, true, false,
  not, ◌&&◌, Result, ok, err, Exn, kazoo_exception, value_error, if◌then◌else◌, length, list_eq,
  drop,
}
use kazoo.Base.Int.{int_eq}
use kazoo.States.{
  EventType, created, deleted, changed, child, KazooState, connected, suspended, lost,
}
use kazoo.Protocol.Records.{ZnodeStat}
use kazoo.Python.Text.{starts_with, split}
use kazoo.Python.Ordered.{sorted_texts}
use kazoo.Python.Path.{slash}
use kazoo.Paths.{join}
use kazoo.Recipe.{is_no_node}

pub data NodeState : Type 0 where
  pending live dead : NodeState

pub data CacheState : Type 0 where
  latent started closed : CacheState

pub record NodeData : Type 0 where
  pub path : List ℕ
  pub bytes : List ℕ
  pub stat : ZnodeStat

pub record TreeNode : Type 0 where
  pub path : List ℕ
  pub parent : Option ℕ
  pub children : List (List ℕ × ℕ)
  pub state : NodeState
  pub data_of : Option NodeData

pub data TreeEvent : Type 0 where
  node_added node_updated node_removed : Option NodeData → TreeEvent
  connection_suspended connection_reconnected connection_lost initialized : TreeEvent

pub data Method : Type 0 where
  get_call children_call exists_call : Method

-- What the async object of a call was set to.
pub data Answer : Type 0 where
  got : Result (List ℕ × ZnodeStat) → Answer
  listed : Result (List (List ℕ)) → Answer
  checked : Result Bool → Answer

pub data Task : Type 0 where
  run_created run_reconnected : ℕ → Task
  process : ℕ → Answer → Task
  publish : TreeEvent → Task
  stop : Task

pub record TreeCache : Type 0 where
  pub nodes : List TreeNode
  pub state : CacheState
  pub outstanding : ℕ
  pub is_initialized : Bool
  pub in_flight : List (ℕ × Method)
  pub tasks : List Task
  pub told : List TreeEvent
  pub discarded : List ℕ

abbrev pub new_node : List ℕ → Option ℕ → TreeNode
new_node path parent = record {
  path = path;
  parent = parent;
  children = [];
  state = pending;
  data_of = none;
}

unfoldable pub new_cache : List ℕ → TreeCache
new_cache path = record {
  nodes = new_node path none ∷ [];
  state = latent;
  outstanding = 0;
  is_initialized = false;
  in_flight = [];
  tasks = [];
  told = [];
  discarded = [];
}

abbrev pub is_closed : CacheState → Bool
is_closed closed = true
is_closed _ = false

abbrev pub is_live : NodeState → Bool
is_live live = true
is_live _ = false

-- A number that no node has stands for an empty node; there is none in a cache's state.
unfoldable pub node_at : List TreeNode → ℕ → TreeNode
node_at [] n = new_node [] none
node_at (x ∷ xs) zero = x
node_at (x ∷ xs) (suc n) = node_at xs n

unfoldable pub with_node : List TreeNode → ℕ → TreeNode → List TreeNode
with_node [] n y = []
with_node (x ∷ xs) zero y = y ∷ xs
with_node (x ∷ xs) (suc n) y = x ∷ with_node xs n y

abbrev pub node : TreeCache → ℕ → TreeNode
node c n = node_at c.nodes n

abbrev pub put : ℕ → TreeNode → TreeCache → TreeCache
put n x c = record c { nodes = with_node c.nodes n x }

abbrev pub in_background : Task → TreeCache → TreeCache
in_background t c = record c { tasks = c.tasks ++ (t ∷ []) }

unfoldable pub publish_event : TreeEvent → TreeCache → TreeCache
publish_event e c = if is_closed c.state then c else in_background (publish e) c

unfoldable pub call_client : Method → ℕ → TreeCache → TreeCache
call_client m n c = record c {
  outstanding = c.outstanding + 1;
  in_flight = c.in_flight ++ ((n, m) ∷ []);
}

unfoldable pub refresh : ℕ → TreeCache → TreeCache
unfolding call_client
refresh n c = call_client children_call n (call_client get_call n c)

abbrev pub reset_watchers : ℕ → TreeCache → TreeCache
reset_watchers n c = record c { discarded = c.discarded ++ (n ∷ []) }

-- For each number, in order.
unfoldable pub each : (ℕ → TreeCache → TreeCache) → List ℕ → TreeCache → TreeCache
each f [] c = c
each f (n ∷ ns) c = each f ns (f n c)

abbrev pub numbers : List (List ℕ × ℕ) → List ℕ
numbers [] = []
numbers ((name, n) ∷ rest) = n ∷ numbers rest

-- A child has a higher number than its parent, so the number of nodes is fuel enough.
unfoldable pub on_reconnected : ℕ → ℕ → TreeCache → TreeCache
unfolding refresh each
on_reconnected zero n c = c
on_reconnected (suc fuel) n c =
    each (on_reconnected fuel) (numbers (node c n).children) (refresh n c)

-- The child of a name, and the others.
unfoldable pub child_of : List ℕ → List (List ℕ × ℕ) → Option ℕ
child_of name [] = none
child_of name ((k, n) ∷ rest) = let r = child_of name rest in if list_eq k name then some n else r

unfoldable pub without_child : List ℕ → List (List ℕ × ℕ) → List (List ℕ × ℕ)
without_child name [] = []
without_child name ((k, n) ∷ rest) =
    let r = without_child name rest in if list_eq k name then r else (k, n) ∷ r

abbrev pub is_number : ℕ → Option ℕ → Bool
is_number n none = false
is_number n (some m) = m == n

-- The last part of `on_deleted`: the root waits for its node, another node leaves its parent.
unfoldable pub leave_parent : ℕ → Option ℕ → TreeCache → TreeCache
unfolding call_client child_of without_child
leave_parent n none c = call_client exists_call n c
leave_parent n (some p) c =
    let parent = node c p in
    let name = drop (suc (length parent.path)) (node c n).path in
    if is_number n (child_of name parent.children)
    then reset_watchers n
        (put p (record parent { children = without_child name parent.children }) c)
    else c

unfoldable pub bury : ℕ → Option NodeData → TreeCache → TreeCache
unfolding publish_event leave_parent
bury n old_data c =
    let x = node c n in
    let c' = put n (record x { state = dead }) c in
    leave_parent n x.parent
      (if is_live x.state then publish_event (node_removed old_data) c' else c')

unfoldable pub on_deleted : ℕ → ℕ → TreeCache → TreeCache
unfolding each bury
on_deleted zero n c = c
on_deleted (suc fuel) n c =
    let x = node c n in
    let c' =
      each (on_deleted fuel) (numbers x.children)
        (put n (record x { children = []; data_of = none }) c) in
    if is_closed c'.state then reset_watchers n c' else bury n x.data_of c'

abbrev pub deleted_from : ℕ → TreeCache → TreeCache
deleted_from n c = on_deleted (length c.nodes) n c

abbrev pub is_root : ℕ → TreeCache → Bool
is_root n c = go (node c n).parent
  where
    go : Option ℕ → Bool
    go none = true
    go (some p) = false

-- `_process_watch`; the failed assertion goes to the listeners of faults.
unfoldable pub process_watch : ℕ → EventType → TreeCache → TreeCache
unfolding refresh on_deleted call_client
process_watch n created c = if is_root n c then refresh n c else c
process_watch n deleted c = deleted_from n c
process_watch n changed c = call_client get_call n c
process_watch n child c = call_client children_call n c
process_watch n _ c = c
