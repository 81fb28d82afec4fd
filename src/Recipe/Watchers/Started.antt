-- ===== src/Recipe/Watchers/Started.antt =====
-- How a watch of kazoo/recipe/watchers.py begins: by its constructor with a function, or as a decorator.
use kazoo.Base.{ℕ, List, [], Option, none, Bool, true, false, Result, kazoo_exception}
use kazoo.States.{EventType}
use kazoo.Recipe.{Zookeeper, M, pure, raise, ◌>>=◌, ◌>>◌, change_world, self, update}
use kazoo.Recipe.Watchers.{DataCall, DataWatch, ChildrenWatch, get_data, get_children}

unfoldable pub new_data_watch : List ℕ → DataWatch
new_data_watch path = record {
  path = path;
  stopped = false;
  version = none;
  ever_called = false;
  used = false;
  spawned = 0;
  calls = [];
}

unfoldable pub new_children_watch : List ℕ → Bool → Bool → ChildrenWatch
new_children_watch path allow_session_lost send_event = record {
  path = path;
  send_event = send_event;
  allow_session_lost = allow_session_lost;
  stopped = false;
  used = false;
  watch_established = false;
  prior_children = none;
  spawned = 0;
  calls = [];
}

module _ (zk : Zookeeper) (fuel : ℕ) (func : List DataCall → Result Bool) where
  open zk use {World}

  abbrev pub begin : M World DataWatch (Unit {0})
  begin = do
    update (λ d. record d { used = true })
    change_world zk.add_listener
    get_data zk fuel func none

  abbrev pub begin_unless : Bool → M World DataWatch (Unit {0})
  begin_unless true = raise kazoo_exception
  begin_unless false = begin

  -- `DataWatch.__call__`.
  unfoldable pub decorate : M World DataWatch (Unit {0})
  decorate = do d ← self; begin_unless d.used

  -- `DataWatch.__init__` with a function.
  unfoldable pub data_watch : List ℕ → World → (DataWatch × World) × Result (Unit {0})
  unfolding new_data_watch
  data_watch path w = begin (new_data_watch path, w)

module _ (zk : Zookeeper) (fuel : ℕ)
    (func : List (List (List ℕ) × Option EventType) → Result Bool) where
  open zk use {World}

  abbrev pub listen_if : Bool → M World ChildrenWatch (Unit {0})
  listen_if true = change_world zk.add_listener
  listen_if false = pure tt

  abbrev pub begin_children : M World ChildrenWatch (Unit {0})
  begin_children = do
    update (λ c. record c { used = true })
    c ← self
    listen_if c.allow_session_lost
    get_children zk fuel func none

  abbrev pub begin_children_unless : Bool → M World ChildrenWatch (Unit {0})
  begin_children_unless true = raise kazoo_exception
  begin_children_unless false = begin_children

  -- `ChildrenWatch.__call__`.
  unfoldable pub decorate_children : M World ChildrenWatch (Unit {0})
  decorate_children = do c ← self; begin_children_unless c.used

  -- `ChildrenWatch.__init__` with a function.
  unfoldable pub children_watch :
      List ℕ → Bool → Bool → World → (ChildrenWatch × World) × Result (Unit {0})
  unfolding new_children_watch
  children_watch path allow_session_lost send_event w =
      begin_children (new_children_watch path allow_session_lost send_event, w)
