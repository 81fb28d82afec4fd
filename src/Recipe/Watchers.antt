-- ===== src/Recipe/Watchers.antt =====
-- kazoo/recipe/watchers.py. What the user's function was called with is the list `calls`, in order; its
-- answer may depend on all calls so far. `False` from it stops a watch. `spawned` counts the calls of
-- `_get_data` and `_get_children` that were handed to another thread.
pub mod Versions
pub mod Started
use kazoo.Base.{
  ℕ, zero, suc, ◌+◌, List, [], ◌∷◌, ◌++◌, Option, none, some, Bool, true, false, not, ◌&&◌, ◌||◌,
  Exn, Result, ok, err, connection_closed, type_error, if◌then◌else◌, list_eq, out_of_fuel,
}
use kazoo.Base.Int.{ℤ, int_eq}
use kazoo.States.{EventType, nothing, KazooState, connected, lost, suspended}
use kazoo.Protocol.Records.{ZnodeStat}
use kazoo.Recipe.{
  Zookeeper, M, pure, raise, on_world, handled, catch, retry, bind, ◌>>=◌, ◌>>◌, change_world, self,
  update, is_no_node,
}

-- The data and the stat, which are None for a missing node.
abbrev pub Seen : Type 0
Seen = Option (List ℕ × ZnodeStat)

abbrev pub version_of : Seen → Option ℤ
version_of none = none
version_of (some (bytes, stat)) = some stat.mzxid

abbrev pub version_eq : Option ℤ → Option ℤ → Bool
version_eq none none = true
version_eq none (some b) = false
version_eq (some a) none = false
version_eq (some a) (some b) = int_eq a b

-- A call of the function with an event, or the second one without it, behind a TypeError.
pub data DataCall : Type 0 where
  with_event : Seen → Option EventType → DataCall
  without_event : Seen → DataCall

pub record DataWatch : Type 0 where
  pub path : List ℕ
  pub stopped : Bool
  pub version : Option ℤ
  pub ever_called : Bool
  pub used : Bool
  pub spawned : ℕ
  pub calls : List DataCall

pub record ChildrenWatch : Type 0 where
  pub path : List ℕ
  pub send_event : Bool
  pub allow_session_lost : Bool
  pub stopped : Bool
  pub used : Bool
  pub watch_established : Bool
  pub prior_children : Option (List (List ℕ))
  pub spawned : ℕ
  pub calls : List (List (List ℕ) × Option EventType)

abbrev pub texts_eq : List (List ℕ) → List (List ℕ) → Bool
texts_eq [] [] = true
texts_eq [] (t ∷ ts) = false
texts_eq (s ∷ ss) [] = false
texts_eq (s ∷ ss) (t ∷ ts) = list_eq s t && texts_eq ss ts

-- self._prior_children is not None and self._prior_children == children
abbrev pub is_prior : Option (List (List ℕ)) → List (List ℕ) → Bool
is_prior none names = false
is_prior (some prior) names = texts_eq prior names

abbrev pub is_event : EventType → Bool
is_event nothing = false
is_event _ = true

-- except ConnectionClosedError: pass
abbrev pub ignore_closed : {W S : Type 0} → Exn → M W S (Unit {0})
ignore_closed connection_closed = pure tt
ignore_closed e = raise e

module _ (zk : Zookeeper) (fuel : ℕ) (func : List DataCall → Result Bool) where
  open zk use {World}

  abbrev pub DataM : Type 0 → Type 0
  DataM A = M World DataWatch A

  -- `_log_func_exception`: what the function answered, where True stands for all but False.
  abbrev pub stop_unless : Bool → DataM (Unit {0})
  stop_unless true = pure tt
  stop_unless false = do update (λ d. record d { stopped = true }); change_world zk.remove_listener

  -- except TypeError: the function takes no event.
  abbrev pub call_again : Seen → DataM (Unit {0})
  call_again seen = do
    update (λ d. record d { calls = d.calls ++ (without_event seen ∷ []) })
    d ← self
    (λ s. (s, func d.calls)) >>= stop_unless

  abbrev pub judged : Seen → Result Bool → DataM (Unit {0})
  judged seen (err type_error) s = call_again seen s
  judged seen r s = bind stop_unless (s, r)

  abbrev pub call_func : Seen → Option EventType → DataM (Unit {0})
  call_func seen event = do
    update (λ d. record d { ever_called = true; calls = d.calls ++ (with_event seen event ∷ []) })
    d ← self
    judged seen (func d.calls)

  -- The call, if it is the first or the version has changed since it was read.
  abbrev pub call_if : Bool → Seen → Option EventType → DataM (Unit {0})
  call_if true seen event = call_func seen event
  call_if false seen event = pure tt

  abbrev pub show : Option EventType → Seen → DataM (Unit {0})
  show event seen s =
      let d = s.0 in
      call_if (not (version_eq d.version (version_of seen)) || not d.ever_called) seen event
        (record d { version = version_of seen }, s.1)

  -- `exists` behind NoNodeError: the node may be there by now.
  abbrev pub spawn_or_show : Option EventType → Bool → DataM (Unit {0})
  spawn_or_show event true = update (λ d. record d { spawned = d.spawned + 1 })
  spawn_or_show event false = show event none

  abbrev pub missing_if : Option EventType → Bool → Exn → DataM (Unit {0})
  missing_if event true e = do
    d ← self
    retry zk.pause fuel (on_world (λ w. zk.exists w d.path)) >>= spawn_or_show event
  missing_if event false e = raise e

  -- Behind `get`, with its exception.
  abbrev pub with_data :
      Option EventType
      → (DataWatch × World) × Result (List ℕ × ZnodeStat)
      → (DataWatch × World) × Result (Unit {0})
  with_data event (s, ok found) = show event (some found) s
  with_data event (s, err e) = missing_if event (is_no_node e) e s

  abbrev pub get_unless : Bool → Option EventType → DataM (Unit {0})
  get_unless true event = λ s. (s, ok tt)
  get_unless false event =
      λ s. with_data event (retry zk.pause fuel (on_world (λ w. zk.get w s.0.path)) s)

  unfoldable pub get_data : Option EventType → DataM (Unit {0})
  get_data event = catch (λ s. get_unless s.0.stopped event s) ignore_closed

  -- `_watcher` and `_session_watcher`.
  unfoldable pub data_watcher : EventType → DataM (Unit {0})
  data_watcher event = get_data (some event)

  unfoldable pub data_session_watcher : KazooState → DataM (Unit {0})
  data_session_watcher connected = update (λ d. record d { spawned = d.spawned + 1 })
  data_session_watcher lost = pure tt
  data_session_watcher suspended = pure tt

module _ (zk : Zookeeper) (fuel : ℕ)
    (func : List (List (List ℕ) × Option EventType) → Result Bool) where
  open zk use {World}

  abbrev pub ChildrenM : Type 0 → Type 0
  ChildrenM A = M World ChildrenWatch A

  abbrev pub unlisten_if : Bool → ChildrenM (Unit {0})
  unlisten_if true = change_world zk.remove_listener
  unlisten_if false = pure tt

  abbrev pub stop_children_unless : Bool → ChildrenM (Unit {0})
  stop_children_unless true = pure tt
  stop_children_unless false = do
    update (λ c. record c { stopped = true })
    c ← self
    unlisten_if c.allow_session_lost

  -- The event is passed on if the watch was made so.
  abbrev pub event_if : Bool → Option EventType → Option EventType
  event_if true event = event
  event_if false event = none

  abbrev pub call_children : Option EventType → List (List ℕ) → ChildrenM (Unit {0})
  call_children event names = do
    update (λ c. record c {
      prior_children = some names;
      calls = c.calls ++ ((names, event_if c.send_event event) ∷ []);
    })
    c ← self
    (λ s. (s, func c.calls)) >>= stop_children_unless

  -- A watch that was not established is now; the same children are not told again then.
  abbrev pub tell_children : Bool → Option EventType → List (List ℕ) → ChildrenM (Unit {0})
  tell_children true event names = pure tt
  tell_children false event names = call_children event names

  abbrev pub established : Option EventType → List (List ℕ) → ChildrenM (Unit {0})
  established event names s =
      let c = s.0 in
      tell_children (not c.watch_established && is_prior c.prior_children names) event names
        (record c { watch_established = true }, s.1)

  abbrev pub stop_if : Bool → Exn → ChildrenM (Unit {0})
  stop_if true e = update (λ c. record c { stopped = true })
  stop_if false e = raise e

  abbrev pub with_children :
      Option EventType
      → (ChildrenWatch × World) × Result (List (List ℕ))
      → (ChildrenWatch × World) × Result (Unit {0})
  with_children event (s, ok names) = established event names s
  with_children event (s, err e) = stop_if (is_no_node e) e s

  abbrev pub children_unless : Bool → Option EventType → ChildrenM (Unit {0})
  children_unless true event = λ s. (s, ok tt)
  children_unless false event =
      λ s. with_children event (retry zk.pause fuel (on_world (λ w. zk.get_children w s.0.path)) s)

  unfoldable pub get_children : Option EventType → ChildrenM (Unit {0})
  get_children event = catch (λ s. children_unless s.0.stopped event s) ignore_closed

  unfoldable pub children_watcher : EventType → ChildrenM (Unit {0})
  children_watcher event = if is_event event then get_children (some event) else pure tt

  unfoldable pub children_session_watcher : KazooState → ChildrenM (Unit {0})
  children_session_watcher lost s = ((record s.0 { watch_established = false }, s.1), ok tt)
  children_session_watcher suspended s = ((record s.0 { watch_established = false }, s.1), ok tt)
  children_session_watcher connected s =
      let c = s.0 in
      if not c.watch_established && not c.stopped
      then ((record c { spawned = c.spawned + 1 }, s.1), ok tt)
      else (s, ok tt)

-- `PatientChildrenWatch._inner_start`: the rounds, each with the children that were listed and whether
-- they changed while it slept; the children that the result is set to.
unfoldable pub inner_start : List (Result (List (List ℕ)) × Bool) → Option (Result (List (List ℕ)))
inner_start [] = none
inner_start ((err e, changed) ∷ rounds) = some (err e)
inner_start ((ok names, changed) ∷ rounds) =
    let rest = inner_start rounds in if changed then rest else some (ok names)
