-- ===== src/Recipe/Queue/Locking.antt =====
-- `LockingQueue` of kazoo/recipe/queue.py. What `_inner_get` waits for are the watch events that arrive
-- before its time is over, in order.
mod Unchanged
mod Looking
pub mod Taking
use kazoo.Base.{
  ℕ, List, [], ◌∷◌, ◌++◌, map, Option, none, some, Bool, true, false, Exn, Result, ok, err, list_eq,
  not, if◌then◌else◌,
}
use kazoo.Base.Int.{ℤ}
use kazoo.States.{EventType, child}
use kazoo.Python.Ordered.{has_text, sorted_texts}
use kazoo.Recipe.{
  Zookeeper, Change, create_node, delete_node, M, pure, raise, on_world, handled, catch, bind,
  ◌>>=◌, ◌>>◌, self, update, is_no_node, is_node_exists,
}
use kazoo.Recipe.Queue.{
  QueueState, QueueM, under, entry_prefix, checked, ensure_paths, retried_children, retried_get,
}

abbrev pub Entry : Type 0
Entry = List ℕ × List ℕ

-- The names that are not taken.
abbrev pub untaken : List (List ℕ) → List (List ℕ) → List (List ℕ)
untaken taken [] = []
untaken taken (x ∷ xs) = let rest = untaken taken xs in if has_text x taken then rest else x ∷ rest

unfoldable pub filter_locked : List (List ℕ) → List (List ℕ) → List (List ℕ)
filter_locked values taken = untaken taken (sorted_texts values)

abbrev pub is_child_event : Option EventType → Bool
is_child_event none = true
is_child_event (some child) = true
is_child_event (some _) = false

module _ (zk : Zookeeper) (fuel : ℕ) where
  open zk use {World}

  -- except NodeExistsError: return None
  abbrev pub unless_taken : Bool → Exn → QueueM zk Bool
  unless_taken true e = pure false
  unless_taken false e = raise e

  abbrev pub lock_entry : List ℕ → QueueM zk Bool
  lock_entry name = do
    q ← self
    catch (on_world (λ w. zk.create w (under q.lock_path name) q.id true false) >>= λ _. pure true)
        (λ e. unless_taken (is_node_exists e) e)

  -- except NoNodeError: the lock is given back.
  abbrev pub unless_consumed : List ℕ → Bool → Exn → QueueM zk (Option Entry)
  unless_consumed name true e = do
    q ← self
    on_world (λ w. zk.delete w (under q.lock_path name))
    pure none
  unless_consumed name false e = raise e

  abbrev pub read_entry : List ℕ → QueueM zk (Option Entry)
  read_entry name = do
    q ← self
    catch (retried_get zk fuel (under q.entries_path name) >>= λ found. pure (some (name, found.0)))
        (λ e. unless_consumed name (is_no_node e) e)

  abbrev pub read_if : List ℕ → Bool → QueueM zk (Option Entry)
  read_if name true = read_entry name
  read_if name false = pure none

  unfoldable pub take : List ℕ → QueueM zk (Option Entry)
  take name = lock_entry name >>= read_if name

  abbrev pub take_available : List (List ℕ) → QueueM zk (Option Entry)
  take_available [] = pure none
  take_available (name ∷ names) = take name

  abbrev pub look : QueueM zk (Option Entry)
  look = do
    q ← self
    values ← retried_children zk fuel q.entries_path
    taken ← retried_children zk fuel q.lock_path
    take_available (filter_locked values taken)

  -- `flag` is set where there is a value.
  abbrev pub look_unless : Bool → Option Entry → QueueM zk (Option Entry)
  look_unless true value = pure value
  look_unless false (some entry) = pure (some entry)
  look_unless false none = look

  unfoldable pub check_for_updates : Option EventType → Option Entry → QueueM zk (Option Entry)
  check_for_updates event value = look_unless (not (is_child_event event)) value

  -- An exception of a watch function goes to the log.
  unfoldable pub check_events : List EventType → Option Entry → QueueM zk (Option Entry)
  check_events [] value = pure value
  check_events (event ∷ events) value =
      catch (check_for_updates (some event) value) (λ e. pure value) >>= check_events events

  abbrev pub processing : Option Entry → QueueM zk (Option (List ℕ))
  processing none = pure none
  processing (some entry) = do
    update (λ q. record q { processing_element = some entry })
    pure (some entry.1)

  unfoldable pub inner_get : List EventType → QueueM zk (Option (List ℕ))
  inner_get events = do
    value ← check_for_updates none none
    value' ← check_events events value
    processing value'

  abbrev pub get_unless : List EventType → Option Entry → QueueM zk (Option (List ℕ))
  get_unless events (some entry) = pure (some entry.1)
  get_unless events none = inner_get events

  unfoldable pub get : List EventType → QueueM zk (Option (List ℕ))
  get events = do ensure_paths zk; q ← self; get_unless events q.processing_element

  abbrev pub holds : Option Entry → QueueM zk Bool
  holds none = pure false
  holds (some entry) = do
    q ← self
    synced ← on_world (λ w. zk.sync w (under q.lock_path entry.0))
    found ← retried_get zk fuel (under q.lock_path entry.0)
    pure (list_eq found.0 q.id)

  unfoldable pub holds_lock : QueueM zk Bool
  holds_lock = do q ← self; holds q.processing_element

  -- The changes that `consume` and `release` commit.
  abbrev pub consumed : QueueState → Entry → List Change
  consumed q entry =
      delete_node (under q.entries_path entry.0) ∷ delete_node (under q.lock_path entry.0) ∷ []

  abbrev pub unlocked : QueueState → Entry → List Change
  unlocked q entry = delete_node (under q.lock_path entry.0) ∷ []

  abbrev pub commit_if : (QueueState → Entry → List Change) → Option Entry → Bool → QueueM zk Bool
  commit_if changes (some entry) true = do
    q ← self
    results ← on_world (λ w. zk.commit w (changes q entry))
    update (λ q'. record q' { processing_element = none })
    pure true
  commit_if changes _ _ = pure false

  unfoldable pub consume : QueueM zk Bool
  consume = do q ← self; held ← holds_lock; commit_if consumed q.processing_element held

  unfoldable pub release : QueueM zk Bool
  release = do q ← self; held ← holds_lock; commit_if unlocked q.processing_element held

  abbrev pub creations : QueueState → ℕ → List (List ℕ) → List Change
  creations q p = map (λ value. create_node (under q.entries_path (entry_prefix p)) value true)

  unfoldable pub put_all : List (List ℕ) → ℤ → QueueM zk (Unit {0})
  put_all values priority = checked zk priority λ p. do
    ensure_paths zk
    q ← self
    results ← on_world (λ w. zk.commit w (creations q p values))
    pure tt
