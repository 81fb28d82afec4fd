-- ===== src/Recipe/Queue/Locking/Taking.antt =====
-- What a `LockingQueue` has when it returns an entry.
use mathlib.Core.Path.{subst}
use kazoo.Base.{
  ℕ, ◌≡◌, refl, sym, ap, List, [], ◌∷◌, Option, none, some, Bool, true, false, not, ok,
}
use kazoo.States.{EventType}
use kazoo.Recipe.{Zookeeper, M, catch, pure, ◌>>=◌}
use kazoo.Recipe.Rules.{
  Returns, Returns-bind, Returns-handled, Returns-eq, Returns-Same, Same-catch,
}
use kazoo.Recipe.Queue.{QueueState}
use kazoo.Recipe.Queue.Locking.{
  Entry, is_child_event, look_unless, check_for_updates, check_events, processing, inner_get,
}
use kazoo.Recipe.Queue.Locking.Unchanged.{look_unless-Same}
use kazoo.Recipe.Queue.Locking.Looking.{IsMade, IsRead, IsFree, Locked, look-Locked}

module _ (zk : Zookeeper) (fuel : ℕ) where
  open zk use {World}

  abbrev Found : QueueState → QueueState × World → Option Entry → Type 0
  Found q t value = (t.0 ≡ q) × Locked zk fuel q t value

  look_unless-Locked :
      (q : QueueState) (b : Bool) (value : Option Entry) (w : World)
      → Locked zk fuel q (q, w) value
      → Returns (Locked zk fuel q) (look_unless zk fuel b value (q, w))
  look_unless-Locked q true none w h = tt
  look_unless-Locked q true (some entry) w h = h
  look_unless-Locked q false (some entry) w h = h
  look_unless-Locked q false none w h = look-Locked zk fuel q w

  Locked-anywhere :
      (q : QueueState) (value : Option Entry) (t u : QueueState × World)
      → Locked zk fuel q t value
      → Locked zk fuel q u value
  Locked-anywhere q none t u h = tt
  Locked-anywhere q (some entry) t u h = h

  check-Found :
      (q : QueueState) (event : Option EventType) (value : Option Entry) (w : World)
      → Locked zk fuel q (q, w) value
      → Returns (Found q) (check_for_updates zk fuel event value (q, w))
  unfolding check_for_updates
  check-Found q event value w h =
      Returns-Same (q, w) (Locked zk fuel q)
        (look_unless zk fuel (not (is_child_event event)) value)
        (look_unless-Same zk fuel (not (is_child_event event)) value)
        (look_unless-Locked q (not (is_child_event event)) value w h)

  check_events-Found :
      (q : QueueState) (events : List EventType) (value : Option Entry) (t : QueueState × World)
      → Found q t value
      → Returns (Found q) (check_events zk fuel events value t)
  unfolding check_events check_for_updates
  check_events-Found q [] value t h = h
  check_events-Found q (event ∷ events) value t h =
      Returns-bind (Found q) (Found q) (check_events zk fuel events)
        (catch (check_for_updates zk fuel (some event) value) (λ e. pure value) t)
        (subst
          (λ r.
            Returns (Found q)
              (catch (check_for_updates zk fuel (some event) value) (λ e. pure value) (r, t.1)))
          (sym h.0) checked)
        λ u v g. check_events-Found q events v u g
    where
      looked : M World QueueState (Option Entry)
      looked = look_unless zk fuel (not (is_child_event (some event))) value

      checked : Returns (Found q) (catch looked (λ e. pure value) (q, t.1))
      checked =
          Returns-Same (q, t.1) (Locked zk fuel q) (catch looked (λ e. pure value))
            (Same-catch looked (λ e. pure value)
              (look_unless-Same zk fuel (not (is_child_event (some event))) value) (λ e u. refl))
            (Returns-handled (Locked zk fuel q) (λ e. pure value) (looked (q, t.1))
              (look_unless-Locked q (not (is_child_event (some event))) value t.1
                (Locked-anywhere q value t (q, t.1) h.1))
              λ e u. Locked-anywhere q value t u h.1)

  -- What `_inner_get` leaves: the entry that it locked, or the queue as it was.
  abbrev pub Got : QueueState → QueueState × World → Option (List ℕ) → Type 0
  Got q s none = s.0 ≡ q
  Got q s (some bytes) =
      (name : List ℕ) × ((s.0 ≡ record q { processing_element = some (name, bytes) })
        × (IsFree zk fuel q name × (IsMade zk fuel q name × IsRead zk fuel q name bytes)))

  processing-Got :
      (q : QueueState) (value : Option Entry) (t : QueueState × World)
      → Found q t value
      → Returns (Got q) (processing zk fuel value t)
  processing-Got q none t h = h.0
  processing-Got q (some entry) t h =
      (entry.0, (ap {A = QueueState} (λ r. record r { processing_element = some entry }) h.0, h.1))

  inner_get-Returns :
      (events : List EventType) (q : QueueState) (w : World)
      → Returns (Got q) (inner_get zk fuel events (q, w))
  unfolding inner_get
  inner_get-Returns events q w =
      Returns-bind (Found q) (Got q)
        (λ value. check_events zk fuel events value >>= processing zk fuel)
        (check_for_updates zk fuel none none (q, w)) (check-Found q none none w tt)
        λ t value h.
          Returns-bind (Found q) (Got q) (processing zk fuel) (check_events zk fuel events value t)
            (check_events-Found q events value t h) λ u v g. processing-Got q v u g

  -- If `_inner_get` of a `LockingQueue` returns a value, it is that of an entry that was listed and not
  -- among the locked ones, whose lock the servers made for this queue, and it is the processing element;
  -- if it returns None, the queue's fields are as they were.
  pub inner_get-Got :
      (events : List EventType) (q : QueueState) (w : World) (s : QueueState × World)
      (result : Option (List ℕ))
      → inner_get zk fuel events (q, w) ≡ (s, ok result)
      → Got q s result
  inner_get-Got events q w s result h =
      Returns-eq (Got q) (inner_get zk fuel events (q, w)) s result (inner_get-Returns events q w) h
