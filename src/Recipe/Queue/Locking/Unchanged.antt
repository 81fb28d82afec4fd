-- ===== src/Recipe/Queue/Locking/Unchanged.antt =====
-- Locking an entry leaves the fields of the queue alone.
use kazoo.Base.{ℕ, refl, List, [], ◌∷◌, Option, none, some, Bool, true, false, Exn, Result}
use kazoo.Recipe.{Zookeeper, on_world, pure, ◌>>=◌, is_no_node, is_node_exists}
use kazoo.Recipe.Rules.{Same, Same-bind, Same-catch, Same-retry}
use kazoo.Recipe.Queue.{QueueState, under, retried_children, retried_get}
use kazoo.Recipe.Queue.Locking.{
  Entry, filter_locked, unless_taken, lock_entry, unless_consumed, read_entry, read_if, take,
  take_available, look, look_unless,
}

module _ (zk : Zookeeper) (fuel : ℕ) where
  open zk use {World}

  on_world-Same :
      {A : Type 0} (f : World → World × Result A) → Same {W = World} {S = QueueState} (on_world f)
  on_world-Same f s = refl

  unless_taken-Same : (b : Bool) (e : Exn) → Same (unless_taken zk fuel b e)
  unless_taken-Same true e s = refl
  unless_taken-Same false e s = refl

  unless_consumed-Same :
      (name : List ℕ) (b : Bool) (e : Exn) → Same (unless_consumed zk fuel name b e)
  unless_consumed-Same name true e s =
      Same-bind (on_world (λ w. zk.delete w (under s.0.lock_path name))) (λ _. pure none)
        (λ t. refl) (λ _ t. refl) s
  unless_consumed-Same name false e s = refl

  lock_entry-Same : (name : List ℕ) → Same (lock_entry zk fuel name)
  lock_entry-Same name s =
      Same-catch
        (on_world (λ w. zk.create w (under s.0.lock_path name) s.0.id true false) >>= λ _.
          pure true)
        (λ e. unless_taken zk fuel (is_node_exists e) e)
        (Same-bind (on_world (λ w. zk.create w (under s.0.lock_path name) s.0.id true false))
          (λ _. pure true) (λ t. refl) (λ _ t. refl))
        (λ e. unless_taken-Same (is_node_exists e) e) s

  retried_get-Same : (path : List ℕ) → Same (retried_get zk fuel path)
  retried_get-Same path = Same-retry zk.pause fuel (on_world (λ w. zk.get w path)) (λ t. refl)

  retried_children-Same : (path : List ℕ) → Same (retried_children zk fuel path)
  retried_children-Same path =
      Same-retry zk.pause fuel (on_world (λ w. zk.get_children w path)) (λ t. refl)

  read_entry-Same : (name : List ℕ) → Same (read_entry zk fuel name)
  read_entry-Same name s =
      Same-catch
        (retried_get zk fuel (under s.0.entries_path name) >>= λ found. pure (some (name, found.0)))
        (λ e. unless_consumed zk fuel name (is_no_node e) e)
        (Same-bind (retried_get zk fuel (under s.0.entries_path name))
          (λ found. pure (some (name, found.0))) (retried_get-Same (under s.0.entries_path name))
          (λ found t. refl))
        (λ e. unless_consumed-Same name (is_no_node e) e) s

  read_if-Same : (name : List ℕ) (b : Bool) → Same (read_if zk fuel name b)
  read_if-Same name true s = read_entry-Same name s
  read_if-Same name false s = refl

  take_available-Same : (names : List (List ℕ)) → Same (take_available zk fuel names)
  unfolding take
  take_available-Same [] s = refl
  take_available-Same (name ∷ names) s =
      Same-bind (lock_entry zk fuel name) (read_if zk fuel name) (lock_entry-Same name)
        (read_if-Same name) s

  look-Same : Same (look zk fuel)
  look-Same s =
      Same-bind (retried_children zk fuel s.0.entries_path)
        (λ values. retried_children zk fuel s.0.lock_path >>= λ taken.
          take_available zk fuel (filter_locked values taken))
        (retried_children-Same s.0.entries_path)
        (λ values.
          Same-bind (retried_children zk fuel s.0.lock_path)
            (λ taken. take_available zk fuel (filter_locked values taken))
            (retried_children-Same s.0.lock_path)
            (λ taken. take_available-Same (filter_locked values taken)))
        s

  pub look_unless-Same : (b : Bool) (value : Option Entry) → Same (look_unless zk fuel b value)
  look_unless-Same true value s = refl
  look_unless-Same false (some entry) s = refl
  look_unless-Same false none s = look-Same s
