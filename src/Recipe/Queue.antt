-- ===== src/Recipe/Queue.antt =====
-- kazoo/recipe/queue.py. The type tests of the arguments are the types of the arguments here; `fuel`
-- bounds the tries of `client.retry`.
pub mod Order
pub mod Locking
use kazoo.Base.{
  ℕ, zero, suc, ◌+◌, ◌/◌, ◌%◌, List, [], ◌∷◌, ◌++◌, Option, none, some, Bool, true, false, not,
  ◌&&◌, ◌||◌, Exn, Result, ok, err, force_retry_error, value_error, if◌then◌else◌, leb, ltb,
  list_eq,
}
use kazoo.Base.Int.{ℤ, pos, negsuc}
use kazoo.Protocol.Records.{ZnodeStat}
use kazoo.Python.Text.{codes}
use kazoo.Python.Ordered.{has_text, sorted_texts}
use kazoo.Recipe.{
  Zookeeper, Change, create_node, delete_node, M, pure, raise, on_world, handled, catch, retry,
  bind, ◌>>=◌, ◌>>◌, self, update, is_no_node, is_node_exists,
}

-- The fields of a queue: `children` are those of a `Queue`, `processing_element` and `id` those of a
-- `LockingQueue`.
pub record QueueState : Type 0 where
  pub path : List ℕ
  pub entries_path : List ℕ
  pub lock_path : List ℕ
  pub structure_paths : List (List ℕ)
  pub ensured_path : Bool
  pub cached : List (List ℕ)
  pub id : List ℕ
  pub processing_element : Option (List ℕ × List ℕ)

unfoldable pub new_queue : List ℕ → QueueState
new_queue path = record {
  path = path;
  entries_path = path;
  lock_path = [];
  structure_paths = path ∷ [];
  ensured_path = false;
  cached = [];
  id = [];
  processing_element = none;
}

unfoldable pub new_locking_queue : List ℕ → List ℕ → QueueState
new_locking_queue path hex = record {
  path = path;
  entries_path = path ++ codes "/entries";
  lock_path = path ++ codes "/taken";
  structure_paths = (path ++ codes "/taken") ∷ (path ++ codes "/entries") ∷ [];
  ensured_path = false;
  cached = [];
  id = hex;
  processing_element = none;
}

-- `_check_put_arguments`, with the priority that passes.
unfoldable pub check_put_arguments : ℤ → Result ℕ
check_put_arguments (negsuc n) = err value_error
check_put_arguments (pos n) = if ltb 999 n then err value_error else ok n

-- `{priority:03d}` of a number below a thousand.
abbrev pub three_digits : ℕ → List ℕ
three_digits p = (b'0' + p / 100) ∷ (b'0' + p / 10 % 10) ∷ (b'0' + p % 10) ∷ []

-- `entry-{priority:03d}-`: `Queue.prefix`, and `LockingQueue.entry` with a dash.
abbrev pub entry_prefix : ℕ → List ℕ
entry_prefix p = codes "entry-" ++ (three_digits p ++ codes "-")

abbrev pub under : List ℕ → List ℕ → List ℕ
under path name = path ++ (codes "/" ++ name)

module _ (zk : Zookeeper) where
  open zk use {World}

  abbrev pub QueueM : Type 0 → Type 0
  QueueM A = M World QueueState A

  abbrev pub ensure_each : List (List ℕ) → QueueM (Unit {0})
  ensure_each [] = pure tt
  ensure_each (path ∷ paths) = on_world (λ w. zk.ensure_path w path) >>= λ _. ensure_each paths

  abbrev pub ensure_unless : Bool → QueueM (Unit {0})
  ensure_unless true = pure tt
  ensure_unless false = do
    q ← self
    ensure_each q.structure_paths
    update (λ q'. record q' { ensured_path = true })

  unfoldable pub ensure_paths : QueueM (Unit {0})
  ensure_paths = do q ← self; ensure_unless q.ensured_path

  abbrev pub retried_children : ℕ → List ℕ → QueueM (List (List ℕ))
  retried_children fuel path = retry zk.pause fuel (on_world (λ w. zk.get_children w path))

  abbrev pub retried_get : ℕ → List ℕ → QueueM (List ℕ × ZnodeStat)
  retried_get fuel path = retry zk.pause fuel (on_world (λ w. zk.get w path))

  -- `Queue._inner_get`: the names that are left over, or new ones, in order.
  abbrev pub refill : ℕ → List (List ℕ) → QueueM (Unit {0})
  refill fuel (name ∷ names) = pure tt
  refill fuel [] = do
    q ← self
    names ← retried_children fuel q.path
    update (λ q'. record q' { cached = sorted_texts names })

  abbrev pub forget_if : Bool → Exn → QueueM (List ℕ)
  forget_if true e = do update (λ q. record q { cached = [] }); raise force_retry_error
  forget_if false e = raise e

  abbrev pub get_and_delete : List ℕ → QueueM (List ℕ)
  get_and_delete path = do
    (bytes, stat) ← on_world (λ w. zk.get w path)
    on_world (λ w. zk.delete w path)
    pure bytes

  abbrev pub take_first : List (List ℕ) → QueueM (Option (List ℕ))
  take_first [] = pure none
  take_first (name ∷ names) = do
    q ← self
    bytes ← catch (get_and_delete (under q.path name)) (λ e. forget_if (is_no_node e) e)
    update (λ q'. record q' { cached = names })
    pure (some bytes)

  unfoldable pub inner_get : ℕ → QueueM (Option (List ℕ))
  inner_get fuel = do q ← self; refill fuel q.cached; q' ← self; take_first q'.cached

  unfoldable pub get : ℕ → QueueM (Option (List ℕ))
  get fuel = do ensure_paths; retry zk.pause fuel (inner_get fuel)

  -- `put` of both classes: they differ in `entries_path` only.
  abbrev pub checked : {A : Type 0} → ℤ → (ℕ → QueueM A) → QueueM A
  checked priority k s = bind k (s, check_put_arguments priority)

  unfoldable pub put : List ℕ → ℤ → QueueM (List ℕ)
  put value priority = checked priority λ p. do
    ensure_paths
    q ← self
    on_world (λ w. zk.create w (under q.entries_path (entry_prefix p)) value false true)

  -- `__len__`, the same for both classes.
  unfoldable pub len : ℕ → QueueM ℤ
  len fuel = do
    ensure_paths
    q ← self
    (bytes, stat) ← retried_get fuel q.entries_path
    pure stat.num_children
