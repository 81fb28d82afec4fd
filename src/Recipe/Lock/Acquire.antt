-- ===== src/Recipe/Lock/Acquire.antt =====
-- The methods of `Lock` (kazoo/recipe/lock.py) that talk to the servers. `method_locked` is what the
-- lock around `acquire` answers; `fuel` bounds the tries of a retry and the rounds of the waiting loop.
pub mod Held
pub mod Released
use kazoo.Base.{
  ℕ, zero, suc, ◌+◌, List, [], ◌∷◌, ◌++◌, Option, none, some, Bool, true, false, not, ◌&&◌, ◌||◌,
  Exn, Result, ok, err, out_of_fuel, force_retry_error, cancelled_error, lock_timeout, type_error,
  retry_failed_error, interrupted_error, if◌then◌else◌, length, drop,
}
use kazoo.Protocol.Records.{ZnodeStat}
use kazoo.Python.Utf8.{decode}
use kazoo.Recipe.{
  Zookeeper, M, pure, raise, on_world, handled, catch, finally, retry, bind, ◌>>=◌, ◌>>◌,
  change_world, self, update, is_no_node, is_kazoo,
}
use kazoo.Recipe.Lock.{Lock, slash, create_path, predecessor_of, starting, ordered}

-- if not node
abbrev pub truthy : Option (List ℕ) → Option (List ℕ)
truthy (some (c ∷ cs)) = some (c ∷ cs)
truthy _ = none

module _ (zk : Zookeeper) where
  open zk use {World}

  abbrev pub LockM : Type 0 → Type 0
  LockM A = M World Lock A

  -- self.path + "/" + name
  abbrev pub child_path : Lock → List ℕ → List ℕ
  child_path l name = l.path ++ (slash ++ name)

  unfoldable pub ensure_path : LockM (Unit {0})
  ensure_path = do
    l ← self
    there ← on_world (λ w. zk.ensure_path w l.path)
    update (λ l'. record l' { assured_path = true })

  abbrev pub children : LockM (List (List ℕ))
  children = do l ← self; on_world (λ w. zk.get_children w l.path)

  unfoldable pub find_node : LockM (Option (List ℕ))
  find_node = do l ← self; names ← children; pure (starting l.prefix names)

  unfoldable pub delete_node : List ℕ → LockM (Unit {0})
  delete_node name = do l ← self; on_world (λ w. zk.delete w (child_path l name))

  -- The node of an earlier try, which may have been made although the try failed.
  abbrev pub earlier_node : Lock → LockM (Option (List ℕ))
  earlier_node l =
      if l.create_tried
      then find_node
      else (update (λ l'. record l' { create_tried = true }) >>= λ _. pure none)

  -- client.create, without the path in front of the new node.
  abbrev pub create_node : Bool → LockM (List ℕ)
  create_node ephemeral = do
    l ← self
    made ← on_world (λ w. zk.create w (create_path l) l.identity ephemeral true)
    pure (drop (length l.path + 1) made)

  abbrev pub node_or_create : Bool → Option (List ℕ) → LockM (List ℕ)
  node_or_create ephemeral (some (c ∷ cs)) = pure (c ∷ cs)
  node_or_create ephemeral _ = create_node ephemeral

  -- The test of `self.cancelled`, which another thread may have set.
  abbrev pub look : LockM (Unit {0})
  look (l, w) =
      let c = l.cancelled || zk.cancels w in
      ((record l { cancelled = c }, w), if c then err cancelled_error else ok tt)

  abbrev pub get_predecessor : List ℕ → LockM (Option (List ℕ))
  get_predecessor node = do l ← self; names ← children; λ s. (s, predecessor_of l node names)

  abbrev pub wait_event : Option ℕ → LockM (Unit {0})
  wait_event timeout (l, w) =
      let r = zk.wait w timeout in ((l, r.0), if r.1 then ok tt else err lock_timeout)

  -- `try: client.get(...)`, with its `except` and `else`.
  abbrev pub after_get :
      Option ℕ → (Lock × World) × Result (List ℕ × ZnodeStat) → (Lock × World) × Result (Unit {0})
  after_get timeout (s, ok found) = wait_event timeout s
  after_get timeout (s, err e) = (s, if is_no_node e then ok tt else err e)

  abbrev pub watch_predecessor : List ℕ → Option ℕ → LockM (Unit {0})
  watch_predecessor name timeout = do
    l ← self
    change_world zk.add_listener
    finally (λ s. after_get timeout (on_world (λ w. zk.get w (child_path l name)) s))
        (λ s. (s.0, zk.remove_listener s.1))

  -- What a round of `while True` does behind `_get_predecessor`; `rest` are the other rounds.
  abbrev pub turn : LockM Bool → Bool → Option ℕ → Option (List ℕ) → LockM Bool
  turn rest blocking timeout none = pure true
  turn rest blocking timeout (some name) =
      if blocking then (watch_predecessor name timeout >>= λ _. rest) else pure false

  unfoldable pub wait_turn : ℕ → List ℕ → Bool → Option ℕ → LockM Bool
  wait_turn zero node blocking timeout = raise out_of_fuel
  wait_turn (suc fuel) node blocking timeout = do
    change_world zk.clear
    look
    p ← get_predecessor node
    turn (wait_turn fuel node blocking timeout) blocking timeout p

  -- `_inner_acquire` behind each of its calls, from the last to the first.
  abbrev pub with_node : ℕ → Bool → Option ℕ → List ℕ → LockM Bool
  with_node fuel blocking timeout node = do
    update (λ l. record l { node = some node })
    wait_turn fuel node blocking timeout

  abbrev pub with_earlier : ℕ → Bool → Option ℕ → Bool → Option (List ℕ) → LockM Bool
  with_earlier fuel blocking timeout ephemeral earlier =
      node_or_create ephemeral earlier >>= with_node fuel blocking timeout

  abbrev pub with_path : ℕ → Bool → Option ℕ → Bool → Unit {0} → LockM Bool
  with_path fuel blocking timeout ephemeral _ = do
    l ← self
    earlier_node l >>= with_earlier fuel blocking timeout ephemeral

  abbrev pub ensure_unless : Bool → LockM (Unit {0})
  ensure_unless assured = if assured then pure tt else ensure_path

  abbrev pub contend : ℕ → Bool → Option ℕ → Bool → LockM Bool
  contend fuel blocking timeout ephemeral = do
    l ← self
    ensure_unless l.assured_path >>= with_path fuel blocking timeout ephemeral

  unfoldable pub inner_acquire : ℕ → Bool → Option ℕ → Bool → LockM Bool
  inner_acquire fuel blocking timeout ephemeral = do
    l ← self
    if l.is_acquired
        then (if blocking then raise force_retry_error else pure false)
        else contend fuel blocking timeout ephemeral

  -- self.node or self._find_node()
  abbrev pub node_or_find : Option (List ℕ) → LockM (Option (List ℕ))
  node_or_find none = find_node
  node_or_find (some name) = pure (some name)

  abbrev pub own_node : LockM (Option (List ℕ))
  own_node = do l ← self; node_or_find (truthy l.node)

  abbrev pub delete_if : Option (List ℕ) → LockM (Unit {0})
  delete_if none = pure tt
  delete_if (some name) = delete_node name

  -- except KazooException: pass
  abbrev pub pass : Exn → LockM (Unit {0})
  pass e = if is_kazoo e then pure tt else raise e

  unfoldable pub best_effort_cleanup : LockM (Unit {0})
  best_effort_cleanup = catch (own_node >>= λ name. delete_if (truthy name)) pass

  abbrev pub is_retry_failed : Exn → Bool
  is_retry_failed retry_failed_error = true
  is_retry_failed interrupted_error = true
  is_retry_failed _ = false

  -- The `except` clauses of `acquire`.
  abbrev pub uncancelled : Exn → Unit {0} → LockM Bool
  uncancelled e _ = do update (λ l. record l { cancelled = false }); raise e

  abbrev pub failed_by : Bool → Bool → Exn → LockM Bool
  failed_by true cleans e = pure false
  failed_by false true e = best_effort_cleanup >>= uncancelled e
  failed_by false false e = raise e

  abbrev pub failed : Bool → Exn → LockM Bool
  failed already e = failed_by (is_retry_failed e) (is_kazoo e && not already) e

  abbrev pub settle : Bool → Bool → LockM Bool
  settle already true = do update (λ l. record l { is_acquired = true }); pure true
  settle true false = pure false
  settle false false = best_effort_cleanup >>= λ _. pure false

  abbrev pub acquire_locked : ℕ → Bool → Option ℕ → Bool → LockM Bool
  acquire_locked fuel blocking timeout ephemeral = do
    l ← self
    gotten ←
        catch (retry zk.pause fuel (inner_acquire fuel blocking timeout ephemeral))
          (failed l.is_acquired)
    settle l.is_acquired gotten

  unfoldable pub acquire : ℕ → Bool → Bool → Option ℕ → Bool → LockM Bool
  acquire fuel method_locked blocking timeout ephemeral =
      if method_locked then acquire_locked fuel blocking timeout ephemeral else pure false

  unfoldable pub cancel : LockM (Unit {0})
  cancel = update (λ l. record l { cancelled = true })

  -- except NoNodeError: pass
  abbrev pub raise_unless : Bool → Exn → LockM (Unit {0})
  raise_unless true e = pure tt
  raise_unless false e = raise e

  -- `self.path + "/" + None` is a TypeError.
  abbrev pub delete_own : Option (List ℕ) → LockM (Unit {0})
  delete_own none = raise type_error
  delete_own (some name) = catch (delete_node name) (λ e. raise_unless (is_no_node e) e)

  abbrev pub released : LockM Bool
  released = do update (λ l. record l { is_acquired = false; node = none }); pure true

  abbrev pub release_if : Bool → Option (List ℕ) → LockM Bool
  release_if true name = delete_own name >>= λ _. released
  release_if false name = pure false

  unfoldable pub inner_release : LockM Bool
  unfolding delete_node
  inner_release = do l ← self; release_if l.is_acquired l.node

  unfoldable pub release : ℕ → LockM Bool
  release fuel = retry zk.pause fuel inner_release

  -- The data of the nodes that are still there.
  abbrev pub data_then :
      LockM (List (List ℕ))
      → (Lock × World) × Result (List ℕ × ZnodeStat)
      → (Lock × World) × Result (List (List ℕ))
  data_then rest (s, ok (bytes, stat)) =
      bind (λ text. rest >>= λ texts. pure (text ∷ texts)) (s, decode bytes)
  data_then rest (s, err e) = if is_no_node e then rest s else (s, err e)

  unfoldable pub data_of : List (List ℕ) → LockM (List (List ℕ))
  data_of [] = pure []
  data_of (name ∷ names) =
      let rest = data_of names in
      λ s. data_then rest (on_world (λ w. zk.get w (child_path s.0 name)) s)

  unfoldable pub contenders : LockM (List (List ℕ))
  contenders = do
    l ← self
    ensure_unless l.assured_path
    names ← children
    data_of (ordered l names)
