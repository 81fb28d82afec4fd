-- ===== src/Recipe/Semaphore.antt =====
-- `Semaphore` of kazoo/recipe/lock.py. `shown` is `str(identifier or "")` of a byte string, which the
-- code passes to `Lock` as the identifier.
pub mod Leases
use kazoo.Base.{
  ℕ, zero, suc, ◌-◌, List, [], ◌∷◌, ◌++◌, Option, none, some, Bool, true, false, ◌||◌, Exn, Result,
  ok, err, length, if◌then◌else◌, ltb, force_retry_error, cancelled_error, lock_timeout,
  value_error, out_of_fuel,
}
use kazoo.Base.Int.{ℤ, pos, int_eq}
use kazoo.Protocol.Records.{ZnodeStat}
use kazoo.Python.Text.{codes}
use kazoo.Python.Utf8.{decode}
use kazoo.Python.Decimal.{str, int}
use kazoo.Recipe.{
  Zookeeper, M, pure, raise, on_world, handled, catch, retry, bind, ◌>>=◌, ◌>>◌, change_world, self,
  update, is_no_node, is_kazoo,
}
use kazoo.Recipe.Lock.{Lock, exclusive, new_lock}
use kazoo.Recipe.Lock.Acquire

pub record Semaphore : Type 0 where
  pub path : List ℕ
  pub identity : List ℕ
  pub max_leases : ℕ
  pub create_path : List ℕ
  pub is_acquired : Bool
  pub assured_path : Bool
  pub cancelled : Bool
  pub session_expired : Bool

unfoldable pub new_semaphore : List ℕ → List ℕ → ℕ → List ℕ → Semaphore
new_semaphore path identity max_leases hex = record {
  path = path;
  identity = identity;
  max_leases = max_leases;
  create_path = path ++ (codes "/" ++ hex);
  is_acquired = false;
  assured_path = false;
  cancelled = false;
  session_expired = false;
}

abbrev pub lock_path : Semaphore → List ℕ
lock_path s = s.path ++ codes "-__lock__"

-- `int(data.decode("utf-8"))`, or None where the data is not numeric.
abbrev int_of : Result (List ℕ) → Option ℤ
int_of (ok text) = int text
int_of (err e) = none

unfoldable pub stored_leases : List ℕ → Option ℤ
stored_leases bytes = int_of (decode bytes)

-- Whether the stored value allows this semaphore.
abbrev pub allows : Option ℤ → ℕ → Bool
allows none n = true
allows (some z) n = int_eq z (pos n)

module _ (zk : Zookeeper) (shown : List ℕ → List ℕ) (fuel : ℕ) where
  open zk use {World}

  abbrev pub SemaphoreM : Type 0 → Type 0
  SemaphoreM A = M World Semaphore A

  abbrev pub check_leases : Bool → SemaphoreM (Unit {0})
  check_leases true = do
    s ← self
    found ← on_world (λ w. zk.get w s.path)
    if allows (stored_leases found.0) s.max_leases then pure tt else raise value_error
  check_leases false = do s ← self; on_world (λ w. zk.set w s.path (str s.max_leases) none)

  unfoldable pub ensure_path : SemaphoreM (Unit {0})
  ensure_path = do
    s ← self
    there ← on_world (λ w. zk.ensure_path w s.path)
    update (λ s'. record s' { assured_path = true })
    check_leases there

  abbrev pub ensure_unless : Bool → SemaphoreM (Unit {0})
  ensure_unless true = pure tt
  ensure_unless false = ensure_path

  unfoldable pub cancel : SemaphoreM (Unit {0})
  cancel = update (λ s. record s { cancelled = true })

  -- The tests of `_session_expired` and `cancelled`, which other threads may have set.
  abbrev pub look : SemaphoreM (Unit {0})
  look (s, w) =
      let x = s.session_expired || zk.loses w in
      let c = s.cancelled || zk.cancels w in
      (
        (record s { session_expired = x; cancelled = c }, w),
        if x then err force_retry_error else if c then err cancelled_error else ok tt,
      )

  abbrev pub create_if : Bool → SemaphoreM (Unit {0})
  create_if true = do
    s ← self
    made ← on_world (λ w. zk.create w s.create_path s.identity true false)
    pure tt
  create_if false = pure tt

  -- Whether the lease's node exists, which is what `is_acquired` becomes.
  abbrev pub confirm : SemaphoreM Bool
  confirm = do
    s ← self
    there ← on_world (λ w. zk.exists w s.create_path)
    update (λ s'. record s' { is_acquired = there })
    pure there

  -- `_get_lease` behind each of its calls, from the last to the first.
  abbrev pub counted : ℕ → List (List ℕ) → SemaphoreM Bool
  counted max_leases names = create_if (ltb (length names) max_leases) >>= λ _. confirm

  abbrev pub listed : Unit {0} → SemaphoreM Bool
  listed _ = do s ← self; on_world (λ w. zk.get_children w s.path) >>= counted s.max_leases

  unfoldable pub get_lease : SemaphoreM Bool
  get_lease = look >>= listed

  -- The time that is left of a timeout is what the world says of the clock.
  abbrev pub wait_lease : Option ℕ → SemaphoreM (Unit {0})
  wait_lease timeout (s, w) =
      let r = zk.wait w timeout in ((s, r.0), if r.1 then ok tt else err lock_timeout)

  abbrev pub next_round : SemaphoreM Bool → Bool → Option ℕ → Bool → SemaphoreM Bool
  next_round rest blocking timeout true = pure true
  next_round rest true timeout false = wait_lease timeout >>= λ _. rest
  next_round rest false timeout false = pure false

  unfoldable pub lease_loop : ℕ → Bool → Option ℕ → SemaphoreM Bool
  lease_loop zero blocking timeout = raise out_of_fuel
  lease_loop (suc rounds) blocking timeout = do
    change_world zk.clear
    got ← get_lease
    next_round (lease_loop rounds blocking timeout) blocking timeout got

  -- A method of a lock that this call made.
  abbrev pub with_lock :
      {A : Type 0} → M World Lock A → Lock → Semaphore × World → (Lock × World) × Result A
  with_lock m l s = m (l, s.1)

  -- try: ... finally: lock.release(), whose own exception wins.
  abbrev pub released_after :
      Semaphore → Result Bool → (Lock × World) × Result Bool → (Semaphore × World) × Result Bool
  released_after s r ((l, w), ok done) = ((s, w), r)
  released_after s r ((l, w), err e) = ((s, w), err e)

  abbrev pub leased :
      Bool → Option ℕ → Semaphore → (Lock × World) × Result Bool → (Semaphore × World) × Result Bool
  leased blocking timeout s ((l, w), ok true) =
      let r = lease_loop fuel blocking timeout (s, w) in
      released_after r.0.0 r.1 (Acquire.release zk fuel (l, r.0.1))
  leased blocking timeout s ((l, w), ok false) =
      released_after s (ok false) (Acquire.release zk fuel (l, w))
  leased blocking timeout s ((l, w), err e) =
      released_after s (err e) (Acquire.release zk fuel (l, w))

  abbrev pub under_lock : Bool → Option ℕ → SemaphoreM Bool
  under_lock blocking timeout (s, w) =
      let (v, hex) = zk.new_hex w in
      let l = new_lock exclusive (lock_path s) (shown s.identity) hex [] in
      leased blocking timeout s (Acquire.acquire zk fuel true blocking timeout true (l, v))

  abbrev pub lease_unless : Bool → Option ℕ → Bool → SemaphoreM Bool
  lease_unless blocking timeout true = pure true
  lease_unless blocking timeout false = under_lock blocking timeout

  abbrev pub with_path : Bool → Option ℕ → Unit {0} → SemaphoreM Bool
  with_path blocking timeout _ = do
    s ← self
    on_world (λ w. zk.exists w s.create_path) >>= lease_unless blocking timeout

  unfoldable pub inner_acquire : Bool → Option ℕ → SemaphoreM Bool
  inner_acquire blocking timeout = do
    update (λ s. record s { session_expired = false })
    change_world zk.add_listener
    s ← self
    ensure_unless s.assured_path >>= with_path blocking timeout

  abbrev pub pass : Exn → SemaphoreM (Unit {0})
  pass e = if is_kazoo e then pure tt else raise e

  unfoldable pub best_effort_cleanup : SemaphoreM (Unit {0})
  best_effort_cleanup = do s ← self; catch (on_world (λ w. zk.delete w s.create_path)) pass

  abbrev pub failed : Bool → Exn → SemaphoreM Bool
  failed true e = do best_effort_cleanup; update (λ s. record s { cancelled = false }); raise e
  failed false e = raise e

  abbrev pub became : Bool → SemaphoreM Bool
  became got = do update (λ s. record s { is_acquired = got }); pure got

  unfoldable pub acquire : Bool → Option ℕ → SemaphoreM Bool
  acquire blocking timeout = do
    update (λ s. record s { cancelled = false })
    catch (retry zk.pause fuel (inner_acquire blocking timeout) >>= became)
        (λ e. failed (is_kazoo e) e)

  abbrev pub gone_if : Bool → Exn → SemaphoreM (Unit {0})
  gone_if true e = pure tt
  gone_if false e = raise e

  abbrev pub release_if : Bool → SemaphoreM Bool
  release_if true = do
    s ← self
    catch (on_world (λ w. zk.delete w s.create_path)) (λ e. gone_if (is_no_node e) e)
    update (λ s'. record s' { is_acquired = false })
    pure true
  release_if false = pure false

  unfoldable pub inner_release : SemaphoreM Bool
  inner_release = do s ← self; release_if s.is_acquired

  unfoldable pub release : SemaphoreM Bool
  release = retry zk.pause fuel inner_release

  abbrev pub holder_then :
      SemaphoreM (List (List ℕ))
      → (Semaphore × World) × Result (List ℕ × ZnodeStat)
      → (Semaphore × World) × Result (List (List ℕ))
  holder_then rest (s, ok (bytes, stat)) =
      bind (λ text. rest >>= λ texts. pure (text ∷ texts)) (s, decode bytes)
  holder_then rest (s, err e) = if is_no_node e then rest s else (s, err e)

  unfoldable pub holders_of : List (List ℕ) → SemaphoreM (List (List ℕ))
  holders_of [] = pure []
  holders_of (name ∷ names) =
      let rest = holders_of names in
      λ s. holder_then rest (on_world (λ w. zk.get w (s.0.path ++ (codes "/" ++ name))) s)

  abbrev pub holders_if : Bool → SemaphoreM (List (List ℕ))
  holders_if false = pure []
  holders_if true = do s ← self; names ← on_world (λ w. zk.get_children w s.path); holders_of names

  unfoldable pub lease_holders : SemaphoreM (List (List ℕ))
  lease_holders = do s ← self; there ← on_world (λ w. zk.exists w s.path); holders_if there
