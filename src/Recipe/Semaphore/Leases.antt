-- ===== src/Recipe/Semaphore/Leases.antt =====
-- When a semaphore has its lease, and when it makes one.
use mathlib.Core.Path.{subst}
use kazoo.Base.{
  ℕ, zero, suc, ◌≤◌, ◌≡◌, refl, sym, List, [], Option, Bool, true, false, ◌||◌, Exn, Result, ok,
  err, length, ltb, le→ltb,
}
use kazoo.Recipe.{Zookeeper, M, pure, raise, on_world, retry, bind, ◌>>=◌, update, is_kazoo}
use kazoo.Recipe.Rules.{
  Returns, Returns-eq, Returns-bind, Returns-then, Returns-handled, Answered, Returns-on_world,
  Returns-retry,
}
use kazoo.Recipe.Lock.{Lock, exclusive, new_lock}
use kazoo.Recipe.Lock.Acquire
use kazoo.Recipe.Semaphore.{
  Semaphore, look, listed, counted, with_path, became, create_if, confirm, get_lease, wait_lease,
  next_round, lease_loop, released_after, leased, lease_unless, inner_acquire, ensure_unless,
  failed, best_effort_cleanup, acquire, lock_path,
}

module _ (zk : Zookeeper) (shown : List ℕ → List ℕ) (fuel : ℕ) where
  open zk use {World}

  -- The servers said that the node of the lease exists.
  abbrev pub Exists : Semaphore × World → Bool → Type 0
  Exists s true = Answered (λ w. zk.exists w s.0.create_path) true
  Exists s false = Unit {0}

  exists_Answered :
      (s t : Semaphore × World) (there : Bool)
      → t.0 ≡ s.0
      → Answered (λ w. zk.exists w s.0.create_path) there
      → Exists t there
  exists_Answered s t true e a =
      subst (λ r. Answered (λ w. zk.exists w r.create_path) true) (sym e) a
  exists_Answered s t false e a = tt

  confirmed :
      (s : Semaphore) (v : World) (there : Bool)
      → Exists (s, v) there
      → Exists (record s { is_acquired = there }, v) there
  confirmed s v true h = h
  confirmed s v false h = tt

  confirm-Exists : (s : Semaphore × World) → Returns Exists (confirm zk shown fuel s)
  confirm-Exists s =
      Returns-bind (λ t there. (t.0 ≡ s.0) × Answered (λ w. zk.exists w s.0.create_path) there)
        Exists (λ there. update (λ s'. record s' { is_acquired = there }) >>= λ _. pure there)
        (on_world (λ w. zk.exists w s.0.create_path) s)
        (Returns-on_world (λ w. zk.exists w s.0.create_path) s.0 s.1)
        λ t there h. confirmed t.0 t.1 there (exists_Answered s t there h.0 h.1)

  get_lease-Exists : (s : Semaphore × World) → Returns Exists (get_lease zk shown fuel s)
  unfolding get_lease
  get_lease-Exists s = Returns-then Exists (listed zk shown fuel) (look zk shown fuel s) λ t _.
      Returns-then Exists (counted zk shown fuel t.0.max_leases)
        (on_world (λ w. zk.get_children w t.0.path) t)
        λ u names.
          Returns-then Exists (λ _. confirm zk shown fuel)
            (create_if zk shown fuel (ltb (length names) t.0.max_leases) u) λ v _. confirm-Exists v

  next_round-Exists :
      (rest : M World Semaphore Bool) (blocking : Bool) (timeout : Option ℕ) (got : Bool)
      (s : Semaphore × World)
      → Exists s got
      → ((t : Semaphore × World) → Returns Exists (rest t))
      → Returns Exists (next_round zk shown fuel rest blocking timeout got s)
  next_round-Exists rest blocking timeout true s h r = h
  next_round-Exists rest true timeout false s h r =
      Returns-then Exists (λ _. rest) (wait_lease zk shown fuel timeout s) λ t _. r t
  next_round-Exists rest false timeout false s h r = tt

  lease_loop-Exists :
      (rounds : ℕ) (blocking : Bool) (timeout : Option ℕ) (s : Semaphore × World)
      → Returns Exists (lease_loop zk shown fuel rounds blocking timeout s)
  unfolding lease_loop
  lease_loop-Exists zero blocking timeout s = tt
  lease_loop-Exists (suc rounds) blocking timeout s =
      let t : Semaphore × World = (s.0, zk.clear s.1) in
      Returns-bind Exists Exists
        (next_round zk shown fuel (lease_loop zk shown fuel rounds blocking timeout) blocking
          timeout)
        (get_lease zk shown fuel t) (get_lease-Exists t)
        λ u got h.
          next_round-Exists (lease_loop zk shown fuel rounds blocking timeout) blocking timeout got
            u h (lease_loop-Exists rounds blocking timeout)

  Exists-anywhere :
      (s : Semaphore) (v w : World) (got : Bool) → Exists (s, v) got → Exists (s, w) got
  Exists-anywhere s v w true h = h
  Exists-anywhere s v w false h = tt

  released_after-Exists :
      (s : Semaphore) (v : World) (r : Result Bool) (p : (Lock × World) × Result Bool)
      → Returns Exists ((s, v), r)
      → Returns Exists (released_after zk shown fuel s r p)
  released_after-Exists s v (ok got) ((l, w), ok done) h = Exists-anywhere s v w got h
  released_after-Exists s v (err z) ((l, w), ok done) h = tt
  released_after-Exists s v r ((l, w), err e) h = tt

  leased-Exists :
      (blocking : Bool) (timeout : Option ℕ) (s : Semaphore) (p : (Lock × World) × Result Bool)
      → Returns Exists (leased zk shown fuel blocking timeout s p)
  leased-Exists blocking timeout s ((l, w), ok true) =
      let r = lease_loop zk shown fuel fuel blocking timeout (s, w) in
      released_after-Exists r.0.0 r.0.1 r.1 (Acquire.release zk fuel (l, r.0.1))
        (lease_loop-Exists fuel blocking timeout (s, w))
  leased-Exists blocking timeout s ((l, w), ok false) =
      released_after-Exists s w (ok false) (Acquire.release zk fuel (l, w)) tt
  leased-Exists blocking timeout s ((l, w), err e) =
      released_after-Exists s w (err e) (Acquire.release zk fuel (l, w)) tt

  lease_unless-Exists :
      (blocking : Bool) (timeout : Option ℕ) (there : Bool) (s : Semaphore × World)
      → Exists s there
      → Returns Exists (lease_unless zk shown fuel blocking timeout there s)
  lease_unless-Exists blocking timeout true s h = h
  lease_unless-Exists blocking timeout false s h =
      let (v, hex) = zk.new_hex s.1 in
      leased-Exists blocking timeout s.0 (
        Acquire.acquire zk fuel true blocking timeout true
          (new_lock exclusive (lock_path s.0) (shown s.0.identity) hex [], v))

  inner_acquire-Exists :
      (blocking : Bool) (timeout : Option ℕ) (s : Semaphore × World)
      → Returns Exists (inner_acquire zk shown fuel blocking timeout s)
  unfolding inner_acquire
  inner_acquire-Exists blocking timeout s =
      Returns-then Exists (with_path zk shown fuel blocking timeout)
        (ensure_unless zk shown fuel s.0.assured_path
          (record s.0 { session_expired = false }, zk.add_listener s.1))
        λ t _.
          Returns-bind (λ u there. (u.0 ≡ t.0) × Answered (λ w. zk.exists w t.0.create_path) there)
            Exists (lease_unless zk shown fuel blocking timeout)
            (on_world (λ w. zk.exists w t.0.create_path) t)
            (Returns-on_world (λ w. zk.exists w t.0.create_path) t.0 t.1)
            λ u there h.
              lease_unless-Exists blocking timeout there u (exists_Answered t u there h.0 h.1)

  -- The semaphore says so, and the servers did.
  abbrev pub HasLease : Semaphore × World → Bool → Type 0
  HasLease s got = (s.0.is_acquired ≡ got) × Exists s got

  failed-HasLease :
      (b : Bool) (e : Exn) (s : Semaphore × World) → Returns HasLease (failed zk shown fuel b e s)
  failed-HasLease true e s =
      Returns-then HasLease (λ _. update (λ s'. record s' { cancelled = false }) >>= λ _. raise e)
        (best_effort_cleanup zk shown fuel s) λ t _. tt
  failed-HasLease false e s = tt

  acquire-Returns :
      (blocking : Bool) (timeout : Option ℕ) (s : Semaphore × World)
      → Returns HasLease (acquire zk shown fuel blocking timeout s)
  unfolding acquire
  acquire-Returns blocking timeout s =
      let t : Semaphore × World = (record s.0 { cancelled = false }, s.1) in
      Returns-handled HasLease (λ e. failed zk shown fuel (is_kazoo e) e)
        ((retry zk.pause fuel (inner_acquire zk shown fuel blocking timeout)
            >>= became zk shown fuel)
          t)
        (Returns-bind Exists HasLease (became zk shown fuel)
          (retry zk.pause fuel (inner_acquire zk shown fuel blocking timeout) t)
          (Returns-retry Exists zk.pause fuel (inner_acquire zk shown fuel blocking timeout)
            (inner_acquire-Exists blocking timeout) t)
          λ u got h. (refl, confirmed u.0 u.1 got h))
        λ e u. failed-HasLease (is_kazoo e) e u

  -- With as many children as leases or more, `_get_lease` makes no node: all that it does behind listing
  -- the children is to ask whether its own exists, unless the session was lost or the call cancelled.
  pub get_lease-full :
      (s : Semaphore) (w v : World) (names : List (List ℕ))
      → (s.session_expired || zk.loses w) ≡ false
      → (s.cancelled || zk.cancels w) ≡ false
      → zk.get_children w s.path ≡ (v, ok names)
      → s.max_leases ≤ length names
      → (get_lease zk shown fuel (s, w)).0.1 ≡ (zk.exists v s.create_path).0
  unfolding get_lease
  get_lease-full s w v names x c e m =
      rw (x, c, e, le→ltb (length names) s.max_leases m)
        (go (record s { session_expired = false; cancelled = false }) (zk.exists v s.create_path).0
          (zk.exists v s.create_path).1)
    where
      go :
          (t : Semaphore) (u : World) (r : Result Bool)
          → (bind
              (λ there. update (λ s'. record s' { is_acquired = there }) >>= λ _. pure there)
              ((t, u), r)).0.1
            ≡ u
      go t u (ok there) = refl
      go t u (err z) = refl

  -- If `acquire` returns, `is_acquired` is what it returned, and if that is True the servers said that the
  -- node of the lease exists.
  pub acquire-HasLease :
      (blocking : Bool) (timeout : Option ℕ) (s t : Semaphore × World) (got : Bool)
      → acquire zk shown fuel blocking timeout s ≡ (t, ok got)
      → HasLease t got
  acquire-HasLease blocking timeout s t got h =
      Returns-eq HasLease (acquire zk shown fuel blocking timeout s) t got
        (acquire-Returns blocking timeout s) h
