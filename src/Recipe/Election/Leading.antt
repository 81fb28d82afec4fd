-- ===== src/Recipe/Election/Leading.antt =====
-- After the leader function the lock is given back.
use kazoo.Base.{ℕ, ◌≡◌, ap, ◌∙◌, Bool, true, false, Result, ok, err}
use kazoo.Recipe.{Zookeeper}
use kazoo.Recipe.Rules.{Returns}
use kazoo.Recipe.Lock.{Lock}
use kazoo.Recipe.Lock.Acquire
use kazoo.Recipe.Lock.Acquire.Released.{Released, release-Released}
use kazoo.Recipe.Election.{exits, leads}

module _ (zk : Zookeeper) (fuel : ℕ)
    (func : Zookeeper.World zk → Zookeeper.World zk × Result (Unit {0})) where
  open zk use {World}

  abbrev pub IsGivenBack : Lock × World → Unit {0} → Type 0
  IsGivenBack s _ = s.0.is_acquired ≡ false

  exits-IsGivenBack :
      (l : Lock) (r : Result (Unit {0})) (p : (Lock × World) × Result Bool)
      → Released zk l p
      → Returns IsGivenBack (exits zk fuel func r p)
  exits-IsGivenBack l (ok done) (s, ok true) h = ap (λ (k : Lock). k.is_acquired) h.1
  exits-IsGivenBack l (ok done) (s, ok false) h = ap (λ (k : Lock). k.is_acquired) h.1 ∙ h.0
  exits-IsGivenBack l (err e) (s, ok b) h = tt
  exits-IsGivenBack l r (s, err e) h = tt

  -- Where `acquire` returned and the leader function and `release` do, the lock is not acquired any more.
  pub leads-IsGivenBack :
      (l : Lock) (w : World) (got : Bool)
      → Returns IsGivenBack (leads zk fuel func ((l, w), ok got))
  leads-IsGivenBack l w got =
      let r = func w in
      exits-IsGivenBack l r.1 (Acquire.release zk fuel (l, r.0)) (release-Released zk fuel l r.0)
