-- ===== src/Recipe/Election.antt =====
-- kazoo/recipe/election.py: `func` is the leader function, whose effects are in the world.
pub mod Leading
use kazoo.Base.{
  ℕ, List, [], Option, none, some, Bool, true, false, Exn, Result, ok, err, cancelled_error,
}
use kazoo.Recipe.{Zookeeper, M, pure, raise, catch}
use kazoo.Recipe.Lock.{Lock}
use kazoo.Recipe.Lock.Acquire

module _ (zk : Zookeeper) (fuel : ℕ)
    (func : Zookeeper.World zk → Zookeeper.World zk × Result (Unit {0})) where
  open zk use {World}

  abbrev pub ElectionM : Type 0 → Type 0
  ElectionM A = M World Lock A

  -- `__exit__`: an exception of `release` takes the place of the function's own.
  abbrev pub exits :
      Result (Unit {0}) → (Lock × World) × Result Bool → (Lock × World) × Result (Unit {0})
  exits r (s, ok done) = (s, r)
  exits r (s, err e) = (s, err e)

  -- `with self.lock:`, which takes no notice of what `acquire` returns.
  abbrev pub leads : (Lock × World) × Result Bool → (Lock × World) × Result (Unit {0})
  leads ((l, w), ok got) = let r = func w in exits r.1 (Acquire.release zk fuel (l, r.0))
  leads (s, err e) = (s, err e)

  abbrev pub pass_cancelled : Exn → ElectionM (Unit {0})
  pass_cancelled cancelled_error = pure tt
  pass_cancelled e = raise e

  unfoldable pub run : ElectionM (Unit {0})
  run = catch (λ s. leads (Acquire.acquire zk fuel true true none true s)) pass_cancelled

  unfoldable pub cancel : ElectionM (Unit {0})
  cancel = Acquire.cancel zk

  unfoldable pub contenders : ElectionM (List (List ℕ))
  contenders = Acquire.contenders zk
