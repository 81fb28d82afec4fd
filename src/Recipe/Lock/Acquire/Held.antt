-- ===== src/Recipe/Lock/Acquire/Held.antt =====
-- What holds of a lock when `acquire` returns True.
use mathlib.Core.Path.{subst}
use kazoo.Base.{
  ℕ, zero, suc, sym, ap, ◌∙◌, ◌≡◌, refl, List, Option, none, some, Bool, true, false, Exn, Result,
  ok, err, ◌||◌, if◌then◌else◌, cancelled_error, force_retry_error, ◌&&◌, not,
}
use kazoo.Protocol.Records.{ZnodeStat}
use kazoo.Recipe.{Zookeeper, M, pure, raise, is_kazoo, bind, ◌>>=◌, retry}
use kazoo.Recipe.Rules.{
  Returns, Returns-bind, Returns-retry, Returns-handled, Returns-intro, Returns-then, Returns-eq,
}
use kazoo.Recipe.Lock.{Lock, predecessor_of}
use kazoo.Recipe.Lock.Exclusion.{Granted}
use kazoo.Recipe.Lock.Acquire.{
  contend, with_path, with_earlier, with_node, ensure_unless, failed_by, uncancelled, earlier_node,
  node_or_create, best_effort_cleanup, is_retry_failed, inner_acquire, wait_turn, turn, acquire,
  settle, failed, get_predecessor, watch_predecessor, after_get, child_path,
}

module _ (zk : Zookeeper) where
  open zk use {World}

  -- At some moment the children of the lock's path were such that its node came first.
  abbrev pub IsHeld : Lock → Type 0
  IsHeld l =
      (w : World) × ((node : List ℕ) × ((names : List (List ℕ)) × ((l.node ≡ some node)
            × (((zk.get_children w l.path).1 ≡ ok names) × Granted l node names))))

  abbrev pub Acquired : Lock × World → Bool → Type 0
  Acquired s true = IsHeld s.0
  Acquired s false = Unit {0}

  after_get_same :
      (l : Lock) (timeout : Option ℕ) (w : World) (r : Result (List ℕ × ZnodeStat))
      → (after_get zk timeout ((l, w), r)).0.0 ≡ l
  after_get_same l timeout w (ok found) = refl
  after_get_same l timeout w (err e) = refl

  -- A round with the predecessor that was found.
  turn-Acquired :
      (rest : M World Lock Bool) (blocking : Bool) (timeout : Option ℕ) (l : Lock) (w : World)
      (p : Option (List ℕ))
      → (p ≡ none → IsHeld l)
      → ((v : World) → Returns Acquired (rest (l, v)))
      → Returns Acquired (turn zk rest blocking timeout p (l, w))
  turn-Acquired rest blocking timeout l w none g h = g refl
  turn-Acquired rest false timeout l w (some name) g h = tt
  turn-Acquired rest true timeout l w (some name) g h =
      Returns-bind (λ s _. s.0 ≡ l) Acquired (λ _. rest) waited
        (Returns-intro {W = World} {S = Lock} {A = Unit {0}} (λ s _. s.0 ≡ l) waited
          λ s _ e. sym (ap (λ q. q.0.0) e) ∙ after_get_same l timeout found.0 found.1)
        λ s _ e. subst (λ l'. Returns Acquired (rest (l', s.1))) (sym e) (h s.1)
    where
      found : World × Result (List ℕ × ZnodeStat)
      found = zk.get (zk.add_listener w) (child_path zk l name)

      waited : (Lock × World) × Result (Unit {0})
      waited = watch_predecessor zk name timeout (l, w)

  held :
      (l : Lock) (node : List ℕ) (w : World) (names : List (List ℕ)) (p : Option (List ℕ))
      → l.node ≡ some node
      → (zk.get_children w l.path).1 ≡ ok names
      → predecessor_of l node names ≡ ok p
      → p ≡ none
      → IsHeld l
  held l node w names p own e q first = (w, (node, (names, (own, (e, q ∙ ap ok first)))))

  module _ (rest : M World Lock Bool) (blocking : Bool) (timeout : Option ℕ) (node : List ℕ) where
    decided-Acquired :
        (l : Lock) (w : World) (names : List (List ℕ)) (v : World) (r : Result (Option (List ℕ)))
        → l.node ≡ some node
        → (zk.get_children w l.path).1 ≡ ok names
        → predecessor_of l node names ≡ r
        → ((v : World) → Returns Acquired (rest (l, v)))
        → Returns Acquired (bind (turn zk rest blocking timeout) ((l, v), r))
    decided-Acquired l w names v (ok p) own e q h =
        turn-Acquired rest blocking timeout l v p (held l node w names p own e q) h
    decided-Acquired l w names v (err z) own e q h = tt

    listed-Acquired :
        (l : Lock) (w v : World) (r : Result (List (List ℕ)))
        → l.node ≡ some node
        → (zk.get_children w l.path).1 ≡ r
        → ((v : World) → Returns Acquired (rest (l, v)))
        → Returns Acquired (
            bind
              (turn zk rest blocking timeout)
              (bind (λ names s. (s, predecessor_of l node names)) ((l, v), r)))
    listed-Acquired l w v (ok names) own e h =
        decided-Acquired l w names v (predecessor_of l node names) own e refl h
    listed-Acquired l w v (err z) own e h = tt

  wait_turn-Acquired :
      (fuel : ℕ) (node : List ℕ) (blocking : Bool) (timeout : Option ℕ) (l : Lock) (w : World)
      → l.node ≡ some node
      → Returns Acquired (wait_turn zk fuel node blocking timeout (l, w))
  unfolding wait_turn
  wait_turn-Acquired zero node blocking timeout l w own = tt
  wait_turn-Acquired (suc fuel) node blocking timeout l w own =
      elim (l.cancelled || zk.cancels (zk.clear w))
        as (λ c. Returns Acquired (
          bind
            (λ _.
              get_predecessor zk node
              >>= turn zk (wait_turn zk fuel node blocking timeout) blocking timeout)
            ((record l { cancelled = c }, zk.clear w), if c then err cancelled_error else ok tt))) [
              | true ↦ tt
              | false ↦
                  let l' = record l { cancelled = false } in
                  let read = zk.get_children (zk.clear w) l.path in
                  listed-Acquired (wait_turn zk fuel node blocking timeout) blocking timeout node l'
                    (zk.clear w) read.0 read.1 own refl
                    λ v. wait_turn-Acquired fuel node blocking timeout l' v own
            ]

  contend-Acquired :
      (fuel : ℕ) (blocking : Bool) (timeout : Option ℕ) (ephemeral : Bool) (s : Lock × World)
      → Returns Acquired (contend zk fuel blocking timeout ephemeral s)
  contend-Acquired fuel blocking timeout ephemeral s =
      Returns-then Acquired (with_path zk fuel blocking timeout ephemeral)
        (ensure_unless zk s.0.assured_path s)
        λ t _.
          Returns-then Acquired (with_earlier zk fuel blocking timeout ephemeral)
            (earlier_node zk t.0 t)
            λ u earlier.
              Returns-then Acquired (with_node zk fuel blocking timeout)
                (node_or_create zk ephemeral earlier u)
                λ v node.
                  wait_turn-Acquired fuel node blocking timeout (record v.0 { node = some node })
                    v.1 refl

  inner_acquire-Acquired :
      (fuel : ℕ) (blocking : Bool) (timeout : Option ℕ) (ephemeral : Bool) (s : Lock × World)
      → Returns Acquired (inner_acquire zk fuel blocking timeout ephemeral s)
  unfolding inner_acquire
  inner_acquire-Acquired fuel blocking timeout ephemeral s =
      go s.0.is_acquired blocking (contend-Acquired fuel blocking timeout ephemeral s)
    where
      go :
          (acquired blocks : Bool)
          → Returns Acquired (contend zk fuel blocking timeout ephemeral s)
          → Returns Acquired (
              (if acquired
                  then (if blocks then raise force_retry_error else pure false)
                  else contend zk fuel blocking timeout ephemeral)
                s)
      go true true h = tt
      go true false h = tt
      go false blocks h = h

  -- `acquire` returned True.
  abbrev pub Settled : Lock × World → Bool → Type 0
  Settled s true = (s.0.is_acquired ≡ true) × IsHeld s.0
  Settled s false = Unit {0}

  failed_by-Acquired :
      (is_over cleans : Bool) (e : Exn) (s : Lock × World)
      → Returns Acquired (failed_by zk is_over cleans e s)
  failed_by-Acquired true cleans e s = tt
  failed_by-Acquired false true e s =
      Returns-then Acquired (uncancelled zk e) (best_effort_cleanup zk s) λ t _. tt
  failed_by-Acquired false false e s = tt

  settle-Settled :
      (already gotten : Bool) (s : Lock × World)
      → Acquired s gotten
      → Returns Settled (settle zk already gotten s)
  unfolding predecessor_of
  settle-Settled already true s h = (refl, h)
  settle-Settled true false s h = tt
  settle-Settled false false s h =
      Returns-then Settled (λ _. pure false) (best_effort_cleanup zk s) λ t _. tt

  acquire-Settled :
      (fuel : ℕ) (method_locked blocking : Bool) (timeout : Option ℕ) (ephemeral : Bool)
      (s : Lock × World)
      → Returns Settled (acquire zk fuel method_locked blocking timeout ephemeral s)
  unfolding acquire
  acquire-Settled fuel false blocking timeout ephemeral s = tt
  acquire-Settled fuel true blocking timeout ephemeral s =
      Returns-bind Acquired Settled (settle zk s.0.is_acquired) _
        (Returns-handled Acquired (failed zk s.0.is_acquired)
          (retry zk.pause fuel (inner_acquire zk fuel blocking timeout ephemeral) s)
          (Returns-retry Acquired zk.pause fuel (inner_acquire zk fuel blocking timeout ephemeral)
            (inner_acquire-Acquired fuel blocking timeout ephemeral) s)
          λ e t. failed_by-Acquired (is_retry_failed zk e) (is_kazoo e && not s.0.is_acquired) e t)
        λ t gotten h. settle-Settled s.0.is_acquired gotten t h

  -- If `acquire` returns True, the lock is acquired, and at some moment the servers listed children among
  -- which the lock's node was the first of the contenders.
  pub acquire-IsHeld :
      (fuel : ℕ) (method_locked blocking : Bool) (timeout : Option ℕ) (ephemeral : Bool)
      (s s' : Lock × World)
      → acquire zk fuel method_locked blocking timeout ephemeral s ≡ (s', ok true)
      → (s'.0.is_acquired ≡ true) × IsHeld s'.0
  acquire-IsHeld fuel method_locked blocking timeout ephemeral s s' h =
      Returns-eq Settled (acquire zk fuel method_locked blocking timeout ephemeral s) s' true
        (acquire-Settled fuel method_locked blocking timeout ephemeral s) h
