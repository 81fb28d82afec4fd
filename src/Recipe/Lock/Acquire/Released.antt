-- ===== src/Recipe/Lock/Acquire/Released.antt =====
-- What `release` does, on every branch.
use mathlib.Core.Path.{subst}
use kazoo.Base.{
  ℕ, zero, suc, ◌≡◌, refl, sym, ap, ◌∙◌, List, Option, none, some, Bool, true, false, Exn, Result,
  ok, err, arith, Bool-cases, inl, inr, ◌⊎◌, zookeeper_error,
}
use kazoo.Exceptions.{no_node_error}
use kazoo.Recipe.{Zookeeper, M, bind, handled, is_no_node, retry, retried, retry_if, again}
use kazoo.Retry.{is_retryable}
use kazoo.Recipe.Lock.{Lock}
use kazoo.Recipe.Lock.Acquire.{
  inner_release, release, release_if, released, raise_unless, delete_node, child_path,
}

is_no_node_lem : (e : Exn) → is_no_node e ≡ true → e ≡ zookeeper_error no_node_error
is_no_node_lem e h = ground arith

module _ (zk : Zookeeper) where
  open zk use {World}

  -- The server was told to delete the lock's node, and it did so or there was none.
  abbrev pub IsDeleted : Lock → Type 0
  IsDeleted l =
      (w : World) × ((name : List ℕ) × ((l.node ≡ some name)
          × (((zk.delete w (child_path zk l name)).1 ≡ ok tt)
              ⊎ ((zk.delete w (child_path zk l name)).1 ≡ err (zookeeper_error no_node_error)))))

  abbrev pub Released : Lock → (Lock × World) × Result Bool → Type 0
  Released l (s, ok true) =
      (l.is_acquired ≡ true) × (s.0 ≡ record l { is_acquired = false; node = none }) × IsDeleted l
  Released l (s, ok false) = (l.is_acquired ≡ false) × (s.0 ≡ l)
  Released l (s, err e) = s.0 ≡ l

  module _ (l : Lock) where
    -- Behind the call of `delete` for a node.
    deleted-Released :
        (name : List ℕ) (w v : World) (r : Result (Unit {0}))
        → l.is_acquired ≡ true
        → l.node ≡ some name
        → (zk.delete w (child_path zk l name)).1 ≡ r
        → Released l
            (bind (λ _. released zk) (handled (λ e. raise_unless zk (is_no_node e) e) ((l, v), r)))
    deleted-Released name w v (ok done) a n e = (a, refl, (w, (name, (n, inl e))))
    deleted-Released name w v (err z) a n e = elim (Bool-cases (is_no_node z)) [
      | inl t ↦
          subst (λ b. Released l (bind (λ _. released zk) (raise_unless zk b z (l, v)))) (sym t)
            (a, refl, (w, (name, (n, inr (e ∙ ap err (is_no_node_lem z t))))))
      | inr f ↦
          subst (λ b. Released l (bind (λ _. released zk) (raise_unless zk b z (l, v)))) (sym f)
            refl
    ]

    release_if-Released :
        (acquired : Bool) (node : Option (List ℕ)) (w : World)
        → l.is_acquired ≡ acquired
        → l.node ≡ node
        → Released l (release_if zk acquired node (l, w))
    unfolding delete_node
    release_if-Released false child w a n = (a, refl)
    release_if-Released true none w a n = refl
    release_if-Released true (some name) w a n =
        let r = zk.delete w (child_path zk l name) in deleted-Released name w r.0 r.1 a n refl

    inner_release-Released : (w : World) → Released l (inner_release zk (l, w))
    unfolding inner_release
    inner_release-Released w = release_if-Released l.is_acquired l.node w refl refl

    again-Released :
        (m : M World Lock Bool) (k : Lock) (p : World × Option Exn)
        → ((w : World) → Released l (m (l, w)))
        → k ≡ l
        → Released l (again m k p)
    again-Released m k (w, none) h e = subst (λ q. Released l (m (q, w))) (sym e) (h w)
    again-Released m k (w, some z) h e = e

    retry_if-Released :
        (b : Bool) (z : Exn) (m : M World Lock Bool) (s : Lock × World)
        → ((w : World) → Released l (m (l, w)))
        → s.0 ≡ l
        → Released l (retry_if b z zk.pause m s)
    retry_if-Released true z m s h e = again-Released m s.0 (zk.pause s.1) h e
    retry_if-Released false z m s h e = e

    retried-Released :
        (m : M World Lock Bool) (r : (Lock × World) × Result Bool)
        → ((w : World) → Released l (m (l, w)))
        → Released l r
        → Released l (retried zk.pause m r)
    unfolding retried
    retried-Released m (s, ok true) h g = g
    retried-Released m (s, ok false) h g = g
    retried-Released m (s, err e) h g = retry_if-Released (is_retryable true e) e m s h g

    retry-Released :
        (fuel : ℕ) (w : World) → Released l (retry zk.pause fuel (inner_release zk) (l, w))
    unfolding retry
    retry-Released zero w = refl
    retry-Released (suc fuel) w =
        retried-Released (retry zk.pause fuel (inner_release zk)) (inner_release zk (l, w))
          (retry-Released fuel) (inner_release-Released w)

  -- `release` returns True only for a lock that was acquired, where the servers deleted its node or had
  -- none, and then the lock has no node and is not acquired; it returns False only for a lock that was not
  -- acquired; in this case and where it raises the lock is as it was.
  pub release-Released : (fuel : ℕ) (l : Lock) (w : World) → Released l (release zk fuel (l, w))
  unfolding release
  release-Released fuel l w = retry-Released l fuel w
