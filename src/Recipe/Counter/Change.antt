-- ===== src/Recipe/Counter/Change.antt =====
-- A counter that was changed had the value before, and the servers took the new one for that version.
use mathlib.Core.Path.{subst}
use kazoo.Base.{ℕ, ◌≡◌, refl, sym, List, some, Bool, true, false, Exn, Result, ok, err}
use kazoo.Base.Int.{ℤ}
use kazoo.Protocol.Records.{ZnodeStat}
use kazoo.Recipe.{Zookeeper, pure, on_world, catch, bind, ◌>>=◌, update}
use kazoo.Recipe.Rules.{
  Returns, Returns-eq, Returns-bind, Returns-then, Returns-handled, Answered, Returns-on_world,
  Returns-retry,
}
use kazoo.Recipe.Counter.{
  Numeric, CounterState, decoded, encoded, ensure_unless, get_value, value, change_from,
  inner_change, change, is_bad_version, retry_if,
}

module _ (zk : Zookeeper) (num : Numeric) where
  open zk use {World}
  open num use {Number}

  -- The node's data stood for the number, with the version.
  abbrev pub IsRead : CounterState num → Number × ℤ → Type 0
  IsRead c r =
      (found : List ℕ × ZnodeStat) × ((Answered (λ w. zk.get w c.path) found)
        × ((decoded num c found.0 ≡ ok r.0) × (found.1.version ≡ r.1)))

  -- The servers took a number for a version of the node.
  abbrev pub IsWritten : CounterState num → Number → ℤ → Type 0
  IsWritten c n version =
      (bytes : List ℕ) × ((encoded num c n ≡ ok bytes)
        × Answered (λ w. zk.set w c.path bytes (some version)) tt)

  abbrev pub IsChanged : Number → CounterState num × World → Unit {0} → Type 0
  IsChanged by s _ =
      (pre : Number) × ((version : ℤ) × ((IsRead s.0 (pre, version))
          × ((IsWritten s.0 (num.add pre by) version)
              × ((s.0.pre_value ≡ some pre) × (s.0.post_value ≡ some (num.add pre by))))))

  decode-IsRead :
      (c : CounterState num) (w : World) (found : List ℕ × ZnodeStat) (r : Result Number)
      → Answered (λ v. zk.get v c.path) found
      → decoded num c found.0 ≡ r
      → Returns (λ t q. IsRead t.0 q) (bind (λ n. pure (n, found.1.version)) ((c, w), r))
  decode-IsRead c w found (ok n) a e = (found, (a, (e, refl)))
  decode-IsRead c w found (err z) a e = tt

  get_value-IsRead :
      (s : CounterState num × World) → Returns (λ t r. IsRead t.0 r) (get_value zk num s)
  get_value-IsRead s =
      Returns-bind (λ t found. (t.0 ≡ s.0) × Answered (λ v. zk.get v s.0.path) found)
        (λ t r. IsRead t.0 r)
        (λ found. (λ t. (t, decoded num s.0 found.0)) >>= λ n. pure (n, found.1.version))
        (on_world (λ w. zk.get w s.0.path) s) (Returns-on_world (λ w. zk.get w s.0.path) s.0 s.1)
        λ t found h.
          subst
            (λ c.
              Returns (λ u r. IsRead u.0 r)
                (bind (λ n. pure (n, found.1.version)) ((c, t.1), decoded num s.0 found.0)))
            (sym h.0) (decode-IsRead s.0 t.1 found (decoded num s.0 found.0) h.1 refl)

  value-IsRead : (s : CounterState num × World) → Returns (λ t r. IsRead t.0 r) (value zk num s)
  unfolding value
  value-IsRead s =
      Returns-then (λ t r. IsRead t.0 r) (λ _. get_value zk num)
        (ensure_unless zk num s.0.ensured_path s) λ t _. get_value-IsRead t

  retry_if-Returns :
      (Q : CounterState num × World → Unit {0} → Type 0) (b : Bool) (e : Exn)
      (s : CounterState num × World)
      → Returns Q (retry_if zk num b e s)
  retry_if-Returns Q true e s = tt
  retry_if-Returns Q false e s = tt

  -- The call of `set`, with its handler.
  write-IsChanged :
      (by pre : Number) (version : ℤ) (c : CounterState num) (w : World) (r : Result (List ℕ))
      → c.pre_value ≡ some pre
      → IsRead c (pre, version)
      → encoded num c (num.add pre by) ≡ r
      → Returns (IsChanged by) (
          bind
            (λ bytes.
              catch
                (on_world (λ v. zk.set v c.path bytes (some version)))
                (λ e. retry_if zk num (is_bad_version e) e)
              >>= λ _. update (λ c'. record c' { post_value = some (num.add pre by) }))
            ((c, w), r))
  write-IsChanged by pre version c w (ok bytes) p read e =
      Returns-bind done_at (IsChanged by)
        (λ _. update (λ c'. record c' { post_value = some (num.add pre by) }))
        (catch (on_world (λ v. zk.set v c.path bytes (some version)))
          (λ z. retry_if zk num (is_bad_version z) z) (c, w))
        (Returns-handled done_at (λ z. retry_if zk num (is_bad_version z) z)
          (on_world (λ v. zk.set v c.path bytes (some version)) (c, w))
          (Returns-on_world (λ v. zk.set v c.path bytes (some version)) c w)
          λ z t. retry_if-Returns done_at (is_bad_version z) z t)
        λ t done h.
          subst (λ c'. IsChanged by (record c' { post_value = some (num.add pre by) }, t.1) tt)
            (sym h.0) (pre, (version, (read, ((bytes, (e, h.1)), (p, refl)))))
    where
      done_at : CounterState num × World → Unit {0} → Type 0
      done_at t done = (t.0 ≡ c) × Answered (λ v. zk.set v c.path bytes (some version)) done
  write-IsChanged by pre version c w (err z) p read e = tt

  inner_change-IsChanged :
      (by : Number) (s : CounterState num × World)
      → Returns (IsChanged by) (inner_change zk num by s)
  unfolding inner_change
  inner_change-IsChanged by s =
      Returns-bind (λ t r. IsRead t.0 r) (IsChanged by) (change_from zk num by) (value zk num s)
        (value-IsRead s)
        λ t (pre, version) read.
          let c = record t.0 { pre_value = some pre } in
          write-IsChanged by pre version c t.1 (encoded num c (num.add pre by)) refl read refl

  change-Returns :
      (fuel : ℕ) (by : Number) (s : CounterState num × World)
      → Returns (IsChanged by) (change zk num fuel by s)
  unfolding change
  change-Returns fuel by s =
      Returns-retry (IsChanged by) zk.pause fuel (inner_change zk num by)
        (inner_change-IsChanged by) s

  -- If `_change` returns, the servers had given data for the value before, and took the data of that
  -- value and the change for the same version of the node; the counter has both values.
  pub change-IsChanged :
      (fuel : ℕ) (by : Number) (s t : CounterState num × World)
      → change zk num fuel by s ≡ (t, ok tt)
      → IsChanged by t tt
  change-IsChanged fuel by s t h =
      Returns-eq (IsChanged by) (change zk num fuel by s) t tt (change-Returns fuel by s) h
