-- ===== src/Recipe/Lease.antt =====
-- kazoo/recipe/lease.py. `Format` is what the code uses of `json` and `datetime`: `encode` and `decode`
-- of the stored record, where a time is a number, and what the text of an end stands for.
pub mod Obtained
use kazoo.Base.{
  ℕ, zero, suc, ◌+◌, List, [], ◌∷◌, ◌++◌, Option, none, some, Bool, true, false, not, ◌&&◌, ◌||◌,
  Exn, Result, ok, err, cancelled_error, if◌then◌else◌, ltb, list_eq, ◌==◌,
}
use kazoo.Python.Text.{codes}
use kazoo.Python.Utf8.{encode}
use kazoo.Python.Decimal.{str}
use kazoo.Recipe.{
  Zookeeper, M, pure, raise, on_world, handled, catch, bind, ◌>>=◌, ◌>>◌, self, update,
}
use kazoo.Recipe.Lock.{Lock, exclusive, new_lock}
use kazoo.Recipe.Lock.Acquire

pub record LeaseData : Type 0 where
  pub version : ℕ
  pub holder : List ℕ
  pub end_date : List ℕ

pub record Format : Type 0 where
  pub encode : LeaseData → List ℕ
  pub decode : List ℕ → Result LeaseData
  pub strftime : ℕ → List ℕ
  pub strptime : List ℕ → Result ℕ

abbrev pub lease_version : ℕ
lease_version = 1

-- The lease, while its lock is held: whether it was obtained.
module _ (zk : Zookeeper) (f : Format) (utcnow : Zookeeper.World zk → ℕ) where
  open zk use {World}

  abbrev pub LeaseM : Type 0 → Type 0
  LeaseM A = M World Bool A

  abbrev pub holder_path : List ℕ → List ℕ
  holder_path path = path ++ codes "/lease_holder"

  -- The new holder of the lease.
  abbrev pub take_lease : List ℕ → List ℕ → ℕ → LeaseM (Unit {0})
  take_lease path ident until = do
    made ← on_world (λ w.
        zk.create w (holder_path path)
          (f.encode
            (record { version = lease_version; holder = ident; end_date = f.strftime until }))
          false false)
    update (λ _. true)

  -- What is decided on the record that is there, and the end that it stands for.
  abbrev pub is_held_by_other : List ℕ → ℕ → LeaseData → ℕ → Bool
  is_held_by_other ident now found current_end =
      not (list_eq found.holder ident) && ltb now current_end

  abbrev pub replace_unless : Bool → List ℕ → List ℕ → ℕ → LeaseM (Unit {0})
  replace_unless true path ident until = pure tt
  replace_unless false path ident until = do
    on_world (λ w. zk.delete w (holder_path path))
    take_lease path ident until

  abbrev pub decided : List ℕ → List ℕ → ℕ → ℕ → LeaseData → ℕ → LeaseM (Unit {0})
  decided path ident now duration found current_end =
      replace_unless (is_held_by_other ident now found current_end) path ident (now + duration)

  abbrev pub decide : Bool → List ℕ → List ℕ → ℕ → ℕ → LeaseData → LeaseM (Unit {0})
  decide true path ident now duration found s =
      bind (decided path ident now duration found) (s, f.strptime found.end_date)
  decide false path ident now duration found s = (s, ok tt)

  abbrev pub decide_on : List ℕ → List ℕ → ℕ → ℕ → LeaseData → LeaseM (Unit {0})
  decide_on path ident now duration found =
      decide (found.version == lease_version) path ident now duration found

  abbrev pub attempt_on : Bool → List ℕ → List ℕ → ℕ → ℕ → LeaseM (Unit {0})
  attempt_on false path ident now duration = take_lease path ident (now + duration)
  attempt_on true path ident now duration = do
    raw ← on_world (λ w. zk.get w (holder_path path))
    λ s. bind (decide_on path ident now duration) (s, f.decode raw.0)

  -- The body of `with lock:`.
  unfoldable pub attempt : List ℕ → List ℕ → ℕ → LeaseM (Unit {0})
  attempt path ident duration (obtained, w) =
      let now = utcnow w in
      bind (λ there. attempt_on there path ident now duration)
        (on_world (λ v. zk.exists v (holder_path path)) (obtained, w))

  abbrev pub exits :
      Bool → Result (Unit {0}) → (Lock × World) × Result Bool → (Bool × World) × Result (Unit {0})
  exits obtained r ((l, w), ok done) = ((obtained, w), r)
  exits obtained r ((l, w), err e) = ((obtained, w), err e)

  -- `with lock:`, which takes no notice of what `acquire` returns.
  abbrev pub with_lock :
      ℕ
      → LeaseM (Unit {0})
      → Bool
      → (Lock × World) × Result Bool
      → (Bool × World) × Result (Unit {0})
  with_lock fuel body obtained ((l, w), ok got) =
      let r = body (obtained, w) in exits r.0.0 r.1 (Acquire.release zk fuel (l, r.0.1))
  with_lock fuel body obtained ((l, w), err e) = ((obtained, w), err e)

  -- except CancelledError: pass
  abbrev pub pass_cancelled : Exn → LeaseM (Unit {0})
  pass_cancelled cancelled_error = pure tt
  pass_cancelled e = raise e

  -- The lock's data is the identifier in UTF-8.
  abbrev pub locked_as :
      ℕ → List ℕ → List ℕ → ℕ → Bool × World → Result (List ℕ) → (Bool × World) × Result (Unit {0})
  locked_as fuel path ident duration (obtained, w) (ok identity) =
      let (v, hex) = zk.new_hex w in
      with_lock fuel (attempt path ident duration) obtained
        (Acquire.acquire zk fuel true true none true (new_lock exclusive path identity hex [], v))
  locked_as fuel path ident duration s (err e) = (s, err e)

  abbrev pub locked : ℕ → List ℕ → List ℕ → ℕ → LeaseM (Unit {0})
  locked fuel path ident duration s = locked_as fuel path ident duration s (encode ident)

  -- `_attempt_obtaining`, from `obtained = False`.
  unfoldable pub attempt_obtaining : ℕ → List ℕ → List ℕ → ℕ → LeaseM (Unit {0})
  attempt_obtaining fuel path ident duration = do
    there ← on_world (λ w. zk.ensure_path w path)
    catch (locked fuel path ident duration) pass_cancelled

  -- `MultiNonBlockingLease`: the leases from a number on, until one is obtained.
  abbrev pub next_lease : LeaseM (Unit {0}) → Bool × World → (Bool × World) × Result (Unit {0})
  next_lease rest (true, w) = ((true, w), ok tt)
  next_lease rest (false, w) = rest (false, w)

  unfoldable pub attempt_each : ℕ → ℕ → ℕ → List ℕ → List ℕ → ℕ → LeaseM (Unit {0})
  attempt_each fuel zero num path ident duration = pure tt
  attempt_each fuel (suc count) num path ident duration =
      let rest = attempt_each fuel count (suc num) path ident duration in
      λ s.
        bind (λ _. next_lease rest)
          (attempt_obtaining fuel (path ++ (codes "/" ++ str num)) ident duration s)
