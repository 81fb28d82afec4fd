-- ===== src/Recipe/Lease/Obtained.antt =====
-- A lease is obtained only where nobody else holds it.
use kazoo.Base.{
  ℕ, ◌+◌, ◌≡◌, refl, ◌∙◌, List, [], none, Bool, true, false, ◌⊎◌, inl, inr, ◌==◌, Result, ok, err,
  not_both, ◌≤◌, list_eq, list_eq_iff, Bool-cases, arith,
}
use kazoo.Protocol.Records.{ZnodeStat}
use kazoo.Python.Utf8.{encode}
use kazoo.Recipe.{Zookeeper, on_world, bind, update}
use kazoo.Recipe.Rules.{Returns, Returns-eq, Returns-bind, Returns-then, Answered, Returns-on_world}
use kazoo.Recipe.Lock.{Lock, exclusive, new_lock}
use kazoo.Recipe.Lock.Acquire
use kazoo.Recipe.Lease.{
  LeaseData, Format, lease_version, holder_path, take_lease, is_held_by_other, replace_unless,
  decided, decide, decide_on, attempt_on, attempt, exits, with_lock, locked_as, locked,
}

module _ (zk : Zookeeper) (f : Format) (utcnow : Zookeeper.World zk → ℕ) (path ident : List ℕ)
    (duration : ℕ) where
  open zk use {World}

  abbrev holder : List ℕ
  holder = holder_path zk f utcnow path

  -- There was no holder, or the holder's record was the own one or had run out at a time.
  abbrev pub IsVacant : ℕ → Type 0
  IsVacant now =
      Answered (λ w. zk.exists w (holder_path zk f utcnow path)) false
      ⊎ ((raw : List ℕ × ZnodeStat) × ((found : LeaseData) × ((end_time : ℕ) × ((Answered
                  (λ w. zk.get w (holder_path zk f utcnow path)) raw)
                × ((f.decode raw.0 ≡ ok found)
                    × ((f.strptime found.end_date ≡ ok end_time)
                        × ((found.holder ≡ ident) ⊎ (end_time ≤ now))))))))

  -- What the code's test says.
  free_lem :
      (now end_time : ℕ) (found : LeaseData)
      → is_held_by_other zk f utcnow ident now found end_time ≡ false
      → (found.holder ≡ ident) ⊎ (end_time ≤ now)
  free_lem now end_time found h = elim (Bool-cases (list_eq found.holder ident)) [
    | inl e ↦ inl ((list_eq_iff found.holder ident).0 e)
    | inr e ↦ inr (ground (arith, h, e))
  ]

  -- The own record was stored, with the end that the duration gives.
  abbrev pub IsStored : ℕ → Type 0
  IsStored now =
      (made : List ℕ) × Answered
        (λ w.
          zk.create w (holder_path zk f utcnow path)
            (f.encode (record {
              version = lease_version;
              holder = ident;
              end_date = f.strftime (now + duration);
            }))
            false false)
        made

  -- With what was true at a moment, by the clock.
  abbrev pub Obtained : World → Bool × World → Unit {0} → Type 0
  Obtained moment s _ = s.0 ≡ true → IsVacant (utcnow moment) × IsStored (utcnow moment)

  nothing : (moment w : World) → Obtained moment (false, w) tt
  nothing moment w h = cc

  -- When the lock's `acquire` returned: the clock is read then.
  abbrev pub acquired_at : ℕ → World → Result (List ℕ) → World
  acquired_at fuel w (ok identity) =
      let (v, hex) = zk.new_hex w in
      (Acquire.acquire zk fuel true true none true (new_lock exclusive path identity hex [], v)).0.1
  acquired_at fuel w (err e) = w

  take_lease-Obtained :
      (moment : World) (s : Bool × World)
      → IsVacant (utcnow moment)
      → Returns (Obtained moment) (take_lease zk f utcnow path ident ((utcnow moment) + duration) s)
  take_lease-Obtained moment s v =
      Returns-bind (λ t made. (t.0 ≡ s.0) × Answered create made) (Obtained moment)
        (λ _. update (λ _. true)) (on_world create s) (Returns-on_world create s.0 s.1)
        λ t made h _. (v, (made, h.1))
    where
      create : World → World × Result (List ℕ)
      create w =
          zk.create w (holder_path zk f utcnow path)
            (f.encode (record {
              version = lease_version;
              holder = ident;
              end_date = f.strftime ((utcnow moment) + duration);
            }))
            false false

  replace_unless-Obtained :
      (moment : World) (b : Bool) (s : Bool × World)
      → s.0 ≡ false
      → (b ≡ false → IsVacant (utcnow moment))
      → Returns
          (Obtained moment)
          (replace_unless zk f utcnow b path ident ((utcnow moment) + duration) s)
  replace_unless-Obtained moment true s e v = λ h. absurd (not_both _ h e)
  replace_unless-Obtained moment false s e v =
      Returns-then (Obtained moment)
        (λ _. take_lease zk f utcnow path ident ((utcnow moment) + duration))
        (on_world (λ w. zk.delete w (holder_path zk f utcnow path)) s)
        λ t _. take_lease-Obtained moment t (v refl)

  module _ (moment : World) (raw : List ℕ × ZnodeStat)
      (a : Answered (λ w. zk.get w (holder_path zk f utcnow path)) raw) where
    ended-Obtained :
        (found : LeaseData) (s : Bool × World) (r : Result ℕ)
        → s.0 ≡ false
        → f.decode raw.0 ≡ ok found
        → f.strptime found.end_date ≡ r
        → Returns
            (Obtained moment)
            (bind (decided zk f utcnow path ident (utcnow moment) duration found) (s, r))
    ended-Obtained found s (ok end_time) e d q =
        replace_unless-Obtained moment
          (is_held_by_other zk f utcnow ident (utcnow moment) found end_time) s e
          λ free.
            inr (
              raw,
              (found, (end_time, (a, (d, (q, free_lem (utcnow moment) end_time found free))))),
            )
    ended-Obtained found s (err z) e d q = tt

    decide-Obtained :
        (b : Bool) (found : LeaseData) (s : Bool × World)
        → s.0 ≡ false
        → f.decode raw.0 ≡ ok found
        → Returns
            (Obtained moment)
            (decide zk f utcnow b path ident (utcnow moment) duration found s)
    decide-Obtained true found s e d = ended-Obtained found s (f.strptime found.end_date) e d refl
    decide-Obtained false found s e d = λ h. absurd (not_both _ h e)

    decoded-Obtained :
        (s : Bool × World) (r : Result LeaseData)
        → s.0 ≡ false
        → f.decode raw.0 ≡ r
        → Returns
            (Obtained moment)
            (bind (decide_on zk f utcnow path ident (utcnow moment) duration) (s, r))
    decoded-Obtained s (ok found) e d = decide-Obtained (found.version == lease_version) found s e d
    decoded-Obtained s (err z) e d = tt

  attempt_on-Obtained :
      (moment : World) (there : Bool) (s : Bool × World)
      → s.0 ≡ false
      → Answered (λ w. zk.exists w (holder_path zk f utcnow path)) there
      → Returns
          (Obtained moment)
          (attempt_on zk f utcnow there path ident (utcnow moment) duration s)
  attempt_on-Obtained moment false s e a = take_lease-Obtained moment s (inl a)
  attempt_on-Obtained moment true s e a =
      Returns-bind (λ t raw. (t.0 ≡ s.0) × Answered get raw) (Obtained moment)
        (λ raw t.
          bind (decide_on zk f utcnow path ident (utcnow moment) duration) (t, f.decode raw.0))
        (on_world get s) (Returns-on_world get s.0 s.1)
        λ t raw h. decoded-Obtained moment raw h.1 t (f.decode raw.0) (h.0 ∙ e) refl
    where
      get : World → World × Result (List ℕ × ZnodeStat)
      get w = zk.get w (holder_path zk f utcnow path)

  attempt-Obtained :
      (w : World) → Returns (Obtained w) (attempt zk f utcnow path ident duration (false, w))
  unfolding attempt
  attempt-Obtained w =
      Returns-bind (λ t there. (t.0 ≡ false) × Answered exists there) (Obtained w)
        (λ there. attempt_on zk f utcnow there path ident (utcnow w) duration)
        (on_world exists (false, w)) (Returns-on_world exists false w)
        λ t there h. attempt_on-Obtained w there t h.0 h.1
    where
      exists : World → World × Result Bool
      exists v = zk.exists v (holder_path zk f utcnow path)

  exits-Obtained :
      (moment : World) (obtained : Bool) (v : World) (r : Result (Unit {0}))
      (p : (Lock × World) × Result Bool)
      → Returns (Obtained moment) ((obtained, v), r)
      → Returns (Obtained moment) (exits zk f utcnow obtained r p)
  exits-Obtained moment obtained v (ok done) ((l, w), ok b) h = h
  exits-Obtained moment obtained v (err e) ((l, w), ok b) h = tt
  exits-Obtained moment obtained v r ((l, w), err e) h = tt

  with_lock-Obtained :
      (fuel : ℕ) (p : (Lock × World) × Result Bool)
      → Returns
          (Obtained p.0.1)
          (with_lock zk f utcnow fuel (attempt zk f utcnow path ident duration) false p)
  with_lock-Obtained fuel ((l, w), ok got) =
      let r = attempt zk f utcnow path ident duration (false, w) in
      exits-Obtained w r.0.0 r.0.1 r.1 (Acquire.release zk fuel (l, r.0.1)) (attempt-Obtained w)
  with_lock-Obtained fuel ((l, w), err e) = tt

  locked_as-Obtained :
      (fuel : ℕ) (w : World) (r : Result (List ℕ))
      → Returns
          (Obtained (acquired_at fuel w r))
          (locked_as zk f utcnow fuel path ident duration (false, w) r)
  locked_as-Obtained fuel w (ok identity) =
      let (v, hex) = zk.new_hex w in
      with_lock-Obtained fuel
        (Acquire.acquire zk fuel true true none true (new_lock exclusive path identity hex [], v))
  locked_as-Obtained fuel w (err e) = tt

  locked-Returns :
      (fuel : ℕ) (w : World)
      → Returns
          (Obtained (acquired_at fuel w (encode ident)))
          (locked zk f utcnow fuel path ident duration (false, w))
  locked-Returns fuel w = locked_as-Obtained fuel w (encode ident)

  -- If a lease was not obtained before and is obtained when `_attempt_obtaining` leaves its lock without
  -- an exception, then by the clock at the moment when the lock was acquired there was no holder, or the
  -- holder's record was the own one or ended then or before, and the servers stored the own record with
  -- an end of this time and the duration.
  pub locked-Obtained :
      (fuel : ℕ) (w v : World)
      → locked zk f utcnow fuel path ident duration (false, w) ≡ ((true, v), ok tt)
      → IsVacant (utcnow (acquired_at fuel w (encode ident)))
        × IsStored (utcnow (acquired_at fuel w (encode ident)))
  locked-Obtained fuel w v h =
      Returns-eq (Obtained (acquired_at fuel w (encode ident)))
        (locked zk f utcnow fuel path ident duration (false, w)) (true, v) tt
        (locked-Returns fuel w) h refl
