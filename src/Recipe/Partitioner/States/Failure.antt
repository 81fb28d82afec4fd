-- ===== src/Recipe/Partitioner/States/Failure.antt =====
-- The state FAILURE is final.
use kazoo.Base.{ℕ, ◌<◌, ◌≡◌, refl, ◌∙◌, List, [], ◌∷◌, ◌++◌, Bool, true, false, arith}
use kazoo.Recipe.{is_kazoo}
use kazoo.Recipe.Partitioner.States.{
  Partitioner, failure, Event, session, party_changed, set_released, finished, failed_out, happen,
  happen_all, abort_if_needed, Attempt, Outcome, locked, timed_out, raised, finished_if, Progress,
  over, unfinished, all_locked, attempted, acquire_locks, settle, settled, finish,
}

-- Failed, and since a later state than a given one.
abbrev pub FailedSince : ℕ → Partitioner → Type 0
FailedSince id p = (p.state ≡ failure) × (id < p.state_id)

happen-FailedSince :
    (id : ℕ) (e : Event) (p : Partitioner) (c : Bool)
    → FailedSince id p
    → FailedSince id (happen e (p, c)).0 × ((happen e (p, c)).0.watches ≡ p.watches)
unfolding happen
happen-FailedSince id (session state) p c h = ground arith
happen-FailedSince id party_changed p c h = ground arith
happen-FailedSince id (set_released raises) p c h = ground arith
happen-FailedSince id (finished raises) p c h = ground arith
happen-FailedSince id failed_out p c h = ground arith

pub happen_all-FailedSince :
    (id : ℕ) (es : List Event) (p : Partitioner) (c : Bool)
    → FailedSince id p
    → FailedSince id (happen_all es (p, c)).0 × ((happen_all es (p, c)).0.watches ≡ p.watches)
unfolding happen_all
happen_all-FailedSince id [] p c h = (h, refl)
happen_all-FailedSince id (e ∷ es) p c h =
    let one = happen-FailedSince id e p c h in
    let (q, d) = happen e (p, c) in
    let others = happen_all-FailedSince id es q d one.0 in (others.0, others.1 ∙ one.1)

abort-FailedSince :
    (id : ℕ) (raises : List Bool) (p : Partitioner) (c : Bool)
    → FailedSince id p
    → abort_if_needed id raises (p, c) ≡ (p, true)
unfolding abort_if_needed
abort-FailedSince id raises p c h = ground arith

finish-FailedSince :
    (id : ℕ) (raises : List Bool) (p : Partitioner)
    → FailedSince id p
    → FailedSince id (finish raises p)
unfolding finish
finish-FailedSince id raises p h = ground arith

abbrev pub StaysFailed : ℕ → Progress → Type 0
StaysFailed id (over p) = FailedSince id p
StaysFailed id (unfinished p) = FailedSince id p
StaysFailed id (all_locked s) = FailedSince id s.0

finished_if-FailedSince :
    (id : ℕ) (b : Bool) (raises : List Bool) (p : Partitioner)
    → FailedSince id p
    → FailedSince id (finished_if b raises p)
finished_if-FailedSince id true raises p h = finish-FailedSince id raises p h
finished_if-FailedSince id false raises p h = h

attempted-StaysFailed :
    (id : ℕ) (m : List ℕ) (next again : Partitioner × Bool → Progress) (raises : List Bool)
    (o : Outcome) (s : Partitioner × Bool)
    → FailedSince id s.0
    → StaysFailed id (attempted id m next again raises o s)
attempted-StaysFailed id m next again raises locked (p, c) h =
    rw (abort-FailedSince id raises (record p { locks = p.locks ++ (m ∷ []) }) c h) h
attempted-StaysFailed id m next again raises timed_out (p, c) h =
    rw (abort-FailedSince id raises p c h) h
attempted-StaysFailed id m next again raises (raised e) (p, c) h =
    finished_if-FailedSince id (is_kazoo e) raises p h

acquire_locks-StaysFailed :
    (id : ℕ) (ms : List (List ℕ)) (attempts : List Attempt) (p : Partitioner) (c : Bool)
    → FailedSince id p
    → StaysFailed id (acquire_locks id ms attempts (p, c))
unfolding acquire_locks
acquire_locks-StaysFailed id [] attempts p c h = h
acquire_locks-StaysFailed id (m ∷ ms) [] p c h = h
acquire_locks-StaysFailed id (m ∷ ms) (a ∷ attempts) p c h =
    attempted-StaysFailed id m (acquire_locks id ms attempts) (acquire_locks id (m ∷ ms) attempts)
      a.raises a.outcome (happen_all a.meanwhile (p, c))
      (happen_all-FailedSince id a.meanwhile p c h).0

settle-FailedSince :
    (id : ℕ) (share : List (List ℕ)) (raises : List Bool) (p : Partitioner) (c : Bool)
    → FailedSince id p
    → FailedSince id (settle id share raises (p, c))
unfolding settle
settle-FailedSince id share raises p c h = ground (arith, abort-FailedSince id raises p c h)

settled-StaysFailed :
    (id : ℕ) (share : List (List ℕ)) (late : List Event) (raises : List Bool) (r : Progress)
    → StaysFailed id r
    → StaysFailed id (settled id share late raises r)
settled-StaysFailed id share late raises (over p) h = h
settled-StaysFailed id share late raises (unfinished p) h = h
settled-StaysFailed id share late raises (all_locked (p, c)) h =
    let q = happen_all late (p, c) in
    settle-FailedSince id share raises q.0 q.1 (happen_all-FailedSince id late p c h).0

-- If the partitioner fails while an allocation runs, then whatever else happens the allocation leaves it
-- in FAILURE.
pub allocation_failed :
    (id : ℕ) (share : List (List ℕ)) (attempts : List Attempt) (late : List Event)
    (raises : List Bool) (p : Partitioner) (c : Bool)
    → FailedSince id p
    → StaysFailed id (settled id share late raises (acquire_locks id share attempts (p, c)))
allocation_failed id share attempts late raises p c h =
    settled-StaysFailed id share late raises (acquire_locks id share attempts (p, c))
      (acquire_locks-StaysFailed id share attempts p c h)
