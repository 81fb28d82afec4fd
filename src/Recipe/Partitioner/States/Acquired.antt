-- ===== src/Recipe/Partitioner/States/Acquired.antt =====
-- When an allocation ends in ACQUIRED, the partitioner has a lock for each member of its share.
use mathlib.Core.Path.{subst}
use kazoo.Base.{
  ℕ, ◌≤◌, ◌≡◌, refl, ◌≢◌, sym, ap, List, [], ◌∷◌, ◌++◌, append-nil, append_assoc, Bool, true, false,
  Result, ok, err, arith, not_both, if◌then◌else◌,
}
use kazoo.Recipe.{is_kazoo}
use kazoo.Recipe.Partitioner.States.{
  Partitioner, PartitionState, releasing, failure, acquired, allocating, Event, session,
  party_changed, set_released, finished, failed_out, happen, happen_all, abort_if_needed, Attempt,
  Outcome, locked, timed_out, raised, Progress, over, unfinished, all_locked, go_on, attempted,
  acquire_locks, settle, settled, finish, is_acquired, is_allocating, finished_if,
  allocate_transition, shared,
}

-- While the state is the one of the start, the locks are those of the start and the new ones.
abbrev Holds : ℕ → List (List ℕ) → Partitioner → Type 0
Holds id locks p =
    (id ≤ p.state_id)
    × (is_acquired p.state ≡ false)
    × (p.state_id ≡ id → (p.state ≡ allocating) × (p.locks ≡ locks))

happen-Holds :
    (id : ℕ) (locks : List (List ℕ)) (e : Event) (p : Partitioner) (c : Bool)
    → Holds id locks p
    → Holds id locks (happen e (p, c)).0
unfolding happen
happen-Holds id locks (session state) p c h = (ground arith, ground arith, λ e. ground (arith, h.2))
happen-Holds id locks party_changed p c h = (ground arith, ground arith, λ e. ground (arith, h.2))
happen-Holds id locks (set_released raises) p c h =
    (ground arith, ground arith, λ e. ground (arith, h.2))
happen-Holds id locks (finished raises) p c h = (ground arith, ground arith, λ e. ground arith)
happen-Holds id locks failed_out p c h = (ground arith, ground arith, λ e. ground arith)

happen_all-Holds :
    (id : ℕ) (locks : List (List ℕ)) (es : List Event) (p : Partitioner) (c : Bool)
    → Holds id locks p
    → Holds id locks (happen_all es (p, c)).0
unfolding happen_all
happen_all-Holds id locks [] p c h = h
happen_all-Holds id locks (e ∷ es) p c h =
    let (q, d) = happen e (p, c) in happen_all-Holds id locks es q d (happen-Holds id locks e p c h)

abbrev NotAcquired : Partitioner → Type 0
NotAcquired p = is_acquired p.state ≡ false

abort_if_needed-NotAcquired :
    (id : ℕ) (locks : List (List ℕ)) (raises : List Bool) (p : Partitioner) (c : Bool)
    → Holds id locks p
    → NotAcquired (abort_if_needed id raises (p, c)).0
unfolding abort_if_needed
abort_if_needed-NotAcquired id locks raises p c h = ground (arith, h.2)

abort_if_needed-eq :
    (id : ℕ) (raises : List Bool) (p : Partitioner) (c : Bool)
    → (abort_if_needed id raises (p, c)).1 ≡ false
    → (abort_if_needed id raises (p, c)).0 ≡ p
unfolding abort_if_needed
abort_if_needed-eq id raises p c h = ground arith

-- How an allocation may end: not in ACQUIRED, or with these locks for its last step.
abbrev EndsWith : ℕ → List (List ℕ) → Progress → Type 0
EndsWith id locks (over p) = NotAcquired p
EndsWith id locks (unfinished p) = NotAcquired p
EndsWith id locks (all_locked s) = Holds id locks s.0

go_on-EndsWith :
    (id : ℕ) (locks : List (List ℕ)) (rest : Partitioner × Bool → Progress) (c : Bool)
    (p : Partitioner) (r : Partitioner × Bool)
    → NotAcquired r.0
    → (r.1 ≡ false → r.0 ≡ p)
    → EndsWith id locks (rest (p, c))
    → EndsWith id locks (go_on rest c r)
go_on-EndsWith id locks rest c p (q, true) n e h = n
go_on-EndsWith id locks rest c p (q, false) n e h =
    subst (λ r. EndsWith id locks (rest (r, c))) (sym (e refl)) h

finished_if-NotAcquired :
    (b : Bool) (raises : List Bool) (p : Partitioner)
    → NotAcquired p
    → NotAcquired (finished_if b raises p)
unfolding finish
finished_if-NotAcquired true raises p h = refl
finished_if-NotAcquired false raises p h = h

attempted-EndsWith :
    (id : ℕ) (locks all : List (List ℕ)) (m : List ℕ) (next again : Partitioner × Bool → Progress)
    (raises : List Bool) (o : Outcome) (p : Partitioner) (c : Bool)
    → Holds id locks p
    → ((q : Partitioner) → Holds id (locks ++ (m ∷ [])) q → EndsWith id all (next (q, c)))
    → EndsWith id all (again (p, c))
    → EndsWith id all (attempted id m next again raises o (p, c))
attempted-EndsWith id locks all m next again raises locked p c h n a =
    let q = record p { locks = p.locks ++ (m ∷ []) } in
    let k : Holds id (locks ++ (m ∷ [])) q =
      (h.0, h.1, λ e. ((h.2 e).0, ap (λ l. l ++ (m ∷ [])) (h.2 e).1)) in
    go_on-EndsWith id all next c q (abort_if_needed id raises (q, c))
      (abort_if_needed-NotAcquired id (locks ++ (m ∷ [])) raises q c k)
      (abort_if_needed-eq id raises q c) (n q k)
attempted-EndsWith id locks all m next again raises timed_out p c h n a =
    go_on-EndsWith id all again c p (abort_if_needed id raises (p, c))
      (abort_if_needed-NotAcquired id locks raises p c h) (abort_if_needed-eq id raises p c) a
attempted-EndsWith id locks all m next again raises (raised e) p c h n a =
    finished_if-NotAcquired (is_kazoo e) raises p h.1

acquire_locks-EndsWith :
    (id : ℕ) (locks ms : List (List ℕ)) (attempts : List Attempt) (p : Partitioner) (c : Bool)
    → Holds id locks p
    → EndsWith id (locks ++ ms) (acquire_locks id ms attempts (p, c))
unfolding acquire_locks
acquire_locks-EndsWith id locks [] attempts p c h =
    subst (λ l. Holds id l p) (sym (append-nil locks)) h
acquire_locks-EndsWith id locks (m ∷ ms) [] p c h = h.1
acquire_locks-EndsWith id locks (m ∷ ms) (a ∷ attempts) p c h =
    let (q, d) = happen_all a.meanwhile (p, c) in
    let k = happen_all-Holds id locks a.meanwhile p c h in
    attempted-EndsWith id locks (locks ++ (m ∷ ms)) m (acquire_locks id ms attempts)
      (acquire_locks id (m ∷ ms) attempts) a.raises a.outcome q d k
      (λ r i.
        subst (λ l. EndsWith id l (acquire_locks id ms attempts (r, d)))
          (append_assoc locks (m ∷ []) ms)
          (acquire_locks-EndsWith id (locks ++ (m ∷ [])) ms attempts r d i))
      (acquire_locks-EndsWith id locks (m ∷ ms) attempts q d k)

-- The state ACQUIRED with a share, and with locks.
abbrev pub IsAllocated : List (List ℕ) → List (List ℕ) → Partitioner → Type 0
IsAllocated share locks p = (p.partition_set ≡ share) × (p.locks ≡ locks) × (p.ready ≡ true)

settle-IsAllocated :
    (id : ℕ) (share locks : List (List ℕ)) (raises : List Bool) (p : Partitioner) (c : Bool)
    → Holds id locks p
    → (settle id share raises (p, c)).state ≡ acquired
    → IsAllocated share locks (settle id share raises (p, c))
unfolding settle
settle-IsAllocated id share locks raises p c h e =
    ground (arith, h.2, abort_if_needed-NotAcquired id locks raises p c h)

-- A share that was given out, with the locks of the start and one for each member.
abbrev pub IsAcquired : Result (List (List ℕ)) → Partitioner → Partitioner → Type 0
IsAcquired share p q =
    (names : List (List ℕ)) × ((share ≡ ok names) × IsAllocated names (p.locks ++ names) q)

-- If an allocation is over and its partitioner in ACQUIRED.
abbrev pub Allocates : Result (List (List ℕ)) → Partitioner → Progress → Type 0
Allocates share p (over q) = q.state ≡ acquired → IsAcquired share p q
Allocates share p _ = Unit {0}

never : (q : Partitioner) → NotAcquired q → q.state ≡ acquired → ⊥
never q n a = not_both (is_acquired q.state) (ap is_acquired a) n

settled-Allocates :
    (id : ℕ) (names : List (List ℕ)) (late : List Event) (raises : List Bool) (p : Partitioner)
    (r : Progress)
    → EndsWith id (p.locks ++ names) r
    → Allocates (ok names) p (settled id names late raises r)
settled-Allocates id names late raises p (over q) h = λ a. absurd (never q h a)
settled-Allocates id names late raises p (unfinished q) h = tt
settled-Allocates id names late raises p (all_locked (q, c)) h =
    let (r, d) = happen_all late (q, c) in
    λ a. (
      names,
      (
        refl,
        settle-IsAllocated id names (p.locks ++ names) raises r d
            (happen_all-Holds id (p.locks ++ names) late q c h) a,
      ),
    )

shared-Allocates :
    (share : Result (List (List ℕ))) (attempts : List Attempt) (late : List Event)
    (raises : List Bool) (p : Partitioner)
    → p.state ≡ allocating
    → Allocates share p (shared attempts late raises p share)
shared-Allocates (err e) attempts late raises p h = λ a. absurd (never p (ap is_acquired h) a)
shared-Allocates (ok names) attempts late raises p h =
    settled-Allocates p.state_id names late raises p
      (acquire_locks p.state_id names attempts (p, false))
      (acquire_locks-EndsWith p.state_id p.locks names attempts p false
        (omega arith, ap is_acquired h, λ e. (h, refl)))

allocation-Allocates :
    (settles : Bool) (share : Result (List (List ℕ))) (attempts : List Attempt) (late : List Event)
    (raises : List Bool) (p : Partitioner)
    → p.state ≢ acquired
    → Allocates share p (allocate_transition settles share attempts late raises p)
unfolding allocate_transition
allocation-Allocates false share attempts late raises p n = λ a. cc
allocation-Allocates true share attempts late raises p n = go p.state refl
  where
    go :
        (state : PartitionState)
        → p.state ≡ state
        → Allocates share p
            (if is_allocating state then shared attempts late raises p share else over p)
    go allocating e = shared-Allocates share attempts late raises p e
    go acquired e = absurd (n e)
    go releasing e = λ a. cc
    go failure e = λ a. cc

-- If an allocation is over and has led to ACQUIRED, then whatever happened meanwhile the partitioner has
-- the share that the partition function gave, and behind the locks that it had before it has exactly one
-- lock for each member of the share, in order.
pub allocate_transition-IsAcquired :
    (settles : Bool) (share : Result (List (List ℕ))) (attempts : List Attempt) (late : List Event)
    (raises : List Bool) (p q : Partitioner)
    → p.state ≢ acquired
    → allocate_transition settles share attempts late raises p ≡ over q
    → q.state ≡ acquired
    → IsAcquired share p q
allocate_transition-IsAcquired settles share attempts late raises p q n e =
    subst (Allocates share p) e (allocation-Allocates settles share attempts late raises p n)
