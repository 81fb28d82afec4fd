-- ===== src/Recipe/Partitioner/States.antt =====
-- The states of `SetPartitioner` (kazoo/recipe/partitioner.py). What other threads do while it runs
-- (changes of the session's state, of the party, calls of the user) is an explicit list of events, each
-- of which holds the lock `_state_change`.
pub mod Failure
pub mod Acquired
use kazoo.Base.{
  ℕ, ◌+◌, List, [], ◌∷◌, ◌++◌, Option, none, some, Bool, true, false, not, ◌&&◌, ◌||◌, Exn, Result,
  ok, err, if◌then◌else◌, ◌==◌,
}
use kazoo.States.{KazooState, lost}
use kazoo.Recipe.{is_kazoo}

pub data PartitionState : Type 0 where
  allocating acquired releasing failure : PartitionState

abbrev pub is_allocating : PartitionState → Bool
is_allocating allocating = true
is_allocating _ = false

abbrev pub is_acquired : PartitionState → Bool
is_acquired acquired = true
is_acquired _ = false

abbrev pub is_failed : PartitionState → Bool
is_failed failure = true
is_failed _ = false

-- A lock is known by its member; `changed` is `state_change_event`, `ready` is `_acquire_event`,
-- `watches` counts the child watches that were started, and `failing` the calls of `_fail_out` that
-- were handed to another thread and have not run.
pub record Partitioner : Type 0 where
  pub state : PartitionState
  pub state_id : ℕ
  pub partition_set : List (List ℕ)
  pub locks : List (List ℕ)
  pub participating : Bool
  pub ready : Bool
  pub changed : Bool
  pub watches : ℕ
  pub failing : ℕ

abbrev pub set_state : PartitionState → Partitioner → Partitioner
set_state state p = record p { state = state; state_id = p.state_id + 1; changed = true }

-- `_party.leave` sets `participating` before it calls the servers.
unfoldable pub fail_out : Partitioner → Partitioner
fail_out p = record (set_state failure p) { participating = false }

-- `_release_locks`: for each lock, whether its release raised a KazooException.
abbrev pub kept_locks : List (List ℕ) → List Bool → List (List ℕ)
kept_locks (l ∷ ls) (true ∷ rs) = l ∷ kept_locks ls rs
kept_locks (l ∷ ls) (false ∷ rs) = kept_locks ls rs
kept_locks _ _ = []

unfoldable pub release_locks : List Bool → Partitioner → Partitioner
release_locks raises p = record p { ready = false; locks = kept_locks p.locks raises }

abbrev pub is_empty : List (List ℕ) → Bool
is_empty [] = true
is_empty (l ∷ ls) = false

abbrev pub child_watching : Partitioner → Partitioner
child_watching p = record p { watches = p.watches + 1 }

-- `release_set` returns early if the partitioner failed, so no watch is started then.
abbrev pub reallocated : Partitioner → Partitioner
reallocated p = if is_failed p.state then p else child_watching (set_state allocating p)

unfoldable pub release_set : List Bool → Partitioner → Partitioner
unfolding release_locks fail_out
release_set raises p =
    let q = release_locks raises p in if is_empty q.locks then reallocated q else fail_out q

unfoldable pub finish : List Bool → Partitioner → Partitioner
unfolding release_locks fail_out
finish raises p = fail_out (release_locks raises p)

abbrev pub is_lost : KazooState → Bool
is_lost lost = true
is_lost _ = false

abbrev pub is_releasing : PartitionState → Bool
is_releasing releasing = true
is_releasing _ = false

unfoldable pub establish_sessionwatch : KazooState → Partitioner → Partitioner
establish_sessionwatch state p =
    if is_failed p.state
    then p
    else if is_lost state
    then record p { failing = p.failing + 1 }
    else if is_releasing p.state
    then p
    else set_state releasing p

-- `updated`, the callback of a change of the party.
unfoldable pub updated : Partitioner → Partitioner
updated p = if is_acquired p.state then set_state releasing p else p

pub data Event : Type 0 where
  session : KazooState → Event
  party_changed : Event
  set_released finished : List Bool → Event
  failed_out : Event

-- A partitioner, and whether the children changed since the allocation began.
unfoldable pub happen : Event → Partitioner × Bool → Partitioner × Bool
unfolding establish_sessionwatch updated release_set finish fail_out
happen (session state) (p, c) = (establish_sessionwatch state p, c)
happen party_changed (p, c) = (updated p, true)
happen (set_released raises) (p, c) = (release_set raises p, c)
happen (finished raises) (p, c) = (finish raises p, c)
happen failed_out (p, c) = (fail_out p, c)

unfoldable pub happen_all : List Event → Partitioner × Bool → Partitioner × Bool
unfolding happen
happen_all [] s = s
happen_all (e ∷ es) s = happen_all es (happen e s)

-- `_abort_lock_acquisition`.
unfoldable pub abort_lock_acquisition : List Bool → Partitioner → Partitioner
unfolding release_locks fail_out
abort_lock_acquisition raises p =
    let q = release_locks raises p in if is_empty q.locks then child_watching q else fail_out q

-- `abort_if_needed`: whether the allocation is over.
unfoldable pub abort_if_needed : ℕ → List Bool → Partitioner × Bool → Partitioner × Bool
unfolding abort_lock_acquisition
abort_if_needed state_id raises (p, c) =
    if p.state_id == state_id
    then (if c then (abort_lock_acquisition raises p, true) else (p, false))
    else (if is_allocating p.state || is_acquired p.state then set_state releasing p else p, true)

-- One call of `lock.acquire`: what happened while it ran, how it ended, and what releases would raise.
pub data Outcome : Type 0 where
  locked timed_out : Outcome
  raised : Exn → Outcome

pub record Attempt : Type 0 where
  pub meanwhile : List Event
  pub outcome : Outcome
  pub raises : List Bool

-- How an allocation goes on: it is over, or the attempts that are listed are, or all locks are there.
pub data Progress : Type 0 where
  over unfinished : Partitioner → Progress
  all_locked : Partitioner × Bool → Progress

-- Behind `abort_if_needed`.
abbrev pub go_on : (Partitioner × Bool → Progress) → Bool → Partitioner × Bool → Progress
go_on rest c (p, true) = over p
go_on rest c (p, false) = rest (p, c)

-- An exception that is no KazooException ends the thread.
abbrev pub finished_if : Bool → List Bool → Partitioner → Partitioner
finished_if true raises p = finish raises p
finished_if false raises p = p

abbrev pub attempted :
    ℕ
    → List ℕ
    → (Partitioner × Bool → Progress)
    → (Partitioner × Bool → Progress)
    → List Bool
    → Outcome
    → Partitioner × Bool
    → Progress
attempted state_id m next again raises locked (p, c) =
    let q = record p { locks = p.locks ++ (m ∷ []) } in
    go_on next c (abort_if_needed state_id raises (q, c))
attempted state_id m next again raises timed_out (p, c) =
    go_on again c (abort_if_needed state_id raises (p, c))
attempted state_id m next again raises (raised e) (p, c) = over (finished_if (is_kazoo e) raises p)

-- The locks of the members that are left, over the attempts that there are.
unfoldable pub acquire_locks : ℕ → List (List ℕ) → List Attempt → Partitioner × Bool → Progress
unfolding happen_all abort_if_needed finish
acquire_locks state_id [] attempts s = all_locked s
acquire_locks state_id (m ∷ ms) [] s = unfinished s.0
acquire_locks state_id (m ∷ ms) (a ∷ attempts) s =
    attempted state_id m (acquire_locks state_id ms attempts)
      (acquire_locks state_id (m ∷ ms) attempts) a.raises a.outcome (happen_all a.meanwhile s)

-- "All locks acquired. Time for state transition."
abbrev pub acquired_with : List (List ℕ) → Partitioner → Partitioner
acquired_with share p = record (set_state acquired (record p { partition_set = share })) {
  ready = true;
}

abbrev pub failed_unless : Partitioner × Bool → Partitioner
failed_unless (p, true) = p
failed_unless (p, false) = fail_out p

unfoldable pub settle : ℕ → List (List ℕ) → List Bool → Partitioner × Bool → Partitioner
unfolding abort_if_needed fail_out
settle state_id share raises (p, c) =
    if (p.state_id == state_id) && not c
    then acquired_with share p
    else failed_unless (abort_if_needed state_id raises (p, c))

-- What happens behind the last lock: `late` comes before the last step, where releases may raise.
abbrev pub settled : ℕ → List (List ℕ) → List Event → List Bool → Progress → Progress
settled state_id share late raises (over p) = over p
settled state_id share late raises (unfinished p) = unfinished p
settled state_id share late raises (all_locked s) =
    over (settle state_id share raises (happen_all late s))

-- `_allocate_transition`: whether the children settled, and the share that `_partition_func` gave,
-- which raises if the party does not list the partitioner.
abbrev pub shared :
    List Attempt → List Event → List Bool → Partitioner → Result (List (List ℕ)) → Progress
shared attempts late raises p (ok share) =
    settled p.state_id share late raises (acquire_locks p.state_id share attempts (p, false))
shared attempts late raises p (err e) = over p

unfoldable pub allocate_transition :
    Bool → Result (List (List ℕ)) → List Attempt → List Event → List Bool → Partitioner → Progress
unfolding fail_out acquire_locks settle happen_all
allocate_transition settles share attempts late raises p =
    if settles
    then (if is_allocating p.state then shared attempts late raises p share else over p)
    else over (fail_out p)
