-- ===== src/Tests/Recipes.antt =====
-- Locks, semaphores, queues and partitioners.
use kazoo.Base.{ℕ, ◌≡◌, refl, List, [], ◌∷◌, none, Bool, true, false, Result, ok, inr, arith}
use kazoo.Python.Text.{codes}
use kazoo.Python.Ordered.{has_text}
use kazoo.Recipe.Lock.{Lock, Kind, exclusive, write, read, new_lock, predecessor_of, slash}
use kazoo.Recipe.Lock.Predecessor.{Chosen, predecessor_of-Chosen}
use kazoo.Recipe.Lock.Exclusion.{IsOfKind, Granted, node_of, exclusion}
use kazoo.Recipe.Lock.Names.{IsNumeral, IsSequence}
use kazoo.Recipe.Lock.Acquire
use kazoo.Recipe.Lock.Acquire.Held.{IsHeld, acquire-IsHeld}
use kazoo.Recipe.Lock.Acquire.Released.{Released, release-Released}
use kazoo.Recipe.Partitioner.{partitioner}
use kazoo.Recipe.Partitioner.Shares.{total, counted, IsDistinct, partitioner_shares}
use kazoo.Recipe.Partitioner.States.{
  Partitioner, allocating, acquired, failure, Attempt, locked, timed_out, allocate_transition,
  settled, acquire_locks,
}
use kazoo.Recipe.Partitioner.States.Acquired.{IsAcquired, allocate_transition-IsAcquired}
use kazoo.Recipe.Partitioner.States.Failure.{StaysFailed, allocation_failed}
use kazoo.Tests.Servers.{Nodes, server, sequence}

abbrev hex1 : List ℕ
hex1 = codes "0a"

abbrev hex2 : List ℕ
hex2 = codes "f5"

abbrev first : Lock
first = new_lock exclusive (codes "/l") (codes "one") hex1 []

abbrev second : Lock
second = new_lock write (codes "/l") (codes "two") hex2 []

abbrev reader : Lock
reader = new_lock read (codes "/l") [] hex2 []

first-IsOfKind : IsOfKind exclusive hex1 first
unfolding new_lock
first-IsOfKind = record { with_patterns = refl; with_prefix = refl; plain = (refl, (refl, tt)) }

second-IsOfKind : IsOfKind write hex2 second
unfolding new_lock
second-IsOfKind = record { with_patterns = refl; with_prefix = refl; plain = (refl, (refl, tt)) }

reader-IsOfKind : IsOfKind read hex2 reader
unfolding new_lock
reader-IsOfKind = record { with_patterns = refl; with_prefix = refl; plain = (refl, (refl, tt)) }

abbrev first_node : List ℕ
first_node = node_of exclusive hex1 (sequence 1)

abbrev second_node : List ℕ
second_node = node_of write hex2 (sequence 2)

abbrev digits10 : IsNumeral (sequence 1) × IsNumeral (sequence 2)
digits10 = (
  (refl, (refl, (refl, (refl, (refl, (refl, (refl, (refl, (refl, (refl, tt)))))))))),
  (refl, (refl, (refl, (refl, (refl, (refl, (refl, (refl, (refl, (refl, tt)))))))))),
)

sequence1 : IsSequence (sequence 1)
unfolding kazoo.Recipe.Lock.sequence_of
sequence1 = refl

sequence2 : IsSequence (sequence 2)
unfolding kazoo.Recipe.Lock.sequence_of
sequence2 = refl

first-Granted : Granted first first_node (first_node ∷ [])
unfolding predecessor_of kazoo.Recipe.Lock.search_in kazoo.Recipe.Lock.sequence_of new_lock
first-Granted = refl

second-Granted : Granted second second_node (second_node ∷ [])
unfolding predecessor_of kazoo.Recipe.Lock.search_in kazoo.Recipe.Lock.sequence_of new_lock
second-Granted = refl

exclusion_example : has_text first_node (second_node ∷ []) ≡ false
exclusion_example =
    exclusion first-IsOfKind second-IsOfKind (sequence 1) (sequence 2) (first_node ∷ [])
      (second_node ∷ []) refl refl sequence1 sequence2 (λ e. ground arith) (inr refl) first-Granted
      second-Granted

predecessor_of-Chosen_example :
    Chosen second second_node
      (second_node ∷ codes "other" ∷ first_node ∷ [])
      (predecessor_of second second_node (second_node ∷ codes "other" ∷ first_node ∷ []))
predecessor_of-Chosen_example =
    predecessor_of-Chosen second second_node (second_node ∷ codes "other" ∷ first_node ∷ [])

-- A lock that is alone gets its lock, and gives it back.
abbrev acquiring : (Lock × Nodes) × Result Bool
acquiring = Acquire.acquire server 3 true true none true (first, [])

acquire-IsHeld_example : (acquiring.0.0.is_acquired ≡ true) × IsHeld server acquiring.0.0
unfolding Acquire.acquire kazoo.Recipe.retry kazoo.Recipe.retried Acquire.inner_acquire new_lock
    Acquire.ensure_path Acquire.wait_turn predecessor_of kazoo.Python.Text.starts_with
    kazoo.Recipe.Lock.search_in
acquire-IsHeld_example = acquire-IsHeld server 3 true true none true (first, []) acquiring.0 refl

release-Released_example :
    Released server acquiring.0.0 (Acquire.release server 3 (acquiring.0.0, acquiring.0.1))
release-Released_example = release-Released server 3 acquiring.0.0 acquiring.0.1

released_test : (Acquire.release server 3 acquiring.0).1 ≡ ok true
unfolding Acquire.release kazoo.Recipe.retry kazoo.Recipe.retried Acquire.inner_release
    Acquire.acquire Acquire.inner_acquire new_lock Acquire.ensure_path Acquire.wait_turn
    predecessor_of kazoo.Python.Text.starts_with kazoo.Recipe.Lock.search_in
released_test = refl

abbrev three_members : List (List ℕ)
three_members = codes "b" ∷ codes "a" ∷ codes "c" ∷ []

abbrev items : List (List ℕ)
items = codes "4" ∷ codes "1" ∷ codes "3" ∷ codes "2" ∷ []

members-IsDistinct : IsDistinct three_members
members-IsDistinct [] = omega arith
members-IsDistinct (c ∷ []) = ground arith
members-IsDistinct (c ∷ d ∷ cs) = ground arith

partitioner_test : partitioner (codes "a") three_members items ≡ ok (codes "1" ∷ codes "4" ∷ [])
unfolding partitioner kazoo.Recipe.Partitioner.index kazoo.Python.Ordered.sorted_texts
    kazoo.Recipe.Partitioner.slice
partitioner_test = refl

partitioner_shares_example :
    total (λ m. counted (codes "3") (partitioner m three_members items)) three_members ≡ 1
partitioner_shares_example =
    partitioner_shares three_members items members-IsDistinct (omega arith) (codes "3")

abbrev joined : Partitioner
joined = record {
  state = allocating;
  state_id = 0;
  partition_set = [];
  locks = [];
  participating = true;
  ready = false;
  changed = false;
  watches = 1;
  failing = 0;
}

-- The first lock is not free at once.
abbrev attempts : List Attempt
attempts =
    record { meanwhile = []; outcome = timed_out; raises = [] }
    ∷ record { meanwhile = []; outcome = locked; raises = [] }
    ∷ record { meanwhile = []; outcome = locked; raises = [] }
    ∷ []

abbrev share : List (List ℕ)
share = codes "1" ∷ codes "4" ∷ []

abbrev allocated : Partitioner
allocated = record joined {
  state = acquired;
  state_id = 1;
  partition_set = share;
  locks = share;
  ready = true;
  changed = true;
}

allocate_transition-IsAcquired_example : IsAcquired (ok share) joined allocated
unfolding allocate_transition
allocate_transition-IsAcquired_example =
    allocate_transition-IsAcquired true (ok share) attempts [] [] joined allocated (λ e. cc) refl
      refl

-- The session is lost while the first lock is taken.
abbrev failed : Partitioner
failed = record joined { state = failure; state_id = 1; participating = false }

allocation_failed_example :
    StaysFailed 0 (settled 0 share [] [] (acquire_locks 0 share attempts (failed, false)))
allocation_failed_example =
    allocation_failed 0 share attempts [] [] failed false (refl, omega arith)
