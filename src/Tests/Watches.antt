-- ===== src/Tests/Watches.antt =====
-- Queues, counters, semaphores, leases and watchers.
use kazoo.Base.{
  ℕ, ◌≡◌, refl, ap, List, [], ◌∷◌, ◌++◌, Option, none, some, Bool, true, false, Result, ok, err,
  type_error,
}
use kazoo.States.{child, created}
use kazoo.Python.Text.{codes}
use kazoo.Recipe.Queue
use kazoo.Recipe.Queue.{QueueState, new_queue, new_locking_queue}
use kazoo.Recipe.Queue.Order.{IsTaken, inner_get-IsTaken}
use kazoo.Recipe.Queue.Locking
use kazoo.Recipe.Queue.Locking.Taking.{Got, inner_get-Got}
use kazoo.Recipe.Counter
use kazoo.Recipe.Counter.{Numeric, CounterState}
use kazoo.Recipe.Counter.Change.{IsChanged, change-IsChanged}
use kazoo.Recipe.Semaphore
use kazoo.Recipe.Semaphore.{Semaphore, new_semaphore}
use kazoo.Recipe.Semaphore.Leases.{HasLease, acquire-HasLease}
use kazoo.Recipe.Lease
use kazoo.Recipe.Lease.{LeaseData, Format}
use kazoo.Recipe.Lease.Obtained.{IsVacant, IsStored, locked-Obtained}
use kazoo.Recipe.Watchers.Started
use kazoo.Recipe.Watchers.Versions.{Changes, after, data_watch-Changes}
use kazoo.Tests.Servers.{Nodes, server}

-- A queue with two entries gives the one with the lower priority number.
abbrev entries : Nodes
entries =
    (codes "/q/entry-100-0000000000", codes "late")
    ∷ (codes "/q/entry-009-0000000001", codes "soon")
    ∷ []

abbrev got : (QueueState × Nodes) × Result (Option (List ℕ))
got = Queue.inner_get server 2 (new_queue (codes "/q"), entries)

got_test : got.1 ≡ ok (some (codes "soon"))
unfolding Queue.inner_get new_queue kazoo.Recipe.retry kazoo.Recipe.retried
    kazoo.Python.Ordered.sorted_texts kazoo.Python.Text.starts_with
got_test = refl

inner_get-IsTaken_example : IsTaken server (new_queue (codes "/q")) got.0 (some (codes "soon"))
unfolding Queue.inner_get new_queue kazoo.Recipe.retry kazoo.Recipe.retried
    kazoo.Python.Ordered.sorted_texts kazoo.Python.Text.starts_with
inner_get-IsTaken_example =
    inner_get-IsTaken server 2 (new_queue (codes "/q")) entries got.0 (some (codes "soon")) refl

-- Of a locking queue's two entries the first is locked by somebody.
abbrev locked_entries : Nodes
locked_entries =
    (codes "/q/entries/entry-100-0000000000", codes "late")
    ∷ (codes "/q/entries/entry-009-0000000001", codes "soon")
    ∷ (codes "/q/taken/entry-009-0000000001", codes "other")
    ∷ []

abbrev mine : QueueState
mine = new_locking_queue (codes "/q") (codes "cafe")

abbrev took : (QueueState × Nodes) × Result (Option (List ℕ))
took = Queue.Locking.inner_get server 2 (child ∷ []) (mine, locked_entries)

inner_get-Got_example : Got server 2 mine took.0 (some (codes "late"))
unfolding Locking.inner_get Locking.check_for_updates kazoo.Recipe.retry kazoo.Recipe.retried
    Locking.filter_locked kazoo.Python.Ordered.sorted_texts kazoo.Python.Text.starts_with
    new_locking_queue Locking.take Locking.check_events
inner_get-Got_example =
    inner_get-Got server 2 (child ∷ []) mine locked_entries took.0 (some (codes "late")) refl

-- A counter of numbers in unary.
abbrev unary : Numeric
unary = record {
  Number = List ℕ;
  add = λ m n. m ++ n;
  negate = λ n. [];
  is_int = true;
  repr = λ n. n;
  parse = λ bytes. ok bytes;
  pack = λ n. ok n;
  unpack = λ bytes. ok bytes;
}

abbrev counter : CounterState unary
counter = record {
  path = codes "/c";
  default = [];
  support_curator = false;
  ensured_path = false;
  pre_value = none;
  post_value = none;
}

abbrev changed : (CounterState unary × Nodes) × Result (Unit {0})
changed = Counter.change server unary 2 (codes "11") (counter, (codes "/c", codes "1") ∷ [])

change-IsChanged_example : IsChanged server unary (codes "11") changed.0 tt
unfolding Counter.change kazoo.Recipe.retry kazoo.Recipe.retried Counter.inner_change Counter.value
    Counter.decode_with Counter.encode_with
change-IsChanged_example =
    change-IsChanged server unary 2 (codes "11") (counter, (codes "/c", codes "1") ∷ []) changed.0
      refl

abbrev semaphore : Semaphore
semaphore = record (new_semaphore (codes "/s") (codes "me") 2 (codes "beef")) {
  assured_path = true;
}

abbrev leased : (Semaphore × Nodes) × Result Bool
leased =
    Semaphore.acquire server (λ text. text) 3 true none (semaphore, (codes "/s", codes "2") ∷ [])

leased_test : leased.1 ≡ ok true
unfolding Semaphore.acquire Semaphore.inner_acquire Semaphore.lease_loop Semaphore.get_lease
    new_semaphore kazoo.Recipe.retry kazoo.Recipe.retried kazoo.Recipe.Lock.Acquire.acquire
    kazoo.Recipe.Lock.Acquire.inner_acquire kazoo.Recipe.Lock.new_lock
    kazoo.Recipe.Lock.Acquire.ensure_path kazoo.Recipe.Lock.Acquire.wait_turn
    kazoo.Recipe.Lock.predecessor_of kazoo.Python.Text.starts_with kazoo.Recipe.Lock.search_in
    kazoo.Recipe.Lock.Acquire.release kazoo.Recipe.Lock.Acquire.inner_release
leased_test = refl

acquire-HasLease_example : HasLease server (λ text. text) 3 leased.0 true
acquire-HasLease_example =
    acquire-HasLease server (λ text. text) 3 true none (semaphore, (codes "/s", codes "2") ∷ [])
      leased.0 true (ap (λ r. (leased.0, r)) leased_test)

-- A record is the version, the holder and the end, which is one character.
abbrev format : Format
format = record {
  encode = λ d. d.version ∷ (d.end_date ++ d.holder);
  decode = λ bytes. decoded bytes;
  strftime = λ t. t ∷ [];
  strptime = λ text. parsed text;
}
  where
    decoded : List ℕ → Result LeaseData
    decoded (v ∷ e ∷ holder) = ok (record { version = v; holder = holder; end_date = e ∷ [] })
    decoded bytes = err type_error

    parsed : List ℕ → Result ℕ
    parsed (t ∷ []) = ok t
    parsed text = err type_error

-- The lease of another holder has run out at the time 50.
abbrev expired : Nodes
expired = (codes "/e/lease_holder", 1 ∷ 40 ∷ codes "other") ∷ []

abbrev obtained : (Bool × Nodes) × Result (Unit {0})
obtained = Lease.locked server format (λ w. 50) 3 (codes "/e") (codes "me") 10 (false, expired)

locked-Obtained_example :
    IsVacant server format (λ w. 50) (codes "/e") (codes "me") 10 50
    × IsStored server format (λ w. 50) (codes "/e") (codes "me") 10 50
unfolding kazoo.Python.Utf8.encode kazoo.Python.Utf8.encode_char kazoo.Recipe.Lock.Acquire.acquire
    kazoo.Recipe.retry kazoo.Recipe.retried kazoo.Recipe.Lock.Acquire.inner_acquire
    kazoo.Recipe.Lock.new_lock kazoo.Recipe.Lock.Acquire.ensure_path
    kazoo.Recipe.Lock.Acquire.wait_turn kazoo.Recipe.Lock.predecessor_of
    kazoo.Python.Text.starts_with kazoo.Recipe.Lock.search_in kazoo.Recipe.Lock.Acquire.release
    kazoo.Recipe.Lock.Acquire.inner_release Lease.attempt
locked-Obtained_example =
    locked-Obtained server format (λ w. 50) (codes "/e") (codes "me") 10 3 expired obtained.0.1 refl

-- A watch of a missing node, and an event behind it.
data_watch-Changes_example :
    Changes
      (λ calls. ok true)
      []
      none
      (after server 2
        (λ calls. ok true)
        (some created ∷ [])
        (Started.data_watch server 2 (λ calls. ok true) (codes "/d") []).0).0.calls
data_watch-Changes_example =
    data_watch-Changes server 2 (λ calls. ok true) (codes "/d") (some created ∷ []) []
