-- ===== src/Recipe.antt =====
-- What the recipes (kazoo/recipe) use of a client: the blocking operations of kazoo/client.py, events
-- and listeners. The servers, the network and the other clients stand behind them and are the `World`.
pub mod Rules
pub mod Lock
pub mod Partitioner
pub mod Queue
pub mod Counter
pub mod Party
pub mod Barrier
pub mod Semaphore
pub mod Lease
pub mod Election
pub mod Watchers
pub mod Cache
use kazoo.Base.{
  ℕ, zero, suc, List, Option, none, some, Bool, true, false, Exn, Result, ok, err, zookeeper_error,
  out_of_fuel, connection_closed, connection_dropped, configuration_error, retry_failed_error,
  interrupted_error, cancelled_error, lock_timeout, kazoo_exception,
}
use kazoo.Base.Int.{ℤ}
use kazoo.Exceptions.{no_node_error, node_exists_error}
use kazoo.Protocol.Records.{ZnodeStat}
use kazoo.Retry.{is_retryable}

-- The operations of a transaction that recipes use.
pub data Change : Type 0 where
  create_node : List ℕ → List ℕ → Bool → Change
  delete_node : List ℕ → Change

-- Each operation may change the world, also by what others do before and after it. `wait` waits for the
-- recipe's event, for at most a time, and tells whether the event is set behind it; `clear` clears it.
-- `cancels` says whether another thread has called the recipe's `cancel`, `loses` whether the session
-- was lost, since it was asked last; `new_hex` is `uuid.uuid4().hex`.
-- `commit` sends a transaction and gives for each operation whether it succeeded: `commit` raises none
-- of the operations' own errors.
-- `pause` is what KazooRetry does behind a failed try, and the exception that ends the call, if any.
pub record Zookeeper : Type 1 where
  pub World : Type 0
  pub ensure_path : World → List ℕ → World × Result Bool
  pub create : World → List ℕ → List ℕ → Bool → Bool → World × Result (List ℕ)
  pub get : World → List ℕ → World × Result (List ℕ × ZnodeStat)
  pub set : World → List ℕ → List ℕ → Option ℤ → World × Result (Unit {0})
  pub delete : World → List ℕ → World × Result (Unit {0})
  pub exists : World → List ℕ → World × Result Bool
  pub get_children : World → List ℕ → World × Result (List (List ℕ))
  pub sync : World → List ℕ → World × Result (List ℕ)
  pub commit : World → List Change → World × Result (List Bool)
  pub add_listener : World → World
  pub remove_listener : World → World
  pub clear : World → World
  pub cancels : World → Bool
  pub loses : World → Bool
  pub new_hex : World → World × List ℕ
  pub wait : World → Option ℕ → World × Bool
  pub pause : World → World × Option Exn

-- A method of an object with fields `S` in a world `W`: it changes them, and may raise.
abbrev pub M : Type 0 → Type 0 → Type 0 → Type 0
M W S A = S × W → (S × W) × Result A

module _ {W S A : Type 0} where
  abbrev pub pure : A → M W S A
  pure a s = (s, ok a)

  abbrev pub raise : Exn → M W S A
  raise e s = (s, err e)

  -- An operation of the client.
  abbrev pub on_world : (W → W × Result A) → M W S A
  on_world f s = let r = f s.1 in ((s.0, r.0), r.1)

  -- try: m / except: a handler for each exception, which may raise it again.
  abbrev pub handled : (Exn → M W S A) → (S × W) × Result A → (S × W) × Result A
  handled h (s, ok a) = (s, ok a)
  handled h (s, err e) = h e s

  abbrev pub catch : M W S A → (Exn → M W S A) → M W S A
  catch m h s = handled h (m s)

  -- try: m / finally: f, where f raises nothing.
  abbrev pub finally : M W S A → (S × W → S × W) → M W S A
  finally m f s = let r = m s in (f r.0, r.1)

  -- What KazooRetry does behind a failed try that may be retried.
  abbrev pub again : M W S A → S → W × Option Exn → (S × W) × Result A
  again m s (w, none) = m (s, w)
  again m s (w, some e) = ((s, w), err e)

  abbrev pub retry_if : Bool → Exn → (W → W × Option Exn) → M W S A → S × W → (S × W) × Result A
  retry_if true e pause rest s = again rest s.0 (pause s.1)
  retry_if false e pause rest s = (s, err e)

  unfoldable pub retried : (W → W × Option Exn) → M W S A → (S × W) × Result A → (S × W) × Result A
  retried pause rest (s, ok a) = (s, ok a)
  retried pause rest (s, err e) = retry_if (is_retryable true e) e pause rest s

  -- KazooRetry.__call__, with as many tries as there is fuel.
  unfoldable pub retry : (W → W × Option Exn) → ℕ → M W S A → M W S A
  retry pause zero m s = (s, err out_of_fuel)
  retry pause (suc fuel) m s = retried pause (retry pause fuel m) (m s)

module _ {W S : Type 0} where
  abbrev pub bind : {A B : Type 0} → (A → M W S B) → (S × W) × Result A → (S × W) × Result B
  bind k (s, ok a) = k a s
  bind k (s, err e) = (s, err e)

  infixl 5 ◌>>=◌ ◌>>◌
  abbrev pub ◌>>=◌ : {A B : Type 0} → M W S A → (A → M W S B) → M W S B
  ◌>>=◌ m k s = bind k (m s)

  abbrev pub ◌>>◌ : {B : Type 0} → M W S (Unit {0}) → M W S B → M W S B
  m >> k = m >>= λ _. k

  abbrev pub change_world : (W → W) → M W S (Unit {0})
  change_world f s = ((s.0, f s.1), ok tt)

  abbrev pub self : M W S S
  self s = (s, ok s.0)

  abbrev pub update : (S → S) → M W S (Unit {0})
  update f s = ((f s.0, s.1), ok tt)

-- except NoNodeError / except NodeExistsError
abbrev pub is_no_node : Exn → Bool
is_no_node (zookeeper_error no_node_error) = true
is_no_node _ = false

abbrev pub is_node_exists : Exn → Bool
is_node_exists (zookeeper_error node_exists_error) = true
is_node_exists _ = false

-- except KazooException, the base of the client's exceptions
abbrev pub is_kazoo : Exn → Bool
is_kazoo (zookeeper_error e) = true
is_kazoo connection_closed = true
is_kazoo connection_dropped = true
is_kazoo configuration_error = true
is_kazoo retry_failed_error = true
is_kazoo interrupted_error = true
is_kazoo cancelled_error = true
is_kazoo lock_timeout = true
is_kazoo kazoo_exception = true
is_kazoo _ = false
