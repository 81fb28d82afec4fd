-- ===== src/Retry.antt =====
-- `KazooRetry` of kazoo/retry.py. Times are natural numbers of a unit; what the source computes with
-- random and floating-point factors is a function of each pause.
pub mod Attempts
use kazoo.Base.{
  ℕ, zero, suc, ◌+◌, ◌-◌, List, [], ◌∷◌, ◌++◌, Option, none, some, Bool, true, false, ◌&&◌, Exn,
  zookeeper_error, connection_closed, force_retry_error, retry_failed_error, interrupted_error,
  Result, ok, err, if◌then◌else◌, leb,
}
use kazoo.Base.Int.{ℤ, pos, int_eq}
use kazoo.Exceptions.{connection_loss, operation_timeout_error, session_expired_error}

-- `max_tries` may be None, and -1 means no bound.
pub record KazooRetry : Type 0 where
  pub max_tries : Option ℤ
  pub delay : ℕ
  pub max_delay : ℕ
  pub deadline : Option ℕ
  pub has_interrupt : Bool
  pub ignore_expire : Bool
  pub attempts : ℕ
  pub cur_delay : ℕ
  pub cur_stoptime : Option ℕ
  pub slept : List ℕ

-- What a failed try meets: the clock behind it, the delay with its jitter, the delay multiplied by
-- `backoff`, and what the interrupt function answers after each part of the sleep.
pub record Pause : Type 0 where
  pub clock : ℕ
  pub jittered : ℕ → ℕ
  pub backed_off : ℕ → ℕ
  pub interrupts : ℕ → Bool

pub data Try {ℓ} (A : Type ℓ) : Type ℓ where
  returns : A → Try A
  raises : Exn → Pause → Try A

-- `except self.retry_exceptions`, with the expiration where it is ignored.
abbrev pub is_retryable : Bool → Exn → Bool
is_retryable ignore_expire (zookeeper_error connection_loss) = true
is_retryable ignore_expire (zookeeper_error operation_timeout_error) = true
is_retryable ignore_expire (zookeeper_error session_expired_error) = ignore_expire
is_retryable ignore_expire force_retry_error = true
is_retryable ignore_expire _ = false

abbrev pub is_option : Option ℤ → ℕ → Bool
is_option none n = false
is_option (some z) n = int_eq z (pos n)

abbrev pub min : ℕ → ℕ → ℕ
min a b = if leb a b then a else b

unfoldable pub reset : KazooRetry → KazooRetry
reset r = record r { attempts = 0; cur_delay = r.delay; cur_stoptime = none }

-- `self._cur_stoptime = time.monotonic() + self.deadline`, at the first try.
abbrev pub stop_at : Option ℕ → ℕ → Option ℕ
stop_at none now = none
stop_at (some d) now = some (now + d)

abbrev pub is_over : Option ℕ → ℕ → Bool
is_over none t = false
is_over (some s) t = leb s t

-- The parts of a sleep, of at most a tenth of a second, and whether it was interrupted. Each part but
-- the last takes `tenth`, which is not 0, so the time that remains is fuel enough.
unfoldable pub sleep_parts : ℕ → (ℕ → Bool) → ℕ → ℕ → ℕ → List ℕ × Bool
sleep_parts tenth answers zero k remains = ([], false)
sleep_parts tenth answers (suc fuel) k zero = ([], false)
sleep_parts tenth answers (suc fuel) k (suc remains) =
    let rest = sleep_parts tenth answers fuel (suc k) (suc remains - tenth) in
    let part = min tenth (suc remains) in
    if answers k then (part ∷ [], true) else (part ∷ rest.0, rest.1)

abbrev sleep : ℕ → Bool → Pause → ℕ → List ℕ × Bool
sleep tenth has_interrupt p time =
    if has_interrupt then sleep_parts tenth p.interrupts time 0 time else (time ∷ [], false)

-- Behind a failed try that may be retried: the exception that ends the call, if any.
abbrev slept_after : List ℕ × Bool → ℕ → Pause → KazooRetry → KazooRetry × Option Exn
slept_after (parts, true) time p r = (record r { slept = r.slept ++ parts }, some interrupted_error)
slept_after (parts, false) time p r =
    (record r { slept = r.slept ++ parts; cur_delay = min (p.backed_off time) r.max_delay }, none)

unfoldable pub pause : ℕ → Pause → KazooRetry → KazooRetry × Option Exn
unfolding sleep_parts
pause tenth p r =
    let r' = record r { attempts = suc r.attempts } in
    let time = p.jittered r.cur_delay in
    if is_option r.max_tries (suc r.attempts)
    then (r', some retry_failed_error)
    else if is_over r.cur_stoptime (p.clock + time)
    then (r', some retry_failed_error)
    else slept_after (sleep tenth r.has_interrupt p time) time p r'

module _ {ℓ} {A : Type ℓ} (tenth : ℕ) where
  -- The loop over the tries; none where the tries run out and the call still goes on.
  unfoldable pub loop : List (Try A) → KazooRetry → KazooRetry × Option (Result A)
  loop [] r = (r, none)
  loop (returns a ∷ ts) r = (r, some (ok a))
  loop (raises e p ∷ ts) r =
      let paused = pause tenth p r in
      let later = loop ts paused.0 in
      if is_retryable r.ignore_expire e
      then elim paused.1 [ none ↦ later | some x ↦ (paused.0, some (err x)) ]
      else (r, some (err e))

  -- `now` is the clock at the first try.
  unfoldable pub run : ℕ → List (Try A) → KazooRetry → KazooRetry × Option (Result A)
  run now ts r = let r' = reset r in loop ts (record r' { cur_stoptime = stop_at r.deadline now })
