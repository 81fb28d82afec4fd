-- ===== src/Tests/Waits.antt =====
-- Retries and async results.
use kazoo.Base.{
  ℕ, List, [], ◌∷◌, ◌+◌, ◌*◌, ◌/◌, ◌≡◌, ◌≢◌, refl, none, some, true, false, ok, zookeeper_error,
  arith,
}
use kazoo.Base.Int.{pos}
use kazoo.Exceptions.{connection_loss}
use kazoo.Retry.{KazooRetry, Pause, Try, returns, raises, pause, run}
use kazoo.Retry.Attempts.{run-ne-none, run-retried}
use kazoo.AsyncResult.{new_result, set}
use kazoo.AsyncResult.Callbacks.{Linking, link, unlinks, calls_to, prepared, set-prepared}

abbrev patient : KazooRetry
patient = record {
  max_tries = none;
  delay = 10;
  max_delay = 60;
  deadline = none;
  has_interrupt = false;
  ignore_expire = true;
  attempts = 0;
  cur_delay = 10;
  cur_stoptime = none;
  slept = [];
}

-- A jitter of 40 percent, and a doubled delay.
abbrev slow : Pause
slow = record {
  clock = 0;
  jittered = λ d. d + d * 2 / 5;
  backed_off = λ d. d * 2;
  interrupts = λ k. false;
}

abbrev lost_once : List (Try ℕ)
lost_once = raises (zookeeper_error connection_loss) slow ∷ returns 7 ∷ []

-- A sleep longer than `max_delay`, by the jitter.
long_sleep : (pause 1 slow (record patient { cur_delay = 60 })).0.slept ≡ 84 ∷ []
unfolding pause
long_sleep = refl

run-ne-none_example : (run 1 0 lost_once (record patient { max_tries = some (pos 2) })).1 ≢ none
run-ne-none_example =
    run-ne-none 1 0 1 lost_once (record patient { max_tries = some (pos 2) }) refl (omega arith)

run-retried_example : (run 1 0 lost_once patient).1 ≡ some (ok 7)
run-retried_example =
    run-retried 1 0 (raises (zookeeper_error connection_loss) slow ∷ []) [] patient 7 refl refl refl
      (refl, tt)

abbrev value : ℕ
value = 5

set-prepared_example :
    calls_to 3
      (set true value (prepared true (link 3 ∷ link 3 ∷ link 4 ∷ unlinks 4 ∷ []) new_result)).calls
    ≡ 1
unfolding kazoo.AsyncResult.Callbacks.is_linked
set-prepared_example = set-prepared true 3 (link 3 ∷ link 3 ∷ link 4 ∷ unlinks 4 ∷ []) value
