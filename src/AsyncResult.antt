-- ===== src/AsyncResult.antt =====
-- `AsyncResult` of kazoo/handlers/utils.py.
pub mod Callbacks
use kazoo.Base.{
  ℕ, List, [], ◌∷◌, ◌++◌, Option, none, some, Bool, true, false, ◌==◌, Exn, timeout_error, Result,
  ok, err, if◌then◌else◌,
}

-- A callback that was called, or put into the completion queue of a running handler.
pub data Call : Type 0 where
  called queued : ℕ → Call

-- `_exception` and `value` are one field: None is not ready. Callbacks are known by numbers.
pub record AsyncResult {ℓ} (A : Type ℓ) : Type ℓ where
  pub outcome : Option (Result A)
  pub callbacks : List ℕ
  pub calls : List Call

unfoldable pub contains : ℕ → List ℕ → Bool
contains c [] = false
contains c (d ∷ ds) = if d == c then true else contains c ds

-- `list.remove`, of the first
unfoldable pub removed : ℕ → List ℕ → List ℕ
removed c [] = []
removed c (d ∷ ds) = if d == c then ds else d ∷ removed c ds

-- The loop of `_do_callbacks`, for whether the handler is running.
unfoldable pub calls_of : Bool → List ℕ → List Call
calls_of running [] = []
calls_of running (c ∷ cs) = (if running then queued c else called c) ∷ calls_of running cs

module _ {ℓ} {A : Type ℓ} where
  abbrev pub new_result : AsyncResult A
  new_result = record { outcome = none; callbacks = []; calls = [] }

  abbrev pub is_some : Option (Result A) → Bool
  is_some none = false
  is_some (some r) = true

  abbrev pub ready : AsyncResult A → Bool
  ready r = is_some r.outcome

  abbrev is_ok : Option (Result A) → Bool
  is_ok (some (ok a)) = true
  is_ok _ = false

  -- `_exception is None`
  pub successful : AsyncResult A → Bool
  successful r = is_ok r.outcome

  unfoldable pub do_callbacks : Bool → AsyncResult A → AsyncResult A
  unfolding calls_of
  do_callbacks running r = record r { calls = r.calls ++ calls_of running r.callbacks }

  unfoldable pub set : Bool → A → AsyncResult A → AsyncResult A
  unfolding do_callbacks
  set running a r = do_callbacks running (record r { outcome = some (ok a) })

  unfoldable pub set_exception : Bool → Exn → AsyncResult A → AsyncResult A
  unfolding do_callbacks
  set_exception running e r = do_callbacks running (record r { outcome = some (err e) })

  -- The value or the exception, or TimeoutError.
  abbrev pub outcome_or_timeout : Option (Result A) → Result A
  outcome_or_timeout none = err timeout_error
  outcome_or_timeout (some o) = o

  -- Where it blocks, the last argument is the result after the wait.
  unfoldable pub get : Bool → AsyncResult A → AsyncResult A → Result A
  get block r later =
      if ready r
      then outcome_or_timeout r.outcome
      else if block
      then outcome_or_timeout later.outcome
      else err timeout_error

  unfoldable pub get_nowait : AsyncResult A → Result A
  unfolding get
  get_nowait r = get false r r

  -- Whether it is ready after the wait.
  unfoldable pub wait : AsyncResult A → AsyncResult A → Bool
  wait r later = if ready r then true else ready later

  unfoldable pub rawlink : Bool → ℕ → AsyncResult A → AsyncResult A
  unfolding contains do_callbacks
  rawlink running c r =
      let linked = record r {
        callbacks = if contains c r.callbacks then r.callbacks else r.callbacks ++ c ∷ [];
      } in
      if ready r then do_callbacks running linked else linked

  unfoldable pub unlink : ℕ → AsyncResult A → AsyncResult A
  unfolding contains removed
  unlink c r =
      if ready r
      then r
      else if contains c r.callbacks
      then record r { callbacks = removed c r.callbacks }
      else r
