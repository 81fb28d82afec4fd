-- ===== src/Retry/Attempts.antt =====
-- How many tries a call takes, and which of them its value is from.
use kazoo.Base.{
  ℕ, zero, suc, ◌+◌, ◌≤◌, List, [], ◌∷◌, ◌++◌, ◌≡◌, ◌≢◌, refl, ap, sym, ◌∙◌, none, some, Bool, true,
  false, Bool-cases, Option-cases, inl, inr, Exn, ok, err, All, length, arith,
}
use kazoo.Base.Int.{pos, int_eq_refl}
use kazoo.Retry.{
  KazooRetry, Pause, Try, returns, raises, is_retryable, is_option, is_over, slept_after, pause,
  loop, run, reset, stop_at,
}

-- A pause counts one more try and leaves the settings alone.
record Counts (r s : KazooRetry) : Type 0 where
  pub one_more : s.attempts ≡ suc r.attempts
  pub same_tries : s.max_tries ≡ r.max_tries
  pub same_expire : s.ignore_expire ≡ r.ignore_expire
  pub same_interrupt : s.has_interrupt ≡ r.has_interrupt
  pub same_stoptime : s.cur_stoptime ≡ r.cur_stoptime

slept_after-Counts :
    (w : List ℕ × Bool) (t : ℕ) (p : Pause) (r : KazooRetry)
    → Counts r (slept_after w t p (record r { attempts = suc r.attempts })).0
slept_after-Counts (parts, true) t p r = record {
  one_more = refl;
  same_tries = refl;
  same_expire = refl;
  same_interrupt = refl;
  same_stoptime = refl;
}
slept_after-Counts (parts, false) t p r = record {
  one_more = refl;
  same_tries = refl;
  same_expire = refl;
  same_interrupt = refl;
  same_stoptime = refl;
}

module _ {ℓ} {A : Type ℓ} where
  -- A try that failed with an exception that may be retried.
  abbrev pub IsRetried : Bool → Try A → Type 0
  IsRetried b (returns a) = ⊥
  IsRetried b (raises e p) = is_retryable b e ≡ true

  -- A value is that of one try, and all tries before it failed and were retried.
  pub IsFromTry : Bool → List (Try A) → A → Type ℓ
  IsFromTry b ts a = (ps qs : List (Try A)) × (ts ≡ ps ++ returns a ∷ qs) × All (IsRetried b) ps

  IsFromTry-returns : (b : Bool) (ts : List (Try A)) (a : A) → IsFromTry b (returns a ∷ ts) a
  unfolding IsFromTry
  IsFromTry-returns b ts a = ([], ts, refl, tt)

  IsFromTry-cons :
      (b : Bool) (x : Exn) (p : Pause) (ts : List (Try A)) (a : A)
      → is_retryable b x ≡ true
      → IsFromTry b ts a
      → IsFromTry b (raises x p ∷ ts) a
  unfolding IsFromTry
  IsFromTry-cons b x p ts a e (ps, qs, q, k) =
      (raises x p ∷ ps, qs, ap (λ l. raises x p ∷ l) q, (e, k))

module _ (tenth : ℕ) where
  pause-Counts : (p : Pause) (r : KazooRetry) → Counts r (pause tenth p r).0
  unfolding pause
  pause-Counts p r = elim (Bool-cases (is_option r.max_tries (suc r.attempts))) [
    | inl e ↦ simp e (record {
      one_more = refl;
      same_tries = refl;
      same_expire = refl;
      same_interrupt = refl;
      same_stoptime = refl;
    })
    | inr e ↦ elim (Bool-cases (is_over r.cur_stoptime (p.clock + p.jittered r.cur_delay))) [
      | inl o ↦
          simp (e, o)
            (record {
              one_more = refl;
              same_tries = refl;
              same_expire = refl;
              same_interrupt = refl;
              same_stoptime = refl;
            })
      | inr o ↦ simp (e, o) (slept_after-Counts _ (p.jittered r.cur_delay) p r)
    ]
  ]

  -- At the last try the pause ends the call.
  pause-last :
      (p : Pause) (r : KazooRetry)
      → r.max_tries ≡ some (pos (suc r.attempts))
      → (pause tenth p r).1 ≢ none
  unfolding pause
  pause-last p r h = simp (h, int_eq_refl (pos (suc r.attempts))) (λ e. cc)

  pause-goes :
      (p : Pause) (r : KazooRetry)
      → r.max_tries ≡ none
      → r.cur_stoptime ≡ none
      → r.has_interrupt ≡ false
      → (pause tenth p r).1 ≡ none
  unfolding pause
  pause-goes p r h k i = simp (h, k, i) refl

  module _ {ℓ} {A : Type ℓ} where
    loop-ne-none :
        (m : ℕ) (ts : List (Try A)) (r : KazooRetry)
        → r.max_tries ≡ some (pos (suc m + r.attempts))
        → suc m ≤ length ts
        → (loop tenth ts r).1 ≢ none
    unfolding loop
    loop-ne-none m [] r h k = absurd (omega (arith, k))
    loop-ne-none m (returns a ∷ ts) r h k = λ e. cc
    loop-ne-none zero (raises x p ∷ ts) r h k = elim (Bool-cases (is_retryable r.ignore_expire x)) [
      | inr e ↦ simp e (λ q. cc)
      | inl e ↦ elim (Option-cases (pause tenth p r).1) [
        | inr (y, o) ↦ simp (e, o) (λ q. cc)
        | inl o ↦ absurd (pause-last p r (h ∙ ap (λ n. some (pos n)) (omega arith)) o)
      ]
    ]
    loop-ne-none (suc m) (raises x p ∷ ts) r h k =
        elim (Bool-cases (is_retryable r.ignore_expire x)) [
          | inr e ↦ simp e (λ q. cc)
          | inl e ↦ elim (Option-cases (pause tenth p r).1) [
            | inr (y, o) ↦ simp (e, o) (λ q. cc)
            | inl o ↦
                let c = pause-Counts p r in
                simp (e, o)
                  (loop-ne-none m ts (pause tenth p r).0
                    (c.same_tries ∙ h ∙ ap (λ n. some (pos n)) (omega (arith, c.one_more)))
                    (omega (arith, k)))
          ]
        ]

    -- A call ends: with a positive `max_tries` it never takes more tries than that.
    pub run-ne-none :
        (now m : ℕ) (ts : List (Try A)) (r : KazooRetry)
        → r.max_tries ≡ some (pos (suc m))
        → suc m ≤ length ts
        → (run tenth now ts r).1 ≢ none
    unfolding run reset
    run-ne-none now m ts r h k =
        loop-ne-none m ts
          (record r { attempts = 0; cur_delay = r.delay; cur_stoptime = stop_at r.deadline now })
          (h ∙ ap (λ n. some (pos n)) (omega arith)) k

    loop-raises_end :
        (x : Exn) (p : Pause) (ts : List (Try A)) (r : KazooRetry)
        → is_retryable r.ignore_expire x ≡ false
        → (loop tenth (raises x p ∷ ts) r).1 ≡ some (err x)
    unfolding loop
    loop-raises_end x p ts r e = simp e refl

    loop-raises_stop :
        (x y : Exn) (p : Pause) (ts : List (Try A)) (r : KazooRetry)
        → is_retryable r.ignore_expire x ≡ true
        → (pause tenth p r).1 ≡ some y
        → (loop tenth (raises x p ∷ ts) r).1 ≡ some (err y)
    unfolding loop
    loop-raises_stop x y p ts r e o = simp (e, o) refl

    loop-raises_go :
        (x : Exn) (p : Pause) (ts : List (Try A)) (r : KazooRetry)
        → is_retryable r.ignore_expire x ≡ true
        → (pause tenth p r).1 ≡ none
        → (loop tenth (raises x p ∷ ts) r).1 ≡ (loop tenth ts (pause tenth p r).0).1
    unfolding loop
    loop-raises_go x p ts r e o = simp (e, o) refl

    loop-IsFromTry :
        (b : Bool) (ts : List (Try A)) (r : KazooRetry) (a : A)
        → r.ignore_expire ≡ b
        → (loop tenth ts r).1 ≡ some (ok a)
        → IsFromTry b ts a
    unfolding loop
    loop-IsFromTry b [] r a g h = cc
    loop-IsFromTry b (returns c ∷ ts) r a g h =
        let e : c ≡ a = cc in rw (← e) (IsFromTry-returns b ts c)
    loop-IsFromTry b (raises x p ∷ ts) r a g h =
        elim (Bool-cases (is_retryable r.ignore_expire x)) [
          | inr e ↦ let q = sym (loop-raises_end x p ts r e) ∙ h in cc
          | inl e ↦ elim (Option-cases (pause tenth p r).1) [
            | inr (y, o) ↦ let q = sym (loop-raises_stop x y p ts r e o) ∙ h in cc
            | inl o ↦ IsFromTry-cons b x p ts a (sym (ap (λ t. is_retryable t x) g) ∙ e) (
                loop-IsFromTry b ts (pause tenth p r).0 a ((pause-Counts p r).same_expire ∙ g)
                  (sym (loop-raises_go x p ts r e o) ∙ h))
          ]
        ]

    loop-retried :
        (ps qs : List (Try A)) (r : KazooRetry) (a : A)
        → r.max_tries ≡ none
        → r.cur_stoptime ≡ none
        → r.has_interrupt ≡ false
        → All (IsRetried r.ignore_expire) ps
        → (loop tenth (ps ++ returns a ∷ qs) r).1 ≡ some (ok a)
    unfolding loop
    loop-retried [] qs r a h k i g = refl
    loop-retried (returns b ∷ ps) qs r a h k i g = absurd g.0
    loop-retried (raises x p ∷ ps) qs r a h k i g =
        let c = pause-Counts p r in
        loop-raises_go x p (ps ++ returns a ∷ qs) r g.0 (pause-goes p r h k i)
        ∙ loop-retried ps qs (pause tenth p r).0 a (c.same_tries ∙ h) (c.same_stoptime ∙ k)
            (c.same_interrupt ∙ i) (rw c.same_expire g.1)

    -- The value of a call is the value of one try, and every try before it failed with an exception
    -- that may be retried.
    pub run-IsFromTry :
        (now : ℕ) (ts : List (Try A)) (r : KazooRetry) (a : A)
        → (run tenth now ts r).1 ≡ some (ok a)
        → IsFromTry r.ignore_expire ts a
    unfolding run reset
    run-IsFromTry now ts r a h = loop-IsFromTry r.ignore_expire ts _ a refl h

    -- Without a bound on the tries, a deadline or an interrupt, a call returns the first value,
    -- however many tries failed before with exceptions that may be retried.
    pub run-retried :
        (now : ℕ) (ps qs : List (Try A)) (r : KazooRetry) (a : A)
        → r.max_tries ≡ none
        → r.deadline ≡ none
        → r.has_interrupt ≡ false
        → All (IsRetried r.ignore_expire) ps
        → (run tenth now (ps ++ returns a ∷ qs) r).1 ≡ some (ok a)
    unfolding run reset
    run-retried now ps qs r a h d i g =
        loop-retried ps qs
          (record r { attempts = 0; cur_delay = r.delay; cur_stoptime = stop_at r.deadline now }) a
          h (rw d refl) i g
