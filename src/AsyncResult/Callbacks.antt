-- ===== src/AsyncResult/Callbacks.antt =====
-- How often the callbacks of a result are called.
use kazoo.Base.{
  ℕ, ◌+◌, ◌≤◌, List, [], ◌∷◌, ◌++◌, ◌≡◌, refl, ap, sym, ◌∙◌, none, Bool, true, false, ◌==◌,
  Bool-cases, inl, inr, arith, if◌then◌else◌, ==_iff,
}
use kazoo.AsyncResult.{
  AsyncResult, Call, called, queued, contains, removed, calls_of, new_result, rawlink, unlink, set,
  do_callbacks,
}

-- What is done to a result before it is set.
pub data Linking : Type 0 where
  link unlinks : ℕ → Linking

-- How often a callback was called.
pub calls_to : ℕ → List Call → ℕ
calls_to c [] = 0
calls_to c (called d ∷ ds) = (if d == c then 1 else 0) + calls_to c ds
calls_to c (queued d ∷ ds) = (if d == c then 1 else 0) + calls_to c ds

-- Whether a callback is linked after a sequence of links and unlinks, for whether it was before.
unfoldable pub is_linked : ℕ → List Linking → Bool → Bool
is_linked c [] b = b
is_linked c (link d ∷ ls) b = is_linked c ls (if d == c then true else b)
is_linked c (unlinks d ∷ ls) b = is_linked c ls (if d == c then false else b)

-- How often a callback stands in the list.
count : ℕ → List ℕ → ℕ
count c [] = 0
count c (d ∷ ds) = (if d == c then 1 else 0) + count c ds

times : Bool → ℕ
times b = if b then 1 else 0

count-append :
    (c d : ℕ) (ds : List ℕ) → count c (ds ++ d ∷ []) ≡ count c ds + (if d == c then 1 else 0)
unfolding count
count-append c d [] = ground arith
count-append c d (e ∷ ds) = ground (arith, count-append c d ds)

contains-count : (c : ℕ) (ds : List ℕ) → contains c ds ≡ false → count c ds ≡ 0
unfolding contains count
contains-count c [] h = refl
contains-count c (d ∷ ds) h = ground (arith, contains-count c ds)

contains-count-true : (c : ℕ) (ds : List ℕ) → contains c ds ≡ true → 1 ≤ count c ds
unfolding contains count
contains-count-true c [] h = cc
contains-count-true c (d ∷ ds) h = ground (arith, contains-count-true c ds)

count-removed :
    (c d : ℕ) (ds : List ℕ)
    → contains d ds ≡ true
    → count c ds ≡ count c (removed d ds) + (if d == c then 1 else 0)
unfolding contains count removed
count-removed c d [] h = cc
count-removed c d (e ∷ ds) h = ground (arith, count-removed c d ds)

calls_to-calls_of :
    (c : ℕ) (running : Bool) (cs : List ℕ) → calls_to c (calls_of running cs) ≡ count c cs
unfolding calls_to calls_of count
calls_to-calls_of c running [] = refl
calls_to-calls_of c true (d ∷ cs) =
    ap (λ k. (if d == c then 1 else 0) + k) (calls_to-calls_of c true cs)
calls_to-calls_of c false (d ∷ cs) =
    ap (λ k. (if d == c then 1 else 0) + k) (calls_to-calls_of c false cs)

count-same : (c d : ℕ) (cs : List ℕ) → (d == c) ≡ true → count c cs ≡ count d cs
count-same c d cs q = ap (λ k. count k cs) (sym ((==_iff d c).0 q))

one_or_none : (n : ℕ) (b : Bool) → n ≡ times b → 1 ≤ n → n ≡ 1
unfolding times
one_or_none n true h k = h
one_or_none n false h k = omega (arith, h, k)

linked-count :
    (c d : ℕ) (b : Bool) (cs : List ℕ)
    → count c cs ≡ times b
    → count c (if contains d cs then cs else cs ++ d ∷ []) ≡ times (if d == c then true else b)
unfolding times
linked-count c d b cs h = elim (Bool-cases (contains d cs)) [
  | inl e ↦ elim (Bool-cases (d == c)) [
    | inl q ↦
        rw (e, q)
          (one_or_none (count c cs) b h (rw (count-same c d cs q) (contains-count-true d cs e)))
    | inr q ↦ rw (e, q) h
  ]
  | inr e ↦ elim (Bool-cases (d == c)) [
    | inl q ↦
        rw (e, q, count-append c d cs)
          (rw q (omega (arith, count-same c d cs q, contains-count d cs e)))
    | inr q ↦ rw (e, q, count-append c d cs) (rw q (omega (arith, h)))
  ]
]

count-removed_if :
    (c d : ℕ) (b : Bool) (cs : List ℕ)
    → (d == c) ≡ b
    → contains d cs ≡ true
    → count c cs ≡ count c (removed d cs) + times b
unfolding times
count-removed_if c d b cs q e =
    count-removed c d cs e ∙ ap (λ (t : Bool). count c (removed d cs) + (if t then 1 else 0)) q

unlinked-count :
    (c d : ℕ) (b : Bool) (cs : List ℕ)
    → count c cs ≡ times b
    → count c (if contains d cs then removed d cs else cs) ≡ times (if d == c then false else b)
unfolding times
unlinked-count c d b cs h = elim (Bool-cases (contains d cs)) [
  | inl e ↦ elim (Bool-cases (d == c)) [
    | inl q ↦
        rw (e, q)
          (omega (
            arith,
            one_or_none (count c cs) b h (rw (count-same c d cs q) (contains-count-true d cs e)),
            count-removed_if c d true cs q e,
          ))
    | inr q ↦ rw (e, q) (omega (arith, h, count-removed_if c d false cs q e))
  ]
  | inr e ↦ elim (Bool-cases (d == c)) [
    | inl q ↦ rw (e, q) (count-same c d cs q ∙ contains-count d cs e)
    | inr q ↦ rw (e, q) h
  ]
]

none_held : (c : ℕ) → count c [] ≡ times false
unfolding count times
none_held c = refl

module _ {ℓ} {A : Type ℓ} (running : Bool) where
  pub done : Linking → AsyncResult A → AsyncResult A
  done (link c) r = rawlink running c r
  done (unlinks c) r = unlink c r

  pub prepared : List Linking → AsyncResult A → AsyncResult A
  prepared [] r = r
  prepared (l ∷ ls) r = prepared ls (done l r)

  -- A result that is not ready, whose callbacks hold one of them as often as a flag says.
  record Waits (c : ℕ) (b : Bool) (r : AsyncResult A) : Type ℓ where
    pub is_pending : r.outcome ≡ none
    pub is_quiet : r.calls ≡ []
    pub holds : count c r.callbacks ≡ times b

  done-Waits :
      (c : ℕ) (b : Bool) (l : Linking) (r : AsyncResult A)
      → Waits c b r
      → Waits c (is_linked c (l ∷ []) b) (done l r)
  unfolding done rawlink unlink is_linked times
  done-Waits c b (link d) r w = rw w.is_pending (record {
    is_pending = refl;
    is_quiet = w.is_quiet;
    holds = linked-count c d b r.callbacks w.holds;
  })
  done-Waits c b (unlinks d) r w = rw w.is_pending (elim (Bool-cases (contains d r.callbacks)) [
    | inl e ↦ rw e (record {
      is_pending = refl;
      is_quiet = w.is_quiet;
      holds = sym (rw e refl) ∙ unlinked-count c d b r.callbacks w.holds;
    })
    | inr e ↦ rw e (record {
      is_pending = refl;
      is_quiet = w.is_quiet;
      holds = sym (rw e refl) ∙ unlinked-count c d b r.callbacks w.holds;
    })
  ])

  done-prepared :
      (c : ℕ) (b : Bool) (ls : List Linking) (r : AsyncResult A)
      → Waits c b r
      → Waits c (is_linked c ls b) (prepared ls r)
  unfolding prepared is_linked
  done-prepared c b [] r w = w
  done-prepared c b (link d ∷ ls) r w =
      done-prepared c (if d == c then true else b) ls (done (link d) r)
        (done-Waits c b (link d) r w)
  done-prepared c b (unlinks d ∷ ls) r w =
      done-prepared c (if d == c then false else b) ls (done (unlinks d) r)
        (done-Waits c b (unlinks d) r w)

  calls-set :
      (c : ℕ) (b : Bool) (a : A) (r : AsyncResult A)
      → Waits c b r
      → calls_to c (set running a r).calls ≡ (if b then 1 else 0)
  unfolding set do_callbacks times calls_to
  calls-set c b a r w = rw w.is_quiet (calls_to-calls_of c running r.callbacks ∙ w.holds)

  -- Whatever was linked and unlinked before a result is set, each callback that is linked at that
  -- moment is called exactly once, however often it was linked, and no other is called.
  pub set-prepared :
      (c : ℕ) (ls : List Linking) (a : A)
      → calls_to c (set running a (prepared ls new_result)).calls
        ≡ (if is_linked c ls false then 1 else 0)
  set-prepared c ls a = calls-set c (is_linked c ls false) a (prepared ls new_result) (
      done-prepared c false ls new_result
        (record { is_pending = refl; is_quiet = refl; holds = none_held c }))
