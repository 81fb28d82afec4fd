-- ===== src/Connection/Receiving/Answers.antt =====
-- Which async object each response completes, and with what.
use kazoo.Base.{
  ℕ, List, [], ◌∷◌, ◌++◌, ◌≡◌, refl, ap, sym, ◌∙◌, append-nil, Option, none, some, Bool, true,
  false, not, ◌&&◌, Bool-cases, ◌⊎◌, inl, inr, zookeeper_error, Result, ok, err, if◌then◌else◌,
}
use kazoo.Base.Int.{int_eq, int_eq→eq, truthy}
use kazoo.Exceptions.{ZookeeperError, no_node_error}
use kazoo.Exceptions.Codes.{exceptions, code}
use kazoo.Protocol.Records.{ReplyHeader}
use kazoo.Protocol.Requests.{Request}
use kazoo.Protocol.Replies.{Reply}
use kazoo.Client.{Outcome, completed, reply, no_value, exception}
use kazoo.Client.Session.Effects.{completions, completions-append}
use kazoo.Connection.{Connection, on_client, set_if}
use kazoo.Connection.Receiving.{
  is_truthy_request, is_missing, shown, registration, keep, registered, answered, refused, matched,
}

-- What the header and the deserialized body of a response say to the caller.
pub refusal_of : Result ZookeeperError → Outcome
refusal_of (ok e) = exception (zookeeper_error e)
refusal_of (err e) = exception e

pub answer_of : List ℕ → Result Reply → Outcome
answer_of chroot (ok x) = reply (shown chroot x)
answer_of chroot (err e) = exception e

pub outcome : List ℕ → ReplyHeader → Request → Result Reply → Outcome
outcome chroot header r x =
    if truthy header.err
    then (if is_missing header r then no_value else refusal_of (exceptions header.err))
    else answer_of chroot x

-- The error code is 0 or that of a class.
abbrev pub IsKnown : ReplyHeader → Type 0
IsKnown header =
    (truthy header.err ≡ false) ⊎ ((e : ZookeeperError) × (exceptions header.err ≡ ok e))

-- What one step leaves as it was, and what it sets.
pub record Sets (os : List (ℕ × Outcome)) (n m : Connection) : Type 0 where
  pub sets : completions m.client.effects ≡ completions n.client.effects ++ os
  pub keeps_pending : m.client.pending ≡ n.client.pending
  pub keeps_chroot : m.client.chroot ≡ n.client.chroot
  pub keeps_queue : m.client.queue ≡ n.client.queue
  pub keeps_next : m.client.next_async ≡ n.client.next_async

keep-Sets :
    (k : Option (Bool × List ℕ × ℕ)) (os : List (ℕ × Outcome)) (n m : Connection)
    → Sets os n m
    → Sets os n (on_client (keep k) m)
keep-Sets none os n m s = record {
  sets = s.sets;
  keeps_pending = s.keeps_pending;
  keeps_chroot = s.keeps_chroot;
  keeps_queue = s.keeps_queue;
  keeps_next = s.keeps_next;
}
keep-Sets (some (true, path, w)) os n m s = record {
  sets = s.sets;
  keeps_pending = s.keeps_pending;
  keeps_chroot = s.keeps_chroot;
  keeps_queue = s.keeps_queue;
  keeps_next = s.keeps_next;
}
keep-Sets (some (false, path, w)) os n m s = record {
  sets = s.sets;
  keeps_pending = s.keeps_pending;
  keeps_chroot = s.keeps_chroot;
  keeps_queue = s.keeps_queue;
  keeps_next = s.keeps_next;
}

registered-Sets :
    (r : Request) (os : List (ℕ × Outcome)) (n m : Connection)
    → Sets os n m
    → Sets os n (registered r m)
registered-Sets r os n m s = elim (Bool-cases m.client.stopped) [
  | inl e ↦ simp e s
  | inr e ↦ simp e (keep-Sets (registration r) os n m s)
]

pub set-Sets : (a : ℕ) (o : Outcome) (n : Connection) → Sets ((a, o) ∷ []) n (set_if (some a) o n)
unfolding completions
set-Sets a o n = record {
  sets = completions-append n.client.effects (completed a o ∷ []);
  keeps_pending = refl;
  keeps_chroot = refl;
  keeps_queue = refl;
  keeps_next = refl;
}

pub nothing-Sets : (n : Connection) → Sets [] n n
nothing-Sets n = record {
  sets = sym (append-nil _);
  keeps_pending = refl;
  keeps_chroot = refl;
  keeps_queue = refl;
  keeps_next = refl;
}

answered-Sets :
    (r : Request) (a : ℕ) (x : Result Reply) (n : Connection)
    → Sets ((a, answer_of n.client.chroot x) ∷ []) n (answered r a x n)
unfolding answer_of
answered-Sets r a (err e) n = set-Sets a (exception e) n
answered-Sets r a (ok x) n =
    registered-Sets r _ n _ (set-Sets a (reply (shown n.client.chroot x)) n)

-- NoNode is an error, so a response without an error is not one for a missing node.
missing-truthy :
    (header : ReplyHeader) (r : Request) → truthy header.err ≡ false → is_missing header r ≡ false
missing-truthy header r h = elim (Bool-cases (int_eq header.err (code no_node_error))) [
  | inl e ↦ absurd (true≢false (sym (ap truthy (int_eq→eq header.err (code no_node_error) e)) ∙ h))
  | inr e ↦ rw e refl
]
  where
    true≢false : true ≡ false → ⊥
    true≢false e = cc

refused-Sets :
    (r : Request) (a : ℕ) (e : ZookeeperError) (x : Result ZookeeperError) (n : Connection)
    → x ≡ ok e
    → Sets ((a, refusal_of x) ∷ []) n (refused r (some a) x n).0
unfolding refusal_of
refused-Sets r a e x n h = rw h (set-Sets a (exception (zookeeper_error e)) n)

pub matched-Sets :
    (header : ReplyHeader) (x : Result Reply) (r : Request) (a : ℕ) (n : Connection)
    → IsKnown header
    → is_truthy_request r ≡ true
    → Sets ((a, outcome n.client.chroot header r x) ∷ []) n (matched header x r (some a) n).0
unfolding matched outcome
matched-Sets header x r a n (inl e) h = rw (e, missing-truthy header r e, h) (answered-Sets r a x n)
matched-Sets header x r a n (inr (k, e)) h = elim (Bool-cases (truthy header.err)) [
  | inl t ↦ elim (Bool-cases (is_missing header r)) [
    | inl m ↦ rw (t, m, h) (registered-Sets r _ n _ (set-Sets a no_value n))
    | inr m ↦ rw (t, m) (refused-Sets r a k (exceptions header.err) n e)
  ]
  | inr t ↦ rw (t, missing-truthy header r t, h) (answered-Sets r a x n)
]

refused-nothing :
    (r : Request) (x : Result ZookeeperError) (n : Connection) → Sets [] n (refused r none x n).0
refused-nothing r (ok e) n = nothing-Sets n
refused-nothing r (err e) n = nothing-Sets n

pub matched-nothing :
    (header : ReplyHeader) (x : Result Reply) (r : Request) (n : Connection)
    → Sets [] n (matched header x r none n).0
unfolding matched
matched-nothing header x r n = elim (Bool-cases (truthy header.err && not (is_missing header r))) [
  | inl e ↦ rw e (refused-nothing r (exceptions header.err) n)
  | inr e ↦ rw e (nothing-Sets n)
]
