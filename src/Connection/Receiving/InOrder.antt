-- ===== src/Connection/Receiving/InOrder.antt =====
-- A server that answers in order.
use kazoo.Base.{
  ℕ, List, [], ◌∷◌, ◌++◌, ◌≡◌, refl, ap, sym, ◌∙◌, append_assoc, append-nil, Option, none, some,
  Bool, true, false, ◌⊎◌, inl, inr, runtime_error, if◌then◌else◌,
}
use kazoo.Base.Int.{ℤ, int_eq, truthy, int_eq_refl}
use kazoo.States.{KazooState}
use kazoo.Protocol.Records.{ReplyHeader}
use kazoo.Protocol.Requests.{Request}
use kazoo.Protocol.Replies.{deserialize}
use kazoo.Client.{Outcome, true_value, exception}
use kazoo.Client.Session.Effects.{completions}
use kazoo.Connection.{Connection, on_client, set_if, ping_xid, auth_xid, watch_xid}
use kazoo.Connection.Receiving.{
  is_truthy_request, taken, respond, read_response, authenticate, read_packet,
}
use kazoo.Connection.Receiving.Answers.{
  outcome, IsKnown, Sets, set-Sets, nothing-Sets, matched-Sets, matched-nothing,
}

-- The responses of a server, and the requests that they are for.
abbrev pub Packet : Type 0
Packet = ReplyHeader × List ℕ × ℕ

abbrev pub Pending : Type 0
Pending = Request × Option ℕ × ℤ

-- Only a request with fields has an async object.
abbrev pub IsAsking : Request → Option ℕ → Type 0
IsAsking r none = Unit
IsAsking r (some a) = is_truthy_request r ≡ true

-- Not the xid of a ping, an `Auth` or a watch event.
abbrev pub IsPlain : ℤ → Type 0
IsPlain xid =
    (int_eq xid ping_xid ≡ false) × (int_eq xid auth_xid ≡ false) × (int_eq xid watch_xid ≡ false)

-- A response to a request of this xid with a known code, or one that accepts an `Auth`.
abbrev pub IsAnswer : ReplyHeader → Pending → Type 0
IsAnswer header (r, none, xid) = IsPlain xid × IsKnown header
IsAnswer header (r, some a, xid) =
    (IsPlain xid × IsKnown header × (is_truthy_request r ≡ true))
    ⊎ ((xid ≡ auth_xid) × (truthy header.err ≡ false))

-- One response for each request, in the order in which they were sent.
abbrev pub IsInOrder : List Packet → List Pending → Type 0
IsInOrder [] [] = Unit
IsInOrder [] (q ∷ qs) = ⊥
IsInOrder (p ∷ ps) [] = ⊥
IsInOrder ((header, _, _) ∷ ps) (q ∷ qs) = (header.xid ≡ q.2) × IsAnswer header q × IsInOrder ps qs

-- What a response says to its own request; an accepted `Auth` has nothing to read.
unfoldable pub said : List ℕ → Packet → Pending → Outcome
said chroot (header, buffer, offset) (r, a, xid) =
    if int_eq xid auth_xid
    then true_value
    else outcome chroot header r (deserialize r buffer offset)

unfoldable pub given : Option ℕ → Outcome → List (ℕ × Outcome)
given none o = []
given (some a) o = (a, o) ∷ []

-- What the async objects are set to: each to what the response says to its own request.
unfoldable pub outcomes : List ℕ → List Packet → List Pending → List (ℕ × Outcome)
outcomes chroot [] qs = []
outcomes chroot (p ∷ ps) [] = []
outcomes chroot (p ∷ ps) (q ∷ qs) = given q.1 (said chroot p q) ++ outcomes chroot ps qs

-- What one response to the first pending request does.
pub record Answers (os : List (ℕ × Outcome)) (qs : List Pending) (n m : Connection) : Type 0 where
  pub sets : completions m.client.effects ≡ completions n.client.effects ++ os
  pub leaves : m.client.pending ≡ qs
  pub keeps_chroot : m.client.chroot ≡ n.client.chroot
  pub keeps_queue : m.client.queue ≡ n.client.queue
  pub keeps_next : m.client.next_async ≡ n.client.next_async

Answers-taken :
    (header : ReplyHeader) (os : List (ℕ × Outcome)) (qs : List Pending) (n m : Connection)
    → Sets os (taken header qs n) m
    → Answers os qs n m
Answers-taken header os qs n m s = record {
  sets = s.sets;
  leaves = s.keeps_pending;
  keeps_chroot = s.keeps_chroot;
  keeps_queue = s.keeps_queue;
  keeps_next = s.keeps_next;
}

-- The line without its first request.
abbrev shortened : List Pending → Connection → Connection
shortened qs n = on_client (λ c. record c { pending = qs }) n

Answers-popped :
    (os : List (ℕ × Outcome)) (qs : List Pending) (n m : Connection)
    → Sets os (shortened qs n) m
    → Answers os qs n m
Answers-popped os qs n m s = record {
  sets = s.sets;
  leaves = s.keeps_pending;
  keeps_chroot = s.keeps_chroot;
  keeps_queue = s.keeps_queue;
  keeps_next = s.keeps_next;
}

pub popped-Answers :
    (a : Option ℕ) (o : Outcome) (qs : List Pending) (n : Connection)
    → Answers (given a o) qs n (set_if a o (shortened qs n))
unfolding given
popped-Answers none o qs n = Answers-popped [] qs n _ (nothing-Sets (shortened qs n))
popped-Answers (some a) o qs n = Answers-popped _ qs n _ (set-Sets a o (shortened qs n))

pub read_response-Answers :
    (header : ReplyHeader) (buffer : List ℕ) (offset : ℕ) (q : Pending) (qs : List Pending)
    (n : Connection)
    → n.client.pending ≡ q ∷ qs
    → header.xid ≡ q.2
    → IsKnown header
    → IsAsking q.0 q.1
    → Answers
        (given q.1 (outcome n.client.chroot header q.0 (deserialize q.0 buffer offset)))
        qs
        n
        (read_response header buffer offset n).0
unfolding read_response respond given
read_response-Answers header buffer offset (r, none, xid) qs n hp hx k h =
    simp (hp, hx, int_eq_refl xid)
      (Answers-taken header [] qs n _
        (matched-nothing header (deserialize r buffer offset) r (taken header qs n)))
read_response-Answers header buffer offset (r, some a, xid) qs n hp hx k h =
    simp (hp, hx, int_eq_refl xid)
      (Answers-taken header _ qs n _
        (matched-Sets header (deserialize r buffer offset) r a (taken header qs n) k h))

-- A response with the xid of another request.
pub mismatched-Answers :
    (header : ReplyHeader) (buffer : List ℕ) (offset : ℕ) (q : Pending) (qs : List Pending)
    (n : Connection)
    → n.client.pending ≡ q ∷ qs
    → int_eq header.xid q.2 ≡ false
    → Answers (given q.1 (exception runtime_error)) qs n (read_response header buffer offset n).0
unfolding read_response respond given
mismatched-Answers header buffer offset (r, none, xid) qs n hp hx =
    simp (hp, hx) (Answers-taken header [] qs n _ (nothing-Sets (taken header qs n)))
mismatched-Answers header buffer offset (r, some a, xid) qs n hp hx =
    simp (hp, hx)
      (Answers-taken header _ qs n _ (set-Sets a (exception runtime_error) (taken header qs n)))

module _ (wants_removal : ℕ → KazooState → Bool) where
  -- The packets read one after the other.
  unfoldable pub serve : List Packet → Connection → Connection
  unfolding read_packet
  serve [] n = n
  serve ((header, buffer, offset) ∷ ps) n =
      serve ps (read_packet wants_removal header buffer offset n).0

  plain-Answers :
      (header : ReplyHeader) (buffer : List ℕ) (offset : ℕ) (q : Pending) (qs : List Pending)
      (n : Connection)
      → n.client.pending ≡ q ∷ qs
      → header.xid ≡ q.2
      → IsPlain q.2
      → IsKnown header
      → IsAsking q.0 q.1
      → Answers
          (given q.1 (said n.client.chroot (header, buffer, offset) q))
          qs
          n
          (read_packet wants_removal header buffer offset n).0
  unfolding read_packet read_response said given
  plain-Answers header buffer offset q qs n hp hx p k h =
      simp (hx, p.0, p.1, p.2) (read_response-Answers header buffer offset q qs n hp hx k h)

  packet-Answers :
      (header : ReplyHeader) (buffer : List ℕ) (offset : ℕ) (q : Pending) (qs : List Pending)
      (n : Connection)
      → n.client.pending ≡ q ∷ qs
      → header.xid ≡ q.2
      → IsAnswer header q
      → Answers
          (given q.1 (said n.client.chroot (header, buffer, offset) q))
          qs
          n
          (read_packet wants_removal header buffer offset n).0
  unfolding read_packet said given authenticate
  packet-Answers header buffer offset (r, none, xid) qs n hp hx h =
      plain-Answers header buffer offset (r, none, xid) qs n hp hx h.0 h.1 tt
  packet-Answers header buffer offset (r, some a, xid) qs n hp hx (inl h) =
      plain-Answers header buffer offset (r, some a, xid) qs n hp hx h.0 h.1 h.2
  packet-Answers header buffer offset (r, some a, xid) qs n hp hx (inr (e, t)) =
      simp (hx, e, hp, t) (popped-Answers (some a) true_value qs n)

  serve-pending :
      (ps : List Packet) (qs : List Pending) (n : Connection)
      → n.client.pending ≡ qs
      → IsInOrder ps qs
      → (completions (serve ps n).client.effects
          ≡ completions n.client.effects ++ outcomes n.client.chroot ps qs)
        × ((serve ps n).client.pending ≡ [])
  unfolding serve outcomes
  serve-pending [] [] n hp h = (sym (append-nil _), hp)
  serve-pending [] (q ∷ qs) n hp h = absurd h
  serve-pending (p ∷ ps) [] n hp h = absurd h
  serve-pending ((header, buffer, offset) ∷ ps) (q ∷ qs) n hp h =
      let m = (read_packet wants_removal header buffer offset n).0 in
      let one = packet-Answers header buffer offset q qs n hp h.0 h.1 in
      let rest = serve-pending ps qs m one.leaves h.2 in
      (
        rest.0
            ∙ ap (λ l. completions m.client.effects ++ outcomes l ps qs) one.keeps_chroot
            ∙ ap (λ l. l ++ outcomes n.client.chroot ps qs) one.sets
            ∙ append_assoc (completions n.client.effects)
                (given q.1 (said n.client.chroot (header, buffer, offset) q))
                (outcomes n.client.chroot ps qs),
        rest.1,
      )

  -- When the server answers the pending requests in the order in which they were sent, with their
  -- xids, `_read_socket` sets every async object exactly once, in that order, and to what the
  -- response to its own request says; afterwards no request is pending. The codes have to be known
  -- ones, every `Auth` is accepted and has an object, which is set to True, and only a request
  -- with fields has an object.
  pub serve-IsInOrder :
      (ps : List Packet) (n : Connection)
      → IsInOrder ps n.client.pending
      → (completions (serve ps n).client.effects
          ≡ completions n.client.effects ++ outcomes n.client.chroot ps n.client.pending)
        × ((serve ps n).client.pending ≡ [])
  serve-IsInOrder ps n h = serve-pending ps n.client.pending n refl h
