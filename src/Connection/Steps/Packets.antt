-- ===== src/Connection/Steps/Packets.antt =====
-- Packets keep the async objects accounted for.
use kazoo.Base.{
  ℕ, List, [], ◌∷◌, ◌++◌, ◌≡◌, refl, map, Option, none, some, Bool, true, false, ◌⊎◌, inl, inr, Exn,
  if◌then◌else◌, Bool-cases, Result, ok, err, ap, ◌∙◌, zookeeper_error,
}
use kazoo.States.{KazooState, KeeperState, EventType, WatchedEvent, event_type}
use kazoo.Protocol.Records.{ReplyHeader}
use kazoo.Client.{Queued, Outcome, true_value, exception, emit}
use kazoo.Client.Session.{dispatch_all}
use kazoo.Client.Session.Effects.{
  completions, completions-append, completions-dispatch_all, waiting, asyncs_of,
}
use kazoo.Connection.{Connection, on_client, ping_xid, auth_xid, watch_xid}
use kazoo.Connection.Receiving.InOrder.{
  Pending, Answers, given, read_response-Answers, mismatched-Answers, popped-Answers,
}
use kazoo.Connection.Receiving.{authenticate, read_packet, read_response, respond, returned}
use kazoo.Connection.Watching.{deliver, triggered, watched, watch_event, read_watch_event}
use kazoo.Base.Int.{int_eq, int_eq→eq, truthy}
use kazoo.Exceptions.{auth_failed_error}
use kazoo.Protocol.Strings.{Text}
use kazoo.Protocol.Records.{Watch, read_watch}
use kazoo.Client.Watchers.{WatcherMap}
use kazoo.Connection.Steps.{IsFitting, In, set_asyncs, IsAccounted, accounted_by}
use kazoo.Connection.Steps.Keeping.{Keeps, changes-Keeps}

waits-answered :
    (o : Outcome) (q : Pending) (qs : List Pending) (queue : List (Queued × Option ℕ)) (a : ℕ)
    → In a (
        asyncs_of (map (λ (p : Pending). p.1) (q ∷ qs))
        ++ asyncs_of (map (λ (p : Queued × Option ℕ). p.1) queue))
    → In a (
        asyncs_of (map (λ (p : Pending). p.1) qs)
        ++ asyncs_of (map (λ (p : Queued × Option ℕ). p.1) queue))
      ⊎ In a (set_asyncs (given q.1 o))
unfolding asyncs_of given set_asyncs In
waits-answered o (r, none, x) qs queue a h = inl h
waits-answered o (r, some b, x) qs queue a (inl e) = inr (inl e)
waits-answered o (r, some b, x) qs queue a (inr h) = inl h

answered-Keeps :
    (o : Outcome) (q : Pending) (qs : List Pending) (n m : Connection)
    → n.client.pending ≡ q ∷ qs
    → Answers (given q.1 o) qs n m
    → Keeps n m
unfolding waiting
answered-Keeps o q qs n m hp s = record {
  keeps = λ a h.
      accounted_by n.client m.client _ a s.sets
        (λ w. rw (s.leaves, s.keeps_queue) (waits-answered o q qs n.client.queue a (rw hp at w))) h;
  makes = λ a k. inl (rw⁻¹ s.keeps_next k);
}

same-Keeps : (n : Connection) → Keeps n n
same-Keeps n = record { keeps = λ a h. h; makes = λ a k. inl k }

both-Keeps : (n m l : Connection) → Keeps n m → Keeps m l → Keeps n l
both-Keeps n m l k k' = record {
  keeps = λ a h. k'.keeps a (k.keeps a h);
  makes = λ a h. elim (k'.makes a h) [
    | inr r ↦ inr r
    | inl j ↦ elim (k.makes a j) [ inl i ↦ inl i | inr r ↦ inr (k'.keeps a r) ]
  ];
}

-- What sets no object and changes no line: here, a dispatch to watchers.
dispatched-Keeps :
    (ev : WatchedEvent) (ws : List ℕ) (n : Connection)
    → Keeps n (on_client (λ c. emit c (dispatch_all ev ws)) n)
unfolding IsAccounted waiting
dispatched-Keeps ev ws n = record {
  keeps = λ a h.
      accounted_by n.client (emit n.client (dispatch_all ev ws)) [] a
        (completions-append n.client.effects (dispatch_all ev ws)
          ∙ ap (λ l. completions n.client.effects ++ l) (completions-dispatch_all ev ws))
        (λ w. inl w) h;
  makes = λ a k. inl k;
}

deliver-Keeps :
    (path : Result Text) (type : EventType) (ws : List ℕ) (n : Connection)
    → Keeps n (deliver path type ws n).0
deliver-Keeps (err e) type ws n = same-Keeps n
deliver-Keeps (ok path) type ws n = unless_stopped n.client.stopped
  where
    ev : WatchedEvent
    ev = record { type = type; state = n.client.state; path = path }

    unless_stopped :
        (b : Bool) → Keeps n (if b then n else on_client (λ c. emit c (dispatch_all ev ws)) n)
    unless_stopped true = same-Keeps n
    unless_stopped false = dispatched-Keeps ev ws n

rewatched-Keeps :
    (datas children : WatcherMap) (n : Connection)
    → Keeps n (on_client (λ c. record c { data_watchers = datas; child_watchers = children }) n)
unfolding IsAccounted waiting
rewatched-Keeps datas children n = record { keeps = λ a h. h; makes = λ a k. inl k }

watched-Keeps :
    (path : Text) (type : Option EventType) (n : Connection)
    → Keeps n (watched path (triggered type path n.client) n).0
watched-Keeps path none n = same-Keeps n
watched-Keeps path (some EventType.nothing) n = same-Keeps n
watched-Keeps path (some EventType.created) n =
    both-Keeps n _ _ (rewatched-Keeps _ n.client.child_watchers n) (deliver-Keeps _ _ _ _)
watched-Keeps path (some EventType.changed) n =
    both-Keeps n _ _ (rewatched-Keeps _ n.client.child_watchers n) (deliver-Keeps _ _ _ _)
watched-Keeps path (some EventType.deleted) n =
    both-Keeps n _ _ (rewatched-Keeps _ _ n) (deliver-Keeps _ _ _ _)
watched-Keeps path (some EventType.child) n =
    both-Keeps n _ _ (rewatched-Keeps n.client.data_watchers _ n) (deliver-Keeps _ _ _ _)

watch_event-Keeps : (w : Result (Watch × ℕ)) (n : Connection) → Keeps n (watch_event w n).0
watch_event-Keeps (err e) n = same-Keeps n
watch_event-Keeps (ok (w, o)) n = watched-Keeps w.path (event_type w.type) n

returned-fst : (s : Connection × Option Exn) → (returned s).0 ≡ s.0
returned-fst (n, none) = refl
returned-fst (n, some e) = refl

response-Keeps :
    (header : ReplyHeader) (buffer : List ℕ) (offset : ℕ) (qs : List Pending) (n : Connection)
    → n.client.pending ≡ qs
    → IsFitting header qs
    → int_eq header.xid auth_xid ≡ false
    → Keeps n (read_response header buffer offset n).0
unfolding read_response respond
response-Keeps header buffer offset [] n hp h u = simp hp (same-Keeps n)
response-Keeps header buffer offset ((r, a, x) ∷ qs) n hp h u =
    elim (Bool-cases (int_eq header.xid x)) [
      | inl e ↦
          let k = h u (int_eq→eq header.xid x e) in
          answered-Keeps _ (r, a, x) qs n _ hp
            (read_response-Answers header buffer offset (r, a, x) qs n hp (int_eq→eq header.xid x e)
              k.0 k.1)
      | inr e ↦
          answered-Keeps _ (r, a, x) qs n _ hp
            (mismatched-Answers header buffer offset (r, a, x) qs n hp e)
    ]

module _ (wants_removal : ℕ → KazooState → Bool) where
  authenticate-Keeps :
      (header : ReplyHeader) (qs : List Pending) (n : Connection)
      → n.client.pending ≡ qs
      → Keeps n (authenticate wants_removal header qs n).0
  unfolding authenticate
  authenticate-Keeps header [] n hp = same-Keeps n
  authenticate-Keeps header ((r, none, x) ∷ qs) n hp =
      answered-Keeps true_value (r, none, x) qs n _ hp (popped-Answers none true_value qs n)
  authenticate-Keeps header ((r, some a, x) ∷ qs) n hp = elim (Bool-cases (truthy header.err)) [
    | inl e ↦
        let failed = exception (zookeeper_error auth_failed_error) in
        simp e (
          both-Keeps n _ _
            (answered-Keeps failed (r, some a, x) qs n _ hp (popped-Answers (some a) failed qs n))
            (changes-Keeps wants_removal KeeperState.auth_failed _))
    | inr e ↦ simp e (
        answered-Keeps true_value (r, some a, x) qs n _ hp
          (popped-Answers (some a) true_value qs n))
  ]

  watch-Keeps :
      (buffer : List ℕ) (offset : ℕ) (n : Connection)
      → Keeps n (returned (read_watch_event buffer offset n)).0
  unfolding read_watch_event
  watch-Keeps buffer offset n =
      rw (returned-fst (read_watch_event buffer offset n))
        (watch_event-Keeps (read_watch buffer offset) n)

  pub packet-Keeps :
      (header : ReplyHeader) (buffer : List ℕ) (offset : ℕ) (n : Connection)
      → IsFitting header n.client.pending
      → Keeps n (read_packet wants_removal header buffer offset n).0
  unfolding read_packet
  packet-Keeps header buffer offset n h = elim (Bool-cases (int_eq header.xid ping_xid)) [
    | inl e ↦ simp e (record { keeps = λ a k. k; makes = λ a k. inl k })
    | inr e ↦ elim (Bool-cases (int_eq header.xid auth_xid)) [
      | inl e' ↦ simp (e, e') (authenticate-Keeps header n.client.pending n refl)
      | inr e' ↦ elim (Bool-cases (int_eq header.xid watch_xid)) [
        | inl e'' ↦ simp (e, e', e'') (watch-Keeps buffer offset n)
        | inr e'' ↦
            simp (e, e', e'') (response-Keeps header buffer offset n.client.pending n refl h e')
      ]
    ]
  ]
