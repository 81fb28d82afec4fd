-- ===== src/Connection/Sending/Order.antt =====
-- What `_send_request` does to the queue and to the requests that wait.
use kazoo.Base.{
  ℕ, zero, suc, ◌<◌, List, [], ◌∷◌, ◌++◌, ◌≡◌, refl, ap, map, append_assoc, Option, none, some,
  Result, ok, err, arith,
}
use kazoo.Base.Int.{ℤ}
use kazoo.Protocol.Requests.{Request}
use kazoo.Client.{Client, Queued, request, session_expired_mark, connection_drop_mark}
use kazoo.Client.Session.Effects.{asyncs_of, waiting}
use kazoo.Client.Calls.Accounts.{asyncs_of-append, map-append}
use kazoo.Connection.{Connection, Step}
use kazoo.Connection.Wire.{Sending, packet, write}
use kazoo.Connection.Sending.{
  xid_of, written, submit_bytes, submit, after_submit, send_head, send_request,
}

written-client :
    (w : List ℕ × Result (List Sending)) (n : Connection) → (written w n).0.client ≡ n.client
written-client (bs, ok ss) n = refl
written-client (bs, err e) n = refl

submit-client :
    (r : Request) (x : Option ℤ) (ss : List Sending) (n : Connection)
    → (submit r x ss n).0.client ≡ n.client
unfolding submit
submit-client r x ss n = go (packet r x)
  where
    go : (p : Result (List ℕ)) → (submit_bytes p ss n).0.client ≡ n.client
    go (err e) = refl
    go (ok bs) = written-client (write bs ss) n

pred_of : (w : ℕ) → 0 < w → (k : ℕ) × (w ≡ suc k)
pred_of zero h = absurd (omega (arith, h))
pred_of (suc k) h = (k, refl)

-- Neither sets an async object nor makes one.
abbrev Quiet : Client → Client → Type 0
Quiet d c = (d.effects ≡ c.effects) × (d.next_async ≡ c.next_async)

module _ (r : Request) (a : Option ℕ) (x : ℤ) (rest : List (Queued × Option ℕ)) where
  -- The objects that wait are the same while a request moves from the queue to the pending ones.
  waiting-moved :
      (ps : List (Request × Option ℕ × ℤ))
      → asyncs_of (map (λ (p : Request × Option ℕ × ℤ). p.1) (ps ++ (r, a, x) ∷ []))
          ++ asyncs_of (map (λ (q : Queued × Option ℕ). q.1) rest)
        ≡ asyncs_of (map (λ (p : Request × Option ℕ × ℤ). p.1) ps)
          ++ asyncs_of (map (λ (q : Queued × Option ℕ). q.1) ((request r, a) ∷ rest))
  waiting-moved ps =
      rw
        (
          map-append (λ (p : Request × Option ℕ × ℤ). p.1) ps ((r, a, x) ∷ []),
          asyncs_of-append (map (λ (p : Request × Option ℕ × ℤ). p.1) ps) (a ∷ []),
          asyncs_of-append (a ∷ []) (map (λ (q : Queued × Option ℕ). q.1) rest),
        )
        (append_assoc (asyncs_of (map (λ (p : Request × Option ℕ × ℤ). p.1) ps))
          (asyncs_of (a ∷ [])) (asyncs_of (map (λ (q : Queued × Option ℕ). q.1) rest)))

  after_submit-waiting :
      (s : Step) (c : Client)
      → s.0.client ≡ c
      → c.queue ≡ (request r, a) ∷ rest
      → 0 < c.wakes
      → waiting (after_submit r a x rest s).0.client ≡ waiting c
  unfolding waiting
  after_submit-waiting (n, some e) c h hq hw = ap waiting h
  after_submit-waiting (n, none) c h hq hw =
      let k = pred_of c.wakes hw in rw (h, k.1, hq) (waiting-moved c.pending)

  after_submit-Quiet :
      (s : Step) (c : Client) → s.0.client ≡ c → Quiet (after_submit r a x rest s).0.client c
  after_submit-Quiet (n, some e) c h =
      (ap (λ (d : Client). d.effects) h, ap (λ (d : Client). d.next_async) h)
  after_submit-Quiet (n, none) c h = go n.client.wakes refl
    where
      go : (w : ℕ) → n.client.wakes ≡ w → Quiet (after_submit r a x rest (n, none)).0.client c
      go zero e = rw e (ap (λ (d : Client). d.effects) h, ap (λ (d : Client). d.next_async) h)
      go (suc k) e = rw e (ap (λ (d : Client). d.effects) h, ap (λ (d : Client). d.next_async) h)

send_head_lem :
    (ss : List Sending) (n : Connection) (q : List (Queued × Option ℕ))
    → n.client.queue ≡ q
    → 0 < n.client.wakes
    → (waiting (send_head ss n q).0.client ≡ waiting n.client)
      × Quiet (send_head ss n q).0.client n.client
unfolding send_head waiting
send_head_lem ss n [] hq hw = (refl, (refl, refl))
send_head_lem ss n ((session_expired_mark, a) ∷ rest) hq hw = (refl, (refl, refl))
send_head_lem ss n ((connection_drop_mark, a) ∷ rest) hq hw = (refl, (refl, refl))
send_head_lem ss n ((request r, a) ∷ rest) hq hw =
    let x = xid_of r n.xid in
    let e = submit-client r (some x.0) ss (record n { xid = x.1 }) in
    let s = submit r (some x.0) ss (record n { xid = x.1 }) in
    (
      after_submit-waiting r a x.0 rest s n.client e hq hw,
      after_submit-Quiet r a x.0 rest s n.client e,
    )

-- Sending loses no request: while a byte is in the pipe, the async objects that wait, the pending
-- ones first and then the queued ones, are the same after `_send_request` as before and in the same
-- order, and none is set, whether a request was sent, there was none, it does not serialize, or the
-- socket failed.
pub send_request_lem :
    (ss : List Sending) (n : Connection)
    → 0 < n.client.wakes
    → (waiting (send_request ss n).0.client ≡ waiting n.client)
      × ((send_request ss n).0.client.effects ≡ n.client.effects)
unfolding send_request
send_request_lem ss n h = let s = send_head_lem ss n n.client.queue refl h in (s.0, s.1.0)

pub send_request-next_async :
    (ss : List Sending) (n : Connection)
    → 0 < n.client.wakes
    → (send_request ss n).0.client.next_async ≡ n.client.next_async
unfolding send_request
send_request-next_async ss n h = (send_head_lem ss n n.client.queue refl h).1.1
