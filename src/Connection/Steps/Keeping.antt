-- ===== src/Connection/Steps/Keeping.antt =====
-- Calls, sends and changes of the state keep the async objects accounted for.
use kazoo.Base.{
  ℕ, suc, ◌<◌, List, [], ◌∷◌, ◌≡◌, refl, Option, none, some, Bool, true, false, ◌⊎◌, inl, inr, Exn,
  arith, if◌then◌else◌,
}
use kazoo.States.{KazooState, KeeperState}
use kazoo.Protocol.Requests.{Request}
use kazoo.Client.{Client}
use kazoo.Client.Calls.{refusal}
use kazoo.Client.Calls.Accounts.{waiting_after, set_at_once, call_lem, call-next_async}
use kazoo.Client.Session.{drop_exception, session_callback}
use kazoo.Client.Session.Effects.{completions, waiting, failures}
use kazoo.Client.Session.Effects.Pending.{
  drops, completions-session_callback, waiting-session_callback,
}
use kazoo.Client.Session.Invariant.{session_callback-next_async}
use kazoo.Connection.{Connection, on_client}
use kazoo.Connection.Wire.{Sending}
use kazoo.Connection.Sending.{send_request}
use kazoo.Connection.Sending.Order.{send_request_lem, send_request-next_async}
use kazoo.Connection.Steps.{
  issued, In, In-left, In-right, set_asyncs, set_asyncs-append, set_asyncs-failures, IsAccounted,
  accounted_by,
}

-- What a step keeps, and what it makes.
pub record Keeps (n m : Connection) : Type 0 where
  pub keeps : (a : ℕ) → IsAccounted n.client a → IsAccounted m.client a
  pub makes : (a : ℕ) → a < m.client.next_async → (a < n.client.next_async) ⊎ IsAccounted m.client a

waits-issued :
    (e : Option Exn) (a b : ℕ) (c : Client) (os : List ℕ)
    → In a (waiting c)
    → In a (waiting_after e b c) ⊎ In a os
unfolding waiting_after
waits-issued none a b c os h = inl (In-left a (waiting c) (b ∷ []) h)
waits-issued (some e) a b c os h = inl h

new-accounted :
    (e : Option Exn) (sock : Option Bool) (b : ℕ) (c : Client)
    → In b (waiting_after e b c) ⊎ In b (set_asyncs (set_at_once e sock b))
unfolding waiting_after set_at_once In set_asyncs
new-accounted none sock b c = inl (In-right b (waiting c) (b ∷ []) (inl refl))
new-accounted (some e) sock b c = inr (inl refl)

suc-cases : (a b : ℕ) → a < suc b → (a < b) ⊎ (a ≡ b)
suc-cases a b h = ground (arith, h)

pub calls-Keeps : (r : Request) (n : Connection) → Keeps n (on_client (issued r) n)
unfolding IsAccounted waiting
calls-Keeps r n =
    let c = n.client in
    let c' = record c { next_async = suc c.next_async } in
    let l = call_lem r c.next_async c' in
    record {
      keeps = λ a h.
          accounted_by c (issued r c) (set_at_once (refusal c.state) c.write_sock c.next_async) a
            l.1 (λ w. rw l.0 (waits-issued (refusal c.state) a c.next_async c' _ w)) h;
      makes = λ a h. elim (suc-cases a c.next_async (rw⁻¹ (call-next_async r c.next_async c') h)) [
        | inl k ↦ inl k
        | inr e ↦ inr (
            rw e (elim (new-accounted (refusal c.state) c.write_sock c.next_async c') [
              | inl w ↦ inl (rw l.0 w)
              | inr k ↦ inr (
                  rw
                    (
                      l.1,
                      set_asyncs-append (completions c.effects)
                          (set_at_once (refusal c.state) c.write_sock c.next_async),
                    )
                    (In-right c.next_async _ _ k))
            ]))
      ];
    }

pub sends-Keeps :
    (ss : List Sending) (n : Connection) → 0 < n.client.wakes → Keeps n (send_request ss n).0
unfolding IsAccounted
sends-Keeps ss n h =
    let l = send_request_lem ss n h in
    record {
      keeps = λ a k. rw (l.0, l.1) k;
      makes = λ a k. inl (rw⁻¹ (send_request-next_async ss n h) k);
    }

waits-changed :
    (b : Bool) (e : Exn) (a : ℕ) (ws : List ℕ)
    → In a ws
    → In a (if b then [] else ws) ⊎ In a (set_asyncs (if b then failures e ws else []))
waits-changed true e a ws h = inr (rw (set_asyncs-failures e ws) h)
waits-changed false e a ws h = inl h

pub changes-Keeps :
    (wants_removal : ℕ → KazooState → Bool) (s : KeeperState) (n : Connection)
    → Keeps n (on_client (session_callback wants_removal s) n)
changes-Keeps wants_removal s n =
    let c = n.client in
    record {
      keeps = λ a h.
          accounted_by c (session_callback wants_removal s c) _ a
            (completions-session_callback wants_removal s c)
            (λ w.
              rw (waiting-session_callback wants_removal s c)
                (waits-changed (drops c.state s) (drop_exception s) a (waiting c) w))
            h;
      makes = λ a k. inl (rw⁻¹ (session_callback-next_async wants_removal s c) k);
    }
