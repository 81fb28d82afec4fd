-- ===== src/Connection/Steps.antt =====
-- The calls of a client and the events of its connection in any order (kazoo/client.py and
-- kazoo/protocol/connection.py), and what becomes of the async objects.
pub mod Keeping
pub mod Packets
pub mod Accounts
use kazoo.Base.{
  ℕ, zero, suc, ◌+◌, ◌<◌, List, [], ◌∷◌, ◌++◌, ◌≡◌, refl, ap, sym, ◌∙◌, map, Option, none, some,
  Bool, true, false, Bool-cases, ◌⊎◌, inl, inr, Exn, arith, if◌then◌else◌,
}
use kazoo.States.{KazooState, KeeperState}
use kazoo.Protocol.Records.{ReplyHeader}
use kazoo.Protocol.Requests.{Request}
use kazoo.Protocol.Replies.{deserialize}
use kazoo.Client.{Client, Queued, Effect, Outcome, exception}
use kazoo.Client.Calls.{refusal, call}
use kazoo.Client.Calls.Accounts.{waiting_after, set_at_once, call_lem, asyncs_of-append}
use kazoo.Client.Session.{drop_exception, session_callback}
use kazoo.Client.Session.Effects.{completions, waiting, asyncs_of, failures}
use kazoo.Client.Session.Effects.Pending.{
  drops, completions-session_callback, waiting-session_callback,
}
use kazoo.Client.Session.Invariant.{session_callback-next_async}
use kazoo.Connection.{Connection, on_client, auth_xid}
use kazoo.Base.Int.{int_eq}
use kazoo.Connection.Wire.{Sending}
use kazoo.Connection.Sending.{send_request}
use kazoo.Connection.Sending.Order.{send_request_lem, send_request-next_async}
use kazoo.Connection.Receiving.{read_packet}
use kazoo.Connection.Receiving.Answers.{IsKnown}
use kazoo.Connection.Receiving.InOrder.{Pending, IsAsking}

-- A new async object and the call with it, as in `add_auth_async` and the other operations that
-- make no more than one; a path in the request has its chroot already.
abbrev pub issued : Request → Client → Client
issued r c = (call r c.next_async (record c { next_async = suc c.next_async })).0

-- If a packet is the response to the first request, and that is no `Auth`, its code is known, and the
-- request has fields where it has an object.
abbrev pub IsFitting : ReplyHeader → List Pending → Type 0
IsFitting header [] = Unit
IsFitting header ((r, a, xid) ∷ rest) =
    int_eq header.xid auth_xid ≡ false → header.xid ≡ xid → IsKnown header × IsAsking r a

module _ (wants_removal : ℕ → KazooState → Bool) where
  -- One step: an operation is called, a request is sent or fails to be, a packet is read, or the
  -- session's state changes. The packet is of any kind: a ping, an answer to an `Auth`, a watch
  -- event, or a response, whose xid may be that of no request.
  pub data Step : Connection → Connection → Type 0 where
    calls : (r : Request) (n : Connection) → Step n (on_client (issued r) n)
    sends : (ss : List Sending) (n : Connection) → 0 < n.client.wakes → Step n (send_request ss n).0
    reads :
        (header : ReplyHeader) (buffer : List ℕ) (offset : ℕ) (n : Connection)
        → IsFitting header n.client.pending
        → Step n (read_packet wants_removal header buffer offset n).0
    changes :
        (s : KeeperState) (n : Connection) → Step n (on_client (session_callback wants_removal s) n)

  -- Any number of steps.
  pub data Steps : Connection → Connection → Type 0 where
    here : (n : Connection) → Steps n n
    step : {n m l : Connection} → Steps n m → Step m l → Steps n l

unfoldable pub In : ℕ → List ℕ → Type 0
In a [] = ⊥
In a (b ∷ bs) = (a ≡ b) ⊎ In a bs

pub In-left : (a : ℕ) (xs ys : List ℕ) → In a xs → In a (xs ++ ys)
unfolding In
In-left a [] ys h = absurd h
In-left a (x ∷ xs) ys (inl e) = inl e
In-left a (x ∷ xs) ys (inr h) = inr (In-left a xs ys h)

pub In-right : (a : ℕ) (xs ys : List ℕ) → In a ys → In a (xs ++ ys)
unfolding In
In-right a [] ys h = h
In-right a (x ∷ xs) ys h = inr (In-right a xs ys h)

pub In-split : (a : ℕ) (xs ys : List ℕ) → In a (xs ++ ys) → In a xs ⊎ In a ys
unfolding In
In-split a [] ys h = inr h
In-split a (x ∷ xs) ys (inl e) = inl (inl e)
In-split a (x ∷ xs) ys (inr h) = elim (In-split a xs ys h) [ inl l ↦ inl (inr l) | inr r ↦ inr r ]

-- The async objects that were set.
unfoldable pub set_asyncs : List (ℕ × Outcome) → List ℕ
set_asyncs [] = []
set_asyncs ((a, o) ∷ os) = a ∷ set_asyncs os

pub set_asyncs-append :
    (xs ys : List (ℕ × Outcome)) → set_asyncs (xs ++ ys) ≡ set_asyncs xs ++ set_asyncs ys
unfolding set_asyncs
set_asyncs-append [] ys = refl
set_asyncs-append ((a, o) ∷ xs) ys = ap (λ l. a ∷ l) (set_asyncs-append xs ys)

pub set_asyncs-failures : (e : Exn) (xs : List ℕ) → set_asyncs (failures e xs) ≡ xs
unfolding set_asyncs failures
set_asyncs-failures e [] = refl
set_asyncs-failures e (x ∷ xs) = ap (λ l. x ∷ l) (set_asyncs-failures e xs)

-- An async object waits for its request, or was set.
unfoldable pub IsAccounted : Client → ℕ → Type 0
IsAccounted c a = In a (waiting c) ⊎ In a (set_asyncs (completions c.effects))

-- From what a step sets, and what waits behind it.
pub accounted_by :
    (c d : Client) (os : List (ℕ × Outcome)) (a : ℕ)
    → completions d.effects ≡ completions c.effects ++ os
    → (In a (waiting c) → In a (waiting d) ⊎ In a (set_asyncs os))
    → IsAccounted c a
    → IsAccounted d a
unfolding IsAccounted
accounted_by c d os a h f (inl w) = elim (f w) [
  | inl l ↦ inl l
  | inr r ↦ inr (rw (h, set_asyncs-append (completions c.effects) os) (In-right a _ _ r))
]
accounted_by c d os a h f (inr s) =
    inr (rw (h, set_asyncs-append (completions c.effects) os) (In-left a _ _ s))
