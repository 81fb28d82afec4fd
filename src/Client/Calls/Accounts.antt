-- ===== src/Client/Calls/Accounts.antt =====
-- Where the async object of a call is, after it.
use kazoo.Base.{
  ℕ, List, [], ◌∷◌, ◌++◌, ◌≡◌, refl, ap, sym, ◌∙◌, map, append_assoc, Option, none, some, Bool,
  true, false, Exn, connection_closed,
}
use kazoo.Protocol.Requests.{Request}
use kazoo.Client.{Client, Queued, exception, Outcome, request}
use kazoo.Client.Calls.{refusal, call, woken}
use kazoo.Client.Session.Effects.{completions, completions-append, waiting, asyncs_of}

pub asyncs_of-append :
    (xs ys : List (Option ℕ)) → asyncs_of (xs ++ ys) ≡ asyncs_of xs ++ asyncs_of ys
unfolding asyncs_of
asyncs_of-append [] ys = refl
asyncs_of-append (none ∷ xs) ys = asyncs_of-append xs ys
asyncs_of-append (some a ∷ xs) ys = ap (λ l. a ∷ l) (asyncs_of-append xs ys)

pub map-append :
    {A B : Type 0} (f : A → B) (xs ys : List A) → map f (xs ++ ys) ≡ map f xs ++ map f ys
map-append f [] ys = refl
map-append f (x ∷ xs) ys = ap (λ l. f x ∷ l) (map-append f xs ys)

-- The asyncs that wait after a call.
unfoldable pub waiting_after : Option Exn → ℕ → Client → List ℕ
waiting_after (some e) a c = waiting c
waiting_after none a c = waiting c ++ a ∷ []

-- What a call sets at once: the refusal's exception, or one for a socket that cannot be woken.
unfoldable pub set_at_once : Option Exn → Option Bool → ℕ → List (ℕ × Outcome)
set_at_once (some e) sock a = (a, exception e) ∷ []
set_at_once none (some true) a = []
set_at_once none (some false) a = (a, exception connection_closed) ∷ []
set_at_once none none a = (a, exception connection_closed) ∷ []

waiting-queued :
    (r : Request) (a : ℕ) (c : Client)
    → asyncs_of (map (λ p. p.1) c.pending)
        ++ asyncs_of (map (λ (q : Queued × Option ℕ). q.1) (c.queue ++ (request r, some a) ∷ []))
      ≡ waiting c ++ a ∷ []
unfolding waiting asyncs_of
waiting-queued r a c =
    rw
      (
        map-append (λ (q : Queued × Option ℕ). q.1) c.queue ((request r, some a) ∷ []),
        asyncs_of-append (map (λ (q : Queued × Option ℕ). q.1) c.queue) (some a ∷ []),
      )
      (sym (
        append_assoc (asyncs_of (map (λ p. p.1) c.pending))
          (asyncs_of (map (λ (q : Queued × Option ℕ). q.1) c.queue)) (a ∷ [])))

completions-woken :
    (sock : Option Bool) (a : ℕ) → completions (woken sock a) ≡ set_at_once none sock a
unfolding completions set_at_once
completions-woken none a = refl
completions-woken (some true) a = refl
completions-woken (some false) a = refl

call_cases :
    (e : Option Exn) (r : Request) (a : ℕ) (c : Client)
    → refusal c.state ≡ e
    → (waiting (call r a c).0 ≡ waiting_after e a c)
      × (completions (call r a c).0.effects ≡ completions c.effects ++ set_at_once e c.write_sock a)
unfolding waiting call waiting_after set_at_once completions
call_cases none r a c h = rw h (
  waiting-queued r a c,
  completions-append c.effects (woken c.write_sock a)
      ∙ ap (λ l. completions c.effects ++ l) (completions-woken c.write_sock a),
)
call_cases (some e) r a c h = rw h (refl, completions-append c.effects _)

-- No call loses its async object: in a state that refuses the call the object is set to the
-- state's exception and nothing waits for it, and else it is the last of the objects that wait,
-- and is also set to an exception where the socket cannot be woken.
pub call_lem :
    (r : Request) (a : ℕ) (c : Client)
    → (waiting (call r a c).0 ≡ waiting_after (refusal c.state) a c)
      × (completions (call r a c).0.effects
          ≡ completions c.effects ++ set_at_once (refusal c.state) c.write_sock a)
call_lem r a c = call_cases (refusal c.state) r a c refl

call_next :
    (e : Option Exn) (r : Request) (a : ℕ) (c : Client)
    → refusal c.state ≡ e
    → (call r a c).0.next_async ≡ c.next_async
unfolding call
call_next none r a c h = rw h refl
call_next (some e) r a c h = rw h refl

-- A call makes no async object.
pub call-next_async : (r : Request) (a : ℕ) (c : Client) → (call r a c).0.next_async ≡ c.next_async
call-next_async r a c = call_next (refusal c.state) r a c refl
