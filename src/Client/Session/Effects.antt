-- ===== src/Client/Session/Effects.antt =====
-- The effects of `_session_callback`, kind by kind.
pub mod Pending
pub mod Listeners
use kazoo.Base.{
  ℕ, List, [], ◌∷◌, ◌++◌, ◌≡◌, refl, ap, sym, ◌∙◌, map, append_assoc, append-nil, Option, none,
  some, Bool, true, false, not, ◌&&◌, ◌||◌, Exn, arith, Bool-cases, inl, inr, if◌then◌else◌,
}
use kazoo.Base.Int.{ℤ}
use kazoo.States.{
  KazooState, KeeperState, WatchedEvent, suspended, lost, is_closed, is_connected, keeper_eq,
  kazoo_eq, kazoo_eq→eq,
}
use kazoo.Protocol.Requests.{Request}
use kazoo.Client.{Client, Queued, Effect, completed, notified, dispatched, Outcome, exception, emit}
use kazoo.Client.Session.{
  drop_exception, fail_async, fail_pending, fail_queue, notify_pending, dispatch_all,
  reset_watchers, reset, discard, remove_listener, call_listeners, make_state_change, transition,
  session_callback,
}

-- The async objects that were set, and to what.
unfoldable pub completions : List Effect → List (ℕ × Outcome)
completions [] = []
completions (completed a o ∷ es) = (a, o) ∷ completions es
completions (notified l s ∷ es) = completions es
completions (dispatched w ev ∷ es) = completions es

-- The listeners that were called, and with what.
unfoldable pub notices : List Effect → List (ℕ × KazooState)
notices [] = []
notices (completed a o ∷ es) = notices es
notices (notified l s ∷ es) = (l, s) ∷ notices es
notices (dispatched w ev ∷ es) = notices es

pub completions-append :
    (xs ys : List Effect) → completions (xs ++ ys) ≡ completions xs ++ completions ys
unfolding completions
completions-append [] ys = refl
completions-append (completed a o ∷ xs) ys = ap (λ l. (a, o) ∷ l) (completions-append xs ys)
completions-append (notified l s ∷ xs) ys = completions-append xs ys
completions-append (dispatched w ev ∷ xs) ys = completions-append xs ys

pub notices-append : (xs ys : List Effect) → notices (xs ++ ys) ≡ notices xs ++ notices ys
unfolding notices
notices-append [] ys = refl
notices-append (completed a o ∷ xs) ys = notices-append xs ys
notices-append (notified l s ∷ xs) ys = ap (λ r. (l, s) ∷ r) (notices-append xs ys)
notices-append (dispatched w ev ∷ xs) ys = notices-append xs ys

-- The async objects of requests that have one.
unfoldable pub asyncs_of : List (Option ℕ) → List ℕ
asyncs_of [] = []
asyncs_of (none ∷ as') = asyncs_of as'
asyncs_of (some a ∷ as') = a ∷ asyncs_of as'

unfoldable pub waiting : Client → List ℕ
waiting c = asyncs_of (map (λ p. p.1) c.pending) ++ asyncs_of (map (λ q. q.1) c.queue)

unfoldable pub failures : Exn → List ℕ → List (ℕ × Outcome)
failures exn [] = []
failures exn (a ∷ as') = (a, exception exn) ∷ failures exn as'

pub failures-append :
    (exn : Exn) (xs ys : List ℕ) → failures exn (xs ++ ys) ≡ failures exn xs ++ failures exn ys
unfolding failures
failures-append exn [] ys = refl
failures-append exn (x ∷ xs) ys = ap (λ l. (x, exception exn) ∷ l) (failures-append exn xs ys)

module _ (exn : Exn) where
  pub completions-fail_pending :
      (ps : List (Request × Option ℕ × ℤ))
      → completions (fail_pending exn ps) ≡ failures exn (asyncs_of (map (λ p. p.1) ps))
  unfolding completions failures asyncs_of fail_pending
  completions-fail_pending [] = refl
  completions-fail_pending ((r, none, x) ∷ ps) = completions-fail_pending ps
  completions-fail_pending ((r, some a, x) ∷ ps) =
      ap (λ l. (a, exception exn) ∷ l) (completions-fail_pending ps)

  pub completions-fail_queue :
      (qs : List (Queued × Option ℕ))
      → completions (fail_queue exn qs) ≡ failures exn (asyncs_of (map (λ q. q.1) qs))
  unfolding completions failures asyncs_of fail_queue
  completions-fail_queue [] = refl
  completions-fail_queue ((r, none) ∷ qs) = completions-fail_queue qs
  completions-fail_queue ((r, some a) ∷ qs) =
      ap (λ l. (a, exception exn) ∷ l) (completions-fail_queue qs)

  pub notices-fail_pending :
      (ps : List (Request × Option ℕ × ℤ)) → notices (fail_pending exn ps) ≡ []
  unfolding notices fail_pending
  notices-fail_pending [] = refl
  notices-fail_pending ((r, none, x) ∷ ps) = notices-fail_pending ps
  notices-fail_pending ((r, some a, x) ∷ ps) = notices-fail_pending ps

  pub notices-fail_queue : (qs : List (Queued × Option ℕ)) → notices (fail_queue exn qs) ≡ []
  unfolding notices fail_queue
  notices-fail_queue [] = refl
  notices-fail_queue ((r, none) ∷ qs) = notices-fail_queue qs
  notices-fail_queue ((r, some a) ∷ qs) = notices-fail_queue qs

pub completions-dispatch_all :
    (ev : WatchedEvent) (ws : List ℕ) → completions (dispatch_all ev ws) ≡ []
unfolding completions dispatch_all
completions-dispatch_all ev [] = refl
completions-dispatch_all ev (w ∷ ws) = completions-dispatch_all ev ws

pub notices-dispatch_all : (ev : WatchedEvent) (ws : List ℕ) → notices (dispatch_all ev ws) ≡ []
unfolding notices dispatch_all
notices-dispatch_all ev [] = refl
notices-dispatch_all ev (w ∷ ws) = notices-dispatch_all ev ws

pub notices_to : KazooState → List ℕ → List Effect
notices_to state [] = []
notices_to state (l ∷ ls) = notified l state ∷ notices_to state ls

unfoldable pub told : KazooState → List ℕ → List (ℕ × KazooState)
told state [] = []
told state (l ∷ ls) = (l, state) ∷ told state ls

pub completions-notices_to :
    (state : KazooState) (ls : List ℕ) → completions (notices_to state ls) ≡ []
unfolding completions notices_to
completions-notices_to state [] = refl
completions-notices_to state (l ∷ ls) = completions-notices_to state ls

pub notices-notices_to :
    (state : KazooState) (ls : List ℕ) → notices (notices_to state ls) ≡ told state ls
unfolding notices notices_to told
notices-notices_to state [] = refl
notices-notices_to state (l ∷ ls) = ap (λ r. (l, state) ∷ r) (notices-notices_to state ls)

module _ (wants_removal : ℕ → KazooState → Bool) where
  -- The listeners that are left after a round of calls.
  pub staying : KazooState → List ℕ → List ℕ → List ℕ
  staying state [] registered = registered
  staying state (l ∷ ls) registered =
      staying state ls (if wants_removal l state then discard l registered else registered)

  -- The calls change the listeners and are seen in the effects, and leave all else alone.
  pub call_listeners_lem :
      (state : KazooState) (ls : List ℕ) (c : Client)
      → call_listeners wants_removal state ls c ≡ record c {
        listeners = staying state ls c.listeners;
        effects = c.effects ++ notices_to state ls;
      }
  unfolding call_listeners staying notices_to
  call_listeners_lem state [] c =
      ap (λ (e : List Effect). record c { effects = e }) (sym (append-nil c.effects))
  call_listeners_lem state (l ∷ ls) c = elim (Bool-cases (wants_removal l state)) [
    | inl e ↦ rw e (
        call_listeners_lem state ls (remove_listener l (emit c (notified l state ∷ [])))
        ∙ ap
            (λ (es : List Effect). record c {
              listeners = staying state ls (discard l c.listeners);
              effects = es;
            })
            (append_assoc c.effects (notified l state ∷ []) (notices_to state ls)))
    | inr e ↦ rw e (
        call_listeners_lem state ls (emit c (notified l state ∷ []))
        ∙ ap
            (λ (es : List Effect). record c {
              listeners = staying state ls c.listeners;
              effects = es;
            })
            (append_assoc c.effects (notified l state ∷ []) (notices_to state ls)))
  ]

  -- What a change of the state makes the listeners hear, and which of them are left.
  pub heard : KazooState → Client → List Effect
  heard state c = if kazoo_eq c.kazoo_state state then [] else notices_to state c.listeners

  pub left : KazooState → Client → List ℕ
  left state c =
      if kazoo_eq c.kazoo_state state then c.listeners else staying state c.listeners c.listeners

  pub make_state_change_lem :
      (state : KazooState) (c : Client)
      → make_state_change wants_removal state c ≡ record c {
        kazoo_state = state;
        listeners = left state c;
        effects = c.effects ++ heard state c;
      }
  unfolding make_state_change heard left call_listeners
  make_state_change_lem state c = elim (Bool-cases (kazoo_eq c.kazoo_state state)) [
    | inl e ↦ simp e (λ i. record c {
      kazoo_state = kazoo_eq→eq c.kazoo_state state e i;
      effects = sym (append-nil c.effects) i;
    })
    | inr e ↦ simp e (call_listeners_lem state c.listeners (record c { kazoo_state = state }))
  ]
