-- ===== src/Client/Session/Effects/Pending.antt =====
-- Which requests a state change fails.
use kazoo.Base.{
  ℕ, List, [], ◌++◌, ◌≡◌, refl, ap, sym, ◌∙◌, append-nil, Bool, true, false, not, ◌&&◌, Bool-cases,
  inl, inr, if◌then◌else◌,
}
use kazoo.States.{
  KazooState, KeeperState, suspended, lost, is_closed, is_connected, keeper_eq, kazoo_eq,
}
use kazoo.Client.{Client, Effect}
use kazoo.Client.Session.{
  drop_exception, fail_pending, fail_queue, notify_pending, reset_watchers, reset, reset_session,
  transition, session_callback, make_state_change,
}
use kazoo.Client.Session.Effects.{
  completions, completions-append, failures, failures-append, waiting, asyncs_of,
  completions-fail_pending, completions-fail_queue, completions-dispatch_all, heard,
  completions-notices_to, make_state_change_lem,
}

-- The changes at which requests are failed: any but to the same state, to a connection, and from
-- a closed session to connecting.
unfoldable pub drops : KeeperState → KeeperState → Bool
drops old new =
    not (keeper_eq new old)
    && (not (is_connected new) && not (is_closed old && keeper_eq new KeeperState.connecting))

module _ (es : List Effect) where
  completions-quiet :
      (fs : List Effect) → completions fs ≡ [] → completions (es ++ fs) ≡ completions es
  completions-quiet fs h = rw (completions-append es fs, h, append-nil (completions es)) refl

completions-reset_watchers :
    (c : Client) → completions (reset_watchers c).effects ≡ completions c.effects
unfolding reset_watchers
completions-reset_watchers c = completions-quiet c.effects _ (completions-dispatch_all _ _)

completions-reset : (c : Client) → completions (reset c).effects ≡ completions c.effects
unfolding reset
completions-reset c = completions-reset_watchers (record c { queue = []; pending = [] })

completions-notify_pending :
    (state : KeeperState) (c : Client)
    → completions (notify_pending state c).effects
      ≡ completions c.effects ++ failures (drop_exception state) (waiting c)
unfolding notify_pending waiting
completions-notify_pending state c =
    rw
      (
        completions-append c.effects (
            fail_pending (drop_exception state) c.pending
            ++ fail_queue (drop_exception state) c.queue),
        completions-append (fail_pending (drop_exception state) c.pending)
            (fail_queue (drop_exception state) c.queue),
        completions-fail_pending (drop_exception state) c.pending,
        completions-fail_queue (drop_exception state) c.queue,
        failures-append,
      )
      refl

module _ (wants_removal : ℕ → KazooState → Bool) where
  completions-heard :
      (state : KazooState) (c : Client) → completions (heard wants_removal state c) ≡ []
  unfolding heard completions
  completions-heard state c = elim (Bool-cases (kazoo_eq c.kazoo_state state)) [
    | inl e ↦ rw e refl
    | inr e ↦ rw e (completions-notices_to state c.listeners)
  ]

  completions-make_state_change :
      (state : KazooState) (c : Client)
      → completions (make_state_change wants_removal state c).effects ≡ completions c.effects
  completions-make_state_change state c =
      rw (make_state_change_lem wants_removal state c)
        (completions-quiet c.effects (heard wants_removal state c) (completions-heard state c))

  waiting-live : (c : Client) → waiting (record c { live = false }) ≡ waiting c
  unfolding waiting
  waiting-live c = refl

  waiting-make_state_change :
      (state : KazooState) (c : Client)
      → waiting (make_state_change wants_removal state c) ≡ waiting c
  unfolding waiting
  waiting-make_state_change state c = rw (make_state_change_lem wants_removal state c) refl

  completions-transition :
      (state : KeeperState) (c : Client)
      → completions (transition wants_removal state c).effects
        ≡ completions c.effects
          ++ (if is_connected state then [] else failures (drop_exception state) (waiting c))
  unfolding transition
  completions-transition state c = elim (Bool-cases (is_connected state)) [
    | inl e ↦ rw e (completions-make_state_change _ _ ∙ sym (append-nil _))
    | inr e ↦ elim (Bool-cases (is_closed state)) [
      | inl e' ↦
          rw
            (
              e,
              e',
              completions-reset (
                  notify_pending state
                    (make_state_change wants_removal lost (record c { live = false }))),
              completions-notify_pending state
                  (make_state_change wants_removal lost (record c { live = false })),
              completions-make_state_change lost (record c { live = false }),
              waiting-make_state_change lost (record c { live = false }),
            )
            (ap (λ ws. completions c.effects ++ failures (drop_exception state) ws)
              (waiting-live c))
      | inr e' ↦
          rw
            (
              e,
              e',
              completions-reset_watchers (
                  make_state_change wants_removal suspended
                    (notify_pending state (record c { live = false }))),
              completions-make_state_change suspended
                  (notify_pending state (record c { live = false })),
              completions-notify_pending state (record c { live = false }),
            )
            (ap (λ ws. completions c.effects ++ failures (drop_exception state) ws)
              (waiting-live c))
    ]
  ]

  -- A state change that drops the connection sets every async object that waits, the pending ones
  -- first and then the queued ones, to the exception of the new state, and a state change of any
  -- other kind sets none.
  pub completions-session_callback :
      (state : KeeperState) (c : Client)
      → completions (session_callback wants_removal state c).effects
        ≡ completions c.effects
          ++ (if drops c.state state then failures (drop_exception state) (waiting c) else [])
  unfolding session_callback drops waiting
  completions-session_callback state c = elim (Bool-cases (keeper_eq state c.state)) [
    | inl e ↦ rw e (sym (append-nil _))
    | inr e ↦ elim (Bool-cases (is_closed c.state && keeper_eq state KeeperState.connecting)) [
      | inl e' ↦ elim (Bool-cases (is_connected state)) [
        | inl n ↦ rw (e, e', n) (sym (append-nil _))
        | inr n ↦ rw (e, e', n) (sym (append-nil _))
      ]
      | inr e' ↦ elim (Bool-cases (is_connected state)) [
        | inl n ↦ rw (e, e', completions-transition state (record c { state = state }), n) refl
        | inr n ↦ rw (e, e', completions-transition state (record c { state = state }), n) refl
      ]
    ]
  ]

waiting-emptied : (c : Client) → waiting (record c { pending = []; queue = [] }) ≡ []
unfolding waiting asyncs_of
waiting-emptied c = refl

module _ (wants_removal : ℕ → KazooState → Bool) where
  waiting-transition :
      (state : KeeperState) (c : Client)
      → waiting (transition wants_removal state c) ≡ (if is_connected state then waiting c else [])
  unfolding transition reset reset_watchers reset_session notify_pending waiting asyncs_of
  waiting-transition state c = elim (Bool-cases (is_connected state)) [
    | inl e ↦
        rw e
          (waiting-make_state_change wants_removal KazooState.connected (record c { live = true }))
    | inr e ↦ elim (Bool-cases (is_closed state)) [
      | inl e' ↦ rw (e, e') refl
      | inr e' ↦
          rw
            (
              e,
              e',
              make_state_change_lem wants_removal suspended
                  (notify_pending state (record c { live = false })),
            )
            refl
    ]
  ]

  -- The async objects that wait behind a state change.
  pub waiting-session_callback :
      (state : KeeperState) (c : Client)
      → waiting (session_callback wants_removal state c)
        ≡ (if drops c.state state then [] else waiting c)
  unfolding session_callback drops waiting
  waiting-session_callback state c = elim (Bool-cases (keeper_eq state c.state)) [
    | inl e ↦ rw e refl
    | inr e ↦ elim (Bool-cases (is_closed c.state && keeper_eq state KeeperState.connecting)) [
      | inl e' ↦ elim (Bool-cases (is_connected state)) [
        | inl n ↦ rw (e, e', n) refl
        | inr n ↦ rw (e, e', n) refl
      ]
      | inr e' ↦ elim (Bool-cases (is_connected state)) [
        | inl n ↦ rw (e, e', n) (waiting-transition state (record c { state = state }) ∙ rw n refl)
        | inr n ↦ rw (e, e', n) (waiting-transition state (record c { state = state }) ∙ rw n refl)
      ]
    ]
  ]
