-- ===== src/Client/Session/Effects/Listeners.antt =====
-- What the listeners hear of a state change.
use kazoo.Base.{
  ℕ, List, [], ◌++◌, ◌≡◌, refl, ap, sym, ◌∙◌, append-nil, Bool, true, false, not, ◌&&◌, Bool-cases,
  inl, inr, if◌then◌else◌,
}
use kazoo.States.{KazooState, KeeperState, suspended, lost, is_closed, keeper_eq, kazoo_eq}
use kazoo.Client.{Client, Effect}
use kazoo.Client.Session.{
  drop_exception, fail_pending, fail_queue, notify_pending, reset_watchers, reset, transition,
  session_callback, make_state_change,
}
use kazoo.Client.Session.Effects.{
  notices, notices-append, notices-fail_pending, notices-fail_queue, notices-dispatch_all, heard,
  told, notices-notices_to, make_state_change_lem,
}

-- The state that listeners see for a session's state.
abbrev pub kazoo_state_of : KeeperState → KazooState
kazoo_state_of KeeperState.connected = KazooState.connected
kazoo_state_of KeeperState.connected_ro = KazooState.connected
kazoo_state_of KeeperState.connecting = suspended
kazoo_state_of _ = lost

-- The changes that are passed on: not to the same state, and not from a closed session to
-- connecting.
abbrev pub passes : KeeperState → KeeperState → Bool
passes old new =
    not (keeper_eq new old) && not (is_closed old && keeper_eq new KeeperState.connecting)

notices-quiet : (es fs : List Effect) → notices fs ≡ [] → notices (es ++ fs) ≡ notices es
notices-quiet es fs h = rw (notices-append es fs, h, append-nil (notices es)) refl

notices-reset_watchers : (c : Client) → notices (reset_watchers c).effects ≡ notices c.effects
unfolding reset_watchers
notices-reset_watchers c = notices-quiet c.effects _ (notices-dispatch_all _ _)

notices-reset : (c : Client) → notices (reset c).effects ≡ notices c.effects
unfolding reset
notices-reset c = notices-reset_watchers (record c { queue = []; pending = [] })

notices-notify_pending :
    (state : KeeperState) (c : Client)
    → notices (notify_pending state c).effects ≡ notices c.effects
unfolding notify_pending
notices-notify_pending state c = notices-quiet c.effects _ (
    rw
      (
        notices-append (fail_pending (drop_exception state) c.pending)
            (fail_queue (drop_exception state) c.queue),
        notices-fail_pending (drop_exception state) c.pending,
        notices-fail_queue (drop_exception state) c.queue,
      )
      refl)

-- The listeners that hear of a change to a state.
unfoldable pub told_of : KazooState → Client → List (ℕ × KazooState)
told_of state c = if kazoo_eq c.kazoo_state state then [] else told state c.listeners

told_of-notify_pending :
    (state : KazooState) (new : KeeperState) (c : Client)
    → told_of state (notify_pending new (record c { live = false })) ≡ told_of state c
unfolding told_of notify_pending
told_of-notify_pending state new c = refl

told_of-live :
    (state : KazooState) (live : Bool) (c : Client)
    → told_of state (record c { live = live }) ≡ told_of state c
unfolding told_of
told_of-live state live c = refl

told_of-state :
    (state : KazooState) (new : KeeperState) (c : Client)
    → told_of state (record c { state = new }) ≡ told_of state c
unfolding told_of
told_of-state state new c = refl

module _ (wants_removal : ℕ → KazooState → Bool) where
  notices-make_state_change :
      (state : KazooState) (c : Client)
      → notices (make_state_change wants_removal state c).effects
        ≡ notices c.effects ++ told_of state c
  unfolding heard told_of notices
  notices-make_state_change state c =
      rw
        (
          make_state_change_lem wants_removal state c,
          notices-append c.effects (heard wants_removal state c),
        )
        (elim (Bool-cases (kazoo_eq c.kazoo_state state)) [
          | inl e ↦ rw e refl
          | inr e ↦ rw (e, notices-notices_to state c.listeners) refl
        ])

  notices-lost :
      (state : KeeperState) (c : Client)
      → notices
          (reset (
            notify_pending state
              (make_state_change wants_removal lost (record c { live = false })))).effects
        ≡ notices c.effects ++ told_of lost c
  notices-lost state c =
      rw
        (
          notices-reset (
              notify_pending state
                (make_state_change wants_removal lost (record c { live = false }))),
          notices-notify_pending state
              (make_state_change wants_removal lost (record c { live = false })),
          notices-make_state_change lost (record c { live = false }),
          told_of-live lost false c,
        )
        refl

  notices-transition :
      (state : KeeperState) (c : Client)
      → notices (transition wants_removal state c).effects
        ≡ notices c.effects ++ told_of (kazoo_state_of state) c
  unfolding transition
  notices-transition KeeperState.connected c =
      notices-make_state_change KazooState.connected (record c { live = true })
      ∙ ap (λ l. notices c.effects ++ l) (told_of-live KazooState.connected true c)
  notices-transition KeeperState.connected_ro c =
      notices-make_state_change KazooState.connected (record c { live = true })
      ∙ ap (λ l. notices c.effects ++ l) (told_of-live KazooState.connected true c)
  notices-transition KeeperState.connecting c =
      rw
        (
          notices-reset_watchers (
              make_state_change wants_removal suspended
                (notify_pending KeeperState.connecting (record c { live = false }))),
          notices-make_state_change suspended
              (notify_pending KeeperState.connecting (record c { live = false })),
          notices-notify_pending KeeperState.connecting (record c { live = false }),
          told_of-notify_pending suspended KeeperState.connecting c,
        )
        refl
  notices-transition KeeperState.auth_failed c = notices-lost KeeperState.auth_failed c
  notices-transition KeeperState.expired_session c = notices-lost KeeperState.expired_session c
  notices-transition KeeperState.closed c = notices-lost KeeperState.closed c

  -- Each listener hears once of a change of the state that listeners see, in their order, and
  -- hears of no other change.
  pub notices-session_callback :
      (state : KeeperState) (c : Client)
      → notices (session_callback wants_removal state c).effects
        ≡ notices c.effects
          ++ (if passes c.state state then told_of (kazoo_state_of state) c else [])
  unfolding session_callback
  notices-session_callback state c = elim (Bool-cases (keeper_eq state c.state)) [
    | inl e ↦ rw e (sym (append-nil _))
    | inr e ↦ elim (Bool-cases (is_closed c.state && keeper_eq state KeeperState.connecting)) [
      | inl e' ↦ rw (e, e') (sym (append-nil _))
      | inr e' ↦
          rw
            (
              e,
              e',
              notices-transition state (record c { state = state }),
              told_of-state (kazoo_state_of state) state c,
            )
            refl
    ]
  ]
