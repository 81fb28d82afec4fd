-- ===== src/Client/Session/Invariant.antt =====
-- What holds of the client's state between the calls of `_session_callback`.
use kazoo.Base.{
  ℕ, [], ◌≡◌, refl, ap, sym, ◌∙◌, Bool, true, false, not, ◌&&◌, Bool-cases, inl, inr, if◌then◌else◌,
}
use kazoo.States.{
  KazooState, KeeperState, suspended, lost, is_closed, is_connected, keeper_eq, kazoo_eq,
}
use kazoo.Client.{Client}
use kazoo.Client.Session.{
  notify_pending, reset_watchers, reset, reset_session, transition, session_callback,
  make_state_change,
}
use kazoo.Client.Session.Effects.{make_state_change_lem}

-- The states that listeners may see in a session's state: only in CONNECTING are there two.
abbrev pub agrees : KeeperState → KazooState → Bool
agrees state kazoo =
    if is_connected state
    then kazoo_eq kazoo KazooState.connected
    else if is_closed state
    then kazoo_eq kazoo lost
    else not (kazoo_eq kazoo KazooState.connected)

pub record IsConsistent (c : Client) : Type 0 where
  pub is_live : c.live ≡ is_connected c.state
  pub is_seen : agrees c.state c.kazoo_state ≡ true
  pub is_idle : is_connected c.state ≡ false → c.pending ≡ []

-- The state that listeners see after a change that is passed on.
abbrev pub seen_after : KeeperState → KazooState
seen_after state =
    if is_connected state then KazooState.connected else if is_closed state then lost else suspended

agrees-seen_after : (state : KeeperState) → agrees state (seen_after state) ≡ true
agrees-seen_after KeeperState.auth_failed = refl
agrees-seen_after KeeperState.connected = refl
agrees-seen_after KeeperState.connected_ro = refl
agrees-seen_after KeeperState.connecting = refl
agrees-seen_after KeeperState.closed = refl
agrees-seen_after KeeperState.expired_session = refl

module _ (wants_removal : ℕ → KazooState → Bool) where
  msc : KazooState → Client → Client
  msc = make_state_change wants_removal

  -- What a change that is passed on does to the parts that the invariant speaks of.
  pub transition_lem :
      (s : KeeperState) (c : Client)
      → ((transition wants_removal s c).state ≡ c.state)
        × ((transition wants_removal s c).live ≡ is_connected s)
        × ((transition wants_removal s c).kazoo_state ≡ seen_after s)
        × (is_connected s ≡ false → (transition wants_removal s c).pending ≡ [])
        × ((transition wants_removal s c).next_async ≡ c.next_async)
  unfolding transition notify_pending reset reset_session reset_watchers
  transition_lem KeeperState.connected c =
      rw (make_state_change_lem wants_removal KazooState.connected (record c { live = true }))
        (refl, refl, refl, λ (h : true ≡ false). cc, refl)
  transition_lem KeeperState.connected_ro c =
      rw (make_state_change_lem wants_removal KazooState.connected (record c { live = true }))
        (refl, refl, refl, λ (h : true ≡ false). cc, refl)
  transition_lem KeeperState.connecting c =
      rw
        (make_state_change_lem wants_removal suspended
          (notify_pending KeeperState.connecting (record c { live = false })))
        (refl, refl, refl, λ h. refl, refl)
  transition_lem KeeperState.auth_failed c =
      rw (make_state_change_lem wants_removal lost (record c { live = false }))
        (refl, refl, refl, λ h. refl, refl)
  transition_lem KeeperState.closed c =
      rw (make_state_change_lem wants_removal lost (record c { live = false }))
        (refl, refl, refl, λ h. refl, refl)
  transition_lem KeeperState.expired_session c =
      rw (make_state_change_lem wants_removal lost (record c { live = false }))
        (refl, refl, refl, λ h. refl, refl)

closed_not_connected : (s : KeeperState) → is_closed s ≡ true → is_connected s ≡ false
closed_not_connected KeeperState.auth_failed h = refl
closed_not_connected KeeperState.connected h = cc
closed_not_connected KeeperState.connected_ro h = cc
closed_not_connected KeeperState.connecting h = cc
closed_not_connected KeeperState.closed h = refl
closed_not_connected KeeperState.expired_session h = refl

is_connecting :
    (s : KeeperState) → keeper_eq s KeeperState.connecting ≡ true → s ≡ KeeperState.connecting
is_connecting KeeperState.auth_failed h = cc
is_connecting KeeperState.connected h = cc
is_connecting KeeperState.connected_ro h = cc
is_connecting KeeperState.connecting h = refl
is_connecting KeeperState.closed h = cc
is_connecting KeeperState.expired_session h = cc

lost_not_connected :
    (k : KazooState) → kazoo_eq k lost ≡ true → not (kazoo_eq k KazooState.connected) ≡ true
lost_not_connected suspended h = cc
lost_not_connected KazooState.connected h = cc
lost_not_connected lost h = refl

&&-both : (a b : Bool) → a && b ≡ true → (a ≡ true) × (b ≡ true)
&&-both true true h = (refl, refl)
&&-both true false h = cc
&&-both false b h = cc

-- From a closed session to CONNECTING, where the listeners are not told.
closed-connecting-IsConsistent :
    (c : Client)
    → is_closed c.state ≡ true
    → IsConsistent c
    → IsConsistent (record c { state = KeeperState.connecting })
closed-connecting-IsConsistent c h k = record {
  is_live = k.is_live ∙ closed_not_connected c.state h;
  is_seen =
      lost_not_connected c.kazoo_state
        (sym (rw (closed_not_connected c.state h, h) refl) ∙ k.is_seen);
  is_idle = λ _. k.is_idle (closed_not_connected c.state h);
}

-- Which changes of the listeners' state there are, for the session's new state. docs/basic_usage.rst
-- lists the same pairs, but says that CONNECTED becomes LOST for refused credentials only, where
-- here any closed state does.
pub is_legal : KeeperState → KazooState → KazooState → Bool
is_legal s suspended KazooState.connected = is_connected s
is_legal s lost KazooState.connected = is_connected s
is_legal s KazooState.connected suspended = keeper_eq s KeeperState.connecting
is_legal s lost suspended = false
is_legal s suspended lost = is_closed s
is_legal s KazooState.connected lost = is_closed s
is_legal s suspended suspended = true
is_legal s KazooState.connected KazooState.connected = true
is_legal s lost lost = true

is_legal_refl : (s : KeeperState) (k : KazooState) → is_legal s k k ≡ true
unfolding is_legal
is_legal_refl s suspended = refl
is_legal_refl s KazooState.connected = refl
is_legal_refl s lost = refl

is_legal-lost : (s : KeeperState) (k : KazooState) → is_closed s ≡ true → is_legal s k lost ≡ true
unfolding is_legal
is_legal-lost s suspended h = h
is_legal-lost s KazooState.connected h = h
is_legal-lost s lost h = refl

is_legal-connected :
    (s : KeeperState) (k : KazooState)
    → is_connected s ≡ true
    → is_legal s k KazooState.connected ≡ true
unfolding is_legal
is_legal-connected s suspended h = h
is_legal-connected s KazooState.connected h = refl
is_legal-connected s lost h = h

is_legal-suspended :
    (k : KazooState)
    → kazoo_eq k KazooState.connected ≡ true
    → is_legal KeeperState.connecting k suspended ≡ true
unfolding is_legal
is_legal-suspended suspended h = cc
is_legal-suspended KazooState.connected h = refl
is_legal-suspended lost h = cc

is_legal-connecting :
    (old : KeeperState) (k : KazooState)
    → keeper_eq KeeperState.connecting old ≡ false
    → is_closed old && true ≡ false
    → agrees old k ≡ true
    → is_legal KeeperState.connecting k suspended ≡ true
is_legal-connecting KeeperState.auth_failed k h h' e = cc
is_legal-connecting KeeperState.connected k h h' e = is_legal-suspended k e
is_legal-connecting KeeperState.connected_ro k h h' e = is_legal-suspended k e
is_legal-connecting KeeperState.connecting k h h' e = cc
is_legal-connecting KeeperState.closed k h h' e = cc
is_legal-connecting KeeperState.expired_session k h h' e = cc

is_legal-seen_after :
    (new old : KeeperState) (k : KazooState)
    → keeper_eq new old ≡ false
    → is_closed old && keeper_eq new KeeperState.connecting ≡ false
    → agrees old k ≡ true
    → is_legal new k (seen_after new) ≡ true
is_legal-seen_after KeeperState.auth_failed old k h h' e = is_legal-lost _ k refl
is_legal-seen_after KeeperState.connected old k h h' e = is_legal-connected _ k refl
is_legal-seen_after KeeperState.connected_ro old k h h' e = is_legal-connected _ k refl
is_legal-seen_after KeeperState.connecting old k h h' e = is_legal-connecting old k h h' e
is_legal-seen_after KeeperState.closed old k h h' e = is_legal-lost _ k refl
is_legal-seen_after KeeperState.expired_session old k h h' e = is_legal-lost _ k refl

module _ (wants_removal : ℕ → KazooState → Bool) where
  -- Every change of the session's state keeps the client's state consistent: it is live in a
  -- connected state only, the listeners' state agrees with the session's, and no request is
  -- pending without a connection.
  pub session_callback-IsConsistent :
      (s : KeeperState) (c : Client)
      → IsConsistent c
      → IsConsistent (session_callback wants_removal s c)
  unfolding session_callback
  session_callback-IsConsistent s c k = elim (Bool-cases (keeper_eq s c.state)) [
    | inl e ↦ rw e k
    | inr e ↦ elim (Bool-cases (is_closed c.state && keeper_eq s KeeperState.connecting)) [
      | inl e' ↦
          rw (e, e', is_connecting s (&&-both _ _ e').1)
            (closed-connecting-IsConsistent c (&&-both _ _ e').0 k)
      | inr e' ↦
          let t = transition_lem wants_removal s (record c { state = s }) in
          rw (e, e')
            (record {
              is_live = rw t.0 t.1;
              is_seen = rw (t.0, t.2) (agrees-seen_after s);
              is_idle = λ h. t.3 (sym (ap is_connected t.0) ∙ h);
            })
    ]
  ]

  -- From a consistent state, the listeners' state changes only to CONNECTED where the session is
  -- connected, to LOST where it is closed, expired or refused, and from CONNECTED to SUSPENDED where
  -- it is connecting: never from LOST to SUSPENDED. CONNECTED may become LOST in each of
  -- the three closed states, and not for refused credentials only.
  pub session_callback-is_legal :
      (s : KeeperState) (c : Client)
      → IsConsistent c
      → is_legal s c.kazoo_state (session_callback wants_removal s c).kazoo_state ≡ true
  unfolding session_callback
  session_callback-is_legal s c k = elim (Bool-cases (keeper_eq s c.state)) [
    | inl e ↦ rw e (is_legal_refl s c.kazoo_state)
    | inr e ↦ elim (Bool-cases (is_closed c.state && keeper_eq s KeeperState.connecting)) [
      | inl e' ↦ rw (e, e') (is_legal_refl s c.kazoo_state)
      | inr e' ↦
          rw (e, e', (transition_lem wants_removal s (record c { state = s })).2)
            (is_legal-seen_after s c.state c.kazoo_state e e' k.is_seen)
    ]
  ]

  -- A state change makes no async objects.
  pub session_callback-next_async :
      (s : KeeperState) (c : Client)
      → (session_callback wants_removal s c).next_async ≡ c.next_async
  unfolding session_callback
  session_callback-next_async s c = elim (Bool-cases (keeper_eq s c.state)) [
    | inl e ↦ simp e refl
    | inr e ↦ elim (Bool-cases (is_closed c.state && keeper_eq s KeeperState.connecting)) [
      | inl e' ↦ simp (e, e') refl
      | inr e' ↦ simp (e, e') (transition_lem wants_removal s (record c { state = s })).4
    ]
  ]
