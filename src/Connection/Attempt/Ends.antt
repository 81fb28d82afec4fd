-- ===== src/Connection/Attempt/Ends.antt =====
-- The state of the session behind an attempt.
use kazoo.Base.{
  ℕ, List, ◌≡◌, refl, ap, sym, Option, none, some, Bool, true, false, Bool-cases, ◌&&◌, inl, inr,
  Exn, Result, ok, err,
}
use kazoo.Base.Int.{ℤ}
use kazoo.States.{KazooState, KeeperState, keeper_eq, is_connected, is_closed, keeper_eq→eq}
use kazoo.Client.{Client}
use kazoo.Client.Session.{session_callback}
use kazoo.Connection.Attempt.{State}
use kazoo.Connection.Attempt.Rounds.{
  Ended, stop_connecting, connect_again, running, Round, Handler, reconnects, fails_auth, expires,
  handler_of, handle_by, handle, finish, callback, callback_unless, connect_attempt,
}
use kazoo.Client.Session.Invariant.{transition_lem}

-- The session's state.
pub state_of : State → KeeperState
state_of s = s.0.client.state

-- A result that ends an attempt.
abbrev pub IsEnded : Result Ended → Type 0
IsEnded (ok stop_connecting) = Unit
IsEnded (ok connect_again) = Unit
IsEnded (ok running) = ⊥
IsEnded (err e) = ⊥

module _ (wants_removal : ℕ → KazooState → Bool) where
  session_callback-state :
      (k : KeeperState) (c : Client) → (session_callback wants_removal k c).state ≡ k
  unfolding session_callback
  session_callback-state k c = elim (Bool-cases (keeper_eq k c.state)) [
    | inl e ↦ simp e (sym (keeper_eq→eq k c.state e))
    | inr e ↦ elim (Bool-cases (is_closed c.state && keeper_eq k KeeperState.connecting)) [
      | inl e' ↦ simp (e, e') refl
      | inr e' ↦ simp (e, e') (transition_lem wants_removal k (record c { state = k })).0
    ]
  ]

  callback-state : (k : KeeperState) (s : State) → state_of (callback wants_removal k s) ≡ k
  unfolding state_of
  callback-state k s = session_callback-state k s.0.client

  callback_unless-state :
      (k : KeeperState) (s : State) → state_of (callback_unless wants_removal k s) ≡ k
  unfolding state_of
  callback_unless-state k s = elim (Bool-cases (keeper_eq s.0.client.state k)) [
    | inl e ↦ simp e (keeper_eq→eq s.0.client.state k e)
    | inr e ↦ simp e (session_callback-state k s.0.client)
  ]

  handle_by-unconnected :
      (h : Option Handler) (e : Exn) (s : State)
      → IsEnded (handle_by wants_removal h e s).1
      → is_connected (state_of (handle_by wants_removal h e s).0) ≡ false
  handle_by-unconnected none e s k = absurd k
  handle_by-unconnected (some reconnects) e s k =
      ap is_connected (callback_unless-state KeeperState.connecting s)
  handle_by-unconnected (some fails_auth) e s k =
      ap is_connected (callback-state KeeperState.auth_failed s)
  handle_by-unconnected (some expires) e s k =
      ap is_connected (callback-state KeeperState.expired_session s)

  finish-unconnected :
      (r : State × Result Bool)
      → IsEnded (finish wants_removal r).1
      → is_connected (state_of (finish wants_removal r).0) ≡ false
  unfolding handle
  finish-unconnected (s, ok true) k = ap is_connected (callback-state KeeperState.closed s)
  finish-unconnected (s, ok false) k = absurd k
  finish-unconnected (s, err e) k = handle_by-unconnected (handler_of e) e s k

  -- However an attempt ends, whatever the network did and whatever was sent and received, the
  -- session is not in a connected state afterwards, unless an exception leaves the attempt.
  pub connect_attempt-unconnected :
      (timeout : ℤ) (read_only : Bool) (opened : Option Exn) (rs : List Round) (s : State)
      → IsEnded (connect_attempt wants_removal timeout read_only opened rs s).1
      → is_connected (state_of (connect_attempt wants_removal timeout read_only opened rs s).0)
        ≡ false
  unfolding connect_attempt
  connect_attempt-unconnected timeout read_only opened rs s k = finish-unconnected _ k
