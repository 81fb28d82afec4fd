-- ===== src/Tests/Sessions.antt =====
-- The session's state and the calls.
use kazoo.Base.{ℕ, [], ◌∷◌, ◌++◌, ◌≡◌, refl, false, true, Bool, some, none, zookeeper_error}
use kazoo.Base.Int.{pos}
use kazoo.Exceptions.{session_expired_error}
use kazoo.Python.Text.{codes}
use kazoo.States.{KazooState, KeeperState}
use kazoo.Protocol.Requests.{sync, exists}
use kazoo.Client.{Client, request, exception}
use kazoo.Client.Calls.{refusal, call}
use kazoo.Client.Calls.Accounts.{waiting_after, set_at_once, call_lem}
use kazoo.Client.Session.{session_callback}
use kazoo.Client.Session.Effects.{completions, notices, waiting, told, failures, asyncs_of}
use kazoo.Client.Session.Effects.Pending.{drops, completions-session_callback}
use kazoo.Client.Session.Effects.Listeners.{told_of, notices-session_callback}
use kazoo.Client.Session.Invariant.{
  IsConsistent, is_legal, session_callback-IsConsistent, session_callback-is_legal,
}
use kazoo.Tests.{new_client}

-- Connected, with a pending request and a queued one, and two listeners.
abbrev busy : Client
busy = record new_client {
  state = KeeperState.connected;
  kazoo_state = KazooState.connected;
  live = true;
  stopped = false;
  pending = (exists (some (codes "/a")) none, some 1, pos 1) ∷ [];
  queue = (request (sync (some (codes "/b"))), some 2) ∷ [];
  listeners = 8 ∷ 9 ∷ [];
  write_sock = some true;
}

abbrev stays : ℕ → KazooState → Bool
stays listener state = false

busy-IsConsistent : IsConsistent busy
busy-IsConsistent = record { is_live = refl; is_seen = refl; is_idle = λ (h : true ≡ false). cc }

completions-session_callback_example :
    completions (session_callback stays KeeperState.expired_session busy).effects
    ≡ (1, exception (zookeeper_error session_expired_error))
      ∷ (2, exception (zookeeper_error session_expired_error))
      ∷ []
unfolding waiting completions drops failures asyncs_of
completions-session_callback_example =
    completions-session_callback stays KeeperState.expired_session busy

notices-session_callback_example :
    notices (session_callback stays KeeperState.connecting busy).effects
    ≡ (8, KazooState.suspended) ∷ (9, KazooState.suspended) ∷ []
unfolding notices told_of told
notices-session_callback_example = notices-session_callback stays KeeperState.connecting busy

session_callback-IsConsistent_example :
    IsConsistent (session_callback stays KeeperState.connecting busy)
session_callback-IsConsistent_example =
    session_callback-IsConsistent stays KeeperState.connecting busy busy-IsConsistent

session_callback-is_legal_example :
    is_legal KeeperState.closed KazooState.connected
      (session_callback stays KeeperState.closed busy).kazoo_state
    ≡ true
session_callback-is_legal_example =
    session_callback-is_legal stays KeeperState.closed busy busy-IsConsistent

call_lem_example :
    (waiting (call (sync (some (codes "/c"))) 3 busy).0 ≡ waiting_after (refusal busy.state) 3 busy)
    × (completions (call (sync (some (codes "/c"))) 3 busy).0.effects
        ≡ completions busy.effects ++ set_at_once (refusal busy.state) busy.write_sock 3)
call_lem_example = call_lem (sync (some (codes "/c"))) 3 busy
