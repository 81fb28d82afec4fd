-- ===== src/States.antt =====
-- The states and events of kazoo/protocol/states.py.
use kazoo.Base.{
  ◌≡◌, refl, sym, ap, ◌∙◌, ==_iff, ℕ, zero, suc, List, Option, none, some, Bool, true, false, ◌==◌,
}
use kazoo.Base.Int.{ℤ, pos, negsuc}

-- The connection's state as listeners see it.
pub data KazooState : Type 0 where
  suspended connected lost : KazooState

-- The state of the ZooKeeper session.
pub data KeeperState : Type 0 where
  auth_failed connected connected_ro connecting closed expired_session : KeeperState

pub data EventType : Type 0 where
  created deleted changed child nothing : EventType

-- `EVENT_TYPE_MAP`
abbrev pub event_type : ℤ → Option EventType
event_type (negsuc zero) = some nothing
event_type (pos (suc zero)) = some created
event_type (pos (suc (suc zero))) = some deleted
event_type (pos (suc (suc (suc zero)))) = some changed
event_type (pos (suc (suc (suc (suc zero))))) = some child
event_type _ = none

pub record WatchedEvent : Type 0 where
  pub type : EventType
  pub state : KeeperState
  pub path : Option (List ℕ)

-- `CLOSED_STATES` of kazoo/client.py
abbrev pub is_closed : KeeperState → Bool
is_closed KeeperState.expired_session = true
is_closed KeeperState.auth_failed = true
is_closed KeeperState.closed = true
is_closed _ = false

abbrev pub is_connected : KeeperState → Bool
is_connected KeeperState.connected = true
is_connected KeeperState.connected_ro = true
is_connected _ = false

abbrev keeper_index : KeeperState → ℕ
keeper_index KeeperState.auth_failed = 0
keeper_index KeeperState.connected = 1
keeper_index KeeperState.connected_ro = 2
keeper_index KeeperState.connecting = 3
keeper_index KeeperState.closed = 4
keeper_index KeeperState.expired_session = 5

abbrev pub keeper_eq : KeeperState → KeeperState → Bool
keeper_eq a b = keeper_index a == keeper_index b

abbrev kazoo_index : KazooState → ℕ
kazoo_index suspended = 0
kazoo_index KazooState.connected = 1
kazoo_index lost = 2

abbrev pub kazoo_eq : KazooState → KazooState → Bool
kazoo_eq a b = kazoo_index a == kazoo_index b

pub kazoo_eq→eq : (a b : KazooState) → kazoo_eq a b ≡ true → a ≡ b
kazoo_eq→eq suspended suspended h = refl
kazoo_eq→eq KazooState.connected KazooState.connected h = refl
kazoo_eq→eq lost lost h = refl
kazoo_eq→eq suspended KazooState.connected h = cc
kazoo_eq→eq suspended lost h = cc
kazoo_eq→eq KazooState.connected suspended h = cc
kazoo_eq→eq KazooState.connected lost h = cc
kazoo_eq→eq lost suspended h = cc
kazoo_eq→eq lost KazooState.connected h = cc

keeper_of : ℕ → KeeperState
keeper_of zero = KeeperState.auth_failed
keeper_of (suc zero) = KeeperState.connected
keeper_of (suc (suc zero)) = KeeperState.connected_ro
keeper_of (suc (suc (suc zero))) = KeeperState.connecting
keeper_of (suc (suc (suc (suc zero)))) = KeeperState.closed
keeper_of _ = KeeperState.expired_session

keeper_of-keeper_index : (k : KeeperState) → keeper_of (keeper_index k) ≡ k
unfolding keeper_of
keeper_of-keeper_index KeeperState.auth_failed = refl
keeper_of-keeper_index KeeperState.connected = refl
keeper_of-keeper_index KeeperState.connected_ro = refl
keeper_of-keeper_index KeeperState.connecting = refl
keeper_of-keeper_index KeeperState.closed = refl
keeper_of-keeper_index KeeperState.expired_session = refl

pub keeper_eq→eq : (a b : KeeperState) → keeper_eq a b ≡ true → a ≡ b
keeper_eq→eq a b h =
    sym (keeper_of-keeper_index a)
    ∙ ap keeper_of ((==_iff (keeper_index a) (keeper_index b)).0 h)
    ∙ keeper_of-keeper_index b
