-- ===== src/Recipe/Watchers/Versions.antt =====
-- A `DataWatch` never tells a version twice in a row, and the last that it told is the one that it knows.
use mathlib.Core.Path.{subst}
use kazoo.Base.{
  ℕ, ◌≡◌, refl, sym, ap, ◌∙◌, List, [], ◌∷◌, ◌++◌, Option, none, some, Bool, true, false, not, ◌||◌,
  Exn, connection_closed, Result, ok, err, arith, append-nil, append_assoc, type_error,
}
use kazoo.Base.Int.{ℤ, int_eq→eq}
use kazoo.States.{EventType}
use kazoo.Protocol.Records.{ZnodeStat}
use kazoo.Recipe.{Zookeeper, M, on_world, retry, is_no_node}
use kazoo.Recipe.Rules.{Same-retry, Keeps-bind, Keeps-handled, Keeps-Same}
use kazoo.Recipe.Watchers.Started.{new_data_watch, data_watch}
use kazoo.Recipe.Watchers.{
  Seen, version_of, version_eq, DataCall, with_event, without_event, judged, DataWatch,
  ignore_closed, stop_unless, call_if, show, spawn_or_show, missing_if, with_data, get_unless,
  get_data,
}

abbrev pub Calls : Type 0
Calls = List DataCall

abbrev pub Differs : Option (Option ℤ) → Option ℤ → Type 0
Differs none v = Unit {0}
Differs (some u) v = version_eq u v ≡ false

-- The version of the last call, from that before.
abbrev pub told_by : Option (Option ℤ) → DataCall → Option (Option ℤ)
told_by prior (with_event seen event) = some (version_of seen)
told_by prior (without_event seen) = prior

abbrev pub last_told : Option (Option ℤ) → Calls → Option (Option ℤ)
last_told prior [] = prior
last_told prior (x ∷ cs) = last_told (told_by prior x) cs

last_told-append :
    (prior : Option (Option ℤ)) (cs : Calls) (x : DataCall)
    → last_told prior (cs ++ (x ∷ [])) ≡ told_by (last_told prior cs) x
last_told-append prior [] x = refl
last_told-append prior (y ∷ cs) x = last_told-append (told_by prior y) cs x

-- The last call was one with an event, of the same data.
abbrev pub IsBehind : Calls → Seen → Type 0
IsBehind before seen =
    (others : Calls) × ((event : Option EventType) × (before
        ≡ others ++ (with_event seen event ∷ [])))

module _ (func : Calls → Result Bool) where
  -- A call behind others, the last of which had a version: it has another one, or it is the call without
  -- an event that follows on a TypeError of the one with an event, with the same data.
  abbrev pub Fits : Calls → Option (Option ℤ) → DataCall → Type 0
  Fits before prior (with_event seen event) = Differs prior (version_of seen)
  Fits before prior (without_event seen) = IsBehind before seen × (func before ≡ err type_error)

  -- Each call fits behind those before it.
  abbrev pub Changes : Calls → Option (Option ℤ) → Calls → Type 0
  Changes before prior [] = Unit {0}
  Changes before prior (x ∷ cs) =
      Fits before prior x × Changes (before ++ (x ∷ [])) (told_by prior x) cs

  Changes-append :
      (before : Calls) (prior : Option (Option ℤ)) (cs : Calls) (x : DataCall)
      → Changes before prior cs
      → Fits (before ++ cs) (last_told prior cs) x
      → Changes before prior (cs ++ (x ∷ []))
  Changes-append before prior [] x h d = (subst (λ b. Fits b prior x) (append-nil before) d, tt)
  Changes-append before prior (y ∷ cs) x h d = (
    h.0,
    Changes-append (before ++ (y ∷ [])) (told_by prior y) cs x h.1 (
        subst (λ b. Fits b (last_told (told_by prior y) cs) x)
          (sym (append_assoc before (y ∷ []) cs)) d),
  )

abbrev pub known : Bool → Option ℤ → Option (Option ℤ)
known true version = some version
known false version = none

abbrev pub IsTold : (Calls → Result Bool) → DataWatch → Type 0
IsTold func d =
    Changes func [] none d.calls × (last_told none d.calls ≡ known d.ever_called d.version)

version_eq→eq : (a b : Option ℤ) → version_eq a b ≡ true → a ≡ b
version_eq→eq none none h = refl
version_eq→eq none (some b) h = cc
version_eq→eq (some a) none h = cc
version_eq→eq (some a) (some b) h = ap some (int_eq→eq a b h)

module _ (zk : Zookeeper) (fuel : ℕ) (func : Calls → Result Bool) where
  open zk use {World}

  stop_unless-IsTold :
      (b : Bool) (s : DataWatch × World)
      → IsTold func s.0
      → IsTold func (stop_unless zk fuel func b s).0.0
  stop_unless-IsTold true s h = h
  stop_unless-IsTold false s h = h

  differs :
      (ever : Bool) (v u : Option ℤ)
      → (not (version_eq v u) || not ever) ≡ true
      → Differs (known ever v) u
  differs true v u h = ground arith
  differs false v u h = tt

  unchanged :
      (ever : Bool) (v u : Option ℤ)
      → (not (version_eq v u) || not ever) ≡ false
      → (ever ≡ true) × (v ≡ u)
  unchanged true v u h = (refl, version_eq→eq v u (ground arith))
  unchanged false v u h = ground arith

  again-IsTold :
      (seen : Seen) (d : DataWatch)
      → func d.calls ≡ err type_error
      → IsBehind d.calls seen
      → IsTold func d
      → IsTold func (record d { calls = d.calls ++ (without_event seen ∷ []) })
  again-IsTold seen d q l h = (
    Changes-append func [] none d.calls (without_event seen) h.0 (l, q),
    last_told-append none d.calls (without_event seen) ∙ h.1,
  )

  judged-IsTold :
      (seen : Seen) (d : DataWatch) (w : World) (r : Result Bool)
      → func d.calls ≡ r
      → IsBehind d.calls seen
      → IsTold func d
      → IsTold func (judged zk fuel func seen r (d, w)).0.0
  judged-IsTold seen d w (err type_error) q l h =
      let e = record d { calls = d.calls ++ (without_event seen ∷ []) } in
      Keeps-bind (IsTold func) (stop_unless zk fuel func) ((e, w), func e.calls)
        (again-IsTold seen d q l h) stop_unless-IsTold
  judged-IsTold seen d w r q l h =
      Keeps-bind (IsTold func) (stop_unless zk fuel func) ((d, w), r) h stop_unless-IsTold

  shown-IsTold :
      (b : Bool) (seen : Seen) (event : Option EventType) (d : DataWatch) (w : World)
      → (not (version_eq d.version (version_of seen)) || not d.ever_called) ≡ b
      → IsTold func d
      → IsTold func
          (call_if zk fuel func b seen event (record d { version = version_of seen }, w)).0.0
  shown-IsTold true seen event d w e h =
      let told : DataWatch = record d {
        version = version_of seen;
        ever_called = true;
        calls = d.calls ++ (with_event seen event ∷ []);
      } in
      judged-IsTold seen told w (func told.calls) refl (d.calls, (event, refl))
        (
          Changes-append func [] none d.calls (with_event seen event) h.0 (
              subst (λ k. Differs k (version_of seen)) (sym h.1)
                (differs d.ever_called d.version (version_of seen) e)),
          last_told-append none d.calls (with_event seen event),
        )
  shown-IsTold false seen event d w e h =
      let (ever, same) = unchanged d.ever_called d.version (version_of seen) e in
      (h.0, h.1 ∙ ap (known d.ever_called) same)

  show-IsTold :
      (event : Option EventType) (seen : Seen) (s : DataWatch × World)
      → IsTold func s.0
      → IsTold func (show zk fuel func event seen s).0.0
  show-IsTold event seen (d, w) h =
      shown-IsTold (not (version_eq d.version (version_of seen)) || not d.ever_called) seen event d
        w refl h

  spawn_or_show-IsTold :
      (event : Option EventType) (there : Bool) (s : DataWatch × World)
      → IsTold func s.0
      → IsTold func (spawn_or_show zk fuel func event there s).0.0
  spawn_or_show-IsTold event true s h = h
  spawn_or_show-IsTold event false s h = show-IsTold event none s h

  missing_if-IsTold :
      (event : Option EventType) (b : Bool) (e : Exn) (s : DataWatch × World)
      → IsTold func s.0
      → IsTold func (missing_if zk fuel func event b e s).0.0
  missing_if-IsTold event true e s h =
      Keeps-bind (IsTold func) (spawn_or_show zk fuel func event) (exists s)
        (Keeps-Same (IsTold func) exists
          (Same-retry zk.pause fuel (on_world (λ w. zk.exists w s.0.path)) λ t. refl) s h)
        (spawn_or_show-IsTold event)
    where
      exists : M World DataWatch Bool
      exists = retry zk.pause fuel (on_world (λ w. zk.exists w s.0.path))
  missing_if-IsTold event false e s h = h

  with_data-IsTold :
      (event : Option EventType) (r : (DataWatch × World) × Result (List ℕ × ZnodeStat))
      → IsTold func r.0.0
      → IsTold func (with_data zk fuel func event r).0.0
  with_data-IsTold event (s, ok found) h = show-IsTold event (some found) s h
  with_data-IsTold event (s, err e) h = missing_if-IsTold event (is_no_node e) e s h

  get_unless-IsTold :
      (b : Bool) (event : Option EventType) (s : DataWatch × World)
      → IsTold func s.0
      → IsTold func (get_unless zk fuel func b event s).0.0
  get_unless-IsTold true event s h = h
  get_unless-IsTold false event s h = with_data-IsTold event (get s) (
      Keeps-Same (IsTold func) get
        (Same-retry zk.pause fuel (on_world (λ w. zk.get w s.0.path)) λ t. refl) s h)
    where
      get : M World DataWatch (List ℕ × ZnodeStat)
      get = retry zk.pause fuel (on_world (λ w. zk.get w s.0.path))

  ignore_closed-IsTold :
      (e : Exn) (s : DataWatch × World)
      → IsTold func s.0
      → IsTold func (ignore_closed {W = World} {S = DataWatch} e s).0.0
  ignore_closed-IsTold connection_closed s h = h
  ignore_closed-IsTold e s h = h

  get_data-IsTold :
      (event : Option EventType) (s : DataWatch × World)
      → IsTold func s.0
      → IsTold func (get_data zk fuel func event s).0.0
  unfolding get_data
  get_data-IsTold event s h =
      Keeps-handled (IsTold func) ignore_closed (get_unless zk fuel func s.0.stopped event s)
        (get_unless-IsTold s.0.stopped event s h) ignore_closed-IsTold

  -- Watch events, one after another; none is a call that was handed to another thread.
  abbrev pub after : List (Option EventType) → DataWatch × World → DataWatch × World
  after [] s = s
  after (e ∷ es) s = after es (get_data zk fuel func e s).0

  after-IsTold :
      (es : List (Option EventType)) (s : DataWatch × World)
      → IsTold func s.0
      → IsTold func (after es s).0
  after-IsTold [] s h = h
  after-IsTold (e ∷ es) s h = after-IsTold es (get_data zk fuel func e s).0 (get_data-IsTold e s h)

  -- Whatever happens to the node, the connection and the other clients, and whatever the function answers,
  -- a `DataWatch` never calls its function twice in a row with the same version of the node, but for the
  -- second call without an event where the first one raised a TypeError: not when it begins, and not
  -- behind any sequence of watch events and of calls of `_get_data` in other threads.
  pub data_watch-Changes :
      (path : List ℕ) (events : List (Option EventType)) (w : World)
      → Changes func [] none (after events (data_watch zk fuel func path w).0).0.calls
  unfolding data_watch
  data_watch-Changes path events w =
      (after-IsTold events (data_watch zk fuel func path w).0 (
        get_data-IsTold none (record (new_data_watch path) { used = true }, zk.add_listener w)
          (tt, refl))).0
