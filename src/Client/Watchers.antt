-- ===== src/Client/Watchers.antt =====
-- `_data_watchers` and `_child_watchers`: a dictionary from paths to sets of watchers.
use kazoo.Base.{ℕ, List, [], ◌∷◌, ◌++◌, ◌==◌, ◌≡◌, arith, list_eq, list_eq_iff, if◌then◌else◌}

abbrev pub WatcherMap : Type 0
WatcherMap = List (List ℕ × List ℕ)

-- d.get(path, [])
unfoldable pub watching : List ℕ → WatcherMap → List ℕ
watching path [] = []
watching path ((p, ws) ∷ d) = if list_eq p path then ws else watching path d

-- The dictionary after d.pop(path, [])
unfoldable pub without : List ℕ → WatcherMap → WatcherMap
without path [] = []
without path ((p, ws) ∷ d) =
    let rest = without path d in if list_eq p path then rest else (p, ws) ∷ rest

-- A set after s.add(w)
unfoldable pub set_add : ℕ → List ℕ → List ℕ
set_add w [] = w ∷ []
set_add w (v ∷ vs) = if v == w then v ∷ vs else v ∷ set_add w vs

-- d[path].add(w), where a missing path starts with the empty set
unfoldable pub watch : List ℕ → ℕ → WatcherMap → WatcherMap
unfolding set_add
watch path w [] = (path, w ∷ []) ∷ []
watch path w ((p, ws) ∷ d) =
    if list_eq p path then (p, set_add w ws) ∷ d else (p, ws) ∷ watch path w d

-- The watchers of all paths
unfoldable pub all_watchers : WatcherMap → List ℕ
all_watchers [] = []
all_watchers ((p, ws) ∷ d) = ws ++ all_watchers d

-- Taking a path out leaves the watchers of every other path alone.
pub watching-without :
    (path q : List ℕ) (d : WatcherMap)
    → watching q (without path d) ≡ (if list_eq path q then [] else watching q d)
unfolding watching without
watching-without path q [] = ground arith
watching-without path q ((p, ws) ∷ d) =
    ground
      (arith, watching-without path q d, list_eq_iff p path, list_eq_iff p q, list_eq_iff path q)

-- Registering a watcher adds it to the watchers of its path, and leaves those of every other path
-- alone.
pub watching-watch :
    (path q : List ℕ) (w : ℕ) (d : WatcherMap)
    → watching q (watch path w d)
      ≡ (if list_eq path q then set_add w (watching path d) else watching q d)
unfolding watching watch
watching-watch path q w [] = ground arith
watching-watch path q w ((p, ws) ∷ d) =
    ground
      (arith, watching-watch path q w d, list_eq_iff p path, list_eq_iff p q, list_eq_iff path q)

pub ruleset watch_laws = (watching-without, watching-watch)
