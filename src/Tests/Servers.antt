-- ===== src/Tests/Servers.antt =====
-- A server for the runs of recipes: its nodes with their data, in the order of their creation. Nobody else
-- uses it, and waits end at once.
use kazoo.Base.{
  ℕ, ◌+◌, ◌/◌, ◌%◌, List, [], ◌∷◌, ◌++◌, Option, none, some, Bool, true, false, Result, ok, err,
  zookeeper_error, if◌then◌else◌, list_eq, length, drop,
}
use kazoo.Base.Int.{pos}
use kazoo.Exceptions.{no_node_error, node_exists_error}
use kazoo.Protocol.Records.{ZnodeStat}
use kazoo.Python.Text.{codes, starts_with}
use kazoo.Recipe.{Zookeeper}

abbrev pub Nodes : Type 0
Nodes = List (List ℕ × List ℕ)

abbrev pub stat : ZnodeStat
stat = record {
  czxid = pos 1;
  mzxid = pos 7;
  ctime = pos 0;
  mtime = pos 0;
  version = pos 0;
  cversion = pos 0;
  aversion = pos 0;
  ephemeral_owner = pos 0;
  data_length = pos 0;
  num_children = pos 0;
  pzxid = pos 0;
}

-- Ten digits, for fewer than a hundred nodes.
abbrev pub sequence : ℕ → List ℕ
sequence n = codes "00000000" ++ ((b'0' + n / 10) ∷ (b'0' + n % 10) ∷ [])

abbrev pub find : List ℕ → Nodes → Option (List ℕ)
find p [] = none
find p ((q, d) ∷ ns) = let rest = find p ns in if list_eq q p then some d else rest

abbrev pub without : List ℕ → Nodes → Nodes
without p [] = []
without p ((q, d) ∷ ns) = let rest = without p ns in if list_eq q p then rest else (q, d) ∷ rest

abbrev pub below : List ℕ → Nodes → List (List ℕ)
below p [] = []
below p ((q, d) ∷ ns) =
    let rest = below p ns in if starts_with p q then drop (length p) q ∷ rest else rest

abbrev pub or_missing : Option (List ℕ) → Result (List ℕ × ZnodeStat)
or_missing none = err (zookeeper_error no_node_error)
or_missing (some d) = ok (d, stat)

abbrev pub is_there : Option (List ℕ) → Bool
is_there none = false
is_there (some d) = true

abbrev pub server : Zookeeper
server = record {
  World = Nodes;
  ensure_path = λ w p. (w, ok true);
  create = λ w p d ephemeral numbered.
      let q = if numbered then p ++ sequence (length w) else p in
      if is_there (find q w)
      then (w, err (zookeeper_error node_exists_error))
      else (w ++ ((q, d) ∷ []), ok q);
  get = λ w p. (w, or_missing (find p w));
  set = λ w p d version. (without p w ++ ((p, d) ∷ []), ok tt);
  delete = λ w p.
      if is_there (find p w)
      then (without p w, ok tt)
      else (w, err (zookeeper_error no_node_error));
  exists = λ w p. (w, ok (is_there (find p w)));
  get_children = λ w p. (w, ok (below (p ++ codes "/") w));
  sync = λ w p. (w, ok p);
  commit = λ w changes. (w, ok []);
  add_listener = λ w. w;
  remove_listener = λ w. w;
  clear = λ w. w;
  cancels = λ w. false;
  loses = λ w. false;
  new_hex = λ w. (w, codes "cafe");
  wait = λ w timeout. (w, true);
  pause = λ w. (w, none);
}
