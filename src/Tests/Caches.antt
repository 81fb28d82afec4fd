-- ===== src/Tests/Caches.antt =====
-- A cache of one node.
use kazoo.Base.{◌≡◌, refl, [], ◌∷◌, none, some, true, ok}
use kazoo.Python.Text.{codes}
use kazoo.Recipe.Cache.{
  TreeCache, new_cache, Method, get_call, children_call, got, listed, in_background, process,
  NodeData,
}
use kazoo.Recipe.Cache.Tasks.{start, do_background, get_data}
use kazoo.Recipe.Cache.Balanced.{
  IsCounted, here, then_step, starting, round, answer, do_background-IsCounted,
}
use kazoo.Tests.Servers.{stat}

-- It was started, asked for its root's data and children, and the thread took the data.
abbrev asked : TreeCache
asked = do_background (start true (new_cache (codes "/r"))).0

abbrev with_data : TreeCache
with_data = do_background (
    in_background (process 0 (got (ok (codes "x", stat))))
      (record asked { in_flight = (0, children_call) ∷ [] }))

-- The event of the new node waits in front of the children's answer.
abbrev with_children : TreeCache
with_children =
    do_background (in_background (process 0 (listed (ok []))) (record with_data { in_flight = [] }))

with_children_test : (do_background with_children).is_initialized ≡ true
unfolding do_background start new_cache kazoo.Recipe.Cache.node_at kazoo.Python.Ordered.sorted_texts
with_children_test = refl

data_test :
    get_data (codes "/r") none with_children
    ≡ ok (some (record { path = codes "/r"; bytes = codes "x"; stat = stat }))
unfolding get_data kazoo.Python.Text.starts_with kazoo.Recipe.Cache.node_at do_background start
    new_cache kazoo.Recipe.Cache.with_node kazoo.Python.Text.split
data_test = refl

do_background-IsCounted_example :
    IsCounted with_children.is_initialized (do_background with_children)
unfolding do_background start new_cache kazoo.Recipe.Cache.node_at
do_background-IsCounted_example = do_background-IsCounted (codes "/r") with_children (
    then_step
      (then_step
        (then_step
          (then_step (then_step (then_step here (starting true)) round)
            (answer [] ((0, children_call) ∷ []) 0 get_call (got (ok (codes "x", stat))) refl))
          round)
        (answer [] [] 0 children_call (listed (ok [])) refl))
      round)
