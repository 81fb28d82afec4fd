-- ===== src/Recipe/Cache/Owes.antt =====
-- What a `TreeCache` does to its count of calls.
use kazoo.Base.{
  ℕ, zero, suc, ◌+◌, ◌≡◌, refl, List, [], ◌∷◌, ◌++◌, length, Option, none, some, Bool, true, false,
  ok, err, arith, length-append, if◌then◌else◌,
}
use kazoo.States.{EventType, created, deleted, changed, child}
use kazoo.Python.Ordered.{sorted_texts}
use kazoo.Recipe.{is_no_node}
use kazoo.Recipe.Cache.{
  NodeData, TreeEvent, Method, Answer, got, listed, checked, Task, run_created, run_reconnected,
  process, publish, stop, TreeCache, is_closed, is_live, node, put, in_background, publish_event,
  call_client, refresh, each, numbers, on_reconnected, child_of, leave_parent, bury, on_deleted,
  process_watch, is_root, get_call, children_call, exists_call, node_removed, node_added,
  node_updated, dead, reset_watchers,
}
use kazoo.Recipe.Cache.Tasks.{
  revived, add_child, add_children, is_newer, event_of, deleted_if, take_answer,
}

-- How many answers wait in a queue.
abbrev pub answers : List Task → ℕ
answers [] = 0
answers (process n a ∷ ts) = 1 + answers ts
answers (t ∷ ts) = answers ts

pub answers-append : (ts us : List Task) → answers (ts ++ us) ≡ answers ts + answers us
answers-append [] us = omega arith
answers-append (process n a ∷ ts) us = omega (arith, answers-append ts us)
answers-append (run_created n ∷ ts) us = answers-append ts us
answers-append (run_reconnected n ∷ ts) us = answers-append ts us
answers-append (publish e ∷ ts) us = answers-append ts us
answers-append (stop ∷ ts) us = answers-append ts us

-- The count is that of the calls without an answer and of the answers that wait, and more; and whether
-- the cache is initialized.
abbrev pub Owes : ℕ → Bool → TreeCache → Type 0
Owes k b c = (c.outstanding ≡ k + (length c.in_flight + answers c.tasks)) × (c.is_initialized ≡ b)

module _ (k : ℕ) (b : Bool) where
  either-Owes :
      (t : Bool) (c d : TreeCache) → Owes k b c → Owes k b d → Owes k b (if t then c else d)
  either-Owes true c d h g = h
  either-Owes false c d h g = g

  pub in_background-Owes :
      (t : Task) (c : TreeCache) → answers (t ∷ []) ≡ 0 → Owes k b c → Owes k b (in_background t c)
  in_background-Owes t c e h = (omega (arith, h.0, answers-append c.tasks (t ∷ []), e), h.1)

  pub publish_event-Owes :
      (e : TreeEvent) (c : TreeCache) → Owes k b c → Owes k b (publish_event e c)
  unfolding publish_event
  publish_event-Owes e c h =
      either-Owes (is_closed c.state) c (in_background (publish e) c) h
        (in_background-Owes (publish e) c refl h)

  call_client-Owes :
      (m : Method) (n : ℕ) (c : TreeCache) → Owes k b c → Owes k b (call_client m n c)
  unfolding call_client
  call_client-Owes m n c h = (omega (arith, h.0, length-append c.in_flight ((n, m) ∷ [])), h.1)

  pub refresh-Owes : (n : ℕ) (c : TreeCache) → Owes k b c → Owes k b (refresh n c)
  unfolding refresh
  refresh-Owes n c h =
      call_client-Owes children_call n (call_client get_call n c) (call_client-Owes get_call n c h)

  each-Owes :
      (f : ℕ → TreeCache → TreeCache) (ns : List ℕ) (c : TreeCache)
      → ((n : ℕ) (d : TreeCache) → Owes k b d → Owes k b (f n d))
      → Owes k b c
      → Owes k b (each f ns c)
  unfolding each
  each-Owes f [] c g h = h
  each-Owes f (n ∷ ns) c g h = each-Owes f ns (f n c) g (g n c h)

  pub on_reconnected-Owes :
      (fuel n : ℕ) (c : TreeCache) → Owes k b c → Owes k b (on_reconnected fuel n c)
  unfolding on_reconnected
  on_reconnected-Owes zero n c h = h
  on_reconnected-Owes (suc fuel) n c h =
      each-Owes (on_reconnected fuel) (numbers (node c n).children) (refresh n c)
        (on_reconnected-Owes fuel) (refresh-Owes n c h)

  leave_parent-Owes :
      (n : ℕ) (p : Option ℕ) (c : TreeCache) → Owes k b c → Owes k b (leave_parent n p c)
  unfolding leave_parent
  leave_parent-Owes n none c h = call_client-Owes exists_call n c h
  leave_parent-Owes n (some p) c h = ground arith

  bury-Owes : (n : ℕ) (d : Option NodeData) (c : TreeCache) → Owes k b c → Owes k b (bury n d c)
  unfolding bury
  bury-Owes n d c h =
      let c' = put n (record (node c n) { state = dead }) c in
      leave_parent-Owes n (node c n).parent
        (if is_live (node c n).state then publish_event (node_removed d) c' else c')
        (either-Owes (is_live (node c n).state) (publish_event (node_removed d) c') c'
          (publish_event-Owes (node_removed d) c' h) h)

  pub on_deleted-Owes : (fuel n : ℕ) (c : TreeCache) → Owes k b c → Owes k b (on_deleted fuel n c)
  unfolding on_deleted
  on_deleted-Owes zero n c h = h
  on_deleted-Owes (suc fuel) n c h =
      let c' =
        each (on_deleted fuel) (numbers (node c n).children)
          (put n (record (node c n) { children = []; data_of = none }) c) in
      let h' : Owes k b c' =
        each-Owes (on_deleted fuel) (numbers (node c n).children)
          (put n (record (node c n) { children = []; data_of = none }) c) (on_deleted-Owes fuel)
          h in
      either-Owes (is_closed c'.state) (reset_watchers n c') (bury n (node c n).data_of c') h'
        (bury-Owes n (node c n).data_of c' h')

  pub process_watch-Owes :
      (n : ℕ) (e : EventType) (c : TreeCache) → Owes k b c → Owes k b (process_watch n e c)
  unfolding process_watch
  process_watch-Owes n created c h =
      either-Owes (is_root n c) (refresh n c) c (refresh-Owes n c h) h
  process_watch-Owes n deleted c h = on_deleted-Owes (length c.nodes) n c h
  process_watch-Owes n changed c h = call_client-Owes get_call n c h
  process_watch-Owes n child c h = call_client-Owes children_call n c h
  process_watch-Owes n EventType.nothing c h = h

  add_child-Owes :
      (n : ℕ) (name : List ℕ) (k' : Option ℕ) (c : TreeCache)
      → Owes k b c
      → Owes k b (add_child n name k' c)
  add_child-Owes n name (some m) c h = h
  add_child-Owes n name none c h = refresh-Owes (length c.nodes) _ h

  add_children-Owes :
      (n : ℕ) (names : List (List ℕ)) (c : TreeCache)
      → Owes k b c
      → Owes k b (add_children n names c)
  unfolding add_children
  add_children-Owes n [] c h = h
  add_children-Owes n (name ∷ names) c h =
      add_children-Owes n names (add_child n name (child_of name (node c n).children) c)
        (add_child-Owes n name (child_of name (node c n).children) c h)

  event_of-Owes :
      (t newer : Bool) (d : NodeData) (c : TreeCache) → Owes k b c → Owes k b (event_of t newer d c)
  event_of-Owes true true d c h = publish_event-Owes (node_updated (some d)) c h
  event_of-Owes true false d c h = h
  event_of-Owes false newer d c h = publish_event-Owes (node_added (some d)) c h

  deleted_if-Owes : (t : Bool) (n : ℕ) (c : TreeCache) → Owes k b c → Owes k b (deleted_if t n c)
  deleted_if-Owes true n c h = on_deleted-Owes (length c.nodes) n c h
  deleted_if-Owes false n c h = h

  pub take_answer-Owes :
      (n : ℕ) (a : Answer) (c : TreeCache) → Owes k b c → Owes k b (take_answer n a c)
  unfolding take_answer
  take_answer-Owes n (checked (ok true)) c h =
      refresh-Owes n (put n (record (node c n) { state = revived (node c n).state }) c) h
  take_answer-Owes n (checked (ok false)) c h = h
  take_answer-Owes n (checked (err e)) c h = h
  take_answer-Owes n (listed (ok names)) c h = add_children-Owes n (sorted_texts names) c h
  take_answer-Owes n (listed (err e)) c h = deleted_if-Owes (is_no_node e) n c h
  take_answer-Owes n (got (ok (bytes, stat))) c h =
      event_of-Owes (is_live (node c n).state) (is_newer (node c n).data_of stat) _ _ h
  take_answer-Owes n (got (err e)) c h = deleted_if-Owes (is_no_node e) n c h
