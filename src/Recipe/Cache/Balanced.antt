-- ===== src/Recipe/Cache/Balanced.antt =====
-- A `TreeCache` counts the calls whose answers it has not processed.
use kazoo.Base.{
  ℕ, ◌+◌, ◌-◌, ◌==◌, ◌≡◌, refl, ap, ◌∙◌, List, [], ◌∷◌, ◌++◌, length, Bool, true, false, not, ◌&&◌,
  Bool-cases, inl, inr, arith, length-append, not_both,
}
use kazoo.States.{EventType, KazooState, connected, suspended, lost}
use kazoo.Recipe.Cache.{
  TreeEvent, Method, Answer, Task, run_created, run_reconnected, process, publish, stop, CacheState,
  latent, started, closed, connection_suspended, connection_reconnected, connection_lost, TreeCache,
  new_cache, is_closed, in_background, publish_event, refresh, on_reconnected, process_watch,
  initialized,
}
use kazoo.Recipe.Cache.Tasks.{
  take_answer, count_down, process_result, run_task, background_on, do_background, session_watcher,
  start, start_from, close, close_from,
}
use kazoo.Recipe.Cache.Owes.{
  answers, answers-append, Owes, in_background-Owes, publish_event-Owes, refresh-Owes,
  on_reconnected-Owes, on_deleted-Owes, process_watch-Owes, take_answer-Owes,
}

-- The count is right, and if the cache has become initialized, no answer is to come or waits.
abbrev pub IsCounted : Bool → TreeCache → Type 0
IsCounted b c =
    (c.outstanding ≡ length c.in_flight + answers c.tasks)
    × (b ≡ false → c.is_initialized ≡ true → (c.in_flight ≡ []) × (answers c.tasks ≡ 0))

empty : {A : Type 0} (xs : List A) → length xs ≡ 0 → xs ≡ []
empty [] h = refl
empty (x ∷ xs) h = absurd (omega arith)

kept-IsCounted : (b : Bool) (c : TreeCache) → Owes 0 b c → IsCounted b c
kept-IsCounted b c h = (omega (arith, h.0), λ f t. absurd (not_both _ t (h.1 ∙ f)))

publish_event-outstanding :
    (e : TreeEvent) (c : TreeCache) → (publish_event e c).outstanding ≡ c.outstanding
unfolding publish_event
publish_event-outstanding e c = elim (Bool-cases (is_closed c.state)) [
  | inl t ↦ rw t refl
  | inr f ↦ rw f refl
]

-- The last answer.
told-IsCounted :
    (b : Bool) (c : TreeCache)
    → Owes 0 true c
    → c.outstanding ≡ 0
    → IsCounted b (publish_event initialized c)
told-IsCounted b c h e =
    let g : Owes 0 true (publish_event initialized c) = publish_event-Owes 0 true initialized c h in
    let o : (publish_event initialized c).outstanding ≡ 0 =
      publish_event-outstanding initialized c ∙ e in
    (
      omega (arith, g.0),
      λ _ _. (
        empty (publish_event initialized c).in_flight (omega (arith, g.0, o)),
        omega (arith, g.0, o),
      ),
    )

count_down-IsCounted : (b : Bool) (c : TreeCache) → Owes 1 b c → IsCounted b (count_down c)
unfolding count_down
count_down-IsCounted b c h =
    let c' = record c { outstanding = c.outstanding - 1 } in
    let h' : Owes 0 b c' = (omega (arith, h.0), h.1) in
    elim (Bool-cases ((c'.outstanding == 0) && not c'.is_initialized)) [
      | inl t ↦
          rw t (
            told-IsCounted b (record c' { is_initialized = true }) (h'.0, refl) (ground (arith, t)))
      | inr f ↦ rw f (kept-IsCounted b c' h')
    ]

run_task-IsCounted :
    (b : Bool) (t : Task) (c : TreeCache) → Owes (answers (t ∷ [])) b c → IsCounted b (run_task t c)
unfolding run_task process_result
run_task-IsCounted b (run_created n) c h = kept-IsCounted b (refresh n c) (refresh-Owes 0 b n c h)
run_task-IsCounted b (run_reconnected n) c h =
    kept-IsCounted b (on_reconnected (length c.nodes) n c)
      (on_reconnected-Owes 0 b (length c.nodes) n c h)
run_task-IsCounted b (process n a) c h =
    count_down-IsCounted b (take_answer n a c) (take_answer-Owes 1 b n a c h)
run_task-IsCounted b (publish e) c h = kept-IsCounted b (record c { told = c.told ++ (e ∷ []) }) h
run_task-IsCounted b stop c h = kept-IsCounted b c h

background_on-IsCounted :
    (ts : List Task) (c : TreeCache)
    → c.tasks ≡ ts
    → c.outstanding ≡ length c.in_flight + answers ts
    → IsCounted c.is_initialized (background_on ts c)
background_on-IsCounted [] c e h =
    kept-IsCounted c.is_initialized c (omega (arith, h, ap answers e), refl)
background_on-IsCounted (stop ∷ ts) c e h =
    kept-IsCounted c.is_initialized c (omega (arith, h, ap answers e), refl)
background_on-IsCounted (process n a ∷ ts) c e h =
    run_task-IsCounted c.is_initialized (process n a) (record c { tasks = ts })
      (omega (arith, h), refl)
background_on-IsCounted (publish v ∷ ts) c e h =
    run_task-IsCounted c.is_initialized (publish v) (record c { tasks = ts })
      (omega (arith, h), refl)
background_on-IsCounted (run_created n ∷ ts) c e h =
    run_task-IsCounted c.is_initialized (run_created n) (record c { tasks = ts })
      (omega (arith, h), refl)
background_on-IsCounted (run_reconnected n ∷ ts) c e h =
    run_task-IsCounted c.is_initialized (run_reconnected n) (record c { tasks = ts })
      (omega (arith, h), refl)

-- What happens to a cache: a round of its thread, a watch event, a change of the connection's state, an
-- answer to any of the calls in flight, and `start` and `close`.
pub data Step : TreeCache → TreeCache → Type 0 where
  round : {c : TreeCache} → Step c (do_background c)
  event : {c : TreeCache} (n : ℕ) (e : EventType) → Step c (process_watch n e c)
  session : {c : TreeCache} (s : KazooState) → Step c (session_watcher s c)
  answer :
      {c : TreeCache} (before after : List (ℕ × Method)) (n : ℕ) (m : Method) (a : Answer)
      → c.in_flight ≡ before ++ ((n, m) ∷ after)
      → Step c (in_background (process n a) (record c { in_flight = before ++ after }))
  starting : {c : TreeCache} (b : Bool) → Step c (start b c).0
  closing : {c : TreeCache} → Step c (close c)

pub data Steps : TreeCache → TreeCache → Type 0 where
  here : {c : TreeCache} → Steps c c
  then_step : {c d e : TreeCache} → Steps c d → Step d e → Steps c e

abbrev IsBalanced : TreeCache → Type 0
IsBalanced c = c.outstanding ≡ 0 + (length c.in_flight + answers c.tasks)

session_watcher-IsBalanced :
    (s : KazooState) (c : TreeCache) → IsBalanced c → IsBalanced (session_watcher s c)
unfolding session_watcher
session_watcher-IsBalanced suspended c h =
    (publish_event-Owes 0 c.is_initialized connection_suspended c (h, refl)).0
session_watcher-IsBalanced connected c h =
    (publish_event-Owes 0 c.is_initialized connection_reconnected
      (in_background (run_reconnected 0) c)
      (in_background-Owes 0 c.is_initialized (run_reconnected 0) c refl (h, refl))).0
session_watcher-IsBalanced lost c h =
    (publish_event-Owes 0 false connection_lost (record c { is_initialized = false }) (h, refl)).0

start_from-IsBalanced :
    (s : CacheState) (b : Bool) (c : TreeCache) → IsBalanced c → IsBalanced (start_from s b c).0
start_from-IsBalanced latent true c h =
    (in_background-Owes 0 c.is_initialized (run_created 0) c refl (h, refl)).0
start_from-IsBalanced latent false c h = h
start_from-IsBalanced started b c h = h
start_from-IsBalanced closed b c h = h

close_from-IsBalanced :
    (s : CacheState) (c : TreeCache) → IsBalanced c → IsBalanced (close_from s c)
close_from-IsBalanced started c h =
    (on_deleted-Owes 0 c.is_initialized (length c.nodes) 0
      (in_background stop (record c { state = closed }))
      (in_background-Owes 0 c.is_initialized stop c refl (h, refl))).0
close_from-IsBalanced latent c h = h
close_from-IsBalanced closed c h = h

Step-IsBalanced : {c d : TreeCache} → Step c d → IsBalanced c → IsBalanced d
unfolding do_background start close
Step-IsBalanced {c} round h =
    omega (arith, (background_on-IsCounted c.tasks c refl (omega (arith, h))).0)
Step-IsBalanced {c} (event n e) h = (process_watch-Owes 0 c.is_initialized n e c (h, refl)).0
Step-IsBalanced {c} (session s) h = session_watcher-IsBalanced s c h
Step-IsBalanced {c} (answer before after n m a e) h = omega (
  arith,
  h,
  ap length e,
  length-append before ((n, m) ∷ after),
  length-append before after,
  answers-append c.tasks (process n a ∷ []),
)
Step-IsBalanced {c} (starting b) h = start_from-IsBalanced c.state b c h
Step-IsBalanced {c} closing h = close_from-IsBalanced c.state c h

Steps-IsBalanced : {c d : TreeCache} → Steps c d → IsBalanced c → IsBalanced d
Steps-IsBalanced here h = h
Steps-IsBalanced (then_step ss s) h = Step-IsBalanced s (Steps-IsBalanced ss h)

-- Whatever happened to a cache since it was made, `_outstanding_ops` is the number of the calls whose
-- answers have not come and of the answers that wait for the thread; and where a round of the thread
-- makes the cache initialized, no answer is to come and none waits.
pub do_background-IsCounted :
    (path : List ℕ) (c : TreeCache)
    → Steps (new_cache path) c
    → IsCounted c.is_initialized (do_background c)
unfolding do_background new_cache
do_background-IsCounted path c ss =
    background_on-IsCounted c.tasks c refl (omega (arith, Steps-IsBalanced ss refl))
