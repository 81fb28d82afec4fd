-- ===== src/Recipe/Queue/Order.antt =====
-- A queue gives the entries of a lower priority number first, and those of the same in their order.
use mathlib.Core.Path.{subst}
use kazoo.Base.{
  ℕ, ◌≤◌, ◌≡◌, ◌≢◌, refl, sym, ap, ◌∙◌, Exn, List, [], ◌∷◌, ◌++◌, Bool, true, false, ◌&&◌, ◌||◌,
  ltb, ◌==◌, arith, Option, none, some, ok,
}
use kazoo.Python.Ordered.{text_lt, sorted_texts, placed, sorted}
use kazoo.Protocol.Records.{ZnodeStat}
use kazoo.Recipe.{Zookeeper, on_world, catch, ◌>>=◌, update, pure, is_no_node}
use kazoo.Recipe.Rules.{
  Returns, Returns-eq, Returns-bind, Returns-handled, Answered, Returns-on_world,
  Returns-retry-on_world,
}
use kazoo.Recipe.Queue.{
  QueueState, entry_prefix, three_digits, under, inner_get, refill, take_first, get_and_delete,
  retried_children, forget_if,
}

-- The name of an entry: the server appends the sequence number.
abbrev pub entry_name : ℕ → List ℕ → List ℕ
entry_name p s = entry_prefix p ++ s

three_digits_lt :
    (p q : ℕ) (s t : List ℕ)
    → p ≤ 999
    → q ≤ 999
    → text_lt (three_digits p ++ s) (three_digits q ++ t) ≡ (ltb p q || ((p == q) && text_lt s t))
three_digits_lt p q s t hp hq = ground arith

-- Of two entries' names, the one with the lower priority comes first, and with equal priorities the one
-- with the lower sequence number.
pub entry_name_lt :
    (p q : ℕ) (s t : List ℕ)
    → p ≤ 999
    → q ≤ 999
    → text_lt (entry_name p s) (entry_name q t) ≡ (ltb p q || ((p == q) && text_lt s t))
entry_name_lt p q s t hp hq = three_digits_lt p q (b'-' ∷ s) (b'-' ∷ t) hp hq

placed_not_empty : (x : List ℕ) (ys : List (List ℕ)) → placed (λ t. t) x ys ≢ []
unfolding placed
placed_not_empty x [] h = cc
placed_not_empty x (y ∷ ys) h = ground arith

sorted_texts-empty : (xs : List (List ℕ)) → sorted_texts xs ≡ [] → xs ≡ []
unfolding sorted_texts sorted
sorted_texts-empty [] h = refl
sorted_texts-empty (x ∷ xs) h = absurd (placed_not_empty x (sorted (λ t. t) xs) h)

-- The names that `_inner_get` goes through: those that were left, or those of the children, in order.
module _ (zk : Zookeeper) where
  open zk use {World}

  -- The names that are left over; if there are none, the children, in order.
  abbrev pub IsListedFrom : List (List ℕ) → List ℕ → List (List ℕ) → Type 0
  IsListedFrom (name ∷ names) path listed = listed ≡ name ∷ names
  IsListedFrom [] path listed =
      (names : List (List ℕ)) × ((listed ≡ sorted_texts names)
        × Answered (λ w. zk.get_children w path) names)

  abbrev pub IsListed : QueueState → List (List ℕ) → Type 0
  IsListed q listed = IsListedFrom q.cached q.path listed

  -- The first name was read and deleted, and the others are left. None is given where no name was left
  -- over and the servers listed no child.
  abbrev pub IsTaken : QueueState → QueueState × World → Option (List ℕ) → Type 0
  IsTaken q s none = (q.cached ≡ []) × Answered (λ w. zk.get_children w q.path) []
  IsTaken q s (some bytes) =
      (name : List ℕ) × ((IsListed q (name ∷ s.0.cached))
        × (((found : List ℕ × ZnodeStat) × ((found.0 ≡ bytes)
                × Answered (λ w. zk.get w (under q.path name)) found))
            × (Answered (λ w. zk.delete w (under q.path name)) tt)))

  nothing_listed :
      (cached : List (List ℕ)) (path : List ℕ)
      → IsListedFrom cached path []
      → (cached ≡ []) × Answered (λ w. zk.get_children w path) []
  nothing_listed (name ∷ names) path h = absurd (not_nil h)
    where
      not_nil : {x : List ℕ} {xs : List (List ℕ)} → [] ≡ x ∷ xs → ⊥
      not_nil e = cc
  nothing_listed [] path (names, (e, a)) =
      (refl, subst (Answered (λ w. zk.get_children w path)) (sorted_texts-empty names (sym e)) a)

  abbrev Refilled : QueueState → QueueState × World → Unit {0} → Type 0
  Refilled q s _ = IsListed q s.0.cached × (s.0.path ≡ q.path)

  refill-Refilled :
      (fuel : ℕ) (q : QueueState) (w : World) (cached : List (List ℕ))
      → q.cached ≡ cached
      → Returns (Refilled q) (refill zk fuel cached (q, w))
  refill-Refilled fuel q w (name ∷ names) e =
      (subst (λ l. IsListedFrom l q.path q.cached) (sym e) e, refl)
  refill-Refilled fuel q w [] e =
      Returns-bind (λ t names. (t.0 ≡ q) × Answered (λ v. zk.get_children v q.path) names)
        (Refilled q) (λ names. update (λ q'. record q' { cached = sorted_texts names }))
        (retried_children zk fuel q.path (q, w))
        (Returns-retry-on_world (λ v. zk.get_children v q.path) zk.pause q fuel w)
        λ t names h. (
          subst (λ l. IsListedFrom l q.path (sorted_texts names)) (sym e) (names, (refl, h.1)),
          ap (λ r. r.path) h.0,
        )

  -- What `get` and then `delete` answered for a path.
  abbrev Emptied : List ℕ → QueueState → QueueState × World → List ℕ → Type 0
  Emptied path q s bytes =
      (s.0 ≡ q)
      × (((found : List ℕ × ZnodeStat) × ((found.0 ≡ bytes) × Answered (λ w. zk.get w path) found))
          × Answered (λ w. zk.delete w path) tt)

  get_and_delete-Emptied :
      (path : List ℕ) (q : QueueState) (w : World)
      → Returns (Emptied path q) (get_and_delete zk path (q, w))
  get_and_delete-Emptied path q w =
      Returns-bind (λ t found. (t.0 ≡ q) × Answered (λ v. zk.get v path) found) (Emptied path q)
        (λ found. on_world (λ v. zk.delete v path) >>= λ _. pure found.0)
        (on_world (λ v. zk.get v path) (q, w)) (Returns-on_world (λ v. zk.get v path) q w)
        λ t found h.
          Returns-bind (λ u done. (u.0 ≡ t.0) × Answered (λ v. zk.delete v path) done)
            (Emptied path q) (λ _. pure found.0) (on_world (λ v. zk.delete v path) t)
            (Returns-on_world (λ v. zk.delete v path) t.0 t.1)
            λ u done g. (g.0 ∙ h.0, ((found, (refl, h.1)), g.1))

  forget_if-Returns :
      (Q : QueueState × World → List ℕ → Type 0) (b : Bool) (e : Exn) (s : QueueState × World)
      → Returns Q (forget_if zk b e s)
  forget_if-Returns Q true e s = tt
  forget_if-Returns Q false e s = tt

  take_first-IsTaken :
      (q : QueueState) (s : QueueState × World) (cached : List (List ℕ))
      → IsListed q cached
      → s.0.path ≡ q.path
      → Returns (IsTaken q) (take_first zk cached s)
  take_first-IsTaken q s [] l p = nothing_listed q.cached q.path l
  take_first-IsTaken q s (name ∷ names) l p =
      Returns-bind (Emptied (under s.0.path name) s.0) (IsTaken q)
        (λ bytes. update (λ q'. record q' { cached = names }) >>= λ _. pure (some bytes))
        (catch (get_and_delete zk (under s.0.path name)) (λ e. forget_if zk (is_no_node e) e) s)
        (Returns-handled (Emptied (under s.0.path name) s.0) (λ e. forget_if zk (is_no_node e) e)
          (get_and_delete zk (under s.0.path name) s)
          (get_and_delete-Emptied (under s.0.path name) s.0 s.1)
          λ e t. forget_if-Returns (Emptied (under s.0.path name) s.0) (is_no_node e) e t)
        λ t bytes h. (
          name,
          (
            l,
            subst
                (λ path.
                  ((found : List ℕ × ZnodeStat) × ((found.0 ≡ bytes)
                      × Answered (λ w. zk.get w (under path name)) found))
                  × Answered (λ w. zk.delete w (under path name)) tt)
                p h.1,
          ),
        )

  inner_get-Returns :
      (fuel : ℕ) (q : QueueState) (w : World) → Returns (IsTaken q) (inner_get zk fuel (q, w))
  unfolding inner_get
  inner_get-Returns fuel q w =
      Returns-bind (Refilled q) (IsTaken q) (λ _ s. take_first zk s.0.cached s)
        (refill zk fuel q.cached (q, w)) (refill-Refilled fuel q w q.cached refl)
        λ s _ h. take_first-IsTaken q s s.0.cached h.0 h.1

  -- If `_inner_get` of a `Queue` returns a value, it is what the servers had for the first name of those
  -- that were left over or, if none were, of the children in order, and the servers deleted that node;
  -- the other names are left over. If it returns None, no name was left over and the servers listed no
  -- child.
  pub inner_get-IsTaken :
      (fuel : ℕ) (q : QueueState) (w : World) (s : QueueState × World) (result : Option (List ℕ))
      → inner_get zk fuel (q, w) ≡ (s, ok result)
      → IsTaken q s result
  inner_get-IsTaken fuel q w s result h =
      Returns-eq (IsTaken q) (inner_get zk fuel (q, w)) s result (inner_get-Returns fuel q w) h
