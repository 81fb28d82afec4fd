-- ===== src/Recipe/Queue/Locking/Looking.antt =====
-- What a `LockingQueue` has when it locked and read an entry.
use mathlib.Core.Path.{subst}
use kazoo.Base.{
  ℕ, ◌≡◌, refl, sym, ◌∙◌, List, [], ◌∷◌, Option, none, some, Bool, true, false, Exn, Result,
  Bool-cases, inl, inr,
}
use kazoo.Protocol.Records.{ZnodeStat}
use kazoo.Python.Ordered.{has_text, sorted_texts, sorted}
use kazoo.Python.Ordered.Laws.{In, All-In, All-of_In, sorted-All}
use kazoo.Recipe.{Zookeeper, on_world, pure, ◌>>=◌, is_no_node, is_node_exists}
use kazoo.Recipe.Rules.{
  Returns, Returns-bind, Returns-handled, Returns-then, Returns-map, Answered, Returns-on_world,
  Returns-retry-on_world,
}
use kazoo.Recipe.Queue.{QueueState, under, retried_children, retried_get}
use kazoo.Recipe.Queue.Locking.{
  Entry, untaken, filter_locked, unless_taken, lock_entry, unless_consumed, read_entry, read_if,
  take, take_available, look,
}

-- `_filter_locked` keeps the values that are not taken, and no others.
untaken-In :
    (taken xs : List (List ℕ)) (x : List ℕ)
    → In x (untaken taken xs)
    → In x xs × (has_text x taken ≡ false)
untaken-In taken [] x h = absurd h
untaken-In taken (y ∷ ys) x h = elim (Bool-cases (has_text y taken)) [
  | inl t ↦ let r = untaken-In taken ys x (rw t at h) in (inr r.0, r.1)
  | inr f ↦
      let both : In x (y ∷ untaken taken ys) = (rw f at h) in
      elim both [
        | inl e ↦ (inl e, subst (λ z. has_text z taken ≡ false) e f)
        | inr m ↦ let r = untaken-In taken ys x m in (inr r.0, r.1)
      ]
]

sorted_texts-In : (xs : List (List ℕ)) (x : List ℕ) → In x (sorted_texts xs) → In x xs
unfolding sorted_texts
sorted_texts-In xs x m =
    All-In (λ y. In y xs) (sorted (λ t. t) xs)
      (sorted-All (λ t. t) (λ y. In y xs) xs (All-of_In (λ y. In y xs) xs (λ y i. i))) x m

pub filter_locked-In :
    (values taken : List (List ℕ)) (x : List ℕ)
    → In x (filter_locked values taken)
    → In x values × (has_text x taken ≡ false)
unfolding filter_locked
filter_locked-In values taken x m =
    let r = untaken-In taken (sorted_texts values) x m in (sorted_texts-In values x r.0, r.1)

module _ (zk : Zookeeper) (fuel : ℕ) where
  open zk use {World}

  -- The entry's lock was made for this queue.
  abbrev pub IsMade : QueueState → List ℕ → Type 0
  IsMade q name =
      (made : List ℕ) × Answered (λ w. zk.create w (under q.lock_path name) q.id true false) made

  -- Its value was read.
  abbrev pub IsRead : QueueState → List ℕ → List ℕ → Type 0
  IsRead q name bytes =
      (found : List ℕ × ZnodeStat) × ((found.0 ≡ bytes)
        × Answered (λ w. zk.get w (under q.entries_path name)) found)

  -- When the children were listed it was there and not locked.
  abbrev pub IsFree : QueueState → List ℕ → Type 0
  IsFree q name =
      (values : List (List ℕ)) × ((taken : List (List ℕ)) × ((Answered
            (λ w. zk.get_children w q.entries_path) values)
          × ((Answered (λ w. zk.get_children w q.lock_path) taken)
              × (In name values × (has_text name taken ≡ false)))))

  abbrev pub Locked : QueueState → QueueState × World → Option Entry → Type 0
  Locked q s none = Unit {0}
  Locked q s (some entry) = IsFree q entry.0 × (IsMade q entry.0 × IsRead q entry.0 entry.1)

  abbrev MadeIf : QueueState → List ℕ → QueueState × World → Bool → Type 0
  MadeIf q name t true = (t.0 ≡ q) × IsMade q name
  MadeIf q name t false = Unit {0}

  unless_taken-MadeIf :
      (q : QueueState) (name : List ℕ) (b : Bool) (e : Exn) (t : QueueState × World)
      → Returns (MadeIf q name) (unless_taken zk fuel b e t)
  unless_taken-MadeIf q name true e t = tt
  unless_taken-MadeIf q name false e t = tt

  lock_entry-MadeIf :
      (q : QueueState) (name : List ℕ) (w : World)
      → Returns (MadeIf q name) (lock_entry zk fuel name (q, w))
  lock_entry-MadeIf q name w =
      Returns-handled (MadeIf q name) (λ e. unless_taken zk fuel (is_node_exists e) e)
        ((on_world create >>= λ _. pure true) (q, w))
        (Returns-bind (λ t made. (t.0 ≡ q) × Answered create made) (MadeIf q name) (λ _. pure true)
          (on_world create (q, w)) (Returns-on_world create q w) λ t made h. (h.0, (made, h.1)))
        λ e t. unless_taken-MadeIf q name (is_node_exists e) e t
    where
      create : World → World × Result (List ℕ)
      create w = zk.create w (under q.lock_path name) q.id true false

  abbrev ReadIf : QueueState → List ℕ → QueueState × World → Option Entry → Type 0
  ReadIf q name t none = Unit {0}
  ReadIf q name t (some entry) = (entry.0 ≡ name) × IsRead q name entry.1

  unless_consumed-ReadIf :
      (q : QueueState) (name : List ℕ) (b : Bool) (e : Exn) (t : QueueState × World)
      → Returns (ReadIf q name) (unless_consumed zk fuel name b e t)
  unless_consumed-ReadIf q name true e t =
      Returns-then (ReadIf q name) (λ _. pure none)
        (on_world (λ w. zk.delete w (under t.0.lock_path name)) t) λ u _. tt
  unless_consumed-ReadIf q name false e t = tt

  read_entry-ReadIf :
      (q : QueueState) (name : List ℕ) (w : World)
      → Returns (ReadIf q name) (read_entry zk fuel name (q, w))
  read_entry-ReadIf q name w =
      Returns-handled (ReadIf q name) (λ e. unless_consumed zk fuel name (is_no_node e) e)
        ((retried_get zk fuel (under q.entries_path name) >>= λ found. pure (some (name, found.0)))
          (q, w))
        (Returns-bind (λ t found. (t.0 ≡ q) × Answered get found) (ReadIf q name)
          (λ found. pure (some (name, found.0)))
          (retried_get zk fuel (under q.entries_path name) (q, w))
          (Returns-retry-on_world get zk.pause q fuel w) λ t found h. (refl, (found, (refl, h.1))))
        λ e t. unless_consumed-ReadIf q name (is_no_node e) e t
    where
      get : World → World × Result (List ℕ × ZnodeStat)
      get w = zk.get w (under q.entries_path name)

  Locked-by :
      (q : QueueState) (name : List ℕ) (t : QueueState × World) (o : Option Entry)
      → IsFree q name
      → IsMade q name
      → ReadIf q name t o
      → Locked q t o
  Locked-by q name t none f m r = tt
  Locked-by q name t (some entry) f m r =
      subst (λ n. IsFree q n × (IsMade q n × IsRead q n entry.1)) (sym r.0) (f, (m, r.1))

  read_if-Locked :
      (q : QueueState) (name : List ℕ) (b : Bool) (t : QueueState × World)
      → IsFree q name
      → MadeIf q name t b
      → Returns (Locked q) (read_if zk fuel name b t)
  read_if-Locked q name true t f m =
      Returns-map (ReadIf q name) (Locked q) (read_entry zk fuel name t)
        (subst (λ r. Returns (ReadIf r name) (read_entry zk fuel name t)) m.0
          (read_entry-ReadIf t.0 name t.1))
        λ u o r. Locked-by q name u o f m.1 r
  read_if-Locked q name false t f m = tt

  take_available-Locked :
      (q : QueueState) (names : List (List ℕ)) (w : World)
      → ((name : List ℕ) → In name names → IsFree q name)
      → Returns (Locked q) (take_available zk fuel names (q, w))
  unfolding take
  take_available-Locked q [] w f = tt
  take_available-Locked q (name ∷ names) w f =
      Returns-bind (MadeIf q name) (Locked q) (read_if zk fuel name)
        (lock_entry zk fuel name (q, w)) (lock_entry-MadeIf q name w)
        λ t b m. read_if-Locked q name b t (f name (inl refl)) m

  pub look-Locked : (q : QueueState) (w : World) → Returns (Locked q) (look zk fuel (q, w))
  look-Locked q w =
      Returns-bind (λ t values. (t.0 ≡ q) × Answered entries values) (Locked q)
        (λ values t.
          (retried_children zk fuel q.lock_path >>= λ taken.
          take_available zk fuel (filter_locked values taken))
            t)
        (retried_children zk fuel q.entries_path (q, w))
        (Returns-retry-on_world entries zk.pause q fuel w)
        λ t values h.
          Returns-bind (λ u taken. (u.0 ≡ t.0) × Answered locks taken) (Locked q)
            (λ taken. take_available zk fuel (filter_locked values taken))
            (retried_children zk fuel q.lock_path t)
            (Returns-retry-on_world locks zk.pause t.0 fuel t.1)
            λ u taken g.
              subst
                (λ r.
                  Returns (Locked q) (take_available zk fuel (filter_locked values taken) (r, u.1)))
                (sym (g.0 ∙ h.0))
                (take_available-Locked q (filter_locked values taken) u.1
                  λ name m. (values, (taken, (h.1, (g.1, filter_locked-In values taken name m)))))
    where
      entries : World → World × Result (List (List ℕ))
      entries w = zk.get_children w q.entries_path

      locks : World → World × Result (List (List ℕ))
      locks w = zk.get_children w q.lock_path
      -- The queue as it was, and a value that is locked if there is one.
