-- ===== src/Recipe/Lock/Predecessor.antt =====
-- Which child `_get_predecessor` chooses.
use mathlib.Core.Path.{subst}
use kazoo.Base.{
  ℕ, ◌≡◌, refl, List, [], ◌∷◌, Bool, true, false, Option, none, some, Result, ok, err, inl, inr,
  All, Bool-cases, Option-cases, force_retry_error,
}
use kazoo.Python.Ordered.{text_lt, has_text, sorted, last}
use kazoo.Python.Ordered.Laws.{
  In, IsSorted, NotLess, All-In, All-of_In, has_text-In, sorted-All, All-sorted, sorted-IsSorted,
  last-In, last-IsSorted,
}
use kazoo.Recipe.Lock.{
  Lock, Match, group, search_in, matches, kept_if, node_sequence, last_of, predecessor_of,
}

module _ (ps : List (List ℕ)) (test : List ℕ → Bool) where
  -- A match stands for a child whose group passes the test.
  abbrev IsMatch : List (List ℕ) → Match → Type 0
  IsMatch cs m = In m.1 cs × (search_in ps m.1 ≡ some m.0) × (test m.0 ≡ true)

  wider : (child : List ℕ) (cs : List (List ℕ)) (m : Match) → IsMatch cs m → IsMatch (child ∷ cs) m
  wider child cs m h = (inr h.0, h.1, h.2)

  matches-IsMatch : (cs : List (List ℕ)) (m : Match) → In m (matches ps test cs) → IsMatch cs m
  unfolding matches
  matches-IsMatch [] m h = absurd h
  matches-IsMatch (child ∷ cs) m h = elim (Option-cases (search_in ps child)) [
    | inl e ↦ wider child cs m (matches-IsMatch cs m (rw e at h))
    | inr (g, e) ↦ elim (Bool-cases (test g)) [
      | inl t ↦
          let both : In m ((g, child) ∷ matches ps test cs) = (rw (e, t) at h) in
          elim both [
            | inl same ↦ subst (IsMatch (child ∷ cs)) same (inl refl, e, t)
            | inr later ↦ wider child cs m (matches-IsMatch cs m later)
          ]
      | inr f ↦ wider child cs m (matches-IsMatch cs m (rw (e, f) at h))
    ]
  ]

  kept_if-In :
      (m : Match) (o : Option (List ℕ)) (child : List ℕ) (rest : List Match)
      → In m rest
      → In m (kept_if test o child rest)
  kept_if-In m none child rest h = h
  kept_if-In m (some g) child rest h = elim (Bool-cases (test g)) [
    | inl t ↦ rw t (inr h)
    | inr f ↦ rw f h
  ]

  IsMatch-matches :
      (cs : List (List ℕ)) (g child : List ℕ)
      → In child cs
      → search_in ps child ≡ some g
      → test g ≡ true
      → In (g, child) (matches ps test cs)
  unfolding matches
  IsMatch-matches [] g child m e t = absurd m
  IsMatch-matches (c ∷ cs) g child (inl same) e t = rw (same, e, t) (inl refl)
  IsMatch-matches (c ∷ cs) g child (inr later) e t =
      kept_if-In (g, child) (search_in ps c) c (matches ps test cs)
        (IsMatch-matches cs g child later e t)

-- A contender that stands before a node.
abbrev pub Before : Lock → List ℕ → List ℕ → List ℕ → Type 0
Before l node child g =
    (search_in l.patterns child ≡ some g) × (text_lt g (node_sequence l node) ≡ true)

-- The last contender before the node.
abbrev pub IsPredecessor : Lock → List ℕ → List (List ℕ) → List ℕ → Type 0
IsPredecessor l node children p =
    (g : List ℕ) × (In p children
      × (Before l node p g
          × ((child h : List ℕ) → In child children → Before l node child h → text_lt g h ≡ false)))

-- Nobody stands before the node.
abbrev pub IsFirst : Lock → List ℕ → List (List ℕ) → Type 0
IsFirst l node children =
    (child g : List ℕ)
    → In child children
    → search_in l.patterns child ≡ some g
    → text_lt g (node_sequence l node) ≡ false

-- What the result says of the children.
abbrev pub Chosen : Lock → List ℕ → List (List ℕ) → Result (Option (List ℕ)) → Type 0
Chosen l node children (ok none) = In node children × IsFirst l node children
Chosen l node children (ok (some p)) = In node children × IsPredecessor l node children p
Chosen l node children (err e) = (e ≡ force_retry_error) × (has_text node children ≡ false)

module _ (l : Lock) (node : List ℕ) (children : List (List ℕ)) where
  abbrev test : List ℕ → Bool
  test g = text_lt g (node_sequence l node)

  abbrev contenders : List Match
  contenders = matches l.patterns test children

  IsFirst-case : sorted group contenders ≡ [] → IsFirst l node children
  IsFirst-case e child g m s = elim (Bool-cases (test g)) [
    | inl t ↦
        let none_kept : All (λ _. ⊥) (sorted group contenders) = rw e tt in
        absurd (
          All-In (λ _. ⊥) contenders (All-sorted group (λ _. ⊥) contenders none_kept) (g, child)
            (IsMatch-matches l.patterns test children g child m s t))
    | inr f ↦ f
  ]

  last_case :
      (m : Match) (ms : List Match)
      → sorted group contenders ≡ m ∷ ms
      → IsPredecessor l node children (last m ms).1
  last_case m ms e =
      let top = last m ms in
      let found =
        All-In (IsMatch l.patterns test children) (m ∷ ms)
          (subst (All (IsMatch l.patterns test children)) e (
            sorted-All group (IsMatch l.patterns test children) contenders (
              All-of_In (IsMatch l.patterns test children) contenders
                (matches-IsMatch l.patterns test children))))
          top (last-In group m ms) in
      let greatest =
        All-sorted group (λ y. NotLess group y top) contenders
          (rw e (
            last-IsSorted group m ms
              (subst (λ q. IsSorted group q) e (sorted-IsSorted group contenders)))) in
      (
        top.0,
        (
          found.0,
          (
            (found.1, found.2),
            λ child h i b.
                All-In (λ y. NotLess group y top) contenders greatest (h, child)
                  (IsMatch-matches l.patterns test children h child i b.0 b.1),
          ),
        ),
      )

  -- `_get_predecessor` says that the node is not there, or chooses the contender with the greatest
  -- sequence number below the node's, or None where no contender has a lower one.
  pub predecessor_of-Chosen : Chosen l node children (predecessor_of l node children)
  unfolding predecessor_of
  predecessor_of-Chosen = elim (Bool-cases (has_text node children)) [
    | inl h ↦ rw h (go (has_text-In node children h) (sorted group contenders) refl)
    | inr h ↦ rw h (refl, h)
  ]
    where
      go :
          In node children
          → (ms : List Match) → sorted group contenders ≡ ms
          → Chosen l node children (ok (last_of ms))
      go i [] e = (i, IsFirst-case e)
      go i (m ∷ ms) e = (i, last_case m ms e)
