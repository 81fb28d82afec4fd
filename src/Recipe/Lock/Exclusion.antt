-- ===== src/Recipe/Lock/Exclusion.antt =====
-- Which locks are held together.
use mathlib.Core.Path.{subst}
use kazoo.Base.{
  ℕ, ◌≡◌, refl, ◌≢◌, List, ◌++◌, drop-append, append_assoc, sym, All, true, false, Option, none,
  some, Result, ok, err, ◌⊎◌, inl, inr, Bool-cases, not_both,
}
use kazoo.Python.Ordered.{text_lt, has_text}
use kazoo.Python.Ordered.Laws.{In, All-In, has_text-In, text_lt_cases}
use kazoo.Recipe.Lock.{
  Kind, read, Lock, exclude_names, node_name, search_in, node_sequence, predecessor_of,
}
use kazoo.Recipe.Lock.Predecessor.{Chosen, IsFirst, predecessor_of-Chosen}
use kazoo.Recipe.Lock.Names.{
  IsSequence, IsPlain, IsNumeral, excludes, search_in-node, search_in-rlock,
}

-- `_get_predecessor` returned None.
abbrev pub Granted : Lock → List ℕ → List (List ℕ) → Type 0
Granted l node children = predecessor_of l node children ≡ ok none

Granted-IsFirst :
    (l : Lock) (node : List ℕ) (children : List (List ℕ))
    → Granted l node children
    → In node children × IsFirst l node children
Granted-IsFirst l node children g =
    subst (Chosen l node children) g (predecessor_of-Chosen l node children)

-- A lock of a kind at any time, without further patterns; `hex` is its identifier.
pub record IsOfKind (k : Kind) (hex : List ℕ) (l : Lock) : Type 0 where
  pub with_patterns : l.patterns ≡ exclude_names k
  pub with_prefix : l.prefix ≡ hex ++ node_name k
  pub plain : IsPlain hex

-- The node that the server makes for it, with a sequence number.
abbrev pub node_of : Kind → List ℕ → List ℕ → List ℕ
node_of k hex s = hex ++ (node_name k ++ s)

node_sequence_lem :
    {k : Kind} {hex : List ℕ} {l : Lock}
    → IsOfKind k hex l
    → (s : List ℕ) → node_sequence l (node_of k hex s) ≡ s
node_sequence_lem {k} {hex} {l} o s =
    rw (o.with_prefix, sym (append_assoc hex (node_name k) s)) (drop-append (hex ++ node_name k) s)

-- A lock that was granted has no contender with a lower number among the children.
none_below :
    {k k' : Kind} {hex hex' : List ℕ} {l l' : Lock}
    → IsOfKind k hex l
    → IsOfKind k' hex' l'
    → excludes k k' ≡ true
    → (s s' : List ℕ) (children : List (List ℕ)) → IsSequence s'
    → Granted l (node_of k hex s) children
    → In (node_of k' hex' s') children
    → text_lt s' s ≡ false
none_below {k} {k'} {hex} {hex'} {l} {l'} o o' x s s' children q g i =
    subst (λ t. text_lt s' t ≡ false) (node_sequence_lem o s)
      ((Granted-IsFirst l (node_of k hex s) children g).1 (node_of k' hex' s') s' i
        (rw o.with_patterns (search_in-node k k' hex' s' x o'.plain q)))

module _ {k k' : Kind} {hex hex' : List ℕ} {l l' : Lock} (o : IsOfKind k hex l)
    (o' : IsOfKind k' hex' l') (s s' : List ℕ) (earlier later : List (List ℕ)) where
  -- Two locks that exclude each other are not held at once: if one was granted, then the other, and the
  -- node of the other was there when the first was granted or came with a higher sequence number, then
  -- the node of the first was gone when the second was granted.
  pub exclusion :
      excludes k k' ≡ true
      → excludes k' k ≡ true
      → IsSequence s
      → IsSequence s'
      → s ≢ s'
      → In (node_of k' hex' s') earlier ⊎ (text_lt s s' ≡ true)
      → Granted l (node_of k hex s) earlier
      → Granted l' (node_of k' hex' s') later
      → has_text (node_of k hex s) later ≡ false
  exclusion x x' q q' ne came g g' = elim (Bool-cases (has_text (node_of k hex s) later)) [
    | inr gone ↦ gone
    | inl there ↦ absurd (
        not_both _ (below came)
          (none_below o' o x' s' s later q g' (has_text-In (node_of k hex s) later there)))
  ]
    where
      below : In (node_of k' hex' s') earlier ⊎ (text_lt s s' ≡ true) → text_lt s s' ≡ true
      below (inr lower) = lower
      below (inl i) = elim (text_lt_cases s s') [
        | inl lower ↦ lower
        | inr (inl same) ↦ absurd (ne same)
        | inr (inr above) ↦ absurd (not_both _ above (none_below o o' x s s' earlier q' g i))
      ]

-- The nodes of read locks.
abbrev pub IsReader : List ℕ → Type 0
IsReader child = (hex s : List ℕ) × (IsPlain hex × (IsNumeral s × (child ≡ node_of read hex s)))

-- Readers do not wait for readers: a read lock is granted where its node and those of other read locks are
-- the only children.
pub readers_share :
    {hex : List ℕ} (l : Lock) (node : List ℕ) (children : List (List ℕ))
    → IsOfKind read hex l
    → has_text node children ≡ true
    → All IsReader children
    → Granted l node children
readers_share l node children o h a =
    go (predecessor_of l node children) (predecessor_of-Chosen l node children)
  where
    go : (r : Result (Option (List ℕ))) → Chosen l node children r → r ≡ ok none
    go (ok none) c = refl
    go (ok (some p)) c =
        let (hex', s, r) = All-In IsReader children a p c.1.1.0 in
        let missed : search_in l.patterns p ≡ none =
          rw (o.with_patterns, r.1.1) (search_in-rlock hex' s r.0 r.1.0) in
        let found : search_in l.patterns p ≡ some c.1.0 = c.1.1.1.0.0 in absurd (cc)
    go (err z) c = absurd (not_both _ h c.1)
