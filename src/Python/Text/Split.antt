-- ===== src/Python/Text/Split.antt =====
-- Splitting and joining.
use kazoo.Base.{
  ℕ, List, [], ◌∷◌, ◌++◌, ◌≡◌, refl, ap, ◌∙◌, false, ◌==◌, ==_refl, All, Bool-cases, inl, inr,
}
use kazoo.Python.Text.{split, join_with, extend_first}

-- A piece holds no separator.
abbrev pub IsPiece : ℕ → List ℕ → Type 0
IsPiece c p = All (λ d. (d == c) ≡ false) p

extend_first-All :
    (c d : ℕ) (l : List (List ℕ))
    → (d == c) ≡ false
    → All (IsPiece c) l
    → All (IsPiece c) (extend_first d l)
extend_first-All c d [] h a = ((h, tt), tt)
extend_first-All c d (p ∷ ps) h a = ((h, a.0), a.1)

pub split-IsPiece : (c : ℕ) (s : List ℕ) → All (IsPiece c) (split c s)
unfolding split
split-IsPiece c [] = (tt, tt)
split-IsPiece c (d ∷ s) = elim (Bool-cases (d == c)) [
  | inl e ↦ rw e (tt, split-IsPiece c s)
  | inr e ↦ rw e (extend_first-All c d (split c s) e (split-IsPiece c s))
]

-- Splitting a piece, alone or before a separator.
pub split-piece : (c : ℕ) (p : List ℕ) → IsPiece c p → split c p ≡ p ∷ []
unfolding split
split-piece c [] h = refl
split-piece c (d ∷ p) h = rw (h.0, split-piece c p h.1)

pub split-append : (c : ℕ) (p s : List ℕ) → IsPiece c p → split c (p ++ (c ∷ s)) ≡ p ∷ split c s
unfolding split
split-append c [] s h = rw ==_refl
split-append c (d ∷ p) s h = rw (h.0, split-append c p s h.1)

-- Splitting what was joined.
pub split-join_with :
    (c : ℕ) (p : List ℕ) (ps : List (List ℕ))
    → All (IsPiece c) (p ∷ ps)
    → split c (join_with c (p ∷ ps)) ≡ p ∷ ps
unfolding join_with
split-join_with c p [] h = split-piece c p h.0
split-join_with c p (q ∷ ps) h =
    split-append c p (join_with c (q ∷ ps)) h.0 ∙ ap (λ l. p ∷ l) (split-join_with c q ps h.1)
