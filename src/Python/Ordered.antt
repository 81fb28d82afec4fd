-- ===== src/Python/Ordered.antt =====
-- The order of Python's `str` and `bytes`, by code points, and `sorted` with a key, which is stable.
pub mod Laws
use kazoo.Base.{
  ℕ, List, [], ◌∷◌, Bool, true, false, ◌==◌, ltb, ◌&&◌, ◌||◌, Option, none, some, if◌then◌else◌,
  list_eq,
}

-- s < t
abbrev pub text_lt : List ℕ → List ℕ → Bool
text_lt [] [] = false
text_lt [] (d ∷ t) = true
text_lt (c ∷ s) [] = false
text_lt (c ∷ s) (d ∷ t) = ltb c d || ((c == d) && text_lt s t)

-- x in xs
abbrev pub has_text : List ℕ → List (List ℕ) → Bool
has_text s [] = false
has_text s (t ∷ ts) = list_eq t s || has_text s ts

module _ {A : Type 0} (key : A → List ℕ) where
  -- In front of the items with an equal key.
  unfoldable pub placed : A → List A → List A
  placed x [] = x ∷ []
  placed x (y ∷ ys) =
      let rest = placed x ys in if text_lt (key y) (key x) then y ∷ rest else x ∷ y ∷ ys

  -- sorted(xs, key=key)
  unfoldable pub sorted : List A → List A
  sorted [] = []
  sorted (x ∷ xs) = placed x (sorted xs)

-- xs[-1] of a list that is not empty
abbrev pub last : {A : Type 0} → A → List A → A
last x [] = x
last x (y ∷ ys) = last y ys

-- sorted(names)
unfoldable pub sorted_texts : List (List ℕ) → List (List ℕ)
unfolding sorted placed
sorted_texts = sorted (λ t. t)
