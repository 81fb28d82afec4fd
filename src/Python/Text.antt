-- ===== src/Python/Text.antt =====
-- Operations of Python's `str`, as lists of code points, with a separator of one character.
pub mod Split
use Prim.Native.Char.{code}
use Prim.Native.String.{String}
use kazoo.Base.{
  ℕ, List, [], ◌∷◌, ◌++◌, Bool, true, false, ◌==◌, ◌&&◌, not, if◌then◌else◌, length, drop,
}

-- The code points of a literal.
abbrev pub codes : String → List ℕ
codes String.[] = []
codes (String.◌∷◌ c s) = code c ∷ codes s

-- s.startswith(p)
unfoldable pub starts_with : List ℕ → List ℕ → Bool
starts_with [] s = true
starts_with (c ∷ p) [] = false
starts_with (c ∷ p) (d ∷ s) = (c == d) && starts_with p s

-- s.startswith(c) and s.endswith(c) for one character
unfoldable pub starts_with_char : ℕ → List ℕ → Bool
starts_with_char c [] = false
starts_with_char c (d ∷ s) = d == c

unfoldable pub ends_with_char : ℕ → List ℕ → Bool
ends_with_char c [] = false
ends_with_char c (d ∷ []) = d == c
ends_with_char c (d ∷ e ∷ s) = ends_with_char c (e ∷ s)

-- s.lstrip(c)
unfoldable pub lstrip : ℕ → List ℕ → List ℕ
lstrip c [] = []
lstrip c (d ∷ s) = let rest = lstrip c s in if d == c then rest else d ∷ s

-- The first piece takes one more character.
abbrev pub extend_first : ℕ → List (List ℕ) → List (List ℕ)
extend_first c [] = (c ∷ []) ∷ []
extend_first c (p ∷ ps) = (c ∷ p) ∷ ps

-- s.split(c): one piece more than there are separators.
unfoldable pub split : ℕ → List ℕ → List (List ℕ)
split c [] = [] ∷ []
split c (d ∷ s) = let rest = split c s in if d == c then [] ∷ rest else extend_first d rest

-- c.join(pieces)
unfoldable pub join_with : ℕ → List (List ℕ) → List ℕ
join_with c [] = []
join_with c (p ∷ []) = p
join_with c (p ∷ q ∷ ps) = p ++ (c ∷ join_with c (q ∷ ps))
