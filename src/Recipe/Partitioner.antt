-- ===== src/Recipe/Partitioner.antt =====
-- `SetPartitioner._partitioner` of kazoo/recipe/partitioner.py, for items that are texts.
pub mod Shares
pub mod States
use kazoo.Base.{
  ℕ, zero, suc, ◌-◌, List, [], ◌∷◌, Bool, true, false, Result, ok, err, value_error, if◌then◌else◌,
  list_eq, length, ◌>>=◌,
}
use kazoo.Python.Ordered.{sorted_texts}

-- xs.index(x)
unfoldable pub index : List ℕ → List (List ℕ) → Result ℕ
index x [] = err value_error
index x (y ∷ ys) = let rest = index x ys in if list_eq y x then ok 0 else (rest >>= λ i. ok (suc i))

-- xs[i::n]
unfoldable pub slice : ℕ → ℕ → List (List ℕ) → List (List ℕ)
slice i n [] = []
slice zero n (x ∷ xs) = x ∷ slice (n - 1) n xs
slice (suc i) n (x ∷ xs) = slice i n xs

unfoldable pub partitioner : List ℕ → List (List ℕ) → List (List ℕ) → Result (List (List ℕ))
partitioner identifier members partitions = index identifier (sorted_texts members) >>= λ i.
    ok (slice i (length (sorted_texts members)) (sorted_texts partitions))
