-- ===== src/Recipe/Partitioner/Shares.antt =====
-- The shares of the members make up the set.
use kazoo.Base.{
  ℕ, zero, suc, ◌+◌, ◌-◌, ◌≤◌, ◌<◌, ◌≡◌, refl, ap, ◌∙◌, sym, List, [], ◌∷◌, true, false, Result, ok,
  err, if◌then◌else◌, list_eq, list_eq_iff, length, arith, Bool-cases, inl, inr, ◌>>=◌, All,
}
use kazoo.Python.Ordered.{sorted, placed, sorted_texts}
use kazoo.Recipe.Partitioner.{index, slice, partitioner}

-- Sums over a list, and over the numbers below one.
abbrev pub total : {A : Type 0} → (A → ℕ) → List A → ℕ
total f [] = 0
total f (x ∷ xs) = f x + total f xs

sum_below : ℕ → (ℕ → ℕ) → ℕ
sum_below zero f = 0
sum_below (suc n) f = f 0 + sum_below n (λ i. f (suc i))

sum_below_last : (n : ℕ) (f : ℕ → ℕ) → sum_below (suc n) f ≡ sum_below n f + f n
unfolding sum_below
sum_below_last zero f = omega arith
sum_below_last (suc n) f = omega (arith, sum_below_last n (λ i. f (suc i)))

abbrev pub is_item : List ℕ → List ℕ → ℕ
is_item x y = if list_eq y x then 1 else 0

-- How often a text stands in a list.
abbrev pub count : List ℕ → List (List ℕ) → ℕ
count x = total (is_item x)

total-placed :
    {A : Type 0} (key : A → List ℕ) (f : A → ℕ) (x : A) (ys : List A)
    → total f (placed key x ys) ≡ f x + total f ys
unfolding placed
total-placed key f x [] = refl
total-placed key f x (y ∷ ys) = ground (arith, total-placed key f x ys)

pub total-sorted :
    {A : Type 0} (key : A → List ℕ) (f : A → ℕ) (xs : List A) → total f (sorted key xs) ≡ total f xs
unfolding sorted
total-sorted key f [] = refl
total-sorted key f (x ∷ xs) =
    omega (arith, total-placed key f x (sorted key xs), total-sorted key f xs)

total-sorted_texts : (f : List ℕ → ℕ) (xs : List (List ℕ)) → total f (sorted_texts xs) ≡ total f xs
unfolding sorted_texts
total-sorted_texts f xs = total-sorted (λ t. t) f xs

sum_below_zero : (n : ℕ) (f : ℕ → ℕ) → ((i : ℕ) → f i ≡ 0) → sum_below n f ≡ 0
unfolding sum_below
sum_below_zero zero f h = refl
sum_below_zero (suc n) f h = omega (arith, h 0, sum_below_zero n (λ i. f (suc i)) (λ i. h (suc i)))

slice-nil : (i n : ℕ) → slice i n [] ≡ []
unfolding slice
slice-nil zero n = refl
slice-nil (suc i) n = refl

-- The slices from each start below the step make up the list.
sum-slice :
    (f : List ℕ → ℕ) (n : ℕ) (xs : List (List ℕ))
    → sum_below (suc n) (λ i. total f (slice i (suc n) xs)) ≡ total f xs
unfolding slice sum_below
sum-slice f n [] = sum_below_zero (suc n) _ (λ i. ap (total f) (slice-nil i (suc n)))
sum-slice f n (x ∷ xs) =
    let g : ℕ → ℕ = λ i. total f (slice i (suc n) xs) in
    let e : suc n - 1 ≡ n = omega arith in
    rw e (omega (arith, sum_below_last n g, sum-slice f n xs))

module _ {A : Type 0} where
  total-ext : (f g : A → ℕ) (xs : List A) → All (λ x. f x ≡ g x) xs → total f xs ≡ total g xs
  total-ext f g [] h = refl
  total-ext f g (x ∷ xs) h = omega (arith, h.0, total-ext f g xs h.1)

  All-of_All : (P : A → Type 0) (xs : List A) → ((x : A) → P x) → All P xs
  All-of_All P [] h = tt
  All-of_All P (x ∷ xs) h = (h x, All-of_All P xs h)

list_eq_refl : (x : List ℕ) → list_eq x x ≡ true
list_eq_refl x = (list_eq_iff x x).1 refl

list_eq_sym : (x y : List ℕ) → list_eq y x ≡ false → list_eq x y ≡ false
list_eq_sym x y h = ground (arith, list_eq_iff x y, list_eq_iff y x)

absent : (x : List ℕ) (ys : List (List ℕ)) → count x ys ≡ 0 → All (λ y. list_eq x y ≡ false) ys
absent x [] h = tt
absent x (y ∷ ys) h = elim (Bool-cases (list_eq y x)) [
  | inl e ↦ let h' : 1 + count x ys ≡ 0 = (rw e at h) in absurd (omega arith)
  | inr e ↦ (
    list_eq_sym x y e,
    absent x ys (omega (arith, let h' : 0 + count x ys ≡ 0 = (rw e at h) in h')),
  )
]

-- The members are distinct.
abbrev pub IsDistinct : List (List ℕ) → Type 0
IsDistinct ms = (m : List ℕ) → count m ms ≤ 1

IsDistinct-head :
    (m : List ℕ) (ms : List (List ℕ)) → IsDistinct (m ∷ ms) → All (λ y. list_eq m y ≡ false) ms
IsDistinct-head m ms d =
    let h : 1 + count m ms ≤ 1 = (rw (list_eq_refl m) at (d m)) in absent m ms (omega arith)

IsDistinct-tail : (m : List ℕ) (ms : List (List ℕ)) → IsDistinct (m ∷ ms) → IsDistinct ms
IsDistinct-tail m ms d k = omega (arith, d k)

abbrev at : (ℕ → ℕ) → Result ℕ → ℕ
at f (ok i) = f i
at f (err e) = 0

at_next : (f : ℕ → ℕ) (r : Result ℕ) → at f (r >>= λ i. ok (suc i)) ≡ at (λ i. f (suc i)) r
at_next f (ok i) = refl
at_next f (err e) = refl

-- Each position is that of one member.
total-index :
    (f : ℕ → ℕ) (ms : List (List ℕ))
    → IsDistinct ms
    → total (λ m. at f (index m ms)) ms ≡ sum_below (length ms) f
unfolding index sum_below
total-index f [] d = refl
total-index f (m ∷ ms) d = rw (list_eq_refl m) (
    ap (λ (n : ℕ). f 0 + n)
      (total-ext _ _ ms others ∙ total-index (λ i. f (suc i)) ms (IsDistinct-tail m ms d)))
  where
    step :
        (y : List ℕ)
        → list_eq m y ≡ false
        → at f (index y (m ∷ ms)) ≡ at (λ i. f (suc i)) (index y ms)
    step y e = rw e (at_next f (index y ms))

    through :
        (ys : List (List ℕ))
        → All (λ y. list_eq m y ≡ false) ys
        → All (λ y. at f (index y (m ∷ ms)) ≡ at (λ i. f (suc i)) (index y ms)) ys
    through [] h = tt
    through (y ∷ ys) h = (step y h.0, through ys h.1)

    others : All (λ y. at f (index y (m ∷ ms)) ≡ at (λ i. f (suc i)) (index y ms)) ms
    others = through ms (IsDistinct-head m ms d)

abbrev pub counted : List ℕ → Result (List (List ℕ)) → ℕ
counted x (ok l) = count x l
counted x (err e) = 0

counted_at :
    (x : List ℕ) (n : ℕ) (xs : List (List ℕ)) (r : Result ℕ)
    → counted x (r >>= λ i. ok (slice i n xs)) ≡ at (λ i. count x (slice i n xs)) r
counted_at x n xs (ok i) = refl
counted_at x n xs (err e) = refl

sorted_shares :
    (x : List ℕ) (ms xs : List (List ℕ))
    → IsDistinct ms
    → 0 < length ms
    → total (λ m. counted x (index m ms >>= λ i. ok (slice i (length ms) xs))) ms ≡ count x xs
sorted_shares x [] xs d p = absurd (omega arith)
sorted_shares x (m ∷ ms) xs d p =
    let n : ℕ = length (m ∷ ms) in
    total-ext _ _ (m ∷ ms) (
      All-of_All
        (λ y.
          counted x (index y (m ∷ ms) >>= λ i. ok (slice i (length (m ∷ ms)) xs))
          ≡ at (λ i. count x (slice i (length (m ∷ ms)) xs)) (index y (m ∷ ms)))
        (m ∷ ms) λ y. counted_at x (length (m ∷ ms)) xs (index y (m ∷ ms)))
    ∙ total-index (λ i. count x (slice i (length (m ∷ ms)) xs)) (m ∷ ms) d
    ∙ sum-slice (is_item x) (length ms) xs

length-total : (xs : List (List ℕ)) → length xs ≡ total (λ _. 1) xs
length-total [] = refl
length-total (x ∷ xs) = omega (arith, length-total xs)

-- If the members are distinct and there is one at least, each item is in the shares of all members
-- together as often as in the set.
pub partitioner_shares :
    (members partitions : List (List ℕ))
    → IsDistinct members
    → 0 < length members
    → (x : List ℕ)
    → total (λ m. counted x (partitioner m members partitions)) members ≡ count x partitions
unfolding partitioner
partitioner_shares members partitions d p x =
    sym (total-sorted_texts (λ m. counted x (partitioner m members partitions)) members)
    ∙ sorted_shares x (sorted_texts members) (sorted_texts partitions)
        (λ m. rw (total-sorted_texts (is_item m) members) (d m))
        (omega (
          arith,
          length-total (sorted_texts members),
          length-total members,
          total-sorted_texts (λ _. 1) members,
        ))
    ∙ total-sorted_texts (is_item x) partitions
