-- ===== src/Python/Ordered/Laws.antt =====
-- The order of texts is linear, and `sorted` keeps the items and puts them in order.
use kazoo.Base.{
  ℕ, ◌≡◌, refl, List, [], ◌∷◌, true, false, arith, All, ◌⊎◌, inl, inr, Bool-cases, list_eq,
  list_eq_iff,
}
use mathlib.Core.Path.{subst}
use kazoo.Python.Ordered.{text_lt, has_text, placed, sorted, last}

pub text_lt_irrefl : (s : List ℕ) → text_lt s s ≡ false
text_lt_irrefl [] = refl
text_lt_irrefl (c ∷ s) = ground (arith, text_lt_irrefl s)

pub text_lt_trans : (s t u : List ℕ) → text_lt s t ≡ true → text_lt t u ≡ true → text_lt s u ≡ true
text_lt_trans [] [] u h k = cc
text_lt_trans (c ∷ s) [] u h k = cc
text_lt_trans [] (d ∷ t) [] h k = cc
text_lt_trans (c ∷ s) (d ∷ t) [] h k = cc
text_lt_trans [] (d ∷ t) (e ∷ u) h k = refl
text_lt_trans (c ∷ s) (d ∷ t) (e ∷ u) h k = ground (arith, text_lt_trans s t u)

pub text_lt_asymm : (s t : List ℕ) → text_lt s t ≡ true → text_lt t s ≡ false
text_lt_asymm [] [] h = refl
text_lt_asymm [] (d ∷ t) h = refl
text_lt_asymm (c ∷ s) [] h = cc
text_lt_asymm (c ∷ s) (d ∷ t) h = ground (arith, text_lt_asymm s t)

pub text_lt_cases : (s t : List ℕ) → (text_lt s t ≡ true) ⊎ ((s ≡ t) ⊎ (text_lt t s ≡ true))
text_lt_cases [] [] = inr (inl refl)
text_lt_cases [] (d ∷ t) = inl refl
text_lt_cases (c ∷ s) [] = inr (inr refl)
text_lt_cases (c ∷ s) (d ∷ t) = ground (arith, text_lt_cases s t)

-- An item of a list.
abbrev pub In : {A : Type 0} → A → List A → Type 0
In x [] = ⊥
In x (y ∷ ys) = (y ≡ x) ⊎ In x ys

pub All-In : {A : Type 0} (P : A → Type 0) (xs : List A) → All P xs → (x : A) → In x xs → P x
All-In P [] a x m = absurd m
All-In P (y ∷ ys) a x (inl e) = subst P e a.0
All-In P (y ∷ ys) a x (inr m) = All-In P ys a.1 x m

pub All-of_In : {A : Type 0} (P : A → Type 0) (xs : List A) → ((x : A) → In x xs → P x) → All P xs
All-of_In P [] h = tt
All-of_In P (x ∷ xs) h = (h x (inl refl), All-of_In P xs (λ y m. h y (inr m)))

pub In-has_text : (s : List ℕ) (ts : List (List ℕ)) → In s ts → has_text s ts ≡ true
In-has_text s [] m = absurd m
In-has_text s (t ∷ ts) (inl e) = rw ((list_eq_iff t s).1 e) refl
In-has_text s (t ∷ ts) (inr m) = ground (arith, In-has_text s ts m)

pub has_text-In : (s : List ℕ) (ts : List (List ℕ)) → has_text s ts ≡ true → In s ts
has_text-In s [] h = cc
has_text-In s (t ∷ ts) h = elim (Bool-cases (list_eq t s)) [
  | inl e ↦ inl ((list_eq_iff t s).0 e)
  | inr e ↦ inr (has_text-In s ts (rw e at h))
]

module _ {A : Type 0} (key : A → List ℕ) where
  abbrev pub NotLess : A → A → Type 0
  NotLess x y = text_lt (key y) (key x) ≡ false

  -- No item has a smaller key than one before it.
  abbrev pub IsSorted : List A → Type 0
  IsSorted [] = Unit {0}
  IsSorted (x ∷ xs) = All (NotLess x) xs × IsSorted xs

  placed-All : (P : A → Type 0) (x : A) (ys : List A) → P x → All P ys → All P (placed key x ys)
  unfolding placed
  placed-All P x [] h a = (h, tt)
  placed-All P x (y ∷ ys) h a = elim (Bool-cases (text_lt (key y) (key x))) [
    | inl e ↦ rw e (a.0, placed-All P x ys h a.1)
    | inr e ↦ rw e (h, a)
  ]

  All-placed : (P : A → Type 0) (x : A) (ys : List A) → All P (placed key x ys) → P x × All P ys
  unfolding placed
  All-placed P x [] a = (a.0, tt)
  All-placed P x (y ∷ ys) a = elim (Bool-cases (text_lt (key y) (key x))) [
    | inl e ↦
        let b : All P (y ∷ placed key x ys) = (rw e at a) in
        let r = All-placed P x ys b.1 in (r.0, (b.0, r.1))
    | inr e ↦ let b : All P (x ∷ y ∷ ys) = (rw e at a) in b
  ]

  pub sorted-All : (P : A → Type 0) (xs : List A) → All P xs → All P (sorted key xs)
  unfolding sorted
  sorted-All P [] a = tt
  sorted-All P (x ∷ xs) a = placed-All P x (sorted key xs) a.0 (sorted-All P xs a.1)

  pub All-sorted : (P : A → Type 0) (xs : List A) → All P (sorted key xs) → All P xs
  unfolding sorted
  All-sorted P [] a = tt
  All-sorted P (x ∷ xs) a = let r = All-placed P x (sorted key xs) a in (r.0, All-sorted P xs r.1)

  NotLess-trans : (x y z : A) → NotLess x y → NotLess y z → NotLess x z
  NotLess-trans x y z h k = elim (text_lt_cases (key x) (key y)) [
    | inl a ↦ elim (Bool-cases (text_lt (key z) (key x))) [
      | inl b ↦ absurd (cc (text_lt_trans (key z) (key x) (key y) b a))
      | inr b ↦ b
    ]
    | inr (inl e) ↦ rw e k
    | inr (inr b) ↦ cc
  ]

  All-trans : (x y : A) (zs : List A) → NotLess x y → All (NotLess y) zs → All (NotLess x) zs
  All-trans x y [] h a = tt
  All-trans x y (z ∷ zs) h a = (NotLess-trans x y z h a.0, All-trans x y zs h a.1)

  placed-IsSorted : (x : A) (ys : List A) → IsSorted ys → IsSorted (placed key x ys)
  unfolding placed
  placed-IsSorted x [] s = (tt, tt)
  placed-IsSorted x (y ∷ ys) s = elim (Bool-cases (text_lt (key y) (key x))) [
    | inl e ↦ rw e (
      placed-All (NotLess y) x ys (text_lt_asymm (key y) (key x) e) s.0,
      placed-IsSorted x ys s.1,
    )
    | inr e ↦ rw e ((e, All-trans x y ys e s.0), s)
  ]

  pub sorted-IsSorted : (xs : List A) → IsSorted (sorted key xs)
  unfolding sorted
  sorted-IsSorted [] = tt
  sorted-IsSorted (x ∷ xs) = placed-IsSorted x (sorted key xs) (sorted-IsSorted xs)

  pub last-In : (x : A) (xs : List A) → In (last x xs) (x ∷ xs)
  last-In x [] = inl refl
  last-In x (y ∷ ys) = inr (last-In y ys)

  -- The last of a sorted list has a greatest key.
  pub last-IsSorted :
      (x : A) (xs : List A) → IsSorted (x ∷ xs) → All (λ y. NotLess y (last x xs)) (x ∷ xs)
  last-IsSorted x [] s = (text_lt_irrefl (key x), tt)
  last-IsSorted x (y ∷ ys) s =
      let rest = last-IsSorted y ys s.1 in (NotLess-trans x y (last y ys) s.0.0 rest.0, rest)
