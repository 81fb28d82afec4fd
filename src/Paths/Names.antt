-- ===== src/Paths/Names.antt =====
-- The names on a path: its components but the empty ones, and an error where one is relative.
use kazoo.Base.{
  ℕ, List, [], ◌∷◌, ◌++◌, ◌≡◌, refl, sym, ◌∙◌, Bool, true, false, ◌==◌, list_eq, All, arith,
  Bool-cases, inl, inr, Result, ok, err, value_error, if◌then◌else◌, ◌||◌, ◌>>=◌, ◌<>◌, >>=-eq-ok,
}
use kazoo.Python.Ordered.{has_text}
use kazoo.Python.Text.{codes, lstrip, split, join_with, extend_first}
use kazoo.Python.Text.Split.{IsPiece, split-IsPiece, split-join_with}
use kazoo.Paths.{slash, is_dots, keep_comps}

unfoldable pub names : List ℕ → Result (List (List ℕ))
names path = keep_comps (split slash path)

-- A name as it stands in a normal path.
pub record IsName (p : List ℕ) : Type 0 where
  pub piece : IsPiece slash p
  pub nonempty : list_eq p [] ≡ false
  pub not_dots : is_dots p ≡ false

same : (r : Result (List (List ℕ))) → r ≡ (r >>= λ ys. ok ys)
same (ok x) = refl
same (err e) = refl

pub keep_comps-append :
    (xs ys : List (List ℕ)) → keep_comps (xs ++ ys) ≡ (keep_comps xs <> keep_comps ys)
unfolding keep_comps
keep_comps-append [] ys = same (keep_comps ys)
keep_comps-append (x ∷ xs) ys = ground (arith, keep_comps-append xs ys)

extend_first-append :
    (c d : ℕ) (l m : List (List ℕ))
    → extend_first c (extend_first d l ++ m) ≡ extend_first c (extend_first d l) ++ m
extend_first-append c d [] m = refl
extend_first-append c d (p ∷ ps) m = refl

extend_split-append :
    (c : ℕ) (a : List ℕ) (m : List (List ℕ))
    → extend_first c (split slash a ++ m) ≡ extend_first c (split slash a) ++ m
unfolding split
extend_split-append c [] m = refl
extend_split-append c (d ∷ a) m = elim (Bool-cases (d == slash)) [
  | inl e ↦ rw e
  | inr e ↦ rw e (extend_first-append c d (split slash a) m)
]

split-append_slash :
    (a b : List ℕ) → split slash (a ++ (slash ∷ b)) ≡ split slash a ++ split slash b
unfolding split
split-append_slash [] b = refl
split-append_slash (c ∷ a) b = elim (Bool-cases (c == slash)) [
  | inl e ↦ rw (e, split-append_slash a b)
  | inr e ↦ rw (e, split-append_slash a b) (extend_split-append c a (split slash b))
]

pub names-append_slash : (a b : List ℕ) → names (a ++ (slash ∷ b)) ≡ (names a <> names b)
unfolding names
names-append_slash a b = rw split-append_slash (keep_comps-append (split slash a) (split slash b))

-- Leading slashes add empty components only.
pub names-slash : (s : List ℕ) → names (slash ∷ s) ≡ names s
unfolding names keep_comps split
names-slash s = refl

names_skip : (c : ℕ) (s : List ℕ) → (c == slash) ≡ true → names (c ∷ s) ≡ names s
unfolding names keep_comps split
names_skip c s e = rw e

pub names-lstrip : (s : List ℕ) → names (lstrip slash s) ≡ names s
unfolding lstrip
names-lstrip [] = refl
names-lstrip (c ∷ s) = elim (Bool-cases (c == slash)) [
  | inl e ↦ rw e (names-lstrip s ∙ sym (names_skip c s e))
  | inr e ↦ rw e
]

keep_comps-IsName :
    (comps : List (List ℕ)) (ps : List (List ℕ))
    → All (IsPiece slash) comps
    → keep_comps comps ≡ ok ps
    → All IsName ps
unfolding keep_comps
keep_comps-IsName [] ps h e = let e' : ps ≡ [] = cc in rw e' tt
keep_comps-IsName (c ∷ comps) ps h e = elim (Bool-cases (list_eq c [])) [
  | inl empty ↦ keep_comps-IsName comps ps h.1 (rw empty at e)
  | inr full ↦ elim (Bool-cases (is_dots c)) [
    | inl dots ↦ cc (rw (full, dots) at e)
    | inr fine ↦
        let (rest, q, r) = >>=-eq-ok (keep_comps comps) (λ l. ok (c ∷ l)) (rw (full, fine) at e) in
        let e' : ps ≡ c ∷ rest = cc in
        rw e' (
          record { piece = h.0; nonempty = full; not_dots = fine },
          keep_comps-IsName comps rest h.1 q,
        )
  ]
]

pub names-IsName : (s : List ℕ) (ps : List (List ℕ)) → names s ≡ ok ps → All IsName ps
unfolding names
names-IsName s ps = keep_comps-IsName (split slash s) ps (split-IsPiece slash s)

keep_comps_names : (ps : List (List ℕ)) → All IsName ps → keep_comps ps ≡ ok ps
unfolding keep_comps
keep_comps_names [] h = refl
keep_comps_names (p ∷ ps) h = rw (h.0.nonempty, h.0.not_dots, keep_comps_names ps h.1)

pieces : (ps : List (List ℕ)) → All IsName ps → All (IsPiece slash) ps
pieces [] h = tt
pieces (p ∷ ps) h = (h.0.piece, pieces ps h.1)

pub names-join_with : (ps : List (List ℕ)) → All IsName ps → names (join_with slash ps) ≡ ok ps
unfolding names join_with
names-join_with [] h = unfold keep_comps split in refl
names-join_with (p ∷ ps) h =
    rw (split-join_with slash p ps (h.0.piece, pieces ps h.1)) (keep_comps_names (p ∷ ps) h)

-- The components that are not empty.
abbrev pub nonempty_of : List (List ℕ) → List (List ℕ)
nonempty_of [] = []
nonempty_of ([] ∷ ps) = nonempty_of ps
nonempty_of ((c ∷ p) ∷ ps) = (c ∷ p) ∷ nonempty_of ps

-- The names on a path by what they mean: no component may be "." or "..".
unfoldable pub names_of : List ℕ → Result (List (List ℕ))
names_of path =
    if has_text (codes ".") (split slash path) || has_text (codes "..") (split slash path)
    then err value_error
    else ok (nonempty_of (split slash path))

kept_when :
    (x y a b : Bool) (n : List ℕ) (ns : List (List ℕ))
    → (if x || y
        then err value_error
        else ((if a || b then err value_error else ok ns) >>= λ rest. ok (n ∷ rest)))
      ≡ (if (x || a) || (y || b) then err value_error else ok (n ∷ ns))
kept_when true y a b n ns = refl
kept_when false true true b n ns = refl
kept_when false true false b n ns = refl
kept_when false false true b n ns = refl
kept_when false false false true n ns = refl
kept_when false false false false n ns = refl

keep_comps_of :
    (ps : List (List ℕ))
    → keep_comps ps ≡ (
        if has_text (codes ".") ps || has_text (codes "..") ps
        then err value_error
        else ok (nonempty_of ps))
unfolding keep_comps
keep_comps_of [] = refl
keep_comps_of ([] ∷ ps) = keep_comps_of ps
keep_comps_of ((c ∷ p) ∷ ps) = rw (keep_comps_of ps) (
    kept_when (list_eq (c ∷ p) (codes ".")) (list_eq (c ∷ p) (codes "..")) (has_text (codes ".") ps)
      (has_text (codes "..") ps) (c ∷ p) (nonempty_of ps))

pub names_of_lem : (path : List ℕ) → names path ≡ names_of path
unfolding names names_of
names_of_lem path = keep_comps_of (split slash path)
