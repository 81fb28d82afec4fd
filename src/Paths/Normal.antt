-- ===== src/Paths/Normal.antt =====
-- `normpath` by the names on the path.
use kazoo.Base.{
  ℕ, List, [], ◌∷◌, ◌++◌, ◌≡◌, refl, ap, sym, append-nil, ◌∙◌, Bool, true, false, list_eq, All,
  if◌then◌else◌, arith, Result-cases, inl, inr, ok, ◌>>=◌, >>=-eq-ok,
}
use kazoo.Python.Text.{starts_with_char, ends_with_char, join_with}
use kazoo.Python.Text.Split.{IsPiece}
use kazoo.Paths.{slash, with_leading, normpath}
use kazoo.Paths.Names.{names, IsName, names-slash, names-IsName, names-join_with}

-- "/" + "/".join(ps)
abbrev pub absolute : List (List ℕ) → List ℕ
absolute ps = slash ∷ join_with slash ps

-- Joined names do not begin with a slash.
first_char : (p rest : List ℕ) → IsName p → starts_with_char slash (p ++ rest) ≡ false
unfolding starts_with_char
first_char [] rest h = cc h.nonempty
first_char (c ∷ p) rest h = h.piece.0

pub starts_with_char-join_with :
    (ps : List (List ℕ)) → All IsName ps → starts_with_char slash (join_with slash ps) ≡ false
unfolding join_with
starts_with_char-join_with [] h = unfold starts_with_char in refl
starts_with_char-join_with (p ∷ []) h = rw (← append-nil p) (first_char p [] h.0)
starts_with_char-join_with (p ∷ q ∷ ps) h = first_char p (slash ∷ join_with slash (q ∷ ps)) h.0

-- Nor do they end with one, and the first is not empty.
nonempty_join :
    (p : List ℕ) (ps : List (List ℕ)) → IsName p → list_eq (join_with slash (p ∷ ps)) [] ≡ false
unfolding join_with
nonempty_join [] ps h = cc h.nonempty
nonempty_join (c ∷ p) [] h = refl
nonempty_join (c ∷ p) (q ∷ ps) h = refl

ends_piece : (p : List ℕ) → IsPiece slash p → list_eq p [] ≡ false → ends_with_char slash p ≡ false
unfolding ends_with_char
ends_piece [] h n = cc
ends_piece (c ∷ []) h n = h.0
ends_piece (c ∷ d ∷ p) h n = ends_piece (d ∷ p) h.1 refl

ends_cons :
    (x : ℕ) (s : List ℕ)
    → list_eq s [] ≡ false
    → ends_with_char slash (x ∷ s) ≡ ends_with_char slash s
unfolding ends_with_char
ends_cons x [] h = cc
ends_cons x (c ∷ s) h = refl

ends_append :
    (a : List ℕ) (c : ℕ) (s : List ℕ)
    → ends_with_char slash (a ++ (c ∷ s)) ≡ ends_with_char slash (c ∷ s)
unfolding ends_with_char
ends_append [] c s = refl
ends_append (x ∷ []) c s = refl
ends_append (x ∷ y ∷ a) c s = ends_append (y ∷ a) c s

ends_join :
    (p : List ℕ) (ps : List (List ℕ))
    → All IsName (p ∷ ps)
    → ends_with_char slash (join_with slash (p ∷ ps)) ≡ false
unfolding join_with
ends_join p [] h = ends_piece p h.0.piece h.0.nonempty
ends_join p (q ∷ ps) h =
    ends_append p slash (join_with slash (q ∷ ps))
    ∙ ends_cons slash _ (nonempty_join q ps h.1.0)
    ∙ ends_join q ps h.1

pub ends_with_char-absolute :
    (p : List ℕ) (ps : List (List ℕ))
    → All IsName (p ∷ ps)
    → ends_with_char slash (absolute (p ∷ ps)) ≡ false
ends_with_char-absolute p ps h = ends_cons slash _ (nonempty_join p ps h.0) ∙ ends_join p ps h

not_slash : (s : List ℕ) → starts_with_char slash s ≡ false → list_eq s (slash ∷ []) ≡ false
unfolding starts_with_char
not_slash [] h = refl
not_slash (c ∷ s) h = rw h

-- Without the trailing slash the result is the names joined, behind a slash if the path begins so.
unfoldable pub normal_of : Bool → List (List ℕ) → List ℕ
normal_of is_absolute ps = if is_absolute then absolute ps else join_with slash ps

with_leading-names :
    (path : List ℕ) (ps : List (List ℕ))
    → All IsName ps
    → with_leading path (join_with slash ps) ≡ normal_of (starts_with_char slash path) ps
unfolding normal_of
with_leading-names path ps h =
    ground (arith, not_slash (join_with slash ps) (starts_with_char-join_with ps h))

pub normpath_lem :
    (path : List ℕ)
    → normpath path false ≡ (names path >>= λ ps. ok (normal_of (starts_with_char slash path) ps))
unfolding normpath names
normpath_lem path = elim (Result-cases (names path)) [
  | inl (ps, e) ↦ rw e (ap ok (with_leading-names path ps (names-IsName path ps e)))
  | inr (x, e) ↦ rw e
]

names-normal_of :
    (is_absolute : Bool) (ps : List (List ℕ))
    → All IsName ps
    → names (normal_of is_absolute ps) ≡ ok ps
unfolding normal_of
names-normal_of true ps h = names-slash _ ∙ names-join_with ps h
names-normal_of false ps h = names-join_with ps h

starts_with_char-normal_of :
    (is_absolute : Bool) (ps : List (List ℕ))
    → All IsName ps
    → starts_with_char slash (normal_of is_absolute ps) ≡ is_absolute
unfolding normal_of
starts_with_char-normal_of true ps h = unfold starts_with_char in refl
starts_with_char-normal_of false ps h = starts_with_char-join_with ps h

-- A path that `normpath` returned stays as it is under `normpath`.
pub normpath_idem : (path q : List ℕ) → normpath path false ≡ ok q → normpath q false ≡ ok q
normpath_idem path q h =
    let (ps, e, e') = >>=-eq-ok (names path) _ (sym (normpath_lem path) ∙ h) in
    let good = names-IsName path ps e in
    let is_absolute = starts_with_char slash path in
    let q' : q ≡ normal_of is_absolute ps = cc in
    rw (
      q',
      normpath_lem (normal_of is_absolute ps),
      names-normal_of is_absolute ps good,
      starts_with_char-normal_of is_absolute ps good,
    )
