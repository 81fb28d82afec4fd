-- ===== src/Paths/Chroot.antt =====
-- Putting the chroot before a path and taking it off again.
use kazoo.Base.{
  ℕ, List, [], ◌∷◌, ◌++◌, ◌≡◌, ◌≢◌, refl, ap, sym, ◌∙◌, append-nil, append_assoc, true, false, ◌==◌,
  ==_refl, list_eq, list_eq_iff, drop-append, All, if◌then◌else◌, Bool-cases, Result-cases, inl,
  inr, Result, ok, err, ◌>>=◌, ◌<>◌, >>=-eq-ok,
}
use kazoo.Python.Text.{starts_with, starts_with_char, ends_with_char, lstrip, join_with}
use kazoo.Paths.{slash, normpath, join, norm_root, prefix_root, unchroot}
use kazoo.Paths.Names.{
  names, names_of, names_of_lem, IsName, names-slash, names-lstrip, names-append_slash,
  names-IsName, names-join_with,
}
use kazoo.Paths.Normal.{absolute, normal_of, normpath_lem, ends_with_char-absolute}

-- A path that begins with a slash.
norm_absolute :
    (path : List ℕ)
    → starts_with_char slash path ≡ true
    → normpath path false ≡ (names path >>= λ ps. ok (absolute ps))
norm_absolute path h = normpath_lem path ∙ simp h (unfold normal_of in refl)

join_root :
    (root : List ℕ)
    → join (slash ∷ []) (root ∷ []) ≡ (if starts_with_char slash root then root else slash ∷ root)
unfolding join ends_with_char
join_root root = refl

norm_root-join : (root : List ℕ) → norm_root root ≡ normpath (join (slash ∷ []) (root ∷ [])) false
unfolding norm_root
norm_root-join root = refl

norm_root_lem : (root : List ℕ) → norm_root root ≡ (names root >>= λ rs. ok (absolute rs))
norm_root_lem root = norm_root-join root ∙ elim (Bool-cases (starts_with_char slash root)) [
  | inl e ↦ rw (join_root, e) (norm_absolute root e)
  | inr e ↦
      rw (join_root, e, norm_absolute (slash ∷ root) (unfold starts_with_char in refl), names-slash)
]

starts_with_char-lstrip : (s : List ℕ) → starts_with_char slash (lstrip slash s) ≡ false
unfolding lstrip starts_with_char
starts_with_char-lstrip [] = refl
starts_with_char-lstrip (c ∷ s) = elim (Bool-cases (c == slash)) [
  | inl e ↦ rw e (starts_with_char-lstrip s)
  | inr e ↦ rw e e
]

-- Joining a stripped path to a normal root: one slash stands between them.
join_stripped_root :
    (path : List ℕ) → join (absolute []) (lstrip slash path ∷ []) ≡ slash ∷ lstrip slash path
unfolding join ends_with_char join_with
join_stripped_root path = rw starts_with_char-lstrip

join_stripped :
    (p : List ℕ) (ps : List (List ℕ)) (path : List ℕ)
    → All IsName (p ∷ ps)
    → join (absolute (p ∷ ps)) (lstrip slash path ∷ [])
      ≡ absolute (p ∷ ps) ++ (slash ∷ lstrip slash path)
unfolding join
join_stripped p ps path h = rw (starts_with_char-lstrip, ends_with_char-absolute p ps h)

absolute-join :
    (rs : List (List ℕ)) (path : List ℕ)
    → All IsName rs
    → starts_with_char slash (join (absolute rs) (lstrip slash path ∷ [])) ≡ true
unfolding starts_with_char
absolute-join [] path h = rw join_stripped_root
absolute-join (p ∷ ps) path h = rw (join_stripped p ps path h)

none_before : (r : Result (List (List ℕ))) → r ≡ (ok [] <> r)
none_before (ok x) = refl
none_before (err e) = refl

names-join :
    (rs : List (List ℕ)) (path : List ℕ)
    → All IsName rs
    → names (join (absolute rs) (lstrip slash path ∷ [])) ≡ (ok rs <> names path)
names-join [] path h = rw (join_stripped_root, names-slash, names-lstrip) (none_before (names path))
names-join (p ∷ ps) path h = rw (
  join_stripped p ps path h,
  names-append_slash,
  names-lstrip,
  names-slash,
  names-join_with (p ∷ ps) h,
)

prefix_root-join :
    (root path : List ℕ)
    → prefix_root root path false
      ≡ (norm_root root >>= λ r. normpath (join r (lstrip slash path ∷ [])) false)
unfolding prefix_root
prefix_root-join root path = refl

pair :
    (rs : List (List ℕ)) (r : Result (List (List ℕ)))
    → ((ok rs <> r) >>= λ ps. ok (absolute ps)) ≡ (r >>= λ ps. ok (absolute (rs ++ ps)))
pair rs (ok ps) = refl
pair rs (err e) = refl

prefix_root-names :
    (root path : List ℕ)
    → prefix_root root path false
      ≡ (names root >>= λ rs. names path >>= λ ps. ok (absolute (rs ++ ps)))
prefix_root-names root path =
    prefix_root-join root path
    ∙ rw norm_root_lem (elim (Result-cases (names root)) [
      | inl (rs, e) ↦
          rw
            (
              e,
              norm_absolute _ (absolute-join rs path (names-IsName root rs e)),
              names-join rs path (names-IsName root rs e),
            )
            (pair rs (names path))
      | inr (x, e) ↦ rw e
    ])

-- `_prefix_root` without a trailing slash to keep, as all calls but those that make a sequence ask for
-- it, raises a ValueError where the root or the path has a component "." or "..", and else gives the
-- components of the root and then those of the path that are not empty, each behind a slash.
pub prefix_root_lem :
    (root path : List ℕ)
    → prefix_root root path false
      ≡ (names_of root >>= λ rs. names_of path >>= λ ps. ok (absolute (rs ++ ps)))
prefix_root_lem root path = prefix_root-names root path ∙ rw (names_of_lem root, names_of_lem path)

-- What `unchroot` takes off.
starts_with-append : (p s : List ℕ) → starts_with p (p ++ s) ≡ true
unfolding starts_with
starts_with-append [] s = refl
starts_with-append (c ∷ p) s = rw (==_refl, starts_with-append p s)

list_eq-longer : (a : List ℕ) (c : ℕ) (s : List ℕ) → list_eq a (a ++ (c ∷ s)) ≡ false
list_eq-longer [] c s = refl
list_eq-longer (x ∷ a) c s = rw (==_refl, list_eq-longer a c s)

join_with-append :
    (p : List ℕ) (ps : List (List ℕ)) (q : List ℕ) (qs : List (List ℕ))
    → join_with slash ((p ∷ ps) ++ (q ∷ qs))
      ≡ join_with slash (p ∷ ps) ++ (slash ∷ join_with slash (q ∷ qs))
unfolding join_with
join_with-append p [] q qs = refl
join_with-append p (r ∷ ps) q qs = rw (append_assoc, ← join_with-append r ps q qs)

-- The path of a node is seen without the chroot: its names behind the chroot's become an absolute
-- path of their own. The chroot has a name at least.
pub unchroot-absolute :
    (p : List ℕ) (ps qs : List (List ℕ))
    → unchroot (absolute (p ∷ ps)) (absolute ((p ∷ ps) ++ qs)) ≡ absolute qs
unfolding unchroot
unchroot-absolute p ps [] =
    rw (append-nil ps, (list_eq_iff (join_with slash (p ∷ ps)) _).1 refl) (unfold join_with in refl)
unchroot-absolute p ps (q ∷ qs) =
    let front = join_with slash (p ∷ ps) in
    let back = join_with slash (q ∷ qs) in
    rw (
      join_with-append p ps q qs,
      list_eq-longer front slash back,
      starts_with-append (slash ∷ front) (slash ∷ back),
      drop-append front (slash ∷ back),
    )

-- With a chroot other than the root, every path that `_prefix_root` makes for the server without a
-- trailing slash to keep is seen by the client as the absolute normal form of the path that it gave.
pub unchroot-prefix_root :
    (root path chroot full : List ℕ)
    → norm_root root ≡ ok chroot
    → chroot ≢ slash ∷ []
    → prefix_root chroot path false ≡ ok full
    → norm_root path ≡ ok (unchroot chroot full)
unchroot-prefix_root root path chroot full h ne e =
    let (rs, a, a') = >>=-eq-ok (names root) _ (sym (norm_root_lem root) ∙ h) in
    let (rs', b, b') = >>=-eq-ok (names chroot) _ (sym (prefix_root-names chroot path) ∙ e) in
    let (ps, d, d') = >>=-eq-ok (names path) _ b' in
    let same : rs' ≡ rs = names_of_root rs rs' chroot (names-IsName root rs a) a' b in
    norm_root_lem path ∙ rw d (ap ok (sym (seen rs rs' ps chroot full a' same ne d')))
  where
    names_of_root :
        (rs rs' : List (List ℕ)) (chroot : List ℕ)
        → All IsName rs
        → ok (absolute rs) ≡ ok chroot
        → names chroot ≡ ok rs'
        → rs' ≡ rs
    names_of_root rs rs' chroot good a b =
        cc (names-slash (join_with slash rs), names-join_with rs good)

    seen :
        (rs rs' ps : List (List ℕ)) (chroot full : List ℕ)
        → ok (absolute rs) ≡ ok chroot
        → rs' ≡ rs
        → chroot ≢ slash ∷ []
        → ok (absolute (rs' ++ ps)) ≡ ok full
        → unchroot chroot full ≡ absolute ps
    seen [] rs' ps chroot full a s ne d = absurd (ne (unfold join_with in cc))
    seen (r ∷ rs) rs' ps chroot full a s ne d = cc (unchroot-absolute r rs ps)

-- The root itself may be the chroot, from hosts like "h:2181//": then a path loses its slash.
pub unchroot-root : (c : ℕ) (s : List ℕ) → unchroot (slash ∷ []) (slash ∷ c ∷ s) ≡ c ∷ s
unfolding unchroot starts_with
unchroot-root c s = refl
