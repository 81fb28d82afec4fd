-- ===== src/Python/Path.antt =====
-- Python's `os.path.split` on POSIX.
use kazoo.Base.{
  ℕ, suc, ◌+◌, ◌≤◌, ◌<◌, ◌≡◌, ◌≢◌, refl, ap, List, [], ◌∷◌, ◌++◌, false, ◌==◌, if◌then◌else◌,
  length, All, arith,
}

abbrev pub slash : ℕ
slash = b'/'

-- What ends with the last slash, and what is behind it.
abbrev with_first : ℕ → List ℕ × List ℕ → List ℕ × List ℕ
with_first c ([], tail) = if c == slash then (c ∷ [], tail) else ([], c ∷ tail)
with_first c (d ∷ head, tail) = (c ∷ d ∷ head, tail)

unfoldable pub halves : List ℕ → List ℕ × List ℕ
halves [] = ([], [])
halves (c ∷ s) = with_first c (halves s)

abbrev without_last : ℕ → List ℕ → List ℕ
without_last c [] = if c == slash then [] else c ∷ []
without_last c (d ∷ s) = c ∷ d ∷ s

-- s.rstrip("/")
unfoldable pub rstrip : List ℕ → List ℕ
rstrip [] = []
rstrip (c ∷ s) = without_last c (rstrip s)

-- A head of slashes only stays.
abbrev unless_empty : List ℕ → List ℕ → List ℕ
unless_empty head [] = head
unless_empty head (c ∷ s) = c ∷ s

unfoldable pub split : List ℕ → List ℕ × List ℕ
unfolding halves rstrip
split p = let h = halves p in (unless_empty h.0 (rstrip h.0), h.1)

with_first-length :
    (c : ℕ) (h : List ℕ × List ℕ)
    → length (with_first c h).0 + length (with_first c h).1 ≡ 1 + (length h.0 + length h.1)
with_first-length c ([], tail) = ground arith
with_first-length c (d ∷ head, tail) = omega arith

halves-length : (p : List ℕ) → length (halves p).0 + length (halves p).1 ≡ length p
unfolding halves
halves-length [] = refl
halves-length (c ∷ s) = omega (arith, with_first-length c (halves s), halves-length s)

without_last-length : (c : ℕ) (s : List ℕ) → length (without_last c s) ≤ 1 + length s
without_last-length c [] = ground arith
without_last-length c (d ∷ s) = omega arith

rstrip-length : (s : List ℕ) → length (rstrip s) ≤ length s
unfolding rstrip
rstrip-length [] = omega arith
rstrip-length (c ∷ s) = omega (arith, without_last-length c (rstrip s), rstrip-length s)

unless_empty-length : (h s : List ℕ) → length s ≤ length h → length (unless_empty h s) ≤ length h
unless_empty-length h [] l = omega arith
unless_empty-length h (c ∷ s) l = l

length-of : (s : List ℕ) {c : ℕ} (node : List ℕ) → s ≡ c ∷ node → length s ≡ suc (length node)
length-of s node e = ap length e

-- Where a path has a last component, what is before it is shorter.
pub split-length :
    (p : List ℕ) (c : ℕ) (node : List ℕ) → (split p).1 ≡ c ∷ node → length (split p).0 < length p
unfolding split
split-length p c node e = omega (
  arith,
  halves-length p,
  length-of (halves p).1 node e,
  unless_empty-length (halves p).0 (rstrip (halves p).0) (rstrip-length (halves p).0),
)

-- A name has no slash in it.
abbrev pub IsName : List ℕ → Type 0
IsName n = All (λ c. (c == slash) ≡ false) n × (n ≢ [])

halves-name : (n : List ℕ) → All (λ c. (c == slash) ≡ false) n → halves n ≡ ([], n)
unfolding halves
halves-name [] a = refl
halves-name (c ∷ n) a = rw (halves-name n a.1, a.0)

halves-append :
    (p n : List ℕ)
    → All (λ c. (c == slash) ≡ false) n
    → halves (p ++ (slash ∷ n)) ≡ (p ++ (slash ∷ []), n)
unfolding halves
halves-append [] n a = rw (halves-name n a)
halves-append (c ∷ []) n a = rw (halves-name n a)
halves-append (c ∷ d ∷ p) n a = rw (halves-append (d ∷ p) n a)

rstrip-name : (n : List ℕ) → All (λ c. (c == slash) ≡ false) n → rstrip (n ++ (slash ∷ [])) ≡ n
unfolding rstrip
rstrip-name [] a = refl
rstrip-name (c ∷ []) a = rw a.0
rstrip-name (c ∷ d ∷ n) a = rw (rstrip-name (d ∷ n) a.1)

rstrip-append :
    (p s : List ℕ) (c : ℕ) (rest : List ℕ) → rstrip s ≡ c ∷ rest → rstrip (p ++ s) ≡ p ++ (c ∷ rest)
unfolding rstrip
rstrip-append [] s c rest e = e
rstrip-append (d ∷ []) s c rest e = rw e
rstrip-append (d ∷ f ∷ p) s c rest e = rw (rstrip-append (f ∷ p) s c rest e)

-- The text of a path of names, the last of them first, without the root's own slash.
abbrev pub text_of : List (List ℕ) → List ℕ
text_of [] = []
text_of (n ∷ ns) = text_of ns ++ (slash ∷ n)

abbrev pub path_of : List (List ℕ) → List ℕ
path_of [] = slash ∷ []
path_of (n ∷ ns) = text_of (n ∷ ns)

pub append_assoc : (p q r : List ℕ) → (p ++ q) ++ r ≡ p ++ (q ++ r)
append_assoc [] q r = refl
append_assoc (c ∷ p) q r = ap (λ s. c ∷ s) (append_assoc p q r)

head_of :
    (ns : List (List ℕ))
    → All IsName ns
    → unless_empty (text_of ns ++ (slash ∷ [])) (rstrip (text_of ns ++ (slash ∷ []))) ≡ path_of ns
unfolding rstrip
head_of [] a = refl
head_of ([] ∷ ns) a = absurd (a.0.1 refl)
head_of ((c ∷ n) ∷ ns) a =
    rw
      (
        append_assoc (text_of ns) (slash ∷ c ∷ n) (slash ∷ []),
        rstrip-append (text_of ns) (slash ∷ ((c ∷ n) ++ (slash ∷ []))) slash (c ∷ n)
            (rw (rstrip-name (c ∷ n) a.0.0)),
      )
      (keeps _ (text_of ns))
  where
    keeps : (h p : List ℕ) → unless_empty h (p ++ (slash ∷ c ∷ n)) ≡ p ++ (slash ∷ c ∷ n)
    keeps h [] = refl
    keeps h (d ∷ p) = refl

-- The parent and the name of a path of names.
pub split-path_of :
    (n : List ℕ) (ns : List (List ℕ))
    → IsName n
    → All IsName ns
    → split (path_of (n ∷ ns)) ≡ (path_of ns, n)
unfolding split
split-path_of n ns a b = rw (halves-append (text_of ns) n a.0) (ap (λ h. (h, n)) (head_of ns b))
