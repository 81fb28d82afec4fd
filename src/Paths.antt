-- ===== src/Paths.antt =====
-- kazoo/protocol/paths.py, and `unchroot` of kazoo/client.py.
pub mod Names
pub mod Normal
pub mod Chroot
use kazoo.Base.{
  ℕ, List, [], ◌∷◌, ◌++◌, Bool, true, false, ◌&&◌, ◌||◌, not, list_eq, length, drop, if◌then◌else◌,
  value_error, Result, ok, err, ◌>>=◌,
}
use kazoo.Python.Text.{starts_with, starts_with_char, ends_with_char, lstrip, split, join_with}

abbrev pub slash : ℕ
slash = b'/'

abbrev pub dot : ℕ
dot = b'.'

-- comp in (".", "..")
abbrev pub is_dots : List ℕ → Bool
is_dots comp = list_eq comp (dot ∷ []) || list_eq comp (dot ∷ dot ∷ [])

-- The loop of `normpath` over the components.
unfoldable pub keep_comps : List (List ℕ) → Result (List (List ℕ))
keep_comps [] = ok []
keep_comps (comp ∷ comps) =
    let others = keep_comps comps in
    let kept = others >>= λ rest. ok (comp ∷ rest) in
    if list_eq comp [] then others else if is_dots comp then err value_error else kept

-- `new_path += "/"` where the caller wants the trailing slash kept.
abbrev pub with_trailing : Bool → List ℕ → List ℕ → List ℕ
with_trailing trailing path new_path =
    if trailing && ends_with_char slash path then new_path ++ slash ∷ [] else new_path

abbrev pub with_leading : List ℕ → List ℕ → List ℕ
with_leading path new_path =
    if starts_with_char slash path && not (list_eq new_path (slash ∷ []))
    then slash ∷ new_path
    else new_path

unfoldable pub normpath : List ℕ → Bool → Result (List ℕ)
unfolding keep_comps
normpath path trailing = keep_comps (split slash path) >>= λ new_comps.
    ok (with_leading path (with_trailing trailing path (join_with slash new_comps)))

-- One round of the loop of `join`.
unfoldable pub join_one : List ℕ → List ℕ → List ℕ
join_one path b =
    if starts_with_char slash b
    then b
    else if list_eq path [] || ends_with_char slash path
    then path ++ b
    else path ++ (slash ∷ b)

unfoldable pub join : List ℕ → List (List ℕ) → List ℕ
unfolding join_one
join a [] = a
join a (b ∷ p) = join (join_one a b) p

isabs : List ℕ → Bool
isabs s = starts_with_char slash s

-- p[p.rfind("/") + 1:], by the last piece between slashes.
last_piece : List (List ℕ) → List ℕ
last_piece [] = []
last_piece (s ∷ []) = s
last_piece (s ∷ t ∷ ps) = last_piece (t ∷ ps)

basename : List ℕ → List ℕ
unfolding last_piece
basename p = last_piece (split slash p)

unfoldable pub norm_root : List ℕ → Result (List ℕ)
unfolding join normpath
norm_root root = normpath (join (slash ∷ []) (root ∷ [])) false

unfoldable pub prefix_root : List ℕ → List ℕ → Bool → Result (List ℕ)
unfolding norm_root
prefix_root root path trailing =
    norm_root root >>= λ r. normpath (join r (lstrip slash path ∷ [])) trailing

-- `KazooClient.unchroot`, for the client's `chroot`.
unfoldable pub unchroot : List ℕ → List ℕ → List ℕ
unchroot chroot path =
    if list_eq chroot []
    then path
    else if list_eq chroot path
    then slash ∷ []
    else if starts_with chroot path
    then drop (length chroot) path
    else path
