-- ===== src/Tests/Trees.antt =====
-- Servers that keep a set of paths.
use kazoo.Base.{
  ℕ, ◌≡◌, refl, List, [], ◌∷◌, ◌++◌, Bool, true, false, ◌||◌, ◌&&◌, not, ok, err, list_eq,
  zookeeper_error, if◌then◌else◌, arith, not_both,
}
use kazoo.Exceptions.{no_node_error, node_exists_error}
use kazoo.Python.Text.{codes}
use kazoo.Python.Path.{slash, split, IsName, text_of, path_of, split-path_of}
use kazoo.Client.Making.{Requests, ensure_path, do_create, delete_recursive}
use kazoo.Client.Making.Ensured.{IsTree, IsClosed, IsEnsured, ensure_path-IsEnsured}

abbrev Paths : Type 0
Paths = List ℕ → Bool

abbrev with_path : Paths → List ℕ → Paths
with_path w p q = w q || list_eq q p

abbrev kept_tree : Requests
kept_tree = record {
  World = Paths;
  exists = λ w p. (w, ok (w p));
  create = λ w p d ephemeral numbered.
      if w p
      then (w, err (zookeeper_error node_exists_error))
      else if w (split p).0
      then (with_path w p, ok p)
      else (w, err (zookeeper_error no_node_error));
  get_children = λ w p. (w, ok []);
  delete = λ w p. (λ q. w q && not (list_eq q p), ok tt);
}

abbrev kept_tree-IsTree : IsTree kept_tree
kept_tree-IsTree = record {
  has = λ w p. w p;
  added = with_path;
  has-added = λ w p q. refl;
  exists_answer = λ w p. refl;
  create_answer = λ w n ns a b there new. rw (new, split-path_of n ns a b, there) refl;
}

-- Only the root is there.
abbrev root_only : Paths
root_only p = list_eq p (slash ∷ [])

not_root : (t m n : List ℕ) → list_eq ((t ++ (slash ∷ m)) ++ (slash ∷ n)) (slash ∷ []) ≡ false
not_root [] [] n = refl
not_root [] (c ∷ m) n = refl
not_root (c ∷ []) m n = ground arith
not_root (c ∷ d ∷ t) m n = ground arith

root_only-IsClosed : IsClosed kept_tree kept_tree-IsTree root_only
root_only-IsClosed n [] h = refl
root_only-IsClosed n (m ∷ ns) h = absurd (not_both _ h (not_root (text_of ns) m n))

a-IsName : IsName (codes "a")
a-IsName = ((refl, tt), λ e. ground arith)

b-IsName : IsName (codes "b")
b-IsName = ((refl, tt), λ e. ground arith)

ensure_path-IsEnsured_example :
    IsEnsured kept_tree kept_tree-IsTree root_only
      (codes "b" ∷ codes "a" ∷ [])
      (ensure_path kept_tree root_only (path_of (codes "b" ∷ codes "a" ∷ [])))
ensure_path-IsEnsured_example =
    ensure_path-IsEnsured kept_tree kept_tree-IsTree (codes "b" ∷ codes "a" ∷ []) root_only
      root_only-IsClosed refl (b-IsName, (a-IsName, tt))

-- A path with a slash at its end: what is above it is not made.
trailing_test :
    (ensure_path kept_tree root_only (codes "/a/b/")).1 ≡ err (zookeeper_error no_node_error)
unfolding ensure_path kazoo.Client.Making.ensuring split kazoo.Python.Path.rstrip
    kazoo.Python.Path.halves
trailing_test = refl

-- `create` with `makepath`.
makepath_test :
    (do_create kept_tree 2 (codes "/a/b") [] false false true root_only).1 ≡ ok (codes "/a/b")
unfolding do_create split kazoo.Client.Making.ensuring ensure_path kazoo.Python.Path.rstrip
    kazoo.Python.Path.halves
makepath_test = refl

delete_test : (delete_recursive kept_tree 1 root_only (codes "/")).0 (codes "/") ≡ false
unfolding delete_recursive
delete_test = refl
