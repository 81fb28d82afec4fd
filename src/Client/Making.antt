-- ===== src/Client/Making.antt =====
-- `ensure_path_async`, the callbacks of `create_async` and `_delete_recursive` of kazoo/client.py. Each
-- callback runs when the request that it waits for was answered, so each object is set behind a sequence
-- of requests: what it is set to is the result here. `Requests` is what the requests' objects are set to.
pub mod Ensured
mod Fuel
use kazoo.Base.{
  ℕ, zero, suc, ◌+◌, List, [], ◌∷◌, ◌++◌, Option, none, some, Bool, true, false, ◌&&◌, Exn, Result,
  ok, err, zookeeper_error, out_of_fuel, if◌then◌else◌, length, list_eq,
}
use kazoo.Exceptions.{no_node_error, node_exists_error}
use kazoo.Python.Text.{ends_with_char}
use kazoo.Python.Path.{slash, split, rstrip}

-- `exists_async`, `create_async` without a missing parent, and the blocking `get_children` and `delete`.
-- The access control list is the same in all calls of one operation, and not shown.
pub record Requests : Type 1 where
  pub World : Type 0
  pub exists : World → List ℕ → World × Result Bool
  pub create : World → List ℕ → List ℕ → Bool → Bool → World × Result (List ℕ)
  pub get_children : World → List ℕ → World × Result (List (List ℕ))
  pub delete : World → List ℕ → World × Result (Unit {0})

-- except NodeExistsError / except NoNodeError
abbrev pub is_node_exists : Exn → Bool
is_node_exists (zookeeper_error node_exists_error) = true
is_node_exists _ = false

abbrev pub is_no_node : Exn → Bool
is_no_node (zookeeper_error no_node_error) = true
is_no_node _ = false

module _ (zk : Requests) where
  open zk use {World}

  -- What an object of `ensure_path_async` is set to: True is none, and the path of a node that was made
  -- is the path that its creation gave.
  abbrev pub Ensuring : Type 0
  Ensuring = World × Result (Option (List ℕ))

  abbrev pub create_completion : World × Result (List ℕ) → Ensuring
  create_completion (w, ok path) = (w, ok (some path))
  create_completion (w, err e) = (w, if is_node_exists e then ok none else err e)

  abbrev pub prepare_completion : List ℕ → Ensuring → Ensuring
  prepare_completion path (w, ok reply) = create_completion (zk.create w path [] false false)
  prepare_completion path (w, err e) = (w, err e)

  -- The parent comes first if the path has a name behind its last slash.
  abbrev pub make_parent : (World → List ℕ → Ensuring) → List ℕ → World → List ℕ × List ℕ → Ensuring
  make_parent ensure path w (parent, []) = create_completion (zk.create w path [] false false)
  make_parent ensure path w (parent, c ∷ node) = prepare_completion path (ensure w parent)

  abbrev pub exists_completion :
      (World → List ℕ → Ensuring) → List ℕ → World × Result Bool → Ensuring
  exists_completion ensure path (w, ok true) = (w, ok none)
  exists_completion ensure path (w, ok false) = make_parent ensure path w (split path)
  exists_completion ensure path (w, err e) = (w, err e)

  unfoldable pub ensuring : ℕ → World → List ℕ → Ensuring
  ensuring zero w path = (w, err out_of_fuel)
  ensuring (suc fuel) w path = exists_completion (ensuring fuel) path (zk.exists w path)

  -- Every parent is shorter than its path.
  unfoldable pub ensure_path : World → List ℕ → Ensuring
  ensure_path w path = ensuring (suc (length path)) w path

  -- `create_async` with `makepath`: where the parent was missing it is made, and `do_create` runs again.
  abbrev pub parent_of : Bool → List ℕ → List ℕ
  parent_of sequence path =
      if sequence && ends_with_char slash path then rstrip path else (split path).0

  abbrev pub retry_completion :
      (World → World × Result (List ℕ)) → Ensuring → World × Result (List ℕ)
  retry_completion do_create (w, ok reply) = do_create w
  retry_completion do_create (w, err e) = (w, err e)

  abbrev pub missing_parent :
      Bool
      → Exn
      → Bool
      → List ℕ
      → (World → World × Result (List ℕ))
      → World
      → World × Result (List ℕ)
  missing_parent true e sequence path do_create w =
      retry_completion do_create (ensure_path w (parent_of sequence path))
  missing_parent false e sequence path do_create w = (w, err e)

  abbrev pub created :
      Bool
      → Bool
      → List ℕ
      → (World → World × Result (List ℕ))
      → World × Result (List ℕ)
      → World × Result (List ℕ)
  created makepath sequence path do_create (w, ok new_path) = (w, ok new_path)
  created makepath sequence path do_create (w, err e) =
      missing_parent (is_no_node e && makepath) e sequence path do_create w

  -- One piece of fuel for each run of `do_create`: others may delete the parent again.
  unfoldable pub do_create :
      ℕ → List ℕ → List ℕ → Bool → Bool → Bool → World → World × Result (List ℕ)
  unfolding ensure_path
  do_create zero path value ephemeral sequence makepath w = (w, err out_of_fuel)
  do_create (suc fuel) path value ephemeral sequence makepath w =
      created makepath sequence path (do_create fuel path value ephemeral sequence makepath)
        (zk.create w path value ephemeral sequence)

  -- `_delete_recursive`, one piece of fuel for each level of the tree.
  abbrev pub child_path : List ℕ → List ℕ → List ℕ
  child_path path child =
      if list_eq path (slash ∷ []) then path ++ child else path ++ (slash ∷ child)

  abbrev pub then_rest :
      (World → World × Result (Unit {0})) → World × Result (Unit {0}) → World × Result (Unit {0})
  then_rest rest (w, ok reply) = rest w
  then_rest rest (w, err e) = (w, err e)

  abbrev pub delete_each :
      (World → List ℕ → World × Result (Unit {0}))
      → List ℕ
      → List (List ℕ)
      → World
      → World × Result (Unit {0})
  delete_each delete path [] w = (w, ok tt)
  delete_each delete path (child ∷ children) w =
      then_rest (delete_each delete path children) (delete w (child_path path child))

  abbrev pub unless_gone : World × Result (Unit {0}) → World × Result (Unit {0})
  unless_gone (w, ok reply) = (w, ok tt)
  unless_gone (w, err e) = (w, if is_no_node e then ok tt else err e)

  abbrev pub delete_below :
      (World → List ℕ → World × Result (Unit {0}))
      → List ℕ
      → World × Result (List (List ℕ))
      → World × Result (Unit {0})
  delete_below delete path (w, ok children) =
      then_rest (λ v. unless_gone (zk.delete v path)) (delete_each delete path children w)
  delete_below delete path (w, err e) = (w, if is_no_node e then ok tt else err e)

  unfoldable pub delete_recursive : ℕ → World → List ℕ → World × Result (Unit {0})
  delete_recursive zero w path = (w, err out_of_fuel)
  delete_recursive (suc fuel) w path =
      delete_below (delete_recursive fuel) path (zk.get_children w path)
