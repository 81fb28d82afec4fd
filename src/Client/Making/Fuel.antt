-- ===== src/Client/Making/Fuel.antt =====
-- `ensure_path` has fuel enough.
use kazoo.Base.{
  ℕ, zero, suc, ◌<◌, ◌≡◌, refl, ap, length, List, [], ◌∷◌, Bool, true, false, Result, ok, err,
  arith,
}
use kazoo.Python.Path.{split, split-length}
use kazoo.Client.Making.{
  Requests, prepare_completion, make_parent, exists_completion, ensuring, ensure_path,
}

module _ (zk : Requests) where
  open zk use {World}

  parents_agree :
      (n m : ℕ) (path : List ℕ) (w : World) (p : List ℕ × List ℕ)
      → split path ≡ p
      → length path < suc n
      → length path < suc m
      → ((w : World) (q : List ℕ)
          → length q < n
          → length q < m
          → ensuring zk n w q ≡ ensuring zk m w q)
      → make_parent zk (ensuring zk n) path w p ≡ make_parent zk (ensuring zk m) path w p
  parents_agree n m path w (parent, []) e h g ih = refl
  parents_agree n m path w (parent, c ∷ node) e h g ih =
      let short : length (split path).0 < length path =
        split-length path c node (ap (λ p. p.1) e) in
      let eq : length (split path).0 ≡ length parent = ap (λ (p : List ℕ × List ℕ). length p.0) e in
      ap (prepare_completion zk path) (ih w parent (omega arith) (omega arith))

  answers_agree :
      (n m : ℕ) (path : List ℕ) (r : World × Result Bool)
      → length path < suc n
      → length path < suc m
      → ((w : World) (q : List ℕ)
          → length q < n
          → length q < m
          → ensuring zk n w q ≡ ensuring zk m w q)
      → exists_completion zk (ensuring zk n) path r ≡ exists_completion zk (ensuring zk m) path r
  answers_agree n m path (w, ok true) h g ih = refl
  answers_agree n m path (w, ok false) h g ih = parents_agree n m path w (split path) refl h g ih
  answers_agree n m path (w, err e) h g ih = refl

  ensuring_agree :
      (n m : ℕ) (w : World) (path : List ℕ)
      → length path < n
      → length path < m
      → ensuring zk n w path ≡ ensuring zk m w path
  unfolding ensuring
  ensuring_agree zero m w path h g = absurd (omega arith)
  ensuring_agree (suc n) zero w path h g = absurd (omega arith)
  ensuring_agree (suc n) (suc m) w path h g =
      answers_agree n m path (zk.exists w path) h g (ensuring_agree n m)

  -- Fuel for each character of a path, and one more, is enough: more changes nothing.
  pub ensuring-ensure_path :
      (fuel : ℕ) (w : World) (path : List ℕ)
      → length path < fuel
      → ensuring zk fuel w path ≡ ensure_path zk w path
  unfolding ensure_path
  ensuring-ensure_path fuel w path h =
      ensuring_agree fuel (suc (length path)) w path h (omega arith)
