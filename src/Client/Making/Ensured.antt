-- ===== src/Client/Making/Ensured.antt =====
-- `ensure_path` makes a path and what is missing above it, and nothing else.
use mathlib.Core.Path.{subst}
use kazoo.Base.{
  ℕ, zero, suc, ◌<◌, ◌≤◌, ◌≡◌, refl, sym, ap, length, List, [], ◌∷◌, All, Bool, true, false, ◌||◌,
  Option, none, some, Result, ok, err, list_eq, list_eq_iff, Bool-cases, inl, inr, arith,
  length-append,
}
use kazoo.Python.Path.{slash, IsName, text_of, path_of, split-path_of}
use kazoo.Client.Making.{Requests, prepare_completion, ensuring, ensure_path}

abbrev pub Names : Type 0
Names = List (List ℕ)

-- Whether a path is that of the names, or above it; the root is above all.
abbrev pub is_above : List ℕ → Names → Bool
is_above q [] = list_eq q (path_of [])
is_above q (n ∷ ns) = list_eq q (path_of (n ∷ ns)) || is_above q ns

-- Servers that keep a tree of nodes and answer all requests; `has` tells which nodes there are.
pub record IsTree (zk : Requests) : Type 1 where
  pub has : zk.World → List ℕ → Bool
  pub added : zk.World → List ℕ → zk.World
  pub has-added : (w : zk.World) (p q : List ℕ) → has (added w p) q ≡ (has w q || list_eq q p)
  pub exists_answer : (w : zk.World) (p : List ℕ) → zk.exists w p ≡ (w, ok (has w p))
  pub create_answer :
      (w : zk.World) (n : List ℕ) (ns : Names)
      → IsName n
      → All IsName ns
      → has w (path_of ns) ≡ true
      → has w (path_of (n ∷ ns)) ≡ false
      → zk.create w (path_of (n ∷ ns)) [] false false
        ≡ (added w (path_of (n ∷ ns)), ok (path_of (n ∷ ns)))

list_eq-length : (p q : List ℕ) → list_eq p q ≡ true → length p ≡ length q
list_eq-length p q h = ap length ((list_eq_iff p q).0 h)

path_of-length :
    (n : List ℕ) (ns : Names) → IsName n → length (path_of ns) < length (path_of (n ∷ ns))
path_of-length [] ns a = absurd (a.1 refl)
path_of-length (c ∷ n) [] a = omega arith
path_of-length (c ∷ n) (m ∷ ns) a = omega (arith, length-append (text_of (m ∷ ns)) (slash ∷ c ∷ n))

is_above-length :
    (q : List ℕ) (ns : Names)
    → All IsName ns
    → is_above q ns ≡ true
    → length q ≤ length (path_of ns)
is_above-length q [] a h = omega (arith, list_eq-length q (path_of []) h)
is_above-length q (n ∷ ns) a h = elim (Bool-cases (list_eq q (path_of (n ∷ ns)))) [
  | inl e ↦ omega (arith, list_eq-length q (path_of (n ∷ ns)) e)
  | inr e ↦ omega (arith, is_above-length q ns a.1 (rw e at h), path_of-length n ns a.0)
]

is_above_refl : (ns : Names) → is_above (path_of ns) ns ≡ true
is_above_refl [] = refl
is_above_refl (n ∷ ns) = rw ((list_eq_iff (path_of (n ∷ ns)) (path_of (n ∷ ns))).1 refl)

child_not_above :
    (n : List ℕ) (ns : Names) → IsName n → All IsName ns → is_above (path_of (n ∷ ns)) ns ≡ false
child_not_above n ns a b = elim (Bool-cases (is_above (path_of (n ∷ ns)) ns)) [
  | inl h ↦
      let long : length (path_of (n ∷ ns)) ≤ length (path_of ns) =
        is_above-length (path_of (n ∷ ns)) ns b h in
      absurd (too_long long (path_of-length n ns a))
  | inr h ↦ h
]
  where
    too_long : {k l : ℕ} → k ≤ l → l < k → ⊥
    too_long g h = omega arith

module _ (zk : Requests) (tree : IsTree zk) where
  open zk use {World}
  open tree use {has, added, has-added, exists_answer, create_answer}

  -- A node's parent is there.
  abbrev pub IsClosed : World → Type 0
  IsClosed w =
      (n : List ℕ) (ns : Names) → has w (path_of (n ∷ ns)) ≡ true → has w (path_of ns) ≡ true

  -- It succeeded, and the nodes are those of before, the path's and those above it.
  abbrev pub IsEnsured : World → Names → World × Result (Option (List ℕ)) → Type 0
  IsEnsured w ns r =
      ((reply : Option (List ℕ)) × (r.1 ≡ ok reply))
      × ((q : List ℕ) → has r.0 q ≡ (has w q || is_above q ns))

  is_above-has :
      (w : World) (ns : Names) (q : List ℕ)
      → IsClosed w
      → has w (path_of ns) ≡ true
      → is_above q ns ≡ true
      → has w q ≡ true
  is_above-has w [] q c h a = subst (λ p. has w p ≡ true) (sym ((list_eq_iff q (path_of [])).0 a)) h
  is_above-has w (n ∷ ns) q c h a = elim (Bool-cases (list_eq q (path_of (n ∷ ns)))) [
    | inl e ↦ subst (λ p. has w p ≡ true) (sym ((list_eq_iff q (path_of (n ∷ ns))).0 e)) h
    | inr e ↦ is_above-has w ns q c (c n ns h) (rw e at a)
  ]

  there-IsEnsured :
      (w : World) (ns : Names)
      → IsClosed w
      → has w (path_of ns) ≡ true
      → IsEnsured w ns (w, ok none)
  there-IsEnsured w ns c h = ((none, refl), λ q. ground (arith, is_above-has w ns q c h))

  made-IsEnsured :
      (w : World) (n : List ℕ) (ns : Names) (r : World × Result (Option (List ℕ)))
      → IsName n
      → All IsName ns
      → has w (path_of (n ∷ ns)) ≡ false
      → IsEnsured w ns r
      → IsEnsured w (n ∷ ns) (prepare_completion zk (path_of (n ∷ ns)) r)
  made-IsEnsured w n ns (v, ok reply) a b f h =
      let there : has v (path_of ns) ≡ true = ground (arith, h.1 (path_of ns), is_above_refl ns) in
      let new : has v (path_of (n ∷ ns)) ≡ false =
        ground (arith, h.1 (path_of (n ∷ ns)), f, child_not_above n ns a b) in
      rw (create_answer v n ns a b there new) (
        (some (path_of (n ∷ ns)), refl),
        λ q. ground (arith, has-added v (path_of (n ∷ ns)) q, h.1 q),
      )
  made-IsEnsured w n ns (v, err e) a b f h = cc

  ensuring-IsEnsured :
      (ns : Names) (fuel : ℕ) (w : World)
      → IsClosed w
      → has w (path_of []) ≡ true
      → All IsName ns
      → length ns < fuel
      → IsEnsured w ns (ensuring zk fuel w (path_of ns))
  unfolding ensuring
  ensuring-IsEnsured ns zero w c h a l = absurd (omega arith)
  ensuring-IsEnsured [] (suc fuel) w c h a l =
      rw (exists_answer w (path_of []), h) (there-IsEnsured w [] c h)
  ensuring-IsEnsured ([] ∷ ns) (suc fuel) w c h a l = absurd (a.0.1 refl)
  ensuring-IsEnsured ((k ∷ n) ∷ ns) (suc fuel) w c h a l =
      elim (Bool-cases (has w (path_of ((k ∷ n) ∷ ns)))) [
        | inl t ↦
            rw (exists_answer w (path_of ((k ∷ n) ∷ ns)), t) (there-IsEnsured w ((k ∷ n) ∷ ns) c t)
        | inr f ↦
            rw (exists_answer w (path_of ((k ∷ n) ∷ ns)), f, split-path_of (k ∷ n) ns a.0 a.1)
              (made-IsEnsured w (k ∷ n) ns (ensuring zk fuel w (path_of ns)) a.0 a.1 f
                (ensuring-IsEnsured ns fuel w c h a.1 (omega arith)))
      ]

  length-path_of : (ns : Names) → All IsName ns → length ns ≤ length (path_of ns)
  length-path_of [] a = omega arith
  length-path_of (n ∷ ns) a = omega (arith, path_of-length n ns a.0, length-path_of ns a.1)

  -- On servers that keep a tree of nodes, `ensure_path` succeeds for every path of names, and afterwards
  -- there are the nodes of before, the path's own and those above it, and no others.
  pub ensure_path-IsEnsured :
      (ns : Names) (w : World)
      → IsClosed w
      → has w (path_of []) ≡ true
      → All IsName ns
      → IsEnsured w ns (ensure_path zk w (path_of ns))
  unfolding ensure_path
  ensure_path-IsEnsured ns w c h a =
      ensuring-IsEnsured ns (suc (length (path_of ns))) w c h a (omega (arith, length-path_of ns a))
