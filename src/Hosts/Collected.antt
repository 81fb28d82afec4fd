-- ===== src/Hosts/Collected.antt =====
-- The hosts and the chroot of a connection string, and what may change later.
use kazoo.Base.{
  ℕ, List, [], ◌∷◌, ◌++◌, ◌≡◌, refl, ap, Option, some, ==_refl, Bool-cases, inl, inr, All, Result,
  ok, err, ◌>>=◌, Result-cases, list_eq, list_eq_iff,
}
use kazoo.Python.Text.{join_with}
use kazoo.Python.Text.Split.{IsPiece, split-join_with}
use kazoo.Paths.{slash}
use kazoo.Hosts.{
  Hosts, text, partition, comma, divided, resolve_all, collect_hosts, Settings, rechroot, set_hosts,
}

partition-piece : (c : ℕ) (s t : List ℕ) → IsPiece c s → partition c (s ++ c ∷ t) ≡ (s, t)
unfolding partition
partition-piece c [] t h = rw (==_refl c) refl
partition-piece c (d ∷ s) t h = rw (h.0, partition-piece c s t h.1) refl

rechroot-some :
    (r : Result (List ℕ)) (s : Settings) (d : List ℕ)
    → s.chroot ≡ some d
    → (rechroot r s).0.chroot ≡ some d
rechroot-some (err e) s d h = h
rechroot-some (ok c) s d h = elim (Bool-cases (list_eq c d)) [
  | inl e ↦ rw (h, e) (ap some ((list_eq_iff c d).0 e))
  | inr e ↦ rw (h, e) refl
]

module _ (urlsplit : List ℕ → Result (Option (List ℕ) × Option ℕ)) where
  -- A connection string of hosts between commas and a path gives each host by itself, in order, and
  -- the path as the chroot; no host has a slash, and the path is not empty.
  pub collect_hosts-text :
      (h : List ℕ) (hs : List (List ℕ)) (c : ℕ) (cs : List ℕ)
      → All (IsPiece comma) (h ∷ hs)
      → IsPiece slash (join_with comma (h ∷ hs))
      → collect_hosts urlsplit (text (join_with comma (h ∷ hs) ++ slash ∷ c ∷ cs))
        ≡ (resolve_all urlsplit (h ∷ hs) >>= λ rs. ok (rs, some (slash ∷ c ∷ cs)))
  unfolding collect_hosts divided
  collect_hosts-text h hs c cs k s =
      rw (partition-piece slash (join_with comma (h ∷ hs)) (c ∷ cs) s, split-join_with comma h hs k)
        refl

  -- Once it is set, the chroot never changes, whether `set_hosts` returns or raises.
  pub set_hosts-chroot :
      (h : Hosts) (s : Settings) (d : List ℕ)
      → s.chroot ≡ some d
      → (set_hosts urlsplit h s).0.chroot ≡ some d
  unfolding set_hosts
  set_hosts-chroot h s d e = elim (Result-cases (collect_hosts urlsplit h)) [
    | inl (p, q) ↦ rw q (rechroot-some _ (record s { hosts = p.0 }) d e)
    | inr (x, q) ↦ rw q e
  ]
