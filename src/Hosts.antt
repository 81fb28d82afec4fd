-- ===== src/Hosts.antt =====
-- `collect_hosts` of kazoo/hosts.py, and `set_hosts` of kazoo/client.py.
pub mod Collected
use kazoo.Base.{
  ℕ, List, [], ◌∷◌, ◌++◌, Option, none, some, Bool, true, false, ◌==◌, ◌||◌, ◌&&◌, leb, Exn,
  value_error, index_error, configuration_error, Result, ok, err, ◌>>=◌, if◌then◌else◌, list_eq,
}
use kazoo.Python.Text.{split, starts_with_char}
use kazoo.Paths.{normpath, slash}

-- A string, or a list of strings.
pub data Hosts : Type 0 where
  text : List ℕ → Hosts
  listed : List (List ℕ) → Hosts

-- The characters that `str.strip` takes off.
abbrev pub is_space : ℕ → Bool
is_space c =
    (leb 9 c && leb c 13)
    || (leb 28 c && leb c 32)
    || (c == 133)
    || (c == 160)
    || (c == 5760)
    || (leb 8192 c && leb c 8202)
    || (c == 8232)
    || (c == 8233)
    || (c == 8239)
    || (c == 8287)
    || (c == 12288)

unfoldable pub lstripped : List ℕ → List ℕ
lstripped [] = []
lstripped (c ∷ cs) = let rest = lstripped cs in if is_space c then rest else c ∷ cs

unfoldable pub rstripped : List ℕ → List ℕ
rstripped [] = []
rstripped (c ∷ cs) = elim (rstripped cs) [
  | [] ↦ (if is_space c then [] else c ∷ [])
  | d ∷ ds ↦ c ∷ d ∷ ds
]

unfoldable pub strip : List ℕ → List ℕ
unfolding lstripped rstripped
strip s = rstripped (lstripped s)

-- `s.partition(c)[::2]`
unfoldable pub partition : ℕ → List ℕ → List ℕ × List ℕ
partition c [] = ([], [])
partition c (d ∷ s) = let rest = partition c s in if d == c then ([], s) else (d ∷ rest.0, rest.1)

-- The list without its last element, and that element.
unfoldable pub last_of : List (List ℕ) → Result (List (List ℕ) × List ℕ)
last_of [] = err index_error
last_of (h ∷ []) = ok ([], h)
last_of (h ∷ g ∷ hs) = last_of (g ∷ hs) >>= λ r. ok (h ∷ r.0, r.1)

abbrev pub comma : ℕ
comma = b','

abbrev pub default_port : ℕ
default_port = 2181

-- `if res.port`
abbrev pub port_of : Option ℕ → ℕ
port_of none = default_port
port_of (some p) = if p == 0 then default_port else p

abbrev chroot_of : List ℕ → Option (List ℕ)
chroot_of [] = none
chroot_of (c ∷ cs) = some (slash ∷ c ∷ cs)

abbrev by_last : List (List ℕ) → List (List ℕ) × List ℕ → List (List ℕ) × Option (List ℕ)
by_last hs r = if starts_with_char slash (strip r.1) then (r.0, some r.1) else (hs, none)

-- The host and port strings, and the chroot.
unfoldable pub divided : Hosts → Result (List (List ℕ) × Option (List ℕ))
unfolding last_of partition split strip
divided (listed hs) = last_of hs >>= λ r. ok (by_last hs r)
divided (text s) = let p = partition slash s in ok (split comma p.0, chroot_of p.1)

-- What `set_hosts` changes, beside whether hosts are taken at random: the chroot is None before its first call.
pub record Settings : Type 0 where
  pub hosts : List (List ℕ × ℕ)
  pub chroot : Option (List ℕ)

abbrev new_chroot : Option (List ℕ) → Result (List ℕ)
new_chroot none = ok []
new_chroot (some c) = normpath c false

abbrev is_changed : Option (List ℕ) → List ℕ → Bool
is_changed none c = false
is_changed (some d) c = if list_eq c d then false else true

-- The settings afterwards, and the exception that is raised.
abbrev pub rechroot : Result (List ℕ) → Settings → Settings × Option Exn
rechroot (err e) s = (s, some e)
rechroot (ok c) s =
    if is_changed s.chroot c
    then (s, some configuration_error)
    else (record s { chroot = some c }, none)

-- `urlsplit` gives the name and the port of a host, each of which may be missing, or raises.
module _ (urlsplit : List ℕ → Result (Option (List ℕ) × Option ℕ)) where
  abbrev named_host : Option (List ℕ) × Option ℕ → Result (List ℕ × ℕ)
  named_host (none, port) = err value_error
  named_host (some host, port) = ok (strip host, port_of port)

  unfoldable pub resolve : List ℕ → Result (List ℕ × ℕ)
  unfolding strip
  resolve host_port = urlsplit host_port >>= named_host

  unfoldable pub resolve_all : List (List ℕ) → Result (List (List ℕ × ℕ))
  unfolding resolve
  resolve_all [] = ok []
  resolve_all (h ∷ hs) = let rest = resolve_all hs in resolve h >>= λ r. rest >>= λ rs. ok (r ∷ rs)

  unfoldable pub collect_hosts : Hosts → Result (List (List ℕ × ℕ) × Option (List ℕ))
  unfolding divided resolve_all
  collect_hosts hosts = divided hosts >>= λ d. resolve_all d.0 >>= λ rs. ok (rs, d.1)

  abbrev pub replaced :
      Result (List (List ℕ × ℕ) × Option (List ℕ)) → Settings → Settings × Option Exn
  replaced (err e) s = (s, some e)
  replaced (ok (hosts, chroot)) s = rechroot (new_chroot chroot) (record s { hosts = hosts })

  unfoldable pub set_hosts : Hosts → Settings → Settings × Option Exn
  unfolding normpath
  set_hosts h s = replaced (collect_hosts h) s
