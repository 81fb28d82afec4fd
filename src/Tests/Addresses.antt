-- ===== src/Tests/Addresses.antt =====
-- Hosts.
use kazoo.Base.{ℕ, List, [], ◌∷◌, ◌≡◌, refl, none, some, Option, Result, ok, configuration_error}
use kazoo.Python.Text.{codes, join_with}
use kazoo.Hosts.{listed, collect_hosts, Settings, set_hosts}

-- A name without a port.
abbrev plain : List ℕ → Result (Option (List ℕ) × Option ℕ)
plain s = ok (some s, none)

abbrev settings : Settings
settings = record { hosts = []; chroot = some (codes "/app") }

-- The call raises, and the hosts are new all the same.
set_hosts_run :
    set_hosts plain (listed (codes "c" ∷ codes "/other" ∷ [])) settings
    ≡ (record settings { hosts = (codes "c", 2181) ∷ [] }, some configuration_error)
unfolding set_hosts collect_hosts kazoo.Python.Text.starts_with_char join_with
set_hosts_run = refl
