-- ===== src/Security/Permissions.antt =====
-- The class `Permissions` of kazoo/security.py.
use kazoo.Base.{ℕ}

abbrev pub read : ℕ
read = 1

abbrev pub write : ℕ
write = 2

abbrev pub create : ℕ
create = 4

abbrev pub delete : ℕ
delete = 8

abbrev pub admin : ℕ
admin = 16

abbrev pub all : ℕ
all = 31
