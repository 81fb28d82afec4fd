-- ===== src/Security.antt =====
-- ACLs of kazoo/security.py: making one from flags, and naming the permissions of one.
pub mod Permissions
pub mod Flags
use Prim.Native.Nat.{bit_and, bit_or}
use Prim.Native.String.{String}
use kazoo.Base.{
  ℕ, ◌-◌, ◌%◌, List, [], ◌∷◌, ◌++◌, ◌==◌, Bool, some, if◌then◌else◌, Result, ok, ◌>>=◌, ◌<>◌,
}
use kazoo.Base.Int.{ℤ, pos, negsuc}
use kazoo.Python.Utf8.{encode, decode}
use kazoo.Python.Text.{codes}
use kazoo.Protocol.Strings.{Text}
use kazoo.Protocol.Records.{Acl, AclId}

-- `perms & mask` for a mask of five bits; a negative number has the bits of its two's complement.
masked : ℤ → ℕ → ℕ
masked (pos n) mask = bit_and n mask
masked (negsuc n) mask = bit_and (31 - n % 32) mask

-- `if perms & mask == mask: perms.append(name)`
abbrev named : ℤ → ℕ → String → List String
named perms mask name = if masked perms mask == mask then name ∷ [] else []

pub acl_list : Acl → List String
unfolding masked
acl_list acl =
    if masked acl.perms Permissions.all == Permissions.all
    then "ALL" ∷ []
    else named acl.perms Permissions.read "READ"
      ++ (named acl.perms Permissions.write "WRITE"
          ++ (named acl.perms Permissions.create "CREATE"
              ++ (named acl.perms Permissions.delete "DELETE"
                  ++ named acl.perms Permissions.admin "ADMIN")))

-- `if flag: permissions |= mask`
abbrev with_flag : Bool → ℕ → ℕ → ℕ
with_flag flag mask permissions = if flag then bit_or permissions mask else permissions

permissions_of : Bool → Bool → Bool → Bool → Bool → Bool → ℕ
permissions_of read write create delete admin all =
    if all
    then Permissions.all
    else with_flag admin Permissions.admin (
        with_flag delete Permissions.delete (
          with_flag create Permissions.create
            (with_flag write Permissions.write (with_flag read Permissions.read 0))))

pub make_acl : Text → Text → Bool → Bool → Bool → Bool → Bool → Bool → Acl
unfolding permissions_of
make_acl scheme credential read write create delete admin all = record {
  perms = pos (permissions_of read write create delete admin all);
  id = record { scheme = scheme; id = credential };
}

-- `hashed` is the library's SHA-1 in base 64.
module _ (hashed : List ℕ → List ℕ) where
  pub make_digest_acl_credential : List ℕ → List ℕ → Result (List ℕ)
  make_digest_acl_credential username password =
      (encode username <> ok (b':' ∷ []) <> encode password) >>= λ credential.
      decode (hashed credential) >>= λ cred_hash. ok (username ++ (b':' ∷ cred_hash))

  pub make_digest_acl : List ℕ → List ℕ → Bool → Bool → Bool → Bool → Bool → Bool → Result Acl
  unfolding make_digest_acl_credential make_acl
  make_digest_acl username password read write create delete admin all =
      make_digest_acl_credential username password >>= λ cred.
      ok (make_acl (some (codes "digest")) (some cred) read write create delete admin all)
