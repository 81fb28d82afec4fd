-- ===== src/Security/Flags.antt =====
-- The permissions that `acl_list` names are those that `make_acl` was given.
use Prim.Native.String.{String}
use kazoo.Base.{List, [], ◌∷◌, ◌++◌, ◌≡◌, refl, arith, Bool, true, false, ◌&&◌, ◌||◌, if◌then◌else◌}
use kazoo.Protocol.Strings.{Text}
use kazoo.Security.{acl_list, make_acl}

abbrev pub when : Bool → String → List String
when flag name = if flag then name ∷ [] else []

-- All five flags, or `all`, are named "ALL"; else each flag that is set is named, in this order, and
-- no other.
pub acl_list-make_acl :
    (scheme credential : Text) (read write create delete admin all : Bool)
    → acl_list (make_acl scheme credential read write create delete admin all) ≡ (
        if all || (read && (write && (create && (delete && admin))))
        then "ALL" ∷ []
        else when read "READ"
          ++ (when write "WRITE"
              ++ (when create "CREATE" ++ (when delete "DELETE" ++ when admin "ADMIN"))))
unfolding acl_list make_acl
acl_list-make_acl scheme credential read write create delete admin true = refl
acl_list-make_acl scheme credential true write create delete admin false = ground arith
acl_list-make_acl scheme credential false write create delete admin false = ground arith
