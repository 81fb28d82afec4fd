-- ===== src/Client/Operations.antt =====
-- The asynchronous operations of kazoo/client.py: the request that each makes of its arguments.
-- The arguments have the types that the operations check.
pub mod Create
use kazoo.Base.{
  ℕ, ◌+◌, List, [], ◌∷◌, Option, none, some, Bool, true, false, Result, ok, err, Exn,
  attribute_error, type_error, ◌>>=◌, if◌then◌else◌, list_eq,
}
use kazoo.Base.Int.{ℤ, pos}
use kazoo.Paths.{prefix_root, unchroot}
use kazoo.Protocol.Strings.{Text, Buffer}
use kazoo.Protocol.Records.{Acl}
use kazoo.Protocol.Requests.{
  Request, Watcher, Op, create, create2, delete, set_data, single, exists, get_data, get_children,
  get_children2, get_acl, sync, set_acl, reconfig, auth,
}
use kazoo.Protocol.Replies.{Reply, text, text_stat}
use kazoo.Client.{Client, completed, exception, emit}
use kazoo.Client.Calls.{refusal, call, issue}

-- A request on a path below the chroot.
unfoldable pub on_path : Client → List ℕ → (Text → Request) → Result Request
on_path c path make = prefix_root c.chroot path false >>= λ full. ok (make (some full))

-- The object that is returned, and the one of the call, on which `_sync_completion` waits.
unfoldable pub sync_async : List ℕ → Client → Result (ℕ × ℕ × Client)
unfolding issue on_path
sync_async path c =
    issue (on_path c path sync) (record c { next_async = c.next_async + 1 }) >>= λ r.
    ok (c.next_async, r.0, r.1)

unfoldable pub exists_async : List ℕ → Watcher → Client → Result (ℕ × Client)
unfolding issue on_path
exists_async path watch c = issue (on_path c path (λ p. exists p watch)) c

unfoldable pub get_async : List ℕ → Watcher → Client → Result (ℕ × Client)
unfolding issue on_path
get_async path watch c = issue (on_path c path (λ p. get_data p watch)) c

unfoldable pub get_children_async : List ℕ → Watcher → Bool → Client → Result (ℕ × Client)
unfolding issue on_path
get_children_async path watch include_data c =
    issue
      (on_path c path (λ p. if include_data then get_children2 p watch else get_children p watch)) c

unfoldable pub get_acls_async : List ℕ → Client → Result (ℕ × Client)
unfolding issue on_path
get_acls_async path c = issue (on_path c path get_acl) c

unfoldable pub set_acls_async : List ℕ → List Acl → ℤ → Client → Result (ℕ × Client)
unfolding issue on_path
set_acls_async path acls version c = issue (on_path c path (λ p. set_acl p acls version)) c

unfoldable pub set_async : List ℕ → Buffer → ℤ → Client → Result (ℕ × Client)
unfolding issue on_path
set_async path value version c = issue (on_path c path (λ p. single (set_data p value version))) c

unfoldable pub delete_async : List ℕ → ℤ → Client → Result (ℕ × Client)
unfolding issue on_path
delete_async path version c = issue (on_path c path (λ p. single (delete p version))) c

unfoldable pub reconfig_async : Text → Text → Text → ℤ → Client → Result (ℕ × Client)
unfolding issue
reconfig_async joining leaving new_members from_config c =
    issue (ok (reconfig joining leaving new_members from_config)) c

-- A set of credentials after an add
pair_eq : List ℕ × List ℕ → List ℕ × List ℕ → Bool
pair_eq a b = if list_eq a.0 b.0 then list_eq a.1 b.1 else false

unfoldable pub add_credential : List ℕ × List ℕ → List (List ℕ × List ℕ) → List (List ℕ × List ℕ)
unfolding pair_eq
add_credential a [] = a ∷ []
add_credential a (b ∷ bs) = if pair_eq b a then b ∷ bs else b ∷ add_credential a bs

unfoldable pub add_auth_async : List ℕ → List ℕ → Client → Result (ℕ × Client)
unfolding issue add_credential
add_auth_async scheme credential c =
    issue (ok (auth (pos 0) (some scheme) (some credential)))
      (record c { auth_data = add_credential (scheme, credential) c.auth_data })

-- `flags |= 1` for an ephemeral node and `flags |= 2` for a sequence
abbrev pub create_flags : Bool → Bool → ℤ
create_flags ephemeral sequence = pos ((if ephemeral then 1 else 0) + (if sequence then 2 else 0))

-- `_create_async_inner`: the path of a sequence keeps its trailing slash. False where the call was
-- refused: then the exception of the object is raised.
unfoldable pub create_inner :
    List ℕ → Buffer → List Acl → ℤ → Bool → Bool → Client → Result (ℕ × Client × Bool)
unfolding call
create_inner path value acl flags trailing include_data c =
    prefix_root c.chroot path trailing >>= λ full.
    let make : Text → Buffer → List Acl → ℤ → Op = if include_data then create2 else create in
    let called =
      call (single (make (some full) value acl flags)) c.next_async
        (record c { next_async = c.next_async + 1 }) in
    ok (c.next_async, called.0, called.1)

-- The exception that `do_create` sets the outer object to, if any.
abbrev created_on : ℕ → Option Exn → Client → Result (ℕ × Client × Bool) → ℕ × Option ℕ × Client
created_on outer refused c (err e) = (outer, none, emit c (completed outer (exception e) ∷ []))
created_on outer refused c (ok (inner, c', true)) = (outer, some inner, c')
created_on outer (some e) c (ok (inner, c', false)) =
    (outer, none, emit c' (completed outer (exception e) ∷ []))
created_on outer none c (ok (inner, c', false)) = (outer, none, c')

-- `create_async` up to its callbacks: the object that is returned, and the one of the call, on which
-- `create_completion` waits where there is one. A path that is not accepted sets the exception.
unfoldable pub create_async :
    List ℕ → Buffer → List Acl → Bool → Bool → Bool → Client → ℕ × Option ℕ × Client
unfolding create_inner
create_async path value acl ephemeral sequence include_data c =
    let c' = record c { next_async = c.next_async + 1 } in
    created_on c.next_async (refusal c.state) c'
      (create_inner path value acl (create_flags ephemeral sequence) sequence include_data c')

-- `KazooClient.unchroot` of what a reply holds; None has no `startswith`.
unfoldable pub unchroot_text : List ℕ → Text → Result Text
unchroot_text chroot (some path) = ok (some (unchroot chroot path))
unchroot_text [] none = ok none
unchroot_text (c ∷ cs) none = err attribute_error

-- `_sync_completion`, and `create_completion` without a missing parent, on a value.
unfoldable pub complete_path : List ℕ → Reply → Result Reply
unfolding unchroot_text
complete_path chroot (text path) = unchroot_text chroot path >>= λ p. ok (text p)
complete_path chroot (text_stat path s) = unchroot_text chroot path >>= λ p. ok (text_stat p s)
complete_path chroot r = err type_error
