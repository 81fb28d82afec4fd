-- ===== src/Protocol/Requests.antt =====
-- The request classes of kazoo/protocol/serialization.py and their `serialize` methods.
pub mod Parse
use kazoo.Base.{
  ℕ, List, [], ◌∷◌, Option, none, some, Bool, true, false, Result, ok, ◌<>◌, if◌then◌else◌,
}
use kazoo.Base.Int.{ℤ, pos, negsuc}
use kazoo.Python.Struct.{pack}
use kazoo.Protocol.Strings.{Text, Buffer, minus_one, write_string, write_buffer}
use kazoo.Protocol.Records.{Acl, Connect, flag_byte, write_acls, write_connect, write_multi_header}

-- The requests that a transaction may hold (`Transaction_Types`).
pub data Op : Type 0 where
  create create2 : Text → Buffer → List Acl → ℤ → Op
  delete check_version : Text → ℤ → Op
  set_data : Text → Buffer → ℤ → Op

-- A watcher is a callable, known by a number, or None.
abbrev pub Watcher : Type 0
Watcher = Option ℕ

pub data Request : Type 0 where
  close ping : Request
  connect : Connect → Request
  single : Op → Request
  exists get_data get_children get_children2 : Text → Watcher → Request
  get_acl sync : Text → Request
  set_acl : Text → List Acl → ℤ → Request
  transaction : List Op → Request
  reconfig : Text → Text → Text → ℤ → Request
  auth : ℤ → Text → Text → Request
  sasl : Buffer → Request

-- The `type` attributes.
abbrev pub op_type : Op → ℤ
op_type (create _ _ _ _) = pos 1
op_type (create2 _ _ _ _) = pos 15
op_type (delete _ _) = pos 2
op_type (check_version _ _) = pos 13
op_type (set_data _ _ _) = pos 5

abbrev pub request_type : Request → Option ℤ
request_type close = some (negsuc 10)
request_type ping = some (pos 11)
request_type (connect _) = none
request_type (single op) = some (op_type op)
request_type (exists _ _) = some (pos 3)
request_type (get_data _ _) = some (pos 4)
request_type (get_children _ _) = some (pos 8)
request_type (get_children2 _ _) = some (pos 12)
request_type (get_acl _) = some (pos 6)
request_type (sync _) = some (pos 9)
request_type (set_acl _ _ _) = some (pos 7)
request_type (transaction _) = some (pos 14)
request_type (reconfig _ _ _ _) = some (pos 16)
request_type (auth _ _ _) = some (pos 100)
request_type (sasl _) = some (pos 102)

-- `[1 if self.watcher else 0]`
watcher_byte : Watcher → List ℕ
watcher_byte none = 0 ∷ []
watcher_byte (some w) = 1 ∷ []

unfoldable pub serialize_op : Op → Result (List ℕ)
serialize_op (create path data' acl flags) =
    write_string path <> write_buffer data' <> write_acls acl <> pack 4 flags
serialize_op (create2 path data' acl flags) =
    write_string path <> write_buffer data' <> write_acls acl <> pack 4 flags
serialize_op (delete path version) = write_string path <> pack 4 version
serialize_op (check_version path version) = write_string path <> pack 4 version
serialize_op (set_data path data' version) =
    write_string path <> write_buffer data' <> pack 4 version

-- `Transaction.serialize`: each operation behind its header, then the header that ends the list.
unfoldable pub serialize_ops : List Op → Result (List ℕ)
unfolding serialize_op
serialize_ops [] = write_multi_header minus_one true minus_one
serialize_ops (op ∷ ops) =
    (write_multi_header (op_type op) false minus_one <> serialize_op op) <> serialize_ops ops

unfoldable pub serialize : Request → Result (List ℕ)
unfolding serialize_ops watcher_byte
serialize close = ok []
serialize ping = ok []
serialize (connect c) = write_connect c
serialize (single op) = serialize_op op
serialize (exists path watcher) = write_string path <> ok (watcher_byte watcher)
serialize (get_data path watcher) = write_string path <> ok (watcher_byte watcher)
serialize (get_children path watcher) = write_string path <> ok (watcher_byte watcher)
serialize (get_children2 path watcher) = write_string path <> ok (watcher_byte watcher)
serialize (get_acl path) = write_string path
serialize (sync path) = write_string path
serialize (set_acl path acls version) = write_string path <> write_acls acls <> pack 4 version
serialize (transaction ops) = serialize_ops ops
serialize (reconfig joining leaving new_members config_id) =
    write_string joining <> write_string leaving <> write_string new_members <> pack 8 config_id
serialize (auth auth_type scheme auth') =
    pack 4 auth_type <> write_string scheme <> write_string auth'
serialize (sasl challenge) = write_buffer challenge
