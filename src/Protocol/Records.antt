-- ===== src/Protocol/Records.antt =====
-- The records of kazoo/protocol/serialization.py that are parts of messages, the ACLs of
-- kazoo/security.py and `ZnodeStat` of kazoo/protocol/states.py.
pub mod RoundTrip
use kazoo.Base.{
  ℕ, ◌+◌, List, [], ◌∷◌, Option, none, some, Bool, true, false, ◌==◌, length, Result, ok, err, ◌<>◌,
  if◌then◌else◌,
}
use kazoo.Base.Int.{ℤ, pos, negsuc, truthy}
use kazoo.Python.Struct.{pack}
use kazoo.Protocol.Reader.{Reader, pure, ◌>>=◌, int_of, byte, repeat, range_of}
use kazoo.Protocol.Reader.Reads.{write_each}
use kazoo.Protocol.Strings.{Text, Buffer, write_string, write_buffer, read_string, read_buffer}

pub record AclId : Type 0 where
  pub scheme : Text
  pub id : Text

pub record Acl : Type 0 where
  pub perms : ℤ
  pub id : AclId

pub record ZnodeStat : Type 0 where
  pub czxid : ℤ
  pub mzxid : ℤ
  pub ctime : ℤ
  pub mtime : ℤ
  pub version : ℤ
  pub cversion : ℤ
  pub aversion : ℤ
  pub ephemeral_owner : ℤ
  pub data_length : ℤ
  pub num_children : ℤ
  pub pzxid : ℤ

-- `self.ephemeralOwner or None`
owner_session_id : ZnodeStat → Option ℤ
owner_session_id s = if truthy s.ephemeral_owner then some s.ephemeral_owner else none

pub record ReplyHeader : Type 0 where
  pub xid : ℤ
  pub zxid : ℤ
  pub err : ℤ

-- `type` and `err` are None in the header that a transaction's reply is read from.
pub record MultiHeader : Type 0 where
  pub type : Option ℤ
  pub is_done : Bool
  pub err : Option ℤ

pub record Watch : Type 0 where
  pub type : ℤ
  pub state : ℤ
  pub path : Text

pub record Connect : Type 0 where
  pub protocol_version : ℤ
  pub last_zxid_seen : ℤ
  pub time_out : ℤ
  pub session_id : ℤ
  pub passwd : Buffer
  pub read_only : Bool

-- `[1 if flag else 0]`
abbrev pub flag_byte : Bool → List ℕ
flag_byte flag = if flag then 1 ∷ [] else 0 ∷ []

unfoldable pub read_acl : Reader Acl
read_acl = do
  perms ← int_of 4
  scheme ← read_string
  id ← read_string
  pure (record { perms = perms; id = record { scheme = scheme; id = id } })

unfoldable pub write_acl : Acl → Result (List ℕ)
write_acl acl = pack 4 acl.perms <> write_string acl.id.scheme <> write_string acl.id.id

-- The part that Create, Create2 and SetACL share: the number of ACLs and each of them.
unfoldable pub write_acls : List Acl → Result (List ℕ)
unfolding write_acl
write_acls acls = pack 4 (pos (length acls)) <> write_each read_acl write_acl (λ a. a) acls

-- The loop of `GetACL.deserialize` over the count that it has read.
unfoldable pub read_acls : ℤ → Reader (List Acl)
unfolding read_acl
read_acls count = repeat (range_of count) read_acl

-- `ZnodeStat(*stat_struct.unpack_from(bytes, offset))`
unfoldable pub read_stat : Reader ZnodeStat
read_stat = do
  czxid ← int_of 8
  mzxid ← int_of 8
  ctime ← int_of 8
  mtime ← int_of 8
  version ← int_of 4
  cversion ← int_of 4
  aversion ← int_of 4
  ephemeral_owner ← int_of 8
  data_length ← int_of 4
  num_children ← int_of 4
  pzxid ← int_of 8
  pure (record {
    czxid = czxid;
    mzxid = mzxid;
    ctime = ctime;
    mtime = mtime;
    version = version;
    cversion = cversion;
    aversion = aversion;
    ephemeral_owner = ephemeral_owner;
    data_length = data_length;
    num_children = num_children;
    pzxid = pzxid;
  })

unfoldable pub read_reply_header : Reader ReplyHeader
read_reply_header = do
  xid ← int_of 4
  zxid ← int_of 8
  code ← int_of 4
  pure (record { xid = xid; zxid = zxid; err = code })

unfoldable pub write_multi_header : ℤ → Bool → ℤ → Result (List ℕ)
write_multi_header type is_done code = pack 4 type <> ok (flag_byte is_done) <> pack 4 code

unfoldable pub read_multi_header : Reader MultiHeader
read_multi_header = do
  type ← int_of 4
  is_done ← byte
  code ← int_of 4
  pure (record { type = some type; is_done = is_done == 1; err = some code })

unfoldable pub read_watch : Reader Watch
read_watch = do
  type ← int_of 4
  state ← int_of 4
  path ← read_string
  pure (record { type = type; state = state; path = path })

unfoldable pub write_connect : Connect → Result (List ℕ)
write_connect c =
    pack 4 c.protocol_version
    <> pack 8 c.last_zxid_seen
    <> pack 4 c.time_out
    <> pack 8 c.session_id
    <> write_buffer c.passwd
    <> ok (flag_byte c.read_only)

-- `except struct.error`: an old server sends no byte for the read-only mode.
abbrev flag_or_false : Result (ℕ × ℕ) → ℕ → Result (Bool × ℕ)
flag_or_false (ok (b, offset')) offset = ok (b == 1, offset')
flag_or_false (err e) offset = ok (false, offset)

unfoldable pub read_only_flag : Reader Bool
read_only_flag buffer offset = flag_or_false (byte buffer offset) offset

unfoldable pub read_connect : Reader Connect
unfolding read_only_flag
read_connect = do
  proto_version ← int_of 4
  timeout ← int_of 4
  session_id ← int_of 8
  password ← read_buffer
  read_only ← read_only_flag
  pure (record {
    protocol_version = proto_version;
    last_zxid_seen = pos 0;
    time_out = timeout;
    session_id = session_id;
    passwd = password;
    read_only = read_only;
  })
