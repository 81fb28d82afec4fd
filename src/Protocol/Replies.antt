-- ===== src/Protocol/Replies.antt =====
-- The `deserialize` methods of the request classes of kazoo/protocol/serialization.py.
pub mod Answers
use kazoo.Base.{
  ℕ, List, [], ◌∷◌, Option, none, some, Bool, attribute_error, Result, ok, err, if◌then◌else◌,
}
use kazoo.Base
use kazoo.Base.Int.{ℤ, pos, negsuc, int_eq}
use kazoo.Protocol.Reader.{Reader, pure, fail, ◌>>=◌, int_of, repeat, range_of}
use kazoo.Protocol.Strings.{Text, Buffer, minus_one, read_string, read_buffer}
use kazoo.Protocol.Records.{Acl, Connect, ZnodeStat, read_acls, read_connect, read_stat}
use kazoo.Protocol.Requests.{
  Request, Op, create, create2, delete, check_version, set_data, close, ping, connect, single,
  exists, get_data, get_children, get_children2, get_acl, sync, set_acl, transaction, reconfig,
  auth, sasl,
}
use kazoo.Protocol.Multi.{TxResponse, deserialize_transaction}

pub data Reply : Type 0 where
  yes : Reply
  text : Text → Reply
  text_stat : Text → ZnodeStat → Reply
  stat : Option ZnodeStat → Reply
  bytes_stat : Buffer → ZnodeStat → Reply
  acls_stat : List Acl → ZnodeStat → Reply
  children : List Text → Reply
  children_stat : List Text → ZnodeStat → Reply
  no_items : Reply
  results : List TxResponse → Reply
  connected : Connect → Reply
  challenge : Buffer → Reply
  -- A value and the offset after it, as the tuple that some classes return.
  paired : Reply → ℕ → Reply

-- `stat if stat.czxid != -1 else None`
unfoldable pub existing : ZnodeStat → Option ZnodeStat
existing s = if int_eq s.czxid minus_one then none else some s

-- `if count == -1: return []`
unless_minus_one : ℤ → Reader Reply → Reader Reply
unless_minus_one count r = if int_eq count minus_one then pure no_items else r

-- `for c in range(count)` over read_string
read_children : ℤ → Reader (List Text)
read_children count = repeat (range_of count) read_string

read_text : Reader Reply
read_text = do path ← read_string; pure (text path)

read_one_stat : Reader Reply
read_one_stat = do s ← read_stat; pure (stat (some s))

read_data_stat : Reader Reply
read_data_stat = do bytes ← read_buffer; s ← read_stat; pure (bytes_stat bytes s)

read_op_reply : Op → Reader Reply
read_op_reply (create _ _ _ _) = read_text
read_op_reply (create2 _ _ _ _) = do path ← read_string; s ← read_stat; pure (text_stat path s)
read_op_reply (delete _ _) = pure yes
read_op_reply (check_version _ _) = fail attribute_error
read_op_reply (set_data _ _ _) = read_one_stat

-- `request.deserialize`; where the class has none, Python raises an AttributeError.
unfoldable pub read_reply : Request → Reader Reply
unfolding existing unless_minus_one read_children read_text read_one_stat read_data_stat
    read_op_reply
read_reply close = fail attribute_error
read_reply ping = fail attribute_error
read_reply (connect _) = do c ← read_connect; pure (connected c)
read_reply (single op) = read_op_reply op
read_reply (exists _ _) = do s ← read_stat; pure (stat (existing s))
read_reply (get_data _ _) = read_data_stat
read_reply (get_children _ _) = do
  count ← int_of 4
  unless_minus_one count (do names ← read_children count; pure (children names))
read_reply (get_children2 _ _) = do
  count ← int_of 4
  unless_minus_one count
      (do names ← read_children count; s ← read_stat; pure (children_stat names s))
read_reply (get_acl _) = do
  count ← int_of 4
  unless_minus_one count (do acls ← read_acls count; s ← read_stat; pure (acls_stat acls s))
read_reply (sync _) = read_text
read_reply (set_acl _ _ _) = read_one_stat
read_reply (transaction _) = do rs ← deserialize_transaction; pure (results rs)
read_reply (reconfig _ _ _ _) = read_data_stat
read_reply (auth _ _ _) = fail attribute_error
read_reply (sasl _) = do c ← read_buffer; pure (challenge c)

-- `Connect.deserialize` and `SASL.deserialize` return the offset too, the others drop it.
abbrev pub with_offset : Request → Reply → ℕ → Reply
with_offset (connect _) r offset = paired r offset
with_offset (sasl _) r offset = paired r offset
with_offset _ r offset = r

unfoldable pub deserialize : Request → List ℕ → ℕ → Result Reply
unfolding read_reply
deserialize request buffer offset =
    Base.◌>>=◌ (read_reply request buffer offset) (λ p. ok (with_offset request p.0 p.1))
