-- ===== src/Protocol/Replies/Answers.antt =====
-- What a server sends in answer to each request, and the parts of it that are read alike.
pub mod RoundTrip
use kazoo.Base.{
  ℕ, List, [], ◌∷◌, ◌++◌, ◌≡◌, ◌≢◌, refl, ap, ◌∙◌, Option, none, some, true, length, map, All, At,
  append-nil, Result, ok, err, value_error, ◌<>◌, <>-eq-ok, if◌then◌else◌,
}
use kazoo.Base.Int.{ℤ, pos, negsuc, int_eq}
use kazoo.Python.Struct.{pack}
use kazoo.Protocol.Reader.{Reader, pure, ◌>>=◌, int_of}
use kazoo.Protocol.Reader.Reads.{
  Reads, Reads-pure, Reads-bind, Reads-last, Reads-int_of, Reads-repeat, write_each,
}
use kazoo.Protocol.Strings.{
  Text, Buffer, minus_one, sent, read_string, write_string, read_buffer, write_buffer,
}
use kazoo.Protocol.Strings.RoundTrip.{Reads-write_string, Reads-write_buffer}
use kazoo.Protocol.Records.{Acl, Connect, ZnodeStat, read_acl, write_acl, read_stat, read_acls}
use kazoo.Protocol.Records.RoundTrip.{
  Reads-field, sent_acl, Reads-write_acl, write_stat, Reads-write_stat, write_connect_answer,
  Reads-write_connect_answer,
}
use kazoo.Protocol.Requests.{
  Request, Op, create, create2, delete, check_version, set_data, connect, single, exists, get_data,
  get_children, get_children2, get_acl, sync, set_acl, transaction, reconfig, sasl,
}
use kazoo.Protocol.Replies.{
  Reply, yes, text, text_stat, stat, bytes_stat, acls_stat, children, children_stat, no_items,
  results, connected, challenge, existing, unless_minus_one, read_children, read_text,
  read_one_stat, read_data_stat, read_op_reply, read_reply, deserialize,
}

-- A writer for each form of answer; what is no answer to the request has none.
no_answer : Result (List ℕ)
no_answer = err value_error

write_text : Reply → Result (List ℕ)
unfolding no_answer
write_text (text t) = write_string t
write_text _ = no_answer

write_text_stat : Reply → Result (List ℕ)
unfolding no_answer
write_text_stat (text_stat t s) = write_string t <> write_stat s
write_text_stat _ = no_answer

write_yes : Reply → Result (List ℕ)
unfolding no_answer
write_yes yes = ok []
write_yes _ = no_answer

write_one_stat : Reply → Result (List ℕ)
unfolding no_answer
write_one_stat (stat (some s)) = write_stat s
write_one_stat _ = no_answer

-- A node that exists was created by a transaction with a number other than -1.
write_existing : Reply → Result (List ℕ)
unfolding no_answer
write_existing (stat (some s)) = if int_eq s.czxid minus_one then no_answer else write_stat s
write_existing _ = no_answer

write_data_stat : Reply → Result (List ℕ)
unfolding no_answer
write_data_stat (bytes_stat b s) = write_buffer b <> write_stat s
write_data_stat _ = no_answer

write_children : Reply → Result (List ℕ)
unfolding no_answer
write_children (children names) =
    pack 4 (pos (length names)) <> write_each read_string write_string sent names
write_children _ = no_answer

write_children_stat : Reply → Result (List ℕ)
unfolding no_answer
write_children_stat (children_stat names s) =
    pack 4 (pos (length names)) <> write_each read_string write_string sent names <> write_stat s
write_children_stat _ = no_answer

write_acls_stat : Reply → Result (List ℕ)
unfolding no_answer
write_acls_stat (acls_stat acls s) =
    pack 4 (pos (length acls)) <> write_each read_acl write_acl sent_acl acls <> write_stat s
write_acls_stat _ = no_answer

write_challenge : Reply → Result (List ℕ)
unfolding no_answer
write_challenge (challenge b) = write_buffer b
write_challenge _ = no_answer

write_connected : Reply → Result (List ℕ)
unfolding no_answer
write_connected (connected c) = write_connect_answer c
write_connected _ = no_answer

write_op_reply : Op → Reply → Result (List ℕ)
unfolding write_text write_text_stat write_yes write_one_stat no_answer
write_op_reply (create _ _ _ _) r = write_text r
write_op_reply (create2 _ _ _ _) r = write_text_stat r
write_op_reply (delete _ _) r = write_yes r
write_op_reply (set_data _ _ _) r = write_one_stat r
write_op_reply (check_version _ _) r = no_answer

-- What a server sends in answer to each request. A transaction is in Protocol/Multi/Answers.
unfoldable pub write_reply : Request → Reply → Result (List ℕ)
unfolding write_op_reply write_existing write_data_stat write_children write_children_stat
    write_acls_stat write_challenge write_connected
write_reply (connect _) r = write_connected r
write_reply (single op) r = write_op_reply op r
write_reply (exists _ _) r = write_existing r
write_reply (get_data _ _) r = write_data_stat r
write_reply (get_children _ _) r = write_children r
write_reply (get_children2 _ _) r = write_children_stat r
write_reply (get_acl _) r = write_acls_stat r
write_reply (sync _) r = write_text r
write_reply (set_acl _ _ _) r = write_one_stat r
write_reply (reconfig _ _ _ _) r = write_data_stat r
write_reply (sasl _) r = write_challenge r
write_reply _ r = no_answer

-- What arrives of an answer: empty texts as None, and a connection without the last transaction.
abbrev pub sent_reply : Reply → Reply
sent_reply (text t) = text (sent t)
sent_reply (text_stat t s) = text_stat (sent t) s
sent_reply (children names) = children (map sent names)
sent_reply (children_stat names s) = children_stat (map sent names) s
sent_reply (acls_stat acls s) = acls_stat (map sent_acl acls) s
sent_reply (connected c) = connected (record c { last_zxid_seen = pos 0 })
sent_reply r = r

Reads-text : (r : Reply) (bs : List ℕ) → write_text r ≡ ok bs → Reads read_text bs (sent_reply r)
unfolding write_text read_text
Reads-text (text t) bs h = Reads-last text (Reads-write_string t bs h)
Reads-text _ bs h = cc

Reads-one_stat :
    (r : Reply) (bs : List ℕ) → write_one_stat r ≡ ok bs → Reads read_one_stat bs (sent_reply r)
unfolding write_one_stat read_one_stat
Reads-one_stat (stat (some s)) bs h = Reads-last (λ x. stat (some x)) (Reads-write_stat s bs h)
Reads-one_stat _ bs h = cc

Reads-data_stat :
    (r : Reply) (bs : List ℕ) → write_data_stat r ≡ ok bs → Reads read_data_stat bs (sent_reply r)
unfolding write_data_stat read_data_stat
Reads-data_stat (bytes_stat b s) bs h =
    Reads-field _ (Reads-write_buffer b) _ (λ ys e. Reads-last _ (Reads-write_stat s ys e)) bs h
Reads-data_stat _ bs h = cc

Reads-op_reply :
    (op : Op) (r : Reply) (bs : List ℕ)
    → write_op_reply op r ≡ ok bs
    → Reads (read_op_reply op) bs (sent_reply r)
unfolding write_op_reply read_op_reply
Reads-op_reply (create _ _ _ _) r bs h = Reads-text r bs h
Reads-op_reply (create2 _ _ _ _) (text_stat t s) bs h =
    Reads-field _ (Reads-write_string t) _ (λ ys e. Reads-last _ (Reads-write_stat s ys e)) bs h
Reads-op_reply (create2 _ _ _ _) _ bs h = cc
Reads-op_reply (delete _ _) yes bs h = let e : bs ≡ [] = cc in rw e (Reads-pure yes)
Reads-op_reply (delete _ _) _ bs h = cc
Reads-op_reply (set_data _ _ _) r bs h = Reads-one_stat r bs h
Reads-op_reply (check_version _ _) r bs h = cc
