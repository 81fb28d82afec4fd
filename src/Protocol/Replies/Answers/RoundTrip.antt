-- ===== src/Protocol/Replies/Answers/RoundTrip.antt =====
-- Every answer that a server writes to a request is read back by the request's `deserialize`.
use kazoo.Base.{ℕ, List, ◌++◌, ◌+◌, ◌≡◌, some, length, drop-append, Bool-cases, inl, inr, ok}
use kazoo.Base.Int.{pos, int_eq}
use kazoo.Protocol.Reader.Reads.{Reads, Reads-last, Reads-int_of, Reads-repeat}
use kazoo.Protocol.Strings.{minus_one, sent, read_string, write_string}
use kazoo.Protocol.Strings.RoundTrip.{Reads-write_string, Reads-write_buffer}
use kazoo.Protocol.Records.{read_acl, write_acl, read_acls}
use kazoo.Protocol.Records.RoundTrip.{
  Reads-field, sent_acl, Reads-write_acl, Reads-write_stat, Reads-write_connect_answer,
}
use kazoo.Protocol.Requests.{
  Request, connect, single, exists, get_data, get_children, get_children2, get_acl, sync, set_acl,
  transaction, reconfig, sasl, auth, close, ping,
}
use kazoo.Protocol.Replies.{
  Reply, stat, acls_stat, children, children_stat, connected, challenge, existing, read_reply,
  with_offset, deserialize,
}
use kazoo.Protocol.Replies.Answers.{
  write_reply, sent_reply, Reads-text, Reads-one_stat, Reads-data_stat, Reads-op_reply,
}

pub Reads-write_reply :
    (request : Request) (r : Reply) (bs : List ℕ)
    → write_reply request r ≡ ok bs
    → Reads (read_reply request) bs (sent_reply r)
unfolding write_reply read_reply read_acls
Reads-write_reply close r bs h = cc
Reads-write_reply ping r bs h = cc
Reads-write_reply (auth _ _ _) r bs h = cc
Reads-write_reply (transaction _) r bs h = cc
Reads-write_reply (connect _) (connected c) bs h =
    Reads-last connected (Reads-write_connect_answer c bs h)
Reads-write_reply (connect _) _ bs h = cc
Reads-write_reply (single op) r bs h = Reads-op_reply op r bs h
Reads-write_reply (exists _ _) (stat (some s)) bs h = elim (Bool-cases (int_eq s.czxid minus_one)) [
  | inl same ↦ cc (rw same at h)
  | inr other ↦
      let e : existing s ≡ some s = rw (existing, other) in
      rw (← e) (Reads-last (λ x. stat (existing x)) (Reads-write_stat s bs (rw other at h)))
]
Reads-write_reply (exists _ _) _ bs h = cc
Reads-write_reply (get_data _ _) r bs h = Reads-data_stat r bs h
Reads-write_reply (get_children _ _) (children names) bs h =
    Reads-field _ (Reads-int_of 3 (pos (length names))) _
      (λ ys e.
        Reads-last children
          (Reads-repeat read_string write_string sent Reads-write_string names ys e))
      bs h
Reads-write_reply (get_children _ _) _ bs h = cc
Reads-write_reply (get_children2 _ _) (children_stat names s) bs h =
    Reads-field _ (Reads-int_of 3 (pos (length names))) _
      (Reads-field _ (Reads-repeat read_string write_string sent Reads-write_string names) _
        (λ ys e. Reads-last _ (Reads-write_stat s ys e)))
      bs h
Reads-write_reply (get_children2 _ _) _ bs h = cc
Reads-write_reply (get_acl _) (acls_stat acls s) bs h =
    Reads-field _ (Reads-int_of 3 (pos (length acls))) _
      (Reads-field _ (Reads-repeat read_acl write_acl sent_acl Reads-write_acl acls) _
        (λ ys e. Reads-last _ (Reads-write_stat s ys e)))
      bs h
Reads-write_reply (get_acl _) _ bs h = cc
Reads-write_reply (sync _) r bs h = Reads-text r bs h
Reads-write_reply (set_acl _ _ _) r bs h = Reads-one_stat r bs h
Reads-write_reply (reconfig _ _ _ _) r bs h = Reads-data_stat r bs h
Reads-write_reply (sasl _) (challenge b) bs h = Reads-last challenge (Reads-write_buffer b bs h)
Reads-write_reply (sasl _) _ bs h = cc

-- What a server writes in answer to a request is read back by the request's `deserialize`, wherever
-- the answer stands in the packet, but that an empty text is read as None and the answer to a connect
-- carries no zxid. For a connect and for SASL the offset behind the answer is returned with it.
pub deserialize-write_reply :
    (request : Request) (r : Reply) (bs before rest : List ℕ)
    → write_reply request r ≡ ok bs
    → deserialize request (before ++ (bs ++ rest)) (length before)
      ≡ ok (with_offset request (sent_reply r) (length before + length bs))
unfolding deserialize
deserialize-write_reply request r bs before rest h = rw (
    (Reads-write_reply request r bs h).at (before ++ (bs ++ rest)) (length before) rest
      (drop-append before (bs ++ rest)))
