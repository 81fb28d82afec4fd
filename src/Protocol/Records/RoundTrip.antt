-- ===== src/Protocol/Records/RoundTrip.antt =====
-- The records are read as they were written. The writers here that have no counterpart in
-- kazoo/protocol/serialization.py describe what a server sends: each field in its width, in order.
use kazoo.Base.{
  ℕ, List, [], ◌∷◌, ◌≡◌, refl, some, Bool, true, false, ◌==◌, length, map, Result, ok, ◌<>◌,
  <>-eq-ok,
}
use kazoo.Base.Int.{ℤ, pos}
use kazoo.Python.Struct.{pack}
use kazoo.Protocol.Reader.{Reader, ◌>>=◌, int_of, byte}
use kazoo.Protocol.Reader.Reads.{
  Reads, Reads-bind, Reads-last, Reads-int_of, Reads-byte, Reads-repeat,
}
use kazoo.Protocol.Strings.{sent, write_string, write_buffer}
use kazoo.Protocol.Strings.RoundTrip.{Reads-write_string, Reads-write_buffer}
use kazoo.Protocol.Records.{
  Acl, ZnodeStat, ReplyHeader, Watch, Connect, flag_byte, read_acl, write_acl, write_acls,
  read_acls, read_stat, read_reply_header, read_multi_header, write_multi_header, read_watch,
  read_only_flag, read_connect,
}

-- A field that `write` wrote, then the rest.
module _ {ℓ κ} {A : Type ℓ} {B : Type κ} {r : Reader A} (f : A → Reader B) {m : Result (List ℕ)}
    {a : A} (first : (xs : List ℕ) → m ≡ ok xs → Reads r xs a) where
  pub Reads-field :
      (n : Result (List ℕ)) {b : B}
      → ((ys : List ℕ) → n ≡ ok ys → Reads (f a) ys b)
      → (zs : List ℕ) → (m <> n) ≡ ok zs
      → Reads (r >>= f) zs b
  Reads-field n others zs h =
      let (xs, ys, p, q, e) = <>-eq-ok m n h in rw e (Reads-bind f (first xs p) (others ys q))

pub sent_acl : Acl → Acl
sent_acl a = record {
  perms = a.perms;
  id = record { scheme = sent a.id.scheme; id = sent a.id.id };
}

pub Reads-write_acl : (a : Acl) (bs : List ℕ) → write_acl a ≡ ok bs → Reads read_acl bs (sent_acl a)
unfolding read_acl write_acl sent_acl
Reads-write_acl a = Reads-field _ (Reads-int_of 3 a.perms) _ (
    Reads-field _ (Reads-write_string a.id.scheme) _
      (λ bs h. Reads-last _ (Reads-write_string a.id.id bs h)))

-- The ACLs of a request are what the loop of `GetACL.deserialize` reads.
pub Reads-write_acls :
    (acls : List Acl) (bs : List ℕ)
    → write_acls acls ≡ ok bs
    → Reads (int_of 4 >>= read_acls) bs (map sent_acl acls)
unfolding write_acls read_acls
Reads-write_acls acls =
    Reads-field _ (Reads-int_of 3 (pos (length acls))) _
      (Reads-repeat read_acl write_acl sent_acl Reads-write_acl acls)

pub write_stat : ZnodeStat → Result (List ℕ)
write_stat s =
    pack 8 s.czxid
    <> pack 8 s.mzxid
    <> pack 8 s.ctime
    <> pack 8 s.mtime
    <> pack 4 s.version
    <> pack 4 s.cversion
    <> pack 4 s.aversion
    <> pack 8 s.ephemeral_owner
    <> pack 4 s.data_length
    <> pack 4 s.num_children
    <> pack 8 s.pzxid

pub Reads-write_stat : (s : ZnodeStat) (bs : List ℕ) → write_stat s ≡ ok bs → Reads read_stat bs s
unfolding read_stat write_stat
Reads-write_stat s = Reads-field _ (Reads-int_of 7 s.czxid) _ (
    Reads-field _ (Reads-int_of 7 s.mzxid) _ (
      Reads-field _ (Reads-int_of 7 s.ctime) _ (
        Reads-field _ (Reads-int_of 7 s.mtime) _ (
          Reads-field _ (Reads-int_of 3 s.version) _ (
            Reads-field _ (Reads-int_of 3 s.cversion) _ (
              Reads-field _ (Reads-int_of 3 s.aversion) _ (
                Reads-field _ (Reads-int_of 7 s.ephemeral_owner) _ (
                  Reads-field _ (Reads-int_of 3 s.data_length) _ (
                    Reads-field _ (Reads-int_of 3 s.num_children) _
                      (λ bs h. Reads-last _ (Reads-int_of 7 s.pzxid bs h)))))))))))

pub write_reply_header : ReplyHeader → Result (List ℕ)
write_reply_header h = pack 4 h.xid <> pack 8 h.zxid <> pack 4 h.err

pub Reads-write_reply_header :
    (h : ReplyHeader) (bs : List ℕ) → write_reply_header h ≡ ok bs → Reads read_reply_header bs h
unfolding read_reply_header write_reply_header
Reads-write_reply_header h =
    Reads-field _ (Reads-int_of 3 h.xid) _
      (Reads-field _ (Reads-int_of 7 h.zxid) _ (λ bs e. Reads-last _ (Reads-int_of 3 h.err bs e)))

pub write_watch : Watch → Result (List ℕ)
write_watch w = pack 4 w.type <> pack 4 w.state <> write_string w.path

pub Reads-write_watch :
    (w : Watch) (bs : List ℕ)
    → write_watch w ≡ ok bs
    → Reads read_watch bs (record { type = w.type; state = w.state; path = sent w.path })
unfolding read_watch write_watch
Reads-write_watch w = Reads-field _ (Reads-int_of 3 w.type) _ (
    Reads-field _ (Reads-int_of 3 w.state) _
      (λ bs h. Reads-last _ (Reads-write_string w.path bs h)))

flag_value : Bool → ℕ
flag_value true = 1
flag_value false = 0

Reads-flag :
    (flag : Bool) (bs : List ℕ) → ok (flag_byte flag) ≡ ok bs → Reads byte bs (flag_value flag)
unfolding flag_value
Reads-flag true bs h = let e : bs ≡ 1 ∷ [] = cc in rw e (Reads-byte 1)
Reads-flag false bs h = let e : bs ≡ 0 ∷ [] = cc in rw e (Reads-byte 0)

flag_value_lem : (flag : Bool) → (flag_value flag == 1) ≡ flag
unfolding flag_value
flag_value_lem true = refl
flag_value_lem false = refl

-- `MultiHeader` reads what `MultiHeader` wrote.
pub Reads-write_multi_header :
    (type : ℤ) (is_done : Bool) (code : ℤ) (bs : List ℕ)
    → write_multi_header type is_done code ≡ ok bs
    → Reads read_multi_header bs (record { type = some type; is_done = is_done; err = some code })
unfolding read_multi_header write_multi_header
Reads-write_multi_header type is_done code = Reads-field _ (Reads-int_of 3 type) _ (
    Reads-field _ (Reads-flag is_done) _
      (λ bs h. rw (flag_value_lem is_done) (Reads-last _ (Reads-int_of 3 code bs h))))

Reads-read_only_flag :
    (flag : Bool) (bs : List ℕ) → ok (flag_byte flag) ≡ ok bs → Reads read_only_flag bs flag
unfolding read_only_flag
Reads-read_only_flag flag bs h = record {
  at = λ buffer offset rest at.
      rw ((Reads-flag flag bs h).at buffer offset rest at, flag_value_lem flag);
}

-- A server's answer: the protocol version, the time-out and the session, and a byte for the
-- read-only mode, or none from an old server.
unfoldable pub write_connect_answer : Connect → Result (List ℕ)
write_connect_answer c =
    pack 4 c.protocol_version
    <> pack 4 c.time_out
    <> pack 8 c.session_id
    <> write_buffer c.passwd
    <> ok (flag_byte c.read_only)

-- What a server writes in answer to a connect, with the read-only mark, is read back field by field,
-- and with no zxid.
pub Reads-write_connect_answer :
    (c : Connect) (bs : List ℕ)
    → write_connect_answer c ≡ ok bs
    → Reads read_connect bs (record c { last_zxid_seen = pos 0 })
unfolding read_connect write_connect_answer
Reads-write_connect_answer c = Reads-field _ (Reads-int_of 3 c.protocol_version) _ (
    Reads-field _ (Reads-int_of 3 c.time_out) _ (
      Reads-field _ (Reads-int_of 7 c.session_id) _ (
        Reads-field _ (Reads-write_buffer c.passwd) _
          (λ bs h. Reads-last _ (Reads-read_only_flag c.read_only bs h)))))
