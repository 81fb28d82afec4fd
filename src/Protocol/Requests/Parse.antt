-- ===== src/Protocol/Requests/Parse.antt =====
-- A server's view of the requests: a reader for each, which takes the fields in the order in which
-- the ZooKeeper protocol lists them. `serialize` writes what these readers read.
use kazoo.Base.{
  ℕ, zero, suc, List, [], ◌∷◌, ◌++◌, ◌≡◌, refl, ap, none, some, true, false, length, map, ok,
  value_error, out_of_fuel, append_assoc, append-nil, arith, ◌+◌, ◌<◌, ◌∙◌, ◌<>◌, <>-eq-ok,
  if◌then◌else◌,
}
use kazoo.Base.Int.{ℤ, pos, int_eq}
use kazoo.Python.Struct.{pack}
use kazoo.Protocol.Reader.{Reader, pure, fail, ◌>>=◌, int_of}
use kazoo.Protocol.Reader.Reads.{Reads, Reads-pure, Reads-bind, Reads-last, Reads-int_of}
use kazoo.Protocol.Strings.{
  Text, Buffer, minus_one, sent, read_string, write_string, read_buffer, write_buffer,
}
use kazoo.Protocol.Strings.RoundTrip.{Reads-write_string, Reads-write_buffer}
use kazoo.Protocol.Records.{
  Acl, MultiHeader, read_acls, write_acls, read_multi_header, write_multi_header,
}
use kazoo.Protocol.Records.RoundTrip.{
  sent_acl, Reads-field, Reads-write_acls, Reads-write_multi_header,
}
use kazoo.Protocol.Requests.{
  Op, create, create2, delete, check_version, set_data, op_type, serialize_op, serialize_ops,
}

read_create : (Text → Buffer → List Acl → ℤ → Op) → Reader Op
read_create make = do
  path ← read_string
  bytes ← read_buffer
  acl ← (int_of 4 >>= read_acls)
  flags ← int_of 4
  pure (make path bytes acl flags)

read_versioned : (Text → ℤ → Op) → Reader Op
read_versioned make = do path ← read_string; version ← int_of 4; pure (make path version)

read_set_data : Reader Op
read_set_data = do
  path ← read_string
  bytes ← read_buffer
  version ← int_of 4
  pure (set_data path bytes version)

-- The operation of a type.
pub read_op : ℤ → Reader Op
read_op type =
    if int_eq type (pos 1)
    then read_create create
    else if int_eq type (pos 15)
    then read_create create2
    else if int_eq type (pos 2)
    then read_versioned delete
    else if int_eq type (pos 13)
    then read_versioned check_version
    else if int_eq type (pos 5)
    then read_set_data
    else fail value_error

-- What arrives: an empty text as None.
abbrev pub sent_op : Op → Op
sent_op (create path bytes acl flags) = create (sent path) bytes (map sent_acl acl) flags
sent_op (create2 path bytes acl flags) = create2 (sent path) bytes (map sent_acl acl) flags
sent_op (delete path version) = delete (sent path) version
sent_op (check_version path version) = check_version (sent path) version
sent_op (set_data path bytes version) = set_data (sent path) bytes version

module _ (make : Text → Buffer → List Acl → ℤ → Op) (path : Text) (bytes : Buffer) (acl : List Acl)
    (flags : ℤ) where
  Reads-create :
      (bs : List ℕ)
      → (write_string path <> write_buffer bytes <> write_acls acl <> pack 4 flags) ≡ ok bs
      → Reads (read_create make) bs (make (sent path) bytes (map sent_acl acl) flags)
  unfolding read_create
  Reads-create = Reads-field _ (Reads-write_string path) _ (
      Reads-field _ (Reads-write_buffer bytes) _
        (Reads-field _ (Reads-write_acls acl) _ (λ bs h. Reads-last _ (Reads-int_of 3 flags bs h))))

Reads-versioned :
    (make : Text → ℤ → Op) (path : Text) (version : ℤ) (bs : List ℕ)
    → (write_string path <> pack 4 version) ≡ ok bs
    → Reads (read_versioned make) bs (make (sent path) version)
unfolding read_versioned
Reads-versioned make path version =
    Reads-field _ (Reads-write_string path) _ (λ bs h. Reads-last _ (Reads-int_of 3 version bs h))

-- Every operation is read back, its fields in order and none lost, and an empty text as None.
pub Reads-serialize_op :
    (op : Op) (bs : List ℕ) → serialize_op op ≡ ok bs → Reads (read_op (op_type op)) bs (sent_op op)
unfolding serialize_op read_op
Reads-serialize_op (create path bytes acl flags) bs h =
    Reads-create create path bytes acl flags bs h
Reads-serialize_op (create2 path bytes acl flags) bs h =
    Reads-create create2 path bytes acl flags bs h
Reads-serialize_op (delete path version) bs h = Reads-versioned delete path version bs h
Reads-serialize_op (check_version path version) bs h =
    Reads-versioned check_version path version bs h
Reads-serialize_op (set_data path bytes version) bs h =
    unfold read_set_data in
    Reads-field _ (Reads-write_string path) _
      (Reads-field _ (Reads-write_buffer bytes) _
        (λ zs e. Reads-last _ (Reads-int_of 3 version zs e)))
      bs h

-- The operations of a transaction, up to the header that is marked done. The fuel bounds their
-- number.
after_header : Reader (List Op) → MultiHeader → Reader (List Op)
after_header more header = if header.is_done then pure [] else do
  op ← elim header.type [ none ↦ fail value_error | some t ↦ read_op t ]
  ops ← more
  pure (op ∷ ops)

pub read_ops : ℕ → Reader (List Op)
unfolding after_header
read_ops zero = fail out_of_fuel
read_ops (suc fuel) = read_multi_header >>= after_header (read_ops fuel)

Reads-serialize_ops :
    (ops : List Op) (fuel : ℕ) (bs : List ℕ)
    → length ops < fuel
    → serialize_ops ops ≡ ok bs
    → Reads (read_ops fuel) bs (map sent_op ops)
unfolding serialize_ops read_ops
Reads-serialize_ops ops zero bs h e = absurd (omega arith)
Reads-serialize_ops [] (suc fuel) bs h e = rw (← append-nil bs) (
    Reads-bind (after_header (read_ops fuel))
      (Reads-write_multi_header minus_one true minus_one bs e) (Reads-pure []))
Reads-serialize_ops (op ∷ ops) (suc fuel) bs h e =
    let (xs, ys, p, q, e') =
      <>-eq-ok (write_multi_header (op_type op) false minus_one <> serialize_op op)
        (serialize_ops ops) e in
    let (us, vs, p', q', e'') =
      <>-eq-ok (write_multi_header (op_type op) false minus_one) (serialize_op op) p in
    rw (e', e'', append_assoc)
      (Reads-bind (after_header (read_ops fuel))
        (Reads-write_multi_header (op_type op) false minus_one us p')
        (Reads-bind _ (Reads-serialize_op op vs q')
          (Reads-last _ (Reads-serialize_ops ops fuel ys (omega arith) q))))

-- A server that reads a serialized transaction from the start of a packet gets its operations,
-- in order and no others, up to the empty texts.
pub read_ops-serialize_ops :
    (ops : List Op) (bs rest : List ℕ)
    → serialize_ops ops ≡ ok bs
    → read_ops (length ops + 1) (bs ++ rest) 0 ≡ ok (map sent_op ops, length bs)
read_ops-serialize_ops ops bs rest h =
    (Reads-serialize_ops ops (length ops + 1) bs (omega arith) h).at (bs ++ rest) 0 rest refl
    ∙ ap (λ (n : ℕ). ok (map sent_op ops, n)) (omega arith)
