-- ===== src/Protocol/Strings/RoundTrip.antt =====
-- What `write_string` and `write_buffer` write is read back.
use kazoo.Base.{
  ℕ, List, [], ◌∷◌, ◌++◌, ◌≡◌, ap, arith, none, some, length, append-nil, ok, ◌<>◌, <>-eq-ok,
  >>=-eq-ok,
}
use kazoo.Base.Int.{pos}
use kazoo.Python.Struct.{pack}
use kazoo.Python.Utf8.{encode, decode}
use kazoo.Python.Utf8.RoundTrip.{decode-encode}
use kazoo.Protocol.Reader.Reads.{
  Reads, Reads-pure, Reads-bind, Reads-last, Reads-int_of, Reads-slice,
}
use kazoo.Protocol.Strings.{
  Text, Buffer, minus_one, write_string, write_buffer, decoded, read_string_of, read_string,
  read_buffer_of, read_buffer, sent,
}

Reads-decoded : (s bs : List ℕ) → decode bs ≡ ok s → Reads (decoded bs) [] (some s)
unfolding decoded
Reads-decoded s bs h = record {
  at = λ buffer offset rest at. rw h (ap (λ (n : ℕ). ok (some s, n)) (omega arith));
}

-- Bytes behind their length.
counted :
    (x bs : List ℕ)
    → (pack 4 (pos (length x)) <> ok x) ≡ ok bs
    → (hd : List ℕ) × (pack 4 (pos (length x)) ≡ ok hd) × (bs ≡ hd ++ x)
counted x bs h = let (hd, ys, p, q, e) = <>-eq-ok (pack 4 (pos (length x))) (ok x) h in (hd, p, cc)

Reads-none : (bs : List ℕ) → pack 4 minus_one ≡ ok bs → Reads read_string bs none
unfolding read_string read_string_of
Reads-none bs h =
    rw (← append-nil bs)
      (Reads-bind read_string_of (Reads-int_of 3 minus_one bs h) (Reads-pure none))

-- A text is read back as it was written, but that the empty text comes back as None.
pub Reads-write_string :
    (t : Text) (bs : List ℕ) → write_string t ≡ ok bs → Reads read_string bs (sent t)
unfolding write_string read_string read_string_of
Reads-write_string none bs h = Reads-none bs h
Reads-write_string (some []) bs h = Reads-none bs h
Reads-write_string (some (c ∷ cs)) bs h =
    let (x, utf8, h') = >>=-eq-ok (encode (c ∷ cs)) _ h in
    let (hd, p, e) = counted x bs h' in
    rw (e, ← append-nil x)
      (Reads-bind read_string_of (Reads-int_of 3 (pos (length x)) hd p)
        (Reads-bind decoded (Reads-slice x) (Reads-decoded (c ∷ cs) x (decode-encode _ x utf8))))

-- A byte string is read back as it was written, the empty one and None included.
pub Reads-write_buffer :
    (b : Buffer) (bs : List ℕ) → write_buffer b ≡ ok bs → Reads read_buffer bs b
unfolding write_buffer read_buffer read_buffer_of
Reads-write_buffer none bs h =
    rw (← append-nil bs)
      (Reads-bind read_buffer_of (Reads-int_of 3 minus_one bs h) (Reads-pure none))
Reads-write_buffer (some x) bs h =
    let (hd, p, e) = counted x bs h in
    rw e (
      Reads-bind read_buffer_of (Reads-int_of 3 (pos (length x)) hd p)
        (Reads-last some (Reads-slice x)))
