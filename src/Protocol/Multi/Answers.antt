-- ===== src/Protocol/Multi/Answers.antt =====
-- The results are those that the server sent, in order.
use kazoo.Base.{
  ℕ, zero, suc, ◌+◌, ◌≤◌, ◌<◌, List, [], ◌∷◌, ◌++◌, ◌≡◌, refl, ap, ◌∙◌, Bool, true, false, length,
  length-append, length-drop, map, All, At, append_assoc, append-nil, arith, Result, ok, ◌<>◌,
  <>-eq-ok,
}
use kazoo.Base.Int.{ℤ, pos, negsuc}
use kazoo.Exceptions.{ZookeeperError}
use kazoo.Exceptions.Codes.{code, exceptions, exceptions-code}
use kazoo.Python.Struct.{pack}
use kazoo.Python.Struct.Pack.{length-pack}
use kazoo.Protocol.Reader.{Reader, ◌>>=◌}
use kazoo.Protocol.Reader.Reads.{Reads, Reads-pure, Reads-bind, Reads-last, Reads-int_of}
use kazoo.Protocol.Strings.{Text, minus_one, sent, write_string}
use kazoo.Protocol.Strings.RoundTrip.{Reads-write_string}
use kazoo.Protocol.Records.{ZnodeStat, flag_byte, read_multi_header, write_multi_header}
use kazoo.Protocol.Records.RoundTrip.{write_stat, Reads-write_stat, Reads-write_multi_header}
use kazoo.Protocol.Multi.{
  TxResponse, nothing, yes, text, stat, failed, is_truthy, raise_or_fail, read_body, extended,
  read_results, first_header, deserialize_transaction,
}

-- What a server answers to one operation.
pub data Answer : Type 0 where
  created : Text → Answer
  deleted checked : Answer
  changed : ZnodeStat → Answer
  rejected : ZookeeperError → Answer

abbrev pub answer_type : Answer → ℤ
answer_type (created t) = pos 1
answer_type deleted = pos 2
answer_type checked = pos 13
answer_type (changed s) = pos 5
answer_type (rejected e) = negsuc 0

pub write_answer : Answer → Result (List ℕ)
write_answer (created t) = write_string t
write_answer deleted = ok []
write_answer checked = ok []
write_answer (changed s) = write_stat s
write_answer (rejected e) = pack 4 (code e)

-- Each answer behind a header without the mark, and a header with it.
unfoldable pub write_answers : List Answer → Result (List ℕ)
unfolding write_answer
write_answers [] = write_multi_header minus_one true minus_one
write_answers (a ∷ as') =
    write_multi_header (answer_type a) false (pos 0) <> write_answer a <> write_answers as'

abbrev pub response_of : Answer → TxResponse
response_of (created t) = text (sent t)
response_of deleted = yes
response_of checked = yes
response_of (changed s) = stat s
response_of (rejected e) = failed e

Reads-write_answer :
    (a : Answer) (last : TxResponse) (bs : List ℕ)
    → write_answer a ≡ ok bs
    → Reads (read_body (answer_type a) last) bs (response_of a)
unfolding write_answer read_body
Reads-write_answer (created t) last bs h = Reads-last text (Reads-write_string t bs h)
Reads-write_answer deleted last bs h = let e : bs ≡ [] = cc in rw e (Reads-pure yes)
Reads-write_answer checked last bs h = let e : bs ≡ [] = cc in rw e (Reads-pure yes)
Reads-write_answer (changed s) last bs h = Reads-last stat (Reads-write_stat s bs h)
Reads-write_answer (rejected e) last bs h = rw (← append-nil bs) (
    Reads-bind (λ c. raise_or_fail (exceptions c)) (Reads-int_of 3 (code e) bs h)
      (rw (exceptions-code e) (Reads-pure (failed e))))

-- From a header on, with the results so far.
from_header : ℕ → TxResponse → List TxResponse → Reader (List TxResponse)
from_header fuel last results =
    read_multi_header >>= λ header. read_results fuel header last results

abbrev pub IsShown : Answer → Type 0
IsShown a = is_truthy (response_of a) ≡ true

Reads-write_answers :
    (as' : List Answer) (fuel : ℕ) (last : TxResponse) (results : List TxResponse) (bs : List ℕ)
    → All IsShown as'
    → length as' < fuel
    → write_answers as' ≡ ok bs
    → Reads (from_header fuel last results) bs (results ++ map response_of as')
unfolding write_answers from_header read_results
Reads-write_answers as' zero last results bs shown h e = absurd (omega arith)
Reads-write_answers [] (suc fuel) last results bs shown h e =
    rw (append-nil results, ← append-nil bs)
      (Reads-bind _ (Reads-write_multi_header minus_one true minus_one bs e) (Reads-pure results))
Reads-write_answers (a ∷ as') (suc fuel) last results bs shown h e =
    let (xs, others, p, q, e1) =
      <>-eq-ok (write_multi_header (answer_type a) false (pos 0))
        (write_answer a <> write_answers as') e in
    let (ys, zs, q', r, e2) = <>-eq-ok (write_answer a) (write_answers as') q in
    let x = response_of a in
    let later : Reads (from_header fuel x (extended results x)) zs
        (results ++ (x ∷ map response_of as')) =
      rw shown.0 (
        rw (append_assoc results (x ∷ []) (map response_of as')) at
          (Reads-write_answers as' fuel x (results ++ x ∷ []) zs shown.1 (omega arith) r)) in
    rw (e1, e2)
      (Reads-bind _ (Reads-write_multi_header (answer_type a) false (pos 0) xs p)
        (Reads-bind _ (Reads-write_answer a last ys q') later))

length-write_multi_header :
    (type : ℤ) (is_done : Bool) (c : ℤ) (bs : List ℕ)
    → write_multi_header type is_done c ≡ ok bs
    → 1 ≤ length bs
unfolding write_multi_header
length-write_multi_header type is_done c bs h =
    let (xs, ys, p, q, e) = <>-eq-ok (pack 4 type) (ok (flag_byte is_done) <> pack 4 c) h in
    rw e (omega (arith, length-append xs ys, length-pack 4 type xs p))

length-write_answers :
    (as' : List Answer) (bs : List ℕ) → write_answers as' ≡ ok bs → length as' < length bs
unfolding write_answers
length-write_answers [] bs h = length-write_multi_header minus_one true minus_one bs h
length-write_answers (a ∷ as') bs h =
    let header = write_multi_header (answer_type a) false (pos 0) in
    let (xs, others, p, q, e1) = <>-eq-ok header (write_answer a <> write_answers as') h in
    let (ys, zs, q', r, e2) = <>-eq-ok (write_answer a) (write_answers as') q in
    rw (e1, e2)
      (omega (
        arith,
        length-append xs (ys ++ zs),
        length-append ys zs,
        length-write_multi_header (answer_type a) false (pos 0) xs p,
        length-write_answers as' zs r,
      ))

At-length :
    (buffer : List ℕ) (offset : ℕ) (bs rest : List ℕ)
    → At buffer offset (bs ++ rest)
    → length bs ≤ length buffer
At-length buffer offset bs rest h =
    omega (arith, ap length h, length-drop offset buffer, length-append bs rest)

two_more : (n : ℕ) → n + 2 ≡ suc (n + 1)
two_more n = omega arith

-- The first round reads no body, and adds no result.
first_round :
    (fuel : ℕ) → read_results (suc fuel) first_header nothing [] ≡ from_header fuel nothing []
unfolding read_results from_header ◌>>=◌
first_round fuel = refl

-- Whatever answers to create (type 1), delete, set data and check operations the server sent, and
-- whatever errors of a known class, behind whatever stands before and before whatever follows, the client returns one
-- response for each, in order. A created path has to be a text that is sent as one, since the empty
-- text and None are left out of the list, and there is no answer to a create2 (type 15), which
-- `TransactionRequest` does not send.
pub Reads-deserialize_transaction :
    (as' : List Answer) (bs : List ℕ)
    → All IsShown as'
    → write_answers as' ≡ ok bs
    → Reads deserialize_transaction bs (map response_of as')
unfolding deserialize_transaction
Reads-deserialize_transaction as' bs shown h = record {
  at = λ buffer offset rest at.
      let enough : length as' < length buffer + 1 =
        omega (arith, length-write_answers as' bs h, At-length buffer offset bs rest at) in
      ap (λ (n : ℕ). read_results n first_header nothing [] buffer offset)
        (two_more (length buffer))
      ∙ ap (λ (r : Reader (List TxResponse)). r buffer offset) (first_round (length buffer + 1))
      ∙ (Reads-write_answers as' (length buffer + 1) nothing [] bs shown enough h).at buffer offset
          rest at;
}
