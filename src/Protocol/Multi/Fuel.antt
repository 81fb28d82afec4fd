-- ===== src/Protocol/Multi/Fuel.antt =====
-- The loop of `Transaction.deserialize` ends on every buffer.
use kazoo.Base.{
  ℕ, zero, suc, ◌+◌, ◌-◌, ◌≤◌, ◌<◌, List, [], ◌∷◌, ◌++◌, ◌≡◌, ◌≢◌, refl, ap, ◌∙◌, Option, none,
  some, Bool, true, false, length, length-drop, arith, Result, ok, err, Exn, out_of_fuel,
  runtime_error, leb, leb→le, drop, Bool-cases, Result-cases, inl, inr, if◌then◌else◌,
}
use kazoo.Base
use kazoo.Base.Int.{ℤ, pos, negsuc, int_eq}
use kazoo.Exceptions.{ZookeeperError}
use kazoo.Exceptions.Codes.{exceptions, exceptions-ne-out_of_fuel}
use kazoo.Python.Utf8.{decode, decode-eq_err}
use kazoo.Protocol.Reader.{Reader, pure, fail, ◌>>=◌, int_of, byte, slice}
use kazoo.Protocol.Strings.{read_string, read_string_of, decoded}
use kazoo.Protocol.Records.{MultiHeader, read_stat, read_multi_header}
use kazoo.Protocol.Multi.{
  TxResponse, nothing, yes, text, stat, raise_or_fail, read_body, read_typed, extended,
  read_results, first_header, deserialize_transaction,
}

-- A reader that may fail, but not for want of fuel, and does not go back.
abbrev Moved {ℓ} : {A : Type ℓ} → ℕ → Result (A × ℕ) → Type 0
Moved offset (ok (a, offset')) = offset ≤ offset'
Moved offset (err e) = e ≢ out_of_fuel

record Moves {ℓ} {A : Type ℓ} (r : Reader A) : Type ℓ where
  at : (buffer : List ℕ) (offset : ℕ) → Moved offset (r buffer offset)

-- A reader that also goes on, and stays in the buffer.
abbrev Taken {ℓ} : {A : Type ℓ} → ℕ → ℕ → Result (A × ℕ) → Type 0
Taken size offset (ok (a, offset')) = (offset < offset') × (offset' ≤ size)
Taken size offset (err e) = e ≢ out_of_fuel

record Takes {ℓ} {A : Type ℓ} (r : Reader A) : Type ℓ where
  at : (buffer : List ℕ) (offset : ℕ) → Taken (length buffer) offset (r buffer offset)

module _ {ℓ} {A : Type ℓ} where
  Moves-pure : (a : A) → Moves (pure a)
  unfolding pure
  Moves-pure a = record { at = λ buffer offset. omega arith }

  Moved-back : (o o' : ℕ) (x : Result (A × ℕ)) → o ≤ o' → Moved o' x → Moved o x
  Moved-back o o' (ok (a, o'')) h m = omega arith
  Moved-back o o' (err e) h m = m

  Taken-back : (size o o' : ℕ) (x : Result (A × ℕ)) → o ≤ o' → Taken size o' x → Taken size o x
  Taken-back size o o' (ok (a, o'')) h m = omega arith
  Taken-back size o o' (err e) h m = m

  Taken→Moved : (size o : ℕ) (x : Result (A × ℕ)) → Taken size o x → Moved o x
  Taken→Moved size o (ok (a, o')) h = omega arith
  Taken→Moved size o (err e) h = h

  Takes→Moves : {r : Reader A} → Takes r → Moves r
  Takes→Moves t = record {
    at = λ buffer offset. Taken→Moved (length buffer) offset _ (t.at buffer offset);
  }

module _ {ℓ κ} {A : Type ℓ} {B : Type κ} (f : A → Reader B) where
  Moved-then :
      (buffer : List ℕ) (o : ℕ) (x : Result (A × ℕ))
      → ((a : A) → Moves (f a))
      → Moved o x
      → Moved o (Base.◌>>=◌ x (λ p. f p.0 buffer p.1))
  Moved-then buffer o (ok (a, o')) mf h = Moved-back o o' _ h ((mf a).at buffer o')
  Moved-then buffer o (err e) mf h = h

  Taken-then :
      (buffer : List ℕ) (o : ℕ) (x : Result (A × ℕ))
      → ((a : A) → Takes (f a))
      → Moved o x
      → Taken (length buffer) o (Base.◌>>=◌ x (λ p. f p.0 buffer p.1))
  Taken-then buffer o (ok (a, o')) tf h = Taken-back (length buffer) o o' _ h ((tf a).at buffer o')
  Taken-then buffer o (err e) tf h = h

  Moves-bind : {r : Reader A} → Moves r → ((a : A) → Moves (f a)) → Moves (r >>= f)
  unfolding ◌>>=◌
  Moves-bind mr mf = record { at = λ buffer o. Moved-then buffer o _ mf (mr.at buffer o) }

  Takes-bind : {r : Reader A} → Moves r → ((a : A) → Takes (f a)) → Takes (r >>= f)
  unfolding ◌>>=◌
  Takes-bind mr tf = record { at = λ buffer o. Taken-then buffer o _ tf (mr.at buffer o) }

module _ {ℓ κ} {A : Type ℓ} {B : Type κ} (f : A → B) where
  Taken-map :
      (size o : ℕ) (buffer : List ℕ) (x : Result (A × ℕ))
      → Taken size o x
      → Taken size o (Base.◌>>=◌ x (λ p. ok (f p.0, p.1)))
  Taken-map size o buffer (ok (a, o')) h = h
  Taken-map size o buffer (err e) h = h

  Takes-last : {r : Reader A} → Takes r → Takes (r >>= λ a. pure (f a))
  unfolding ◌>>=◌
  Takes-last t = record { at = λ buffer o. Taken-map (length buffer) o buffer _ (t.at buffer o) }

Takes-int_of : (w : ℕ) → Takes (int_of (suc w))
unfolding int_of
Takes-int_of w = record {
  at = λ buffer o. elim (Bool-cases (leb (suc w) (length (drop o buffer)))) [
    | inl e ↦ rw e (
      omega arith,
      omega (arith, leb→le (suc w) (length (drop o buffer)) e, length-drop o buffer),
    )
    | inr e ↦ rw e (λ p. cc)
  ];
}

Moves-byte : Moves byte
unfolding byte
Moves-byte = record {
  at = λ buffer o. elim (Bool-cases (leb 1 (length (drop o buffer)))) [
    | inl e ↦ rw e (omega arith)
    | inr e ↦ rw e (λ p. cc)
  ];
}

Moves-slice : (n : ℕ) → Moves (slice n)
unfolding slice
Moves-slice n = record { at = λ buffer o. omega arith }

Moves-int_of : (w : ℕ) → Moves (int_of (suc w))
Moves-int_of w = Takes→Moves (Takes-int_of w)

Moves-decoded : (bs : List ℕ) → Moves (decoded bs)
unfolding decoded
Moves-decoded bs = record {
  at = λ buffer o. elim (Result-cases (decode bs)) [
    | inl (s, e) ↦ rw e (omega arith)
    | inr (x, e) ↦ rw e (λ p. cc (decode-eq_err bs x e))
  ];
}

Moves-read_string_of : (n : ℤ) → Moves (read_string_of n)
unfolding read_string_of
Moves-read_string_of (pos n) = Moves-bind decoded (Moves-slice n) Moves-decoded
Moves-read_string_of (negsuc n) = Moves-pure none

Moves-read_string : Moves read_string
unfolding read_string
Moves-read_string = Moves-bind read_string_of (Moves-int_of 3) Moves-read_string_of

Moves-read_stat : Moves read_stat
unfolding read_stat
Moves-read_stat = search (Moves-pure, Moves-bind, Moves-int_of 3, Moves-int_of 7) depth 26

Takes-read_multi_header : Takes read_multi_header
unfolding read_multi_header
Takes-read_multi_header =
    Takes-bind _ (Moves-int_of 3)
      (λ t. Takes-bind _ Moves-byte (λ d. Takes-last _ (Takes-int_of 3)))

Moves-raise_or_fail : (r : Result ZookeeperError) → r ≢ err out_of_fuel → Moves (raise_or_fail r)
Moves-raise_or_fail (ok e) h = Moves-pure _
Moves-raise_or_fail (err x) h = record { at = λ buffer o. unfold fail in λ p. h (ap err p) }

Moves-exception : (c : ℤ) → Moves (raise_or_fail (exceptions c))
Moves-exception c = Moves-raise_or_fail (exceptions c) (exceptions-ne-out_of_fuel c)

Moves-if {ℓ} :
    {A : Type ℓ} (b : Bool) {r s : Reader A} → Moves r → Moves s → Moves (if b then r else s)
Moves-if true m n = m
Moves-if false m n = n

Moves-read_body : (type : ℤ) (last : TxResponse) → Moves (read_body type last)
unfolding read_body
Moves-read_body type last =
    Moves-if (int_eq type (pos 1)) (Moves-bind _ Moves-read_string (λ path. Moves-pure (text path)))
      (Moves-if (int_eq type (pos 2)) (Moves-pure yes) (
        Moves-if (int_eq type (pos 5)) (Moves-bind _ Moves-read_stat (λ s. Moves-pure (stat s))) (
          Moves-if (int_eq type (pos 13)) (Moves-pure yes) (
            Moves-if (int_eq type (negsuc 0)) (Moves-bind _ (Moves-int_of 3) Moves-exception)
              (Moves-pure last)))))

Moves-read_typed : (type : Option ℤ) (last : TxResponse) → Moves (read_typed type last)
Moves-read_typed none last = Moves-pure last
Moves-read_typed (some type) last = Moves-read_body type last

-- The rest of a round, from the result of its body and from that of its header on.
module _ (buffer : List ℕ) (offset fuel : ℕ) (enough : length buffer < suc fuel + offset)
    (results : List TxResponse)
    (rest : (header : MultiHeader) (last : TxResponse) (results : List TxResponse) (o : ℕ)
      → length buffer < fuel + o
      → 0 < fuel
      → read_results fuel header last results buffer o ≢ err out_of_fuel) where
  after_header :
      (response : TxResponse) (o : ℕ) (x : Result (MultiHeader × ℕ))
      → offset ≤ o
      → Taken (length buffer) o x
      → Base.◌>>=◌ x (λ p. read_results fuel p.0 response (extended results response) buffer p.1)
        ≢ err out_of_fuel
  after_header response o (ok (header, o')) le t =
      rest header response (extended results response) o' (omega arith) (omega arith)
  after_header response o (err x) le t = λ p. t (cc p)

  after_body :
      (x : Result (TxResponse × ℕ))
      → Moved offset x
      → Base.◌>>=◌ x (λ p.
        Base.◌>>=◌
          (read_multi_header buffer p.1)
          (λ q. read_results fuel q.0 p.0 (extended results p.0) buffer q.1))
        ≢ err out_of_fuel
  after_body (ok (response, o)) m =
      after_header response o (read_multi_header buffer o) m (Takes-read_multi_header.at buffer o)
  after_body (err x) m = λ p. m (cc p)

-- With more rounds than bytes left the loop does not stop for want of rounds.
read_results_ends :
    (fuel : ℕ) (buffer : List ℕ) (header : MultiHeader) (last : TxResponse)
    (results : List TxResponse) (offset : ℕ)
    → length buffer < fuel + offset
    → 0 < fuel
    → read_results fuel header last results buffer offset ≢ err out_of_fuel
unfolding read_results ◌>>=◌
read_results_ends zero buffer header last results offset h k = absurd (omega arith)
read_results_ends (suc fuel) buffer header last results offset h k =
    elim (Bool-cases header.is_done) [
      | inl e ↦ simp e (λ p. cc)
      | inr e ↦ simp e (
          after_body buffer offset fuel h results (read_results_ends fuel buffer)
            (read_typed header.type last buffer offset)
            ((Moves-read_typed header.type last).at buffer offset))
    ]

-- `Transaction.deserialize` ends: on no buffer, well formed or not, do its rounds run out.
pub deserialize_transaction-ne-out_of_fuel :
    (buffer : List ℕ) (offset : ℕ) → deserialize_transaction buffer offset ≢ err out_of_fuel
unfolding deserialize_transaction
deserialize_transaction-ne-out_of_fuel buffer offset =
    read_results_ends (length buffer + 2) buffer first_header nothing [] offset (omega arith)
      (omega arith)
