-- ===== src/Protocol/Reader/Reads.antt =====
-- `Reads r bs v`: wherever `bs` stands in a buffer, `r` reads `v` there and stops behind it.
use kazoo.Base.{
  ℕ, suc, ◌+◌, ◌≡◌, refl, ap, ◌∙◌, List, [], ◌∷◌, ◌++◌, arith, append_assoc, length, length-append,
  At, At-skip, take-append, map, <>-eq-ok, ◌<>◌, Result, ok,
}
use kazoo.Base.Int.{ℤ}
use kazoo.Python.Struct.{pack, from_be}
use kazoo.Python.Struct.Pack.{length-pack, take_from-At, unpack_from-pack}
use kazoo.Protocol.Reader.{Reader, pure, ◌>>=◌, int_of, byte, slice, repeat}

pub record Reads {ℓ} {A : Type ℓ} (r : Reader A) (bs : List ℕ) (v : A) : Type ℓ where
  pub at :
      (buffer : List ℕ) (offset : ℕ) (rest : List ℕ)
      → At buffer offset (bs ++ rest)
      → r buffer offset ≡ ok (v, offset + length bs)

module _ {ℓ} {A : Type ℓ} where
  pub Reads-pure : (a : A) → Reads (pure a) [] a
  unfolding pure
  Reads-pure a = record { at = λ buffer offset rest h. ap (λ (n : ℕ). ok (a, n)) (omega arith) }

module _ {ℓ κ} {A : Type ℓ} {B : Type κ} where
  pub Reads-bind :
      {r : Reader A} (f : A → Reader B) {xs ys : List ℕ} {a : A} {b : B}
      → Reads r xs a
      → Reads (f a) ys b
      → Reads (r >>= f) (xs ++ ys) b
  unfolding ◌>>=◌
  Reads-bind f {xs} {ys} {a} {b} hr hf = record {
    at = λ buffer offset rest h.
        let h' : At buffer offset (xs ++ (ys ++ rest)) = h ∙ append_assoc xs ys rest in
        rw (hr.at buffer offset (ys ++ rest) h') (
          hf.at buffer (offset + length xs) rest (At-skip buffer offset xs h')
          ∙ ap (λ (n : ℕ). ok (b, n)) (omega (arith, length-append xs ys)));
  }

  -- The last reader of a block: what it reads is returned as it is.
  pub Reads-last :
      {r : Reader A} (f : A → B) {xs : List ℕ} {a : A}
      → Reads r xs a
      → Reads (r >>= λ x. pure (f x)) xs (f a)
  unfolding ◌>>=◌
  Reads-last f hr = record { at = λ buffer offset rest h. rw (hr.at buffer offset rest h) }

-- An integer that fits its width.
pub Reads-int_of :
    (w : ℕ) (z : ℤ) (bs : List ℕ) → pack (suc w) z ≡ ok bs → Reads (int_of (suc w)) bs z
unfolding int_of
Reads-int_of w z bs p = record {
  at = λ buffer offset rest h.
      rw (unpack_from-pack w z bs rest buffer offset p h, length-pack (suc w) z bs p);
}

pub Reads-byte : (b : ℕ) → Reads byte (b ∷ []) b
unfolding byte from_be
Reads-byte b = record {
  at = λ buffer offset rest h.
      rw (take_from-At 1 buffer offset (b ∷ []) rest refl h)
        (ap (λ (n : ℕ). ok (n, offset + 1)) (omega arith));
}

pub Reads-slice : (bs : List ℕ) → Reads (slice (length bs)) bs bs
unfolding slice
Reads-slice bs = record { at = λ buffer offset rest h. rw (h, take-append) }

module _ {ℓ κ} {A : Type ℓ} {B : Type κ} (r : Reader B) (write : A → Result (List ℕ))
    (view : A → B) where
  -- The items one after the other.
  abbrev pub write_each : List A → Result (List ℕ)
  write_each [] = ok []
  write_each (x ∷ xs) = write x <> write_each xs

  -- A loop that reads as often as there are items.
  pub Reads-repeat :
      ((x : A) (bs : List ℕ) → write x ≡ ok bs → Reads r bs (view x))
      → (xs : List A) (bs : List ℕ) → write_each xs ≡ ok bs
      → Reads (repeat (length xs) r) bs (map view xs)
  unfolding repeat
  Reads-repeat each [] bs h = let e : bs ≡ [] = cc in rw e (Reads-pure [])
  Reads-repeat each (x ∷ xs) bs h =
      let (ys, zs, p, q, e) = <>-eq-ok (write x) (write_each xs) h in
      rw e (Reads-bind _ (each x ys p) (Reads-last (λ vs. view x ∷ vs) (Reads-repeat each xs zs q)))
