-- ===== src/Connection/Wire/Reading.antt =====
-- However the bytes of a packet arrive, `_read` gives the packet.
use kazoo.Base.{
  ℕ, zero, suc, ◌-◌, ◌≤◌, ◌<◌, List, [], ◌∷◌, ◌++◌, ◌≡◌, refl, ap, sym, ◌∙◌, append-nil,
  take-append, drop-append, Bool-cases, inl, inr, ok, length, take, drop, All, leb, arith, leb→le,
  leb→lt, length-append,
}
use kazoo.Base.Int.{pos}
use kazoo.Python.Struct.{pack}
use kazoo.Python.Struct.Pack.{length-pack}
use kazoo.Protocol.Reader.Reads.{Reads-int_of}
use kazoo.Connection.Wire.{
  frame_length, read_frame, Arrival, chunk, timed_out, want_again, broken, read,
}

-- The bytes that arrive.
unfoldable pub arrived : List Arrival → List ℕ
arrived [] = []
arrived (chunk bs ∷ as') = bs ++ arrived as'
arrived (a ∷ as') = arrived as'

-- Bytes, or a wish to try again.
abbrev pub IsFine : Arrival → Type 0
IsFine (chunk []) = ⊥
IsFine (chunk (b ∷ bs)) = Unit
IsFine want_again = Unit
IsFine timed_out = ⊥
IsFine broken = ⊥

module _ {ℓ} {A : Type ℓ} where
  take-over :
      (n : ℕ) (bs xs : List A) → length bs ≤ n → take n (bs ++ xs) ≡ bs ++ take (n - length bs) xs
  take-over n [] xs h = ap (λ k. take k xs) (omega arith)
  take-over zero (b ∷ bs) xs h = absurd (omega (arith, h))
  take-over (suc n) (b ∷ bs) xs h =
      ap (λ l. b ∷ l)
        (take-over n bs xs (omega (arith, h)) ∙ ap (λ k. bs ++ take k xs) (omega arith))

  drop-over : (n : ℕ) (bs xs : List A) → length bs ≤ n → drop n (bs ++ xs) ≡ drop (n - length bs) xs
  drop-over n [] xs h = ap (λ k. drop k xs) (omega arith)
  drop-over zero (b ∷ bs) xs h = absurd (omega (arith, h))
  drop-over (suc n) (b ∷ bs) xs h =
      drop-over n bs xs (omega (arith, h)) ∙ ap (λ k. drop k xs) (omega arith)

  take-within : (n : ℕ) (bs xs : List A) → n ≤ length bs → take n (bs ++ xs) ≡ take n bs
  take-within zero bs xs h = refl
  take-within (suc n) [] xs h = absurd (omega (arith, h))
  take-within (suc n) (b ∷ bs) xs h = ap (λ l. b ∷ l) (take-within n bs xs (omega (arith, h)))

  drop-within : (n : ℕ) (bs xs : List A) → n ≤ length bs → drop n (bs ++ xs) ≡ drop n bs ++ xs
  drop-within zero bs xs h = refl
  drop-within (suc n) [] xs h = absurd (omega (arith, h))
  drop-within (suc n) (b ∷ bs) xs h = drop-within n bs xs (omega (arith, h))

drop-IsFine : (n : ℕ) (bs : List ℕ) → n < length bs → IsFine (chunk (drop n bs))
drop-IsFine n [] h = absurd (omega (arith, h))
drop-IsFine zero (b ∷ bs) h = tt
drop-IsFine (suc n) (b ∷ bs) h = drop-IsFine n bs (omega (arith, h))

-- What a read leaves, for a result that is known.
pub Leaves : List Arrival → List ℕ → ℕ → Type 0
Leaves as' bs n =
    (rest : List Arrival) × (read n as' ≡ ok (take n bs, rest))
    × (arrived rest ≡ drop n bs)
    × All IsFine rest

pub read_lem :
    (n : ℕ) (as' : List Arrival)
    → All IsFine as'
    → n ≤ length (arrived as')
    → Leaves as' (arrived as') n
unfolding read arrived Leaves
read_lem zero as' f h = (as', refl, refl, f)
read_lem (suc n) [] f h = absurd (omega (arith, h))
read_lem (suc n) (want_again ∷ as') f h = read_lem (suc n) as' f.1 h
read_lem (suc n) (timed_out ∷ as') f h = absurd f.0
read_lem (suc n) (broken ∷ as') f h = absurd f.0
read_lem (suc n) (chunk [] ∷ as') f h = absurd f.0
read_lem (suc n) (chunk (b ∷ bs) ∷ as') f h = elim (Bool-cases (leb (length bs) n)) [
  | inl e ↦
      let le = leb→le (length bs) n e in
      let r =
        read_lem (n - length bs) as' f.1 (omega (arith, h, length-append bs (arrived as'), le)) in
      (
        r.0,
        rw (e, r.1) (ap (λ l. ok (b ∷ l, r.0)) (sym (take-over n bs (arrived as') le))),
        r.2 ∙ sym (drop-over n bs (arrived as') le),
        r.3,
      )
  | inr e ↦
      let lt = leb→lt (length bs) n e in
      (
        chunk (drop n bs) ∷ as',
        rw e (
            ap (λ l. ok (b ∷ l, chunk (drop n bs) ∷ as'))
              (sym (take-within n bs (arrived as') (omega (arith, lt))))),
        sym (drop-within n bs (arrived as') (omega (arith, lt))),
        (drop-IsFine n bs lt, f.1),
      )
]

frame_length-pack : (n : ℕ) (head : List ℕ) → pack 4 (pos n) ≡ ok head → frame_length head ≡ ok n
frame_length-pack n head p =
    rw ((Reads-int_of 3 (pos n) head p).at head 0 [] (sym (append-nil head))) refl

-- A frame is read as the body that the server put into it, however the network cut the stream into
-- chunks, and what follows it is left for the next frame.
pub read_frame-pack :
    (body rest head : List ℕ) (as' : List Arrival)
    → pack 4 (pos (length body)) ≡ ok head
    → All IsFine as'
    → arrived as' ≡ head ++ (body ++ rest)
    → (later : List Arrival) × (read_frame as' ≡ ok (body, later))
      × (arrived later ≡ rest)
      × All IsFine later
unfolding read_frame Leaves
read_frame-pack body rest head as' p f h =
    let four = length-pack 4 (pos (length body)) head p in
    let taken : take 4 (arrived as') ≡ head =
      ap (λ l. take 4 l) h
      ∙ ap (λ k. take k (head ++ (body ++ rest))) (sym four)
      ∙ take-append head (body ++ rest) in
    let left : drop 4 (arrived as') ≡ body ++ rest =
      ap (λ l. drop 4 l) h
      ∙ ap (λ k. drop k (head ++ (body ++ rest))) (sym four)
      ∙ drop-append head (body ++ rest) in
    let r =
      read_lem 4 as' f (omega (arith, four, ap length h, length-append head (body ++ rest))) in
    let e = r.2 ∙ left in
    let s = read_lem (length body) r.0 r.3 (omega (arith, ap length e, length-append body rest)) in
    (
      s.0,
      rw (r.1, taken, frame_length-pack (length body) head p, s.1, e, take-append body rest) refl,
      s.2 ∙ ap (λ l. drop (length body) l) e ∙ drop-append body rest,
      s.3,
    )
