-- ===== src/Python/Utf8/RoundTrip.antt =====
-- Decoding what was encoded.
use kazoo.Base.{
  ℕ, suc, le→leb, lt→ltb, ◌+◌, ◌-◌, ◌*◌, ◌/◌, ◌%◌, ◌≡◌, refl, ap, ◌∙◌, ◌<◌, ◌≤◌, true, List, [],
  ◌∷◌, ◌++◌, arith, append_assoc, Result, ok, err, <>-eq-ok, sym, append-nil,
}
use kazoo.Python.Utf8.{
  is_scalar, encode_char, encode, Decoder, start, within, decode_step, decode_from, decode, emit,
}

emit-nil : (r : Result (List ℕ)) → emit [] r ≡ r
emit-nil (ok cs) = refl
emit-nil (err e) = refl

-- One step that succeeds.
decode_from_step :
    (d : Decoder) (b : ℕ) (bs : List ℕ) {d' : Decoder} {out : List ℕ}
    → decode_step d b ≡ ok (d', out)
    → decode_from d (b ∷ bs) ≡ emit out (decode_from d' bs)
unfolding decode_from
decode_from_step start b bs h = rw h
decode_from_step (within k acc least) b bs h = rw h

-- A step that yields no character yet.
decode_from_silent :
    (d : Decoder) (b : ℕ) (bs : List ℕ) {d' : Decoder}
    → decode_step d b ≡ ok (d', [])
    → decode_from d (b ∷ bs) ≡ decode_from d' bs
decode_from_silent d b bs h = decode_from_step d b bs h ∙ emit-nil _

-- The steps in arithmetic: a first byte of each kind, an inner byte and a last byte.
first_of_one : (c : ℕ) → c < 0x80 → decode_step start c ≡ ok (start, c ∷ [])
unfolding decode_step
first_of_one c h = ground arith

first_of_two : (x : ℕ) → 2 ≤ x → x < 32 → decode_step start (0xc0 + x) ≡ ok (within 0 x 0x80, [])
unfolding decode_step
first_of_two x h k = ground arith

first_of_three : (x : ℕ) → x < 16 → decode_step start (0xe0 + x) ≡ ok (within 1 x 0x800, [])
unfolding decode_step
first_of_three x h = ground arith

first_of_four : (x : ℕ) → x < 5 → decode_step start (0xf0 + x) ≡ ok (within 2 x 0x10000, [])
unfolding decode_step
first_of_four x h = ground arith

inner_byte :
    (k acc least x : ℕ)
    → x < 64
    → decode_step (within (suc k) acc least) (0x80 + x) ≡ ok (within k (acc * 64 + x) least, [])
unfolding decode_step
inner_byte k acc least x h = ground arith

last_byte :
    (c acc least x : ℕ)
    → acc * 64 + x ≡ c
    → x < 64
    → least ≤ c
    → is_scalar c ≡ true
    → decode_step (within 0 acc least) (0x80 + x) ≡ ok (start, c ∷ [])
unfolding decode_step
last_byte c acc least x e h k s =
    let bits : acc * 64 + (0x80 + x - 0x80) ≡ c = omega arith in
    rw (
      bits,
      le→leb 0x80 (0x80 + x) (omega arith),
      lt→ltb (0x80 + x) 0xc0 (omega arith),
      le→leb least c k,
      s,
    )

-- The character that stands first, and whatever follows it.
abbrev then_char : ℕ → List ℕ → Result (List ℕ)
then_char c rest = emit (c ∷ []) (decode_from start rest)

module _ (c : ℕ) (rest : List ℕ) where
  decode_one : c < 0x80 → decode_from start (c ∷ rest) ≡ then_char c rest
  decode_one h = decode_from_step start c rest (first_of_one c h)

  decode_two :
      0x80 ≤ c
      → c < 0x800
      → decode_from start ((0xc0 + c / 64) ∷ (0x80 + c % 64) ∷ rest) ≡ then_char c rest
  decode_two l h =
      decode_from_silent start _ _ (first_of_two (c / 64) (omega arith) (omega arith))
      ∙ decode_from_step (within 0 (c / 64) 0x80) _ rest
          (last_byte c (c / 64) 0x80 (c % 64) (omega arith) (omega arith) l (ground arith))

  decode_three :
      0x800 ≤ c
      → c < 0x10000
      → is_scalar c ≡ true
      → decode_from start ((0xe0 + c / 4096) ∷ (0x80 + c / 64 % 64) ∷ (0x80 + c % 64) ∷ rest)
        ≡ then_char c rest
  decode_three l h s =
      let high = c / 4096 * 64 + c / 64 % 64 in
      decode_from_silent start _ _ (first_of_three (c / 4096) (omega arith))
      ∙ decode_from_silent (within 1 (c / 4096) 0x800) _ _
          (inner_byte 0 (c / 4096) 0x800 (c / 64 % 64) (omega arith))
      ∙ decode_from_step (within 0 high 0x800) _ rest
          (last_byte c high 0x800 (c % 64) (omega arith) (omega arith) l s)

  decode_four :
      0x10000 ≤ c
      → c < 0x110000
      → is_scalar c ≡ true
      → decode_from start (
          (0xf0 + c / 262144)
          ∷ (0x80 + c / 4096 % 64)
          ∷ (0x80 + c / 64 % 64)
          ∷ (0x80 + c % 64)
          ∷ rest)
        ≡ then_char c rest
  decode_four l h s =
      let top = c / 262144 in
      let upper = top * 64 + c / 4096 % 64 in
      let high = upper * 64 + c / 64 % 64 in
      decode_from_silent start _ _ (first_of_four top (omega arith))
      ∙ decode_from_silent (within 2 top 0x10000) _ _
          (inner_byte 1 top 0x10000 (c / 4096 % 64) (omega arith))
      ∙ decode_from_silent (within 1 upper 0x10000) _ _
          (inner_byte 0 upper 0x10000 (c / 64 % 64) (omega arith))
      ∙ decode_from_step (within 0 high 0x10000) _ rest
          (last_byte c high 0x10000 (c % 64) (omega arith) (omega arith) l s)

decode-encode_char :
    (c : ℕ) (bs rest : List ℕ)
    → encode_char c ≡ ok bs
    → decode_from start (bs ++ rest) ≡ then_char c rest
unfolding encode_char
decode-encode_char c bs rest h =
    ground (arith, decode_one c rest, decode_two c rest, decode_three c rest, decode_four c rest)

emit_cons :
    (c : ℕ) (cs : List ℕ) (r : Result (List ℕ)) → emit (c ∷ []) (emit cs r) ≡ emit (c ∷ cs) r
emit_cons c cs (ok x) = refl
emit_cons c cs (err e) = refl

-- Decoding gives the text back that was encoded, and goes on with what follows.
decode_from-encode :
    (s bs rest : List ℕ)
    → encode s ≡ ok bs
    → decode_from start (bs ++ rest) ≡ emit s (decode_from start rest)
unfolding encode
decode_from-encode [] bs rest h =
    let e : bs ≡ [] = cc in rw e (sym (emit-nil (decode_from start rest)))
decode_from-encode (c ∷ cs) bs rest h =
    let (xs, ys, first, others, e) = <>-eq-ok (encode_char c) (encode cs) h in
    rw (e, append_assoc)
      (decode-encode_char c xs (ys ++ rest) first
        ∙ ap (emit (c ∷ [])) (decode_from-encode cs ys rest others)
        ∙ emit_cons c cs (decode_from start rest))

-- Encoding is inverted by decoding, for every text that can be encoded.
pub decode-encode : (s bs : List ℕ) → encode s ≡ ok bs → decode bs ≡ ok s
unfolding decode
decode-encode s bs h = rw (← append-nil bs) (decode_from-encode s bs [] h ∙ ap ok (append-nil s))
