-- ===== src/Python/Utf8.antt =====
-- `str.encode("utf-8")` and `bytes.decode("utf-8")`: a text is the list of its code points.
pub mod RoundTrip
use kazoo.Base.{
  ℕ, zero, suc, ◌+◌, ◌-◌, ◌*◌, ◌/◌, ◌%◌, Bool, ◌&&◌, ◌||◌, List, [], ◌∷◌, ◌++◌, ltb, leb, ◌==◌,
  if◌then◌else◌, Exn, Result-cases, inl, inr, arith, Result, ok, err, unicode_error, ◌>>=◌, ◌<>◌,
  ◌≡◌, refl,
}

-- Not a surrogate, and at most U+10FFFF.
abbrev pub is_scalar : ℕ → Bool
is_scalar c = ltb c 0xd800 || (leb 0xe000 c && ltb c 0x110000)

unfoldable pub encode_char : ℕ → Result (List ℕ)
encode_char c =
    if ltb c 0x80
    then ok (c ∷ [])
    else if ltb c 0x800
    then ok ((0xc0 + c / 64) ∷ (0x80 + c % 64) ∷ [])
    else if is_scalar c
    then if ltb c 0x10000
      then ok ((0xe0 + c / 4096) ∷ (0x80 + c / 64 % 64) ∷ (0x80 + c % 64) ∷ [])
      else ok (
          (0xf0 + c / 262144)
          ∷ (0x80 + c / 4096 % 64)
          ∷ (0x80 + c / 64 % 64)
          ∷ (0x80 + c % 64)
          ∷ [])
    else err unicode_error

unfoldable pub encode : List ℕ → Result (List ℕ)
encode [] = ok []
encode (c ∷ cs) = encode_char c <> encode cs

-- Between two characters, or inside one: the bytes still to come, the bits so far, and the least
-- code point that needs so many bytes.
pub data Decoder : Type 0 where
  start : Decoder
  within : ℕ → ℕ → ℕ → Decoder

-- The first byte of a character.
unfoldable pub decode_first : ℕ → Result (Decoder × List ℕ)
decode_first b =
    if ltb b 0x80
    then ok (start, b ∷ [])
    else if leb 0xc2 b && ltb b 0xe0
    then ok (within 0 (b - 0xc0) 0x80, [])
    else if leb 0xe0 b && ltb b 0xf0
    then ok (within 1 (b - 0xe0) 0x800, [])
    else if leb 0xf0 b && ltb b 0xf5
    then ok (within 2 (b - 0xf0) 0x10000, [])
    else err unicode_error

-- A continuation byte; `within k` has `k` more to come after this one.
unfoldable pub decode_next : ℕ → ℕ → ℕ → ℕ → Result (Decoder × List ℕ)
decode_next zero acc least b =
    let c = acc * 64 + (b - 0x80) in
    if leb 0x80 b && (ltb b 0xc0 && (leb least c && is_scalar c))
    then ok (start, c ∷ [])
    else err unicode_error
decode_next (suc k) acc least b =
    if leb 0x80 b && ltb b 0xc0
    then ok (within k (acc * 64 + (b - 0x80)) least, [])
    else err unicode_error

unfoldable pub decode_step : Decoder → ℕ → Result (Decoder × List ℕ)
unfolding decode_first decode_next
decode_step start b = decode_first b
decode_step (within k acc least) b = decode_next k acc least b

-- What a step has yielded, before what the rest yields.
abbrev pub emit : List ℕ → Result (List ℕ) → Result (List ℕ)
emit out rest = rest >>= λ cs. ok (out ++ cs)

unfoldable pub decode_from : Decoder → List ℕ → Result (List ℕ)
unfolding decode_step
decode_from start [] = ok []
decode_from (within k acc least) [] = err unicode_error
decode_from d (b ∷ bs) = decode_step d b >>= λ step. emit step.1 (decode_from step.0 bs)

unfoldable pub decode : List ℕ → Result (List ℕ)
unfolding decode_from
decode = decode_from start

euro_sign :
    encode (0x20ac ∷ 0x1f600 ∷ []) ≡ ok (0xe2 ∷ 0x82 ∷ 0xac ∷ 0xf0 ∷ 0x9f ∷ 0x98 ∷ 0x80 ∷ [])
unfolding encode encode_char
euro_sign = refl

overlong : decode (0xc0 ∷ 0x80 ∷ []) ≡ err unicode_error
unfolding decode
overlong = refl

decode_step-eq_err : (d : Decoder) (b : ℕ) (e : Exn) → decode_step d b ≡ err e → e ≡ unicode_error
unfolding decode_step
decode_step-eq_err start b e h = ground arith
decode_step-eq_err (within zero acc least) b e h = ground arith
decode_step-eq_err (within (suc k) acc least) b e h = ground arith

decode_from-eq_err :
    (d : Decoder) (bs : List ℕ) (e : Exn) → decode_from d bs ≡ err e → e ≡ unicode_error
unfolding decode_from
decode_from-eq_err start [] e h = cc
decode_from-eq_err (within k acc least) [] e h = cc
decode_from-eq_err start (b ∷ bs) e h = elim (Result-cases (decode_step start b)) [
  | inl ((d, out), q) ↦ ground (arith, decode_from-eq_err d bs e)
  | inr (x, q) ↦ ground (arith, decode_step-eq_err start b x)
]
decode_from-eq_err (within k acc least) (b ∷ bs) e h =
    elim (Result-cases (decode_step (within k acc least) b)) [
      | inl ((d, out), q) ↦ ground (arith, decode_from-eq_err d bs e)
      | inr (x, q) ↦ ground (arith, decode_step-eq_err (within k acc least) b x)
    ]

-- Decoding fails in one way only.
pub decode-eq_err : (bs : List ℕ) (e : Exn) → decode bs ≡ err e → e ≡ unicode_error
unfolding decode
decode-eq_err = decode_from-eq_err start
