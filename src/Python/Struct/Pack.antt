-- ===== src/Python/Struct/Pack.antt =====
-- Packing and unpacking are inverse, wherever in a buffer the bytes stand.
use native.Mathlib.Nat.{
  div-add-mod, mod-lt, pow-suc, add-mul, zero-mul, zero-add, div-lt_iff_lt-mul,
}
use kazoo.Base.{
  ℕ, zero, suc, ◌+◌, ◌*◌, ◌/◌, ◌%◌, ◌^◌, ◌<◌, ◌≡◌, refl, ap, ◌∙◌, true, List, ◌++◌, arith, length,
  length-append, take-append, At, le→leb, All, ok,
}
use kazoo.Base.Int.{ℤ, pos, negsuc}
use kazoo.Python.Struct.{be_bytes, from_be, fits, to_word, from_word, pack, take_from, unpack_from}

pub length-be_bytes : (w n : ℕ) → length (be_bytes w n) ≡ w
unfolding be_bytes
length-be_bytes zero n = refl
length-be_bytes (suc w) n = ap suc (length-be_bytes w (n % 256 ^ w))

pub pow-pos : (w : ℕ) → 0 < 256 ^ w
pow-pos zero = omega arith
pow-pos (suc w) = rw pow-suc (omega (arith, pow-pos w))

place_value :
    (acc n w : ℕ) → (acc * 256 + n / 256 ^ w) * 256 ^ w + n % 256 ^ w ≡ acc * 256 ^ suc w + n
place_value acc n w = rw (pow-suc, add-mul) (omega (arith, div-add-mod n (256 ^ w)))

from_be-be_bytes : (w acc n : ℕ) → n < 256 ^ w → from_be acc (be_bytes w n) ≡ acc * 256 ^ w + n
unfolding be_bytes from_be
from_be-be_bytes zero acc n h = omega arith
from_be-be_bytes (suc w) acc n h =
    from_be-be_bytes w (acc * 256 + n / 256 ^ w) (n % 256 ^ w) (mod-lt n (pow-pos w))
    ∙ place_value acc n w

-- Each is a byte.
pub be_bytes-IsByte : (w n : ℕ) → n < 256 ^ w → All (λ b. b < 256) (be_bytes w n)
unfolding be_bytes
be_bytes-IsByte zero n h = tt
be_bytes-IsByte (suc w) n h = (
  (div-lt_iff_lt-mul (pow-pos w)).1 (omega (arith, pow-suc 256 w)),
  be_bytes-IsByte w (n % 256 ^ w) (mod-lt n (pow-pos w)),
)

-- Half the range is one bound for both signs, at a positive width.
half_fits : (w : ℕ) → 256 ^ suc w ≡ 2 * (256 ^ suc w / 2)
half_fits w = rw pow-suc (omega arith)

module _ (w : ℕ) where
  to_word-lt : (z : ℤ) → fits (suc w) z ≡ true → to_word (suc w) z < 256 ^ suc w
  to_word-lt (pos n) h = ground (arith, half_fits w)
  to_word-lt (negsuc n) h = ground (arith, half_fits w, pow-pos w)

  from_word-to_word : (z : ℤ) → fits (suc w) z ≡ true → from_word (suc w) (to_word (suc w) z) ≡ z
  from_word-to_word (pos n) h = ground (arith, half_fits w)
  from_word-to_word (negsuc n) h = ground (arith, half_fits w, pow-pos w)

pack-eq_ok :
    (w : ℕ) (z : ℤ) (bs : List ℕ)
    → pack w z ≡ ok bs
    → (fits w z ≡ true) × (bs ≡ be_bytes w (to_word w z))
unfolding pack
pack-eq_ok w z bs h = ground arith

pub length-pack : (w : ℕ) (z : ℤ) (bs : List ℕ) → pack w z ≡ ok bs → length bs ≡ w
length-pack w z bs h = rw (pack-eq_ok w z bs h).1 (length-be_bytes w (to_word w z))

-- Reading `w` bytes where they stand.
pub take_from-At :
    (w : ℕ) (buffer : List ℕ) (offset : ℕ) (bs rest : List ℕ)
    → length bs ≡ w
    → At buffer offset (bs ++ rest)
    → take_from w buffer offset ≡ ok bs
unfolding take_from
take_from-At w buffer offset bs rest e h =
    rw (
      h,
      length-append,
      ← e,
      le→leb (length bs) (length bs + length rest) (omega arith),
      take-append,
    )

-- A value that fits is read back, at any offset of any buffer that holds its bytes there.
pub unpack_from-pack :
    (w : ℕ) (z : ℤ) (bs rest buffer : List ℕ) (offset : ℕ)
    → pack (suc w) z ≡ ok bs
    → At buffer offset (bs ++ rest)
    → unpack_from (suc w) buffer offset ≡ ok z
unfolding unpack_from
unpack_from-pack w z bs rest buffer offset p h =
    let (in_range, e) = pack-eq_ok (suc w) z bs p in
    rw (
      take_from-At (suc w) buffer offset bs rest (length-pack (suc w) z bs p) h,
      e,
      from_be-be_bytes (suc w) 0 (to_word (suc w) z) (to_word-lt w z in_range),
      zero-mul,
      zero-add,
      from_word-to_word w z in_range,
    )
