-- ===== src/Python/Struct.antt =====
-- `struct` with the formats `!i`, `!q` and `B`: integers in two's complement, high byte first.
pub mod Pack
use kazoo.Base.{
  ℕ, zero, suc, ◌+◌, ◌-◌, ◌*◌, ◌/◌, ◌%◌, ◌^◌, Bool, ◌&&◌, List, [], ◌∷◌, ltb, leb, length, take,
  drop, if◌then◌else◌, Result, ok, err, Exn, struct_error, ◌>>=◌,
}
use kazoo.Base.Int.{ℤ, pos, negsuc}

-- The `w` low bytes of `n`, the highest first.
unfoldable pub be_bytes : ℕ → ℕ → List ℕ
be_bytes zero n = []
be_bytes (suc w) n = (n / 256 ^ w) ∷ be_bytes w (n % 256 ^ w)

unfoldable pub from_be : ℕ → List ℕ → ℕ
from_be acc [] = acc
from_be acc (b ∷ bs) = from_be (acc * 256 + b) bs

-- The integers of `w` bytes.
abbrev pub fits : ℕ → ℤ → Bool
fits w (pos n) = ltb n (256 ^ w / 2)
fits w (negsuc n) = ltb n (256 ^ w / 2)

abbrev pub to_word : ℕ → ℤ → ℕ
to_word w (pos n) = n
to_word w (negsuc n) = 256 ^ w - 1 - n

abbrev pub from_word : ℕ → ℕ → ℤ
from_word w n = if ltb n (256 ^ w / 2) then pos n else negsuc (256 ^ w - 1 - n)

-- `Struct("!i").pack` at 4 bytes, `Struct("!q").pack` at 8.
unfoldable pub pack : ℕ → ℤ → Result (List ℕ)
pack w z = if fits w z then ok (be_bytes w (to_word w z)) else err struct_error

-- `unpack_from`: the bytes at the offset, or `struct.error` where the buffer is too short.
unfoldable pub take_from : ℕ → List ℕ → ℕ → Result (List ℕ)
take_from w buffer offset =
    let view = drop offset buffer in
    if leb w (length view) then ok (take w view) else err struct_error

unfoldable pub unpack_from : ℕ → List ℕ → ℕ → Result ℤ
unfolding take_from
unpack_from w buffer offset = take_from w buffer offset >>= λ bs. ok (from_word w (from_be 0 bs))
