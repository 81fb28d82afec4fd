-- ===== src/Protocol/Reader.antt =====
-- The readers of kazoo/protocol/serialization.py take the buffer and an offset, and return a value
-- and the offset after it; `do` passes the offset on.
pub mod Reads
use kazoo.Base.{ℕ, zero, suc, ◌+◌, List, [], ◌∷◌, drop, take, Result, ok, err, Exn}
use kazoo.Base
use kazoo.Base.Int.{ℤ, pos, negsuc}
use kazoo.Python.Struct.{take_from, unpack_from, from_be}

abbrev pub Reader {ℓ} : Type ℓ → Type ℓ
Reader A = List ℕ → ℕ → Result (A × ℕ)

module _ {ℓ} {A : Type ℓ} where
  unfoldable pub pure : A → Reader A
  pure a buffer offset = ok (a, offset)

  unfoldable pub fail : Exn → Reader A
  fail e buffer offset = err e

module _ {ℓ κ} {A : Type ℓ} {B : Type κ} where
  infixl 5 ◌>>=◌
  -- Opening this opens `pure` and `fail` too.
  unfoldable pub ◌>>=◌ : Reader A → (A → Reader B) → Reader B
  unfolding pure fail
  ◌>>=◌ r f buffer offset = Base.◌>>=◌ (r buffer offset) (λ p. f p.0 buffer p.1)

-- A signed integer of `w` bytes, and the offset after it.
unfoldable pub int_of : ℕ → Reader ℤ
unfolding unpack_from
int_of w buffer offset = Base.◌>>=◌ (unpack_from w buffer offset) (λ z. ok (z, offset + w))

-- `Struct("B")`
unfoldable pub byte : Reader ℕ
unfolding take_from from_be
byte buffer offset = Base.◌>>=◌ (take_from 1 buffer offset) (λ bs. ok (from_be 0 bs, offset + 1))

-- `buffer[offset : offset + n]` is shorter where the buffer ends; the offset moves by `n`.
unfoldable pub slice : ℕ → Reader (List ℕ)
slice n buffer offset = ok (take n (drop offset buffer), offset + n)

-- `for c in range(n)`
unfoldable pub repeat {ℓ} : {A : Type ℓ} → ℕ → Reader A → Reader (List A)
repeat zero r = pure []
repeat (suc n) r = do x ← r; xs ← repeat n r; pure (x ∷ xs)

-- `range` of a negative number is empty.
abbrev pub range_of : ℤ → ℕ
range_of (pos n) = n
range_of (negsuc n) = 0
