-- ===== src/Protocol/Strings.antt =====
-- read_string, write_string, read_buffer and write_buffer of kazoo/protocol/serialization.py.
pub mod RoundTrip
use kazoo.Base.{ℕ, List, [], ◌∷◌, Option, none, some, length, Result, ok, ◌<>◌}
use kazoo.Base
use kazoo.Base.Int.{ℤ, pos, negsuc}
use kazoo.Python.Struct.{pack}
use kazoo.Python.Utf8.{encode, decode}
use kazoo.Protocol.Reader.{Reader, pure, ◌>>=◌, int_of, slice}

-- A Python `str` or None; a Python `bytes` or None.
abbrev pub Text : Type 0
Text = Option (List ℕ)

abbrev pub Buffer : Type 0
Buffer = Option (List ℕ)

-- `int_struct.pack(-1)`
abbrev pub minus_one : ℤ
minus_one = negsuc 0

unfoldable pub write_string : Text → Result (List ℕ)
write_string none = pack 4 minus_one
write_string (some []) = pack 4 minus_one
write_string (some (c ∷ cs)) =
    Base.◌>>=◌ (encode (c ∷ cs)) (λ utf8_str. pack 4 (pos (length utf8_str)) <> ok utf8_str)

unfoldable pub write_buffer : Buffer → Result (List ℕ)
write_buffer none = pack 4 minus_one
write_buffer (some bytes) = pack 4 (pos (length bytes)) <> ok bytes

-- `.decode("utf-8")`
unfoldable pub decoded : List ℕ → Reader Text
decoded bytes buffer offset = Base.◌>>=◌ (decode bytes) (λ s. ok (some s, offset))

unfoldable pub read_string_of : ℤ → Reader Text
unfolding decoded
read_string_of (negsuc n) = pure none
read_string_of (pos n) = do bytes ← slice n; decoded bytes

unfoldable pub read_string : Reader Text
unfolding read_string_of
read_string = do length ← int_of 4; read_string_of length

unfoldable pub read_buffer_of : ℤ → Reader Buffer
read_buffer_of (negsuc n) = pure none
read_buffer_of (pos n) = do bytes ← slice n; pure (some bytes)

unfoldable pub read_buffer : Reader Buffer
unfolding read_buffer_of
read_buffer = do length ← int_of 4; read_buffer_of length

-- What a text becomes on the wire: the empty text is sent as None.
abbrev pub sent : Text → Text
sent none = none
sent (some []) = none
sent (some (c ∷ cs)) = some (c ∷ cs)
