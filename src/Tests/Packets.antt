-- ===== src/Tests/Packets.antt =====
-- The serialization.
use kazoo.Base.{ℕ, List, [], ◌∷◌, ◌++◌, ◌≡◌, ◌≢◌, refl, ok, err, false, some, out_of_fuel}
use kazoo.Base.Int.{pos}
use kazoo.Exceptions.{no_node_error}
use kazoo.Python.Text.{codes}
use kazoo.Protocol.Reader.Reads.{Reads}
use kazoo.Protocol.Strings.{write_string}
use kazoo.Protocol.Records.{Connect, read_connect}
use kazoo.Protocol.Requests.{sync}
use kazoo.Protocol.Multi.{deserialize_transaction, yes, failed}
use kazoo.Protocol.Multi.Answers.{deleted, rejected, write_answers, Reads-deserialize_transaction}
use kazoo.Protocol.Multi.Fuel.{deserialize_transaction-ne-out_of_fuel}
use kazoo.Protocol.Replies.{deserialize}
use kazoo.Protocol.Replies
use kazoo.Protocol.Replies.Answers.{write_reply}
use kazoo.Protocol.Replies.Answers.RoundTrip.{deserialize-write_reply}

-- A length of four bytes and the text.
write_string_run : write_string (some (codes "/é")) ≡ ok (0 ∷ 0 ∷ 0 ∷ 3 ∷ 47 ∷ 0xc3 ∷ 0xa9 ∷ [])
unfolding write_string kazoo.Python.Utf8.encode kazoo.Python.Utf8.encode_char
    kazoo.Python.Struct.pack kazoo.Python.Struct.be_bytes
write_string_run = refl

abbrev answer : Connect
answer = record {
  protocol_version = pos 0;
  last_zxid_seen = pos 9;
  time_out = pos 4000;
  session_id = pos 77;
  passwd = some (1 ∷ 2 ∷ []);
  read_only = false;
}

abbrev answer_bytes : List ℕ
answer_bytes =
    0 ∷ 0 ∷ 0 ∷ 0 ∷ 0 ∷ 0 ∷ 15 ∷ 160 ∷ 0 ∷ 0 ∷ 0 ∷ 0 ∷ 0 ∷ 0 ∷ 0 ∷ 77 ∷ 0 ∷ 0 ∷ 0 ∷ 2 ∷ 1 ∷ 2 ∷ 0
    ∷ []

abbrev delete_bytes : List ℕ
delete_bytes =
    0 ∷ 0 ∷ 0 ∷ 2 ∷ 0 ∷ 255 ∷ 255 ∷ 255 ∷ 255 ∷ 0 ∷ 0 ∷ 0 ∷ 2 ∷ 47 ∷ 97 ∷ 0 ∷ 0 ∷ 0 ∷ 3 ∷ 255 ∷ 255
    ∷ 255 ∷ 255 ∷ 1 ∷ 255 ∷ 255 ∷ 255 ∷ 255 ∷ []

abbrev results_bytes : List ℕ
results_bytes =
    0 ∷ 0 ∷ 0 ∷ 2 ∷ 0 ∷ 0 ∷ 0 ∷ 0 ∷ 0 ∷ 255 ∷ 255 ∷ 255 ∷ 255 ∷ 0 ∷ 0 ∷ 0 ∷ 0 ∷ 0 ∷ 255 ∷ 255 ∷ 255
    ∷ 155 ∷ 255 ∷ 255 ∷ 255 ∷ 255 ∷ 1 ∷ 255 ∷ 255 ∷ 255 ∷ 255 ∷ []

Reads-deserialize_transaction_example :
    Reads deserialize_transaction results_bytes (yes ∷ failed no_node_error ∷ [])
unfolding write_answers kazoo.Protocol.Records.write_multi_header kazoo.Python.Struct.pack
    kazoo.Python.Struct.be_bytes
Reads-deserialize_transaction_example =
    Reads-deserialize_transaction (deleted ∷ rejected no_node_error ∷ []) results_bytes
      (refl, (refl, tt)) refl

deserialize_transaction-ne-out_of_fuel_example :
    deserialize_transaction (0 ∷ 0 ∷ 0 ∷ 2 ∷ 0 ∷ []) 0 ≢ err out_of_fuel
deserialize_transaction-ne-out_of_fuel_example =
    deserialize_transaction-ne-out_of_fuel (0 ∷ 0 ∷ 0 ∷ 2 ∷ 0 ∷ []) 0

deserialize-write_reply_example :
    deserialize
      (sync (some (codes "/a")))
      ((5 ∷ []) ++ ((0 ∷ 0 ∷ 0 ∷ 2 ∷ 47 ∷ 97 ∷ []) ++ 6 ∷ []))
      1
    ≡ ok (Replies.text (some (codes "/a")))
unfolding write_reply write_string kazoo.Python.Utf8.encode kazoo.Python.Utf8.encode_char
    kazoo.Python.Struct.pack kazoo.Python.Struct.be_bytes
deserialize-write_reply_example =
    deserialize-write_reply (sync (some (codes "/a"))) (Replies.text (some (codes "/a")))
      (0 ∷ 0 ∷ 0 ∷ 2 ∷ 47 ∷ 97 ∷ []) (5 ∷ []) (6 ∷ []) refl
