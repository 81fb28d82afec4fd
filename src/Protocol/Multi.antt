-- ===== src/Protocol/Multi.antt =====
-- `Transaction.deserialize` of kazoo/protocol/serialization.py: the results of a transaction.
pub mod Answers
pub mod Fuel
use kazoo.Base.{
  ℕ, zero, suc, ◌+◌, List, [], ◌∷◌, ◌++◌, Option, none, some, Bool, true, false, length,
  out_of_fuel, runtime_error, Result, ok, err, Exn, if◌then◌else◌,
}
use kazoo.Base.Int.{ℤ, pos, negsuc, int_eq}
use kazoo.Exceptions.{ZookeeperError}
use kazoo.Exceptions.Codes.{exceptions}
use kazoo.Protocol.Reader.{Reader, pure, fail, ◌>>=◌, int_of}
use kazoo.Protocol.Strings.{Text, read_string}
use kazoo.Protocol.Records.{ZnodeStat, MultiHeader, read_stat, read_multi_header}

-- `Transaction_Response`: None, a string, True, a stat or an exception.
pub data TxResponse : Type 0 where
  nothing yes : TxResponse
  text : Text → TxResponse
  stat : ZnodeStat → TxResponse
  failed : ZookeeperError → TxResponse

-- `if response:`
abbrev pub is_truthy : TxResponse → Bool
is_truthy nothing = false
is_truthy yes = true
is_truthy (text none) = false
is_truthy (text (some [])) = false
is_truthy (text (some (c ∷ cs))) = true
is_truthy (stat s) = true
is_truthy (failed e) = true

-- `EXCEPTIONS[err]()`
abbrev pub raise_or_fail : Result ZookeeperError → Reader TxResponse
raise_or_fail (ok e) = pure (failed e)
raise_or_fail (err x) = fail x

-- One round up to `if response`: a header of no known type leaves the last response as it was.
unfoldable pub read_body : ℤ → TxResponse → Reader TxResponse
read_body type response =
    if int_eq type (pos 1)
    then (do path ← read_string; pure (text path))
    else if int_eq type (pos 2)
    then pure yes
    else if int_eq type (pos 5)
    then (do s ← read_stat; pure (stat s))
    else if int_eq type (pos 13)
    then pure yes
    else if int_eq type (negsuc 0)
    then (do code ← int_of 4; raise_or_fail (exceptions code))
    else pure response

abbrev pub read_typed : Option ℤ → TxResponse → Reader TxResponse
read_typed none response = pure response
read_typed (some type) response = read_body type response

abbrev pub extended : List TxResponse → TxResponse → List TxResponse
extended results response = if is_truthy response then results ++ response ∷ [] else results

-- `while not header.done`
unfoldable pub read_results :
    ℕ → MultiHeader → TxResponse → List TxResponse → Reader (List TxResponse)
read_results zero header response results = fail out_of_fuel
read_results (suc fuel) header response results = if header.is_done then pure results else do
  response' ← read_typed header.type response
  header' ← read_multi_header
  read_results fuel header' response' (extended results response')

abbrev pub first_header : MultiHeader
first_header = record { type = none; is_done = false; err = none }

-- Each header but the first takes nine bytes, so the buffer's length bounds the rounds.
unfoldable pub deserialize_transaction : Reader (List TxResponse)
unfolding read_results
deserialize_transaction buffer offset =
    read_results (length buffer + 2) first_header nothing [] buffer offset
