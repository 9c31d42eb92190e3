-- ===== src/Transports/Http.antt =====
-- src/transports/http.rs: reading a response body under a size limit, and matching responses to
-- requests. Sending a request and parsing JSON are the work of reqwest and serde_json: what the
-- server answers is an argument, and so is the parser.
pub mod Body
pub mod Order
mod Tests
use rust_web.Prelude.{
  ℕ, ◌≤◌, String, List, [], ◌∷◌, map, Option, none, some, length, leb, ◌==◌, if◌then◌else◌, Bool,
  true, false, not,
}
use rust_web.Prelude.Map
use rust_web.Prelude.Map.{Map}
use rust_web.Rpc.{Value, MessageId, Output, output_id, success, failure, is_object}
use rust_web.Error.{Error, Result, ok, err, ◌>>=◌, ok_or, text, format, quote}
use rust_web.Transports.Take.{take_all}
use rust_web.Helpers.{max_request_id, to_result_from_output}

-- id_of_output
unfoldable pub id_of_output : Output → Result ℕ
id_of_output output = elim (output_id output) [
  | MessageId.num n ↦
      if leb n max_request_id
      then ok n
      else err (Error.invalid_response (format "response id {num} does not fit RequestId" (n ∷ [])))
  | MessageId.null ↦ err (Error.invalid_response (text "response id is not u64"))
  | MessageId.str s ↦ err (Error.invalid_response (text "response id is not u64"))
]

-- handle_single_response
pub handle_single_response : ℕ → Output → Result Value
handle_single_response expected_id output = do
  response_id ← id_of_output output
  if not (response_id == expected_id)
      then err (
          Error.invalid_response (
            format "response id {response_id} does not match request id {expected_id}"
              (response_id ∷ expected_id ∷ [])))
      else to_result_from_output output

-- The responses of a batch by their ids. A later response with the same id replaces the earlier.
collect : List Output → Map (Result Value) → Result (Map (Result Value))
collect [] m = ok m
collect (output ∷ outputs) m = do
  id ← id_of_output output
  collect outputs (Map.insert id (to_result_from_output output) m)

-- The error for an id with no response left.
abbrev missing : ℕ → Error
missing id = Error.invalid_response (format "batch response is missing id {}" (id ∷ []))

-- handle_batch_response
pub handle_batch_response : List ℕ → List Output → Result (List (Result Value))
handle_batch_response ids outputs =
    if not (length ids == length outputs)
    then err (Error.invalid_response (text "unexpected number of responses"))
    else do m ← collect outputs []; take_all missing ids m

-- The error that one object in place of a list of responses is turned into.
error_of_output : Output → Result (List Output)
error_of_output (failure f) = err (Error.rpc f.error)
error_of_output (success s) =
    err (Error.invalid_response (text "Invalid response for batched request: {:?}"))

-- handle_possible_error_object_for_batched_request; `read_output` and `read_outputs` are
-- serde_json's readers of one output and of a list of outputs.
pub handle_possible_error_object_for_batched_request :
    (read_output : Value → Result Output) (read_outputs : Value → Result (List Output))
    → Value
    → Result (List Output)
handle_possible_error_object_for_batched_request read_output read_outputs value =
    if is_object value then (read_output value >>= error_of_output) else read_outputs value
