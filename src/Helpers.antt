-- ===== src/Helpers.antt =====
-- src/helpers.rs: request ids, requests, and the results that outputs stand for.
-- `usize` and `u64` have 64 bits on the supported targets.
mod Ids
mod Tests
unfoldable pub use Ids.{next_request_id, allocate}
pub use Ids.*
use rust_web.Prelude.{ℕ, ◌<◌, ◌+◌, ◌^◌, String, List, [], ◌∷◌, map, ltb, if◌then◌else◌}
use rust_web.Rpc.{Value, MessageId, Output, success, failure, Call}
use rust_web.Error.{Error, Result, ok, err}

-- build_request
unfoldable pub build_request : ℕ → String → List Value → Call
build_request id method params = record { method = method; params = params; id = MessageId.num id }

-- to_result_from_output
unfoldable pub to_result_from_output : Output → Result Value
to_result_from_output (success s) = ok s.result
to_result_from_output (failure f) = err (Error.rpc f.error)

-- to_results_from_outputs
unfoldable pub to_results_from_outputs : List Output → Result (List (Result Value))
to_results_from_outputs outputs = ok (map to_result_from_output outputs)
