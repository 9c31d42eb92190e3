-- ===== src/Transports/Ws.antt =====
-- src/transports/ws.rs: the background task of a WebSocket connection, and the client's side of it.
-- The socket and the parsers are not modelled: what they deliver are the events of the task. A
-- oneshot or an mpsc channel is a number; what is sent on it is kept in order.
pub mod Message
pub mod Client
mod Notices
mod Response
mod Accounting
mod Quiet
mod Answered
mod Run
mod Complete
mod Tests
use rust_web.Prelude.{
  ℕ, ◌+◌, String, List, [], ◌∷◌, ◌++◌, map, Option, none, some, length, contains, any, Bool, true,
  false, not, ◌||◌, ◌==◌, ltb, leb, str_eq, if◌then◌else◌,
}
use rust_web.Prelude.Map
use rust_web.Prelude.Map.{Map, is_some}
use rust_web.Prelude.Table
use rust_web.Prelude.Table.{Table}
use rust_web.Rpc.{Value, MessageId, Output, output_id, Notification, Params, Call, Request}
use rust_web.Rpc
use rust_web.Error.{
  Error, Result, ok, err, ◌>>=◌, ok_or, TransportError, text, format, quote, clone,
}
use rust_web.Helpers.{max_request_id, next_request_id, build_request, to_results_from_outputs}
use rust_web.Transports.Take.{take_all}

abbrev pub BatchResult : Type 0
BatchResult = Result (List (Result Value))

-- struct Pending
pub record Pending : Type 0 where
  pub ids : List ℕ
  pub sender : ℕ

-- struct WsServerTask, with what was written to the socket and sent on the channels. `running`
-- turns false where `into_task` leaves its loop.
pub record Task : Type 0 where
  pub pending : Map Pending
  pub subscriptions : Table ℕ
  pub written : List String
  pub answers : List (ℕ × BatchResult)
  pub delivered : List (ℕ × Value)
  pub running : Bool

-- WsServerTask::new, once the connection is there.
abbrev pub init : Task
init = record {
  pending = [];
  subscriptions = [];
  written = [];
  answers = [];
  delivered = [];
  running = true;
}

abbrev pub answer : ℕ → BatchResult → Task → Task
answer tx r s = record s { answers = s.answers ++ (tx, r) ∷ [] }

-- fail_pending
unfoldable pub failures : Error → Map Pending → List (ℕ × BatchResult)
failures error [] = []
failures error ((id, request) ∷ pending) =
    (request.sender, err (clone error)) ∷ failures error pending

unfoldable pub fail_pending : Error → Task → Task
fail_pending error s = record s { pending = []; answers = s.answers ++ failures error s.pending }

-- `fail_pending(..); break`
unfoldable pub stop : Error → Task → Task
unfolding fail_pending
stop error s = record (fail_pending error s) { running = false }

-- `ids.iter().copied().collect::<BTreeSet<_>>().len() != ids.len()`
abbrev pub has_duplicates : List ℕ → Bool
has_duplicates [] = false
has_duplicates (id ∷ ids) = contains id ids || has_duplicates ids

-- `pending.values().any(|request| request.ids.iter().any(|pending_id| ids.contains(pending_id)))`
abbrev pub collides : List ℕ → Map Pending → Bool
collides ids [] = false
collides ids ((key, request) ∷ pending) =
    any (λ id. contains id ids) request.ids || collides ids pending

-- `pending.insert(..)`, and then sending and flushing the text, which came to `sent`.
unfoldable pub register : ℕ → List ℕ → String → ℕ → Option Error → Task → Task
register id ids request tx none s = record s {
  pending = Map.insert id (record { ids = id ∷ ids; sender = tx }) s.pending;
  written = s.written ++ request ∷ [];
}
register id ids request tx (some e) s =
    stop e (record s { pending = Map.insert id (record { ids = id ∷ ids; sender = tx }) s.pending })

-- The arm of `into_task` for TransportMessage::Request.
unfoldable pub on_request : List ℕ → String → ℕ → Option Error → Task → Task
on_request [] request tx sent s =
    answer tx (err (Error.invalid_response (text "empty WebSocket batch request"))) s
on_request (id ∷ ids) request tx sent s =
    if has_duplicates (id ∷ ids)
    then answer tx
        (err (
          Error.invalid_response
            (format "duplicate request id in WebSocket batch beginning with {id}" (id ∷ []))))
        s
    else if collides (id ∷ ids) s.pending
    then answer tx
        (err (
          Error.transport (
            TransportError.message
              (format "request id collision in batch beginning with {id}" (id ∷ [])))))
        s
    else register id ids request tx sent s

-- The number that identifies an output.
unfoldable pub request_id : Output → Result ℕ
request_id output = elim (output_id output) [
  | MessageId.num n ↦
      if leb n max_request_id
      then ok n
      else err (Error.invalid_response (format "response id {num} does not fit RequestId" (n ∷ [])))
  | MessageId.null ↦ err (Error.invalid_response (text "unsupported response id: {id:?}"))
  | MessageId.str s ↦ err (Error.invalid_response (quote "unsupported response id: {id:?}" s))
]

-- `for output in outputs`
unfoldable pub index : List Output → Map Output → Result (Map Output)
index [] m = ok m
index (output ∷ outputs) m = do
  id ← request_id output
  if is_some (Map.get id m)
      then err (Error.invalid_response (format "duplicate response id: {id}" (id ∷ [])))
      else index outputs (Map.insert id output m)

-- `outputs_by_id.keys().next()`
abbrev pub first_key : Map Output → Option ℕ
first_key [] = none
first_key ((id, output) ∷ m) = some id

-- `pending.iter().find_map(|(key, request)| request.ids.contains(&first_id).then_some(*key))`
unfoldable pub find_pending : ℕ → Map Pending → Option ℕ
find_pending id [] = none
find_pending id ((key, request) ∷ pending) =
    if contains id request.ids then some key else find_pending id pending

-- `expected_ids.len() != outputs_by_id.len() || expected_ids.iter().any(..)`
abbrev pub mismatch : List ℕ → Map Output → Bool
mismatch expected_ids m =
    not (length expected_ids == length m) || any (λ id. not (is_some (Map.get id m))) expected_ids

-- What a response settles: the key of the pending request, the request, and its outputs in order.
pub record Settled : Type 0 where
  pub key : ℕ
  pub request : Pending
  pub outputs : List Output

-- The outputs of a pending request, in the order of its ids.
unfoldable pub match_ids : Map Output → ℕ → Pending → Result Settled
match_ids outputs_by_id key request =
    if mismatch request.ids outputs_by_id
    then err (
        Error.invalid_response (
          format "batch response IDs do not match request IDs: expected {expected_ids:?}"
            request.ids))
    else do
      ordered_outputs ← take_all (λ id. Error.internal) request.ids outputs_by_id
      ok (record { key = key; request = request; outputs = ordered_outputs })

-- The pending request that the first of the ids belongs to.
unfoldable pub pending_of : Map Output → Map Pending → Result ℕ
pending_of outputs_by_id pending = do
  first_id ←
      ok_or (first_key outputs_by_id)
        (Error.invalid_response (text "response contained no outputs"))
  ok_or (find_pending first_id pending) (
      Error.invalid_response (format "response for unknown request id: {first_id}" (first_id ∷ [])))

-- The second half of handle_message, up to the answer.
unfoldable pub settle : List Output → Map Pending → Result Settled
settle outputs pending = do
  outputs_by_id ← index outputs []
  key ← pending_of outputs_by_id pending
  request ← ok_or (Map.get key pending) Error.internal
  match_ids outputs_by_id key request

-- `match helpers::to_response_from_slice(data)?`
abbrev pub outputs_of : Rpc.Response → Result (List Output)
outputs_of (Rpc.Response.single output) = ok (output ∷ [])
outputs_of (Rpc.Response.batch []) = err (Error.invalid_response (text "empty batch response"))
outputs_of (Rpc.Response.batch (output ∷ outputs)) = ok (output ∷ outputs)
