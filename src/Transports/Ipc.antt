-- ===== src/Transports/Ipc.antt =====
-- src/transports/ipc.rs: the task that serves a Unix socket. The socket, serde_json's reader of values
-- and the text of a request are parameters; a oneshot or an mpsc channel is a number.
pub mod Run
mod Client
mod Once
mod Own
mod Balance
mod Served
mod Turns
mod Loop
mod Tests
use rust_web.Prelude.{
  ℕ, ◌+◌, String, List, [], ◌∷◌, ◌++◌, map, Option, none, some, length, contains, any, Bool, true,
  false, not, ◌||◌, ◌==◌, ltb, leb, str_eq, if◌then◌else◌,
}
use rust_web.Prelude.Map
use rust_web.Prelude.Map.{Map, is_some, values}
use rust_web.Prelude.Table
use rust_web.Prelude.Table.{Table}
use rust_web.Rpc.{Value, MessageId, Output, output_id, Notification, Params}
use rust_web.Rpc
use rust_web.Error.{
  Error, Result, ok, err, ◌>>=◌, ok_or, TransportError, text, format, quote, clone,
}
use rust_web.Helpers.{max_request_id}

-- The variables of run_server, with what was written to the socket and sent on the channels.
pub record Server : Type 0 where
  pub pending_response_txs : Map ℕ
  pub pending_batches : Map (List ℕ)
  pub subscription_txs : Table ℕ
  pub read_buffer : List ℕ
  pub written : List String
  pub answers : List (ℕ × Result Output)
  pub delivered : List (ℕ × Value)
  pub closed : Bool

abbrev pub Handled : Type 0
Handled = Server × Result (Unit {0})

abbrev pub answer : ℕ → Result Output → Server → Server
answer tx r s = record s { answers = s.answers ++ (tx, r) ∷ [] }

abbrev pub failures : Error → Map ℕ → List (ℕ × Result Output)
failures error [] = []
failures error ((id, tx) ∷ pending) = (tx, err (clone error)) ∷ failures error pending

-- fail_all_pending
unfoldable pub fail_all_pending : Error → Server → Server
fail_all_pending error s = record s {
  pending_response_txs = [];
  answers = s.answers ++ failures error s.pending_response_txs;
}

-- `pending.remove(id)` and `response_tx.send(..)`, for the channel that the id has.
abbrev pub send_to : ℕ → Result Output → Option ℕ → Server → Server
send_to id r none s = s
send_to id r (some tx) s =
    answer tx r (record s { pending_response_txs = Map.remove id s.pending_response_txs })

-- fail_pending_ids
unfoldable pub fail_pending_ids : List ℕ → Error → Server → Server
fail_pending_ids [] error s = s
fail_pending_ids (id ∷ ids) error s =
    fail_pending_ids ids error
      (send_to id (err (clone error)) (Map.get id s.pending_response_txs) s)

-- output_request_id
unfoldable pub output_request_id : Output → Result ℕ
output_request_id output = elim (output_id output) [
  | MessageId.num n ↦
      if leb n max_request_id
      then ok n
      else err
          (Error.invalid_response (format "IPC response id {num} does not fit RequestId" (n ∷ [])))
  | MessageId.null ↦ err (Error.invalid_response (text "unsupported IPC response id: {id:?}"))
  | MessageId.str s ↦ err (Error.invalid_response (quote "unsupported IPC response id: {id:?}" s))
]

abbrev pub respond_on : Output → ℕ → Option ℕ → Server → Handled
respond_on output id none s =
    (s, err (Error.invalid_response (format "IPC response for unknown request id {id}" (id ∷ []))))
respond_on output id (some tx) s = (send_to id (ok output) (some tx) s, ok tt)

-- respond_output, for the id of the output and the channel that it has.
abbrev pub respond_to : Output → Result ℕ → Server → Handled
respond_to output (err e) s = (s, err e)
respond_to output (ok id) s = respond_on output id (Map.get id s.pending_response_txs) s

-- respond_output
unfoldable pub respond_output : Output → Server → Handled
respond_output output s = respond_to output (output_request_id output) s

-- `response_error`, which keeps the first error.
abbrev pub keep : Option Error → Error → Option Error
keep none e = some e
keep (some first) e = some first

-- `for output in outputs`
unfoldable pub index : List Output → Map Output → Option Error → Result (Map Output × Option Error)
index [] m error = ok (m, error)
index (output ∷ outputs) m error =
    let by_id = λ (id : ℕ). index outputs (Map.insert id output m) error in
    let skipped = λ (e : Error). index outputs m (keep error e) in
    go by_id skipped (output_request_id output)
  where
    go :
        (ℕ → Result (Map Output × Option Error))
        → (Error → Result (Map Output × Option Error))
        → Result ℕ
        → Result (Map Output × Option Error)
    go by_id skipped (err e) = skipped e
    go by_id skipped (ok id) =
        if is_some (Map.get id m)
        then err (Error.invalid_response (format "duplicate IPC batch response id {id}" (id ∷ [])))
        else by_id id

-- `matching_batches`
unfoldable pub matching : Map Output → Map (List ℕ) → List ℕ
matching m [] = []
matching m ((key, ids) ∷ batches) =
    let rest = matching m batches in
    if any (λ id. is_some (Map.get id m)) ids then key ∷ rest else rest

-- `expected_ids.len() != outputs_by_id.len() || expected_ids.iter().any(..)`
abbrev pub mismatch : List ℕ → Map Output → Bool
mismatch expected_ids m =
    not (length expected_ids == length m) || any (λ id. not (is_some (Map.get id m))) expected_ids

-- Going on after a step that ended well: `?`
abbrev pub then_do : Handled → (Server → Handled) → Handled
then_do (s, ok u) f = f s
then_do (s, err e) f = (s, err e)

abbrev pub respond_found : (Server → Handled) → Option Output → Server → Handled
respond_found rest none s = (s, err Error.internal)
respond_found rest (some output) s = then_do (respond_output output s) rest

-- `for id in expected_ids`
unfoldable pub respond_ids : List ℕ → Map Output → Server → Handled
unfolding respond_output
respond_ids [] m s = (s, ok tt)
respond_ids (id ∷ ids) m s =
    respond_found (λ t. respond_ids ids (Map.remove id m) t) (Map.get id m) s

abbrev pub ended_with : Server → Option Error → Handled
ended_with s none = (s, ok tt)
ended_with s (some e) = (s, err e)

abbrev pub kept : Option Error → Handled → Option Error
kept error (s, ok u) = error
kept error (s, err e) = keep error e

-- `for output in outputs_by_id.into_values()`
unfoldable pub respond_each : List Output → Option Error → Server → Handled
respond_each [] error s = ended_with s error
respond_each (output ∷ outputs) error s =
    respond_each outputs (kept error (respond_output output s)) (respond_output output s).0

-- A response to the batch with this key and these ids.
abbrev pub respond_batch_with : Map Output → ℕ → Option (List ℕ) → Server → Handled
respond_batch_with m key none s = (s, err Error.internal)
respond_batch_with m key (some expected_ids) s =
    if mismatch expected_ids m
    then (
      s,
      err (
          Error.invalid_response (
            format "IPC batch response IDs do not match request IDs: expected {expected_ids:?}"
              expected_ids)),
    )
    else respond_ids expected_ids m
        (record s { pending_batches = Map.remove key s.pending_batches })

-- What a batch is responded to with, from the batches that it matches.
unfoldable pub respond_matching : Map Output → Option Error → List ℕ → Server → Handled
unfolding respond_ids respond_each
respond_matching m error [] s = respond_each (values m) error s
respond_matching m none (key ∷ []) s = respond_batch_with m key (Map.get key s.pending_batches) s
respond_matching m (some e) (key ∷ []) s = (s, err e)
respond_matching m error (key ∷ other ∷ keys) s = (
  s,
  err (Error.invalid_response (text "IPC response combined outputs from multiple pending batches")),
)

abbrev pub respond_indexed : Result (Map Output × Option Error) → Server → Handled
respond_indexed (err e) s = (s, err e)
respond_indexed (ok (m, error)) s = respond_matching m error (matching m s.pending_batches) s

abbrev pub respond_single : Output → Result ℕ → Server → Handled
respond_single output (err e) s = (s, err e)
respond_single output (ok id) s =
    if any (λ ids. contains id ids) (values s.pending_batches)
    then (
      s,
      err (
          Error.invalid_response
            (format "received a single response for batched request id {id}" (id ∷ []))),
    )
    else respond_output output s

-- respond
unfoldable pub respond : Rpc.Response → Server → Handled
unfolding respond_output respond_matching
respond (Rpc.Response.single output) s = respond_single output (output_request_id output) s
respond (Rpc.Response.batch []) s =
    (s, err (Error.invalid_response (text "empty IPC batch response")))
respond (Rpc.Response.batch (output ∷ outputs)) s =
    respond_indexed (index (output ∷ outputs) [] none) s
