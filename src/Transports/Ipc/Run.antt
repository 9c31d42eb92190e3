-- ===== src/Transports/Ipc/Run.antt =====
-- The loop of run_server in src/transports/ipc.rs.
use rust_web.Prelude.{
  ℕ, ◌+◌, String, List, [], ◌∷◌, ◌++◌, Option, none, some, length, Bool, true, false, not, ◌&&◌,
  ltb, str_eq, if◌then◌else◌,
}
use rust_web.Prelude.Map
use rust_web.Prelude.Map.{is_some}
use rust_web.Prelude.Table
use rust_web.Rpc.{Value, Call, Request, Notification, Params}
use rust_web.Rpc
use rust_web.Error.{Error, Result, ok, err, TransportError, text, format, quote}
use rust_web.Transports.Ipc.{
  Server, Handled, answer, fail_all_pending, send_to, fail_pending_ids, respond, then_do,
}

-- A request: its id, its call and its channel.
pub record TransportRequest : Type 0 where
  pub id : ℕ
  pub call : Call
  pub tx : ℕ

-- A value of the socket's stream, as from_value reads it.
pub data Json : Type 0 where
  notification : Notification → Json
  response : Rpc.Response → Json
  neither : Json

-- How the values of the buffer end: there are no more for now, or the text is no JSON.
pub data End : Type 0 where
  pending : End
  broken : String → End

-- helpers::to_string, and the values in a buffer with the number of bytes that they take up.
pub record Io : Type 0 where
  pub to_string : Request → Result String
  pub values : List ℕ → List Json × (End × List ℕ)

-- What the loop selects: a message or the end of the messages; or bytes, an error or the end of the
-- socket. `written` is what writing came to, and `accepts` tells which channels take a value.
pub data Event : Type 0 where
  no_more : Event
  subscribe : String → ℕ → Event
  unsubscribe : String → Event
  single : TransportRequest → Option Error → Event
  batch : List TransportRequest → Option Error → Event
  bytes : List ℕ → (ℕ → Bool) → Event
  failed : Error → Event
  ended : Event

-- `fail_all_pending(..); return Err(error)`
unfoldable pub stop : Error → Server → Handled
unfolding fail_all_pending
stop error s = (fail_all_pending error s, err error)

abbrev pub collision : ℕ → Error
collision id =
    Error.transport (TransportError.message (format "request id collision: {request_id}" (id ∷ [])))

abbrev pub insert_tx : ℕ → ℕ → Server → Server
insert_tx id tx s = record s { pending_response_txs = Map.insert id tx s.pending_response_txs }

abbrev pub written_to : Option Error → String → Server → Handled
written_to none body s = (record s { written = s.written ++ body ∷ [] }, ok tt)
written_to (some e) body s = stop e s

-- The rest of the arm for a single request.
abbrev pub send_single : ℕ → Option Error → Result String → Server → Handled
send_single id written (err e) s = (send_to id (err e) (Map.get id s.pending_response_txs) s, ok tt)
send_single id written (ok body) s = written_to written body s

-- TransportMessage::Single
unfoldable pub on_single : Io → TransportRequest → Option Error → Server → Handled
unfolding stop
on_single io request written s =
    if is_some (Map.get request.id s.pending_response_txs)
    then (answer request.tx (err (collision request.id)) s, ok tt)
    else send_single request.id written (io.to_string (Request.single request.call))
        (insert_tx request.id request.tx s)

-- `for (request_id, rpc_call, response_tx) in requests`: the state, the ids and the calls.
unfoldable pub enter : List TransportRequest → Server → Server × (List ℕ × List Call)
enter [] s = (s, ([], []))
enter (r ∷ rs) s =
    let refused = enter rs (answer r.tx (err (collision r.id)) s) in
    let entered = enter rs (insert_tx r.id r.tx s) in
    if is_some (Map.get r.id s.pending_response_txs)
    then refused
    else (entered.0, (r.id ∷ entered.1.0, r.call ∷ entered.1.1))

abbrev pub record_batch : List ℕ → Handled → Handled
record_batch (first ∷ ids) (s, ok u) =
    (record s { pending_batches = Map.insert first (first ∷ ids) s.pending_batches }, ok u)
record_batch [] (s, ok u) = (s, ok u)
record_batch ids (s, err e) = (s, err e)

abbrev pub send_calls : List ℕ → Option Error → Result String → Server → Handled
send_calls ids written (err e) s = (fail_pending_ids ids e s, ok tt)
send_calls ids written (ok body) s = record_batch ids (written_to written body s)

abbrev pub send_entered : Io → Option Error → List ℕ → List Call → Server → Handled
send_entered io written ids [] s = (s, ok tt)
send_entered io written ids (call ∷ calls) s =
    send_calls ids written (io.to_string (Request.batch (call ∷ calls))) s

-- TransportMessage::Batch
unfoldable pub on_batch : Io → List TransportRequest → Option Error → Server → Handled
unfolding stop enter
on_batch io requests written s =
    let entered = enter requests s in send_entered io written entered.1.0 entered.1.1 entered.0

-- notify
abbrev pub notify_on : (ℕ → Bool) → String → Value → Option ℕ → Server → Server
notify_on accepts id result none s = s
notify_on accepts id result (some tx) s =
    if accepts tx
    then record s { delivered = s.delivered ++ (tx, result) ∷ [] }
    else record s { subscription_txs = Table.erase id s.subscription_txs }

abbrev pub notify_params : (ℕ → Bool) → Option Value → Option Value → Server → Server
notify_params accepts (some (Value.string id)) (some result) s =
    notify_on accepts id result (Table.lookup id s.subscription_txs) s
notify_params accepts _ _ s = s

abbrev pub notify_map : (ℕ → Bool) → Params → Server → Server
notify_map accepts (Params.map params) s =
    notify_params accepts (Table.lookup "subscription" params) (Table.lookup "result" params) s
notify_map accepts _ s = s

unfoldable pub notify : (ℕ → Bool) → Notification → Server → Server
notify accepts message s =
    if not (str_eq message.method "eth_subscription")
    then s
    else notify_map accepts message.params s

abbrev pub stop_on : Handled → Handled
stop_on (s, ok u) = (s, ok u)
stop_on (s, err e) = stop e s

-- One value of the stream.
unfoldable pub on_json : (ℕ → Bool) → Json → Server → Handled
unfolding notify respond stop
on_json accepts (notification n) s = (notify accepts n s, ok tt)
on_json accepts (response r) s = stop_on (respond r s)
on_json accepts neither s =
    stop (Error.invalid_response (text "IPC JSON is neither a response nor a notification")) s

-- `loop { match de.next() .. }` and `read_buffer.drain(..read_len)`
unfoldable pub on_values : (ℕ → Bool) → List Json → End → List ℕ → Server → Handled
unfolding on_json
on_values accepts [] pending rest s = (record s { read_buffer = rest }, ok tt)
on_values accepts [] (broken e) rest s =
    stop (Error.invalid_response (quote "invalid IPC JSON: {error}" e)) s
on_values accepts (json ∷ jsons) end rest s =
    then_do (on_json accepts json s) (λ t. on_values accepts jsons end rest t)

abbrev pub read_values : (ℕ → Bool) → List Json × (End × List ℕ) → Server → Handled
read_values accepts (jsons, (end, rest)) s = on_values accepts jsons end rest s

-- Bytes from the socket.
unfoldable pub on_bytes : Io → ℕ → List ℕ → (ℕ → Bool) → Server → Handled
unfolding on_values stop
on_bytes io max_response_size new accepts s =
    if ltb max_response_size (length s.read_buffer + length new)
    then stop
        (Error.invalid_response
          (format "IPC response exceeded {max_response_size} bytes" (max_response_size ∷ [])))
        s
    else read_values accepts (io.values (s.read_buffer ++ new))
        (record s { read_buffer = s.read_buffer ++ new })

abbrev pub is_empty : {A : Type 0} → List A → Bool
is_empty [] = true
is_empty (x ∷ xs) = false

-- Where a turn of the loop leads: to another turn, or to the end of run_server with its result.
pub data Next : Type 0 where
  again : Server → Next
  return : Server → Result (Unit {0}) → Next

abbrev pub next_of : Handled → Next
next_of (s, ok u) = again s
next_of (s, err e) = return s (err e)

-- The end of the socket.
unfoldable pub on_ended : Server → Next
unfolding stop
on_ended s =
    if not (is_empty s.read_buffer)
    then next_of (stop (Error.invalid_response (text "IPC stream ended with incomplete JSON")) s)
    else if is_empty s.pending_response_txs
    then return s (ok tt)
    else next_of (
        stop
          (Error.transport (TransportError.message (text "IPC stream ended with pending requests")))
          s)

-- One turn of the loop. The branch for messages is off when there are no more.
unfoldable pub on_event : Io → ℕ → Event → Server → Next
unfolding on_single on_batch on_bytes on_ended stop
on_event io max_response_size no_more s = again (record s { closed = true })
on_event io max_response_size (subscribe id tx) s =
    again (record s { subscription_txs = Table.put id tx s.subscription_txs })
on_event io max_response_size (unsubscribe id) s =
    again (record s { subscription_txs = Table.erase id s.subscription_txs })
on_event io max_response_size (single request written) s = next_of (on_single io request written s)
on_event io max_response_size (batch requests written) s = next_of (on_batch io requests written s)
on_event io max_response_size (bytes new accepts) s =
    next_of (on_bytes io max_response_size new accepts s)
on_event io max_response_size (failed e) s = next_of (stop e s)
on_event io max_response_size ended s = on_ended s

abbrev pub is_message : Event → Bool
is_message (bytes new accepts) = false
is_message (failed e) = false
is_message ended = false
is_message _ = true

abbrev pub turn : Io → ℕ → Event → Server → Next
turn io max_response_size event s =
    if s.closed && is_empty s.pending_response_txs
    then return s (ok tt)
    else if s.closed && is_message event
    then again s
    else on_event io max_response_size event s

abbrev pub and_on : Next → (Server → Next) → Next
and_on (again s) f = f s
and_on (return s r) f = return s r

-- run_server, over the events that are selected; `again` where it still runs after them.
unfoldable pub run_server : Io → ℕ → List Event → Server → Next
unfolding on_event
run_server io max_response_size [] s = again s
run_server io max_response_size (event ∷ events) s =
    and_on (turn io max_response_size event s) (λ t. run_server io max_response_size events t)
