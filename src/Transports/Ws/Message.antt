-- ===== src/Transports/Ws/Message.antt =====
-- `handle_message` and the loop `into_task` of src/transports/ws.rs.
use rust_web.Prelude.{
  ℕ, String, List, [], ◌∷◌, ◌++◌, Option, none, some, Bool, not, str_eq, if◌then◌else◌,
}
use rust_web.Prelude.Map
use rust_web.Prelude.Table
use rust_web.Rpc
use rust_web.Rpc.{Value, Output, Notification, Params}
use rust_web.Error.{Error, Result, ok, err, ◌>>=◌, text}
use rust_web.Helpers.{to_results_from_outputs}
use rust_web.Transports.Ws.{Task, Settled, answer, stop, on_request, settle, outputs_of}

-- What a message comes to: the new state, and whether it was a valid message.
abbrev pub Handled : Type 0
Handled = Task × Result (Unit {0})

-- A notification with its subscription's id and its result, for the channel that the id has.
-- `accepts` says whether `try_send` on a channel succeeds; a subscription whose channel refuses is
-- closed.
abbrev pub deliver_on : (ℕ → Bool) → String → Value → Task → Option ℕ → Handled
deliver_on accepts id result s none = (s, ok tt)
deliver_on accepts id result s (some sink) =
    if accepts sink
    then (record s { delivered = s.delivered ++ (sink, result) ∷ [] }, ok tt)
    else (record s { subscriptions = Table.erase id s.subscriptions }, ok tt)

unfoldable pub deliver : (ℕ → Bool) → String → Value → Task → Handled
deliver accepts id result s = deliver_on accepts id result s (Table.lookup id s.subscriptions)

abbrev pub bad_id : Handled → Handled
bad_id r = (r.0, err (Error.invalid_response (text "unsupported notification id: {id:?}")))

-- `if let (Some(rpc::Value::String(id)), Some(result)) = (id, result)`
unfoldable pub notice : (ℕ → Bool) → Option Value → Option Value → Task → Handled
notice accepts (some (Value.string id)) (some result) s = deliver accepts id result s
notice accepts (some (Value.string id)) none s = bad_id (s, ok tt)
notice accepts _ _ s = bad_id (s, ok tt)

abbrev pub not_object : Task → Handled
not_object s = (s, err (Error.invalid_response (text "notification parameters are not an object")))

-- `if let rpc::Params::Map(params) = notification.params`
abbrev pub on_params : (ℕ → Bool) → Params → Task → Handled
on_params accepts (Params.map params) s =
    notice accepts (Table.lookup "subscription" params) (Table.lookup "result" params) s
on_params accepts (Params.array vs) s = not_object s
on_params accepts Params.absent s = not_object s

-- The first half of handle_message.
unfoldable pub on_notification : (ℕ → Bool) → Notification → Task → Handled
unfolding notice deliver
on_notification accepts notification s =
    if not (str_eq notification.method "eth_subscription")
    then (s, ok tt)
    else on_params accepts notification.params s

-- `pending.remove(&pending_key)` and `request.sender.send(..)`
abbrev pub apply_settled : Settled → Task → Task
apply_settled d s =
    answer d.request.sender (to_results_from_outputs d.outputs)
      (record s { pending = Map.remove d.key s.pending })

abbrev pub settled : Result Settled → Task → Handled
settled (err e) s = (s, err e)
settled (ok d) s = (apply_settled d s, ok tt)

-- The second half of handle_message.
unfoldable pub on_response : Result Rpc.Response → Task → Handled
on_response response s =
    settled (do r ← response; outputs ← outputs_of r; settle outputs s.pending) s

-- The parsers of helpers.rs over serde_json.
pub record Reader : Type 0 where
  pub to_notification : List ℕ → Option Notification
  pub to_response : List ℕ → Result Rpc.Response

-- `if let Ok(notification) = .. { .. } else { .. }`
unfoldable pub dispatch : (ℕ → Bool) → Option Notification → Result Rpc.Response → Task → Handled
dispatch accepts (some notification) response s = on_notification accepts notification s
dispatch accepts none response s = on_response response s

-- handle_message
unfoldable pub handle_message : Reader → (ℕ → Bool) → List ℕ → Task → Handled
handle_message reader accepts bytes s =
    dispatch accepts (reader.to_notification bytes) (reader.to_response bytes) s

-- What the loop waits for: a message from a client, or something from the socket.
pub data Event : Type 0 where
  request : List ℕ → String → ℕ → Option Error → Event
  subscribe : String → ℕ → Event
  unsubscribe : String → Event
  clients_gone : Event
  incoming : List ℕ → (ℕ → Bool) → Event
  failed : Error → Event
  closed : Event

-- `if let Err(error) = handle_message(..)`
abbrev pub after : Handled → Task
after (s, ok _) = s
after (s, err e) = stop e s

-- One round of the loop in into_task.
unfoldable pub on_event : Reader → Event → Task → Task
on_event reader (request ids body tx sent) s = on_request ids body tx sent s
on_event reader (subscribe id sink) s = record s {
  subscriptions = Table.put id sink s.subscriptions;
}
on_event reader (unsubscribe id) s = record s { subscriptions = Table.erase id s.subscriptions }
on_event reader clients_gone s = s
on_event reader (incoming bytes accepts) s = after (handle_message reader accepts bytes s)
on_event reader (failed e) s = stop e s
on_event reader closed s = stop Error.unreachable s

-- into_task, over the events that come in. Nothing is read any more after the loop was left.
unfoldable pub into_task : Reader → List Event → Task → Task
into_task reader [] s = s
into_task reader (event ∷ events) s =
    into_task reader events (if s.running then on_event reader event s else s)
