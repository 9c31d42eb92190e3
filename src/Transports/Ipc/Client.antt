-- ===== src/Transports/Ipc/Client.antt =====
-- The client's side of an IPC connection, in src/transports/ipc.rs: the queue to the task, and the
-- futures that wait for the answers. A channel is a number, as in the task.
pub mod Queue
use rust_web.Prelude.{
  ℕ, suc, ◌+◌, String, List, [], ◌∷◌, ◌++◌, map, Option, none, some, ◌==◌, if◌then◌else◌,
}
use rust_web.Rpc.{Value, Call, Output}
use rust_web.Error.{Error, Result, ok, err, ◌>>=◌, TransportError, text, quote}
use rust_web.Helpers.{next_request_id, build_request, to_result_from_output}
use rust_web.Transports.Ipc.Run.{TransportRequest}

-- enum TransportMessage
pub data TransportMessage : Type 0 where
  subscribe : String → ℕ → TransportMessage
  unsubscribe : String → TransportMessage
  single : TransportRequest → TransportMessage
  batch : List TransportRequest → TransportMessage

-- struct Ipc, with what is in the queue to the task, and the number of the next channel.
pub record Ipc : Type 0 where
  pub id : ℕ
  pub messages : List TransportMessage
  pub channel_capacity : ℕ
  pub channels : ℕ

-- Why the queue refuses a message: mpsc::error::TrySendError
pub data Refusal : Type 0 where
  full : Refusal
  closed : Refusal

-- Ipc::new_with_limits, with what connecting came to.
unfoldable pub new_with_limits : Option Error → ℕ → Result Ipc
new_with_limits connected channel_capacity =
    if channel_capacity == 0
    then err (
        Error.transport
          (TransportError.message (text "IPC channel capacity must be greater than zero")))
    else elim connected [
      | some e ↦ err e
      | none ↦
          ok (record { id = 1; messages = []; channel_capacity = channel_capacity; channels = 0 })
    ]

-- Transport::prepare
unfoldable pub prepare : String → List Value → Ipc → Ipc × (ℕ × Call)
prepare method params ipc =
    let (counter, id) = next_request_id ipc.id in
    (record ipc { id = counter }, (id, build_request id method params))

abbrev refusal : String → Refusal → Error
refusal finished full = Error.transport (TransportError.message (text "IPC request queue is full"))
refusal finished closed = Error.transport (TransportError.message (text finished))

-- `messages_tx.try_send(message)`, where the channels before the given one have been made
abbrev try_send : String → Option Refusal → TransportMessage → ℕ → Ipc → Ipc × Result (Unit {0})
try_send finished none message channels ipc =
    (record ipc { messages = ipc.messages ++ message ∷ []; channels = channels }, ok tt)
try_send finished (some r) message channels ipc =
    (record ipc { channels = channels }, err (refusal finished r))

abbrev with : {A : Type 0} → A → Ipc × Result (Unit {0}) → Ipc × Result A
with a (ipc, ok done) = (ipc, ok a)
with a (ipc, err e) = (ipc, err e)

-- Transport::send
unfoldable pub send : Option Refusal → ℕ → Call → Ipc → Ipc × Result ℕ
send refused id call ipc = with ipc.channels (
    try_send "Cannot send request because the IPC task finished" refused
      (single (record { id = id; call = call; tx = ipc.channels })) (suc ipc.channels) ipc)

-- The requests of a batch, each with a channel of its own, from the given one on.
unfoldable pub with_channels : List (ℕ × Call) → ℕ → List TransportRequest
with_channels [] tx = []
with_channels ((id, call) ∷ rest) tx =
    record { id = id; call = call; tx = tx } ∷ with_channels rest (suc tx)

abbrev tx_of : TransportRequest → ℕ
tx_of r = r.tx

abbrev next_channel : List (ℕ × Call) → ℕ → ℕ
next_channel [] tx = tx
next_channel (r ∷ rest) tx = next_channel rest (suc tx)

-- BatchTransport::send_batch
unfoldable pub send_batch : Option Refusal → List (ℕ × Call) → Ipc → Ipc × Result (List ℕ)
unfolding with_channels
send_batch refused requests ipc = with (map tx_of (with_channels requests ipc.channels)) (
    try_send "Cannot send batch because the IPC task finished" refused
      (batch (with_channels requests ipc.channels)) (next_channel requests ipc.channels) ipc)

-- DuplexTransport::subscribe
unfoldable pub subscribe_to : Option Refusal → String → Ipc → Ipc × Result ℕ
subscribe_to refused id ipc = with ipc.channels (
    try_send "Cannot subscribe because the IPC task finished" refused (subscribe id ipc.channels)
      (suc ipc.channels) ipc)

-- DuplexTransport::unsubscribe
unfoldable pub unsubscribe_from : Option Refusal → String → Ipc → Ipc × Result (Unit {0})
unsubscribe_from refused id ipc =
    try_send "Cannot unsubscribe because the IPC task finished" refused (unsubscribe id)
      ipc.channels ipc

-- What polling a oneshot receiver finds.
pub data Channel : Type 0 where
  waits : Channel
  canceled : Channel
  holds : Result Output → Channel

-- impl From<oneshot::error::RecvError> for Error, and then the result of the output
abbrev pub received : Result Output → Result Value
received r = do output ← r; to_result_from_output output

abbrev recv_error : Error
recv_error = Error.transport (TransportError.message (quote "Recv Error: {:?}" "RecvError(())"))

abbrev polled : Channel → Option (Result Value)
polled waits = none
polled canceled = some (err recv_error)
polled (holds r) = some (received r)

-- SingleResponse::poll, for what is in the channels; `none` is Poll::Pending.
unfoldable pub poll_single : (ℕ → Channel) → Result ℕ → Option (Result Value)
poll_single channel (err e) = some (err e)
poll_single channel (ok tx) = polled (channel tx)

abbrev joined : Option (Result Value) → Option (List (Result Value)) → Option (List (Result Value))
joined (some r) (some rs) = some (r ∷ rs)
joined _ _ = none

-- join_all of the channels of a batch
unfoldable pub join_all : (ℕ → Channel) → List ℕ → Option (List (Result Value))
join_all channel [] = some []
join_all channel (tx ∷ rest) = joined (polled (channel tx)) (join_all channel rest)

abbrev all_done : Option (List (Result Value)) → Option (Result (List (Result Value)))
all_done none = none
all_done (some values) = some (ok values)

-- BatchResponse::poll
unfoldable pub poll_batch : (ℕ → Channel) → Result (List ℕ) → Option (Result (List (Result Value)))
poll_batch channel (err e) = some (err e)
poll_batch channel (ok txs) = all_done (join_all channel txs)

-- What clients do with a connection, one step after another, whatever the queue refuses.
pub data Step : Type 0 where
  prepares : String → List Value → Step
  sends : Option Refusal → ℕ → Call → Step
  sends_batch : Option Refusal → List (ℕ × Call) → Step
  subscribes : Option Refusal → String → Step
  unsubscribes : Option Refusal → String → Step

unfoldable pub step : Step → Ipc → Ipc
step (prepares method params) ipc = (prepare method params ipc).0
step (sends refused id call) ipc = (send refused id call ipc).0
step (sends_batch refused requests) ipc = (send_batch refused requests ipc).0
step (subscribes refused id) ipc = (subscribe_to refused id ipc).0
step (unsubscribes refused id) ipc = (unsubscribe_from refused id ipc).0

unfoldable pub steps : List Step → Ipc → Ipc
steps [] ipc = ipc
steps (s ∷ rest) ipc = steps rest (step s ipc)
