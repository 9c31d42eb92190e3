-- ===== src/Transports/Ws/Client.antt =====
-- The client's side of a WebSocket connection, in src/transports/ws.rs: the queue to the task, and
-- the future that waits for the answer of a request.
use rust_web.Prelude.{
  ℕ, suc, ◌≡◌, refl, String, List, [], ◌∷◌, ◌++◌, map, Option, none, some, ◌==◌, if◌then◌else◌,
}
use rust_web.Rpc.{Value, Call, Request}
use rust_web.Error.{Error, Result, ok, err, TransportError, text}
use rust_web.Helpers.{next_request_id, build_request}
use rust_web.Transports.Ws.{BatchResult}

-- enum TransportMessage; a oneshot or mpsc channel is a number.
pub data TransportMessage : Type 0 where
  request : List ℕ → String → ℕ → TransportMessage
  subscribe : String → ℕ → TransportMessage
  unsubscribe : String → TransportMessage

-- struct WebSocket, with what is in the queue to the task, and the number of the next channel.
pub record WebSocket : Type 0 where
  pub id : ℕ
  pub requests : List TransportMessage
  pub channel_capacity : ℕ
  pub channels : ℕ

-- Why the queue refuses a message: TrySendError::is_full, or the task is gone.
pub data Refusal : Type 0 where
  full : Refusal
  finished : Refusal

-- WebSocket::new_with_limits, with what connecting came to.
unfoldable pub new_with_limits : Option Error → ℕ → Result WebSocket
new_with_limits connected channel_capacity =
    if channel_capacity == 0
    then err (
        Error.transport
          (TransportError.message (text "WebSocket channel capacity must be greater than zero")))
    else elim connected [
      | some e ↦ err e
      | none ↦
          ok (record { id = 1; requests = []; channel_capacity = channel_capacity; channels = 0 })
    ]

abbrev refusal : Refusal → String
refusal full = "WebSocket request queue is full"
refusal finished = "Cannot send request because the WebSocket task finished"

-- WebSocket::send
unfoldable pub enqueue : Option Refusal → TransportMessage → WebSocket → Result WebSocket
enqueue none msg ws = ok (record ws { requests = ws.requests ++ msg ∷ [] })
enqueue (some r) msg ws = err (Error.transport (TransportError.message (text (refusal r))))

-- Transport::prepare
unfoldable pub prepare : String → List Value → WebSocket → WebSocket × (ℕ × Call)
prepare method params ws =
    let (id, count) = next_request_id ws.id in
    (record ws { id = count }, (id, build_request id method params))

-- What a new channel is, if its message got into the queue.
abbrev with_channel : ℕ → WebSocket → Result WebSocket → WebSocket × Result ℕ
with_channel tx ws (ok sent) = (record sent { channels = suc tx }, ok tx)
with_channel tx ws (err e) = (record ws { channels = suc tx }, err e)

-- WebSocket::send_request, with helpers::to_string as a parameter.
unfoldable pub send_request :
    (Request → Result String) → Option Refusal → List ℕ → Request → WebSocket → WebSocket × Result ℕ
unfolding enqueue
send_request to_string refused ids rpc ws = elim (to_string rpc) [
  | err e ↦ (ws, err e)
  | ok body ↦ with_channel ws.channels ws (enqueue refused (request ids body ws.channels) ws)
]

-- Transport::send
unfoldable pub send :
    (Request → Result String) → Option Refusal → ℕ → Call → WebSocket → WebSocket × Result ℕ
unfolding send_request
send to_string refused id call ws =
    send_request to_string refused (id ∷ []) (Request.single call) ws

abbrev pub id_of : ℕ × Call → ℕ
id_of (id, call) = id

abbrev pub call_of : ℕ × Call → Call
call_of (id, call) = call

-- BatchTransport::send_batch
unfoldable pub send_batch :
    (Request → Result String) → Option Refusal → List (ℕ × Call) → WebSocket → WebSocket × Result ℕ
unfolding send_request
send_batch to_string refused [] ws =
    (ws, err (Error.invalid_response (text "empty WebSocket batch request")))
send_batch to_string refused (r ∷ rs) ws =
    send_request to_string refused (map id_of (r ∷ rs)) (Request.batch (map call_of (r ∷ rs))) ws

-- DuplexTransport::subscribe
unfoldable pub subscribe_to : Option Refusal → String → WebSocket → WebSocket × Result ℕ
unfolding enqueue
subscribe_to refused id ws =
    with_channel ws.channels ws (enqueue refused (subscribe id ws.channels) ws)

-- DuplexTransport::unsubscribe
unfoldable pub unsubscribe_from : Option Refusal → String → WebSocket → Result WebSocket
unfolding enqueue
unsubscribe_from refused id ws = enqueue refused (unsubscribe id) ws

-- batch_to_single
unfoldable pub batch_to_single : BatchResult → Result Value
batch_to_single (err e) = err e
batch_to_single (ok (res ∷ rest)) = res
batch_to_single (ok []) = err (Error.invalid_response (text "Expected single, got batch."))

-- dropped_err
abbrev pub dropped_err : Error
dropped_err =
    Error.transport (TransportError.message (text "Cannot send request. Internal task finished."))

-- What polling a oneshot receiver finds; and enum ResponseState.
pub data Channel : Type 0 where
  waits : Channel
  canceled : Channel
  holds : BatchResult → Channel

pub data ResponseState : Type 0 where
  receiver : Option (Result ℕ) → ResponseState
  waiting : ℕ → ResponseState

module _ {R : Type 0} (extract : BatchResult → Result R) (channel : ℕ → Channel) where
  -- The arm for ResponseState::Waiting; `none` is Poll::Pending.
  unfoldable pub poll_channel : ℕ → Channel → ResponseState × Option (Result R)
  poll_channel tx waits = (waiting tx, none)
  poll_channel tx canceled = (waiting tx, some (err dropped_err))
  poll_channel tx (holds r) = (waiting tx, some (extract r))

  -- Response::poll; the loop goes round once more after a receiver was taken.
  unfoldable pub poll : ResponseState → ResponseState × Option (Result R)
  unfolding poll_channel
  poll (waiting tx) = poll_channel tx (channel tx)
  poll (receiver none) = (receiver none, some (err Error.internal))
  poll (receiver (some (err e))) = (receiver none, some (err e))
  poll (receiver (some (ok tx))) = poll_channel tx (channel tx)

abbrev or_later :
    {R : Type 0}
    → (ResponseState → Option (Result R))
    → ResponseState × Option (Result R)
    → Option (Result R)
or_later later (s, some r) = some r
or_later later (s, none) = later s

-- Awaiting a response: polling it whenever its channel may have changed.
unfoldable pub await :
    {R : Type 0} → (BatchResult → Result R) → List (ℕ → Channel) → ResponseState → Option (Result R)
await extract [] s = none
await extract (channel ∷ channels) s =
    or_later (λ t. await extract channels t) (poll extract channel s)

-- What the channel came to, when it no longer waits.
abbrev pub outcome : List Channel → Option (Result BatchResult)
outcome [] = none
outcome (waits ∷ later) = outcome later
outcome (canceled ∷ later) = some (err dropped_err)
outcome (holds r ∷ later) = some (ok r)

abbrev pub extracted :
    {R : Type 0} → (BatchResult → Result R) → Option (Result BatchResult) → Option (Result R)
extracted extract none = none
extracted extract (some (err e)) = some (err e)
extracted extract (some (ok r)) = some (extract r)

await-waiting :
    {R : Type 0} (extract : BatchResult → Result R) (tx : ℕ) (channels : List (ℕ → Channel))
    → await extract channels (waiting tx)
      ≡ extracted extract (outcome (map (λ channel. channel tx) channels))
unfolding await poll poll_channel
await-waiting extract tx [] = refl
await-waiting extract tx (channel ∷ channels) =
    by_channel (channel tx) (await-waiting extract tx channels)
  where
    by_channel :
        (c : Channel)
        → await extract channels (waiting tx)
          ≡ extracted extract (outcome (map (λ ch. ch tx) channels))
        → or_later (λ t. await extract channels t) (poll_channel extract channel tx c)
          ≡ extracted extract (outcome (c ∷ map (λ ch. ch tx) channels))
    by_channel waits ih = ih
    by_channel canceled ih = refl
    by_channel (holds r) ih = refl

-- A response is what its channel first holds, whenever it is polled; a channel that the task dropped
-- is an error, and so is a request that did not get into the queue.
pub await_lem :
    {R : Type 0} (extract : BatchResult → Result R) (response : Result ℕ) (channel : ℕ → Channel)
    (channels : List (ℕ → Channel))
    → await extract (channel ∷ channels) (receiver (some response)) ≡ (elim response [
      | err e ↦ some (err e)
      | ok tx ↦ extracted extract (outcome (map (λ c. c tx) (channel ∷ channels)))
    ])
unfolding await poll
await_lem extract (err e) channel channels = refl
await_lem extract (ok tx) channel channels =
    unfold await poll in await-waiting extract tx (channel ∷ channels)
