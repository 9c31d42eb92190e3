-- ===== src/Transports/Ipc/Tests.antt =====
-- Runs of src/transports/ipc.rs: a batch of two requests, answered in the other order, and then the
-- end of the stream.
use rust_web.Prelude.{All, ◌++◌, ℕ, ◌+◌, ◌≤◌, ◌≡◌, refl, List, [], ◌∷◌, none, count, firsts, true}
use rust_web.Prelude.Map.{keys, get, insert, remove}
use rust_web.Rpc.{Value, MessageId, Output, success, Call}
use rust_web.Rpc
use rust_web.Error.{Result, ok}
use rust_web.Transports.Ipc.{
  Server, respond, respond_output, respond_matching, respond_ids, index, matching,
  output_request_id,
}
use rust_web.Transports.Ipc.Run.{
  TransportRequest, Json, End, Io, Event, on_event, on_batch, enter, on_bytes, on_values, on_json,
  on_ended, return, run_server,
}
use rust_web.Transports.Ipc.Own.{Own, respond_lem}
use rust_web.Transports.Ipc.Balance.{answered_times, waiting_times}
use rust_web.Transports.Ipc.Turns.{state_of}
use rust_web.Transports.Ipc.Client.{Ipc, Step, sends_batch, step, steps, send_batch, with_channels}
use rust_web.Transports.Ipc.Once.{messages_of, run_server_once}
use rust_web.Transports.Ipc.Loop.{init, asked, run_server_balance, run_server_ended}

abbrev out : ℕ → Output
out n = success (record { result = Value.number n; id = MessageId.num n })

abbrev request : ℕ → ℕ → TransportRequest
request id tx = record {
  id = id;
  call = record { method = "eth_blockNumber"; params = []; id = MessageId.num id };
  tx = tx;
}

abbrev io : Io
io = record {
  to_string = λ request. ok "[..]";
  values =
      λ bytes. (Json.response (Rpc.Response.batch (out 8 ∷ out 7 ∷ [])) ∷ [], (End.pending, []));
}

abbrev events : List Event
events =
    Event.batch (request 7 0 ∷ request 8 1 ∷ request 7 2 ∷ []) none
    ∷ Event.bytes (91 ∷ []) (λ tx. true)
    ∷ Event.ended
    ∷ []

-- Two requests are answered in the order of the batch, after the one whose id was taken.
abbrev done : Server
done = state_of (run_server io 100 events init)

returned : run_server io 100 events init ≡ return done (ok tt)
unfolding run_server on_event on_batch enter on_bytes on_values on_json on_ended respond
    respond_matching respond_ids respond_output index matching output_request_id get insert remove
    keys
returned = refl

answered_in_order : firsts done.answers ≡ 2 ∷ 0 ∷ 1 ∷ []
unfolding run_server on_event on_batch enter on_bytes on_values on_json on_ended respond
    respond_matching respond_ids respond_output index matching output_request_id get insert remove
    keys
answered_in_order = refl

run_server_balance_example :
    (answered_times 1 (state_of (run_server io 100 events init))
        + waiting_times 1 (state_of (run_server io 100 events init)).pending_response_txs
      ≡ count 1 (asked io 100 events init))
    × (count 7 (keys (state_of (run_server io 100 events init)).pending_response_txs) ≤ 1)
run_server_balance_example = run_server_balance io 100 events 1 7

run_server_ended_example :
    (done.pending_response_txs ≡ [])
    × ((tx : ℕ) → answered_times tx done ≡ count tx (asked io 100 events init))
run_server_ended_example = run_server_ended io 100 events done (ok tt) returned

-- The client that queued the batch on a new connection.
abbrev client : Ipc
client = record { id = 1; messages = []; channel_capacity = 4; channels = 0 }

abbrev call : ℕ → Call
call id = record { method = "eth_blockNumber"; params = []; id = MessageId.num id }

abbrev queued_batch : List Step
queued_batch = sends_batch none ((7, call 7) ∷ (8, call 8) ∷ (7, call 7) ∷ []) ∷ []

selected : messages_of events ++ [] ≡ (steps queued_batch client).messages
unfolding steps step send_batch with_channels
selected = refl

run_server_once_example : answered_times 1 done ≤ 1
run_server_once_example =
    run_server_once io 100 events done (ok tt) client queued_batch [] refl selected returned 1

-- Two channels wait, one for each id.
abbrev two_wait : Server
two_wait = record init { pending_response_txs = (7, 0) ∷ (8, 1) ∷ [] }

respond_lem_example :
    (new : List (ℕ × Result Output)) × ((respond
        (Rpc.Response.batch (out 8 ∷ out 7 ∷ []))
        two_wait).0.answers
      ≡ two_wait.answers ++ new)
    × All (Own two_wait.pending_response_txs) new
respond_lem_example = respond_lem (Rpc.Response.batch (out 8 ∷ out 7 ∷ [])) two_wait
