-- ===== src/Transports/Ws/Tests.antt =====
-- Runs of src/transports/ws.rs: a batch of two requests, answered in the other order, and a
-- subscription.
use rust_web.Prelude.{ℕ, ◌+◌, ◌≤◌, ◌≡◌, refl, List, [], ◌∷◌, none, some, count, true, false, arith}
use rust_web.Prelude.Map
use rust_web.Prelude.Map.{Map, get, insert, remove}
use rust_web.Prelude.Map.Count.{total}
use rust_web.Rpc
use rust_web.Rpc.{Value, MessageId, Output, success, Notification, Params}
use rust_web.Error.{ok}
use rust_web.Transports.Take.{take_all}
use rust_web.Transports.Ws.{
  Task, Pending, init, settle, request_id, on_request, register, index, find_pending, match_ids,
  pending_of, stop, fail_pending, failures,
}
use rust_web.Transports.Ws.Message.{
  Reader, Event, on_event, into_task, handle_message, dispatch, on_response,
}
use rust_web.Transports.Ws.Response.{find, Finds, settle_sound}
use rust_web.Transports.Ws.Complete.{settle_complete}
use rust_web.Transports.Ws.Accounting.{pending_times, waiting_times, answered}
use rust_web.Transports.Ws.Run.{asked, into_task_balance, into_task_ended}
use rust_web.Transports.Ws.Client.{Channel}

abbrev out : ℕ → Output
out n = success (record { result = Value.number n; id = MessageId.num n })

abbrev request : Pending
request = record { ids = 7 ∷ 8 ∷ []; sender = 0 }

abbrev waiting : Map Pending
waiting = (7, request) ∷ []

abbrev reader : Reader
reader = record {
  to_notification = λ bytes. none;
  to_response = λ bytes. ok (Rpc.Response.batch (out 8 ∷ out 7 ∷ []));
}

abbrev events : List Event
events =
    Event.request (7 ∷ 8 ∷ []) "[..]" 0 none ∷ Event.incoming [] (λ sink. true) ∷ Event.closed ∷ []

waiting_once : (id : ℕ) → pending_times id waiting ≤ 1
unfolding total
waiting_once id = ground arith

settle_sound_example :
    (Map.get 7 waiting ≡ some request)
    × Finds (out 8 ∷ out 7 ∷ []) (7 ∷ 8 ∷ []) (out 7 ∷ out 8 ∷ [])
unfolding settle pending_of match_ids index find_pending request_id get insert remove take_all
settle_sound_example =
    settle_sound (out 8 ∷ out 7 ∷ []) waiting
      (record { key = 7; request = request; outputs = out 7 ∷ out 8 ∷ [] }) refl

settle_complete_example :
    settle (out 8 ∷ out 7 ∷ []) waiting
    ≡ ok (record { key = 7; request = request; outputs = out 7 ∷ out 8 ∷ [] })
unfolding get find request_id
settle_complete_example =
    settle_complete (out 8 ∷ out 7 ∷ []) (out 7 ∷ out 8 ∷ []) (8 ∷ 7 ∷ []) 7 1 request waiting
      waiting_once refl (refl, (refl, tt)) (refl, (refl, tt))
      (record { once = (refl, (refl, tt)); all = (refl, (refl, tt)); as_many = refl }) refl
      (refl, (refl, tt))

into_task_balance_example :
    (count 0 (answered (into_task reader events init))
        + waiting_times 0 (into_task reader events init).pending
      ≡ count 0 (asked reader events init))
    × (pending_times 7 (into_task reader events init).pending ≤ 1)
into_task_balance_example = into_task_balance reader events 0 7

ended : (into_task reader events init).running ≡ false
unfolding into_task on_event on_request register handle_message dispatch on_response settle
    pending_of match_ids index find_pending request_id get insert remove stop take_all
ended = refl

into_task_ended_example :
    ((into_task reader events init).pending ≡ [])
    × ((tx : ℕ)
        → count tx (answered (into_task reader events init)) ≡ count tx (asked reader events init))
into_task_ended_example = into_task_ended reader events ended

answered_once : answered (into_task reader events init) ≡ 0 ∷ []
unfolding into_task on_event on_request register handle_message dispatch on_response settle
    pending_of match_ids index find_pending request_id get insert remove stop fail_pending failures
    take_all
answered_once = refl

abbrev note : Notification
note = record {
  method = "eth_subscription";
  params = Params.map (("subscription", Value.string "0x1") ∷ ("result", Value.number 5) ∷ []);
}

abbrev subscribed : Task
subscribed = record init { subscriptions = ("0x1", 3) ∷ [] }

abbrev later : List (ℕ → Channel)
later = (λ tx. Channel.holds (ok (ok (Value.number 5) ∷ []))) ∷ []
