-- ===== src/Transports/Ipc/Once.antt =====
-- src/transports/ipc.rs, the clients together with the task: whatever clients put into the queue, and
-- whatever the socket yields in between, no request is answered twice.
use rust_web.Prelude.{
  ℕ, ◌+◌, ◌≤◌, List, [], ◌∷◌, ◌++◌, ◌≡◌, ap, count, count-append, arith, Bool, true, false,
  if◌then◌else◌,
}
use rust_web.Error.{Result}
use rust_web.Transports.Ipc.{Server}
use rust_web.Transports.Ipc.Run.{
  Event, no_more, subscribe, unsubscribe, single, batch, bytes, failed, ended, Io, Next, again,
  return, run_server, turn,
}
use rust_web.Transports.Ipc.Balance.{answered_times}
use rust_web.Transports.Ipc.Served.{txs_of}
use rust_web.Transports.Ipc.Loop.{init, asked, asked_by, asked_after, taken, run_server_ended}
use rust_web.Transports.Ipc.Client.{Ipc, TransportMessage, Step, steps}
use rust_web.Transports.Ipc.Client.Queue.{
  queued, queued-append, Ascends-once, IsClient-steps, IsClient,
}

-- The messages among the events that the task selects.
abbrev pub messages_of : List Event → List TransportMessage
messages_of [] = []
messages_of (subscribe id tx ∷ events) = TransportMessage.subscribe id tx ∷ messages_of events
messages_of (unsubscribe id ∷ events) = TransportMessage.unsubscribe id ∷ messages_of events
messages_of (single request written ∷ events) = TransportMessage.single request ∷ messages_of events
messages_of (batch requests written ∷ events) = TransportMessage.batch requests ∷ messages_of events
messages_of (no_more ∷ events) = messages_of events
messages_of (bytes new accepts ∷ events) = messages_of events
messages_of (failed e ∷ events) = messages_of events
messages_of (ended ∷ events) = messages_of events

none_or_all :
    (a b : Bool) (xs : List ℕ) (tx : ℕ)
    → count tx (if a then [] else if b then [] else xs) ≤ count tx xs
none_or_all true b xs tx = omega arith
none_or_all false true xs tx = omega arith
none_or_all false false xs tx = omega arith

taken-le :
    (event : Event) (s : Server) (tx : ℕ) → count tx (taken event s) ≤ count tx (asked_by event)
taken-le event s tx = none_or_all _ _ (asked_by event) tx

asked_after-le :
    (f : Server → List ℕ) (n : Next) (tx bound : ℕ)
    → ((s : Server) → count tx (f s) ≤ bound)
    → count tx (asked_after f n) ≤ bound
asked_after-le f (again s) tx bound h = h s
asked_after-le f (return s r) tx bound h = omega arith

-- The channels in the messages of some events, by the first event.
queued-messages_of :
    (event : Event) (events : List Event) (tx : ℕ)
    → count tx (queued (messages_of (event ∷ events)))
      ≡ count tx (asked_by event) + count tx (queued (messages_of events))
queued-messages_of (subscribe id c) events tx = omega arith
queued-messages_of (unsubscribe id) events tx = omega arith
queued-messages_of (single request written) events tx =
    count-append tx (request.tx ∷ []) (queued (messages_of events))
queued-messages_of (batch requests written) events tx =
    count-append tx (txs_of requests) (queued (messages_of events))
queued-messages_of no_more events tx = omega arith
queued-messages_of (bytes new accepts) events tx = omega arith
queued-messages_of (failed e) events tx = omega arith
queued-messages_of ended events tx = omega arith

asked-le :
    (io : Io) (max : ℕ) (events : List Event) (s : Server) (tx : ℕ)
    → count tx (asked io max events s) ≤ count tx (queued (messages_of events))
unfolding asked
asked-le io max [] s tx = omega arith
asked-le io max (event ∷ events) s tx =
    let rest : Server → List ℕ = λ t. asked io max events t in
    omega (
      arith,
      count-append tx (taken event s) (asked_after rest (turn io max event s)),
      taken-le event s tx,
      queued-messages_of event events tx,
      asked_after-le rest (turn io max event s) tx (count tx (queued (messages_of events)))
          (λ t. asked-le io max events t tx),
    )

-- When the task returns, each request that clients put into the queue was answered at most once: the
-- messages that it selected are the first ones in the queue of clients that took any steps on a new
-- connection, and what the socket yields, and when, is arbitrary.
pub run_server_once :
    (io : Io) (max_response_size : ℕ) (events : List Event) (s : Server) (r : Result (Unit {0}))
    (client : Ipc) (taken_steps : List Step) (left : List TransportMessage)
    → client.messages ≡ []
    → messages_of events ++ left ≡ (steps taken_steps client).messages
    → run_server io max_response_size events init ≡ return s r
    → (tx : ℕ) → answered_times tx s ≤ 1
run_server_once io max events s r client taken_steps left new queue e tx =
    let start : IsClient client = rw new (omega arith) in
    let client_once =
      Ascends-once 0 (steps taken_steps client).channels tx
        (queued (steps taken_steps client).messages) (IsClient-steps taken_steps client start) in
    omega (
      arith,
      (run_server_ended io max events s r e).1 tx,
      asked-le io max events init tx,
      client_once,
      ap (λ ms. count tx (queued ms)) queue,
      ap (λ xs. count tx xs) (queued-append (messages_of events) left),
      count-append tx (queued (messages_of events)) (queued left),
    )
