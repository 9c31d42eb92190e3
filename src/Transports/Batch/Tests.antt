-- ===== src/Transports/Batch/Tests.antt =====
-- Runs of src/transports/batch.rs: two requests, one of them sent twice, submitted together.
use rust_web.Prelude.{ℕ, ◌≡◌, refl, List, [], ◌∷◌, ◌++◌, none, contains, count, ltb, if◌then◌else◌}
use rust_web.Prelude.Map
use rust_web.Prelude.Map.{get, insert, remove, keys, values}
use rust_web.Rpc.{Value, MessageId, Call}
use rust_web.Error.{Result, ok}
use rust_web.Transports.Batch.{Batch, init, send, submit, finish}
use rust_web.Transports.Batch.Delivery.{paired, finish-ok}
use rust_web.Transports.Batch.Submission.{
  System, Step, Reachable, begin, step, answered, answered_once,
}

abbrev call : ℕ → Call
call id = record { method = "eth_blockNumber"; params = []; id = MessageId.num id }

abbrev ids : List ℕ
ids = 7 ∷ 8 ∷ []

abbrev txs : List ℕ
txs = 0 ∷ 1 ∷ []

abbrev results : List (Result Value)
results = ok (Value.number 1) ∷ ok (Value.number 2) ∷ []

-- Two requests wait, and the queue was taken.
abbrev waiting : Batch
waiting = record { pending = (7, 0) ∷ (8, 1) ∷ []; batch = []; next = 2; answers = [] }

two_sent : (submit (send 8 (call 8) (send 7 (call 7) init).0).0) ≡ (waiting, ids)
unfolding send submit get insert
two_sent = refl

finish-ok_example :
    ((finish ids (ok results) waiting).0.answers ≡ waiting.answers ++ paired txs results)
    × ((finish ids (ok results) waiting).1 ≡ ok results)
    × ((j : ℕ)
        → Map.get j (finish ids (ok results) waiting).0.pending
          ≡ (if contains j ids then none else Map.get j waiting.pending))
unfolding get
finish-ok_example = finish-ok ids txs waiting (refl, (refl, tt)) (refl, (refl, tt)) results refl

abbrev one_sent : System
one_sent = record { state = (send 7 (call 7) init).0; in_flight = [] }

abbrev sent_twice : System
sent_twice = record { state = (send 7 (call 7) one_sent.state).0; in_flight = [] }

abbrev in_flight : System
in_flight = record {
  state = (submit sent_twice.state).0;
  in_flight = (submit sent_twice.state).1 ∷ [];
}

abbrev done : System
done = record {
  state = (finish (7 ∷ []) (ok (ok (Value.number 1) ∷ [])) in_flight.state).0;
  in_flight = [];
}

run : Reachable done
unfolding send submit get insert
run =
    step
      (step (step (step begin (Step.sent 7 (call 7) refl)) (Step.sent 7 (call 7) refl))
        (Step.submitted refl))
      (Step.finished [] [] (7 ∷ []) (ok (ok (Value.number 1) ∷ [])) refl refl)

answered_once_example :
    (done.state.pending ≡ [])
    × ((tx : ℕ) → count tx (answered done.state) ≡ (if ltb tx done.state.next then 1 else 0))
unfolding finish submit send get insert
answered_once_example = answered_once done run refl refl
