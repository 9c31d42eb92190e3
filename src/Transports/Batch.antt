-- ===== src/Transports/Batch.antt =====
-- src/transports/batch.rs: requests wait in a queue until they are submitted together.
-- A oneshot channel is a number; `answers` holds what was sent on the channels, in order. A
-- receiver that was dropped changes nothing but a log line.
mod Submission
mod Delivery
mod Tests
use rust_web.Prelude.{
  ℕ, ◌+◌, String, List, [], ◌∷◌, ◌++◌, map, Option, none, some, length, get_elem?, Bool, true,
  false, not, ◌==◌, if◌then◌else◌,
}
use rust_web.Prelude.Map
use rust_web.Prelude.Map.{Map}
use rust_web.Rpc.{Value, Call}
use rust_web.Error.{Error, Result, ok, err, TransportError, text, format, clone}

-- The shared part of a `Batch`, with the number of the next channel and what the channels carried.
pub record Batch : Type 0 where
  pub pending : Map ℕ
  pub batch : List (ℕ × Call)
  pub next : ℕ
  pub answers : List (ℕ × Result Value)

-- Batch::new
abbrev pub init : Batch
init = record { pending = []; batch = []; next = 0; answers = [] }

abbrev pub collision : ℕ → Error
collision id =
    Error.transport (TransportError.message (format "batch request id collision: {id}" (id ∷ [])))

abbrev pub cancelled : Error
cancelled = Error.transport (TransportError.message (text "batch submission was cancelled"))

-- Transport::send: the new state, and the channel on which the answer will come.
unfoldable pub send : ℕ → Call → Batch → Batch × ℕ
send id request s = elim (Map.get id s.pending) [
  | some other ↦ (
    record s { next = s.next + 1; answers = s.answers ++ (s.next, err (collision id)) ∷ [] },
    s.next,
  )
  | none ↦ (
    record s {
      pending = Map.insert id s.next s.pending;
      batch = s.batch ++ (id, request) ∷ [];
      next = s.next + 1;
    },
    s.next,
  )
]

-- `submit_batch` up to its first await: the queue is taken, and its ids are the guard's.
unfoldable pub submit : Batch → Batch × List ℕ
submit s = (record s { batch = [] }, map (λ r. r.0) s.batch)

-- PendingBatchGuard::take_senders: the senders that are still there, with the ids' places, and
-- the pending requests that are left.
unfoldable pub take_senders : ℕ → List ℕ → Map ℕ → List (ℕ × ℕ) × Map ℕ
take_senders idx [] pending = ([], pending)
take_senders idx (id ∷ ids) pending =
    let (senders, left) = take_senders (idx + 1) ids (Map.remove id pending) in
    elim (Map.get id pending) [
      | some sender ↦ ((idx, sender) ∷ senders, left)
      | none ↦ (senders, left)
    ]

-- `match batch.await`: a wrong number of results is an error.
unfoldable pub checked : List ℕ → Result (List (Result Value)) → Result (List (Result Value))
checked ids (ok results) =
    if not (length results == length ids)
    then err (
        Error.invalid_response
          (format "batch returned {} responses for {} requests" (length results ∷ length ids ∷ [])))
    else ok results
checked ids (err e) = err e

-- `results.get(idx).cloned().unwrap_or(Err(Error::Internal))`
abbrev or_internal : Option (Result Value) → Result Value
or_internal none = err Error.internal
or_internal (some r) = r

-- What the sender at place `idx` is sent.
unfoldable pub answer_at : Result (List (Result Value)) → ℕ → Result Value
answer_at (ok results) idx = or_internal (get_elem? results idx)
answer_at (err e) idx = err (clone e)

-- `for (idx, request_id, sender) in senders`
unfoldable pub send_all : Result (List (Result Value)) → List (ℕ × ℕ) → List (ℕ × Result Value)
send_all res [] = []
send_all res ((idx, sender) ∷ senders) = (sender, answer_at res idx) ∷ send_all res senders

-- `submit_batch` after the await: `reply` is what the transport answered to the ids of a guard.
unfoldable pub finish :
    List ℕ → Result (List (Result Value)) → Batch → Batch × Result (List (Result Value))
finish ids reply s =
    let res = checked ids reply in
    let (senders, left) = take_senders 0 ids s.pending in
    (record s { pending = left; answers = s.answers ++ send_all res senders }, res)

-- Drop for PendingBatchGuard, while it is armed.
unfoldable pub cancel : List ℕ → Batch → Batch
cancel ids s =
    let (senders, left) = take_senders 0 ids s.pending in
    record s { pending = left; answers = s.answers ++ send_all (err cancelled) senders }

-- SingleResult::poll when the channel is done: a dropped sender gives an internal error.
unfoldable pub receive : Option (Result Value) → Result Value
receive none = err Error.internal
receive (some r) = r
