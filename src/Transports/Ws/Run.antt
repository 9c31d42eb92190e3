-- ===== src/Transports/Ws/Run.antt =====
-- The WebSocket task over any events: the balance of requests and answers.
use rust_web.Prelude.{
  ℕ, ◌+◌, ◌≤◌, ◌≡◌, refl, ap, List, [], ◌∷◌, ◌++◌, count, count-append, append-nil, append_assoc,
  Bool, true, false, arith, if◌then◌else◌,
}
use rust_web.Prelude.Map.{Map}
use rust_web.Prelude.Map.Count.{total}
use rust_web.Transports.Ws.{Task, Pending, init}
use rust_web.Transports.Ws.Message.{Reader, Event, on_event, into_task}
use rust_web.Transports.Ws.Accounting.{pending_times, waiting_times, IsSound, answered}
use rust_web.Transports.Ws.Answered.{Balanced-event, IsSound-nil, asked_by}

-- The channels of the requests that the task takes before it stops.
unfoldable pub asked : Reader → List Event → Task → List ℕ
asked reader [] s = []
asked reader (event ∷ events) s =
    let u = if s.running then on_event reader event s else s in
    (if s.running then asked_by event else []) ++ asked reader events u

-- What holds of a task that was started, whatever came in since.
pub record IsBalanced (s : Task) (asked : List ℕ) : Type 0 where
  pub sound : IsSound s.pending
  pub counts : (tx : ℕ) → count tx (answered s) + waiting_times tx s.pending ≡ count tx asked
  pub stopped : s.running ≡ false → s.pending ≡ []

IsBalanced-init : IsBalanced init []
unfolding total
IsBalanced-init = record { sound = IsSound-nil; counts = λ tx. refl; stopped = λ e. refl }

IsBalanced-step :
    (reader : Reader) (event : Event) (s : Task) (before : List ℕ) (running : Bool)
    → s.running ≡ running
    → IsBalanced s before
    → IsBalanced
        (if running then on_event reader event s else s)
        (before ++ (if running then asked_by event else []))
IsBalanced-step reader event s before false e h = rw append-nil h
IsBalanced-step reader event s before true e h =
    let b = Balanced-event reader event s h.sound e in
    record {
      sound = b.sound;
      counts =
          λ tx. omega (arith, b.counts tx, h.counts tx, count-append tx before (asked_by event));
      stopped = b.stopped;
    }

into_task-IsBalanced :
    (reader : Reader) (events : List Event) (s : Task) (before : List ℕ)
    → IsBalanced s before
    → IsBalanced (into_task reader events s) (before ++ asked reader events s)
unfolding into_task asked
into_task-IsBalanced reader [] s before h = rw append-nil h
into_task-IsBalanced reader (event ∷ events) s before h =
    let next = if s.running then on_event reader event s else s in
    let new = if s.running then asked_by event else [] in
    rw (← append_assoc before new (asked reader events next)) (
      into_task-IsBalanced reader events next (before ++ new)
        (IsBalanced-step reader event s before s.running refl h))

-- Whatever comes in, from clients or from the socket: a channel is answered as often as requests
-- were taken for it, less the requests that are still pending on it, and no id is pending twice.
pub into_task_balance :
    (reader : Reader) (events : List Event) (tx id : ℕ)
    → (count tx (answered (into_task reader events init))
          + waiting_times tx (into_task reader events init).pending
        ≡ count tx (asked reader events init))
      × (pending_times id (into_task reader events init).pending ≤ 1)
into_task_balance reader events tx id =
    let h = into_task-IsBalanced reader events init [] IsBalanced-init in
    (h.counts tx, h.sound.once id)

-- When the loop has ended, nothing is pending, and every channel has been answered exactly as often
-- as requests were taken for it.
pub into_task_ended :
    (reader : Reader) (events : List Event)
    → (into_task reader events init).running ≡ false
    → ((into_task reader events init).pending ≡ [])
      × ((tx : ℕ)
          → count tx (answered (into_task reader events init))
            ≡ count tx (asked reader events init))
into_task_ended reader events e =
    let h = into_task-IsBalanced reader events init [] IsBalanced-init in
    let p = h.stopped e in
    (
      p,
      λ tx.
          unfold total in
          omega (arith, h.counts tx, ap (λ (m : Map Pending). waiting_times tx m) p),
    )
