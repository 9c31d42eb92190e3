-- ===== src/Transports/Ipc/Loop.antt =====
-- run_server of src/transports/ipc.rs over any events: the balance of requests and answers.
use mathlib.Core.Path.{subst}
use rust_web.Prelude.{
  ℕ, ◌+◌, ◌≤◌, ◌≡◌, refl, ap, List, [], ◌∷◌, ◌++◌, append-nil, count, Bool, true, false, ◌&&◌,
  arith, if◌then◌else◌, Bool-cases, inl, inr,
}
use rust_web.Prelude.Map.{Map, keys}
use rust_web.Prelude.Map.Count.{total}
use rust_web.Error.{Result}
use rust_web.Transports.Ipc.{Server}
use rust_web.Transports.Ipc.Run.{
  Io, Event, no_more, subscribe, unsubscribe, single, batch, bytes, failed, ended, stop, on_single,
  on_batch, on_bytes, is_empty, Next, again, return, on_event, is_message, turn, and_on, run_server,
}
use rust_web.Transports.Ipc.Balance.{
  waiting_times, answered_times, IsSound, Balanced-refl, Balanced-trans,
}
use rust_web.Transports.Ipc.Served.{Step-stop, Balanced-like, Step-on_single, Step-on_batch, txs_of}
use rust_web.Transports.Ipc.Turns.{
  state_of, Finished, Turn, Turn-next_of, Step-on_bytes, Turn-on_ended, is_empty-true,
}

-- The channels of the requests that an event brings.
abbrev pub asked_by : Event → List ℕ
asked_by (single request written) = request.tx ∷ []
asked_by (batch requests written) = txs_of requests
asked_by _ = []

Turn-on_event :
    (io : Io) (max : ℕ) (event : Event) (s : Server)
    → IsSound s
    → Turn s (on_event io max event s) (asked_by event)
unfolding on_event
Turn-on_event io max no_more s h = record {
  balanced = Balanced-like s s _ [] refl refl (Balanced-refl s h);
  finished = tt;
}
Turn-on_event io max (subscribe id tx) s h = record {
  balanced = Balanced-like s s _ [] refl refl (Balanced-refl s h);
  finished = tt;
}
Turn-on_event io max (unsubscribe id) s h = record {
  balanced = Balanced-like s s _ [] refl refl (Balanced-refl s h);
  finished = tt;
}
Turn-on_event io max (single r w) s h =
    Turn-next_of s (on_single io r w s) _ (Step-on_single io r w s h)
Turn-on_event io max (batch rs w) s h =
    Turn-next_of s (on_batch io rs w s) _ (Step-on_batch io rs w s h)
Turn-on_event io max (bytes new accepts) s h =
    Turn-next_of s (on_bytes io max new accepts s) _ (Step-on_bytes io max new accepts s h)
Turn-on_event io max (failed e) s h =
    Turn-next_of s (stop e s) _ (Step-stop e s s [] (Balanced-refl s h))
Turn-on_event io max ended s h = Turn-on_ended s h

-- The channels of the requests that a turn takes; and those that the loop takes.
abbrev pub taken : Event → Server → List ℕ
taken event s =
    if s.closed && is_empty s.pending_response_txs
    then []
    else if s.closed && is_message event
    then []
    else asked_by event

both : (a : Bool) {b : Bool} → (a && b) ≡ true → b ≡ true
both true h = h
both false h = cc

Turn-turn :
    (io : Io) (max : ℕ) (event : Event) (s : Server)
    → IsSound s
    → Turn s (turn io max event s) (taken event s)
Turn-turn io max event s h = elim (Bool-cases (s.closed && is_empty s.pending_response_txs)) [
  | inl e ↦ rw e (record {
    balanced = Balanced-refl s h;
    finished = is_empty-true s.pending_response_txs (both s.closed e);
  })
  | inr e ↦ elim (Bool-cases (s.closed && is_message event)) [
    | inl f ↦ rw (e, f) (record { balanced = Balanced-refl s h; finished = tt })
    | inr f ↦ rw (e, f) (Turn-on_event io max event s h)
  ]
]

abbrev pub asked_after : (Server → List ℕ) → Next → List ℕ
asked_after f (again s) = f s
asked_after f (return s r) = []

unfoldable pub asked : Io → ℕ → List Event → Server → List ℕ
asked io max [] s = []
asked io max (event ∷ events) s =
    taken event s ++ asked_after (λ t. asked io max events t) (turn io max event s)

Turn-and_on :
    (s : Server) (n : Next) (f : Server → Next) (g : Server → List ℕ) (xs : List ℕ)
    → Turn s n xs
    → ((t : Server) → IsSound t → Turn t (f t) (g t))
    → Turn s (and_on n f) (xs ++ asked_after g n)
Turn-and_on s (again t) f g xs h k =
    let next = k t h.balanced.sound in
    record {
      balanced = Balanced-trans s t (state_of (f t)) xs (g t) h.balanced next.balanced;
      finished = next.finished;
    }
Turn-and_on s (return t r) f g xs h k = rw append-nil h

Turn-run :
    (io : Io) (max : ℕ) (events : List Event) (s : Server)
    → IsSound s
    → Turn s (run_server io max events s) (asked io max events s)
unfolding run_server asked
Turn-run io max [] s h = record { balanced = Balanced-refl s h; finished = tt }
Turn-run io max (event ∷ events) s h =
    Turn-and_on s (turn io max event s) (λ t. run_server io max events t)
      (λ t. asked io max events t) (taken event s) (Turn-turn io max event s h)
      (λ t k. Turn-run io max events t k)

-- The state that run_server starts with.
abbrev pub init : Server
init = record {
  pending_response_txs = [];
  pending_batches = [];
  subscription_txs = [];
  read_buffer = [];
  written = [];
  answers = [];
  delivered = [];
  closed = false;
}

init-IsSound : IsSound init
unfolding keys
init-IsSound id = omega arith

-- Whatever comes in, from clients or from the socket: a channel is answered as often as requests were
-- taken for it, less the requests that still wait on it, and no id waits twice.
pub run_server_balance :
    (io : Io) (max_response_size : ℕ) (events : List Event) (tx id : ℕ)
    → (answered_times tx (state_of (run_server io max_response_size events init))
          + waiting_times tx
              (state_of (run_server io max_response_size events init)).pending_response_txs
        ≡ count tx (asked io max_response_size events init))
      × (count id
            (keys (state_of (run_server io max_response_size events init)).pending_response_txs)
          ≤ 1)
unfolding total
run_server_balance io max events tx id =
    let h = Turn-run io max events init init-IsSound in
    (omega (arith, h.balanced.counts tx), h.balanced.sound id)

-- When run_server returns, with an error or without, nothing waits any more, and every channel has
-- been answered exactly as often as requests were taken for it.
pub run_server_ended :
    (io : Io) (max_response_size : ℕ) (events : List Event) (s : Server) (r : Result (Unit {0}))
    → run_server io max_response_size events init ≡ return s r
    → (s.pending_response_txs ≡ [])
      × ((tx : ℕ) → answered_times tx s ≡ count tx (asked io max_response_size events init))
unfolding total
run_server_ended io max events s r e =
    let h = Turn-run io max events init init-IsSound in
    let none_left = subst Finished e h.finished in
    (
      none_left,
      λ tx.
          let left : waiting_times tx s.pending_response_txs ≡ 0 =
            ap (λ (m : Map ℕ). waiting_times tx m) none_left in
          let same : answered_times tx (state_of (run_server io max events init))
              ≡ answered_times tx s =
            ap (λ (n : Next). answered_times tx (state_of n)) e in
          let also : waiting_times tx
                (state_of (run_server io max events init)).pending_response_txs
              ≡ waiting_times tx s.pending_response_txs =
            ap (λ (n : Next). waiting_times tx (state_of n).pending_response_txs) e in
          omega (arith, h.balanced.counts tx, left, same, also),
    )
