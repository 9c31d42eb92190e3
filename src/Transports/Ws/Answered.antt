-- ===== src/Transports/Ws/Answered.antt =====
-- What each event of the task of src/transports/ws.rs does to the balance of requests and answers.
use rust_web.Prelude.{
  ℕ, ◌+◌, ◌≡◌, refl, ap, ◌∙◌, String, List, [], ◌∷◌, ◌++◌, Option, none, some, count-firsts, count,
  Bool, true, false, arith, ◌==◌, if◌then◌else◌, Bool-cases, inl, inr,
}
use rust_web.Prelude.Map
use rust_web.Prelude.Map.{Map}
use rust_web.Prelude.Map.Count.{total, weight_of, total-insert, total-remove}
use rust_web.Rpc
use rust_web.Rpc.{Value, Output, Notification, Params}
use rust_web.Error.{Error, Result, ok, err, ◌>>=◌}
use rust_web.Helpers.{to_results_from_outputs}
use rust_web.Transports.Ws.{
  Task, Pending, Settled, answer, failures, stop, on_request, register, settle, outputs_of,
  has_duplicates, collides,
}
use rust_web.Transports.Ws.Message.{
  Handled, Reader, Event, on_notification, on_response, handle_message, dispatch, after, on_event,
  apply_settled, settled,
}
use rust_web.Transports.Ws.Quiet.{Quiet, Quiet-on_notification}
use rust_web.Transports.Ws.Response.{settle_sound}
use rust_web.Transports.Ws.Accounting.{
  waiting_times, IsSound, IsSound-insert, IsSound-remove, single_key, answered, count-failures,
}

-- From one state of the running task to the next, with the channels of the requests taken.
pub record Balanced (s u : Task) (asked : List ℕ) : Type 0 where
  pub sound : IsSound u.pending
  pub counts :
      (tx : ℕ)
      → count tx (answered u) + waiting_times tx u.pending
        ≡ count tx (answered s) + waiting_times tx s.pending + count tx asked
  pub stopped : u.running ≡ false → u.pending ≡ []

pub IsSound-nil : IsSound []
unfolding total
IsSound-nil = record { once = λ id. omega arith; keyed = tt }

-- Nothing that is counted changes.
Balanced-same :
    (s u : Task)
    → IsSound s.pending
    → u.pending ≡ s.pending
    → u.answers ≡ s.answers
    → u.running ≡ true
    → Balanced s u []
Balanced-same s u h p a r = record {
  sound = rw p h;
  counts = λ tx. rw (p, a) (omega arith);
  stopped = λ e. cc (r, e);
}

-- A request that is refused is answered at once.
Balanced-answer :
    (s : Task) (tx : ℕ) (r : Result (List (Result Value)))
    → IsSound s.pending
    → s.running ≡ true
    → Balanced s (answer tx r s) (tx ∷ [])
Balanced-answer s tx r h run = record {
  sound = h;
  counts = λ x. omega (arith, count-firsts x s.answers ((tx, r) ∷ []));
  stopped = λ e. cc (run, e);
}

-- Stopping answers whatever is pending.
Balanced-stop :
    (s u : Task) (e : Error) (asked : List ℕ) → Balanced s u asked → Balanced s (stop e u) asked
unfolding stop
Balanced-stop s u e asked h = record {
  sound = IsSound-nil;
  counts = λ tx.
      unfold total in
      omega (
        arith,
        h.counts tx,
        count-firsts tx u.answers (failures e u.pending),
        count-failures e u.pending tx,
      );
  stopped = λ _. refl;
}

Balanced-insert :
    (s : Task) (id : ℕ) (ids : List ℕ) (tx : ℕ) (written : List String)
    → has_duplicates (id ∷ ids) ≡ false
    → collides (id ∷ ids) s.pending ≡ false
    → IsSound s.pending
    → s.running ≡ true
    → Balanced s
        (record s {
          pending = Map.insert id (record { ids = id ∷ ids; sender = tx }) s.pending;
          written = written;
        })
        (tx ∷ [])
Balanced-insert s id ids tx written d c h run =
    let (absent, sound) = IsSound-insert id ids tx s.pending d c h in
    record {
      sound = sound;
      counts = λ x. omega (
        arith,
        total-insert (λ p. if x == p.sender then 1 else 0) id
            (record { ids = id ∷ ids; sender = tx }) s.pending absent,
      );
      stopped = λ e. cc (run, e);
    }

Balanced-register :
    (s : Task) (id : ℕ) (ids : List ℕ) (body : String) (tx : ℕ) (sent : Option Error)
    → has_duplicates (id ∷ ids) ≡ false
    → collides (id ∷ ids) s.pending ≡ false
    → IsSound s.pending
    → s.running ≡ true
    → Balanced s (register id ids body tx sent s) (tx ∷ [])
unfolding register
Balanced-register s id ids body tx none d c h run =
    Balanced-insert s id ids tx (s.written ++ body ∷ []) d c h run
Balanced-register s id ids body tx (some e) d c h run =
    Balanced-stop s _ e (tx ∷ []) (Balanced-insert s id ids tx s.written d c h run)

Balanced-request :
    (s : Task) (ids : List ℕ) (body : String) (tx : ℕ) (sent : Option Error)
    → IsSound s.pending
    → s.running ≡ true
    → Balanced s (on_request ids body tx sent s) (tx ∷ [])
unfolding on_request
Balanced-request s [] body tx sent h run = Balanced-answer s tx _ h run
Balanced-request s (id ∷ ids) body tx sent h run = elim (Bool-cases (has_duplicates (id ∷ ids))) [
  | inl d ↦ rw d (Balanced-answer s tx _ h run)
  | inr d ↦ elim (Bool-cases (collides (id ∷ ids) s.pending)) [
    | inl c ↦ rw (d, c) (Balanced-answer s tx _ h run)
    | inr c ↦ rw (d, c) (Balanced-register s id ids body tx sent d c h run)
  ]
]

Balanced-settled :
    (s : Task) (os : List Output) (d : Settled)
    → settle os s.pending ≡ ok d
    → IsSound s.pending
    → s.running ≡ true
    → Balanced s (apply_settled d s) []
unfolding to_results_from_outputs
Balanced-settled s os d e h run =
    let (got, _) = settle_sound os s.pending d e in
    record {
      sound = IsSound-remove d.key s.pending h;
      counts = λ tx. omega (
        arith,
        count-firsts tx s.answers ((d.request.sender, to_results_from_outputs d.outputs) ∷ []),
        total-remove (λ p. if tx == p.sender then 1 else 0) d.key s.pending
            (single_key s.pending d.key h),
        ap (weight_of (λ (p : Pending). if tx == p.sender then 1 else 0)) got,
      );
      stopped = λ e. cc (run, e);
    }

Balanced-response :
    (s : Task) (response : Result Rpc.Response)
    → IsSound s.pending
    → s.running ≡ true
    → Balanced s (after (on_response response s)) []
unfolding on_response
Balanced-response s (err e) h run = Balanced-stop s s e [] (Balanced-same s s h refl refl run)
Balanced-response s (ok r) h run = go (outputs_of r) refl
  where
    quiet : Balanced s s []
    quiet = Balanced-same s s h refl refl run

    finish :
        (os : List Output) (x : Result Settled)
        → settle os s.pending ≡ x
        → Balanced s (after (settled x s)) []
    finish os (err e) q = Balanced-stop s s e [] quiet
    finish os (ok d) q = Balanced-settled s os d q h run

    go :
        (x : Result (List Output))
        → outputs_of r ≡ x
        → Balanced s (after (settled (do outputs ← x; settle outputs s.pending) s)) []
    go (err e) q = Balanced-stop s s e [] quiet
    go (ok os) q = finish os (settle os s.pending) refl

Balanced-handled :
    (s : Task) (r : Handled)
    → Quiet s r.0
    → IsSound s.pending
    → s.running ≡ true
    → Balanced s (after r) []
Balanced-handled s (u, ok x) q h run = Balanced-same s u h q.pending q.answers (q.running ∙ run)
Balanced-handled s (u, err e) q h run =
    Balanced-stop s u e [] (Balanced-same s u h q.pending q.answers (q.running ∙ run))

-- The channels of the requests that an event hands over.
abbrev pub asked_by : Event → List ℕ
asked_by (Event.request ids body tx sent) = tx ∷ []
asked_by (Event.subscribe id sink) = []
asked_by (Event.unsubscribe id) = []
asked_by Event.clients_gone = []
asked_by (Event.incoming bytes accepts) = []
asked_by (Event.failed e) = []
asked_by Event.closed = []

Balanced-dispatch :
    (s : Task) (accepts : ℕ → Bool) (n : Option Notification) (response : Result Rpc.Response)
    → IsSound s.pending
    → s.running ≡ true
    → Balanced s (after (dispatch accepts n response s)) []
unfolding dispatch
Balanced-dispatch s accepts none response h run = Balanced-response s response h run
Balanced-dispatch s accepts (some n) response h run =
    Balanced-handled s (on_notification accepts n s) (Quiet-on_notification accepts n s) h run

pub Balanced-event :
    (reader : Reader) (event : Event) (s : Task)
    → IsSound s.pending
    → s.running ≡ true
    → Balanced s (on_event reader event s) (asked_by event)
unfolding on_event handle_message
Balanced-event reader (Event.request ids body tx sent) s h run =
    Balanced-request s ids body tx sent h run
Balanced-event reader (Event.subscribe id sink) s h run = Balanced-same s _ h refl refl run
Balanced-event reader (Event.unsubscribe id) s h run = Balanced-same s _ h refl refl run
Balanced-event reader Event.clients_gone s h run = Balanced-same s s h refl refl run
Balanced-event reader (Event.incoming bytes accepts) s h run =
    Balanced-dispatch s accepts (reader.to_notification bytes) (reader.to_response bytes) h run
Balanced-event reader (Event.failed e) s h run =
    Balanced-stop s s e [] (Balanced-same s s h refl refl run)
Balanced-event reader Event.closed s h run =
    Balanced-stop s s Error.unreachable [] (Balanced-same s s h refl refl run)
