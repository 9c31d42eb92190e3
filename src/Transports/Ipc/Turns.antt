-- ===== src/Transports/Ipc/Turns.antt =====
-- The turns of run_server in src/transports/ipc.rs that read from the socket: the balance of requests
-- and answers.
use rust_web.Prelude.{
  ℕ, ◌+◌, ◌≡◌, refl, List, [], ◌∷◌, ◌++◌, Option, none, some, length, String, Bool, true, ltb,
  Bool-cases, inl, inr, str_eq,
}
use rust_web.Prelude.Map.{Map}
use rust_web.Prelude.Table
use rust_web.Rpc.{Value, Params, Notification}
use rust_web.Error.{ok, err}
use rust_web.Transports.Ipc.{Server, Handled, then_do, respond}
use rust_web.Transports.Ipc.Run.{
  Json, notification, response, neither, End, pending, broken, Io, notify_on, notify_params,
  notify_map, notify, stop_on, on_json, on_values, read_values, on_bytes, is_empty, Next, again,
  return, next_of, on_ended,
}
use rust_web.Transports.Ipc.Balance.{
  IsSound, Balanced, Balanced-refl, Balanced-trans, Balanced-respond,
}
use rust_web.Transports.Ipc.Served.{Step, Step-stop, Balanced-like}

-- What a notification changes is not counted.
record Same (s u : Server) : Type 0 where
  txs : u.pending_response_txs ≡ s.pending_response_txs
  answers : u.answers ≡ s.answers

Same-notify_on :
    (accepts : ℕ → Bool) (id : String) (v : Value) (o : Option ℕ) (s : Server)
    → Same s (notify_on accepts id v o s)
Same-notify_on accepts id v none s = record { txs = refl; answers = refl }
Same-notify_on accepts id v (some tx) s = elim (Bool-cases (accepts tx)) [
  | inl e ↦ rw e (record { txs = refl; answers = refl })
  | inr e ↦ rw e (record { txs = refl; answers = refl })
]

Same-notify_params :
    (accepts : ℕ → Bool) (id v : Option Value) (s : Server) → Same s (notify_params accepts id v s)
Same-notify_params accepts (some (Value.string id)) (some v) s =
    Same-notify_on accepts id v (Table.lookup id s.subscription_txs) s
Same-notify_params accepts (some (Value.string id)) none s = record { txs = refl; answers = refl }
Same-notify_params accepts _ _ s = record { txs = refl; answers = refl }

Same-notify_map :
    (accepts : ℕ → Bool) (params : Params) (s : Server) → Same s (notify_map accepts params s)
Same-notify_map accepts (Params.map m) s =
    Same-notify_params accepts (Table.lookup "subscription" m) (Table.lookup "result" m) s
Same-notify_map accepts _ s = record { txs = refl; answers = refl }

Same-notify : (accepts : ℕ → Bool) (n : Notification) (s : Server) → Same s (notify accepts n s)
unfolding notify
Same-notify accepts n s = elim (Bool-cases (str_eq n.method "eth_subscription")) [
  | inl e ↦ rw e (Same-notify_map accepts n.params s)
  | inr e ↦ rw e (record { txs = refl; answers = refl })
]

Step-stop_on : (s : Server) (r : Handled) → Balanced s r.0 [] → Step s (stop_on r) []
Step-stop_on s (t, ok u) h = record { balanced = h; clean = tt }
Step-stop_on s (t, err e) h = Step-stop e s t [] h

Step-on_json :
    (accepts : ℕ → Bool) (json : Json) (s : Server) → IsSound s → Step s (on_json accepts json s) []
unfolding on_json
Step-on_json accepts (notification n) s h =
    let q = Same-notify accepts n s in
    record {
      balanced = Balanced-like s s (notify accepts n s) [] q.txs q.answers (Balanced-refl s h);
      clean = tt;
    }
Step-on_json accepts (response r) s h = Step-stop_on s (respond r s) (Balanced-respond r s h)
Step-on_json accepts neither s h = Step-stop _ s s [] (Balanced-refl s h)

Step-then_do :
    (s : Server) (r : Handled) (f : Server → Handled)
    → Step s r []
    → ((t : Server) → IsSound t → Step t (f t) [])
    → Step s (then_do r f) []
Step-then_do s (t, ok u) f h k =
    let next = k t h.balanced.sound in
    record {
      balanced = Balanced-trans s t (f t).0 [] [] h.balanced next.balanced;
      clean = next.clean;
    }
Step-then_do s (t, err e) f h k = h

Step-on_values :
    (accepts : ℕ → Bool) (jsons : List Json) (end : End) (rest : List ℕ) (s : Server)
    → IsSound s
    → Step s (on_values accepts jsons end rest s) []
unfolding on_values
Step-on_values accepts [] pending rest s h = record {
  balanced = Balanced-like s s _ [] refl refl (Balanced-refl s h);
  clean = tt;
}
Step-on_values accepts [] (broken e) rest s h = Step-stop _ s s [] (Balanced-refl s h)
Step-on_values accepts (json ∷ jsons) end rest s h =
    Step-then_do s (on_json accepts json s) (λ t. on_values accepts jsons end rest t)
      (Step-on_json accepts json s h) (λ t k. Step-on_values accepts jsons end rest t k)

Step-from :
    (s t : Server) (r : Handled)
    → t.pending_response_txs ≡ s.pending_response_txs
    → t.answers ≡ s.answers
    → Step t r []
    → Step s r []
Step-from s t r p a h = record {
  balanced = record {
    sound = h.balanced.sound;
    counts = λ tx. rw (← p, ← a) (h.balanced.counts tx);
  };
  clean = h.clean;
}

pub Step-on_bytes :
    (io : Io) (max : ℕ) (new : List ℕ) (accepts : ℕ → Bool) (s : Server)
    → IsSound s
    → Step s (on_bytes io max new accepts s) []
unfolding on_bytes
Step-on_bytes io max new accepts s h =
    elim (Bool-cases (ltb max (length s.read_buffer + length new))) [
      | inl e ↦ rw e (Step-stop _ s s [] (Balanced-refl s h))
      | inr e ↦
          let t = record s { read_buffer = s.read_buffer ++ new } in
          let read = io.values (s.read_buffer ++ new) in
          rw e (
            Step-from s t (read_values accepts read t) refl refl
              (Step-on_values accepts read.0 read.1.0 read.1.1 t h))
    ]

-- The state that a turn of the loop leads to.
abbrev pub state_of : Next → Server
state_of (again s) = s
state_of (return s r) = s

abbrev pub Finished : Next → Type 0
Finished (again s) = Unit
Finished (return s r) = s.pending_response_txs ≡ []

pub record Turn (s : Server) (n : Next) (asked : List ℕ) : Type 0 where
  pub balanced : Balanced s (state_of n) asked
  pub finished : Finished n

pub Turn-next_of : (s : Server) (r : Handled) (xs : List ℕ) → Step s r xs → Turn s (next_of r) xs
Turn-next_of s (t, ok u) xs h = record { balanced = h.balanced; finished = tt }
Turn-next_of s (t, err e) xs h = record { balanced = h.balanced; finished = h.clean }

pub is_empty-true : (m : Map ℕ) → is_empty m ≡ true → m ≡ []
is_empty-true [] h = refl
is_empty-true (x ∷ m) h = cc

pub Turn-on_ended : (s : Server) → IsSound s → Turn s (on_ended s) []
unfolding on_ended
Turn-on_ended s h = elim (Bool-cases (is_empty s.read_buffer)) [
  | inr e ↦ rw e (Turn-next_of s _ [] (Step-stop _ s s [] (Balanced-refl s h)))
  | inl e ↦ elim (Bool-cases (is_empty s.pending_response_txs)) [
    | inl f ↦
        rw (e, f)
          (record {
            balanced = Balanced-refl s h;
            finished = is_empty-true s.pending_response_txs f;
          })
    | inr f ↦ rw (e, f) (Turn-next_of s _ [] (Step-stop _ s s [] (Balanced-refl s h)))
  ]
]
