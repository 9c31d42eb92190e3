-- ===== src/Transports/Ipc/Served.antt =====
-- Requests that the task of src/transports/ipc.rs takes: the balance of requests and answers.
use rust_web.Prelude.{
  ℕ, ◌≡◌, refl, List, [], ◌∷◌, append-nil, Option, none, some, count-firsts, String, false, arith,
  ◌==◌, if◌then◌else◌, Bool-cases, Option-cases, inl, inr,
}
use rust_web.Prelude.Map
use rust_web.Prelude.Map.{Map, keys, is_some}
use rust_web.Prelude.Map.Count.{get-none, keys-insert, total-insert}
use rust_web.Rpc.{Output, Call, Request}
use rust_web.Error.{Error, Result, ok, err}
use rust_web.Transports.Ipc.{Server, Handled, answer, fail_all_pending, send_to, fail_pending_ids}
use rust_web.Transports.Ipc.Run.{
  TransportRequest, Io, stop, collision, insert_tx, written_to, send_single, on_single, enter,
  record_batch, send_calls, send_entered, on_batch,
}
use rust_web.Transports.Ipc.Balance.{
  IsSound, Balanced, Balanced-refl, Balanced-trans, Balanced-send_to, Balanced-fail_all,
  Balanced-fail_ids,
}

-- A step that either goes on or has left nothing waiting.
abbrev pub Clean : Handled → Type 0
Clean (s, ok u) = Unit
Clean (s, err e) = s.pending_response_txs ≡ []

pub record Step (s : Server) (r : Handled) (asked : List ℕ) : Type 0 where
  pub balanced : Balanced s r.0 asked
  pub clean : Clean r

pub Step-stop : (e : Error) (s t : Server) (xs : List ℕ) → Balanced s t xs → Step s (stop e t) xs
unfolding stop fail_all_pending
Step-stop e s t xs h = record {
  balanced =
      rw (← append-nil xs)
        (Balanced-trans s t (fail_all_pending e t) xs [] h (Balanced-fail_all e t));
  clean = refl;
}

-- A state in which nothing that is counted has changed.
pub Balanced-like :
    (s t u : Server) (xs : List ℕ)
    → u.pending_response_txs ≡ t.pending_response_txs
    → u.answers ≡ t.answers
    → Balanced s t xs
    → Balanced s u xs
Balanced-like s t u xs p a h = record {
  sound = rw p h.sound;
  counts = λ tx. rw (p, a) (h.counts tx);
}

Balanced-answer :
    (s : Server) (tx : ℕ) (r : Result Output) → IsSound s → Balanced s (answer tx r s) (tx ∷ [])
Balanced-answer s tx r h = record {
  sound = h;
  counts = λ x. omega (arith, count-firsts x s.answers ((tx, r) ∷ []));
}

Balanced-insert :
    (id tx : ℕ) (s : Server)
    → IsSound s
    → is_some (Map.get id s.pending_response_txs) ≡ false
    → Balanced s (insert_tx id tx s) (tx ∷ [])
Balanced-insert id tx s h e = elim (Option-cases (Map.get id s.pending_response_txs)) [
  | inr (x, q) ↦ absurd (let r = rw q at e in cc)
  | inl absent ↦ record {
    sound = λ j. ground (
      arith,
      h j,
      keys-insert id j tx s.pending_response_txs absent,
      get-none id s.pending_response_txs absent,
    );
    counts = λ x.
        omega
          (arith, total-insert (λ p. if x == p then 1 else 0) id tx s.pending_response_txs absent);
  }
]

Step-written :
    (written : Option Error) (body : String) (s t : Server) (xs : List ℕ)
    → Balanced s t xs
    → Step s (written_to written body t) xs
Step-written none body s t xs h = record {
  balanced = Balanced-like s t _ xs refl refl h;
  clean = tt;
}
Step-written (some e) body s t xs h = Step-stop e s t xs h

Step-send_single :
    (id : ℕ) (written : Option Error) (r : Result String) (s t : Server) (xs : List ℕ)
    → Balanced s t xs
    → Step s (send_single id written r t) xs
Step-send_single id written (ok body) s t xs h = Step-written written body s t xs h
Step-send_single id written (err e) s t xs h = record {
  balanced = rw (← append-nil xs) (
      Balanced-trans s t (send_to id (err e) (Map.get id t.pending_response_txs) t) xs [] h
        (Balanced-send_to id (err e) (Map.get id t.pending_response_txs) t h.sound refl));
  clean = tt;
}

pub Step-on_single :
    (io : Io) (request : TransportRequest) (written : Option Error) (s : Server)
    → IsSound s
    → Step s (on_single io request written s) (request.tx ∷ [])
unfolding on_single
Step-on_single io request written s h =
    elim (Bool-cases (is_some (Map.get request.id s.pending_response_txs))) [
      | inl e ↦ rw e (record {
        balanced = Balanced-answer s request.tx (err (collision request.id)) h;
        clean = tt;
      })
      | inr e ↦ rw e (
          Step-send_single request.id written (io.to_string (Request.single request.call)) s
            (insert_tx request.id request.tx s) (request.tx ∷ [])
            (Balanced-insert request.id request.tx s h e))
    ]

abbrev pub txs_of : List TransportRequest → List ℕ
txs_of [] = []
txs_of (r ∷ rs) = r.tx ∷ txs_of rs

Balanced-enter :
    (rs : List TransportRequest) (s : Server) → IsSound s → Balanced s (enter rs s).0 (txs_of rs)
unfolding enter
Balanced-enter [] s h = Balanced-refl s h
Balanced-enter (r ∷ rs) s h = elim (Bool-cases (is_some (Map.get r.id s.pending_response_txs))) [
  | inl e ↦
      let first = Balanced-answer s r.tx (err (collision r.id)) h in
      let t = answer r.tx (err (collision r.id)) s in
      rw e (
        Balanced-trans s t (enter rs t).0 (r.tx ∷ []) (txs_of rs) first
          (Balanced-enter rs t first.sound))
  | inr e ↦
      let first = Balanced-insert r.id r.tx s h e in
      let t = insert_tx r.id r.tx s in
      rw e (
        Balanced-trans s t (enter rs t).0 (r.tx ∷ []) (txs_of rs) first
          (Balanced-enter rs t first.sound))
]

Step-record :
    (ids : List ℕ) (s : Server) (r : Handled) (xs : List ℕ)
    → Step s r xs
    → Step s (record_batch ids r) xs
Step-record [] s (t, ok u) xs h = h
Step-record [] s (t, err e) xs h = h
Step-record (id ∷ ids) s (t, ok u) xs h = record {
  balanced = Balanced-like s t _ xs refl refl h.balanced;
  clean = tt;
}
Step-record (id ∷ ids) s (t, err e) xs h = h

Step-send_calls :
    (ids : List ℕ) (written : Option Error) (r : Result String) (s t : Server) (xs : List ℕ)
    → Balanced s t xs
    → Step s (send_calls ids written r t) xs
Step-send_calls ids written (ok body) s t xs h =
    Step-record ids s (written_to written body t) xs (Step-written written body s t xs h)
Step-send_calls ids written (err e) s t xs h = record {
  balanced =
      rw (← append-nil xs)
        (Balanced-trans s t (fail_pending_ids ids e t) xs [] h (Balanced-fail_ids ids e t h.sound));
  clean = tt;
}

Step-send_entered :
    (io : Io) (written : Option Error) (ids : List ℕ) (calls : List Call) (s t : Server)
    (xs : List ℕ)
    → Balanced s t xs
    → Step s (send_entered io written ids calls t) xs
Step-send_entered io written ids [] s t xs h = record { balanced = h; clean = tt }
Step-send_entered io written ids (call ∷ calls) s t xs h =
    Step-send_calls ids written (io.to_string (Request.batch (call ∷ calls))) s t xs h

pub Step-on_batch :
    (io : Io) (rs : List TransportRequest) (written : Option Error) (s : Server)
    → IsSound s
    → Step s (on_batch io rs written s) (txs_of rs)
unfolding on_batch
Step-on_batch io rs written s h =
    Step-send_entered io written (enter rs s).1.0 (enter rs s).1.1 s (enter rs s).0 (txs_of rs)
      (Balanced-enter rs s h)
