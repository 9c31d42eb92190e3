-- ===== src/Transports/Ipc/Balance.antt =====
-- Counting what waits and what was answered in the task of src/transports/ipc.rs: the responses.
use rust_web.Prelude.{
  ℕ, ◌+◌, ◌≤◌, ◌≡◌, refl, List, [], ◌∷◌, ◌++◌, Option, none, some, firsts, count-firsts, count,
  count-append, contains, any, arith, ◌==◌, if◌then◌else◌, Bool-cases, inl, inr,
}
use rust_web.Prelude.Map
use rust_web.Prelude.Map.{Map, keys, is_some, values}
use rust_web.Prelude.Map.Count.{keys-remove, total, total-remove}
use rust_web.Rpc.{Output}
use rust_web.Rpc
use rust_web.Error.{Error, Result, ok, err, clone}
use rust_web.Transports.Ipc.{
  Server, Handled, failures, fail_all_pending, send_to, fail_pending_ids, output_request_id,
  respond_on, respond_to, respond_output, then_do, kept, respond_found, respond_ids, respond_each,
  respond_batch_with, respond_matching, respond_indexed, respond_single, respond, index, matching,
  mismatch,
}

-- How often a channel waits, and how often it was answered.
abbrev pub waiting_times : ℕ → Map ℕ → ℕ
waiting_times tx = total (λ p. if tx == p then 1 else 0)

abbrev pub answered_times : ℕ → Server → ℕ
answered_times tx s = count tx (firsts s.answers)

-- No id waits twice.
abbrev pub IsSound : Server → Type 0
IsSound s = (id : ℕ) → count id (keys s.pending_response_txs) ≤ 1

-- No id waits twice after a step either; what a channel was answered and what it waits for are
-- together as much as before, and `asked` more.
pub record Balanced (s u : Server) (asked : List ℕ) : Type 0 where
  pub sound : IsSound u
  pub counts :
      (tx : ℕ)
      → answered_times tx u + waiting_times tx u.pending_response_txs
        ≡ answered_times tx s + waiting_times tx s.pending_response_txs + count tx asked

pub Balanced-refl : (s : Server) → IsSound s → Balanced s s []
Balanced-refl s h = record { sound = h; counts = λ tx. omega arith }

pub Balanced-trans :
    (s t u : Server) (xs ys : List ℕ) → Balanced s t xs → Balanced t u ys → Balanced s u (xs ++ ys)
Balanced-trans s t u xs ys h k = record {
  sound = k.sound;
  counts = λ tx. omega (arith, h.counts tx, k.counts tx, count-append tx xs ys);
}

pub Balanced-send_to :
    (id : ℕ) (r : Result Output) (o : Option ℕ) (s : Server)
    → IsSound s
    → Map.get id s.pending_response_txs ≡ o
    → Balanced s (send_to id r o s) []
Balanced-send_to id r none s h e = Balanced-refl s h
Balanced-send_to id r (some tx) s h e = record {
  sound = λ j. ground (arith, keys-remove id j s.pending_response_txs, h j);
  counts = λ x.
      let removed =
        rw e at (total-remove (λ p. if x == p then 1 else 0) id s.pending_response_txs (h id)) in
      omega (arith, count-firsts x s.answers ((tx, r) ∷ []), removed);
}

count-failures :
    (e : Error) (m : Map ℕ) (tx : ℕ) → count tx (firsts (failures e m)) ≡ waiting_times tx m
unfolding total
count-failures e [] tx = refl
count-failures e ((id, x) ∷ m) tx = omega (arith, count-failures e m tx)

pub Balanced-fail_all : (e : Error) (s : Server) → Balanced s (fail_all_pending e s) []
unfolding fail_all_pending total keys
Balanced-fail_all e s = record {
  sound = λ id. omega arith;
  counts = λ tx. omega (
    arith,
    count-firsts tx s.answers (failures e s.pending_response_txs),
    count-failures e s.pending_response_txs tx,
  );
}

pub Balanced-fail_ids :
    (ids : List ℕ) (e : Error) (s : Server) → IsSound s → Balanced s (fail_pending_ids ids e s) []
unfolding fail_pending_ids
Balanced-fail_ids [] e s h = Balanced-refl s h
Balanced-fail_ids (id ∷ ids) e s h =
    let t = send_to id (err (clone e)) (Map.get id s.pending_response_txs) s in
    let first = Balanced-send_to id (err (clone e)) (Map.get id s.pending_response_txs) s h refl in
    Balanced-trans s t (fail_pending_ids ids e t) [] [] first
      (Balanced-fail_ids ids e t first.sound)

Balanced-respond_on :
    (output : Output) (id : ℕ) (o : Option ℕ) (s : Server)
    → IsSound s
    → Map.get id s.pending_response_txs ≡ o
    → Balanced s (respond_on output id o s).0 []
Balanced-respond_on output id none s h e = Balanced-refl s h
Balanced-respond_on output id (some tx) s h e = Balanced-send_to id (ok output) (some tx) s h e

Balanced-respond_to :
    (output : Output) (r : Result ℕ) (s : Server)
    → IsSound s
    → Balanced s (respond_to output r s).0 []
Balanced-respond_to output (err e) s h = Balanced-refl s h
Balanced-respond_to output (ok id) s h =
    Balanced-respond_on output id (Map.get id s.pending_response_txs) s h refl

Balanced-respond_output :
    (output : Output) (s : Server) → IsSound s → Balanced s (respond_output output s).0 []
unfolding respond_output
Balanced-respond_output output s h = Balanced-respond_to output (output_request_id output) s h

-- A step, and what is done if it ended well.
pub Balanced-then_do :
    (s : Server) (r : Handled) (f : Server → Handled)
    → Balanced s r.0 []
    → ((t : Server) → IsSound t → Balanced t (f t).0 [])
    → Balanced s (then_do r f).0 []
Balanced-then_do s (t, ok u) f h k = Balanced-trans s t (f t).0 [] [] h (k t h.sound)
Balanced-then_do s (t, err e) f h k = h

Balanced-respond_found :
    (rest : Server → Handled) (o : Option Output) (s : Server)
    → IsSound s
    → ((t : Server) → IsSound t → Balanced t (rest t).0 [])
    → Balanced s (respond_found rest o s).0 []
Balanced-respond_found rest none s h k = Balanced-refl s h
Balanced-respond_found rest (some output) s h k =
    Balanced-then_do s (respond_output output s) rest (Balanced-respond_output output s h) k

Balanced-respond_ids :
    (ids : List ℕ) (m : Map Output) (s : Server) → IsSound s → Balanced s (respond_ids ids m s).0 []
unfolding respond_ids
Balanced-respond_ids [] m s h = Balanced-refl s h
Balanced-respond_ids (id ∷ ids) m s h =
    Balanced-respond_found (λ t. respond_ids ids (Map.remove id m) t) (Map.get id m) s h
      (λ t k. Balanced-respond_ids ids (Map.remove id m) t k)

Balanced-respond_each :
    (outputs : List Output) (error : Option Error) (s : Server)
    → IsSound s
    → Balanced s (respond_each outputs error s).0 []
unfolding respond_each
Balanced-respond_each [] none s h = Balanced-refl s h
Balanced-respond_each [] (some e) s h = Balanced-refl s h
Balanced-respond_each (output ∷ outputs) error s h =
    let first = Balanced-respond_output output s h in
    let e = kept error (respond_output output s) in
    Balanced-trans s (respond_output output s).0
      (respond_each outputs e (respond_output output s).0).0 [] [] first
      (Balanced-respond_each outputs e (respond_output output s).0 first.sound)

Balanced-respond_batch_with :
    (m : Map Output) (key : ℕ) (o : Option (List ℕ)) (s : Server)
    → IsSound s
    → Balanced s (respond_batch_with m key o s).0 []
Balanced-respond_batch_with m key none s h = Balanced-refl s h
Balanced-respond_batch_with m key (some ids) s h = elim (Bool-cases (mismatch ids m)) [
  | inl e ↦ rw e (Balanced-refl s h)
  | inr e ↦ rw e (
      let b =
        Balanced-respond_ids ids m (record s { pending_batches = Map.remove key s.pending_batches })
          h in
      record { sound = b.sound; counts = b.counts })
]

Balanced-respond_matching :
    (m : Map Output) (error : Option Error) (keys : List ℕ) (s : Server)
    → IsSound s
    → Balanced s (respond_matching m error keys s).0 []
unfolding respond_matching
Balanced-respond_matching m error [] s h = Balanced-respond_each (values m) error s h
Balanced-respond_matching m none (key ∷ []) s h =
    Balanced-respond_batch_with m key (Map.get key s.pending_batches) s h
Balanced-respond_matching m (some e) (key ∷ []) s h = Balanced-refl s h
Balanced-respond_matching m error (key ∷ other ∷ keys) s h = Balanced-refl s h

Balanced-respond_indexed :
    (r : Result (Map Output × Option Error)) (s : Server)
    → IsSound s
    → Balanced s (respond_indexed r s).0 []
Balanced-respond_indexed (err e) s h = Balanced-refl s h
Balanced-respond_indexed (ok (m, error)) s h =
    Balanced-respond_matching m error (matching m s.pending_batches) s h

Balanced-respond_single :
    (output : Output) (r : Result ℕ) (s : Server)
    → IsSound s
    → Balanced s (respond_single output r s).0 []
Balanced-respond_single output (err e) s h = Balanced-refl s h
Balanced-respond_single output (ok id) s h =
    elim (Bool-cases (any (λ ids. contains id ids) (values s.pending_batches))) [
      | inl e ↦ rw e (Balanced-refl s h)
      | inr e ↦ rw e (Balanced-respond_output output s h)
    ]

-- A response, valid or not, single or batch, neither answers a channel that does not wait nor takes a
-- waiting one away unanswered, and no id waits twice after it.
pub Balanced-respond :
    (response : Rpc.Response) (s : Server) → IsSound s → Balanced s (respond response s).0 []
unfolding respond
Balanced-respond (Rpc.Response.single output) s h =
    Balanced-respond_single output (output_request_id output) s h
Balanced-respond (Rpc.Response.batch []) s h = Balanced-refl s h
Balanced-respond (Rpc.Response.batch (output ∷ outputs)) s h =
    Balanced-respond_indexed (index (output ∷ outputs) [] none) s h
