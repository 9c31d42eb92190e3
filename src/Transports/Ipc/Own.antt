-- ===== src/Transports/Ipc/Own.antt =====
-- Who is answered what: `respond` of src/transports/ipc.rs.
use rust_web.Prelude.{
  ℕ, ◌≡◌, refl, sym, ap, ◌∙◌, List, [], ◌∷◌, ◌++◌, append-nil, append_assoc, Option, none, some,
  All, All-append, contains, any, arith, Bool-cases, inl, inr,
}
use rust_web.Prelude.Map
use rust_web.Prelude.Map.{Map, values, get-remove}
use rust_web.Rpc.{Output}
use rust_web.Rpc
use rust_web.Error.{Error, Result, ok, err}
use rust_web.Transports.Ipc.{
  Server, Handled, output_request_id, respond_on, respond_to, respond_output, then_do, kept,
  respond_found, respond_ids, respond_each, respond_batch_with, respond_matching, respond_indexed,
  respond_single, respond, index, matching, mismatch,
}

-- An answer is an output, on the channel that waits for the output's id.
abbrev pub Own : Map ℕ → ℕ × Result Output → Type 0
Own txs (tx, err e) = ⊥
Own txs (tx, ok output) = (id : ℕ) × (output_request_id output ≡ ok id) × (Map.get id txs ≡ some tx)

-- What is answered is each one's own, and nothing new waits.
pub record Owned (s u : Server) : Type 0 where
  pub new : List (ℕ × Result Output)
  pub answers : u.answers ≡ s.answers ++ new
  pub own : All (Own s.pending_response_txs) new
  pub waited :
      (id tx : ℕ)
      → Map.get id u.pending_response_txs ≡ some tx
      → Map.get id s.pending_response_txs ≡ some tx

Owned-refl : (s : Server) → Owned s s
Owned-refl s = record {
  new = [];
  answers = sym (append-nil s.answers);
  own = tt;
  waited = λ id tx h. h;
}

Own-back :
    (s t : Server) (new : List (ℕ × Result Output))
    → ((id tx : ℕ)
        → Map.get id t.pending_response_txs ≡ some tx
        → Map.get id s.pending_response_txs ≡ some tx)
    → All (Own t.pending_response_txs) new
    → All (Own s.pending_response_txs) new
Own-back s t [] w h = tt
Own-back s t ((tx, err e) ∷ new) w h = absurd h.0
Own-back s t ((tx, ok output) ∷ new) w h =
    let (id, e, got) = h.0 in ((id, e, w id tx got), Own-back s t new w h.1)

Owned-trans : (s t u : Server) → Owned s t → Owned t u → Owned s u
Owned-trans s t u h k = record {
  new = h.new ++ k.new;
  answers =
      k.answers
      ∙ ap (λ (xs : List (ℕ × Result Output)). xs ++ k.new) h.answers
      ∙ append_assoc s.answers h.new k.new;
  own =
      All-append (Own s.pending_response_txs) h.new k.new h.own (Own-back s t k.new h.waited k.own);
  waited = λ id tx e. h.waited id tx (k.waited id tx e);
}

kept_in : (id j tx : ℕ) (m : Map ℕ) → Map.get j (Map.remove id m) ≡ some tx → Map.get j m ≡ some tx
kept_in id j tx m h = ground (arith, get-remove id j m, h)

Owned-respond_on :
    (output : Output) (id : ℕ) (o : Option ℕ) (s : Server)
    → output_request_id output ≡ ok id
    → Map.get id s.pending_response_txs ≡ o
    → Owned s (respond_on output id o s).0
Owned-respond_on output id none s q e = Owned-refl s
Owned-respond_on output id (some tx) s q e = record {
  new = (tx, ok output) ∷ [];
  answers = refl;
  own = ((id, q, e), tt);
  waited = λ j x h. kept_in id j x s.pending_response_txs h;
}

Owned-respond_to :
    (output : Output) (r : Result ℕ) (s : Server)
    → output_request_id output ≡ r
    → Owned s (respond_to output r s).0
Owned-respond_to output (err e) s q = Owned-refl s
Owned-respond_to output (ok id) s q =
    Owned-respond_on output id (Map.get id s.pending_response_txs) s q refl

Owned-respond_output : (output : Output) (s : Server) → Owned s (respond_output output s).0
unfolding respond_output
Owned-respond_output output s = Owned-respond_to output (output_request_id output) s refl

Owned-then_do :
    (s : Server) (r : Handled) (f : Server → Handled)
    → Owned s r.0
    → ((t : Server) → Owned t (f t).0)
    → Owned s (then_do r f).0
Owned-then_do s (t, ok u) f h k = Owned-trans s t (f t).0 h (k t)
Owned-then_do s (t, err e) f h k = h

Owned-respond_found :
    (rest : Server → Handled) (o : Option Output) (s : Server)
    → ((t : Server) → Owned t (rest t).0)
    → Owned s (respond_found rest o s).0
Owned-respond_found rest none s k = Owned-refl s
Owned-respond_found rest (some output) s k =
    Owned-then_do s (respond_output output s) rest (Owned-respond_output output s) k

Owned-respond_ids : (ids : List ℕ) (m : Map Output) (s : Server) → Owned s (respond_ids ids m s).0
unfolding respond_ids
Owned-respond_ids [] m s = Owned-refl s
Owned-respond_ids (id ∷ ids) m s =
    Owned-respond_found (λ t. respond_ids ids (Map.remove id m) t) (Map.get id m) s
      (λ t. Owned-respond_ids ids (Map.remove id m) t)

Owned-respond_each :
    (outputs : List Output) (error : Option Error) (s : Server)
    → Owned s (respond_each outputs error s).0
unfolding respond_each
Owned-respond_each [] none s = Owned-refl s
Owned-respond_each [] (some e) s = Owned-refl s
Owned-respond_each (output ∷ outputs) error s =
    let t = (respond_output output s).0 in
    let e = kept error (respond_output output s) in
    Owned-trans s t (respond_each outputs e t).0 (Owned-respond_output output s)
      (Owned-respond_each outputs e t)

Owned-respond_batch_with :
    (m : Map Output) (key : ℕ) (o : Option (List ℕ)) (s : Server)
    → Owned s (respond_batch_with m key o s).0
Owned-respond_batch_with m key none s = Owned-refl s
Owned-respond_batch_with m key (some ids) s = elim (Bool-cases (mismatch ids m)) [
  | inl e ↦ rw e (Owned-refl s)
  | inr e ↦
      let h =
        Owned-respond_ids ids m (record s { pending_batches = Map.remove key s.pending_batches }) in
      rw e (record { new = h.new; answers = h.answers; own = h.own; waited = h.waited })
]

Owned-respond_matching :
    (m : Map Output) (error : Option Error) (keys : List ℕ) (s : Server)
    → Owned s (respond_matching m error keys s).0
unfolding respond_matching
Owned-respond_matching m error [] s = Owned-respond_each (values m) error s
Owned-respond_matching m none (key ∷ []) s =
    Owned-respond_batch_with m key (Map.get key s.pending_batches) s
Owned-respond_matching m (some e) (key ∷ []) s = Owned-refl s
Owned-respond_matching m error (key ∷ other ∷ keys) s = Owned-refl s

Owned-respond_indexed :
    (r : Result (Map Output × Option Error)) (s : Server) → Owned s (respond_indexed r s).0
Owned-respond_indexed (err e) s = Owned-refl s
Owned-respond_indexed (ok (m, error)) s =
    Owned-respond_matching m error (matching m s.pending_batches) s

Owned-respond_single :
    (output : Output) (r : Result ℕ) (s : Server) → Owned s (respond_single output r s).0
Owned-respond_single output (err e) s = Owned-refl s
Owned-respond_single output (ok id) s =
    elim (Bool-cases (any (λ ids. contains id ids) (values s.pending_batches))) [
      | inl e ↦ rw e (Owned-refl s)
      | inr e ↦ rw e (Owned-respond_output output s)
    ]

Owned-respond : (response : Rpc.Response) (s : Server) → Owned s (respond response s).0
unfolding respond
Owned-respond (Rpc.Response.single output) s =
    Owned-respond_single output (output_request_id output) s
Owned-respond (Rpc.Response.batch []) s = Owned-refl s
Owned-respond (Rpc.Response.batch (output ∷ outputs)) s =
    Owned-respond_indexed (index (output ∷ outputs) [] none) s

-- Whatever the response, single or batch, valid or not: each answer that `respond` adds is an output,
-- and it goes to the channel that waited for the id of that output.
pub respond_lem :
    (response : Rpc.Response) (s : Server)
    → (new : List (ℕ × Result Output)) × ((respond response s).0.answers ≡ s.answers ++ new)
      × All (Own s.pending_response_txs) new
respond_lem response s = let h = Owned-respond response s in (h.new, h.answers, h.own)
