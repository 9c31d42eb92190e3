-- ===== src/Transports/Batch/Submission.antt =====
-- The life of a batch transport: requests are sent, submissions start, and each of them ends with a
-- reply or is dropped, in any order.
use rust_web.Prelude.{
  ℕ, ◌+◌, ◌≤◌, ◌≡◌, refl, ap, List, [], ◌∷◌, ◌++◌, map, contains, count, count-append,
  contains-count, count_of_contains, arith, ltb, if◌then◌else◌,
}
use rust_web.Prelude.Map
use rust_web.Prelude.Map.{Map, keys, values}
use rust_web.Prelude.Map.Count.{get-none, keys-remove, keys-insert, values-insert, values-remove}
use rust_web.Rpc.{Value, Call}
use rust_web.Error.{Result, err}
use rust_web.Transports.Batch.{
  Batch, init, send, submit, take_senders, checked, send_all, finish, cancel, cancelled, collision,
}

-- A batch with the ids of the submissions that are on their way.
pub record System : Type 0 where
  pub state : Batch
  pub in_flight : List (List ℕ)

abbrev pub start : System
start = record { state = init; in_flight = [] }

-- What may happen next. A submission that ends is any of those on their way.
pub data Step (s u : System) : Type 0 where
  sent : (id : ℕ) (call : Call) → u ≡ record s { state = (send id call s.state).0 } → Step s u
  submitted :
      u ≡ record { state = (submit s.state).0; in_flight = (submit s.state).1 ∷ s.in_flight }
      → Step s u
  finished :
      (before after : List (List ℕ)) (ids : List ℕ) (reply : Result (List (Result Value)))
      → s.in_flight ≡ before ++ ids ∷ after
      → u ≡ record { state = (finish ids reply s.state).0; in_flight = before ++ after }
      → Step s u
  dropped :
      (before after : List (List ℕ)) (ids : List ℕ)
      → s.in_flight ≡ before ++ ids ∷ after
      → u ≡ record { state = cancel ids s.state; in_flight = before ++ after }
      → Step s u

-- The systems that can come about.
pub data Reachable : System → Type 0 where
  begin : Reachable start
  step : {before after : System} → Reachable before → Step before after → Reachable after

-- The channels that were answered.
abbrev pub answered : Batch → List ℕ
answered s = map (λ a. a.0) s.answers

abbrev queued : Batch → List ℕ
queued s = map (λ r. r.0) s.batch

abbrev flatten : List (List ℕ) → List ℕ
flatten [] = []
flatten (l ∷ ls) = l ++ flatten ls

-- An id is pending at most once, and then it is queued or on its way, once; a channel that was
-- made is either pending or answered, once.
pub record IsAccounted (s : System) : Type 0 where
  pub ids :
      (id : ℕ)
      → count id (keys s.state.pending) ≡ count id (queued s.state) + count id (flatten s.in_flight)
  pub once : (id : ℕ) → count id (keys s.state.pending) ≤ 1
  pub channels :
      (tx : ℕ)
      → count tx (values s.state.pending) + count tx (answered s.state)
        ≡ (if ltb tx s.state.next then 1 else 0)

keys-take_senders :
    (n : ℕ) (ids : List ℕ) (m : Map ℕ) (j : ℕ)
    → count j (keys (take_senders n ids m).1) ≡ (if contains j ids then 0 else count j (keys m))
unfolding take_senders
keys-take_senders n [] m j = refl
keys-take_senders n (id ∷ ids) m j =
    ground (arith, keys-take_senders (n + 1) ids (Map.remove id m) j, keys-remove id j m)

-- The senders that are taken are no longer pending, and no other goes.
values-take_senders :
    (n : ℕ) (ids : List ℕ) (m : Map ℕ) (tx : ℕ) (res : Result (List (Result Value)))
    → ((id : ℕ) → count id (keys m) ≤ 1)
    → count tx (map (λ a. a.0) (send_all res (take_senders n ids m).0))
        + count tx (values (take_senders n ids m).1)
      ≡ count tx (values m)
unfolding take_senders send_all
values-take_senders n [] m tx res once = omega arith
values-take_senders n (id ∷ ids) m tx res once = ground (
  arith,
  values-take_senders (n + 1) ids (Map.remove id m) tx res
      (λ j. ground (arith, keys-remove id j m, once j)),
  values-remove id tx m (once id),
)

map-append-answers :
    (xs ys : List (ℕ × Result Value)) (tx : ℕ)
    → count tx (map (λ a. a.0) (xs ++ ys))
      ≡ count tx (map (λ a. a.0) xs) + count tx (map (λ a. a.0) ys)
map-append-answers [] ys tx = omega arith
map-append-answers (x ∷ xs) ys tx = omega (arith, map-append-answers xs ys tx)

map-append-queue :
    (xs ys : List (ℕ × Call)) (id : ℕ)
    → count id (map (λ a. a.0) (xs ++ ys))
      ≡ count id (map (λ a. a.0) xs) + count id (map (λ a. a.0) ys)
map-append-queue [] ys id = omega arith
map-append-queue (x ∷ xs) ys id = omega (arith, map-append-queue xs ys id)

count-flatten :
    (xs ys : List (List ℕ)) (l : List ℕ) (id : ℕ)
    → count id (flatten (xs ++ l ∷ ys)) ≡ count id l + count id (flatten (xs ++ ys))
count-flatten [] ys l id = count-append id l (flatten ys)
count-flatten (x ∷ xs) ys l id = omega (
  arith,
  count-append id x (flatten (xs ++ l ∷ ys)),
  count-append id x (flatten (xs ++ ys)),
  count-flatten xs ys l id,
)

IsAccounted-sent :
    (s : System) (id : ℕ) (call : Call)
    → IsAccounted s
    → IsAccounted (record s { state = (send id call s.state).0 })
unfolding send
IsAccounted-sent s id call h =
    let b = s.state in
    record {
      ids = λ j. ground (
        arith,
        h.ids j,
        keys-insert id j b.next b.pending,
        map-append-queue b.batch ((id, call) ∷ []) j,
      );
      once =
          λ j. ground (arith, h.once j, keys-insert id j b.next b.pending, get-none id b.pending);
      channels = λ tx. ground (
        arith,
        h.channels tx,
        values-insert id tx b.next b.pending,
        map-append-answers b.answers ((b.next, err (collision id)) ∷ []) tx,
      );
    }

IsAccounted-submitted :
    (s : System)
    → IsAccounted s
    → IsAccounted
        (record { state = (submit s.state).0; in_flight = (submit s.state).1 ∷ s.in_flight })
unfolding submit
IsAccounted-submitted s h = record {
  ids = λ j. omega (arith, h.ids j, count-append j (queued s.state) (flatten s.in_flight));
  once = h.once;
  channels = h.channels;
}

-- Taking the senders of one submission, whatever they are sent.
module _ (s : System) (before after : List (List ℕ)) (ids : List ℕ)
    (res : Result (List (Result Value))) (e : s.in_flight ≡ before ++ ids ∷ after)
    (h : IsAccounted s) where
  abbrev taken : Batch
  taken = record (s.state) {
    pending = (take_senders 0 ids s.state.pending).1;
    answers = s.state.answers ++ send_all res (take_senders 0 ids s.state.pending).0;
  }

  IsAccounted-taken : IsAccounted (record { state = taken; in_flight = before ++ after })
  IsAccounted-taken = record {
    ids = λ j. ground (
      arith,
      h.ids j,
      h.once j,
      keys-take_senders 0 ids s.state.pending j,
      ap (λ l. count j (flatten l)) e,
      count-flatten before after ids j,
      contains-count j ids,
      count_of_contains j ids,
    );
    once = λ j. ground (arith, h.once j, keys-take_senders 0 ids s.state.pending j);
    channels = λ tx. omega (
      arith,
      h.channels tx,
      values-take_senders 0 ids s.state.pending tx res h.once,
      map-append-answers s.state.answers (send_all res (take_senders 0 ids s.state.pending).0) tx,
    );
  }

Step-IsAccounted : (s u : System) → Step s u → IsAccounted s → IsAccounted u
Step-IsAccounted s u (sent id call e) h = rw e (IsAccounted-sent s id call h)
Step-IsAccounted s u (submitted e) h = rw e (IsAccounted-submitted s h)
Step-IsAccounted s u (finished before after ids reply q e) h =
    rw e (unfold finish in IsAccounted-taken s before after ids (checked ids reply) q h)
Step-IsAccounted s u (dropped before after ids q e) h =
    rw e (unfold cancel in IsAccounted-taken s before after ids (err cancelled) q h)

IsAccounted-start : IsAccounted start
unfolding keys values
IsAccounted-start = record {
  ids = λ j. refl;
  once = λ j. omega arith;
  channels = λ tx. ground arith;
}

Reachable-IsAccounted : {s : System} → Reachable s → IsAccounted s
Reachable-IsAccounted begin = IsAccounted-start
Reachable-IsAccounted (step {before = t} {after = u} r st) =
    Step-IsAccounted t u st (Reachable-IsAccounted r)

no_keys : (m : Map ℕ) → ((id : ℕ) → count id (keys m) ≡ 0) → m ≡ []
unfolding keys
no_keys [] h = refl
no_keys ((id, tx) ∷ m) h = absurd (ground (arith, h id))

-- However requests, submissions, replies and dropped submissions follow one another: a channel that
-- was never made is not answered, one that was made is answered at most once, and it is not answered
-- only while exactly one request is pending on it.
pub answered_at_most_once :
    (s : System)
    → Reachable s
    → (tx : ℕ)
    → (count tx (answered s.state) ≤ 1)
      × (count tx (values s.state.pending) + count tx (answered s.state)
          ≡ (if ltb tx s.state.next then 1 else 0))
answered_at_most_once s r tx =
    let h = (Reachable-IsAccounted r).channels tx in (ground (arith, h), h)

-- Once the queue is empty and no submission is on its way, no request is pending, and exactly the
-- channels that were made have been answered, each of them once.
pub answered_once :
    (s : System)
    → Reachable s
    → s.state.batch ≡ []
    → s.in_flight ≡ []
    → (s.state.pending ≡ [])
      × ((tx : ℕ) → count tx (answered s.state) ≡ (if ltb tx s.state.next then 1 else 0))
answered_once s r q f =
    let h = Reachable-IsAccounted r in
    let p = no_keys s.state.pending (λ id. omega (
      arith,
      h.ids id,
      ap (λ l. count id (map (λ a. a.0) l)) q,
      ap (λ l. count id (flatten l)) f,
    )) in
    (p, λ tx. unfold values in omega (arith, h.channels tx, ap (λ m. count tx (values m)) p))
