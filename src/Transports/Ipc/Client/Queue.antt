-- ===== src/Transports/Ipc/Client/Queue.antt =====
-- The queue of src/transports/ipc.rs: every request that clients put into it has a channel of its own.
use rust_web.Prelude.{
  ℕ, suc, ◌≤◌, ◌<◌, List, [], ◌∷◌, ◌++◌, append-nil, append_assoc, none, some, count, arith, ◌≡◌,
  refl,
}
use rust_web.Rpc.{Call}
use rust_web.Transports.Ipc.Served.{txs_of}
use rust_web.Transports.Ipc.Client.{
  Ipc, TransportMessage, subscribe, unsubscribe, single, batch, with_channels, next_channel,
  prepare, send, send_batch, subscribe_to, unsubscribe_from, Step, prepares, sends, sends_batch,
  subscribes, unsubscribes, step, steps,
}

-- Numbers that go up, from the first bound on and below the second one.
abbrev pub Ascends : ℕ → List ℕ → ℕ → Type 0
Ascends lo [] hi = lo ≤ hi
Ascends lo (x ∷ xs) hi = (lo ≤ x) × Ascends (suc x) xs hi

Ascends-le : (a b hi : ℕ) (xs : List ℕ) → a ≤ b → Ascends b xs hi → Ascends a xs hi
Ascends-le a b hi [] le h = omega arith
Ascends-le a b hi (x ∷ xs) le h = (omega (arith, h.0), h.1)

Ascends-append :
    (lo mid hi : ℕ) (xs ys : List ℕ)
    → Ascends lo xs mid
    → Ascends mid ys hi
    → Ascends lo (xs ++ ys) hi
Ascends-append lo mid hi [] ys h k = Ascends-le lo mid hi ys h k
Ascends-append lo mid hi (x ∷ xs) ys h k = (h.0, Ascends-append (suc x) mid hi xs ys h.1 k)

count-below : (lo hi n : ℕ) (xs : List ℕ) → Ascends lo xs hi → n < lo → count n xs ≡ 0
count-below lo hi n [] h lt = refl
count-below lo hi n (x ∷ xs) h lt = ground (arith, h.0, count-below (suc x) hi n xs h.1)

-- No number occurs twice.
pub Ascends-once : (lo hi n : ℕ) (xs : List ℕ) → Ascends lo xs hi → count n xs ≤ 1
Ascends-once lo hi n [] h = omega arith
Ascends-once lo hi n (x ∷ xs) h =
    ground (arith, Ascends-once (suc x) hi n xs h.1, count-below (suc x) hi n xs h.1)

-- The channels of the requests in a message and in a queue.
abbrev pub txs_in : TransportMessage → List ℕ
txs_in (single r) = r.tx ∷ []
txs_in (batch rs) = txs_of rs
txs_in (subscribe id tx) = []
txs_in (unsubscribe id) = []

abbrev pub queued : List TransportMessage → List ℕ
queued [] = []
queued (m ∷ ms) = txs_in m ++ queued ms

pub queued-append : (ms ns : List TransportMessage) → queued (ms ++ ns) ≡ queued ms ++ queued ns
queued-append [] ns = refl
queued-append (m ∷ ms) ns =
    rw (queued-append ms ns, append_assoc (txs_in m) (queued ms) (queued ns)) refl

-- The channels of the requests in the queue go up, below the number of channels made.
abbrev pub IsClient : Ipc → Type 0
IsClient ipc = Ascends 0 (queued ipc.messages) ipc.channels

Ascends-with_channels :
    (rs : List (ℕ × Call)) (tx : ℕ) → Ascends tx (txs_of (with_channels rs tx)) (next_channel rs tx)
unfolding with_channels
Ascends-with_channels [] tx = omega arith
Ascends-with_channels ((id, call) ∷ rs) tx = (omega arith, Ascends-with_channels rs (suc tx))

-- A message with new channels keeps the queue so.
IsClient-push :
    (ms : List TransportMessage) (m : TransportMessage) (channels after : ℕ)
    → Ascends 0 (queued ms) channels
    → Ascends channels (txs_in m) after
    → Ascends 0 (queued (ms ++ m ∷ [])) after
IsClient-push ms m channels after h k =
    rw (queued-append ms (m ∷ []), append-nil (txs_in m))
      (Ascends-append 0 channels after (queued ms) (txs_in m) h k)

Ascends-more : (lo a b : ℕ) (xs : List ℕ) → Ascends lo xs a → a ≤ b → Ascends lo xs b
Ascends-more lo a b [] h le = omega arith
Ascends-more lo a b (x ∷ xs) h le = (h.0, Ascends-more (suc x) a b xs h.1 le)

next_channel-le : (rs : List (ℕ × Call)) (tx : ℕ) → tx ≤ next_channel rs tx
next_channel-le [] tx = omega arith
next_channel-le (r ∷ rs) tx = omega (arith, next_channel-le rs (suc tx))

-- Every step of a client, whatever the queue refuses, leaves the channels in the queue going up.
pub IsClient-step : (s : Step) (ipc : Ipc) → IsClient ipc → IsClient (step s ipc)
unfolding step prepare send send_batch subscribe_to unsubscribe_from
IsClient-step (prepares method params) ipc h = h
IsClient-step (sends none id call) ipc h =
    IsClient-push ipc.messages _ ipc.channels (suc ipc.channels) h (omega arith, omega arith)
IsClient-step (sends (some r) id call) ipc h =
    Ascends-more 0 ipc.channels (suc ipc.channels) (queued ipc.messages) h (omega arith)
IsClient-step (sends_batch none rs) ipc h =
    IsClient-push ipc.messages _ ipc.channels (next_channel rs ipc.channels) h
      (Ascends-with_channels rs ipc.channels)
IsClient-step (sends_batch (some r) rs) ipc h =
    Ascends-more 0 ipc.channels (next_channel rs ipc.channels) (queued ipc.messages) h
      (next_channel-le rs ipc.channels)
IsClient-step (subscribes none id) ipc h =
    IsClient-push ipc.messages _ ipc.channels (suc ipc.channels) h (omega arith)
IsClient-step (subscribes (some r) id) ipc h =
    Ascends-more 0 ipc.channels (suc ipc.channels) (queued ipc.messages) h (omega arith)
IsClient-step (unsubscribes none id) ipc h =
    IsClient-push ipc.messages _ ipc.channels ipc.channels h (omega arith)
IsClient-step (unsubscribes (some r) id) ipc h = h

pub IsClient-steps : (rest : List Step) (ipc : Ipc) → IsClient ipc → IsClient (steps rest ipc)
unfolding steps
IsClient-steps [] ipc h = h
IsClient-steps (s ∷ rest) ipc h = IsClient-steps rest (step s ipc) (IsClient-step s ipc h)
