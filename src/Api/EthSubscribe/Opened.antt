-- ===== src/Api/EthSubscribe/Opened.antt =====
-- src/api/eth_subscribe.rs: when a subscription is opened, and what it has registered.
use rust_web.Prelude.{String, List, [], ◌∷◌, ◌≡◌, ◌↔◌, refl, ap, ◌∙◌}
use mathlib.Core.Path.{subst}
use rust_web.Rpc.{Value, string}
use rust_web.Error.{Error, Result, ok}
use rust_web.Session.{Session, done, ask}
use rust_web.Session.Ended.{continue-done, done-injective, of_result-done, both}
use rust_web.Api.EthSubscribe.{
  DuplexTransport, SubscriptionStream, receive, new, subscribe_with, subscribe_new_heads,
  subscribe_logs, subscribe_new_pending_transactions, subscribe_syncing,
}

-- What one can subscribe to.
pub data Topic : Type 0 where
  new_heads : Topic
  logs : Value → Topic
  new_pending_transactions : Topic
  syncing : Topic

-- The parameters of eth_subscribe in the node's documentation.
abbrev pub documented : Topic → List Value
documented new_heads = string "newHeads" ∷ []
documented (logs filter) = string "logs" ∷ filter ∷ []
documented new_pending_transactions = string "newPendingTransactions" ∷ []
documented syncing = string "syncing" ∷ []

module _ {S : Type 0} (duplex : DuplexTransport S) (decode : Value → Result String) where
  -- The method of EthSubscribe for a topic.
  abbrev pub open_topic : Topic → Session S Error SubscriptionStream
  open_topic new_heads = subscribe_new_heads duplex decode
  open_topic (logs filter) = subscribe_logs duplex decode filter
  open_topic new_pending_transactions = subscribe_new_pending_transactions duplex decode
  open_topic syncing = subscribe_syncing duplex decode

  -- The node gave the stream's id for the parameters, and the transport gave the stream's channel for
  -- this id.
  abbrev pub IsOpened : List Value → S → S → SubscriptionStream → Type 0
  IsOpened params s after stream =
      (mid : S) × (ask duplex.transport decode "eth_subscribe" params s ≡ (mid, done stream.id))
      × (duplex.subscribe stream.id mid ≡ (after, ok stream.rx))

  subscribe_with-IsOpened :
      (params : List Value) (s after : S) (stream : SubscriptionStream)
      → subscribe_with duplex decode params s ≡ (after, done stream)
      → IsOpened params s after stream
  unfolding subscribe_with new
  subscribe_with-IsOpened params s after stream h =
      let asked = ask duplex.transport decode "eth_subscribe" params in
      let (id, a, h1) = continue-done (asked s) (new duplex) h in
      let (rx, r, h2) =
        continue-done (receive duplex id (asked s).0)
          (λ rx t. (t, done (record { id = id; rx = rx }))) h1 in
      let same = done-injective (ap (λ p. p.1) h2) in
      let own = ap (λ (x : SubscriptionStream). x.id) same in
      let listens =
        of_result-done (duplex.subscribe id (asked s).0).1 r
        ∙ ap (λ (x : SubscriptionStream). ok x.rx) same in
      (
        (asked s).0,
        both (asked s) refl (a ∙ ap (λ i. done i) own),
        subst (λ i. duplex.subscribe i (asked s).0 ≡ (after, ok stream.rx)) own
            (both (duplex.subscribe id (asked s).0) (ap (λ p. p.0) h2) listens),
      )

  IsOpened-subscribe_with :
      (params : List Value) (s after : S) (stream : SubscriptionStream)
      → IsOpened params s after stream
      → subscribe_with duplex decode params s ≡ (after, done stream)
  unfolding subscribe_with new
  IsOpened-subscribe_with params s after stream (mid, asked, listens) = rw (asked, listens) refl

  IsOpened-iff :
      (params : List Value) (s after : S) (stream : SubscriptionStream)
      → (subscribe_with duplex decode params s ≡ (after, done stream))
        ↔ IsOpened params s after stream
  IsOpened-iff params s after stream =
      (subscribe_with-IsOpened params s after stream, IsOpened-subscribe_with params s after stream)

  -- A subscription, to any topic, ends with a stream exactly if the node answers eth_subscribe, with
  -- the documented parameters of the topic, with the id that the stream has, and the transport, as it is
  -- then, registers this id and gives the channel that the stream listens to.
  pub open_topic_iff :
      (topic : Topic) (s after : S) (stream : SubscriptionStream)
      → (open_topic topic s ≡ (after, done stream)) ↔ IsOpened (documented topic) s after stream
  open_topic_iff new_heads = IsOpened-iff (string "newHeads" ∷ [])
  open_topic_iff (logs filter) = IsOpened-iff (string "logs" ∷ filter ∷ [])
  open_topic_iff new_pending_transactions = IsOpened-iff (string "newPendingTransactions" ∷ [])
  open_topic_iff syncing = IsOpened-iff (string "syncing" ∷ [])
