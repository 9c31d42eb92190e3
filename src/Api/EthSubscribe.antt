-- ===== src/Api/EthSubscribe.antt =====
-- src/api/eth_subscribe.rs: subscriptions, over a transport that delivers notifications.
mod Opened
mod Tests
use rust_web.Prelude.{ℕ, String, List, [], ◌∷◌, map}
use rust_web.Rpc.{Value, string}
use rust_web.Error.{Error, Result}
use rust_web.Session.{
  Except, fail, done, of_result, outcome, Session, ◌>>=◌, pure, continue, Transport, ask,
}

-- trait DuplexTransport, where a stream of notifications is the number of its channel.
pub record DuplexTransport (S : Type 0) : Type 0 where
  pub transport : Transport S
  pub subscribe : String → S → S × Result ℕ
  pub unsubscribe : String → S → S × Result (Unit {0})

-- struct SubscriptionStream, whose transport is a parameter of its operations.
pub record SubscriptionStream : Type 0 where
  pub id : String
  pub rx : ℕ

module _ {S : Type 0} (duplex : DuplexTransport S) where
  abbrev pub receive : String → Session S Error ℕ
  receive id s = outcome (duplex.subscribe id s)

  -- SubscriptionStream::new
  unfoldable pub new : String → Session S Error SubscriptionStream
  new id = do rx ← receive id; pure (record { id = id; rx = rx })

  -- What the methods of EthSubscribe have in common, with the decoder of a String.
  unfoldable pub subscribe_with :
      (Value → Result String) → List Value → Session S Error SubscriptionStream
  subscribe_with decode params = do id ← ask duplex.transport decode "eth_subscribe" params; new id

  module _ (decode : Value → Result String) where
    -- EthSubscribe::subscribe_new_heads
    abbrev pub subscribe_new_heads : Session S Error SubscriptionStream
    subscribe_new_heads = subscribe_with decode (string "newHeads" ∷ [])

    -- EthSubscribe::subscribe_logs
    abbrev pub subscribe_logs : Value → Session S Error SubscriptionStream
    subscribe_logs filter = subscribe_with decode (string "logs" ∷ filter ∷ [])

    -- EthSubscribe::subscribe_new_pending_transactions
    abbrev pub subscribe_new_pending_transactions : Session S Error SubscriptionStream
    subscribe_new_pending_transactions =
        subscribe_with decode (string "newPendingTransactions" ∷ [])

    -- EthSubscribe::subscribe_syncing
    abbrev pub subscribe_syncing : Session S Error SubscriptionStream
    subscribe_syncing = subscribe_with decode (string "syncing" ∷ [])

  -- SubscriptionStream::drop, which only logs an error
  unfoldable pub drop : SubscriptionStream → S → S
  drop stream s = (duplex.unsubscribe stream.id s).0

  abbrev dropping : {A : Type 0} → SubscriptionStream → S × Except Error A → S × Except Error A
  dropping stream (s, r) = (drop stream s, r)

  -- SubscriptionStream::unsubscribe, which drops the stream when it is done
  unfoldable pub unsubscribe :
      {A : Type 0} → (Value → Result A) → SubscriptionStream → Session S Error A
  unsubscribe decode stream s =
      dropping stream (ask duplex.transport decode "eth_unsubscribe" (string stream.id ∷ []) s)

-- SubscriptionStream::poll_next, over the notifications that its channel yields
unfoldable pub items : {I : Type 0} → (Value → Result I) → List Value → List (Except Error I)
items decode notifications = map (λ v. of_result (decode v)) notifications
