-- ===== src/Api/EthSubscribe/Tests.antt =====
-- Subscriptions at concrete inputs.
use rust_web.Prelude.{String, List, [], ◌∷◌, ◌++◌, ◌≡◌, ◌↔◌, refl}
use rust_web.Rpc.{Value, string}
use rust_web.Error.{Error, Result, ok, err}
use rust_web.Session.{done, test_transport, TestTransport, execute, call_future, prepare, send}
use rust_web.Session.Log.{at}
use rust_web.Api.EthSubscribe.{
  DuplexTransport, SubscriptionStream, subscribe_with, subscribe_new_heads, new,
}
use rust_web.Api.EthSubscribe.Opened.{IsOpened, new_heads, open_topic_iff}

-- The test transport, with subscriptions in its log.
abbrev duplex : DuplexTransport TestTransport
duplex = record {
  transport = test_transport;
  subscribe = λ id t. (at (t.requests ++ (id, []) ∷ []) t.responses, ok 5);
  unsubscribe = λ id t. (t, ok tt);
}

abbrev text_of : Value → Result String
text_of (string s) = ok s
text_of _ = err Error.internal

abbrev heads : SubscriptionStream
heads = record { id = "0x9"; rx = 5 }

abbrev asked : List (String × List Value)
asked = ("eth_subscribe", string "newHeads" ∷ []) ∷ ("0x9", []) ∷ []

is_opened :
    subscribe_with duplex text_of (string "newHeads" ∷ []) (at [] (string "0x9" ∷ []))
    ≡ (at asked [], done heads)
unfolding subscribe_with new execute call_future test_transport prepare send
is_opened = refl

open_topic_iff_example :
    (subscribe_new_heads duplex text_of (at [] (string "0x9" ∷ [])) ≡ (at asked [], done heads))
    ↔ IsOpened duplex text_of
        (string "newHeads" ∷ [])
        (at [] (string "0x9" ∷ []))
        (at asked [])
        heads
open_topic_iff_example =
    open_topic_iff duplex text_of new_heads (at [] (string "0x9" ∷ [])) (at asked []) heads
