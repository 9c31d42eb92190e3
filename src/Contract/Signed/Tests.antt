-- ===== src/Contract/Signed/Tests.antt =====
-- Signed transactions of a contract at concrete inputs.
use rust_web.Prelude.{ℕ, List, [], ◌∷◌, none, some, ◌≡◌, refl}
use rust_web.Accounts.Fill.{TransactionParameters, sign_transaction}
use rust_web.Accounts.Tests.{crypto}
use rust_web.Rpc.{number}
use rust_web.Session.{TestTransport, test_transport, done}
use rust_web.Session.Log.{at}
use rust_web.Types.Block.Tests.{formats}
use rust_web.Types.Request.Tests.{wire}
use rust_web.Contract.Call.Tests.{contract, answers}
use rust_web.Contract.Call.{Options, no_options, encoded}
use rust_web.Contract.Signed.{of_call, to_call, signed_call_parameters, signed_call}
use rust_web.Contract.Signed.Agree.{IsSent, signed_call_sound, of_call-to_call}

abbrev parameters : TransactionParameters
parameters = record {
  nonce = some 4;
  to = none;
  gas = 21000;
  gas_price = none;
  value = 7;
  tx_data = [];
  chain_id = some 1;
  transaction_type = none;
  access_list = none;
  max_fee_per_gas = none;
  max_priority_fee_per_gas = none;
}

of_call-to_call_example :
    of_call (to_call parameters) ≡ record parameters { nonce = none; chain_id = none }
of_call-to_call_example = of_call-to_call parameters

-- The nonce and the chain id are asked, and the gas price is not.
abbrev priced : Options
priced = record no_options { gas_price = some 5 }

abbrev start : TestTransport
start = at [] (number 1 ∷ number 1 ∷ number 8 ∷ [])

abbrev sent : TestTransport
sent =
    (signed_call crypto (λ stream. 5 ∷ []) (λ e. "") formats wire answers test_transport contract
      "get" [] priced 0 start).0

is_sent :
    signed_call crypto
      (λ stream. 5 ∷ [])
      (λ e. "")
      formats
      wire
      answers
      test_transport
      contract
      "get"
      []
      priced
      0
      start
    ≡ (sent, done 8)
unfolding signed_call sign_transaction signed_call_parameters rust_web.Accounts.sign_tx
    rust_web.Signing.sign rust_web.Signing.digest_of rust_web.Signing.v_of rust_web.Signing.take
    rust_web.Signing.bytes_ltb rust_web.Signing.drop rust_web.Session.call_future
    rust_web.Session.execute test_transport rust_web.Session.send rust_web.Session.prepare
is_sent = refl

signed_call_sound_example :
    (input : List ℕ) × (encoded contract "get" [] ≡ done input)
    × IsSent crypto
        (λ stream. 5 ∷ [])
        (λ e. "")
        formats
        wire
        answers
        contract
        priced
        0
        input
        start
        sent
        8
signed_call_sound_example =
    signed_call_sound crypto (λ stream. 5 ∷ []) (λ e. "") formats wire answers contract priced 0
      "get" [] start sent 8 is_sent
