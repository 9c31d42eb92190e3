-- ===== src/Contract/Call/Tests.antt =====
-- Calls and queries of a contract at concrete inputs.
use rust_web.Prelude.{ℕ, String, List, [], ◌∷◌, ◌++◌, map, All, Option, none, some, ◌≡◌, ◌↔◌, refl}
use rust_web.Rpc.{Value, number}
use rust_web.Error.{Error, Result, ok, err}
use rust_web.Session.{
  Except, done, TestTransport, test_transport, execute, call_future, prepare, send,
}
use rust_web.Session.Log.{at}
use rust_web.Types.Block.{serialize_id}
use rust_web.Types.Block.Tests.{formats}
use rust_web.Types.Request.{TransactionRequest, serialize_call, serialize_transaction}
use rust_web.Types.Request.Tests.{wire, write_bytes, read_bytes, read_number}
use rust_web.Api.Eth.{or_latest_id}
use rust_web.Contract.Tokens.{Token, uint, Decoded, decoded, invalid, expected, string}
use rust_web.Contract.Abi.{AbiError, Function}
use rust_web.Contract.Call.{Contract, Decoders, no_options, call_with_confirmations, query, call_of}
use rust_web.Contract.Call.Requests.{IsTransaction, call_with_confirmations_once}
use rust_web.Confirm.Polled.{ConfirmDecoders}
use rust_web.Confirm.Reads.{IsRead}
use rust_web.Contract.Call.Answers.{IsQuery, query_iff}

abbrev or_err : {A : Type 0} → Option A → Result A
or_err none = err Error.internal
or_err (some a) = ok a

abbrev pub answers : Decoders
answers = record {
  hash = λ v. or_err (read_number v);
  uint = λ v. or_err (read_number v);
  bytes = λ v. or_err (read_bytes v);
}

abbrev get : Function
get = record {
  encode_input = λ params. done (1 ∷ []);
  decode_output = λ bytes. done (map (λ n. uint n) bytes);
}

abbrev only_get : String → Except AbiError Function
only_get name = done get

abbrev pub contract : Contract
contract = record { address = 9 ∷ []; abi = record { function = only_get; constructor = none } }

abbrev first_uint : List Token → Decoded ℕ
first_uint (uint n ∷ rest) = decoded n
first_uint _ = invalid (expected "uint" (string ""))

abbrev asked : TestTransport
asked =
    at
      ((
        "eth_call",
        serialize_call wire (call_of contract none no_options (1 ∷ []))
            ∷ serialize_id formats (or_latest_id none)
            ∷ [],
      )
        ∷ [])
      []

abbrev answering : TestTransport
answering = at [] (write_bytes (42 ∷ []) ∷ [])

get_is_42 :
    query formats wire answers test_transport first_uint contract "get" [] none no_options none
      answering
    ≡ (asked, done 42)
unfolding query execute call_future test_transport prepare send
get_is_42 = refl

query_iff_example :
    (query formats wire answers test_transport first_uint contract "get" [] none no_options none
        answering
      ≡ (asked, done 42))
    ↔ IsQuery formats wire answers first_uint contract "get" [] none no_options none answering asked
        42
query_iff_example =
    query_iff formats wire answers first_uint contract "get" [] none no_options none answering asked
      42

IsQuery-asked :
    IsQuery formats wire answers first_uint contract "get" [] none no_options none answering asked
      42
IsQuery-asked =
    (query_iff formats wire answers first_uint contract "get" [] none no_options none answering
        asked 42).0
      get_is_42

-- A receipt is the number of its block.
abbrev confirming : ConfirmDecoders ℕ
confirming = record {
  id = λ v. ok "0x1";
  changes = λ v. ok (some (1 ∷ []));
  receipt = λ v. ok (read_number v);
  uint = λ v. or_err (read_number v);
  block_of = some;
}

-- A hash, a filter, a poll that is skipped and one that is not, the receipt, the block number, and the
-- receipt again.
abbrev confirmable : TestTransport
confirmable =
    at [] (number 7 ∷ number 0 ∷ number 0 ∷ number 0 ∷ number 2 ∷ number 3 ∷ number 2 ∷ [])

confirmed_in_2 :
    (call_with_confirmations formats wire answers test_transport confirming
      (λ e. "")
      contract
      "get"
      []
      (3 ∷ [])
      no_options
      1
      5
      confirmable).1
    ≡ some (done 2)
unfolding call_with_confirmations rust_web.Confirm.Polled.confirm rust_web.Confirm.Polled.wait
    rust_web.Confirm.Polled.poll_blocks rust_web.Confirm.Polled.on_item
    rust_web.Confirm.Polled.receipt_check rust_web.Api.EthFilter.create_filter execute call_future
    test_transport prepare send
confirmed_in_2 = refl

call_with_confirmations_once_example :
    (request : TransactionRequest) × (asked : List (String × List Value)) × IsTransaction contract
      (3 ∷ [])
      no_options
      (1 ∷ [])
      request
    × ((call_with_confirmations formats wire answers test_transport confirming
          (λ e. "")
          contract
          "get"
          []
          (3 ∷ [])
          no_options
          1
          5
          confirmable).0.requests
        ≡ [] ++ ("eth_sendTransaction", serialize_transaction wire request ∷ []) ∷ asked)
    × All IsRead asked
call_with_confirmations_once_example =
    call_with_confirmations_once formats wire answers confirming (λ e. "") contract "get" []
      (3 ∷ []) no_options 1 5 confirmable (1 ∷ []) refl
