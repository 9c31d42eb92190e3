-- ===== src/Contract/Call.antt =====
-- src/contract/mod.rs: the calls and queries of a contract, over any transport.
mod Requests
mod Answers
pub mod Tests
use rust_web.Prelude.{ℕ, String, List, [], Option, none, some}
use rust_web.Rpc.{Value}
use rust_web.Error.{Error, Result, ok, err, quote}
use rust_web.Accounts.{Access}
use rust_web.Session.{
  Except, fail, done, Session, Transport, ◌>>=◌, give, map_err, failing_as, continue,
}
use rust_web.Types.Block.{Formats, BlockId}
use rust_web.Types.Request.{
  CallRequest, TransactionRequest, TransactionCondition, Wire, serialize_call,
  serialize_transaction,
}
use rust_web.Api.Eth
use rust_web.Confirm.Polled.{ConfirmDecoders, confirm_sent}
use rust_web.Contract.Tokens.{Token, Decoded, decoded, invalid}
use rust_web.Contract.Abi.{AbiError, ContractError, Function, Abi}

-- struct Options
pub record Options : Type 0 where
  pub gas : Option ℕ
  pub gas_price : Option ℕ
  pub value : Option ℕ
  pub nonce : Option ℕ
  pub condition : Option TransactionCondition
  pub transaction_type : Option ℕ
  pub access_list : Option (List Access)
  pub max_fee_per_gas : Option ℕ
  pub max_priority_fee_per_gas : Option ℕ

-- Options::default
abbrev pub no_options : Options
no_options = record {
  gas = none;
  gas_price = none;
  value = none;
  nonce = none;
  condition = none;
  transaction_type = none;
  access_list = none;
  max_fee_per_gas = none;
  max_priority_fee_per_gas = none;
}

-- struct Contract, whose transport is a parameter of its operations.
pub record Contract : Type 0 where
  pub address : List ℕ
  pub abi : Abi

-- What serde decodes from the answers of the node.
pub record Decoders : Type 0 where
  pub hash : Value → Result ℕ
  pub uint : Value → Result ℕ
  pub bytes : Value → Result (List ℕ)

abbrev pub and_then : {E A B : Type 0} → Except E A → (A → Except E B) → Except E B
and_then (fail e) f = fail e
and_then (done a) f = f a

-- `abi.function(func)` and then `encode_input(&params.into_tokens())`
abbrev pub encoded : Contract → String → List Token → Except AbiError (List ℕ)
encoded contract func params = and_then (contract.abi.function func) λ f. f.encode_input params

-- The request of `call` and of `call_with_confirmations`.
abbrev pub transaction_of : Contract → List ℕ → Options → List ℕ → TransactionRequest
transaction_of contract from options input = record {
  from = from;
  to = some contract.address;
  gas = options.gas;
  gas_price = options.gas_price;
  value = options.value;
  tx_data = some input;
  nonce = options.nonce;
  condition = options.condition;
  transaction_type = options.transaction_type;
  access_list = options.access_list;
  max_fee_per_gas = options.max_fee_per_gas;
  max_priority_fee_per_gas = options.max_priority_fee_per_gas;
}

-- The request of `estimate_gas` and of `query`.
abbrev pub call_of : Contract → Option (List ℕ) → Options → List ℕ → CallRequest
call_of contract from options input = record {
  from = from;
  to = some contract.address;
  gas = options.gas;
  gas_price = options.gas_price;
  value = options.value;
  tx_data = some input;
  transaction_type = options.transaction_type;
  access_list = options.access_list;
  max_fee_per_gas = options.max_fee_per_gas;
  max_priority_fee_per_gas = options.max_priority_fee_per_gas;
}

abbrev pub from_tokens_of : {R : Type 0} → Decoded R → Except ContractError R
from_tokens_of (decoded r) = done r
from_tokens_of (invalid e) = fail (ContractError.invalid_output_type e)

-- `.map_err(|err| Error::Decoder(format!("{:?}", err)))`, for the text that `{:?}` gives
abbrev pub decoder_error : (AbiError → String) → AbiError → Error
decoder_error debug e = Error.decoder (quote "{:?}" (debug e))

module _ {S : Type 0} (formats : Formats) (wire : Wire) (answers : Decoders)
    (transport : Transport S) where
  abbrev pub send_transaction : TransactionRequest → Session S Error ℕ
  send_transaction tx =
      Eth.send_transaction formats transport answers.hash (serialize_transaction wire tx)

  -- Contract::call
  unfoldable pub call :
      Contract → String → List Token → List ℕ → Options → Session S ContractError ℕ
  call contract func params from options = do
    input ← give (failing_as ContractError.abi (encoded contract func params))
    map_err ContractError.api (send_transaction (transaction_of contract from options input))

  -- Contract::estimate_gas
  unfoldable pub estimate_gas :
      Contract → String → List Token → List ℕ → Options → Session S ContractError ℕ
  estimate_gas contract func params from options = do
    input ← give (failing_as ContractError.abi (encoded contract func params))
    map_err ContractError.api (
        Eth.estimate_gas formats transport answers.uint
          (serialize_call wire (call_of contract (some from) options input)) none)

  module _ {R : Type 0} (from_tokens : List Token → Decoded R) where
    abbrev pub read_output : Function → List ℕ → Session S ContractError R
    read_output function bytes = do
      output ← give (failing_as ContractError.abi (function.decode_output bytes))
      give (from_tokens_of (from_tokens output))

    abbrev pub ask_output :
        Contract
        → Option (List ℕ)
        → Options
        → Option BlockId
        → Function
        → List ℕ
        → Session S ContractError R
    ask_output contract from options block function input = do
      bytes ← map_err ContractError.api (
          Eth.call formats transport answers.bytes
            (serialize_call wire (call_of contract from options input)) block)
      read_output function bytes

    abbrev pub query_function :
        Contract
        → List Token
        → Option (List ℕ)
        → Options
        → Option BlockId
        → Function
        → Session S ContractError R
    query_function contract params from options block function = do
      input ← give (failing_as ContractError.abi (function.encode_input params))
      ask_output contract from options block function input

    -- Contract::query, with Detokenize::from_tokens of the type of the result
    unfoldable pub query :
        Contract
        → String
        → List Token
        → Option (List ℕ)
        → Options
        → Option BlockId
        → Session S ContractError R
    query contract func params from options block = do
      function ← give (failing_as ContractError.abi (contract.abi.function func))
      query_function contract params from options block function

  -- Contract::call_with_confirmations, which may poll the node's filter that many times
  unfoldable pub call_with_confirmations :
      {Receipt : Type 0}
      → ConfirmDecoders Receipt
      → (AbiError → String)
      → Contract
      → String
      → List Token
      → List ℕ
      → Options
      → ℕ
      → ℕ
      → S
      → S × Option (Except Error Receipt)
  call_with_confirmations confirming debug contract func params from options confirmations polls s =
      confirm_sent formats transport confirming confirmations polls (
        continue (s, failing_as (decoder_error debug) (encoded contract func params))
          λ fn_data. send_transaction (transaction_of contract from options fn_data))
