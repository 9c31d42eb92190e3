-- ===== src/Contract/Signed.antt =====
-- The transactions that are signed with a key before they are sent: the module contract_signing of
-- src/contract/mod.rs, sign_with_key_and_execute of src/contract/deploy.rs, and the conversions of
-- src/types/signed.rs.
mod Agree
mod Tests
use rust_web.Prelude.{ℕ, String, List, [], ◌∷◌, Option, none, some}
use rust_web.Error.{Error, Result, ok, err, text}
use rust_web.Signing.{Crypto}
use rust_web.Accounts.{Rlp, Access, SignedTransaction}
use rust_web.Accounts.Fill.{TransactionParameters, sign_transaction}
use rust_web.Session.{
  Except, fail, done, of_result, Session, Transport, ◌>>=◌, give, failing_as, continue,
}
use rust_web.Types.Block.{Formats}
use rust_web.Types.Request.{CallRequest, TransactionRequest, Wire}
use rust_web.Api.Eth
use rust_web.Contract.Tokens.{Token}
use rust_web.Contract.Abi.{AbiError}
use rust_web.Contract.Call.{Contract, Options, Decoders, encoded, decoder_error}

abbrev unwrap_or {ℓ} : {A : Type ℓ} → Option A → A → A
unwrap_or none default = default
unwrap_or (some a) default = a

-- TransactionParameters::default, with TRANSACTION_DEFAULT_GAS
unfoldable pub default_parameters : TransactionParameters
default_parameters = record {
  nonce = none;
  to = none;
  gas = 100000;
  gas_price = none;
  value = 0;
  tx_data = [];
  chain_id = none;
  transaction_type = none;
  access_list = none;
  max_fee_per_gas = none;
  max_priority_fee_per_gas = none;
}

-- impl From<CallRequest> for TransactionParameters
unfoldable pub of_call : CallRequest → TransactionParameters
of_call r = record {
  nonce = none;
  to = r.to;
  gas = unwrap_or r.gas 100000;
  gas_price = r.gas_price;
  value = unwrap_or r.value 0;
  tx_data = unwrap_or r.tx_data [];
  chain_id = none;
  transaction_type = r.transaction_type;
  access_list = r.access_list;
  max_fee_per_gas = r.max_fee_per_gas;
  max_priority_fee_per_gas = r.max_priority_fee_per_gas;
}

-- impl From<TransactionParameters> for CallRequest
unfoldable pub to_call : TransactionParameters → CallRequest
to_call val = record {
  from = none;
  to = val.to;
  gas = some val.gas;
  gas_price = val.gas_price;
  value = some val.value;
  tx_data = some val.tx_data;
  transaction_type = val.transaction_type;
  access_list = val.access_list;
  max_fee_per_gas = val.max_fee_per_gas;
  max_priority_fee_per_gas = val.max_priority_fee_per_gas;
}

-- `if let Some(gas) = options.gas` and `if let Some(value) = options.value`
abbrev with_gas : Option ℕ → TransactionParameters → TransactionParameters
with_gas none tx = tx
with_gas (some gas) tx = record tx { gas = gas }

abbrev with_value : Option ℕ → TransactionParameters → TransactionParameters
with_value none tx = tx
with_value (some value) tx = record tx { value = value }

-- The transaction of `sign`.
unfoldable pub sign_parameters : Contract → Options → List ℕ → TransactionParameters
unfolding default_parameters
sign_parameters contract options fn_data = with_value options.value (
    with_gas options.gas (record default_parameters {
      nonce = options.nonce;
      to = some contract.address;
      gas_price = options.gas_price;
      tx_data = fn_data;
      transaction_type = options.transaction_type;
      access_list = options.access_list;
      max_fee_per_gas = options.max_fee_per_gas;
      max_priority_fee_per_gas = options.max_priority_fee_per_gas;
    }))

-- The transaction of `signed_call`.
unfoldable pub signed_call_parameters : Contract → Options → List ℕ → TransactionParameters
unfolding default_parameters
signed_call_parameters contract options fn_data = with_value options.value (
    with_gas options.gas (record default_parameters {
      nonce = options.nonce;
      to = some contract.address;
      gas_price = options.gas_price;
      tx_data = fn_data;
    }))

-- The transaction of sign_with_key_and_execute, from the one of do_execute.
unfoldable pub deploy_parameters : Option ℕ → TransactionRequest → Result TransactionParameters
deploy_parameters chain_id tx = of_data tx.tx_data
  where
    of_data : Option (List ℕ) → Result TransactionParameters
    of_data none =
        err (Error.invalid_response (text "contract deployment transaction data was not set"))
    of_data (some input) = ok (record {
      nonce = tx.nonce;
      to = tx.to;
      gas = unwrap_or tx.gas 1000000;
      gas_price = tx.gas_price;
      value = unwrap_or tx.value 0;
      tx_data = input;
      chain_id = chain_id;
      transaction_type = tx.transaction_type;
      access_list = tx.access_list;
      max_fee_per_gas = tx.max_fee_per_gas;
      max_priority_fee_per_gas = tx.max_priority_fee_per_gas;
    })

module _ {SecretKey PublicKey : Type 0} (crypto : Crypto SecretKey PublicKey)
    (out : List Rlp → List ℕ) (debug : AbiError → String) {S : Type 0} (formats : Formats)
    (wire : Wire) (answers : Decoders) (transport : Transport S) where
  abbrev pub sign_with :
      (List ℕ → TransactionParameters) → SecretKey → List ℕ → Session S Error SignedTransaction
  sign_with parameters key fn_data =
      sign_transaction crypto out formats wire.address answers.uint transport (parameters fn_data)
        key

  abbrev pub send_raw : SignedTransaction → Session S Error ℕ
  send_raw signed =
      Eth.send_raw_transaction formats transport answers.hash (wire.bytes signed.raw_transaction)

  abbrev pub sign_and_send :
      (List ℕ → TransactionParameters) → SecretKey → List ℕ → Session S Error ℕ
  sign_and_send parameters key fn_data = do
    signed ← sign_with parameters key fn_data
    send_raw signed

  -- contract_signing: Contract::sign
  unfoldable pub sign_call :
      Contract → String → List Token → Options → SecretKey → Session S Error SignedTransaction
  sign_call contract func params options key = do
    fn_data ← give (failing_as (decoder_error debug) (encoded contract func params))
    sign_with (sign_parameters contract options) key fn_data

  -- contract_signing: Contract::signed_call
  unfoldable pub signed_call :
      Contract → String → List Token → Options → SecretKey → Session S Error ℕ
  signed_call contract func params options key = do
    fn_data ← give (failing_as (decoder_error debug) (encoded contract func params))
    sign_and_send (signed_call_parameters contract options) key fn_data
