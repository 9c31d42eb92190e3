-- ===== src/Accounts/Fill.antt =====
-- Accounts::sign_transaction of src/api/accounts.rs: what is missing is asked of the node, over any
-- transport.
pub mod Asked
use rust_web.Prelude.{
  ℕ, ◌^◌, ◌≡◌, List, [], Option, none, some, Bool, true, false, ◌==◌, ltb, if◌then◌else◌,
}
use rust_web.Rpc.{Value}
use rust_web.Error.{Error, SigningError, Result, ok, err}
use rust_web.Session.{Session, Transport, ◌>>=◌, pure, give, of_result, continue}
use rust_web.Signing.{Crypto, address}
use rust_web.Types.Block.{Formats}
use rust_web.Api.Eth
use rust_web.Accounts.{Rlp, Access, Transaction, SignedTransaction, sign_tx}

-- struct TransactionParameters
pub record TransactionParameters : Type 0 where
  pub nonce : Option ℕ
  pub to : Option (List ℕ)
  pub gas : ℕ
  pub gas_price : Option ℕ
  pub value : ℕ
  pub tx_data : List ℕ
  pub chain_id : Option ℕ
  pub transaction_type : Option ℕ
  pub access_list : Option (List Access)
  pub max_fee_per_gas : Option ℕ
  pub max_priority_fee_per_gas : Option ℕ

-- The macro `maybe!`: a question to the node where the value is not given
abbrev pub maybe : {S : Type 0} → Option ℕ → Session S Error ℕ → Session S Error ℕ
maybe (some value) question = pure value
maybe none question = question

abbrev pub is_eip1559 : Option ℕ → Bool
is_eip1559 none = false
is_eip1559 (some t) = t == 2

abbrev or_else : Option ℕ → Option ℕ → Option ℕ
or_else (some fee) price = some fee
or_else none price = price

abbrev pub gas_price_of : TransactionParameters → Option ℕ
gas_price_of tx =
    if is_eip1559 tx.transaction_type then or_else tx.max_fee_per_gas tx.gas_price else tx.gas_price

abbrev unwrap_or : Option ℕ → ℕ → ℕ
unwrap_or (some n) default = n
unwrap_or none default = default

abbrev unwrap_or_default : Option (List Access) → List Access
unwrap_or_default none = []
unwrap_or_default (some list) = list

-- `u64::try_from(chain_id)`
abbrev pub chain_id_of : ℕ → Result ℕ
chain_id_of n = if ltb n (2 ^ 64) then ok n else err (Error.signing SigningError.invalid_chain_id)

-- The transaction with what was missing.
abbrev pub filled : TransactionParameters → ℕ → ℕ → Transaction
filled tx nonce gas_price = record {
  to = tx.to;
  nonce = nonce;
  gas = tx.gas;
  gas_price = gas_price;
  value = tx.value;
  tx_data = tx.tx_data;
  transaction_type = tx.transaction_type;
  access_list = unwrap_or_default tx.access_list;
  max_priority_fee_per_gas =
      if is_eip1559 tx.transaction_type
      then unwrap_or tx.max_priority_fee_per_gas gas_price
      else gas_price;
}

module _ {SecretKey PublicKey : Type 0} (crypto : Crypto SecretKey PublicKey)
    (out : List Rlp → List ℕ) {S : Type 0} (formats : Formats) (write : List ℕ → Value)
    (decode : Value → Result ℕ) (transport : Transport S) where
  abbrev pub sign_filled :
      TransactionParameters → SecretKey → ℕ → ℕ → ℕ → Session S Error SignedTransaction
  sign_filled tx key nonce gas_price asked = do
    chain_id ← give (of_result (chain_id_of asked))
    give (of_result (sign_tx crypto out (filled tx nonce gas_price) key chain_id))

  abbrev pub with_price :
      TransactionParameters → SecretKey → ℕ → ℕ → Session S Error SignedTransaction
  with_price tx key nonce gas_price = do
    asked ← maybe tx.chain_id (Eth.chain_id formats transport decode)
    sign_filled tx key nonce gas_price asked

  abbrev pub with_nonce : TransactionParameters → SecretKey → ℕ → Session S Error SignedTransaction
  with_nonce tx key nonce = do
    gas_price ← maybe (gas_price_of tx) (Eth.gas_price formats transport decode)
    with_price tx key nonce gas_price

  -- Accounts::sign_transaction; `try_join3` polls its three futures in turn and returns the first
  -- error, which is one after another where the transport answers at once. `write` is the serde
  -- instance of an address.
  unfoldable pub sign_transaction :
      TransactionParameters → SecretKey → Session S Error SignedTransaction
  sign_transaction tx key = do
    nonce ←
        maybe tx.nonce
          (Eth.transaction_count formats transport decode (write (address crypto key)) none)
    with_nonce tx key nonce
