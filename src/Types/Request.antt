-- ===== src/Types/Request.antt =====
-- src/types/transaction_request.rs: the requests of eth_call, eth_estimateGas and eth_sendTransaction,
-- their builders, and the JSON that serde derives for them. Addresses and data are lists of bytes.
pub mod Json
pub mod Tests
use rust_web.Prelude.{ℕ, String, List, [], ◌∷◌, Option, none, some}
use rust_web.Rpc.{Value, Fields, object, member, end, number}
use rust_web.Accounts.{Access}

-- struct CallRequest
pub record CallRequest : Type 0 where
  pub from : Option (List ℕ)
  pub to : Option (List ℕ)
  pub gas : Option ℕ
  pub gas_price : Option ℕ
  pub value : Option ℕ
  pub tx_data : Option (List ℕ)
  pub transaction_type : Option ℕ
  pub access_list : Option (List Access)
  pub max_fee_per_gas : Option ℕ
  pub max_priority_fee_per_gas : Option ℕ

-- enum TransactionCondition
pub data TransactionCondition : Type 0 where
  block : ℕ → TransactionCondition
  timestamp : ℕ → TransactionCondition

-- struct TransactionRequest
pub record TransactionRequest : Type 0 where
  pub from : List ℕ
  pub to : Option (List ℕ)
  pub gas : Option ℕ
  pub gas_price : Option ℕ
  pub value : Option ℕ
  pub tx_data : Option (List ℕ)
  pub nonce : Option ℕ
  pub condition : Option TransactionCondition
  pub transaction_type : Option ℕ
  pub access_list : Option (List Access)
  pub max_fee_per_gas : Option ℕ
  pub max_priority_fee_per_gas : Option ℕ

-- The serde instances of ethereum_types, of Bytes and of AccessList.
pub record Wire : Type 0 where
  pub address : List ℕ → Value
  pub uint : ℕ → Value
  pub bytes : List ℕ → Value
  pub accesses : List Access → Value

abbrev pub mapped : {A B : Type 0} → (A → B) → Option A → Option B
mapped f none = none
mapped f (some a) = some (f a)

-- The members of an object, less the fields that `skip_serializing_if = "Option::is_none"` leaves out.
abbrev pub compact : List (String × Option Value) → Fields
compact [] = end
compact ((name, none) ∷ rest) = compact rest
compact ((name, some v) ∷ rest) = member name v (compact rest)

abbrev pub of_condition : TransactionCondition → Value
of_condition (block n) = object (member "block" (number n) end)
of_condition (timestamp n) = object (member "time" (number n) end)

module _ (wire : Wire) where
  abbrev pub call_fields : CallRequest → List (String × Option Value)
  call_fields r =
      ("from", mapped wire.address r.from)
      ∷ ("to", mapped wire.address r.to)
      ∷ ("gas", mapped wire.uint r.gas)
      ∷ ("gasPrice", mapped wire.uint r.gas_price)
      ∷ ("value", mapped wire.uint r.value)
      ∷ ("data", mapped wire.bytes r.tx_data)
      ∷ ("type", mapped wire.uint r.transaction_type)
      ∷ ("accessList", mapped wire.accesses r.access_list)
      ∷ ("maxFeePerGas", mapped wire.uint r.max_fee_per_gas)
      ∷ ("maxPriorityFeePerGas", mapped wire.uint r.max_priority_fee_per_gas)
      ∷ []

  -- #[derive(Serialize)] of CallRequest, in the order of its fields
  unfoldable pub serialize_call : CallRequest → Value
  serialize_call r = object (compact (call_fields r))

  abbrev pub transaction_fields : TransactionRequest → List (String × Option Value)
  transaction_fields r =
      ("from", some (wire.address r.from))
      ∷ ("to", mapped wire.address r.to)
      ∷ ("gas", mapped wire.uint r.gas)
      ∷ ("gasPrice", mapped wire.uint r.gas_price)
      ∷ ("value", mapped wire.uint r.value)
      ∷ ("data", mapped wire.bytes r.tx_data)
      ∷ ("nonce", mapped wire.uint r.nonce)
      ∷ ("condition", mapped of_condition r.condition)
      ∷ ("type", mapped wire.uint r.transaction_type)
      ∷ ("accessList", mapped wire.accesses r.access_list)
      ∷ ("maxFeePerGas", mapped wire.uint r.max_fee_per_gas)
      ∷ ("maxPriorityFeePerGas", mapped wire.uint r.max_priority_fee_per_gas)
      ∷ []

  -- #[derive(Serialize)] of TransactionRequest
  unfoldable pub serialize_transaction : TransactionRequest → Value
  serialize_transaction r = object (compact (transaction_fields r))

-- A setter of CallRequestBuilder.
pub data CallSetter : Type 0 where
  from : List ℕ → CallSetter
  to : List ℕ → CallSetter
  gas : ℕ → CallSetter
  gas_price : ℕ → CallSetter
  value : ℕ → CallSetter
  tx_data : List ℕ → CallSetter
  transaction_type : ℕ → CallSetter
  access_list : List Access → CallSetter

-- CallRequestBuilder
unfoldable pub set_call : CallSetter → CallRequest → CallRequest
set_call (from v) r = record r { from = some v }
set_call (to v) r = record r { to = some v }
set_call (gas v) r = record r { gas = some v }
set_call (gas_price v) r = record r { gas_price = some v }
set_call (value v) r = record r { value = some v }
set_call (tx_data v) r = record r { tx_data = some v }
set_call (transaction_type v) r = record r { transaction_type = some v }
set_call (access_list v) r = record r { access_list = some v }

-- CallRequest::default
abbrev pub default_call : CallRequest
default_call = record {
  from = none;
  to = none;
  gas = none;
  gas_price = none;
  value = none;
  tx_data = none;
  transaction_type = none;
  access_list = none;
  max_fee_per_gas = none;
  max_priority_fee_per_gas = none;
}
