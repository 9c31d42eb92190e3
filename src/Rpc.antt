-- ===== src/Rpc.antt =====
-- The JSON values and the JSON-RPC messages that the client builds and takes apart
-- (serde_json::Value and jsonrpc_core's MessageId, Output, Call, Request and Response, in the shape in
-- which the source matches on them).
use rust_web.Prelude.Table.{Table}
use rust_web.Prelude.{ℕ, String, List, [], ◌∷◌, Bool, true, false}

-- A JSON value. The text of a number is not modelled: numbers are unsigned.
mutual
  pub data Value : Type 0 where
    string : String → Value
    object : Fields → Value
    array : Items → Value
    number : ℕ → Value
    bool : Bool → Value
    null : Value

  -- The members of an object.
  pub data Fields : Type 0 where
    end : Fields
    member : String → Value → Fields → Fields

  -- The elements of an array.
  pub data Items : Type 0 where
    nil : Items
    cons : Value → Items → Items

-- A JSON array of the given values.
abbrev pub items : List Value → Items
items [] = nil
items (x ∷ xs) = cons x (items xs)

-- Value::is_object
unfoldable pub is_object : Value → Bool
is_object (object fs) = true
is_object null = false
is_object (bool b) = false
is_object (number n) = false
is_object (string s) = false
is_object (array xs) = false

-- The id of a message.
pub data MessageId : Type 0 where
  null : MessageId
  num : ℕ → MessageId
  str : String → MessageId

-- The error object of a failure, kept as the JSON that it came as.
pub record RpcError : Type 0 where
  pub body : Value

pub record Success : Type 0 where
  pub result : Value
  pub id : MessageId

pub record Failure : Type 0 where
  pub error : RpcError
  pub id : MessageId

pub data Output : Type 0 where
  success : Success → Output
  failure : Failure → Output

-- Output::id
abbrev pub output_id : Output → MessageId
output_id (success s) = s.id
output_id (failure f) = f.id

pub data Response : Type 0 where
  single : Output → Response
  batch : List Output → Response

-- A method call with positional parameters, in version 2.0 of the protocol.
pub record Call : Type 0 where
  pub method : String
  pub params : List Value
  pub id : MessageId

pub data Request : Type 0 where
  single : Call → Request
  batch : List Call → Request

-- The parameters of a notification; the source takes apart an object only.
pub data Params : Type 0 where
  map : Table Value → Params
  array : List Value → Params
  absent : Params

pub record Notification : Type 0 where
  pub method : String
  pub params : Params
