-- ===== src/Types/Request/Json.antt =====
-- src/types/transaction_request.rs: a request is read back from the JSON that it is written as.
use rust_web.Prelude.{
  ℕ, String, List, [], ◌∷◌, Option, none, some, Bool, true, not, ◌&&◌, ◌≡◌, refl, if◌then◌else◌,
  str_eq, eq_iff, arith,
}
use rust_web.Rpc.{Value, Fields, object, member, end, null}
use rust_web.Accounts.{Access}
use rust_web.Types.Request.{CallRequest, Wire, mapped, compact, call_fields, serialize_call}

-- A member of an object.
abbrev pub field_of : String → Fields → Option Value
field_of k end = none
field_of k (member j v rest) = if str_eq j k then some v else field_of k rest

abbrev found : String → List (String × Option Value) → Option Value
found k [] = none
found k ((j, v) ∷ rest) = if str_eq j k then v else found k rest

-- No name occurs twice.
abbrev fresh : String → List (String × Option Value) → Bool
fresh k [] = true
fresh k ((j, v) ∷ rest) = not (str_eq j k) && fresh k rest

abbrev distinct : List (String × Option Value) → Bool
distinct [] = true
distinct ((j, v) ∷ rest) = fresh j rest && distinct rest

field_of-fresh :
    (k : String) (fields : List (String × Option Value))
    → fresh k fields ≡ true
    → field_of k (compact fields) ≡ none
field_of-fresh k [] h = refl
field_of-fresh k ((j, none) ∷ rest) h = ground (arith, h, field_of-fresh k rest)
field_of-fresh k ((j, some v) ∷ rest) h = ground (arith, h, field_of-fresh k rest)

-- What is written under a name is found under it.
field_of-compact :
    (k : String) (fields : List (String × Option Value))
    → distinct fields ≡ true
    → field_of k (compact fields) ≡ found k fields
field_of-compact k [] h = refl
field_of-compact k ((j, none) ∷ rest) h =
    ground (arith, h, field_of-compact k rest, field_of-fresh j rest, eq_iff j k)
field_of-compact k ((j, some v) ∷ rest) h = ground (arith, h, field_of-compact k rest)

-- How serde reads the types of the fields.
pub record Readers : Type 0 where
  pub address : Value → Option (List ℕ)
  pub uint : Value → Option ℕ
  pub bytes : Value → Option (List ℕ)
  pub accesses : Value → Option (List Access)

-- Option<T>::deserialize: null is `none`.
abbrev pub nullable : {A : Type 0} → (Value → Option A) → Value → Option (Option A)
nullable read null = some none
nullable read v = mapped some (read v)

-- A field that is not there is `none`.
abbrev pub read_field : {A : Type 0} → (Value → Option A) → Option Value → Option (Option A)
read_field read none = some none
read_field read (some v) = nullable read v

infixl 5 ◌>>=◌
abbrev ◌>>=◌ : {A B : Type 0} → Option A → (A → Option B) → Option B
none >>= f = none
some a >>= f = f a

module _ (readers : Readers) where
  -- #[derive(Deserialize)] of CallRequest
  unfoldable pub deserialize_call : Value → Option CallRequest
  deserialize_call (object fs) = do
    from ← read_field readers.address (field_of "from" fs)
    to ← read_field readers.address (field_of "to" fs)
    gas ← read_field readers.uint (field_of "gas" fs)
    gas_price ← read_field readers.uint (field_of "gasPrice" fs)
    value ← read_field readers.uint (field_of "value" fs)
    tx_data ← read_field readers.bytes (field_of "data" fs)
    transaction_type ← read_field readers.uint (field_of "type" fs)
    access_list ← read_field readers.accesses (field_of "accessList" fs)
    max_fee_per_gas ← read_field readers.uint (field_of "maxFeePerGas" fs)
    max_priority_fee_per_gas ← read_field readers.uint (field_of "maxPriorityFeePerGas" fs)
    some (record {
      from = from;
      to = to;
      gas = gas;
      gas_price = gas_price;
      value = value;
      tx_data = tx_data;
      transaction_type = transaction_type;
      access_list = access_list;
      max_fee_per_gas = max_fee_per_gas;
      max_priority_fee_per_gas = max_priority_fee_per_gas;
    })
  deserialize_call _ = none

module _ (wire : Wire) (readers : Readers) where
  -- What is written is read back, also as an optional value.
  pub record IsReader : Type 0 where
    pub address : (a : List ℕ) → nullable readers.address (wire.address a) ≡ some (some a)
    pub uint : (n : ℕ) → nullable readers.uint (wire.uint n) ≡ some (some n)
    pub bytes : (b : List ℕ) → nullable readers.bytes (wire.bytes b) ≡ some (some b)
    pub accesses : (l : List Access) → nullable readers.accesses (wire.accesses l) ≡ some (some l)

  read-mapped :
      {A : Type 0} (read : Value → Option A) (write : A → Value)
      → ((a : A) → nullable read (write a) ≡ some (some a))
      → (v : Option A) → read_field read (mapped write v) ≡ some v
  read-mapped read write inverse none = refl
  read-mapped read write inverse (some a) = inverse a

  -- The field of a written call, by its name.
  written :
      (k : String) (r : CallRequest)
      → field_of k (compact (call_fields wire r)) ≡ found k (call_fields wire r)
  written k r = field_of-compact k (call_fields wire r) refl

  -- A call request is read back from the JSON that it is written as, whichever of its fields are
  -- given, if each type of field is read back from what it is written as.
  pub call_round_trip :
      IsReader → (r : CallRequest) → deserialize_call readers (serialize_call wire r) ≡ some r
  unfolding deserialize_call serialize_call
  call_round_trip reader r =
      rw
        (
          written "from" r,
          read-mapped readers.address wire.address reader.address r.from,
          written "to" r,
          read-mapped readers.address wire.address reader.address r.to,
          written "gas" r,
          read-mapped readers.uint wire.uint reader.uint r.gas,
          written "gasPrice" r,
          read-mapped readers.uint wire.uint reader.uint r.gas_price,
          written "value" r,
          read-mapped readers.uint wire.uint reader.uint r.value,
          written "data" r,
          read-mapped readers.bytes wire.bytes reader.bytes r.tx_data,
          written "type" r,
          read-mapped readers.uint wire.uint reader.uint r.transaction_type,
          written "accessList" r,
          read-mapped readers.accesses wire.accesses reader.accesses r.access_list,
          written "maxFeePerGas" r,
          read-mapped readers.uint wire.uint reader.uint r.max_fee_per_gas,
          written "maxPriorityFeePerGas" r,
          read-mapped readers.uint wire.uint reader.uint r.max_priority_fee_per_gas,
        )
        refl
