-- ===== src/Types/Block.antt =====
-- src/types/block.rs and src/types/transaction_id.rs: how a block or a transaction is named in a
-- request. Hashes are numbers below 2^256.
use Prim.Native.String.{◌++◌, slice, len}
use text.Mathlib.Text.{starts_with}
pub mod RoundTrip
pub mod Tests
use rust_web.Prelude.{ℕ, String, ◌^◌, ◌<◌, ◌≡◌, Option, none, some, if◌then◌else◌, str_eq}
use rust_web.Rpc.{Value, string, object, member, end}
use rust_web.Error.{Error, Result, ok, err, Message}

-- What the source takes from ethereum_types and its serde instances.
pub record Formats : Type 0 where
  -- `{:x}` of a U64, and U64::from_str_radix of base 16
  pub lower_hex : ℕ → String
  pub from_str_radix : String → Option ℕ
  -- `{:?}` of a H256
  pub debug_hash : ℕ → String
  -- the serde instance of H256
  pub serialize_hash : ℕ → Value

-- enum BlockNumber
pub data BlockNumber : Type 0 where
  finalized : BlockNumber
  safe : BlockNumber
  latest : BlockNumber
  earliest : BlockNumber
  pending : BlockNumber
  number : ℕ → BlockNumber

-- enum BlockId
pub data BlockId : Type 0 where
  hash : ℕ → BlockId
  number : BlockNumber → BlockId

-- Its number fits in a U64.
abbrev pub IsU64 : BlockNumber → Type 0
IsU64 (number n) = n < 2 ^ 64
IsU64 _ = Unit {0}

abbrev pub IsU64Id : BlockId → Type 0
IsU64Id (hash h) = Unit {0}
IsU64Id (number b) = IsU64 b

-- enum TransactionId; an index is a U64.
pub data TransactionId : Type 0 where
  hash : ℕ → TransactionId
  block : BlockId → Value → TransactionId

abbrev pub IsU64Transaction : TransactionId → Type 0
IsU64Transaction (hash h) = Unit {0}
IsU64Transaction (block b index) = IsU64Id b

module _ (formats : Formats) where
  -- impl Serialize for BlockNumber
  unfoldable pub serialize_number : BlockNumber → String
  serialize_number (number x) = "0x" ++ formats.lower_hex x
  serialize_number latest = "latest"
  serialize_number earliest = "earliest"
  serialize_number pending = "pending"
  serialize_number finalized = "finalized"
  serialize_number safe = "safe"

  abbrev parsed : Option ℕ → Result BlockNumber
  parsed (some n) = ok (number n)
  parsed none = err (Error.decoder (Message.text "invalid block number"))

  -- impl Deserialize for BlockNumber, of the text
  unfoldable pub deserialize_number : String → Result BlockNumber
  deserialize_number value =
      if str_eq value "latest"
      then ok latest
      else if str_eq value "earliest"
      then ok earliest
      else if str_eq value "pending"
      then ok pending
      else if str_eq value "finalized"
      then ok finalized
      else if str_eq value "safe"
      then ok safe
      else if starts_with value "0x"
      then parsed (formats.from_str_radix (slice value 2 (len value)))
      else err (Error.decoder (Message.text "invalid block number: missing 0x prefix"))

  -- impl Serialize for BlockId, an object of EIP-1898 for a hash
  unfoldable pub serialize_id : BlockId → Value
  unfolding serialize_number
  serialize_id (hash x) = object (member "blockHash" (string (formats.debug_hash x)) end)
  serialize_id (number num) = string (serialize_number num)
