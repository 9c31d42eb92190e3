-- ===== src/Types/SyncState.antt =====
-- src/types/sync_state.rs: how the answers to eth_syncing, and the notifications of it, are read.
mod Formats
mod Tests
use rust_web.Prelude.{ℕ, String, List, [], ◌∷◌, Bool, true, false, Option, none, some}
use rust_web.Rpc.{Value, Fields, Items, object, member, end, array, cons, nil, bool, null}
use rust_web.Error.{Error, Result, ok, err, Message}
use rust_web.Types.Request.Json.{field_of}

-- struct SyncInfo, and SubscriptionSyncInfo, which is read under other names.
pub record SyncInfo : Type 0 where
  pub starting_block : ℕ
  pub current_block : ℕ
  pub highest_block : ℕ

-- enum SyncState
pub data SyncState : Type 0 where
  syncing : SyncInfo → SyncState
  not_syncing : SyncState

-- struct SubscriptionSyncState
pub record SubscriptionSyncState : Type 0 where
  pub syncing : Bool
  pub status : Option SyncInfo

abbrev info : Option ℕ → Option ℕ → Option ℕ → Option SyncInfo
info (some a) (some b) (some c) =
    some (record { starting_block = a; current_block = b; highest_block = c })
info _ _ _ = none

abbrev read : (Value → Option ℕ) → Option Value → Option ℕ
read uint none = none
read uint (some v) = uint v

-- The names of the fields, by `rename_all`: camelCase and PascalCase.
pub record Names : Type 0 where
  pub starting : String
  pub current : String
  pub highest : String

abbrev pub camel_case : Names
camel_case = record {
  starting = "startingBlock";
  current = "currentBlock";
  highest = "highestBlock";
}

abbrev pub pascal_case : Names
pascal_case = record {
  starting = "StartingBlock";
  current = "CurrentBlock";
  highest = "HighestBlock";
}

-- #[derive(Deserialize)] of the two structs, for how a U256 is read; serde takes a sequence too.
unfoldable pub read_info : (Value → Option ℕ) → Names → Value → Option SyncInfo
read_info uint names (object fs) =
    info (read uint (field_of names.starting fs)) (read uint (field_of names.current fs))
      (read uint (field_of names.highest fs))
read_info uint names (array (cons a (cons b (cons c nil)))) = info (uint a) (uint b) (uint c)
read_info uint names _ = none

abbrev present : Option SyncInfo → Option (Option SyncInfo)
present none = none
present (some i) = some (some i)

-- Option<SubscriptionSyncInfo>, of a field that may be missing
abbrev read_status : (Value → Option ℕ) → Option Value → Option (Option SyncInfo)
read_status uint none = some none
read_status uint (some null) = some none
read_status uint (some v) = present (read_info uint pascal_case v)

abbrev state : Option Value → Option (Option SyncInfo) → Option SubscriptionSyncState
state (some (bool b)) (some status) = some (record { syncing = b; status = status })
state _ _ = none

-- #[derive(Deserialize)] of SubscriptionSyncState
unfoldable pub read_state : (Value → Option ℕ) → Value → Option SubscriptionSyncState
unfolding read_info
read_state uint (object fs) =
    state (field_of "syncing" fs) (read_status uint (field_of "status" fs))
read_state uint (array (cons a (cons b nil))) = state (some a) (read_status uint (some b))
read_state uint _ = none

abbrev decoder_error : String → Result SyncState
decoder_error message = err (Error.decoder (Message.text message))

-- The arm for SyncStateVariants::Subscription
abbrev pub of_subscription : Bool → Option SyncInfo → Result SyncState
of_subscription false none = ok not_syncing
of_subscription true (some i) = ok (syncing i)
of_subscription _ _ = decoder_error "expected object or `syncing = false`, got `syncing = true`"

-- The arm for SyncStateVariants::Boolean, and what is none of the variants.
abbrev of_boolean : Value → Result SyncState
of_boolean (bool false) = ok not_syncing
of_boolean (bool true) = decoder_error "expected object or `false`, got `true`"
of_boolean _ = decoder_error "data did not match any variant of untagged enum SyncStateVariants"

abbrev or_boolean : Value → Option SubscriptionSyncState → Result SyncState
or_boolean v (some s) = of_subscription s.syncing s.status
or_boolean v none = of_boolean v

abbrev or_subscription : (Value → Option ℕ) → Value → Option SyncInfo → Result SyncState
or_subscription uint v (some i) = ok (syncing i)
or_subscription uint v none = or_boolean v (read_state uint v)

-- impl Deserialize for SyncState
unfoldable pub deserialize : (Value → Option ℕ) → Value → Result SyncState
unfolding read_info read_state
deserialize uint v = or_subscription uint v (read_info uint camel_case v)

-- #[derive(Serialize)] of the two structs, for how a U256 is written
abbrev pub write_info : (ℕ → Value) → Names → SyncInfo → Value
write_info uint names i = object (
    member names.starting (uint i.starting_block) (
      member names.current (uint i.current_block)
        (member names.highest (uint i.highest_block) end)))

-- impl Serialize for SyncState
unfoldable pub serialize : (ℕ → Value) → SyncState → Value
serialize uint (syncing i) = write_info uint camel_case i
serialize uint not_syncing = bool false
