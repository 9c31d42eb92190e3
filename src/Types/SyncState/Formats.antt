-- ===== src/Types/SyncState/Formats.antt =====
-- src/types/sync_state.rs: the formats of a state of syncing are read alike.
use rust_web.Prelude.{ℕ, true, false, Option, some, ◌≡◌, refl}
use rust_web.Rpc.{Value, object, member, end, bool}
use rust_web.Error.{ok}
use rust_web.Types.SyncState.{
  SyncState, syncing, not_syncing, deserialize, serialize, write_info, pascal_case, read_info,
  read_state,
}

-- The notification of a subscription about a state.
abbrev pub notification_of : (ℕ → Value) → SyncState → Value
notification_of uint (syncing i) =
    object (member "syncing" (bool true) (member "status" (write_info uint pascal_case i) end))
notification_of uint not_syncing = object (member "syncing" (bool false) end)

-- A state is read back from the JSON that it is written as, and from the notification of a
-- subscription about it, which has another format, if numbers are read back.
pub deserialize_formats :
    (write : ℕ → Value) (read : Value → Option ℕ)
    → ((n : ℕ) → read (write n) ≡ some n)
    → (s : SyncState)
    → (deserialize read (serialize write s) ≡ ok s)
      × (deserialize read (notification_of write s) ≡ ok s)
unfolding deserialize serialize read_info read_state
deserialize_formats write read inverse (syncing i) = (
  rw (inverse i.starting_block, inverse i.current_block, inverse i.highest_block) refl,
  rw (inverse i.starting_block, inverse i.current_block, inverse i.highest_block) refl,
)
deserialize_formats write read inverse not_syncing = (refl, refl)
