-- ===== src/Types/SyncState/Tests.antt =====
-- States of syncing at concrete inputs, with plain numbers.
use rust_web.Prelude.{ℕ, Option, none, some, ◌≡◌, refl}
use rust_web.Rpc.{Value, number}
use rust_web.Error.{ok}
use rust_web.Types.SyncState.{SyncState, syncing, deserialize, serialize}
use rust_web.Types.SyncState.Formats.{notification_of, deserialize_formats}

abbrev plain : Value → Option ℕ
plain (number n) = some n
plain _ = none

abbrev halfway : SyncState
halfway = syncing (record { starting_block = 0; current_block = 5; highest_block = 10 })

deserialize_formats_example :
    (deserialize plain (serialize (λ n. number n) halfway) ≡ ok halfway)
    × (deserialize plain (notification_of (λ n. number n) halfway) ≡ ok halfway)
deserialize_formats_example = deserialize_formats (λ n. number n) plain (λ n. refl) halfway
