-- ===== src/Api/Eth/Asked.antt =====
-- What the methods of src/api/eth.rs ask of a transport is what their node reads.
use rust_web.Prelude.Table.{lookup}
use rust_web.Prelude.{ℕ, String, List, none, some, ◌≡◌, refl}
use rust_web.Rpc.{Value}
use rust_web.Error.{Result, ok}
use rust_web.Session.{Transport}
use rust_web.Types.Block.{
  Formats, BlockNumber, latest, hash, number, TransactionId, serialize_number, serialize_id,
  deserialize_number, IsU64,
}
use rust_web.Types.Block.RoundTrip.{IsHex, number_round_trip}
use rust_web.Api.Eth.{ask, or_latest}
use rust_web.Api.Eth.Calls.{Call, perform, meaning, IsInRange}
use rust_web.Api.Eth.Node.{Readers, read}

-- The node reads back the hashes that are written.
abbrev pub IsReader : Formats → Readers → Type 0
IsReader formats readers =
    ((h : ℕ) → readers.read_hash (formats.serialize_hash h) ≡ some h)
    × ((h : ℕ) → readers.read_debug (formats.debug_hash h) ≡ some h)

module _ (formats : Formats) (readers : Readers) (hex : IsHex formats)
    (reader : IsReader formats readers) where
  read-number :
      (b : BlockNumber) → IsU64 b → deserialize_number formats (serialize_number formats b) ≡ ok b
  read-number b u = number_round_trip formats hex b u

  module _ {S A : Type 0} (transport : Transport S) (decode : Value → Result A) where
    -- What is asked for a call.
    abbrev IsAskedFor : Call → Type 0
    IsAskedFor c =
        (method : String) × (params : List Value) × (perform formats transport decode c
          ≡ ask formats transport decode method params)
        × (read formats readers method params ≡ some (meaning c))

    -- Each call of the namespace executes one request, over any transport, and the node reads from its
    -- method and its parameters what the call means: a block that is not given is the latest one. The
    -- block numbers are U64 and the node reads back the hashes and hexadecimal numbers that are written.
    pub perform-IsAskedFor : (c : Call) → IsInRange c → IsAskedFor c
    unfolding read lookup serialize_id
    perform-IsAskedFor Call.accounts u = (_, _, refl, refl)
    perform-IsAskedFor Call.block_number u = (_, _, refl, refl)
    perform-IsAskedFor (Call.call x none) u = (_, _, refl, rw (read-number latest u))
    perform-IsAskedFor (Call.call x (some (hash h))) u = (_, _, refl, rw (reader.1 h))
    perform-IsAskedFor (Call.call x (some (number b))) u = (_, _, refl, rw (read-number b u))
    perform-IsAskedFor Call.coinbase u = (_, _, refl, refl)
    perform-IsAskedFor (Call.compile_lll x) u = (_, _, refl, refl)
    perform-IsAskedFor (Call.compile_solidity x) u = (_, _, refl, refl)
    perform-IsAskedFor (Call.compile_serpent x) u = (_, _, refl, refl)
    perform-IsAskedFor (Call.estimate_gas x none) u = (_, _, refl, refl)
    perform-IsAskedFor (Call.estimate_gas x (some b)) u = (_, _, refl, rw (read-number b u))
    perform-IsAskedFor Call.gas_price u = (_, _, refl, refl)
    perform-IsAskedFor (Call.fee_history x y z) u = (_, _, refl, rw (read-number y u))
    perform-IsAskedFor (Call.balance x y) u = (_, _, refl, rw (read-number (or_latest y) u))
    perform-IsAskedFor (Call.logs x) u = (_, _, refl, refl)
    perform-IsAskedFor (Call.block (hash h)) u = (_, _, refl, rw (reader.0 h))
    perform-IsAskedFor (Call.block (number b)) u = (_, _, refl, rw (read-number b u))
    perform-IsAskedFor (Call.block_with_txs (hash h)) u = (_, _, refl, rw (reader.0 h))
    perform-IsAskedFor (Call.block_with_txs (number b)) u = (_, _, refl, rw (read-number b u))
    perform-IsAskedFor (Call.block_transaction_count (hash h)) u = (_, _, refl, rw (reader.0 h))
    perform-IsAskedFor (Call.block_transaction_count (number b)) u =
        (_, _, refl, rw (read-number b u))
    perform-IsAskedFor (Call.code x y) u = (_, _, refl, rw (read-number (or_latest y) u))
    perform-IsAskedFor Call.compilers u = (_, _, refl, refl)
    perform-IsAskedFor Call.chain_id u = (_, _, refl, refl)
    perform-IsAskedFor Call.request_accounts u = (_, _, refl, refl)
    perform-IsAskedFor (Call.storage x y z) u = (_, _, refl, rw (read-number (or_latest z) u))
    perform-IsAskedFor (Call.transaction_count x y) u =
        (_, _, refl, rw (read-number (or_latest y) u))
    perform-IsAskedFor (Call.transaction (TransactionId.hash h)) u = (_, _, refl, rw (reader.0 h))
    perform-IsAskedFor (Call.transaction (TransactionId.block (hash h) index)) u =
        (_, _, refl, rw (reader.0 h))
    perform-IsAskedFor (Call.transaction (TransactionId.block (number b) index)) u =
        (_, _, refl, rw (read-number b u))
    perform-IsAskedFor (Call.transaction_receipt h) u = (_, _, refl, rw (reader.0 h))
    perform-IsAskedFor (Call.uncle_header (hash h) y) u = (_, _, refl, rw (reader.0 h))
    perform-IsAskedFor (Call.uncle_header (number b) y) u = (_, _, refl, rw (read-number b u))
    perform-IsAskedFor (Call.uncle (hash h) y) u = (_, _, refl, rw (reader.0 h))
    perform-IsAskedFor (Call.uncle (number b) y) u = (_, _, refl, rw (read-number b u))
    perform-IsAskedFor (Call.uncle_count (hash h)) u = (_, _, refl, rw (reader.0 h))
    perform-IsAskedFor (Call.uncle_count (number b)) u = (_, _, refl, rw (read-number b u))
    perform-IsAskedFor Call.work u = (_, _, refl, refl)
    perform-IsAskedFor Call.hashrate u = (_, _, refl, refl)
    perform-IsAskedFor Call.mining u = (_, _, refl, refl)
    perform-IsAskedFor Call.new_block_filter u = (_, _, refl, refl)
    perform-IsAskedFor Call.new_pending_transaction_filter u = (_, _, refl, refl)
    perform-IsAskedFor Call.protocol_version u = (_, _, refl, refl)
    perform-IsAskedFor (Call.send_raw_transaction x) u = (_, _, refl, refl)
    perform-IsAskedFor (Call.send_transaction x) u = (_, _, refl, refl)
    perform-IsAskedFor (Call.sign x y) u = (_, _, refl, refl)
    perform-IsAskedFor (Call.submit_hashrate x y) u = (_, _, refl, refl)
    perform-IsAskedFor (Call.submit_work x y z) u = (_, _, refl, refl)
    perform-IsAskedFor Call.syncing u = (_, _, refl, refl)
    perform-IsAskedFor (Call.proof x y z) u = (_, _, refl, rw (read-number (or_latest z) u))
